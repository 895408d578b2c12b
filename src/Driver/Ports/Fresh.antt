-- ===== src/Driver/Ports/Fresh.antt =====
-- linux/v4v.c, "port/ring uniqueness": the port that a ring gets is in range and new.
use legacy_v4v.Prelude.{
  ℕ, suc, ◌-◌, ◌^◌, ◌≤◌, ◌<◌, ◌≡◌, ◌≢◌, List, [], ◌∷◌, arith, ltb, ◌==◌, if◌then◌else◌, length,
  ==_iff, Bool-cases, inl, inr,
}
use legacy_v4v.Abi.{add32}
use legacy_v4v.Driver.{Ring}
use legacy_v4v.Driver.Ports.{port_of, port_in_use, random_port, spare_port}

-- Every number of 32 bits is turned into a port from 0x80000000 to 0xf0000000.
pub random_port_range :
    (drawn : ℕ)
    → drawn < 2 ^ 32
    → (0x8000_0000 ≤ random_port drawn) × (random_port drawn ≤ 0xf000_0000)
unfolding random_port
random_port_range drawn h = ground arith

-- No ring of the list has the port.
abbrev pub IsUnused : ℕ → List (ℕ × Ring) → Type 0
IsUnused port [] = Unit
IsUnused port ((a, r) ∷ l) = (port_of r ≢ port) × IsUnused port l

abbrev pub PortsBelow : ℕ → List (ℕ × Ring) → Type 0
PortsBelow bound [] = Unit
PortsBelow bound ((a, r) ∷ l) = (port_of r < bound) × PortsBelow bound l

below_le : (m n : ℕ) (l : List (ℕ × Ring)) → m ≤ n → PortsBelow m l → PortsBelow n l
below_le m n [] h b = tt
below_le m n ((a, r) ∷ l) h (b, bs) = (omega arith, below_le m n l h bs)

-- `*max` is above every port and stays a number of 32 bits.
max_lem :
    (l : List (ℕ × Ring)) (port max : ℕ)
    → (max ≤ (port_in_use port max l).1) × PortsBelow (suc (port_in_use port max l).1) l
unfolding port_in_use
max_lem [] port max = (omega arith, tt)
max_lem ((a, r) ∷ l) port max =
    let (h, b) = max_lem l port (if ltb max (port_of r) then port_of r else max) in
    (ground arith, (ground arith, b))

max_below :
    (l : List (ℕ × Ring)) (port max bound : ℕ)
    → max < bound
    → PortsBelow bound l
    → (port_in_use port max l).1 < bound
unfolding port_in_use
max_below [] port max bound h b = h
max_below ((a, r) ∷ l) port max bound h (b, bs) =
    max_below l port (if ltb max (port_of r) then port_of r else max) bound (ground arith) bs

above-IsUnused : (l : List (ℕ × Ring)) (bound : ℕ) → PortsBelow bound l → IsUnused bound l
above-IsUnused [] bound b = tt
above-IsUnused ((a, r) ∷ l) bound (b, bs) = (λ e. omega arith, above-IsUnused l bound bs)

-- With fewer than 2^32 rings the count does not wrap.
pub count_le :
    (l : List (ℕ × Ring)) (port max : ℕ) → length l < 2 ^ 32 → (port_in_use port max l).0 ≤ length l
unfolding port_in_use
count_le [] port max h = omega arith
count_le ((a, r) ∷ l) port max h =
    let ih = count_le l port (if ltb max (port_of r) then port_of r else max) (omega arith) in
    ground arith

none_used :
    (l : List (ℕ × Ring)) (port max : ℕ)
    → length l < 2 ^ 32
    → (port_in_use port max l).0 ≡ 0
    → IsUnused port l
unfolding port_in_use
none_used [] port max h e = tt
none_used ((a, r) ∷ l) port max h e =
    let max' = if ltb max (port_of r) then port_of r else max in
    let c = count_le l port max' (omega arith) in
    (λ q. ground arith, none_used l port max' (omega arith) (ground arith))

-- v4v_find_spare_port_number returns a port of the upper half of the 32-bit numbers that no ring of
-- the list has, if every port in use is below 0xffffffff and there are fewer than 2^32 rings.
pub spare_port-IsUnused :
    (drawn : ℕ) (l : List (ℕ × Ring))
    → drawn < 2 ^ 32
    → PortsBelow (2 ^ 32 - 1) l
    → length l < 2 ^ 32
    → IsUnused (spare_port (random_port drawn) l) l
      × (2 ^ 31 ≤ spare_port (random_port drawn) l)
      × (spare_port (random_port drawn) l < 2 ^ 32)
unfolding spare_port
spare_port-IsUnused drawn l h b n =
    let port = random_port drawn in
    let (lo, hi) = random_port_range drawn h in
    let (ml, mb) = max_lem l port 0x8000_0000 in
    let mh = max_below l port 0x8000_0000 (2 ^ 32 - 1) (omega arith) b in
    elim (Bool-cases ((port_in_use port 0x8000_0000 l).0 == 0)) [
      | inl e ↦ rw e (
        none_used l port 0x8000_0000 n ((==_iff (port_in_use port 0x8000_0000 l).0 0).0 e),
        omega arith,
        omega arith,
      )
      | inr e ↦
          let w : add32 (port_in_use port 0x8000_0000 l).1 1
              ≡ suc (port_in_use port 0x8000_0000 l).1 =
            omega arith in
          rw e (
            rw w (
              above-IsUnused l (suc (port_in_use port 0x8000_0000 l).1) mb,
              omega arith,
              omega arith,
            ))
    ]
