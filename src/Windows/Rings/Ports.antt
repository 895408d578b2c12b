-- ===== src/Windows/Rings/Ports.antt =====
-- windows/xenv4v: the port of a ring that asked for none, as in the Linux driver.
use legacy_v4v.Prelude.{
  ℕ, suc, ◌-◌, ◌^◌, ◌<◌, ◌≤◌, ◌≡◌, refl, ap, Bool, true, false, not, ◌||◌, inl, inr, List, [], ◌∷◌,
  ltb, ◌==◌, if◌then◌else◌, Bool-cases, length, arith,
}
use legacy_v4v.Abi.{RingId, add32}
use legacy_v4v.Driver.{Ring}
use legacy_v4v.Driver.Ports.{port_of, port_in_use, random_port, spare_port}
use legacy_v4v.Driver.Ports.Fresh.{count_le}
use legacy_v4v.Windows.Rings.{
  RingObject, v4v_port_in_use, v4v_random_port, spare_port_number, ring_id_in_use,
}

-- The two lists have the same ports, in their orders.
abbrev pub SamePorts : List (ℕ × RingObject) → List (ℕ × Ring) → Type 0
SamePorts [] [] = Unit
SamePorts [] (y ∷ k) = ⊥
SamePorts (x ∷ l) [] = ⊥
SamePorts ((a, r) ∷ l) ((b, p) ∷ k) = (r.ring_id.addr.port ≡ port_of p) × SamePorts l k

counted :
    (here : Bool) (used : Bool) {n : ℕ} {m : ℕ}
    → used ≡ not (n == 0)
    → n ≤ m
    → m < 2 ^ 32 - 1
    → (here || used) ≡ not ((if here then add32 n 1 else n) == 0)
counted here used e h k = ground arith

-- The highest port of the two, and whether there is one in use.
port_in_use_lem :
    (l : List (ℕ × RingObject)) (k : List (ℕ × Ring)) (port max : ℕ)
    → SamePorts l k
    → length k < 2 ^ 32
    → ((v4v_port_in_use port max l).1 ≡ (port_in_use port max k).1)
      × ((v4v_port_in_use port max l).0 ≡ not ((port_in_use port max k).0 == 0))
unfolding v4v_port_in_use port_in_use
port_in_use_lem [] [] port max s n = (refl, refl)
port_in_use_lem [] (y ∷ k) port max s n = absurd s
port_in_use_lem (x ∷ l) [] port max s n = absurd s
port_in_use_lem ((a, r) ∷ l) ((b, p) ∷ k) port max (e, es) n =
    let max' = if ltb max (port_of p) then port_of p else max in
    let (same, used) = port_in_use_lem l k port max' es (omega arith) in
    let c = count_le k port max' (omega arith) in
    rw e (same, counted (port_of p == port) (v4v_port_in_use port max' l).0 used c (omega arith))

chosen :
    (unused : Bool) (port : ℕ) {used : Bool} {max max' : ℕ}
    → used ≡ not unused
    → max ≡ max'
    → (if used then add32 max 1 else port) ≡ (if unused then port else add32 max' 1)
chosen true port e h = rw e refl
chosen false port e h = rw e (ap (λ n. add32 n 1) h)

-- V4vSparePortNumber of the Windows driver and v4v_find_spare_port_number of the Linux driver give
-- the same port, for the same number drawn and rings with the same ports, of which there are fewer
-- than 2^32.
pub spare_port_number-spare_port :
    (drawn : ℕ) (l : List (ℕ × RingObject)) (k : List (ℕ × Ring))
    → SamePorts l k
    → length k < 2 ^ 32
    → spare_port_number (v4v_random_port drawn) l ≡ spare_port (random_port drawn) k
unfolding spare_port_number spare_port v4v_random_port random_port
spare_port_number-spare_port drawn l k s n =
    let (same, used) = port_in_use_lem l k (random_port drawn) 0x8000_0000 s n in
    chosen ((port_in_use (random_port drawn) 0x8000_0000 k).0 == 0) (random_port drawn) used same

-- No ring of the list has the port.
abbrev pub IsUnused : ℕ → List (ℕ × RingObject) → Type 0
IsUnused port [] = Unit
IsUnused port ((a, r) ∷ l) = ((r.ring_id.addr.port == port) ≡ false) × IsUnused port l

abbrev pub PortsBelow : ℕ → List (ℕ × RingObject) → Type 0
PortsBelow top [] = Unit
PortsBelow top ((a, r) ∷ l) = (r.ring_id.addr.port < top) × PortsBelow top l

max_lem :
    (l : List (ℕ × RingObject)) (port max : ℕ)
    → (max ≤ (v4v_port_in_use port max l).1) × PortsBelow (suc (v4v_port_in_use port max l).1) l
unfolding v4v_port_in_use
max_lem [] port max = (omega arith, tt)
max_lem ((a, r) ∷ l) port max =
    let p = r.ring_id.addr.port in
    let (h, b) = max_lem l port (if ltb max p then p else max) in (ground arith, (ground arith, b))

max_below :
    (l : List (ℕ × RingObject)) (port max top : ℕ)
    → max < top
    → PortsBelow top l
    → (v4v_port_in_use port max l).1 < top
unfolding v4v_port_in_use
max_below [] port max top h b = h
max_below ((a, r) ∷ l) port max top h (b, bs) =
    let p = r.ring_id.addr.port in
    max_below l port (if ltb max p then p else max) top (ground arith) bs

above-IsUnused : (l : List (ℕ × RingObject)) (top : ℕ) → PortsBelow top l → IsUnused top l
above-IsUnused [] top b = tt
above-IsUnused ((a, r) ∷ l) top (b, bs) = (ground arith, above-IsUnused l top bs)

none_used :
    (l : List (ℕ × RingObject)) (port max : ℕ)
    → (v4v_port_in_use port max l).0 ≡ false
    → IsUnused port l
unfolding v4v_port_in_use
none_used [] port max e = tt
none_used ((a, r) ∷ l) port max e =
    let p = r.ring_id.addr.port in
    let max' = if ltb max p then p else max in
    let here : (p == port) ≡ false = ground arith in
    let later : (v4v_port_in_use port max' l).0 ≡ false = ground arith in
    (here, none_used l port max' later)

pub spare_port_number-IsUnused :
    (port : ℕ) (l : List (ℕ × RingObject))
    → PortsBelow (2 ^ 32 - 1) l
    → IsUnused (spare_port_number port l) l
unfolding spare_port_number
spare_port_number-IsUnused port l b =
    let (ml, mb) = max_lem l port 0x8000_0000 in
    let mh = max_below l port 0x8000_0000 (2 ^ 32 - 1) (omega arith) b in
    elim (Bool-cases (v4v_port_in_use port 0x8000_0000 l).0) [
      | inl e ↦
          let w : add32 (v4v_port_in_use port 0x8000_0000 l).1 1
              ≡ suc (v4v_port_in_use port 0x8000_0000 l).1 =
            omega arith in
          rw e (rw w (above-IsUnused l (suc (v4v_port_in_use port 0x8000_0000 l).1) mb))
      | inr e ↦ rw e (none_used l port 0x8000_0000 e)
    ]

pub IsUnused-ring_id_in_use :
    (id : RingId) (l : List (ℕ × RingObject))
    → IsUnused id.addr.port l
    → ring_id_in_use id l ≡ false
unfolding ring_id_in_use
IsUnused-ring_id_in_use id [] h = refl
IsUnused-ring_id_in_use id ((a, r) ∷ l) (h, hs) = rw h (IsUnused-ring_id_in_use id l hs)
