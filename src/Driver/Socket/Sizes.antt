-- ===== src/Driver/Socket/Sizes.antt =====
-- linux/v4v.c, v4v_set_ring_size: which sizes are taken.
use legacy_v4v.Prelude.{
  ℕ, ◌+◌, ◌%◌, ◌^◌, ◌<◌, Bool, ◌≡◌, refl, Bool-cases, inl, inr, ap, ◌∙◌, some, arith, ltb, leb,
  ◌==◌, ◌&&◌, if◌then◌else◌, not,
}
use legacy_v4v.Errno.{einval, ok, err}
use legacy_v4v.Abi.{roundup, header_size}
use legacy_v4v.Driver.{Private, Driver, update}
use legacy_v4v.Driver.Loads.{load_private-bind}
use legacy_v4v.Driver.Socket.{set_ring_size, is_idle}

-- Room for a header and a byte of payload, in whole sixteens.
abbrev pub is_ring_size : ℕ → Bool
is_ring_size n = leb 32 n && n % 16 == 0

in_sixteens : (n : ℕ) → n < 2 ^ 32 → (n == roundup n) ≡ (n % 16 == 0)
in_sixteens n h = ground arith

is_ring_size_split :
    (n : ℕ)
    → n < 2 ^ 32
    → is_ring_size n ≡ (not (ltb n (header_size + roundup 1)) && n == roundup n)
is_ring_size_split n h = rw (in_sixteens n h) (ap (λ b. b && n % 16 == 0) at_least)
  where
    at_least : leb 32 n ≡ not (ltb n 32)
    at_least = ground arith

-- v4v_set_ring_size takes a size of an idle socket, and stores it, if and only if it is a multiple of
-- 16 and at least 32; it answers EINVAL otherwise and changes nothing.
pub set_ring_size_lem :
    (d : Driver) (a n : ℕ) (p : Private)
    → d.privates a ≡ some p
    → n < 2 ^ 32
    → set_ring_size a n d ≡ (
        if is_ring_size n && is_idle p.state
        then some (
          ok 0,
          record d { privates = update d.privates a (some (record p { desired_ring_size = n })) },
        )
        else some (err einval, d))
unfolding set_ring_size
set_ring_size_lem d a n p e h =
    let s = is_ring_size_split n h in
    load_private-bind a _ d p e
    ∙ rw s (elim (Bool-cases (ltb n (header_size + roundup 1))) [
      | inl e1 ↦ rw e1 refl
      | inr e1 ↦ rw e1 (elim (Bool-cases (n == roundup n)) [
        | inr e2 ↦ rw e2 refl
        | inl e2 ↦
            rw e2
              (elim (Bool-cases (is_idle p.state)) [ inl e3 ↦ rw e3 refl | inr e3 ↦ rw e3 refl ])
      ])
    ])
