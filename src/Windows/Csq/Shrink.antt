-- ===== src/Windows/Csq/Shrink.antt =====
-- windows/xenv4v/csq.c: V4vCsqUnlinkDestination's walk, address by address.
use legacy_v4v.Prelude.{
  ℕ, suc, ◌-◌, ◌≡◌, refl, sym, ap, subst, ◌∙◌, Bool, true, false, inl, inr, Option, none, some,
  List, [], ◌∷◌, length, ◌==◌, if◌then◌else◌, Bool-cases,
}
use legacy_v4v.Abi.{Addr, same_addr}
use legacy_v4v.Windows.Csq.{Irp, Destination, unlink_irp, front_length, unchain_irp, unlink_walk}
use legacy_v4v.Windows.Csq.Pending.{lookup, Distinct}
use legacy_v4v.Windows.Csq.Addresses.{
  same_addr-eq, IsUpdate, IsUpdate-here, IsUpdate-there, Distinct-there,
}

-- An entry that one IRP less waits for, or none after the last.
abbrev pub shrunk : ℕ → Option Destination → Option Destination
shrunk id none = none
shrunk id (some x) =
    if x.refc - 1 == 0 then none else some (record (unchain_irp x id) { refc = x.refc - 1 })

unchain_irp-dst : (x : Destination) (id : ℕ) → (unchain_irp x id).dst ≡ x.dst
unfolding unchain_irp
unchain_irp-dst x id = by_chain x.chain
  where
    by_chain :
        (chain : List Irp)
        → (elim chain as (λ c. Destination) [
          | [] ↦ x
          | y ∷ ys ↦
              if y.id == id
              then record x { chain = ys; next_length = front_length ys x.next_length }
              else record x { chain = y ∷ unlink_irp id ys }
        ]).dst
          ≡ x.dst
    by_chain [] = refl
    by_chain (y ∷ ys) = elim (Bool-cases (y.id == id)) [ inl e ↦ rw e refl | inr e ↦ rw e refl ]

-- The head has the address, and leaves the list.
IsUpdate-gone :
    (d : Addr) (x : Destination) (xs : List Destination)
    → same_addr x.dst d ≡ true
    → lookup x.dst xs ≡ none
    → IsUpdate d (x ∷ xs) xs none
IsUpdate-gone d x xs e fresh b =
    let xd = same_addr-eq x.dst d e in
    elim (Bool-cases (same_addr d b)) [
      | inl h ↦
          let db = same_addr-eq d b h in
          ap (λ z. lookup z xs) (sym db ∙ sym xd)
          ∙ fresh
          ∙ ap (λ t. if t then none else if same_addr x.dst b then some x else lookup b xs) (sym h)
      | inr h ↦
          let other : same_addr x.dst b ≡ false = ap (λ z. same_addr z b) xd ∙ h in
          ap (λ t. if t then some x else lookup b xs) (sym other)
          ∙ ap (λ t. if t then none else if same_addr x.dst b then some x else lookup b xs) (sym h)
    ]

if_same : (t : Bool) → ◌≡◌ {A = Option Destination} none (if t then none else none)
if_same true = refl
if_same false = refl

module _ (id : ℕ) (d : Addr) where
  -- What the walk has done to a list.
  abbrev pub Walked : List Destination → List Destination × Bool → Type 0
  Walked ds (ys, gone) =
      IsUpdate d ds ys (shrunk id (lookup d ds))
      × Distinct ys
      × (length ds ≡ (if gone then suc (length ys) else length ys))

  abbrev pub walk_on :
      Destination → List Destination → List Destination × Bool → Bool → List Destination × Bool
  walk_on x xs (rest, gone) t =
      if t
      then (if x.refc - 1 == 0
          then (xs, true)
          else (record (unchain_irp x id) { refc = x.refc - 1 } ∷ xs, false))
      else (x ∷ rest, gone)

  gone_head :
      (x : Destination) (xs : List Destination) (p : List Destination × Bool)
      → same_addr x.dst d ≡ true
      → Distinct (x ∷ xs)
      → Walked (x ∷ xs) (walk_on x xs p true)
  gone_head x xs p e (fresh, ds) =
      let (update, distinct, size) = outcome (x.refc - 1 == 0) in
      (
        subst (λ o. IsUpdate d (x ∷ xs) (after (x.refc - 1 == 0)).0 (shrunk id o))
            (ap (λ t. if t then some x else lookup d xs) (sym e)) update,
        distinct,
        size,
      )
    where
      less : Destination
      less = record (unchain_irp x id) { refc = x.refc - 1 }

      after : Bool → List Destination × Bool
      after t = if t then (xs, true) else (less ∷ xs, false)

      outcome :
          (t : Bool)
          → IsUpdate d (x ∷ xs) (after t).0 (if t then none else some less)
            × Distinct (after t).0
            × (suc (length xs)
                ≡ (if (after t).1 then suc (length (after t).0) else length (after t).0))
      outcome true = (IsUpdate-gone d x xs e fresh, ds, refl)
      outcome false = (
        IsUpdate-here d x less xs e (unchain_irp-dst x id),
        (ap (λ z. lookup z xs) (unchain_irp-dst x id) ∙ fresh, ds),
        refl,
      )

  kept_head :
      (x : Destination) (xs : List Destination) (p : List Destination × Bool)
      → same_addr x.dst d ≡ false
      → Distinct (x ∷ xs)
      → Walked xs p
      → Walked (x ∷ xs) (walk_on x xs p false)
  kept_head x xs (rest, gone) e (fresh, ds) (update, distinct, size) = (
    subst (λ o. IsUpdate d (x ∷ xs) (x ∷ rest) (shrunk id o))
        (ap (λ t. if t then some x else lookup d xs) (sym e))
        (IsUpdate-there d x xs rest (shrunk id (lookup d xs)) e update),
    Distinct-there d x xs rest (shrunk id (lookup d xs)) e update fresh distinct,
    ap suc size ∙ by_gone gone,
  )
    where
      by_gone :
          (t : Bool)
          → suc (if t then suc (length rest) else length rest)
            ≡ (if t then suc (suc (length rest)) else suc (length rest))
      by_gone true = refl
      by_gone false = refl

  pub unlink_walk-Walked : (ds : List Destination) → Distinct ds → Walked ds (unlink_walk ds id d)
  unlink_walk-Walked [] h = (λ b. if_same (same_addr d b), tt, refl)
  unlink_walk-Walked (x ∷ xs) (fresh, ds) = elim (Bool-cases (same_addr x.dst d)) [
    | inl e ↦
        subst (λ t. Walked (x ∷ xs) (walk_on x xs (unlink_walk xs id d) t)) (sym e)
          (gone_head x xs (unlink_walk xs id d) e (fresh, ds))
    | inr e ↦
        subst (λ t. Walked (x ∷ xs) (walk_on x xs (unlink_walk xs id d) t)) (sym e)
          (kept_head x xs (unlink_walk xs id d) e (fresh, ds) (unlink_walk-Walked xs ds))
  ]
