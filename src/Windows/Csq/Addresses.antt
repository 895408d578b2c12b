-- ===== src/Windows/Csq/Addresses.antt =====
-- windows/xenv4v/csq.c: the walks through the destination list, address by address.
use legacy_v4v.Prelude.{
  ℕ, suc, ◌≡◌, refl, sym, ap, subst, ◌∙◌, Bool, true, false, inl, inr, Option, none, some, List, [],
  ◌∷◌, length, ◌==◌, if◌then◌else◌, Bool-cases, arith, ◌⊎◌,
}
use mathlib.Core.Bool.{false≢true}
use legacy_v4v.Abi.{Addr, same_addr}
use legacy_v4v.Windows.Csq.{Irp, Destination, chain_irp, link_walk}
use legacy_v4v.Windows.Csq.Pending.{lookup, Distinct}

pub ==_refl : (n : ℕ) → (n == n) ≡ true
==_refl n = ground arith

pub same_addr_refl : (a : Addr) → same_addr a a ≡ true
same_addr_refl a = rw (==_refl a.port) (==_refl a.domain)

pub same_addr-eq : (a b : Addr) → same_addr a b ≡ true → a ≡ b
same_addr-eq a b h = λ i. record { port = ports i; domain = domains i }
  where
    ports : a.port ≡ b.port
    ports = ground arith

    domains : a.domain ≡ b.domain
    domains = ground arith

pub same_addr_sym : (a b : Addr) → same_addr a b ≡ same_addr b a
same_addr_sym a b = ground arith

module _ {ℓ} {A : Type ℓ} where
  if_again : (t : Bool) (x y z : A) → (if t then x else z) ≡ (if t then x else if t then y else z)
  if_again true x y z = refl
  if_again false x y z = refl

  if_swap :
      (p q : Bool) (x y z : A)
      → (p ≡ true → q ≡ true → ⊥)
      → (if p then x else if q then y else z) ≡ (if q then y else if p then x else z)
  if_swap true true x y z h = absurd (h refl refl)
  if_swap true false x y z h = refl
  if_swap false q x y z h = refl

-- An entry for another address
other_addr :
    (a d b : Addr) → same_addr a d ≡ false → same_addr a b ≡ true → same_addr d b ≡ true → ⊥
other_addr a d b n ab db =
    let e : a ≡ d = same_addr-eq a b ab ∙ sym (same_addr-eq d b db) in
    false≢true (sym n ∙ ap (λ z. same_addr a z) (sym e) ∙ same_addr_refl a)

-- An entry that one more IRP is chained on.
abbrev pub joined : Destination → Irp → Bool → Destination
joined x irp front = chain_irp (record x { refc = suc x.refc }) irp front

joined-dst : (x : Destination) (irp : Irp) (front : Bool) → (joined x irp front).dst ≡ x.dst
unfolding chain_irp
joined-dst x irp true = refl
joined-dst x irp false = refl

-- What a walk does to a list: the entry for `d` is changed by `f`, the others are as before.
abbrev pub IsUpdate : Addr → List Destination → List Destination → Option Destination → Type 0
IsUpdate d ds ys new = (b : Addr) → lookup b ys ≡ (if same_addr d b then new else lookup b ds)

-- The head has the address.
pub IsUpdate-here :
    (d : Addr) (x y : Destination) (xs : List Destination)
    → same_addr x.dst d ≡ true
    → y.dst ≡ x.dst
    → IsUpdate d (x ∷ xs) (y ∷ xs) (some y)
IsUpdate-here d x y xs e same b =
    let xd = same_addr-eq x.dst d e in
    ap (λ z. if same_addr z b then some y else lookup b xs) (same ∙ xd)
    ∙ if_again (same_addr d b) (some y) (some x) (lookup b xs)
    ∙ ap (λ z. if same_addr d b then some y else if same_addr z b then some x else lookup b xs)
        (sym xd)

-- The head has another address.
pub IsUpdate-there :
    (d : Addr) (x : Destination) (xs ys : List Destination) (new : Option Destination)
    → same_addr x.dst d ≡ false
    → IsUpdate d xs ys new
    → IsUpdate d (x ∷ xs) (x ∷ ys) new
IsUpdate-there d x xs ys new e h b =
    ap (λ z. if same_addr x.dst b then some x else z) (h b)
    ∙ if_swap (same_addr x.dst b) (same_addr d b) (some x) new (lookup b xs)
        (other_addr x.dst d b e)

-- The entries stay distinct where no other address is touched.
pub Distinct-there :
    (d : Addr) (x : Destination) (xs ys : List Destination) (new : Option Destination)
    → same_addr x.dst d ≡ false
    → IsUpdate d xs ys new
    → lookup x.dst xs ≡ none
    → Distinct ys
    → Distinct (x ∷ ys)
Distinct-there d x xs ys new e h fresh ds =
    (h x.dst ∙ ap (λ t. if t then new else lookup x.dst xs) (same_addr_sym d x.dst ∙ e) ∙ fresh, ds)

module _ (irp : Irp) (d : Addr) (front : Bool) where
  -- What V4vCsqLinkDestination's walk has done to a list.
  abbrev pub Walked : List Destination → Option (List Destination) → Type 0
  Walked ds none = lookup d ds ≡ none
  Walked ds (some ys) =
      (x : Destination) × (lookup d ds ≡ some x)
      × IsUpdate d ds ys (some (joined x irp front))
      × (length ys ≡ length ds)
      × (Distinct ds → Distinct ys)

  pub link_walk-Walked : (ds : List Destination) → Walked ds (link_walk ds irp d front)
  link_walk-Walked [] = refl
  link_walk-Walked (x ∷ xs) = split (Bool-cases (same_addr x.dst d)) (link_walk-Walked xs)
    where
      go :
          (o : Option (List Destination))
          → same_addr x.dst d ≡ false
          → Walked xs o
          → Walked (x ∷ xs) (elim o [ none ↦ none | some ys ↦ some (x ∷ ys) ])
      go none e h = ap (λ t. if t then some x else lookup d xs) e ∙ h
      go (some ys) e (y, found, update, size, distinct) = (
        y,
        ap (λ t. if t then some x else lookup d xs) e ∙ found,
        IsUpdate-there d x xs ys (some (joined y irp front)) e update,
        ap suc size,
        λ (fresh, ds).
            Distinct-there d x xs ys (some (joined y irp front)) e update fresh (distinct ds),
      )

      split :
          (same_addr x.dst d ≡ true) ⊎ (same_addr x.dst d ≡ false)
          → Walked xs (link_walk xs irp d front)
          → Walked (x ∷ xs) (link_walk (x ∷ xs) irp d front)
      split (inr e) h =
          subst
            (λ t. Walked (x ∷ xs) (
              if t
              then some (joined x irp front ∷ xs)
              else elim (link_walk xs irp d front) [ none ↦ none | some ys ↦ some (x ∷ ys) ]))
            (sym e) (go (link_walk xs irp d front) e h)
      split (inl e) h =
          subst
            (λ t. Walked (x ∷ xs) (
              if t
              then some (joined x irp front ∷ xs)
              else elim (link_walk xs irp d front) [ none ↦ none | some ys ↦ some (x ∷ ys) ]))
            (sym e)
            (
              x,
              ap (λ t. if t then some x else lookup d xs) e,
              IsUpdate-here d x (joined x irp front) xs e (joined-dst x irp front),
              refl,
              λ (fresh, ds). (ap (λ z. lookup z xs) (joined-dst x irp front) ∙ fresh, ds),
            )
