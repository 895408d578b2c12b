-- ===== src/Windows/Syn/Chain.antt =====
-- windows/xenv4v: the chain of a listener's pending SYNs through its array.
use legacy_v4v.Prelude.{
  ℕ, zero, suc, ◌+◌, ◌<◌, ◌≡◌, refl, sym, ap, ap₂, ◌∙◌, Bool, true, false, inl, inr, ◌⊎◌, Option,
  none, some, List, [], ◌∷◌, ◌++◌, length, ◌==◌, ==_iff, if◌then◌else◌, Bool-cases, arith,
}
use mathlib.Core.Bool.{false≢true}
use mathlib.Core.Option.{none-ne-some, some-injective}
use legacy_v4v.Abi.{Addr}
use legacy_v4v.Windows.Syn.{Syn, slot_at, set_at, free_slot}

abbrev pub first : List ℕ → Option ℕ
first [] = none
first (i ∷ r) = some i

abbrev pub last_of : List ℕ → Option ℕ
last_of [] = none
last_of (i ∷ []) = some i
last_of (i ∷ j ∷ r) = last_of (j ∷ r)

-- The index is not in the list.
abbrev pub IsFresh : ℕ → List ℕ → Type 0
IsFresh i [] = Unit
IsFresh i (j ∷ r) = ((j == i) ≡ false) × IsFresh i r

-- The records at these indices are pending, and each leads to the next.
abbrev pub Chain : List Syn → List ℕ → Type 0
Chain l [] = Unit
Chain l (i ∷ r) =
    ((slot_at l i).next ≡ first r) × ((slot_at l i).pending ≡ true) × IsFresh i r × Chain l r

-- What they hold
abbrev pub contents : List Syn → List ℕ → List (Addr × ℕ)
contents l [] = []
contents l (i ∷ r) = ((slot_at l i).sdst, (slot_at l i).conn_id) ∷ contents l r

-- The number of pending records
abbrev pub pendings : List Syn → ℕ
pendings [] = 0
pendings (x ∷ xs) = let rest = pendings xs in if x.pending then suc rest else rest

pub length-set_at : (l : List Syn) (i : ℕ) (s : Syn) → length (set_at l i s) ≡ length l
length-set_at [] i s = refl
length-set_at (x ∷ xs) zero s = refl
length-set_at (x ∷ xs) (suc i) s = ap suc (length-set_at xs i s)

pub slot_at-set_at : (l : List Syn) (i : ℕ) (s : Syn) → i < length l → slot_at (set_at l i s) i ≡ s
slot_at-set_at [] i s h = absurd (omega arith)
slot_at-set_at (x ∷ xs) zero s h = refl
slot_at-set_at (x ∷ xs) (suc i) s h = slot_at-set_at xs i s (omega arith)

pub slot_at-set_at_other :
    (l : List Syn) (i j : ℕ) (s : Syn) → (j == i) ≡ false → slot_at (set_at l i s) j ≡ slot_at l j
slot_at-set_at_other [] i j s h = refl
slot_at-set_at_other (x ∷ xs) zero zero s h = absurd (false≢true (sym h))
slot_at-set_at_other (x ∷ xs) zero (suc j) s h = refl
slot_at-set_at_other (x ∷ xs) (suc i) zero s h = refl
slot_at-set_at_other (x ∷ xs) (suc i) (suc j) s h =
    let e : (j == i) ≡ false = ground arith in slot_at-set_at_other xs i j s e

-- A pending record is in the array.
pub pending-lt : (l : List Syn) (i : ℕ) → (slot_at l i).pending ≡ true → i < length l
pending-lt [] i h = absurd (false≢true h)
pending-lt (x ∷ xs) zero h = omega arith
pending-lt (x ∷ xs) (suc i) h = let r = pending-lt xs i h in omega arith

abbrev pub bit : Bool → ℕ
bit true = 1
bit false = 0

pub pendings-set_at :
    (l : List Syn) (i : ℕ) (s : Syn)
    → i < length l
    → pendings (set_at l i s) + bit (slot_at l i).pending ≡ pendings l + bit s.pending
pendings-set_at [] i s h = absurd (omega arith)
pendings-set_at (x ∷ xs) zero s h = by_bits x.pending s.pending
  where
    by_bits :
        (a b : Bool)
        → (if b then suc (pendings xs) else pendings xs) + bit a
          ≡ (if a then suc (pendings xs) else pendings xs) + bit b
    by_bits true true = refl
    by_bits true false = omega arith
    by_bits false true = omega arith
    by_bits false false = refl
pendings-set_at (x ∷ xs) (suc i) s h =
    let r = pendings-set_at xs i s (omega arith) in by_bit x.pending r
  where
    by_bit :
        (a : Bool)
        → pendings (set_at xs i s) + bit (slot_at xs i).pending ≡ pendings xs + bit s.pending
        → (if a then suc (pendings (set_at xs i s)) else pendings (set_at xs i s))
            + bit (slot_at xs i).pending
          ≡ (if a then suc (pendings xs) else pendings xs) + bit s.pending
    by_bit true r = omega arith
    by_bit false r = r

-- The search finds a free record while not all are pending.
pub free_slot_lem :
    (l : List Syn)
    → pendings l < length l
    → (free_slot l < length l) × ((slot_at l (free_slot l)).pending ≡ false)
free_slot_lem [] h = absurd (omega arith)
free_slot_lem (x ∷ xs) h = by_pending x.pending refl (λ few. free_slot_lem xs few)
  where
    by_pending :
        (b : Bool)
        → x.pending ≡ b
        → (pendings xs < length xs
            → (free_slot xs < length xs) × ((slot_at xs (free_slot xs)).pending ≡ false))
        → ((if b then suc (free_slot xs) else 0) < suc (length xs))
          × ((slot_at (x ∷ xs) (if b then suc (free_slot xs) else 0)).pending ≡ false)
    by_pending true e next =
        let few : pendings xs < length xs =
          let r = ap (λ b. if b then suc (pendings xs) else pendings xs) e in omega arith in
        let (lt, free) = next few in (omega arith, free)
    by_pending false e next = (omega arith, e)

-- A store outside the chain
module _ (l : List Syn) (i : ℕ) (s : Syn) where
  pub Chain-set_at : (r : List ℕ) → IsFresh i r → Chain l r → Chain (set_at l i s) r
  Chain-set_at [] f c = tt
  Chain-set_at (j ∷ r) (f, fs) (next, live, fresh, c) =
      let same = slot_at-set_at_other l i j s f in
      (ap (λ x. x.next) same ∙ next, ap (λ x. x.pending) same ∙ live, fresh, Chain-set_at r fs c)

  pub contents-set_at : (r : List ℕ) → IsFresh i r → contents (set_at l i s) r ≡ contents l r
  contents-set_at [] f = refl
  contents-set_at (j ∷ r) (f, fs) =
      ap₂ (λ x c. (x.sdst, x.conn_id) ∷ c) (slot_at-set_at_other l i j s f) (contents-set_at r fs)

-- A record that is not pending is not in the chain.
pub free-IsFresh :
    (l : List Syn) (i : ℕ) (r : List ℕ) → (slot_at l i).pending ≡ false → Chain l r → IsFresh i r
free-IsFresh l i [] h c = tt
free-IsFresh l i (j ∷ r) h (next, live, fresh, c) =
    (apart (Bool-cases (j == i)), free-IsFresh l i r h c)
  where
    apart : ((j == i) ≡ true) ⊎ ((j == i) ≡ false) → (j == i) ≡ false
    apart (inl e) =
        absurd
          (false≢true (sym h ∙ ap (λ k. (slot_at l k).pending) (sym ((==_iff j i).0 e)) ∙ live))
    apart (inr e) = e

-- The end of a chain is in it.
pub last_of-apart : (i t : ℕ) (r : List ℕ) → IsFresh i r → last_of r ≡ some t → (t == i) ≡ false
last_of-apart i t [] f e = absurd (none-ne-some t e)
last_of-apart i t (j ∷ []) (f, fs) e = ap (λ k. k == i) (sym (some-injective j t e)) ∙ f
last_of-apart i t (j ∷ k ∷ r) (f, fs) e = last_of-apart i t (k ∷ r) fs e

pub last_of-pending :
    (l : List Syn) (t : ℕ) (r : List ℕ)
    → Chain l r
    → last_of r ≡ some t
    → (slot_at l t).pending ≡ true
last_of-pending l t [] c e = absurd (none-ne-some t e)
last_of-pending l t (j ∷ []) (next, live, fresh, c) e =
    ap (λ k. (slot_at l k).pending) (sym (some-injective j t e)) ∙ live
last_of-pending l t (j ∷ k ∷ r) (next, live, fresh, c) e = last_of-pending l t (k ∷ r) c e

pub last_of-append : (r : List ℕ) (i : ℕ) → last_of (r ++ (i ∷ [])) ≡ some i
last_of-append [] i = refl
last_of-append (j ∷ []) i = refl
last_of-append (j ∷ k ∷ r) i = last_of-append (k ∷ r) i

IsFresh-append :
    (j : ℕ) (r : List ℕ) (i : ℕ) → IsFresh j r → (i == j) ≡ false → IsFresh j (r ++ (i ∷ []))
IsFresh-append j [] i f e = (e, tt)
IsFresh-append j (k ∷ r) i (f, fs) e = (f, IsFresh-append j r i fs e)

-- A record that the last one is made to lead to is the new end of the chain.
module _ (l : List Syn) (i t : ℕ) (s : Syn) (here : slot_at l i ≡ s) (ends : s.next ≡ none)
    (live : s.pending ≡ true) where
  abbrev pub longer : List Syn
  longer = set_at l t (record (slot_at l t) { next = some i })

  flipped : (a b : ℕ) → (a == b) ≡ false → (b == a) ≡ false
  flipped a b e = ground arith

  -- The new record is as it was set up.
  new_end : (t == i) ≡ false → slot_at longer i ≡ s
  new_end e =
      slot_at-set_at_other l t i (record (slot_at l t) { next = some i }) (flipped t i e) ∙ here

  pub Chain-append :
      (r : List ℕ)
      → Chain l r
      → IsFresh i r
      → last_of r ≡ some t
      → Chain longer (r ++ (i ∷ []))
        × (contents longer (r ++ (i ∷ [])) ≡ contents l r ++ ((s.sdst, s.conn_id) ∷ []))
  Chain-append [] c f e = absurd (none-ne-some t e)
  Chain-append (j ∷ []) (next, on, fresh, c) (f, fs) e =
      let jt : j ≡ t = some-injective j t e in
      let at_t : slot_at longer t ≡ record (slot_at l t) { next = some i } =
        slot_at-set_at l t (record (slot_at l t) { next = some i })
          (pending-lt l t (ap (λ k. (slot_at l k).pending) (sym jt) ∙ on)) in
      let at_j : slot_at longer j ≡ record (slot_at l j) { next = some i } =
        ap (slot_at longer) jt ∙ at_t ∙ ap (λ k. record (slot_at l k) { next = some i }) (sym jt) in
      let at_i : slot_at longer i ≡ s = new_end (ap (λ k. k == i) (sym jt) ∙ f) in
      (
        (
          ap (λ x. x.next) at_j,
          ap (λ x. x.pending) at_j ∙ on,
          (flipped j i f, tt),
          (ap (λ x. x.next) at_i ∙ ends, ap (λ x. x.pending) at_i ∙ live, tt, tt),
        ),
        ap₂ (λ x y. (x.sdst, x.conn_id) ∷ (y.sdst, y.conn_id) ∷ []) at_j at_i,
      )
  Chain-append (j ∷ k ∷ r) (next, on, (fresh, freshs), c) (f, fs) e =
      let (chain, held) = Chain-append (k ∷ r) c fs e in
      let same : slot_at longer j ≡ slot_at l j =
        slot_at-set_at_other l t j (record (slot_at l t) { next = some i })
          (flipped t j (last_of-apart j t (k ∷ r) (fresh, freshs) e)) in
      (
        (
          ap (λ x. x.next) same ∙ next,
          ap (λ x. x.pending) same ∙ on,
          IsFresh-append j (k ∷ r) i (fresh, freshs) (flipped j i f),
          chain,
        ),
        ap₂ (λ x c. (x.sdst, x.conn_id) ∷ c) same held,
      )
