-- ===== src/Windows/Csq/Queued.antt =====
-- windows/xenv4v/csq.c: the queue of pending IRPs as IRPs come and go.
use legacy_v4v.Prelude.{
  ℕ, ◌≡◌, refl, sym, ap, subst, ◌∙◌, true, false, inl, inr, none, some, List, [], ◌∷◌, ◌++◌, ◌==◌,
  if◌then◌else◌, Bool-cases, arith,
}
use mathlib.Core.Option.{some-injective, none-ne-some}
use legacy_v4v.Abi.{Addr}
use legacy_v4v.Windows.Csq.{Irp, Qpeek, get_destination, unlink_irp, peek_walk, peek_test}
use legacy_v4v.Windows.Csq.Pending.{is_write_to, pending, IsFresh, UniqueIrps, Stashed}
use legacy_v4v.Windows.Csq.Addresses.{==_refl}

-- The queue has the IRP, behind others with other numbers.
pub record Has (irp : Irp) (q : List Irp) : Type 0 where
  pub before : List Irp
  pub after : List Irp
  pub split : q ≡ before ++ (irp ∷ after)
  pub fresh : IsFresh irp.id before

pub pending-append :
    (a : Addr) (xs ys : List Irp) → pending a (xs ++ ys) ≡ pending a xs ++ pending a ys
pending-append a [] ys = refl
pending-append a (x ∷ xs) ys = elim (Bool-cases (is_write_to a x)) [
  | inl e ↦ rw e (ap (◌∷◌ x) (pending-append a xs ys))
  | inr e ↦ rw e (pending-append a xs ys)
]

pub IsFresh-pending :
    (a : Addr) (id : ℕ) (xs : List Irp) → IsFresh id xs → IsFresh id (pending a xs)
IsFresh-pending a id [] h = tt
IsFresh-pending a id (x ∷ xs) (h, hs) = elim (Bool-cases (is_write_to a x)) [
  | inl e ↦ rw e ((h, IsFresh-pending a id xs hs))
  | inr e ↦ rw e (IsFresh-pending a id xs hs)
]

pub unlink_irp-append :
    (irp : Irp) (xs ys : List Irp)
    → IsFresh irp.id xs
    → unlink_irp irp.id (xs ++ (irp ∷ ys)) ≡ xs ++ ys
unlink_irp-append irp [] ys h = rw (==_refl irp.id) refl
unlink_irp-append irp (x ∷ xs) ys (h, hs) = rw h (ap (◌∷◌ x) (unlink_irp-append irp xs ys hs))

module _ (irp : Irp) where
  pub IsFresh-append :
      (id : ℕ) (xs ys : List Irp) → IsFresh id xs → IsFresh id ys → IsFresh id (xs ++ ys)
  IsFresh-append id [] ys h k = k
  IsFresh-append id (x ∷ xs) ys (h, hs) k = (h, IsFresh-append id xs ys hs k)

  IsFresh-without :
      (id : ℕ) (xs ys : List Irp) → IsFresh id (xs ++ (irp ∷ ys)) → IsFresh id (xs ++ ys)
  IsFresh-without id [] ys (h, hs) = hs
  IsFresh-without id (x ∷ xs) ys (h, hs) = (h, IsFresh-without id xs ys hs)

  pub UniqueIrps-without :
      (xs ys : List Irp) → UniqueIrps (xs ++ (irp ∷ ys)) → UniqueIrps (xs ++ ys)
  UniqueIrps-without [] ys (h, hs) = hs
  UniqueIrps-without (x ∷ xs) ys (h, hs) =
      (IsFresh-without x.id xs ys h, UniqueIrps-without xs ys hs)

  pub Stashed-without : (xs ys : List Irp) → Stashed (xs ++ (irp ∷ ys)) → Stashed (xs ++ ys)
  Stashed-without [] ys (h, hs) = hs
  Stashed-without (x ∷ xs) ys (h, hs) = (h, Stashed-without xs ys hs)

  pub Stashed-at :
      (xs ys : List Irp)
      → Stashed (xs ++ (irp ∷ ys))
      → irp.flags.write ≡ true
      → irp.stash ≡ some (get_destination irp)
  Stashed-at [] ys (h, hs) = h
  Stashed-at (x ∷ xs) ys (h, hs) = Stashed-at xs ys hs

  pub Stashed-append : (xs ys : List Irp) → Stashed xs → Stashed ys → Stashed (xs ++ ys)
  Stashed-append [] ys h k = k
  Stashed-append (x ∷ xs) ys (h, hs) k = (h, Stashed-append xs ys hs k)

  IsFresh-tail :
      (x : Irp) (xs : List Irp)
      → IsFresh irp.id (x ∷ xs)
      → IsFresh x.id xs
      → IsFresh x.id (xs ++ (irp ∷ []))
  IsFresh-tail x xs (h, hs) k = IsFresh-append x.id xs (irp ∷ []) k (apart, tt)
    where
      apart : (irp.id == x.id) ≡ false
      apart = ground arith

  pub UniqueIrps-tail :
      (xs : List Irp) → IsFresh irp.id xs → UniqueIrps xs → UniqueIrps (xs ++ (irp ∷ []))
  UniqueIrps-tail [] h k = (tt, tt)
  UniqueIrps-tail (x ∷ xs) (h, hs) (k, ks) = (IsFresh-tail x xs (h, hs) k, UniqueIrps-tail xs hs ks)

abbrev pub Unmatched : Qpeek → List Irp → Type 0
Unmatched qp [] = Unit
Unmatched qp (x ∷ xs) = (peek_test x qp ≡ false) × Unmatched qp xs

-- What a search finds is the first IRP of the queue that matches.
pub record Finds (q : List Irp) (qp : Qpeek) (irp : Irp) : Type 0 where
  pub has : Has irp q
  pub skipped : Unmatched qp has.before
  pub matches : peek_test irp qp ≡ true

-- A number of the rest of the queue is not the head's.
fresh_head :
    (x irp : Irp) (xs ys : List Irp) → IsFresh x.id (xs ++ (irp ∷ ys)) → (x.id == irp.id) ≡ false
fresh_head x irp [] ys (h, hs) = let e : (irp.id == x.id) ≡ false = h in ground arith
fresh_head x irp (z ∷ zs) ys (h, hs) = fresh_head x irp zs ys hs

found_head :
    (x irp : Irp) (xs : List Irp) (qp : Qpeek)
    → x ≡ irp
    → peek_test x qp ≡ true
    → Finds (x ∷ xs) qp irp
found_head x irp xs qp e t = record {
  has = record { before = []; after = xs; split = ap (λ y. y ∷ xs) e; fresh = tt };
  skipped = tt;
  matches = ap (λ y. peek_test y qp) (sym e) ∙ t;
}

found_later :
    (x irp : Irp) (xs : List Irp) (qp : Qpeek)
    → IsFresh x.id xs
    → peek_test x qp ≡ false
    → Finds xs qp irp
    → Finds (x ∷ xs) qp irp
found_later x irp xs qp u t f = record {
  has = record {
    before = x ∷ f.has.before;
    after = f.has.after;
    split = ap (◌∷◌ x) f.has.split;
    fresh = (
      fresh_head x irp f.has.before f.has.after (subst (IsFresh x.id) f.has.split u),
      f.has.fresh,
    );
  };
  skipped = (t, f.skipped);
  matches = f.matches;
}

pub peek_walk-Finds :
    (q : List Irp) (qp : Qpeek) (irp : Irp)
    → UniqueIrps q
    → peek_walk q (some qp) ≡ some irp
    → Finds q qp irp
peek_walk-Finds [] qp irp u e = absurd (none-ne-some irp e)
peek_walk-Finds (x ∷ xs) qp irp (u, us) e = elim (Bool-cases (peek_test x qp)) [
  | inl t ↦
      found_head x irp xs qp
        (some-injective _ _ (ap (λ b. if b then some x else peek_walk xs (some qp)) (sym t) ∙ e)) t
  | inr t ↦ found_later x irp xs qp u t (
      peek_walk-Finds xs qp irp us
        (ap (λ b. if b then some x else peek_walk xs (some qp)) (sym t) ∙ e))
]

pub peek_walk-Unmatched :
    (q : List Irp) (qp : Qpeek) → peek_walk q (some qp) ≡ none → Unmatched qp q
peek_walk-Unmatched [] qp e = tt
peek_walk-Unmatched (x ∷ xs) qp e = elim (Bool-cases (peek_test x qp)) [
  | inl t ↦
      absurd (none-ne-some x (sym e ∙ ap (λ b. if b then some x else peek_walk xs (some qp)) t))
  | inr t ↦ (
    t,
    peek_walk-Unmatched xs qp (ap (λ b. if b then some x else peek_walk xs (some qp)) (sym t) ∙ e),
  )
]
