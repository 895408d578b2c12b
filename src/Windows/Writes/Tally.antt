-- ===== src/Windows/Writes/Tally.antt =====
-- windows/xenv4v: where an IRP is, in the queue, in hand or completed, and how the queue's
-- operations move it.
use legacy_v4v.Prelude.{
  ℕ, suc, ◌+◌, ◌-◌, ◌≡◌, refl, sym, ap, subst, ◌∙◌, Bool, true, false, inl, inr, Option, none, some,
  List, [], ◌∷◌, ◌++◌, length, ◌==◌, if◌then◌else◌, Bool-cases, arith,
}
use mathlib.Core.Bool.{false≢true}
use mathlib.Core.Option.{some-injective, none-ne-some}
use legacy_v4v.Abi.{Addr}
use legacy_v4v.Windows.Csq.{
  Irp, Destination, Qpeek, Extension, NtStatus, unlink_irp, status_success, status_no_memory,
  status_quota_exceeded, max_irp_count, get_destination, link_walk, link_result, link_destination,
  unlink_walk, unlink_destination, insert_entry, insert_irp_ex, remove_irp, peek_walk, peek_test,
  peek_next_irp, remove_next_irp,
}
use legacy_v4v.Windows.Csq.Addresses.{==_refl}
use legacy_v4v.Windows.Csq.Insert.{stashed}
use legacy_v4v.Windows.Machine.{Event, completed, Machine, nt_success}

-- How often the list has the IRP of that number
abbrev pub count : ℕ → List Irp → ℕ
count id [] = 0
count id (x ∷ xs) = let rest = count id xs in if x.id == id then suc rest else rest

-- How often the IRP of that number has been completed
abbrev pub completions : ℕ → List Event → ℕ
completions id [] = 0
completions id (completed x status n ∷ es) =
    let rest = completions id es in if x == id then suc rest else rest
completions id (_ ∷ es) = completions id es

-- The IRP of that number in hand, in the queue and completed, taken together
abbrev pub tally : ℕ → List Irp → Machine → ℕ
tally id hand m = count id hand + (count id m.ext.pending_irp_queue + completions id m.trace)

pub count-append : (id : ℕ) (xs ys : List Irp) → count id (xs ++ ys) ≡ count id xs + count id ys
count-append id [] ys = omega arith
count-append id (x ∷ xs) ys = elim (Bool-cases (x.id == id)) [
  | inl e ↦ rw e (omega (arith, count-append id xs ys))
  | inr e ↦ rw e (count-append id xs ys)
]

-- What an IRP leaves behind in a list without it
pub record Without (irp : Irp) (q q' : List Irp) : Type 0 where
  pub shorter : suc (length q') ≡ length q
  pub counts : (id : ℕ) → count id q ≡ count id (irp ∷ []) + count id q'

Without-later : (irp x : Irp) (q q' : List Irp) → Without irp q q' → Without irp (x ∷ q) (x ∷ q')
Without-later irp x q q' w = record {
  shorter = ap suc w.shorter;
  counts = λ id. elim (Bool-cases (x.id == id)) [
    | inl e ↦ rw e (omega (arith, w.counts id))
    | inr e ↦ rw e (w.counts id)
  ];
}

-- The same number counts the same.
same_count :
    (x irp : Irp) (id : ℕ) → (x.id == irp.id) ≡ true → count id (x ∷ []) ≡ count id (irp ∷ [])
same_count x irp id e =
    let same : x.id ≡ irp.id = ground arith in ap (λ n. if n == id then 1 else 0) same

behind_head :
    (x irp : Irp) (xs : List Irp) (qp : Qpeek)
    → peek_walk (x ∷ xs) (some qp) ≡ some irp
    → (x.id == irp.id) ≡ false
    → peek_walk xs (some qp) ≡ some irp
behind_head x irp xs qp e h = elim (Bool-cases (peek_test x qp)) [
  | inl t ↦
      let same : x ≡ irp =
        some-injective _ _ (ap (λ b. if b then some x else peek_walk xs (some qp)) (sym t) ∙ e) in
      absurd (false≢true (sym h ∙ ap (λ y. x.id == y.id) (sym same) ∙ ==_refl x.id))
  | inr t ↦ ap (λ b. if b then some x else peek_walk xs (some qp)) (sym t) ∙ e
]

unlink_irp-Without :
    (q : List Irp) (qp : Qpeek) (irp : Irp)
    → peek_walk q (some qp) ≡ some irp
    → Without irp q (unlink_irp irp.id q)
unlink_irp-Without [] qp irp e = absurd (none-ne-some irp e)
unlink_irp-Without (x ∷ xs) qp irp e = elim (Bool-cases (x.id == irp.id)) [
  | inl h ↦ rw h (record {
    shorter = refl;
    counts = λ id. omega (arith, count-append id (x ∷ []) xs, same_count x irp id h);
  })
  | inr h ↦ rw h (
      Without-later irp x xs (unlink_irp irp.id xs)
        (unlink_irp-Without xs qp irp (behind_head x irp xs qp e h)))
]

-- The status and the queue after V4vCsqInsertIrpEx: the IRP is queued, or it is refused.
pub record Inserted (irp : Irp) (q : List Irp) (r : NtStatus × Extension) : Type 0 where
  pub counts :
      (id : ℕ)
      → count id r.1.pending_irp_queue
        ≡ (if nt_success r.0 then count id (irp ∷ []) + count id q else count id q)

insert_entry-count :
    (pde : Extension) (irp irp' : Irp) (front : Bool)
    → irp'.id ≡ irp.id
    → (id : ℕ)
    → count id (insert_entry pde irp' front).pending_irp_queue
      ≡ count id (irp ∷ []) + count id pde.pending_irp_queue
insert_entry-count pde irp irp' front same id =
    by_end front ∙ ap (λ n. (if n == id then 1 else 0) + count id pde.pending_irp_queue) same
  where
    q : List Irp
    q = pde.pending_irp_queue

    by_end :
        (t : Bool)
        → count id (if t then irp' ∷ q else q ++ (irp' ∷ [])) ≡ count id (irp' ∷ []) + count id q
    by_end true = count-append id (irp' ∷ []) q
    by_end false = omega (arith, count-append id q (irp' ∷ []))

-- V4vCsqRemoveIrp takes the IRP's number out of the queue, as a write or not.
remove_irp-unlink :
    (pde : Extension) (irp : Irp)
    → (remove_irp pde irp).pending_irp_queue ≡ unlink_irp irp.id pde.pending_irp_queue
unfolding remove_irp unlink_destination
remove_irp-unlink pde irp = by_kind irp.flags.write irp.stash
  where
    by_kind :
        (w : Bool) (o : Option Addr)
        → unlink_irp irp.id
            (if w
              then elim o as (λ o. Extension) [
                | none ↦ pde
                | some a ↦
                    let (dests, gone) = unlink_walk pde.dest_list irp.id a in
                    record pde {
                      dest_list = dests;
                      dest_count = if gone then pde.dest_count - 1 else pde.dest_count;
                    }
              ]
              else pde).pending_irp_queue
          ≡ unlink_irp irp.id pde.pending_irp_queue
    by_kind false o = refl
    by_kind true none = refl
    by_kind true (some a) = refl

-- V4vCsqLinkDestination leaves the queue and the IRP's number alone.
abbrev pub LeavesQueue : Extension → Irp → Option (Irp × Extension) → Type 0
LeavesQueue pde irp none = Unit
LeavesQueue pde irp (some (irp', pde')) =
    (irp'.id ≡ irp.id) × (pde'.pending_irp_queue ≡ pde.pending_irp_queue)

link_destination-LeavesQueue :
    (pde : Extension) (irp : Irp) (front block_1 block_2 : Bool)
    → LeavesQueue pde irp (link_destination pde irp front block_1 block_2)
unfolding link_destination
link_destination-LeavesQueue pde irp front false block_2 = tt
link_destination-LeavesQueue pde irp front true block_2 =
    by_walk (stashed irp) refl block_2
      (link_walk pde.dest_list (stashed irp) (get_destination irp) front)
  where
    by_walk :
        (x : Irp)
        → x.id ≡ irp.id
        → (t : Bool) (o : Option (List Destination))
        → LeavesQueue pde irp (link_result pde x (get_destination irp) t o)
    by_walk x e t (some ds) = (e, refl)
    by_walk x e true none = (e, refl)
    by_walk x e false none = tt

pub insert_irp_ex-Inserted :
    (pde : Extension) (irp : Irp) (front block_1 block_2 : Bool)
    → Inserted irp pde.pending_irp_queue (insert_irp_ex pde irp front block_1 block_2)
unfolding insert_irp_ex
insert_irp_ex-Inserted pde irp front block_1 block_2 =
    by_room (pde.pending_irp_count == max_irp_count) irp.flags.write
      (link_destination pde irp front block_1 block_2)
      (link_destination-LeavesQueue pde irp front block_1 block_2)
  where
    result : Bool → Bool → Option (Irp × Extension) → NtStatus × Extension
    result full write o =
        if full
        then (status_quota_exceeded, pde)
        else (if write
            then elim o [
              | none ↦ (status_no_memory, pde)
              | some (irp', pde') ↦ (status_success, insert_entry pde' irp' front)
            ]
            else (status_success, insert_entry pde irp front))

    by_room :
        (full write : Bool) (o : Option (Irp × Extension))
        → LeavesQueue pde irp o
        → Inserted irp pde.pending_irp_queue (result full write o)
    by_room true write o h = record { counts = λ id. refl }
    by_room false false o h = record { counts = insert_entry-count pde irp irp front refl }
    by_room false true none h = record { counts = λ id. refl }
    by_room false true (some (irp', pde')) (same, queue) = record {
      counts = λ id.
          insert_entry-count pde' irp irp' front same id
          ∙ ap (λ q. count id (irp ∷ []) + count id q) queue;
    }

-- What IoCsqRemoveNextIrp leaves in the queue
pub remove_next_irp-Without :
    (pde : Extension) (qp : Qpeek) (irp : Irp) (pde' : Extension)
    → remove_next_irp pde qp ≡ some (irp, pde')
    → Without irp pde.pending_irp_queue pde'.pending_irp_queue
unfolding remove_next_irp peek_next_irp
remove_next_irp-Without pde qp irp pde' e =
    by_search (peek_walk pde.pending_irp_queue (some qp)) refl e
  where
    by_search :
        (o : Option Irp)
        → peek_walk pde.pending_irp_queue (some qp) ≡ o
        → elim o as (λ o. Option (Irp × Extension)) [
          | none ↦ none
          | some x ↦ some (x, remove_irp pde x)
        ]
          ≡ some (irp, pde')
        → Without irp pde.pending_irp_queue pde'.pending_irp_queue
    by_search none e h = absurd (none-ne-some _ h)
    by_search (some x) e h =
        subst (λ p. Without p.0 pde.pending_irp_queue p.1.pending_irp_queue) (some-injective _ _ h)
          (subst (Without x pde.pending_irp_queue) (sym (remove_irp-unlink pde x))
            (unlink_irp-Without pde.pending_irp_queue qp x e))
