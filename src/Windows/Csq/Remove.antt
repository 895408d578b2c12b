-- ===== src/Windows/Csq/Remove.antt =====
-- windows/xenv4v/csq.c: V4vCsqRemoveIrp keeps the queue and the destination list in step.
use legacy_v4v.Prelude.{
  ℕ, suc, ◌-◌, ◌≡◌, refl, sym, ap, subst, ◌∙◌, Bool, true, false, ◌&&◌, inl, inr, Option, none,
  some, List, [], ◌∷◌, ◌++◌, length, length-append, ◌==◌, if◌then◌else◌, Bool-cases, arith,
}
use legacy_v4v.Abi.{Addr, same_addr}
use legacy_v4v.Windows.Csq.{
  Irp, Destination, Extension, Qpeek, payload_data_len, get_destination, unlink_irp, unchain_irp,
  front_length, unlink_walk, unlink_destination, remove_irp, peek_walk, peek_next_irp,
  remove_next_irp,
}
use legacy_v4v.Windows.Csq.Pending.{
  is_write_to, pending, summary, lookup, Distinct, IsFresh, UniqueIrps, Stashed, IsLinked,
}
use legacy_v4v.Windows.Csq.Addresses.{==_refl, same_addr-eq}
use legacy_v4v.Windows.Csq.Shrink.{shrunk, Walked, unlink_walk-Walked}
use legacy_v4v.Windows.Csq.Queued.{
  Has, Finds, pending-append, IsFresh-pending, unlink_irp-append, UniqueIrps-without,
  Stashed-without, Stashed-at, Unmatched, peek_walk-Finds, peek_walk-Unmatched,
}

shrunk_more :
    (id n : ℕ) (x : Destination)
    → x.refc - 1 ≡ suc n
    → shrunk id (some x) ≡ some (record (unchain_irp x id) { refc = suc n })
shrunk_more id n x e = rw (e, nonzero) refl
  where
    nonzero : (suc n == 0) ≡ false
    nonzero = ground arith

unchain_first :
    (id : ℕ) (x : Destination) (y : Irp) (ys : List Irp)
    → x.chain ≡ y ∷ ys
    → (y.id == id) ≡ true
    → unchain_irp x id ≡ record x { chain = ys; next_length = front_length ys x.next_length }
unfolding unchain_irp
unchain_first id x y ys c e =
    ap
      (λ l. elim l as (λ c. Destination) [
        | [] ↦ x
        | z ∷ zs ↦
            if z.id == id
            then record x { chain = zs; next_length = front_length zs x.next_length }
            else record x { chain = z ∷ unlink_irp id zs }
      ])
      c
    ∙ rw e refl

unchain_later :
    (id : ℕ) (x : Destination) (y : Irp) (ys : List Irp)
    → x.chain ≡ y ∷ ys
    → (y.id == id) ≡ false
    → unchain_irp x id ≡ record x { chain = y ∷ unlink_irp id ys }
unfolding unchain_irp
unchain_later id x y ys c e =
    ap
      (λ l. elim l as (λ c. Destination) [
        | [] ↦ x
        | z ∷ zs ↦
            if z.id == id
            then record x { chain = zs; next_length = front_length zs x.next_length }
            else record x { chain = z ∷ unlink_irp id zs }
      ])
      c
    ∙ rw e refl

-- The entry of an address with the writes `x ∷ xs`
abbrev entry : Addr → Irp → List Irp → Destination
entry a x xs = record {
  refc = length (x ∷ xs);
  next_length = payload_data_len x;
  chain = x ∷ xs;
  dst = a;
}

module _ (irp : Irp) (a : Addr) where
  pending-without_other :
      (xs ys : List Irp)
      → is_write_to a irp ≡ false
      → pending a (xs ++ (irp ∷ ys)) ≡ pending a (xs ++ ys)
  pending-without_other xs ys e =
      pending-append a xs (irp ∷ ys)
      ∙ ap (λ t. pending a xs ++ (if t then irp ∷ pending a ys else pending a ys)) e
      ∙ sym (pending-append a xs ys)

  pending-with :
      (xs ys : List Irp)
      → is_write_to a irp ≡ true
      → pending a (xs ++ (irp ∷ ys)) ≡ pending a xs ++ (irp ∷ pending a ys)
  pending-with xs ys e =
      pending-append a xs (irp ∷ ys)
      ∙ ap (λ t. pending a xs ++ (if t then irp ∷ pending a ys else pending a ys)) e

  -- One write less in an entry: the rest, or no entry
  shrunk-summary :
      (ws us : List Irp)
      → IsFresh irp.id ws
      → shrunk irp.id (summary a (ws ++ (irp ∷ us))) ≡ summary a (ws ++ us)
  shrunk-summary [] [] h = refl
  shrunk-summary [] (y ∷ ys) h =
      shrunk_more irp.id (length ys) (entry a irp (y ∷ ys)) (omega arith)
      ∙ ap (λ (d : Destination). some (record d { refc = suc (length ys) }))
          (unchain_first irp.id (entry a irp (y ∷ ys)) irp (y ∷ ys) refl (==_refl irp.id))
  shrunk-summary (x ∷ xs) us (h, hs) =
      shrunk_more irp.id (length (xs ++ us)) (entry a x (xs ++ (irp ∷ us))) less
      ∙ ap (λ (d : Destination). some (record d { refc = suc (length (xs ++ us)) }))
          (unchain_later irp.id (entry a x (xs ++ (irp ∷ us))) x (xs ++ (irp ∷ us)) refl h)
      ∙ ap
          (λ l. some (record {
            refc = suc (length (xs ++ us));
            next_length = payload_data_len x;
            chain = x ∷ l;
            dst = a;
          }))
          (unlink_irp-append irp xs us hs)
    where
      less : suc (length (xs ++ (irp ∷ us))) - 1 ≡ suc (length (xs ++ us))
      less = omega (arith, length-append xs (irp ∷ us), length-append xs us)

module _ (pde : Extension) (irp : Irp) (v : IsLinked pde) (h : Has irp pde.pending_irp_queue) where
  rest : List Irp
  rest = h.before ++ h.after

  without_queue : unlink_irp irp.id pde.pending_irp_queue ≡ rest
  unfolding rest
  without_queue = ap (unlink_irp irp.id) h.split ∙ unlink_irp-append irp h.before h.after h.fresh

  -- The IRP goes out where the list has what the shorter queue says.
  dequeue-IsLinked :
      (ds : List Destination) (n : ℕ)
      → ((b : Addr) → lookup b ds ≡ summary b (pending b rest))
      → Distinct ds
      → n ≡ length ds
      → IsLinked (record {
        pending_irp_queue = unlink_irp irp.id pde.pending_irp_queue;
        pending_irp_count = pde.pending_irp_count - 1;
        dest_list = ds;
        dest_count = n;
      })
  unfolding rest
  dequeue-IsLinked ds n found distinct size = record {
    counted = omega (
      arith,
      v.counted,
      ap length h.split,
      ap length without_queue,
      length-append h.before (irp ∷ h.after),
      length-append h.before h.after,
    );
    bounded = let b = v.bounded in omega arith;
    destinations = λ b. found b ∙ ap (λ q. summary b (pending b q)) (sym without_queue);
    distinct = distinct;
    dest_counted = size;
    stashed =
        subst Stashed (sym without_queue)
          (Stashed-without irp h.before h.after (subst Stashed h.split v.stashed));
    unique =
        subst UniqueIrps (sym without_queue)
          (UniqueIrps-without irp h.before h.after (subst UniqueIrps h.split v.unique));
  }

  summary-other :
      (b : Addr) → is_write_to b irp ≡ false → lookup b pde.dest_list ≡ summary b (pending b rest)
  unfolding rest
  summary-other b e =
      v.destinations b
      ∙ ap (λ q. summary b (pending b q)) h.split
      ∙ ap (summary b) (pending-without_other irp b h.before h.after e)

  summary-same :
      (b : Addr)
      → is_write_to b irp ≡ true
      → shrunk irp.id (lookup b pde.dest_list) ≡ summary b (pending b rest)
  unfolding rest
  summary-same b e =
      ap (shrunk irp.id) (
        v.destinations b
        ∙ ap (λ q. summary b (pending b q)) h.split
        ∙ ap (summary b) (pending-with irp b h.before h.after e))
      ∙ shrunk-summary irp b (pending b h.before) (pending b h.after)
          (IsFresh-pending b irp.id h.before h.fresh)
      ∙ ap (summary b) (sym (pending-append b h.before h.after))

  d : Addr
  d = get_destination irp

  walked : List Destination × Bool
  walked = unlink_walk pde.dest_list irp.id d

  dropped : Extension
  dropped = record pde {
    dest_list = walked.0;
    dest_count = if walked.1 then pde.dest_count - 1 else pde.dest_count;
  }

  unlink_destination-dropped : irp.flags.write ≡ true → unlink_destination pde irp ≡ dropped
  unfolding unlink_destination dropped walked d
  unlink_destination-dropped w =
      ap
        (λ o. elim o as (λ o. Extension) [
          | none ↦ pde
          | some a ↦
              let (dests, gone) = unlink_walk pde.dest_list irp.id a in
              record pde {
                dest_list = dests;
                dest_count = if gone then pde.dest_count - 1 else pde.dest_count;
              }
        ])
        (Stashed-at irp h.before h.after (subst Stashed h.split v.stashed) w)

  outcome : Walked irp.id d pde.dest_list walked
  unfolding walked
  outcome = unlink_walk-Walked irp.id d pde.dest_list v.distinct

  found_all : irp.flags.write ≡ true → (b : Addr) → lookup b walked.0 ≡ summary b (pending b rest)
  unfolding d
  found_all w b = elim (Bool-cases (same_addr d b)) [
    | inl e ↦
        let db = same_addr-eq d b e in
        outcome.0 b
        ∙ ap (λ t. if t then shrunk irp.id (lookup d pde.dest_list) else lookup b pde.dest_list) e
        ∙ ap (λ a. shrunk irp.id (lookup a pde.dest_list)) db
        ∙ summary-same b (ap (λ t. t && same_addr d b) w ∙ e)
    | inr e ↦
        outcome.0 b
        ∙ ap (λ t. if t then shrunk irp.id (lookup d pde.dest_list) else lookup b pde.dest_list) e
        ∙ summary-other b (ap (λ t. t && same_addr d b) w ∙ e)
  ]

  count_after :
      (t : Bool)
      → length pde.dest_list ≡ (if t then suc (length walked.0) else length walked.0)
      → (if t then pde.dest_count - 1 else pde.dest_count) ≡ length walked.0
  count_after true e = omega (arith, v.dest_counted)
  count_after false e = v.dest_counted ∙ e

  abbrev taken : Extension → Extension
  taken pde' = record pde' {
    pending_irp_queue = unlink_irp irp.id pde'.pending_irp_queue;
    pending_irp_count = pde'.pending_irp_count - 1;
  }

  write-IsLinked : irp.flags.write ≡ true → IsLinked (taken (unlink_destination pde irp))
  unfolding dropped
  write-IsLinked w =
      subst (λ e. IsLinked (taken e)) (sym (unlink_destination-dropped w))
        (dequeue-IsLinked walked.0 (if walked.1 then pde.dest_count - 1 else pde.dest_count)
          (found_all w) outcome.1 (count_after walked.1 outcome.2))

  other-IsLinked : irp.flags.write ≡ false → IsLinked (taken pde)
  other-IsLinked w =
      dequeue-IsLinked pde.dest_list pde.dest_count
        (λ b. summary-other b (ap (λ t. t && same_addr (get_destination irp) b) w)) v.distinct
        v.dest_counted

  -- V4vCsqRemoveIrp keeps the queue and the destination list in step.
  pub remove_irp-IsLinked : IsLinked (remove_irp pde irp)
  unfolding remove_irp
  remove_irp-IsLinked = elim (Bool-cases irp.flags.write) [
    | inl w ↦
        subst (λ t. IsLinked (taken (if t then unlink_destination pde irp else pde))) (sym w)
          (write-IsLinked w)
    | inr w ↦
        subst (λ t. IsLinked (taken (if t then unlink_destination pde irp else pde))) (sym w)
          (other-IsLinked w)
  ]

  pub remove_irp-queue : (remove_irp pde irp).pending_irp_queue ≡ h.before ++ h.after
  unfolding remove_irp rest dropped
  remove_irp-queue = elim (Bool-cases irp.flags.write) [
    | inl w ↦
        ap
          (λ t. unlink_irp irp.id (if t then unlink_destination pde irp else pde).pending_irp_queue)
          w
        ∙ ap (λ e. unlink_irp irp.id (e.pending_irp_queue)) (unlink_destination-dropped w)
        ∙ without_queue
    | inr w ↦
        ap
          (λ t. unlink_irp irp.id (if t then unlink_destination pde irp else pde).pending_irp_queue)
          w
        ∙ without_queue
  ]

-- What IoCsqRemoveNextIrp has done: the IRP was the first of the queue that matches, the others stay
-- in their order, and the queue and the destination list are still in step.
pub record Removed (pde : Extension) (qp : Qpeek) (irp : Irp) (pde' : Extension) : Type 0 where
  pub finds : Finds pde.pending_irp_queue qp irp
  pub queue : pde'.pending_irp_queue ≡ finds.has.before ++ finds.has.after
  pub linked : IsLinked pde'

-- What IoCsqRemoveNextIrp does: without a match nothing is done.
abbrev pub Takes : Extension → Qpeek → Option (Irp × Extension) → Type 0
Takes pde qp none = Unmatched qp pde.pending_irp_queue
Takes pde qp (some (irp, pde')) = Removed pde qp irp pde'

-- The next IRP for a search is the first one of the queue that matches. It is taken out, the others
-- stay in their order, and the queue and the destination list stay in step; where no IRP is given,
-- none matches.
pub remove_next_irp-Takes :
    (pde : Extension) (qp : Qpeek) → IsLinked pde → Takes pde qp (remove_next_irp pde qp)
unfolding remove_next_irp peek_next_irp
remove_next_irp-Takes pde qp v = by_result (peek_walk pde.pending_irp_queue (some qp)) refl
  where
    by_result :
        (o : Option Irp)
        → peek_walk pde.pending_irp_queue (some qp) ≡ o
        → Takes pde qp (elim o [ none ↦ none | some irp ↦ some (irp, remove_irp pde irp) ])
    by_result none e = peek_walk-Unmatched pde.pending_irp_queue qp e
    by_result (some irp) e =
        let f = peek_walk-Finds pde.pending_irp_queue qp irp v.unique e in
        record {
          finds = f;
          queue = remove_irp-queue pde irp v f.has;
          linked = remove_irp-IsLinked pde irp v f.has;
        }
