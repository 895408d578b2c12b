-- ===== src/Windows/Csq/Insert.antt =====
-- windows/xenv4v/csq.c: V4vCsqInsertIrpEx keeps the queue and the destination list in step.
use legacy_v4v.Prelude.{
  ℕ, suc, ◌≡◌, refl, sym, ap, subst, ◌∙◌, Bool, true, false, ◌&&◌, inl, inr, Option, none, some,
  List, [], ◌∷◌, ◌++◌, append-nil, length, length-append, ◌==◌, if◌then◌else◌, Bool-cases, arith,
}
use mathlib.Core.Bool.{false≢true}
use mathlib.Core.Option.{some-injective, none-ne-some}
use legacy_v4v.Abi.{Addr, same_addr}
use legacy_v4v.Windows.Csq.{
  Irp, Destination, Extension, payload_data_len, get_destination, chain_irp, link_walk,
  new_destination, link_result, link_destination, max_irp_count, NtStatus, status_success,
  status_no_memory, status_quota_exceeded, insert_entry, insert_irp_ex,
}
use legacy_v4v.Windows.Csq.Pending.{
  is_write_to, pending, summary, lookup, Distinct, IsFresh, UniqueIrps, Stashed, IsLinked,
}
use legacy_v4v.Windows.Csq.Addresses.{
  same_addr-eq, joined, IsUpdate, IsUpdate-there, Distinct-there, Walked, link_walk-Walked,
}
use legacy_v4v.Windows.Csq.Queued.{pending-append, Stashed-append, UniqueIrps-tail}

-- The queue with one IRP more, at the head or at the tail
abbrev pub with_irp : List Irp → Irp → Bool → List Irp
with_irp q irp front = if front then irp ∷ q else q ++ (irp ∷ [])

module _ (irp : Irp) (a : Addr) where
  pending-with_irp_other :
      (q : List Irp) (front : Bool)
      → is_write_to a irp ≡ false
      → pending a (with_irp q irp front) ≡ pending a q
  pending-with_irp_other q true e = rw e refl
  pending-with_irp_other q false e =
      pending-append a q (irp ∷ [])
      ∙ ap (λ t. pending a q ++ (if t then irp ∷ [] else [])) e
      ∙ append-nil (pending a q)

  pending-with_irp :
      (q : List Irp) (front : Bool)
      → is_write_to a irp ≡ true
      → pending a (with_irp q irp front) ≡ with_irp (pending a q) irp front
  pending-with_irp q true e = rw e refl
  pending-with_irp q false e =
      pending-append a q (irp ∷ []) ∙ ap (λ t. pending a q ++ (if t then irp ∷ [] else [])) e

  -- One more write for an address that has an entry
  joined-summary :
      (x : Destination) (ws : List Irp) (front : Bool)
      → summary a ws ≡ some x
      → ◌≡◌ {A = Option Destination} (some (joined x irp front)) (summary a (with_irp ws irp front))
  unfolding chain_irp
  joined-summary x [] front e = absurd (none-ne-some x e)
  joined-summary x (y ∷ ys) true e = ap (λ z. some (joined z irp true)) (sym (some-injective _ _ e))
  joined-summary x (y ∷ ys) false e =
      ap (λ z. some (joined z irp false)) (sym (some-injective _ _ e))
      ∙ ap
          (λ n. some (record {
            refc = suc n;
            next_length = payload_data_len y;
            chain = y ∷ (ys ++ (irp ∷ []));
            dst = a;
          }))
          more
    where
      more : suc (length ys) ≡ length (ys ++ (irp ∷ []))
      more = omega (arith, length-append ys (irp ∷ []))

absent_head :
    (a : Addr) (x : Destination) (xs : List Destination)
    → lookup a (x ∷ xs) ≡ none
    → (same_addr x.dst a ≡ false) × (lookup a xs ≡ none)
absent_head a x xs h = by_test (same_addr x.dst a) refl
  where
    by_test :
        (t : Bool) → same_addr x.dst a ≡ t → (same_addr x.dst a ≡ false) × (lookup a xs ≡ none)
    by_test true e = absurd (none-ne-some x (sym h ∙ ap (λ t. if t then some x else lookup a xs) e))
    by_test false e = (e, ap (λ t. if t then some x else lookup a xs) (sym e) ∙ h)

-- An entry at the end of the list, for an address that has none
module _ (new : Destination) where
  tail-IsUpdate :
      (ds : List Destination)
      → lookup new.dst ds ≡ none
      → IsUpdate new.dst ds (ds ++ (new ∷ [])) (some new)
  tail-IsUpdate [] h = λ b. refl
  tail-IsUpdate (x ∷ xs) h =
      let (other, absent) = absent_head new.dst x xs h in
      IsUpdate-there new.dst x xs (xs ++ (new ∷ [])) (some new) other (tail-IsUpdate xs absent)

  tail-Distinct :
      (ds : List Destination) → lookup new.dst ds ≡ none → Distinct ds → Distinct (ds ++ (new ∷ []))
  tail-Distinct [] h k = (refl, tt)
  tail-Distinct (x ∷ xs) h (fresh, distinct) =
      let (other, absent) = absent_head new.dst x xs h in
      Distinct-there new.dst x xs (xs ++ (new ∷ [])) (some new) other (tail-IsUpdate xs absent)
        fresh (tail-Distinct xs absent distinct)

-- The IRP goes in where the list has what the longer queue says.
insert_entry-IsLinked :
    (pde : Extension) (irp : Irp) (front : Bool) (ds : List Destination) (n : ℕ)
    → IsLinked pde
    → IsFresh irp.id pde.pending_irp_queue
    → (pde.pending_irp_count == max_irp_count) ≡ false
    → (irp.flags.write ≡ true → irp.stash ≡ some (get_destination irp))
    → ((b : Addr) → lookup b ds ≡ summary b (pending b (with_irp pde.pending_irp_queue irp front)))
    → Distinct ds
    → n ≡ length ds
    → IsLinked (insert_entry (record pde { dest_list = ds; dest_count = n }) irp front)
insert_entry-IsLinked pde irp front ds n v fresh room stash found distinct size = record {
  counted = more front;
  bounded = let h = v.bounded in ground arith;
  destinations = found;
  distinct = distinct;
  dest_counted = size;
  stashed = stashed_on front;
  unique = unique_on front;
}
  where
    q : List Irp
    q = pde.pending_irp_queue

    more : (t : Bool) → suc pde.pending_irp_count ≡ length (with_irp q irp t)
    more true = ap suc v.counted
    more false = omega (arith, v.counted, length-append q (irp ∷ []))

    stashed_on : (t : Bool) → Stashed (with_irp q irp t)
    stashed_on true = (stash, v.stashed)
    stashed_on false = Stashed-append irp q (irp ∷ []) v.stashed (stash, tt)

    unique_on : (t : Bool) → UniqueIrps (with_irp q irp t)
    unique_on true = (fresh, v.unique)
    unique_on false = UniqueIrps-tail irp q fresh v.unique

-- The IRP with its record
abbrev pub stashed : Irp → Irp
stashed irp = record irp { stash = some (get_destination irp) }

module _ (pde : Extension) (irp : Irp) (front : Bool) (v : IsLinked pde)
    (fresh : IsFresh irp.id pde.pending_irp_queue)
    (room : (pde.pending_irp_count == max_irp_count) ≡ false) (write : irp.flags.write ≡ true) where
  d : Addr
  d = get_destination irp

  q : List Irp
  q = pde.pending_irp_queue

  -- The entries are right where only the destination's has changed.
  found_all :
      (ds : List Destination)
      → IsUpdate d pde.dest_list ds (summary d (with_irp (pending d q) (stashed irp) front))
      → (b : Addr) → lookup b ds ≡ summary b (pending b (with_irp q (stashed irp) front))
  unfolding d q get_destination
  found_all ds update b = elim (Bool-cases (same_addr d b)) [
    | inl e ↦
        let db = same_addr-eq d b e in
        update b
        ∙ ap
            (λ t.
              if t
              then summary d (with_irp (pending d q) (stashed irp) front)
              else lookup b pde.dest_list)
            e
        ∙ ap (λ a. summary a (with_irp (pending a q) (stashed irp) front)) db
        ∙ ap (summary b) (
            sym (pending-with_irp (stashed irp) b q front (ap (λ t. t && same_addr d b) write ∙ e)))
    | inr e ↦
        update b
        ∙ ap
            (λ t.
              if t
              then summary d (with_irp (pending d q) (stashed irp) front)
              else lookup b pde.dest_list)
            e
        ∙ v.destinations b
        ∙ ap (summary b) (
            sym (
              pending-with_irp_other (stashed irp) b q front
                (ap (λ t. t && same_addr d b) write ∙ e)))
  ]

  insert_entry_write :
      (ds : List Destination) (n : ℕ)
      → IsUpdate d pde.dest_list ds (summary d (with_irp (pending d q) (stashed irp) front))
      → Distinct ds
      → n ≡ length ds
      → IsLinked (insert_entry (record pde { dest_list = ds; dest_count = n }) (stashed irp) front)
  unfolding d q get_destination
  insert_entry_write ds n update distinct size =
      insert_entry-IsLinked pde (stashed irp) front ds n v fresh room (λ w. refl)
        (found_all ds update) distinct size

  abbrev first : Destination
  first = new_destination (stashed irp) d

  first-summary :
      (ws : List Irp)
      → summary d ws ≡ none
      → some first ≡ summary d (with_irp ws (stashed irp) front)
  first-summary [] e = by_end front
    where
      by_end : (t : Bool) → some first ≡ summary d (with_irp [] (stashed irp) t)
      by_end true = refl
      by_end false = refl
  first-summary (y ∷ ys) e = absurd (none-ne-some _ (sym e))

  -- What V4vCsqInsertIrpEx makes of V4vCsqLinkDestination's result
  abbrev after : Option (Irp × Extension) → NtStatus × Extension
  after o = elim o [
    | none ↦ (status_no_memory, pde)
    | some (irp', pde') ↦ (status_success, insert_entry pde' irp' front)
  ]

  abbrev linked : Bool → Bool → Option (List Destination) → Option (Irp × Extension)
  linked block_1 block_2 o = if block_1 then link_result pde (stashed irp) d block_2 o else none

  linked-IsLinked :
      (block_1 block_2 : Bool) (o : Option (List Destination))
      → Walked (stashed irp) d front pde.dest_list o
      → IsLinked (after (linked block_1 block_2 o)).1
  unfolding d q
  linked-IsLinked false block_2 o h = v
  linked-IsLinked true block_2 (some ds) (x, found, update, size, distinct) =
      insert_entry_write ds pde.dest_count
        (λ b.
          update b
          ∙ ap (λ o. if same_addr d b then o else lookup b pde.dest_list)
              (joined-summary (stashed irp) d x (pending d q) front
                (sym (v.destinations d) ∙ found)))
        (distinct v.distinct) (v.dest_counted ∙ sym size)
  linked-IsLinked true false none h = v
  linked-IsLinked true true none h =
      insert_entry_write (pde.dest_list ++ (first ∷ [])) (suc pde.dest_count)
        (λ b.
          tail-IsUpdate first pde.dest_list h b
          ∙ ap (λ o. if same_addr d b then o else lookup b pde.dest_list)
              (first-summary (pending d q) (sym (v.destinations d) ∙ h)))
        (tail-Distinct first pde.dest_list h v.distinct)
        (omega (arith, v.dest_counted, length-append pde.dest_list (first ∷ [])))

  insert_write :
      (block_1 block_2 : Bool) → IsLinked (after (link_destination pde irp front block_1 block_2)).1
  unfolding link_destination d get_destination
  insert_write block_1 block_2 =
      linked-IsLinked block_1 block_2 (link_walk pde.dest_list (stashed irp) d front)
        (link_walk-Walked (stashed irp) d front pde.dest_list)

-- V4vCsqInsertIrpEx keeps the queue and the destination list in step, on every branch: an IRP that
-- is not yet with_irp goes in at the head or at the tail, as a write or not, or it is refused for the
-- quota or for want of memory. In step means that the counts are the lengths, that no IRP is with_irp
-- twice, that each with_irp write has its record, and that each address has an entry just if writes to
-- it are pending, which counts them, chains them in the queue's order and has the first one's length.
pub insert_irp_ex-IsLinked :
    (pde : Extension) (irp : Irp) (front block_1 block_2 : Bool)
    → IsLinked pde
    → IsFresh irp.id pde.pending_irp_queue
    → IsLinked (insert_irp_ex pde irp front block_1 block_2).1
unfolding insert_irp_ex
insert_irp_ex-IsLinked pde irp front block_1 block_2 v fresh =
    elim (Bool-cases (pde.pending_irp_count == max_irp_count)) [
      | inl full ↦
          subst (λ t. IsLinked (if t then (status_quota_exceeded, pde) else tried).1) (sym full) v
      | inr room ↦
          subst (λ t. IsLinked (if t then (status_quota_exceeded, pde) else tried).1) (sym room)
            (elim (Bool-cases irp.flags.write) [
              | inl w ↦
                  subst (λ t. IsLinked (choose t).1) (sym w)
                    (insert_write pde irp front v fresh room w block_1 block_2)
              | inr w ↦ subst (λ t. IsLinked (choose t).1) (sym w) (not_write room w)
            ])
    ]
  where
    choose : Bool → NtStatus × Extension
    choose t =
        if t
        then elim (link_destination pde irp front block_1 block_2) [
          | none ↦ (status_no_memory, pde)
          | some (irp', pde') ↦ (status_success, insert_entry pde' irp' front)
        ]
        else (status_success, insert_entry pde irp front)

    tried : NtStatus × Extension
    tried = choose irp.flags.write

    not_write :
        (pde.pending_irp_count == max_irp_count) ≡ false
        → irp.flags.write ≡ false
        → IsLinked (insert_entry pde irp front)
    not_write room w =
        insert_entry-IsLinked pde irp front pde.dest_list pde.dest_count v fresh room
          (λ e. absurd (false≢true (sym w ∙ e)))
          (λ b.
            v.destinations b
            ∙ ap (summary b) (
                sym (
                  pending-with_irp_other irp b pde.pending_irp_queue front
                    (ap (λ t. t && same_addr (get_destination irp) b) w))))
          v.distinct v.dest_counted
