-- ===== src/Windows/Writes/Order.antt =====
-- windows/xenv4v/rw.c: where V4vRequeueIrps puts the write that does not fit.
use legacy_v4v.Prelude.{
  ℕ, ◌≡◌, refl, sym, ap, ap₂, subst, ◌∙◌, Bool, true, false, ◌&&◌, ◌||◌, inl, inr, Option, none,
  some, List, [], ◌∷◌, ◌++◌, append-nil, length, length-append, ◌==◌, if◌then◌else◌, Bool-cases,
  arith,
}
use mathlib.Core.Bool.{false≢true}
use legacy_v4v.Abi.{Addr, same_addr}
use legacy_v4v.Windows.Csq.{
  Irp, Destination, Extension, NtStatus, status_success, status_no_memory, status_quota_exceeded,
  max_irp_count, domid_invalid, get_destination, insert_entry, link_walk, link_result,
  link_destination, insert_irp_ex, peek_test, stash_is, remove_next_irp,
}
use legacy_v4v.Windows.Csq.Pending.{is_write_to, pending, Stashed, IsLinked}
use legacy_v4v.Windows.Csq.Addresses.{same_addr_sym}
use legacy_v4v.Windows.Csq.Insert.{stashed}
use legacy_v4v.Windows.Csq.Queued.{Unmatched, pending-append, Stashed-at}
use legacy_v4v.Windows.Csq.Remove.{Removed, Takes, remove_next_irp-Takes}
use legacy_v4v.Windows.Machine.{
  Event, Machine, Env, log, simple_complete, inserted, requeue, requeue_irps, writes_of, nt_success,
}
use legacy_v4v.Windows.Writes.Steps.{Gives}
use legacy_v4v.Windows.Writes.{
  RingDataResult, done, again, destination_round, destination_loop, process_destination_writes,
}

-- Every write of the queue is a datagram or of a stream, as V4vDispatchWrite marks it.
abbrev pub Typed : List Irp → Type 0
Typed [] = Unit
Typed (x ∷ xs) = (x.flags.write ≡ true → (x.flags.dgram || x.flags.stream) ≡ true) × Typed xs

-- The first of the list goes behind the others.
abbrev pub sent_to_back : List Irp → List Irp
sent_to_back [] = []
sent_to_back (x ∷ xs) = xs ++ (x ∷ [])

-- A search by destination does not pass over a write to that destination.
found_write :
    (a : Addr) (x : Irp)
    → (a.domain == domid_invalid) ≡ false
    → (x.flags.write ≡ true → (x.flags.dgram || x.flags.stream) ≡ true)
    → (x.flags.write ≡ true → x.stash ≡ some (get_destination x))
    → peek_test x (writes_of none a) ≡ is_write_to a x
unfolding peek_test
found_write a x valid typed stash = elim (Bool-cases x.flags.write) [
  | inl w ↦
      let d : Addr = get_destination x in
      ap (λ t. (t && (x.flags.write || false)) && (a.domain == domid_invalid || stash_is x a))
        (typed w)
      ∙ ap (λ t. (t || false) && (a.domain == domid_invalid || stash_is x a)) w
      ∙ ap (λ t. t || stash_is x a) valid
      ∙ ap (λ s. elim s as (λ s. Bool) [ none ↦ false | some e ↦ same_addr a e ]) (stash w)
      ∙ same_addr_sym a d
      ∙ ap (λ t. t && same_addr d a) (sym w)
  | inr w ↦
      ap
        (λ t.
          ((x.flags.dgram || x.flags.stream) && (t || false))
          && (a.domain == domid_invalid || stash_is x a))
        w
      ∙ never (x.flags.dgram || x.flags.stream) (a.domain == domid_invalid || stash_is x a)
      ∙ ap (λ t. t && same_addr (get_destination x) a) (sym w)
]
  where
    never : (t u : Bool) → ((t && false) && u) ≡ false
    never true u = refl
    never false u = refl

module _ (a : Addr) (valid : (a.domain == domid_invalid) ≡ false) where
  -- What a search passes over is no write to the destination.
  pending-Unmatched :
      (xs ys : List Irp)
      → Typed (xs ++ ys)
      → Stashed (xs ++ ys)
      → Unmatched (writes_of none a) xs
      → pending a xs ≡ []
  pending-Unmatched [] ys t s h = refl
  pending-Unmatched (x ∷ xs) ys (t, ts) (s, ss) (h, hs) =
      ap (λ b. if b then x ∷ pending a xs else pending a xs) (sym (found_write a x valid t s) ∙ h)
      ∙ pending-Unmatched xs ys ts ss hs

  -- What it finds is one.
  is_write_to-found :
      (xs : List Irp) (irp : Irp) (ys : List Irp)
      → Typed (xs ++ (irp ∷ ys))
      → Stashed (xs ++ (irp ∷ ys))
      → peek_test irp (writes_of none a) ≡ true
      → is_write_to a irp ≡ true
  is_write_to-found [] irp ys (t, ts) (s, ss) h = sym (found_write a irp valid t s) ∙ h
  is_write_to-found (x ∷ xs) irp ys (t, ts) (s, ss) h = is_write_to-found xs irp ys ts ss h

-- With memory and below the quota, a write goes in at the tail.
insert_at_tail :
    (pde : Extension) (irp : Irp) (b1 b2 : Bool)
    → (pde.pending_irp_count == max_irp_count) ≡ false
    → irp.flags.write ≡ true
    → b1 ≡ true
    → b2 ≡ true
    → (nt_success (insert_irp_ex pde irp false b1 b2).0 ≡ true)
      × ((insert_irp_ex pde irp false b1 b2).1.pending_irp_queue
          ≡ pde.pending_irp_queue ++ (stashed irp ∷ []))
unfolding insert_irp_ex link_destination
insert_at_tail pde irp b1 b2 room w e1 e2 =
    by_tests (pde.pending_irp_count == max_irp_count) irp.flags.write b1 b2 room w e1 e2
      (link_walk pde.dest_list (stashed irp) (get_destination irp) false)
  where
    Tail : NtStatus × Extension → Type 0
    Tail r =
        (nt_success r.0 ≡ true)
        × (r.1.pending_irp_queue ≡ pde.pending_irp_queue ++ (stashed irp ∷ []))

    result : Bool → Bool → Bool → Bool → Option (List Destination) → NtStatus × Extension
    result full write block_1 block_2 o =
        if full
        then (status_quota_exceeded, pde)
        else (if write
            then elim (if block_1
                then link_result pde (stashed irp) (get_destination irp) block_2 o
                else none) [
                  | none ↦ (status_no_memory, pde)
                  | some (irp', pde') ↦ (status_success, insert_entry pde' irp' false)
                ]
            else (status_success, insert_entry pde irp false))

    by_tests :
        (full write block_1 block_2 : Bool)
        → full ≡ false
        → write ≡ true
        → block_1 ≡ true
        → block_2 ≡ true
        → (o : Option (List Destination)) → Tail (result full write block_1 block_2 o)
    by_tests true write block_1 block_2 f x y z o = absurd (false≢true (sym f))
    by_tests false false block_1 block_2 f x y z o = absurd (false≢true x)
    by_tests false true false block_2 f x y z o = absurd (false≢true y)
    by_tests false true true false f x y z o = absurd (false≢true z)
    by_tests false true true true f x y z (some ds) = (refl, refl)
    by_tests false true true true f x y z none = (refl, refl)

-- The same for V4vRequeueIrps
requeue_tail :
    (env : Env) (irp : Irp) (m : Machine)
    → (m.ext.pending_irp_count == max_irp_count) ≡ false
    → irp.flags.write ≡ true
    → env.block_1 m.trace ≡ true
    → env.block_2 m.trace ≡ true
    → (requeue env irp m).ext.pending_irp_queue ≡ m.ext.pending_irp_queue ++ (stashed irp ∷ [])
requeue_tail env irp m room w e1 e2 =
    let (success, queue) =
      insert_at_tail m.ext irp (env.block_1 m.trace) (env.block_2 m.trace) room w e1 e2 in
    ap (λ t. (if t then m1 else simple_complete irp result.0 m1).ext.pending_irp_queue) success
    ∙ queue
  where
    result : NtStatus × Extension
    result = insert_irp_ex m.ext irp false (env.block_1 m.trace) (env.block_2 m.trace)

    m1 : Machine
    m1 = log (inserted irp.id) (record m { ext = result.1 })

module _ (env : Env) (entry : RingDataResult) (m : Machine) (v : IsLinked m.ext)
    (typed : Typed m.ext.pending_irp_queue) (valid : (entry.ring.domain == domid_invalid) ≡ false)
    (exists : entry.exists ≡ true) (insufficient : entry.sufficient ≡ false)
    (block_1 : (t : List Event) → env.block_1 t ≡ true)
    (block_2 : (t : List Event) → env.block_2 t ≡ true) where
  a : Addr
  a = entry.ring

  q : List Irp
  q = m.ext.pending_irp_queue

  first_round :
      (irp : Irp) (m1 : Machine)
      → destination_round env entry 0 [] irp m1 ≡ some (done (irp ∷ []) m1)
  unfolding destination_round
  first_round irp m1 = rw (exists, insufficient) refl

  -- The writes to the destination are what is found and what stands behind it.
  pending-found :
      (irp : Irp) (ext : Extension) (r : Removed m.ext (writes_of none a) irp ext)
      → (pending a q ≡ irp ∷ pending a r.finds.has.after)
        × (pending a ext.pending_irp_queue ≡ pending a r.finds.has.after)
        × (is_write_to a irp ≡ true)
  unfolding a q
  pending-found irp ext r =
      let h = r.finds.has in
      let t = subst Typed h.split typed in
      let s = subst Stashed h.split v.stashed in
      let skipped : pending a h.before ≡ [] =
        pending-Unmatched a valid h.before (irp ∷ h.after) t s r.finds.skipped in
      let here : is_write_to a irp ≡ true =
        is_write_to-found a valid h.before irp h.after t s r.finds.matches in
      (
        ap (pending a) h.split
            ∙ pending-append a h.before (irp ∷ h.after)
            ∙ ap (λ l. l ++ pending a (irp ∷ h.after)) skipped
            ∙ ap (λ b. if b then irp ∷ pending a h.after else pending a h.after) here,
        ap (pending a) r.queue
            ∙ pending-append a h.before h.after
            ∙ ap (λ l. l ++ pending a h.after) skipped,
        here,
      )

  -- The write is put back as it was.
  stashed_same :
      (irp : Irp) (ext : Extension)
      → Removed m.ext (writes_of none a) irp ext
      → irp.flags.write ≡ true
      → stashed irp ≡ irp
  unfolding a
  stashed_same irp ext r w =
      let h = r.finds.has in
      ap (λ s. record irp { stash = s })
        (sym (Stashed-at irp h.before h.after (subst Stashed h.split v.stashed) w))

  moved :
      (irp : Irp) (ext : Extension)
      → Removed m.ext (writes_of none a) irp ext
      → pending a (requeue env irp (record m { ext = ext })).ext.pending_irp_queue
        ≡ sent_to_back (pending a q)
  unfolding a q
  moved irp ext r =
      let (all, left, here) = pending-found irp ext r in
      let h = r.finds.has in
      let w : irp.flags.write ≡ true = is_write irp.flags.write here in
      ap (pending a)
        (requeue_tail env irp (record m { ext = ext }) room w (block_1 m.trace) (block_2 m.trace))
      ∙ pending-append a ext.pending_irp_queue (stashed irp ∷ [])
      ∙ ap (λ x. pending a ext.pending_irp_queue ++ pending a (x ∷ [])) (stashed_same irp ext r w)
      ∙ ap₂ (λ l t. l ++ (if t then irp ∷ [] else [])) left here
      ∙ ap sent_to_back (sym all)
    where
      is_write : (t : Bool) → (t && same_addr (get_destination irp) a) ≡ true → t ≡ true
      is_write true e = refl
      is_write false e = absurd (false≢true e)

      room : (ext.pending_irp_count == max_irp_count) ≡ false
      room =
          let counted = r.linked.counted in
          let queue = ap length r.queue in
          let split = ap length r.finds.has.split in
          let before = v.counted in
          let bounded = v.bounded in
          ground (
            arith,
            length-append r.finds.has.before r.finds.has.after,
            length-append r.finds.has.before (irp ∷ r.finds.has.after),
          )

  searched :
      (fuel : ℕ) (o : Option (Irp × Extension))
      → Takes m.ext (writes_of none a) o
      → Gives
          (elim o as (λ o. Option Machine) [
            | none ↦ some (requeue_irps env [] m)
            | some (irp, ext) ↦
                elim (destination_round env entry 0 [] irp (record m { ext = ext }))
                  as (λ o. Option Machine) [
                    | none ↦ none
                    | some (done returns' m') ↦ some (requeue_irps env returns' m')
                    | some (again counter' returns' m') ↦
                        destination_loop env entry fuel counter' returns' m'
                  ]
          ])
          (λ m'. pending a m'.ext.pending_irp_queue ≡ sent_to_back (pending a q))
  unfolding requeue_irps a q
  searched fuel none t =
      let nothing : pending a q ≡ [] =
        pending-Unmatched a valid q [] (subst Typed (sym (append-nil q)) typed)
          (subst Stashed (sym (append-nil q)) v.stashed) t in
      (m, refl, nothing ∙ ap sent_to_back (sym nothing))
  searched fuel (some (irp, ext)) r = (
    requeue env irp (record m { ext = ext }),
    ap
        (λ o. elim o as (λ o. Option Machine) [
          | none ↦ none
          | some (done returns' m') ↦ some (requeue_irps env returns' m')
          | some (again counter' returns' m') ↦ destination_loop env entry fuel counter' returns' m'
        ])
        (first_round irp (record m { ext = ext })),
    moved irp ext r,
  )

-- V4vProcessDestinationWrites for an entry of which the hypervisor says that the destination exists
-- and has no room: where every queued write has a type, the destination has a domain, and memory can
-- be had, it returns, and the first write to the destination now stands behind all the others to it.
pub process_destination_writes-sent_to_back :
    (env : Env) (entry : RingDataResult) (m : Machine)
    → IsLinked m.ext
    → Typed m.ext.pending_irp_queue
    → (entry.ring.domain == domid_invalid) ≡ false
    → entry.exists ≡ true
    → entry.sufficient ≡ false
    → ((t : List Event) → env.block_1 t ≡ true)
    → ((t : List Event) → env.block_2 t ≡ true)
    → Gives (process_destination_writes env entry m) (λ m'.
      pending entry.ring m'.ext.pending_irp_queue
      ≡ sent_to_back (pending entry.ring m.ext.pending_irp_queue))
unfolding process_destination_writes destination_loop a q
process_destination_writes-sent_to_back env entry m v typed valid exists insufficient b1 b2 =
    searched env entry m v typed valid exists insufficient b1 b2 (length m.ext.pending_irp_queue)
      (remove_next_irp m.ext (writes_of none entry.ring))
      (remove_next_irp-Takes m.ext (writes_of none entry.ring) v)
