-- ===== src/Windows/Writes/Conserved.antt =====
-- windows/xenv4v/rw.c: the write loops end, and no IRP is lost or completed twice.
use legacy_v4v.Prelude.{
  ℕ, zero, suc, ◌<◌, ◌≡◌, refl, sym, ap, subst, ◌∙◌, Bool, true, false, not, ◌&&◌, Option, none,
  some, List, [], ◌∷◌, ◌++◌, length, ltb, if◌then◌else◌, append-nil, arith, inl, inr, Bool-cases,
}
use legacy_v4v.Windows.Csq.{
  Irp, Qpeek, Extension, NtStatus, status_pending, status_no_memory, insert_irp_ex, remove_next_irp,
}
use legacy_v4v.Windows.Machine.{
  completed, inserted, Machine, Env, log, simple_complete, writes_of_file, nt_success, requeue_irps,
}
use legacy_v4v.Windows.Writes.{
  do_write, keep_back, context_loop, process_context_writes, Internal, Dispatch, refuse, accept_irp,
  dispatch_switch, queue_write, dispatch_write,
}
use legacy_v4v.Windows.Writes.Tally.{
  insert_irp_ex-Inserted, tally, Without, remove_next_irp-Without,
}
use legacy_v4v.Windows.Writes.Steps.{
  Conserves, Keeps, Keeps-trans, Keeps-more, Gives, gives_bind, gives_map, complete-Keeps,
  take-Keeps, inserted-Conserves, requeue_irps-Conserves, kept, Handled, do_write-Handled,
}

-- What is to be put back after a write
keep_back-kept :
    (returns : List Irp) (s : NtStatus) (irp : Irp)
    → keep_back returns s irp ≡ returns ++ (if kept s then irp ∷ [] else [])
keep_back-kept returns s irp = elim (Bool-cases (kept s)) [
  | inl e ↦ rw e refl
  | inr e ↦ rw e (sym (append-nil returns))
]

-- A round of a loop has moved IRPs between the queue, the hand and the completions.
pub took :
    (qp : Qpeek) (irp : Irp) (ext : Extension) (m : Machine) (returns : List Irp)
    → remove_next_irp m.ext qp ≡ some (irp, ext)
    → Keeps returns m (returns ++ (irp ∷ [])) (record m { ext = ext })
took qp irp ext m returns e =
    subst (λ l. Keeps l m (returns ++ (irp ∷ [])) (record m { ext = ext })) (append-nil returns)
      (Keeps-more returns (take-Keeps qp irp ext m e))

module _ (env : Env) (file : ℕ) where
  -- What the loop's end has done
  abbrev Ends : List Irp → Machine → Option Machine → Type 0
  Ends returns m o = Gives o (λ m'. Conserves returns m [] m')

  context_round :
      (fuel : ℕ) (returns : List Irp) (m : Machine)
      → length m.ext.pending_irp_queue < suc fuel
      → ((l : List Irp) (m' : Machine)
          → length m'.ext.pending_irp_queue < fuel
          → Ends l m' (context_loop env file fuel l m'))
      → (o : Option (Irp × Extension)) → remove_next_irp m.ext (writes_of_file file) ≡ o
      → Ends returns m (elim o as (λ o. Option Machine) [
        | none ↦ some (requeue_irps env returns m)
        | some (irp, ext) ↦
            elim (do_write env (m.contexts file) irp (record m { ext = ext }))
              as (λ o. Option Machine) [
                | none ↦ none
                | some (status, irp', m') ↦
                    context_loop env file fuel (keep_back returns status irp') m'
              ]
      ])
  context_round fuel returns m h next none e =
      (requeue_irps env returns m, refl, requeue_irps-Conserves env returns m)
  context_round fuel returns m h next (some (irp, ext)) e =
      gives_bind {Q = λ m'. Conserves returns m [] m'} (do_write env (m.contexts file) irp m1)
        (λ (status, irp', m'). context_loop env file fuel (keep_back returns status irp') m')
        (do_write-Handled env (m.contexts file) irp m1) go
    where
      m1 : Machine
      m1 = record m { ext = ext }

      w : Without irp m.ext.pending_irp_queue ext.pending_irp_queue
      w = remove_next_irp-Without m.ext (writes_of_file file) irp ext e

      go :
          (r : NtStatus × Irp × Machine)
          → Handled irp m1 r
          → Ends returns m (context_loop env file fuel (keep_back returns r.0 r.1) r.2)
      go (status, irp', m') k =
          let all =
            Keeps-trans (took (writes_of_file file) irp ext m returns e) (Keeps-more returns k) in
          gives_map
            (next (keep_back returns status irp') m'
              (let n = k.no_longer in omega (arith, w.shorter)))
            (λ m'' c id.
              all.tallies id
              ∙ ap (λ l. tally id l m') (sym (keep_back-kept returns status irp'))
              ∙ c id)

  context_loop-Ends :
      (fuel : ℕ) (returns : List Irp) (m : Machine)
      → length m.ext.pending_irp_queue < fuel
      → Ends returns m (context_loop env file fuel returns m)
  unfolding context_loop
  context_loop-Ends zero returns m h = absurd (omega arith)
  context_loop-Ends (suc fuel) returns m h =
      context_round fuel returns m h (context_loop-Ends fuel)
        (remove_next_irp m.ext (writes_of_file file)) refl

-- V4vProcessContextWrites returns, whatever the hypervisor and the allocations give: its loop does
-- not run out of IRPs for ever. It keeps account of every IRP: each is in the queue or completed as
-- often as before, so that none is lost and none is completed twice.
pub process_context_writes-Conserves :
    (env : Env) (file : ℕ) (m : Machine)
    → Gives (process_context_writes env file m) (λ m'. Conserves [] m [] m')
unfolding process_context_writes
process_context_writes-Conserves env file m =
    context_loop-Ends env file (suc (length m.ext.pending_irp_queue)) [] m (omega arith)

-- V4vDispatchWrite from the insertion on: the IRP in hand is then queued, or completed.
queue_write-Conserves :
    (env : Env) (irp : Irp) (front : Bool) (m : Machine)
    → Gives (queue_write env irp front m) (λ (s, m'). Conserves (irp ∷ []) m [] m')
unfolding queue_write simple_complete
queue_write-Conserves env irp front m = by_status (nt_success status) refl
  where
    result : NtStatus × Extension
    result = insert_irp_ex m.ext irp front (env.block_1 m.trace) (env.block_2 m.trace)

    status : NtStatus
    status = result.0

    m1 : Machine
    m1 = log (inserted irp.id) (record m { ext = result.1 })

    moved :
        (t : Bool) → nt_success status ≡ t → Conserves (irp ∷ []) m (if t then [] else irp ∷ []) m1
    moved t e =
        inserted-Conserves irp [] m result t e
          (insert_irp_ex-Inserted m.ext irp front (env.block_1 m.trace) (env.block_2 m.trace))

    by_status :
        (t : Bool)
        → nt_success status ≡ t
        → Gives
            (if t
              then elim (process_context_writes env irp.file m1)
                  as (λ o. Option (NtStatus × Machine)) [
                    | none ↦ none
                    | some m2 ↦ some (status_pending, m2)
                  ]
              else some (status, simple_complete irp status m1))
            (λ (s, m'). Conserves (irp ∷ []) m [] m')
    by_status true e =
        gives_bind {Q = λ (s, m'). Conserves (irp ∷ []) m [] m'}
          (process_context_writes env irp.file m1) (λ m2. some (status_pending, m2))
          (process_context_writes-Conserves env irp.file m1)
          (λ m2 c. ((status_pending, m2), refl, λ id. moved true e id ∙ c id))
    by_status false e = (
      (status, log (completed irp.id status 0) m1),
      refl,
      λ id. moved false e id ∙ (complete-Keeps irp status 0 m1).tallies id,
    )

-- V4vDispatchWrite returns, whatever its environment gives, and it keeps account of every IRP: the
-- new one is then queued or completed, once, and every other is in the queue or completed as often
-- as before, none lost and none completed twice.
pub dispatch_write-Conserves :
    (env : Env) (mapped : Bool) (internal : Internal) (irp : Irp) (m : Machine)
    → Gives (dispatch_write env mapped internal irp m) (λ (s, m'). Conserves (irp ∷ []) m [] m')
unfolding dispatch_write simple_complete
dispatch_write-Conserves env mapped internal irp m =
    by_switch (dispatch_switch (m.contexts irp.file).state internal irp.write_length)
      (ltb 0 irp.write_length && not mapped)
  where
    by_switch :
        (d : Dispatch) (unmapped : Bool)
        → Gives
            (elim d as (λ d. Option (NtStatus × Machine)) [
              | refuse status ↦ some (status, simple_complete irp status m)
              | accept_irp flags front ↦
                  if unmapped
                  then some (
                    status_no_memory,
                    simple_complete (record irp { flags = flags }) status_no_memory m,
                  )
                  else queue_write env (record irp { flags = flags }) front m
            ])
            (λ (s, m'). Conserves (irp ∷ []) m [] m')
    by_switch (refuse status) unmapped =
        ((status, log (completed irp.id status 0) m), refl, (complete-Keeps irp status 0 m).tallies)
    by_switch (accept_irp flags front) true = (
      (status_no_memory, log (completed irp.id status_no_memory 0) m),
      refl,
      (complete-Keeps irp status_no_memory 0 m).tallies,
    )
    by_switch (accept_irp flags front) false =
        queue_write-Conserves env (record irp { flags = flags }) front m
