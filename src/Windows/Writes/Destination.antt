-- ===== src/Windows/Writes/Destination.antt =====
-- windows/xenv4v/rw.c: the writes to a destination, after a notification of the hypervisor.
use legacy_v4v.Prelude.{
  ℕ, zero, suc, ◌<◌, ◌≡◌, refl, subst, ◌∙◌, Bool, true, false, not, ◌&&◌, Option, none, some, List,
  [], ◌∷◌, ◌++◌, length, ◌==◌, if◌then◌else◌, append-nil, arith, ◌||◌,
}
use legacy_v4v.Windows.Csq.{
  Irp, Extension, NtStatus, status_virtual_circuit_closed, remove_next_irp, RingDataEntry,
  copy_destination_ring_data,
}
use legacy_v4v.Windows.Machine.{
  completed, notified, Machine, Env, log, simple_complete, writes_of, nt_success, requeue_irps,
}
use legacy_v4v.Windows.Writes.{
  RingDataResult, Round, done, again, is_stream_type, disconnect_if, is_retry, is_pending, is_ok,
  process_entries, process_notify, do_write, after_send, destination_round, destination_loop,
  process_destination_writes,
}
use legacy_v4v.Windows.Writes.Tally.{Without, remove_next_irp-Without}
use legacy_v4v.Windows.Writes.Steps.{
  Conserves, Keeps, Keeps-trans, Keeps-more, Gives, gives_bind, gives_map, complete-Keeps,
  requeue_irps-Conserves, disconnect-Keeps, Handled, do_write-Handled,
}
use legacy_v4v.Windows.Writes.Conserved.{took}

module _ (env : Env) (entry : RingDataResult) where
  -- What a round has done
  abbrev Rounds : List Irp → Machine → Round → Type 0
  Rounds hand m (done l m') = Conserves hand m l m'
  Rounds hand m (again n l m') = Keeps hand m l m'

  after_send-Rounds :
      (counter : ℕ) (returns : List Irp) (irp : Irp) (m : Machine) (r : NtStatus × Irp × Machine)
      → Handled irp m r
      → Rounds (returns ++ (irp ∷ [])) m (after_send counter returns r)
  unfolding after_send
  after_send-Rounds counter returns irp m (status, irp', m') k =
      by_tests (is_retry status) (is_pending status) (Keeps-more returns k)
    where
      by_tests :
          (retry pending : Bool)
          → Keeps
              (returns ++ (irp ∷ []))
              m
              (returns ++ (if retry || pending then irp' ∷ [] else []))
              m'
          → Rounds (returns ++ (irp ∷ [])) m (
              if retry
              then done (returns ++ (irp' ∷ [])) m'
              else if pending
              then again (suc counter) (returns ++ (irp' ∷ [])) m'
              else again (if nt_success status then suc counter else counter) returns m')
      by_tests true pending all = all.tallies
      by_tests false true all = all
      by_tests false false all =
          subst (λ l. Keeps (returns ++ (irp ∷ [])) m l m') (append-nil returns) all

  destination_round-Rounds :
      (counter : ℕ) (returns : List Irp) (irp : Irp) (m : Machine)
      → Gives (destination_round env entry counter returns irp m) (Rounds (returns ++ (irp ∷ [])) m)
  unfolding destination_round simple_complete
  destination_round-Rounds counter returns irp m =
      by_entry (not entry.exists) (counter == 0 && not entry.sufficient)
    where
      hand : List Irp
      hand = returns ++ (irp ∷ [])

      closed :
          (m1 : Machine)
          → Keeps [] m [] m1
          → Keeps hand m returns (log (completed irp.id status_virtual_circuit_closed 0) m1)
      closed m1 k =
          subst (λ l. Keeps hand m l (log (completed irp.id status_virtual_circuit_closed 0) m1))
            (append-nil returns)
            (Keeps-more returns (
              Keeps-trans (Keeps-more (irp ∷ []) k)
                (complete-Keeps irp status_virtual_circuit_closed 0 m1)))

      by_entry :
          (gone wait : Bool)
          → Gives
              (if gone
                then elim (disconnect_if (is_stream_type (m.contexts irp.file).type) irp.file m)
                    as (λ o. Option Round) [
                      | none ↦ none
                      | some m' ↦ some (
                          again counter returns
                            (simple_complete irp status_virtual_circuit_closed m'))
                    ]
                else if wait
                then some (done hand m)
                else elim (do_write env (m.contexts irp.file) irp m) as (λ o. Option Round) [
                  | none ↦ none
                  | some result ↦ some (after_send counter returns result)
                ])
              (Rounds hand m)
      by_entry true wait =
          gives_bind {Q = Rounds hand m}
            (disconnect_if (is_stream_type (m.contexts irp.file).type) irp.file m)
            (λ m1.
              some (again counter returns (simple_complete irp status_virtual_circuit_closed m1)))
            (disconnect-Keeps (is_stream_type (m.contexts irp.file).type) irp.file m)
            (λ m1 k. (
              again counter returns (log (completed irp.id status_virtual_circuit_closed 0) m1),
              refl,
              closed m1 k,
            ))
      by_entry false true = (done hand m, refl, λ id. refl)
      by_entry false false =
          gives_bind {Q = Rounds hand m} (do_write env (m.contexts irp.file) irp m)
            (λ result. some (after_send counter returns result))
            (do_write-Handled env (m.contexts irp.file) irp m)
            (λ r k.
              (after_send counter returns r, refl, after_send-Rounds counter returns irp m r k))

  abbrev Ends : List Irp → Machine → Option Machine → Type 0
  Ends hand m o = Gives o (λ m'. Conserves hand m [] m')

  -- The rest of the loop after a round
  after_round :
      (fuel : ℕ) (hand : List Irp) (m : Machine)
      → length m.ext.pending_irp_queue < fuel
      → ((n : ℕ) (l : List Irp) (m' : Machine)
          → length m'.ext.pending_irp_queue < fuel
          → Ends l m' (destination_loop env entry fuel n l m'))
      → (r : Round) → Rounds hand m r
      → Ends hand m (elim r as (λ r. Option Machine) [
        | done l m' ↦ some (requeue_irps env l m')
        | again n l m' ↦ destination_loop env entry fuel n l m'
      ])
  after_round fuel hand m h next (done l m') c =
      (requeue_irps env l m', refl, λ id. c id ∙ requeue_irps-Conserves env l m' id)
  after_round fuel hand m h next (again n l m') k =
      gives_map (next n l m' (let le = k.no_longer in omega arith))
        (λ m'' c id. k.tallies id ∙ c id)

  destination_search :
      (fuel counter : ℕ) (returns : List Irp) (m : Machine)
      → length m.ext.pending_irp_queue < suc fuel
      → ((n : ℕ) (l : List Irp) (m' : Machine)
          → length m'.ext.pending_irp_queue < fuel
          → Ends l m' (destination_loop env entry fuel n l m'))
      → (o : Option (Irp × Extension)) → remove_next_irp m.ext (writes_of none entry.ring) ≡ o
      → Ends returns m (elim o as (λ o. Option Machine) [
        | none ↦ some (requeue_irps env returns m)
        | some (irp, ext) ↦
            elim (destination_round env entry counter returns irp (record m { ext = ext }))
              as (λ o. Option Machine) [
                | none ↦ none
                | some (done returns' m') ↦ some (requeue_irps env returns' m')
                | some (again counter' returns' m') ↦
                    destination_loop env entry fuel counter' returns' m'
              ]
      ])
  destination_search fuel counter returns m h next none e =
      (requeue_irps env returns m, refl, requeue_irps-Conserves env returns m)
  destination_search fuel counter returns m h next (some (irp, ext)) e =
      gives_map
        (gives_bind {Q = λ m'. Conserves (returns ++ (irp ∷ [])) m1 [] m'}
          (destination_round env entry counter returns irp m1)
          (λ r. elim r as (λ r. Option Machine) [
            | done l m' ↦ some (requeue_irps env l m')
            | again n l m' ↦ destination_loop env entry fuel n l m'
          ])
          (destination_round-Rounds counter returns irp m1)
          (after_round fuel (returns ++ (irp ∷ [])) m1 (omega (arith, w.shorter)) next))
        (λ m' c id. (took (writes_of none entry.ring) irp ext m returns e).tallies id ∙ c id)
    where
      m1 : Machine
      m1 = record m { ext = ext }

      w : Without irp m.ext.pending_irp_queue ext.pending_irp_queue
      w = remove_next_irp-Without m.ext (writes_of none entry.ring) irp ext e

  destination_loop-Ends :
      (fuel counter : ℕ) (returns : List Irp) (m : Machine)
      → length m.ext.pending_irp_queue < fuel
      → Ends returns m (destination_loop env entry fuel counter returns m)
  unfolding destination_loop
  destination_loop-Ends zero counter returns m h = absurd (omega arith)
  destination_loop-Ends (suc fuel) counter returns m h =
      destination_search fuel counter returns m h (destination_loop-Ends fuel)
        (remove_next_irp m.ext (writes_of none entry.ring)) refl

  pub process_destination_writes-Conserves :
      (m : Machine) → Gives (process_destination_writes env entry m) (λ m'. Conserves [] m [] m')
  unfolding process_destination_writes
  process_destination_writes-Conserves m =
      destination_loop-Ends (suc (length m.ext.pending_irp_queue)) 0 [] m (omega arith)

process_entries-Conserves :
    (env : Env) (entries : List RingDataResult) (m : Machine)
    → Gives (process_entries env entries m) (λ m'. Conserves [] m [] m')
unfolding process_entries
process_entries-Conserves env [] m = (m, refl, λ id. refl)
process_entries-Conserves env (entry ∷ entries) m =
    gives_bind {Q = λ m'. Conserves [] m [] m'} (process_destination_writes env entry m)
      (process_entries env entries) (process_destination_writes-Conserves env entry m)
      (λ m1 c. gives_map (process_entries-Conserves env entries m1) (λ m2 d id. c id ∙ d id))

-- V4vProcessNotify returns, whatever the hypervisor answers about the destinations and to the writes,
-- and it keeps account of every IRP: each is in the queue or completed as often as before.
pub process_notify-Conserves :
    (env : Env) (fill : List RingDataEntry → List RingDataResult) (m : Machine)
    → Gives (process_notify env fill m) (λ m'. Conserves [] m [] m')
unfolding process_notify
process_notify-Conserves env fill m = by_answer (is_ok (env.hypercall m.trace))
  where
    m' : Machine
    m' = log notified m

    by_answer :
        (t : Bool)
        → Gives
            (if t
              then process_entries env (fill (copy_destination_ring_data m.ext).1) m'
              else some m')
            (λ m''. Conserves [] m [] m'')
    by_answer true =
        gives_map (process_entries-Conserves env (fill (copy_destination_ring_data m.ext).1) m')
          (λ m'' c id. c id)
    by_answer false = (m', refl, λ id. refl)
