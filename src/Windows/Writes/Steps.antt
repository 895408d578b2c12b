-- ===== src/Windows/Writes/Steps.antt =====
-- windows/xenv4v: the steps of the write routines end, and keep account of every IRP.
use legacy_v4v.Prelude.{
  ℕ, zero, suc, ◌+◌, ◌-◌, ◌≤◌, ◌<◌, ◌≡◌, refl, sym, ap, subst, ◌∙◌, Bool, true, false, ◌&&◌, ◌||◌,
  inl, inr, Option, none, some, List, [], ◌∷◌, ◌++◌, length, ◌==◌, if◌then◌else◌, Bool-cases, arith,
}
use legacy_v4v.Errno.{Ret}
use legacy_v4v.Windows.Csq.{
  Irp, Qpeek, Extension, NtStatus, status_success, status_pending, status_retry, status_cancelled,
  insert_irp_ex, remove_next_irp,
}
use legacy_v4v.Windows.Machine.{
  ContextState, uninitialized, idle, bound, listening, connecting, waiting, accepting, connected,
  accepted, disconnected, passive, closed, Context, completed, inserted, signalled, timer_cancelled,
  Machine, Env, filter_errno, set_context, log, simple_complete, writes_of_file, cancel_loop,
  cancel_all_file_irps, stop_connection_timer, leave_state, disconnect_stream_and_signal,
  nt_success, requeue, requeue_irps,
}
use legacy_v4v.Windows.Writes.{
  information, send_event, is_closed, is_stream_type, disconnect_if, fail_write, await_ack,
  finish_write, is_retry, is_pending, do_write, written_by,
}
use legacy_v4v.Windows.Writes.Tally.{
  count, tally, count-append, Inserted, insert_irp_ex-Inserted, remove_next_irp-Without,
}

-- Every IRP is where it was: in hand, in the queue or completed, as often as before.
abbrev pub Conserves : List Irp → Machine → List Irp → Machine → Type 0
Conserves hand m hand' m' = (id : ℕ) → tally id hand m ≡ tally id hand' m'

-- The same, and the queue has not grown.
pub record Keeps (hand : List Irp) (m : Machine) (hand' : List Irp) (m' : Machine) : Type 0 where
  pub tallies : Conserves hand m hand' m'
  pub no_longer : length m'.ext.pending_irp_queue ≤ length m.ext.pending_irp_queue

pub Keeps-trans :
    {h h' h'' : List Irp} {m m' m'' : Machine}
    → Keeps h m h' m'
    → Keeps h' m' h'' m''
    → Keeps h m h'' m''
Keeps-trans a b = record {
  tallies = λ id. a.tallies id ∙ b.tallies id;
  no_longer = let x = a.no_longer in let y = b.no_longer in omega arith;
}

-- More IRPs in hand stay there.
pub Keeps-more :
    {h h' : List Irp} {m m' : Machine} (l : List Irp)
    → Keeps h m h' m'
    → Keeps (l ++ h) m (l ++ h') m'
Keeps-more {h = h} {h' = h'} l k = record {
  tallies = λ id. omega (arith, k.tallies id, count-append id l h, count-append id l h');
  no_longer = k.no_longer;
}

-- A computation that may run out of fuel gives a result with the property.
abbrev pub Gives {ℓ κ} : {A : Type ℓ} → Option A → (A → Type κ) → Type (ℓ ⊔ κ)
Gives {A = A} o P = (a : A) × (o ≡ some a) × P a

pub gives_bind {ℓ ι κ ο} :
    {A : Type ℓ} {B : Type ι} {P : A → Type κ} {Q : B → Type ο} (o : Option A) (k : A → Option B)
    → Gives o P
    → ((a : A) → P a → Gives (k a) Q)
    → Gives (elim o as (λ o. Option B) [ none ↦ none | some a ↦ k a ]) Q
gives_bind {B = B} o k (a, e, p) next =
    let (b, e', q) = next a p in
    (b, ap (λ o. elim o as (λ o. Option B) [ none ↦ none | some a ↦ k a ]) e ∙ e', q)

pub complete-Keeps :
    (irp : Irp) (status : NtStatus) (n : ℕ) (m : Machine)
    → Keeps (irp ∷ []) m [] (log (completed irp.id status n) m)
complete-Keeps irp status n m = record {
  tallies = λ id. elim (Bool-cases (irp.id == id)) [
    | inl e ↦ rw e (omega arith)
    | inr e ↦ rw e (omega arith)
  ];
  no_longer = omega arith;
}

-- IoCsqRemoveNextIrp moves an IRP from the queue into the hand.
pub take-Keeps :
    (qp : Qpeek) (irp : Irp) (ext : Extension) (m : Machine)
    → remove_next_irp m.ext qp ≡ some (irp, ext)
    → Keeps [] m (irp ∷ []) (record m { ext = ext })
take-Keeps qp irp ext m e =
    let w = remove_next_irp-Without m.ext qp irp ext e in
    record { tallies = λ id. omega (arith, w.counts id); no_longer = omega (arith, w.shorter) }

-- After IoCsqInsertIrpEx the IRP is in the queue, or still in hand.
pub inserted-Conserves :
    (irp : Irp) (irps : List Irp) (m : Machine) (r : NtStatus × Extension) (queued : Bool)
    → nt_success r.0 ≡ queued
    → Inserted irp m.ext.pending_irp_queue r
    → Conserves
        (irp ∷ irps)
        m
        (if queued then irps else irp ∷ irps)
        (log (inserted irp.id) (record m { ext = r.1 }))
inserted-Conserves irp irps m (status, ext) true s i id = omega (
  arith,
  i.counts id,
  ap
      (λ t.
        if t
        then count id (irp ∷ []) + count id m.ext.pending_irp_queue
        else count id m.ext.pending_irp_queue)
      s,
  count-append id (irp ∷ []) irps,
)
inserted-Conserves irp irps m (status, ext) false s i id = omega (
  arith,
  i.counts id,
  ap
      (λ t.
        if t
        then count id (irp ∷ []) + count id m.ext.pending_irp_queue
        else count id m.ext.pending_irp_queue)
      s,
)

-- V4vRequeueIrps moves each IRP from the hand into the queue, or completes it.
requeue-Conserves :
    (env : Env) (irp : Irp) (irps : List Irp) (m : Machine)
    → Conserves (irp ∷ irps) m irps (requeue env irp m)
unfolding simple_complete
requeue-Conserves env irp irps m =
    by_status (nt_success status)
      (λ t e.
        inserted-Conserves irp irps m result t e
          (insert_irp_ex-Inserted m.ext irp false (env.block_1 m.trace) (env.block_2 m.trace)))
      refl
  where
    result : NtStatus × Extension
    result = insert_irp_ex m.ext irp false (env.block_1 m.trace) (env.block_2 m.trace)

    status : NtStatus
    status = result.0

    m1 : Machine
    m1 = log (inserted irp.id) (record m { ext = result.1 })

    by_status :
        (t : Bool)
        → ((t : Bool)
            → nt_success status ≡ t
            → Conserves (irp ∷ irps) m (if t then irps else irp ∷ irps) m1)
        → nt_success status ≡ t
        → Conserves (irp ∷ irps) m irps (if t then m1 else simple_complete irp status m1)
    by_status true k e = k true e
    by_status false k e = λ id.
        k false e id
        ∙ omega
            (arith, (complete-Keeps irp status 0 m1).tallies id, count-append id (irp ∷ []) irps)

pub requeue_irps-Conserves :
    (env : Env) (irps : List Irp) (m : Machine) → Conserves irps m [] (requeue_irps env irps m)
unfolding requeue_irps
requeue_irps-Conserves env [] m id = refl
requeue_irps-Conserves env (irp ∷ irps) m id =
    requeue-Conserves env irp irps m id ∙ requeue_irps-Conserves env irps (requeue env irp m) id

pub gives_map {ℓ ι κ} :
    {A : Type ℓ} {P : A → Type ι} {Q : A → Type κ} {o : Option A}
    → Gives o P
    → ((a : A) → P a → Q a)
    → Gives o Q
gives_map (a, e, p) f = (a, e, f a p)

-- A round of V4vCancelAllFileIrps
cancel_round :
    (fuel file : ℕ) (m : Machine)
    → length m.ext.pending_irp_queue < suc fuel
    → ((m' : Machine)
        → length m'.ext.pending_irp_queue < fuel
        → Gives (cancel_loop fuel file m') (λ m''. Keeps [] m' [] m''))
    → (o : Option (Irp × Extension)) → remove_next_irp m.ext (writes_of_file file) ≡ o
    → Gives
        (elim o as (λ o. Option Machine) [
          | none ↦ some m
          | some (irp, ext) ↦
              cancel_loop fuel file (simple_complete irp status_cancelled (record m { ext = ext }))
        ])
        (λ m'. Keeps [] m [] m')
unfolding simple_complete
cancel_round fuel file m h next none e =
    (m, refl, record { tallies = λ id. refl; no_longer = omega arith })
cancel_round fuel file m h next (some (irp, ext)) e =
    let m1 : Machine = record m { ext = ext } in
    let w = remove_next_irp-Without m.ext (writes_of_file file) irp ext e in
    let here : Keeps [] m [] (log (completed irp.id status_cancelled 0) m1) =
      Keeps-trans (take-Keeps (writes_of_file file) irp ext m e)
        (complete-Keeps irp status_cancelled 0 m1) in
    gives_map (next (log (completed irp.id status_cancelled 0) m1) (omega (arith, w.shorter)))
      (λ m' k. Keeps-trans here k)

-- V4vCancelAllFileIrps ends: each round takes an IRP out of the queue.
cancel_loop-Keeps :
    (fuel file : ℕ) (m : Machine)
    → length m.ext.pending_irp_queue < fuel
    → Gives (cancel_loop fuel file m) (λ m'. Keeps [] m [] m')
unfolding cancel_loop
cancel_loop-Keeps zero file m h = absurd (omega arith)
cancel_loop-Keeps (suc fuel) file m h =
    cancel_round fuel file m h (cancel_loop-Keeps fuel file)
      (remove_next_irp m.ext (writes_of_file file)) refl

pub cancel_all_file_irps-Keeps :
    (file : ℕ) (m : Machine) → Gives (cancel_all_file_irps file m) (λ m'. Keeps [] m [] m')
unfolding cancel_all_file_irps
cancel_all_file_irps-Keeps file m =
    cancel_loop-Keeps (suc (length m.ext.pending_irp_queue)) file m (omega arith)

-- A step that leaves the queue and the completions alone
unmoved : (hand : List Irp) (m : Machine) → Keeps hand m hand m
unmoved hand m = record { tallies = λ id. refl; no_longer = omega arith }

stop_connection_timer-Keeps : (m : Machine) → Keeps [] m [] (stop_connection_timer m)
unfolding stop_connection_timer
stop_connection_timer-Keeps m = by_counter (m.timer_counter == 0) (m.timer_counter == 1)
  where
    m' : Machine
    m' = record m { timer_counter = m.timer_counter - 1 }

    by_counter :
        (zero_left one_left : Bool)
        → Keeps [] m [] (if zero_left then m else if one_left then log timer_cancelled m' else m')
    by_counter true one_left = unmoved [] m
    by_counter false true = record { tallies = λ id. refl; no_longer = omega arith }
    by_counter false false = record { tallies = λ id. refl; no_longer = omega arith }

leave_state-Keeps :
    (s : ContextState) (file : ℕ) (m : Machine) → Keeps [] m [] (leave_state s file m)
leave_state-Keeps uninitialized file m = unmoved [] m
leave_state-Keeps idle file m = unmoved [] m
leave_state-Keeps bound file m = unmoved [] m
leave_state-Keeps listening file m = unmoved [] m
leave_state-Keeps connecting file m = stop_connection_timer-Keeps m
leave_state-Keeps waiting file m = unmoved [] m
leave_state-Keeps accepting file m = unmoved [] m
leave_state-Keeps connected file m = unmoved [] m
leave_state-Keeps accepted file m = record { tallies = λ id. refl; no_longer = omega arith }
leave_state-Keeps disconnected file m = unmoved [] m
leave_state-Keeps passive file m = unmoved [] m
leave_state-Keeps closed file m = unmoved [] m

-- V4vDisconnectStreamAndSignal, where it is called
pub disconnect-Keeps :
    (t : Bool) (file : ℕ) (m : Machine) → Gives (disconnect_if t file m) (λ m'. Keeps [] m [] m')
unfolding disconnect_stream_and_signal
disconnect-Keeps false file m = (m, refl, unmoved [] m)
disconnect-Keeps true file m =
    gives_bind {Q = λ m'. Keeps [] m [] m'} (cancel_all_file_irps file m2)
      (λ m3. some (log (signalled file) m3)) (cancel_all_file_irps-Keeps file m2)
      (λ m3 k. (
        log (signalled file) m3,
        refl,
        Keeps-trans (leave_state-Keeps (m.contexts file).state file m) (moved m3 k),
      ))
  where
    m1 : Machine
    m1 = leave_state (m.contexts file).state file m

    m2 : Machine
    m2 = record m1 {
      contexts = set_context m1.contexts file (λ c. record c { state = disconnected });
    }

    moved : (m3 : Machine) → Keeps [] m2 [] m3 → Keeps [] m1 [] (log (signalled file) m3)
    moved m3 k = record { tallies = k.tallies; no_longer = k.no_longer }

-- An IRP that V4vDoWrite hands back for the queue
abbrev pub kept : NtStatus → Bool
kept s = is_retry s || is_pending s

not_kept : (s : NtStatus) → is_retry s ≡ false → nt_success s ≡ false → kept s ≡ false
not_kept s r n = ground arith

-- What V4vDoWrite has done with its IRP: completed it, or handed it back.
abbrev pub Handled : Irp → Machine → NtStatus × Irp × Machine → Type 0
Handled irp m (status, irp', m') = Keeps (irp ∷ []) m (if kept status then irp' ∷ [] else []) m'

fail_write-Handled :
    (ctx : Context) (irp : Irp) (status : NtStatus) (m : Machine)
    → kept status ≡ false
    → Gives (fail_write ctx irp status m) (Handled irp m)
unfolding fail_write simple_complete
fail_write-Handled ctx irp status m out =
    gives_bind {Q = Handled irp m} (disconnect_if t1 irp.file m)
      (λ m1. elim (disconnect_if t2 irp.file m1) as (λ o. Option (NtStatus × Irp × Machine)) [
        | none ↦ none
        | some m2 ↦ some (status, irp, simple_complete irp status m2)
      ])
      (disconnect-Keeps t1 irp.file m)
      λ m1 k1.
        gives_bind {Q = Handled irp m} (disconnect_if t2 irp.file m1)
          (λ m2. some (status, irp, simple_complete irp status m2))
          (disconnect-Keeps t2 irp.file m1)
          λ m2 k2. (
            (status, irp, log (completed irp.id status 0) m2),
            refl,
            subst
                (λ t.
                  Keeps (irp ∷ []) m (if t then irp ∷ [] else [])
                    (log (completed irp.id status 0) m2))
                (sym out)
                (Keeps-trans (Keeps-more (irp ∷ []) k1)
                  (Keeps-trans (Keeps-more (irp ∷ []) k2) (complete-Keeps irp status 0 m2))),
          )
  where
    t1 : Bool
    t1 = irp.flags.syn || irp.flags.ack

    t2 : Bool
    t2 = is_closed status && is_stream_type ctx.type

finish_write-Handled :
    (irp : Irp) (written : ℕ) (m : Machine) → Handled irp m (finish_write irp written m)
unfolding finish_write
finish_write-Handled irp written m = by_syn irp.flags.syn (irp.flags.ack && irp.flags.ioctl)
  where
    settled : Bool → Machine
    settled waiter =
        if waiter
        then record m {
          contexts = set_context m.contexts irp.file (λ c. record c { state = connected });
        }
        else m

    settled-Keeps : (waiter : Bool) → Keeps (irp ∷ []) m (irp ∷ []) (settled waiter)
    settled-Keeps true = record { tallies = λ id. refl; no_longer = omega arith }
    settled-Keeps false = unmoved (irp ∷ []) m

    by_syn :
        (syn waiter : Bool)
        → Handled irp m (
            if syn then (status_pending, await_ack irp, m) else (
              status_success,
              irp,
              log
                  (completed irp.id status_success
                    (if waiter then 0 else information irp.flags written))
                  (settled waiter),
            ))
    by_syn true waiter = record { tallies = λ id. refl; no_longer = omega arith }
    by_syn false waiter = Keeps-trans (settled-Keeps waiter) (
        complete-Keeps irp status_success (if waiter then 0 else information irp.flags written)
          (settled waiter))

sent-Handled :
    (ctx : Context) (irp : Irp) (m : Machine) (r : NtStatus × Irp × Machine)
    → Handled irp (log (send_event ctx irp) m) r
    → Handled irp m r
sent-Handled ctx irp m r k = record { tallies = k.tallies; no_longer = k.no_longer }

-- V4vDoWrite returns, and it has completed its IRP, or hands it back.
pub do_write-Handled :
    (env : Env) (ctx : Context) (irp : Irp) (m : Machine)
    → Gives (do_write env ctx irp m) (Handled irp m)
unfolding do_write
do_write-Handled env ctx irp m = by_status (is_retry status) refl (nt_success status) refl
  where
    ret : Ret
    ret = env.hypercall m.trace

    status : NtStatus
    status = filter_errno ret

    m' : Machine
    m' = log (send_event ctx irp) m

    by_status :
        (retry : Bool)
        → is_retry status ≡ retry
        → (success : Bool) → nt_success status ≡ success
        → Gives
            (if retry
              then some (status_retry, irp, m')
              else if success
              then some (finish_write irp (written_by ret) m')
              else fail_write ctx irp status m')
            (Handled irp m)
    by_status true r success s = (
      (status_retry, irp, m'),
      refl,
      sent-Handled ctx irp m (status_retry, irp, m') (unmoved (irp ∷ []) m'),
    )
    by_status false r true s = (
      finish_write irp (written_by ret) m',
      refl,
      sent-Handled ctx irp m (finish_write irp (written_by ret) m')
          (finish_write-Handled irp (written_by ret) m'),
    )
    by_status false r false s =
        gives_map (fail_write-Handled ctx irp status m' (not_kept status r s))
          (sent-Handled ctx irp m)
