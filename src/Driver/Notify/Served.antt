-- ===== src/Driver/Notify/Served.antt =====
-- linux/v4v.c, v4v_notify: what becomes of each entry of the queue.
use legacy_v4v.Prelude.{
  ℕ, ◌+◌, ◌-◌, Bool, true, false, not, ◌≡◌, refl, ap, ◌∙◌, subst, Option, some, List, [], ◌∷◌,
  arith, ◌==◌, if◌then◌else◌, length, take, take_all, map,
}
use legacy_v4v.Abi.{Addr}
use legacy_v4v.Errno.{is_eagain, is_nonzero}
use legacy_v4v.Driver.{
  Ring, PendingXmit, XmitType, xmit_inline, waitq_match_sponsor, waitq_match_privates, Driver, Env,
  Event, kmalloc, notify, M, pure, ◌>>=◌, hypercall, has_flag, send,
}
use legacy_v4v.Driver.Loads.{bind_lem}
use legacy_v4v.Driver.Live.{
  NoDangling, Harmless, NoDangling-Harmless, Harmless-refl, Harmless-trans, traced,
}
use legacy_v4v.Driver.Notify.Wake.{
  Sockets, put, woken, keys, waiting, wake, wake-Harmless, keys-woken, wakeup_privates-wake,
  wakeup_sponsor-wake,
}
use legacy_v4v.Driver.Notify.{
  ring_data_f_exists, ring_data_f_sufficient, query_of, notify_pending, wakeup_privates,
  wakeup_sponsor, process, process_all,
}

-- An entry whose ring exists or not, and has room or not: whether it stays in the queue, and the
-- sockets and events then. A message is sent again if there is room, and stays just if that is
-- answered by EAGAIN; another entry goes when there is room, and the socket that waits is woken.
module _ (env : Env) (k : ℕ → Option (ℕ × Addr)) (rings : List (ℕ × Ring)) where
  abbrev pub fate : PendingXmit → Bool → Bool → Sockets → Bool × Sockets
  fate p false sufficient st = (false, st)
  fate p true false st = (true, st)
  fate p true true (f, t) =
      let t' = send p.from.addr p.to p.bytes p.protocol ∷ t in
      elim p.type [
        | xmit_inline ↦ (is_eagain (env.hypercall t'), (f, t'))
        | waitq_match_sponsor ↦ (false, woken (waiting k rings p) (f, t))
        | waitq_match_privates ↦ (false, woken (waiting k rings p) (f, t))
      ]

  -- The queue, with the flags of its entries: what stays, in order, and the sockets and events.
  abbrev pub served : (ℕ → ℕ) → ℕ → List PendingXmit → Sockets → List PendingXmit × Sockets
  served flags i [] st = ([], st)
  served flags i (p ∷ l) st =
      let (stays, st1) =
        fate p (has_flag (flags i) ring_data_f_exists) (has_flag (flags i) ring_data_f_sufficient)
          st in
      let (left, st2) = served flags (i + 1) l st1 in (if stays then p ∷ left else left, st2)

-- The step's result is that the entry is done with, and the rest is as its fate says.
abbrev Fated : Driver → M Bool → Bool × Sockets → Type 0
Fated d m (stays, st) =
    (m d ≡ some (not stays, put d st)) × Harmless d (put d st) × (keys st.0 ≡ keys d.privates)

woken-Fated :
    (d : Driver) (m : M (Unit {0})) (o : Option ℕ)
    → m d ≡ some (tt, wake o d)
    → Fated d (m >>= λ u. pure true) (false, woken o (d.privates, d.trace))
woken-Fated d m o e = (
  bind_lem m (λ u. pure true) d (wake o d) tt e,
  wake-Harmless o d,
  keys-woken o (d.privates, d.trace),
)

module _ (env : Env) (p : PendingXmit) (d : Driver) (n : NoDangling d) where
  abbrev send_again : M Bool
  send_again =
      hypercall env (send p.from.addr p.to p.bytes p.protocol) >>= λ ret. pure (not (is_eagain ret))

  -- The cases of process.
  abbrev by_case : Bool → Bool → XmitType → M Bool
  by_case exists enough type =
      if exists
      then (elim type [
        | xmit_inline ↦ if enough then send_again else pure false
        | waitq_match_sponsor ↦
            if enough then (wakeup_sponsor p.from >>= λ u. pure true) else pure false
        | waitq_match_privates ↦
            if enough then (wakeup_privates p.from p.to p.conid >>= λ u. pure true) else pure false
      ])
      else pure true

  unchanged : (stays : Bool) → Fated d (pure (not stays)) (stays, (d.privates, d.trace))
  unchanged stays = (refl, Harmless-refl d, refl)

  by_type :
      (type : XmitType)
      → p.type ≡ type
      → Fated d
          (by_case true true p.type)
          (fate env (keys d.privates) d.ring_list p true true (d.privates, d.trace))
  by_type xmit_inline t = rw t (refl, traced d (send p.from.addr p.to p.bytes p.protocol), refl)
  by_type waitq_match_sponsor t =
      rw t (woken-Fated d (wakeup_sponsor p.from) _ (wakeup_sponsor-wake p.from d n))
  by_type waitq_match_privates t = rw t (
      woken-Fated d (wakeup_privates p.from p.to p.conid) _
        (wakeup_privates-wake p.from p.to p.conid d n))

  stays_put : (type : XmitType) → Fated d (by_case true false type) (true, (d.privates, d.trace))
  stays_put xmit_inline = unchanged true
  stays_put waitq_match_sponsor = unchanged true
  stays_put waitq_match_privates = unchanged true

  process_case :
      (exists enough : Bool)
      → Fated d
          (by_case exists enough p.type)
          (fate env (keys d.privates) d.ring_list p exists enough (d.privates, d.trace))
  process_case false enough = unchanged false
  process_case true false = stays_put p.type
  process_case true true = by_type p.type refl

  process-Fated :
      (flags : ℕ)
      → Fated d (process env flags p) (
          fate env
            (keys d.privates)
            d.ring_list
            p
            (has_flag flags ring_data_f_exists)
            (has_flag flags ring_data_f_sufficient)
            (d.privates, d.trace))
  unfolding process
  process-Fated flags = process_case _ _

process_all-step :
    (env : Env) (flags : ℕ → ℕ) (nent : ℕ) (p : PendingXmit) (l : List PendingXmit) (i : ℕ)
    → (i == nent) ≡ false
    → (d d1 d2 : Driver) (b : Bool) (l' : List PendingXmit) (m : ℕ)
    → process env (flags i) p d ≡ some (b, d1)
    → process_all env flags nent (i + 1) l d1 ≡ some ((l', m), d2)
    → process_all env flags nent i (p ∷ l) d ≡ some ((if b then (l', m + 1) else (p ∷ l', m)), d2)
unfolding process_all
process_all-step env flags nent p l i e d d1 d2 b l' m h k = rw e (
    bind_lem (process env (flags i) p) _ d d1 b h
    ∙ bind_lem (process_all env flags nent (i + 1) l) _ d1 d2 (l', m) k)

-- The loop ends without a fault, the list is served, and the second result is how many went.
abbrev Loops :
    Driver → List PendingXmit → M (List PendingXmit × ℕ) → List PendingXmit × Sockets → Type 0
Loops d l m (left, st) =
    (n : ℕ) × (m d ≡ some ((left, n), put d st))
    × (n + length left ≡ length l)
    × Harmless d (put d st)

Loops-later :
    (d : Driver) (p : PendingXmit) (l : List PendingXmit) (m : M (List PendingXmit × ℕ))
    (stays : Bool) (left : List PendingXmit) (n : ℕ) (st : Sockets)
    → m d ≡ some ((if not stays then (left, n + 1) else (p ∷ left, n)), put d st)
    → n + length left ≡ length l
    → Harmless d (put d st)
    → Loops d (p ∷ l) m (if stays then p ∷ left else left, st)
Loops-later d p l m true left n st e c h = (n, e, omega (arith, c), h)
Loops-later d p l m false left n st e c h = (n + 1, e, omega (arith, c), h)

process_all-served :
    (env : Env) (flags : ℕ → ℕ) (nent : ℕ) (l : List PendingXmit) (i : ℕ) (d : Driver)
    → NoDangling d
    → nent ≡ i + length l
    → Loops d l
        (process_all env flags nent i l)
        (served env (keys d.privates) d.ring_list flags i l (d.privates, d.trace))
unfolding process_all
process_all-served env flags nent [] i d n c = (0, refl, refl, Harmless-refl d)
process_all-served env flags nent (p ∷ l) i d n c =
    let exists = has_flag (flags i) ring_data_f_exists in
    let enough = has_flag (flags i) ring_data_f_sufficient in
    let go = fate env (keys d.privates) d.ring_list p exists enough (d.privates, d.trace) in
    let (e, h, same) = process-Fated env p d n (flags i) in
    let d1 = put d go.1 in
    let (m, e', c', h') =
      subst
        (λ k.
          Loops d1 l (process_all env flags nent (i + 1) l)
            (served env k d.ring_list flags (i + 1) l go.1))
        same
        (process_all-served env flags nent l (i + 1) d1 (NoDangling-Harmless d d1 h n)
          (omega (arith, c))) in
    let rest = served env (keys d.privates) d.ring_list flags (i + 1) l go.1 in
    let behind : (i == nent) ≡ false = ground arith in
    Loops-later d p l (process_all env flags nent i (p ∷ l)) go.0 rest.0 m rest.1
      (process_all-step env flags nent p l i behind d d1 (put d rest.1) (not go.0) rest.0 m e e') c'
      (Harmless-trans d d1 (put d rest.1) h h')

module _ (env : Env) (d : Driver) where
  -- What has happened when the hypervisor answers v4v_notify.
  abbrev pub asked : List Event
  asked = notify (map query_of d.pending_xmit_list) ∷ kmalloc ∷ d.trace

  -- The queue, the sockets and the events afterwards: by whether there was memory for the question
  -- and whether the hypercall gave 0.
  abbrev pub outcome : Bool → Bool → List PendingXmit × Sockets
  outcome false given = (d.pending_xmit_list, (d.privates, kmalloc ∷ d.trace))
  outcome true false = (d.pending_xmit_list, (d.privates, asked))
  outcome true true =
      served env (keys d.privates) d.ring_list (env.ring_flags asked) 0 d.pending_xmit_list
        (d.privates, asked)

  abbrev pub Notifies : List PendingXmit × Sockets → Type 0
  Notifies (left, st) =
      (notify_pending env d
        ≡ some (
          tt,
          record d {
            privates = st.0;
            trace = st.1;
            pending_xmit_list = left;
            pending_xmit_count = length left;
          },
        ))
      × NoDangling (put d st)

  module _ (n : NoDangling d) (counted : d.pending_xmit_count ≡ length d.pending_xmit_list) where
    abbrev with_trace : List Event → Driver
    with_trace t = record d { trace = t }

    -- The count is in step.
    in_step :
        (t : List Event)
        → with_trace t ≡ record d { trace = t; pending_xmit_count = length d.pending_xmit_list }
    in_step t = ap (λ c. record d { trace = t; pending_xmit_count = c }) counted

    asked_about :
        notify (map query_of (take d.pending_xmit_count d.pending_xmit_list)) ∷ kmalloc ∷ d.trace
        ≡ asked
    asked_about =
        ap (λ l. notify (map query_of l) ∷ kmalloc ∷ d.trace)
          (take_all d.pending_xmit_count d.pending_xmit_list (omega (arith, counted)))

    no_memory : env.allocated (kmalloc ∷ d.trace) ≡ false → Notifies (outcome false false)
    unfolding notify_pending
    no_memory g = (rw g (ap (λ x. some (tt, x)) (in_step (kmalloc ∷ d.trace))), n)

    unanswered :
        env.allocated (kmalloc ∷ d.trace) ≡ true
        → is_nonzero (env.hypercall asked) ≡ true
        → Notifies (outcome true false)
    unfolding notify_pending
    unanswered g r = (rw g (rw asked_about (rw r (ap (λ x. some (tt, x)) (in_step asked)))), n)

    answered-Notifies :
        env.allocated (kmalloc ∷ d.trace) ≡ true
        → is_nonzero (env.hypercall asked) ≡ false
        → Notifies (outcome true true)
    unfolding notify_pending
    answered-Notifies g r =
        let da = with_trace asked in
        let flags = env.ring_flags asked in
        let (went, e, c, h) =
          process_all-served env flags d.pending_xmit_count d.pending_xmit_list 0 da n
            (omega (arith, counted)) in
        let left = (outcome true true).0 in
        let st = (outcome true true).1 in
        let size : d.pending_xmit_count - went ≡ length left = omega (arith, counted, c) in
        (
          rw g (
              rw asked_about (
                rw r (
                  bind_lem (process_all env flags d.pending_xmit_count 0 d.pending_xmit_list) _ da
                    (put da st) (left, went) e
                  ∙ ap
                      (λ k. some (
                        tt,
                        record d {
                          privates = st.0;
                          trace = st.1;
                          pending_xmit_list = left;
                          pending_xmit_count = k;
                        },
                      ))
                      size))),
          NoDangling-Harmless da (put da st) h n,
        )

-- If no ring points to a socket that is gone and `pending_xmit_count` is the length of the queue, then
-- v4v_notify ends without a fault, keeps both, and changes nothing but the queue, the sockets and what
-- has happened. Without memory, or if the hypercall fails, the queue and the sockets stay. Otherwise
-- each entry of the queue has the fate that the answer decides. One whose ring is gone goes. One
-- whose ring has no room stays. With room, a message is sent again, and stays just if that gets
-- EAGAIN; a wait of a ring's sponsor or of a connection goes, and the socket is woken: the sponsor of
-- the first ring with that id, or the first socket with that peer and connection at the first
-- listening ring with that id, if there is one. What stays keeps its order.
pub notify_pending_lem :
    (env : Env) (d : Driver)
    → NoDangling d
    → d.pending_xmit_count ≡ length d.pending_xmit_list
    → Notifies env d (
        outcome env d
          (env.allocated (kmalloc ∷ d.trace))
          (not (is_nonzero (env.hypercall (asked env d)))))
notify_pending_lem env d n c =
    by_tests (env.allocated (kmalloc ∷ d.trace)) (is_nonzero (env.hypercall (asked env d))) refl
      refl
  where
    by_tests :
        (got fails : Bool)
        → env.allocated (kmalloc ∷ d.trace) ≡ got
        → is_nonzero (env.hypercall (asked env d)) ≡ fails
        → Notifies env d (outcome env d got (not fails))
    by_tests false fails g r = no_memory env d n c g
    by_tests true true g r = unanswered env d n c g r
    by_tests true false g r = answered-Notifies env d n c g r
