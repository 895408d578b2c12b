-- ===== src/Driver/Listener/Answered.antt =====
-- linux/v4v.c, v4v_interrupt_rx: the messages of a connection, data and answers, decide the state of
-- the socket that they are for.
use legacy_v4v.Prelude.{
  ℕ, zero, suc, ◌+◌, ◌≤◌, ◌<◌, Bool, true, false, ◌≡◌, refl, sym, ap, subst, ◌∙◌, some, List, [],
  ◌∷◌, ◌++◌, arith, append-nil, append_assoc, length, if◌then◌else◌, ==_iff,
}
use legacy_v4v.Ring.Frames.{IsValid, Message, Holds}
use legacy_v4v.Ring.Receive.{popped, copy_out-first}
use legacy_v4v.Driver.{
  Ring, Private, SocketState, connecting, PendingRecv, Driver, Env, Event, lookup,
}
use legacy_v4v.Driver.Loads.{load_ring-bind, lookup-replace}
use legacy_v4v.Driver.Machine.Transitions.{answers, verdict, run_states, run_states-connecting}
use legacy_v4v.Driver.Interrupt.{max_pending_recvs, connector_interrupt}
use legacy_v4v.Driver.Interrupt.Queue.{entry_of}
use legacy_v4v.Driver.Listener.{drain, drain_fuel}
use legacy_v4v.Driver.Listener.Drained.{drained_lem, fuel_lem}
use legacy_v4v.Driver.Listener.Rounds.{
  is_answer, AreOwn, headers_of, data_of, own-Rounds, drain-Rounds, after, after-Becomes,
}

-- What the loop leaves: an empty valid ring, and a socket with the data behind what it had, in the state
-- that the messages decide.
pub record Answered (address a : ℕ) (p : Private) (ms : List Message) (state : SocketState)
    (d' : Driver) : Type 0 where
  pub r' : Ring
  pub p' : Private
  pub is_ring : lookup address d'.ring_list ≡ some r'
  pub is_socket : d'.privates a ≡ some p'
  pub valid : IsValid r'.ring
  pub holds : Holds r'.ring []
  pub queue : p'.pending_recv_list ≡ p.pending_recv_list ++ data_of ms
  pub state_is : p'.state ≡ state

queue_later :
    (b : Bool) (q : List PendingRecv) (m : Message) (ms : List Message)
    → is_answer m ≡ b
    → (q ++ (if b then [] else entry_of m ∷ [])) ++ data_of ms ≡ q ++ data_of (m ∷ ms)
queue_later true q m ms e = rw e (ap (λ l. l ++ data_of ms) (append-nil q))
queue_later false q m ms e = rw e (append_assoc q (entry_of m ∷ []) (data_of ms))

-- With fuel for the messages and one round more, the loop ends with the ring empty.
drain_answers_lem :
    (env : Env) (memory : (t : List Event) → env.allocated t ≡ true) (address a : ℕ)
    (ms : List Message) (fuel : ℕ) (d : Driver) (p : Private) (r : Ring)
    → d.privates a ≡ some p
    → lookup address d.ring_list ≡ some r
    → r.sponsor ≡ some a
    → IsValid r.ring
    → Holds r.ring ms
    → AreOwn p.conid ms
    → p.pending_recv_count + length ms ≤ suc max_pending_recvs
    → length ms < fuel
    → (d' : Driver) × (drain (connector_interrupt env) fuel address d ≡ some (tt, d'))
      × Answered address a p ms (run_states p.state (headers_of ms)) d'
unfolding drain
drain_answers_lem env memory address a ms zero d p r es er sp v h own few f = absurd (omega arith)
drain_answers_lem env memory address a [] (suc fuel) d p r es er sp v h own few f =
    let quiet = drained_lem r.ring v h in
    (
      d,
      load_ring-bind address _ d r er ∙ rw quiet refl,
      record {
        r' = r;
        p' = p;
        is_ring = er;
        is_socket = es;
        valid = v;
        holds = h;
        queue = sym (append-nil p.pending_recv_list);
        state_is = refl;
      },
    )
drain_answers_lem env memory address a (m ∷ ms) (suc fuel) d p r es er sp v h (mine, own) few f =
    let (e, v', h') = copy_out-first r.ring m ms true 0 true v h in
    let b = is_answer m in
    let p1 = after env address a d p r m ms es er sp v h b in
    let r1 = record r { ring = popped r.ring m } in
    let (d1, step, rings, sockets) =
      own-Rounds env address a d p r m ms es er sp v h memory (omega arith) mine b refl in
    let (state, conid, queue, count) = after-Becomes env address a d p r m ms es er sp v h b refl in
    let self = (==_iff a a).1 refl in
    let (d', run, k) =
      drain_answers_lem env memory address a ms fuel d1 p1 r1
        (ap (λ f. f a) sockets ∙ ap (λ b. if b then some p1 else d.privates a) self)
        (ap (lookup address) rings ∙ lookup-replace address r1 d.ring_list r er) sp v' h'
        (subst (λ c. AreOwn c ms) (sym conid) own) (omega (arith, count)) (omega arith) in
    (
      d',
      drain-Rounds env address a d p r m ms es er sp v h fuel p1 (d1, step, rings, sockets) ∙ run,
      record {
        r' = k.r';
        p' = k.p';
        is_ring = k.is_ring;
        is_socket = k.is_socket;
        valid = k.valid;
        holds = k.holds;
        queue =
            k.queue ∙ ap (λ l. l ++ data_of ms) queue ∙ queue_later b p.pending_recv_list m ms refl;
        state_is = k.state_is ∙ ap (λ s. run_states s (headers_of ms)) state;
      },
    )

-- The loop of v4v_interrupt_rx over the valid ring of a connecting socket ends within its fuel and
-- without a fault, if the messages of the ring are stream messages of the socket's connection without
-- a SYN, whose ACKs and RSTs have no bytes behind their header, there is memory, and the messages and
-- the entries already queued are at most 17. Then the ring is valid and empty, the data of the
-- messages that are no ACK and no RST stand, whole and in order, behind what was queued, and the
-- ACKs and RSTs have decided the socket's state, whatever the hypervisor answers to the RSTs that
-- are sent: still connecting without one, connected if there was one and it was an ACK, and
-- disconnected otherwise.
pub drain-verdict :
    (env : Env) (address a : ℕ) (d : Driver) (p : Private) (r : Ring) (ms : List Message)
    → ((t : List Event) → env.allocated t ≡ true)
    → d.privates a ≡ some p
    → p.state ≡ connecting
    → lookup address d.ring_list ≡ some r
    → r.sponsor ≡ some a
    → IsValid r.ring
    → Holds r.ring ms
    → AreOwn p.conid ms
    → p.pending_recv_count + length ms ≤ suc max_pending_recvs
    → (d' : Driver) × (drain (connector_interrupt env) (drain_fuel r.ring) address d
        ≡ some (tt, d'))
      × Answered address a p ms (verdict (answers (headers_of ms))) d'
drain-verdict env address a d p r ms memory es dials er sp v h own few =
    let (d', run, k) =
      drain_answers_lem env memory address a ms (drain_fuel r.ring) d p r es er sp v h own few
        (fuel_lem r.ring ms v h) in
    (
      d',
      run,
      subst (λ s. Answered address a p ms s d')
          (ap (λ s. run_states s (headers_of ms)) dials ∙ run_states-connecting (headers_of ms)) k,
    )
