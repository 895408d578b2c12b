-- ===== src/Driver/Listener/Rounds.antt =====
-- linux/v4v.c, connector_interrupt: what a message of the connection, data or an answer, does to the
-- socket in a round of the loop over its ring.
use legacy_v4v.Prelude.{
  ℕ, suc, ◌≤◌, Bool, true, false, ◌||◌, ◌≡◌, refl, sym, ap, ◌∙◌, Option, none, some, List, [], ◌∷◌,
  ◌++◌, arith, append-nil, length, if◌then◌else◌,
}
use mathlib.Core.Bool.{true≢false}
use legacy_v4v.Abi.{
  Addr, RingId, StreamHeader, read_stream_header, stream_header_size, proto_stream,
  stream_header_bytes,
}
use legacy_v4v.Errno.{Ret, ok, err, enomem, is_eagain}
use legacy_v4v.Ring.Frames.{IsValid, Message, Holds}
use legacy_v4v.Ring.Receive.{delivery, popped}
use legacy_v4v.Driver.{
  Ring, Private, PendingRecv, Driver, Env, Event, kmalloc, wake_readq, wake_writeq, send, M, pure,
  ◌>>=◌, ◌>>◌, skip, allocate, lookup, replace, update, has_flag, shf_syn, shf_rst,
}
use legacy_v4v.Driver.Loads.{load_ring-bind, bind_lem, lookup-replace}
use legacy_v4v.Driver.Machine.{Step, connector_state_machine}
use legacy_v4v.Driver.Machine.Transitions.{
  next, is_ack, is_rst, answers, connector_step-state, next_same,
}
use legacy_v4v.Driver.Interrupt.{
  max_pending_recvs, connector_interrupt, perform, wake_if, rst_to_sender,
}
use legacy_v4v.Driver.Interrupt.Queue.{entry_of, with_entry}
use legacy_v4v.Driver.Interrupt.Connector.{connector_interrupt-steps}
use legacy_v4v.Driver.Listener.{drain}
use legacy_v4v.Driver.Listener.Drained.{IsData, waiting_lem, round, round_lem}
use legacy_v4v.Driver.Xmit.{xmit_queue_rst_to, xmit_queue_inline, push_xmit, inline_entry}
use legacy_v4v.Driver.Machine.Keeps.{connector_state_machine-Keeps}

abbrev pub header_of : Message → StreamHeader
header_of m = read_stream_header m.payload

abbrev pub is_answer : Message → Bool
is_answer m = is_ack (header_of m) || is_rst (header_of m)

-- A message of the connection: no SYN, and an ACK or a RST has no bytes behind its header.
pub record IsOwn (conid : ℕ) (m : Message) : Type 0 where
  pub is_stream : m.protocol ≡ proto_stream
  pub long : stream_header_size ≤ length m.payload
  pub own : (header_of m).conid ≡ conid
  pub no_syn : has_flag (header_of m).flags shf_syn ≡ false
  pub bare : is_answer m ≡ true → length m.payload ≡ stream_header_size

abbrev pub AreOwn : ℕ → List Message → Type 0
AreOwn conid [] = Unit
AreOwn conid (m ∷ ms) = IsOwn conid m × AreOwn conid ms

abbrev pub headers_of : List Message → List StreamHeader
headers_of [] = []
headers_of (m ∷ ms) = header_of m ∷ headers_of ms

-- The entries of the messages that are no answers
abbrev pub data_of : List Message → List PendingRecv
data_of [] = []
data_of (m ∷ ms) = let rest = data_of ms in if is_answer m then rest else entry_of m ∷ rest

-- A step that ends without a fault, and leaves these rings and these sockets.
abbrev Leaves : List (ℕ × Ring) → (ℕ → Option Private) → Option (Unit {0} × Driver) → Type 0
Leaves rings privates o =
    (d : Driver) × (o ≡ some (tt, d)) × (d.ring_list ≡ rings) × (d.privates ≡ privates)

module _ (env : Env) (from : RingId) (to : Addr) (buf : List ℕ) (protocol : ℕ) where
  abbrev Sends : Driver → Option (Ret × Driver) → Type 0
  Sends d o =
      (ret : Ret) × (d' : Driver) × (o ≡ some (ret, d'))
      × (d'.ring_list ≡ d.ring_list)
      × (d'.privates ≡ d.privates)

  xmit_queue_inline-Sends : (d : Driver) → Sends d (xmit_queue_inline env from to buf protocol d)
  unfolding xmit_queue_inline
  xmit_queue_inline-Sends d =
      by_answer (is_eagain (env.hypercall (send from.addr to buf protocol ∷ d.trace)))
    where
      push : Bool → M Ret
      push got =
          if got
          then (push_xmit (inline_entry from to buf protocol) >> pure (ok (length buf)))
          else pure (err enomem)

      sent_d : Driver
      sent_d = record d { trace = send from.addr to buf protocol ∷ d.trace }

      by_memory : (b : Bool) → Sends d (push b (record d { trace = kmalloc ∷ sent_d.trace }))
      by_memory true = (_, _, refl, refl, refl)
      by_memory false = (_, _, refl, refl, refl)

      by_answer :
          (b : Bool)
          → Sends d (
              (if b
                  then (allocate env >>= push)
                  else pure (env.hypercall (send from.addr to buf protocol ∷ d.trace)))
                sent_d)
      by_answer true = by_memory (env.allocated (kmalloc ∷ sent_d.trace))
      by_answer false = (_, _, refl, refl, refl)

xmit_queue_rst_to-Leaves :
    (env : Env) (from : RingId) (conid : ℕ) (to : Addr) (d : Driver)
    → Leaves d.ring_list d.privates (xmit_queue_rst_to env from conid to d)
unfolding xmit_queue_rst_to
xmit_queue_rst_to-Leaves env from conid to d =
    let rst = stream_header_bytes (record { flags = shf_rst; conid = conid }) in
    let (ret, d', e, rings, privates) = xmit_queue_inline-Sends env from to rst proto_stream d in
    (
      d',
      bind_lem (xmit_queue_inline env from to rst proto_stream) (λ r. skip) d d' ret e,
      rings,
      privates,
    )

perform_lem :
    (a : ℕ) (s : Step) (d : Driver)
    → (t : List Event) × (perform a s d
        ≡ some (s.reset, record d { privates = update d.privates a (some s.after); trace = t }))
perform_lem a s d = by_wakes s.wake_readers s.wake_writers
  where
    by_wakes :
        (r w : Bool)
        → (t : List Event) × ((wake_if r (wake_readq a) >>= λ u.
                wake_if w (wake_writeq a) >>= λ v x. some (s.reset, x))
              (record d { privates = update d.privates a (some s.after) })
            ≡ some (s.reset, record d { privates = update d.privates a (some s.after); trace = t }))
    by_wakes false false = (_, refl)
    by_wakes false true = (_, refl)
    by_wakes true false = (_, refl)
    by_wakes true true = (_, refl)

module _ (env : Env) (address a : ℕ) where
  -- A RST that is asked for, or not
  answer-Leaves :
      (b : Bool) (d : Driver) (r : Ring) (m : Message)
      → lookup address d.ring_list ≡ some r
      → Leaves d.ring_list d.privates
          ((if b then rst_to_sender env address (delivery m true stream_header_size) else skip) d)
  answer-Leaves false d r m e = (d, refl, refl, refl)
  answer-Leaves true d r m e =
      let got = delivery m true stream_header_size in
      let (d', x, y, z) =
        xmit_queue_rst_to-Leaves env r.ring.id (read_stream_header got.buf).conid got.from d in
      (d', load_ring-bind address _ d r e ∙ x, y, z)

  module _ (d : Driver) (p : Private) (r : Ring) (m : Message) (ms : List Message)
      (is_socket : d.privates a ≡ some p) (is_ring : lookup address d.ring_list ≡ some r)
      (sponsored : r.sponsor ≡ some a) (valid : IsValid r.ring)
      (holds : Holds r.ring (m ∷ ms)) where
    abbrev pub rings_after : List (ℕ × Ring)
    rings_after = replace address (record r { ring = popped r.ring m }) d.ring_list

    -- A round that goes on, with the message out of the ring and this socket
    abbrev pub Rounds : Private → Type 0
    Rounds p' =
        (d' : Driver) × (connector_interrupt env address d ≡ some (true, d'))
        × (d'.ring_list ≡ rings_after)
        × (d'.privates ≡ update d.privates a (some p'))

    answer-Rounds :
        IsOwn p.conid m
        → is_answer m ≡ true
        → Rounds (connector_state_machine p (header_of m)).after
    answer-Rounds own answers =
        let s = connector_state_machine p (header_of m) in
        let d0 : Driver = record d { ring_list = rings_after } in
        let (t, performed) = perform_lem a s d0 in
        let d1 : Driver = record d0 { privates = update d.privates a (some s.after); trace = t } in
        let (d', e, same, kept) =
          answer-Leaves s.reset d1 (record r { ring = popped r.ring m }) m
            (lookup-replace address (record r { ring = popped r.ring m }) d.ring_list r is_ring) in
        (
          d',
          connector_interrupt-steps env address a d p r m ms is_socket is_ring sponsored valid holds
                own.is_stream own.long own.own own.no_syn answers (own.bare answers)
              ∙ ap
                  (λ (o : Option (Unit {0} × Driver)). elim o as (λ x. Option (Bool × Driver)) [
                    | none ↦ none
                    | some (u, x) ↦ some (true, x)
                  ])
                  (bind_lem (perform a s) _ d0 d1 s.reset performed ∙ e),
          same,
          kept,
        )

    IsOwn-IsData : IsOwn p.conid m → is_answer m ≡ false → IsData p.conid m
    IsOwn-IsData own plain = record {
      is_stream = own.is_stream;
      long = own.long;
      own = own.own;
      no_syn = own.no_syn;
      plain = plain;
    }

    data-Rounds :
        ((t : List Event) → env.allocated t ≡ true)
        → p.pending_recv_count ≤ max_pending_recvs
        → IsOwn p.conid m
        → is_answer m ≡ false
        → Rounds (with_entry p (entry_of m))
    data-Rounds memory few own plain = (
      round env memory address a d p r m,
      round_lem env memory address a d p r m ms is_socket is_ring sponsored valid holds
          (IsOwn-IsData own plain) few,
      refl,
      refl,
    )

    -- What a message of the connection does to the socket
    abbrev pub after : Bool → Private
    after b =
        if b then (connector_state_machine p (header_of m)).after else with_entry p (entry_of m)

    pub own-Rounds :
        ((t : List Event) → env.allocated t ≡ true)
        → p.pending_recv_count ≤ max_pending_recvs
        → IsOwn p.conid m
        → (b : Bool) → is_answer m ≡ b
        → Rounds (after b)
    own-Rounds memory few own true e = answer-Rounds own e
    own-Rounds memory few own false e = data-Rounds memory few own e

    pub drain-Rounds :
        (fuel : ℕ) (p' : Private) (x : Rounds p')
        → drain (connector_interrupt env) (suc fuel) address d
          ≡ drain (connector_interrupt env) fuel address x.0
    unfolding drain
    drain-Rounds fuel p' (d', e, same, kept) =
        let busy = waiting_lem r.ring m ms valid holds in
        load_ring-bind address _ d r is_ring
        ∙ rw busy (bind_lem (connector_interrupt env address) _ d d' true e)

    -- The state, the entries and the rest of the socket after it
    abbrev pub Becomes : Bool → Private → Type 0
    Becomes b p' =
        (p'.state ≡ next p.state (is_ack (header_of m)) (is_rst (header_of m)))
        × (p'.conid ≡ p.conid)
        × (p'.pending_recv_list ≡ p.pending_recv_list ++ (if b then [] else entry_of m ∷ []))
        × (p'.pending_recv_count ≤ suc p.pending_recv_count)

    pub after-Becomes : (b : Bool) → is_answer m ≡ b → Becomes b (after b)
    after-Becomes true e =
        let k = connector_state_machine-Keeps p (header_of m) in
        (
          connector_step-state p (header_of m),
          k.conid,
          k.queue ∙ sym (append-nil p.pending_recv_list),
          omega (arith, k.count),
        )
    after-Becomes false e =
        (no_step (is_ack (header_of m)) (is_rst (header_of m)) e, refl, refl, omega arith)
      where
        no_step : (x y : Bool) → (x || y) ≡ false → p.state ≡ next p.state x y
        no_step true y h = absurd (true≢false h)
        no_step false true h = absurd (true≢false h)
        no_step false false h = sym (next_same p.state)
