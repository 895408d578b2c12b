-- ===== src/Driver/Interrupt/Connector.antt =====
-- linux/v4v.c, connector_interrupt: what becomes of the first message of a connected socket's ring.
use legacy_v4v.Prelude.{
  ℕ, ◌≤◌, Bool, true, false, ◌||◌, ◌≡◌, refl, sym, ap, ◌∙◌, Option, none, some, List, ◌∷◌, ◌++◌,
  arith, if◌then◌else◌, length, length-take, take, take-append-drop, drop, le→ltb, ==_iff,
}
use legacy_v4v.Abi.{StreamHeader, read_stream_header, stream_header_size, proto_stream}
use legacy_v4v.Ring.{Received}
use legacy_v4v.Ring.Frames.{IsValid, Message, Holds, u32_at-append}
use legacy_v4v.Ring.Receive.{delivery, popped}
use legacy_v4v.Driver.{
  Ring, Private, Driver, Env, wake_readq, load_private, lookup, replace, M, ◌>>=◌, ◌>>◌, pure, skip,
  has_flag, shf_syn, shf_ack, shf_rst,
}
use legacy_v4v.Driver.Loads.{load_private-bind, load_ring-bind, bind_lem}
use legacy_v4v.Driver.Machine.{connector_state_machine}
use legacy_v4v.Driver.Interrupt.{
  copy_from_ring, copy_into_pending_recv, connector_interrupt, connector_message, connector_header,
  perform, rst_to_sender, consume_control,
}
use legacy_v4v.Driver.Interrupt.Queue.{
  queue_result, copy_into_pending_recv_lem, copy_from_ring_lem, copy_from_ring_peek,
}

-- A stream header is read from its own eight bytes.
read_stream_header-take :
    (l : List ℕ)
    → stream_header_size ≤ length l
    → read_stream_header (take stream_header_size l) ≡ read_stream_header l
read_stream_header-take l h =
    let x = take stream_header_size l in
    let y = drop stream_header_size l in
    let n = length-take stream_header_size l in
    let e : read_stream_header (x ++ y) ≡ read_stream_header x = λ i. record {
      flags = u32_at-append x y 0 (omega arith) i;
      conid = u32_at-append x y 4 (omega arith) i;
    } in
    sym e ∙ ap read_stream_header (take-append-drop stream_header_size l)

module _ (env : Env) (address a : ℕ) (d : Driver) (p : Private) (r : Ring) (m : Message)
    (ms : List Message) (is_socket : d.privates a ≡ some p)
    (is_ring : lookup address d.ring_list ≡ some r) (sponsored : r.sponsor ≡ some a)
    (valid : IsValid r.ring) (holds : Holds r.ring (m ∷ ms)) (is_stream : m.protocol ≡ proto_stream)
    (long : stream_header_size ≤ length m.payload) where
  -- A stream message gets to connector_message.
  to_message :
      connector_interrupt env address d
      ≡ connector_message env address a (delivery m true stream_header_size) d
  unfolding connector_interrupt
  to_message =
      let proto = (==_iff m.protocol proto_stream).1 is_stream in
      let size = le→ltb (length m.payload) stream_header_size long in
      load_ring-bind address _ d r is_ring
      ∙ rw sponsored (
          bind_lem (copy_from_ring address true stream_header_size false) _ d d _
            (copy_from_ring_peek address d r m ms is_ring valid holds stream_header_size)
          ∙ rw proto (rw size refl))

  -- The message's stream header.
  abbrev pub sh : StreamHeader
  sh = read_stream_header m.payload

  header_lem : read_stream_header (take stream_header_size m.payload) ≡ sh
  header_lem = read_stream_header-take m.payload long

  -- The driver with the message taken out of the ring.
  abbrev pub taken : Driver
  taken = record d { ring_list = replace address (record r { ring = popped r.ring m }) d.ring_list }

  abbrev pub woken : Driver → Driver
  woken d' = record d' { trace = wake_readq a ∷ d'.trace }

  module _ (own : sh.conid ≡ p.conid) (no_syn : has_flag sh.flags shf_syn ≡ false) where
    -- The first message of a valid ring, a data message of a connected socket's own connection (no SYN,
    -- ACK or RST), is handled by connector_interrupt as copy_into_pending_recv says: queued whole and
    -- taken out of the ring, or left there if the queue is full or there is no memory, which is the
    -- result that ends the loop over the ring. The socket's readers are woken.
    pub connector_interrupt-queues :
        (has_flag sh.flags shf_ack || has_flag sh.flags shf_rst) ≡ false
        → connector_interrupt env address d
          ≡ some
              ((queue_result env address a d p r m).0, woken (queue_result env address a d p r m).1)
    unfolding connector_header
    connector_interrupt-queues plain =
        let same = (==_iff sh.conid p.conid).1 own in
        let q = queue_result env address a d p r m in
        to_message
        ∙ ap (λ h. connector_header env address a (delivery m true stream_header_size) h d)
            header_lem
        ∙ rw no_syn (
            load_private-bind a _ d p is_socket
            ∙ rw same (
                rw plain (
                  bind_lem (copy_into_pending_recv env address (length m.payload) a) _ d q.1 q.0
                    (copy_into_pending_recv_lem env address a d p r m ms is_socket is_ring valid
                      holds long).0)))

    -- The step of the state machine, and the RST that it may ask for.
    abbrev pub stepped : StreamHeader → M (Unit {0})
    stepped h = perform a (connector_state_machine p h) >>= λ reset.
        if reset then rst_to_sender env address (delivery m true stream_header_size) else skip

    -- The first message of a valid ring, an ACK or a RST of a stream socket's own connection and no
    -- longer than its header, is taken out of the ring by connector_interrupt, whatever the socket's
    -- state; the socket makes the step of connector_state_machine, with its wakeups, and the sender
    -- gets a RST if the step asks for it.
    pub connector_interrupt-steps :
        (has_flag sh.flags shf_ack || has_flag sh.flags shf_rst) ≡ true
        → length m.payload ≡ stream_header_size
        → connector_interrupt env address d ≡ (stepped sh >> pure true) taken
    unfolding connector_header
    connector_interrupt-steps answers size =
        let same = (==_iff sh.conid p.conid).1 own in
        let got = delivery m true stream_header_size in
        let bare = (==_iff (length m.payload) stream_header_size).1 size in
        let k = λ (m' : Received). load_private a >>= λ p'.
        perform a (connector_state_machine p' (read_stream_header m'.buf)) >>= λ reset.
        if reset then rst_to_sender env address m' else skip in
        let consumed : consume_control address k d ≡ k got taken =
          bind_lem (copy_from_ring address true stream_header_size true) _ d taken (some got)
            (copy_from_ring_lem address d r m ms is_ring valid holds stream_header_size)
          ∙ ap (λ b. (if b then k got else skip) taken) bare in
        let then_true = λ (o : Option (Unit {0} × Driver)).
          elim o as (λ x. Option (Bool × Driver)) [ none ↦ none | some x ↦ pure true x.1 ] in
        to_message
        ∙ ap (λ h. connector_header env address a got h d) header_lem
        ∙ rw no_syn (
            load_private-bind a _ d p is_socket
            ∙ rw same (
                rw answers (
                  ap then_true (
                    consumed
                    ∙ load_private-bind a _ taken p is_socket
                    ∙ ap (λ h. stepped h taken) header_lem))))
