-- ===== src/Driver/Interrupt.antt =====
-- linux/v4v.c, "interrupt handler": what arrived in the rings is taken out and given to the sockets.
pub mod Queue
pub mod Connector
use legacy_v4v.Prelude.{
  ℕ, zero, suc, ◌+◌, ◌-◌, ◌^◌, ◌%◌, Bool, true, false, ◌&&◌, ◌||◌, not, Option, none, some, List,
  [], ◌∷◌, ◌++◌, ltb, ◌==◌, if◌then◌else◌, drop,
}
use legacy_v4v.Abi.{
  Addr, StreamHeader, same_addr, proto_stream, read_stream_header, stream_header_size,
}
use legacy_v4v.Ring.{V4vRing, Received, copy_out}
use legacy_v4v.Driver.{
  Ring, RType, rtype_idle, rtype_dgram, rtype_listener, rtype_connector, Private, PendingRecv,
  Driver, Env, Event, wake_readq, wake_writeq, M, pure, ◌>>=◌, ◌>>◌, fault, skip, or_fault,
  load_ring, store_ring, load_private, store_private, emit, allocate, has_flag, shf_syn, shf_ack,
  shf_rst,
}
use legacy_v4v.Driver.Xmit.{xmit_queue_rst_to}
use legacy_v4v.Driver.Notify.{notify_pending, notify_nothing}
use legacy_v4v.Driver.Machine.{Step, connector_state_machine, acceptor_state_machine}

abbrev pub max_pending_recvs : ℕ
max_pending_recvs = 16

-- v4v_copy_out on the ring at `address`, which it may change.
unfoldable pub copy_from_ring : ℕ → Bool → ℕ → Bool → M (Option Received)
copy_from_ring address buf t consume = do
  r ← load_ring address
  (let (got, v) = copy_out r.ring buf t consume in
      (do store_ring address (record r { ring = v }); pure got))

-- recover_ring
unfoldable pub recover_ring : ℕ → M (Unit {0})
recover_ring address = do
  r ← load_ring address
  store_ring address (record r { ring = record r.ring { rx_ptr = r.ring.tx_ptr } })

-- Throws the next message away: `v4v_copy_out (r->ring, NULL, NULL, NULL, t, 1)`.
abbrev pub discard : ℕ → ℕ → M (Unit {0})
discard address t = copy_from_ring address false t true >>= λ got. skip

abbrev pub queued : Received → ℕ → PendingRecv
queued got len = record {
  from = got.from;
  data_len = (len + 2 ^ 64 - stream_header_size) % 2 ^ 64;
  data_ptr = 0;
  sh = read_stream_header got.buf;
  bytes = drop stream_header_size got.buf;
}

-- copy_into_pending_recv: whether it returned 0. An entry that v4v_copy_out did not fill is a fault.
unfoldable pub copy_into_pending_recv : Env → ℕ → ℕ → ℕ → M Bool
copy_into_pending_recv env address len a = do
  p ← load_private a
  if ltb max_pending_recvs p.pending_recv_count
      then (store_private a (record p { full = true }) >> pure false)
      else (do
        got ← allocate env
        if got
            then (do
              filled ← copy_from_ring address true len true
              got ← or_fault filled
              p' ← load_private a
              store_private a (record p' {
                pending_recv_list = p'.pending_recv_list ++ (queued got len ∷ []);
                pending_recv_count = p'.pending_recv_count + 1;
                full = false;
              })
              pure true)
            else pure false)

-- The wakeups of a step of a state machine.
abbrev pub wake_if : Bool → Event → M (Unit {0})
wake_if b e = if b then emit e else skip

abbrev pub perform : ℕ → Step → M Bool
perform a s = do
  store_private a s.after
  wake_if s.wake_readers (wake_readq a)
  wake_if s.wake_writers (wake_writeq a)
  pure s.reset

-- `xmit_queue_rst_to (&r->ring->id, conid, &from)`
abbrev pub rst_from_ring : Env → ℕ → ℕ → Addr → M (Unit {0})
rst_from_ring env address conid to = do
  r ← load_ring address
  xmit_queue_rst_to env r.ring.id conid to

-- A control message is taken out of the ring; `k` goes on if it is a bare stream header.
abbrev pub consume_control : ℕ → (Received → M (Unit {0})) → M (Unit {0})
consume_control address k = do
  got ← copy_from_ring address true stream_header_size true
  elim got [ none ↦ skip | some m ↦ if m.ret == stream_header_size then k m else skip ]

-- `from` and `sh` after a second v4v_copy_out, which leaves them alone if it returns -1.
abbrev pub overwritten : Option Received → Received → Received
overwritten none m = m
overwritten (some m') m = m'

abbrev pub rst_to_sender : Env → ℕ → Received → M (Unit {0})
rst_to_sender env address m = rst_from_ring env address (read_stream_header m.buf).conid m.from

-- The first message `m` is a stream message whose header `sh` was peeked.
unfoldable pub connector_header : Env → ℕ → ℕ → Received → StreamHeader → M Bool
connector_header env address a m sh =
    if has_flag sh.flags shf_syn
    then (consume_control address (rst_to_sender env address) >> pure true)
    else (load_private a >>= λ p.
        if not (sh.conid == p.conid)
        then (do
          again ← copy_from_ring address true stream_header_size true
          rst_to_sender env address (overwritten again m)
          pure true)
        else (if has_flag sh.flags shf_ack || has_flag sh.flags shf_rst
            then (consume_control address (λ m'. do
              p' ← load_private a
              reset ← perform a (connector_state_machine p' (read_stream_header m'.buf))
              if reset then rst_to_sender env address m' else skip)
                >> pure true)
            else (do
              done ← copy_into_pending_recv env address m.ret a
              emit (wake_readq a)
              pure done)))

abbrev pub connector_message : Env → ℕ → ℕ → Received → M Bool
connector_message env address a m = connector_header env address a m (read_stream_header m.buf)

abbrev pub is_stream_message : Received → Bool
is_stream_message m = m.protocol == proto_stream && not (ltb m.ret stream_header_size)

-- connector_interrupt: whether it returned 0.
unfoldable pub connector_interrupt : Env → ℕ → M Bool
connector_interrupt env address = do
  r ← load_ring address
  elim r.sponsor [
    | none ↦ pure false
    | some a ↦ (do
      peeked ← copy_from_ring address true stream_header_size false
      elim peeked [
        | none ↦ recover_ring address >> pure true
        | some m ↦
            if is_stream_message m
            then connector_message env address a m
            else (discard address 0 >> pure true)
      ])
  ]
