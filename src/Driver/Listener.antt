-- ===== src/Driver/Listener.antt =====
-- linux/v4v.c, "interrupt handler": the rings that listen, and the interrupt itself.
pub mod Drained
pub mod Rounds
pub mod Answered
use legacy_v4v.Prelude.{
  ℕ, zero, suc, ◌+◌, ◌-◌, ◌/◌, Bool, true, false, ◌&&◌, ◌||◌, not, Option, none, some, List, [],
  ◌∷◌, ◌==◌, if◌then◌else◌,
}
use legacy_v4v.Abi.{Addr, same_addr, read_stream_header, stream_header_size}
use legacy_v4v.Ring.{V4vRing, Received}
use legacy_v4v.Driver.{
  Ring, rtype_idle, rtype_dgram, rtype_listener, rtype_connector, PendingRecv, Env, wake_readq, M,
  pure, ◌>>=◌, ◌>>◌, skip, load_ring, load_private, store_private, emit, has_flag, shf_syn, shf_ack,
  shf_rst,
}
use legacy_v4v.Driver.Notify.{notify_pending, notify_nothing}
use legacy_v4v.Driver.Machine.{acceptor_state_machine}
use legacy_v4v.Driver.Interrupt.{
  copy_from_ring, recover_ring, discard, copy_into_pending_recv, perform, consume_control,
  rst_to_sender, rst_from_ring, is_stream_message, connector_interrupt,
}

-- acceptor_interrupt, for a message that was peeked.
unfoldable pub acceptor_interrupt : Env → ℕ → ℕ → Received → M Bool
acceptor_interrupt env a address m =
    let sh = read_stream_header m.buf in
    if has_flag sh.flags shf_syn || has_flag sh.flags shf_ack
    then (consume_control address (rst_to_sender env address) >> pure true)
    else (if has_flag sh.flags shf_rst
        then (consume_control address (λ m'. do
          p ← load_private a
          reset ← perform a (acceptor_state_machine p (read_stream_header m'.buf))
          skip)
            >> pure true)
        else (do done ← copy_into_pending_recv env address m.ret a; emit (wake_readq a); pure done))

-- The private of this connection.
unfoldable pub find_private : ℕ → Addr → List ℕ → M (Option ℕ)
find_private conid from [] = pure none
find_private conid from (a ∷ l) =
    let rest = find_private conid from l in
    load_private a >>= λ p.
    if p.conid == conid && same_addr p.peer from then pure (some a) else rest

-- The list without the first SYN of the connection, and how many entries that takes away.
unfoldable pub evict_syn : ℕ → List PendingRecv → List PendingRecv × ℕ
evict_syn conid [] = ([], 0)
evict_syn conid (p ∷ l) =
    let (l', n) = evict_syn conid l in
    if has_flag p.sh.flags shf_syn && p.sh.conid == conid then (l, 1) else (p ∷ l', n)

abbrev pub evict_from : ℕ → ℕ → M (Unit {0})
evict_from conid a = do
  p ← load_private a
  (let (l, n) = evict_syn conid p.pending_recv_list in
      store_private a
        (record p { pending_recv_list = l; pending_recv_count = p.pending_recv_count - n }))

-- A message of no connection.
unfoldable pub listener_message : Env → ℕ → Received → M Bool
listener_message env address m =
    let sh = read_stream_header m.buf in
    load_ring address >>= λ r.
    if has_flag sh.flags shf_rst
    then (do
      elim r.sponsor [ none ↦ skip | some a ↦ evict_from sh.conid a ]
      discard address stream_header_size
      pure true)
    else (if has_flag sh.flags shf_syn
        then (elim r.sponsor [
          | none ↦ discard address stream_header_size >> pure true
          | some a ↦
              if not (m.ret == stream_header_size)
              then (discard address stream_header_size >> pure true)
              else (do
                done ← copy_into_pending_recv env address m.ret a
                emit (wake_readq a)
                pure done)
        ])
        else (do
          discard address stream_header_size
          rst_from_ring env address sh.conid m.from
          pure true))

-- listener_interrupt: whether it returned 0.
unfoldable pub listener_interrupt : Env → ℕ → M Bool
listener_interrupt env address = do
  peeked ← copy_from_ring address true stream_header_size false
  elim peeked [
    | none ↦ recover_ring address >> pure true
    | some m ↦
        if is_stream_message m
        then (do
          r ← load_ring address
          found ← find_private (read_stream_header m.buf).conid m.from r.privates
          elim found [
            | some a ↦ acceptor_interrupt env a address m
            | none ↦ listener_message env address m
          ])
        else (discard address 0 >> pure true)
  ]

-- `while ((r->ring->tx_ptr != r->ring->rx_ptr) && !handler (r));`
unfoldable pub drain : (ℕ → M Bool) → ℕ → ℕ → M (Unit {0})
drain handler zero address = skip
drain handler (suc fuel) address =
    let rest = drain handler fuel address in
    load_ring address >>= λ r.
    if r.ring.tx_ptr == r.ring.rx_ptr
    then skip
    else (handler address >>= λ more. if more then rest else skip)

-- A ring of `len` bytes holds at most `len / 16` messages, and each round takes one.
abbrev pub drain_fuel : V4vRing → ℕ
drain_fuel v = v.len / 16 + 1

abbrev pub dispatch : Env → ℕ → Ring → M (Unit {0})
dispatch env address r = elim r.type [
  | rtype_idle ↦ discard address 1
  | rtype_dgram ↦ elim r.sponsor [ none ↦ skip | some a ↦ emit (wake_readq a) ]
  | rtype_connector ↦ drain (connector_interrupt env) (drain_fuel r.ring) address
  | rtype_listener ↦ drain (listener_interrupt env) (drain_fuel r.ring) address
]

-- v4v_interrupt_rx, over the rings still to be looked at.
unfoldable pub interrupt_rx : Env → List (ℕ × Ring) → M (Unit {0})
interrupt_rx env [] = skip
interrupt_rx env ((address, seen) ∷ l) =
    let rest = interrupt_rx env l in
    load_ring address >>= λ r.
    (if r.ring.tx_ptr == r.ring.rx_ptr then skip else dispatch env address r) >> rest

-- v4v_interrupt
unfoldable pub interrupt : Env → M (Unit {0})
interrupt env d = (interrupt_rx env d.ring_list >> notify_pending env) d

-- v4v_fake_irq
unfoldable pub fake_irq : Env → M (Unit {0})
fake_irq env d = (interrupt_rx env d.ring_list >> notify_nothing env) d
