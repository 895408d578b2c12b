-- ===== src/Windows/Writes.antt =====
-- windows/xenv4v/rw.c: the write routines, from V4vGetWriteIrpValues to V4vDispatchWrite. A result
-- `none` is a loop that has run out of its fuel; Windows/Writes/Conserved shows that there is none.
pub mod Tally
pub mod Steps
pub mod Conserved
pub mod Order
pub mod Cancelled
pub mod Destination
use legacy_v4v.Prelude.{
  ℕ, zero, suc, ◌+◌, ◌-◌, ◌%◌, ◌^◌, ◌≡◌, Bool, true, false, not, ◌&&◌, ◌||◌, Option, none, some,
  List, [], ◌∷◌, ◌++◌, length, ltb, ◌==◌, if◌then◌else◌,
}
use legacy_v4v.Abi.{Addr, add32, sub32, proto_dgram, proto_stream, stream_header_size}
use legacy_v4v.Errno.{Ret, ok, err}
use legacy_v4v.Windows.Csq.{
  Flags, Irp, Qpeek, Extension, NtStatus, status_success, status_pending, status_retry,
  status_virtual_circuit_closed, status_invalid_device_request, status_buffer_too_small,
  status_no_memory, RingDataEntry, remove_next_irp, copy_destination_ring_data,
}
use legacy_v4v.Windows.Machine.{
  ContextState, bound, connected, accepted, listening, passive, disconnected, ContextType,
  unspecified, datagram, listener, connector, accepter, Context, Event, sent, completed, notified,
  Machine, Env, filter_errno, set_context, log, simple_complete, no_flags, writes_of,
  writes_of_file, disconnect_stream_and_signal, nt_success, insert, requeue_irps,
}

-- What V4vGetWriteIrpValues gives: the protocol, the destination and the length.
pub record WriteValues : Type 0 where
  pub protocol : ℕ
  pub dst : Addr
  pub len : ℕ

-- V4vGetWriteIrpValues. The message stays in the IRP.
unfoldable pub get_write_irp_values : Context → Irp → WriteValues
get_write_irp_values ctx irp =
    let control : Addr → WriteValues =
      λ dst. record { protocol = proto_stream; dst = dst; len = stream_header_size } in
    if irp.flags.syn
    then control ctx.sdst
    else (if irp.flags.ack
        then control ctx.sdst
        else (if irp.flags.rst
            then control irp.reset_dst
            else (if irp.flags.stream
                then record { protocol = proto_stream; dst = ctx.sdst; len = irp.write_length }
                else record {
                  protocol = proto_dgram;
                  dst = irp.message_dst;
                  len = sub32 irp.write_length 6;
                })))

-- XENV4V_PEEK_STREAM_FLAGS
abbrev pub is_control : Flags → Bool
is_control f = f.syn || f.ack || f.rst

-- `*writtenOut` of V4vSend and V4vSendVec
abbrev pub written_by : Ret → ℕ
written_by (ok n) = n % 2 ^ 32
written_by (err e) = 0

-- What V4vDoWrite reports as written: `sizeof(XENV4V_RESET)` is 40 and `sizeof(XENV4V_ACKNOWLEDGE)`
-- is 32 on a 64-bit system.
unfoldable pub information : Flags → ℕ → ℕ
information f written =
    if f.stream && not (is_control f)
    then sub32 written stream_header_size
    else (if not (is_control f)
        then add32 written 6
        else (if f.rst then 40 else (if f.ack && not f.ioctl then 32 else written)))

-- The hypercall of V4vDoWrite, V4vSendVec with a stream header in front or V4vSend
abbrev pub send_event : Context → Irp → Event
send_event ctx irp =
    let values = get_write_irp_values ctx irp in
    sent ctx.addr values.dst values.protocol
      (if irp.flags.stream && not (is_control irp.flags) then some (ctx.conn_id % 2 ^ 32) else none)
      irp.id values.len

abbrev pub is_stream_type : ContextType → Bool
is_stream_type listener = true
is_stream_type connector = true
is_stream_type accepter = true
is_stream_type _ = false

abbrev pub is_closed : NtStatus → Bool
is_closed status_virtual_circuit_closed = true
is_closed _ = false

abbrev pub disconnect_if : Bool → ℕ → Machine → Option Machine
disconnect_if t file m = if t then disconnect_stream_and_signal file m else some m

-- The failure branch of V4vDoWrite
unfoldable pub fail_write : Context → Irp → NtStatus → Machine → Option (NtStatus × Irp × Machine)
fail_write ctx irp status m = elim (disconnect_if (irp.flags.syn || irp.flags.ack) irp.file m) [
  | none ↦ none
  | some m1 ↦ elim (disconnect_if (is_closed status && is_stream_type ctx.type) irp.file m1) [
    | none ↦ none
    | some m2 ↦ some (status, irp, simple_complete irp status m2)
  ]
]

-- The SYN is written, and the IRP becomes a read that waits for the ACK.
abbrev pub await_ack : Irp → Irp
await_ack irp = record irp {
  flags = record irp.flags { write = false; syn = false; read = true; ack = true };
}

-- The end of V4vDoWrite, after a successful hypercall
unfoldable pub finish_write : Irp → ℕ → Machine → NtStatus × Irp × Machine
finish_write irp written m =
    let waiter = irp.flags.ack && irp.flags.ioctl in
    let m' =
      if waiter
      then record m {
        contexts = set_context m.contexts irp.file (λ c. record c { state = connected });
      }
      else m in
    if irp.flags.syn then (status_pending, await_ack irp, m) else (
      status_success,
      irp,
      log (completed irp.id status_success (if waiter then 0 else information irp.flags written))
          m',
    )

abbrev pub is_retry : NtStatus → Bool
is_retry status_retry = true
is_retry _ = false

abbrev pub is_pending : NtStatus → Bool
is_pending status_pending = true
is_pending _ = false

-- V4vDoWrite: the status, the IRP with its flags, and the machine.
unfoldable pub do_write : Env → Context → Irp → Machine → Option (NtStatus × Irp × Machine)
do_write env ctx irp m =
    let ret = env.hypercall m.trace in
    let status = filter_errno ret in
    let m' = log (send_event ctx irp) m in
    if is_retry status
    then some (status_retry, irp, m')
    else (if nt_success status
        then some (finish_write irp (written_by ret) m')
        else fail_write ctx irp status m')

-- `v4v_ring_data_ent_t` as the hypervisor has filled it in
pub record RingDataResult : Type 0 where
  pub ring : Addr
  pub exists : Bool
  pub sufficient : Bool

-- How a round of a write loop ends: with the IRPs to put back, or on with the next round.
pub data Round : Type 0 where
  done : List Irp → Machine → Round
  again : ℕ → List Irp → Machine → Round

-- A round of V4vProcessDestinationWrites after V4vDoWrite
unfoldable pub after_send : ℕ → List Irp → NtStatus × Irp × Machine → Round
after_send counter returns (status, irp, m) =
    if is_retry status
    then done (returns ++ (irp ∷ [])) m
    else (if is_pending status
        then again (suc counter) (returns ++ (irp ∷ [])) m
        else again (if nt_success status then suc counter else counter) returns m)

-- A round of V4vProcessDestinationWrites with the IRP that it has taken
unfoldable pub destination_round :
    Env → RingDataResult → ℕ → List Irp → Irp → Machine → Option Round
destination_round env entry counter returns irp m =
    let ctx = m.contexts irp.file in
    if not entry.exists
    then elim (disconnect_if (is_stream_type ctx.type) irp.file m) [
      | none ↦ none
      | some m' ↦
          some (again counter returns (simple_complete irp status_virtual_circuit_closed m'))
    ]
    else (if counter == 0 && not entry.sufficient
        then some (done (returns ++ (irp ∷ [])) m)
        else elim (do_write env ctx irp m) [
          | none ↦ none
          | some result ↦ some (after_send counter returns result)
        ])

-- The loop of V4vProcessDestinationWrites, and its last line
unfoldable pub destination_loop : Env → RingDataResult → ℕ → ℕ → List Irp → Machine → Option Machine
destination_loop env entry zero counter returns m = none
destination_loop env entry (suc fuel) counter returns m =
    elim (remove_next_irp m.ext (writes_of none entry.ring)) [
      | none ↦ some (requeue_irps env returns m)
      | some (irp, ext) ↦
          elim (destination_round env entry counter returns irp (record m { ext = ext })) [
            | none ↦ none
            | some (done returns' m') ↦ some (requeue_irps env returns' m')
            | some (again counter' returns' m') ↦
                destination_loop env entry fuel counter' returns' m'
          ]
    ]

-- V4vProcessDestinationWrites: each round takes an IRP out of the queue.
unfoldable pub process_destination_writes : Env → RingDataResult → Machine → Option Machine
process_destination_writes env entry m =
    destination_loop env entry (suc (length m.ext.pending_irp_queue)) 0 [] m

-- The loop of V4vProcessNotify over the entries
unfoldable pub process_entries : Env → List RingDataResult → Machine → Option Machine
process_entries env [] m = some m
process_entries env (entry ∷ entries) m = elim (process_destination_writes env entry m) [
  | none ↦ none
  | some m' ↦ process_entries env entries m'
]

abbrev pub is_ok : Ret → Bool
is_ok (ok zero) = true
is_ok _ = false

-- V4vProcessNotify where the ring data is allocated. `fill` is what the hypercall writes into the
-- entries.
unfoldable pub process_notify :
    Env → (List RingDataEntry → List RingDataResult) → Machine → Option Machine
process_notify env fill m =
    let (nent, entries) = copy_destination_ring_data m.ext in
    let ret = env.hypercall m.trace in
    let m' = log notified m in if is_ok ret then process_entries env (fill entries) m' else some m'

-- A round of V4vProcessContextWrites after V4vDoWrite: the IRPs to put back
abbrev pub keep_back : List Irp → NtStatus → Irp → List Irp
keep_back returns status irp =
    if is_retry status || is_pending status then returns ++ (irp ∷ []) else returns

-- The loop of V4vProcessContextWrites, and its last line
unfoldable pub context_loop : Env → ℕ → ℕ → List Irp → Machine → Option Machine
context_loop env file zero returns m = none
context_loop env file (suc fuel) returns m = elim (remove_next_irp m.ext (writes_of_file file)) [
  | none ↦ some (requeue_irps env returns m)
  | some (irp, ext) ↦ elim (do_write env (m.contexts file) irp (record m { ext = ext })) [
    | none ↦ none
    | some (status, irp', m') ↦ context_loop env file fuel (keep_back returns status irp') m'
  ]
]

-- V4vProcessContextWrites: each round takes an IRP out of the queue.
unfoldable pub process_context_writes : Env → ℕ → Machine → Option Machine
process_context_writes env file m =
    context_loop env file (suc (length m.ext.pending_irp_queue)) [] m

-- What an internal write brings along in `DriverContext`: XENV4V_PEEK_RST with its magic number,
-- XENV4V_PEEK_ACK with its magic number, or anything else.
pub data Internal : Type 0 where
  reset acknowledge neither : Internal

-- The switch of V4vDispatchWrite: the status of an IRP that is completed at once, or the flags of
-- one that is queued and whether it goes to the head.
pub data Dispatch : Type 0 where
  refuse : NtStatus → Dispatch
  accept_irp : Flags → Bool → Dispatch

abbrev pub stream_write : Flags
stream_write = record no_flags { stream = true; write = true }

unfoldable pub stream_dispatch : Bool → Internal → Dispatch
stream_dispatch on_listener reset = accept_irp (record stream_write { rst = true }) true
stream_dispatch on_listener acknowledge = accept_irp (record stream_write { ack = true }) false
stream_dispatch on_listener neither =
    if on_listener then refuse status_invalid_device_request else accept_irp stream_write false

unfoldable pub dispatch_switch : ContextState → Internal → ℕ → Dispatch
dispatch_switch bound internal len =
    if ltb len 6
    then refuse status_buffer_too_small
    else accept_irp (record no_flags { dgram = true; write = true }) false
dispatch_switch connected internal len = stream_dispatch false internal
dispatch_switch accepted internal len = stream_dispatch false internal
dispatch_switch listening internal len = stream_dispatch true internal
dispatch_switch passive internal len = stream_dispatch true internal
dispatch_switch disconnected internal len = refuse status_virtual_circuit_closed
dispatch_switch _ internal len = refuse status_invalid_device_request

-- V4vDispatchWrite from the insertion on. The device is never seen as stopped: XENV4V_DEV_STOPPED
-- is 0, so that `(ds & XENV4V_DEV_STOPPED) == 0` holds.
unfoldable pub queue_write : Env → Irp → Bool → Machine → Option (NtStatus × Machine)
queue_write env irp front m =
    let (status, m') = insert env irp front m in
    if nt_success status
    then elim (process_context_writes env irp.file m') [
      | none ↦ none
      | some m'' ↦ some (status_pending, m'')
    ]
    else some (status, simple_complete irp status m')

-- V4vDispatchWrite. `mapped` tells whether MmGetSystemAddressForMdlSafe gives an address.
unfoldable pub dispatch_write : Env → Bool → Internal → Irp → Machine → Option (NtStatus × Machine)
dispatch_write env mapped internal irp m =
    elim (dispatch_switch (m.contexts irp.file).state internal irp.write_length) [
      | refuse status ↦ some (status, simple_complete irp status m)
      | accept_irp flags front ↦
          let irp' = record irp { flags = flags } in
          if ltb 0 irp.write_length && not mapped
          then some (status_no_memory, simple_complete irp' status_no_memory m)
          else queue_write env irp' front m
    ]
