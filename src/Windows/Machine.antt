-- ===== src/Windows/Machine.antt =====
-- windows/xenv4v: the state of the driver as the write routines use it, and the steps that they
-- share: rw.c from V4vFlushAccepterQueueData to V4vRequeueIrps, V4vCancelAllFileIrps of create.c,
-- V4vStopConnectionTimer of xenv4v.c and V4vSimpleCompleteIrp. A file object is a number; what the
-- driver does to the outside is recorded in `trace`, newest first.
use legacy_v4v.Prelude.{
  ℕ, zero, suc, ◌-◌, Bool, true, false, Option, none, some, List, [], ◌∷◌, length, ◌==◌,
  if◌then◌else◌,
}
use legacy_v4v.Abi.{Addr}
use legacy_v4v.Errno.{Ret, ok, err, eagain, einval, enomem, emsgsize, enotconn, econnrefused, other}
use legacy_v4v.Windows.Csq.{
  Flags, Irp, Qpeek, Extension, NtStatus, status_success, status_pending, status_retry,
  status_cancelled, status_no_memory, status_virtual_circuit_closed, status_unsuccessful,
  status_invalid_parameter, status_buffer_overflow, status_not_implemented, insert_irp_ex,
  remove_next_irp,
}

-- XENV4V_STATE_*
pub data ContextState : Type 0 where
  uninitialized idle bound listening connecting waiting accepting connected : ContextState
  accepted disconnected passive closed : ContextState

-- XENV4V_TYPE_*
pub data ContextType : Type 0 where
  unspecified datagram listener connector accepter : ContextType

-- XENV4V_CONTEXT: `addr` is `ringObject->ring->id.addr`, `data_list` the chunks of `dataList`.
pub record Context : Type 0 where
  pub state : ContextState
  pub type : ContextType
  pub addr : Addr
  pub sdst : Addr
  pub conn_id : ℕ
  pub data_list : List (List ℕ)

pub data Event : Type 0 where
  -- HYPERVISOR_v4v_op(V4VOP_send or V4VOP_sendv): source, destination, protocol, the `conid` of a
  -- header in front of the message, the IRP that holds the message, and its length
  sent : Addr → Addr → ℕ → Option ℕ → ℕ → ℕ → Event
  -- IoCompleteRequest: the IRP, its status and its information
  completed : ℕ → NtStatus → ℕ → Event
  -- IoCsqInsertIrpEx of the IRP
  inserted : ℕ → Event
  -- KeSetEvent(kevReceive) of the file's context
  signalled : ℕ → Event
  -- KeClearEvent(kevReceive) of the file's context
  cleared : ℕ → Event
  -- a read IRP's buffer filled, with the source and the bytes
  delivered : ℕ → Addr → List ℕ → Event
  -- `peerAddr` of an accept IRP's values stored
  peer_stored : ℕ → Addr → Event
  -- IoQueueWorkItem, for an ACK of the file's context with that connection
  ack_queued : ℕ → ℕ → Event
  -- KeCancelTimer
  timer_cancelled : Event
  -- HYPERVISOR_v4v_op(V4VOP_notify)
  notified : Event

-- `contexts` gives the `FsContext` of a file object.
pub record Machine : Type 0 where
  pub ext : Extension
  pub contexts : ℕ → Context
  pub timer_counter : ℕ
  pub trace : List Event

-- What the hypervisor and the lookaside list give, after what has happened: the result of a
-- hypercall, and whether there is a first and a second block for an insertion.
pub record Env : Type 0 where
  pub hypercall : List Event → Ret
  pub block_1 : List Event → Bool
  pub block_2 : List Event → Bool

-- V4vFilterErrno: ENOSPC is 28 and ENOSYS is 38.
unfoldable pub filter_errno : Ret → NtStatus
filter_errno (ok n) = status_success
filter_errno (err eagain) = status_retry
filter_errno (err einval) = status_invalid_parameter
filter_errno (err enomem) = status_no_memory
filter_errno (err emsgsize) = status_buffer_overflow
filter_errno (err enotconn) = status_virtual_circuit_closed
filter_errno (err econnrefused) = status_virtual_circuit_closed
filter_errno (err (other n)) =
    if n == 28
    then status_buffer_overflow
    else (if n == 38 then status_not_implemented else status_unsuccessful)
filter_errno (err _) = status_unsuccessful

abbrev pub set_context : (ℕ → Context) → ℕ → (Context → Context) → ℕ → Context
set_context contexts file change f = let c = contexts f in if f == file then change c else c

abbrev pub log : Event → Machine → Machine
log e m = record m { trace = e ∷ m.trace }

-- V4vSimpleCompleteIrp
unfoldable pub simple_complete : Irp → NtStatus → Machine → Machine
simple_complete irp status m = log (completed irp.id status 0) m

abbrev pub no_flags : Flags
no_flags = record {
  dgram = false;
  stream = false;
  accept_op = false;
  syn = false;
  ack = false;
  rst = false;
  read = false;
  write = false;
  ioctl = false;
}

-- XENV4V_PEEK_ANY_TYPE and XENV4V_PEEK_WRITE, for a file or for a destination
abbrev pub writes_of : Option ℕ → Addr → Qpeek
writes_of pfo dst = record {
  pfo = pfo;
  types = record no_flags { dgram = true; stream = true };
  ops = record no_flags { write = true };
  dst = dst;
}

-- A search by file does not look at `dst`, which the code leaves unset.
abbrev pub writes_of_file : ℕ → Qpeek
writes_of_file file = writes_of (some file) (record { port = 0; domain = 0 })

-- The loop of V4vCancelAllFileIrps
unfoldable pub cancel_loop : ℕ → ℕ → Machine → Option Machine
cancel_loop zero file m = none
cancel_loop (suc fuel) file m = elim (remove_next_irp m.ext (writes_of_file file)) [
  | none ↦ some m
  | some (irp, ext) ↦
      cancel_loop fuel file (simple_complete irp status_cancelled (record m { ext = ext }))
]

-- V4vCancelAllFileIrps: each round takes an IRP out of the queue.
unfoldable pub cancel_all_file_irps : ℕ → Machine → Option Machine
cancel_all_file_irps file m = cancel_loop (suc (length m.ext.pending_irp_queue)) file m

-- V4vStopConnectionTimer with `immediate` FALSE
unfoldable pub stop_connection_timer : Machine → Machine
stop_connection_timer m =
    if m.timer_counter == 0
    then m
    else (let m' = record m { timer_counter = m.timer_counter - 1 } in
        if m.timer_counter == 1 then log timer_cancelled m' else m')

-- V4vFlushAccepterQueueData
abbrev pub flush_accepter_queue_data : ℕ → Machine → Machine
flush_accepter_queue_data file m = record m {
  contexts = set_context m.contexts file (λ c. record c { data_list = [] });
}

-- The tests of V4vDisconnectStreamAndSignal, on the state of the context
abbrev pub leave_state : ContextState → ℕ → Machine → Machine
leave_state connecting file m = stop_connection_timer m
leave_state accepted file m = flush_accepter_queue_data file m
leave_state _ file m = m

-- V4vDisconnectStreamAndSignal of the file's context
unfoldable pub disconnect_stream_and_signal : ℕ → Machine → Option Machine
disconnect_stream_and_signal file m =
    let m1 = leave_state (m.contexts file).state file m in
    let m2 = record m1 {
      contexts = set_context m1.contexts file (λ c. record c { state = disconnected });
    } in
    elim (cancel_all_file_irps file m2) [ none ↦ none | some m3 ↦ some (log (signalled file) m3) ]

abbrev pub nt_success : NtStatus → Bool
nt_success status_success = true
nt_success status_pending = true
nt_success _ = false

-- IoCsqInsertIrpEx
abbrev pub insert : Env → Irp → Bool → Machine → NtStatus × Machine
insert env irp front m =
    let (status, ext) = insert_irp_ex m.ext irp front (env.block_1 m.trace) (env.block_2 m.trace) in
    (status, log (inserted irp.id) (record m { ext = ext }))

-- One round of V4vRequeueIrps
abbrev pub requeue : Env → Irp → Machine → Machine
requeue env irp m =
    let (status, m') = insert env irp false m in
    if nt_success status then m' else simple_complete irp status m'

-- V4vRequeueIrps
unfoldable pub requeue_irps : Env → List Irp → Machine → Machine
requeue_irps env [] m = m
requeue_irps env (irp ∷ irps) m = requeue_irps env irps (requeue env irp m)
