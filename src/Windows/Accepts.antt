-- ===== src/Windows/Accepts.antt =====
-- windows/xenv4v/ioctl.c: V4vDoAccepts, by which a listener's SYNs meet the accept IRPs that wait for
-- them, with V4vSendAcknowledge of send.c.
pub mod Pairs
use legacy_v4v.Prelude.{
  ℕ, zero, suc, ◌%◌, ◌^◌, Bool, true, false, Option, none, some, List, [], ◌∷◌, length, ◌==◌,
  if◌then◌else◌,
}
use legacy_v4v.Abi.{Addr}
use legacy_v4v.Windows.Csq.{
  Irp, Qpeek, Extension, NtStatus, status_success, status_no_memory, remove_next_irp,
}
use legacy_v4v.Windows.Machine.{
  accepted, disconnected, Context, Event, completed, signalled, cleared, peer_stored, ack_queued,
  Machine, log, simple_complete, set_context, no_flags,
}
use legacy_v4v.Windows.Syn.{Listener, pop_syn}

pub record Accepting : Type 0 where
  pub machine : Machine
  pub listener : Listener

-- What an accept IRP carries in its private part, and the memory that V4vSendAcknowledge gets for it:
-- the file of the accepter, the size of its values, and whether both allocations succeed.
pub record AcceptParts : Type 0 where
  pub actx : Irp → ℕ
  pub size : Irp → ℕ
  pub memory : Irp → Bool

-- XENV4V_PEEK_STREAM and XENV4V_PEEK_ACCEPT, for a file
abbrev pub accepts_of : ℕ → Qpeek
accepts_of file = record {
  pfo = some file;
  types = record no_flags { stream = true };
  ops = record no_flags { accept_op = true };
  dst = record { port = 0; domain = 0 };
}

-- V4vSendAcknowledge
unfoldable pub send_acknowledge : Bool → ℕ → Machine → NtStatus × Machine
send_acknowledge memory actx m =
    if memory
    then (status_success, log (ack_queued actx ((m.contexts actx).conn_id % 2 ^ 32)) m)
    else (status_no_memory, m)

-- The accepter takes the SYN's peer and connection.
abbrev pub set_accepted : ℕ → Addr × ℕ → Machine → Machine
set_accepted actx (sdst, conn_id) m = record m {
  contexts =
      set_context m.contexts actx
        (λ c. record c { sdst = sdst; conn_id = conn_id; state = accepted });
}

-- The end of a round, by whether the ACK is sent
unfoldable pub complete_accept : AcceptParts → Irp → NtStatus × Machine → Machine
complete_accept parts irp (status_success, m) =
    log (completed irp.id status_success (parts.size irp)) m
complete_accept parts irp (status, m) =
    let m' = simple_complete irp status m in
    record m' {
      contexts = set_context m'.contexts (parts.actx irp) (λ c. record c { state = disconnected });
    }

-- A round, with the IRP and the SYN that it takes
unfoldable pub finish_accept : AcceptParts → Irp → Addr × ℕ → Machine → Machine
finish_accept parts irp syn m = complete_accept parts irp (
    send_acknowledge (parts.memory irp) (parts.actx irp)
      (log (peer_stored irp.id syn.0) (set_accepted (parts.actx irp) syn m)))

-- The loop of V4vDoAccepts. A NULL `synHead` would fault.
unfoldable pub accept_loop : ℕ → ℕ → AcceptParts → Accepting → Option Accepting
accept_loop zero file parts s = none
accept_loop (suc fuel) file parts s =
    let next = λ (irp : Irp) (ext : Extension) (syn : Addr × ℕ) (q : Listener).
      accept_loop fuel file parts (record {
        machine = finish_accept parts irp syn (record s.machine { ext = ext });
        listener = q;
      }) in
    if s.listener.syn_count == 0
    then some (record s { machine = log (cleared file) s.machine })
    else elim (remove_next_irp s.machine.ext (accepts_of file)) [
      | none ↦ some (record s { machine = log (signalled file) s.machine })
      | some (irp, ext) ↦ elim (pop_syn s.listener) [
        | none ↦ none
        | some (syn, q) ↦ next irp ext syn q
      ]
    ]

-- V4vDoAccepts: each round takes an IRP out of the queue.
unfoldable pub do_accepts : ℕ → AcceptParts → Accepting → Option Accepting
do_accepts file parts s = accept_loop (suc (length s.machine.ext.pending_irp_queue)) file parts s
