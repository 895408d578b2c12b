-- ===== src/Windows/Reads.antt =====
-- windows/xenv4v/rw.c: V4vProcessDatagramReads, by which pending reads of a datagram file take the
-- messages of its ring, and V4vRecoverRing of ring.c. Linux and Windows share v4v_copy_out.
pub mod Datagrams
use legacy_v4v.Prelude.{
  ℕ, zero, suc, ◌+◌, ◌-◌, ◌≡◌, Bool, true, false, Option, none, some, List, [], ◌∷◌, length, ◌==◌,
  if◌then◌else◌,
}
use legacy_v4v.Abi.{sub32}
use legacy_v4v.Ring.{V4vRing, Received, copy_out}
use legacy_v4v.Windows.Csq.{
  Irp, Qpeek, Extension, NtStatus, status_success, status_internal_db_corruption, remove_next_irp,
}
use legacy_v4v.Windows.Machine.{
  completed, signalled, cleared, delivered, Machine, log, simple_complete, no_flags,
}

-- The machine and the ring of the file whose reads are processed; `notify` is `*pntfy`.
pub record Reader : Type 0 where
  pub machine : Machine
  pub ring : V4vRing
  pub notify : Bool

-- XENV4V_PEEK_DGRAM and XENV4V_PEEK_READ, for a file
abbrev pub datagram_reads_of : ℕ → Qpeek
datagram_reads_of file = record {
  pfo = some file;
  types = record no_flags { dgram = true };
  ops = record no_flags { read = true };
  dst = record { port = 0; domain = 0 };
}

-- V4vRecoverRing
unfoldable pub recover_context_ring : V4vRing → V4vRing
recover_context_ring r = record r { rx_ptr = r.tx_ptr }

-- A round after v4v_copy_out
unfoldable pub settle_read : Irp → Reader → Option Received × V4vRing → Reader
settle_read irp s (none, r) = record s {
  machine = simple_complete irp status_internal_db_corruption s.machine;
  ring = recover_context_ring r;
}
settle_read irp s (some got, r) = record {
  machine =
      log (completed irp.id status_success (got.ret + 6))
        (log (delivered irp.id got.from got.buf) s.machine);
  ring = r;
  notify = true;
}

-- What a round does with its IRP, whose buffer holds a V4V_DATAGRAM and the message.
unfoldable pub read_datagram : Irp → Reader → Reader
read_datagram irp s = settle_read irp s (copy_out s.ring true (sub32 irp.read_length 6) true)

-- The loop of V4vProcessDatagramReads
unfoldable pub datagram_loop : ℕ → ℕ → Reader → Option Reader
datagram_loop zero file s = none
datagram_loop (suc fuel) file s =
    let search = remove_next_irp s.machine.ext (datagram_reads_of file) in
    let next = λ (irp : Irp) (ext : Extension).
      datagram_loop fuel file
        (read_datagram irp (record s { machine = record s.machine { ext = ext } })) in
    if s.ring.rx_ptr == s.ring.tx_ptr
    then some (record s { machine = log (cleared file) s.machine })
    else elim search [
      | none ↦ some (record s { machine = log (signalled file) s.machine })
      | some (irp, ext) ↦ next irp ext
    ]

-- V4vProcessDatagramReads: each round takes an IRP out of the queue.
unfoldable pub process_datagram_reads : ℕ → Reader → Option Reader
process_datagram_reads file s = datagram_loop (suc (length s.machine.ext.pending_irp_queue)) file s
