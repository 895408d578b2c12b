-- ===== src/Windows/Reads/Datagrams.antt =====
-- windows/xenv4v/rw.c: pending reads and waiting messages are matched in their orders.
use legacy_v4v.Prelude.{
  ℕ, zero, suc, ◌+◌, ◌<◌, ◌≤◌, ◌≡◌, refl, sym, ap, subst, ◌∙◌, Bool, true, false, Option, none,
  some, List, [], ◌∷◌, length, take, drop, drop_all, ◌==◌, arith,
}
use legacy_v4v.Abi.{header_size, sub32}
use legacy_v4v.Ring.{V4vRing, bytes_to_read}
use legacy_v4v.Ring.Frames.{IsValid, Message, Holds, contents, length-Frames}
use legacy_v4v.Ring.CopyOut.{length-contents}
use legacy_v4v.Ring.Receive.{popped, copy_out-first}
use legacy_v4v.Windows.Csq.{Irp, Extension, status_success, remove_next_irp}
use legacy_v4v.Windows.Csq.Pending.{IsLinked}
use legacy_v4v.Windows.Csq.Matching.{matching, matching-Unmatched, matching-Removed}
use legacy_v4v.Windows.Csq.Remove.{Takes, remove_next_irp-Takes}
use legacy_v4v.Windows.Machine.{Event, completed, signalled, cleared, delivered, log}
use legacy_v4v.Windows.Reads.{
  Reader, datagram_reads_of, settle_read, read_datagram, datagram_loop, process_datagram_reads,
}
use legacy_v4v.Windows.Writes.Tally.{remove_next_irp-Without}
use legacy_v4v.Windows.Writes.Steps.{Gives}

-- The events of reads that take messages, the first the first, until one of the two runs out; then
-- the file's event is set if messages are left, and cleared if not.
abbrev pub served : ℕ → List Irp → List Message → List Event → List Event
served file reads [] t = cleared file ∷ t
served file [] (m ∷ ms) t = signalled file ∷ t
served file (x ∷ xs) (m ∷ ms) t = served file xs ms (
    completed x.id status_success (length m.payload + 6)
    ∷ delivered x.id m.source (take (sub32 x.read_length 6) m.payload)
    ∷ t)

-- A valid ring is empty just if its pointers meet.
abbrev pub is_empty : V4vRing → Bool
is_empty r = r.rx_ptr == r.tx_ptr

Holds-is_empty : (r : V4vRing) → IsValid r → Holds r [] → is_empty r ≡ true
unfolding bytes_to_read
Holds-is_empty r v h =
    let size : bytes_to_read r ≡ 0 = omega (arith, length-contents r v, ap length h) in
    ground (arith, v.rx_in, v.tx_in, v.small)

Holds-not_empty :
    (r : V4vRing) (m : Message) (ms : List Message)
    → IsValid r
    → Holds r (m ∷ ms)
    → is_empty r ≡ false
unfolding bytes_to_read
Holds-not_empty r m ms v h =
    let size : header_size ≤ bytes_to_read r =
      omega (arith, length-contents r v, length-Frames (m ∷ ms) (contents r) h) in
    ground (arith, v.rx_in, v.tx_in, v.small)

-- What the reads of a file have done: the queue is in step and has lost the reads that are served,
-- the ring is valid and has lost the messages that they took.
pub record Served (file : ℕ) (ms : List Message) (s s' : Reader) : Type 0 where
  pub trace :
      s'.machine.trace
      ≡ served file
          (matching (datagram_reads_of file) s.machine.ext.pending_irp_queue)
          ms
          s.machine.trace
  pub reads :
      matching (datagram_reads_of file) s'.machine.ext.pending_irp_queue
      ≡ drop (length ms) (matching (datagram_reads_of file) s.machine.ext.pending_irp_queue)
  pub valid : IsValid s'.ring
  pub holds :
      Holds s'.ring
        (drop (length (matching (datagram_reads_of file) s.machine.ext.pending_irp_queue)) ms)
  pub linked : IsLinked s'.machine.ext

-- A read with its message
abbrev taken_with : Irp → Reader → Message → Reader
taken_with irp s m = record {
  machine =
      log (completed irp.id status_success (length m.payload + 6))
        (log (delivered irp.id m.source (take (sub32 irp.read_length 6) m.payload)) s.machine);
  ring = popped s.ring m;
  notify = true;
}

read_datagram-first :
    (irp : Irp) (s : Reader) (m : Message) (ms : List Message)
    → IsValid s.ring
    → Holds s.ring (m ∷ ms)
    → read_datagram irp s ≡ taken_with irp s m
unfolding read_datagram settle_read
read_datagram-first irp s m ms v h =
    ap (settle_read irp s) (copy_out-first s.ring m ms true (sub32 irp.read_length 6) true v h).0

module _ (file : ℕ) where
  datagram_search :
      (fuel : ℕ) (s : Reader) (m : Message) (ms : List Message)
      → length s.machine.ext.pending_irp_queue < suc fuel
      → IsLinked s.machine.ext
      → IsValid s.ring
      → Holds s.ring (m ∷ ms)
      → ((s' : Reader) (ms' : List Message)
          → length s'.machine.ext.pending_irp_queue < fuel
          → IsLinked s'.machine.ext
          → IsValid s'.ring
          → Holds s'.ring ms'
          → Gives (datagram_loop fuel file s') (Served file ms' s'))
      → (o : Option (Irp × Extension)) → remove_next_irp s.machine.ext (datagram_reads_of file) ≡ o
      → Takes s.machine.ext (datagram_reads_of file) o
      → Gives
          (elim o as (λ o. Option Reader) [
            | none ↦ some (record s { machine = log (signalled file) s.machine })
            | some (irp, ext) ↦
                datagram_loop fuel file
                  (read_datagram irp (record s { machine = record s.machine { ext = ext } }))
          ])
          (Served file (m ∷ ms) s)
  datagram_search fuel s m ms h linked v holds next none e t =
      let nothing = matching-Unmatched (datagram_reads_of file) s.machine.ext.pending_irp_queue t in
      (
        record s { machine = log (signalled file) s.machine },
        refl,
        record {
          trace = ap (λ l. served file l (m ∷ ms) s.machine.trace) (sym nothing);
          reads = nothing ∙ ap (drop (suc (length ms))) (sym nothing);
          valid = v;
          holds = subst (λ l. Holds s.ring (drop (length l) (m ∷ ms))) (sym nothing) holds;
          linked = linked;
        },
      )
  datagram_search fuel s m ms h linked v holds next (some (irp, ext)) e r =
      let q = s.machine.ext.pending_irp_queue in
      let first : matching (datagram_reads_of file) q
          ≡ irp ∷ matching (datagram_reads_of file) ext.pending_irp_queue =
        matching-Removed (datagram_reads_of file) s.machine.ext irp ext r in
      let w = remove_next_irp-Without s.machine.ext (datagram_reads_of file) irp ext e in
      let s1 : Reader = record s { machine = record s.machine { ext = ext } } in
      let (result, valid, rest) =
        copy_out-first s.ring m ms true (sub32 irp.read_length 6) true v holds in
      let (s3, e3, k) =
        next (taken_with irp s1 m) ms (omega (arith, w.shorter)) r.linked valid rest in
      (
        s3,
        ap (datagram_loop fuel file) (read_datagram-first irp s1 m ms v holds) ∙ e3,
        record {
          trace = k.trace ∙ ap (λ l. served file l (m ∷ ms) s.machine.trace) (sym first);
          reads = k.reads ∙ ap (drop (suc (length ms))) (sym first);
          valid = k.valid;
          holds = subst (λ l. Holds s3.ring (drop (length l) (m ∷ ms))) (sym first) k.holds;
          linked = k.linked;
        },
      )

  datagram_loop-Served :
      (fuel : ℕ) (s : Reader) (ms : List Message)
      → length s.machine.ext.pending_irp_queue < fuel
      → IsLinked s.machine.ext
      → IsValid s.ring
      → Holds s.ring ms
      → Gives (datagram_loop fuel file s) (Served file ms s)
  unfolding datagram_loop
  datagram_loop-Served zero s ms h linked v holds = absurd (omega arith)
  datagram_loop-Served (suc fuel) s [] h linked v holds = (
    record s { machine = log (cleared file) s.machine },
    rw (Holds-is_empty s.ring v holds) refl,
    record {
      trace = cleared_first (matching (datagram_reads_of file) s.machine.ext.pending_irp_queue);
      reads = refl;
      valid = v;
      holds = subst (Holds s.ring) (sym (drop_all _ [] (omega arith))) holds;
      linked = linked;
    },
  )
    where
      cleared_first :
          (l : List Irp) → cleared file ∷ s.machine.trace ≡ served file l [] s.machine.trace
      cleared_first [] = refl
      cleared_first (x ∷ xs) = refl
  datagram_loop-Served (suc fuel) s (m ∷ ms) h linked v holds =
      rw (Holds-not_empty s.ring m ms v holds) (
        datagram_search fuel s m ms h linked v holds (datagram_loop-Served fuel)
          (remove_next_irp s.machine.ext (datagram_reads_of file)) refl
          (remove_next_irp-Takes s.machine.ext (datagram_reads_of file) linked))

-- V4vProcessDatagramReads returns, and on a valid ring with messages it serves the file's pending
-- reads and the messages in their orders: each read gets the source of its message and as much of it
-- as fits, and completes with the message's length, until reads or messages run out. Then the file's
-- event is cleared if the ring is empty, and else set; just the reads that are left are still queued,
-- and just the messages that are left are in the ring, which stays valid.
pub process_datagram_reads-Served :
    (file : ℕ) (s : Reader) (ms : List Message)
    → IsLinked s.machine.ext
    → IsValid s.ring
    → Holds s.ring ms
    → Gives (process_datagram_reads file s) (Served file ms s)
unfolding process_datagram_reads
process_datagram_reads-Served file s ms linked v holds =
    datagram_loop-Served file (suc (length s.machine.ext.pending_irp_queue)) s ms (omega arith)
      linked v holds
