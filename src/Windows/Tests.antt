-- ===== src/Windows/Tests.antt =====
-- A ring whose message goes round its end, two writes to one peer and a device with them, and the
-- theorems on them.
mod Rings
use legacy_v4v.Prelude.{
  ℕ, ◌+◌, ◌≤◌, ◌≡◌, refl, true, false, none, List, [], ◌∷◌, ◌++◌, arith, length, drop, replicate,
}
use legacy_v4v.Abi.{
  Addr, MessageHeader, header_bytes, ring_magic, domid_none, proto_stream, header_size, read_header,
}
use legacy_v4v.Errno.{ok, err, eagain}
use legacy_v4v.Ring.{V4vRing, bytes_to_read, copy_out}
use legacy_v4v.Ring.Frames.{IsValid, Message, Holds}
use legacy_v4v.Windows.Offset.{cut_message, copy_out_offset, copy_out_offset-copy_out}
use legacy_v4v.Windows.Csq.{
  Irp, Extension, insert_irp_ex, remove_next_irp, copy_destination_ring_data, link_destination,
  get_destination,
}
use legacy_v4v.Windows.Csq.Pending.{pending, IsLinked}
use legacy_v4v.Windows.Csq.Insert.{insert_irp_ex-IsLinked}
use legacy_v4v.Windows.Csq.Remove.{Takes, remove_next_irp-Takes}
use legacy_v4v.Windows.Csq.RingData.{asked, first_length, copy_destination_ring_data_lem}
use legacy_v4v.Windows.Machine.{
  connected, connector, Machine, Env, no_flags, writes_of_file, cancel_all_file_irps,
}
use legacy_v4v.Windows.Writes.{
  RingDataResult, process_destination_writes, process_notify, process_context_writes, neither,
  stream_write, dispatch_write,
}
use legacy_v4v.Windows.Writes.Steps.{Conserves, Gives}
use legacy_v4v.Windows.Writes.Cancelled.{Cancelled, cancel_all_file_irps-Cancelled}
use legacy_v4v.Windows.Writes.Order.{Typed, sent_to_back, process_destination_writes-sent_to_back}
use legacy_v4v.Windows.Writes.Conserved.{process_context_writes-Conserves, dispatch_write-Conserves}
use legacy_v4v.Windows.Writes.Destination.{process_notify-Conserves}
use legacy_v4v.Windows.Reads.{Reader, process_datagram_reads}
use legacy_v4v.Windows.Reads.Datagrams.{Served, process_datagram_reads-Served}
use legacy_v4v.Windows.Syn.{listen_queue}
use legacy_v4v.Windows.Syn.Refines.{
  ListenerOp, arrive, pops, run_listener, run_backlog, run_listener-eq-run_backlog,
}
use legacy_v4v.Windows.Syn.Drain.{arrivals, takes, all_answered, all_accepted, run_listener-drains}
use legacy_v4v.Windows.Syn.{push_syn}
use legacy_v4v.Windows.Syn.Backlog.{Represents, push_syn-Pushed, listen_queue-Represents}
use legacy_v4v.Windows.Accepts.{AcceptParts, Accepting, do_accepts}
use legacy_v4v.Windows.Accepts.Pairs.{Paired, do_accepts-Paired}

abbrev peer : Addr
peer = record { port = 80; domain = 3 }

abbrev chunk_header : MessageHeader
chunk_header = record { len = 36; source = peer; pad = 0; protocol = proto_stream }

-- 64 bytes; the payload of 20 bytes, with its stream header, begins at 48 and ends at 4.
abbrev wrapped : V4vRing
wrapped = record {
  magic = ring_magic;
  id = record { addr = record { port = 7; domain = 1 }; partner = domid_none };
  len = 64;
  rx_ptr = 32;
  tx_ptr = 16;
  ring = replicate 32 0x5a ++ (header_bytes chunk_header ++ replicate 16 0x11);
}

wrapped-IsValid : IsValid wrapped
wrapped-IsValid = omega arith

header_counted : header_size ≤ (read_header (drop 32 wrapped.ring)).len
header_counted = omega arith

copy_out_offset-copy_out_example :
    copy_out_offset wrapped 28 true 8 ≡ cut_message 8 (copy_out wrapped true 28 true)
copy_out_offset-copy_out_example =
    copy_out_offset-copy_out wrapped 28 8 true wrapped-IsValid header_counted

-- Write `id` of a stream, from file `file`
abbrev chunk : ℕ → ℕ → Irp
chunk id file = record {
  id = id;
  file = file;
  flags = stream_write;
  write_length = 100 + id;
  read_length = 0;
  reset_dst = peer;
  sdst = peer;
  message_dst = peer;
  stash = none;
}

abbrev idle_device : Extension
idle_device = record {
  pending_irp_queue = [];
  pending_irp_count = 0;
  dest_list = [];
  dest_count = 0;
}

idle_device-IsLinked : IsLinked idle_device
idle_device-IsLinked = record {
  counted = refl;
  bounded = omega arith;
  destinations = λ a. refl;
  distinct = tt;
  dest_counted = refl;
  stashed = tt;
  unique = tt;
}

abbrev one_write : Extension
one_write = (insert_irp_ex idle_device (chunk 1 5) false true true).1

one_write-IsLinked : IsLinked one_write
one_write-IsLinked =
    insert_irp_ex-IsLinked idle_device (chunk 1 5) false true true idle_device-IsLinked tt

abbrev two_writes : Extension
two_writes = (insert_irp_ex one_write (chunk 2 5) false true true).1

insert_irp_ex-IsLinked_example : IsLinked (insert_irp_ex one_write (chunk 2 5) false true true).1
unfolding insert_irp_ex link_destination get_destination
insert_irp_ex-IsLinked_example =
    insert_irp_ex-IsLinked one_write (chunk 2 5) false true true one_write-IsLinked (refl, tt)

two_writes-IsLinked : IsLinked two_writes
unfolding insert_irp_ex link_destination get_destination
two_writes-IsLinked =
    insert_irp_ex-IsLinked one_write (chunk 2 5) false true true one_write-IsLinked (refl, tt)

remove_next_irp-Takes_example :
    Takes two_writes (writes_of_file 5) (remove_next_irp two_writes (writes_of_file 5))
remove_next_irp-Takes_example =
    remove_next_irp-Takes two_writes (writes_of_file 5) two_writes-IsLinked

copy_destination_ring_data_lem_example :
    (length (copy_destination_ring_data two_writes).1 ≡ (copy_destination_ring_data two_writes).0)
    × ((a : Addr)
        → asked a (copy_destination_ring_data two_writes).1
          ≡ first_length (pending a two_writes.pending_irp_queue))
copy_destination_ring_data_lem_example =
    copy_destination_ring_data_lem two_writes two_writes-IsLinked

abbrev busy : Machine
busy = record {
  ext = two_writes;
  contexts = λ file. record {
    state = connected;
    type = connector;
    addr = record { port = 7; domain = 1 };
    sdst = peer;
    conn_id = 42;
    data_list = [];
  };
  timer_counter = 0;
  trace = [];
}

-- The peer's ring takes the first message and then is full.
abbrev filling : Env
filling = record {
  hypercall = λ t. elim t [ [] ↦ ok 109 | _ ↦ err eagain ];
  block_1 = λ t. true;
  block_2 = λ t. true;
}

cancel_all_file_irps-Cancelled_example : Gives (cancel_all_file_irps 5 busy) (Cancelled 5 busy)
cancel_all_file_irps-Cancelled_example = cancel_all_file_irps-Cancelled 5 busy two_writes-IsLinked

process_context_writes-Conserves_example :
    Gives (process_context_writes filling 5 busy) (λ m'. Conserves [] busy [] m')
process_context_writes-Conserves_example = process_context_writes-Conserves filling 5 busy

dispatch_write-Conserves_example :
    Gives
      (dispatch_write filling true neither (chunk 3 5) busy)
      (λ (s, m'). Conserves (chunk 3 5 ∷ []) busy [] m')
dispatch_write-Conserves_example = dispatch_write-Conserves filling true neither (chunk 3 5) busy

-- The hypervisor finds no room for the peer.
abbrev no_room : RingDataResult
no_room = record { ring = peer; exists = true; sufficient = false }

process_notify-Conserves_example :
    Gives (process_notify filling (λ entries. no_room ∷ []) busy) (λ m'. Conserves [] busy [] m')
process_notify-Conserves_example = process_notify-Conserves filling (λ entries. no_room ∷ []) busy

two_writes-Typed : Typed two_writes.pending_irp_queue
unfolding insert_irp_ex link_destination get_destination
two_writes-Typed = ((λ w. refl), ((λ w. refl), tt))

process_destination_writes-sent_to_back_example :
    Gives (process_destination_writes filling no_room busy) (λ m'.
      pending peer m'.ext.pending_irp_queue
      ≡ sent_to_back (pending peer two_writes.pending_irp_queue))
process_destination_writes-sent_to_back_example =
    process_destination_writes-sent_to_back filling no_room busy two_writes-IsLinked
      two_writes-Typed refl refl refl (λ t. refl) (λ t. refl)

abbrev datagram : Message
datagram = record {
  source = peer;
  protocol = proto_stream;
  payload = replicate 16 0x11 ++ replicate 4 0x5a;
}

wrapped-Holds : Holds wrapped (datagram ∷ [])
unfolding bytes_to_read
wrapped-Holds = (
  [],
  record {
    header = header_bytes chunk_header;
    padding = replicate 12 0x5a;
    is_header = record { size = refl; len = refl; source = refl; protocol = refl };
    padding_size = refl;
    layout = refl;
  },
  refl,
)

-- A read of 30 bytes from file 5
abbrev pending_read : Irp
pending_read = record (chunk 7 5) {
  flags = record no_flags { dgram = true; read = true };
  read_length = 30;
}

abbrev one_read : Extension
one_read = (insert_irp_ex idle_device pending_read false true true).1

one_read-IsLinked : IsLinked one_read
one_read-IsLinked =
    insert_irp_ex-IsLinked idle_device pending_read false true true idle_device-IsLinked tt

abbrev reading : Reader
reading = record { machine = record busy { ext = one_read }; ring = wrapped; notify = false }

process_datagram_reads-Served_example :
    Gives (process_datagram_reads 5 reading) (Served 5 (datagram ∷ []) reading)
process_datagram_reads-Served_example =
    process_datagram_reads-Served 5 reading (datagram ∷ []) one_read-IsLinked wrapped-IsValid
      wrapped-Holds

-- A queue for one SYN, a second SYN and two accepts
abbrev two_syns : List ListenerOp
two_syns = arrive peer 1 ∷ arrive peer 2 ∷ pops ∷ pops ∷ []

run_listener-eq-run_backlog_example :
    run_listener (listen_queue 1) two_syns ≡ run_backlog 1 [] two_syns
run_listener-eq-run_backlog_example = run_listener-eq-run_backlog 1 two_syns

abbrev pair_of_syns : List (Addr × ℕ)
pair_of_syns = (peer, 1) ∷ (peer, 2) ∷ []

run_listener-drains_example :
    run_listener (listen_queue 2) (arrivals pair_of_syns ++ takes pair_of_syns)
    ≡ all_answered pair_of_syns ++ all_accepted pair_of_syns
run_listener-drains_example = run_listener-drains 2 pair_of_syns (omega arith)

-- An accept of the listener 5, for the accepter 9
abbrev pending_accept : Irp
pending_accept = record (chunk 8 5) { flags = record no_flags { stream = true; accept_op = true } }

abbrev one_accept : Extension
one_accept = (insert_irp_ex idle_device pending_accept false true true).1

one_accept-IsLinked : IsLinked one_accept
one_accept-IsLinked =
    insert_irp_ex-IsLinked idle_device pending_accept false true true idle_device-IsLinked tt

abbrev parts : AcceptParts
parts = record { actx = λ irp. 9; size = λ irp. 24; memory = λ irp. true }

abbrev accepting : Accepting
accepting = record {
  machine = record busy { ext = one_accept };
  listener = (push_syn (listen_queue 1) peer 42).1;
}

one_syn-Represents : Represents (push_syn (listen_queue 1) peer 42).1 ((peer, 42) ∷ [])
unfolding listen_queue
one_syn-Represents = (push_syn-Pushed (listen_queue 1) [] peer 42 (listen_queue-Represents 1)).1

do_accepts-Paired_example :
    Gives (do_accepts 5 parts accepting) (Paired 5 parts ((peer, 42) ∷ []) accepting)
do_accepts-Paired_example =
    do_accepts-Paired 5 parts accepting ((peer, 42) ∷ []) one_accept-IsLinked one_syn-Represents
