-- ===== src/Driver/Tests.antt =====
-- A driver with one ring and one connected socket, on which the children apply the theorems.
mod Rings
mod Streams
use legacy_v4v.Prelude.{
  ◌^◌, ◌≤◌, ◌<◌, ◌≡◌, refl, true, false, none, some, [], ◌∷◌, ◌++◌, arith, replicate, length, ◌==◌,
  if◌then◌else◌,
}
use legacy_v4v.Abi.{
  Addr, RingId, MessageHeader, StreamHeader, header_bytes, stream_header_bytes, ring_magic,
  domid_none, proto_stream,
}
use legacy_v4v.Errno.{ok, err, einval}
use legacy_v4v.Ring.{V4vRing, bytes_to_read}
use legacy_v4v.Ring.Frames.{IsValid, Message, Holds}
use legacy_v4v.Ring.Receive.{popped}
use legacy_v4v.Driver.{
  Ring, rtype_connector, PendingRecv, Private, connecting, connected, disconnected, ptype_stream,
  PendingXmit, xmit_inline, Driver, Env, ◌>>=◌, update, shf_ack, shf_rst,
}
use legacy_v4v.Driver.Ports.{id_in_use, random_port, spare_port}
use legacy_v4v.Driver.Ports.Fresh.{IsUnused, random_port_range, spare_port-IsUnused}
use legacy_v4v.Driver.Socket.{opened, set_ring_size}
use legacy_v4v.Driver.Socket.Sizes.{set_ring_size_lem}
use legacy_v4v.Driver.Xmit.{
  private_entry, matches_private, matches_sponsor, xmit_queue_wakeup_private,
  xmit_queue_wakeup_sponsor,
}
use legacy_v4v.Driver.Xmit.Wakeups.{
  Requeued, xmit_queue_wakeup_private_lem, xmit_queue_wakeup_sponsor_lem,
}
use legacy_v4v.Driver.Live.{NoDangling}
use legacy_v4v.Driver.Notify.Served.{Notifies, notify_pending_lem}
use legacy_v4v.Driver.Machine.Transitions.{run_connector, run_connector-verdict}
use legacy_v4v.Driver.Stream.{recv_stream, copy_pending}
use legacy_v4v.Driver.Stream.Copy.{
  AreEntries, CopiesStream, pending_bytes, always, copy_pending_lem,
}
use legacy_v4v.Driver.Stream.Read.{recv_stream_lem}
use legacy_v4v.Driver.Send.{stream_connected}
use legacy_v4v.Driver.Interrupt.{copy_into_pending_recv}
use legacy_v4v.Driver.Interrupt.Queue.{queue_result, copy_into_pending_recv_lem}
use legacy_v4v.Driver.{kmalloc, wake_readq, wake_writeq}
use legacy_v4v.Driver.Machine.{connector_state_machine}
use legacy_v4v.Driver.Interrupt.{connector_interrupt}
use legacy_v4v.Driver.Interrupt.Connector.{connector_interrupt-queues, connector_interrupt-steps}
use legacy_v4v.Driver.Socket.{get_ring, put_ring, new_ring}
use legacy_v4v.Driver.Socket.Counts.{get_ring-put_ring}
use legacy_v4v.Driver.Socket.Unique.{UniqueIds}
use legacy_v4v.Errno.{eaddrinuse, Ret}
use legacy_v4v.Driver.Socket.{bind}
use legacy_v4v.Driver.Socket.Rebound.{bind-not_idle}
use legacy_v4v.Driver.{idle}
use legacy_v4v.Driver.Fops.{poll}
use legacy_v4v.Driver.Fops.Readable.{poll-recv_stream}
use legacy_v4v.Errno.{eagain}
use legacy_v4v.Driver.Listener.Rounds.{IsOwn}
use legacy_v4v.Driver.Listener.{drain, drain_fuel}
use legacy_v4v.Driver.Listener.Drained.{IsData, Emptied, drain_lem}
use legacy_v4v.Driver.Delivery.{copy_into_pending_recv-recv_stream}

abbrev peer : Addr
peer = record { port = 0x8000_0001; domain = 3 }

abbrev own_id : RingId
own_id = record { addr = record { port = 80; domain = 1 }; partner = domid_none }

abbrev data_header : StreamHeader
data_header = record { flags = 0; conid = 5 }

abbrev greeting : Message
greeting = record {
  source = peer;
  protocol = proto_stream;
  payload = stream_header_bytes data_header ++ (1 ∷ 2 ∷ 3 ∷ 4 ∷ []);
}

abbrev greeting_header : MessageHeader
greeting_header = record { len = 28; source = peer; pad = 0; protocol = proto_stream }

abbrev shared : V4vRing
shared = record {
  magic = ring_magic;
  id = own_id;
  len = 64;
  rx_ptr = 0;
  tx_ptr = 32;
  ring = header_bytes greeting_header ++ (greeting.payload ++ (replicate 4 0 ++ replicate 32 0x5a));
}

shared-IsValid : IsValid shared
shared-IsValid = omega arith

shared-Holds : Holds shared (greeting ∷ [])
unfolding bytes_to_read
shared-Holds = (
  [],
  record {
    header = header_bytes greeting_header;
    padding = replicate 4 0;
    is_header = record { size = refl; len = refl; source = refl; protocol = refl };
    padding_size = refl;
    layout = refl;
  },
  refl,
)

-- Two bytes are still to be read of the socket's only entry.
abbrev waiting : PendingRecv
waiting = record {
  from = peer;
  data_len = 3;
  data_ptr = 1;
  sh = data_header;
  bytes = 7 ∷ 8 ∷ 9 ∷ [];
}

abbrev socket : Private
socket = record (opened ptype_stream) {
  state = connected;
  r = some 100;
  peer = peer;
  conid = 5;
  pending_recv_list = waiting ∷ [];
  pending_recv_count = 1;
}

abbrev dialling : Private
dialling = record socket { state = connecting }

abbrev ring : Ring
ring = record {
  refcnt = 1;
  privates = [];
  sponsor = some 1;
  type = rtype_connector;
  ring = shared;
  npage = 1;
}

abbrev wakeup : PendingXmit
wakeup = private_entry own_id 5 peer 40

abbrev letter : PendingXmit
letter = record wakeup { type = xmit_inline; bytes = 1 ∷ [] }

abbrev driver : Driver
driver = record {
  ring_list = (100, ring) ∷ [];
  privates = λ a. if a == 1 then some socket else none;
  pending_xmit_list = wakeup ∷ letter ∷ [];
  pending_xmit_count = 2;
  next_address = 101;
  trace = [];
}

-- Memory is there, hypercalls give 0, and every ring exists and has room.
abbrev env : Env
env = record {
  hypercall = λ t. ok 0;
  ring_flags = λ t i. 10;
  allocated = λ t. true;
  random = λ t. 5;
  others = λ d. d;
  patience = λ d. 0;
}

driver-NoDangling : NoDangling driver
driver-NoDangling = (tt, (socket, refl), tt)

socket-AreEntries : AreEntries socket.pending_recv_list
socket-AreEntries = ((refl, omega arith), tt)

socket_connected : stream_connected socket.state ≡ true
unfolding stream_connected
socket_connected = refl

-- The same ring with a RST for the connection.
abbrev goodbye : Message
goodbye = record greeting { payload = stream_header_bytes (record data_header { flags = shf_rst }) }

abbrev ending : V4vRing
ending = record shared {
  ring =
      header_bytes (record greeting_header { len = 24 })
      ++ (goodbye.payload ++ (replicate 8 0 ++ replicate 32 0x5a));
}

abbrev last_ring : Ring
last_ring = record ring { ring = ending }

abbrev last_driver : Driver
last_driver = record driver { ring_list = (100, last_ring) ∷ [] }

ending-IsValid : IsValid ending
ending-IsValid = omega arith

ending-Holds : Holds ending (goodbye ∷ [])
unfolding bytes_to_read
ending-Holds = (
  [],
  record {
    header = header_bytes (record greeting_header { len = 24 });
    padding = replicate 8 0;
    is_header = record { size = refl; len = refl; source = refl; protocol = refl };
    padding_size = refl;
    layout = refl;
  },
  refl,
)

greeting-IsData : IsData 5 greeting
greeting-IsData = record {
  is_stream = refl;
  long = omega arith;
  own = refl;
  no_syn = refl;
  plain = refl;
}

-- A second socket, which asks for a port that the first one's ring has.
abbrev two_sockets : Driver
two_sockets = record driver {
  privates = λ a. if a == 2 then some (opened ptype_stream) else driver.privates a;
}

-- The socket with nothing to read.
abbrev idle_driver : Driver
idle_driver = record driver {
  privates = λ a.
      if a == 1
      then some (record socket { pending_recv_list = []; pending_recv_count = 0 })
      else none;
}

poll-idle : poll 1 idle_driver ≡ some (record { readable = false; writable = true }, idle_driver)
unfolding poll
poll-idle = refl

-- A socket that is connecting, and a RST for it
abbrev dialling_driver : Driver
dialling_driver = record last_driver { privates = λ a. if a == 1 then some dialling else none }

goodbye-IsOwn : IsOwn 5 goodbye
goodbye-IsOwn = record {
  is_stream = refl;
  long = omega arith;
  own = refl;
  no_syn = refl;
  bare = λ e. refl;
}
