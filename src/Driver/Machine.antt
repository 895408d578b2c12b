-- ===== src/Driver/Machine.antt =====
-- linux/v4v.c, "state machines": what an ACK or a RST from the peer does to a stream socket.
pub mod Transitions
pub mod Keeps
use legacy_v4v.Prelude.{
  ℕ, Bool, true, false, Option, none, some, List, [], ◌∷◌, ◌&&◌, if◌then◌else◌,
}
use legacy_v4v.Abi.{StreamHeader}
use legacy_v4v.Errno.{econnrefused}
use legacy_v4v.Driver.{
  Private, SocketState, idle, bound, listening, accepted, connecting, connected, disconnected,
  has_flag, shf_ack, shf_rst,
}

-- What a step does: the socket after it, whether it is answered by a RST (the result), and whether
-- its readers and its writers are woken.
pub record Step : Type 0 where
  pub after : Private
  pub reset : Bool
  pub wake_readers : Bool
  pub wake_writers : Bool

abbrev pub stay : Private → Step
stay p = record { after = p; reset = false; wake_readers = false; wake_writers = false }

abbrev pub close : Private → Bool → Step
close p reset = record {
  after = record p { state = disconnected };
  reset = reset;
  wake_readers = true;
  wake_writers = true;
}

-- The second test of connector_state_machine.
abbrev pub connector_rst : SocketState → Private → Step
connector_rst connecting p = close (record p { pending_error = some econnrefused }) false
connector_rst connected p = close p false
connector_rst _ p = stay p

abbrev pub try_rst : ℕ → Private → Step
try_rst flags p = if has_flag flags shf_rst then connector_rst p.state p else stay p

-- The first test, which leaves the other states to the second.
abbrev pub connector_ack : SocketState → ℕ → Private → Step
connector_ack connecting flags p = record {
  after = record p { state = connected; pending_error = none };
  reset = false;
  wake_readers = false;
  wake_writers = true;
}
connector_ack connected flags p = close p true
connector_ack disconnected flags p = close p true
connector_ack _ flags p = try_rst flags p

unfoldable pub connector_state_machine : Private → StreamHeader → Step
connector_state_machine p sh =
    if has_flag sh.flags shf_ack then connector_ack p.state sh.flags p else try_rst sh.flags p

abbrev pub is_accepted : SocketState → Bool
is_accepted accepted = true
is_accepted _ = false

unfoldable pub acceptor_state_machine : Private → StreamHeader → Step
acceptor_state_machine p sh =
    if has_flag sh.flags shf_rst && is_accepted p.state then close p false else stay p
