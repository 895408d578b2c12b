-- ===== src/Driver/Fops.antt =====
-- linux/v4v.c, v4v_sendto and v4v_poll: a write is given to the sender that the socket's type and
-- state ask for, and a socket says what it is ready for.
pub mod Readable
use legacy_v4v.Prelude.{
  ℕ, Bool, true, false, not, ◌&&◌, ◌||◌, Option, none, some, List, [], ◌∷◌, ◌==◌, if◌then◌else◌,
}
use legacy_v4v.Abi.{Addr, proto_dgram}
use legacy_v4v.Errno.{Errno, efault, enotconn, eisconn, einval, epipe, Ret, ok, err}
use legacy_v4v.Driver.{
  Ring, Private, SocketState, idle, bound, listening, accepted, connecting, connected, disconnected,
  PType, ptype_dgram, ptype_stream, Env, M, pure, ◌>>=◌, load_private, load_ring, or_fault,
}
use legacy_v4v.Driver.Stream.{is_empty}
use legacy_v4v.Driver.Send.{sendto_from_sponsor, send_stream}

-- The result, and whether the caller gets a SIGPIPE.
abbrev pub Sending : Type 0
Sending = Ret × Bool

abbrev pub quiet : Ret → M Sending
quiet ret = pure (ret, false)

-- The end of v4v_sendto: `if ((rc == -EPIPE) && !(flags & MSG_NOSIGNAL))`
abbrev pub with_signal : Bool → Ret → Sending
with_signal nosignal (err epipe) = (err epipe, not nosignal)
with_signal nosignal ret = (ret, false)

abbrev pub sendto_dgram : Env → ℕ → Private → List ℕ → Bool → Bool → Option Addr → M Sending
sendto_dgram env a p buf nosignal nonblock addr = elim p.state [
  | bound ↦ elim addr [
    | none ↦ quiet (err enotconn)
    | some to ↦ sendto_from_sponsor env a buf nonblock to proto_dgram >>= λ rc.
        pure (with_signal nosignal rc)
  ]
  | connected ↦ elim addr [
    | none ↦ sendto_from_sponsor env a buf nonblock p.peer proto_dgram >>= λ rc.
        pure (with_signal nosignal rc)
    | some to ↦ quiet (err eisconn)
  ]
  | _ ↦ quiet (err einval)
]

abbrev pub sendto_stream : Env → ℕ → Private → List ℕ → Bool → Bool → Option Addr → M Sending
sendto_stream env a p buf nosignal nonblock (some to) = quiet (err eisconn)
sendto_stream env a p buf nosignal nonblock none = elim p.state [
  | connecting ↦ quiet (err enotconn)
  | bound ↦ quiet (err enotconn)
  | connected ↦ send_stream env a buf nonblock >>= λ rc. pure (with_signal nosignal rc)
  | accepted ↦ send_stream env a buf nonblock >>= λ rc. pure (with_signal nosignal rc)
  | disconnected ↦ pure (with_signal nosignal (err epipe))
  | _ ↦ quiet (err einval)
]

-- v4v_sendto. `readable` is access_ok on the buffer and the address, `dontwait` and `nosignal` are
-- flags.
unfoldable pub sendto : Env → ℕ → List ℕ → Bool → Bool → Bool → Option Addr → Bool → M Sending
sendto env a buf readable dontwait nosignal addr nonblock =
    if readable
    then (load_private a >>= λ p. elim p.ptype [
      | ptype_dgram ↦ sendto_dgram env a p buf nosignal (nonblock || dontwait) addr
      | ptype_stream ↦ sendto_stream env a p buf nosignal (nonblock || dontwait) addr
    ])
    else quiet (err efault)

-- `mask`: POLLIN | POLLRDNORM, and POLLOUT | POLLWRNORM.
pub record Ready : Type 0 where
  pub readable : Bool
  pub writable : Bool

abbrev pub ring_has_data : Private → M Bool
ring_has_data p = do
  address ← or_fault p.r
  r ← load_ring address
  pure (not (r.ring.tx_ptr == r.ring.rx_ptr))

abbrev pub poll_dgram : Private → M Ready
poll_dgram p = elim p.state [
  | connected ↦ ring_has_data p >>= λ b. pure (record { readable = b; writable = true })
  | bound ↦ ring_has_data p >>= λ b. pure (record { readable = b; writable = true })
  | _ ↦ pure (record { readable = false; writable = false })
]

abbrev pub poll_stream : Private → Ready
poll_stream p = elim p.state [
  | listening ↦ record { readable = not (is_empty p.pending_recv_list); writable = false }
  | accepted ↦ record {
    readable = not (is_empty p.pending_recv_list);
    writable = p.send_blocked == 0;
  }
  | connected ↦ record {
    readable = not (is_empty p.pending_recv_list);
    writable = p.send_blocked == 0;
  }
  | disconnected ↦ record { readable = true; writable = true }
  | _ ↦ record { readable = false; writable = false }
]

-- v4v_poll, after the sleep that poll_wait prepares
unfoldable pub poll : ℕ → M Ready
poll a = load_private a >>= λ p. elim p.ptype [
  | ptype_dgram ↦ poll_dgram p
  | ptype_stream ↦ pure (poll_stream p)
]
