-- ===== src/Driver/Send.antt =====
-- linux/v4v.c, "methods": messages are sent, and a sender whose message does not fit waits for room.
use legacy_v4v.Prelude.{
  ℕ, zero, suc, ◌+◌, ◌-◌, ◌/◌, Bool, true, false, ◌||◌, not, Option, none, some, List, ◌++◌, ltb,
  ◌==◌, if◌then◌else◌, length, take, drop,
}
use legacy_v4v.Abi.{
  Addr, RingId, header_size, stream_header_size, stream_header_bytes, proto_stream,
}
use legacy_v4v.Errno.{
  Errno, einval, enotconn, epipe, emsgsize, erestartsys, Ret, ok, err, is_eagain,
}
use legacy_v4v.Driver.{
  SocketState, bound, accepted, connecting, connected, disconnected, Env, Event, send, sendv, M,
  pure, ◌>>=◌, ◌>>◌, or_fault, load_ring, load_private, store_private, hypercall,
}
use legacy_v4v.Driver.Socket.{default_ring_size}
use legacy_v4v.Driver.Xmit.{xmit_queue_wakeup_private, xmit_queue_wakeup_sponsor}

abbrev pub is_connected : SocketState → Bool
is_connected connected = true
is_connected _ = false

unfoldable pub stream_connected : SocketState → Bool
stream_connected accepted = true
stream_connected connected = true
stream_connected _ = false

-- Who sends: the socket that owns the ring, or one that v4v_accept made.
pub data Sender : Type 0 where
  from_sponsor from_private : Sender

-- `&p->r->ring->id`
abbrev pub own_id : ℕ → M RingId
own_id a = do p ← load_private a; address ← or_fault p.r; r ← load_ring address; pure r.ring.id

abbrev pub queue_own_wakeup : Env → Sender → ℕ → RingId → Addr → ℕ → Bool → M (Unit {0})
queue_own_wakeup env from_sponsor a id dest len delete =
    xmit_queue_wakeup_sponsor env id dest len delete
queue_own_wakeup env from_private a id dest len delete =
    load_private a >>= λ p. xmit_queue_wakeup_private env id p.conid dest len delete

-- v4v_try_send_sponsor, v4v_try_sendv_sponsor and v4v_try_sendv_privates, which differ in the
-- hypercall that `call` makes of the own address and in whose wakeup they queue.
unfoldable pub try_send : Env → Sender → ℕ → Addr → (Addr → Event) → ℕ → M Ret
try_send env who a dest call len = do
  id ← own_id a
  ret ← hypercall env (call id.addr)
  queue_own_wakeup env who a id dest len (not (is_eagain ret))
  p ← load_private a
  store_private a (record p { send_blocked = if is_eagain ret then p.send_blocked + 1 else 0 })
  pure ret

-- `wait_event_interruptible (p->writeq, (ret = attempt) != -EAGAIN || stop)`: the last `ret`, or
-- ERESTARTSYS if a signal comes first.
unfoldable pub wait_send : Env → ℕ → M Ret → M Bool → M Ret
wait_send env zero attempt stop = do
  ret ← attempt
  ended ← stop
  pure (if not (is_eagain ret) || ended then ret else err erestartsys)
wait_send env (suc rounds) attempt stop =
    let rest = wait_send env rounds attempt stop in
    attempt >>= λ ret.
    stop >>= λ ended. if not (is_eagain ret) || ended then pure ret else (λ d. rest (env.others d))

-- The first switch of the three senders: the error that a state gives.
abbrev pub sponsor_error : SocketState → Option Errno
sponsor_error connecting = some enotconn
sponsor_error disconnected = some epipe
sponsor_error bound = none
sponsor_error connected = none
sponsor_error _ = some einval

abbrev pub private_error : SocketState → Option Errno
private_error disconnected = some epipe
private_error accepted = none
private_error _ = some einval

-- The test of the length comes second, and its error replaces the state's.
abbrev pub send_error : Option Errno → Bool → Option Errno
send_error e too_long = if too_long then some emsgsize else e

-- What the three senders have in common. Without `nonblock` they wait for room.
unfoldable pub send_or_wait :
    Env → Sender → ℕ → Bool → Addr → (Addr → Event) → ℕ → Option Errno → M Bool → M Ret
send_or_wait env who a nonblock dest call len state_error stop = do
  p ← load_private a
  address ← or_fault p.r
  r ← load_ring address
  elim (send_error state_error (ltb (r.ring.len - header_size) len)) [
    | some e ↦ pure (err e)
    | none ↦
        if nonblock
        then hypercall env (call r.ring.id.addr)
        else (λ d. wait_send env (env.patience d) (try_send env who a dest call len) stop d)
  ]

-- v4v_sendto_from_sponsor
unfoldable pub sendto_from_sponsor : Env → ℕ → List ℕ → Bool → Addr → ℕ → M Ret
sendto_from_sponsor env a buf nonblock dest protocol = do
  p ← load_private a
  send_or_wait env from_sponsor a nonblock dest (λ own. send own dest buf protocol) (length buf)
      (sponsor_error p.state) (pure false)

abbrev pub no_stream : ℕ → M Bool
no_stream a = load_private a >>= λ p. pure (not (stream_connected p.state))

-- v4v_stream_sendvto_from_sponsor and v4v_stream_sendvto_from_private. `buf` is what the two iovs
-- hold, and `len` their lengths' sum.
unfoldable pub stream_sendvto : Env → Sender → ℕ → List ℕ → ℕ → Bool → Addr → M Ret
stream_sendvto env who a buf len nonblock dest = do
  p ← load_private a
  send_or_wait env who a nonblock dest (λ own. sendv own dest buf proto_stream) len
      (elim who [ from_sponsor ↦ sponsor_error p.state | from_private ↦ private_error p.state ])
      (no_stream a)

-- `DEFAULT_RING_SIZE >> 2`
abbrev pub write_lump : ℕ
write_lump = default_ring_size / 4

-- `count ? count : ret`
abbrev pub count_or : ℕ → Ret → Ret
count_or zero ret = ret
count_or (suc n) ret = ok (suc n)

abbrev pub lump_of : List ℕ → List ℕ
lump_of buf = take write_lump buf

-- The loop of v4v_send_stream over the bytes left. Each round sends at least a byte, so a fuel of
-- their number is enough.
unfoldable pub send_lumps : Env → ℕ → ℕ → List ℕ → ℕ → Bool → M Ret
send_lumps env zero a buf count nonblock = pure (ok count)
send_lumps env (suc fuel) a buf count nonblock =
    let rest =
      send_lumps env fuel a (drop write_lump buf) (count + length (lump_of buf)) nonblock in
    if length buf == 0 then pure (ok count) else (do
      p ← load_private a
      ret ←
          stream_sendvto env (if is_connected p.state then from_sponsor else from_private) a
            (stream_header_bytes (record { flags = 0; conid = p.conid }) ++ lump_of buf)
            (length (lump_of buf) + stream_header_size) nonblock p.peer
      elim ret [
        | err e ↦ pure (count_or count (err e))
        | ok n ↦ if nonblock then pure (ok (count + length (lump_of buf))) else rest
      ])

-- v4v_send_stream
unfoldable pub send_stream : Env → ℕ → List ℕ → Bool → M Ret
send_stream env a buf nonblock = do
  p ← load_private a
  elim p.state [
    | disconnected ↦ pure (err epipe)
    | connecting ↦ pure (err enotconn)
    | connected ↦ send_lumps env (length buf) a buf 0 nonblock
    | accepted ↦ send_lumps env (length buf) a buf 0 nonblock
    | _ ↦ pure (err einval)
  ]
