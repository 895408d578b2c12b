-- ===== src/Driver/Connect.antt =====
-- linux/v4v.c, v4v_connect: a stream connection is opened.
use legacy_v4v.Prelude.{
  ℕ, zero, suc, Bool, true, false, ◌&&◌, not, Option, none, some, ◌==◌, if◌then◌else◌,
}
use legacy_v4v.Abi.{Addr, same_addr, stream_header_size, stream_header_bytes, proto_stream}
use legacy_v4v.Errno.{
  Errno, einval, econnrefused, einprogress, etimedout, erestartsys, Ret, ok, err, is_eagain,
  is_nonzero,
}
use legacy_v4v.Driver.{
  RType, rtype_dgram, rtype_connector, Private, SocketState, bound, connecting, connected,
  disconnected, ptype_dgram, ptype_stream, Env, wake_writeq, M, pure, ◌>>=◌, ◌>>◌, or_fault,
  load_ring, store_ring, load_private, store_private, emit, v4v_random32, shf_syn,
}
use legacy_v4v.Driver.Xmit.{xmit_queue_inline}
use legacy_v4v.Driver.Send.{is_connected}
use legacy_v4v.Driver.Stream.{is_disconnected}

-- `p->r->type = t`
abbrev pub set_ring_type : ℕ → RType → M (Unit {0})
set_ring_type a t = do
  p ← load_private a
  address ← or_fault p.r
  r ← load_ring address
  store_ring address (record r { type = t })

-- respite, the timer of v4v_connect
unfoldable pub respite : ℕ → M (Unit {0})
respite a = do
  p ← load_private a
  store_private a (record p { pending_error = some etimedout; state = disconnected })
  emit (wake_writeq a)

abbrev pub back_to_bound : ℕ → M (Unit {0})
back_to_bound a = do
  p ← load_private a
  store_private a (record p { state = bound })
  set_ring_type a rtype_dgram

abbrev pub is_connecting : SocketState → Bool
is_connecting connecting = true
is_connecting _ = false

-- `wait_event_interruptible (p->writeq, p->state != V4V_STATE_CONNECTING)`
unfoldable pub wait_connect : Env → ℕ → ℕ → M (Option Errno)
wait_connect env zero a =
    load_private a >>= λ p. pure (if is_connecting p.state then some erestartsys else none)
wait_connect env (suc rounds) a =
    let rest = wait_connect env rounds a in
    load_private a >>= λ p. if is_connecting p.state then (λ d. rest (env.others d)) else pure none

-- The last loop of v4v_connect. It goes round again only in a state that is neither CONNECTED nor
-- DISCONNECTED; `ret` is what the call returns if it ends at once.
unfoldable pub connect_loop : Env → ℕ → ℕ → Ret → M Ret
connect_loop env zero a ret = pure (err erestartsys)
connect_loop env (suc rounds) a ret =
    let rest = connect_loop env rounds a (ok 0) in
    load_private a >>= λ p.
    if is_connected p.state
    then pure ret
    else ((λ d. wait_connect env (env.patience d) a d) >>= λ signal. elim signal [
      | some e ↦ pure (err e)
      | none ↦ load_private a >>= λ p'.
          if is_disconnected p'.state then (back_to_bound a >> pure (err econnrefused)) else rest
    ])

abbrev pub await_connection : Env → ℕ → Bool → Ret → M Ret
await_connection env a nonblock ret =
    if nonblock
    then pure (err einprogress)
    else (λ d. connect_loop env (suc (env.patience d)) a ret d)

-- The SYN, and what its result makes of the attempt.
unfoldable pub send_syn : Env → ℕ → Addr → Bool → M Ret
send_syn env a peer nonblock = do
  set_ring_type a rtype_connector
  conid ← v4v_random32 env
  p ← load_private a
  store_private a (record p { state = connecting; conid = conid; peer = peer })
  address ← or_fault p.r
  r ← load_ring address
  ret ←
      xmit_queue_inline env r.ring.id peer
        (stream_header_bytes (record { flags = shf_syn; conid = conid })) proto_stream
  (let ret' = syn_result ret in
      if is_nonzero ret' && not (is_eagain ret')
      then (back_to_bound a >> pure ret')
      else await_connection env a nonblock ret')
  where
    syn_result : Ret → Ret
    syn_result (ok n) = if n == stream_header_size then ok 0 else ok n
    syn_result (err e) = err e

-- v4v_connect of a datagram socket: `peer` may be NULL.
abbrev pub connect_dgram : ℕ → Private → Option Addr → M Ret
connect_dgram a p (some peer) =
    store_private a (record p { state = connected; peer = peer }) >> pure (ok 0)
connect_dgram a p none = store_private a (record p { state = bound }) >> pure (ok 0)

abbrev pub connect_stream : Env → ℕ → Private → Option Addr → Bool → M Ret
connect_stream env a p peer nonblock = elim p.state [
  | bound ↦ or_fault peer >>= λ to. send_syn env a to nonblock
  | connected ↦ or_fault peer >>= λ to. pure (if same_addr to p.peer then ok 0 else err einval)
  | connecting ↦ or_fault peer >>= λ to.
      if same_addr to p.peer
      then await_connection env a nonblock (err einval)
      else pure (err einval)
  | _ ↦ pure (err einval)
]

-- v4v_connect
unfoldable pub connect : Env → ℕ → Option Addr → Bool → M Ret
connect env a peer nonblock = do
  p ← load_private a
  elim p.ptype [
    | ptype_dgram ↦ elim p.state [
      | bound ↦ connect_dgram a p peer
      | connected ↦ connect_dgram a p peer
      | _ ↦ pure (err einval)
    ]
    | ptype_stream ↦ connect_stream env a p peer nonblock
  ]
