-- ===== src/Driver/Dgram.antt =====
-- linux/v4v.c, v4v_recvfrom_dgram: a datagram socket is read from its ring.
use legacy_v4v.Prelude.{
  ℕ, zero, suc, Bool, true, ◌&&◌, not, Option, none, some, ◌==◌, if◌then◌else◌,
}
use legacy_v4v.Abi.{Addr, same_addr, proto_dgram}
use legacy_v4v.Errno.{Errno, eagain, erestartsys, Ret, ok, err}
use legacy_v4v.Ring.{V4vRing, Received}
use legacy_v4v.Driver.{Private, Env, M, pure, ◌>>=◌, ◌>>◌, skip, or_fault, load_ring, load_private}
use legacy_v4v.Driver.Interrupt.{copy_from_ring, recover_ring, discard}
use legacy_v4v.Driver.Notify.{notify_nothing}
use legacy_v4v.Driver.Send.{is_connected}

-- The result, and what was received where it is a length.
abbrev pub Datagram : Type 0
Datagram = Ret × Option Received

-- `p->r` and its ring
abbrev pub own_ring : ℕ → M (ℕ × V4vRing)
own_ring a = do
  p ← load_private a
  address ← or_fault p.r
  r ← load_ring address
  pure (address, r.ring)

abbrev pub is_drained : V4vRing → Bool
is_drained v = v.rx_ptr == v.tx_ptr

-- `wait_event_interruptible (p->readq, p->r->ring->rx_ptr != p->r->ring->tx_ptr)`
unfoldable pub wait_dgram : Env → ℕ → ℕ → M (Option Errno)
wait_dgram env zero a =
    own_ring a >>= λ own. pure (if is_drained own.1 then some erestartsys else none)
wait_dgram env (suc rounds) a =
    let rest = wait_dgram env rounds a in
    own_ring a >>= λ own. if is_drained own.1 then (λ d. rest (env.others d)) else pure none

-- How a round of the loop goes on: the call ends, or the loop continues.
pub data Outcome : Type 0 where
  return : Ret → Option Received → Outcome
  continue : Outcome

-- A message in hand: it is delivered, or it is rubbish, which a peek has yet to consume.
abbrev pub judge : Private → Addr → ℕ → Bool → Received → M Outcome
judge p peer address peek m =
    let drop_it : M Outcome = (if peek then discard address 1 else skip) >> pure continue in
    if not (m.protocol == proto_dgram)
    then drop_it
    else (if is_connected p.state && not (same_addr m.from peer)
        then drop_it
        else pure (return (ok m.ret) (some m)))

-- One round, from taking the ring's lock on.
unfoldable pub recv_dgram_round : Env → ℕ → ℕ → Bool → Bool → M Outcome
recv_dgram_round env a len nonblock peek = own_ring a >>= λ own.
    if is_drained own.1
    then pure (if nonblock then return (err eagain) none else continue)
    else (copy_from_ring own.0 true len (not peek) >>= λ got. elim got [
      | none ↦ recover_ring own.0 >> pure continue
      | some m ↦
          (if peek then skip else notify_nothing env)
          >> (load_private a >>= λ p. judge p p.peer own.0 peek m)
    ])

-- The loop, `rounds` times at most; a signal ends the last sleep.
unfoldable pub recv_dgram_rounds : Env → ℕ → ℕ → ℕ → Bool → Bool → M Datagram
recv_dgram_rounds env zero a len nonblock peek = pure (err erestartsys, none)
recv_dgram_rounds env (suc rounds) a len nonblock peek =
    let rest = recv_dgram_rounds env rounds a len nonblock peek in
    let round : M Datagram = recv_dgram_round env a len nonblock peek >>= λ o. elim o [
      | return ret m ↦ pure (ret, m)
      | continue ↦ rest
    ] in
    if nonblock
    then round
    else ((λ d. wait_dgram env (env.patience d) a d) >>= λ signal. elim signal [
      | some e ↦ pure (err e, none)
      | none ↦ round
    ])
