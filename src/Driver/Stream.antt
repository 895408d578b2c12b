-- ===== src/Driver/Stream.antt =====
-- linux/v4v.c, v4v_recv_stream: a stream socket is read from the messages queued at it.
pub mod Copy
pub mod Read
use legacy_v4v.Prelude.{
  ℕ, zero, suc, ◌+◌, ◌-◌, Bool, true, false, ◌&&◌, ◌||◌, not, Option, none, some, List, [], ◌∷◌,
  ◌++◌, ltb, ◌==◌, if◌then◌else◌, length, take, drop,
}
use legacy_v4v.Errno.{Errno, eagain, einval, enotconn, epipe, efault, erestartsys, Ret, ok, err}
use legacy_v4v.Driver.{
  PendingRecv, Private, SocketState, idle, bound, listening, accepted, connecting, connected,
  disconnected, Driver, Env, M, pure, ◌>>=◌, ◌>>◌, skip, load_private, store_private,
}
use legacy_v4v.Driver.Send.{stream_connected, count_or}
use legacy_v4v.Driver.Listener.{fake_irq}

-- What the inner loop has copied and left: the bytes stored, the list, how many entries it ate, and
-- whether access_ok refused a part of the caller's buffer.
pub record Copied : Type 0 where
  pub bytes : List ℕ
  pub left : List PendingRecv
  pub eaten : ℕ
  pub refused : Bool

abbrev pub available : PendingRecv → ℕ
available p = p.data_len - p.data_ptr

-- `copy_to_user (buf, &pending->data[pending->data_ptr], to_copy)`
abbrev pub chunk : PendingRecv → ℕ → List ℕ
chunk p n = take n (drop p.data_ptr p.bytes)

-- The inner loop, with `len` bytes of the buffer left behind `count` bytes filled.
unfoldable pub copy_pending : (ℕ → ℕ → Bool) → ℕ → ℕ → List PendingRecv → Copied
copy_pending writable count len [] = record { bytes = []; left = []; eaten = 0; refused = false }
copy_pending writable count len (p ∷ l) =
    let rest = copy_pending writable (count + available p) (len - available p) l in
    if len == 0
    then record { bytes = []; left = p ∷ l; eaten = 0; refused = false }
    else (if ltb len (available p)
        then (if writable count len
            then record {
              bytes = chunk p len;
              left = record p { data_ptr = p.data_ptr + len } ∷ l;
              eaten = 0;
              refused = false;
            }
            else record { bytes = []; left = p ∷ l; eaten = 0; refused = true })
        else (if writable count (available p)
            then record {
              bytes = chunk p (available p) ++ rest.bytes;
              left = rest.left;
              eaten = suc rest.eaten;
              refused = rest.refused;
            }
            else record { bytes = []; left = p ∷ l; eaten = 0; refused = true }))

abbrev pub is_disconnected : SocketState → Bool
is_disconnected disconnected = true
is_disconnected _ = false

abbrev pub is_empty : List PendingRecv → Bool
is_empty [] = true
is_empty (p ∷ l) = false

-- `wait_event_interruptible (p->readq, !list_empty (&p->pending_recv_list) || !stream_connected (p))`
unfoldable pub wait_recv : Env → ℕ → ℕ → M (Option Errno)
wait_recv env zero a = do
  p ← load_private a
  pure (
      if not (is_empty p.pending_recv_list) || not (stream_connected p.state)
      then none
      else some erestartsys)
wait_recv env (suc rounds) a =
    let rest = wait_recv env rounds a in
    load_private a >>= λ p.
    if not (is_empty p.pending_recv_list) || not (stream_connected p.state)
    then pure none
    else (λ d. rest (env.others d))

-- The result, and the bytes stored in the caller's buffer.
abbrev pub Reading : Type 0
Reading = Ret × List ℕ

-- One round of the outer loop ends the call, or goes to sleep with the bytes read so far, the room
-- left and `schedule_irq`.
pub data Progress : Type 0 where
  finished : Ret → List ℕ → Progress
  waiting : List ℕ → ℕ → Bool → Progress

-- From the test for DISCONNECTED to the sleep, with `all` read so far.
abbrev pub conclude : SocketState → List ℕ → ℕ → Bool → Bool → Bool → Progress
conclude state all left irq waitall nonblock =
    if is_disconnected state
    then finished (count_or (length all) (err epipe)) all
    else (if not (length all == 0) && not waitall
        then finished (ok (length all)) all
        else (if nonblock
            then finished (count_or (length all) (err eagain)) all
            else waiting all left irq))

-- The socket after the inner loop.
abbrev pub after_copy : Private → Copied → Private
after_copy p c = record p {
  pending_recv_list = c.left;
  pending_recv_count = p.pending_recv_count - c.eaten;
}

unfoldable pub recv_round : Env → (ℕ → ℕ → Bool) → ℕ → ℕ → List ℕ → Bool → Bool → Bool → M Progress
recv_round env writable a len got irq waitall nonblock = load_private a >>= λ p.
    let c = copy_pending writable (length got) len p.pending_recv_list in
    let all = got ++ c.bytes in
    let irq' = irq || (p.full && not (c.eaten == 0)) in
    store_private a (after_copy p c)
    >> (if c.refused
        then pure (finished (count_or (length all) (err efault)) all)
        else ((if irq' then fake_irq env else skip)
            >> (load_private a >>= λ p'.
                pure (conclude p'.state all (len - length c.bytes) irq' waitall nonblock))))

-- The outer loop. `rounds` bounds its repetitions: a signal ends the last sleep.
unfoldable pub recv_rounds :
    Env → ℕ → (ℕ → ℕ → Bool) → ℕ → ℕ → List ℕ → Bool → Bool → Bool → M Reading
recv_rounds env zero writable a len got irq waitall nonblock =
    recv_round env writable a len got irq waitall nonblock >>= λ step. elim step [
      | finished ret all ↦ pure (ret, all)
      | waiting all left irq' ↦ pure (count_or (length all) (err erestartsys), all)
    ]
recv_rounds env (suc rounds) writable a len got irq waitall nonblock =
    let rest = λ (left : ℕ) (all : List ℕ) (irq' : Bool).
      recv_rounds env rounds writable a left all irq' waitall nonblock in
    recv_round env writable a len got irq waitall nonblock >>= λ step. elim step [
      | finished ret all ↦ pure (ret, all)
      | waiting all left irq' ↦ (λ d. wait_recv env (env.patience d) a d) >>= λ signal.
          elim signal [
            | some e ↦ pure (count_or (length all) (err e), all)
            | none ↦ if left == 0 then pure (ok (length all), all) else rest left all irq'
          ]
    ]

-- v4v_recv_stream. `writable` is access_ok on a part of the caller's buffer.
unfoldable pub recv_stream : Env → (ℕ → ℕ → Bool) → ℕ → ℕ → Bool → Bool → M Reading
recv_stream env writable a len waitall nonblock = do
  p ← load_private a
  elim p.state [
    | disconnected ↦ pure (err epipe, [])
    | connecting ↦ pure (err enotconn, [])
    | connected ↦ (λ d. recv_rounds env (env.patience d) writable a len [] false waitall nonblock d)
    | accepted ↦ (λ d. recv_rounds env (env.patience d) writable a len [] false waitall nonblock d)
    | _ ↦ pure (err einval, [])
  ]
