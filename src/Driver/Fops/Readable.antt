-- ===== src/Driver/Fops/Readable.antt =====
-- linux/v4v.c, v4v_poll and v4v_recv_stream: a stream that is not ready has nothing to read.
use legacy_v4v.Prelude.{
  ℕ, Bool, true, false, not, ◌≡◌, refl, sym, ap, ◌∙◌, Option, none, some, List, [], ◌∷◌, length,
  take, take_all, arith,
}
use mathlib.Core.Bool.{true≢false}
use legacy_v4v.Errno.{err, eagain}
use legacy_v4v.Driver.{
  Private, PendingRecv, SocketState, idle, bound, listening, accepted, connecting, connected,
  disconnected, ptype_stream, Driver, Env, update,
}
use legacy_v4v.Driver.Loads.{load_private-bind}
use legacy_v4v.Driver.Send.{stream_connected}
use legacy_v4v.Driver.Stream.{recv_stream, is_empty}
use legacy_v4v.Driver.Stream.Copy.{AreEntries, pending_bytes, always}
use legacy_v4v.Driver.Stream.Read.{answer, recv_stream_lem}
use legacy_v4v.Driver.Fops.{Ready, poll, poll_stream}

poll_lem :
    (a : ℕ) (d : Driver) (p : Private)
    → d.privates a ≡ some p
    → p.ptype ≡ ptype_stream
    → poll a d ≡ some (poll_stream p, d)
unfolding poll
poll_lem a d p e t = load_private-bind a _ d p e ∙ rw t refl

open_readable :
    (s : SocketState) (p : Private)
    → p.state ≡ s
    → stream_connected s ≡ true
    → (poll_stream p).readable ≡ not (is_empty p.pending_recv_list)
unfolding stream_connected
open_readable idle p e h = absurd (true≢false (sym h))
open_readable bound p e h = absurd (true≢false (sym h))
open_readable listening p e h = absurd (true≢false (sym h))
open_readable connecting p e h = absurd (true≢false (sym h))
open_readable disconnected p e h = absurd (true≢false (sym h))
open_readable accepted p e h = rw e refl
open_readable connected p e h = rw e refl

nothing_pending : (l : List PendingRecv) → not (is_empty l) ≡ false → pending_bytes l ≡ []
nothing_pending [] h = refl
nothing_pending (p ∷ l) h = absurd (true≢false h)

abbrev readable_of : Option (Ready × Driver) → Bool
readable_of none = false
readable_of (some (ready, d)) = ready.readable

-- If v4v_poll of a connected stream socket that is not full does not say that it is readable, a
-- v4v_recv_stream that does not wait, of any length, returns EAGAIN and stores nothing.
pub poll-recv_stream :
    (env : Env) (a len : ℕ) (d : Driver) (p : Private) (ready : Ready)
    → d.privates a ≡ some p
    → p.ptype ≡ ptype_stream
    → stream_connected p.state ≡ true
    → AreEntries p.pending_recv_list
    → p.full ≡ false
    → p.pending_recv_count ≡ length p.pending_recv_list
    → poll a d ≡ some (ready, d)
    → ready.readable ≡ false
    → (d' : Driver) × (recv_stream env always a len false true d ≡ some ((err eagain, []), d'))
poll-recv_stream env a len d p ready e t c entries room counted polled h =
    let same : ready.readable ≡ (poll_stream p).readable =
      ap readable_of (sym polled ∙ poll_lem a d p e t) in
    let none_left =
      nothing_pending p.pending_recv_list (sym (open_readable p.state p refl c) ∙ sym same ∙ h) in
    let (p', r, rest, kept, count, state) =
      recv_stream_lem env a len d p e c entries room counted in
    (
      record d { privates = update d.privates a (some p') },
      r
          ∙ ap
              (λ bs.
                some (answer (take len bs), record d { privates = update d.privates a (some p') }))
              none_left
          ∙ ap (λ bs. some (answer bs, record d { privates = update d.privates a (some p') }))
              (take_all len [] (omega arith)),
    )
