-- ===== src/Driver/Stream/Read.antt =====
-- linux/v4v.c, v4v_recv_stream: a read that does not wait, against the stream of bytes.
use legacy_v4v.Prelude.{
  ℕ, zero, suc, ◌-◌, Bool, true, false, ◌&&◌, not, ◌≡◌, refl, sym, ap, ◌∙◌, some, List, [], ◌∷◌,
  arith, length, take, drop, ◌==◌, if◌then◌else◌, ==_iff,
}
use mathlib.Core.Bool.{true≢false}
use legacy_v4v.Driver.Listener.{fake_irq}
use legacy_v4v.Errno.{Ret, ok, err, eagain, epipe, efault, enotconn, einval}
use legacy_v4v.Driver.{
  Private, SocketState, idle, bound, listening, accepted, connecting, connected, disconnected,
  Driver, Env, M, pure, ◌>>=◌, ◌>>◌, skip, load_private, update,
}
use legacy_v4v.Driver.Loads.{load_private-bind, bind_lem}
use legacy_v4v.Driver.Send.{stream_connected, count_or}
use legacy_v4v.Driver.Stream.{
  Copied, copy_pending, after_copy, Progress, finished, conclude, recv_round, recv_rounds,
  recv_stream,
}
use legacy_v4v.Driver.Stream.Copy.{AreEntries, pending_bytes, always, copy_pending_lem}

-- The answer of a read that does not wait, of the bytes that it got.
abbrev pub answer : List ℕ → Ret × List ℕ
answer [] = (err eagain, [])
answer (x ∷ l) = (ok (length (x ∷ l)), x ∷ l)

nonzero : (x : ℕ) (l : List ℕ) → (length (x ∷ l) == 0) ≡ false
nonzero x l = ground arith

conclude-answer :
    (s : SocketState) (all : List ℕ) (left : ℕ) (irq : Bool)
    → stream_connected s ≡ true
    → conclude s all left irq false true ≡ finished (answer all).0 (answer all).1
unfolding stream_connected
conclude-answer idle all left irq h = absurd (true≢false (sym h))
conclude-answer bound all left irq h = absurd (true≢false (sym h))
conclude-answer listening all left irq h = absurd (true≢false (sym h))
conclude-answer connecting all left irq h = absurd (true≢false (sym h))
conclude-answer disconnected all left irq h = absurd (true≢false (sym h))
conclude-answer accepted [] left irq h = refl
conclude-answer accepted (x ∷ l) left irq h = rw (nonzero x l) refl
conclude-answer connected [] left irq h = refl
conclude-answer connected (x ∷ l) left irq h = rw (nonzero x l) refl

module _ (env : Env) (a len : ℕ) (d : Driver) (p : Private) (is_socket : d.privates a ≡ some p)
    (is_open : stream_connected p.state ≡ true) (entries : AreEntries p.pending_recv_list)
    (room : p.full ≡ false) where
  abbrev copied : Copied
  copied = copy_pending always 0 len p.pending_recv_list

  abbrev pub read_from : Driver
  read_from = record d { privates = update d.privates a (some (after_copy p copied)) }

  -- The end of the round, once the socket is written back.
  abbrev ending : Bool → M Progress
  ending irq = load_private a >>= λ p'.
      pure (conclude p'.state copied.bytes (len - length copied.bytes) irq false true)

  ending_lem :
      (irq : Bool)
      → ending irq read_from
        ≡ some (finished (answer copied.bytes).0 (answer copied.bytes).1, read_from)
  ending_lem irq =
      let e = (==_iff a a).1 refl in
      load_private-bind a _ read_from (after_copy p copied)
        (ap (λ b. if b then some (after_copy p copied) else d.privates a) e)
      ∙ ap (λ x. some (x, read_from))
          (conclude-answer p.state copied.bytes (len - length copied.bytes) irq is_open)

  abbrev interrupts : Bool → Bool
  interrupts full = full && not (copied.eaten == 0)

  round_lem :
      recv_round env always a len [] false false true d
      ≡ some (finished (answer copied.bytes).0 (answer copied.bytes).1, read_from)
  unfolding recv_round
  round_lem =
      let accepted = (copy_pending_lem p.pending_recv_list 0 len entries).accepted in
      load_private-bind a _ d p is_socket
      ∙ ap
          (λ b.
            (if b
                then pure (finished (count_or (length copied.bytes) (err efault)) copied.bytes)
                else ((if interrupts p.full then fake_irq env else skip)
                    >> ending (interrupts p.full)))
              read_from)
          accepted
      ∙ ap (λ b. ((if interrupts b then fake_irq env else skip) >> ending (interrupts b)) read_from)
          room
      ∙ ending_lem false

  rounds_lem :
      (n : ℕ)
      → recv_rounds env n always a len [] false false true d ≡ some (answer copied.bytes, read_from)
  unfolding recv_rounds
  rounds_lem zero =
      bind_lem (recv_round env always a len [] false false true) _ d read_from _ round_lem
  rounds_lem (suc n) =
      bind_lem (recv_round env always a len [] false false true) _ d read_from _ round_lem

  -- What recv_stream does by the socket's state.
  abbrev by_state : SocketState → M (Ret × List ℕ)
  by_state disconnected = pure (err epipe, [])
  by_state connecting = pure (err enotconn, [])
  by_state connected = λ d. recv_rounds env (env.patience d) always a len [] false false true d
  by_state accepted = λ d. recv_rounds env (env.patience d) always a len [] false false true d
  by_state _ = pure (err einval, [])

  state_lem :
      (s : SocketState)
      → stream_connected s ≡ true
      → by_state s d ≡ some (answer copied.bytes, read_from)
  unfolding stream_connected
  state_lem idle h = absurd (true≢false (sym h))
  state_lem bound h = absurd (true≢false (sym h))
  state_lem listening h = absurd (true≢false (sym h))
  state_lem connecting h = absurd (true≢false (sym h))
  state_lem disconnected h = absurd (true≢false (sym h))
  state_lem connected h = rounds_lem (env.patience d)
  state_lem accepted h = rounds_lem (env.patience d)

  stream_lem : recv_stream env always a len false true d ≡ some (answer copied.bytes, read_from)
  unfolding recv_stream
  stream_lem = load_private-bind a _ d p is_socket ∙ state_lem p.state is_open

-- A read that does not wait, of at most `len` bytes, from a connected socket that is not full and
-- whose buffer access_ok takes: it returns the first bytes of the queued stream, as many as there are
-- up to `len`, or EAGAIN if that is none; exactly the rest of the stream stays queued, in well-formed
-- entries, and the count of entries stays in step. Nothing else changes.
pub recv_stream_lem :
    (env : Env) (a len : ℕ) (d : Driver) (p : Private)
    → d.privates a ≡ some p
    → stream_connected p.state ≡ true
    → AreEntries p.pending_recv_list
    → p.full ≡ false
    → p.pending_recv_count ≡ length p.pending_recv_list
    → (p' : Private) × (recv_stream env always a len false true d
        ≡ some (
          answer (take len (pending_bytes p.pending_recv_list)),
          record d { privates = update d.privates a (some p') },
        ))
      × (pending_bytes p'.pending_recv_list ≡ drop len (pending_bytes p.pending_recv_list))
      × AreEntries p'.pending_recv_list
      × (p'.pending_recv_count ≡ length p'.pending_recv_list)
      × (p'.state ≡ p.state)
recv_stream_lem env a len d p is_socket is_open entries room counted =
    let c = copy_pending_lem p.pending_recv_list 0 len entries in
    (
      after_copy p (copied env a len d p is_socket is_open entries room),
      stream_lem env a len d p is_socket is_open entries room
          ∙ ap (λ bs. some (answer bs, read_from env a len d p is_socket is_open entries room))
              c.bytes,
      c.rest,
      c.kept,
      omega (arith, counted, c.count),
      refl,
    )
