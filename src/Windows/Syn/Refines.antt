-- ===== src/Windows/Syn/Refines.antt =====
-- windows/xenv4v: a listener against a bounded queue, over any sequence of SYNs and accepts.
use legacy_v4v.Prelude.{
  ℕ, ◌≡◌, refl, sym, ap, ap₂, subst, ◌∙◌, Bool, Option, none, some, List, [], ◌∷◌, ◌==◌,
  if◌then◌else◌,
}
use legacy_v4v.Abi.{Addr}
use legacy_v4v.Windows.Syn.{Listener, listen_queue, push_syn, pop_syn}
use legacy_v4v.Windows.Syn.Backlog.{
  Represents, spec_push, listen_queue-Represents, push_syn-Pushed, Popped, pop_syn-Popped,
}

-- What happens to a listener, and what is told of it: whether a SYN was answered or refused by a RST,
-- and the source and the connection of the SYN that an accept took.
pub data ListenerOp : Type 0 where
  arrive : Addr → ℕ → ListenerOp
  pops : ListenerOp

pub data ListenerReply : Type 0 where
  answered : Bool → ListenerReply
  accepted : Option (Addr × ℕ) → ListenerReply

after_pop : Listener → Option ((Addr × ℕ) × Listener) → Option (Addr × ℕ) × Listener
after_pop q none = (none, q)
after_pop q (some (x, q')) = (some x, q')

-- A SYN that nobody waits for is taken later; an accept without a SYN waits.
unfoldable pub run_listener : Listener → List ListenerOp → List ListenerReply
unfolding after_pop
run_listener q [] = []
run_listener q (arrive src conid ∷ ops) =
    let (taken, q') = push_syn q src conid in answered taken ∷ run_listener q' ops
run_listener q (pops ∷ ops) =
    let (got, q') = after_pop q (pop_syn q) in accepted got ∷ run_listener q' ops

abbrev pub spec_pop : List (Addr × ℕ) → Option (Addr × ℕ) × List (Addr × ℕ)
spec_pop [] = (none, [])
spec_pop (x ∷ l) = (some x, l)

unfoldable pub run_backlog : ℕ → List (Addr × ℕ) → List ListenerOp → List ListenerReply
run_backlog bound l [] = []
run_backlog bound l (arrive src conid ∷ ops) =
    let (taken, l') = spec_push bound l (src, conid) in answered taken ∷ run_backlog bound l' ops
run_backlog bound l (pops ∷ ops) =
    let (got, l') = spec_pop l in accepted got ∷ run_backlog bound l' ops

after_pop-Popped :
    (q : Listener) (l : List (Addr × ℕ)) (o : Option ((Addr × ℕ) × Listener))
    → Represents q l
    → Popped q l o
    → ((after_pop q o).0 ≡ (spec_pop l).0)
      × Represents (after_pop q o).1 (spec_pop l).1
      × ((after_pop q o).1.backlog ≡ q.backlog)
unfolding after_pop
after_pop-Popped q [] o v e =
    subst
      (λ o.
        ((after_pop q o).0 ≡ none)
        × Represents (after_pop q o).1 []
        × ((after_pop q o).1.backlog ≡ q.backlog))
      (sym e) (refl, v, refl)
after_pop-Popped q (x ∷ l) o v (q', e, w, same) =
    subst
      (λ o.
        ((after_pop q o).0 ≡ some x)
        × Represents (after_pop q o).1 l
        × ((after_pop q o).1.backlog ≡ q.backlog))
      (sym e) (refl, w, same)

run_represented :
    (ops : List ListenerOp) (q : Listener) (l : List (Addr × ℕ))
    → Represents q l
    → run_listener q ops ≡ run_backlog q.backlog l ops
unfolding run_listener run_backlog
run_represented [] q l v = refl
run_represented (arrive src conid ∷ ops) q l v =
    let (taken, w, same) = push_syn-Pushed q l src conid v in
    let l' : List (Addr × ℕ) = (spec_push q.backlog l (src, conid)).1 in
    ap₂ (λ b z. answered b ∷ z) taken
      (run_represented ops (push_syn q src conid).1 l' w ∙ ap (λ n. run_backlog n l' ops) same)
run_represented (pops ∷ ops) q l v =
    let (got, w, same) = after_pop-Popped q l (pop_syn q) v (pop_syn-Popped q l v) in
    ap₂ (λ o z. accepted o ∷ z) got
      (run_represented ops (after_pop q (pop_syn q)).1 (spec_pop l).1 w
        ∙ ap (λ n. run_backlog n (spec_pop l).1 ops) same)

-- No sequence of SYNs and accepts tells a listener's array from a queue that holds at most as many
-- SYNs as V4vCtrlListen was asked for, or 128 if it was asked for 0: the same SYNs are refused, and
-- each accept gets the same SYN, the oldest, or none.
pub run_listener-eq-run_backlog :
    (n : ℕ) (ops : List ListenerOp)
    → run_listener (listen_queue n) ops ≡ run_backlog (if n == 0 then 128 else n) [] ops
unfolding listen_queue
run_listener-eq-run_backlog n ops =
    run_represented ops (listen_queue n) [] (listen_queue-Represents n)
