-- ===== src/Windows/Syn/Drain.antt =====
-- windows/xenv4v: a SYN that a listener has queued is accepted.
use legacy_v4v.Prelude.{
  ℕ, ◌+◌, ◌≤◌, ◌≡◌, refl, sym, ap, ◌∙◌, true, false, some, List, [], ◌∷◌, ◌++◌, append-nil,
  append_assoc, length, length-append, ◌==◌, if◌then◌else◌, arith,
}
use legacy_v4v.Abi.{Addr}
use legacy_v4v.Windows.Syn.{listen_queue}
use legacy_v4v.Windows.Syn.Refines.{
  ListenerOp, arrive, pops, ListenerReply, answered, accepted, run_listener, run_backlog,
  run_listener-eq-run_backlog,
}

-- The SYNs arrive; as many accepts come.
abbrev pub arrivals : List (Addr × ℕ) → List ListenerOp
arrivals [] = []
arrivals ((src, conid) ∷ l) = arrive src conid ∷ arrivals l

abbrev pub takes : List (Addr × ℕ) → List ListenerOp
takes [] = []
takes (x ∷ l) = pops ∷ takes l

-- Each is queued; each is accepted.
abbrev pub all_answered : List (Addr × ℕ) → List ListenerReply
all_answered [] = []
all_answered (x ∷ l) = answered true ∷ all_answered l

abbrev pub all_accepted : List (Addr × ℕ) → List ListenerReply
all_accepted [] = []
all_accepted (x ∷ l) = accepted (some x) ∷ all_accepted l

run_backlog-arrivals :
    (n : ℕ) (syns l : List (Addr × ℕ)) (ops : List ListenerOp)
    → length l + length syns ≤ n
    → run_backlog n l (arrivals syns ++ ops) ≡ all_answered syns ++ run_backlog n (l ++ syns) ops
unfolding run_backlog
run_backlog-arrivals n [] l ops h = ap (λ l. run_backlog n l ops) (sym (append-nil l))
run_backlog-arrivals n ((src, conid) ∷ syns) l ops h =
    let room : (length l == n) ≡ false = ground arith in
    let k =
      run_backlog-arrivals n syns (l ++ ((src, conid) ∷ [])) ops
        (omega (arith, length-append l ((src, conid) ∷ []))) in
    rw room (
      ap (◌∷◌ (answered true)) (
        k
        ∙ ap (λ l. all_answered syns ++ run_backlog n l ops)
            (append_assoc l ((src, conid) ∷ []) syns)))

run_backlog-takes : (n : ℕ) (l : List (Addr × ℕ)) → run_backlog n l (takes l) ≡ all_accepted l
unfolding run_backlog
run_backlog-takes n [] = refl
run_backlog-takes n (x ∷ l) = ap (◌∷◌ (accepted (some x))) (run_backlog-takes n l)

-- SYNs that arrive at a listener, no more than its backlog, are all queued, and as many accepts give
-- all of them, in the order in which they came: none is lost and none waits for ever.
pub run_listener-drains :
    (n : ℕ) (syns : List (Addr × ℕ))
    → length syns ≤ (if n == 0 then 128 else n)
    → run_listener (listen_queue n) (arrivals syns ++ takes syns)
      ≡ all_answered syns ++ all_accepted syns
run_listener-drains n syns h =
    let bound = if n == 0 then 128 else n in
    run_listener-eq-run_backlog n (arrivals syns ++ takes syns)
    ∙ run_backlog-arrivals bound syns [] (takes syns) (omega arith)
    ∙ ap (λ l. all_answered syns ++ l) (run_backlog-takes bound syns)
