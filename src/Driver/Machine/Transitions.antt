-- ===== src/Driver/Machine/Transitions.antt =====
-- linux/v4v.c, "state machines": what becomes of a socket by all the control messages it gets.
use legacy_v4v.Prelude.{
  ℕ, Bool, true, false, ◌≡◌, refl, sym, ap, ◌∙◌, ◌||◌, List, [], ◌∷◌, if◌then◌else◌, Bool-cases,
  inl, inr,
}
use legacy_v4v.Abi.{StreamHeader}
use legacy_v4v.Driver.{
  Private, SocketState, idle, bound, listening, accepted, connecting, connected, disconnected,
  has_flag, shf_ack, shf_rst,
}
use legacy_v4v.Driver.Machine.{
  connector_state_machine, acceptor_state_machine, connector_rst, connector_ack, try_rst,
}

-- The socket after a sequence of messages.
abbrev pub run_connector : Private → List StreamHeader → Private
run_connector p [] = p
run_connector p (sh ∷ l) = run_connector (connector_state_machine p sh).after l

abbrev pub run_acceptor : Private → List StreamHeader → Private
run_acceptor p [] = p
run_acceptor p (sh ∷ l) = run_acceptor (acceptor_state_machine p sh).after l

abbrev pub is_ack : StreamHeader → Bool
is_ack sh = has_flag sh.flags shf_ack

abbrev pub is_rst : StreamHeader → Bool
is_rst sh = has_flag sh.flags shf_rst

-- The messages that count.
abbrev pub answers : List StreamHeader → List StreamHeader
answers [] = []
answers (sh ∷ l) = if is_ack sh || is_rst sh then sh ∷ answers l else answers l

-- A connection is open after one answer, an ACK; a refusal, or any later answer, ends it.
abbrev pub verdict : List StreamHeader → SocketState
verdict [] = connecting
verdict (sh ∷ []) = if is_ack sh then connected else disconnected
verdict (sh ∷ sh' ∷ l) = disconnected

-- One step of the state alone.
abbrev pub next : SocketState → Bool → Bool → SocketState
next connecting true rst = connected
next connecting false true = disconnected
next connected true rst = disconnected
next connected false true = disconnected
next s ack rst = s

next_rst :
    (s : SocketState) (p : Private)
    → p.state ≡ s
    → (connector_rst s p).after.state ≡ next s false true
next_rst idle p h = h
next_rst bound p h = h
next_rst listening p h = h
next_rst accepted p h = h
next_rst connecting p h = refl
next_rst connected p h = refl
next_rst disconnected p h = h

pub next_same : (s : SocketState) → next s false false ≡ s
next_same idle = refl
next_same bound = refl
next_same listening = refl
next_same accepted = refl
next_same connecting = refl
next_same connected = refl
next_same disconnected = refl

try_rst-state :
    (flags : ℕ) (p : Private)
    → (try_rst flags p).after.state ≡ next p.state false (has_flag flags shf_rst)
try_rst-state flags p = elim (Bool-cases (has_flag flags shf_rst)) [
  | inl e ↦ rw e (next_rst p.state p refl)
  | inr e ↦ rw e (sym (next_same p.state))
]

no_connector : (s : SocketState) → next s true true ≡ next s true false
no_connector idle = refl
no_connector bound = refl
no_connector listening = refl
no_connector accepted = refl
no_connector connecting = refl
no_connector connected = refl
no_connector disconnected = refl

connector_ack-state :
    (s : SocketState) (flags : ℕ) (p : Private)
    → p.state ≡ s
    → (connector_ack s flags p).after.state ≡ next s true (has_flag flags shf_rst)
connector_ack-state connecting flags p h = refl
connector_ack-state connected flags p h = refl
connector_ack-state disconnected flags p h = refl
connector_ack-state idle flags p h =
    try_rst-state flags p ∙ ap (λ s. next s false (has_flag flags shf_rst)) h
connector_ack-state bound flags p h =
    try_rst-state flags p ∙ ap (λ s. next s false (has_flag flags shf_rst)) h
connector_ack-state listening flags p h =
    try_rst-state flags p ∙ ap (λ s. next s false (has_flag flags shf_rst)) h
connector_ack-state accepted flags p h =
    try_rst-state flags p ∙ ap (λ s. next s false (has_flag flags shf_rst)) h

pub connector_step-state :
    (p : Private) (sh : StreamHeader)
    → (connector_state_machine p sh).after.state ≡ next p.state (is_ack sh) (is_rst sh)
unfolding connector_state_machine
connector_step-state p sh = elim (Bool-cases (is_ack sh)) [
  | inl e ↦ rw e (connector_ack-state p.state sh.flags p refl)
  | inr e ↦ rw e (try_rst-state sh.flags p)
]

abbrev pub run_states : SocketState → List StreamHeader → SocketState
run_states s [] = s
run_states s (sh ∷ l) = run_states (next s (is_ack sh) (is_rst sh)) l

run_connector-state :
    (l : List StreamHeader) (p : Private) → (run_connector p l).state ≡ run_states p.state l
run_connector-state [] p = refl
run_connector-state (sh ∷ l) p =
    run_connector-state l (connector_state_machine p sh).after
    ∙ ap (λ s. run_states s l) (connector_step-state p sh)

run_states-closed : (l : List StreamHeader) → run_states disconnected l ≡ disconnected
run_states-closed [] = refl
run_states-closed (sh ∷ l) = run_states-closed l

abbrev after_ack : List StreamHeader → SocketState
after_ack [] = connected
after_ack (sh ∷ l) = disconnected

run_states-connected : (l : List StreamHeader) → run_states connected l ≡ after_ack (answers l)
run_states-connected [] = refl
run_states-connected (sh ∷ l) = elim (Bool-cases (is_ack sh)) [
  | inl e ↦ rw e (run_states-closed l)
  | inr e ↦ rw e (elim (Bool-cases (is_rst sh)) [
    | inl e' ↦ rw e' (run_states-closed l)
    | inr e' ↦ rw e' (run_states-connected l)
  ])
]

verdict_ack :
    (sh : StreamHeader) (l : List StreamHeader) → is_ack sh ≡ true → verdict (sh ∷ l) ≡ after_ack l
verdict_ack sh [] e = rw e refl
verdict_ack sh (x ∷ l) e = refl

verdict_rst :
    (sh : StreamHeader) (l : List StreamHeader)
    → is_ack sh ≡ false
    → verdict (sh ∷ l) ≡ disconnected
verdict_rst sh [] e = rw e refl
verdict_rst sh (x ∷ l) e = refl

pub run_states-connecting : (l : List StreamHeader) → run_states connecting l ≡ verdict (answers l)
run_states-connecting [] = refl
run_states-connecting (sh ∷ l) = elim (Bool-cases (is_ack sh)) [
  | inl e ↦ let v = verdict_ack sh (answers l) e in rw e (run_states-connected l ∙ sym v)
  | inr e ↦
      let v = verdict_rst sh (answers l) e in
      rw e (elim (Bool-cases (is_rst sh)) [
        | inl e' ↦ rw e' (run_states-closed l ∙ sym v)
        | inr e' ↦ rw e' (run_states-connecting l)
      ])
]

-- A connecting socket that has got any sequence of messages is in the state that its ACKs and RSTs
-- decide: still connecting without one, connected if there was one and it was an ACK, and
-- disconnected otherwise.
pub run_connector-verdict :
    (l : List StreamHeader) (p : Private)
    → p.state ≡ connecting
    → (run_connector p l).state ≡ verdict (answers l)
run_connector-verdict l p h =
    run_connector-state l p ∙ ap (λ s. run_states s l) h ∙ run_states-connecting l
