-- ===== src/Windows/Syn.antt =====
-- windows/xenv4v: a listener's queue of SYNs, from V4vCtrlListen and V4vDoAccepts of ioctl.c and
-- V4vProcessPreAcceptReads of rw.c. The records stand in an array and are chained through `next`; a
-- pointer to one is its index, `none` is NULL.
pub mod Chain
pub mod Backlog
pub mod Refines
pub mod Drain
use legacy_v4v.Prelude.{
  ℕ, zero, suc, ◌-◌, ◌≡◌, Bool, true, false, Option, none, some, List, [], ◌∷◌, replicate, ◌==◌,
  if◌then◌else◌,
}
use legacy_v4v.Abi.{Addr}

-- XENV4V_SYN
pub record Syn : Type 0 where
  pub next : Option ℕ
  pub last : Option ℕ
  pub pending : Bool
  pub sdst : Addr
  pub conn_id : ℕ

-- The listener's part of XENV4V_CONTEXT
pub record Listener : Type 0 where
  pub backlog : ℕ
  pub syn_list : List Syn
  pub syn_head : Option ℕ
  pub syn_tail : Option ℕ
  pub syn_count : ℕ

-- RtlZeroMemory of a record
abbrev pub zero_syn : Syn
zero_syn = record {
  next = none;
  last = none;
  pending = false;
  sdst = record { port = 0; domain = 0 };
  conn_id = 0;
}

-- `synList[i]`, and a store to it
abbrev pub slot_at : List Syn → ℕ → Syn
slot_at [] i = zero_syn
slot_at (x ∷ xs) zero = x
slot_at (x ∷ xs) (suc i) = slot_at xs i

abbrev pub set_at : List Syn → ℕ → Syn → List Syn
set_at [] i s = []
set_at (x ∷ xs) zero s = s ∷ xs
set_at (x ∷ xs) (suc i) s = x ∷ set_at xs i s

-- V4V_SOMAXCONN
abbrev pub somaxconn : ℕ
somaxconn = 128

-- What V4vCtrlListen sets up for `lvs->backlog`
unfoldable pub listen_queue : ℕ → Listener
listen_queue n =
    let backlog = if n == 0 then somaxconn else n in
    record {
      backlog = backlog;
      syn_list = replicate backlog zero_syn;
      syn_head = none;
      syn_tail = none;
      syn_count = 0;
    }

-- The index of the first record that is not pending
abbrev pub free_slot : List Syn → ℕ
free_slot [] = 0
free_slot (x ∷ xs) = let rest = free_slot xs in if x.pending then suc rest else 0

-- The record of the SYN that V4vProcessPreAcceptReads sets up
abbrev pub new_syn : Option ℕ → Addr → ℕ → Syn
new_syn tail src conid = record {
  next = none;
  last = tail;
  pending = true;
  sdst = src;
  conn_id = conid;
}

-- V4vProcessPreAcceptReads under its lock: false means that the backlog is reached and a RST is sent.
unfoldable pub push_syn : Listener → Addr → ℕ → Bool × Listener
push_syn q src conid =
    let i = free_slot q.syn_list in
    let slots = set_at q.syn_list i (new_syn q.syn_tail src conid) in
    if q.syn_count == q.backlog then (false, q) else elim q.syn_tail [
      | none ↦ (
        true,
        record q {
          syn_list = slots;
          syn_head = some i;
          syn_tail = some i;
          syn_count = suc q.syn_count;
        },
      )
      | some t ↦ (
        true,
        record q {
          syn_list = set_at slots t (record (slot_at slots t) { next = some i });
          syn_tail = some i;
          syn_count = suc q.syn_count;
        },
      )
    ]

abbrev pub same_index : Option ℕ → Option ℕ → Bool
same_index none none = true
same_index none (some b) = false
same_index (some a) none = false
same_index (some a) (some b) = a == b

-- The part of V4vDoAccepts that takes a SYN: none where there is none. The read through `synHead`
-- would fault at NULL; Windows/Syn/Backlog shows that it is not NULL where the count is not 0.
unfoldable pub pop_syn : Listener → Option ((Addr × ℕ) × Listener)
pop_syn q = if q.syn_count == 0 then none else elim q.syn_head [
  | none ↦ none
  | some i ↦
      let s = slot_at q.syn_list i in
      let only = same_index q.syn_head q.syn_tail in
      some (
        (s.sdst, s.conn_id),
        record q {
          syn_list = set_at q.syn_list i zero_syn;
          syn_head = if only then none else s.next;
          syn_tail = if only then none else q.syn_tail;
          syn_count = q.syn_count - 1;
        },
      )
]
