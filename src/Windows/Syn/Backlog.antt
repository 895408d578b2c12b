-- ===== src/Windows/Syn/Backlog.antt =====
-- windows/xenv4v: a listener's array of SYNs is a bounded queue.
use legacy_v4v.Prelude.{
  ℕ, zero, suc, ◌-◌, ◌<◌, ◌≤◌, ◌≡◌, refl, sym, ap, ap₂, subst, ◌∙◌, Bool, true, false, Option, none,
  some, List, [], ◌∷◌, ◌++◌, length, length-append, replicate, length-replicate, ◌==◌,
  if◌then◌else◌, arith,
}
use mathlib.Core.Option.{none-ne-some}
use legacy_v4v.Abi.{Addr}
use legacy_v4v.Windows.Syn.{
  Syn, Listener, zero_syn, slot_at, set_at, listen_queue, free_slot, new_syn, push_syn, same_index,
  pop_syn,
}
use legacy_v4v.Windows.Syn.Chain.{
  first, last_of, IsFresh, Chain, contents, pendings, length-set_at, slot_at-set_at, pending-lt,
  bit, pendings-set_at, free_slot_lem, Chain-set_at, contents-set_at, free-IsFresh, last_of-apart,
  last_of-pending, last_of-append, Chain-append,
}

-- The array holds the SYNs of the list, oldest first.
pub record Represents (q : Listener) (l : List (Addr × ℕ)) : Type 0 where
  pub indices : List ℕ
  pub chain : Chain q.syn_list indices
  pub head : q.syn_head ≡ first indices
  pub tail : q.syn_tail ≡ last_of indices
  pub holds : contents q.syn_list indices ≡ l
  pub counted : q.syn_count ≡ length indices
  pub marked : pendings q.syn_list ≡ length indices
  pub slots : length q.syn_list ≡ q.backlog
  pub bounded : length indices ≤ q.backlog

-- A bounded queue
abbrev pub spec_push : ℕ → List (Addr × ℕ) → Addr × ℕ → Bool × List (Addr × ℕ)
spec_push bound l x = if length l == bound then (false, l) else (true, l ++ (x ∷ []))

length-contents : (l : List Syn) (r : List ℕ) → length (contents l r) ≡ length r
length-contents l [] = refl
length-contents l (i ∷ r) = ap suc (length-contents l r)

-- The count is the number of SYNs.
pub Represents-syn_count :
    (q : Listener) (l : List (Addr × ℕ)) → Represents q l → q.syn_count ≡ length l
Represents-syn_count q l v =
    v.counted ∙ sym (length-contents q.syn_list v.indices) ∙ ap length v.holds

pendings-replicate : (n : ℕ) → pendings (replicate n zero_syn) ≡ 0
pendings-replicate zero = refl
pendings-replicate (suc n) = pendings-replicate n

-- After V4vCtrlListen the queue is empty.
pub listen_queue-Represents : (n : ℕ) → Represents (listen_queue n) []
unfolding listen_queue
listen_queue-Represents n = record {
  indices = [];
  chain = tt;
  head = refl;
  tail = refl;
  holds = refl;
  counted = refl;
  marked = pendings-replicate (if n == 0 then 128 else n);
  slots = length-replicate (if n == 0 then 128 else n) zero_syn;
  bounded = omega arith;
}

==_refl : (n : ℕ) → (n == n) ≡ true
==_refl n = ground arith

module _ (q : Listener) (l : List (Addr × ℕ)) (v : Represents q l) (src : Addr) (conid : ℕ)
    (room : (q.syn_count == q.backlog) ≡ false) where
  i : ℕ
  i = free_slot q.syn_list

  new : Syn
  new = new_syn q.syn_tail src conid

  slots : List Syn
  slots = set_at q.syn_list i new

  free : (i < length q.syn_list) × ((slot_at q.syn_list i).pending ≡ false)
  unfolding i
  free = free_slot_lem q.syn_list few
    where
      few : pendings q.syn_list < length q.syn_list
      few =
          let a = v.bounded in
          let b = v.slots in let c = v.marked in let d = v.counted in ground arith

  fresh : IsFresh i v.indices
  fresh = free-IsFresh q.syn_list i v.indices free.1 v.chain

  here : slot_at slots i ≡ new
  unfolding slots
  here = slot_at-set_at q.syn_list i new free.0

  one_more : pendings slots ≡ suc (length v.indices)
  unfolding slots new
  one_more =
      let a = v.marked in
      let b = pendings-set_at q.syn_list i new free.0 in let c = ap bit free.1 in omega arith

  enough : suc (length v.indices) ≤ q.backlog
  enough = let a = v.bounded in let b = v.counted in ground arith

  -- The first SYN of an empty queue
  push_first :
      (r : List ℕ)
      → last_of r ≡ none
      → contents q.syn_list r ≡ l
      → length r ≡ length v.indices
      → Represents
          (record q {
            syn_list = slots;
            syn_head = some i;
            syn_tail = some i;
            syn_count = suc q.syn_count;
          })
          (l ++ ((src, conid) ∷ []))
  unfolding slots new
  push_first [] e c n = record {
    indices = i ∷ [];
    chain = (ap (λ x. x.next) here, ap (λ x. x.pending) here, tt, tt);
    head = refl;
    tail = refl;
    holds = ap (λ x. (x.sdst, x.conn_id) ∷ []) here ∙ ap (λ k. k ++ ((src, conid) ∷ [])) c;
    counted = let a = v.counted in omega arith;
    marked = let a = one_more in omega arith;
    slots = length-set_at q.syn_list i new ∙ v.slots;
    bounded = let a = enough in omega arith;
  }
  push_first (j ∷ []) e c n = absurd (none-ne-some j (sym e))
  push_first (j ∷ k ∷ r) e c n = absurd (some_last j k r e)
    where
      some_last : (j k : ℕ) (r : List ℕ) → last_of (j ∷ k ∷ r) ≡ none → ⊥
      some_last j k [] e = none-ne-some k (sym e)
      some_last j k (m ∷ r) e = some_last k m r e

  -- A SYN behind another
  push_next :
      (t : ℕ)
      → q.syn_tail ≡ some t
      → Represents
          (record q {
            syn_list = set_at slots t (record (slot_at slots t) { next = some i });
            syn_tail = some i;
            syn_count = suc q.syn_count;
          })
          (l ++ ((src, conid) ∷ []))
  unfolding slots new
  push_next t e =
      let at_end : last_of v.indices ≡ some t = sym v.tail ∙ e in
      let chain1 = Chain-set_at q.syn_list i new v.indices fresh v.chain in
      let (chain2, held) =
        Chain-append slots i t new here refl refl v.indices chain1 fresh at_end in
      let in_array = pending-lt slots t (last_of-pending slots t v.indices chain1 at_end) in
      record {
        indices = v.indices ++ (i ∷ []);
        chain = chain2;
        head = v.head ∙ same_first v.indices t at_end;
        tail = sym (last_of-append v.indices i);
        holds =
            held
            ∙ ap (λ k. k ++ ((src, conid) ∷ []))
                (contents-set_at q.syn_list i new v.indices fresh ∙ v.holds);
        counted = let a = v.counted in omega (arith, length-append v.indices (i ∷ []));
        marked = omega (
          arith,
          one_more,
          pendings-set_at slots t (record (slot_at slots t) { next = some i }) in_array,
          length-append v.indices (i ∷ []),
        );
        slots =
            length-set_at slots t (record (slot_at slots t) { next = some i })
            ∙ length-set_at q.syn_list i new
            ∙ v.slots;
        bounded = let a = enough in omega (arith, length-append v.indices (i ∷ []));
      }
    where
      same_first : (r : List ℕ) (t : ℕ) → last_of r ≡ some t → first r ≡ first (r ++ (i ∷ []))
      same_first [] t e = absurd (none-ne-some t e)
      same_first (j ∷ r) t e = refl

-- What the listener does with a SYN, against the bounded queue
abbrev pub Pushed : Listener → List (Addr × ℕ) → Addr × ℕ → Bool × Listener → Type 0
Pushed q l x (taken, q') =
    (taken ≡ (spec_push q.backlog l x).0)
    × Represents q' (spec_push q.backlog l x).1
    × (q'.backlog ≡ q.backlog)

pub push_syn-Pushed :
    (q : Listener) (l : List (Addr × ℕ)) (src : Addr) (conid : ℕ)
    → Represents q l
    → Pushed q l (src, conid) (push_syn q src conid)
unfolding push_syn slots i new
push_syn-Pushed q l src conid v = by_room (q.syn_count == q.backlog) refl
  where
    sizes : (q.syn_count == q.backlog) ≡ (length l == q.backlog)
    sizes = ap (λ n. n == q.backlog) (Represents-syn_count q l v)

    after : Option ℕ → Bool × Listener
    after o =
        let i = free_slot q.syn_list in
        let slots = set_at q.syn_list i (new_syn q.syn_tail src conid) in
        elim o [
          | none ↦ (
            true,
            record q {
              syn_list = slots;
              syn_head = some i;
              syn_tail = some i;
              syn_count = suc q.syn_count;
            },
          )
          | some t ↦ (
            true,
            record q {
              syn_list = set_at slots t (record (slot_at slots t) { next = some i });
              syn_tail = some i;
              syn_count = suc q.syn_count;
            },
          )
        ]

    spec : Bool → Bool × List (Addr × ℕ)
    spec b = if b then (false, l) else (true, l ++ ((src, conid) ∷ []))

    to_spec :
        (b : Bool) (p : Bool × Listener)
        → (length l == q.backlog) ≡ b
        → p.0 ≡ (spec b).0
        → Represents p.1 (spec b).1
        → p.1.backlog ≡ q.backlog
        → Pushed q l (src, conid) p
    to_spec b p e a r k =
        subst (λ b. (p.0 ≡ (spec b).0) × Represents p.1 (spec b).1 × (p.1.backlog ≡ q.backlog))
          (sym e) (a, r, k)

    by_tail :
        (o : Option ℕ)
        → q.syn_tail ≡ o
        → (q.syn_count == q.backlog) ≡ false
        → Pushed q l (src, conid) (after o)
    by_tail none e room =
        to_spec false (after none) (sym sizes ∙ room) refl
          (push_first q l v src conid room v.indices (sym v.tail ∙ e) v.holds refl) refl
    by_tail (some t) e room =
        to_spec false (after (some t)) (sym sizes ∙ room) refl (push_next q l v src conid room t e)
          refl

    by_room :
        (b : Bool)
        → (q.syn_count == q.backlog) ≡ b
        → Pushed q l (src, conid) (if b then (false, q) else after q.syn_tail)
    by_room true e = to_spec true (false, q) (sym sizes ∙ e) refl v refl
    by_room false e = by_tail q.syn_tail refl e

-- What the listener does when a SYN is accepted, against the queue
abbrev pub Popped : Listener → List (Addr × ℕ) → Option ((Addr × ℕ) × Listener) → Type 0
Popped q [] o = o ≡ none
Popped q (x ∷ l) o =
    (q' : Listener) × (o ≡ some (x, q')) × Represents q' l × (q'.backlog ≡ q.backlog)

flipped : (a b : ℕ) → (a == b) ≡ false → (b == a) ≡ false
flipped a b e = ground arith

some_end : (j : ℕ) (r : List ℕ) → (t : ℕ) × (last_of (j ∷ r) ≡ some t)
some_end j [] = (j, refl)
some_end j (k ∷ r) = some_end k r

module _ (q : Listener) (i : ℕ) (r : List ℕ) (next : (slot_at q.syn_list i).next ≡ first r)
    (live : (slot_at q.syn_list i).pending ≡ true) (fresh : IsFresh i r)
    (chain : Chain q.syn_list r) (tail : q.syn_tail ≡ last_of (i ∷ r))
    (counted : q.syn_count ≡ suc (length r)) (marked : pendings q.syn_list ≡ suc (length r))
    (slots : length q.syn_list ≡ q.backlog) (bounded : suc (length r) ≤ q.backlog) where
  abbrev popped : Bool → Listener
  popped only = record q {
    syn_list = set_at q.syn_list i zero_syn;
    syn_head = if only then none else (slot_at q.syn_list i).next;
    syn_tail = if only then none else q.syn_tail;
    syn_count = q.syn_count - 1;
  }

  popped-Represents :
      (only : Bool)
      → (popped only).syn_head ≡ first r
      → (popped only).syn_tail ≡ last_of r
      → Represents (popped only) (contents q.syn_list r)
  popped-Represents only h t = record {
    indices = r;
    chain = Chain-set_at q.syn_list i zero_syn r fresh chain;
    head = h;
    tail = t;
    holds = contents-set_at q.syn_list i zero_syn r fresh;
    counted = omega (arith, counted);
    marked = omega (
      arith,
      marked,
      pendings-set_at q.syn_list i zero_syn (pending-lt q.syn_list i live),
      ap bit live,
    );
    slots = length-set_at q.syn_list i zero_syn ∙ slots;
    bounded = omega (arith, bounded);
  }

  -- Whether the head is the tail
  ends :
      (r' : List ℕ)
      → r ≡ r'
      → Represents (popped (same_index (some i) q.syn_tail)) (contents q.syn_list r)
  ends [] e =
      let only : same_index (some i) q.syn_tail ≡ true =
        ap (same_index (some i)) (tail ∙ ap (λ r. last_of (i ∷ r)) e) ∙ ==_refl i in
      subst (λ b. Represents (popped b) (contents q.syn_list r)) (sym only)
        (popped-Represents true (ap first (sym e)) (ap last_of (sym e)))
  ends (k ∷ r') e =
      let (t, at_end) = some_end k r' in
      let other : (t == i) ≡ false =
        last_of-apart i t (k ∷ r') (subst (IsFresh i) e fresh) at_end in
      let behind : q.syn_tail ≡ last_of (k ∷ r') = tail ∙ ap (λ r. last_of (i ∷ r)) e in
      let only : same_index (some i) q.syn_tail ≡ false =
        ap (same_index (some i)) (behind ∙ at_end) ∙ flipped t i other in
      subst (λ b. Represents (popped b) (contents q.syn_list r)) (sym only)
        (popped-Represents false next (behind ∙ ap last_of (sym e)))

pub pop_syn-Popped : (q : Listener) (l : List (Addr × ℕ)) → Represents q l → Popped q l (pop_syn q)
unfolding pop_syn
pop_syn-Popped q l v =
    subst (λ l. Popped q l (pop_syn q)) v.holds
      (by_indices v.indices v.chain v.head v.tail v.counted v.marked v.bounded)
  where
    result : Bool → Option ℕ → Bool → Option ((Addr × ℕ) × Listener)
    result empty head only = if empty then none else elim head [
      | none ↦ none
      | some i ↦ some (
        ((slot_at q.syn_list i).sdst, (slot_at q.syn_list i).conn_id),
        record q {
          syn_list = set_at q.syn_list i zero_syn;
          syn_head = if only then none else (slot_at q.syn_list i).next;
          syn_tail = if only then none else q.syn_tail;
          syn_count = q.syn_count - 1;
        },
      )
    ]

    by_indices :
        (r : List ℕ)
        → Chain q.syn_list r
        → q.syn_head ≡ first r
        → q.syn_tail ≡ last_of r
        → q.syn_count ≡ length r
        → pendings q.syn_list ≡ length r
        → length r ≤ q.backlog
        → Popped q
            (contents q.syn_list r)
            (result (q.syn_count == 0) q.syn_head (same_index q.syn_head q.syn_tail))
    by_indices [] chain head tail counted marked bounded =
        let e : (q.syn_count == 0) ≡ true = ground arith in
        ap (λ b. result b q.syn_head (same_index q.syn_head q.syn_tail)) e
    by_indices (i ∷ r) (next, live, fresh, chain) head tail counted marked bounded =
        let e : (q.syn_count == 0) ≡ false = ground arith in
        (
          popped q i r next live fresh chain tail counted marked v.slots bounded
              (same_index (some i) q.syn_tail),
          ap₂ (λ b h. result b h (same_index h q.syn_tail)) e head,
          ends q i r next live fresh chain tail counted marked v.slots bounded r refl,
          refl,
        )
