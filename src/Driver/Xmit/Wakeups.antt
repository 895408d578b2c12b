-- ===== src/Driver/Xmit/Wakeups.antt =====
-- linux/v4v.c, "pending xmits": the queue after a wakeup was asked for or called off.
use legacy_v4v.Prelude.{
  ℕ, suc, ◌≤◌, Bool, true, false, ◌&&◌, ◌||◌, not, ◌≡◌, refl, sym, ap, ◌∙◌, Option, none, some,
  List, [], ◌∷◌, ◌++◌, arith, ◌==◌, if◌then◌else◌, length, length-append, Bool-cases, inl, inr,
  subst, ==_iff,
}
use legacy_v4v.Abi.{Addr, RingId, same_id, same_addr}
use legacy_v4v.Driver.{PendingXmit, Driver, Env, kmalloc}
use legacy_v4v.Driver.Xmit.{
  change_first, queue_wakeup, matches_private, matches_sponsor, private_entry, sponsor_entry,
  xmit_queue_wakeup_private, xmit_queue_wakeup_sponsor,
}

-- The room that the entries of a kind wait for, and the other entries, both in order.
abbrev pub lens : (PendingXmit → Bool) → List PendingXmit → List ℕ
lens test [] = []
lens test (p ∷ l) = if test p then p.len ∷ lens test l else lens test l

abbrev pub others : (PendingXmit → Bool) → List PendingXmit → List PendingXmit
others test [] = []
others test (p ∷ l) = if test p then others test l else p ∷ others test l

abbrev pub IsCounted : Driver → Type 0
IsCounted d = d.pending_xmit_count ≡ length d.pending_xmit_list

-- At most one entry of the kind.
abbrev pub IsSingle : (PendingXmit → Bool) → Driver → Type 0
IsSingle test d = length (lens test d.pending_xmit_list) ≤ 1

abbrev is_none : List ℕ → Bool
is_none [] = true
is_none (n ∷ l) = false

-- The room that is waited for afterwards: nothing if the wakeup is called off, and nothing if there
-- was no entry and no memory for one.
abbrev pub wanted : Bool → ℕ → List ℕ → Bool → List ℕ
wanted delete len old got = if delete || (is_none old && not got) then [] else len ∷ []

-- The effect on the queue.
pub record Requeued (test : PendingXmit → Bool) (wanted : List ℕ) (d d' : Driver) : Type 0 where
  pub counted : IsCounted d'
  pub wants : lens test d'.pending_xmit_list ≡ wanted
  pub kept : others test d'.pending_xmit_list ≡ others test d.pending_xmit_list

module _ (test : PendingXmit → Bool) where
  abbrev Dropped : List PendingXmit → Option (List PendingXmit) → Type 0
  Dropped l none = lens test l ≡ []
  Dropped l (some l') =
      (n : ℕ) × (lens test l ≡ n ∷ lens test l')
      × (others test l' ≡ others test l)
      × (length l ≡ suc (length l'))

  abbrev Resized : ℕ → List PendingXmit → Option (List PendingXmit) → Type 0
  Resized m l none = lens test l ≡ []
  Resized m l (some l') =
      (n : ℕ) × (ns : List ℕ) × (lens test l ≡ n ∷ ns)
      × (lens test l' ≡ m ∷ ns)
      × (others test l' ≡ others test l)
      × (length l' ≡ length l)

  Dropped-later :
      (p : PendingXmit) (l : List PendingXmit) (o : Option (List PendingXmit))
      → test p ≡ false
      → Dropped l o
      → Dropped (p ∷ l) (elim o [ none ↦ none | some l' ↦ some (p ∷ l') ])
  Dropped-later p l none e h = rw e h
  Dropped-later p l (some l') e (n, h, k, c) = rw e (n, h, ap (◌∷◌ p) k, ap suc c)

  Dropped-now : (p : PendingXmit) (l : List PendingXmit) → test p ≡ true → Dropped (p ∷ l) (some l)
  Dropped-now p l e = rw e (p.len, refl, refl, refl)

  drop_lem : (l : List PendingXmit) → Dropped l (change_first test (λ p. []) l)
  unfolding change_first
  drop_lem [] = refl
  drop_lem (p ∷ l) = elim (Bool-cases (test p)) [
    | inl e ↦
        subst
          (λ b. Dropped (p ∷ l) (
            if b
            then some l
            else (elim (change_first test (λ p. []) l) [ none ↦ none | some l' ↦ some (p ∷ l') ])))
          (sym e) (Dropped-now p l e)
    | inr e ↦
        subst
          (λ b. Dropped (p ∷ l) (
            if b
            then some l
            else (elim (change_first test (λ p. []) l) [ none ↦ none | some l' ↦ some (p ∷ l') ])))
          (sym e) (Dropped-later p l (change_first test (λ p. []) l) e (drop_lem l))
  ]

  module _ (m : ℕ) (stable : (p : PendingXmit) → test (record p { len = m }) ≡ test p) where
    Resized-later :
        (p : PendingXmit) (l : List PendingXmit) (o : Option (List PendingXmit))
        → test p ≡ false
        → Resized m l o
        → Resized m (p ∷ l) (elim o [ none ↦ none | some l' ↦ some (p ∷ l') ])
    Resized-later p l none e h = rw e h
    Resized-later p l (some l') e (n, ns, h, h', k, c) = rw e (n, ns, h, h', ap (◌∷◌ p) k, ap suc c)

    Resized-now :
        (p : PendingXmit) (l : List PendingXmit)
        → test p ≡ true
        → Resized m (p ∷ l) (some (record p { len = m } ∷ l))
    Resized-now p l e =
        let e' = stable p ∙ e in rw e (rw e' (p.len, lens test l, refl, refl, refl, refl))

    resize_lem :
        (l : List PendingXmit) → Resized m l (change_first test (λ p. record p { len = m } ∷ []) l)
    unfolding change_first
    resize_lem [] = refl
    resize_lem (p ∷ l) =
        let rest = change_first test (λ p. record p { len = m } ∷ []) l in
        elim (Bool-cases (test p)) [
          | inl e ↦
              subst
                (λ b. Resized m (p ∷ l) (
                  if b
                  then some (record p { len = m } ∷ l)
                  else (elim rest [ none ↦ none | some l' ↦ some (p ∷ l') ])))
                (sym e) (Resized-now p l e)
          | inr e ↦
              subst
                (λ b. Resized m (p ∷ l) (
                  if b
                  then some (record p { len = m } ∷ l)
                  else (elim rest [ none ↦ none | some l' ↦ some (p ∷ l') ])))
                (sym e) (Resized-later p l rest e (resize_lem l))
        ]

  lens-append :
      (l : List PendingXmit) (p : PendingXmit)
      → test p ≡ true
      → lens test (l ++ (p ∷ [])) ≡ lens test l ++ (p.len ∷ [])
  lens-append [] p e = rw e refl
  lens-append (q ∷ l) p e = elim (Bool-cases (test q)) [
    | inl h ↦ rw h (ap (◌∷◌ q.len) (lens-append l p e))
    | inr h ↦ rw h (lens-append l p e)
  ]

  others-append :
      (l : List PendingXmit) (p : PendingXmit)
      → test p ≡ true
      → others test (l ++ (p ∷ [])) ≡ others test l
  others-append [] p e = rw e refl
  others-append (q ∷ l) p e = elim (Bool-cases (test q)) [
    | inl h ↦ rw h (others-append l p e)
    | inr h ↦ rw h (ap (◌∷◌ q) (others-append l p e))
  ]

  single_rest : (n : ℕ) (ns old : List ℕ) → old ≡ n ∷ ns → length old ≤ 1 → ns ≡ []
  single_rest n [] old e h = refl
  single_rest n (m ∷ ns) old e h = absurd (omega (arith, ap length e))

  module _ (env : Env) (entry : PendingXmit) (own : test entry ≡ true)
      (stable : (p : PendingXmit) → test (record p { len = entry.len }) ≡ test p) (d : Driver)
      (counted : IsCounted d) (single : IsSingle test d) where
    abbrev Requeues : Bool → Type 0
    Requeues delete =
        (d' : Driver) × (queue_wakeup env test entry delete d ≡ some (tt, d'))
        × Requeued test
            (wanted delete entry.len (lens test d.pending_xmit_list)
              (env.allocated (kmalloc ∷ d.trace)))
            d d'

    called_off :
        (o : Option (List PendingXmit))
        → change_first test (λ p. []) d.pending_xmit_list ≡ o
        → Dropped d.pending_xmit_list o
        → Requeues true
    unfolding queue_wakeup
    called_off none e h = rw e (d, refl, record { counted = counted; wants = h; kept = refl })
    called_off (some l) e (n, h, k, c) = rw e (
      _,
      refl,
      record {
        counted = omega arith;
        wants = single_rest n (lens test l) (lens test d.pending_xmit_list) h single;
        kept = k;
      },
    )

    asked :
        (o : Option (List PendingXmit))
        → change_first test (λ p. record p { len = entry.len } ∷ []) d.pending_xmit_list ≡ o
        → Resized entry.len d.pending_xmit_list o
        → Requeues false
    unfolding queue_wakeup
    asked (some l) e (n, ns, h, h', k, c) = rw e (
        rw h (
          _,
          refl,
          record {
            counted = omega arith;
            wants =
                h' ∙ ap (◌∷◌ entry.len) (single_rest n ns (lens test d.pending_xmit_list) h single);
            kept = k;
          },
        ))
    asked none e h = rw e (
        rw h (elim (Bool-cases (env.allocated (kmalloc ∷ d.trace))) [
          | inr g ↦ rw g (_, refl, record { counted = counted; wants = h; kept = refl })
          | inl g ↦ rw g (
            _,
            refl,
            record {
              counted = omega (arith, length-append d.pending_xmit_list (entry ∷ []));
              wants = lens-append d.pending_xmit_list entry own ∙ ap (λ x. x ++ (entry.len ∷ [])) h;
              kept = others-append d.pending_xmit_list entry own;
            },
          )
        ]))

    queue_wakeup_lem : (delete : Bool) → Requeues delete
    queue_wakeup_lem true = called_off _ refl (drop_lem d.pending_xmit_list)
    queue_wakeup_lem false = asked _ refl (resize_lem entry.len stable d.pending_xmit_list)

==_refl : (n : ℕ) → (n == n) ≡ true
==_refl n = (==_iff n n).1 refl

same_addr_refl : (x : Addr) → same_addr x x ≡ true
same_addr_refl x = rw (==_refl x.port) (rw (==_refl x.domain) refl)

same_id_refl : (x : RingId) → same_id x x ≡ true
same_id_refl x = rw (same_addr_refl x.addr) (==_refl x.partner)

matches_private_refl :
    (from : RingId) (conid : ℕ) (to : Addr) (len : ℕ)
    → matches_private from conid to (private_entry from conid to len) ≡ true
matches_private_refl from conid to len =
    rw (==_refl conid) (rw (same_id_refl from) (same_addr_refl to))

matches_sponsor_refl :
    (from : RingId) (to : Addr) (len : ℕ)
    → matches_sponsor from to (sponsor_entry from to len) ≡ true
matches_sponsor_refl from to len = rw (same_id_refl from) (same_addr_refl to)

-- If `pending_xmit_count` is the length of the queue, and the queue has at most one wakeup for a
-- private's connection, xmit_queue_wakeup_private keeps this. It calls the wakeup off, or sets the
-- room that it waits for; only if there was none and there is no memory for one does it stay away.
-- All other entries stay, in order.
pub xmit_queue_wakeup_private_lem :
    (env : Env) (from : RingId) (conid : ℕ) (to : Addr) (len : ℕ) (delete : Bool) (d : Driver)
    → IsCounted d
    → IsSingle (matches_private from conid to) d
    → (d' : Driver) × (xmit_queue_wakeup_private env from conid to len delete d ≡ some (tt, d'))
      × Requeued
          (matches_private from conid to)
          (wanted delete len
            (lens (matches_private from conid to) d.pending_xmit_list)
            (env.allocated (kmalloc ∷ d.trace)))
          d
          d'
unfolding xmit_queue_wakeup_private
xmit_queue_wakeup_private_lem env from conid to len delete d counted single =
    queue_wakeup_lem (matches_private from conid to) env (private_entry from conid to len)
      (matches_private_refl from conid to len) (λ p. refl) d counted single delete

-- If `pending_xmit_count` is the length of the queue, and the queue has at most one wakeup for a
-- ring's sponsor, xmit_queue_wakeup_sponsor keeps this. It calls the wakeup off, or sets the room
-- that it waits for; only if there was none and there is no memory for one does it stay away. All
-- other entries stay, in order.
pub xmit_queue_wakeup_sponsor_lem :
    (env : Env) (from : RingId) (to : Addr) (len : ℕ) (delete : Bool) (d : Driver)
    → IsCounted d
    → IsSingle (matches_sponsor from to) d
    → (d' : Driver) × (xmit_queue_wakeup_sponsor env from to len delete d ≡ some (tt, d'))
      × Requeued
          (matches_sponsor from to)
          (wanted delete len
            (lens (matches_sponsor from to) d.pending_xmit_list)
            (env.allocated (kmalloc ∷ d.trace)))
          d
          d'
unfolding xmit_queue_wakeup_sponsor
xmit_queue_wakeup_sponsor_lem env from to len delete d counted single =
    queue_wakeup_lem (matches_sponsor from to) env (sponsor_entry from to len)
      (matches_sponsor_refl from to len) (λ p. refl) d counted single delete
