-- ===== src/Windows/Rings/Counts.antt =====
-- windows/xenv4v: the reference count of a ring.
use legacy_v4v.Prelude.{
  ℕ, suc, ◌-◌, ◌^◌, ◌<◌, ◌≤◌, ◌≡◌, refl, sym, ap, subst, ◌∙◌, Bool, true, false, inl, inr, Option,
  none, some, List, [], ◌∷◌, ◌==◌, ==_iff, if◌then◌else◌, Bool-cases, arith,
}
use mathlib.Core.Option.{none-ne-some}
use legacy_v4v.Abi.{add32, sub32}
use legacy_v4v.Windows.Rings.{
  RingObject, Rings, find_object, update_object, remove_object, add_ref_ring, v4v_release_ring,
  link_to_ring_list,
}

-- One more, and one fewer, who holds the ring at an address
abbrev pub more : ℕ → (ℕ → ℕ) → ℕ → ℕ
more a h b = if a == b then suc (h b) else h b

abbrev pub fewer : ℕ → (ℕ → ℕ) → ℕ → ℕ
fewer a h b = if a == b then h b - 1 else h b

-- A ring that is linked is held, and its count is one more than those who hold it; what is not linked
-- is held by nobody.
abbrev pub Counted : ℕ → Option RingObject → Type 0
Counted n none = n ≡ 0
Counted n (some r) = (r.refc ≡ suc n) × (1 ≤ n)

abbrev pub AllCounted : List (ℕ × RingObject) → (ℕ → ℕ) → Type 0
AllCounted l h = (b : ℕ) → Counted (h b) (find_object b l)

find-update_same :
    (a : ℕ) (r r' : RingObject) (l : List (ℕ × RingObject))
    → find_object a l ≡ some r
    → find_object a (update_object a r' l) ≡ some r'
find-update_same a r r' [] e = absurd (none-ne-some r e)
find-update_same a r r' ((b, x) ∷ l) e = elim (Bool-cases (b == a)) [
  | inl same ↦ rw same refl
  | inr other ↦
      let e' : find_object a l ≡ some r =
        subst (λ t. (if t then some x else find_object a l) ≡ some r) other e in
      rw other (find-update_same a r r' l e')
]

find-update_other :
    (a c : ℕ) (r' : RingObject) (l : List (ℕ × RingObject))
    → (a == c) ≡ false
    → find_object c (update_object a r' l) ≡ find_object c l
find-update_other a c r' [] e = refl
find-update_other a c r' ((b, x) ∷ l) e = elim (Bool-cases (b == a)) [
  | inl same ↦
      let apart : (b == c) ≡ false = ground arith in rw apart (find-update_other a c r' l e)
  | inr other ↦ rw other (ap (λ o. if b == c then some x else o) (find-update_other a c r' l e))
]

find-remove_same : (a : ℕ) (l : List (ℕ × RingObject)) → find_object a (remove_object a l) ≡ none
find-remove_same a [] = refl
find-remove_same a ((b, x) ∷ l) = elim (Bool-cases (b == a)) [
  | inl same ↦ rw same (find-remove_same a l)
  | inr other ↦ rw (other, other) (find-remove_same a l)
]

find-remove_other :
    (a c : ℕ) (l : List (ℕ × RingObject))
    → (a == c) ≡ false
    → find_object c (remove_object a l) ≡ find_object c l
find-remove_other a c [] e = refl
find-remove_other a c ((b, x) ∷ l) e = elim (Bool-cases (b == a)) [
  | inl same ↦
      let apart : (b == c) ≡ false = ground arith in rw (same, apart) (find-remove_other a c l e)
  | inr other ↦ rw other (ap (λ o. if b == c then some x else o) (find-remove_other a c l e))
]

-- A change of one object and of the number of those who hold it
changed :
    (a : ℕ) (l l' : List (ℕ × RingObject)) (h h' : ℕ → ℕ)
    → AllCounted l h
    → Counted (h' a) (find_object a l')
    → ((b : ℕ) → (a == b) ≡ false → (find_object b l' ≡ find_object b l) × (h' b ≡ h b))
    → AllCounted l' h'
changed a l l' h h' all here others b = elim (Bool-cases (a == b)) [
  | inl same ↦ subst (λ b. Counted (h' b) (find_object b l')) ((==_iff a b).0 same) here
  | inr other ↦
      let (e, n) = others b other in
      subst (λ o. Counted (h' b) o) (sym e)
        (subst (λ k. Counted k (find_object b l)) (sym n) (all b))
]

==_refl : (n : ℕ) → (n == n) ≡ true
==_refl n = ground arith

more_here : (a : ℕ) (h : ℕ → ℕ) → more a h a ≡ suc (h a)
more_here a h = ap (λ t. if t then suc (h a) else h a) (==_refl a)

fewer_here : (a : ℕ) (h : ℕ → ℕ) → fewer a h a ≡ h a - 1
fewer_here a h = ap (λ t. if t then h a - 1 else h a) (==_refl a)

-- V4vAddRefRing
pub add_ref_ring-AllCounted :
    (a : ℕ) (s : Rings) (h : ℕ → ℕ)
    → AllCounted s.ring_list h
    → 1 ≤ h a
    → h a < 2 ^ 32 - 2
    → AllCounted (add_ref_ring a s).1.ring_list (more a h)
unfolding add_ref_ring
add_ref_ring-AllCounted a s h all held small = by_object (find_object a s.ring_list) refl (all a)
  where
    by_object :
        (o : Option RingObject)
        → find_object a s.ring_list ≡ o
        → Counted (h a) o
        → AllCounted
            (elim o as (λ o. ℕ × Rings) [
              | none ↦ (0, s)
              | some r ↦ (
                add32 r.refc 1,
                record s {
                  ring_list = update_object a (record r { refc = add32 r.refc 1 }) s.ring_list;
                },
              )
            ]).1.ring_list
            (more a h)
    by_object none e c = absurd (omega arith)
    by_object (some r) e (c, k) =
        let r' : RingObject = record r { refc = add32 r.refc 1 } in
        let n : add32 r.refc 1 ≡ suc (suc (h a)) = omega arith in
        changed a s.ring_list (update_object a r' s.ring_list) h (more a h) all
          (subst (Counted (more a h a)) (sym (find-update_same a r r' s.ring_list e))
            (n ∙ ap suc (sym (more_here a h)), omega (arith, more_here a h)))
          (λ b other. (
            find-update_other a b r' s.ring_list other,
            ap (λ t. if t then suc (h b) else h b) other,
          ))

-- V4vReleaseRing
pub v4v_release_ring-AllCounted :
    (a : ℕ) (s : Rings) (h : ℕ → ℕ)
    → AllCounted s.ring_list h
    → 1 ≤ h a
    → h a < 2 ^ 32 - 1
    → AllCounted (v4v_release_ring a s).1.ring_list (fewer a h)
unfolding v4v_release_ring
v4v_release_ring-AllCounted a s h all held small =
    by_object (find_object a s.ring_list) refl (all a)
  where
    freed : RingObject → Rings
    freed r = record s {
      unregistered = if r.registered then a ∷ s.unregistered else s.unregistered;
    }

    released : RingObject → ℕ → Bool → Bool → ℕ × Rings
    released r count last none_left =
        if last
        then (0, record (freed r) { ring_list = remove_object a s.ring_list })
        else if none_left
        then (
          0,
          record (freed r) { ring_list = update_object a (record r { refc = count }) s.ring_list },
        )
        else (
          count,
          record s { ring_list = update_object a (record r { refc = count }) s.ring_list },
        )

    by_count :
        (r : RingObject)
        → find_object a s.ring_list ≡ some r
        → sub32 r.refc 1 ≡ h a
        → (last : Bool) → (sub32 r.refc 1 == 1) ≡ last
        → AllCounted
            (released r (sub32 r.refc 1) last (sub32 r.refc 1 == 0)).1.ring_list
            (fewer a h)
    by_count r e n true t =
        changed a s.ring_list (remove_object a s.ring_list) h (fewer a h) all
          (subst (Counted (fewer a h a)) (sym (find-remove_same a s.ring_list))
            (ground (arith, fewer_here a h)))
          (λ b other.
            (find-remove_other a b s.ring_list other, ap (λ t. if t then h b - 1 else h b) other))
    by_count r e n false t =
        let r' : RingObject = record r { refc = sub32 r.refc 1 } in
        let held_still : (sub32 r.refc 1 == 0) ≡ false = ground arith in
        rw held_still (
          changed a s.ring_list (update_object a r' s.ring_list) h (fewer a h) all
            (subst (Counted (fewer a h a)) (sym (find-update_same a r r' s.ring_list e))
              (ground (arith, fewer_here a h), ground (arith, fewer_here a h)))
            (λ b other. (
              find-update_other a b r' s.ring_list other,
              ap (λ t. if t then h b - 1 else h b) other,
            )))

    by_object :
        (o : Option RingObject)
        → find_object a s.ring_list ≡ o
        → Counted (h a) o
        → AllCounted
            (elim o as (λ o. ℕ × Rings) [
              | none ↦ (0, s)
              | some r ↦ released r (sub32 r.refc 1) (sub32 r.refc 1 == 1) (sub32 r.refc 1 == 0)
            ]).1.ring_list
            (fewer a h)
    by_object none e c = absurd (omega arith)
    by_object (some r) e (c, k) = by_count r e (omega arith) (sub32 r.refc 1 == 1) refl

-- V4vLinkToRingList, for an object that nobody holds yet
pub link_to_ring_list-AllCounted :
    (a : ℕ) (r : RingObject) (s : Rings) (h : ℕ → ℕ)
    → AllCounted s.ring_list h
    → find_object a s.ring_list ≡ none
    → r.refc ≡ 1
    → AllCounted (link_to_ring_list a r s).ring_list (more a h)
unfolding link_to_ring_list
link_to_ring_list-AllCounted a r s h all new one =
    let r' : RingObject = record r { refc = add32 r.refc 1 } in
    let nobody : h a ≡ 0 = subst (Counted (h a)) new (all a) in
    let here : find_object a ((a, r') ∷ s.ring_list) ≡ some r' =
      ap (λ t. if t then some r' else find_object a s.ring_list) (==_refl a) in
    changed a s.ring_list ((a, r') ∷ s.ring_list) h (more a h) all
      (subst (Counted (more a h a)) (sym here)
        (omega (arith, more_here a h), omega (arith, more_here a h)))
      (λ b other. (
        ap (λ t. if t then some r' else find_object b s.ring_list) other,
        ap (λ t. if t then suc (h b) else h b) other,
      ))
