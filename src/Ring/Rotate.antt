-- ===== src/Ring/Rotate.antt =====
-- A circular buffer read from a position on: `rot p xs` lists all its items, those from `p` first.
use legacy_v4v.Prelude.{
  ℕ, ◌+◌, ◌-◌, ◌≤◌, ◌<◌, ◌≡◌, sym, refl, ap, ◌∙◌, List, ◌++◌, append_assoc, arith, take, drop,
  length, length-append, length-take, length-drop, take-append, drop-append, split, ltb,
  if◌then◌else◌, Bool-cases, inl, inr, ltb→lt, ltb→le,
}

module _ {ℓ} {A : Type ℓ} where
  abbrev pub rot : ℕ → List A → List A
  rot p xs = drop p xs ++ take p xs

  pub length-rot : (p : ℕ) (xs : List A) → length (rot p xs) ≡ length xs
  length-rot p xs =
      omega (arith, length-append (drop p xs) (take p xs), length-take p xs, length-drop p xs)

  pub rot-append : (p : ℕ) (xs ys : List A) → p ≡ length xs → rot p (xs ++ ys) ≡ ys ++ xs
  rot-append p xs ys h = rw (drop-append xs ys p h, take-append xs ys p h)

  -- Cuts of two equal lists at one length are equal.
  pub take-of-append : (l r l' r' : List A) → l ++ r ≡ l' ++ r' → length l ≡ length l' → l ≡ l'
  take-of-append l r l' r' e h =
      sym (take-append l r (length l) refl)
      ∙ ap (take (length l)) e
      ∙ take-append l' r' (length l) h

  pub drop-of-append : (l r l' r' : List A) → l ++ r ≡ l' ++ r' → length l ≡ length l' → r ≡ r'
  drop-of-append l r l' r' e h =
      sym (drop-append l r (length l) refl)
      ∙ ap (drop (length l)) e
      ∙ drop-append l' r' (length l) h

-- The position `n` further round a buffer of `size` items.
abbrev pub advance : ℕ → ℕ → ℕ → ℕ
advance size p n = if ltb (p + n) size then p + n else p + n - size

module _ {ℓ} {A : Type ℓ} where
  -- The buffer in three parts: no wrap, and a wrap.
  rot_three_low :
      (a c d l r : List A)
      → rot (length a) (a ++ (c ++ d)) ≡ l ++ r
      → length c ≡ length l
      → rot (length a + length l) (a ++ (c ++ d)) ≡ r ++ l
  rot_three_low a c d l r e h =
      let whole : c ++ (d ++ a) ≡ l ++ r =
        sym (append_assoc c d a) ∙ sym (rot-append (length a) a (c ++ d) refl) ∙ e in
      let at_l : c ≡ l = take-of-append c (d ++ a) l r whole h in
      let at_r : d ++ a ≡ r = drop-of-append c (d ++ a) l r whole h in
      rw (← at_l, ← at_r, ← append_assoc a c d)
        (rot-append _ (a ++ c) d (sym (length-append a c)) ∙ sym (append_assoc d a c))

  rot_three_high :
      (a b c l r : List A) (p : ℕ)
      → p ≡ length a + length b
      → rot p (a ++ (b ++ c)) ≡ l ++ r
      → length l ≡ length c + length a
      → rot (length a) (a ++ (b ++ c)) ≡ r ++ l
  rot_three_high a b c l r p ep e h =
      let cut : rot p (a ++ (b ++ c)) ≡ c ++ (a ++ b) =
        rw (← append_assoc a b c) (rot-append p (a ++ b) c (omega (arith, length-append a b))) in
      let whole : (c ++ a) ++ b ≡ l ++ r = append_assoc c a b ∙ sym cut ∙ e in
      let lens : length (c ++ a) ≡ length l = omega (arith, length-append c a) in
      let at_l : c ++ a ≡ l = take-of-append (c ++ a) b l r whole lens in
      let at_r : b ≡ r = drop-of-append (c ++ a) b l r whole lens in
      rw (← at_l, ← at_r) (rot-append (length a) a (b ++ c) refl ∙ append_assoc b c a)

  -- Going on by the length of a part moves that part from the front to the back.
  pub rot-advance :
      (p : ℕ) (xs l r : List A)
      → rot p xs ≡ l ++ r
      → p < length xs
      → length l ≤ length xs
      → rot (advance (length xs) p (length l)) xs ≡ r ++ l
  rot-advance p xs l r e hp hl = elim (Bool-cases (ltb (p + length l) (length xs))) [
    | inl low ↦ rw low (low_case (ltb→lt _ _ low))
    | inr high ↦ rw high (high_case (ltb→le _ _ high))
  ]
    where
      low_case : p + length l < length xs → rot (p + length l) xs ≡ r ++ l
      low_case h =
          let (a, b, exs, la, lb) = split p xs (omega arith) in
          let (c, d, eb, lc, ld) = split (length l) b (omega arith) in
          let parts : xs ≡ a ++ (c ++ d) = exs ∙ ap (◌++◌ a) eb in
          let start : rot (length a) (a ++ (c ++ d)) ≡ l ++ r = rw (← parts, la) e in
          rw (← la, parts) (rot_three_low a c d l r start lc)

      high_case : length xs ≤ p + length l → rot (p + length l - length xs) xs ≡ r ++ l
      high_case h =
          let (a, b, exs, la, lb) = split (p + length l - length xs) xs (omega arith) in
          let (c, d, eb, lc, ld) = split (length xs - length l) b (omega arith) in
          let parts : xs ≡ a ++ (c ++ d) = exs ∙ ap (◌++◌ a) eb in
          let start : rot p (a ++ (c ++ d)) ≡ l ++ r = rw (← parts) e in
          rw (← la, parts) (rot_three_high a c d l r p (omega arith) start (omega arith))
