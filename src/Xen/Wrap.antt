-- ===== src/Xen/Wrap.antt =====
-- A write that goes round the end of a circular buffer, in two parts.
use legacy_v4v.Prelude.{
  ℕ, ◌+◌, ◌-◌, ◌≤◌, ◌<◌, ◌≡◌, sym, ap, ◌∙◌, List, ◌++◌, arith, take, drop, length, length-append,
  length-take, length-drop, append_assoc, take-append-drop, drop-append, drop-append_le,
}
use legacy_v4v.Ring.Rotate.{rot, advance, rot-advance}
use legacy_v4v.Xen.{write}
use legacy_v4v.Xen.Copy.{length-write, rot-write}

-- A write that goes round the end of the buffer, in two parts, is a write seen from its start.
module _ (p : ℕ) (s xs old rest : List ℕ) (e : rot p xs ≡ old ++ rest)
    (same : length s ≡ length old) (hp : p < length xs) where
  pub rot-write_plain : p + length s ≤ length xs → rot p (write p s xs) ≡ s ++ rest
  rot-write_plain h =
      rot-write p s xs h
      ∙ ap (λ z. s ++ drop (length s) z) e
      ∙ ap (◌++◌ s) (drop-append old rest (length s) same)

  whole_length : length xs ≡ length old + length rest
  whole_length = omega (
    arith,
    ap length e,
    length-append (drop p xs) (take p xs),
    length-append old rest,
    length-take p xs,
    length-drop p xs,
  )

  abbrev pub bte : ℕ
  bte = length xs - p

  abbrev pub first_part : List ℕ
  first_part = write p (take bte s) xs

  rot-first_part :
      length xs < p + length s → rot p first_part ≡ take bte s ++ (drop bte old ++ rest)
  rot-first_part h =
      let len1 : length (take bte s) ≡ bte = omega (arith, length-take bte s) in
      rot-write p (take bte s) xs (omega arith)
      ∙ ap (λ z. take bte s ++ drop (length (take bte s)) z) e
      ∙ ap (λ n. take bte s ++ drop n (old ++ rest)) len1
      ∙ ap (◌++◌ (take bte s)) (drop-append_le bte old rest (omega arith))

  pub rot-write_wrapped :
      length xs < p + length s → rot p (write 0 (drop bte s) first_part) ≡ s ++ rest
  rot-write_wrapped h =
      let len1 : length (take bte s) ≡ bte = omega (arith, length-take bte s) in
      let len2 : length (drop bte s) ≡ length s - bte = length-drop bte s in
      let len3 : length (drop bte old) ≡ length old - bte = length-drop bte old in
      let size1 : length first_part ≡ length xs = length-write p (take bte s) xs (omega arith) in
      let size2 : length (write 0 (drop bte s) first_part) ≡ length xs =
        length-write 0 (drop bte s) first_part (omega (arith, size1, whole_length)) ∙ size1 in
      let at_zero : advance (length first_part) p (length (take bte s)) ≡ 0 =
        ground (arith, size1, len1) in
      let start : rot 0 first_part ≡ drop bte old ++ (rest ++ take bte s) =
        ap (λ n. rot n first_part) (sym at_zero)
        ∙ rot-advance p first_part (take bte s) (drop bte old ++ rest) (rot-first_part h)
            (omega (arith, size1)) (omega (arith, size1, len1))
        ∙ append_assoc (drop bte old) rest (take bte s) in
      let second : rot 0 (write 0 (drop bte s) first_part) ≡ (drop bte s ++ rest) ++ take bte s =
        rot-write 0 (drop bte s) first_part (omega (arith, size1, whole_length))
        ∙ ap (λ z. drop bte s ++ drop (length (drop bte s)) z) start
        ∙ ap (◌++◌ (drop bte s)) (drop-append (drop bte old) _ _ (omega (arith, len2, len3, same)))
        ∙ sym (append_assoc (drop bte s) rest (take bte s)) in
      let len4 : length (drop bte s ++ rest) ≡ p =
        omega (arith, length-append (drop bte s) rest, len2, whole_length, same) in
      let back : advance (length (write 0 (drop bte s) first_part)) 0 (length (drop bte s ++ rest))
          ≡ p =
        ground (arith, size2, len4) in
      ap (λ n. rot n (write 0 (drop bte s) first_part)) (sym back)
      ∙ rot-advance 0 _ (drop bte s ++ rest) (take bte s) second (omega (arith, size2))
          (omega (arith, size2, len4))
      ∙ sym (append_assoc (take bte s) (drop bte s) rest)
      ∙ ap (λ z. z ++ rest) (take-append-drop bte s)
