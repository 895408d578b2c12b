-- ===== src/Xen/Copy.antt =====
-- The page-wise copy of the hypervisor is one contiguous write, and a write seen round the ring.
use legacy_v4v.Prelude.{
  ℕ, zero, suc, ◌+◌, ◌-◌, ◌*◌, ◌/◌, ◌%◌, ◌≤◌, ◌<◌, ◌≡◌, refl, sym, ap, ◌∙◌, Bool, true, List, ◌++◌,
  arith, ltb, take, drop, length, length-append, length-take, length-drop, append_assoc,
  take-append-drop, in_two, in_three, take-append, drop-append, Bool-cases, inl, inr, ltb→lt,
}
use legacy_v4v.Ring.Rotate.{rot, rot-append}
use legacy_v4v.Xen.{page_size, ring_offset, write, copy_pages, copy_to_ring}

module _ {ℓ} {A : Type ℓ} where
  -- A write replaces a part by another of the same length.
  write_parts :
      (a b c s : List A) → length s ≡ length b → write (length a) s (a ++ (b ++ c)) ≡ a ++ (s ++ c)
  write_parts a b c s h = rw (take-append a (b ++ c) (length a) refl) (
      ap (λ x. a ++ (s ++ x))
        (ap (drop (length a + length s)) (sym (append_assoc a b c))
          ∙ drop-append (a ++ b) c _ (omega (arith, length-append a b))))

  pub length-write :
      (p : ℕ) (s xs : List A) → p + length s ≤ length xs → length (write p s xs) ≡ length xs
  length-write p s xs h = omega (
    arith,
    length-append (take p xs) (s ++ drop (p + length s) xs),
    length-append s (drop (p + length s) xs),
    length-take p xs,
    length-drop (p + length s) xs,
  )

  write-write_parts :
      (a b c d s t : List A)
      → length s ≡ length b
      → length t ≡ length c
      → write (length a + length s) t (write (length a) s (a ++ (b ++ (c ++ d))))
        ≡ write (length a) (s ++ t) (a ++ (b ++ (c ++ d)))
  write-write_parts a b c d s t hs ht =
      ap (write (length a + length s) t)
        (write_parts a b (c ++ d) s hs ∙ sym (append_assoc a s (c ++ d)))
      ∙ ap (λ n. write n t ((a ++ s) ++ (c ++ d))) (sym (length-append a s))
      ∙ write_parts (a ++ s) c d t ht
      ∙ append_assoc a s (t ++ d)
      ∙ ap (◌++◌ a) (sym (append_assoc s t d))
      ∙ sym
          (write_parts a (b ++ c) d (s ++ t) (omega (arith, length-append s t, length-append b c)))
      ∙ ap (λ z. write (length a) (s ++ t) (a ++ z)) (append_assoc b c d)

  -- Two writes in a row are one.
  pub write-write :
      (p : ℕ) (s t xs : List A)
      → p + (length s + length t) ≤ length xs
      → write (p + length s) t (write p s xs) ≡ write p (s ++ t) xs
  write-write p s t xs h =
      in_three (λ z. write (p + length s) t (write p s z) ≡ write p (s ++ t) z) p
        (length s + length t) xs h λ a x d ea ex ed. split_again a x d ea ex
    where
      split_again :
          (a x d : List A)
          → length a ≡ p
          → length x ≡ length s + length t
          → write (p + length s) t (write p s (a ++ (x ++ d))) ≡ write p (s ++ t) (a ++ (x ++ d))
      split_again a x d ea ex =
          in_two
            (λ z.
              write (p + length s) t (write p s (a ++ (z ++ d))) ≡ write p (s ++ t) (a ++ (z ++ d)))
            (length s) x (omega arith)
            λ b c eb ec.
              rw (← ea, append_assoc b c d) (write-write_parts a b c d s t (sym eb) (omega arith))

  rot-write_parts :
      (a b c s : List A)
      → length s ≡ length b
      → rot (length a) (write (length a) s (a ++ (b ++ c)))
        ≡ s ++ drop (length s) (rot (length a) (a ++ (b ++ c)))
  rot-write_parts a b c s h =
      ap (rot (length a)) (write_parts a b c s h)
      ∙ rot-append (length a) a (s ++ c) refl
      ∙ append_assoc s c a
      ∙ ap (◌++◌ s) (sym (drop-append b (c ++ a) (length s) h))
      ∙ ap (λ z. s ++ drop (length s) z)
          (sym (append_assoc b c a) ∙ sym (rot-append (length a) a (b ++ c) refl))

  -- Seen from the position written, the write replaces the front.
  pub rot-write :
      (p : ℕ) (s xs : List A)
      → p + length s ≤ length xs
      → rot p (write p s xs) ≡ s ++ drop (length s) (rot p xs)
  rot-write p s xs h =
      in_three (λ z. rot p (write p s z) ≡ s ++ drop (length s) (rot p z)) p (length s) xs h
        λ a b c ea eb ec. rw (← ea) (rot-write_parts a b c s (sym eb))

module _ (mapped : ℕ → Bool) (readable : List ℕ → Bool) (size : ℕ)
    (all_mapped : (i : ℕ) → i * page_size < ring_offset + size → mapped i ≡ true)
    (all_readable : (l : List ℕ) → readable l ≡ true) where
  copy_pages_lem :
      (fuel page offset : ℕ) (src ring : List ℕ)
      → length src < fuel
      → offset < page_size
      → ring_offset ≤ page * page_size + offset
      → page * page_size + offset < ring_offset + size
      → length ring ≡ size
      → page * page_size + offset - ring_offset + length src ≤ length ring
      → copy_pages fuel mapped readable page offset src ring
        ≡ (true, write (page * page_size + offset - ring_offset) src ring)
  unfolding copy_pages
  copy_pages_lem zero page offset src ring h ho hr hp hs hl = absurd (omega arith)
  copy_pages_lem (suc fuel) page offset src ring h ho hr hp hs hl =
      elim (Bool-cases (ltb page_size (offset + length src))) [
        | inr last ↦ rw (last, all_mapped page (omega arith), all_readable src)
        | inl more ↦
            let chunk : ℕ = page_size - offset in
            let at : ℕ = page * page_size + offset - ring_offset in
            let len1 : length (take chunk src) ≡ chunk =
              omega (arith, length-take chunk src, ltb→lt _ _ more) in
            let len2 : length (drop chunk src) ≡ length src - chunk = length-drop chunk src in
            let fits : at + (length (take chunk src) + length (drop chunk src)) ≤ length ring =
              omega (arith, len1, len2, ltb→lt _ _ more) in
            let written : length (write at (take chunk src) ring) ≡ length ring =
              length-write at (take chunk src) ring (omega (arith, fits)) in
            rw (more, all_mapped page (omega arith), all_readable (take chunk src))
              (copy_pages_lem fuel (page + 1) 0 (drop chunk src) (write at (take chunk src) ring)
                  (omega (arith, len2, ltb→lt _ _ more)) (omega arith) (omega arith)
                  (omega (arith, ltb→lt _ _ more)) (written ∙ hs)
                  (omega (arith, len1, len2, ltb→lt _ _ more, written, fits))
                ∙ ap (λ n. (true, write n (drop chunk src) (write at (take chunk src) ring)))
                    (next_page page offset (length (take chunk src)) ho hr len1)
                ∙ ap (λ z. (true, z))
                    (write-write at (take chunk src) (drop chunk src) ring fits
                      ∙ ap (λ z. write at z ring) (take-append-drop chunk src)))
      ]
    where
      next_page :
          (page offset n : ℕ)
          → offset < page_size
          → ring_offset ≤ page * page_size + offset
          → n ≡ page_size - offset
          → (page + 1) * page_size + 0 - ring_offset ≡ page * page_size + offset - ring_offset + n
      next_page page offset n h1 h2 h3 = omega arith

  -- Where every page of the ring can be mapped and every byte read, the loop over the pages is one write.
  pub copy_to_ring-write :
      (p : ℕ) (src ring : List ℕ)
      → length ring ≡ size
      → p < size
      → p + length src ≤ length ring
      → copy_to_ring mapped readable (p + ring_offset) src ring ≡ (true, write p src ring)
  unfolding copy_to_ring
  copy_to_ring-write p src ring hs hp h =
      copy_pages_lem (suc (length src)) ((p + ring_offset) / page_size)
        ((p + ring_offset) % page_size) src ring (omega arith) (omega arith) (omega arith)
        (omega arith) hs (omega arith)
      ∙ ap (λ n. (true, write n src ring)) back
    where
      back :
          (p + ring_offset) / page_size * page_size + (p + ring_offset) % page_size - ring_offset
          ≡ p
      back = omega arith
