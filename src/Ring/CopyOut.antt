-- ===== src/Ring/CopyOut.antt =====
-- v4v_copy_out takes the oldest message: what it hands back, and what it leaves.
use legacy_v4v.Prelude.{
  ℕ, ◌+◌, ◌-◌, ◌%◌, ◌≤◌, ◌<◌, ◌≡◌, sym, refl, ap, ◌∙◌, Bool, true, false, some, List, [], ◌++◌,
  arith, take, drop, length, ltb, ◌==◌, if◌then◌else◌, length-append, length-take, length-drop,
  append_assoc, take-append-drop, take-append_le, drop-append_le, take-append, drop-append,
  take_all, take-take, take-append-drop_add, Bool-cases, ltb→lt, ltb→le, le→ltb, inl, inr, not,
  ◌&&◌, append-nil, ap₂, ◌⊎◌, ==_iff,
}
use legacy_v4v.Abi.{MessageHeader, header_size, read_header, add32, sub32, roundup}
use legacy_v4v.Ring.{
  V4vRing, Received, bytes_to_read, wrap_end, slice, finish, copy_from, copy_payload, copy_message,
  copy_out,
}
use legacy_v4v.Ring.Rotate.{rot, advance, rot-advance}
use legacy_v4v.Ring.Frames.{
  IsValid, Message, Frame, frame_size, unrolled, contents, bytes_to_read-lt, length-Frame,
  read_header-append,
}

-- The first `n` items from position `p` on do not pass the end.
slice-rot : (p n : ℕ) (xs : List ℕ) → p + n ≤ length xs → take n (drop p xs) ≡ take n (rot p xs)
slice-rot p n xs h =
    sym (take-append_le n (drop p xs) (take p xs) (omega (arith, length-drop p xs)))

-- The items from position 0 on are those that come after the end.
slice-rot_wrapped :
    (p n : ℕ) (xs : List ℕ)
    → p ≤ length xs
    → n ≤ p
    → take n xs ≡ take n (drop (length xs - p) (rot p xs))
slice-rot_wrapped p n xs hp hn =
    rw (drop-append (drop p xs) (take p xs) (length xs - p) (sym (length-drop p xs)))
      (sym (take-take n p xs hn))

-- `(t < len) ? t : len` bytes of a payload of `len` bytes are its first `t`.
take_capped :
    (t : ℕ) (xs : List ℕ) → take (if ltb t (length xs) then t else length xs) xs ≡ take t xs
take_capped t xs = elim (Bool-cases (ltb t (length xs))) [
  | inl h ↦ rw h
  | inr h ↦ rw h (take_all _ xs (omega arith) ∙ sym (take_all t xs (ground arith)))
]

-- As many bytes are unread as v4v_ring_bytes_to_read says.
pub length-contents : (r : V4vRing) → IsValid r → length (contents r) ≡ bytes_to_read r
length-contents r v = omega (
  arith,
  length-take (bytes_to_read r) (unrolled r),
  length-append (drop r.rx_ptr r.ring) (take r.rx_ptr r.ring),
  length-take r.rx_ptr r.ring,
  length-drop r.rx_ptr r.ring,
  v.storage,
  v.rx_in,
  bytes_to_read-lt v,
)

module _ (r : V4vRing) (v : IsValid r) (m : Message) (rest : List ℕ)
    (f : Frame m (contents r) rest) where
  frame_fits : frame_size m + length rest ≡ bytes_to_read r
  frame_fits = omega (arith, length-Frame m (contents r) rest f, length-contents r v)

  unused : List ℕ
  unused = drop (bytes_to_read r) (unrolled r)

  unrolled-frame : unrolled r ≡ f.header ++ (m.payload ++ (f.padding ++ (rest ++ unused)))
  unfolding unused
  unrolled-frame =
      sym (take-append-drop (bytes_to_read r) (unrolled r))
      ∙ ap (λ c. c ++ drop (bytes_to_read r) (unrolled r)) f.layout
      ∙ simp append_assoc

  -- The header is read whole, in front of the end of the ring.
  header_here : read_header (drop r.rx_ptr r.ring) ≡ read_header f.header
  header_here =
      sym (
        read_header-append (drop r.rx_ptr r.ring) (take r.rx_ptr r.ring) (
          omega
            (arith, length-drop r.rx_ptr r.ring, v.storage, v.rx_in, v.rx_aligned, v.len_aligned)))
      ∙ ap read_header unrolled-frame
      ∙ read_header-append f.header _ (omega (arith, f.is_header.size))

  start : ℕ
  start = wrap_end r (add32 r.rx_ptr header_size)

  start-advance : start ≡ advance (length r.ring) r.rx_ptr (length f.header)
  unfolding start
  start-advance =
      ground (arith, v.storage, v.rx_in, v.small, f.is_header.size, v.rx_aligned, v.len_aligned)

  start_bounds : (start < r.len) × (start % 16 ≡ 0)
  unfolding start
  start_bounds = ground (arith, v.storage, v.rx_in, v.small, v.rx_aligned, v.len_aligned)

  at_payload : rot start r.ring ≡ m.payload ++ ((f.padding ++ (rest ++ unused)) ++ f.header)
  at_payload = rw start-advance (
      rot-advance r.rx_ptr r.ring f.header _ unrolled-frame (omega (arith, v.storage, v.rx_in))
        (omega (arith, frame_fits, bytes_to_read-lt v, f.is_header.size, v.storage))
      ∙ append_assoc m.payload _ f.header)

  frame-append : unrolled r ≡ (f.header ++ (m.payload ++ f.padding)) ++ (rest ++ unused)
  frame-append = unrolled-frame ∙ simp append_assoc

  length-frame_bytes : length (f.header ++ (m.payload ++ f.padding)) ≡ frame_size m
  length-frame_bytes = omega (
    arith,
    length-append f.header (m.payload ++ f.padding),
    length-append m.payload f.padding,
    f.is_header.size,
    f.padding_size,
  )

  abbrev pub next : ℕ
  next = advance r.len r.rx_ptr (frame_size m)

  at_next : rot next r.ring ≡ (rest ++ unused) ++ (f.header ++ (m.payload ++ f.padding))
  at_next =
      rw (← v.storage, ← length-frame_bytes)
        (rot-advance r.rx_ptr r.ring (f.header ++ (m.payload ++ f.padding)) (rest ++ unused)
          frame-append (omega (arith, v.storage, v.rx_in))
          (omega (arith, length-frame_bytes, frame_fits, bytes_to_read-lt v, v.storage)))

  slice-start :
      (k : ℕ) → k ≤ length m.payload → start + k ≤ r.len → slice r start k ≡ take k m.payload
  slice-start k h in_ring =
      slice-rot start k r.ring (omega (arith, v.storage))
      ∙ ap (take k) at_payload
      ∙ take-append_le k m.payload _ h

  slice_zero :
      (k : ℕ)
      → k + (r.len - start) ≤ length m.payload
      → slice r 0 k ≡ take k (drop (r.len - start) m.payload)
  slice_zero k h =
      slice-rot_wrapped start k r.ring (omega (arith, v.storage, start_bounds))
        (omega (arith, frame_fits, bytes_to_read-lt v, start_bounds))
      ∙ ap (λ c. take k (drop (length r.ring - start) c)) at_payload
      ∙ rw v.storage (
          ap (take k) (drop-append_le (r.len - start) m.payload _ (omega arith))
          ∙ take-append_le k _ _ (omega (arith, length-drop (r.len - start) m.payload)))

  -- What is stored at `_buf`.
  abbrev pub stored : Bool → ℕ → List ℕ
  stored b t = if b then take t m.payload else []

  abbrev last_copy : Bool → ℕ → ℕ → ℕ → List ℕ
  last_copy b t rxp len =
      if b && not (t == 0) then slice r rxp (if ltb t len then t else len) else []

  -- Nothing is skipped by the test `buf && t`.
  last_copy-slice :
      (t rxp len : ℕ) → last_copy true t rxp len ≡ slice r rxp (if ltb t len then t else len)
  last_copy-slice t rxp len = elim (Bool-cases (t == 0)) [
    | inl e ↦ rw (e, (==_iff t 0).0 e) (none_left (Bool-cases (ltb 0 len)))
    | inr e ↦ rw e
  ]
    where
      none_left :
          (ltb 0 len ≡ true) ⊎ (ltb 0 len ≡ false) → [] ≡ slice r rxp (if ltb 0 len then 0 else len)
      none_left (inl h) = rw h
      none_left (inr h) = rw h (let e : len ≡ 0 = ground arith in rw e)

  stored_plain :
      (b : Bool) (t : ℕ)
      → start + length m.payload ≤ r.len
      → [] ++ last_copy b t start (length m.payload) ≡ stored b t
  stored_plain false t h = refl
  stored_plain true t h =
      last_copy-slice t start (length m.payload)
      ∙ slice-start (if ltb t (length m.payload) then t else length m.payload) (ground arith)
          (ground arith)
      ∙ take_capped t m.payload

  stored_short :
      (b : Bool) (t n : ℕ)
      → t < r.len - start
      → r.len < start + length m.payload
      → (if b then slice r start t else []) ++ last_copy b 0 0 n ≡ stored b t
  stored_short false t n ht h = refl
  stored_short true t n ht h =
      append-nil (slice r start t) ∙ slice-start t (omega arith) (omega arith)

  stored_wrapped :
      (b : Bool) (t : ℕ)
      → r.len - start ≤ t
      → r.len < start + length m.payload
      → (if b then slice r start (r.len - start) else [])
          ++ last_copy b (t - (r.len - start)) 0 (length m.payload - (r.len - start))
        ≡ stored b t
  stored_wrapped false t ht h = refl
  stored_wrapped true t ht h =
      let bte : ℕ = r.len - start in
      let left : ℕ = length m.payload - bte in
      let k : ℕ = if ltb (t - bte) left then t - bte else left in
      let fits : k ≤ left = ground arith in
      let tail_len : length (drop bte m.payload) ≡ left = length-drop bte m.payload in
      ap₂ ◌++◌ (slice-start bte (omega arith) (omega (arith, start_bounds))) (
        last_copy-slice (t - bte) 0 left
        ∙ slice_zero k (omega (arith, fits))
        ∙ ap (λ l. take (if ltb (t - bte) l then t - bte else l) (drop bte m.payload))
            (sym tail_len)
        ∙ take_capped (t - bte) (drop bte m.payload))
      ∙ take-append-drop_add bte (t - bte) m.payload
      ∙ let e : bte + (t - bte) ≡ t = omega arith in rw e

  abbrev pub consumed : Bool → V4vRing
  consumed c = if c then record r { rx_ptr = next } else r

  abbrev pub received : MessageHeader → Bool → ℕ → Received
  received mh b t = record {
    ret = length m.payload;
    from = mh.source;
    protocol = mh.protocol;
    buf = stored b t;
  }

  finish_lem :
      (mh : MessageHeader) (b c : Bool) (t' t rxp len : ℕ) (copied : List ℕ)
      → sub32 mh.len header_size ≡ length m.payload
      → copied ++ last_copy b t rxp len ≡ stored b t'
      → wrap_end r (add32 rxp (roundup len)) ≡ next
      → finish r mh b c t rxp len copied ≡ (received mh b t', consumed c)
  unfolding finish
  finish_lem mh b c t' t rxp len copied er eo ep = rw (er, eo, ep)

  next_plain :
      start + length m.payload ≤ r.len
      → wrap_end r (add32 start (roundup (length m.payload))) ≡ next
  unfolding start
  next_plain h =
      ground (arith, frame_fits, bytes_to_read-lt v, v.rx_in, v.small, v.rx_aligned, v.len_aligned)

  next_wrapped :
      r.len < start + length m.payload
      → wrap_end r (add32 0 (roundup (length m.payload - (r.len - start)))) ≡ next
  unfolding start
  next_wrapped h =
      ground (arith, frame_fits, bytes_to_read-lt v, v.rx_in, v.small, v.rx_aligned, v.len_aligned)

  copy_from_lem :
      (mh : MessageHeader) (b : Bool) (t : ℕ) (c : Bool)
      → sub32 mh.len header_size ≡ length m.payload
      → copy_from r mh b c t start (length m.payload) (r.len - start)
        ≡ (received mh b t, consumed c)
  unfolding copy_from
  copy_from_lem mh b t c ret = elim (Bool-cases (ltb (r.len - start) (length m.payload))) [
    | inr h ↦
        let room : start + length m.payload ≤ r.len = omega (arith, ltb→le _ _ h, start_bounds) in
        rw h (finish_lem mh b c t t start _ [] ret (stored_plain b t room) (next_plain room))
    | inl h ↦
        let over : r.len < start + length m.payload = omega (arith, ltb→lt _ _ h, start_bounds) in
        rw h (split_copy over (Bool-cases (ltb t (r.len - start))))
  ]
    where
      split_copy :
          r.len < start + length m.payload
          → (ltb t (r.len - start) ≡ true) ⊎ (ltb t (r.len - start) ≡ false)
          → (if ltb t (r.len - start)
              then finish r mh b c 0 0
                  (length m.payload - (r.len - start))
                  (if b then slice r start t else [])
              else finish r mh b c
                  (t - (r.len - start))
                  0
                  (length m.payload - (r.len - start))
                  (if b then slice r start (r.len - start) else []))
            ≡ (received mh b t, consumed c)
      split_copy over (inl h) = rw h (
          finish_lem mh b c t 0 0 (length m.payload - (r.len - start)) _ ret
            (stored_short b t (length m.payload - (r.len - start)) (ltb→lt _ _ h) over)
            (next_wrapped over))
      split_copy over (inr h) = rw h (
          finish_lem mh b c t (t - (r.len - start)) 0 (length m.payload - (r.len - start)) _ ret
            (stored_wrapped b t (ltb→le _ _ h) over) (next_wrapped over))

  copy_payload_lem :
      (mh : MessageHeader) (b : Bool) (t : ℕ) (c : Bool)
      → mh.len ≡ header_size + length m.payload
      → copy_payload r mh b t c ≡ (received mh b t, consumed c)
  unfolding copy_payload start
  copy_payload_lem mh b t c e =
      let size : sub32 mh.len header_size ≡ length m.payload =
        omega (arith, frame_fits, bytes_to_read-lt v, v.small) in
      let room : sub32 r.len start ≡ r.len - start = omega (arith, start_bounds, v.small) in
      rw (size, room) (copy_from_lem mh b t c size)

  copy_message_lem :
      (b : Bool) (t : ℕ) (c : Bool)
      → copy_message r (bytes_to_read r) b t c (read_header f.header)
        ≡ (some (received (read_header f.header) b t), consumed c)
  unfolding copy_message
  copy_message_lem b t c = rw (
    le→ltb (bytes_to_read r) (read_header f.header).len
        (omega (arith, frame_fits, f.is_header.len)),
    copy_payload_lem (read_header f.header) b t c f.is_header.len,
  )

  -- The two guards of v4v_copy_out let the message through.
  pub copy_out-received :
      (b : Bool) (t : ℕ) (c : Bool)
      → copy_out r b t c ≡ (some (received (read_header f.header) b t), consumed c)
  unfolding copy_out
  copy_out-received b t c =
      rw (le→ltb (bytes_to_read r) header_size (omega (arith, frame_fits)))
        (ap (copy_message r (bytes_to_read r) b t c) header_here ∙ copy_message_lem b t c)

  pub next-IsValid : IsValid (record r { rx_ptr = next })
  next-IsValid = ground (
    arith,
    v.storage,
    v.small,
    v.len_aligned,
    v.rx_aligned,
    v.tx_aligned,
    v.rx_in,
    v.tx_in,
    frame_fits,
    bytes_to_read-lt v,
  )

  bytes_to_read-next : bytes_to_read (record r { rx_ptr = next }) ≡ length rest
  unfolding bytes_to_read
  bytes_to_read-next = ground (arith, v.small, v.rx_in, v.tx_in, frame_fits, bytes_to_read-lt v)

  pub contents-next : contents (record r { rx_ptr = next }) ≡ rest
  contents-next = rw bytes_to_read-next (
      ap (take (length rest)) at_next
      ∙ take-append_le (length rest) (rest ++ unused) _ (omega (arith, length-append rest unused))
      ∙ take-append rest unused (length rest) refl)
