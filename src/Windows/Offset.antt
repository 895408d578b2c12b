-- ===== src/Windows/Offset.antt =====
-- windows/inc/xen/v4v.h: v4v_copy_out_offset, by which the Windows driver takes a message without
-- its first `skip` bytes. `buf -= skip` puts the first `skip` bytes in front of the caller's buffer,
-- and v4v_memcpy_skip leaves them out, so that what it stores begins at `_buf` and has no gaps:
-- the model keeps the bytes stored there. `_buf` is not NULL and not at address `skip`.
use legacy_v4v.Prelude.{
  ℕ, zero, suc, ◌+◌, ◌-◌, ◌≤◌, ◌≡◌, refl, sym, ap, ap₂, ◌∙◌, Bool, true, false, not, Option, none,
  some, List, [], ◌∷◌, ◌++◌, arith, drop, length, ltb, leb, ◌==◌, if◌then◌else◌, Bool-cases, inl,
  inr, drop_all, append-nil, length-take, length-drop,
}
use legacy_v4v.Abi.{MessageHeader, header_size, read_header, add32, sub32, roundup}
use legacy_v4v.Ring.{
  V4vRing, Received, bytes_to_read, wrap_end, slice, finish, copy_from, copy_payload, copy_message,
  copy_out,
}
use legacy_v4v.Ring.Frames.{IsValid, bytes_to_read-lt}

-- v4v_memcpy_skip: the bytes that it stores, and `*skip` afterwards.
unfoldable pub memcpy_skip : List ℕ → ℕ → ℕ → List ℕ × ℕ
memcpy_skip src len skip =
    if skip == 0
    then (src, skip)
    else (if leb len skip then ([], skip - len) else (drop skip src, 0))

-- From the last copy on; `copied` is what the first one has stored.
unfoldable pub finish_offset :
    V4vRing → MessageHeader → Bool → ℕ → ℕ → ℕ → List ℕ × ℕ → Received × V4vRing
finish_offset r mh consume t rxp len (copied, skip) =
    let n = if ltb t len then t else len in
    let last = if not (t == 0) then (memcpy_skip (slice r rxp n) n skip).0 else [] in
    let rxp' = wrap_end r (add32 rxp (roundup len)) in
    let got : Received = record {
      ret = sub32 mh.len header_size;
      from = mh.source;
      protocol = mh.protocol;
      buf = copied ++ last;
    } in
    (got, if consume then record r { rx_ptr = rxp' } else r)

-- The two copies, with the message of `len` bytes at `rxp` and `bte` bytes before the end.
unfoldable pub copy_from_offset :
    V4vRing → MessageHeader → Bool → ℕ → ℕ → ℕ → ℕ → ℕ → Received × V4vRing
copy_from_offset r mh consume skip t rxp len bte =
    if ltb bte len
    then (if ltb t bte
        then finish_offset r mh consume 0 0 (len - bte) (memcpy_skip (slice r rxp t) t skip)
        else finish_offset r mh consume (t - bte) 0 (len - bte)
            (memcpy_skip (slice r rxp bte) bte skip))
    else finish_offset r mh consume t rxp len ([], skip)

-- From `rxp += sizeof (*mh)` on.
unfoldable pub copy_payload_offset : V4vRing → MessageHeader → ℕ → Bool → ℕ → Received × V4vRing
copy_payload_offset r mh t consume skip =
    let rxp = wrap_end r (add32 r.rx_ptr header_size) in
    copy_from_offset r mh consume skip t rxp (sub32 mh.len header_size) (sub32 r.len rxp)

-- v4v_copy_out_offset: `none` is -1.
unfoldable pub copy_out_offset : V4vRing → ℕ → Bool → ℕ → Option Received × V4vRing
copy_out_offset r t consume skip =
    let btr = bytes_to_read r in
    let mh = read_header (drop r.rx_ptr r.ring) in
    if ltb btr header_size
    then (none, r)
    else (if ltb btr mh.len
        then (none, r)
        else (let (got, r') = copy_payload_offset r mh t consume skip in (some got, r')))

-- A message without its first `skip` bytes.
abbrev pub cut : ℕ → Received → Received
cut skip got = record got { buf = drop skip got.buf }

abbrev pub cut_message : ℕ → Option Received × V4vRing → Option Received × V4vRing
cut_message skip (none, r) = (none, r)
cut_message skip (some got, r) = (some (cut skip got), r)

drop-append_minus :
    (n : ℕ) (xs ys : List ℕ) → drop n (xs ++ ys) ≡ drop n xs ++ drop (n - length xs) ys
drop-append_minus zero xs ys =
    let e : 0 - length xs ≡ 0 = omega arith in ap (λ k. xs ++ drop k ys) (sym e)
drop-append_minus (suc n) [] ys =
    let e : suc n - 0 ≡ suc n = omega arith in ap (λ k. drop k ys) (sym e)
drop-append_minus (suc n) (x ∷ xs) ys =
    let e : suc n - suc (length xs) ≡ n - length xs = omega arith in
    drop-append_minus n xs ys ∙ ap (λ k. drop n xs ++ drop k ys) (sym e)

memcpy_skip_lem :
    (src : List ℕ) (n skip : ℕ)
    → length src ≡ n
    → memcpy_skip src n skip ≡ (drop skip src, skip - n)
unfolding memcpy_skip
memcpy_skip_lem src n zero h = ap (λ k. (src, k)) (omega arith)
memcpy_skip_lem src n (suc k) h = rw (nonzero k) (elim (Bool-cases (leb n (suc k))) [
  | inl e ↦ rw e (ap (λ l. (l, suc k - n)) (sym (drop_all (suc k) src (ground arith))))
  | inr e ↦ rw e (ap (λ j. (drop (suc k) src, j)) (ground arith))
])
  where
    nonzero : (k : ℕ) → (suc k == 0) ≡ false
    nonzero k = ground arith

length-slice : (r : V4vRing) (off n : ℕ) → off + n ≤ length r.ring → length (slice r off n) ≡ n
length-slice r off n h = omega (arith, length-take n (drop off r.ring), length-drop off r.ring)

module _ (r : V4vRing) (mh : MessageHeader) (c : Bool) (skip : ℕ) where
  -- What v4v_copy_out has stored so far, and what is left to skip.
  finish_offset_lem :
      (t rxp len : ℕ) (copied : List ℕ)
      → rxp + len ≤ length r.ring
      → finish_offset r mh c t rxp len (drop skip copied, skip - length copied) ≡ (
        cut skip (finish r mh true c t rxp len copied).0,
        (finish r mh true c t rxp len copied).1,
      )
  unfolding finish finish_offset
  finish_offset_lem t rxp len copied h =
      ap
        (λ l. (
          record {
            ret = sub32 mh.len header_size;
            from = mh.source;
            protocol = mh.protocol;
            buf = l;
          },
          if c then record r { rx_ptr = wrap_end r (add32 rxp (roundup len)) } else r,
        ))
        (elim (Bool-cases (t == 0)) [
          | inl e ↦ rw e (append-nil (drop skip copied) ∙ ap (drop skip) (sym (append-nil copied)))
          | inr e ↦ rw e (
              ap (λ p. drop skip copied ++ p.0)
                (memcpy_skip_lem (slice r rxp n) n (skip - length copied)
                  (length-slice r rxp n (ground arith)))
              ∙ sym (drop-append_minus skip copied (slice r rxp n)))
        ])
    where
      n : ℕ
      n = if ltb t len then t else len

  copy_from_offset_lem :
      (t rxp len bte : ℕ)
      → rxp + bte ≡ length r.ring
      → len ≤ length r.ring
      → copy_from_offset r mh c skip t rxp len bte ≡ (
        cut skip (copy_from r mh true c t rxp len bte).0,
        (copy_from r mh true c t rxp len bte).1,
      )
  unfolding copy_from copy_from_offset
  copy_from_offset_lem t rxp len bte e h = elim (Bool-cases (ltb bte len)) [
    | inr q ↦ rw q (
        ap (finish_offset r mh c t rxp len) nothing_copied
        ∙ finish_offset_lem t rxp len [] (ground arith))
    | inl q ↦ rw q (elim (Bool-cases (ltb t bte)) [
      | inl u ↦ rw u (first t 0 (ground arith))
      | inr u ↦ rw u (first bte (t - bte) (ground arith))
    ])
  ]
    where
      nothing_copied : ◌≡◌ {A = List ℕ × ℕ} ([], skip) (drop skip [], skip - 0)
      nothing_copied =
          let e : skip - 0 ≡ skip = omega arith in
          sym (ap₂ (λ l k. (l, k)) (drop_all skip [] (omega arith)) e)

      first :
          (n t' : ℕ)
          → n ≤ bte
          → finish_offset r mh c t' 0 (len - bte) (memcpy_skip (slice r rxp n) n skip) ≡ (
            cut skip (finish r mh true c t' 0 (len - bte) (slice r rxp n)).0,
            (finish r mh true c t' 0 (len - bte) (slice r rxp n)).1,
          )
      first n t' hn =
          let size : length (slice r rxp n) ≡ n = length-slice r rxp n (omega arith) in
          ap (finish_offset r mh c t' 0 (len - bte)) (
            memcpy_skip_lem (slice r rxp n) n skip size
            ∙ ap (λ k. (drop skip (slice r rxp n), skip - k)) (sym size))
          ∙ finish_offset_lem t' 0 (len - bte) (slice r rxp n) (omega arith)

-- v4v_copy_out_offset is v4v_copy_out, with the first `skip` bytes of what that stores left out: on
-- a valid ring, where the length that is read at rx_ptr is 16 at least, also if the ring is empty,
-- both give the same result, source and protocol, and leave the same ring.
pub copy_out_offset-copy_out :
    (r : V4vRing) (t skip : ℕ) (c : Bool)
    → IsValid r
    → header_size ≤ (read_header (drop r.rx_ptr r.ring)).len
    → copy_out_offset r t c skip ≡ cut_message skip (copy_out r true t c)
unfolding copy_out_offset copy_out copy_message copy_payload_offset copy_payload
copy_out_offset-copy_out r t skip c v h = elim (Bool-cases (ltb (bytes_to_read r) header_size)) [
  | inl e ↦ rw e refl
  | inr e ↦ rw e (elim (Bool-cases (ltb (bytes_to_read r) mh.len)) [
    | inl q ↦ rw q refl
    | inr q ↦ rw q (
        ap (λ p. (some p.0, p.1))
          (copy_from_offset_lem r mh c skip t start (sub32 mh.len header_size) (sub32 r.len start)
            (ground (arith, v.storage, v.small, v.rx_in, v.rx_aligned, v.len_aligned))
            (ground (arith, v.storage, v.small, bytes_to_read-lt v))))
  ])
]
  where
    mh : MessageHeader
    mh = read_header (drop r.rx_ptr r.ring)

    start : ℕ
    start = wrap_end r (add32 r.rx_ptr header_size)
