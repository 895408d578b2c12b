-- ===== src/Driver/Stream/Copy.antt =====
-- linux/v4v.c, v4v_recv_stream: the inner loop against the stream of bytes that is queued.
use legacy_v4v.Prelude.{
  ℕ, zero, suc, ◌+◌, ◌-◌, ◌≤◌, Bool, true, false, ◌≡◌, refl, sym, ap, ◌∙◌, List, [], ◌∷◌, ◌++◌,
  arith, length, take, drop, length-drop, take-append_add, drop-append_add, take-append_le,
  drop-append_le, drop-drop, take_all, ltb, ◌==◌, ltb→lt, ltb→le, Bool-cases, inl, inr,
}
use legacy_v4v.Driver.{PendingRecv}
use legacy_v4v.Driver.Stream.{Copied, copy_pending, available, chunk}

-- An entry whose buffer has the length it says, read no further than its end.
abbrev pub IsEntry : PendingRecv → Type 0
IsEntry p = (length p.bytes ≡ p.data_len) × (p.data_ptr ≤ p.data_len)

abbrev pub AreEntries : List PendingRecv → Type 0
AreEntries [] = Unit
AreEntries (p ∷ l) = IsEntry p × AreEntries l

-- The bytes that wait to be read.
abbrev pub pending_bytes : List PendingRecv → List ℕ
pending_bytes [] = []
pending_bytes (p ∷ l) = drop p.data_ptr p.bytes ++ pending_bytes l

abbrev pub always : ℕ → ℕ → Bool
always a b = true

-- What the inner loop does to the stream.
pub record CopiesStream (len : ℕ) (l : List PendingRecv) (c : Copied) : Type 0 where
  pub bytes : c.bytes ≡ take len (pending_bytes l)
  pub rest : pending_bytes c.left ≡ drop len (pending_bytes l)
  pub kept : AreEntries c.left
  pub count : length l ≡ c.eaten + length c.left
  pub accepted : c.refused ≡ false

waiting_length : (p : PendingRecv) → IsEntry p → length (drop p.data_ptr p.bytes) ≡ available p
waiting_length p h = omega (arith, length-drop p.data_ptr p.bytes)

part :
    (p : PendingRecv) (l : List PendingRecv) (len : ℕ)
    → IsEntry p
    → AreEntries l
    → ltb len (available p) ≡ true
    → CopiesStream len (p ∷ l) (record {
      bytes = chunk p len;
      left = record p { data_ptr = p.data_ptr + len } ∷ l;
      eaten = 0;
      refused = false;
    })
part p l len h hs e =
    let lt = ltb→lt len (available p) e in
    let n = waiting_length p h in
    record {
      bytes = sym (take-append_le len (drop p.data_ptr p.bytes) (pending_bytes l) (omega arith));
      rest =
          ap (λ x. x ++ pending_bytes l) (sym (drop-drop len p.data_ptr p.bytes))
          ∙ sym (drop-append_le len (drop p.data_ptr p.bytes) (pending_bytes l) (omega arith));
      kept = ((h.0, omega arith), hs);
      count = omega arith;
      accepted = refl;
    }

whole :
    (p : PendingRecv) (l : List PendingRecv) (len : ℕ) (c : Copied)
    → IsEntry p
    → ltb len (available p) ≡ false
    → CopiesStream (len - available p) l c
    → CopiesStream len (p ∷ l) (record {
      bytes = chunk p (available p) ++ c.bytes;
      left = c.left;
      eaten = suc c.eaten;
      refused = c.refused;
    })
whole p l len c h e r =
    let le = ltb→le len (available p) e in
    let x = drop p.data_ptr p.bytes in
    let n = waiting_length p h in
    let eq : len ≡ length x + (len - available p) = omega arith in
    record {
      bytes =
          ap (λ z. z ++ c.bytes) (take_all (available p) x (omega arith))
          ∙ ap (λ z. x ++ z) r.bytes
          ∙ sym (take-append_add (len - available p) x (pending_bytes l))
          ∙ ap (λ k. take k (x ++ pending_bytes l)) (sym eq);
      rest =
          r.rest
          ∙ sym (drop-append_add (len - available p) x (pending_bytes l))
          ∙ ap (λ k. drop k (x ++ pending_bytes l)) (sym eq);
      kept = r.kept;
      count = omega (arith, r.count);
      accepted = r.accepted;
    }

-- If access_ok refuses nothing, the inner loop of v4v_recv_stream stores the first `len` bytes of the
-- queued stream and leaves exactly the rest of it queued, in well-formed entries; it counts the
-- entries it takes off the list.
pub copy_pending_lem :
    (l : List PendingRecv) (count len : ℕ)
    → AreEntries l
    → CopiesStream len l (copy_pending always count len l)
unfolding copy_pending
copy_pending_lem [] count len h = record {
  bytes = sym (take_nil len);
  rest = sym (drop_nil len);
  kept = tt;
  count = refl;
  accepted = refl;
}
  where
    take_nil : (n : ℕ) → take {A = ℕ} n [] ≡ []
    take_nil zero = refl
    take_nil (suc n) = refl

    drop_nil : (n : ℕ) → drop {A = ℕ} n [] ≡ []
    drop_nil zero = refl
    drop_nil (suc n) = refl
copy_pending_lem (p ∷ l) count zero h = record {
  bytes = refl;
  rest = refl;
  kept = h;
  count = omega arith;
  accepted = refl;
}
copy_pending_lem (p ∷ l) count (suc len) (h, hs) =
    let z : (suc len == 0) ≡ false = ground arith in
    rw z (elim (Bool-cases (ltb (suc len) (available p))) [
      | inl e ↦ rw e (part p l (suc len) h hs e)
      | inr e ↦ rw e (
          whole p l (suc len) (copy_pending always (count + available p) (suc len - available p) l)
            h e (copy_pending_lem l (count + available p) (suc len - available p) hs))
    ])
