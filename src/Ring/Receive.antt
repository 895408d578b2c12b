-- ===== src/Ring/Receive.antt =====
-- What v4v_copy_out promises its callers, on a valid ring that holds the messages `ms`.
use legacy_v4v.Prelude.{
  ℕ, ◌≡◌, sym, ap, ap₂, subst, ◌∙◌, Bool, false, none, some, List, [], ◌∷◌, arith, take, length,
  if◌then◌else◌, lt→ltb,
}
use legacy_v4v.Abi.{header_size}
use legacy_v4v.Ring.{
  V4vRing, Received, bytes_to_read, copy_message, copy_payload, copy_from, finish, copy_out,
}
use legacy_v4v.Ring.Rotate.{advance}
use legacy_v4v.Ring.Frames.{IsValid, Message, Frames, frame_size, Holds}
use legacy_v4v.Ring.CopyOut.{length-contents, copy_out-received, next-IsValid, contents-next}

-- What a caller gets of message `m` with a buffer of `t` bytes, or with none.
abbrev pub delivery : Message → Bool → ℕ → Received
delivery m b t = record {
  ret = length m.payload;
  from = m.source;
  protocol = m.protocol;
  buf = if b then take t m.payload else [];
}

-- The ring with its first message taken out.
abbrev pub popped : V4vRing → Message → V4vRing
popped r m = record r { rx_ptr = advance r.len r.rx_ptr (frame_size m) }

-- On a valid ring that holds `m` and then `ms`, v4v_copy_out returns the length of m's payload, its
-- source and its protocol, and stores the first `t` bytes of the payload (nothing for a NULL
-- buffer), also where the message goes round the end of the ring. With `consume` the read pointer
-- moves on to a valid ring that holds exactly `ms`; without it the ring is unchanged.
pub copy_out-first :
    (r : V4vRing) (m : Message) (ms : List Message) (b : Bool) (t : ℕ) (c : Bool)
    → IsValid r
    → Holds r (m ∷ ms)
    → (copy_out r b t c ≡ (some (delivery m b t), if c then popped r m else r))
      × IsValid (popped r m)
      × Holds (popped r m) ms
copy_out-first r m ms b t c v (rest, f, fs) = (
  copy_out-received r v m rest f b t c
      ∙ ap₂
          (λ src proto. (
            some (record {
              ret = length m.payload;
              from = src;
              protocol = proto;
              buf = if b then take t m.payload else [];
            }),
            if c then popped r m else r,
          ))
          f.is_header.source f.is_header.protocol,
  next-IsValid r v m rest f,
  subst (Frames ms) (sym (contents-next r v m rest f)) fs,
)

-- Nothing to read: v4v_copy_out returns -1 and changes nothing.
pub copy_out-empty :
    (r : V4vRing) (b : Bool) (t : ℕ) (c : Bool)
    → IsValid r
    → Holds r []
    → copy_out r b t c ≡ (none, r)
unfolding copy_out
copy_out-empty r b t c v e = rw (lt→ltb (bytes_to_read r) header_size (omega (arith, nothing)))
  where
    nothing : bytes_to_read r ≡ 0
    nothing = omega (arith, length-contents r v, ap length e)

-- A peek leaves any ring alone, valid or not.
pub copy_out-peek : (r : V4vRing) (b : Bool) (t : ℕ) → (copy_out r b t false).1 ≡ r
unfolding copy_out copy_message copy_payload copy_from finish
copy_out-peek r b t = ground arith
