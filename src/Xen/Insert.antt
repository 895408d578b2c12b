-- ===== src/Xen/Insert.antt =====
-- v4v_ringbuf_insert appends one message to what the ring holds.
use legacy_v4v.Prelude.{
  ℕ, ◌+◌, ◌-◌, ◌*◌, ◌^◌, ◌≤◌, ◌<◌, ◌≡◌, refl, sym, ap, subst, ◌∙◌, true, false, List, [], ◌∷◌, ◌++◌,
  arith, ltb, leb, take, drop, length, length-append, length-take, length-drop, append_assoc,
  take-append-drop, Bool-cases, inl, inr, ltb→lt, ltb→le, take-append_add, append-nil,
}
use legacy_v4v.Abi.{MessageHeader, header_size, header_bytes, add32, sub32, roundup}
use legacy_v4v.Errno.{ok}
use legacy_v4v.Ring.{bytes_to_read}
use legacy_v4v.Ring.Rotate.{rot, advance, rot-advance}
use legacy_v4v.Ring.Frames.{
  IsValid, Message, IsHeader, Frame, Frames, InRange, frame_size, unrolled, contents, Holds,
  bytes_to_read-lt, read_header-header_bytes,
}
use legacy_v4v.Xen.{
  GuestMemory, RingInfo, page_size, ring_offset, write, free_space, sign_extend, advance_tx,
  insert_tail, insert_payload, ringbuf_insert,
}
use legacy_v4v.Xen.Copy.{length-write, copy_to_ring-write}
use legacy_v4v.Xen.Wrap.{rot-write_plain, rot-write_wrapped}

-- The hypervisor's record agrees with the guest's ring, and the ring is valid.
pub record IsSynced (info : RingInfo) : Type 0 where
  pub len : info.len ≡ info.guest.len
  pub tx_ptr : info.tx_ptr ≡ info.guest.tx_ptr
  pub ring : IsValid info.guest

-- `sp` is what the unread bytes leave of the ring.
pub free_space-lem :
    {info : RingInfo} → IsSynced info → free_space info + bytes_to_read info.guest ≡ info.len
unfolding free_space bytes_to_read
free_space-lem w = ground arith

Frames-append :
    (ms : List Message) (m : Message) (bs cs : List ℕ)
    → Frames ms bs
    → Frame m cs []
    → Frames (ms ++ (m ∷ [])) (bs ++ cs)
Frames-append [] m bs cs e f = ([], rw e f, refl)
Frames-append (m' ∷ ms) m bs cs (rest, f', fs) f = (
  rest ++ cs,
  record {
    header = f'.header;
    padding = f'.padding;
    is_header = f'.is_header;
    padding_size = f'.padding_size;
    layout = ap (λ z. z ++ cs) f'.layout ∙ simp append_assoc;
  },
  Frames-append ms m rest cs fs f,
)

-- The header that v4v_ringbuf_insert writes.
abbrev pub header_of : Message → MessageHeader
header_of m = record {
  len = add32 (length m.payload) header_size;
  source = m.source;
  pad = 0;
  protocol = m.protocol;
}

header_of-IsHeader :
    (m : Message)
    → InRange (header_of m)
    → length m.payload + header_size < 2 ^ 32
    → IsHeader m (header_bytes (header_of m))
header_of-IsHeader m v h = record {
  size = refl;
  len = ap (λ (k : MessageHeader). k.len) (read_header-header_bytes (header_of m) v) ∙ omega arith;
  source = ap (λ (k : MessageHeader). k.source) (read_header-header_bytes (header_of m) v);
  protocol = ap (λ (k : MessageHeader). k.protocol) (read_header-header_bytes (header_of m) v);
}

module _ (g : GuestMemory) (info : RingInfo)
    (all_mapped : (i : ℕ) → i * page_size < ring_offset + info.len → g.mapped i ≡ true)
    (all_readable : (l : List ℕ) → g.readable l ≡ true) (w : IsSynced info) (m : Message)
    (ranges : InRange (header_of m)) (room : bytes_to_read info.guest + frame_size m < info.len)
    (small : length m.payload < 2 ^ 31) where
  abbrev ring : List ℕ
  ring = info.guest.ring

  abbrev btr : ℕ
  btr = bytes_to_read info.guest

  abbrev tx : ℕ
  tx = info.tx_ptr

  held : List ℕ
  held = contents info.guest

  free : List ℕ
  free = drop btr (unrolled info.guest)

  length-free : length free ≡ info.len - btr
  unfolding free
  length-free = omega (
    arith,
    length-drop btr (unrolled info.guest),
    length-append (drop info.guest.rx_ptr ring) (take info.guest.rx_ptr ring),
    length-take info.guest.rx_ptr ring,
    length-drop info.guest.rx_ptr ring,
    w.ring.storage,
    w.ring.rx_in,
    w.len,
  )

  length-held : length held ≡ btr
  unfolding held
  length-held = omega (
    arith,
    length-take btr (unrolled info.guest),
    length-append (drop info.guest.rx_ptr ring) (take info.guest.rx_ptr ring),
    length-take info.guest.rx_ptr ring,
    length-drop info.guest.rx_ptr ring,
    w.ring.storage,
    w.ring.rx_in,
    bytes_to_read-lt w.ring,
  )

  tx-advance : advance (length ring) info.guest.rx_ptr btr ≡ tx
  unfolding bytes_to_read
  tx-advance =
      ground (arith, w.ring.storage, w.ring.rx_in, w.ring.tx_in, w.ring.small, w.tx_ptr, w.len)

  -- From the write position: the free bytes, then the unread ones.
  at_tx : rot tx ring ≡ free ++ held
  unfolding held free
  at_tx =
      ap (λ n. rot n ring)
        (sym tx-advance ∙ ap (advance (length ring) info.guest.rx_ptr) (sym length-held))
      ∙ rot-advance info.guest.rx_ptr ring (contents info.guest) (drop btr (unrolled info.guest))
          (sym (take-append-drop btr (unrolled info.guest)))
          (omega (arith, w.ring.storage, w.ring.rx_in))
          (omega (arith, length-held, w.ring.storage, w.len, room))

  -- The free bytes in three: where the header goes, where the payload goes, and what is left.
  abbrev old_header : List ℕ
  old_header = take header_size free

  abbrev old_payload : List ℕ
  old_payload = take (length m.payload) (drop header_size free)

  abbrev left : List ℕ
  left = drop (length m.payload) (drop header_size free)

  free_parts : free ≡ old_header ++ (old_payload ++ left)
  free_parts =
      sym (take-append-drop header_size free)
      ∙ ap (◌++◌ old_header) (sym (take-append-drop (length m.payload) (drop header_size free)))

  length-old_header : length old_header ≡ header_size
  length-old_header = omega (arith, length-take header_size free, length-free, room, w.len)

  length-old_payload : length old_payload ≡ length m.payload
  length-old_payload = omega (
    arith,
    length-take (length m.payload) (drop header_size free),
    length-drop header_size free,
    length-free,
    room,
    small,
  )

  length-left : length left ≡ info.len - btr - header_size - length m.payload
  length-left = omega (
    arith,
    length-drop (length m.payload) (drop header_size free),
    length-drop header_size free,
    length-free,
  )

  header : List ℕ
  header = header_bytes (header_of m)

  length-header : length header ≡ header_size
  unfolding header
  length-header = refl

  -- The ring once the header is written, from the write position and from behind the header.
  headed : List ℕ
  headed = write tx header ring

  tx_room : tx + header_size ≤ length ring
  tx_room =
      omega (
        arith, w.len, w.tx_ptr, w.ring.storage, w.ring.tx_in, w.ring.tx_aligned, w.ring.len_aligned,
      )

  length-headed : length headed ≡ length ring
  unfolding headed
  length-headed = length-write tx header ring (omega (arith, tx_room, length-header))

  headed_at_tx : rot tx headed ≡ header ++ (old_payload ++ (left ++ held))
  unfolding headed
  headed_at_tx =
      rot-write_plain tx header ring old_header ((old_payload ++ left) ++ held)
        (at_tx
          ∙ ap (λ z. z ++ held) free_parts
          ∙ append_assoc old_header (old_payload ++ left) held)
        (omega (arith, length-header, length-old_header)) (omega (arith, tx_room))
        (omega (arith, tx_room, length-header))
      ∙ ap (◌++◌ header) (append_assoc old_payload left held)

  start : ℕ
  start = advance_tx info tx header_size

  start-advance : start ≡ advance (length headed) tx (length header)
  unfolding start
  start-advance =
      ground (arith, length-headed, length-header, tx_room, w.len, w.ring.storage, w.ring.small)

  start_lt : start < length headed
  unfolding start
  start_lt = ground (arith, length-headed, tx_room, w.len, w.ring.storage, w.ring.small)

  headed_at_start : rot start headed ≡ old_payload ++ (left ++ (held ++ header))
  headed_at_start =
      ap (λ n. rot n headed) start-advance
      ∙ rot-advance tx headed header (old_payload ++ (left ++ held)) headed_at_tx
          (omega (arith, length-headed, tx_room))
          (omega (arith, length-headed, length-header, tx_room))
      ∙ simp append_assoc

  -- The ring once the payload is written too.
  Filled : List ℕ → Type 0
  Filled r = (rot start r ≡ m.payload ++ (left ++ (held ++ header))) × (length r ≡ length ring)

  final_tx : ℕ
  final_tx = advance info.len tx (frame_size m)

  abbrev room_at_start : ℕ
  room_at_start = length headed - start

  Filled-plain : start + length m.payload ≤ length headed → Filled (write start m.payload headed)
  unfolding Filled
  Filled-plain h = (
    rot-write_plain start m.payload headed old_payload (left ++ (held ++ header)) headed_at_start
        (sym length-old_payload) start_lt h,
    length-write start m.payload headed h ∙ length-headed,
  )

  Filled-wrapped :
      length headed < start + length m.payload
      → Filled (
          write 0
            (drop room_at_start m.payload)
            (write start (take room_at_start m.payload) headed))
  unfolding Filled
  Filled-wrapped h = (
    rot-write_wrapped start m.payload headed old_payload (left ++ (held ++ header)) headed_at_start
        (sym length-old_payload) start_lt h,
    length-write 0 (drop room_at_start m.payload)
          (write start (take room_at_start m.payload) headed)
          (omega (
            arith,
            first_size,
            length-drop room_at_start m.payload,
            room,
            length-headed,
            w.len,
            w.ring.storage,
          ))
        ∙ first_size
        ∙ length-headed,
  )
    where
      first_size : length (write start (take room_at_start m.payload) headed) ≡ length headed
      first_size =
          length-write start (take room_at_start m.payload) headed
            (omega (arith, length-take room_at_start m.payload, start_lt))

  after : List ℕ → RingInfo
  after r = record info {
    tx_ptr = final_tx;
    guest = record info.guest { tx_ptr = final_tx; ring = r };
  }

  insert_tail_lem :
      (t : ℕ) (buf r : List ℕ)
      → length r ≡ info.len
      → t < info.len
      → t + length buf ≤ length r
      → advance_tx info t (roundup (length buf)) ≡ final_tx
      → insert_tail g info (length m.payload) t buf r
        ≡ (ok (length m.payload), after (write t buf r))
  unfolding insert_tail after
  insert_tail_lem t buf r hr ht h e =
      rw
        (copy_to_ring-write g.mapped g.readable info.len all_mapped all_readable t buf r hr ht h, e)

  final_plain :
      start + length m.payload ≤ length headed
      → advance_tx info start (roundup (length m.payload)) ≡ final_tx
  unfolding final_tx start
  final_plain h = ground (
    arith, length-headed, w.len, w.tx_ptr, w.ring.storage, w.ring.small, tx_room, room, small,
    w.ring.len_aligned, w.ring.tx_aligned,
  )

  final_wrapped :
      length headed < start + length m.payload
      → advance_tx info 0 (roundup (length (drop room_at_start m.payload))) ≡ final_tx
  unfolding final_tx start
  final_wrapped h = ground (
    arith,
    length-headed,
    w.len,
    w.tx_ptr,
    w.ring.storage,
    w.ring.small,
    tx_room,
    room,
    small,
    w.ring.len_aligned,
    w.ring.tx_aligned,
    length-drop room_at_start m.payload,
  )

  -- Whichever way the payload is copied, the ring ends up filled.
  insert_payload_lem :
      (r : List ℕ) × Filled r
      × (insert_payload g info start m.payload headed ≡ (ok (length m.payload), after r))
  unfolding insert_payload
  insert_payload_lem = elim (Bool-cases (ltb (sub32 info.len start) (length m.payload))) [
    | inr plain ↦
        let h : start + length m.payload ≤ length headed =
          omega (arith, sp_eq, ltb→le _ _ plain, start_lt) in
        (
          write start m.payload headed,
          Filled-plain h,
          rw plain (insert_tail_lem start m.payload headed headed_len start_in h (final_plain h)),
        )
    | inl wrapped ↦
        let h : length headed < start + length m.payload =
          omega (arith, sp_eq, ltb→lt _ _ wrapped, start_lt) in
        (
          write 0 (drop room_at_start m.payload)
              (write start (take room_at_start m.payload) headed),
          Filled-wrapped h,
          rw
              (
                wrapped,
                sp_eq,
                copy_to_ring-write g.mapped g.readable info.len all_mapped all_readable start
                    (take room_at_start m.payload) headed headed_len start_in (part_fits h),
              )
              (insert_tail_lem 0 (drop room_at_start m.payload) _ (part_len h)
                (omega (arith, start_in)) (rest_fits h) (final_wrapped h)),
        )
  ]
    where
      headed_len : length headed ≡ info.len
      headed_len = omega (arith, length-headed, w.len, w.ring.storage)

      start_in : start < info.len
      start_in = omega (arith, start_lt, headed_len)

      sp_eq : sub32 info.len start ≡ room_at_start
      sp_eq = omega (arith, w.len, w.ring.small, w.ring.storage, length-headed, start_lt)

      part_fits :
          length headed < start + length m.payload
          → start + length (take room_at_start m.payload) ≤ length headed
      part_fits h = omega (arith, length-take room_at_start m.payload, start_lt)

      part_len :
          length headed < start + length m.payload
          → length (write start (take room_at_start m.payload) headed) ≡ info.len
      part_len h =
          length-write start (take room_at_start m.payload) headed (part_fits h) ∙ headed_len

      rest_fits :
          length headed < start + length m.payload
          → 0 + length (drop room_at_start m.payload)
            ≤ length (write start (take room_at_start m.payload) headed)
      rest_fits h = omega (
        arith,
        length-write start (take room_at_start m.payload) headed (part_fits h),
        length-drop room_at_start m.payload,
        length-headed,
        room,
        w.len,
        w.ring.storage,
      )

  ringbuf_insert-payload :
      ringbuf_insert g info m.source m.protocol m.payload
      ≡ insert_payload g info start m.payload headed
  unfolding ringbuf_insert headed header start
  ringbuf_insert-payload = rw (
    le_test,
    all_mapped 0 (omega arith),
    sp_test,
    copy_to_ring-write g.mapped (λ _. true) info.len all_mapped (λ l. refl) tx
        (header_bytes (header_of m)) ring (omega (arith, w.len, w.ring.storage))
        (omega (arith, w.len, w.tx_ptr, w.ring.tx_in)) tx_room,
  )
    where
      le_test : leb info.len (roundup (length m.payload) + header_size) ≡ false
      le_test = ground (arith, room)

      sp_test :
          leb (sign_extend (free_space info)) (roundup (length m.payload) + header_size) ≡ false
      sp_test = ground (arith, room, free_space-lem w, w.ring.small, w.len)

  after-IsSynced : (r : List ℕ) → Filled r → IsSynced (after r)
  unfolding after Filled final_tx
  after-IsSynced r fr = record {
    len = w.len;
    tx_ptr = refl;
    ring = record {
      storage = fr.1 ∙ w.ring.storage;
      small = w.ring.small;
      len_aligned = w.ring.len_aligned;
      rx_aligned = w.ring.rx_aligned;
      tx_aligned = ground (arith, w.ring.len_aligned, w.ring.tx_aligned, w.tx_ptr, w.len);
      rx_in = w.ring.rx_in;
      tx_in = ground (arith, w.ring.tx_in, w.tx_ptr, w.len, room);
    };
  }

  bytes_to_read-after : (r : List ℕ) → bytes_to_read (after r).guest ≡ btr + frame_size m
  unfolding after final_tx bytes_to_read
  bytes_to_read-after r =
      ground (arith, w.ring.small, w.ring.rx_in, w.ring.tx_in, w.tx_ptr, w.len, room)

  rx_from_start :
      (r : List ℕ)
      → Filled r
      → advance (length r) start (length (m.payload ++ left)) ≡ info.guest.rx_ptr
  unfolding Filled start bytes_to_read
  rx_from_start r fr = ground (
    arith,
    fr.1,
    length-append m.payload left,
    length-left,
    w.ring.storage,
    w.ring.small,
    w.len,
    w.tx_ptr,
    w.ring.rx_in,
    w.ring.tx_in,
    room,
    tx_room,
    w.ring.rx_aligned,
    w.ring.tx_aligned,
    w.ring.len_aligned,
  )

  at_rx :
      (r : List ℕ) → Filled r → rot info.guest.rx_ptr r ≡ (held ++ header) ++ (m.payload ++ left)
  unfolding Filled
  at_rx r fr =
      ap (λ n. rot n r) (sym (rx_from_start r fr))
      ∙ rot-advance start r (m.payload ++ left) (held ++ header)
          (fr.0 ∙ sym (append_assoc m.payload left (held ++ header)))
          (omega (arith, start_lt, length-headed, fr.1))
          (omega (
            arith,
            fr.1,
            length-append m.payload left,
            length-left,
            w.ring.storage,
            w.len,
            room,
            small,
          ))

  pad_size : ℕ
  pad_size = roundup (length m.payload) - length m.payload

  new_frame : List ℕ
  new_frame = header ++ (m.payload ++ (take pad_size left ++ []))

  pad_fits : (pad_size ≤ length left) × (pad_size + length m.payload ≡ roundup (length m.payload))
  unfolding pad_size
  pad_fits = (omega (arith, length-left, room, small), omega (arith, small))

  new_frame-Frame : Frame m new_frame []
  unfolding new_frame header
  new_frame-Frame = record {
    header = header_bytes (header_of m);
    padding = take pad_size left;
    is_header = header_of-IsHeader m ranges (omega (arith, small));
    padding_size = omega (arith, length-take pad_size left, pad_fits);
    layout = refl;
  }

  regroup : (held ++ header) ++ (m.payload ++ take pad_size left) ≡ held ++ new_frame
  unfolding new_frame
  regroup =
      append_assoc held header _
      ∙ ap (λ z. held ++ (header ++ (m.payload ++ z))) (sym (append-nil (take pad_size left)))

  contents-after : (r : List ℕ) → Filled r → contents (after r).guest ≡ held ++ new_frame
  contents-after r fr =
      ap (λ n. take n (unrolled (after r).guest)) (bytes_to_read-after r)
      ∙ ap (take (btr + frame_size m)) turned
      ∙ ap (λ n. take n ((held ++ header) ++ (m.payload ++ left))) counted
      ∙ take-append_add (length m.payload + pad_size) (held ++ header) (m.payload ++ left)
      ∙ ap (◌++◌ (held ++ header)) (take-append_add pad_size m.payload left)
      ∙ regroup
    where
      counted : btr + frame_size m ≡ length (held ++ header) + (length m.payload + pad_size)
      counted = omega (arith, length-append held header, length-held, length-header, pad_fits)

      turned : unrolled (after r).guest ≡ (held ++ header) ++ (m.payload ++ left)
      turned = unfold after in at_rx r fr

  -- The insert as a whole, for a message that fits.
  pub ringbuf_insert_lem :
      (ms : List Message)
      → Holds info.guest ms
      → (info' : RingInfo) × (ringbuf_insert g info m.source m.protocol m.payload
          ≡ (ok (length m.payload), info'))
        × IsSynced info'
        × Holds info'.guest (ms ++ (m ∷ []))
        × (info'.len ≡ info.len)
  unfolding held
  ringbuf_insert_lem ms h =
      let (r, fr, e) = insert_payload_lem in
      (
        after r,
        ringbuf_insert-payload ∙ e,
        after-IsSynced r fr,
        subst (Frames (ms ++ (m ∷ []))) (sym (contents-after r fr))
            (Frames-append ms m (contents info.guest) new_frame h new_frame-Frame),
        unfold after in refl,
      )
