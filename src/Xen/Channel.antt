-- ===== src/Xen/Channel.antt =====
-- The hypervisor's insert and the guest's copy-out together are a bounded first-in first-out queue
-- of messages.
use legacy_v4v.Prelude.{
  ℕ, ◌+◌, ◌*◌, ◌^◌, ◌≤◌, ◌<◌, ◌≡◌, refl, sym, ap, ap₂, subst, ◌∙◌, Bool, true, false, Option, none,
  some, List, [], ◌∷◌, ◌++◌, arith, length, leb, if◌then◌else◌, Bool-cases, inl, inr, leb→le,
  leb→lt,
}
use legacy_v4v.Abi.{header_size, roundup}
use legacy_v4v.Errno.{Ret, ok, err, emsgsize, eagain}
use legacy_v4v.Ring.{V4vRing, Received, bytes_to_read, copy_out}
use legacy_v4v.Ring.Frames.{
  IsValid, Message, InRange, frame_size, contents, Holds, total, length-Frames,
}
use legacy_v4v.Ring.CopyOut.{length-contents}
use legacy_v4v.Ring.Receive.{delivery, copy_out-first, copy_out-empty}
use legacy_v4v.Xen.{
  GuestMemory, RingInfo, page_size, ring_offset, free_space, sign_extend, ringbuf_insert,
}
use legacy_v4v.Xen.Insert.{IsSynced, header_of, free_space-lem, ringbuf_insert_lem}

-- What the hypercall interface guarantees of a message.
pub record Sendable (m : Message) : Type 0 where
  pub ranges : InRange (header_of m)
  pub size : length m.payload < 2 ^ 31

-- The hypervisor has every page of the ring, and can read what is sent.
pub record Accessible (g : GuestMemory) (size : ℕ) : Type 0 where
  pub mapped : (i : ℕ) → i * page_size < ring_offset + size → g.mapped i ≡ true
  pub readable : (l : List ℕ) → g.readable l ≡ true

-- The unread bytes are the frames of the messages held.
pub bytes_to_read-total :
    (r : V4vRing) (ms : List Message) → IsValid r → Holds r ms → bytes_to_read r ≡ total ms
bytes_to_read-total r ms v h = sym (length-contents r v) ∙ length-Frames ms (contents r) h

-- v4v_ringbuf_insert appends the message to those held, returns its length and keeps the ring valid,
-- where the frame is smaller than what the messages held leave free.
pub ringbuf_insert-appends :
    (g : GuestMemory) (info : RingInfo) (m : Message) (ms : List Message)
    → Accessible g info.len
    → IsSynced info
    → Sendable m
    → Holds info.guest ms
    → total ms + frame_size m < info.len
    → (info' : RingInfo) × (ringbuf_insert g info m.source m.protocol m.payload
        ≡ (ok (length m.payload), info'))
      × IsSynced info'
      × Holds info'.guest (ms ++ (m ∷ []))
      × (info'.len ≡ info.len)
ringbuf_insert-appends g info m ms a w s h fit =
    ringbuf_insert_lem g info a.mapped a.readable w m s.ranges
      (omega (arith, bytes_to_read-total info.guest ms w.ring h)) s.size ms h

-- v4v_ringbuf_insert refuses a message and changes nothing: with EMSGSIZE if the frame is not
-- smaller than the ring, and otherwise with EAGAIN if it is not smaller than what is free.
pub ringbuf_insert-refuses :
    (g : GuestMemory) (info : RingInfo) (m : Message) (ms : List Message)
    → Accessible g info.len
    → IsSynced info
    → Sendable m
    → Holds info.guest ms
    → info.len ≤ total ms + frame_size m
    → ringbuf_insert g info m.source m.protocol m.payload
      ≡ (if leb info.len (frame_size m) then err emsgsize else err eagain, info)
unfolding ringbuf_insert
ringbuf_insert-refuses g info m ms a w s h full =
    elim (Bool-cases (leb info.len (roundup (length m.payload) + header_size))) [
      | inl big ↦ rw (big, big_too (leb→le _ _ big))
      | inr small ↦ rw (small, fits_ring (leb→lt _ _ small), a.mapped 0 (omega arith), no_room)
    ]
  where
    big_too :
        info.len ≤ roundup (length m.payload) + header_size → leb info.len (frame_size m) ≡ true
    big_too h = ground arith

    fits_ring :
        roundup (length m.payload) + header_size < info.len → leb info.len (frame_size m) ≡ false
    fits_ring h = ground arith

    no_room : leb (sign_extend (free_space info)) (roundup (length m.payload) + header_size) ≡ true
    no_room = ground (
      arith,
      free_space-lem w,
      bytes_to_read-total info.guest ms w.ring h,
      w.ring.small,
      w.len,
      full,
    )

-- The specification: a queue of messages whose frames take up less than `cap` bytes.
abbrev pub enqueue : ℕ → List Message → Message → Ret × List Message
enqueue cap q m =
    if leb cap (total q + frame_size m)
    then (if leb cap (frame_size m) then err emsgsize else err eagain, q)
    else (ok (length m.payload), q ++ (m ∷ []))

abbrev pub dequeue : List Message → Bool → ℕ → Bool → Option Received × List Message
dequeue [] b t c = (none, [])
dequeue (m ∷ q) b t c = (some (delivery m b t), if c then q else m ∷ q)

-- What the two ends do to a ring, and what each is told.
pub data Op : Type 0 where
  send : Message → Op
  receive : Bool → ℕ → Bool → Op

pub data Reply : Type 0 where
  sent : Ret → Reply
  received : Option Received → Reply

unfoldable pub run_queue : ℕ → List Message → List Op → List Reply
run_queue cap q [] = []
run_queue cap q (send m ∷ ops) = let (ret, q') = enqueue cap q m in sent ret ∷ run_queue cap q' ops
run_queue cap q (receive b t c ∷ ops) =
    let (got, q') = dequeue q b t c in received got ∷ run_queue cap q' ops

pub run_ring : GuestMemory → RingInfo → List Op → List Reply
run_ring g info [] = []
run_ring g info (send m ∷ ops) =
    let (ret, info') = ringbuf_insert g info m.source m.protocol m.payload in
    sent ret ∷ run_ring g info' ops
run_ring g info (receive b t c ∷ ops) =
    let (got, ring') = copy_out info.guest b t c in
    received got ∷ run_ring g (record info { guest = ring' }) ops

abbrev pub AllSendable : List Op → Type 0
AllSendable [] = Unit {0}
AllSendable (send m ∷ ops) = Sendable m × AllSendable ops
AllSendable (receive b t c ∷ ops) = AllSendable ops

-- One send, and one receive, against the queue.
send_refines :
    (g : GuestMemory) (info : RingInfo) (q : List Message) (m : Message)
    → Accessible g info.len
    → IsSynced info
    → Holds info.guest q
    → Sendable m
    → (info' : RingInfo) × (ringbuf_insert g info m.source m.protocol m.payload
        ≡ ((enqueue info.len q m).0, info'))
      × IsSynced info'
      × Holds info'.guest (enqueue info.len q m).1
      × (info'.len ≡ info.len)
send_refines g info q m a w h s = elim (Bool-cases (leb info.len (total q + frame_size m))) [
  | inl full ↦
      rw full (info, ringbuf_insert-refuses g info m q a w s h (leb→le _ _ full), w, h, refl)
  | inr fits ↦ rw fits (ringbuf_insert-appends g info m q a w s h (leb→lt _ _ fits))
]

receive_refines :
    (info : RingInfo) (q : List Message) (b : Bool) (t : ℕ) (c : Bool)
    → IsSynced info
    → Holds info.guest q
    → let (got, ring') = copy_out info.guest b t c in
      (got ≡ (dequeue q b t c).0)
      × IsSynced (record info { guest = ring' })
      × Holds ring' (dequeue q b t c).1
receive_refines info [] b t c w h = rw (copy_out-empty info.guest b t c w.ring h) (refl, w, h)
receive_refines info (m ∷ q) b t true w h =
    let (e, v, h') = copy_out-first info.guest m q b t true w.ring h in
    rw e (refl, record { len = w.len; tx_ptr = w.tx_ptr; ring = v }, h')
receive_refines info (m ∷ q) b t false w h =
    rw (copy_out-first info.guest m q b t false w.ring h).0 (refl, w, h)

-- No sequence of sends and receives tells a ring from the queue of the messages that it holds: each
-- send and each receive, with a buffer of any size or none, consuming or peeking, gets the answer
-- that the queue gives.
pub run_ring-eq-run_queue :
    (g : GuestMemory) (ops : List Op) (info : RingInfo) (q : List Message)
    → Accessible g info.len
    → IsSynced info
    → Holds info.guest q
    → AllSendable ops
    → run_ring g info ops ≡ run_queue info.len q ops
unfolding run_ring run_queue
run_ring-eq-run_queue g [] info q a w h all = refl
run_ring-eq-run_queue g (send m ∷ ops) info q a w h (s, all) =
    let (info', e, w', h', el) = send_refines g info q m a w h s in
    let q' : List Message = (enqueue info.len q m).1 in
    rw e (
      ap (λ z. sent (enqueue info.len q m).0 ∷ z)
        (subst (λ n. run_ring g info' ops ≡ run_queue n q' ops) el
          (run_ring-eq-run_queue g ops info' q' (subst (Accessible g) (sym el) a) w' h' all)))
run_ring-eq-run_queue g (receive b t c ∷ ops) info q a w h all =
    let (e, w', h') = receive_refines info q b t c w h in
    ap₂ (λ got z. received got ∷ z) e
      (run_ring-eq-run_queue g ops (record info { guest = (copy_out info.guest b t c).1 })
        (dequeue q b t c).1 a w' h' all)
