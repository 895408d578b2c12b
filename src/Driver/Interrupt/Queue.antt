-- ===== src/Driver/Interrupt/Queue.antt =====
-- linux/v4v.c, copy_into_pending_recv: the first message of a ring becomes the last of a socket.
use legacy_v4v.Prelude.{
  ℕ, ◌+◌, ◌-◌, ◌^◌, ◌%◌, ◌≤◌, ◌<◌, Bool, true, false, ◌≡◌, refl, sym, ap, ◌∙◌, some, List, [], ◌∷◌,
  ◌++◌, arith, ltb, if◌then◌else◌, length, take, drop, take_all, length-drop, Bool-cases, inl, inr,
  append_assoc, append-nil,
}
use legacy_v4v.Abi.{read_stream_header, stream_header_size}
use legacy_v4v.Ring.Frames.{IsValid, Message, Holds, contents, length-Frame, bytes_to_read-lt}
use legacy_v4v.Ring.CopyOut.{length-contents}
use legacy_v4v.Ring.Receive.{delivery, popped, copy_out-first}
use legacy_v4v.Driver.{Ring, PendingRecv, Private, Driver, Env, kmalloc, lookup, replace, update}
use legacy_v4v.Driver.Loads.{load_private-bind, load_ring-bind, bind_lem, replace-lookup}
use legacy_v4v.Driver.Stream.Copy.{IsEntry, AreEntries, pending_bytes}
use legacy_v4v.Driver.Interrupt.{max_pending_recvs, copy_from_ring, queued, copy_into_pending_recv}

-- The entry of a message that starts with a stream header.
abbrev pub entry_of : Message → PendingRecv
entry_of m = record {
  from = m.source;
  data_len = length m.payload - stream_header_size;
  data_ptr = 0;
  sh = read_stream_header m.payload;
  bytes = drop stream_header_size m.payload;
}

-- The socket with an entry more.
abbrev pub with_entry : Private → PendingRecv → Private
with_entry p q = record p {
  pending_recv_list = p.pending_recv_list ++ (q ∷ []);
  pending_recv_count = p.pending_recv_count + 1;
  full = false;
}

queued-entry_of :
    (m : Message)
    → stream_header_size ≤ length m.payload
    → length m.payload < 2 ^ 31
    → queued (delivery m true (length m.payload)) (length m.payload) ≡ entry_of m
queued-entry_of m h s = λ i. record {
  from = m.source;
  data_len = size i;
  data_ptr = 0;
  sh = read_stream_header (whole i);
  bytes = drop stream_header_size (whole i);
}
  where
    whole : take (length m.payload) m.payload ≡ m.payload
    whole = take_all (length m.payload) m.payload (omega arith)

    size :
        (length m.payload + 2 ^ 64 - stream_header_size) % 2 ^ 64
        ≡ length m.payload - stream_header_size
    size = omega arith

module _ (address : ℕ) (d : Driver) (r : Ring) (m : Message) (ms : List Message)
    (is_ring : lookup address d.ring_list ≡ some r) (valid : IsValid r.ring)
    (holds : Holds r.ring (m ∷ ms)) where
  pub copy_from_ring_lem :
      (t : ℕ)
      → copy_from_ring address true t true d
        ≡ some (
          some (delivery m true t),
          record d {
            ring_list = replace address (record r { ring = popped r.ring m }) d.ring_list;
          },
        )
  unfolding copy_from_ring
  copy_from_ring_lem t =
      let e = (copy_out-first r.ring m ms true t true valid holds).0 in
      load_ring-bind address _ d r is_ring ∙ rw e refl

  -- A peek changes nothing.
  pub copy_from_ring_peek :
      (t : ℕ) → copy_from_ring address true t false d ≡ some (some (delivery m true t), d)
  unfolding copy_from_ring
  copy_from_ring_peek t =
      let e = (copy_out-first r.ring m ms true t false valid holds).0 in
      load_ring-bind address _ d r is_ring
      ∙ rw e (
          ap (λ l. some (some (delivery m true t), record d { ring_list = l }))
            (replace-lookup address d.ring_list r is_ring))

  payload_small : length m.payload < 2 ^ 31
  payload_small =
      let (rest, f, fs) = holds in
      omega (
        arith,
        f.padding_size,
        length-Frame m (contents r.ring) rest f,
        length-contents r.ring valid,
        bytes_to_read-lt valid,
        valid.small,
      )

module _ (env : Env) (address a : ℕ) (d : Driver) (p : Private) (r : Ring) (m : Message) where
  -- The result and the state of the driver on each branch.
  abbrev pub queue_result : Bool × Driver
  queue_result =
      if ltb max_pending_recvs p.pending_recv_count
      then (false, record d { privates = update d.privates a (some (record p { full = true })) })
      else (if env.allocated (kmalloc ∷ d.trace)
          then (
            true,
            record d {
              ring_list = replace address (record r { ring = popped r.ring m }) d.ring_list;
              privates = update d.privates a (some (with_entry p (entry_of m)));
              trace = kmalloc ∷ d.trace;
            },
          )
          else (false, record d { trace = kmalloc ∷ d.trace }))

-- copy_into_pending_recv, for the first message `m` of a valid ring, which holds a stream header: with
-- more than 16 messages queued it marks the socket as full and leaves the ring and the queue;
-- without memory it leaves both; otherwise the message, whole, becomes the socket's last entry and
-- leaves the ring, which is valid and holds the other messages. It never faults.
pub copy_into_pending_recv_lem :
    (env : Env) (address a : ℕ) (d : Driver) (p : Private) (r : Ring) (m : Message)
    (ms : List Message)
    → d.privates a ≡ some p
    → lookup address d.ring_list ≡ some r
    → IsValid r.ring
    → Holds r.ring (m ∷ ms)
    → stream_header_size ≤ length m.payload
    → (copy_into_pending_recv env address (length m.payload) a d
        ≡ some (queue_result env address a d p r m))
      × IsValid (popped r.ring m)
      × Holds (popped r.ring m) ms
unfolding copy_into_pending_recv
copy_into_pending_recv_lem env address a d p r m ms es er v h n =
    let (e, v', h') = copy_out-first r.ring m ms true 0 true v h in
    (
      load_private-bind a _ d p es
          ∙ elim (Bool-cases (ltb max_pending_recvs p.pending_recv_count)) [
            | inl x ↦ rw x refl
            | inr x ↦ rw x (elim (Bool-cases (env.allocated (kmalloc ∷ d.trace))) [
              | inr y ↦ rw y refl
              | inl y ↦
                  let dt = record d { trace = kmalloc ∷ d.trace } in
                  let dr = record dt {
                    ring_list = replace address (record r { ring = popped r.ring m }) d.ring_list;
                  } in
                  let got = delivery m true (length m.payload) in
                  let q = queued-entry_of m n (payload_small address d r m ms er v h) in
                  rw y (
                    bind_lem (copy_from_ring address true (length m.payload) true) _ dt dr
                      (some got) (copy_from_ring_lem address dt r m ms er v h (length m.payload))
                    ∙ load_private-bind a _ dr p es
                    ∙ ap
                        (λ z. some (
                          true,
                          record dr { privates = update d.privates a (some (with_entry p z)) },
                        ))
                        q)
            ])
          ],
      v',
      h',
    )

pending_bytes-append :
    (l : List PendingRecv) (q : PendingRecv)
    → pending_bytes (l ++ (q ∷ [])) ≡ pending_bytes l ++ drop q.data_ptr q.bytes
pending_bytes-append [] q = append-nil (drop q.data_ptr q.bytes)
pending_bytes-append (p ∷ l) q =
    ap (λ x. drop p.data_ptr p.bytes ++ x) (pending_bytes-append l q)
    ∙ sym (append_assoc (drop p.data_ptr p.bytes) (pending_bytes l) (drop q.data_ptr q.bytes))

AreEntries-append :
    (l : List PendingRecv) (q : PendingRecv) → AreEntries l → IsEntry q → AreEntries (l ++ (q ∷ []))
AreEntries-append [] q h k = (k, tt)
AreEntries-append (p ∷ l) q (h, hs) k = (h, AreEntries-append l q hs k)

-- A queued message adds what follows its stream header to the end of the stream of bytes that
-- v4v_recv_stream reads, and keeps its entries well formed.
pub with_entry-pending_bytes :
    (p : Private) (m : Message)
    → AreEntries p.pending_recv_list
    → stream_header_size ≤ length m.payload
    → (pending_bytes (with_entry p (entry_of m)).pending_recv_list
        ≡ pending_bytes p.pending_recv_list ++ drop stream_header_size m.payload)
      × AreEntries (with_entry p (entry_of m)).pending_recv_list
with_entry-pending_bytes p m h n = (
  pending_bytes-append p.pending_recv_list (entry_of m),
  AreEntries-append p.pending_recv_list (entry_of m) h
      (length-drop stream_header_size m.payload, omega arith),
)
