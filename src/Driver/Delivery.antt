-- ===== src/Driver/Delivery.antt =====
-- linux/v4v.c: a message from the ring to the reader, through copy_into_pending_recv and
-- v4v_recv_stream.
use legacy_v4v.Prelude.{
  ℕ, ◌≤◌, true, false, ◌≡◌, refl, ap, ◌∙◌, some, List, [], ◌∷◌, ◌++◌, arith, le→ltb, if◌then◌else◌,
  length, length-append, take, drop, ==_iff,
}
use legacy_v4v.Abi.{stream_header_size}
use legacy_v4v.Ring.Frames.{IsValid, Message, Holds}
use legacy_v4v.Ring.Receive.{popped}
use legacy_v4v.Driver.{Ring, Private, Driver, Env, ◌>>=◌, kmalloc, lookup, replace, update}
use legacy_v4v.Driver.Loads.{bind_lem}
use legacy_v4v.Driver.Send.{stream_connected}
use legacy_v4v.Driver.Stream.{recv_stream}
use legacy_v4v.Driver.Stream.Copy.{AreEntries, pending_bytes, always}
use legacy_v4v.Driver.Stream.Read.{answer, recv_stream_lem}
use legacy_v4v.Driver.Interrupt.{max_pending_recvs, copy_into_pending_recv}
use legacy_v4v.Driver.Interrupt.Queue.{
  entry_of, with_entry, copy_into_pending_recv_lem, with_entry-pending_bytes,
}

-- If there is memory and room in the queue of a connected socket, the first message of a valid ring,
-- once moved there by copy_into_pending_recv, is read by v4v_recv_stream behind the bytes that were
-- queued before and without its stream header: a read of at most `len` bytes that does not wait
-- returns the first of those bytes, and the others stay to be read.
pub copy_into_pending_recv-recv_stream :
    (env : Env) (address a len : ℕ) (d : Driver) (p : Private) (r : Ring) (m : Message)
    (ms : List Message)
    → d.privates a ≡ some p
    → lookup address d.ring_list ≡ some r
    → IsValid r.ring
    → Holds r.ring (m ∷ ms)
    → stream_header_size ≤ length m.payload
    → p.pending_recv_count ≤ max_pending_recvs
    → env.allocated (kmalloc ∷ d.trace) ≡ true
    → stream_connected p.state ≡ true
    → AreEntries p.pending_recv_list
    → p.pending_recv_count ≡ length p.pending_recv_list
    → (d' : Driver) × (p' : Private) × ((copy_into_pending_recv env address (length m.payload) a
            >>= λ done. recv_stream env always a len false true)
          d
        ≡ some (
          answer
              (take len (pending_bytes p.pending_recv_list ++ drop stream_header_size m.payload)),
          d',
        ))
      × (d'.privates a ≡ some p')
      × (pending_bytes p'.pending_recv_list
          ≡ drop len (pending_bytes p.pending_recv_list ++ drop stream_header_size m.payload))
      × AreEntries p'.pending_recv_list
copy_into_pending_recv-recv_stream env address a len d p r m ms es er v h n few memory open' entries
      counted =
    let (e, v', h') = copy_into_pending_recv_lem env address a d p r m ms es er v h n in
    let (bs, entries') = with_entry-pending_bytes p m entries n in
    let p1 = with_entry p (entry_of m) in
    let d1 = record d {
      ring_list = replace address (record r { ring = popped r.ring m }) d.ring_list;
      privates = update d.privates a (some p1);
      trace = kmalloc ∷ d.trace;
    } in
    let self = (==_iff a a).1 refl in
    let small = le→ltb max_pending_recvs p.pending_recv_count few in
    let queued : copy_into_pending_recv env address (length m.payload) a d ≡ some (true, d1) =
      e ∙ rw small (rw memory refl) in
    let is_socket : d1.privates a ≡ some p1 = ap (λ b. if b then some p1 else d.privates a) self in
    let counted' : p1.pending_recv_count ≡ length p1.pending_recv_list =
      omega (arith, counted, length-append p.pending_recv_list (entry_of m ∷ [])) in
    let (p', read, rest, kept, c, s) =
      recv_stream_lem env a len d1 p1 is_socket open' entries' refl counted' in
    (
      record d1 { privates = update d1.privates a (some p') },
      p',
      bind_lem (copy_into_pending_recv env address (length m.payload) a) _ d d1 true queued
          ∙ read
          ∙ ap
              (λ x.
                some (answer (take len x), record d1 { privates = update d1.privates a (some p') }))
              bs,
      ap (λ b. if b then some p' else d1.privates a) self,
      rest ∙ ap (drop len) bs,
      kept,
    )
