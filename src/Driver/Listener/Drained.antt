-- ===== src/Driver/Listener/Drained.antt =====
-- linux/v4v.c, v4v_interrupt_rx: the loop over the ring of a connected socket takes every message.
use legacy_v4v.Prelude.{
  ℕ, zero, suc, ◌+◌, ◌*◌, ◌≤◌, ◌<◌, true, false, ◌||◌, ◌≡◌, refl, sym, ap, ◌∙◌, some, List, [], ◌∷◌,
  ◌++◌, arith, append-nil, append_assoc, length, le→ltb, ◌==◌, if◌then◌else◌, ==_iff,
}
use legacy_v4v.Abi.{read_stream_header, stream_header_size, proto_stream}
use legacy_v4v.Ring.{V4vRing, bytes_to_read}
use legacy_v4v.Ring.Frames.{
  IsValid, Message, Holds, contents, total, length-Frames, bytes_to_read-lt,
}
use legacy_v4v.Ring.Receive.{popped, copy_out-first}
use legacy_v4v.Ring.CopyOut.{length-contents}
use legacy_v4v.Driver.{
  Ring, Private, PendingRecv, Driver, Env, Event, kmalloc, wake_readq, lookup, replace, update,
  has_flag, shf_syn, shf_ack, shf_rst,
}
use legacy_v4v.Driver.Loads.{load_ring-bind, bind_lem, lookup-replace}
use legacy_v4v.Driver.Interrupt.{max_pending_recvs, connector_interrupt}
use legacy_v4v.Driver.Interrupt.Queue.{entry_of, with_entry}
use legacy_v4v.Driver.Interrupt.Connector.{connector_interrupt-queues}
use legacy_v4v.Driver.Listener.{drain, drain_fuel}

-- A data message of the connection: a stream header without SYN, ACK and RST, and bytes.
pub record IsData (conid : ℕ) (m : Message) : Type 0 where
  pub is_stream : m.protocol ≡ proto_stream
  pub long : stream_header_size ≤ length m.payload
  pub own : (read_stream_header m.payload).conid ≡ conid
  pub no_syn : has_flag (read_stream_header m.payload).flags shf_syn ≡ false
  pub plain :
      (has_flag (read_stream_header m.payload).flags shf_ack
        || has_flag (read_stream_header m.payload).flags shf_rst)
      ≡ false

abbrev pub AreData : ℕ → List Message → Type 0
AreData conid [] = Unit
AreData conid (m ∷ ms) = IsData conid m × AreData conid ms

abbrev pub entries_of : List Message → List PendingRecv
entries_of [] = []
entries_of (m ∷ ms) = entry_of m ∷ entries_of ms

size : (r : V4vRing) (ms : List Message) → IsValid r → Holds r ms → bytes_to_read r ≡ total ms
size r ms v h = sym (length-contents r v) ∙ length-Frames ms (contents r) h

pub drained_lem : (r : V4vRing) → IsValid r → Holds r [] → (r.tx_ptr == r.rx_ptr) ≡ true
unfolding bytes_to_read
drained_lem r v h = let e = size r [] v h in ground arith

pub waiting_lem :
    (r : V4vRing) (m : Message) (ms : List Message)
    → IsValid r
    → Holds r (m ∷ ms)
    → (r.tx_ptr == r.rx_ptr) ≡ false
unfolding bytes_to_read
waiting_lem r m ms v h = let e = size r (m ∷ ms) v h in ground arith

count_total : (ms : List Message) → 16 * length ms ≤ total ms
count_total [] = omega arith
count_total (m ∷ ms) = omega (arith, count_total ms)

pub fuel_lem : (r : V4vRing) (ms : List Message) → IsValid r → Holds r ms → length ms < drain_fuel r
fuel_lem r ms v h = omega (arith, size r ms v h, bytes_to_read-lt v, count_total ms)

-- What the loop leaves: an empty valid ring, and a socket with the messages behind what it had.
pub record Emptied (address a : ℕ) (p : Private) (ms : List Message) (d' : Driver) : Type 0 where
  pub r' : Ring
  pub p' : Private
  pub is_ring : lookup address d'.ring_list ≡ some r'
  pub is_socket : d'.privates a ≡ some p'
  pub valid : IsValid r'.ring
  pub holds : Holds r'.ring []
  pub queue : p'.pending_recv_list ≡ p.pending_recv_list ++ entries_of ms
  pub count : p'.pending_recv_count ≡ p.pending_recv_count + length ms
  pub state : p'.state ≡ p.state

-- A later round's effect is the whole loop's.
Emptied-later :
    (address a : ℕ) (p : Private) (m : Message) (ms : List Message) (d' : Driver)
    → Emptied address a (with_entry p (entry_of m)) ms d'
    → Emptied address a p (m ∷ ms) d'
Emptied-later address a p m ms d' e = record {
  r' = e.r';
  p' = e.p';
  is_ring = e.is_ring;
  is_socket = e.is_socket;
  valid = e.valid;
  holds = e.holds;
  queue = e.queue ∙ append_assoc p.pending_recv_list (entry_of m ∷ []) (entries_of ms);
  count = omega (arith, e.count);
  state = e.state;
}

module _ (env : Env) (memory : (t : List Event) → env.allocated t ≡ true) (address a : ℕ) where
  -- The driver after a round.
  abbrev pub round : Driver → Private → Ring → Message → Driver
  round d p r m = record d {
    ring_list = replace address (record r { ring = popped r.ring m }) d.ring_list;
    privates = update d.privates a (some (with_entry p (entry_of m)));
    trace = wake_readq a ∷ kmalloc ∷ d.trace;
  }

  module _ (d : Driver) (p : Private) (r : Ring) (m : Message) (ms : List Message)
      (is_socket : d.privates a ≡ some p) (is_ring : lookup address d.ring_list ≡ some r)
      (sponsored : r.sponsor ≡ some a) (valid : IsValid r.ring) (holds : Holds r.ring (m ∷ ms))
      (data_message : IsData p.conid m) (few : p.pending_recv_count ≤ max_pending_recvs) where
    pub round_lem : connector_interrupt env address d ≡ some (true, round d p r m)
    round_lem =
        let small = le→ltb max_pending_recvs p.pending_recv_count few in
        let got = memory (kmalloc ∷ d.trace) in
        connector_interrupt-queues env address a d p r m ms is_socket is_ring sponsored valid holds
          data_message.is_stream data_message.long data_message.own data_message.no_syn
          data_message.plain
        ∙ rw small (rw got refl)

    drain-round :
        (fuel : ℕ)
        → drain (connector_interrupt env) (suc fuel) address d
          ≡ drain (connector_interrupt env) fuel address (round d p r m)
    unfolding drain
    drain-round fuel =
        let busy = waiting_lem r.ring m ms valid holds in
        load_ring-bind address _ d r is_ring
        ∙ rw busy (bind_lem (connector_interrupt env address) _ d (round d p r m) true round_lem)

  -- With fuel for the messages and one round more, the loop ends with the ring empty.
  drain_fuel_lem :
      (ms : List Message) (fuel : ℕ) (d : Driver) (p : Private) (r : Ring)
      → d.privates a ≡ some p
      → lookup address d.ring_list ≡ some r
      → r.sponsor ≡ some a
      → IsValid r.ring
      → Holds r.ring ms
      → AreData p.conid ms
      → p.pending_recv_count + length ms ≤ suc max_pending_recvs
      → length ms < fuel
      → (d' : Driver) × (drain (connector_interrupt env) fuel address d ≡ some (tt, d'))
        × Emptied address a p ms d'
  unfolding drain
  drain_fuel_lem ms zero d p r es er sp v h ad few f = absurd (omega arith)
  drain_fuel_lem [] (suc fuel) d p r es er sp v h ad few f =
      let quiet = drained_lem r.ring v h in
      (
        d,
        load_ring-bind address _ d r er ∙ rw quiet refl,
        record {
          r' = r;
          p' = p;
          is_ring = er;
          is_socket = es;
          valid = v;
          holds = h;
          queue = sym (append-nil p.pending_recv_list);
          count = omega arith;
          state = refl;
        },
      )
  drain_fuel_lem (m ∷ ms) (suc fuel) d p r es er sp v h (dm, ad) few f =
      let (e, v', h') = copy_out-first r.ring m ms true 0 true v h in
      let self = (==_iff a a).1 refl in
      let p1 = with_entry p (entry_of m) in
      let r1 = record r { ring = popped r.ring m } in
      let (d', run, emptied) =
        drain_fuel_lem ms fuel (round d p r m) p1 r1
          (ap (λ b. if b then some p1 else d.privates a) self)
          (lookup-replace address r1 d.ring_list r er) sp v' h' ad (omega arith) (omega arith) in
      (
        d',
        drain-round d p r m ms es er sp v h dm (omega arith) fuel ∙ run,
        Emptied-later address a p m ms d' emptied,
      )

-- The loop of v4v_interrupt_rx over a connected socket's valid ring, which holds data messages of the
-- socket's own connection, ends within its fuel and without a fault, if there is memory and the
-- messages and those already queued are at most 17: all are queued, whole and in order, behind what
-- was queued before, and the ring is valid and empty.
pub drain_lem :
    (env : Env) (address a : ℕ) (d : Driver) (p : Private) (r : Ring) (ms : List Message)
    → ((t : List Event) → env.allocated t ≡ true)
    → d.privates a ≡ some p
    → lookup address d.ring_list ≡ some r
    → r.sponsor ≡ some a
    → IsValid r.ring
    → Holds r.ring ms
    → AreData p.conid ms
    → p.pending_recv_count + length ms ≤ suc max_pending_recvs
    → (d' : Driver) × (drain (connector_interrupt env) (drain_fuel r.ring) address d
        ≡ some (tt, d'))
      × Emptied address a p ms d'
drain_lem env address a d p r ms memory es er sp v h ad few =
    drain_fuel_lem env memory address a ms (drain_fuel r.ring) d p r es er sp v h ad few
      (fuel_lem r.ring ms v h)
