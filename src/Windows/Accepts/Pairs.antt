-- ===== src/Windows/Accepts/Pairs.antt =====
-- windows/xenv4v: accepts and SYNs are matched in their orders.
use legacy_v4v.Prelude.{
  ℕ, zero, suc, ◌%◌, ◌^◌, ◌<◌, ◌≡◌, refl, sym, ap, subst, ◌∙◌, Bool, true, false, Option, none,
  some, List, [], ◌∷◌, length, drop, drop_all, ◌==◌, if◌then◌else◌, arith,
}
use legacy_v4v.Abi.{Addr}
use legacy_v4v.Windows.Csq.{Irp, Extension, status_success, status_no_memory, remove_next_irp}
use legacy_v4v.Windows.Csq.Matching.{matching, matching-Unmatched, matching-Removed}
use legacy_v4v.Windows.Csq.Pending.{IsLinked}
use legacy_v4v.Windows.Csq.Remove.{Takes, remove_next_irp-Takes}
use legacy_v4v.Windows.Machine.{
  accepted, disconnected, Context, Event, completed, signalled, cleared, peer_stored, ack_queued,
  Machine, log, simple_complete, set_context,
}
use legacy_v4v.Windows.Syn.{Listener}
use legacy_v4v.Windows.Syn.Backlog.{Represents, Represents-syn_count, pop_syn-Popped}
use legacy_v4v.Windows.Accepts.{
  Accepting, AcceptParts, accepts_of, send_acknowledge, set_accepted, complete_accept,
  finish_accept, accept_loop, do_accepts,
}
use legacy_v4v.Windows.Writes.Tally.{remove_next_irp-Without}
use legacy_v4v.Windows.Writes.Steps.{Gives}

-- What an accepter has become, and what has been done for it
abbrev pub accepter_after : Bool → Addr × ℕ → Context → Context
accepter_after memory (src, conid) c = record c {
  sdst = src;
  conn_id = conid;
  state = if memory then accepted else disconnected;
}

abbrev pub accept_events : AcceptParts → Irp → Addr × ℕ → List Event → List Event
accept_events parts x (src, conid) t =
    if parts.memory x
    then completed x.id status_success (parts.size x)
      ∷ ack_queued (parts.actx x) (conid % 2 ^ 32)
      ∷ peer_stored x.id src
      ∷ t
    else completed x.id status_no_memory 0 ∷ peer_stored x.id src ∷ t

-- The contexts and the events of accepts that take SYNs, the first the first, until one of the two
-- runs out; then the listener's event is set if SYNs are left, and cleared if not.
abbrev pub paired :
    ℕ
    → AcceptParts
    → List Irp
    → List (Addr × ℕ)
    → (ℕ → Context)
    → List Event
    → (ℕ → Context) × List Event
paired file parts accepts [] c t = (c, cleared file ∷ t)
paired file parts [] (y ∷ ys) c t = (c, signalled file ∷ t)
paired file parts (x ∷ xs) (y ∷ ys) c t =
    paired file parts xs ys (set_context c (parts.actx x) (accepter_after (parts.memory x) y))
      (accept_events parts x y t)

==_refl : (n : ℕ) → (n == n) ≡ true
==_refl n = ground arith

set_context_twice :
    (c : ℕ → Context) (file : ℕ) (g h : Context → Context)
    → set_context (set_context c file g) file h ≡ set_context c file (λ x. h (g x))
set_context_twice c file g h = λ i f. by_file (f == file) (c f) i
  where
    by_file :
        (t : Bool) (x : Context)
        → (if t then h (if t then g x else x) else (if t then g x else x))
          ≡ (if t then h (g x) else x)
    by_file true x = refl
    by_file false x = refl

finish_accept_lem :
    (parts : AcceptParts) (x : Irp) (y : Addr × ℕ) (m : Machine)
    → finish_accept parts x y m ≡ record m {
      contexts = set_context m.contexts (parts.actx x) (accepter_after (parts.memory x) y);
      trace = accept_events parts x y m.trace;
    }
unfolding finish_accept send_acknowledge complete_accept simple_complete
finish_accept_lem parts x (src, conid) m = by_memory (parts.memory x)
  where
    actx : ℕ
    actx = parts.actx x

    m1 : Machine
    m1 = log (peer_stored x.id src) (set_accepted actx (src, conid) m)

    by_memory :
        (b : Bool)
        → complete_accept parts x (send_acknowledge b actx m1) ≡ record m {
          contexts = set_context m.contexts actx (accepter_after b (src, conid));
          trace =
              if b
              then completed x.id status_success (parts.size x)
                ∷ ack_queued actx (conid % 2 ^ 32)
                ∷ peer_stored x.id src
                ∷ m.trace
              else completed x.id status_no_memory 0 ∷ peer_stored x.id src ∷ m.trace;
        }
    by_memory true =
        ap
          (λ t. record m {
            contexts = set_context m.contexts actx (accepter_after true (src, conid));
            trace =
                completed x.id status_success (parts.size x)
                ∷ ack_queued actx (
                    (if t
                      then accepter_after true (src, conid) (m.contexts actx)
                      else m.contexts actx).conn_id
                    % 2 ^ 32)
                ∷ peer_stored x.id src
                ∷ m.trace;
          })
          (==_refl actx)
    by_memory false =
        ap
          (λ c. record m {
            contexts = c;
            trace = completed x.id status_no_memory 0 ∷ peer_stored x.id src ∷ m.trace;
          })
          (set_context_twice m.contexts actx (accepter_after true (src, conid))
            (λ c. record c { state = disconnected }))

-- What V4vDoAccepts has done: the IRPs and the SYNs that met are gone, the others are as they were.
pub record Paired (file : ℕ) (parts : AcceptParts) (syns : List (Addr × ℕ)) (s s' : Accepting)
    : Type 0 where
  pub done :
      (s'.machine.contexts, s'.machine.trace)
      ≡ paired file parts
          (matching (accepts_of file) s.machine.ext.pending_irp_queue)
          syns
          s.machine.contexts
          s.machine.trace
  pub accepts :
      matching (accepts_of file) s'.machine.ext.pending_irp_queue
      ≡ drop (length syns) (matching (accepts_of file) s.machine.ext.pending_irp_queue)
  pub queue :
      Represents s'.listener
        (drop (length (matching (accepts_of file) s.machine.ext.pending_irp_queue)) syns)
  pub linked : IsLinked s'.machine.ext

module _ (file : ℕ) (parts : AcceptParts) where
  -- A round, where there is a SYN
  accept_search :
      (fuel : ℕ) (s : Accepting) (y : Addr × ℕ) (ys : List (Addr × ℕ))
      → length s.machine.ext.pending_irp_queue < suc fuel
      → IsLinked s.machine.ext
      → Represents s.listener (y ∷ ys)
      → ((s' : Accepting)
          → length s'.machine.ext.pending_irp_queue < fuel
          → IsLinked s'.machine.ext
          → Represents s'.listener ys
          → Gives (accept_loop fuel file parts s') (Paired file parts ys s'))
      → (q : Listener) → Represents q ys
      → (o : Option (Irp × Extension)) → remove_next_irp s.machine.ext (accepts_of file) ≡ o
      → Takes s.machine.ext (accepts_of file) o
      → Gives
          (elim o as (λ o. Option Accepting) [
            | none ↦ some (record s { machine = log (signalled file) s.machine })
            | some (irp, ext) ↦ accept_loop fuel file parts (record {
              machine = finish_accept parts irp y (record s.machine { ext = ext });
              listener = q;
            })
          ])
          (Paired file parts (y ∷ ys) s)
  accept_search fuel s y ys h linked held next q v none e t =
      let nothing = matching-Unmatched (accepts_of file) s.machine.ext.pending_irp_queue t in
      (
        record s { machine = log (signalled file) s.machine },
        refl,
        record {
          done =
              ap (λ l. paired file parts l (y ∷ ys) s.machine.contexts s.machine.trace)
                (sym nothing);
          accepts = nothing ∙ ap (drop (suc (length ys))) (sym nothing);
          queue = subst (λ l. Represents s.listener (drop (length l) (y ∷ ys))) (sym nothing) held;
          linked = linked;
        },
      )
  accept_search fuel s y ys h linked held next q v (some (irp, ext)) e r =
      let m1 : Machine = record s.machine { ext = ext } in
      let first = matching-Removed (accepts_of file) s.machine.ext irp ext r in
      let w = remove_next_irp-Without s.machine.ext (accepts_of file) irp ext e in
      let m2 : Machine = record m1 {
        contexts = set_context m1.contexts (parts.actx irp) (accepter_after (parts.memory irp) y);
        trace = accept_events parts irp y m1.trace;
      } in
      let (s3, e3, k) =
        next (record { machine = m2; listener = q }) (omega (arith, w.shorter)) r.linked v in
      (
        s3,
        ap (λ m. accept_loop fuel file parts (record { machine = m; listener = q }))
              (finish_accept_lem parts irp y m1)
            ∙ e3,
        record {
          done =
              k.done
              ∙ ap (λ l. paired file parts l (y ∷ ys) s.machine.contexts s.machine.trace)
                  (sym first);
          accepts = k.accepts ∙ ap (drop (suc (length ys))) (sym first);
          queue =
              subst (λ l. Represents s3.listener (drop (length l) (y ∷ ys))) (sym first) k.queue;
          linked = k.linked;
        },
      )

  accept_loop-Paired :
      (fuel : ℕ) (s : Accepting) (syns : List (Addr × ℕ))
      → length s.machine.ext.pending_irp_queue < fuel
      → IsLinked s.machine.ext
      → Represents s.listener syns
      → Gives (accept_loop fuel file parts s) (Paired file parts syns s)
  unfolding accept_loop
  accept_loop-Paired zero s syns h linked held = absurd (omega arith)
  accept_loop-Paired (suc fuel) s [] h linked held =
      let n = Represents-syn_count s.listener [] held in
      let empty : (s.listener.syn_count == 0) ≡ true = ground arith in
      let accepts = matching (accepts_of file) s.machine.ext.pending_irp_queue in
      (
        record s { machine = log (cleared file) s.machine },
        rw empty refl,
        record {
          done = cleared_first accepts;
          accepts = refl;
          queue =
              subst (Represents s.listener) (sym (drop_all (length accepts) [] (omega arith))) held;
          linked = linked;
        },
      )
    where
      cleared_first :
          (l : List Irp)
          → (s.machine.contexts, cleared file ∷ s.machine.trace)
            ≡ paired file parts l [] s.machine.contexts s.machine.trace
      cleared_first [] = refl
      cleared_first (x ∷ xs) = refl
  accept_loop-Paired (suc fuel) s (y ∷ ys) h linked held =
      let n = Represents-syn_count s.listener (y ∷ ys) held in
      let some_left : (s.listener.syn_count == 0) ≡ false = ground arith in
      let (q, e, v, same) = pop_syn-Popped s.listener (y ∷ ys) held in
      rw some_left (
        subst (λ o. Gives (round o) (Paired file parts (y ∷ ys) s)) (sym e)
          (accept_search fuel s y ys h linked held (λ s'. accept_loop-Paired fuel s' ys) q v
            (remove_next_irp s.machine.ext (accepts_of file)) refl
            (remove_next_irp-Takes s.machine.ext (accepts_of file) linked)))
    where
      round : Option ((Addr × ℕ) × Listener) → Option Accepting
      round o = elim (remove_next_irp s.machine.ext (accepts_of file)) as (λ x. Option Accepting) [
        | none ↦ some (record s { machine = log (signalled file) s.machine })
        | some (irp, ext) ↦ elim o as (λ x. Option Accepting) [
          | none ↦ none
          | some (syn, q) ↦ accept_loop fuel file parts (record {
            machine = finish_accept parts irp syn (record s.machine { ext = ext });
            listener = q;
          })
        ]
      ]

-- V4vDoAccepts returns, and its listener's SYNs meet the accept IRPs in the order of both: the context
-- of each accept gets the peer and the connection of its SYN, its ACK is queued and the IRP completes
-- with success, or with STATUS_NO_MEMORY where there is no memory for the ACK, and then the context
-- is disconnected. This ends when SYNs or accepts run out; the listener's event is then cleared if
-- no SYN is left, and else set. The IRPs and the SYNs that are left are as they were.
pub do_accepts-Paired :
    (file : ℕ) (parts : AcceptParts) (s : Accepting) (syns : List (Addr × ℕ))
    → IsLinked s.machine.ext
    → Represents s.listener syns
    → Gives (do_accepts file parts s) (Paired file parts syns s)
unfolding do_accepts
do_accepts-Paired file parts s syns linked held =
    accept_loop-Paired file parts (suc (length s.machine.ext.pending_irp_queue)) s syns
      (omega arith) linked held
