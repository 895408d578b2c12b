-- ===== src/Driver/Notify/Wake.antt =====
-- linux/v4v.c, v4v_notify: whom a wakeup wakes. It is a live socket, and it is found by what no wakeup
-- changes.
use legacy_v4v.Prelude.{
  ℕ, Bool, true, false, ◌&&◌, ◌≡◌, refl, sym, ap, ◌∙◌, Option, none, some, List, [], ◌∷◌, ◌==◌,
  if◌then◌else◌, Bool-cases, inl, inr, ==_iff,
}
use legacy_v4v.Abi.{Addr, RingId, same_addr, same_id}
use legacy_v4v.Driver.{
  Ring, RType, rtype_listener, Private, PendingXmit, xmit_inline, waitq_match_sponsor,
  waitq_match_privates, Driver, Event, wake_writeq, M, ◌>>=◌, skip, lookup, or_fault, load_ring,
}
use legacy_v4v.Driver.Loads.{load_private-bind}
use legacy_v4v.Driver.Ports.{find_ring_by_id, find_ring_by_id_type, same_rtype}
use legacy_v4v.Driver.Live.{AllLive, IsLiveSponsor, AreLiveRings, NoDangling, Harmless}
use legacy_v4v.Driver.Notify.{unblock, wakeup_first, wakeup_privates, wakeup_sponsor}

-- The sockets and what has happened, and a driver with them.
abbrev pub Sockets : Type 0
Sockets = (ℕ → Option Private) × List Event

abbrev pub put : Driver → Sockets → Driver
put d st = record d { privates = st.0; trace = st.1 }

abbrev cleared : Option Private → Option Private
cleared none = none
cleared (some p) = some (record p { send_blocked = 0 })

-- The socket, if any, may send again and its writers are woken.
abbrev pub woken : Option ℕ → Sockets → Sockets
woken none st = st
woken (some a) (f, t) = ((λ x. if a == x then cleared (f x) else f x), wake_writeq a ∷ t)

-- The connection of each socket, which finds the one that waits.
abbrev key : Option Private → Option (ℕ × Addr)
key none = none
key (some p) = some (p.conid, p.peer)

abbrev pub keys : (ℕ → Option Private) → ℕ → Option (ℕ × Addr)
keys f a = key (f a)

-- The first socket of the list with that connection
abbrev pub first_of : (ℕ → Option (ℕ × Addr)) → Addr → ℕ → List ℕ → Option ℕ
first_of k peer conid [] = none
first_of k peer conid (a ∷ l) =
    let rest = first_of k peer conid l in
    elim (k a) [
      | none ↦ rest
      | some (c, q) ↦ if c == conid && same_addr peer q then some a else rest
    ]

-- Who waits at the ring at an address: one of its accepted sockets, or its sponsor
abbrev pub private_at : (ℕ → Option (ℕ × Addr)) → List (ℕ × Ring) → Addr → ℕ → Option ℕ → Option ℕ
private_at k rings peer conid none = none
private_at k rings peer conid (some address) = elim (lookup address rings) [
  | none ↦ none
  | some r ↦ first_of k peer conid r.privates
]

abbrev pub sponsor_at : List (ℕ × Ring) → Option ℕ → Option ℕ
sponsor_at rings none = none
sponsor_at rings (some address) = elim (lookup address rings) [ none ↦ none | some r ↦ r.sponsor ]

-- The socket that an entry of the queue waits for
abbrev pub waiting : (ℕ → Option (ℕ × Addr)) → List (ℕ × Ring) → PendingXmit → Option ℕ
waiting k rings p = elim p.type [
  | xmit_inline ↦ none
  | waitq_match_sponsor ↦ sponsor_at rings (find_ring_by_id p.from rings)
  | waitq_match_privates ↦
      private_at k rings p.to p.conid (find_ring_by_id_type p.from rtype_listener rings)
]

abbrev pub wake : Option ℕ → Driver → Driver
wake o d = put d (woken o (d.privates, d.trace))

cleared_live :
    (o : Option Private) (p : Private) → o ≡ some p → (q : Private) × (cleared o ≡ some q)
cleared_live o p e = (record p { send_blocked = 0 }, ap cleared e)

woken_live :
    (b : Bool) (o : Option Private) (p : Private)
    → o ≡ some p
    → (q : Private) × ((if b then cleared o else o) ≡ some q)
woken_live true o p e = cleared_live o p e
woken_live false o p e = (p, e)

pub wake-Harmless : (o : Option ℕ) (d : Driver) → Harmless d (wake o d)
wake-Harmless none d = record { rings = refl; queue = refl; count = refl; live = λ a h. h }
wake-Harmless (some a) d = record {
  rings = refl;
  queue = refl;
  count = refl;
  live = λ x (p, e). woken_live (a == x) (d.privates x) p e;
}

key-cleared : (o : Option Private) → key (cleared o) ≡ key o
key-cleared none = refl
key-cleared (some p) = refl

key_if : (b : Bool) (o : Option Private) → key (if b then cleared o else o) ≡ key o
key_if true o = key-cleared o
key_if false o = refl

-- A wakeup changes no connection.
pub keys-woken : (o : Option ℕ) (st : Sockets) → keys (woken o st).0 ≡ keys st.0
keys-woken none st = refl
keys-woken (some a) (f, t) = λ i x. key_if (a == x) (f x) i

unblock-wake :
    (d : Driver) (a : ℕ) (p : Private)
    → d.privates a ≡ some p
    → unblock a d ≡ some (tt, wake (some a) d)
unblock-wake d a p e =
    load_private-bind a _ d p e
    ∙ ap (λ f. some (tt, put d (f, wake_writeq a ∷ d.trace))) (λ i x. at x (a == x) refl i)
  where
    at :
        (x : ℕ) (b : Bool)
        → (a == x) ≡ b
        → (if b then some (record p { send_blocked = 0 }) else d.privates x)
          ≡ (if b then cleared (d.privates x) else d.privates x)
    at x true h = sym (ap cleared (ap d.privates (sym ((==_iff a x).0 h)) ∙ e))
    at x false h = refl

wakeup_first-wake :
    (peer : Addr) (conid : ℕ) (l : List ℕ) (d : Driver)
    → AllLive d l
    → wakeup_first peer conid l d ≡ some (tt, wake (first_of (keys d.privates) peer conid l) d)
unfolding wakeup_first
wakeup_first-wake peer conid [] d h = refl
wakeup_first-wake peer conid (a ∷ l) d ((p, e), hs) =
    load_private-bind a _ d p e
    ∙ by_match (p.conid == conid && same_addr peer p.peer) refl
        (wakeup_first-wake peer conid l d hs)
  where
    rest : Option ℕ
    rest = first_of (keys d.privates) peer conid l

    by_match :
        (b : Bool)
        → (p.conid == conid && same_addr peer p.peer) ≡ b
        → wakeup_first peer conid l d ≡ some (tt, wake rest d)
        → (if b then unblock a else wakeup_first peer conid l) d
          ≡ some (tt, wake (first_of (keys d.privates) peer conid (a ∷ l)) d)
    by_match b m k = by_bool b k ∙ ap (λ o. some (tt, wake o d)) (sym found)
      where
        found : first_of (keys d.privates) peer conid (a ∷ l) ≡ (if b then some a else rest)
        found =
            ap
              (λ (o : Option Private). elim (key o) as (λ x. Option ℕ) [
                | none ↦ rest
                | some (c, q) ↦ if c == conid && same_addr peer q then some a else rest
              ])
              e
            ∙ ap (λ b. if b then some a else rest) m

        by_bool :
            (b : Bool)
            → wakeup_first peer conid l d ≡ some (tt, wake rest d)
            → (if b then unblock a else wakeup_first peer conid l) d
              ≡ some (tt, wake (if b then some a else rest) d)
        by_bool true k = unblock-wake d a p e
        by_bool false k = k

abbrev IsLiveRing : Driver → Option Ring → Type 0
IsLiveRing d none = ⊥
IsLiveRing d (some r) = AllLive d r.privates × IsLiveSponsor d r.sponsor

-- A ring that is found can be read, and the sockets that it points to are live.
abbrev PointsToLive : Driver → Option ℕ → List (ℕ × Ring) → Type 0
PointsToLive d none l = Unit
PointsToLive d (some a) l = IsLiveRing d (lookup a l)

points_later :
    (d : Driver) (o : Option ℕ) (b : ℕ) (s : Ring) (l : List (ℕ × Ring))
    → AllLive d s.privates × IsLiveSponsor d s.sponsor
    → PointsToLive d o l
    → PointsToLive d o ((b, s) ∷ l)
points_later d none b s l k h = tt
points_later d (some a) b s l k h = elim (Bool-cases (b == a)) [ inl e ↦ rw e k | inr e ↦ rw e h ]

points_now :
    (d : Driver) (b : ℕ) (s : Ring) (l : List (ℕ × Ring))
    → AllLive d s.privates × IsLiveSponsor d s.sponsor
    → PointsToLive d (some b) ((b, s) ∷ l)
points_now d b s l k = let e = (==_iff b b).1 refl in rw e k

points_if :
    (d : Driver) (c : Bool) (b : ℕ) (s : Ring) (o : Option ℕ) (l : List (ℕ × Ring))
    → AllLive d s.privates × IsLiveSponsor d s.sponsor
    → PointsToLive d o l
    → PointsToLive d (if c then some b else o) ((b, s) ∷ l)
points_if d true b s o l k h = points_now d b s l k
points_if d false b s o l k h = points_later d o b s l k h

find_ring_by_id-PointsToLive :
    (d : Driver) (id : RingId) (l : List (ℕ × Ring))
    → AreLiveRings d l
    → PointsToLive d (find_ring_by_id id l) l
unfolding find_ring_by_id
find_ring_by_id-PointsToLive d id [] h = tt
find_ring_by_id-PointsToLive d id ((b, s) ∷ l) (h, hs, hl) =
    points_if d (same_id s.ring.id id) b s (find_ring_by_id id l) l (h, hs)
      (find_ring_by_id-PointsToLive d id l hl)

find_ring_by_id_type-PointsToLive :
    (d : Driver) (id : RingId) (t : RType) (l : List (ℕ × Ring))
    → AreLiveRings d l
    → PointsToLive d (find_ring_by_id_type id t l) l
unfolding find_ring_by_id_type
find_ring_by_id_type-PointsToLive d id t [] h = tt
find_ring_by_id_type-PointsToLive d id t ((b, s) ∷ l) (h, hs, hl) =
    points_if d (same_rtype s.type t && same_id s.ring.id id) b s (find_ring_by_id_type id t l) l
      (h, hs) (find_ring_by_id_type-PointsToLive d id t l hl)

-- Each wakeup ends without a fault, and wakes just the socket that waits.
pub wakeup_privates-wake :
    (id : RingId) (peer : Addr) (conid : ℕ) (d : Driver)
    → NoDangling d
    → wakeup_privates id peer conid d
      ≡ some (
        tt,
        wake
            (private_at
              (keys d.privates)
              d.ring_list
              peer
              conid
              (find_ring_by_id_type id rtype_listener d.ring_list))
            d,
      )
unfolding wakeup_privates
wakeup_privates-wake id peer conid d n =
    by_address (find_ring_by_id_type id rtype_listener d.ring_list)
      (find_ring_by_id_type-PointsToLive d id rtype_listener d.ring_list n)
  where
    at_ring :
        (o : Option Ring)
        → IsLiveRing d o
        → ((λ d. or_fault o d) >>= λ (r : Ring). wakeup_first peer conid r.privates) d
          ≡ some (
            tt,
            wake
                (elim o as (λ x. Option ℕ) [
                  | none ↦ none
                  | some r ↦ first_of (keys d.privates) peer conid r.privates
                ])
                d,
          )
    at_ring none h = elim h [ ]
    at_ring (some r) (h, hs) = wakeup_first-wake peer conid r.privates d h

    by_address :
        (o : Option ℕ)
        → PointsToLive d o d.ring_list
        → (elim o as (λ x. Option (Unit {0} × Driver)) [
          | none ↦ skip d
          | some a ↦ (load_ring a >>= λ r. wakeup_first peer conid r.privates) d
        ])
          ≡ some (tt, wake (private_at (keys d.privates) d.ring_list peer conid o) d)
    by_address none h = refl
    by_address (some a) h = at_ring (lookup a d.ring_list) h

pub wakeup_sponsor-wake :
    (id : RingId) (d : Driver)
    → NoDangling d
    → wakeup_sponsor id d
      ≡ some (tt, wake (sponsor_at d.ring_list (find_ring_by_id id d.ring_list)) d)
unfolding wakeup_sponsor
wakeup_sponsor-wake id d n =
    by_address (find_ring_by_id id d.ring_list) (find_ring_by_id-PointsToLive d id d.ring_list n)
  where
    wakes :
        (o : Option ℕ)
        → IsLiveSponsor d o
        → (elim o as (λ x. M (Unit {0})) [ none ↦ skip | some a ↦ unblock a ]) d
          ≡ some (tt, wake o d)
    wakes none h = refl
    wakes (some a) (p, e) = unblock-wake d a p e

    at_ring :
        (o : Option Ring)
        → IsLiveRing d o
        → ((λ d. or_fault o d) >>= λ (r : Ring). elim r.sponsor as (λ x. M (Unit {0})) [
          | none ↦ skip
          | some a ↦ unblock a
        ])
            d
          ≡ some (tt, wake (elim o as (λ x. Option ℕ) [ none ↦ none | some r ↦ r.sponsor ]) d)
    at_ring none h = elim h [ ]
    at_ring (some r) (h, hs) = wakes r.sponsor hs

    by_address :
        (o : Option ℕ)
        → PointsToLive d o d.ring_list
        → (elim o as (λ x. Option (Unit {0} × Driver)) [
          | none ↦ skip d
          | some a ↦
              (load_ring a >>= λ r. elim r.sponsor as (λ x. M (Unit {0})) [
                | none ↦ skip
                | some a ↦ unblock a
              ])
                d
        ])
          ≡ some (tt, wake (sponsor_at d.ring_list o) d)
    by_address none h = refl
    by_address (some a) h = at_ring (lookup a d.ring_list) h
