-- ===== src/Driver/Accept/Lost.antt =====
-- linux/v4v.c, v4v_bind and v4v_release: a socket that is bound twice loses its ring.
use legacy_v4v.Prelude.{
  ℕ, true, false, ◌≡◌, refl, sym, ap, subst, ◌∙◌, none, some, List, ◌∷◌, ◌==◌, if◌then◌else◌,
  ==_iff,
}
use mathlib.Core.Option.{none-ne-some}
use legacy_v4v.Abi.{RingId, domid_none, roundup}
use legacy_v4v.Errno.{Ret, ok, err, einval}
use legacy_v4v.Driver.{
  Ring, Private, idle, bound, ptype_stream, Driver, Env, Event, update, M, pure, ◌>>=◌,
}
use legacy_v4v.Driver.Loads.{load_private-bind, bind_lem}
use legacy_v4v.Driver.Live.{NoDangling, AreLiveRings}
use legacy_v4v.Driver.Socket.{bind, new_ring, fresh_ring, npage_for}
use legacy_v4v.Driver.Socket.Unique.{Claims, added, given, supplied, is_taken, new_ring_lem}
use legacy_v4v.Driver.Socket.Rebound.{bind-not_idle}
use legacy_v4v.Driver.Accept.{say_goodbye, release}

module _ (env : Env) (a : ℕ) where
  -- The release of an idle stream socket without a ring just forgets it.
  release-idle :
      (d : Driver) (p : Private)
      → d.privates a ≡ some p
      → p.ptype ≡ ptype_stream
      → p.state ≡ idle
      → p.r ≡ none
      → release env a d ≡ some (ok 0, record d { privates = update d.privates a none })
  unfolding release say_goodbye
  release-idle d p e t s r = load_private-bind a _ d p e ∙ rw t (rw s (rw r refl))

  -- A bind of a stream socket to a local id
  bind-stream :
      (d : Driver) (p : Private) (id : RingId)
      → d.privates a ≡ some p
      → p.ptype ≡ ptype_stream
      → id.addr.domain ≡ domid_none
      → bind env a id d ≡ new_ring env a id d
  unfolding bind
  bind-stream d p id e t dom =
      let here = (==_iff id.addr.domain domid_none).1 dom in
      load_private-bind a _ d p e ∙ rw here (rw t refl)

  abbrev pub twice_and_release : RingId → RingId → M (Ret × (Ret × Ret))
  twice_and_release id id' = do
    first ← bind env a id
    again ← bind env a id'
    last ← release env a
    pure (first, (again, last))

IsLive-gone : (d : Driver) (a : ℕ) (p : Private) → d.privates a ≡ none → d.privates a ≡ some p → ⊥
IsLive-gone d a p gone e = none-ne-some p (sym gone ∙ e)

-- v4v_bind of an idle stream socket to a free id, v4v_bind again to any id, and v4v_release, where memory
-- is there, hypercalls give 0, both ids have the domain V4V_DOMID_NONE and the socket has no ring and a
-- ring size that is a multiple of 16. The first answers 0, the second EINVAL and the third 0, and the
-- socket is gone; but the ring of the first bind is still in the list, and its sponsor is the socket
-- that is gone.
pub bind-bind-release :
    (env : Env) (a : ℕ) (d : Driver) (p : Private) (id id' : RingId)
    (memory : (t : List Event) → env.allocated t ≡ true)
    (registers : (t : List Event) → env.hypercall t ≡ ok 0)
    → d.privates a ≡ some p
    → p.ptype ≡ ptype_stream
    → p.state ≡ idle
    → id.addr.domain ≡ domid_none
    → id'.addr.domain ≡ domid_none
    → (p.desired_ring_size == roundup p.desired_ring_size) ≡ true
    → is_taken env memory registers a d id ≡ false
    → (d' : Driver) × (twice_and_release env a id id' d ≡ some ((ok 0, (err einval, ok 0)), d'))
      × (d'.privates a ≡ none)
      × ((r : Ring) × (d'.ring_list ≡ (d.next_address, r) ∷ d.ring_list) × (r.sponsor ≡ some a))
      × (NoDangling d' → ⊥)
bind-bind-release env a d p id id' memory registers e t s dom dom' size free =
    let claims = new_ring_lem env memory registers a d p id e s dom size in
    let (d1, first, rings, socket) =
      subst
        (Claims env memory registers a d p
          (given env memory registers a (supplied env memory registers a d) id)
          (fresh_ring p.desired_ring_size) (npage_for p.desired_ring_size) (new_ring env a id))
        free claims in
    let p1 = record p { r = some d.next_address; state = bound } in
    let (d2, again, same, lost) = bind-not_idle env a d1 p1 id' memory socket refl dom' size in
    let d3 = record d2 { privates = update d2.privates a none } in
    let last = release-idle env a d2 (record p1 { r = none; state = idle }) lost t refl refl in
    let r =
      added env memory registers a
        (given env memory registers a (supplied env memory registers a d) id)
        (fresh_ring p.desired_ring_size) (npage_for p.desired_ring_size) in
    let gone : d3.privates a ≡ none =
      ap (λ b. if b then none else d2.privates a) ((==_iff a a).1 refl) in
    (
      d3,
      bind_lem (bind env a id) _ d d1 (ok 0) (bind-stream env a d p id e t dom ∙ first)
          ∙ bind_lem (bind env a id') _ d1 d2 (err einval) again
          ∙ bind_lem (release env a) _ d2 d3 (ok 0) last,
      gone,
      (r, same ∙ rings, refl),
      λ n.
          let (privates, (q, live), others) = subst (AreLiveRings d3) (same ∙ rings) n in
          IsLive-gone d3 a q gone live,
    )
