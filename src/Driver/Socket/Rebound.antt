-- ===== src/Driver/Socket/Rebound.antt =====
-- linux/v4v.c, v4v_bind of a socket that is bound already.
use legacy_v4v.Prelude.{
  ℕ, true, false, ◌≡◌, refl, ap, ◌∙◌, none, some, List, ◌∷◌, ◌==◌, if◌then◌else◌, ==_iff,
}
use legacy_v4v.Abi.{RingId, domid_none, roundup}
use legacy_v4v.Errno.{Ret, ok, err, einval}
use legacy_v4v.Driver.{
  Private, idle, PType, ptype_stream, ptype_dgram, Driver, Env, Event, kmalloc, update, M,
}
use legacy_v4v.Driver.Loads.{load_private-bind, bind_lem}
use legacy_v4v.Driver.Socket.{
  bind, bind_dgram, new_ring, claim, abandon, allocate_ring, fresh_ring, npage_for, is_idle,
}
use legacy_v4v.Driver.Socket.Unique.{allocate_ring_lem}

-- v4v_bind of a socket that is not idle, to an id whose domain is V4V_DOMID_NONE, where memory is
-- there and the socket's ring size is a multiple of 16: the answer is EINVAL and the list of rings is
-- the same, but the socket is idle afterwards and has no ring.
pub bind-not_idle :
    (env : Env) (a : ℕ) (d : Driver) (p : Private) (id : RingId)
    (memory : (t : List Event) → env.allocated t ≡ true)
    → d.privates a ≡ some p
    → is_idle p.state ≡ false
    → id.addr.domain ≡ domid_none
    → (p.desired_ring_size == roundup p.desired_ring_size) ≡ true
    → (d' : Driver) × (bind env a id d ≡ some (err einval, d'))
      × (d'.ring_list ≡ d.ring_list)
      × (d'.privates a ≡ some (record p { r = none; state = idle }))
unfolding bind bind_dgram new_ring claim abandon
bind-not_idle env a d p id memory e busy dom size =
    let here = (==_iff id.addr.domain domid_none).1 dom in
    let g = memory (kmalloc ∷ d.trace) in
    let n = p.desired_ring_size in
    let d1 = record d { trace = kmalloc ∷ d.trace } in
    let d3 = record d { trace = kmalloc ∷ kmalloc ∷ kmalloc ∷ d.trace } in
    let lost = record p { r = none; state = idle } in
    let claimed : claim env a id (fresh_ring n) (npage_for n) d3
        ≡ some (err einval, record d3 { privates = update d.privates a (some lost) }) =
      load_private-bind a _ d3 p e ∙ rw busy (load_private-bind a _ d3 p e) in
    let made : new_ring env a id d
        ≡ some (err einval, record d3 { privates = update d.privates a (some lost) }) =
      load_private-bind a _ d p e
      ∙ rw here (
          rw g (
            bind_lem (allocate_ring env n) _ d1 d3 (ok 0, fresh_ring n, npage_for n)
              (allocate_ring_lem env memory n d1 size)
            ∙ claimed)) in
    (
      record d3 { privates = update d.privates a (some lost) },
      load_private-bind a _ d p e ∙ rw here (by_type p.ptype made),
      refl,
      ap (λ b. if b then some lost else d.privates a) ((==_iff a a).1 refl),
    )
  where
    by_type :
        (t : PType) {x : Driver}
        → new_ring env a id d ≡ some (err einval, x)
        → (elim t as (λ x. M Ret) [
          | ptype_stream ↦ new_ring env a id
          | ptype_dgram ↦ bind_dgram env a id
        ])
            d
          ≡ some (err einval, x)
    by_type ptype_stream made = made
    by_type ptype_dgram {x} made = bind_lem (new_ring env a id) _ d x (err einval) made
