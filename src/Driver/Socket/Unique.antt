-- ===== src/Driver/Socket/Unique.antt =====
-- linux/v4v.c, new_ring: a ring that is added has an id that no other ring has.
use legacy_v4v.Prelude.{
  ℕ, ◌+◌, Bool, true, false, not, ◌&&◌, ◌≡◌, refl, ap, ap₂, ◌∙◌, Option, none, some, List, [], ◌∷◌,
  ◌==◌, if◌then◌else◌, ==_iff,
}
use legacy_v4v.Abi.{RingId, domid_none, roundup}
use legacy_v4v.Errno.{Ret, ok, err, eaddrinuse, einval}
use legacy_v4v.Ring.{V4vRing}
use legacy_v4v.Driver.{
  Ring, rtype_idle, Private, idle, bound, Driver, Env, Event, kmalloc, random32, register_ring,
  update, M, ◌>>=◌,
}
use legacy_v4v.Driver.Loads.{load_private-bind, bind_lem}
use legacy_v4v.Driver.Ports.{port_of, id_in_use, random_port, spare_port, find_spare_port_number}
use legacy_v4v.Driver.Socket.{
  register, claim, allocate_ring, new_ring, fresh_ring, npage_for, abandon, is_idle,
}

-- No ring of the list has the port and the partner.
abbrev pub IsFresh : ℕ → ℕ → List (ℕ × Ring) → Type 0
IsFresh port partner [] = Unit
IsFresh port partner ((a, r) ∷ l) =
    ((port_of r == port && r.ring.id.partner == partner) ≡ false) × IsFresh port partner l

abbrev pub UniqueIds : List (ℕ × Ring) → Type 0
UniqueIds [] = Unit
UniqueIds ((a, r) ∷ l) = IsFresh (port_of r) r.ring.id.partner l × UniqueIds l

module _ (env : Env) (memory : (t : List Event) → env.allocated t ≡ true) where
  pub allocate_ring_lem :
      (n : ℕ) (d : Driver)
      → (n == roundup n) ≡ true
      → allocate_ring env n d
        ≡ some ((ok 0, fresh_ring n, npage_for n), record d { trace = kmalloc ∷ kmalloc ∷ d.trace })
  unfolding allocate_ring
  allocate_ring_lem n d e =
      let g1 = memory (kmalloc ∷ d.trace) in
      let g2 = memory (kmalloc ∷ kmalloc ∷ d.trace) in rw e (rw g1 (rw g2 refl))

module _ (env : Env) (memory : (t : List Event) → env.allocated t ≡ true)
    (registers : (t : List Event) → env.hypercall t ≡ ok 0) (a : ℕ) where
  -- The ring that register adds for `id`.
  abbrev pub added : RingId → V4vRing → ℕ → Ring
  added id v npage = record {
    refcnt = 1;
    privates = [];
    sponsor = some a;
    type = rtype_idle;
    ring = record v { id = id };
    npage = npage;
  }

  abbrev pub registered : Driver → Private → RingId → V4vRing → ℕ → Driver
  registered d p id v npage = record d {
    ring_list = (d.next_address, added id v npage) ∷ d.ring_list;
    privates = update d.privates a (some (record p { r = some d.next_address; state = bound }));
    next_address = d.next_address + 1;
    trace = register_ring id ∷ d.trace;
  }

  register_lem :
      (d : Driver) (p : Private) (id : RingId) (v : V4vRing) (npage : ℕ)
      → d.privates a ≡ some p
      → register env a id v npage d ≡ some (ok 0, registered d p id v npage)
  unfolding register
  register_lem d p id v npage e =
      let g = registers (register_ring id ∷ d.trace) in load_private-bind a _ d p e ∙ rw g refl

  -- The id asked for, with a spare port.
  abbrev pub spared : Driver → RingId → RingId
  spared d id = record id {
    addr = record {
      port = spare_port (random_port (env.random (random32 ∷ d.trace))) d.ring_list;
      domain = id.addr.domain;
    };
  }

  -- The id that is registered.
  abbrev pub given : Driver → RingId → RingId
  given d id = if id.addr.port == 0 then spared d id else id

  abbrev pub is_taken : Driver → RingId → Bool
  is_taken d id = not (id.addr.port == 0) && id_in_use id d.ring_list

  -- The result, and the driver's list of rings and the socket after it.
  abbrev pub Claims : Driver → Private → RingId → V4vRing → ℕ → M Ret → Bool → Type 0
  Claims d p id v npage m true =
      (d' : Driver) × (m d ≡ some (err eaddrinuse, d')) × (d'.ring_list ≡ d.ring_list)
  Claims d p id v npage m false =
      (d' : Driver) × (m d ≡ some (ok 0, d'))
      × (d'.ring_list ≡ (d.next_address, added id v npage) ∷ d.ring_list)
      × (d'.privates a ≡ some (record p { r = some d.next_address; state = bound }))

  module _ (d : Driver) (p : Private) (id : RingId) (v : V4vRing) (npage : ℕ)
      (is_socket : d.privates a ≡ some p) (is_idle_socket : p.state ≡ idle) where
    bound_to : (x : Private) (f : ℕ → Option Private) → update f a (some x) a ≡ some x
    bound_to x f = ap (λ b. if b then some x else f a) ((==_iff a a).1 refl)

    -- claim of an idle socket goes on as its second test says.
    abbrev go_on : Bool → M Ret
    go_on unasked =
        if unasked
        then (find_spare_port_number env >>= λ port.
            register env a (record id { addr = record { port = port; domain = id.addr.domain } }) v
              npage)
        else (λ d.
            if id_in_use id d.ring_list
            then abandon a (err eaddrinuse) d
            else register env a id v npage d)

    claim-go_on : claim env a id v npage d ≡ go_on (id.addr.port == 0) d
    unfolding claim
    claim-go_on =
        load_private-bind a _ d p is_socket
        ∙ ap
            (λ s. (if not (is_idle s) then abandon a (err einval) else go_on (id.addr.port == 0)) d)
            is_idle_socket

    go_on_lem :
        (z : Bool)
        → (id.addr.port == 0) ≡ z
        → (u : Bool) → id_in_use id d.ring_list ≡ u
        → Claims d p (if z then spared d id else id) v npage (go_on z) (not z && u)
    unfolding abandon find_spare_port_number
    go_on_lem true z u e =
        let dt = record d { trace = random32 ∷ d.trace } in
        (
          registered dt p (spared d id) v npage,
          register_lem dt p (spared d id) v npage is_socket,
          refl,
          bound_to (record p { r = some d.next_address; state = bound }) d.privates,
        )
    go_on_lem false z false e = (
      registered d p id v npage,
      rw e (register_lem d p id v npage is_socket),
      refl,
      bound_to (record p { r = some d.next_address; state = bound }) d.privates,
    )
    go_on_lem false z true e = (
      record d { privates = update d.privates a (some (record p { r = none; state = idle })) },
      rw e (load_private-bind a _ d p is_socket),
      refl,
    )

  Claims-later :
      (d0 d : Driver) (p : Private) (id : RingId) (v : V4vRing) (npage : ℕ) (m n : M Ret) (b : Bool)
      → m d0 ≡ n d
      → d.ring_list ≡ d0.ring_list
      → d.next_address ≡ d0.next_address
      → Claims d p id v npage n b
      → Claims d0 p id v npage m b
  Claims-later d0 d p id v npage m n true e l x (d', r, h) = (d', e ∙ r, h ∙ l)
  Claims-later d0 d p id v npage m n false e l x (d', r, h, k) = (
    d',
    e ∙ r,
    h ∙ ap₂ (λ i y. (i, added id v npage) ∷ y) x l,
    k ∙ ap (λ i. some (record p { r = some i; state = bound })) x,
  )

  -- The driver when new_ring has its memory.
  abbrev pub supplied : Driver → Driver
  supplied d = record d { trace = kmalloc ∷ kmalloc ∷ kmalloc ∷ d.trace }

  pub new_ring_lem :
      (d : Driver) (p : Private) (id : RingId)
      → d.privates a ≡ some p
      → p.state ≡ idle
      → id.addr.domain ≡ domid_none
      → (p.desired_ring_size == roundup p.desired_ring_size) ≡ true
      → Claims d p
          (given (supplied d) id)
          (fresh_ring p.desired_ring_size)
          (npage_for p.desired_ring_size)
          (new_ring env a id)
          (is_taken d id)
  unfolding new_ring
  new_ring_lem d p id e i dom size =
      let here = (==_iff id.addr.domain domid_none).1 dom in
      let g = memory (kmalloc ∷ d.trace) in
      let n = p.desired_ring_size in
      let d1 = record d { trace = kmalloc ∷ d.trace } in
      let d3 = supplied d in
      let start : new_ring env a id d ≡ claim env a id (fresh_ring n) (npage_for n) d3 =
        load_private-bind a _ d p e
        ∙ rw here (
            rw g (
              bind_lem (allocate_ring env n) _ d1 d3 (ok 0, fresh_ring n, npage_for n)
                (allocate_ring_lem env memory n d1 size))) in
      Claims-later d d3 p (given d3 id) (fresh_ring n) (npage_for n) (new_ring env a id)
        (go_on d3 p id (fresh_ring n) (npage_for n) e i (id.addr.port == 0)) (is_taken d id)
        (start ∙ claim-go_on d3 p id (fresh_ring n) (npage_for n) e i) refl refl
        (go_on_lem d3 p id (fresh_ring n) (npage_for n) e i (id.addr.port == 0) refl
          (id_in_use id d.ring_list) refl)

  -- What new_ring did, as its answer says: EADDRINUSE and no ring more, or 0 and one ring more, in
  -- front, whose id is `i` and which the socket is bound to.
  abbrev pub Answers : Driver → Private → RingId → Ret → Driver → Bool → Type 0
  Answers d p i ret d' true = (ret ≡ err eaddrinuse) × (d'.ring_list ≡ d.ring_list)
  Answers d p i ret d' false =
      (ret ≡ ok 0)
      × (d'.ring_list
          ≡ (
            d.next_address,
            added i (fresh_ring p.desired_ring_size) (npage_for p.desired_ring_size),
          )
            ∷ d.ring_list)
      × (d'.privates a ≡ some (record p { r = some d.next_address; state = bound }))
