-- ===== src/Windows/Rings/Bind.antt =====
-- windows/xenv4v: a ring that is bound gets an id that no other has.
use legacy_v4v.Prelude.{
  ℕ, ◌≡◌, Bool, true, false, not, ◌||◌, Option, none, some, ◌∷◌, ◌==◌, if◌then◌else◌,
}
use legacy_v4v.Abi.{RingId, add32}
use legacy_v4v.Windows.Csq.{
  NtStatus, status_success, status_no_memory, status_invalid_device_request,
  status_invalid_parameter, status_unsuccessful, domid_invalid,
}
use legacy_v4v.Windows.Machine.{ContextState, bound, ContextType, datagram}
use legacy_v4v.Windows.Rings.{
  RingObject, Rings, v4v_allocate_ring, v4v_random_port, spare_port_number, ring_id_in_use,
  BindContext, Outside, undo_bind, left_loose, register_ring, domid_invalid_compat,
}
use legacy_v4v.Windows.Rings.Reach.{unbound}

-- Whether the ring's id may be used: any port will do, or no ring of the list has the id.
abbrev pub is_free : RingId → Rings → Bool
is_free id s = id.addr.port == 0 || not (ring_id_in_use id s.ring_list)

abbrev pub is_local : RingId → Bool
is_local id = id.addr.domain == domid_invalid || id.addr.domain == domid_invalid_compat

-- The id of the new ring: the one asked for, with a spare port in place of port 0
abbrev pub chosen : Outside → RingId → Rings → RingId
chosen out id s =
    if id.addr.port == 0
    then record id {
      addr = record id.addr { port = spare_port_number (v4v_random_port out.drawn) s.ring_list };
    }
    else id

-- The ring that a bind links: at the front of the list, registered, with a reference more, and with an
-- id that no ring of the list has
pub record Linked (out : Outside) (ctx : BindContext) (id : RingId) (s : Rings) (a : ℕ)
    (r : RingObject) (ctx' : BindContext) (s' : Rings) : Type 0 where
  pub rings : s' ≡ record s {
    ring_list =
        (a, record r { ring_id = chosen out id s; registered = true; refc = add32 r.refc 1 })
        ∷ s.ring_list;
  }
  pub has_ring : ctx' ≡ record ctx { state = bound; type = datagram; ring_object = some a }
  pub own_id : ring_id_in_use (chosen out id s) s.ring_list ≡ false

-- Nothing but an object that is not in the list, and to which the context does not point
abbrev pub Left :
    Outside → BindContext → RingId → Rings → ℕ → RingObject → BindContext → Rings → Type 0
Left out ctx id s a r ctx' s' =
    (s' ≡ record s { loose = (a, record r { ring_id = chosen out id s }) ∷ s.loose }) × (ctx' ≡ ctx)

-- With the ring object `(a, r)`, by whether the id may be used and whether the ring is registered
abbrev pub Decided :
    Outside
    → BindContext
    → RingId
    → Rings
    → ℕ
    → RingObject
    → Bool
    → Bool
    → NtStatus × (BindContext × Rings)
    → Type 0
Decided out ctx id s a r true true (status, (ctx', s')) =
    (status ≡ status_success) × Linked out ctx id s a r ctx' s'
Decided out ctx id s a r true false (status, (ctx', s')) =
    (status ≡ status_unsuccessful) × Left out ctx id s a r ctx' s'
Decided out ctx id s a r false registers (status, (ctx', s')) =
    (status ≡ status_invalid_device_request) × Left out ctx id s a r ctx' s'

-- By what the pool gives
abbrev pub Allocated :
    Outside
    → BindContext
    → RingId
    → Rings
    → Option (ℕ × RingObject)
    → NtStatus × (BindContext × Rings)
    → Type 0
Allocated out ctx id s none p = p ≡ (status_no_memory, (ctx, s))
Allocated out ctx id s (some (a, r)) p = Decided out ctx id s a r (is_free id s) out.registers p

-- By the context's state and the domain that is asked for
abbrev pub Outcome :
    Outside → BindContext → RingId → Rings → Bool → Bool → NtStatus × (BindContext × Rings) → Type 0
Outcome out ctx id s false local p = p ≡ (status_invalid_device_request, (ctx, s))
Outcome out ctx id s true false p = p ≡ (status_invalid_parameter, (ctx, s))
Outcome out ctx id s true true p =
    Allocated out ctx id s (v4v_allocate_ring out.pool ctx.ring_length) p

module _ (s : Rings) (out : Outside) (state : ContextState) (type : ContextType) (ring_length : ℕ)
    (id : RingId) where
  abbrev ctx : BindContext
  ctx = unbound state type ring_length

  abbrev spare : ℕ
  spare = spare_port_number (v4v_random_port out.drawn) s.ring_list

  -- What becomes of a ring object.
  abbrev go_on : ℕ → RingObject → Bool → Bool → NtStatus × (BindContext × Rings)
  go_on a r any used =
      if any
      then register_ring out ctx a
          (record r { ring_id = record id { addr = record id.addr { port = spare } } }) s
      else if used
      then (
        status_invalid_device_request,
        (ctx, undo_bind ctx (left_loose a (record r { ring_id = id }) s)),
      )
      else register_ring out ctx a (record r { ring_id = id }) s
