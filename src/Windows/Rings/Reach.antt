-- ===== src/Windows/Rings/Reach.antt =====
-- windows/xenv4v: binds, and those who come and go at a ring, in any order.
use legacy_v4v.Prelude.{
  ℕ, ◌-◌, ◌^◌, ◌<◌, ◌≤◌, ◌≡◌, refl, sym, ap, Bool, true, false, ◌||◌, inl, inr, Option, none, some,
  [], ◌==◌, if◌then◌else◌, Bool-cases,
}
use mathlib.Core.Option.{none-ne-some, some-injective}
use legacy_v4v.Abi.{RingId}
use legacy_v4v.Windows.Csq.{
  NtStatus, status_no_memory, status_invalid_device_request, domid_invalid,
}
use legacy_v4v.Windows.Machine.{ContextState, ContextType}
use legacy_v4v.Windows.Rings.{
  RingObject, Rings, Pool, find_object, v4v_allocate_ring, add_ref_ring, v4v_release_ring,
  spare_port_number, v4v_random_port, ring_id_in_use, BindContext, Outside, is_idle_context,
  undo_bind, register_ring, left_loose, ctrl_bind, domid_invalid_compat,
}
use legacy_v4v.Windows.Rings.Counts.{
  more, fewer, AllCounted, link_to_ring_list-AllCounted, add_ref_ring-AllCounted,
  v4v_release_ring-AllCounted,
}

-- A context that has no ring yet
abbrev pub unbound : ContextState → ContextType → ℕ → BindContext
unbound state type ring_length = record {
  state = state;
  type = type;
  ring_object = none;
  ring_length = ring_length;
}

-- Who holds rings when the context has got its own
abbrev pub held_by : BindContext → (ℕ → ℕ) → ℕ → ℕ
held_by ctx h = elim ctx.ring_object [ none ↦ h | some a ↦ more a h ]

-- The pool gives an address that no ring has.
abbrev pub IsFresh : Pool → Rings → Type 0
IsFresh pool s = (a : ℕ) → pool.object ≡ some a → find_object a s.ring_list ≡ none

abbrev pub empty_rings : Rings
empty_rings = record { ring_list = []; loose = []; unregistered = [] }

-- The states of the rings, with the number of contexts that hold each: a context gets a ring by
-- V4vCtrlBind, an accepter shares its listener's, and a context that ends lets go of its ring.
pub data Reachable : Rings → (ℕ → ℕ) → Type 0 where
  start : Reachable empty_rings (λ a. 0)
  gets_ring :
      {s : Rings} {h : ℕ → ℕ} (out : Outside) (state : ContextState) (type : ContextType)
      (ring_length : ℕ) (id : RingId)
      → IsFresh out.pool s
      → Reachable s h
      → Reachable
          (ctrl_bind out (unbound state type ring_length) id s).1.1
          (held_by (ctrl_bind out (unbound state type ring_length) id s).1.0 h)
  shares :
      {s : Rings} {h : ℕ → ℕ} (a : ℕ)
      → 1 ≤ h a
      → h a < 2 ^ 32 - 2
      → Reachable s h
      → Reachable (add_ref_ring a s).1 (more a h)
  lets_go :
      {s : Rings} {h : ℕ → ℕ} (a : ℕ)
      → 1 ≤ h a
      → h a < 2 ^ 32 - 1
      → Reachable s h
      → Reachable (v4v_release_ring a s).1 (fewer a h)

abbrev CountedAfter : (ℕ → ℕ) → NtStatus × (BindContext × Rings) → Type 0
CountedAfter h p = AllCounted p.1.1.ring_list (held_by p.1.0 h)

-- The object that V4vCtrlBind goes on with stands where the pool gave it, and has one reference.
v4v_allocate_ring-refc :
    (o : Option ℕ) (b c : Bool) (n a : ℕ) (r : RingObject)
    → v4v_allocate_ring (record { object = o; ring = b; pfn_list = c }) n ≡ some (a, r)
    → (o ≡ some a) × (r.refc ≡ 1)
unfolding v4v_allocate_ring
v4v_allocate_ring-refc none b c n a r e = absurd (none-ne-some (a, r) e)
v4v_allocate_ring-refc (some k) false c n a r e = absurd (none-ne-some (a, r) e)
v4v_allocate_ring-refc (some k) true false n a r e = absurd (none-ne-some (a, r) e)
v4v_allocate_ring-refc (some k) true true n a r e =
    let q = some-injective _ (a, r) e in (ap (λ p. some p.0) q, sym (ap (λ p. p.1.refc) q))

module _ (s : Rings) (h : ℕ → ℕ) (all : AllCounted s.ring_list h) (out : Outside)
    (state : ContextState) (type : ContextType) (ring_length : ℕ) where
  abbrev ctx : BindContext
  ctx = unbound state type ring_length

  register_ring-CountedAfter :
      (a : ℕ) (r : RingObject)
      → find_object a s.ring_list ≡ none
      → r.refc ≡ 1
      → CountedAfter h (register_ring out ctx a r s)
  unfolding register_ring undo_bind
  register_ring-CountedAfter a r new one = elim (Bool-cases out.registers) [
    | inl taken ↦
        rw taken (link_to_ring_list-AllCounted a (record r { registered = true }) s h all new one)
    | inr refused ↦ rw refused all
  ]

  ctrl_bind-CountedAfter :
      (id : RingId) → IsFresh out.pool s → CountedAfter h (ctrl_bind out ctx id s)
  unfolding ctrl_bind undo_bind
  ctrl_bind-CountedAfter id fresh = elim (Bool-cases (is_idle_context state)) [
    | inr busy ↦ rw busy all
    | inl idle ↦
        elim (Bool-cases
          (id.addr.domain == domid_invalid || id.addr.domain == domid_invalid_compat)) [
            | inr named ↦ rw (idle, named) all
            | inl local ↦ rw (idle, local) (by_object (v4v_allocate_ring out.pool ring_length) refl)
          ]
  ]
    where
      port : ℕ
      port = spare_port_number (v4v_random_port out.drawn) s.ring_list

      by_object :
          (o : Option (ℕ × RingObject))
          → v4v_allocate_ring out.pool ring_length ≡ o
          → CountedAfter h (elim o as (λ o. NtStatus × (BindContext × Rings)) [
            | none ↦ (status_no_memory, (ctx, undo_bind ctx s))
            | some (a, r) ↦
                if id.addr.port == 0
                then register_ring out ctx a
                    (record r { ring_id = record id { addr = record id.addr { port = port } } })
                    s
                else if ring_id_in_use id s.ring_list
                then (
                  status_invalid_device_request,
                  (ctx, undo_bind ctx (left_loose a (record r { ring_id = id }) s)),
                )
                else register_ring out ctx a (record r { ring_id = id }) s
          ])
      by_object none e = all
      by_object (some (a, r)) e =
          let (here, one) =
            v4v_allocate_ring-refc out.pool.object out.pool.ring out.pool.pfn_list ring_length a r
              e in
          let new = fresh a here in
          elim (Bool-cases (id.addr.port == 0)) [
            | inl any ↦ rw any (
                register_ring-CountedAfter a
                  (record r { ring_id = record id { addr = record id.addr { port = port } } }) new
                  one)
            | inr given ↦ elim (Bool-cases (ring_id_in_use id s.ring_list)) [
              | inl used ↦ rw (given, used) all
              | inr free ↦
                  rw (given, free)
                    (register_ring-CountedAfter a (record r { ring_id = id }) new one)
            ]
          ]

-- In whatever order contexts get rings, share them and let go of them, and whatever V4vCtrlBind gets
-- from outside, a ring is in the device's list just if a context holds it, and its reference count is
-- one more than the contexts that do: no ring is freed while it is held, and none that has been bound
-- stays when nobody holds it.
pub Reachable-AllCounted : {s : Rings} {h : ℕ → ℕ} → Reachable s h → AllCounted s.ring_list h
Reachable-AllCounted start = λ b. refl
Reachable-AllCounted (gets_ring {s} {h} out state type ring_length id fresh k) =
    ctrl_bind-CountedAfter s h (Reachable-AllCounted k) out state type ring_length id fresh
Reachable-AllCounted (shares {s} {h} a held small k) =
    add_ref_ring-AllCounted a s h (Reachable-AllCounted k) held small
Reachable-AllCounted (lets_go {s} {h} a held small k) =
    v4v_release_ring-AllCounted a s h (Reachable-AllCounted k) held small
