-- ===== src/Windows/Rings.antt =====
-- windows/xenv4v/ring.c: the ring objects of the device, their reference counts and ports, and
-- V4vCtrlBind of ioctl.c, which gives a file its ring. A pointer to a ring object is its address.
pub mod Counts
pub mod Ports
pub mod Bind
pub mod Reach
use legacy_v4v.Prelude.{
  ℕ, zero, suc, ◌+◌, ◌-◌, ◌/◌, ◌^◌, Bool, true, false, ◌&&◌, ◌||◌, not, Option, none, some, List,
  [], ◌∷◌, ltb, ◌==◌, if◌then◌else◌,
}
use legacy_v4v.Abi.{RingId, add32, sub32}
use legacy_v4v.Xen.{page_size, ring_offset}
use legacy_v4v.Windows.Csq.{
  NtStatus, status_success, status_no_memory, status_invalid_parameter,
  status_invalid_device_request, status_unsuccessful, domid_invalid,
}
use legacy_v4v.Windows.Machine.{ContextState, idle, bound, ContextType, datagram}

-- DOMID_INVALID_COMPAT
abbrev pub domid_invalid_compat : ℕ
domid_invalid_compat = 0x7fff

-- XENV4V_RING: `ring_id`, `ring_length` and `npage` are those of its ring and of its page list.
pub record RingObject : Type 0 where
  pub refc : ℕ
  pub ring_id : RingId
  pub ring_length : ℕ
  pub npage : ℕ
  pub registered : Bool

-- `ringList`, the newest first; `loose` has the objects that are allocated and not in it, and
-- `unregistered` those that were unregistered, the last first.
pub record Rings : Type 0 where
  pub ring_list : List (ℕ × RingObject)
  pub loose : List (ℕ × RingObject)
  pub unregistered : List ℕ

abbrev pub find_object : ℕ → List (ℕ × RingObject) → Option RingObject
find_object a [] = none
find_object a ((b, r) ∷ l) = let rest = find_object a l in if b == a then some r else rest

abbrev pub update_object : ℕ → RingObject → List (ℕ × RingObject) → List (ℕ × RingObject)
update_object a r' [] = []
update_object a r' ((b, r) ∷ l) = (b, if b == a then r' else r) ∷ update_object a r' l

-- RemoveEntryList of the object's entry
abbrev pub remove_object : ℕ → List (ℕ × RingObject) → List (ℕ × RingObject)
remove_object a [] = []
remove_object a ((b, r) ∷ l) =
    let rest = remove_object a l in if b == a then rest else (b, r) ∷ rest

-- How the pool answers the three allocations of a ring: the object's address, and whether the others
-- succeed.
pub record Pool : Type 0 where
  pub object : Option ℕ
  pub ring : Bool
  pub pfn_list : Bool

-- V4vAllocateRing
unfoldable pub v4v_allocate_ring : Pool → ℕ → Option (ℕ × RingObject)
v4v_allocate_ring pool ring_length = elim pool.object [
  | none ↦ none
  | some a ↦
      if not pool.ring
      then none
      else if not pool.pfn_list
      then none
      else some (
        a,
        record {
          refc = 1;
          ring_id = record { addr = record { port = 0; domain = domid_invalid }; partner = 0 };
          ring_length = ring_length;
          npage = add32 (add32 ring_length ring_offset) (page_size - 1) / page_size;
          registered = false;
        },
      )
]

-- V4vAddRefRing. The code reads through the pointer; where there is no object it would fault, and
-- Windows/Rings/Counts shows that there is one.
unfoldable pub add_ref_ring : ℕ → Rings → ℕ × Rings
add_ref_ring a s = elim (find_object a s.ring_list) [
  | none ↦ (0, s)
  | some r ↦
      let count = add32 r.refc 1 in
      (count, record s { ring_list = update_object a (record r { refc = count }) s.ring_list })
]

-- V4vReleaseRing. A count that falls to 0 frees the object without taking it off the list, where it
-- stays with the count 0; Windows/Rings/Counts shows that this does not happen.
unfoldable pub v4v_release_ring : ℕ → Rings → ℕ × Rings
v4v_release_ring a s = elim (find_object a s.ring_list) [
  | none ↦ (0, s)
  | some r ↦
      let count = sub32 r.refc 1 in
      let s' = record s {
        unregistered = if r.registered then a ∷ s.unregistered else s.unregistered;
      } in
      if count == 1
      then (0, record s' { ring_list = remove_object a s.ring_list })
      else if count == 0
      then (0, record s' { ring_list = update_object a (record r { refc = count }) s.ring_list })
      else (count, record s { ring_list = update_object a (record r { refc = count }) s.ring_list })
]

-- V4vPortInUse: `*maxOut` is raised to the highest port in use.
unfoldable pub v4v_port_in_use : ℕ → ℕ → List (ℕ × RingObject) → Bool × ℕ
v4v_port_in_use port max [] = (false, max)
v4v_port_in_use port max ((a, r) ∷ l) =
    let (ret, max') =
      v4v_port_in_use port (if ltb max r.ring_id.addr.port then r.ring_id.addr.port else max) l in
    (r.ring_id.addr.port == port || ret, max')

-- V4vRandomPort, of the number drawn: `|=` sets the top bit.
unfoldable pub v4v_random_port : ℕ → ℕ
v4v_random_port drawn =
    let port = if ltb drawn (2 ^ 31) then drawn + 2 ^ 31 else drawn in
    if ltb 0xf000_0000 port then port - 0x1000_0000 else port

-- V4vSparePortNumber
unfoldable pub spare_port_number : ℕ → List (ℕ × RingObject) → ℕ
spare_port_number port l =
    let (used, max) = v4v_port_in_use port 0x8000_0000 l in if used then add32 max 1 else port

-- V4vRingIdInUse
unfoldable pub ring_id_in_use : RingId → List (ℕ × RingObject) → Bool
ring_id_in_use id [] = false
ring_id_in_use id ((a, r) ∷ l) =
    (r.ring_id.addr.port == id.addr.port && r.ring_id.partner == id.partner) || ring_id_in_use id l

-- V4vLinkToRingList
unfoldable pub link_to_ring_list : ℕ → RingObject → Rings → Rings
link_to_ring_list a r s = record s {
  ring_list = (a, record r { refc = add32 r.refc 1 }) ∷ s.ring_list;
}

-- What V4vCtrlBind reads and sets of the file's context
pub record BindContext : Type 0 where
  pub state : ContextState
  pub type : ContextType
  pub ring_object : Option ℕ
  pub ring_length : ℕ

-- What it gets from outside: the pool's answers, RtlRandomEx, and whether the hypervisor registers
-- the ring.
pub record Outside : Type 0 where
  pub pool : Pool
  pub drawn : ℕ
  pub registers : Bool

abbrev pub is_idle_context : ContextState → Bool
is_idle_context idle = true
is_idle_context _ = false

-- The end of V4vCtrlBind where it failed
unfoldable pub undo_bind : BindContext → Rings → Rings
undo_bind ctx s = elim ctx.ring_object [ none ↦ s | some a ↦ (v4v_release_ring a s).1 ]

-- A ring that is allocated and not linked stays where it is.
abbrev pub left_loose : ℕ → RingObject → Rings → Rings
left_loose a r s = record s { loose = (a, r) ∷ s.loose }

-- The registration of a ring with its id, and the link
unfoldable pub register_ring :
    Outside → BindContext → ℕ → RingObject → Rings → NtStatus × (BindContext × Rings)
register_ring out ctx a r s =
    if out.registers
    then (
      status_success,
      (
        record ctx { state = bound; type = datagram; ring_object = some a },
        link_to_ring_list a (record r { registered = true }) s,
      ),
    )
    else (status_unsuccessful, (ctx, undo_bind ctx (left_loose a r s)))

-- V4vCtrlBind
unfoldable pub ctrl_bind : Outside → BindContext → RingId → Rings → NtStatus × (BindContext × Rings)
ctrl_bind out ctx id s =
    if not (is_idle_context ctx.state)
    then (status_invalid_device_request, (ctx, s))
    else if not (id.addr.domain == domid_invalid || id.addr.domain == domid_invalid_compat)
    then (status_invalid_parameter, (ctx, undo_bind ctx s))
    else elim (v4v_allocate_ring out.pool ctx.ring_length) [
      | none ↦ (status_no_memory, (ctx, undo_bind ctx s))
      | some (a, r) ↦
          let port = spare_port_number (v4v_random_port out.drawn) s.ring_list in
          if id.addr.port == 0
          then register_ring out ctx a
              (record r { ring_id = record id { addr = record id.addr { port = port } } }) s
          else if ring_id_in_use id s.ring_list
          then (
            status_invalid_device_request,
            (ctx, undo_bind ctx (left_loose a (record r { ring_id = id }) s)),
          )
          else register_ring out ctx a (record r { ring_id = id }) s
    ]
