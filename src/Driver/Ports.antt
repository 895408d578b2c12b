-- ===== src/Driver/Ports.antt =====
-- linux/v4v.c, "port/ring uniqueness": the ports that rings use, and a port for a ring that asked
-- for none. `find_ring_by_id` and `find_ring_by_id_type` look rings up in the same list.
pub mod Fresh
use legacy_v4v.Prelude.{
  ℕ, ◌+◌, ◌-◌, ◌^◌, Bool, true, false, ◌&&◌, ◌||◌, not, Option, none, some, List, [], ◌∷◌, ltb,
  ◌==◌, if◌then◌else◌,
}
use legacy_v4v.Abi.{Addr, RingId, same_id, add32}
use legacy_v4v.Driver.{
  Ring, RType, rtype_idle, rtype_dgram, rtype_listener, rtype_connector, Driver, Env, M, pure,
  ◌>>=◌, v4v_random32,
}

abbrev pub port_of : Ring → ℕ
port_of r = r.ring.id.addr.port

unfoldable pub id_in_use : RingId → List (ℕ × Ring) → Bool
id_in_use id [] = false
id_in_use id ((a, r) ∷ l) =
    (port_of r == id.addr.port && r.ring.id.partner == id.partner) || id_in_use id l

-- The number of rings that use the port, and `*max` raised to the highest port in use.
unfoldable pub port_in_use : ℕ → ℕ → List (ℕ × Ring) → ℕ × ℕ
port_in_use port max [] = (0, max)
port_in_use port max ((a, r) ∷ l) =
    let (ret, max') = port_in_use port (if ltb max (port_of r) then port_of r else max) l in
    ((if port_of r == port then add32 ret 1 else ret), max')

-- v4v_random_port, of the number drawn: `|=` sets the top bit.
unfoldable pub random_port : ℕ → ℕ
random_port drawn =
    let port = if ltb drawn (2 ^ 31) then drawn + 2 ^ 31 else drawn in
    if ltb 0xf000_0000 port then port - 0x1000_0000 else port

-- v4v_find_spare_port_number, of the port that v4v_random_port gave.
unfoldable pub spare_port : ℕ → List (ℕ × Ring) → ℕ
spare_port port rings =
    let (used, max) = port_in_use port 0x8000_0000 rings in if used == 0 then port else add32 max 1

unfoldable pub find_spare_port_number : Env → M ℕ
find_spare_port_number env = do
  drawn ← v4v_random32 env
  λ d. pure (spare_port (random_port drawn) d.ring_list) d

unfoldable pub find_ring_by_id : RingId → List (ℕ × Ring) → Option ℕ
find_ring_by_id id [] = none
find_ring_by_id id ((a, r) ∷ l) = if same_id r.ring.id id then some a else find_ring_by_id id l

abbrev pub same_rtype : RType → RType → Bool
same_rtype rtype_idle rtype_idle = true
same_rtype rtype_dgram rtype_dgram = true
same_rtype rtype_listener rtype_listener = true
same_rtype rtype_connector rtype_connector = true
same_rtype _ _ = false

unfoldable pub find_ring_by_id_type : RingId → RType → List (ℕ × Ring) → Option ℕ
find_ring_by_id_type id t [] = none
find_ring_by_id_type id t ((a, r) ∷ l) =
    if same_rtype r.type t && same_id r.ring.id id then some a else find_ring_by_id_type id t l
