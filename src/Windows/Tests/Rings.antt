-- ===== src/Windows/Tests/Rings.antt =====
-- A device without rings, a file that binds one, and the theorems on them.
use legacy_v4v.Prelude.{ℕ, ◌≡◌, refl, true, none, some, [], ◌∷◌, arith, replicate}
use legacy_v4v.Abi.{RingId, ring_magic}
use legacy_v4v.Driver.{Ring, rtype_dgram}
use legacy_v4v.Driver.Ports.{random_port, spare_port}
use legacy_v4v.Windows.Machine.{idle, unspecified}
use legacy_v4v.Windows.Rings.{
  RingObject, Rings, Outside, ctrl_bind, spare_port_number, v4v_random_port, register_ring,
  v4v_allocate_ring, add_ref_ring,
}
use legacy_v4v.Windows.Rings.Counts.{more, AllCounted}
use legacy_v4v.Windows.Rings.Reach.{
  unbound, held_by, empty_rings, Reachable, start, gets_ring, shares, Reachable-AllCounted,
}
use legacy_v4v.Windows.Rings.Ports.{spare_port_number-spare_port}

-- A ring for any port
abbrev any_port : RingId
any_port = record { addr = record { port = 0; domain = 0x7ff4 }; partner = 0x7ff4 }

abbrev willing : Outside
willing = record {
  pool = record { object = some 4096; ring = true; pfn_list = true };
  drawn = 7;
  registers = true;
}

abbrev after_bind : Rings
after_bind = (ctrl_bind willing (unbound idle unspecified 64) any_port empty_rings).1.1

abbrev after_bind_holders : ℕ → ℕ
after_bind_holders =
    held_by (ctrl_bind willing (unbound idle unspecified 64) any_port empty_rings).1.0 (λ a. 0)

after_bind-Reachable : Reachable after_bind after_bind_holders
after_bind-Reachable = gets_ring willing idle unspecified 64 any_port (λ a e. refl) start

after_bind_held : after_bind_holders 4096 ≡ 1
unfolding ctrl_bind register_ring v4v_allocate_ring
after_bind_held = refl

Reachable-AllCounted_example :
    AllCounted (add_ref_ring 4096 after_bind).1.ring_list (more 4096 after_bind_holders)
Reachable-AllCounted_example = Reachable-AllCounted (
    shares 4096 (omega (arith, after_bind_held)) (omega (arith, after_bind_held))
      after_bind-Reachable)

-- A ring of each driver, with the port that the number 7 gives
abbrev taken_id : RingId
taken_id = record any_port { addr = record { port = 0x8000_0007; domain = 0x7ff4 } }

abbrev windows_ring : RingObject
windows_ring = record {
  refc = 2;
  ring_id = taken_id;
  ring_length = 64;
  npage = 1;
  registered = true;
}

abbrev linux_ring : Ring
linux_ring = record {
  refcnt = 1;
  privates = [];
  sponsor = none;
  type = rtype_dgram;
  ring = record {
    magic = ring_magic;
    id = taken_id;
    len = 64;
    rx_ptr = 0;
    tx_ptr = 0;
    ring = replicate 64 0;
  };
  npage = 1;
}

spare_port_number-spare_port_example :
    spare_port_number (v4v_random_port 7) ((4096, windows_ring) ∷ [])
    ≡ spare_port (random_port 7) ((100, linux_ring) ∷ [])
spare_port_number-spare_port_example =
    spare_port_number-spare_port 7 ((4096, windows_ring) ∷ []) ((100, linux_ring) ∷ []) (refl, tt)
      (omega arith)
