-- ===== src/Driver/Tests/Rings.antt =====
-- The theorems on ports, rings and what waits for other rings, applied.
use legacy_v4v.Driver.Accept.Lost.{twice_and_release, bind-bind-release}
use legacy_v4v.Driver.Live.{NoDangling}
use legacy_v4v.Prelude.{◌^◌, ◌≤◌, ◌<◌, ◌≡◌, refl, false, not, none, some, [], ◌∷◌, arith}
use legacy_v4v.Abi.{RingId, domid_none}
use legacy_v4v.Errno.{ok, err, einval}
use legacy_v4v.Driver.{Ring, ptype_stream, Driver, ◌>>=◌}
use legacy_v4v.Driver.Ports.{id_in_use, random_port, spare_port}
use legacy_v4v.Driver.Ports.Fresh.{IsUnused, random_port_range, spare_port-IsUnused}
use legacy_v4v.Driver.Socket.{opened, set_ring_size}
use legacy_v4v.Driver.Socket.Sizes.{set_ring_size_lem}
use legacy_v4v.Driver.Xmit.{
  matches_private, matches_sponsor, xmit_queue_wakeup_private, xmit_queue_wakeup_sponsor,
}
use legacy_v4v.Driver.Xmit.Wakeups.{
  Requeued, xmit_queue_wakeup_private_lem, xmit_queue_wakeup_sponsor_lem,
}
use legacy_v4v.Driver.Notify.Served.{Notifies, asked, outcome, notify_pending_lem}
use legacy_v4v.Driver.Socket.{get_ring, put_ring}
use legacy_v4v.Driver.Socket.Counts.{get_ring-put_ring}
use legacy_v4v.Errno.{is_nonzero}
use legacy_v4v.Driver.{kmalloc}
use legacy_v4v.Driver.Tests.{
  peer, own_id, socket, ring, driver, env, driver-NoDangling, two_sockets,
}

random_port_range_example : (0x8000_0000 ≤ random_port 5) × (random_port 5 ≤ 0xf000_0000)
random_port_range_example = random_port_range 5 (omega arith)

spare_port-IsUnused_example :
    IsUnused (spare_port (random_port 5) driver.ring_list) driver.ring_list
    × (2 ^ 31 ≤ spare_port (random_port 5) driver.ring_list)
    × (spare_port (random_port 5) driver.ring_list < 2 ^ 32)
spare_port-IsUnused_example =
    spare_port-IsUnused 5 driver.ring_list (omega arith) (omega arith, tt) (omega arith)

-- A connected socket keeps its size.
set_ring_size_lem_example : set_ring_size 1 48 driver ≡ some (err einval, driver)
set_ring_size_lem_example = set_ring_size_lem driver 1 48 socket refl (omega arith)

xmit_queue_wakeup_private_lem_example :
    (d' : Driver) × (xmit_queue_wakeup_private env own_id 5 peer 64 false driver ≡ some (tt, d'))
    × Requeued (matches_private own_id 5 peer) (64 ∷ []) driver d'
xmit_queue_wakeup_private_lem_example =
    xmit_queue_wakeup_private_lem env own_id 5 peer 64 false driver refl (omega arith)

xmit_queue_wakeup_sponsor_lem_example :
    (d' : Driver) × (xmit_queue_wakeup_sponsor env own_id peer 64 false driver ≡ some (tt, d'))
    × Requeued (matches_sponsor own_id peer) (64 ∷ []) driver d'
xmit_queue_wakeup_sponsor_lem_example =
    xmit_queue_wakeup_sponsor_lem env own_id peer 64 false driver refl (omega arith)

notify_pending_lem_example : Notifies env driver (
    outcome env driver
      (env.allocated (kmalloc ∷ driver.trace))
      (not (is_nonzero (env.hypercall (asked env driver)))))
notify_pending_lem_example = notify_pending_lem env driver driver-NoDangling refl

get_ring-put_ring_example : (get_ring 100 >>= λ taken. put_ring env 100) driver ≡ some (tt, driver)
get_ring-put_ring_example = get_ring-put_ring env 100 driver ring refl (omega arith)

abbrev first_id : RingId
first_id = record own_id { addr = record { port = 81; domain = domid_none } }

bind-bind-release_example :
    (d' : Driver) × (twice_and_release env 2 first_id first_id two_sockets
      ≡ some ((ok 0, (err einval, ok 0)), d'))
    × (d'.privates 2 ≡ none)
    × ((r : Ring) × (d'.ring_list ≡ (101, r) ∷ driver.ring_list) × (r.sponsor ≡ some 2))
    × (NoDangling d' → ⊥)
unfolding id_in_use
bind-bind-release_example =
    bind-bind-release env 2 two_sockets (opened ptype_stream) first_id first_id (λ t. refl)
      (λ t. refl) refl refl refl refl refl refl refl
