-- ===== src/Driver/Socket/Counts.antt =====
-- linux/v4v.c, get_ring and put_ring: references to a ring.
use legacy_v4v.Prelude.{
  ℕ, ◌+◌, ◌-◌, ◌<◌, true, false, ◌≡◌, refl, ap, ◌∙◌, some, arith, ◌==◌, if◌then◌else◌,
}
use legacy_v4v.Driver.{Ring, Driver, Env, ◌>>=◌, skip, lookup, replace}
use legacy_v4v.Driver.Loads.{
  load_ring-bind, bind_lem, lookup-replace, replace-lookup, replace-replace,
}
use legacy_v4v.Driver.Socket.{get_ring, put_ring, delete_ring}

-- A reference taken by get_ring and given back by put_ring leaves the driver as it was, if the ring had
-- one before.
pub get_ring-put_ring :
    (env : Env) (address : ℕ) (d : Driver) (r : Ring)
    → lookup address d.ring_list ≡ some r
    → 0 < r.refcnt
    → (get_ring address >>= λ taken. put_ring env address) d ≡ some (tt, d)
unfolding get_ring put_ring
get_ring-put_ring env address d r e h =
    let held : (r.refcnt == 0) ≡ false = ground arith in
    let more : (r.refcnt + 1 == 1) ≡ false = ground arith in
    let r1 = record r { refcnt = r.refcnt + 1 } in
    let d1 = record d { ring_list = replace address r1 d.ring_list } in
    let back : r.refcnt + 1 - 1 ≡ r.refcnt = omega arith in
    bind_lem (get_ring address) _ d d1 true (load_ring-bind address _ d r e ∙ rw held refl)
    ∙ load_ring-bind address _ d1 r1 (lookup-replace address r1 d.ring_list r e)
    ∙ ap
        (λ b. (if b then delete_ring env address else skip) (record d1 {
          ring_list = replace address (record r1 { refcnt = r.refcnt + 1 - 1 }) d1.ring_list;
        }))
        more
    ∙ ap (λ l. some (tt, record d { ring_list = l }))
        (replace-replace address (record r1 { refcnt = r.refcnt + 1 - 1 }) r1 d.ring_list
          ∙ ap (λ n. replace address (record r { refcnt = n }) d.ring_list) back
          ∙ replace-lookup address d.ring_list r e)
