-- ===== src/Driver/Socket.antt =====
-- linux/v4v.c, "ring goo" and the socket calls that need no peer: a ring is allocated, registered,
-- reference counted and deleted; a socket is opened, sized, bound and made to listen.
pub mod Sizes
pub mod Unique
pub mod Rebound
pub mod Counts
use legacy_v4v.Prelude.{
  ℕ, ◌+◌, ◌*◌, ◌-◌, ◌/◌, Bool, true, false, not, Option, none, some, List, [], ◌∷◌, ltb, ◌==◌,
  if◌then◌else◌, replicate,
}
use legacy_v4v.Abi.{Addr, RingId, domid_none, ring_magic, roundup, header_size}
use legacy_v4v.Errno.{Errno, einval, enomem, eaddrinuse, enotconn, Ret, ok, err, is_nonzero}
use legacy_v4v.Ring.{V4vRing}
use legacy_v4v.Xen.{page_size}
use legacy_v4v.Driver.{
  Ring, RType, rtype_idle, rtype_dgram, rtype_listener, Private, SocketState, idle, bound,
  listening, accepted, connecting, connected, disconnected, PType, ptype_dgram, ptype_stream,
  Driver, Env, Event, update, register_ring, unregister_ring, M, pure, ◌>>=◌, ◌>>◌, fault, skip,
  load_ring, store_ring, load_private, store_private, hypercall, allocate, or_fault,
}
use legacy_v4v.Driver.Ports.{id_in_use, find_spare_port_number}

-- `DEFAULT_RING_SIZE`, with PAGE_SIZE 4096
abbrev pub default_ring_size : ℕ
default_ring_size = roundup (page_size * 32 - 60 - 16)

-- v4v_open_dgram and v4v_open_stream: what `file->private_data` becomes.
abbrev pub opened : PType → Private
opened ptype = record {
  state = idle;
  ptype = ptype;
  desired_ring_size = default_ring_size;
  r = none;
  peer = record { port = 0; domain = 0 };
  conid = 0;
  pending_recv_list = [];
  pending_recv_count = 0;
  pending_error = none;
  full = false;
  send_blocked = 0;
}

-- The address of the new socket is the second part of the result.
unfoldable pub open_socket : Env → PType → M (Ret × ℕ)
open_socket env ptype = do
  got ← allocate env
  (λ d.
      if got
      then some (
        (ok 0, d.next_address),
        record d {
          privates = update d.privates d.next_address (some (opened ptype));
          next_address = d.next_address + 1;
        },
      )
      else some ((err enomem, 0), d))

abbrev pub is_idle : SocketState → Bool
is_idle idle = true
is_idle _ = false

-- `if (c) return -e;`
abbrev pub reject_if : Bool → Errno → M Ret → M Ret
reject_if c e rest = if c then pure (err e) else rest

-- v4v_set_ring_size
unfoldable pub set_ring_size : ℕ → ℕ → M Ret
set_ring_size a ring_size = do
  p ← load_private a
  reject_if (ltb ring_size (header_size + roundup 1)) einval (
      reject_if (not (ring_size == roundup ring_size)) einval (
        reject_if (not (is_idle p.state)) einval
          (store_private a (record p { desired_ring_size = ring_size }) >> pure (ok 0))))

-- allocate_pfn_list: the number of pages it lists. PAGE_SIZE is an unsigned long, of 64 bits, so that
-- the sum with the ring's length of 32 bits does not wrap.
abbrev pub npage_for : ℕ → ℕ
npage_for len = (len + page_size - 1) / page_size

abbrev pub fresh_ring : ℕ → V4vRing
fresh_ring ring_len = record {
  magic = ring_magic;
  id = record { addr = record { port = 0; domain = 0 }; partner = 0 };
  len = ring_len;
  rx_ptr = 0;
  tx_ptr = 0;
  ring = replicate ring_len 0x5a;
}

-- allocate_ring: `r->ring` and the size of `r->pfn_list`, or an error.
unfoldable pub allocate_ring : Env → ℕ → M (Ret × V4vRing × ℕ)
allocate_ring env ring_len =
    if ring_len == roundup ring_len
    then (do
      mapped ← allocate env
      if mapped
          then (do
            listed ← allocate env
            pure ((if listed then ok 0 else err enomem), fresh_ring ring_len, npage_for ring_len))
          else pure (err enomem, fresh_ring ring_len, 0))
    else pure (err einval, fresh_ring ring_len, 0)

-- The rest of new_ring once the ring is allocated: `id` is the wanted id.
-- The failure path resets the sponsor whatever its state was.
abandon : ℕ → Ret → M Ret
abandon a ret = do
  p ← load_private a
  store_private a (record p { r = none; state = idle })
  pure ret

register : Env → ℕ → RingId → V4vRing → ℕ → M Ret
unfolding abandon
register env a id v npage = do
  p ← load_private a
  (λ d.
      let address = d.next_address in
      (do
        store_private a (record p { r = some address; state = bound })
        ret ← hypercall env (register_ring id)
        if is_nonzero ret
            then abandon a ret
            else link address (record {
              refcnt = 1;
              privates = [];
              sponsor = some a;
              type = rtype_idle;
              ring = record v { id = id };
              npage = npage;
            }))
        (record d { next_address = address + 1 }))
  where
    link : ℕ → Ring → M Ret
    link address r d = some (ok 0, record d { ring_list = (address, r) ∷ d.ring_list })

claim : Env → ℕ → RingId → V4vRing → ℕ → M Ret
unfolding register
claim env a id v npage = do
  p ← load_private a
  if not (is_idle p.state)
      then abandon a (err einval)
      else (if id.addr.port == 0
          then (do
            port ← find_spare_port_number env
            register env a (record id { addr = record { port = port; domain = id.addr.domain } }) v
                npage)
          else (λ d.
              if id_in_use id d.ring_list
              then abandon a (err eaddrinuse) d
              else register env a id v npage d))

-- new_ring. The structure's own allocation is not checked, and a failure is written through.
unfoldable pub new_ring : Env → ℕ → RingId → M Ret
unfolding claim
new_ring env a id = do
  p ← load_private a
  reject_if (not (id.addr.domain == domid_none)) einval (do
    got ← allocate env
    if got
        then (do
          made ← allocate_ring env p.desired_ring_size
          if is_nonzero made.0 then pure made.0 else claim env a id made.1 made.2)
        else fault)

-- The case of a datagram socket.
unfoldable pub bind_dgram : Env → ℕ → RingId → M Ret
bind_dgram env a id = do
  ret ← new_ring env a id
  if is_nonzero ret then pure ret else (do
    p' ← load_private a
    address ← or_fault p'.r
    r ← load_ring address
    store_ring address (record r { type = rtype_dgram })
    pure ret)

-- v4v_bind
unfoldable pub bind : Env → ℕ → RingId → M Ret
bind env a id = do
  p ← load_private a
  reject_if (not (id.addr.domain == domid_none)) einval
      (elim p.ptype [ ptype_stream ↦ new_ring env a id | ptype_dgram ↦ bind_dgram env a id ])

abbrev pub is_bound : SocketState → Bool
is_bound bound = true
is_bound _ = false

abbrev pub is_stream : PType → Bool
is_stream ptype_stream = true
is_stream _ = false

-- v4v_listen
unfoldable pub listen : ℕ → M Ret
listen a = do
  p ← load_private a
  reject_if (not (is_stream p.ptype)) einval (
      reject_if (not (is_bound p.state)) einval (do
        address ← or_fault p.r
        r ← load_ring address
        store_ring address (record r { type = rtype_listener })
        store_private a (record p { state = listening })
        pure (ok 0)))

-- get_ring: whether a reference was taken.
unfoldable pub get_ring : ℕ → M Bool
get_ring address = do
  r ← load_ring address
  if r.refcnt == 0
      then pure false
      else (store_ring address (record r { refcnt = r.refcnt + 1 }) >> pure true)

abbrev pub remove_ring : ℕ → List (ℕ × Ring) → List (ℕ × Ring)
remove_ring a [] = []
remove_ring a ((b, r) ∷ l) = if b == a then l else (b, r) ∷ remove_ring a l

-- delete_ring. If the hypercall fails the ring's memory is leaked, and the ring is gone all the same.
unfoldable pub delete_ring : Env → ℕ → M (Unit {0})
delete_ring env address = do
  r ← load_ring address
  (λ d. skip (record d { ring_list = remove_ring address d.ring_list }))
  ret ← hypercall env (unregister_ring r.ring.id)
  skip

-- put_ring, of a pointer that is not NULL
unfoldable pub put_ring : Env → ℕ → M (Unit {0})
unfolding delete_ring
put_ring env address = do
  r ← load_ring address
  store_ring address (record r { refcnt = r.refcnt - 1 })
  if r.refcnt == 1 then delete_ring env address else skip

-- v4v_get_sock_name
unfoldable pub get_sock_name : ℕ → M RingId
get_sock_name a = do
  p ← load_private a
  elim p.r [
    | none ↦ pure (record { addr = record { port = 0; domain = domid_none }; partner = domid_none })
    | some address ↦ (do r ← load_ring address; pure r.ring.id)
  ]

-- v4v_get_peer_name: the address, or ENOTCONN.
unfoldable pub get_peer_name : ℕ → M (Ret × Option Addr)
get_peer_name a = do
  p ← load_private a
  elim p.state [
    | connecting ↦ pure (ok 0, some p.peer)
    | connected ↦ pure (ok 0, some p.peer)
    | accepted ↦ pure (ok 0, some p.peer)
    | _ ↦ pure (err enotconn, none)
  ]

-- v4v_get_sock_type
unfoldable pub get_sock_type : ℕ → M PType
get_sock_type a = do p ← load_private a; pure p.ptype
