-- ===== src/Driver/Accept.antt =====
-- linux/v4v.c, v4v_accept and v4v_release: a connection gets a socket of its own, and a socket goes.
pub mod Lost
use legacy_v4v.Prelude.{
  ℕ, zero, suc, ◌+◌, ◌-◌, Bool, true, false, ◌&&◌, ◌||◌, not, Option, none, some, List, [], ◌∷◌,
  ◌==◌, if◌then◌else◌,
}
use legacy_v4v.Abi.{RingId, stream_header_bytes, proto_stream}
use legacy_v4v.Errno.{Errno, eagain, einval, enomem, enotty, erestartsys, Ret, ok, err}
use legacy_v4v.Driver.{
  Private, PendingRecv, SocketState, listening, accepted, connecting, connected, ptype_dgram,
  ptype_stream, Driver, Env, M, pure, ◌>>=◌, ◌>>◌, skip, or_fault, load_ring, store_ring,
  load_private, store_private, update, allocate, has_flag, shf_syn, shf_ack,
}
use legacy_v4v.Driver.Socket.{opened, get_ring, put_ring, is_stream, reject_if}
use legacy_v4v.Driver.Xmit.{xmit_queue_inline, xmit_queue_rst_to}
use legacy_v4v.Driver.Stream.{is_empty}

-- `wait_event_interruptible (p->readq, !list_empty (&p->pending_recv_list) || nonblock)`
unfoldable pub wait_accept : Env → ℕ → ℕ → Bool → M (Option Errno)
wait_accept env zero a nonblock = load_private a >>= λ p.
    pure (if not (is_empty p.pending_recv_list) || nonblock then none else some erestartsys)
wait_accept env (suc rounds) a nonblock =
    let rest = wait_accept env rounds a nonblock in
    load_private a >>= λ p.
    if not (is_empty p.pending_recv_list) || nonblock then pure none else (λ d. rest (env.others d))

-- What the first loop of v4v_accept finds: the oldest SYN, or an error.
pub data Found : Type 0 where
  syn : PendingRecv → Found
  failed : Errno → Found

abbrev pub is_syn : PendingRecv → Bool
is_syn p = p.data_len == 0 && has_flag p.sh.flags shf_syn

abbrev pub pop_pending : ℕ → Private → List PendingRecv → M (Option PendingRecv)
pop_pending a p [] = pure none
pop_pending a p (q ∷ l) =
    store_private a
      (record p { pending_recv_list = l; pending_recv_count = p.pending_recv_count - 1 })
    >> pure (some q)

unfoldable pub take_syn : Env → ℕ → ℕ → Bool → M Found
take_syn env zero a nonblock = pure (failed erestartsys)
take_syn env (suc rounds) a nonblock =
    let rest = take_syn env rounds a nonblock in
    let next : M Found = if nonblock then pure (failed eagain) else rest in
    (λ d. wait_accept env (env.patience d) a nonblock d) >>= λ signal. elim signal [
      | some e ↦ pure (failed e)
      | none ↦ load_private a >>= λ p. pop_pending a p p.pending_recv_list >>= λ head. elim head [
        | none ↦ next
        | some q ↦ if is_syn q then pure (syn q) else next
      ]
    ]

-- allocate_fd_with_private is the kernel's work: a file descriptor, or an error.
abbrev pub AllocateFd : Type 0
AllocateFd = Driver → Ret

abbrev pub new_private : ℕ → PendingRecv → Private
new_private address q = record (opened ptype_stream) {
  state = accepted;
  desired_ring_size = 0;
  r = some address;
  peer = q.from;
  conid = q.sh.conid;
}

abbrev pub add_private : ℕ → ℕ → Private → M (Unit {0})
add_private address a p d =
    (load_ring address >>= λ r.
    store_ring address (record r { privates = a ∷ r.privates }) >> store_private a p)
      (record d { next_address = d.next_address + 1 })

-- The socket of the connection that `q` asks for, and the ACK to its peer.
unfoldable pub accept_syn : Env → AllocateFd → ℕ → PendingRecv → M Ret
accept_syn env fd_of a q = do
  got ← allocate env
  if got
      then (do
        p ← load_private a
        address ← or_fault p.r
        taken ← get_ring address
        if taken
            then (λ d.
                let fd = fd_of d in
                elim fd [
                  | err e ↦ (put_ring env address >> pure (err e)) d
                  | ok n ↦
                      (do
                        add_private address d.next_address (new_private address q)
                        r ← load_ring address
                        sent ←
                            xmit_queue_inline env r.ring.id q.from
                              (stream_header_bytes (record { flags = shf_ack; conid = q.sh.conid }))
                              proto_stream
                        pure (ok n))
                        d
                ])
            else pure (err einval))
      else pure (err enomem)

abbrev pub is_listening : SocketState → Bool
is_listening listening = true
is_listening _ = false

-- v4v_accept: its result, and `*peer` where it is a file descriptor. `rounds` bounds the first loop.
unfoldable pub accept : Env → AllocateFd → ℕ → ℕ → Bool → M Ret
accept env fd_of rounds a nonblock = do
  p ← load_private a
  reject_if (not (is_stream p.ptype)) enotty (
      reject_if (not (is_listening p.state)) einval (do
        found ← take_syn env rounds a nonblock
        elim found [ failed e ↦ pure (err e) | syn q ↦ accept_syn env fd_of a q ]))

-- v4v_release: the loop over the pending messages of a listening socket. Each SYN is answered by a
-- RST and goes: what is left, and how many went.
unfoldable pub refuse_pending : Env → RingId → List PendingRecv → M (List PendingRecv × ℕ)
refuse_pending env id [] = pure ([], 0)
refuse_pending env id (q ∷ l) =
    let rest = refuse_pending env id l in
    if has_flag q.sh.flags shf_syn
    then (do xmit_queue_rst_to env id q.sh.conid q.from; left ← rest; pure (left.0, left.1 + 1))
    else (do left ← rest; pure (q ∷ left.0, left.1))

abbrev pub own_ring_id : Private → M RingId
own_ring_id p = do address ← or_fault p.r; r ← load_ring address; pure r.ring.id

abbrev pub rst_peer : Env → Private → M (Unit {0})
rst_peer env p = own_ring_id p >>= λ id. xmit_queue_rst_to env id p.conid p.peer

-- The peers are told.
unfoldable pub say_goodbye : Env → Private → M (Unit {0})
say_goodbye env p = elim p.ptype [
  | ptype_dgram ↦ skip
  | ptype_stream ↦ elim p.state [
    | listening ↦ (do
      address ← or_fault p.r
      r ← load_ring address
      a ← or_fault r.sponsor
      q ← load_private a
      left ← refuse_pending env r.ring.id q.pending_recv_list
      store_private a (record q {
        pending_recv_list = left.0;
        pending_recv_count = q.pending_recv_count - left.1;
      }))
    | connected ↦ rst_peer env p
    | connecting ↦ rst_peer env p
    | accepted ↦ rst_peer env p
    | _ ↦ skip
  ]
]

abbrev pub remove_address : ℕ → List ℕ → List ℕ
remove_address a [] = []
remove_address a (b ∷ l) = if b == a then l else b ∷ remove_address a l

abbrev pub is_own : Option ℕ → ℕ → Bool
is_own none a = false
is_own (some b) a = b == a

-- `list_del (&p->node)`, a write into the ring's list: a fault if put_ring has freed the ring.
abbrev pub unlink : ℕ → ℕ → M (Unit {0})
unlink address a = do
  r ← load_ring address
  store_ring address (record r { privates = remove_address a r.privates })

-- The ring is let go: by its sponsor, or by an accepted socket.
unfoldable pub let_go : Env → ℕ → ℕ → M (Unit {0})
let_go env address a = do
  r ← load_ring address
  if is_own r.sponsor a
      then (store_ring address (record r { sponsor = none }) >> put_ring env address)
      else (put_ring env address >> unlink address a)

abbrev pub forget : ℕ → M (Unit {0})
forget a d = skip (record d { privates = update d.privates a none })

-- v4v_release
unfoldable pub release : Env → ℕ → M Ret
release env a = do
  p ← load_private a
  say_goodbye env p
  elim p.r [ none ↦ skip | some address ↦ let_go env address a ]
  forget a
  pure (ok 0)
