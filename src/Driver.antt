-- ===== src/Driver.antt =====
-- linux/v4v.c: the state of the guest driver. Rings and sockets are reached by address; `ring_list`
-- is a list, newest first, and `file->private_data` a partial map. A fault (`none`) is a
-- dereference of NULL or of freed memory, or a use of memory that was never written.
-- What the driver asks of the outside (hypercalls, memory, random numbers) is answered by an `Env`,
-- which sees all that happened before, newest first. Locks are not part of the state: what a lock
-- protects runs without interruption here.
pub mod Loads
pub mod Live
pub mod Delivery
pub mod Ports
pub mod Socket
pub mod Xmit
pub mod Notify
pub mod Machine
pub mod Interrupt
pub mod Listener
pub mod Send
pub mod Stream
pub mod Dgram
pub mod Connect
pub mod Accept
pub mod Fops
mod Tests
use legacy_v4v.Prelude.{
  ℕ, ◌+◌, ◌%◌, ◌/◌, Bool, true, false, Option, none, some, List, [], ◌∷◌, ◌==◌, if◌then◌else◌,
}
use legacy_v4v.Abi.{Addr, RingId, StreamHeader}
use legacy_v4v.Errno.{Errno, Ret}
use legacy_v4v.Ring.{V4vRing}

-- `v4v_rtype`
pub data RType : Type 0 where
  rtype_idle rtype_dgram rtype_listener rtype_connector : RType

-- `v4v_state`
pub data SocketState : Type 0 where
  idle bound listening accepted connecting connected disconnected : SocketState

-- `v4v_ptype`
pub data PType : Type 0 where
  ptype_dgram ptype_stream : PType

-- `struct ring`
pub record Ring : Type 0 where
  pub refcnt : ℕ
  pub privates : List ℕ
  pub sponsor : Option ℕ
  pub type : RType
  pub ring : V4vRing
  pub npage : ℕ

-- `struct pending_recv`
pub record PendingRecv : Type 0 where
  pub from : Addr
  pub data_len : ℕ
  pub data_ptr : ℕ
  pub sh : StreamHeader
  pub bytes : List ℕ

-- `struct v4v_private`. `pending_error` is 0 or a negated error number.
pub record Private : Type 0 where
  pub state : SocketState
  pub ptype : PType
  pub desired_ring_size : ℕ
  pub r : Option ℕ
  pub peer : Addr
  pub conid : ℕ
  pub pending_recv_list : List PendingRecv
  pub pending_recv_count : ℕ
  pub pending_error : Option Errno
  pub full : Bool
  pub send_blocked : ℕ

-- `enum v4v_pending_xmit_type`
pub data XmitType : Type 0 where
  xmit_inline waitq_match_sponsor waitq_match_privates : XmitType

-- `struct pending_xmit`. `conid` is read only of waitq_match_privates, and `protocol` and `bytes`
-- only of xmit_inline; the code does not set them elsewhere, and they are 0 and empty here.
pub record PendingXmit : Type 0 where
  pub type : XmitType
  pub conid : ℕ
  pub from : RingId
  pub to : Addr
  pub len : ℕ
  pub protocol : ℕ
  pub bytes : List ℕ

-- An entry of `v4v_ring_data_t`, as sent.
pub record Query : Type 0 where
  pub ring : Addr
  pub space_required : ℕ

-- What the driver does to the outside.
pub data Event : Type 0 where
  register_ring unregister_ring : RingId → Event
  send : Addr → Addr → List ℕ → ℕ → Event
  sendv : Addr → Addr → List ℕ → ℕ → Event
  notify : List Query → Event
  null_notify : Event
  wake_readq wake_writeq : ℕ → Event
  kmalloc random32 : Event

pub record Driver : Type 0 where
  pub ring_list : List (ℕ × Ring)
  pub privates : ℕ → Option Private
  pub pending_xmit_list : List PendingXmit
  pub pending_xmit_count : ℕ
  pub next_address : ℕ
  pub trace : List Event

-- The outside: the answer to the newest event of a history; what interrupts and other processes do
-- while a process sleeps in wait_event_interruptible, and after how many wakeups a signal ends the
-- sleep.
pub record Env : Type 0 where
  pub hypercall : List Event → Ret
  pub ring_flags : List Event → ℕ → ℕ
  pub allocated : List Event → Bool
  pub random : List Event → ℕ
  pub others : Driver → Driver
  pub patience : Driver → ℕ

-- `sh->flags & flag`, for a flag of one bit.
abbrev pub has_flag : ℕ → ℕ → Bool
has_flag flags flag = flags / flag % 2 == 1

abbrev pub shf_syn : ℕ
shf_syn = 1

abbrev pub shf_ack : ℕ
shf_ack = 2

abbrev pub shf_rst : ℕ
shf_rst = 4

-- State passing with faults.
abbrev pub M : Type 0 → Type 0
M A = Driver → Option (A × Driver)

abbrev pub pure : {A : Type 0} → A → M A
pure a d = some (a, d)

infixl 5 ◌>>=◌ ◌>>◌
abbrev pub ◌>>=◌ : {A B : Type 0} → M A → (A → M B) → M B
◌>>=◌ m f d = elim (m d) [ none ↦ none | some (a, d') ↦ f a d' ]

abbrev pub ◌>>◌ : {B : Type 0} → M (Unit {0}) → M B → M B
m >> k = m >>= λ _. k

abbrev pub fault : {A : Type 0} → M A
fault d = none

abbrev pub skip : M (Unit {0})
skip d = some (tt, d)

abbrev pub lookup : ℕ → List (ℕ × Ring) → Option Ring
lookup a [] = none
lookup a ((b, r) ∷ l) = if b == a then some r else lookup a l

abbrev pub replace : ℕ → Ring → List (ℕ × Ring) → List (ℕ × Ring)
replace a r [] = []
replace a r ((b, s) ∷ l) = if b == a then (b, r) ∷ l else (b, s) ∷ replace a r l

abbrev pub update : (ℕ → Option Private) → ℕ → Option Private → ℕ → Option Private
update f a p b = if a == b then p else f b

abbrev pub or_fault : {A : Type 0} → Option A → M A
or_fault none d = none
or_fault (some a) d = some (a, d)

-- Reads and writes through a pointer.
abbrev pub load_ring : ℕ → M Ring
load_ring a d = or_fault (lookup a d.ring_list) d

abbrev pub store_ring : ℕ → Ring → M (Unit {0})
store_ring a r d = some (tt, record d { ring_list = replace a r d.ring_list })

abbrev pub load_private : ℕ → M Private
load_private a d = or_fault (d.privates a) d

abbrev pub store_private : ℕ → Private → M (Unit {0})
store_private a p d = some (tt, record d { privates = update d.privates a (some p) })

abbrev pub emit : Event → M (Unit {0})
emit e d = some (tt, record d { trace = e ∷ d.trace })

module _ (env : Env) where
  -- HYPERVISOR_v4v_op
  abbrev pub hypercall : Event → M Ret
  hypercall e d = some (env.hypercall (e ∷ d.trace), record d { trace = e ∷ d.trace })

  -- v4v_kmalloc, as the test that it did not return NULL
  abbrev pub allocate : M Bool
  allocate d = some (env.allocated (kmalloc ∷ d.trace), record d { trace = kmalloc ∷ d.trace })

  -- v4v_random32
  abbrev pub v4v_random32 : M ℕ
  v4v_random32 d = some (env.random (random32 ∷ d.trace), record d { trace = random32 ∷ d.trace })
