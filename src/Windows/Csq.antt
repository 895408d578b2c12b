-- ===== src/Windows/Csq.antt =====
-- windows/xenv4v/csq.c: the cancel-safe queue of pending requests (IRPs), and the list of the
-- destinations that pending writes wait for. A list entry or a `nextIrp` link is a position in a
-- list; an IRP is known by its number. What the queue's functions read of an IRP is fixed while it
-- is queued, so that a chain holds the IRPs themselves.
pub mod Matching
pub mod Pending
pub mod Addresses
pub mod Insert
pub mod Remove
pub mod RingData
pub mod Queued
pub mod Shrink
use legacy_v4v.Prelude.{
  ℕ, zero, suc, ◌-◌, ◌≡◌, Bool, true, false, ◌&&◌, ◌||◌, Option, none, some, List, [], ◌∷◌, ◌++◌,
  ◌==◌, if◌then◌else◌,
}
use legacy_v4v.Abi.{Addr, same_addr, add32, sub32, stream_header_size}

-- `Tail.Overlay.DriverContext[0]`, and the masks `types` and `ops` of a search: XENV4V_PEEK_*
pub record Flags : Type 0 where
  pub dgram : Bool
  pub stream : Bool
  pub accept_op : Bool
  pub syn : Bool
  pub ack : Bool
  pub rst : Bool
  pub read : Bool
  pub write : Bool
  pub ioctl : Bool

-- What the driver reads of an IRP: its number, `FileObject`, `DriverContext[0]`,
-- `Parameters.Write.Length`, `Parameters.Read.Length`, and the addresses in its XENV4V_RESET, in the context of its file and
-- at the start of its message. `stash` is the `dst` of its own record, `DriverContext[1]`.
pub record Irp : Type 0 where
  pub id : ℕ
  pub file : ℕ
  pub flags : Flags
  pub write_length : ℕ
  pub read_length : ℕ
  pub reset_dst : Addr
  pub sdst : Addr
  pub message_dst : Addr
  pub stash : Option Addr

-- XENV4V_DESTINATION, as it stands in `destList`: `chain` is what `nextIrp` leads to.
pub record Destination : Type 0 where
  pub refc : ℕ
  pub next_length : ℕ
  pub chain : List Irp
  pub dst : Addr

-- XENV4V_QPEEK; `pfo` is `none` for NULL.
pub record Qpeek : Type 0 where
  pub pfo : Option ℕ
  pub types : Flags
  pub ops : Flags
  pub dst : Addr

-- The fields of XENV4V_EXTENSION that the queue uses.
pub record Extension : Type 0 where
  pub pending_irp_queue : List Irp
  pub pending_irp_count : ℕ
  pub dest_list : List Destination
  pub dest_count : ℕ

-- XENV4V_PAYLOAD_DATA_LEN, with `sizeof(V4V_DATAGRAM)` 6
unfoldable pub payload_data_len : Irp → ℕ
payload_data_len irp =
    if irp.flags.syn || irp.flags.ack || irp.flags.rst
    then stream_header_size
    else (if irp.flags.stream
        then add32 irp.write_length stream_header_size
        else sub32 irp.write_length 6)

-- V4vCsqGetDestination
unfoldable pub get_destination : Irp → Addr
get_destination irp =
    if irp.flags.rst
    then irp.reset_dst
    else (if irp.flags.stream then irp.sdst else irp.message_dst)

-- DOMID_INVALID
abbrev pub domid_invalid : ℕ
domid_invalid = 0x7ff4

abbrev pub share_type : Flags → Flags → Bool
share_type a b = a.dgram && b.dgram || a.stream && b.stream

abbrev pub share_op : Flags → Flags → Bool
share_op a b =
    a.accept_op && b.accept_op
    || a.syn && b.syn
    || a.ack && b.ack
    || a.rst && b.rst
    || a.read && b.read
    || a.write && b.write
    || a.ioctl && b.ioctl

-- `idst->dst` is the address; a search by destination is for IRPs that have the record.
abbrev pub stash_is : Irp → Addr → Bool
stash_is irp a = elim irp.stash [ none ↦ false | some d ↦ same_addr a d ]

-- V4vCsqPeekTest
unfoldable pub peek_test : Irp → Qpeek → Bool
peek_test irp qp = share_type qp.types irp.flags && share_op qp.ops irp.flags && elim qp.pfo [
  | none ↦ qp.dst.domain == domid_invalid || stash_is irp qp.dst
  | some pfo ↦ irp.file == pfo
]

-- V4vCsqChainIrp
unfoldable pub chain_irp : Destination → Irp → Bool → Destination
chain_irp xdst irp front =
    if front
    then record xdst { chain = irp ∷ xdst.chain; next_length = payload_data_len irp }
    else record xdst { chain = xdst.chain ++ (irp ∷ []) }

-- The list without its first IRP of that number.
abbrev pub unlink_irp : ℕ → List Irp → List Irp
unlink_irp id [] = []
unlink_irp id (x ∷ xs) = let rest = unlink_irp id xs in if x.id == id then xs else x ∷ rest

-- The length at the front of a chain, or the old one where the chain is at its end.
abbrev pub front_length : List Irp → ℕ → ℕ
front_length [] old = old
front_length (x ∷ xs) old = payload_data_len x

-- V4vCsqUnchainIrp
unfoldable pub unchain_irp : Destination → ℕ → Destination
unchain_irp xdst id = elim xdst.chain [
  | [] ↦ xdst
  | x ∷ xs ↦
      if x.id == id
      then record xdst { chain = xs; next_length = front_length xs xdst.next_length }
      else record xdst { chain = x ∷ unlink_irp id xs }
]

-- The walk of V4vCsqLinkDestination through `destList`: `none` where no entry has the address.
abbrev pub link_walk : List Destination → Irp → Addr → Bool → Option (List Destination)
link_walk [] irp a front = none
link_walk (x ∷ xs) irp a front =
    let rest = link_walk xs irp a front in
    if same_addr x.dst a
    then some (chain_irp (record x { refc = suc x.refc }) irp front ∷ xs)
    else elim rest [ none ↦ none | some ys ↦ some (x ∷ ys) ]

-- The entry for a first write to an address
abbrev pub new_destination : Irp → Addr → Destination
new_destination irp dst = record {
  refc = 1;
  next_length = payload_data_len irp;
  chain = irp ∷ [];
  dst = dst;
}

-- V4vCsqLinkDestination after the walk, where a new entry may be needed
abbrev pub link_result :
    Extension → Irp → Addr → Bool → Option (List Destination) → Option (Irp × Extension)
link_result pde irp dst block_2 (some dests) = some (irp, record pde { dest_list = dests })
link_result pde irp dst block_2 none =
    if block_2
    then some (
      irp,
      record pde {
        dest_list = pde.dest_list ++ (new_destination irp dst ∷ []);
        dest_count = suc pde.dest_count;
      },
    )
    else none

-- V4vCsqLinkDestination: `none` is FALSE, else the IRP with its record and the device. The two
-- Booleans tell whether the lookaside list gives the first and the second block.
unfoldable pub link_destination : Extension → Irp → Bool → Bool → Bool → Option (Irp × Extension)
link_destination pde irp front block_1 block_2 =
    let dst = get_destination irp in
    let irp' = record irp { stash = some dst } in
    if block_1
    then link_result pde irp' dst block_2 (link_walk pde.dest_list irp' dst front)
    else none

-- The walk of V4vCsqUnlinkDestination: the list, and whether an entry has left it.
abbrev pub unlink_walk : List Destination → ℕ → Addr → List Destination × Bool
unlink_walk [] id a = ([], false)
unlink_walk (x ∷ xs) id a =
    let (rest, gone) = unlink_walk xs id a in
    if same_addr x.dst a
    then (if x.refc - 1 == 0
        then (xs, true)
        else (record (unchain_irp x id) { refc = x.refc - 1 } ∷ xs, false))
    else (x ∷ rest, gone)

-- V4vCsqUnlinkDestination
unfoldable pub unlink_destination : Extension → Irp → Extension
unlink_destination pde irp = elim irp.stash [
  | none ↦ pde
  | some a ↦
      let (dests, gone) = unlink_walk pde.dest_list irp.id a in
      record pde {
        dest_list = dests;
        dest_count = if gone then pde.dest_count - 1 else pde.dest_count;
      }
]

-- XENV4V_MAX_IRP_COUNT
abbrev pub max_irp_count : ℕ
max_irp_count = 65536

pub data NtStatus : Type 0 where
  status_success status_pending status_retry status_cancelled status_no_memory : NtStatus
  status_quota_exceeded status_virtual_circuit_closed status_unsuccessful : NtStatus
  status_invalid_parameter status_buffer_overflow status_not_implemented : NtStatus
  status_invalid_device_request status_buffer_too_small : NtStatus
  status_internal_db_corruption : NtStatus

-- InsertTailList or InsertHeadList, and the count
abbrev pub insert_entry : Extension → Irp → Bool → Extension
insert_entry pde irp front = record pde {
  pending_irp_queue =
      if front then irp ∷ pde.pending_irp_queue else pde.pending_irp_queue ++ (irp ∷ []);
  pending_irp_count = suc pde.pending_irp_count;
}

-- V4vCsqInsertIrpEx
unfoldable pub insert_irp_ex : Extension → Irp → Bool → Bool → Bool → NtStatus × Extension
insert_irp_ex pde irp front block_1 block_2 =
    if pde.pending_irp_count == max_irp_count
    then (status_quota_exceeded, pde)
    else (if irp.flags.write
        then elim (link_destination pde irp front block_1 block_2) [
          | none ↦ (status_no_memory, pde)
          | some (irp', pde') ↦ (status_success, insert_entry pde' irp' front)
        ]
        else (status_success, insert_entry pde irp front))

-- V4vCsqRemoveIrp
unfoldable pub remove_irp : Extension → Irp → Extension
remove_irp pde irp =
    let pde' = if irp.flags.write then unlink_destination pde irp else pde in
    record pde' {
      pending_irp_queue = unlink_irp irp.id pde'.pending_irp_queue;
      pending_irp_count = pde'.pending_irp_count - 1;
    }

-- The loop of V4vCsqPeekNextIrp; `none` for the context is NULL.
abbrev pub peek_walk : List Irp → Option Qpeek → Option Irp
peek_walk [] context = none
peek_walk (x ∷ xs) context =
    let rest = peek_walk xs context in
    elim context [ none ↦ some x | some qp ↦ if peek_test x qp then some x else rest ]

-- The part of the queue behind the IRP of that number.
abbrev pub behind : ℕ → List Irp → List Irp
behind id [] = []
behind id (x ∷ xs) = let rest = behind id xs in if x.id == id then xs else rest

-- V4vCsqPeekNextIrp
unfoldable pub peek_next_irp : Extension → Option Irp → Option Qpeek → Option Irp
peek_next_irp pde none context = peek_walk pde.pending_irp_queue context
peek_next_irp pde (some irp) context = peek_walk (behind irp.id pde.pending_irp_queue) context

-- IoCsqRemoveNextIrp: the first IRP that V4vCsqPeekNextIrp finds, taken out by V4vCsqRemoveIrp.
unfoldable pub remove_next_irp : Extension → Qpeek → Option (Irp × Extension)
remove_next_irp pde qp = elim (peek_next_irp pde none (some qp)) [
  | none ↦ none
  | some irp ↦ some (irp, remove_irp pde irp)
]

-- `v4v_ring_data_ent_t` as the driver fills it in
pub record RingDataEntry : Type 0 where
  pub ring : Addr
  pub space_required : ℕ

abbrev pub take_entries : ℕ → List Destination → List RingDataEntry
take_entries n [] = []
take_entries zero (x ∷ xs) = []
take_entries (suc n) (x ∷ xs) =
    record { ring = x.dst; space_required = x.next_length } ∷ take_entries n xs

-- V4vCopyDestinationRingData where its allocation succeeds: `nent` and the entries.
unfoldable pub copy_destination_ring_data : Extension → ℕ × List RingDataEntry
copy_destination_ring_data pde = (pde.dest_count, take_entries pde.dest_count pde.dest_list)
