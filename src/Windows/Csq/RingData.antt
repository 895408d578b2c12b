-- ===== src/Windows/Csq/RingData.antt =====
-- windows/xenv4v/csq.c: what V4vCopyDestinationRingData asks the hypervisor about.
use legacy_v4v.Prelude.{
  ℕ, suc, ◌≡◌, refl, sym, ap, ◌∙◌, inl, inr, Option, none, some, List, [], ◌∷◌, length,
  if◌then◌else◌, Bool-cases,
}
use legacy_v4v.Abi.{Addr, same_addr}
use legacy_v4v.Windows.Csq.{
  Irp, Destination, Extension, RingDataEntry, payload_data_len, take_entries,
  copy_destination_ring_data,
}
use legacy_v4v.Windows.Csq.Pending.{pending, summary, lookup, Distinct, IsLinked}
use legacy_v4v.Windows.Csq.Addresses.{same_addr-eq}

-- The sizes that the entries for an address ask for
abbrev pub asked : Addr → List RingDataEntry → List ℕ
asked a [] = []
asked a (x ∷ xs) =
    let rest = asked a xs in if same_addr x.ring a then x.space_required ∷ rest else rest

-- The length of the first write of a list
abbrev pub first_length : List Irp → List ℕ
first_length [] = []
first_length (x ∷ xs) = payload_data_len x ∷ []

abbrev lengths : Option Destination → List ℕ
lengths none = []
lengths (some x) = x.next_length ∷ []

length-take_entries : (ds : List Destination) → length (take_entries (length ds) ds) ≡ length ds
length-take_entries [] = refl
length-take_entries (x ∷ xs) = ap suc (length-take_entries xs)

-- An address of the head is not one of the rest.
asked-lookup :
    (a : Addr) (ds : List Destination)
    → Distinct ds
    → asked a (take_entries (length ds) ds) ≡ lengths (lookup a ds)
asked-lookup a [] h = refl
asked-lookup a (x ∷ xs) (fresh, h) = elim (Bool-cases (same_addr x.dst a)) [
  | inl e ↦
      let none_left : lookup a xs ≡ none =
        ap (λ b. lookup b xs) (sym (same_addr-eq x.dst a e)) ∙ fresh in
      rw e (ap (◌∷◌ x.next_length) (asked-lookup a xs h ∙ ap lengths none_left))
  | inr e ↦ rw e (asked-lookup a xs h)
]

-- Where the queue and the destination list are in step, the ring data has `nent` entries, and it
-- asks about each address just once if writes to it are pending and not at all if none are, for the
-- room that the first of these writes needs.
pub copy_destination_ring_data_lem :
    (pde : Extension)
    → IsLinked pde
    → (length (copy_destination_ring_data pde).1 ≡ (copy_destination_ring_data pde).0)
      × ((a : Addr)
          → asked a (copy_destination_ring_data pde).1
            ≡ first_length (pending a pde.pending_irp_queue))
unfolding copy_destination_ring_data
copy_destination_ring_data_lem pde v = (
  ap (λ n. length (take_entries n pde.dest_list)) v.dest_counted
      ∙ length-take_entries pde.dest_list
      ∙ sym v.dest_counted,
  λ a.
      ap (λ n. asked a (take_entries n pde.dest_list)) v.dest_counted
      ∙ asked-lookup a pde.dest_list v.distinct
      ∙ ap lengths (v.destinations a)
      ∙ by_writes a (pending a pde.pending_irp_queue),
)
  where
    by_writes : (a : Addr) (ws : List Irp) → lengths (summary a ws) ≡ first_length ws
    by_writes a [] = refl
    by_writes a (x ∷ xs) = refl
