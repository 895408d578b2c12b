-- ===== src/Windows/Csq/Pending.antt =====
-- windows/xenv4v/csq.c: what the destination list stands for, and when it is right.
use legacy_v4v.Prelude.{
  ℕ, ◌≤◌, ◌≡◌, Bool, true, false, ◌&&◌, Option, none, some, List, [], ◌∷◌, length, ◌==◌,
  if◌then◌else◌,
}
use legacy_v4v.Abi.{Addr, same_addr}
use legacy_v4v.Windows.Csq.{
  Irp, Destination, Extension, payload_data_len, get_destination, max_irp_count,
}

-- A write to that address
abbrev pub is_write_to : Addr → Irp → Bool
is_write_to a x = x.flags.write && same_addr (get_destination x) a

-- The writes of a queue to one address, in order
abbrev pub pending : Addr → List Irp → List Irp
pending a [] = []
pending a (x ∷ xs) = let rest = pending a xs in if is_write_to a x then x ∷ rest else rest

-- The entry for an address whose pending writes are those of the list: none without writes, else
-- their number, the writes themselves and the length of the first.
abbrev pub summary : Addr → List Irp → Option Destination
summary a [] = none
summary a (x ∷ xs) =
    some
      (record { refc = length (x ∷ xs); next_length = payload_data_len x; chain = x ∷ xs; dst = a })

abbrev pub lookup : Addr → List Destination → Option Destination
lookup a [] = none
lookup a (x ∷ xs) = let rest = lookup a xs in if same_addr x.dst a then some x else rest

abbrev pub Distinct : List Destination → Type 0
Distinct [] = Unit
Distinct (x ∷ xs) = (lookup x.dst xs ≡ none) × Distinct xs

-- No IRP of the list has the number.
abbrev pub IsFresh : ℕ → List Irp → Type 0
IsFresh id [] = Unit
IsFresh id (x ∷ xs) = ((x.id == id) ≡ false) × IsFresh id xs

-- No IRP is queued twice.
abbrev pub UniqueIrps : List Irp → Type 0
UniqueIrps [] = Unit
UniqueIrps (x ∷ xs) = IsFresh x.id xs × UniqueIrps xs

-- Every queued write has its destination in a record of its own.
abbrev pub Stashed : List Irp → Type 0
Stashed [] = Unit
Stashed (x ∷ xs) = (x.flags.write ≡ true → x.stash ≡ some (get_destination x)) × Stashed xs

-- The queue, the destination list and the counts agree.
pub record IsLinked (pde : Extension) : Type 0 where
  pub counted : pde.pending_irp_count ≡ length pde.pending_irp_queue
  pub bounded : pde.pending_irp_count ≤ max_irp_count
  pub destinations :
      (a : Addr) → lookup a pde.dest_list ≡ summary a (pending a pde.pending_irp_queue)
  pub distinct : Distinct pde.dest_list
  pub dest_counted : pde.dest_count ≡ length pde.dest_list
  pub stashed : Stashed pde.pending_irp_queue
  pub unique : UniqueIrps pde.pending_irp_queue
