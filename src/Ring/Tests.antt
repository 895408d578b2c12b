-- ===== src/Ring/Tests.antt =====
-- A ring of 64 bytes whose only message goes round its end, and the theorems on it.
use legacy_v4v.Prelude.{
  ℕ, ◌≡◌, refl, true, false, none, some, List, [], ◌∷◌, ◌++◌, arith, replicate, if◌then◌else◌,
}
use legacy_v4v.Abi.{Addr, MessageHeader, header_bytes, ring_magic, domid_none, proto_dgram}
use legacy_v4v.Ring.{
  V4vRing, bytes_to_read, copy_out, copy_message, copy_payload, copy_from, finish,
}
use legacy_v4v.Ring.Frames.{IsValid, Message, Holds}
use legacy_v4v.Ring.Receive.{delivery, popped, copy_out-first, copy_out-empty}

abbrev peer : Addr
peer = record { port = 0x8000_0001; domain = 3 }

abbrev head_bytes : List ℕ
head_bytes = 1 ∷ 2 ∷ 3 ∷ 4 ∷ 5 ∷ 6 ∷ 7 ∷ 8 ∷ 9 ∷ 10 ∷ 11 ∷ 12 ∷ 13 ∷ 14 ∷ 15 ∷ 16 ∷ []

abbrev tail_bytes : List ℕ
tail_bytes = 17 ∷ 18 ∷ 19 ∷ 20 ∷ []

abbrev greeting : Message
greeting = record { source = peer; protocol = proto_dgram; payload = head_bytes ++ tail_bytes }

abbrev greeting_header : MessageHeader
greeting_header = record { len = 36; source = peer; pad = 0; protocol = proto_dgram }

abbrev wrapped : V4vRing
wrapped = record {
  magic = ring_magic;
  id = record { addr = record { port = 80; domain = 1 }; partner = domid_none };
  len = 64;
  rx_ptr = 32;
  tx_ptr = 16;
  ring = tail_bytes ++ (replicate 28 0x5a ++ (header_bytes greeting_header ++ head_bytes));
}

abbrev drained : V4vRing
drained = record wrapped { rx_ptr = 16 }

wrapped-IsValid : IsValid wrapped
wrapped-IsValid = omega arith

drained-IsValid : IsValid drained
drained-IsValid = omega arith

wrapped-Holds : Holds wrapped (greeting ∷ [])
unfolding bytes_to_read
wrapped-Holds = (
  [],
  record {
    header = header_bytes greeting_header;
    padding = replicate 12 0x5a;
    is_header = record { size = refl; len = refl; source = refl; protocol = refl };
    padding_size = refl;
    layout = refl;
  },
  refl,
)

drained-Holds : Holds drained []
unfolding bytes_to_read
drained-Holds = refl

-- A buffer that is too short gets the first bytes; the result is still the whole length.
copy_out-wrapped : copy_out wrapped true 18 true ≡ (some (delivery greeting true 18), drained)
unfolding copy_out bytes_to_read copy_message copy_payload copy_from finish
copy_out-wrapped = refl

copy_out-first_example :
    (copy_out wrapped true 18 true
      ≡ (some (delivery greeting true 18), if true then popped wrapped greeting else wrapped))
    × IsValid (popped wrapped greeting)
    × Holds (popped wrapped greeting) []
copy_out-first_example =
    copy_out-first wrapped greeting [] true 18 true wrapped-IsValid wrapped-Holds

copy_out-empty_example : copy_out drained false 0 true ≡ (none, drained)
copy_out-empty_example = copy_out-empty drained false 0 true drained-IsValid drained-Holds
