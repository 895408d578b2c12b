-- ===== src/Abi.antt =====
-- linux/include/xen/v4v.h and linux/linux/v4v_dev.h: the types and constants that the guest shares
-- with the hypervisor. A field of w bits is a number; what is stored in memory is read and written
-- by little-endian bytes.
use legacy_v4v.Prelude.{ℕ, ◌+◌, ◌*◌, ◌/◌, ◌%◌, ◌^◌, ◌-◌, Bool, ◌&&◌, List, [], ◌∷◌, get_or, ◌==◌}

-- `struct v4v_addr`
pub record Addr : Type 0 where
  pub port : ℕ
  pub domain : ℕ

-- `struct v4v_ring_id`
pub record RingId : Type 0 where
  pub addr : Addr
  pub partner : ℕ

abbrev pub domid_none : ℕ
domid_none = 0x7fff

abbrev pub ring_magic : ℕ
ring_magic = 0xdf6977f231abd910

abbrev pub proto_dgram : ℕ
proto_dgram = 0x3c2c1db8

abbrev pub proto_stream : ℕ
proto_stream = 0x70f6a8e5

-- `memcmp` of two packed addresses or ids, as the test for 0: the fields are compared.
abbrev pub same_addr : Addr → Addr → Bool
same_addr a b = a.port == b.port && a.domain == b.domain

abbrev pub same_id : RingId → RingId → Bool
same_id a b = same_addr a.addr b.addr && a.partner == b.partner

-- uint32_t a + b and a - b
abbrev pub add32 : ℕ → ℕ → ℕ
add32 a b = (a + b) % 2 ^ 32

abbrev pub sub32 : ℕ → ℕ → ℕ
sub32 a b = (a + 2 ^ 32 - b) % 2 ^ 32

-- `V4V_ROUNDUP` of a uint32_t
abbrev pub roundup : ℕ → ℕ
roundup a = add32 a 15 / 16 * 16

-- `struct v4v_ring_message_header`
pub record MessageHeader : Type 0 where
  pub len : ℕ
  pub source : Addr
  pub pad : ℕ
  pub protocol : ℕ

-- `sizeof (struct v4v_ring_message_header)`
abbrev pub header_size : ℕ
header_size = 16

-- `struct v4v_stream_header`
pub record StreamHeader : Type 0 where
  pub flags : ℕ
  pub conid : ℕ

-- `sizeof (struct v4v_stream_header)`
abbrev pub stream_header_size : ℕ
stream_header_size = 8

-- Loads and stores of packed fields.
abbrev pub u16_at : List ℕ → ℕ → ℕ
u16_at b i = get_or b i 0 + 256 * get_or b (i + 1) 0

abbrev pub u32_at : List ℕ → ℕ → ℕ
u32_at b i = u16_at b i + 65536 * u16_at b (i + 2)

abbrev pub read_header : List ℕ → MessageHeader
read_header b = record {
  len = u32_at b 0;
  source = record { port = u32_at b 4; domain = u16_at b 8 };
  pad = u16_at b 10;
  protocol = u32_at b 12;
}

abbrev pub read_stream_header : List ℕ → StreamHeader
read_stream_header b = record { flags = u32_at b 0; conid = u32_at b 4 }

-- Byte k of a field.
abbrev pub byte_of : ℕ → ℕ → ℕ
byte_of k n = n / 256 ^ k % 256

abbrev pub header_bytes : MessageHeader → List ℕ
header_bytes h =
    byte_of 0 h.len
    ∷ byte_of 1 h.len
    ∷ byte_of 2 h.len
    ∷ byte_of 3 h.len
    ∷ byte_of 0 h.source.port
    ∷ byte_of 1 h.source.port
    ∷ byte_of 2 h.source.port
    ∷ byte_of 3 h.source.port
    ∷ byte_of 0 h.source.domain
    ∷ byte_of 1 h.source.domain
    ∷ byte_of 0 h.pad
    ∷ byte_of 1 h.pad
    ∷ byte_of 0 h.protocol
    ∷ byte_of 1 h.protocol
    ∷ byte_of 2 h.protocol
    ∷ byte_of 3 h.protocol
    ∷ []

abbrev pub stream_header_bytes : StreamHeader → List ℕ
stream_header_bytes h =
    byte_of 0 h.flags
    ∷ byte_of 1 h.flags
    ∷ byte_of 2 h.flags
    ∷ byte_of 3 h.flags
    ∷ byte_of 0 h.conid
    ∷ byte_of 1 h.conid
    ∷ byte_of 2 h.conid
    ∷ byte_of 3 h.conid
    ∷ []
