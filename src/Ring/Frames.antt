-- ===== src/Ring/Frames.antt =====
-- The abstract view of a ring: the messages that it holds, oldest first.
use legacy_v4v.Prelude.{
  ℕ, zero, suc, ◌+◌, ◌*◌, ◌^◌, ◌%◌, ◌≤◌, ◌<◌, ◌≡◌, refl, ap, List, [], ◌∷◌, ◌++◌, arith, take,
  length, get_or, length-append,
}
use legacy_v4v.Abi.{
  Addr, MessageHeader, header_size, header_bytes, read_header, u16_at, u32_at, roundup, byte_of,
}
use legacy_v4v.Ring.{V4vRing, bytes_to_read}
use legacy_v4v.Ring.Rotate.{rot}

-- What the pointers and the size of a ring must satisfy for v4v_copy_out and v4v_ringbuf_insert.
pub record IsValid (r : V4vRing) : Type 0 where
  pub storage : length r.ring ≡ r.len
  pub small : r.len < 2 ^ 31
  pub len_aligned : r.len % 16 ≡ 0
  pub rx_aligned : r.rx_ptr % 16 ≡ 0
  pub tx_aligned : r.tx_ptr % 16 ≡ 0
  pub rx_in : r.rx_ptr < r.len
  pub tx_in : r.tx_ptr < r.len

pub record Message : Type 0 where
  pub source : Addr
  pub protocol : ℕ
  pub payload : List ℕ

-- The bytes that a message takes up: header, payload and padding.
abbrev pub frame_size : Message → ℕ
frame_size m = header_size + roundup (length m.payload)

abbrev pub total : List Message → ℕ
total [] = 0
total (m ∷ ms) = frame_size m + total ms

pub record IsHeader (m : Message) (h : List ℕ) : Type 0 where
  pub size : length h ≡ header_size
  pub len : (read_header h).len ≡ header_size + length m.payload
  pub source : (read_header h).source ≡ m.source
  pub protocol : (read_header h).protocol ≡ m.protocol

-- `bs` begins with the frame of `m`, and goes on with `rest`. The padding may be any bytes.
pub record Frame (m : Message) (bs rest : List ℕ) : Type 0 where
  pub header : List ℕ
  pub padding : List ℕ
  pub is_header : IsHeader m header
  pub padding_size : length padding + length m.payload ≡ roundup (length m.payload)
  pub layout : bs ≡ header ++ (m.payload ++ (padding ++ rest))

abbrev pub Frames : List Message → List ℕ → Type 0
Frames [] bs = bs ≡ []
Frames (m ∷ ms) bs = (rest : List ℕ) × Frame m bs rest × Frames ms rest

-- All bytes from the read position on, and the unread ones among them.
abbrev pub unrolled : V4vRing → List ℕ
unrolled r = rot r.rx_ptr r.ring

abbrev pub contents : V4vRing → List ℕ
contents r = take (bytes_to_read r) (unrolled r)

-- The ring holds exactly the messages `ms`.
abbrev pub Holds : V4vRing → List Message → Type 0
Holds r ms = Frames ms (contents r)

-- An unread byte count: the distance from rx_ptr round to tx_ptr.
pub bytes_to_read-lt : {r : V4vRing} → IsValid r → bytes_to_read r < r.len
unfolding bytes_to_read
bytes_to_read-lt v = ground arith

pub bytes_to_read-aligned : {r : V4vRing} → IsValid r → bytes_to_read r % 16 ≡ 0
unfolding bytes_to_read
bytes_to_read-aligned v = ground arith

pub length-Frame :
    (m : Message) (bs rest : List ℕ) → Frame m bs rest → length bs ≡ frame_size m + length rest
length-Frame m bs rest f = omega (
  arith,
  ap length f.layout,
  length-append f.header (m.payload ++ (f.padding ++ rest)),
  length-append m.payload (f.padding ++ rest),
  length-append f.padding rest,
  f.is_header.size,
  f.padding_size,
)

pub length-Frames : (ms : List Message) (bs : List ℕ) → Frames ms bs → length bs ≡ total ms
length-Frames [] bs h = ap length h
length-Frames (m ∷ ms) bs (rest, f, h) =
    omega (arith, length-Frame m bs rest f, length-Frames ms rest h)

get_or-append_lt : (xs ys : List ℕ) (i : ℕ) → i < length xs → get_or (xs ++ ys) i 0 ≡ get_or xs i 0
get_or-append_lt [] ys i h = absurd (omega arith)
get_or-append_lt (x ∷ xs) ys zero h = refl
get_or-append_lt (x ∷ xs) ys (suc i) h = get_or-append_lt xs ys i (omega arith)

u16_at-append : (xs ys : List ℕ) (i : ℕ) → i + 2 ≤ length xs → u16_at (xs ++ ys) i ≡ u16_at xs i
u16_at-append xs ys i h =
    omega
      (arith, get_or-append_lt xs ys i (omega arith), get_or-append_lt xs ys (i + 1) (omega arith))

pub u32_at-append : (xs ys : List ℕ) (i : ℕ) → i + 4 ≤ length xs → u32_at (xs ++ ys) i ≡ u32_at xs i
u32_at-append xs ys i h =
    omega (arith, u16_at-append xs ys i (omega arith), u16_at-append xs ys (i + 2) (omega arith))

-- A header is read from its own sixteen bytes.
pub read_header-append :
    (xs ys : List ℕ) → header_size ≤ length xs → read_header (xs ++ ys) ≡ read_header xs
read_header-append xs ys h = λ i. record {
  len = u32_at-append xs ys 0 (omega arith) i;
  source = record {
    port = u32_at-append xs ys 4 (omega arith) i;
    domain = u16_at-append xs ys 8 (omega arith) i;
  };
  pad = u16_at-append xs ys 10 (omega arith) i;
  protocol = u32_at-append xs ys 12 (omega arith) i;
}

-- The fields of a header are in the ranges of their types.
pub record InRange (h : MessageHeader) : Type 0 where
  pub len : h.len < 2 ^ 32
  pub port : h.source.port < 2 ^ 32
  pub domain : h.source.domain < 2 ^ 16
  pub pad : h.pad < 2 ^ 16
  pub protocol : h.protocol < 2 ^ 32

bytes16 : (n : ℕ) → n < 2 ^ 16 → byte_of 0 n + 256 * byte_of 1 n ≡ n
bytes16 n h = omega arith

bytes32 :
    (n : ℕ)
    → n < 2 ^ 32
    → byte_of 0 n + 256 * byte_of 1 n + 65536 * (byte_of 2 n + 256 * byte_of 3 n) ≡ n
bytes32 n h = omega arith

-- Loading what was stored gives the fields back.
pub read_header-header_bytes : (h : MessageHeader) → InRange h → read_header (header_bytes h) ≡ h
read_header-header_bytes h v = λ i. record {
  len = bytes32 h.len v.len i;
  source = record {
    port = bytes32 h.source.port v.port i;
    domain = bytes16 h.source.domain v.domain i;
  };
  pad = bytes16 h.pad v.pad i;
  protocol = bytes32 h.protocol v.protocol i;
}
