-- ===== src/Ring.antt =====
-- linux/include/xen/v4v.h: the receive ring that a guest shares with the hypervisor, and
-- v4v_ring_bytes_to_read and v4v_copy_out, by which the guest takes messages out of it.
-- `ring[]` is the list of its bytes. A read past its end gives fewer bytes; Ring/CopyOut shows that
-- a valid ring has no such read.
pub mod Rotate
pub mod Frames
pub mod CopyOut
pub mod Receive
mod Tests
use legacy_v4v.Prelude.{
  ℕ, ◌+◌, ◌-◌, ◌^◌, ◌%◌, ◌≡◌, Bool, true, false, ◌&&◌, not, Option, none, some, List, [], ◌∷◌, ◌++◌,
  take, drop, ltb, ◌==◌, if◌then◌else◌,
}
use legacy_v4v.Abi.{Addr, RingId, MessageHeader, header_size, read_header, add32, sub32, roundup}

-- `struct v4v_ring`
pub record V4vRing : Type 0 where
  pub magic : ℕ
  pub id : RingId
  pub len : ℕ
  pub rx_ptr : ℕ
  pub tx_ptr : ℕ
  pub ring : List ℕ

-- `int32_t ret = tx_ptr - rx_ptr` is negative when its bit pattern is 2^31 or more.
unfoldable pub bytes_to_read : V4vRing → ℕ
bytes_to_read r =
    let ret = sub32 r.tx_ptr r.rx_ptr in if ltb ret (2 ^ 31) then ret else add32 r.len ret

-- What v4v_copy_out hands back when its result is not -1: the result, `*from`, `*protocol` and the
-- bytes that it stores at `_buf`.
pub record Received : Type 0 where
  pub ret : ℕ
  pub from : Addr
  pub protocol : ℕ
  pub buf : List ℕ

-- `if (rxp == r->len) rxp = 0;`
abbrev pub wrap_end : V4vRing → ℕ → ℕ
wrap_end r rxp = if rxp == r.len then 0 else rxp

abbrev pub slice : V4vRing → ℕ → ℕ → List ℕ
slice r off n = take n (drop off r.ring)

-- From the last `memcpy` on; `copied` is what the first one has stored.
unfoldable pub finish :
    V4vRing → MessageHeader → Bool → Bool → ℕ → ℕ → ℕ → List ℕ → Received × V4vRing
finish r mh buf consume t rxp len copied =
    let last = if buf && not (t == 0) then slice r rxp (if ltb t len then t else len) else [] in
    let rxp' = wrap_end r (add32 rxp (roundup len)) in
    let got : Received = record {
      ret = sub32 mh.len header_size;
      from = mh.source;
      protocol = mh.protocol;
      buf = copied ++ last;
    } in
    (got, if consume then record r { rx_ptr = rxp' } else r)

-- The two copies, with the message of `len` bytes at `rxp` and `bte` bytes before the end.
unfoldable pub copy_from :
    V4vRing → MessageHeader → Bool → Bool → ℕ → ℕ → ℕ → ℕ → Received × V4vRing
copy_from r mh buf consume t rxp len bte =
    let first = λ (n : ℕ). if buf then slice r rxp n else [] in
    if ltb bte len
    then (if ltb t bte
        then finish r mh buf consume 0 0 (len - bte) (first t)
        else finish r mh buf consume (t - bte) 0 (len - bte) (first bte))
    else finish r mh buf consume t rxp len []

-- From `rxp += sizeof (*mh)` on.
unfoldable pub copy_payload : V4vRing → MessageHeader → Bool → ℕ → Bool → Received × V4vRing
copy_payload r mh buf t consume =
    let rxp = wrap_end r (add32 r.rx_ptr header_size) in
    copy_from r mh buf consume t rxp (sub32 mh.len header_size) (sub32 r.len rxp)

-- From `len = mh->len` on, with `btr` bytes to read.
unfoldable pub copy_message :
    V4vRing → ℕ → Bool → ℕ → Bool → MessageHeader → Option Received × V4vRing
copy_message r btr buf t consume mh =
    if ltb btr mh.len
    then (none, r)
    else (let (got, r') = copy_payload r mh buf t consume in (some got, r'))

-- v4v_copy_out: `none` is -1. `buf` tells whether `_buf` is not NULL.
unfoldable pub copy_out : V4vRing → Bool → ℕ → Bool → Option Received × V4vRing
copy_out r buf t consume =
    let btr = bytes_to_read r in
    if ltb btr header_size
    then (none, r)
    else copy_message r btr buf t consume (read_header (drop r.rx_ptr r.ring))
