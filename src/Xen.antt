-- ===== src/Xen.antt =====
-- xen/v4v.patch, common/v4v.c: the hypervisor's end of a ring. v4v_ringbuf_insert appends a message
-- to the guest's ring through its mapped pages.
pub mod Copy
pub mod Wrap
pub mod Insert
pub mod Channel
mod Tests
use legacy_v4v.Prelude.{
  ℕ, zero, suc, ◌+◌, ◌-◌, ◌*◌, ◌/◌, ◌%◌, ◌^◌, Bool, true, false, List, ◌++◌, ltb, leb, ◌==◌,
  if◌then◌else◌, take, drop, length,
}
use legacy_v4v.Abi.{Addr, MessageHeader, header_size, header_bytes, add32, sub32, roundup}
use legacy_v4v.Errno.{Ret, ok, err, efault, emsgsize, eagain}
use legacy_v4v.Ring.{V4vRing}

abbrev pub page_size : ℕ
page_size = 4096

-- `sizeof (v4v_ring_t)`, the offset of `ring[]` in the packed structure
abbrev pub ring_offset : ℕ
ring_offset = 60

-- What map_domain_page and copy_from_guest do: whether page `i` of the ring can be mapped, and
-- whether the sender's bytes can be read.
pub record GuestMemory : Type 0 where
  pub mapped : ℕ → Bool
  pub readable : List ℕ → Bool

-- `struct v4v_ring_info`, with the guest's ring that its page list denotes.
pub record RingInfo : Type 0 where
  pub len : ℕ
  pub tx_ptr : ℕ
  pub guest : V4vRing

-- `memcpy (ring + off, src, n)`
abbrev pub write {ℓ} : {A : Type ℓ} → ℕ → List A → List A → List A
write off src ring = take off ring ++ (src ++ drop (off + length src) ring)

-- v4v_memcpy_to_guest_ring, and v4v_memcpy_to_guest_ring_from_guest where `readable` may fail. The
-- ring's bytes stand at `ring_offset`; each round of the loop copies to the end of a page.
copy_pages : ℕ → (ℕ → Bool) → (List ℕ → Bool) → ℕ → ℕ → List ℕ → List ℕ → Bool × List ℕ
copy_pages zero mapped readable page offset src ring = (false, ring)
copy_pages (suc fuel) mapped readable page offset src ring =
    let chunk = page_size - offset in
    let at = page * page_size + offset - ring_offset in
    let more =
      copy_pages fuel mapped readable (page + 1) 0 (drop chunk src)
        (write at (take chunk src) ring) in
    if ltb page_size (offset + length src)
    then (if mapped page
        then (if readable (take chunk src) then more else (false, ring))
        else (false, ring))
    else (if mapped page
        then (if readable src then (true, write at src ring) else (false, ring))
        else (false, ring))

-- One call of either: `offset` counts from the start of the structure. The result tells whether the
-- call returned 0. Each round but the last copies at least a byte, so the fuel is enough.
pub copy_to_ring : (ℕ → Bool) → (List ℕ → Bool) → ℕ → List ℕ → List ℕ → Bool × List ℕ
copy_to_ring mapped readable offset src ring =
    copy_pages (suc (length src)) mapped readable (offset / page_size) (offset % page_size) src ring

-- v4v_ringbuf_payload_space; an unmapped first page gives 0.
pub payload_space : GuestMemory → RingInfo → ℕ
payload_space g info =
    let ret = sub32 info.guest.rx_ptr info.tx_ptr in
    let wrapped = if ltb ret (2 ^ 31) then ret else add32 ret info.len in
    let left = sub32 (sub32 wrapped header_size) (roundup 1) in
    if g.mapped 0
    then (if info.guest.rx_ptr == info.tx_ptr
        then sub32 info.len header_size
        else (if ltb left (2 ^ 31) then left else 0))
    else 0

-- The free space `sp`, an int32_t.
pub free_space : RingInfo → ℕ
free_space info =
    let sp = sub32 info.guest.rx_ptr info.tx_ptr in
    if info.guest.rx_ptr == info.tx_ptr
    then info.len
    else (if ltb sp (2 ^ 31) then sp else add32 sp info.len)

-- An int32_t as a size_t.
abbrev pub sign_extend : ℕ → ℕ
sign_extend sp = if ltb sp (2 ^ 31) then sp else sp + 2 ^ 64 - 2 ^ 32

abbrev pub advance_tx : RingInfo → ℕ → ℕ → ℕ
advance_tx info tx n = let tx' = add32 tx n in if tx' == info.len then 0 else tx'

-- The last copy at `tx`, then the new pointer, in both places.
insert_tail : GuestMemory → RingInfo → ℕ → ℕ → List ℕ → List ℕ → Ret × RingInfo
insert_tail g info happy tx buf ring =
    let (done, ring') = copy_to_ring g.mapped g.readable (tx + ring_offset) buf ring in
    let tx' = advance_tx info tx (roundup (length buf)) in
    if done
    then (
      ok happy,
      record info { tx_ptr = tx'; guest = record info.guest { tx_ptr = tx'; ring = ring' } },
    )
    else (err efault, record info { guest = record info.guest { ring = ring' } })

-- The payload, in two copies if it passes the end of the ring.
insert_payload : GuestMemory → RingInfo → ℕ → List ℕ → List ℕ → Ret × RingInfo
insert_payload g info tx buf ring =
    let sp = sub32 info.len tx in
    let (done, ring') = copy_to_ring g.mapped g.readable (tx + ring_offset) (take sp buf) ring in
    if ltb sp (length buf)
    then (if done
        then insert_tail g info (length buf) 0 (drop sp buf) ring'
        else (err efault, record info { guest = record info.guest { ring = ring' } }))
    else insert_tail g info (length buf) tx buf ring

-- v4v_ringbuf_insert, with the message `buf` from `source`.
pub ringbuf_insert : GuestMemory → RingInfo → Addr → ℕ → List ℕ → Ret × RingInfo
ringbuf_insert g info source proto buf =
    let need = roundup (length buf) + header_size in
    let mh : MessageHeader = record {
      len = add32 (length buf) header_size;
      source = source;
      pad = 0;
      protocol = proto;
    } in
    let (done, ring') =
      copy_to_ring g.mapped (λ _. true) (info.tx_ptr + ring_offset) (header_bytes mh)
        info.guest.ring in
    if leb info.len need
    then (err emsgsize, info)
    else (if g.mapped 0
        then (if leb (sign_extend (free_space info)) need
            then (err eagain, info)
            else (if done
                then insert_payload g info (advance_tx info info.tx_ptr header_size) buf ring'
                else (err efault, record info { guest = record info.guest { ring = ring' } })))
        else (err efault, info))
