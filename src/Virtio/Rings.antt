-- ===== src/Virtio/Rings.antt =====
-- The two queues of the network device in the guest's memory, tinymachine-fork/src/net/virtio_net_pci.rs:
-- where their parts are, a descriptor, and the two loops over a chain of descriptors. A chain's length is
-- bounded by fuel, which the code does not have.
use tinymachine.Common.{
  ℕ, zero, suc, ◌+◌, ◌-◌, ◌*◌, ◌/◌, ◌%◌, ◌^◌, min, Bool, ◌&&◌, ◌||◌, ◌==◌, ltb, if◌then◌else◌,
  Option, none, some, List, [], ◌∷◌, ◌++◌, length, take, drop, bit_and,
}
use tinymachine.Boot.Memory.{Memory, read_u64, write_guest_slice}
use tinymachine.Virtio.{vring_desc_f_next, vring_desc_f_write, queue_size, max_packet_size}

unfoldable pub read_u16 : Memory → ℕ → ℕ
read_u16 m a = m a + m (a + 1) * 2 ^ 8

unfoldable pub read_u32 : Memory → ℕ → ℕ
read_u32 m a = m a + m (a + 1) * 2 ^ 8 + m (a + 2) * 2 ^ 16 + m (a + 3) * 2 ^ 24

abbrev pub read_bytes : Memory → ℕ → ℕ → List ℕ
read_bytes m a zero = []
read_bytes m a (suc n) = m a ∷ read_bytes m (suc a) n

unfoldable pub avail_offset : ℕ → ℕ
avail_offset pfn = pfn + queue_size * 16

unfoldable pub used_offset : ℕ → ℕ
used_offset pfn =
    let avail_size = 6 + queue_size * 2 in
    let off = pfn + queue_size * 16 + avail_size in bit_and (off + 4095) (2 ^ 64 - 1 - 4095)

pub record VringDesc : Type 0 where
  pub addr : ℕ
  pub len : ℕ
  pub flags : ℕ
  pub next : ℕ

abbrev pub desc_at : Memory → ℕ → ℕ → VringDesc
desc_at m desc_off i = record {
  addr = read_u64 m (desc_off + i * 16);
  len = read_u32 m (desc_off + i * 16 + 8);
  flags = read_u16 m (desc_off + i * 16 + 12);
  next = read_u16 m (desc_off + i * 16 + 14);
}

-- `flags & VRING_DESC_F_NEXT == 0`, `flags & VRING_DESC_F_WRITE == 0`
abbrev pub is_last : VringDesc → Bool
is_last desc = bit_and desc.flags vring_desc_f_next == 0

abbrev pub is_readable : VringDesc → Bool
is_readable desc = bit_and desc.flags vring_desc_f_write == 0

-- `idx` of `VringAvail` and of `VringUsed`, and an entry of each ring
abbrev pub ring_idx : Memory → ℕ → ℕ
ring_idx m off = read_u16 m (off + 2)

abbrev pub avail_ring : Memory → ℕ → ℕ → ℕ
avail_ring m avail_off i = read_u16 m (avail_off + 4 + i % queue_size * 2)

-- `avail.idx.wrapping_sub(used.idx)`
unfoldable pub num_avail : Memory → ℕ → ℕ
num_avail m pfn = (ring_idx m (avail_offset pfn) + 2 ^ 16 - ring_idx m (used_offset pfn)) % 2 ^ 16

unfoldable pub set_used_idx : Memory → ℕ → ℕ → Memory
set_used_idx m used_off n = write_guest_slice m (used_off + 2) (n % 2 ^ 8 ∷ n / 2 ^ 8 % 2 ^ 8 ∷ [])

abbrev pub le_bytes : ℕ → List ℕ
le_bytes n = n % 2 ^ 8 ∷ n / 2 ^ 8 % 2 ^ 8 ∷ n / 2 ^ 16 % 2 ^ 8 ∷ n / 2 ^ 24 % 2 ^ 8 ∷ []

-- `used.ring[i % QUEUE_SIZE] = VringUsedElem { id, len }`
unfoldable pub set_used_elem : Memory → ℕ → ℕ → ℕ → ℕ → Memory
set_used_elem m used_off i id len =
    write_guest_slice m (used_off + 4 + i % queue_size * 8) (le_bytes id ++ le_bytes len)

-- the bytes in `packet_buf`, and those of a readable descriptor that it has room for
unfoldable pub copy_readable : Memory → VringDesc → List ℕ → List ℕ
copy_readable m desc packet =
    if is_readable desc
    then packet ++ read_bytes m desc.addr (min desc.len (max_packet_size - length packet))
    else packet

-- what the device reads out of a chain: the loop of `handle_queue_kick`, from the bytes in `packet_buf` on
unfoldable pub gather : ℕ → Memory → ℕ → ℕ → List ℕ → Option (List ℕ)
gather zero m desc_off d_i packet = none
gather (suc fuel) m desc_off d_i packet =
    let desc = desc_at m desc_off d_i in
    let copied = copy_readable m desc packet in
    let rest = gather fuel m desc_off desc.next copied in if is_last desc then some copied else rest

-- what the device writes into a chain: the loop of `try_rx`, with the bytes that remain
unfoldable pub fill : ℕ → Memory → ℕ → ℕ → List ℕ → Option (Memory × List ℕ)
fill zero m desc_off d_i remaining = none
fill (suc fuel) m desc_off d_i remaining =
    let desc = desc_at m desc_off d_i in
    let copy_len = min desc.len (length remaining) in
    let written =
      if is_readable desc then m else write_guest_slice m desc.addr (take copy_len remaining) in
    let left = if is_readable desc then remaining else drop copy_len remaining in
    let rest = fill fuel written desc_off desc.next left in
    if ltb 0 (length remaining) && ltb d_i queue_size
    then (if is_last desc || length left == 0 then some (written, left) else rest)
    else some (m, remaining)
