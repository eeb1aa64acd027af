-- ===== src/Virtio/Receiving.antt =====
-- What the guest finds of a packet that is delivered: `try_rx` of tinymachine-fork/src/net/virtio_net_pci.rs.
use tinymachine.Common.{
  ℕ, ◌+◌, ◌-◌, ◌*◌, ◌^◌, ◌≤◌, ◌<◌, ◌≡◌, ◌≢◌, ◌⊎◌, refl, ap, ◌∙◌, subst, true, false, ◌==◌, ok, List,
  [], ◌∷◌, ◌++◌, length, take, drop, take-all, drop-all, All, bit_or, arith,
}
use tinymachine.Boot.Memory.{Memory}
use tinymachine.Virtio.{Machine, queue_size}
use tinymachine.Virtio.Rings.{VringDesc, avail_ring, ring_idx, num_avail, avail_offset, used_offset}
use tinymachine.Virtio.Chains.{Chain}
use tinymachine.Virtio.Regions.{AgreeOutside, read_bytes-outside}
use tinymachine.Virtio.Stability.{IsTidy}
use tinymachine.Virtio.Filling.{buffer_bytes, capacity, Avoid, IsDisjoint, IsWritable}
use tinymachine.Virtio.Filling.Loops.{fill-Chain}
use tinymachine.Virtio.Sending.{ring_start, ring_end, set_used_elem-outside, set_used_idx-outside}
use tinymachine.Virtio.Delivery.{IsPublished, deliver_returns, publish-IsPublished}
use tinymachine.Virtio.Receive.{publish, deliver}

buffer_bytes-kept :
    (page : ℕ) (m m' : Memory) (descs : List VringDesc)
    → AgreeOutside (ring_start page) (ring_end page) m m'
    → All (IsTidy (page * 4096) (ring_end page)) descs
    → buffer_bytes m' descs ≡ buffer_bytes m descs
buffer_bytes-kept page m m' [] same tidy = refl
buffer_bytes-kept page m m' (desc ∷ descs) same tidy =
    rw (buffer_bytes-kept page m m' descs same tidy.1) (
      ap (λ bytes. bytes ++ buffer_bytes m descs)
        (read_bytes-outside (ring_start page) (ring_end page) m m' same desc.addr desc.len
          (ground (arith, tidy.0.1))))

-- What follows the copy of the bytes stays in the used ring.
publish-outside :
    (page : ℕ) (s : Machine) (packet : List ℕ) (filled : Memory × List ℕ)
    → page < 2 ^ 32
    → AgreeOutside
        (ring_start page)
        (ring_end page)
        filled.0
        (publish s (page * 4096) packet filled).guest_mem
publish-outside page s packet filled small =
    set_used_idx-outside page filled.0 _ _ small
      (set_used_elem-outside page filled.0 filled.0 _ _ _ small (λ a out. refl))

-- the next entry of the available ring of a page
abbrev pub next_head : ℕ → Memory → ℕ
next_head page m =
    avail_ring m (avail_offset (page * 4096)) (ring_idx m (used_offset (page * 4096)))

-- A chain that takes a packet: it ends within the fuel and stays in the table, and its buffers are writable, apart
-- from the queue and from each other, and large enough.
abbrev pub Takes : ℕ → ℕ → Memory → ℕ → List VringDesc → List ℕ → Type 0
Takes page fuel m head descs packet =
    Chain m (page * 4096) head descs
    × (head < queue_size)
    × All (IsTidy (page * 4096) (ring_end page)) descs
    × All IsWritable descs
    × IsDisjoint descs
    × (length descs ≤ fuel)
    × (length packet ≤ capacity descs)

-- Where the receive queue is on a page of a number of 32 bits and its next chain takes a packet shorter
-- than 2 ^ 32 bytes, the delivery returns: the packet stands in the buffers of the chain, one after
-- another; the used ring has an entry with the chain's head and the packet's length, and its index is
-- one more, modulo 2 ^ 16; the interrupt is set; and every byte apart from the buffers and the used ring
-- is as before.
pub deliver-fills :
    (page fuel : ℕ) (s : Machine) (descs : List VringDesc) (packet : List ℕ)
    → page < 2 ^ 32
    → s.device.queue_pfns.0 ≡ page * 4096
    → num_avail s.guest_mem (page * 4096) ≢ 0
    → length packet < 2 ^ 32
    → Takes page fuel s.guest_mem (next_head page s.guest_mem) descs packet
    → (after : Machine) × (deliver fuel s packet ≡ ok (after, true))
      × (after.device ≡ record s.device { isr = bit_or s.device.isr 1 })
      × (take (length packet) (buffer_bytes after.guest_mem descs) ≡ packet)
      × IsPublished page s.guest_mem after.guest_mem (next_head page s.guest_mem) (length packet)
      × ((a : ℕ)
          → Avoid a (a + 1) descs
          → (a < ring_start page) ⊎ (ring_end page ≤ a)
          → after.guest_mem a ≡ s.guest_mem a)
deliver-fills page fuel s descs packet small at work short h =
    let pfn = page * 4096 in
    let filled =
      fill-Chain pfn (ring_end page) pfn s.guest_mem (next_head page s.guest_mem) fuel descs packet
        (omega arith) (omega arith) h.0 h.1 h.2 h.3 h.4 h.5 in
    let left : List ℕ = drop (capacity descs) packet in
    let none_left : left ≡ [] = drop-all (capacity descs) packet h.6 in
    let after = publish s pfn packet (filled.0, left) in
    let kept = publish-outside page s packet (filled.0, left) small in
    let busy : num_avail s.guest_mem pfn == 0 ≡ false = ground (arith, work) in
    (
      after,
      deliver_returns fuel s packet pfn (filled.0, left) at busy filled.1,
      refl,
      ap (take (length packet)) (buffer_bytes-kept page filled.0 after.guest_mem descs kept h.2)
          ∙ filled.3
          ∙ take-all (capacity descs) packet h.6,
      subst (λ n. IsPublished page s.guest_mem after.guest_mem (next_head page s.guest_mem) n)
          (ap (λ l. length packet - length l) none_left ∙ omega arith)
          (publish-IsPublished page s packet (filled.0, left) small h.1 short),
      λ a avoid out. kept a out ∙ filled.2 a avoid,
    )
