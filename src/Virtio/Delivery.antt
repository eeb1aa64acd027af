-- ===== src/Virtio/Delivery.antt =====
-- A packet for the guest: `try_rx` of tinymachine-fork/src/net/virtio_net_pci.rs.
use tinymachine.Common.{
  ℕ, ◌+◌, ◌-◌, ◌*◌, ◌/◌, ◌%◌, ◌^◌, ◌<◌, ◌≡◌, inr, refl, ap, sym, ◌∙◌, subst, true, false, ◌==◌,
  some, ok, List, [], ◌∷◌, ◌++◌, length, get_or, arith,
}
use tinymachine.Boot.Memory.{Memory, slice_kept, slice_written, write_guest_slice}
use tinymachine.Virtio.{Machine, queue_size}
use tinymachine.Virtio.Rings.{
  read_u32, avail_ring, ring_idx, num_avail, avail_offset, used_offset, le_bytes, set_used_elem,
  set_used_idx, fill,
}
use tinymachine.Virtio.Regions.{AgreeOutside, used_offset_lem, read_u32-outside}
use tinymachine.Virtio.Kicks.{written_idx}
use tinymachine.Virtio.Receive.{publish, deliver}

-- A word is read as it was written.
word_written :
    (m : Memory) (a id len : ℕ)
    → id < 2 ^ 32
    → len < 2 ^ 32
    → let m' = write_guest_slice m a (le_bytes id ++ le_bytes len) in
      (read_u32 m' a ≡ id) × (read_u32 m' (a + 4) ≡ len)
unfolding read_u32
word_written m a id len h h' =
    let bytes = le_bytes id ++ le_bytes len in
    let m' = write_guest_slice m a bytes in
    let first : m' a ≡ id % 2 ^ 8 =
      ap m' {x = a} {y = a + 0} (omega arith) ∙ slice_written m a bytes 0 (omega arith) in
    let at : (k i : ℕ) → 4 + k ≡ i → i < 8 → m' (a + 4 + k) ≡ get_or bytes i 0 = λ k i e lt.
      ap m' {x = a + 4 + k} {y = a + i} (omega (arith, e)) ∙ slice_written m a bytes i lt in
    (
      omega (
        arith,
        h,
        first,
        slice_written m a bytes 1 (omega arith),
        slice_written m a bytes 2 (omega arith),
        slice_written m a bytes 3 (omega arith),
      ),
      omega (
        arith,
        h',
        slice_written m a bytes 4 (omega arith),
        at 1 5 (omega arith) (omega arith),
        at 2 6 (omega arith) (omega arith),
        at 3 7 (omega arith) (omega arith),
      ),
    )

-- A delivery is the loop over the chain, and what follows it.
pub deliver_returns :
    (fuel : ℕ) (s : Machine) (packet : List ℕ) (pfn : ℕ) (filled : Memory × List ℕ)
    → s.device.queue_pfns.0 ≡ pfn
    → num_avail s.guest_mem pfn == 0 ≡ false
    → fill fuel s.guest_mem pfn
        (avail_ring s.guest_mem (avail_offset pfn) (ring_idx s.guest_mem (used_offset pfn)))
        packet
      ≡ some filled
    → deliver fuel s packet ≡ ok (publish s pfn packet filled, true)
unfolding deliver
deliver_returns fuel s packet pfn filled at =
    subst
      (λ q.
        num_avail s.guest_mem q == 0 ≡ false
        → fill fuel s.guest_mem q
            (avail_ring s.guest_mem (avail_offset q) (ring_idx s.guest_mem (used_offset q))) packet
          ≡ some filled
        → deliver fuel s packet ≡ ok (publish s q packet filled, true))
      at (λ work loop. rw (work, loop) refl)

-- what the used ring of a page says after a delivery
abbrev pub IsPublished : ℕ → Memory → Memory → ℕ → ℕ → Type 0
IsPublished page before after head len =
    let used_off = page * 4096 + 8192 in
    let used_idx = ring_idx before used_off in
    let elem = used_off + 4 + used_idx % queue_size * 8 in
    (read_u32 after elem ≡ head)
    × (read_u32 after (elem + 4) ≡ len)
    × (ring_idx after used_off ≡ (used_idx + 1) % 2 ^ 16)

idx_outside :
    (m : Memory) (used_off n : ℕ)
    → AgreeOutside (used_off + 2) (used_off + 4) m (set_used_idx m used_off n)
unfolding set_used_idx
idx_outside m used_off n a out =
    slice_kept m (used_off + 2) (n % 2 ^ 8 ∷ n / 2 ^ 8 % 2 ^ 8 ∷ []) a (ground (arith, out))

placed_word :
    (m : Memory) (used_off i head len : ℕ)
    → head < 2 ^ 32
    → len < 2 ^ 32
    → let elem = used_off + 4 + i % queue_size * 8 in
      let m' = set_used_elem m used_off i head len in
      (read_u32 m' elem ≡ head) × (read_u32 m' (elem + 4) ≡ len)
unfolding set_used_elem
placed_word m used_off i head len h h' =
    word_written m (used_off + 4 + i % queue_size * 8) head len h h'

elem_published :
    (page : ℕ) (m : Memory) (used_idx head len : ℕ)
    → head < 2 ^ 32
    → len < 2 ^ 32
    → let used_off = page * 4096 + 8192 in
      let elem = used_off + 4 + used_idx % queue_size * 8 in
      let after =
        set_used_idx
          (set_used_elem m used_off used_idx head len)
          used_off
          ((used_idx + 1) % 2 ^ 16) in
      (read_u32 after elem ≡ head)
      × (read_u32 after (elem + 4) ≡ len)
      × (ring_idx after used_off ≡ (used_idx + 1) % 2 ^ 16)
elem_published page m used_idx head len h h' =
    let used_off = page * 4096 + 8192 in
    let elem = used_off + 4 + used_idx % queue_size * 8 in
    let n = (used_idx + 1) % 2 ^ 16 in
    let placed = set_used_elem m used_off used_idx head len in
    let same = idx_outside placed used_off n in
    let word = placed_word m used_off used_idx head len h h' in
    (
      read_u32-outside (used_off + 2) (used_off + 4) placed (set_used_idx placed used_off n) same
            elem (inr (omega arith))
          ∙ word.0,
      read_u32-outside (used_off + 2) (used_off + 4) placed (set_used_idx placed used_off n) same
            (elem + 4) (inr (omega arith))
          ∙ word.1,
      written_idx placed page n ∙ omega arith,
    )

pub publish-IsPublished :
    (page : ℕ) (s : Machine) (packet : List ℕ) (filled : Memory × List ℕ)
    → page < 2 ^ 32
    → let pfn = page * 4096 in
      let head =
        avail_ring s.guest_mem (avail_offset pfn) (ring_idx s.guest_mem (used_offset pfn)) in
      head < queue_size
      → length packet < 2 ^ 32
      → IsPublished page s.guest_mem
          (publish s pfn packet filled).guest_mem
          head
          (length packet - length filled.1)
publish-IsPublished page s packet filled small inside short =
    let pfn = page * 4096 in
    let head = avail_ring s.guest_mem (avail_offset pfn) (ring_idx s.guest_mem (used_offset pfn)) in
    subst
      (λ off.
        IsPublished page s.guest_mem
          (set_used_idx
            (set_used_elem filled.0 off (ring_idx s.guest_mem off) head
              (length packet - length filled.1))
            off ((ring_idx s.guest_mem off + 1) % 2 ^ 16))
          head (length packet - length filled.1))
      (sym (used_offset_lem page small))
      (elem_published page filled.0 (ring_idx s.guest_mem (pfn + 8192)) head
        (length packet - length filled.1) (omega (arith, inside)) (omega (arith, short)))
