-- ===== src/Virtio/Kicks.antt =====
-- A kick of the transmit queue as a whole: `handle_queue_kick` of tinymachine-fork/src/net/virtio_net_pci.rs.
use tinymachine.Common.{
  ℕ, ◌+◌, ◌-◌, ◌*◌, ◌/◌, ◌%◌, ◌^◌, ◌<◌, ◌≡◌, inl, refl, ap, sym, ◌∙◌, subst, Bool, true, false,
  ◌==◌, ltb, if◌then◌else◌, some, Result, ok, List, [], ◌∷◌, ◌++◌, length, arith,
}
use tinymachine.Boot.Memory.{Memory, slice_written, write_guest_slice}
use tinymachine.Virtio.{Machine, Stop}
use tinymachine.Virtio.Rings.{
  VringDesc, read_u16, avail_ring, ring_idx, num_avail, avail_offset, used_offset, set_used_idx,
}
use tinymachine.Virtio.Regions.{AgreeOutside, used_offset_lem, read_u16-outside}
use tinymachine.Virtio.Sending.{
  frame_of, frames_of, IsSendable, ring_start, ring_end, sent_one, append_none, transmit_one-sends,
  set_used_elem-outside, set_used_idx-outside,
}
use tinymachine.Virtio.Transmit.{transmit_all, handle_queue_kick}

-- From an index of the available ring on, the entries are the heads of these chains.
abbrev pub Queued : ℕ → ℕ → Memory → ℕ → List (List VringDesc) → Type 0
Queued page fuel m i [] = Unit
Queued page fuel m i (descs ∷ chains) =
    IsSendable (ring_start page) (ring_end page) fuel m (page * 4096)
      (avail_ring m (avail_offset (page * 4096)) i) descs
    × Queued page fuel m ((i + 1) % 2 ^ 16) chains

append_one :
    (b : Bool) (xs : List (List ℕ)) (frame : List ℕ) (frames : List (List ℕ))
    → xs ++ (if b then frame ∷ [] else []) ++ frames ≡ xs ++ (if b then frame ∷ frames else frames)
append_one true [] frame frames = refl
append_one false [] frame frames = refl
append_one b (x ∷ xs) frame frames = ap (λ l. x ∷ l) (append_one b xs frame frames)

append_step :
    (xs : List (List ℕ)) (m : Memory) (descs : List VringDesc) (chains : List (List VringDesc))
    → xs ++ frames_of m (descs ∷ []) ++ frames_of m chains ≡ xs ++ frames_of m (descs ∷ chains)
append_step xs m descs chains =
    append_one (ltb 0 (length (frame_of m descs))) xs (frame_of m descs) (frames_of m chains)

-- what the rounds of a kick come to
abbrev IsSent : ℕ → Memory → Machine → List (List VringDesc) → Result Stop Machine → Type 0
IsSent page m s chains outcome =
    (after : Machine) × (outcome ≡ ok after)
    × (after.device ≡ s.device)
    × (after.sent ≡ s.sent ++ frames_of m chains)
    × AgreeOutside (ring_start page) (ring_end page) m after.guest_mem

transmit_all-sends :
    (page fuel fd : ℕ) (m : Memory) (s : Machine) (i : ℕ) (chains : List (List VringDesc))
    → page < 2 ^ 32
    → s.device.tap_fd ≡ some fd
    → AgreeOutside (ring_start page) (ring_end page) m s.guest_mem
    → Queued page fuel m i chains
    → IsSent page m s chains (transmit_all fuel s (page * 4096) i (length chains))
unfolding transmit_all
transmit_all-sends page fuel fd m s i [] small tap same h =
    (s, refl, refl, append_none s.sent, same)
transmit_all-sends page fuel fd m s i (descs ∷ chains) small tap same h =
    let next = sent_one page m s i descs in
    let rest =
      transmit_all-sends page fuel fd m next ((i + 1) % 2 ^ 16) chains small tap
        (set_used_elem-outside page m s.guest_mem i _ _ small same) h.1 in
    let stepped = transmit_one-sends page fuel fd m s i descs tap same h.0 in
    (rest.0, rw stepped rest.1, rest.2, rest.3 ∙ append_step s.sent m descs chains, rest.4)

-- the index that a kick leaves
pub written_idx :
    (m : Memory) (page n : ℕ)
    → ring_idx (set_used_idx m (page * 4096 + 8192) n) (page * 4096 + 8192) ≡ n % 2 ^ 16
unfolding set_used_idx read_u16
written_idx m page n =
    let start = page * 4096 + 8192 + 2 in
    let bytes : List ℕ = n % 2 ^ 8 ∷ n / 2 ^ 8 % 2 ^ 8 ∷ [] in
    let low : write_guest_slice m start bytes start ≡ n % 2 ^ 8 =
      ap (write_guest_slice m start bytes) {x = start} {y = start + 0} (omega arith)
      ∙ slice_written m start bytes 0 (omega arith) in
    rw (low, slice_written m start bytes 1 (omega arith)) (omega arith)

idx_bound : (m : Memory) (off : ℕ) → ((a : ℕ) → m a < 256) → ring_idx m off < 2 ^ 16
unfolding read_u16
idx_bound m off bytes = omega (arith, bytes (off + 2), bytes (off + 2 + 1))

-- The index that a kick writes is that of the available ring.
nothing_left :
    (page : ℕ) (m m' : Memory)
    → page < 2 ^ 32
    → ((a : ℕ) → m a < 256)
    → AgreeOutside (ring_start page) (ring_end page) m m'
    → let pfn = page * 4096 in
      let n = (ring_idx m (used_offset pfn) + num_avail m pfn) % 2 ^ 16 in
      num_avail (set_used_idx m' (used_offset pfn) n) pfn ≡ 0
unfolding num_avail avail_offset
nothing_left page m m' small bytes same =
    let pfn = page * 4096 in
    let used_idx = ring_idx m (pfn + 8192) in
    let avail_idx = ring_idx m (pfn + 4096) in
    let n = (used_idx + (avail_idx + 2 ^ 16 - used_idx) % 2 ^ 16) % 2 ^ 16 in
    let written = set_used_idx m' (pfn + 8192) n in
    let kept : ring_idx written (pfn + 4096) ≡ avail_idx =
      read_u16-outside (ring_start page) (ring_end page) m written
        (subst (λ off. AgreeOutside (ring_start page) (ring_end page) m (set_used_idx m' off n))
          (used_offset_lem page small) (set_used_idx-outside page m m' n small same))
        (pfn + 4096 + 2) (inl (omega arith)) in
    rw (used_offset_lem page small) (
      omega (
        arith,
        kept,
        written_idx m' page n,
        idx_bound m (pfn + 4096) bytes,
        idx_bound m (pfn + 8192) bytes,
      ))

-- A kick is its rounds, and then the index.
kick_returns :
    (fuel : ℕ) (s after : Machine) (pfn : ℕ)
    → s.device.queue_pfns.1 ≡ pfn
    → pfn == 0 ≡ false
    → num_avail s.guest_mem pfn == 0 ≡ false
    → transmit_all fuel s pfn (ring_idx s.guest_mem (used_offset pfn)) (num_avail s.guest_mem pfn)
      ≡ ok after
    → handle_queue_kick fuel s 1
      ≡ ok (record after {
        guest_mem =
            set_used_idx after.guest_mem
              (used_offset pfn)
              ((ring_idx s.guest_mem (used_offset pfn) + num_avail s.guest_mem pfn) % 2 ^ 16);
      })
unfolding handle_queue_kick
kick_returns fuel s after pfn at =
    subst
      (λ q.
        q == 0 ≡ false
        → num_avail s.guest_mem q == 0 ≡ false
        → transmit_all fuel s q (ring_idx s.guest_mem (used_offset q)) (num_avail s.guest_mem q)
          ≡ ok after
        → handle_queue_kick fuel s 1
          ≡ ok (record after {
            guest_mem =
                set_used_idx after.guest_mem (used_offset q)
                  ((ring_idx s.guest_mem (used_offset q) + num_avail s.guest_mem q) % 2 ^ 16);
          }))
      at (λ on work rounds. rw (on, work, rounds) refl)

-- With a TAP interface, a memory of bytes and a transmit queue on a page of a number of 32 bits that is
-- not 0: where each available entry is the head of a chain that ends within the fuel, stays in the
-- table, is apart from the used ring and holds a frame that can be logged, a kick returns. The device is
-- as before; the frames of the chains, each the first 2048 bytes of the chain's readable buffers without
-- the header of ten bytes, are sent in the order of the ring, but for empty ones; the guest's memory has
-- changed in the used ring only; and no entry is left available.
pub handle_queue_kick-sends :
    (page fuel fd : ℕ) (s : Machine) (chains : List (List VringDesc))
    → 0 < page
    → page < 2 ^ 32
    → s.device.queue_pfns.1 ≡ page * 4096
    → s.device.tap_fd ≡ some fd
    → ((a : ℕ) → s.guest_mem a < 256)
    → length chains ≡ num_avail s.guest_mem (page * 4096)
    → Queued page fuel s.guest_mem (ring_idx s.guest_mem (used_offset (page * 4096))) chains
    → (after : Machine) × (handle_queue_kick fuel s 1 ≡ ok after)
      × (after.device ≡ s.device)
      × (after.sent ≡ s.sent ++ frames_of s.guest_mem chains)
      × AgreeOutside (ring_start page) (ring_end page) s.guest_mem after.guest_mem
      × (num_avail after.guest_mem (page * 4096) ≡ 0)
unfolding handle_queue_kick
handle_queue_kick-sends page fuel fd s [] positive small at tap bytes count queued =
    (s, rw (at, sym count) (ground arith), refl, append_none s.sent, (λ a out. refl), sym count)
handle_queue_kick-sends page fuel fd s (descs ∷ chains) positive small at tap bytes count queued =
    let pfn = page * 4096 in
    let used_idx = ring_idx s.guest_mem (used_offset pfn) in
    let sends =
      transmit_all-sends page fuel fd s.guest_mem s used_idx (descs ∷ chains) small tap
        (λ a out. refl) queued in
    let n = (used_idx + num_avail s.guest_mem pfn) % 2 ^ 16 in
    let on : pfn == 0 ≡ false = ground (arith, positive) in
    let work : num_avail s.guest_mem pfn == 0 ≡ false = ground (arith, count) in
    (
      record sends.0 { guest_mem = set_used_idx sends.0.guest_mem (used_offset pfn) n },
      kick_returns fuel s sends.0 pfn at on work
          (subst (λ c. transmit_all fuel s pfn used_idx c ≡ ok sends.0) count sends.1),
      sends.2,
      sends.3,
      set_used_idx-outside page s.guest_mem sends.0.guest_mem n small sends.4,
      nothing_left page s.guest_mem sends.0.guest_mem small bytes sends.4,
    )
