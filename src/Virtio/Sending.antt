-- ===== src/Virtio/Sending.antt =====
-- What a kick of the transmit queue sends: `handle_queue_kick` of tinymachine-fork/src/net/virtio_net_pci.rs,
-- with a TAP interface.
use tinymachine.Common.{
  ℕ, ◌+◌, ◌*◌, ◌/◌, ◌%◌, ◌^◌, ◌≤◌, ◌<◌, ◌≡◌, ◌⊎◌, inl, inr, refl, ap, ◌∙◌, Bool-cases, false, ◌&&◌,
  leb, ltb, if◌then◌else◌, some, ok, List, [], ◌∷◌, ◌++◌, length, All, take, drop, arith,
}
use tinymachine.Boot.Memory.{Memory, slice_kept}
use tinymachine.Virtio.{Machine, queue_size, max_packet_size, virtio_net_hdr_size}
use tinymachine.Virtio.Reply.{tcp_offset}
use tinymachine.Virtio.Rings.{
  VringDesc, avail_ring, avail_offset, used_offset, set_used_elem, set_used_idx, le_bytes,
}
use tinymachine.Virtio.Chains.{Chain, readable_bytes, gather-Chain}
use tinymachine.Virtio.Regions.{AgreeOutside, IsApart, used_offset_lem, read_u16-outside}
use tinymachine.Virtio.Stability.{IsTidy, Chain-kept, readable_bytes-kept}
use tinymachine.Virtio.Transmit.{answer_syn, answer_arp, transmit_frame, read_packet, transmit_one}

-- the frame in a chain of descriptors: its first 2048 bytes without the header
abbrev pub frame_of : Memory → List VringDesc → List ℕ
frame_of m descs = drop virtio_net_hdr_size (take max_packet_size (readable_bytes m descs))

abbrev pub frames_of : Memory → List (List VringDesc) → List (List ℕ)
frames_of m [] = []
frames_of m (descs ∷ chains) =
    if ltb 0 (length (frame_of m descs))
    then frame_of m descs ∷ frames_of m chains
    else frames_of m chains

-- a frame whose TCP header is not behind its end, so that the line on it can be logged
abbrev pub IsLoggable : List ℕ → Type 0
IsLoggable frame = (length frame < 54) ⊎ (tcp_offset frame + 13 < length frame)

abbrev pub IsSendable : ℕ → ℕ → ℕ → Memory → ℕ → ℕ → List VringDesc → Type 0
IsSendable low high fuel m pfn head descs =
    Chain m pfn head descs
    × (head < queue_size)
    × All (IsTidy low high) descs
    × (length descs ≤ fuel)
    × IsLoggable (frame_of m descs)

-- a frame that is written to the TAP interface, and nothing else
transmit_frame-tap :
    (s : Machine) (fd : ℕ) (frame : List ℕ)
    → s.device.tap_fd ≡ some fd
    → IsLoggable frame
    → transmit_frame s frame ≡ ok (record s { sent = s.sent ++ frame ∷ [] })
unfolding transmit_frame answer_syn answer_arp
transmit_frame-tap s fd frame tap fits =
    let logged : leb 54 (length frame) && leb (length frame) (tcp_offset frame + 13) ≡ false =
      ground (arith, fits) in
    rw (logged, tap) refl

-- A chain in the memory as it was is read the same in a memory that has changed in the used ring only.
read_packet-outside :
    (low high fuel : ℕ) (m : Memory) (s : Machine) (pfn head : ℕ) (descs : List VringDesc)
    → AgreeOutside low high m s.guest_mem
    → IsApart low high pfn 4096
    → IsSendable low high fuel m pfn head descs
    → read_packet fuel s pfn head ≡ ok (take max_packet_size (readable_bytes m descs))
unfolding read_packet
read_packet-outside low high fuel m s pfn head descs same below h =
    let chain = Chain-kept low high low high m s.guest_mem same pfn head descs below h.0 h.1 h.2 in
    rw (read_packet, gather-Chain s.guest_mem pfn head fuel descs chain h.3)
      (ap (λ bytes. ok (take max_packet_size bytes))
        (readable_bytes-kept low high m s.guest_mem descs same h.2))

-- the entries of the used ring of a page
abbrev pub ring_start : ℕ → ℕ
ring_start page = page * 4096 + 8194

abbrev pub ring_end : ℕ → ℕ
ring_end page = page * 4096 + 10244

pub set_used_elem-outside :
    (page : ℕ) (m m' : Memory) (i id len : ℕ)
    → page < 2 ^ 32
    → AgreeOutside (ring_start page) (ring_end page) m m'
    → AgreeOutside
        (ring_start page)
        (ring_end page)
        m
        (set_used_elem m' (used_offset (page * 4096)) i id len)
unfolding set_used_elem
set_used_elem-outside page m m' i id len h same a out = rw (used_offset_lem page h) (
    slice_kept m' (page * 4096 + 8192 + 4 + i % queue_size * 8) (le_bytes id ++ le_bytes len) a
      (ground (arith, out))
    ∙ same a out)

pub set_used_idx-outside :
    (page : ℕ) (m m' : Memory) (n : ℕ)
    → page < 2 ^ 32
    → AgreeOutside (ring_start page) (ring_end page) m m'
    → AgreeOutside
        (ring_start page)
        (ring_end page)
        m
        (set_used_idx m' (used_offset (page * 4096)) n)
unfolding set_used_idx
set_used_idx-outside page m m' n h same a out = rw (used_offset_lem page h) (
    slice_kept m' (page * 4096 + 8192 + 2) (n % 2 ^ 8 ∷ n / 2 ^ 8 % 2 ^ 8 ∷ []) a
      (ground (arith, out))
    ∙ same a out)

pub avail_ring-outside :
    (page : ℕ) (m m' : Memory) (i : ℕ)
    → AgreeOutside (ring_start page) (ring_end page) m m'
    → avail_ring m' (avail_offset (page * 4096)) i ≡ avail_ring m (avail_offset (page * 4096)) i
unfolding avail_offset
avail_ring-outside page m m' i same =
    read_u16-outside (ring_start page) (ring_end page) m m' same
      (page * 4096 + 4096 + 4 + i % queue_size * 2) (inl (omega arith))

-- what one round leaves
abbrev pub sent_one : ℕ → Memory → Machine → ℕ → List VringDesc → Machine
sent_one page m s i descs = record s {
  guest_mem =
      set_used_elem s.guest_mem (used_offset (page * 4096)) i
        (avail_ring m (avail_offset (page * 4096)) i)
        (length (take max_packet_size (readable_bytes m descs)));
  sent = s.sent ++ frames_of m (descs ∷ []);
}

pub append_none : (xs : List (List ℕ)) → xs ≡ xs ++ []
append_none [] = refl
append_none (x ∷ xs) = ap (λ l. x ∷ l) (append_none xs)

pub transmit_one-sends :
    (page fuel fd : ℕ) (m : Memory) (s : Machine) (i : ℕ) (descs : List VringDesc)
    → s.device.tap_fd ≡ some fd
    → AgreeOutside (ring_start page) (ring_end page) m s.guest_mem
    → IsSendable
        (ring_start page)
        (ring_end page)
        fuel
        m
        (page * 4096)
        (avail_ring m (avail_offset (page * 4096)) i)
        descs
    → transmit_one fuel s (page * 4096) i ≡ ok (sent_one page m s i descs)
unfolding transmit_one
transmit_one-sends page fuel fd m s i descs tap same h =
    let pfn = page * 4096 in
    let head = avail_ring m (avail_offset pfn) i in
    let read =
      read_packet-outside (ring_start page) (ring_end page) fuel m s pfn head descs same
        (inl (omega arith)) h in
    let logged = transmit_frame-tap s fd (frame_of m descs) tap h.4 in
    elim (Bool-cases (ltb 0 (length (frame_of m descs)))) [
      | inl filled ↦ rw (avail_ring-outside page m s.guest_mem i same, read, filled, logged) refl
      | inr empty ↦
          rw (avail_ring-outside page m s.guest_mem i same, read, empty)
            (ap (λ sent. ok (record (sent_one page m s i descs) { sent = sent }))
              (append_none s.sent))
    ]
