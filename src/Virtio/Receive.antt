-- ===== src/Virtio/Receive.antt =====
-- What the guest receives: `try_rx` of tinymachine-fork/src/net/virtio_net_pci.rs. What the reads of the TAP
-- interface return is a list of frames: at its end, and at an empty frame, a read returns 0 or less.
use tinymachine.Common.{
  ℕ, ◌+◌, ◌-◌, ◌%◌, ◌^◌, Bool, true, false, ◌&&◌, ◌==◌, leb, if◌then◌else◌, Option, none, some,
  Result, ok, err, ◌>>=◌, List, [], ◌∷◌, ◌++◌, length, get_or, replicate, take, bit_or,
}
use tinymachine.Boot.Memory.{Memory}
use tinymachine.Virtio.{
  VirtioNetPci, Machine, Stop, out_of_fuel, max_packet_size, virtio_net_hdr_size,
}
use tinymachine.Virtio.Checksum.{be_word}
use tinymachine.Virtio.Rings.{
  fill, avail_offset, used_offset, avail_ring, ring_idx, num_avail, set_used_elem, set_used_idx,
}

-- the entry and the index of the used ring, and the interrupt, after the bytes have been copied
abbrev pub publish : Machine → ℕ → List ℕ → Memory × List ℕ → Machine
publish s pfn packet filled =
    let used_idx = ring_idx s.guest_mem (used_offset pfn) in
    let desc_idx = avail_ring s.guest_mem (avail_offset pfn) used_idx in
    let elem =
      set_used_elem filled.0 (used_offset pfn) used_idx desc_idx
        (length packet - length filled.1) in
    record s {
      device = record s.device { isr = bit_or s.device.isr 1 };
      guest_mem = set_used_idx elem (used_offset pfn) ((used_idx + 1) % 2 ^ 16);
    }

-- One packet into the next chain of the receive queue, where there is one; whether there was one.
unfoldable pub deliver : ℕ → Machine → List ℕ → Result Stop (Machine × Bool)
deliver fuel s packet =
    let pfn = s.device.queue_pfns.0 in
    let used_idx = ring_idx s.guest_mem (used_offset pfn) in
    let desc_idx = avail_ring s.guest_mem (avail_offset pfn) used_idx in
    if num_avail s.guest_mem pfn == 0
    then ok (s, false)
    else elim (fill fuel s.guest_mem pfn desc_idx packet) [
      | none ↦ err out_of_fuel
      | some filled ↦ ok (publish s pfn packet filled, true)
    ]

abbrev pub deliver_pending : ℕ → Machine → Option (List ℕ) → Result Stop Machine
deliver_pending fuel s none = ok s
deliver_pending fuel s (some packet) = deliver fuel s packet >>= λ delivered. ok delivered.0

abbrev pub take_synack : VirtioNetPci → VirtioNetPci
take_synack d = record d { synack_pending = none }

abbrev pub take_arp_reply : VirtioNetPci → VirtioNetPci
take_arp_reply d = record d { arp_reply_pending = none }

abbrev pub is_ipv6 : List ℕ → Bool
is_ipv6 frame = leb 14 (length frame) && (be_word (get_or frame 12 0) (get_or frame 13 0) == 0x86dd)

-- the loop over the TAP interface, with the frames that stay unread
unfoldable pub receive : ℕ → Machine → List (List ℕ) → Result Stop (Machine × List (List ℕ))
receive fuel s [] = ok (s, [])
receive fuel s ([] ∷ frames) = ok (s, frames)
receive fuel s ((b ∷ bytes) ∷ frames) =
    let frame = take (max_packet_size - virtio_net_hdr_size) (b ∷ bytes) in
    let skipped = receive fuel s frames in
    if is_ipv6 frame
    then skipped
    else deliver fuel s (replicate virtio_net_hdr_size 0 ++ frame) >>= λ delivered.
        if delivered.1 then receive fuel delivered.0 frames else ok (delivered.0, frames)

abbrev pub receive_tap :
    ℕ → Machine → List (List ℕ) → Option ℕ → Result Stop (Machine × List (List ℕ))
receive_tap fuel s frames none = ok (s, frames)
receive_tap fuel s frames (some fd) = receive fuel s frames

unfoldable pub try_rx : ℕ → Machine → List (List ℕ) → Result Stop (Machine × List (List ℕ))
try_rx fuel s frames = if s.device.queue_pfns.0 == 0 then ok (s, frames) else do
  with_synack ←
      deliver_pending fuel (record s { device = take_synack s.device }) s.device.synack_pending
  with_arp ←
      deliver_pending fuel (record with_synack { device = take_arp_reply with_synack.device })
        with_synack.device.arp_reply_pending
  receive_tap fuel with_arp frames with_arp.device.tap_fd
