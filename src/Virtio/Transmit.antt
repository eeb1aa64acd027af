-- ===== src/Virtio/Transmit.antt =====
-- What the guest sends: `handle_queue_kick` of tinymachine-fork/src/net/virtio_net_pci.rs.
use tinymachine.Common.{
  ℕ, zero, suc, ◌+◌, ◌%◌, ◌^◌, Bool, true, false, ◌&&◌, not, ◌==◌, ltb, leb, if◌then◌else◌, Option,
  none, some, Result, ok, err, ◌>>=◌, ◌>>◌, List, [], ◌∷◌, ◌++◌, length, get_or, drop,
}
use tinymachine.Virtio.{VirtioNetPci, Machine, Stop, out_of_range, out_of_fuel, virtio_net_hdr_size}
use tinymachine.Virtio.Checksum.{be_word}
use tinymachine.Virtio.Reply.{tcp_offset, craft_synack, arp_reply}
use tinymachine.Virtio.Rings.{
  gather, avail_offset, used_offset, avail_ring, ring_idx, num_avail, set_used_elem, set_used_idx,
}

abbrev pub is_none : Option (List ℕ) → Bool
is_none none = true
is_none (some x) = false

abbrev pub has_tap : VirtioNetPci → Bool
has_tap d = elim d.tap_fd [ none ↦ false | some fd ↦ true ]

-- The line on a TCP segment in the log reads the packet past its end where the header length is too large.
unfoldable pub log_segment : List ℕ → Result {0, 0} Stop Unit
log_segment eth_pkt =
    if leb 54 (length eth_pkt) && leb (length eth_pkt) (tcp_offset eth_pkt + 13)
    then err out_of_range
    else ok tt

abbrev pub write_tap : Machine → List ℕ → Machine
write_tap s eth_pkt = if has_tap s.device then record s { sent = s.sent ++ eth_pkt ∷ [] } else s

unfoldable pub answer_syn : VirtioNetPci → List ℕ → Result Stop VirtioNetPci
answer_syn d eth_pkt =
    if not (has_tap d) && is_none d.synack_pending
    then (craft_synack eth_pkt >>= λ answer.
        ok (elim answer [ none ↦ d | some synack ↦ record d { synack_pending = some synack } ]))
    else ok d

abbrev is_arp_request : List ℕ → Bool
is_arp_request eth_pkt =
    leb 42 (length eth_pkt)
    && (get_or eth_pkt 12 0 == 0x08)
    && (get_or eth_pkt 13 0 == 0x06)
    && (be_word (get_or eth_pkt 20 0) (get_or eth_pkt 21 0) == 1)
    && (get_or eth_pkt 38 0 == 10)
    && (get_or eth_pkt 39 0 == 0)
    && (get_or eth_pkt 40 0 == 2)
    && (get_or eth_pkt 41 0 == 1)

unfoldable pub answer_arp : VirtioNetPci → List ℕ → VirtioNetPci
answer_arp d eth_pkt =
    if not (has_tap d) && is_none d.arp_reply_pending && is_arp_request eth_pkt
    then record d { arp_reply_pending = some (arp_reply eth_pkt) }
    else d

-- one frame, without the header in front of it
unfoldable pub transmit_frame : Machine → List ℕ → Result Stop Machine
unfolding log_segment
transmit_frame s eth_pkt = do
  log_segment eth_pkt
  let written = write_tap s eth_pkt
  answered ← answer_syn written.device eth_pkt
  ok (record written { device = answer_arp answered eth_pkt })

unfoldable pub read_packet : ℕ → Machine → ℕ → ℕ → Result Stop (List ℕ)
read_packet fuel s desc_off d_i = elim (gather fuel s.guest_mem desc_off d_i []) [
  | none ↦ err out_of_fuel
  | some packet ↦ ok packet
]

-- the body of the loop over the available descriptors
unfoldable pub transmit_one : ℕ → Machine → ℕ → ℕ → Result Stop Machine
transmit_one fuel s pfn i = do
  let desc_idx = avail_ring s.guest_mem (avail_offset pfn) i
  packet ← read_packet fuel s pfn desc_idx
  let eth_pkt = drop virtio_net_hdr_size packet
  after ← (if ltb 0 (length eth_pkt) then transmit_frame s eth_pkt else ok s)
  ok (record after {
    guest_mem = set_used_elem after.guest_mem (used_offset pfn) i desc_idx (length packet);
  })

unfoldable pub transmit_all : ℕ → Machine → ℕ → ℕ → ℕ → Result Stop Machine
transmit_all fuel s pfn i zero = ok s
transmit_all fuel s pfn i (suc count) =
    transmit_one fuel s pfn i >>= λ next. transmit_all fuel next pfn ((i + 1) % 2 ^ 16) count

unfoldable pub handle_queue_kick : ℕ → Machine → ℕ → Result Stop Machine
handle_queue_kick fuel s q =
    let pfn = s.device.queue_pfns.1 in
    let used_idx = ring_idx s.guest_mem (used_offset pfn) in
    let count = num_avail s.guest_mem pfn in
    if not (q == 1)
    then ok s
    else if pfn == 0
    then ok s
    else if count == 0
    then ok s
    else transmit_all fuel s pfn used_idx count >>= λ after. ok (record after {
      guest_mem = set_used_idx after.guest_mem (used_offset pfn) ((used_idx + count) % 2 ^ 16);
    })
