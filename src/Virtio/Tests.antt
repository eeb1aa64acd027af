-- ===== src/Virtio/Tests.antt =====
-- The theorems about the network device at work.
use tinymachine.Common.{
  ℕ, zero, suc, ◌+◌, ◌-◌, ◌*◌, ◌/◌, ◌%◌, ◌^◌, ◌≤◌, ◌<◌, ◌≡◌, ◌≢◌, ◌⊎◌, ◌↔◌, inl, inr, refl, true,
  some, ok, err, List, [], ◌∷◌, ◌++◌, length, take, get_or, All, bit_or, ltb, if◌then◌else◌, arith,
}
use tinymachine.Boot.Memory.{Memory, write_guest_slice, read_u64}
use tinymachine.Virtio.{Machine, out_of_range, new}
use tinymachine.Virtio.Checksum.{checksum, IsByte, checksum-inserted, be_word}
use tinymachine.Virtio.Reply.{ihl, craft_synack}
use tinymachine.Virtio.Handshake.{IsSynAck, IsWebSyn, craft_synack-IsSynAck, tested}
use tinymachine.Virtio.Handshake.Options.{craft_synack-panics}
use tinymachine.Virtio.Rings.{
  VringDesc, read_u16, read_u32, ring_idx, num_avail, used_offset, avail_offset,
}
use tinymachine.Virtio.Chains.{Chain, at_end, linked}
use tinymachine.Virtio.Regions.{AgreeOutside}
use tinymachine.Virtio.Sending.{frames_of, ring_start, ring_end}
use tinymachine.Virtio.Kicks.{Queued, handle_queue_kick-sends}
use tinymachine.Virtio.Transmit.{handle_queue_kick}
use tinymachine.Virtio.Filling.{buffer_bytes, Avoid}
use tinymachine.Virtio.Delivery.{IsPublished}
use tinymachine.Virtio.Receiving.{next_head, Takes, deliver-fills}
use tinymachine.Virtio.Receive.{deliver}
use tinymachine.Virtio.Registers.{mmio_write, set_pfn, set_status}
use tinymachine.Virtio.Soundness.{IsSound}
use tinymachine.Virtio.Steps.{writes, Reach, starts, goes, Reach-IsSound}

abbrev header : List ℕ
header = 0x45 ∷ 0 ∷ 0 ∷ 40 ∷ []

abbrev addresses : List ℕ
addresses = 10 ∷ 0 ∷ 2 ∷ 1 ∷ []

checksum-inserted_example :
    checksum (
      header
      ++ checksum (header ++ 0 ∷ 0 ∷ addresses) / 2 ^ 8
        ∷ checksum (header ++ 0 ∷ 0 ∷ addresses) % 2 ^ 8
        ∷ addresses)
    ≡ 0
checksum-inserted_example =
    checksum-inserted 2 header addresses refl (tested header refl) (tested addresses refl)
      (omega arith)

-- a segment that opens a connection to port 80 of another host
abbrev syn : List ℕ
syn =
    82 ∷ 84 ∷ 0 ∷ 18 ∷ 52 ∷ 87 ∷ 82 ∷ 84 ∷ 0 ∷ 18 ∷ 52 ∷ 86 ∷ 8 ∷ 0 ∷ 69 ∷ 0 ∷ 0 ∷ 40 ∷ 0 ∷ 1 ∷ 64
    ∷ 0 ∷ 64 ∷ 6 ∷ 0 ∷ 0 ∷ 10 ∷ 0 ∷ 2 ∷ 15 ∷ 93 ∷ 184 ∷ 216 ∷ 34 ∷ 192 ∷ 1 ∷ 0 ∷ 80 ∷ 1 ∷ 2 ∷ 3
    ∷ 255 ∷ 0 ∷ 0 ∷ 0 ∷ 0 ∷ 80 ∷ 2 ∷ 255 ∷ 255 ∷ 0 ∷ 0 ∷ 0 ∷ 0 ∷ []

syn-IsWebSyn : IsWebSyn syn
unfolding be_word
syn-IsWebSyn = (
  omega arith,
  (refl, refl),
  omega arith,
  omega arith,
  refl,
  omega arith,
  ((λ h. omega (arith, h)), refl),
  inl refl,
)

craft_synack-IsSynAck_example :
    (reply : List ℕ) × (craft_synack syn ≡ ok (some reply)) × IsSynAck syn reply
craft_synack-IsSynAck_example = craft_synack-IsSynAck syn (tested syn refl) syn-IsWebSyn refl

-- the same with an option in the IP header
abbrev syn_option : List ℕ
syn_option =
    82 ∷ 84 ∷ 0 ∷ 18 ∷ 52 ∷ 87 ∷ 82 ∷ 84 ∷ 0 ∷ 18 ∷ 52 ∷ 86 ∷ 8 ∷ 0 ∷ 70 ∷ 0 ∷ 0 ∷ 44 ∷ 0 ∷ 1 ∷ 64
    ∷ 0 ∷ 64 ∷ 6 ∷ 0 ∷ 0 ∷ 10 ∷ 0 ∷ 2 ∷ 15 ∷ 93 ∷ 184 ∷ 216 ∷ 34 ∷ 1 ∷ 1 ∷ 1 ∷ 0 ∷ 192 ∷ 1 ∷ 0 ∷ 80
    ∷ 1 ∷ 2 ∷ 3 ∷ 255 ∷ 0 ∷ 0 ∷ 0 ∷ 0 ∷ 80 ∷ 2 ∷ 255 ∷ 255 ∷ 0 ∷ 0 ∷ 0 ∷ 0 ∷ []

craft_synack-panics_example :
    (craft_synack syn_option ≡ err out_of_range) ↔ (IsWebSyn syn_option × (5 < ihl syn_option))
craft_synack-panics_example = craft_synack-panics syn_option

get_or-IsByte : (xs : List ℕ) (i : ℕ) → All IsByte xs → get_or xs i 0 < 256
get_or-IsByte [] i h = omega arith
get_or-IsByte (x ∷ xs) zero h = h.0
get_or-IsByte (x ∷ xs) (suc i) h = get_or-IsByte xs i h.1

-- a memory of bytes stays one
write-IsByte :
    (m : Memory) (a : ℕ) (bytes : List ℕ)
    → All IsByte bytes
    → ((i : ℕ) → m i < 256)
    → (i : ℕ) → write_guest_slice m a bytes i < 256
unfolding write_guest_slice
write-IsByte m a bytes h small i = ground (arith, small i, get_or-IsByte bytes (i - a) h)

-- a table of descriptors at 0x1000, and the available ring behind it with one entry, for descriptor 0
abbrev tables : List ℕ → Memory → Memory
tables descs m =
    write_guest_slice (write_guest_slice m 0x1000 descs) 0x2000 (0 ∷ 0 ∷ 1 ∷ 0 ∷ 0 ∷ 0 ∷ [])

tables-IsByte :
    (descs : List ℕ) (m : Memory)
    → All IsByte descs
    → ((a : ℕ) → m a < 256)
    → (a : ℕ) → tables descs m a < 256
tables-IsByte descs m h bytes =
    write-IsByte (write_guest_slice m 0x1000 descs) 0x2000 (0 ∷ 0 ∷ 1 ∷ 0 ∷ 0 ∷ 0 ∷ [])
      (tested (0 ∷ 0 ∷ 1 ∷ 0 ∷ 0 ∷ 0 ∷ []) refl) (write-IsByte m 0x1000 descs h bytes)

abbrev data_below : Memory
data_below a = if ltb a 4096 then a % 256 else 0

data_below-IsByte : (a : ℕ) → data_below a < 256
data_below-IsByte a = ground arith

abbrev readable_table : List ℕ
readable_table =
    0 ∷ 1 ∷ 0 ∷ 0 ∷ 0 ∷ 0 ∷ 0 ∷ 0 ∷ 14 ∷ 0 ∷ 0 ∷ 0 ∷ 1 ∷ 0 ∷ 1 ∷ 0 ∷ 0 ∷ 2 ∷ 0 ∷ 0 ∷ 0 ∷ 0 ∷ 0 ∷ 0
    ∷ 3 ∷ 0 ∷ 0 ∷ 0 ∷ 0 ∷ 0 ∷ 0 ∷ 0 ∷ []

abbrev to_send : Memory
to_send = tables readable_table data_below

abbrev at_work : Memory → Machine
at_work m = record {
  device = record (new 0) { queue_pfns = (4096, 4096); tap_fd = some 7 };
  guest_mem = m;
  sent = [];
}

abbrev sent_descs : List VringDesc
sent_descs =
    record { addr = 256; len = 14; flags = 1; next = 1 }
    ∷ record { addr = 512; len = 3; flags = 0; next = 0 }
    ∷ []

to_send-Chain : Chain to_send 4096 0 sent_descs
unfolding read_u16 read_u32 read_u64 write_guest_slice
to_send-Chain = linked refl (at_end refl)

to_send-Queued : Queued 1 2 to_send (ring_idx to_send (used_offset (1 * 4096))) (sent_descs ∷ [])
unfolding read_u16 write_guest_slice used_offset avail_offset
to_send-Queued = (
  (
    to_send-Chain,
    omega arith,
    ((inr (omega arith), inl (omega arith)), ((inl refl, inl (omega arith)), tt)),
    omega arith,
    inl (omega arith),
  ),
  tt,
)

to_send-num_avail : length (sent_descs ∷ []) ≡ num_avail to_send 4096
unfolding read_u16 write_guest_slice used_offset avail_offset num_avail
to_send-num_avail = refl

handle_queue_kick-sends_example :
    (after : Machine) × (handle_queue_kick 2 (at_work to_send) 1 ≡ ok after)
    × (after.device ≡ (at_work to_send).device)
    × (after.sent ≡ [] ++ frames_of to_send (sent_descs ∷ []))
    × AgreeOutside (ring_start 1) (ring_end 1) to_send after.guest_mem
    × (num_avail after.guest_mem (1 * 4096) ≡ 0)
handle_queue_kick-sends_example =
    handle_queue_kick-sends 1 2 7 (at_work to_send) (sent_descs ∷ []) (omega arith) (omega arith)
      refl refl
      (tables-IsByte readable_table data_below (tested readable_table refl) data_below-IsByte)
      to_send-num_avail to_send-Queued

-- two buffers of 8 bytes
abbrev writable_table : List ℕ
writable_table =
    0 ∷ 1 ∷ 0 ∷ 0 ∷ 0 ∷ 0 ∷ 0 ∷ 0 ∷ 8 ∷ 0 ∷ 0 ∷ 0 ∷ 3 ∷ 0 ∷ 1 ∷ 0 ∷ 0 ∷ 2 ∷ 0 ∷ 0 ∷ 0 ∷ 0 ∷ 0 ∷ 0
    ∷ 8 ∷ 0 ∷ 0 ∷ 0 ∷ 2 ∷ 0 ∷ 0 ∷ 0 ∷ []

abbrev to_fill : Memory
to_fill = tables writable_table data_below

abbrev filled_descs : List VringDesc
filled_descs =
    record { addr = 256; len = 8; flags = 3; next = 1 }
    ∷ record { addr = 512; len = 8; flags = 2; next = 0 }
    ∷ []

abbrev packet : List ℕ
packet = 1 ∷ 2 ∷ 3 ∷ 4 ∷ 5 ∷ 6 ∷ 7 ∷ 8 ∷ 9 ∷ 10 ∷ []

to_fill-Takes : Takes 1 2 to_fill (next_head 1 to_fill) filled_descs packet
unfolding read_u16 read_u32 read_u64 write_guest_slice used_offset avail_offset
to_fill-Takes = (
  linked refl (at_end refl),
  omega arith,
  ((inr (omega arith), inl (omega arith)), ((inl refl, inl (omega arith)), tt)),
  (refl, (refl, tt)),
  ((inr (omega arith), tt), (tt, tt)),
  omega arith,
  omega arith,
)

to_fill-num_avail : num_avail to_fill (1 * 4096) ≢ 0
unfolding read_u16 write_guest_slice used_offset avail_offset num_avail
to_fill-num_avail h = omega (arith, h)

deliver-fills_example :
    (after : Machine) × (deliver 2 (at_work to_fill) packet ≡ ok (after, true))
    × (after.device ≡ record (at_work to_fill).device { isr = bit_or 0 1 })
    × (take (length packet) (buffer_bytes after.guest_mem filled_descs) ≡ packet)
    × IsPublished 1 to_fill after.guest_mem (next_head 1 to_fill) (length packet)
    × ((a : ℕ)
        → Avoid a (a + 1) filled_descs
        → (a < ring_start 1) ⊎ (ring_end 1 ≤ a)
        → after.guest_mem a ≡ to_fill a)
deliver-fills_example =
    deliver-fills 1 2 (at_work to_fill) filled_descs packet (omega arith) refl to_fill-num_avail
      (omega arith) to_fill-Takes

abbrev fresh_machine : Machine
fresh_machine = record { device = new 0xd0000000; guest_mem = to_fill; sent = [] }

-- the guest has set its status, selected a queue and placed it
abbrev running : Machine
running = record fresh_machine {
  device = record (new 0xd0000000) { queue_pfns = (4096, 0); status = 4 };
}

set_up-Reach : Reach fresh_machine running
unfolding mmio_write set_status set_pfn
set_up-Reach =
    goes
      (goes (goes starts (writes 0 0x12 0x104 (omega arith) refl))
        (writes 0 0x0e 0 (omega arith) refl))
      (writes 0 0x08 1 (omega arith) refl)

Reach-IsSound_example : IsSound running.device
Reach-IsSound_example = Reach-IsSound 0xd0000000 to_fill set_up-Reach
