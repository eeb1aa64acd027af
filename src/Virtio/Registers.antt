-- ===== src/Virtio/Registers.antt =====
-- The registers of the network device: `mmio_read` and `mmio_write` of
-- tinymachine-fork/src/net/virtio_net_pci.rs.
use tinymachine.Common.{
  ℕ, ◌-◌, ◌*◌, ◌/◌, ◌%◌, ◌^◌, false, ◌&&◌, ◌==◌, leb, if◌then◌else◌, Result, ok, get_or, bit_and,
}
use tinymachine.Virtio.{VirtioNetPci, Machine, Stop, mac, reset}
use tinymachine.Virtio.Transmit.{handle_queue_kick}

-- the entry of `queue_pfns` or `queue_sizes` that is selected, 0 beyond the two queues
abbrev pub selected : VirtioNetPci → ℕ × ℕ → ℕ
selected d queues =
    if d.selected_queue == 0 then queues.0 else if d.selected_queue == 1 then queues.1 else 0

abbrev pub acknowledge : VirtioNetPci → VirtioNetPci
acknowledge d = record d { isr = 0; intr_pending = false }

unfoldable pub mmio_read : VirtioNetPci → ℕ → ℕ × VirtioNetPci
mmio_read d offset =
    if offset == 0x00
    then (d.device_features, d)
    else if offset == 0x04
    then (d.guest_features, d)
    else if offset == 0x08
    then (selected d d.queue_pfns / 2 ^ 12 % 2 ^ 32, d)
    else if offset == 0x0c
    then (selected d d.queue_sizes, d)
    else if offset == 0x0e
    then (d.selected_queue, d)
    else if offset == 0x12
    then (d.status, d)
    else if offset == 0x13
    then (d.isr, acknowledge d)
    else if leb 0x14 offset && leb offset 0x19
    then (get_or mac (offset - 0x14) 0, d)
    else if offset == 0x1a
    then (1, d)
    else (0, d)

unfoldable pub set_pfn : VirtioNetPci → ℕ → VirtioNetPci
set_pfn d pfn =
    if d.selected_queue == 0
    then record d { queue_pfns = (pfn, d.queue_pfns.1) }
    else if d.selected_queue == 1
    then record d { queue_pfns = (d.queue_pfns.0, pfn) }
    else d

unfoldable pub set_status : VirtioNetPci → ℕ → VirtioNetPci
set_status d status =
    if status == 0 then reset (record d { status = status }) else record d { status = status }

unfoldable pub mmio_write : ℕ → Machine → ℕ → ℕ → Result Stop Machine
unfolding set_pfn set_status
mmio_write fuel s offset val =
    let d = s.device in
    let kicked = if val == 0 then d.queue_pfns.0 else if val == 1 then d.queue_pfns.1 else 0 in
    if offset == 0x04
    then ok (record s { device = record d { guest_features = bit_and val d.device_features } })
    else if offset == 0x08
    then ok (record s { device = set_pfn d (val * 2 ^ 12) })
    else if offset == 0x0e
    then ok (record s { device = record d { selected_queue = val } })
    else if offset == 0x10
    then (if kicked == 0 then ok s else handle_queue_kick fuel s val)
    else if offset == 0x12
    then ok (record s { device = set_status d (val % 2 ^ 8) })
    else if offset == 0x13
    then ok (record s { device = acknowledge d })
    else ok s
