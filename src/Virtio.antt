-- ===== src/Virtio.antt =====
-- The virtio network device: tinymachine-fork/src/net/virtio_net_pci.rs. Bytes, half words and words are
-- numbers below 2 ^ 8, 2 ^ 16, 2 ^ 32 and 2 ^ 64; the guest's memory is its byte at each address.
pub mod Checksum
pub mod Reply
pub mod Handshake
pub mod Rings
pub mod Transmit
pub mod Receive
pub mod Registers
pub mod Chains
pub mod Regions
pub mod Stability
pub mod Sending
pub mod Kicks
pub mod Filling
pub mod Delivery
pub mod Receiving
pub mod Soundness
pub mod Polling
pub mod Steps
mod Tests
use tinymachine.Common.{ℕ, Bool, false, Option, none, some, List, [], ◌∷◌, ◌*◌, ◌^◌, bit_and}
use tinymachine.Boot.Memory.{Memory}

abbrev pub virtio_net_f_mac : ℕ
virtio_net_f_mac = 5

abbrev pub vring_desc_f_next : ℕ
vring_desc_f_next = 1

abbrev pub vring_desc_f_write : ℕ
vring_desc_f_write = 2

abbrev pub queue_size : ℕ
queue_size = 256

abbrev pub max_packet_size : ℕ
max_packet_size = 2048

abbrev pub virtio_net_hdr_size : ℕ
virtio_net_hdr_size = 10

abbrev pub mac : List ℕ
mac = 0x52 ∷ 0x54 ∷ 0x00 ∷ 0x12 ∷ 0x34 ∷ 0x56 ∷ []

-- why a call does not return: an index out of range, or a chain of descriptors longer than the fuel
pub data Stop : Type 0 where
  out_of_range : Stop
  out_of_fuel : Stop

-- `guest_mem` is passed beside the device
pub record VirtioNetPci : Type 0 where
  pub selected_queue : ℕ
  pub queue_pfns : ℕ × ℕ
  pub queue_sizes : ℕ × ℕ
  pub guest_features : ℕ
  pub device_features : ℕ
  pub status : ℕ
  pub isr : ℕ
  pub irq_line : ℕ
  pub bar0_shadow : ℕ
  pub tap_fd : Option ℕ
  pub next_rx_idx : ℕ
  pub intr_pending : Bool
  pub synack_pending : Option (List ℕ)
  pub arp_reply_pending : Option (List ℕ)

abbrev pub new : ℕ → VirtioNetPci
new mmio_base = record {
  selected_queue = 0;
  queue_pfns = (0, 0);
  queue_sizes = (queue_size, queue_size);
  guest_features = 0;
  device_features = 1 * 2 ^ virtio_net_f_mac;
  status = 0;
  isr = 0;
  irq_line = 11;
  bar0_shadow = mmio_base;
  tap_fd = none;
  next_rx_idx = 0;
  intr_pending = false;
  synack_pending = none;
  arp_reply_pending = none;
}

abbrev pub set_tap_fd : VirtioNetPci → ℕ → VirtioNetPci
set_tap_fd d fd = record d { tap_fd = some fd }

abbrev pub reset : VirtioNetPci → VirtioNetPci
reset d = record d {
  selected_queue = 0;
  queue_pfns = (0, 0);
  guest_features = 0;
  status = 0;
  isr = 0;
  next_rx_idx = 0;
  intr_pending = false;
}

abbrev pub mmio_base : VirtioNetPci → ℕ
mmio_base d = bit_and d.bar0_shadow 0xfffff000

-- The device at work: with the guest's memory, and the frames that it has written to the TAP interface.
pub record Machine : Type 0 where
  pub device : VirtioNetPci
  pub guest_mem : Memory
  pub sent : List (List ℕ)

-- what a snapshot keeps of the device, `VirtioNetState` of snapshot.rs
pub record VirtioNetState : Type 0 where
  pub selected_queue : ℕ
  pub queue_pfns : ℕ × ℕ
  pub queue_sizes : ℕ × ℕ
  pub guest_features : ℕ
  pub device_features : ℕ
  pub status : ℕ
  pub isr : ℕ
  pub irq_line : ℕ
  pub bar0_shadow : ℕ
  pub next_rx_idx : ℕ
  pub intr_pending : Bool

abbrev pub capture_state : VirtioNetPci → VirtioNetState
capture_state d = record {
  selected_queue = d.selected_queue;
  queue_pfns = d.queue_pfns;
  queue_sizes = d.queue_sizes;
  guest_features = d.guest_features;
  device_features = d.device_features;
  status = d.status;
  isr = d.isr;
  irq_line = d.irq_line;
  bar0_shadow = d.bar0_shadow;
  next_rx_idx = d.next_rx_idx;
  intr_pending = d.intr_pending;
}

abbrev pub from_state : VirtioNetState → Option ℕ → VirtioNetPci
from_state state tap_fd = record {
  selected_queue = state.selected_queue;
  queue_pfns = state.queue_pfns;
  queue_sizes = state.queue_sizes;
  guest_features = state.guest_features;
  device_features = state.device_features;
  status = state.status;
  isr = state.isr;
  irq_line = state.irq_line;
  bar0_shadow = state.bar0_shadow;
  tap_fd = tap_fd;
  next_rx_idx = state.next_rx_idx;
  intr_pending = state.intr_pending;
  synack_pending = none;
  arp_reply_pending = none;
}
