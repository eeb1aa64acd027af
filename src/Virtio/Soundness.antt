-- ===== src/Virtio/Soundness.antt =====
-- What the registers and a kick keep of the network device: tinymachine-fork/src/net/virtio_net_pci.rs.
pub mod Received
use tinymachine.Common.{
  ℕ, zero, suc, ◌+◌, ◌*◌, ◌/◌, ◌%◌, ◌^◌, ◌≤◌, ◌<◌, ◌≡◌, ◌⊎◌, inl, inr, refl, ap, sym, ◌∙◌, subst,
  Bool, Bool-cases, true, false, ◌&&◌, not, ◌==◌, leb, ltb, if◌then◌else◌, Option, none, some,
  Result, ok, err, ◌>>=◌, bind_ok, guard_ok, ok_err, List, [], ◌∷◌, ◌++◌, length, bit_and, bit_or,
  drop, arith,
}
use tinymachine.Common.Masks.{bit_and_bit}
use tinymachine.Virtio.{
  VirtioNetPci, Machine, Stop, queue_size, new, set_tap_fd, virtio_net_hdr_size,
}
use tinymachine.Virtio.Registers.{mmio_read, mmio_write, selected, set_pfn, set_status, acknowledge}
use tinymachine.Virtio.Reply.{craft_synack, arp_reply}
use tinymachine.Virtio.Handshake.Options.{craft_synack-length}
use tinymachine.Virtio.Transmit.{
  is_none, has_tap, log_segment, write_tap, answer_syn, answer_arp, transmit_frame, read_packet,
  transmit_one, transmit_all, handle_queue_kick,
}
use tinymachine.Virtio.Rings.{avail_offset, used_offset, avail_ring, ring_idx, num_avail}
use tinymachine.Virtio.Receive.{publish, deliver, receive, try_rx}

-- an answer that waits has the length of its kind
abbrev pub IsPending : ℕ → Option (List ℕ) → Type 0
IsPending n none = Unit
IsPending n (some packet) = length packet ≡ n

-- a page number of 32 bits, as an address
abbrev pub IsPage : ℕ → Type 0
IsPage pfn = (pfn % 4096 ≡ 0) × (pfn < 2 ^ 44)

-- the device is as its guest may expect it: it has taken no feature that it was not offered, the two queues are
-- on pages and have their size, and its registers and answers have theirs
abbrev pub IsSound : VirtioNetPci → Type 0
IsSound d =
    (d.device_features ≡ 32)
    × ((d.guest_features ≡ 0) ⊎ (d.guest_features ≡ d.device_features))
    × IsPage d.queue_pfns.0
    × IsPage d.queue_pfns.1
    × (d.queue_sizes ≡ (queue_size, queue_size))
    × (d.status < 256)
    × (d.isr ≤ 1)
    × IsPending 54 d.synack_pending
    × IsPending 42 d.arp_reply_pending

pub new-IsSound : (base : ℕ) → IsSound (new base)
new-IsSound base = (
  refl,
  inl refl,
  (refl, omega arith),
  (refl, omega arith),
  refl,
  omega arith,
  omega arith,
  tt,
  tt,
)

pub mmio_read-IsSound :
    (d : VirtioNetPci) (offset : ℕ) → IsSound d → IsSound ((mmio_read d offset).1)
unfolding mmio_read
mmio_read-IsSound d offset h = ground (arith, h)

answered-IsSound :
    (d : VirtioNetPci) (answer : Option (List ℕ))
    → IsPending 54 answer
    → IsSound d
    → IsSound (elim answer [ none ↦ d | some synack ↦ record d { synack_pending = some synack } ])
answered-IsSound d none fits h = h
answered-IsSound d (some synack) fits h = (h.0, h.1, h.2, h.3, h.4, h.5, h.6, fits, h.8)

crafted-IsPending :
    (packet : List ℕ) (answer : Option (List ℕ))
    → craft_synack packet ≡ ok answer
    → IsPending 54 answer
crafted-IsPending packet none e = tt
crafted-IsPending packet (some reply) e = craft_synack-length packet reply e

-- whatever a call returns has the property
abbrev pub Returns {ℓ} : {A : Type ℓ} → (A → Type 0) → Result Stop A → Type 0
Returns P (ok a) = P a
Returns P (err e) = Unit

pub Returns-bind {ℓ κ} :
    {A : Type ℓ} {B : Type κ} (P : A → Type 0) (Q : B → Type 0) (r : Result Stop A)
    (f : A → Result Stop B)
    → Returns P r
    → ((a : A) → P a → Returns Q (f a))
    → Returns Q (r >>= f)
Returns-bind P Q (ok a) f h k = k a h
Returns-bind P Q (err e) f h k = tt

pub Returns-known {ℓ} :
    {A : Type ℓ} (P : A → Type 0) (r : Result Stop A) → ((a : A) → r ≡ ok a → P a) → Returns P r
Returns-known P (ok a) h = h a refl
Returns-known P (err e) h = tt

pub Returns-if {ℓ} :
    {A : Type ℓ} (P : A → Type 0) (c : Bool) (r r' : Result Stop A)
    → Returns P r
    → Returns P r'
    → Returns P (if c then r else r')
Returns-if P true r r' h h' = h
Returns-if P false r r' h h' = h'

abbrev pub SoundMachine : Machine → Type 0
SoundMachine s = IsSound s.device

answer_syn-IsSound :
    (d : VirtioNetPci) (packet : List ℕ) → IsSound d → Returns IsSound (answer_syn d packet)
unfolding answer_syn
answer_syn-IsSound d packet h = elim (Bool-cases (not (has_tap d) && is_none d.synack_pending)) [
  | inl asked ↦ rw asked (
      Returns-bind (IsPending 54) IsSound (craft_synack packet) _
        (Returns-known (IsPending 54) (craft_synack packet) (crafted-IsPending packet))
        (λ answer fits. answered-IsSound d answer fits h))
  | inr other ↦ rw other h
]

answer_arp-IsSound :
    (d : VirtioNetPci) (packet : List ℕ) → IsSound d → IsSound (answer_arp d packet)
unfolding answer_arp arp_reply
answer_arp-IsSound d packet h = ground (arith, h)

write_tap-IsSound :
    (s : Machine) (packet : List ℕ) → SoundMachine s → SoundMachine (write_tap s packet)
write_tap-IsSound s packet h = elim (Bool-cases (has_tap s.device)) [
  | inl tap ↦ rw tap h
  | inr other ↦ rw other h
]

transmit_frame-IsSound :
    (s : Machine) (packet : List ℕ)
    → SoundMachine s
    → Returns SoundMachine (transmit_frame s packet)
unfolding transmit_frame
transmit_frame-IsSound s packet h =
    let written = write_tap s packet in
    Returns-bind (λ u. Unit) SoundMachine (log_segment packet) _
      (Returns-known (λ u. Unit) (log_segment packet) (λ u e. tt))
      (λ u t.
        Returns-bind IsSound SoundMachine (answer_syn written.device packet) _
          (answer_syn-IsSound written.device packet (write_tap-IsSound s packet h))
          (λ answered sound. answer_arp-IsSound answered packet sound))

transmit_one-IsSound :
    (fuel : ℕ) (s : Machine) (pfn i : ℕ)
    → SoundMachine s
    → Returns SoundMachine (transmit_one fuel s pfn i)
unfolding transmit_one
transmit_one-IsSound fuel s pfn i h =
    let head = avail_ring s.guest_mem (avail_offset pfn) i in
    Returns-bind (λ u. Unit) SoundMachine (read_packet fuel s pfn head) _
      (Returns-known (λ u. Unit) (read_packet fuel s pfn head) (λ u e. tt))
      (λ packet t.
        let eth_pkt = drop virtio_net_hdr_size packet in
        Returns-bind SoundMachine SoundMachine
          (if ltb 0 (length eth_pkt) then transmit_frame s eth_pkt else ok s) _
          (Returns-if SoundMachine (ltb 0 (length eth_pkt)) (transmit_frame s eth_pkt) (ok s)
            (transmit_frame-IsSound s eth_pkt h) h)
          (λ after sound. sound))

transmit_all-IsSound :
    (fuel : ℕ) (s : Machine) (pfn i count : ℕ)
    → SoundMachine s
    → Returns SoundMachine (transmit_all fuel s pfn i count)
unfolding transmit_all
transmit_all-IsSound fuel s pfn i zero h = h
transmit_all-IsSound fuel s pfn i (suc count) h =
    Returns-bind SoundMachine SoundMachine (transmit_one fuel s pfn i) _
      (transmit_one-IsSound fuel s pfn i h)
      (λ next sound. transmit_all-IsSound fuel next pfn ((i + 1) % 2 ^ 16) count sound)

handle_queue_kick-IsSound :
    (fuel : ℕ) (s : Machine) (q : ℕ)
    → SoundMachine s
    → Returns SoundMachine (handle_queue_kick fuel s q)
unfolding handle_queue_kick
handle_queue_kick-IsSound fuel s q h =
    let pfn = s.device.queue_pfns.1 in
    Returns-if SoundMachine (not (q == 1)) (ok s) _ h (
      Returns-if SoundMachine (pfn == 0) (ok s) _ h (
        Returns-if SoundMachine (num_avail s.guest_mem pfn == 0) (ok s) _ h (
          Returns-bind SoundMachine SoundMachine
            (transmit_all fuel s pfn (ring_idx s.guest_mem (used_offset pfn))
              (num_avail s.guest_mem pfn))
            _
            (transmit_all-IsSound fuel s pfn (ring_idx s.guest_mem (used_offset pfn))
              (num_avail s.guest_mem pfn) h)
            (λ after sound. sound))))

features_offered :
    (val offered : ℕ) → offered ≡ 32 → (bit_and val offered ≡ 0) ⊎ (bit_and val offered ≡ offered)
features_offered val offered e = rw e (ground (arith, bit_and_bit 5 val))

set_pfn-IsSound :
    (d : VirtioNetPci) (val : ℕ) → val < 2 ^ 32 → IsSound d → IsSound (set_pfn d (val * 2 ^ 12))
unfolding set_pfn
set_pfn-IsSound d val fits h = ground (arith, fits, h)

set_status-IsSound : (d : VirtioNetPci) (val : ℕ) → IsSound d → IsSound (set_status d (val % 2 ^ 8))
unfolding set_status
set_status-IsSound d val h = ground (arith, h)

pub mmio_write-IsSound :
    (fuel : ℕ) (s : Machine) (offset val : ℕ)
    → val < 2 ^ 32
    → SoundMachine s
    → Returns SoundMachine (mmio_write fuel s offset val)
unfolding mmio_write
mmio_write-IsSound fuel s offset val fits h =
    Returns-if SoundMachine (offset == 0x04) _ _
      (h.0, features_offered val s.device.device_features h.0, h.2, h.3, h.4, h.5, h.6, h.7, h.8)
      (Returns-if SoundMachine (offset == 0x08) _ _ (set_pfn-IsSound s.device val fits h) (
        Returns-if SoundMachine (offset == 0x0e) _ _ h (
          Returns-if SoundMachine (offset == 0x10) _ _
            (Returns-if SoundMachine _ (ok s) _ h (handle_queue_kick-IsSound fuel s val h))
            (Returns-if SoundMachine (offset == 0x12) _ _ (set_status-IsSound s.device val h) (
              Returns-if SoundMachine (offset == 0x13) _ (ok s)
                (h.0, h.1, h.2, h.3, h.4, h.5, omega arith, h.7, h.8) h)))))
