-- ===== src/Virtio/Soundness/Received.antt =====
-- What `try_rx` of tinymachine-fork/src/net/virtio_net_pci.rs keeps of the network device.
use tinymachine.Common.{
  ℕ, zero, suc, ◌-◌, ◌≤◌, true, false, ◌==◌, Option, none, some, ok, err, List, [], ◌∷◌, ◌++◌,
  replicate, take, bit_or, arith,
}
use tinymachine.Boot.Memory.{Memory}
use tinymachine.Virtio.{Machine, out_of_fuel, virtio_net_hdr_size, max_packet_size}
use tinymachine.Virtio.Rings.{avail_offset, used_offset, avail_ring, ring_idx, num_avail, fill}
use tinymachine.Virtio.Receive.{
  publish, deliver, deliver_pending, take_synack, take_arp_reply, is_ipv6, receive, receive_tap,
  try_rx,
}
use tinymachine.Virtio.Soundness.{SoundMachine, Returns, Returns-bind, Returns-if}

isr_set : (n : ℕ) → n ≤ 1 → bit_or n 1 ≤ 1
isr_set zero h = omega arith
isr_set (suc zero) h = omega arith
isr_set (suc (suc n)) h = absurd (omega arith)

abbrev pub SoundDelivery {ℓ} : {A : Type ℓ} → Machine × A → Type 0
SoundDelivery delivered = SoundMachine delivered.0

publish-IsSound :
    (s : Machine) (pfn : ℕ) (packet : List ℕ) (filled : Memory × List ℕ)
    → SoundMachine s
    → SoundMachine (publish s pfn packet filled)
publish-IsSound s pfn packet filled h =
    (h.0, h.1, h.2, h.3, h.4, h.5, isr_set s.device.isr h.6, h.7, h.8)

filled_sound :
    (s : Machine) (packet : List ℕ) (outcome : Option (Memory × List ℕ))
    → SoundMachine s
    → Returns SoundDelivery (elim outcome [
      | none ↦ err out_of_fuel
      | some filled ↦ ok (publish s s.device.queue_pfns.0 packet filled, true)
    ])
filled_sound s packet none h = tt
filled_sound s packet (some filled) h = publish-IsSound s s.device.queue_pfns.0 packet filled h

deliver-IsSound :
    (fuel : ℕ) (s : Machine) (packet : List ℕ)
    → SoundMachine s
    → Returns SoundDelivery (deliver fuel s packet)
unfolding deliver
deliver-IsSound fuel s packet h =
    let pfn = s.device.queue_pfns.0 in
    let head = avail_ring s.guest_mem (avail_offset pfn) (ring_idx s.guest_mem (used_offset pfn)) in
    Returns-if SoundDelivery (num_avail s.guest_mem pfn == 0) (ok (s, false)) _ h
      (filled_sound s packet (fill fuel s.guest_mem pfn head packet) h)

receive-IsSound :
    (fuel : ℕ) (s : Machine) (frames : List (List ℕ))
    → SoundMachine s
    → Returns SoundDelivery (receive fuel s frames)
unfolding receive
receive-IsSound fuel s [] h = h
receive-IsSound fuel s ([] ∷ frames) h = h
receive-IsSound fuel s ((b ∷ bytes) ∷ frames) h =
    let frame = take (max_packet_size - virtio_net_hdr_size) (b ∷ bytes) in
    let packet = replicate virtio_net_hdr_size 0 ++ frame in
    Returns-if SoundDelivery (is_ipv6 frame) (receive fuel s frames) _
      (receive-IsSound fuel s frames h)
      (Returns-bind SoundDelivery SoundDelivery (deliver fuel s packet) _
        (deliver-IsSound fuel s packet h)
        (λ delivered sound.
          Returns-if SoundDelivery delivered.1 (receive fuel delivered.0 frames) _
            (receive-IsSound fuel delivered.0 frames sound) sound))

deliver_pending-IsSound :
    (fuel : ℕ) (s : Machine) (pending : Option (List ℕ))
    → SoundMachine s
    → Returns SoundMachine (deliver_pending fuel s pending)
deliver_pending-IsSound fuel s none h = h
deliver_pending-IsSound fuel s (some packet) h =
    Returns-bind SoundDelivery SoundMachine (deliver fuel s packet) _
      (deliver-IsSound fuel s packet h) (λ delivered sound. sound)

receive_tap-IsSound :
    (fuel : ℕ) (s : Machine) (frames : List (List ℕ)) (tap : Option ℕ)
    → SoundMachine s
    → Returns SoundDelivery (receive_tap fuel s frames tap)
receive_tap-IsSound fuel s frames none h = h
receive_tap-IsSound fuel s frames (some fd) h = receive-IsSound fuel s frames h

pub try_rx-IsSound :
    (fuel : ℕ) (s : Machine) (frames : List (List ℕ))
    → SoundMachine s
    → Returns SoundDelivery (try_rx fuel s frames)
unfolding try_rx
try_rx-IsSound fuel s frames h =
    Returns-if SoundDelivery (s.device.queue_pfns.0 == 0) (ok (s, frames)) _ h (
      Returns-bind SoundMachine SoundDelivery
        (deliver_pending fuel (record s { device = take_synack s.device }) s.device.synack_pending)
        _
        (deliver_pending-IsSound fuel (record s { device = take_synack s.device })
          s.device.synack_pending (h.0, h.1, h.2, h.3, h.4, h.5, h.6, tt, h.8))
        (λ a sound.
          Returns-bind SoundMachine SoundDelivery
            (deliver_pending fuel (record a { device = take_arp_reply a.device })
              a.device.arp_reply_pending)
            _
            (deliver_pending-IsSound fuel (record a { device = take_arp_reply a.device })
              a.device.arp_reply_pending
              (sound.0, sound.1, sound.2, sound.3, sound.4, sound.5, sound.6, sound.7, tt))
            (λ b sound'. receive_tap-IsSound fuel b frames b.device.tap_fd sound')))
