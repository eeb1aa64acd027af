-- ===== src/Virtio/Steps.antt =====
-- What holds of the network device in every run: tinymachine-fork/src/net/virtio_net_pci.rs, with the registers, the
-- polling and the interrupt of the run loop in tinymachine-fork/src/arch/x86_64/boot.rs.
use tinymachine.Common.{ℕ, ◌^◌, ◌<◌, ◌≡◌, subst, ◌&&◌, not, ◌==◌, leb, Result, ok, List, [], arith}
use tinymachine.Boot.Memory.{Memory}
use tinymachine.Virtio.{VirtioNetPci, Machine, Stop, new, set_tap_fd}
use tinymachine.Virtio.Registers.{mmio_read, mmio_write}
use tinymachine.Virtio.Receive.{try_rx}
use tinymachine.Virtio.Polling.{raise, poll_net}
use tinymachine.Virtio.Soundness.{
  IsSound, SoundMachine, Returns, Returns-bind, Returns-if, new-IsSound, mmio_read-IsSound,
  mmio_write-IsSound,
}
use tinymachine.Virtio.Soundness.Received.{SoundDelivery, try_rx-IsSound}

raise-IsSound : (d : VirtioNetPci) → IsSound d → IsSound (raise d)
raise-IsSound d h = ground (arith, h)

poll_net-IsSound :
    (fuel : ℕ) (s : Machine) (frames : List (List ℕ))
    → SoundMachine s
    → Returns SoundDelivery (poll_net fuel s frames)
unfolding poll_net
poll_net-IsSound fuel s frames h =
    Returns-if SoundDelivery (leb 4 s.device.status && not (s.device.queue_pfns.0 == 0)) _
      (ok (s, frames))
      (Returns-bind SoundDelivery SoundDelivery (try_rx fuel s frames) _
        (try_rx-IsSound fuel s frames h) (λ polled sound. raise-IsSound polled.0.device sound))
      h

-- What can happen to the device: its guest reads or writes a register, with words of 32 bits, the run loop polls
-- it, while the interface has these frames, or it is given a TAP interface; and the guest's memory can change.
pub data Step : Machine → Machine → Type 0 where
  reads : {s : Machine} (offset : ℕ) → Step s (record s { device = (mmio_read s.device offset).1 })
  writes :
      {s t : Machine} (fuel offset val : ℕ)
      → val < 2 ^ 32
      → mmio_write fuel s offset val ≡ ok t
      → Step s t
  polls :
      {s t : Machine} (fuel : ℕ) (frames rest : List (List ℕ))
      → poll_net fuel s frames ≡ ok (t, rest)
      → Step s t
  attaches : {s : Machine} (fd : ℕ) → Step s (record s { device = set_tap_fd s.device fd })
  changes : {s : Machine} (m : Memory) → Step s (record s { guest_mem = m })

pub data Reach (s : Machine) : Machine → Type 0 where
  starts : Reach s s
  goes : {t u : Machine} → Reach s t → Step t u → Reach s u

returned : {A : Type 0} (P : A → Type 0) (r : Result Stop A) (a : A) → Returns P r → r ≡ ok a → P a
returned P r a h e = subst (Returns P) e h

Step-IsSound : {s t : Machine} → Step s t → SoundMachine s → SoundMachine t
Step-IsSound {s} (reads offset) h = mmio_read-IsSound s.device offset h
Step-IsSound {s} {t} (writes fuel offset val fits e) h =
    returned SoundMachine (mmio_write fuel s offset val) t
      (mmio_write-IsSound fuel s offset val fits h) e
Step-IsSound {s} {t} (polls fuel frames rest e) h =
    returned SoundDelivery (poll_net fuel s frames) (t, rest) (poll_net-IsSound fuel s frames h) e
Step-IsSound (attaches fd) h = h
Step-IsSound (changes m) h = h

-- In every run of a new device, in any memory and with words of 32 bits written to its registers, the
-- features that the guest has taken are none or those offered, both queues are on pages of the first 2 ^
-- 44 bytes and have 256 entries, the status is a byte, no bit but the lowest of the interrupt register
-- is set, and an answer that waits is one of 54 or, by ARP, 42 bytes.
pub Reach-IsSound :
    (base : ℕ) (m : Memory) {t : Machine}
    → Reach (record { device = new base; guest_mem = m; sent = [] }) t
    → IsSound t.device
Reach-IsSound base m starts = new-IsSound base
Reach-IsSound base m (goes run step) = Step-IsSound step (Reach-IsSound base m run)
