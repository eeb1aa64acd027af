-- ===== src/Virtio/Polling.antt =====
-- The run loop's look at the network device after an exit of the guest, in
-- tinymachine-fork/src/arch/x86_64/boot.rs.
use tinymachine.Common.{◌&&◌, true, not, ◌==◌, leb, if◌then◌else◌, ℕ, Result, ok, ◌>>=◌, List}
use tinymachine.Virtio.{VirtioNetPci, Machine, Stop}
use tinymachine.Virtio.Receive.{try_rx}

abbrev pub raise : VirtioNetPci → VirtioNetPci
raise d = if not (d.isr == 0) then record d { intr_pending = true } else d

unfoldable pub poll_net : ℕ → Machine → List (List ℕ) → Result Stop (Machine × List (List ℕ))
poll_net fuel s frames =
    if leb 4 s.device.status && not (s.device.queue_pfns.0 == 0)
    then (try_rx fuel s frames >>= λ polled.
        ok (record polled.0 { device = raise polled.0.device }, polled.1))
    else ok (s, frames)
