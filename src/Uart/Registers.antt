-- ===== src/Uart/Registers.antt =====
-- The registers of `Uart16550` in tinymachine-fork/src/arch/x86_64/port.rs as the guest's driver sees them.
use tinymachine.Common.{ℕ, ◌≡◌, Bool, true, ◌==◌, ◌&&◌, ◌||◌, if◌then◌else◌, arith}
use tinymachine.Uart.{Uart16550, dlab, read_reg, write_reg}

-- The offsets that hold what is written to them, as the latch bit is.
abbrev pub stores : Uart16550 → ℕ → Bool
stores u offset = offset == 1 || offset == 4 || offset == 7 || (offset == 0 && dlab u)

-- A register that stores is read as it was last written, and the write changes what no other offset reads.
read_reg-write_reg :
    (u : Uart16550) (offset value other : ℕ)
    → stores u offset ≡ true
    → read_reg (write_reg u offset value).1 other
      ≡ (if other == offset then value else read_reg u other)
unfolding read_reg write_reg
read_reg-write_reg u offset value other h = ground arith
