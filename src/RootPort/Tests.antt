-- ===== src/RootPort/Tests.antt =====
-- The theorems about the root port at work on a new port.
use tinymachine.Common.{◌≡◌, refl, List, [], ◌∷◌, arith, ◌%◌, ◌^◌, min, inr}
use tinymachine.RootPort.{new, config_read, config_write, is_rw}
use tinymachine.RootPort.Bytes.{byte_at}
use tinymachine.RootPort.Access.{IsWellFormed, config_write-IsWellFormed, config_read-config_write}
use tinymachine.RootPort.Chain.{
  dword, byte, AlignedWrite, write_all, capabilities, new-IsWellFormed, byte_at-write_all,
  capabilities-write_all,
}

config_write-IsWellFormed_example : IsWellFormed (config_write new 0x18 1 0x105).0
config_write-IsWellFormed_example = config_write-IsWellFormed new 0x18 1 0x105 new-IsWellFormed

-- The write at the cache line size reaches the header type, a read-only register, at 0x0e.
config_read-config_write_example :
    (config_read (config_write new 0x0c 4 0xfe01fe01).0 0x0c 4 ≡ 0xfe01fe01 % 256 ^ min 4 4)
    × (byte_at (config_write new 0x0c 4 0xfe01fe01).0.config 0x10 ≡ byte_at new.config 0x10)
unfolding is_rw
config_read-config_write_example =
    config_read-config_write new 0x0c 4 0xfe01fe01 0x10 new-IsWellFormed refl (omega arith)
      (inr (omega arith))

abbrev writes : List AlignedWrite
writes =
    record { width = dword; index = 13; val = 0xffffffff }
    ∷ record { width = byte; index = 0x3c; val = 11 }
    ∷ []

byte_at-write_all_example : byte_at (write_all new writes).config 0x34 ≡ byte_at new.config 0x34
unfolding is_rw
byte_at-write_all_example = byte_at-write_all new writes 0x34 new-IsWellFormed refl

capabilities-write_all_example :
    capabilities (write_all new writes).config 5 (byte_at (write_all new writes).config 0x34)
    ≡ (0x40, 0x01) ∷ (0x48, 0x10) ∷ []
capabilities-write_all_example = capabilities-write_all writes 2
