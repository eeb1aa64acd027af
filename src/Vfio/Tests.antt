-- ===== src/Vfio/Tests.antt =====
-- The theorem about placed regions at work on a device with a 64-bit and a 32-bit region.
use tinymachine.Common.{
  ℕ, ◌≡◌, refl, Bool, true, Option, some, List, [], ◌∷◌, ◌==◌, if◌then◌else◌, arith, ok, All,
}
use tinymachine.Vfio.Bars.{
  BarRegionInfo, VfioPassthroughBase, Assigned, preassign_guest_bar_addresses,
}
use tinymachine.Vfio.Bars.Regions.{AllApart, IsAligned, preassign_guest_bar_addresses-AllApart}

-- a host that counts the accesses; the first region is of 64 bits, the others of 32
abbrev pread : ℕ → ℕ → ℕ → Option ℕ × ℕ
pread dev_fd position count = (some (if position == 0x10 then 4 else 0), count)

abbrev pwrite : ℕ → ℕ → List ℕ → ℕ → Bool × ℕ
pwrite dev_fd position bytes count = (true, count)

abbrev region : ℕ → ℕ → BarRegionInfo
region index size = record {
  index = index;
  size = size;
  offset = 0;
  can_mmap = true;
  can_read = true;
  can_write = true;
}

abbrev device : VfioPassthroughBase
device = record {
  device_fd = some 3;
  valid_config_region_offset = some 0;
  bar_regions = region 0 0x10000000 ∷ region 2 0x4000 ∷ region 3 0x20000 ∷ [];
}

preassign_guest_bar_addresses-AllApart_example :
    (assigned : List Assigned) × (host' : ℕ) × (preassign_guest_bar_addresses pread pwrite device 0
      ≡ (ok assigned, host'))
    × AllApart assigned
    × All IsAligned assigned
preassign_guest_bar_addresses-AllApart_example =
    preassign_guest_bar_addresses-AllApart pread pwrite device 3 0 0 refl refl (omega arith)
      (omega arith, (omega arith, (omega arith, tt)))
