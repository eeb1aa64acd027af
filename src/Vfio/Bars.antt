-- ===== src/Vfio/Bars.antt =====
-- `write_guest_bar_addr` and `preassign_guest_bar_addresses` of tinymachine-fork/src/vfio/base.rs, with
-- `write_config_u32` of pci_config.rs beside it. Logging is left out.
pub mod Regions
use tinymachine.Common.{
  ℕ, suc, ◌+◌, ◌-◌, ◌*◌, ◌/◌, ◌%◌, ◌^◌, Bool, true, false, not, ◌==◌, ◌||◌, ltb, max, if◌then◌else◌,
  Option, none, some, List, [], ◌∷◌, ◌++◌, Result, ok, err, bit_and, bit_or,
}
use tinymachine.Vfio.Align.{next_power_of_two, add_64, place}

pub record BarRegionInfo : Type 0 where
  pub index : ℕ
  pub size : ℕ
  pub offset : ℕ
  pub can_mmap : Bool
  pub can_read : Bool
  pub can_write : Bool

-- the fields of the device that the assignment reads
pub record VfioPassthroughBase : Type 0 where
  pub device_fd : Option ℕ
  pub valid_config_region_offset : Option ℕ
  pub bar_regions : List BarRegionInfo

pub data VfioError : Type 0 where
  not_available : VfioError

-- index, address and size of a region that was placed
pub record Assigned : Type 0 where
  pub index : ℕ
  pub addr : ℕ
  pub size : ℕ

-- the variables of the loop
pub record Layout : Type 0 where
  pub assigned : List Assigned
  pub next_64bit : ℕ
  pub next_32bit : ℕ

abbrev pub start : Layout
start = record { assigned = []; next_64bit = 0x1000000000; next_32bit = 0xe0000000 }

-- the four bytes of a word, the low one first
abbrev le_bytes : ℕ → List ℕ
le_bytes val = val % 256 ∷ val / 2 ^ 8 % 256 ∷ val / 2 ^ 16 % 256 ∷ val / 2 ^ 24 % 256 ∷ []

abbrev pub bar_reg : ℕ → ℕ
bar_reg index = 0x10 + index * 4

abbrev pub place_64bit : Layout → ℕ → ℕ
place_64bit l size = place l.next_64bit (next_power_of_two (max 0x40000000 size))

abbrev pub place_32bit : Layout → ℕ → ℕ
place_32bit l size = place l.next_32bit (next_power_of_two (max 0x1000 size))

module _ {Host : Type 0} where
  commit_64bit : Layout → BarRegionInfo → ℕ → Bool × Host → Layout × Host
  commit_64bit l bar addr (false, host) = (l, host)
  commit_64bit l bar addr (true, host) = (
    record l {
      assigned = l.assigned ++ record { index = bar.index; addr = addr; size = bar.size } ∷ [];
      next_64bit = add_64 addr bar.size;
    },
    host,
  )

  commit_32bit : Layout → BarRegionInfo → ℕ → Bool × Host → Layout × Host
  commit_32bit l bar addr (false, host) = (l, host)
  commit_32bit l bar addr (true, host) = (
    record l {
      assigned = l.assigned ++ record { index = bar.index; addr = addr; size = bar.size } ∷ [];
      next_32bit = add_64 addr bar.size;
    },
    host,
  )

-- `pread` of four bytes gives their word, `pwrite` says whether all bytes were written
module _ {Host : Type 0} (pread : ℕ → ℕ → Host → Option ℕ × Host)
    (pwrite : ℕ → ℕ → List ℕ → Host → Bool × Host) where
  unfoldable pub write_config_u32 : ℕ → ℕ → ℕ → ℕ → Host → Bool × Host
  write_config_u32 dev_fd config_off pci_offset val host =
      pwrite dev_fd (config_off + pci_offset) (le_bytes val) host

  write_upper : ℕ → ℕ → ℕ → ℕ → Bool × Host → Bool × Host
  unfolding write_config_u32
  write_upper dev_fd config_off index guest_addr (false, host) = (false, host)
  write_upper dev_fd config_off index guest_addr (true, host) =
      write_config_u32 dev_fd config_off (bar_reg index + 4) (guest_addr / 2 ^ 32 % 2 ^ 32) host

  write_read : ℕ → ℕ → ℕ → ℕ → Option ℕ × Host → Bool × Host
  unfolding write_config_u32 write_upper
  write_read dev_fd config_off index guest_addr (none, host) = (false, host)
  write_read dev_fd config_off index guest_addr (some raw_val, host) =
      let lower = bit_or (bit_and guest_addr 0xfffffff0 % 2 ^ 32) (bit_and raw_val 0xf) in
      let written = write_config_u32 dev_fd config_off (bar_reg index) lower host in
      if not (bit_and raw_val 1 == 0)
      then (false, host)
      else if bit_and (raw_val / 2) 3 == 2
      then write_upper dev_fd config_off index guest_addr written
      else written

  unfoldable pub write_guest_bar_addr : ℕ → ℕ → ℕ → ℕ → Host → Bool × Host
  unfolding write_read
  write_guest_bar_addr dev_fd config_off index guest_addr host =
      write_read dev_fd config_off index guest_addr (pread dev_fd (config_off + bar_reg index) host)

  place_bar : ℕ → ℕ → Layout → BarRegionInfo → Option ℕ × Host → Layout × Host
  unfolding commit_64bit commit_32bit write_guest_bar_addr
  place_bar dev_fd config_off l bar (none, host) = (l, host)
  place_bar dev_fd config_off l bar (some raw_bar, host) =
      let addr_64 = place_64bit l bar.size in
      let addr_32 = place_32bit l bar.size in
      if not (bit_and raw_bar 1 == 0)
      then (l, host)
      else if bit_and (raw_bar / 2) 3 == 2
      then commit_64bit l bar addr_64
          (write_guest_bar_addr dev_fd config_off bar.index addr_64 host)
      else if ltb 0xffffffff addr_32
      then (l, host)
      else commit_32bit l bar addr_32
          (write_guest_bar_addr dev_fd config_off bar.index addr_32 host)

  unfoldable pub assign_bars : ℕ → ℕ → List BarRegionInfo → Layout → Host → Layout × Host
  unfolding place_bar
  assign_bars dev_fd config_off [] l host = (l, host)
  assign_bars dev_fd config_off (bar ∷ bars) l host =
      let placed =
        if ltb 5 bar.index || not bar.can_mmap || bar.size == 0
        then (l, host)
        else place_bar dev_fd config_off l bar
            (pread dev_fd (config_off + bar_reg bar.index) host) in
      assign_bars dev_fd config_off bars placed.0 placed.1

  answer : Layout × Host → Result VfioError (List Assigned) × Host
  answer (l, host) = (ok l.assigned, host)

  assigned_with :
      Option ℕ → Option ℕ → List BarRegionInfo → Host → Result VfioError (List Assigned) × Host
  unfolding assign_bars answer
  assigned_with none config_off bars host = (err not_available, host)
  assigned_with (some dev_fd) none bars host = (err not_available, host)
  assigned_with (some dev_fd) (some config_off) bars host =
      answer (assign_bars dev_fd config_off bars start host)

  unfoldable pub preassign_guest_bar_addresses :
      VfioPassthroughBase → Host → Result VfioError (List Assigned) × Host
  unfolding assigned_with
  preassign_guest_bar_addresses device host =
      assigned_with device.device_fd device.valid_config_region_offset device.bar_regions host
