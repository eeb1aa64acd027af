-- ===== src/Boot/Load.antt =====
-- The checks on ranges of guest memory and the loading of segments in tinymachine-fork/src/arch/x86_64/boot.rs.
-- Sums of 64-bit numbers wrap, as in a release build; a slice out of order, where Rust panics, is an error here.
pub mod Safety
use tinymachine.Common.{
  ℕ, ◌+◌, ◌-◌, ◌%◌, ◌^◌, Bool, true, false, ◌&&◌, ◌||◌, leb, ltb, if◌then◌else◌, List, [], ◌∷◌,
  Text, length, take, drop, any, Result, ok, err, ◌>>=◌, ◌>>◌,
}
use tinymachine.Boot.Memory.{Memory, write_guest_slice}

-- the text of an error by what it is made of
pub data BootError : Type 0 where
  invalid_range : (start end : ℕ) → BootError
  range_exceeds : (start end mem_size : ℕ) → BootError
  memory_overlap : (start end : ℕ) → BootError
  segment_exceeds : (phys_addr need has : ℕ) → BootError
  memory_too_large : (mem_size num_pd_entries pd_end : ℕ) → BootError
  slice_panic : (start end : ℕ) → BootError

pub record LoadSegment : Type 0 where
  pub file_offset : ℕ
  pub file_size : ℕ
  pub phys_addr : ℕ
  pub mem_size : ℕ
  pub writable : Bool

abbrev pub gdt_addr : ℕ
gdt_addr = 0x60000

abbrev pub pml4_addr : ℕ
pml4_addr = 0x70000

abbrev pub reserved : List (ℕ × ℕ)
reserved = (gdt_addr, 0x100) ∷ (pml4_addr, 0x5000) ∷ []

unfoldable pub overlaps_reserved : ℕ → ℕ → Bool
overlaps_reserved start end = any (λ r. ltb start (r.0 + r.1) && ltb r.0 end) reserved

unfoldable pub validate_guest_range : ℕ → ℕ → ℕ → Result BootError (Unit {0})
unfolding overlaps_reserved
validate_guest_range mem_size start end =
    if leb end start
    then err (invalid_range start end)
    else if ltb mem_size end
    then err (range_exceeds start end mem_size)
    else if overlaps_reserved start end
    then err (memory_overlap start end)
    else ok tt

-- one turn of the loop
unfoldable pub load_segment : List ℕ → ℕ → LoadSegment → Memory → Result BootError Memory
unfolding validate_guest_range
load_segment elf_data mem_size seg m =
    let start = seg.phys_addr in
    let end = (start + seg.mem_size) % 2 ^ 64 in
    let file_end = (seg.file_offset + seg.file_size) % 2 ^ 64 in
    let src = take (file_end - seg.file_offset) (drop seg.file_offset elf_data) in
    do
      validate_guest_range mem_size start end
      (if ltb (length elf_data) file_end
          then err (segment_exceeds seg.phys_addr file_end (length elf_data))
          else if ltb file_end seg.file_offset
          then err (slice_panic seg.file_offset file_end)
          else ok (write_guest_slice m start src))

unfoldable pub load_elf_segments : List ℕ → ℕ → List LoadSegment → Memory → Result BootError Memory
unfolding load_segment
load_elf_segments elf_data mem_size [] m = ok m
load_elf_segments elf_data mem_size (seg ∷ segments) m = do
  m' ← load_segment elf_data mem_size seg m
  load_elf_segments elf_data mem_size segments m'

-- the contents of the file are an argument
unfoldable pub load_initrd : List ℕ → ℕ → ℕ → Memory → Result BootError ((ℕ × ℕ) × Memory)
unfolding validate_guest_range
load_initrd initrd_data mem_size initrd_addr m = do
  let initrd_size = length initrd_data
  validate_guest_range mem_size initrd_addr ((initrd_addr + initrd_size) % 2 ^ 64)
  ok ((initrd_addr, initrd_size), write_guest_slice m initrd_addr initrd_data)
