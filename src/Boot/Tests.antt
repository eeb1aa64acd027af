-- ===== src/Boot/Tests.antt =====
-- The theorems about boot memory at work on a guest of 64 MB and a kernel of one segment.
use tinymachine.Common.{◌≡◌, ◌+◌, ◌*◌, refl, false, some, inl, inr, [], ◌∷◌, arith, ok}
use tinymachine.Boot.Memory.{Memory, write_guest_slice}
use tinymachine.Boot.Load.{
  LoadSegment, pml4_addr, overlaps_reserved, validate_guest_range, load_segment, load_elf_segments,
}
use tinymachine.Boot.Load.Safety.{load_elf_segments_kept}
use tinymachine.Boot.Tables.{setup_page_tables, setup_gdt}
use tinymachine.Boot.Tables.Walk.{translate}
use tinymachine.Boot.Tables.Mapping.{translate-setup_page_tables}

abbrev zeroed : Memory
zeroed i = 0

translate-setup_page_tables_example :
    (m' : Memory) × (setup_page_tables zeroed (64 * 1024 * 1024) ≡ ok m')
    × (translate (setup_gdt m') pml4_addr 0x100234 ≡ some 0x100234)
    × (translate (setup_gdt m') pml4_addr (0xffffffff80000000 + 0x100234) ≡ some 0x100234)
translate-setup_page_tables_example =
    translate-setup_page_tables zeroed (64 * 1024 * 1024) 0x100234 (omega arith) (omega arith)

abbrev segment : LoadSegment
segment = record {
  file_offset = 1;
  file_size = 2;
  phys_addr = 0x100000;
  mem_size = 0x1000;
  writable = false;
}

load_elf_segments_kept_example :
    write_guest_slice zeroed 0x100000 (2 ∷ 3 ∷ []) 0x70008 ≡ zeroed 0x70008
unfolding load_elf_segments load_segment validate_guest_range overlaps_reserved
load_elf_segments_kept_example =
    load_elf_segments_kept (1 ∷ 2 ∷ 3 ∷ []) (64 * 1024 * 1024) (segment ∷ []) zeroed
      (write_guest_slice zeroed 0x100000 (2 ∷ 3 ∷ [])) 0x70008
      ((omega arith, omega arith, omega arith), tt) (inr (inl (omega arith, omega arith))) refl
