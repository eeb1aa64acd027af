-- ===== src/Boot/Load/Safety.antt =====
-- What the loading of segments in tinymachine-fork/src/arch/x86_64/boot.rs leaves alone.
use tinymachine.Common.{
  ℕ, ◌+◌, ◌-◌, ◌%◌, ◌^◌, ◌≤◌, ◌<◌, ◌≡◌, ◌⊎◌, ap, ◌∙◌, leb, ltb, List, [], ◌∷◌, length, take, drop,
  length-take, ok, err, bind_ok, guard_ok, sym, All, arith,
}
use tinymachine.Boot.Memory.{Memory, slice_kept}
use tinymachine.Boot.Load.{
  LoadSegment, gdt_addr, pml4_addr, overlaps_reserved, validate_guest_range, load_segment,
  load_elf_segments,
}

-- The GDT, the page tables, and what lies outside the guest's memory.
abbrev pub IsProtected : ℕ → ℕ → Type 0
IsProtected mem_size i =
    ((gdt_addr ≤ i) × (i < gdt_addr + 0x100))
    ⊎ ((pml4_addr ≤ i) × (i < pml4_addr + 0x5000))
    ⊎ (mem_size ≤ i)

-- A range that passes the check holds no protected address.
range_lem :
    (mem_size start end i : ℕ)
    → validate_guest_range mem_size start end ≡ ok tt
    → IsProtected mem_size i
    → (start < end) × ((i < start) ⊎ (end ≤ i))
unfolding validate_guest_range overlaps_reserved
range_lem mem_size start end i passed protected =
    let (positive, rest) = guard_ok (leb end start) _ _ tt passed in
    let (inside, rest') = guard_ok (ltb mem_size end) _ _ tt rest in
    let (apart, rest'') = guard_ok (overlaps_reserved start end) _ _ tt rest' in
    ground (arith, positive, inside, apart, protected)

-- The values of a segment are 64-bit numbers, and what it takes from the file fits into its memory.
abbrev pub IsFitting : LoadSegment → Type 0
IsFitting seg = (seg.file_size ≤ seg.mem_size) × (seg.mem_size < 2 ^ 64) × (seg.phys_addr < 2 ^ 64)

segment_kept :
    (elf_data : List ℕ) (mem_size : ℕ) (seg : LoadSegment) (m m' : Memory) (i : ℕ)
    → IsFitting seg
    → IsProtected mem_size i
    → load_segment elf_data mem_size seg m ≡ ok m'
    → m' i ≡ m i
unfolding load_segment
segment_kept elf_data mem_size seg m m' i (fits, small, low) protected loaded =
    let end = (seg.phys_addr + seg.mem_size) % 2 ^ 64 in
    let file_end = (seg.file_offset + seg.file_size) % 2 ^ 64 in
    let src = take (file_end - seg.file_offset) (drop seg.file_offset elf_data) in
    let (done, valid, rest) =
      bind_ok (validate_guest_range mem_size seg.phys_addr end) _ m' loaded in
    let (in_file, rest') = guard_ok (ltb (length elf_data) file_end) _ _ m' rest in
    let (ordered, written) = guard_ok (ltb file_end seg.file_offset) _ _ m' rest' in
    let (positive, apart) = range_lem mem_size seg.phys_addr end i valid protected in
    ap (λ r. elim r [ ok n ↦ n i | err e ↦ m' i ]) (sym written)
    ∙ slice_kept m seg.phys_addr src i (
        ground (
          arith,
          positive,
          apart,
          length-take (file_end - seg.file_offset) (drop seg.file_offset elf_data),
        ))

-- Where loading succeeds, and no segment takes more from the file than it has memory for, the GDT, the page tables and
-- everything beyond the guest's memory keep their bytes.
pub load_elf_segments_kept :
    (elf_data : List ℕ) (mem_size : ℕ) (segments : List LoadSegment) (m m' : Memory) (i : ℕ)
    → All IsFitting segments
    → IsProtected mem_size i
    → load_elf_segments elf_data mem_size segments m ≡ ok m'
    → m' i ≡ m i
unfolding load_elf_segments
load_elf_segments_kept elf_data mem_size [] m m' i fitting protected loaded =
    ap (λ r. elim r [ ok n ↦ n i | err e ↦ m' i ]) (sym loaded)
load_elf_segments_kept elf_data mem_size (seg ∷ segments) m m' i (fits, fitting) protected loaded =
    let (n, first, rest) = bind_ok (load_segment elf_data mem_size seg m) _ m' loaded in
    load_elf_segments_kept elf_data mem_size segments n m' i fitting protected rest
    ∙ segment_kept elf_data mem_size seg m n i fits protected first
