-- ===== src/Boot/Tables.antt =====
-- The page tables and the GDT that tinymachine-fork/src/arch/x86_64/boot.rs writes.
pub mod Walk
pub mod Mapping
use tinymachine.Common.{
  ℕ, zero, suc, ◌+◌, ◌-◌, ◌*◌, ◌/◌, ltb, if◌then◌else◌, Result, ok, err, bit_or,
}
use tinymachine.Boot.Memory.{Memory, write_guest_u64}
use tinymachine.Boot.Load.{BootError, memory_too_large, gdt_addr, pml4_addr}

abbrev pub pdp_addr : ℕ
pdp_addr = 0x71000

abbrev pub pd_addr : ℕ
pd_addr = 0x72000

abbrev pub pdp1_addr : ℕ
pdp1_addr = 0x73000

abbrev pub pt_present : ℕ
pt_present = 1

abbrev pub pt_rw : ℕ
pt_rw = 2

abbrev pub pt_ps : ℕ
pt_ps = 128

abbrev pub page_size_2mb : ℕ
page_size_2mb = 2 * 1024 * 1024

-- `mem_size.div_ceil(PAGE_SIZE_2MB)`
abbrev pub num_pd_entries : ℕ → ℕ
num_pd_entries mem_size = (mem_size + (page_size_2mb - 1)) / page_size_2mb

unfoldable pub pd_entry : ℕ → ℕ
pd_entry i = bit_or (bit_or (bit_or (i * page_size_2mb) pt_present) pt_rw) pt_ps

-- the loop over the page directory, after `count` turns
unfoldable pub write_pd : ℕ → Memory → Memory
unfolding pd_entry
write_pd zero m = m
write_pd (suc i) m = write_guest_u64 (write_pd i m) (pd_addr + i * 8) (pd_entry i)

-- the entries above the page directory
unfoldable pub write_upper : Memory → Memory
write_upper m =
    let m₁ = write_guest_u64 m pml4_addr (bit_or (bit_or pdp_addr pt_present) pt_rw) in
    let m₂ =
      write_guest_u64 m₁ (pml4_addr + 511 * 8) (bit_or (bit_or pdp1_addr pt_present) pt_rw) in
    let m₃ = write_guest_u64 m₂ pdp_addr (bit_or (bit_or pd_addr pt_present) pt_rw) in
    write_guest_u64 m₃ (pdp1_addr + 510 * 8) (bit_or (bit_or pd_addr pt_present) pt_rw)

unfoldable pub setup_page_tables : Memory → ℕ → Result BootError Memory
unfolding write_pd write_upper
setup_page_tables m mem_size =
    let num = num_pd_entries mem_size in
    let pd_end = pd_addr + num * 8 in
    if ltb 0x76000 pd_end
    then err (memory_too_large mem_size num pd_end)
    else ok (write_pd num (write_upper m))

abbrev pub gdt_null : ℕ
gdt_null = 0

abbrev pub gdt_code : ℕ
gdt_code = 0x00af9b000000ffff

abbrev pub gdt_data : ℕ
gdt_data = 0x008f93000000ffff

unfoldable pub setup_gdt : Memory → Memory
setup_gdt m =
    let m₁ = write_guest_u64 m gdt_addr gdt_null in
    let m₂ = write_guest_u64 m₁ (gdt_addr + 8) gdt_code in
    write_guest_u64 m₂ (gdt_addr + 16) gdt_data
