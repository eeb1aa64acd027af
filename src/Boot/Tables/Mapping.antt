-- ===== src/Boot/Tables/Mapping.antt =====
-- What the page tables of tinymachine-fork/src/arch/x86_64/boot.rs map.
use tinymachine.Common.{
  ℕ, zero, suc, ◌+◌, ◌*◌, ◌/◌, ◌%◌, ◌^◌, ◌≤◌, ◌<◌, ◌≡◌, ◌⊎◌, inl, inr, refl, ap, ◌∙◌, Bool-cases,
  true, false, ltb, ltb→lt, some, ok, bit_or, arith,
}
use tinymachine.Common.Bits.{bit_or_above}
use tinymachine.Boot.Memory.{Memory, read_u64, read_u64-write_same, read_u64-write_other}
use tinymachine.Boot.Load.{gdt_addr, pml4_addr}
use tinymachine.Boot.Tables.{
  pdp_addr, pd_addr, pdp1_addr, num_pd_entries, pd_entry, page_size_2mb, pt_present, pt_rw, pt_ps,
  write_pd, write_upper, setup_page_tables, setup_gdt,
}
use tinymachine.Boot.Tables.Walk.{present, huge, frame, translate}

pd_entry_lem : (i : ℕ) → pd_entry i ≡ i * 2 ^ 21 + 131
unfolding pd_entry
pd_entry_lem i =
    let start : i * page_size_2mb ≡ i * 2 ^ 21 + 0 = omega arith in
    let one : bit_or (i * 2 ^ 21 + 0) pt_present ≡ i * 2 ^ 21 + 1 =
      bit_or_above 21 i 0 pt_present (omega arith) (omega arith) in
    let two : bit_or (i * 2 ^ 21 + 1) pt_rw ≡ i * 2 ^ 21 + 3 =
      bit_or_above 21 i 1 pt_rw (omega arith) (omega arith) in
    let three : bit_or (i * 2 ^ 21 + 3) pt_ps ≡ i * 2 ^ 21 + 131 =
      bit_or_above 21 i 3 pt_ps (omega arith) (omega arith) in
    ap (λ x. bit_or (bit_or (bit_or x pt_present) pt_rw) pt_ps) start
    ∙ ap (λ x. bit_or (bit_or x pt_rw) pt_ps) one
    ∙ ap (λ x. bit_or x pt_ps) two
    ∙ three

-- the entries of the page directory, once written
read-write_pd :
    (n j : ℕ) (m : Memory)
    → j < n
    → n ≤ 512
    → read_u64 (write_pd n m) (pd_addr + j * 8) ≡ j * 2 ^ 21 + 131
unfolding write_pd
read-write_pd zero j m lt le = absurd (omega arith)
read-write_pd (suc n) j m lt le = elim (Bool-cases (ltb j n)) [
  | inl before ↦
      read_u64-write_other (write_pd n m) (pd_addr + n * 8) (pd_addr + j * 8) (pd_entry n)
        (inl (ground arith))
      ∙ read-write_pd n j m (ltb→lt j n before) (omega arith)
  | inr last ↦
      let same : j ≡ n = ground arith in
      rw same (
        read_u64-write_same (write_pd n m) (pd_addr + n * 8) (pd_entry n)
          (omega (arith, pd_entry_lem n))
        ∙ pd_entry_lem n)
]

-- other words keep their value
read-write_pd_other :
    (n : ℕ) (m : Memory) (b : ℕ)
    → n ≤ 512
    → (b + 8 ≤ pd_addr) ⊎ (pd_addr + 4096 ≤ b)
    → read_u64 (write_pd n m) b ≡ read_u64 m b
unfolding write_pd
read-write_pd_other zero m b le away = refl
read-write_pd_other (suc n) m b le away =
    read_u64-write_other (write_pd n m) (pd_addr + n * 8) b (pd_entry n) (ground arith)
    ∙ read-write_pd_other n m b (omega arith) away

-- the entries above the page directory, once written
module _ (m : Memory) where
  upper_pml4 : read_u64 (write_upper m) pml4_addr ≡ 0x71003
  unfolding write_upper
  upper_pml4 =
      read_u64-write_other _ (pdp1_addr + 510 * 8) pml4_addr _ (inl (omega arith))
      ∙ read_u64-write_other _ pdp_addr pml4_addr _ (inl (omega arith))
      ∙ read_u64-write_other _ (pml4_addr + 511 * 8) pml4_addr _ (inl (omega arith))
      ∙ read_u64-write_same m pml4_addr 0x71003 (omega arith)

  upper_pml4_last : read_u64 (write_upper m) (pml4_addr + 511 * 8) ≡ 0x73003
  unfolding write_upper
  upper_pml4_last =
      read_u64-write_other _ (pdp1_addr + 510 * 8) (pml4_addr + 511 * 8) _ (inl (omega arith))
      ∙ read_u64-write_other _ pdp_addr (pml4_addr + 511 * 8) _ (inl (omega arith))
      ∙ read_u64-write_same _ (pml4_addr + 511 * 8) 0x73003 (omega arith)

  upper_pdp : read_u64 (write_upper m) pdp_addr ≡ 0x72003
  unfolding write_upper
  upper_pdp =
      read_u64-write_other _ (pdp1_addr + 510 * 8) pdp_addr _ (inl (omega arith))
      ∙ read_u64-write_same _ pdp_addr 0x72003 (omega arith)

  upper_pdp1 : read_u64 (write_upper m) (pdp1_addr + 510 * 8) ≡ 0x72003
  unfolding write_upper
  upper_pdp1 = read_u64-write_same _ (pdp1_addr + 510 * 8) 0x72003 (omega arith)

-- a walk through entries that are known
translate_lem :
    (m : Memory) (virt upper j : ℕ)
    → read_u64 m (pml4_addr + virt / 2 ^ 39 % 512 * 8) ≡ upper
    → present upper ≡ true
    → read_u64 m (frame upper + virt / 2 ^ 30 % 512 * 8) ≡ 0x72003
    → virt / 2 ^ 21 % 512 ≡ j
    → read_u64 m (pd_addr + j * 8) ≡ j * 2 ^ 21 + 131
    → j < 512
    → translate m pml4_addr virt ≡ some (j * 2 ^ 21 + virt % 2 ^ 21)
unfolding translate
translate_lem m virt upper j e₄ there e₃ at e₂ lt =
    let mapped : present (j * 2 ^ 21 + 131) ≡ true = ground arith in
    let big : huge (j * 2 ^ 21 + 131) ≡ true = ground arith in
    let page : (j * 2 ^ 21 + 131) / 2 ^ 21 % 2 ^ 31 ≡ j = omega arith in
    rw (e₄, e₃, at, e₂, there, mapped, big, page) refl

-- the GDT lies below the tables
read-setup_gdt : (m : Memory) (b : ℕ) → pml4_addr ≤ b → read_u64 (setup_gdt m) b ≡ read_u64 m b
unfolding setup_gdt
read-setup_gdt m b le =
    read_u64-write_other _ (gdt_addr + 16) b _ (inr (omega arith))
    ∙ read_u64-write_other _ (gdt_addr + 8) b _ (inr (omega arith))
    ∙ read_u64-write_other m gdt_addr b _ (inr (omega arith))

module _ (m : Memory) (n phys : ℕ) (few : n ≤ 512) (below : phys / 2 ^ 21 < n) where
  abbrev tables : Memory
  tables = setup_gdt (write_pd n (write_upper m))

  entry_kept : read_u64 tables (pd_addr + phys / 2 ^ 21 * 8) ≡ phys / 2 ^ 21 * 2 ^ 21 + 131
  entry_kept =
      read-setup_gdt (write_pd n (write_upper m)) (pd_addr + phys / 2 ^ 21 * 8) (omega arith)
      ∙ read-write_pd n (phys / 2 ^ 21) (write_upper m) below few

  upper_kept :
      (a b v : ℕ)
      → a ≡ b
      → pml4_addr ≤ b
      → (b + 8 ≤ pd_addr) ⊎ (pd_addr + 4096 ≤ b)
      → read_u64 (write_upper m) b ≡ v
      → read_u64 tables a ≡ v
  upper_kept a b v same high away e =
      ap (read_u64 tables) same
      ∙ read-setup_gdt (write_pd n (write_upper m)) b high
      ∙ read-write_pd_other n (write_upper m) b few away
      ∙ e

  low_mapped : translate tables pml4_addr phys ≡ some phys
  low_mapped =
      translate_lem tables phys 0x71003 (phys / 2 ^ 21)
        (upper_kept _ pml4_addr _ (omega arith) (omega arith) (inl (omega arith)) (upper_pml4 m))
        refl (upper_kept _ pdp_addr _ (omega arith) (omega arith) (inl (omega arith)) (upper_pdp m))
        (omega arith) entry_kept (omega arith)
      ∙ ap some (omega arith)

  high_mapped : translate tables pml4_addr (0xffffffff80000000 + phys) ≡ some phys
  high_mapped =
      translate_lem tables (0xffffffff80000000 + phys) 0x73003 (phys / 2 ^ 21)
        (upper_kept _ (pml4_addr + 511 * 8) _ (omega arith) (omega arith) (inl (omega arith))
          (upper_pml4_last m))
        refl
        (upper_kept _ (pdp1_addr + 510 * 8) _ (omega arith) (omega arith) (inr (omega arith))
          (upper_pdp1 m))
        (omega arith) entry_kept (omega arith)
      ∙ ap some (omega arith)

-- For a guest of up to 1 GB, `setup_page_tables` succeeds, and once the GDT is written too, the tables map every address
-- of its memory to itself, and the same offset from the kernel's base 0xffffffff80000000 to it as well.
pub translate-setup_page_tables :
    (m : Memory) (mem_size phys : ℕ)
    → mem_size ≤ 2 ^ 30
    → phys < mem_size
    → (m' : Memory) × (setup_page_tables m mem_size ≡ ok m')
      × (translate (setup_gdt m') pml4_addr phys ≡ some phys)
      × (translate (setup_gdt m') pml4_addr (0xffffffff80000000 + phys) ≡ some phys)
unfolding setup_page_tables
translate-setup_page_tables m mem_size phys le lt =
    let n = num_pd_entries mem_size in
    let few : n ≤ 512 = omega arith in
    let below : phys / 2 ^ 21 < n = omega arith in
    let fits : ltb 0x76000 (pd_addr + n * 8) ≡ false = ground arith in
    (
      write_pd n (write_upper m),
      rw fits refl,
      low_mapped m n phys few below,
      high_mapped m n phys few below,
    )
