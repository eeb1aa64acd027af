-- ===== src/Boot/Tables/Walk.antt =====
-- How an x86-64 processor reads the page tables of tinymachine-fork/src/arch/x86_64/boot.rs: four levels of 512
-- entries, where an entry of the third level may map a page of 2 MB. Pages of other sizes have no address here.
use tinymachine.Common.{
  ℕ, ◌+◌, ◌*◌, ◌/◌, ◌%◌, ◌^◌, Bool, ◌&&◌, not, ◌==◌, if◌then◌else◌, Option, none, some,
}
use tinymachine.Boot.Memory.{Memory, read_u64}

abbrev pub present : ℕ → Bool
present entry = entry % 2 == 1

abbrev pub huge : ℕ → Bool
huge entry = entry / 128 % 2 == 1

-- the table that an entry points to
abbrev pub frame : ℕ → ℕ
frame entry = entry / 4096 % 2 ^ 40 * 4096

unfoldable pub translate : Memory → ℕ → ℕ → Option ℕ
translate m cr3 virt =
    let e₄ = read_u64 m (cr3 + virt / 2 ^ 39 % 512 * 8) in
    let e₃ = read_u64 m (frame e₄ + virt / 2 ^ 30 % 512 * 8) in
    let e₂ = read_u64 m (frame e₃ + virt / 2 ^ 21 % 512 * 8) in
    if present e₄ && present e₃ && not (huge e₃) && present e₂ && huge e₂
    then some (e₂ / 2 ^ 21 % 2 ^ 31 * 2 ^ 21 + virt % 2 ^ 21)
    else none
