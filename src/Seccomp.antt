-- ===== src/Seccomp.antt =====
-- The builder of syscall filters in tinymachine-fork/src/seccomp.rs. A filter is the list of its
-- instructions. The verdicts come from the libc crate and are parameters.
pub mod Machine
pub mod Verdict
mod Tests
use tinymachine.Common.{
  ℕ, suc, ◌+◌, ◌-◌, ◌%◌, ◌^◌, List, [], ◌∷◌, ◌++◌, ◌==◌, if◌then◌else◌, length, bit_or,
}

abbrev pub bpf_ld : ℕ
bpf_ld = 0x00

abbrev pub bpf_jmp : ℕ
bpf_jmp = 0x05

abbrev pub bpf_ret : ℕ
bpf_ret = 0x06

abbrev pub bpf_w : ℕ
bpf_w = 0x00

abbrev pub bpf_abs : ℕ
bpf_abs = 0x20

abbrev pub bpf_jeq : ℕ
bpf_jeq = 0x10

abbrev pub bpf_k : ℕ
bpf_k = 0x00

abbrev pub seccomp_data_nr_off : ℕ
seccomp_data_nr_off = 0

abbrev pub seccomp_data_arch_off : ℕ
seccomp_data_arch_off = 4

-- on x86_64
abbrev pub audit_arch : ℕ
audit_arch = 0xc000003e

pub record BpfInsn : Type 0 where
  pub code : ℕ
  pub jt : ℕ
  pub jf : ℕ
  pub k : ℕ

-- the pointer `filter` is the list that it points to
pub record BpfProg : Type 0 where
  pub len : ℕ
  pub filter : List BpfInsn

-- the constants of the libc crate
pub record Libc : Type 0 where
  pub seccomp_ret_kill_process : ℕ
  pub seccomp_ret_allow : ℕ
  pub seccomp_ret_errno : ℕ
  pub eacces : ℕ

-- A method of `BpfBuilder` pushes the instruction that its namesake here makes.
abbrev pub ld_abs : ℕ → BpfInsn
ld_abs offset = record { code = bit_or (bit_or bpf_ld bpf_w) bpf_abs; jt = 0; jf = 0; k = offset }

abbrev pub jeq : ℕ → ℕ → ℕ → BpfInsn
jeq k jt jf = record { code = bit_or (bit_or bpf_jmp bpf_jeq) bpf_k; jt = jt; jf = jf; k = k }

abbrev pub ret : ℕ → BpfInsn
ret k = record { code = bit_or bpf_ret bpf_k; jt = 0; jf = 0; k = k }

abbrev pub build : List BpfInsn → BpfProg
build insns = record { len = length insns % 2 ^ 16; filter = insns }

-- The loop over the allowlist. `allow_pos` and `num_checks` stay as they are, `i` counts.
unfoldable pub checks : ℕ → ℕ → ℕ → List ℕ → List BpfInsn
checks allow_pos num_checks i [] = []
checks allow_pos num_checks i (sysno ∷ rest) =
    let cur_idx = 4 + i % 2 ^ 16 in
    let jt = (allow_pos - cur_idx - 1) % 256 in
    let jf = if i == num_checks - 1 then 0 else 1 in
    jeq (sysno % 2 ^ 32) jt jf ∷ checks allow_pos num_checks (suc i) rest

module _ (libc : Libc) where
  unfoldable pub build_bpf : List ℕ → BpfProg
  unfolding checks
  build_bpf allowlist =
      let num_checks = length allowlist in
      let allow_pos = 4 + num_checks % 2 ^ 16 in
      build (
        ld_abs seccomp_data_arch_off
        ∷ jeq audit_arch 1 0
        ∷ ret libc.seccomp_ret_kill_process
        ∷ ld_abs seccomp_data_nr_off
        ∷ (checks allow_pos num_checks 0 allowlist
            ++ ret libc.seccomp_ret_allow ∷ ret (bit_or libc.seccomp_ret_errno libc.eacces) ∷ []))
