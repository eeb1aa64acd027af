-- ===== src/Seccomp/Machine.antt =====
-- What a filter's instructions do, as tinymachine-fork/src/seccomp.rs says where it emits them: load a word of
-- the call's data, jump forward by `jt` or `jf` instructions, return a verdict.
use tinymachine.Common.{ℕ, zero, suc, Option, none, some, List, [], ◌∷◌, ◌==◌, if◌then◌else◌}
use tinymachine.Seccomp.{BpfInsn, seccomp_data_nr_off, seccomp_data_arch_off}

pub record SeccompData : Type 0 where
  pub nr : ℕ
  pub arch : ℕ

abbrev pub load : SeccompData → ℕ → ℕ
load data_of offset =
    if offset == seccomp_data_nr_off
    then data_of.nr
    else if offset == seccomp_data_arch_off
    then data_of.arch
    else 0

-- Runs the instructions left, with `skip` of them to jump over and `a` in the accumulator. Jumps go
-- forward only, so a run ends; a filter that is left without a verdict has none.
unfoldable pub exec : SeccompData → List BpfInsn → ℕ → ℕ → Option ℕ
exec data_of [] skip a = none
exec data_of (insn ∷ rest) (suc skip) a = exec data_of rest skip a
exec data_of (insn ∷ rest) zero a =
    let loaded = exec data_of rest 0 (load data_of insn.k) in
    let jumped = exec data_of rest (if a == insn.k then insn.jt else insn.jf) a in
    if insn.code == 0x20
    then loaded
    else if insn.code == 0x15
    then jumped
    else if insn.code == 0x06
    then some insn.k
    else none
