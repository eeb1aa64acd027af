-- ===== src/Seccomp/Verdict.antt =====
-- What the filters of tinymachine-fork/src/seccomp.rs decide.
use tinymachine.Common.{
  ℕ, suc, ◌+◌, ◌-◌, ◌%◌, ◌^◌, ◌≤◌, ◌≡◌, ◌∙◌, refl, ap, inl, inr, Bool-cases, some, List, [], ◌∷◌,
  ◌++◌, true, false, ◌==◌, if◌then◌else◌, length, arith, bit_or,
}
use tinymachine.Seccomp.{BpfInsn, Libc, ret, checks, build_bpf, audit_arch}
use tinymachine.Seccomp.Machine.{SeccompData, exec}

exec-skip :
    (d : SeccompData) (xs ys : List BpfInsn) (a : ℕ)
    → exec d (xs ++ ys) (length xs) a ≡ exec d ys 0 a
unfolding exec
exec-skip d [] ys a = refl
exec-skip d (x ∷ xs) ys a = exec-skip d xs ys a

length-checks : (pos n i : ℕ) (l : List ℕ) → length (checks pos n i l) ≡ length l
unfolding checks
length-checks pos n i [] = refl
length-checks pos n i (x ∷ l) = omega (arith, length-checks pos n (suc i) l)

module _ (libc : Libc) (d : SeccompData) where
  abbrev ending : List BpfInsn
  ending = ret libc.seccomp_ret_allow ∷ ret (bit_or libc.seccomp_ret_errno libc.eacces) ∷ []

  to_allow :
      (n i skip : ℕ) (l : List ℕ) (a : ℕ)
      → skip ≡ length l
      → exec d (checks (4 + n % 2 ^ 16) n i l ++ ending) skip a ≡ some libc.seccomp_ret_allow
  unfolding exec
  to_allow n i skip l a e =
      ap (λ s. exec d (checks (4 + n % 2 ^ 16) n i l ++ ending) s a)
        (omega (arith, length-checks (4 + n % 2 ^ 16) n i l))
      ∙ exec-skip d (checks (4 + n % 2 ^ 16) n i l) ending a

  -- from any check that is met: it matches and jumps to the end, or the next but one is met
  exec-checks :
      (n i : ℕ) (l : List ℕ) (a : ℕ)
      → i + length l ≡ n
      → n ≤ 256
      → exec d (checks (4 + n % 2 ^ 16) n i l ++ ending) 0 a ≡ some libc.seccomp_ret_allow
  unfolding exec checks
  exec-checks n i [] a e le = refl
  exec-checks n i (x ∷ []) a e le = elim (Bool-cases (a == x % 2 ^ 32)) [
    | inl same ↦ rw same (to_allow n (suc i) _ [] a (omega arith))
    | inr other ↦ let last : (i == n - 1) ≡ true = ground arith in rw (other, last)
  ]
  exec-checks n i (x ∷ y ∷ l) a e le = elim (Bool-cases (a == x % 2 ^ 32)) [
    | inl same ↦ rw same (to_allow n (suc i) _ (y ∷ l) a (omega arith))
    | inr other ↦
        let inner : (i == n - 1) ≡ false = ground arith in
        rw (other, inner) (exec-checks n (suc (suc i)) l a (omega arith) le)
  ]

-- With at most 256 numbers in the allowlist, the filter kills a call of another architecture and allows
-- every call of its own, whether its number is in the list or not.
pub exec-build_bpf :
    (libc : Libc) (allowlist : List ℕ) (d : SeccompData)
    → length allowlist ≤ 256
    → exec d (build_bpf libc allowlist).filter 0 0
      ≡ some
          (if d.arch == audit_arch then libc.seccomp_ret_allow else libc.seccomp_ret_kill_process)
unfolding exec build_bpf
exec-build_bpf libc allowlist d le = elim (Bool-cases (d.arch == audit_arch)) [
  | inl same ↦ rw same (exec-checks libc d (length allowlist) 0 allowlist d.nr (omega arith) le)
  | inr other ↦ rw other
]
