-- ===== src/Seccomp/Tests.antt =====
-- The theorem about filters at work on a short allowlist.
use tinymachine.Common.{◌≡◌, some, [], ◌∷◌, arith}
use tinymachine.Seccomp.{Libc, build_bpf}
use tinymachine.Seccomp.Machine.{SeccompData, exec}
use tinymachine.Seccomp.Verdict.{exec-build_bpf}

abbrev linux : Libc
linux = record {
  seccomp_ret_kill_process = 0x80000000;
  seccomp_ret_allow = 0x7fff0000;
  seccomp_ret_errno = 0x00050000;
  eacces = 13;
}

-- a call that is not in the list below
abbrev unlisted : SeccompData
unlisted = record { nr = 59; arch = 0xc000003e }

exec-build_bpf_example :
    exec unlisted (build_bpf linux (0 ∷ 1 ∷ 60 ∷ [])).filter 0 0 ≡ some 0x7fff0000
exec-build_bpf_example = exec-build_bpf linux (0 ∷ 1 ∷ 60 ∷ []) unlisted (omega arith)
