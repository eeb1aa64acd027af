-- ===== src/Uops/Policy/Grants.antt =====
-- What the `allow_*` methods of `PolicyEngine` in tinymachine-fork/src/uops.rs add.
use tinymachine.Common.{◌≡◌, inl, inr, true, List, [], ◌∷◌, ◌++◌, Text, Some}
use tinymachine.Uops.Types.{UOp, UOpType, SocketAddr}
use tinymachine.Uops.Policy.{PolicyEngine, allow_uop, allow_domain, allow_path, check}
use tinymachine.Uops.Policy.Permitted.{
  IsKnownDomain, IsKnownPath, IsReachable, IsCovered, IsValid, check-IsPermitted,
}

-- What may be allowed beside subnets.
pub data Grant : Type 0 where
  uop : UOpType → Grant
  domain path : Text → Grant

abbrev pub allow : PolicyEngine → Grant → PolicyEngine
allow e (uop t) = allow_uop e t
allow e (domain d) = allow_domain e d
allow e (path p) = allow_path e p

Some-append : {A : Type 0} (P : A → Type 0) (xs ys : List A) → Some P xs → Some P (xs ++ ys)
Some-append P [] ys h = absurd h
Some-append P (x ∷ xs) ys (inl here) = inl here
Some-append P (x ∷ xs) ys (inr there) = inr (Some-append P xs ys there)

module _ (e : PolicyEngine) where
  typed_after :
      (g : Grant) (P : UOpType → Type 0) → Some P e.allowed_uops → Some P (allow e g).allowed_uops
  unfolding allow_uop allow_domain allow_path
  typed_after (uop t) P h = inr h
  typed_after (domain d) P h = h
  typed_after (path p) P h = h

  domain_after : (g : Grant) (d : Text) → IsKnownDomain e d → IsKnownDomain (allow e g) d
  unfolding allow_uop allow_domain allow_path
  domain_after g d (inl any_domain) = inl any_domain
  domain_after (uop t) d (inr h) = inr h
  domain_after (domain d') d (inr h) = inr (Some-append _ e.allowed_domains (d' ∷ []) h)
  domain_after (path p) d (inr h) = inr h

  path_after : (g : Grant) (p : Text) → IsKnownPath e p → IsKnownPath (allow e g) p
  unfolding allow_uop allow_domain allow_path
  path_after (uop t) p h = h
  path_after (domain d) p h = h
  path_after (path p') p h = Some-append _ e.allowed_paths (p' ∷ []) h

  address_after :
      (g : Grant) (addr : SocketAddr) → IsReachable e addr → IsReachable (allow e g) addr
  unfolding allow_uop allow_domain allow_path
  address_after (uop t) addr h = h
  address_after (domain d) addr h = h
  address_after (path p) addr h = h

  IsCovered-allow : (g : Grant) (u : UOp) → IsCovered e u → IsCovered (allow e g) u
  IsCovered-allow g (UOp.mmap size) h = h
  IsCovered-allow g UOp.cpu_state_restore h = h
  IsCovered-allow g UOp.entropy_reseed h = h
  IsCovered-allow g (UOp.dns_resolve d) h = domain_after g d h
  IsCovered-allow g (UOp.tcp_connect addr) h = address_after g addr h
  IsCovered-allow g (UOp.tls_handshake d) h = domain_after g d h
  IsCovered-allow g (UOp.file_read p) h = path_after g p h
  IsCovered-allow g (UOp.file_write p) h = path_after g p h
  IsCovered-allow g (UOp.process_exec program) h = h
  IsCovered-allow g (UOp.gpu_alloc size) h = h

  -- To allow one more type of operation, domain or path takes nothing away: what the policy passed
  -- before, it passes after. (A first subnet, on the other hand, takes the other addresses away.)
  check-allow : (g : Grant) (u : UOp) → IsValid u → check e u ≡ true → check (allow e g) u ≡ true
  check-allow g u ok h =
      let (typed, covered) = (check-IsPermitted e u ok).0 h in
      (check-IsPermitted (allow e g) u ok).1 (typed_after g _ typed, IsCovered-allow g u covered)
