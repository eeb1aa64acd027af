-- ===== src/Uops/Policy/Permitted.antt =====
-- What `PolicyEngine::check` of tinymachine-fork/src/uops.rs permits.
use tinymachine.Common.{
  ◌≡◌, ◌↔◌, ◌⊎◌, refl, ap, true, ◌==◌, ◌||◌, List, [], ◌∷◌, ◌++◌, Text, codes, text_eq, text_eq_iff,
  Some, any-Some, length, arith,
}
use tinymachine.Uops.Types.{UOp, IpAddr, SocketAddr, v4, v6, uop_type, same_type, same_type_iff}
use tinymachine.Uops.Net.{contains, from_be_bytes, is_blocked, is_unspecified}
use tinymachine.Uops.Subnets.{IsAddress}
use tinymachine.Uops.Policy.{
  PolicyEngine, components, check_domain, check_path, check_address, check_uop, check, ends_with,
  same_parts, starts_with,
}
use tinymachine.Uops.Policy.Reserved.{IsReserved, is_blocked_v4, is_blocked_v6}
use tinymachine.Uops.Policy.Texts.{ends_with_lem, starts_with_lem, same_parts-starts_with}

-- The domain is `any`, an allowed one, or below an allowed one.
abbrev pub IsKnownDomain : PolicyEngine → Text → Type 0
IsKnownDomain e domain =
    (domain ≡ codes "any")
    ⊎ Some (λ d. (domain ≡ d) ⊎ ((front : Text) × (domain ≡ front ++ (codes "." ++ d))))
        e.allowed_domains

-- The path is an allowed one, or below an allowed one.
abbrev pub IsKnownPath : PolicyEngine → Text → Type 0
IsKnownPath e path =
    Some (λ p. (rest : List Text) × (components path ≡ components p ++ rest)) e.allowed_paths

abbrev pub IsUnspecified : IpAddr → Type 0
IsUnspecified (v4 ip) = from_be_bytes ip ≡ 0
IsUnspecified (v6 ip) = ip ≡ 0

-- The address is the placeholder of the analyzer, or in an allowed subnet, or, with no subnet allowed, not reserved.
abbrev pub IsReachable : PolicyEngine → SocketAddr → Type 0
IsReachable e addr =
    (IsUnspecified addr.ip × (addr.port ≡ 0))
    ⊎ Some (λ s. contains s addr.ip ≡ true) e.allowed_subnets
    ⊎ ((e.allowed_subnets ≡ []) × (IsReserved addr.ip → ⊥))

abbrev pub IsCovered : PolicyEngine → UOp → Type 0
IsCovered e (UOp.dns_resolve domain) = IsKnownDomain e domain
IsCovered e (UOp.tls_handshake domain) = IsKnownDomain e domain
IsCovered e (UOp.file_read path) = IsKnownPath e path
IsCovered e (UOp.file_write path) = IsKnownPath e path
IsCovered e (UOp.tcp_connect addr) = IsReachable e addr
IsCovered e uop = Unit

-- A policy permits an operation whose type it allows and whose argument it covers.
abbrev pub IsPermitted : PolicyEngine → UOp → Type 0
IsPermitted e uop = Some (λ t. uop_type uop ≡ t) e.allowed_uops × IsCovered e uop

abbrev IsIp : IpAddr → Type 0
IsIp (v4 ip) = IsAddress ip
IsIp (v6 ip) = Unit

-- An address of version 4 in the operation has four octets.
abbrev pub IsValid : UOp → Type 0
IsValid (UOp.tcp_connect addr) = IsIp addr.ip
IsValid uop = Unit

length-zero : {A : Type 0} (xs : List A) → (length xs == 0 ≡ true) ↔ (xs ≡ [])
length-zero [] = ((λ h. refl), λ h. refl)
length-zero (x ∷ xs) = ((λ h. absurd (ground arith)), λ h. absurd (omega (arith, ap length h)))

module _ (e : PolicyEngine) where
  check_domain_lem : (domain : Text) → (check_domain e domain ≡ true) ↔ IsKnownDomain e domain
  unfolding check_domain
  check_domain_lem domain =
      let known =
        any-Some {P = λ d. (domain ≡ d) ⊎ ((front : Text) × (domain ≡ front ++ (codes "." ++ d)))}
          (λ d. text_eq domain d || ends_with domain (codes "." ++ d)) e.allowed_domains
          (λ d. ground (arith, text_eq_iff domain d, ends_with_lem domain (codes "." ++ d))) in
      ground (arith, known, text_eq_iff domain (codes "any"))

  check_path_lem : (path : Text) → (check_path e path ≡ true) ↔ IsKnownPath e path
  unfolding check_path
  check_path_lem path =
      any-Some
        (λ p.
          same_parts (components path) (components p)
          || starts_with (components path) (components p))
        e.allowed_paths
        (λ p. ground (
          arith,
          starts_with_lem (components path) (components p),
          same_parts-starts_with (components path) (components p),
        ))

  is_unspecified_lem : (ip : IpAddr) → (is_unspecified ip ≡ true) ↔ IsUnspecified ip
  unfolding is_unspecified
  is_unspecified_lem (v4 ip) = ground arith
  is_unspecified_lem (v6 ip) = ground arith

  is_blocked_lem : (ip : IpAddr) → IsIp ip → (is_blocked ip ≡ true) ↔ IsReserved ip
  is_blocked_lem (v4 ip) ok = is_blocked_v4 ip ok
  is_blocked_lem (v6 ip) ok = is_blocked_v6 ip

  check_address_lem :
      (addr : SocketAddr) → IsIp addr.ip → (check_address e addr ≡ true) ↔ IsReachable e addr
  unfolding check_address
  check_address_lem addr ok =
      let contained =
        any-Some (λ s. contains s addr.ip) e.allowed_subnets (λ s. ((λ h. h), λ h. h)) in
      ground (
        arith,
        contained,
        is_unspecified_lem addr.ip,
        is_blocked_lem addr.ip ok,
        length-zero e.allowed_subnets,
      )

  check_uop_lem : (uop : UOp) → IsValid uop → (check_uop e uop ≡ true) ↔ IsCovered e uop
  unfolding check_uop
  check_uop_lem (UOp.mmap size) ok = ((λ h. tt), λ h. refl)
  check_uop_lem UOp.cpu_state_restore ok = ((λ h. tt), λ h. refl)
  check_uop_lem UOp.entropy_reseed ok = ((λ h. tt), λ h. refl)
  check_uop_lem (UOp.dns_resolve domain) ok = check_domain_lem domain
  check_uop_lem (UOp.tcp_connect addr) ok = check_address_lem addr ok
  check_uop_lem (UOp.tls_handshake domain) ok = check_domain_lem domain
  check_uop_lem (UOp.file_read path) ok = check_path_lem path
  check_uop_lem (UOp.file_write path) ok = check_path_lem path
  check_uop_lem (UOp.process_exec program) ok = ((λ h. tt), λ h. refl)
  check_uop_lem (UOp.gpu_alloc size) ok = ((λ h. tt), λ h. refl)

-- A policy passes an operation if and only if it permits it: its type is allowed, and the domain, path or
-- address that it names is covered. What is not allowed is refused.
pub check-IsPermitted :
    (e : PolicyEngine) (uop : UOp) → IsValid uop → (check e uop ≡ true) ↔ IsPermitted e uop
unfolding check
check-IsPermitted e uop ok =
    let typed =
      any-Some (λ t. same_type (uop_type uop) t) e.allowed_uops
        (λ t. same_type_iff (uop_type uop) t) in
    ground (arith, typed, check_uop_lem e uop ok)
