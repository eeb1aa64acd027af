-- ===== src/Uops/Policy.antt =====
-- `PolicyEngine` of tinymachine-fork/src/uops.rs. A set is the list of its elements. What `std::path` says of paths
-- is written out: a path is compared by its components, without empty ones and those that are a dot, but for a
-- dot that a relative path starts with.
pub mod Reserved
pub mod Texts
pub mod Permitted
pub mod Grants
use tinymachine.Common.{
  ℕ, ◌-◌, ◌==◌, Bool, true, false, ◌&&◌, ◌||◌, not, leb, if◌then◌else◌, List, [], ◌∷◌, ◌++◌, Text,
  codes, text_eq, any, length, drop,
}
use tinymachine.Uops.Types.{
  UOp, UOpType, IpAddr, SocketAddr, uop_type, same_type, mmap, cpu_state_restore, entropy_reseed,
}
use tinymachine.Uops.Net.{IpSubnet, contains, is_blocked, is_unspecified}

pub record PolicyEngine : Type 0 where
  pub allowed_uops : List UOpType
  pub allowed_domains : List Text
  pub allowed_paths : List Text
  pub allowed_subnets : List IpSubnet

abbrev pub new : PolicyEngine
new = record { allowed_uops = []; allowed_domains = []; allowed_paths = []; allowed_subnets = [] }

unfoldable pub allow_uop : PolicyEngine → UOpType → PolicyEngine
allow_uop e uop = record e { allowed_uops = uop ∷ e.allowed_uops }

unfoldable pub allow_domain : PolicyEngine → Text → PolicyEngine
allow_domain e domain = record e { allowed_domains = e.allowed_domains ++ domain ∷ [] }

unfoldable pub allow_path : PolicyEngine → Text → PolicyEngine
allow_path e path = record e { allowed_paths = e.allowed_paths ++ path ∷ [] }

unfoldable pub default : PolicyEngine
unfolding allow_uop
default =
    allow_uop (allow_uop (allow_uop new UOpType.mmap) UOpType.cpu_state_restore)
      UOpType.entropy_reseed

-- `s.ends_with(t)`
unfoldable pub ends_with : Text → Text → Bool
ends_with s t = leb (length t) (length s) && text_eq (drop (length s - length t) s) t

-- the parts of a path between its separators
abbrev push_char : ℕ → List Text → List Text
push_char c [] = (c ∷ []) ∷ []
push_char c (part ∷ parts) = (c ∷ part) ∷ parts

abbrev split : Text → List Text
split [] = [] ∷ []
split (c ∷ cs) = if c == 47 then [] ∷ split cs else push_char c (split cs)

abbrev is_void : Text → Bool
is_void part = length part == 0 || text_eq part (codes ".")

abbrev normal : List Text → List Text
normal [] = []
normal (part ∷ parts) = if is_void part then normal parts else part ∷ normal parts

abbrev relative : List Text → List Text
relative [] = []
relative (part ∷ parts) =
    if text_eq part (codes ".") then part ∷ normal parts else normal (part ∷ parts)

-- The root, where there is one, is the component `/`.
unfoldable pub components : Text → List Text
components [] = []
components (c ∷ cs) = if c == 47 then codes "/" ∷ normal (split cs) else relative (split (c ∷ cs))

unfoldable pub same_parts : List Text → List Text → Bool
same_parts [] [] = true
same_parts [] (q ∷ qs) = false
same_parts (p ∷ ps) [] = false
same_parts (p ∷ ps) (q ∷ qs) = text_eq p q && same_parts ps qs

-- `path.starts_with(base)`
unfoldable pub starts_with : List Text → List Text → Bool
starts_with parts [] = true
starts_with [] (q ∷ qs) = false
starts_with (p ∷ ps) (q ∷ qs) = text_eq p q && starts_with ps qs

module _ (e : PolicyEngine) where
  unfoldable pub check_domain : Text → Bool
  unfolding ends_with
  check_domain domain =
      if text_eq domain (codes "any")
      then true
      else any (λ d. text_eq domain d || ends_with domain (codes "." ++ d)) e.allowed_domains

  unfoldable pub check_path : Text → Bool
  unfolding components same_parts starts_with
  check_path path =
      any
        (λ p.
          same_parts (components path) (components p)
          || starts_with (components path) (components p))
        e.allowed_paths

  unfoldable pub check_address : SocketAddr → Bool
  unfolding contains is_blocked is_unspecified
  check_address addr =
      let contained = any (λ s. contains s addr.ip) e.allowed_subnets in
      if is_unspecified addr.ip && addr.port == 0
      then true
      else (if is_blocked addr.ip
          then contained
          else (if length e.allowed_subnets == 0 then true else contained))

  unfoldable pub check_uop : UOp → Bool
  unfolding check_domain check_path check_address
  check_uop (UOp.dns_resolve domain) = check_domain domain
  check_uop (UOp.tls_handshake domain) = check_domain domain
  check_uop (UOp.file_read path) = check_path path
  check_uop (UOp.file_write path) = check_path path
  check_uop (UOp.tcp_connect addr) = check_address addr
  check_uop uop = true

  unfoldable pub check : UOp → Bool
  unfolding check_uop uop_type same_type
  check uop =
      if not (any (λ t. same_type (uop_type uop) t) e.allowed_uops) then false else check_uop uop
