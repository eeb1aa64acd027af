-- ===== src/Uops/Types.antt =====
-- `UOp` and `UOpType` of tinymachine-fork/src/uops.rs, with the types of Rust's standard library that
-- they hold: addresses by their octets or bits, paths and domains by their text.
use tinymachine.Common.{
  ℕ, ◌==◌, ==_iff, ◌≡◌, ◌↔◌, ◌∙◌, sym, ap, refl, true, Bool, [], ◌∷◌, get_or, Text,
}

pub record Ipv4Addr : Type 0 where
  pub a : ℕ
  pub b : ℕ
  pub c : ℕ
  pub d : ℕ

-- a version 6 address is the number of its 128 bits
pub data IpAddr : Type 0 where
  v4 : Ipv4Addr → IpAddr
  v6 : ℕ → IpAddr

pub record SocketAddr : Type 0 where
  pub ip : IpAddr
  pub port : ℕ

pub data UOp : Type 0 where
  mmap gpu_alloc : ℕ → UOp
  cpu_state_restore entropy_reseed : UOp
  dns_resolve tls_handshake process_exec file_read file_write : Text → UOp
  tcp_connect : SocketAddr → UOp

pub data UOpType : Type 0 where
  mmap cpu_state_restore entropy_reseed dns_resolve tcp_connect : UOpType
  tls_handshake file_read file_write process_exec gpu_alloc : UOpType

unfoldable pub uop_type : UOp → UOpType
uop_type (mmap size) = mmap
uop_type cpu_state_restore = cpu_state_restore
uop_type entropy_reseed = entropy_reseed
uop_type (dns_resolve domain) = dns_resolve
uop_type (tcp_connect addr) = tcp_connect
uop_type (tls_handshake domain) = tls_handshake
uop_type (file_read path) = file_read
uop_type (file_write path) = file_write
uop_type (process_exec program) = process_exec
uop_type (gpu_alloc size) = gpu_alloc

discriminant : UOpType → ℕ
discriminant mmap = 0
discriminant cpu_state_restore = 1
discriminant entropy_reseed = 2
discriminant dns_resolve = 3
discriminant tcp_connect = 4
discriminant tls_handshake = 5
discriminant file_read = 6
discriminant file_write = 7
discriminant process_exec = 8
discriminant gpu_alloc = 9

-- the derived `==`
unfoldable pub same_type : UOpType → UOpType → Bool
unfolding discriminant
same_type s t = discriminant s == discriminant t

type_of : ℕ → UOpType
type_of n =
    get_or
      (mmap ∷ cpu_state_restore ∷ entropy_reseed ∷ dns_resolve ∷ tcp_connect ∷ tls_handshake
        ∷ file_read ∷ file_write ∷ process_exec ∷ [])
      n gpu_alloc

type_of-discriminant : (t : UOpType) → type_of (discriminant t) ≡ t
unfolding type_of discriminant
type_of-discriminant mmap = refl
type_of-discriminant cpu_state_restore = refl
type_of-discriminant entropy_reseed = refl
type_of-discriminant dns_resolve = refl
type_of-discriminant tcp_connect = refl
type_of-discriminant tls_handshake = refl
type_of-discriminant file_read = refl
type_of-discriminant file_write = refl
type_of-discriminant process_exec = refl
type_of-discriminant gpu_alloc = refl

pub same_type_iff : (s t : UOpType) → (same_type s t ≡ true) ↔ (s ≡ t)
unfolding same_type
same_type_iff s t = (
  (λ h.
      sym (type_of-discriminant s)
      ∙ ap type_of ((==_iff (discriminant s) (discriminant t)).0 h)
      ∙ type_of-discriminant t),
  λ e. (==_iff (discriminant s) (discriminant t)).1 (ap discriminant e),
)
