-- ===== src/Uops/Net.antt =====
-- `IpSubnet` of tinymachine-fork/src/uops.rs, and the tests of addresses that Rust's standard library
-- documents. A shift by the width of the word is what a release build makes of it: none.
use tinymachine.Common.{
  ℕ, ◌+◌, ◌-◌, ◌*◌, ◌%◌, ◌/◌, ◌^◌, Bool, true, false, ◌&&◌, ◌||◌, not, ◌==◌, leb, if◌then◌else◌,
  bit_and,
}
use tinymachine.Uops.Types.{Ipv4Addr, IpAddr, v4, v6}

pub record IpSubnet : Type 0 where
  pub addr : ℕ
  pub mask : ℕ
  pub is_v4 : Bool

abbrev pub from_be_bytes : Ipv4Addr → ℕ
from_be_bytes ip = ((ip.a * 256 + ip.b) * 256 + ip.c) * 256 + ip.d

-- `!0u32`
abbrev pub all_ones : ℕ
all_ones = 0xffffffff

unfoldable pub new_v4 : Ipv4Addr → ℕ → IpSubnet
new_v4 addr prefix_len =
    let mask =
      if leb 32 prefix_len then all_ones else all_ones * 2 ^ ((32 - prefix_len) % 32) % 2 ^ 32 in
    record { addr = bit_and (from_be_bytes addr) mask; mask = mask; is_v4 = true }

unfoldable pub contains : IpSubnet → IpAddr → Bool
contains s (v4 ip) = if not s.is_v4 then false else bit_and (from_be_bytes ip) s.mask == s.addr
contains s (v6 ip) = not s.is_v4

abbrev pub is_unspecified_v4 : Ipv4Addr → Bool
is_unspecified_v4 ip = ip.a == 0 && ip.b == 0 && ip.c == 0 && ip.d == 0

unfoldable pub is_unspecified : IpAddr → Bool
is_unspecified (v4 ip) = is_unspecified_v4 ip
is_unspecified (v6 ip) = ip == 0

-- 127.0.0.0/8
abbrev pub is_loopback : Ipv4Addr → Bool
is_loopback ip = ip.a == 127

-- 10.0.0.0/8, 172.16.0.0/12 and 192.168.0.0/16
abbrev pub is_private : Ipv4Addr → Bool
is_private ip =
    ip.a == 10 || ip.a == 172 && leb 16 ip.b && leb ip.b 31 || ip.a == 192 && ip.b == 168

-- 169.254.0.0/16
abbrev pub is_link_local : Ipv4Addr → Bool
is_link_local ip = ip.a == 169 && ip.b == 254

-- 224.0.0.0/4
abbrev pub is_multicast : Ipv4Addr → Bool
is_multicast ip = leb 224 ip.a && leb ip.a 239

unfoldable pub is_blocked : IpAddr → Bool
is_blocked (v4 ip) =
    is_loopback ip
    || is_private ip
    || is_link_local ip
    || is_unspecified_v4 ip
    || is_multicast ip
    || (ip.a == 169 && ip.b == 254 && ip.c == 169 && ip.d == 254)
    || (ip.a == 100 && bit_and ip.b 0xc0 == 0x40)
is_blocked (v6 ip) = ip == 1 || ip == 0 || ip / 2 ^ 120 == 0xff
