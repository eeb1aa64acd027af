-- ===== src/Uops/Subnets.antt =====
-- Which addresses an `IpSubnet` of tinymachine-fork/src/uops.rs contains.
use native.Mathlib.Nat.{eq_of_mul-eq-mul_right, add-mul-mod_self_right, mod-eq_of_lt}
use tinymachine.Common.{
  ℕ, ◌+◌, ◌-◌, ◌*◌, ◌/◌, ◌%◌, ◌^◌, ◌≤◌, ◌<◌, ◌≡◌, ◌↔◌, refl, ap, ◌∙◌, inl, inr, Bool-cases, true,
  ==_iff, leb, if◌then◌else◌, arith,
}
use tinymachine.Common.Masks.{two_pow-positive, pow_split, pred_mul, masked}
use tinymachine.Uops.Types.{Ipv4Addr, v4}
use tinymachine.Uops.Net.{new_v4, contains, from_be_bytes, all_ones}

-- Four octets.
abbrev pub IsAddress : Ipv4Addr → Type 0
IsAddress ip = (ip.a < 256) × (ip.b < 256) × (ip.c < 256) × (ip.d < 256)

from_be_bytes-lt : (ip : Ipv4Addr) → IsAddress ip → from_be_bytes ip < 2 ^ 32
from_be_bytes-lt ip (a, b, c, d) = omega arith

-- the mask of `p` ones above `k` zeros
mask_lem : (p k : ℕ) → p + k ≡ 32 → all_ones * 2 ^ k % 2 ^ 32 ≡ (2 ^ p - 1) * 2 ^ k
mask_lem p k e =
    let whole : (2 ^ p - 1) * 2 ^ k + 2 ^ k ≡ 2 ^ 32 =
      pred_mul (2 ^ p) (2 ^ k) (two_pow-positive p) ∙ pow_split p k 32 e in
    let turns : all_ones * 2 ^ k ≡ (2 ^ p - 1) * 2 ^ k + (2 ^ k - 1) * 2 ^ 32 =
      omega (arith, whole, two_pow-positive k) in
    ap (λ x. x % 2 ^ 32) turns
    ∙ add-mul-mod_self_right ((2 ^ p - 1) * 2 ^ k) (2 ^ k - 1) (2 ^ 32)
    ∙ mod-eq_of_lt (omega (arith, whole, two_pow-positive k))

prefix_mask :
    (p : ℕ)
    → 0 < p
    → p ≤ 32
    → (if leb 32 p then all_ones else all_ones * 2 ^ ((32 - p) % 32) % 2 ^ 32)
      ≡ (2 ^ p - 1) * 2 ^ (32 - p)
prefix_mask p pos le = elim (Bool-cases (leb 32 p)) [
  | inl full ↦ let all : p ≡ 32 = ground arith in rw (full, all) refl
  | inr short ↦
      let shift : (32 - p) % 32 ≡ 32 - p = ground arith in
      rw (short, shift) (mask_lem p (32 - p) (omega arith))
]

-- For a prefix of 1 to 32 bits, a subnet contains just the addresses that begin with the same bits.
pub contains-new_v4 :
    (net ip : Ipv4Addr) (prefix_len : ℕ)
    → IsAddress net
    → IsAddress ip
    → 0 < prefix_len
    → prefix_len ≤ 32
    → (contains (new_v4 net prefix_len) (v4 ip) ≡ true)
      ↔ (from_be_bytes ip / 2 ^ (32 - prefix_len) ≡ from_be_bytes net / 2 ^ (32 - prefix_len))
unfolding contains new_v4
contains-new_v4 net ip p is_net is_ip pos le =
    let k = 32 - p in
    let x = from_be_bytes ip / 2 ^ k in
    let y = from_be_bytes net / 2 ^ k in
    let same : (x * 2 ^ k ≡ y * 2 ^ k) ↔ (x ≡ y) =
      (eq_of_mul-eq-mul_right (2 ^ k) (two_pow-positive k) x y, λ e. ap (λ z. z * 2 ^ k) e) in
    let tested = ==_iff (x * 2 ^ k) (y * 2 ^ k) in
    rw
      (
        prefix_mask p pos le,
        masked 32 (from_be_bytes ip) p k (from_be_bytes-lt ip is_ip) (omega arith),
        masked 32 (from_be_bytes net) p k (from_be_bytes-lt net is_net) (omega arith),
      )
      (λ h. same.0 (tested.0 h), λ e. tested.1 (same.1 e))
