-- ===== src/Uops/Policy/Reserved.antt =====
-- Which addresses `PolicyEngine::check` of tinymachine-fork/src/uops.rs blocks.
use tinymachine.Common.{
  ℕ, ◌-◌, ◌*◌, ◌/◌, ◌^◌, ◌<◌, ◌≡◌, ◌↔◌, ◌⊎◌, inl, inr, ◌∙◌, ap, refl, Bool, true, false, ◌==◌, ◌&&◌,
  ◌||◌, leb, bit_and, arith,
}
use tinymachine.Common.Masks.{bit_and_ones, bit_and_shifted}
use tinymachine.Uops.Types.{Ipv4Addr, IpAddr, v4, v6}
use tinymachine.Uops.Net.{from_be_bytes, is_blocked, is_loopback, is_unspecified_v4, is_multicast}
use tinymachine.Uops.Subnets.{IsAddress}

abbrev ipv4 : ℕ → ℕ → ℕ → ℕ → Ipv4Addr
ipv4 a b c d = record { a = a; b = b; c = c; d = d }

-- the address begins with the same bits
abbrev InNet : Ipv4Addr → ℕ → Ipv4Addr → Type 0
InNet net p ip = from_be_bytes ip / 2 ^ (32 - p) ≡ from_be_bytes net / 2 ^ (32 - p)

-- Networks that the public internet does not reach: loopback, the private ones, link-local, the unspecified
-- address, multicast, the address of the metadata service, and the shared ones of providers.
abbrev pub IsReserved : IpAddr → Type 0
IsReserved (v4 ip) =
    InNet (ipv4 127 0 0 0) 8 ip
    ⊎ InNet (ipv4 10 0 0 0) 8 ip
    ⊎ InNet (ipv4 172 16 0 0) 12 ip
    ⊎ InNet (ipv4 192 168 0 0) 16 ip
    ⊎ InNet (ipv4 169 254 0 0) 16 ip
    ⊎ InNet (ipv4 0 0 0 0) 32 ip
    ⊎ InNet (ipv4 224 0 0 0) 4 ip
    ⊎ InNet (ipv4 169 254 169 254) 32 ip
    ⊎ InNet (ipv4 100 64 0 0) 10 ip
IsReserved (v6 ip) = (ip ≡ 1) ⊎ (ip ≡ 0) ⊎ (ip / 2 ^ 120 ≡ 0xff)

or_iff : {A B : Type 0} (p q : Bool) → (p ≡ true) ↔ A → (q ≡ true) ↔ B → (p || q ≡ true) ↔ (A ⊎ B)
or_iff true q left right = ((λ h. inl (left.0 refl)), λ h. refl)
or_iff false q left right = (
  (λ h. inr (right.0 h)),
  λ h. elim h [ inl a ↦ absurd (ground (arith, left.1 a)) | inr b ↦ right.1 b ],
)

or_assoc : (p q r : Bool) → (p || q) || r ≡ p || (q || r)
or_assoc true q r = refl
or_assoc false q r = refl

shared_lem : (b : ℕ) → b < 256 → bit_and b 0xc0 ≡ b / 64 * 64
shared_lem b h = bit_and_shifted 6 b 3 ∙ ap (λ x. x * 64) (bit_and_ones 2 (b / 64) (omega arith))

module _ (ip : Ipv4Addr) (ok : IsAddress ip) where
  loopback_iff : (is_loopback ip ≡ true) ↔ InNet (ipv4 127 0 0 0) 8 ip
  loopback_iff = let (a, b, c, d) = ok in ground arith

  ten_iff : (ip.a == 10 ≡ true) ↔ InNet (ipv4 10 0 0 0) 8 ip
  ten_iff = let (a, b, c, d) = ok in ground arith

  middle_iff : (ip.a == 172 && leb 16 ip.b && leb ip.b 31 ≡ true) ↔ InNet (ipv4 172 16 0 0) 12 ip
  middle_iff = let (a, b, c, d) = ok in ground arith

  pair_iff : (x y : ℕ) → y < 256 → (ip.a == x && ip.b == y ≡ true) ↔ InNet (ipv4 x y 0 0) 16 ip
  pair_iff x y h = let (a, b, c, d) = ok in ground arith

  unspecified_iff : (is_unspecified_v4 ip ≡ true) ↔ InNet (ipv4 0 0 0 0) 32 ip
  unspecified_iff = let (a, b, c, d) = ok in ground arith

  multicast_iff : (is_multicast ip ≡ true) ↔ InNet (ipv4 224 0 0 0) 4 ip
  multicast_iff = let (a, b, c, d) = ok in ground arith

  metadata_iff :
      (ip.a == 169 && ip.b == 254 && ip.c == 169 && ip.d == 254 ≡ true)
      ↔ InNet (ipv4 169 254 169 254) 32 ip
  metadata_iff = let (a, b, c, d) = ok in ground arith

  shared_iff : (ip.a == 100 && bit_and ip.b 0xc0 == 0x40 ≡ true) ↔ InNet (ipv4 100 64 0 0) 10 ip
  shared_iff = let (a, b, c, d) = ok in rw (shared_lem ip.b b) (ground arith)

  pub is_blocked_v4 : (is_blocked (v4 ip) ≡ true) ↔ IsReserved (v4 ip)
  unfolding is_blocked
  is_blocked_v4 = simp or_assoc (
      or_iff _ _ loopback_iff (
        or_iff _ _ ten_iff (
          or_iff _ _ middle_iff (
            or_iff _ _ (pair_iff 192 168 (omega arith)) (
              or_iff _ _ (pair_iff 169 254 (omega arith)) (
                or_iff _ _ unspecified_iff
                  (or_iff _ _ multicast_iff (or_iff _ _ metadata_iff shared_iff))))))))

pub is_blocked_v6 : (ip : ℕ) → (is_blocked (v6 ip) ≡ true) ↔ IsReserved (v6 ip)
unfolding is_blocked
is_blocked_v6 ip = ground arith
