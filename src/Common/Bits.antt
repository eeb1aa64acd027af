-- ===== src/Common/Bits.antt =====
-- `|` of two words that share no bit is their sum.
use Prim.Native.Nat.{
  ℕ, zero, suc, ◌+◌, ◌-◌, ◌*◌, ◌/◌, ◌%◌, ◌^◌, ◌≤◌, ◌<◌, max, bit_or, digits, bit_or-bitwise,
}
use mathlib.Core.Path.{◌≡◌, refl, sym, ap, ◌∙◌}
use native.Mathlib.Nat.{pow-suc}
use native.Mathlib.Omega.{arith}

-- A bitwise operation goes through the digits on a count that covers the first word: any such count does.
module _ (rest : ℕ → ℕ) (digit : ℕ → ℕ → ℕ) where
  run_out : (count b : ℕ) → digits rest digit count 0 b ≡ rest b
  run_out zero b = refl
  run_out (suc count) b = refl

  enough :
      (a b count more : ℕ)
      → a ≤ count
      → digits rest digit (count + more) a b ≡ digits rest digit count a b
  enough zero b count more le = run_out (count + more) b ∙ sym (run_out count b)
  enough (suc a) b zero more le = absurd (omega arith)
  enough (suc a) b (suc count) more le =
      ap (λ n. digits rest digit n (suc a) b) {x = suc count + more} {y = suc (count + more)}
        (omega arith)
      ∙ ap (λ d. d * 2 + digit (suc a % 2) (b % 2))
          (enough (suc a / 2) (b / 2) count more (omega arith))

  -- The lowest digit, and the digits above it.
  pub lowest_digit :
      (a b : ℕ)
      → digits rest digit (suc a) (suc a) b
        ≡ digits rest digit (suc a / 2) (suc a / 2) (b / 2) * 2 + digit (suc a % 2) (b % 2)
  lowest_digit a b =
      ap (λ n. digits rest digit n (suc a / 2) (b / 2) * 2 + digit (suc a % 2) (b % 2)) {x = a}
        {y = suc a / 2 + (a - suc a / 2)} (omega arith)
      ∙ ap (λ d. d * 2 + digit (suc a % 2) (b % 2))
          (enough (suc a / 2) (b / 2) (suc a / 2) (a - suc a / 2) (omega arith))

zero-bit_or : (b : ℕ) → bit_or 0 b ≡ b
zero-bit_or b = bit_or-bitwise 0 b

pub bit_or_halves : (a b : ℕ) → bit_or a b ≡ bit_or (a / 2) (b / 2) * 2 + max (a % 2) (b % 2)
bit_or_halves zero b = omega (arith, zero-bit_or b, zero-bit_or (b / 2))
bit_or_halves (suc a) b = omega (
  arith,
  lowest_digit (λ d. d) max a b,
  bit_or-bitwise (suc a) b,
  bit_or-bitwise (suc a / 2) (b / 2),
)

pub mul-two_pow-suc : (high k : ℕ) → high * 2 ^ suc k ≡ 2 * (high * 2 ^ k)
mul-two_pow-suc high k = omega (arith, ap (λ (t : ℕ). high * t) (pow-suc 2 k))

-- `low | (high << k)` where `low` fits in `k` bits.
pub bit_or_disjoint :
    (k low high : ℕ) → low < 2 ^ k → bit_or low (high * 2 ^ k) ≡ low + high * 2 ^ k
bit_or_disjoint zero low high h = ground (arith, zero-bit_or (high * 1))
bit_or_disjoint (suc k) low high h = ground (
  arith,
  bit_or_halves low (high * 2 ^ suc k),
  mul-two_pow-suc high k,
  bit_or_disjoint k (low / 2) high (omega (arith, pow-suc 2 k)),
)

bit_or-zero : (n a : ℕ) → a ≤ n → bit_or a 0 ≡ a
bit_or-zero n zero le = zero-bit_or 0
bit_or-zero zero (suc a) le = absurd (omega arith)
bit_or-zero (suc n) (suc a) le =
    omega (arith, bit_or_halves (suc a) 0, bit_or-zero n (suc a / 2) (omega arith))

-- The bits above the lowest `k` stay as they are.
pub bit_or_above :
    (k a b c : ℕ) → b < 2 ^ k → c < 2 ^ k → bit_or (a * 2 ^ k + b) c ≡ a * 2 ^ k + bit_or b c
bit_or_above zero a zero zero lt lt' =
    omega (arith, bit_or-zero (a * 2 ^ 0 + 0) (a * 2 ^ 0 + 0) (omega arith), zero-bit_or 0)
bit_or_above zero a zero (suc c) lt lt' = absurd (omega arith)
bit_or_above zero a (suc b) c lt lt' = absurd (omega arith)
bit_or_above (suc k) a b c lt lt' =
    let half : (a * 2 ^ suc k + b) / 2 ≡ a * 2 ^ k + b / 2 = omega (arith, mul-two_pow-suc a k) in
    omega (
      arith,
      mul-two_pow-suc a k,
      bit_or_halves (a * 2 ^ suc k + b) c,
      ap (λ x. bit_or x (c / 2)) half,
      bit_or_above k a (b / 2) (c / 2) (omega (arith, pow-suc 2 k)) (omega (arith, pow-suc 2 k)),
      bit_or_halves b c,
    )

-- `(high << k) | low` where `low` fits in `k` bits.
pub bit_or_below : (k high low : ℕ) → low < 2 ^ k → bit_or (high * 2 ^ k) low ≡ high * 2 ^ k + low
bit_or_below k high low h =
    ap (λ x. bit_or x low) {x = high * 2 ^ k} {y = high * 2 ^ k + 0} (omega arith)
    ∙ bit_or_above k high 0 low (omega (arith, h)) h
    ∙ ap (λ x. high * 2 ^ k + x) (zero-bit_or low)
