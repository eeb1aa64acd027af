-- ===== src/Common/Masks.antt =====
-- `&` with a mask of adjacent bits.
use Prim.Native.Nat.{
  ℕ, zero, suc, ◌+◌, ◌-◌, ◌*◌, ◌/◌, ◌%◌, ◌^◌, ◌<◌, ◌≤◌, min, bit_and, bit_and-bitwise,
}
use mathlib.Core.Path.{◌≡◌, ap, ◌∙◌}
use native.Mathlib.Nat.{pow-suc, div-div-eq-div-mul, div-lt_iff_lt-mul}
use native.Mathlib.Omega.{arith}
use tinymachine.Common.Bits.{lowest_digit, mul-two_pow-suc}

none_kept : (b : ℕ) → bit_and 0 b ≡ 0
none_kept b = bit_and-bitwise 0 b

pub bit_and_halves : (a b : ℕ) → bit_and a b ≡ bit_and (a / 2) (b / 2) * 2 + min (a % 2) (b % 2)
bit_and_halves zero b = omega (arith, none_kept b, none_kept (b / 2))
bit_and_halves (suc a) b = omega (
  arith,
  lowest_digit (λ d. zero) min a b,
  bit_and-bitwise (suc a) b,
  bit_and-bitwise (suc a / 2) (b / 2),
)

pub bit_and_even : (a b : ℕ) → bit_and a (2 * b) ≡ bit_and (a / 2) b * 2
bit_and_even a b =
    let half : 2 * b / 2 ≡ b = omega arith in
    omega (arith, bit_and_halves a (2 * b), ap (λ x. bit_and (a / 2) x) half)

bit_and_odd : (a b : ℕ) → bit_and a (2 * b + 1) ≡ bit_and (a / 2) b * 2 + a % 2
bit_and_odd a b =
    let half : (2 * b + 1) / 2 ≡ b = omega arith in
    omega (arith, bit_and_halves a (2 * b + 1), ap (λ x. bit_and (a / 2) x) half)

pub two_pow-positive : (k : ℕ) → 0 < 2 ^ k
two_pow-positive zero = omega arith
two_pow-positive (suc k) = omega (arith, pow-suc 2 k, two_pow-positive k)

-- A mask of `k` ones keeps a word of `k` bits.
pub bit_and_ones : (k a : ℕ) → a < 2 ^ k → bit_and a (2 ^ k - 1) ≡ a
bit_and_ones zero zero h = none_kept 0
bit_and_ones zero (suc a) h = absurd (omega arith)
bit_and_ones (suc k) a h =
    let ones : 2 ^ suc k - 1 ≡ 2 * (2 ^ k - 1) + 1 =
      omega (arith, pow-suc 2 k, two_pow-positive k) in
    ap (λ x. bit_and a x) ones
    ∙ omega (arith, bit_and_odd a (2 ^ k - 1), bit_and_ones k (a / 2) (omega (arith, pow-suc 2 k)))

-- A mask that is shifted by `k` drops the lowest `k` bits.
pub bit_and_shifted : (k a m : ℕ) → bit_and a (m * 2 ^ k) ≡ bit_and (a / 2 ^ k) m * 2 ^ k
bit_and_shifted zero a m =
    let whole : m * 2 ^ 0 ≡ m = omega arith in
    let same : a / 2 ^ 0 ≡ a = omega arith in rw (whole, same) (omega arith)
bit_and_shifted (suc k) a m =
    let smaller : a / 2 / 2 ^ k ≡ a / 2 ^ suc k =
      div-div-eq-div-mul a 2 (2 ^ k) ∙ ap (λ x. a / x) (omega (arith, pow-suc 2 k)) in
    ap (λ x. bit_and a x) (mul-two_pow-suc m k)
    ∙ bit_and_even a (m * 2 ^ k)
    ∙ ap (λ x. x * 2) (bit_and_shifted k (a / 2) m)
    ∙ ap (λ x. bit_and x m * 2 ^ k * 2) smaller
    ∙ omega (arith, mul-two_pow-suc (bit_and (a / 2 ^ suc k) m) k)

pub pow_split : (p k n : ℕ) → p + k ≡ n → 2 ^ p * 2 ^ k ≡ 2 ^ n
pow_split zero k n e = ap (λ x. 1 * 2 ^ x) {x = k} {y = n} (omega arith) ∙ omega arith
pow_split (suc p) k zero e = absurd (omega arith)
pow_split (suc p) k (suc n) e =
    omega (arith, ap (λ x. x * 2 ^ k) (pow-suc 2 p), pow-suc 2 n, pow_split p k n (omega arith))

pub pred_mul : (a b : ℕ) → 0 < a → (a - 1) * b + b ≡ a * b
pred_mul zero b h = absurd (omega arith)
pred_mul (suc a) b h = ap (λ x. x * b + b) {x = suc a - 1} {y = a} (omega arith) ∙ omega arith

-- In a word of `p + k` bits, the mask of `p` ones above `k` zeros rounds down to a multiple of 2 ^ k.
pub masked :
    (w x p k : ℕ) → x < 2 ^ w → p + k ≡ w → bit_and x ((2 ^ p - 1) * 2 ^ k) ≡ x / 2 ^ k * 2 ^ k
masked w x p k h e =
    let fits : x / 2 ^ k < 2 ^ p =
      (div-lt_iff_lt-mul (two_pow-positive k)).1 (omega (arith, pow_split p k w e)) in
    bit_and_shifted k x (2 ^ p - 1) ∙ ap (λ y. y * 2 ^ k) (bit_and_ones p (x / 2 ^ k) fits)

bit_and_none : (n a : ℕ) → a ≤ n → bit_and a 0 ≡ 0
bit_and_none n zero le = none_kept 0
bit_and_none zero (suc a) le = absurd (omega arith)
bit_and_none (suc n) (suc a) le =
    omega (arith, bit_and_halves (suc a) 0, bit_and_none n (suc a / 2) (omega arith))

-- A mask of one bit is left by the words that have it.
pub bit_and_bit : (k a : ℕ) → bit_and a (1 * 2 ^ k) ≡ a / 2 ^ k % 2 * 2 ^ k
bit_and_bit k a =
    let b = a / 2 ^ k in
    bit_and_shifted k a 1
    ∙ ap (λ x. x * 2 ^ k)
        (omega (arith, bit_and_halves b 1, bit_and_none (b / 2) (b / 2) (omega arith)))
