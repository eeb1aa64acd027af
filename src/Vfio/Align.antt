-- ===== src/Vfio/Align.antt =====
-- Alignment in tinymachine-fork/src/vfio/base.rs, on words of 64 bits that wrap as in a release build.
use tinymachine.Common.{
  ℕ, zero, suc, ◌+◌, ◌-◌, ◌*◌, ◌/◌, ◌%◌, ◌^◌, ◌≤◌, ◌<◌, ◌≡◌, inl, inr, true, ap, ◌∙◌, Bool-cases,
  ltb, leb, leb→le, if◌then◌else◌, bit_and, arith,
}
use tinymachine.Common.Bits.{mul-two_pow-suc}
use tinymachine.Common.Masks.{masked, pow_split, pred_mul, two_pow-positive}
use native.Mathlib.Nat.{pow-suc, div-add-mod', mod-lt}

-- the powers of two from `p` on, for `fuel` of them
abbrev search : ℕ → ℕ → ℕ → ℕ
search zero p n = 0
search (suc fuel) p n = let later = search fuel (2 * p) n in if leb n p then p else later

-- `u64::next_power_of_two`, which is 0 where there is none
unfoldable pub next_power_of_two : ℕ → ℕ
next_power_of_two n = search 64 1 n

abbrev pub add_64 : ℕ → ℕ → ℕ
add_64 a b = (a + b) % 2 ^ 64

abbrev pub sub_64 : ℕ → ℕ → ℕ
sub_64 a b = (a + 2 ^ 64 - b) % 2 ^ 64

abbrev pub not_64 : ℕ → ℕ
not_64 a = 2 ^ 64 - 1 - a

-- `let base = …; (base + align - 1) & !(align - 1)`
unfoldable pub place : ℕ → ℕ → ℕ
place next align =
    let base = if ltb next align then align else next in
    bit_and (sub_64 (add_64 base align) 1) (not_64 (sub_64 align 1))

search_lem :
    (fuel j p n : ℕ)
    → p ≡ 2 ^ j
    → n ≤ p * 2 ^ fuel
    → p < 2 * n
    → (k : ℕ) × (search (suc fuel) p n ≡ 2 ^ k) × (n ≤ 2 ^ k) × (2 ^ k < 2 * n)
search_lem zero j p n e le lt =
    let hit : leb n p ≡ true = ground arith in rw hit (j, e, omega (arith, e), omega (arith, e))
search_lem (suc fuel) j p n e le lt = elim (Bool-cases (leb n p)) [
  | inl hit ↦ rw hit (j, e, omega (arith, e, leb→le n p hit), omega (arith, e))
  | inr miss ↦
      let larger : p < n = ground arith in
      rw miss (
        search_lem fuel (suc j) (2 * p) n (omega (arith, e, pow-suc 2 j))
          (omega (arith, le, mul-two_pow-suc p fuel)) (omega arith))
]

-- For a size from 1 to 2 ^ 63, the next power of two, which is less than twice the size.
pub next_power_of_two_lem :
    (n : ℕ)
    → 0 < n
    → n ≤ 2 ^ 63
    → (k : ℕ) × (next_power_of_two n ≡ 2 ^ k) × (n ≤ 2 ^ k) × (2 ^ k < 2 * n)
unfolding next_power_of_two
next_power_of_two_lem n pos le = search_lem 63 0 1 n (omega arith) (omega arith) (omega arith)

-- A multiple of the alignment that is not before `next`.
pub place_lem :
    (next k : ℕ)
    → k ≤ 63
    → next + 2 * 2 ^ k < 2 ^ 64
    → (q : ℕ) × (place next (2 ^ k) ≡ q * 2 ^ k)
      × (next ≤ q * 2 ^ k)
      × (q * 2 ^ k < next + 2 * 2 ^ k)
unfolding place
place_lem next k few small =
    let b = 2 ^ k in
    let base = if ltb next b then b else next in
    let x = base + b - 1 in
    let positive : 0 < b = two_pow-positive k in
    let least : next ≤ base = ground arith in
    let most : base ≤ next + b = ground arith in
    let sum : sub_64 (add_64 base b) 1 ≡ x = omega arith in
    let whole : (2 ^ (64 - k) - 1) * b + b ≡ 2 ^ 64 =
      pred_mul (2 ^ (64 - k)) b (two_pow-positive (64 - k))
      ∙ pow_split (64 - k) k 64 (omega arith) in
    let mask : not_64 (sub_64 b 1) ≡ (2 ^ (64 - k) - 1) * b = omega (arith, whole) in
    let rounded : bit_and (sub_64 (add_64 base b) 1) (not_64 (sub_64 b 1)) ≡ x / b * b =
      ap (λ y. bit_and y (not_64 (sub_64 b 1))) sum
      ∙ ap (bit_and x) mask
      ∙ masked 64 x (64 - k) k (omega arith) (omega arith) in
    let divided = div-add-mod' x b in
    let left = mod-lt x {m = b} positive in
    (x / b, rounded, omega (arith, divided, left), omega (arith, divided, left))
