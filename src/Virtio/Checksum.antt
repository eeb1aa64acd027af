-- ===== src/Virtio/Checksum.antt =====
-- `checksum` of tinymachine-fork/src/net/virtio_net_pci.rs: the ones' complement checksum of the headers.
use tinymachine.Common.{
  ℕ, zero, suc, ◌+◌, ◌-◌, ◌*◌, ◌/◌, ◌%◌, ◌^◌, ◌≤◌, ◌<◌, ◌≡◌, ◌⊎◌, ap, ◌∙◌, ◌==◌, if◌then◌else◌,
  List, [], ◌∷◌, ◌++◌, length, length-append, All, bit_or, arith,
}
use tinymachine.Common.Bits.{bit_or_below}

-- `high << 8 | low`
unfoldable pub be_word : ℕ → ℕ → ℕ
be_word high low = bit_or (high * 2 ^ 8) low

unfoldable pub sum_words : ℕ → List ℕ → ℕ
unfolding be_word
sum_words total [] = total
sum_words total (b ∷ []) = (total + b * 2 ^ 8) % 2 ^ 32
sum_words total (a ∷ b ∷ data_of) = sum_words ((total + be_word a b) % 2 ^ 32) data_of

-- the second loop, with a bound on its rounds
unfoldable pub fold_carries : ℕ → ℕ → ℕ
fold_carries zero total = total
fold_carries (suc rounds) total =
    let rest = fold_carries rounds (total % 2 ^ 16 + total / 2 ^ 16) in
    if total / 2 ^ 16 == 0 then total else rest

unfoldable pub checksum : List ℕ → ℕ
unfolding sum_words fold_carries
checksum data_of = 2 ^ 16 - 1 - fold_carries 2 (sum_words 0 data_of) % 2 ^ 16

abbrev pub IsByte : ℕ → Type 0
IsByte b = b < 256

-- the sum of the words without a carry dropped
abbrev words : List ℕ → ℕ
words [] = 0
words (b ∷ []) = b * 256
words (a ∷ b ∷ data_of) = a * 256 + b + words data_of

pub be_word_lem : (a b : ℕ) → b < 256 → be_word a b ≡ a * 256 + b
unfolding be_word
be_word_lem a b h = bit_or_below 8 a b h

-- Two rounds are enough.
fold_carries_lem :
    (t : ℕ)
    → t < 2 ^ 32
    → (q : ℕ) × (fold_carries 2 t + 65535 * q ≡ t)
      × (fold_carries 2 t < 2 ^ 16)
      × ((t ≡ 0) ⊎ (0 < fold_carries 2 t))
unfolding fold_carries
fold_carries_lem t h =
    (t / 65536 + (t % 65536 + t / 65536) / 65536, ground arith, ground arith, ground arith)

words_bound : (xs : List ℕ) → All IsByte xs → 2 * words xs ≤ 65535 * (length xs + 1)
words_bound [] h = omega arith
words_bound (b ∷ []) h = omega (arith, h.0)
words_bound (a ∷ b ∷ xs) h = omega (arith, h.0, h.1.0, words_bound xs h.1.1)

-- Where the sum fits in a word, the loop adds up without a loss.
sum_words_lem :
    (total : ℕ) (xs : List ℕ)
    → All IsByte xs
    → total + words xs < 2 ^ 32
    → sum_words total xs ≡ total + words xs
unfolding sum_words
sum_words_lem total [] h fits = omega arith
sum_words_lem total (b ∷ []) h fits = omega arith
sum_words_lem total (a ∷ b ∷ xs) h fits =
    let word : be_word a b ≡ a * 256 + b = be_word_lem a b h.1.0 in
    let next : (total + be_word a b) % 2 ^ 32 ≡ total + be_word a b = omega (arith, word, fits) in
    ap (λ t. sum_words t xs) next
    ∙ sum_words_lem (total + be_word a b) xs h.1.1 (omega (arith, word, fits))
    ∙ omega (arith, word)

-- The checksum is what is left of the sum of the words up to a multiple of 2 ^ 16 - 1.
pub checksum_lem :
    (xs : List ℕ)
    → All IsByte xs
    → length xs ≤ 65536
    → (q : ℕ) × (words xs + checksum xs ≡ 65535 * q + 65535)
      × (checksum xs < 65536)
      × ((words xs ≡ 0) ⊎ (checksum xs < 65535))
unfolding checksum
checksum_lem xs h short =
    let bound : words xs < 2 ^ 32 = omega (arith, words_bound xs h) in
    let total : sum_words 0 xs ≡ words xs =
      sum_words_lem 0 xs h (omega (arith, bound)) ∙ omega arith in
    let folded = fold_carries_lem (words xs) bound in
    rw total (
      folded.0,
      ground (arith, folded.1, folded.2),
      omega arith,
      ground (arith, folded.2, folded.3),
    )

-- bytes in front of the checksum's own two, and bytes behind them
words-append : (xs ys : List ℕ) (n : ℕ) → length xs ≡ 2 * n → words (xs ++ ys) ≡ words xs + words ys
words-append [] ys n even = omega arith
words-append (a ∷ []) ys n even = absurd (omega (arith, even))
words-append (a ∷ b ∷ xs) ys n even =
    omega (arith, words-append xs ys (n - 1) (omega (arith, even)))

pub All-append : (P : ℕ → Type 0) (xs ys : List ℕ) → All P xs → All P ys → All P (xs ++ ys)
All-append P [] ys h h' = h'
All-append P (x ∷ xs) ys h h' = (h.0, All-append P xs ys h.1 h')

-- Bytes whose words add up to a positive multiple of 2 ^ 16 - 1 have the checksum 0.
checksum_zero :
    (xs : List ℕ) (q : ℕ)
    → All IsByte xs
    → length xs ≤ 65536
    → words xs ≡ 65535 * q + 65535
    → checksum xs ≡ 0
checksum_zero xs q h short multiple =
    let c = checksum_lem xs h short in ground (arith, multiple, c.1, c.2, c.3)

-- A header of bytes, shorter than 2 ^ 16 of them, that carries at an even offset the checksum that was
-- computed while its field was zero is accepted by its receiver: the checksum of the header as a whole
-- is 0.
pub checksum-inserted :
    (n : ℕ) (front back : List ℕ)
    → length front ≡ 2 * n
    → All IsByte front
    → All IsByte back
    → length front + length back < 65535
    → let c = checksum (front ++ 0 ∷ 0 ∷ back) in
      checksum (front ++ c / 2 ^ 8 ∷ c % 2 ^ 8 ∷ back) ≡ 0
checksum-inserted n front back even f b short =
    let c = checksum (front ++ 0 ∷ 0 ∷ back) in
    let blank =
      checksum_lem (front ++ 0 ∷ 0 ∷ back)
        (All-append IsByte front (0 ∷ 0 ∷ back) f (omega arith, (omega arith, b)))
        (omega (arith, length-append front (0 ∷ 0 ∷ back), short)) in
    checksum_zero (front ++ c / 2 ^ 8 ∷ c % 2 ^ 8 ∷ back) blank.0
      (All-append IsByte front (c / 2 ^ 8 ∷ c % 2 ^ 8 ∷ back) f
        (omega (arith, blank.2), (omega arith, b)))
      (omega (arith, length-append front (c / 2 ^ 8 ∷ c % 2 ^ 8 ∷ back), short))
      (omega (
        arith,
        blank.1,
        words-append front (0 ∷ 0 ∷ back) n even,
        words-append front (c / 2 ^ 8 ∷ c % 2 ^ 8 ∷ back) n even,
      ))
