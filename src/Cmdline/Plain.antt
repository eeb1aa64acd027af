-- ===== src/Cmdline/Plain.antt =====
-- Texts that the tokenizer takes whole, and the printing of integers, in
-- tinymachine-config/src/cmdline.rs.
use mathlib.Core.List.{append_assoc, append-nil}
use tinymachine.Common.{
  ℕ, zero, suc, ◌+◌, ◌-◌, ◌*◌, ◌/◌, ◌%◌, ◌≤◌, ◌<◌, not, ◌||◌, ◌==◌, ltb, ◌≡◌, refl, ap, ◌∙◌, inl,
  inr, Bool, true, false, Bool-cases, List, [], ◌∷◌, ◌++◌, Text, some, arith,
}
use tinymachine.Cmdline.Lexer.{
  Tokenizer, flush, flush_current, read_char, read_chars, start, tokenize_cmdline, is_whitespace,
  trim, trim_start, trim_end, trim_before,
}
use tinymachine.Cmdline.Config.{parse_digits, parse_unsigned}
use tinymachine.Cmdline.Print.{digits, print_unsigned, join, quote_if_needed, needs_quotes}
use tinymachine.Cmdline.Closed.{IsClosed, tokenize_cmdline-append}

-- no white space, quote or sign #
abbrev pub is_plain : ℕ → Bool
is_plain c = not (is_whitespace c || c == 34 || c == 39 || c == 35)

abbrev pub IsPlain : Text → Type 0
IsPlain [] = Unit {0}
IsPlain (c ∷ cs) = (is_plain c ≡ true) × IsPlain cs

abbrev reading : List Text → Text → Tokenizer
reading tokens current = record start { tokens = tokens; current = current }

read_char-plain :
    (tokens : List Text) (current : Text) (c : ℕ)
    → is_plain c ≡ true
    → read_char (reading tokens current) c ≡ reading tokens (current ++ c ∷ [])
unfolding read_char
read_char-plain tokens current c h = ground arith

read_chars-plain :
    (tokens : List Text) (current t : Text)
    → IsPlain t
    → read_chars (reading tokens current) t ≡ reading tokens (current ++ t)
unfolding read_chars
read_chars-plain tokens current [] h = rw append-nil
read_chars-plain tokens current (c ∷ t) (h, hs) =
    rw (read_char-plain tokens current c h) (read_chars-plain tokens (current ++ c ∷ []) t hs)
    ∙ ap (reading tokens) (append_assoc current (c ∷ []) t)

digit_plain : (c : ℕ) → 48 ≤ c → c ≤ 57 → is_plain c ≡ true
unfolding is_whitespace
digit_plain c lo hi = ground arith

digits-IsPlain : (fuel n : ℕ) (rest : Text) → n ≤ fuel → IsPlain rest → IsPlain (digits fuel n rest)
unfolding digits
digits-IsPlain zero n rest h p = (digit_plain (48 + n) (omega arith) (omega arith), p)
digits-IsPlain (suc fuel) n rest h p = elim (Bool-cases (ltb n 10)) [
  | inl last ↦ rw last (digit_plain (48 + n) (omega arith) (ground arith), p)
  | inr more ↦ rw more (
      digits-IsPlain fuel (n / 10) ((48 + n % 10) ∷ rest) (ground arith)
        (digit_plain (48 + n % 10) (omega arith) (omega arith), p))
]

parse_digits-step :
    (bound m c : ℕ) (rest : Text)
    → 48 ≤ c
    → c ≤ 57
    → m * 10 + (c - 48) < bound
    → parse_digits bound m (c ∷ rest) ≡ parse_digits bound (m * 10 + (c - 48)) rest
unfolding parse_digits
parse_digits-step bound m c rest lo hi small = ground arith

parse_digits_last :
    (bound n : ℕ) (rest : Text)
    → n < bound
    → n ≤ 9
    → parse_digits bound 0 ((48 + n) ∷ rest) ≡ parse_digits bound n rest
parse_digits_last bound n rest small le =
    parse_digits-step bound 0 (48 + n) rest (omega arith) (omega arith) (omega arith)
    ∙ ap (λ m. parse_digits bound m rest) (omega arith)

parse_digits-digits :
    (bound fuel n : ℕ) (rest : Text)
    → n < bound
    → n ≤ fuel
    → parse_digits bound 0 (digits fuel n rest) ≡ parse_digits bound n rest
unfolding digits
parse_digits-digits bound zero n rest small h = parse_digits_last bound n rest small (omega arith)
parse_digits-digits bound (suc fuel) n rest small h = elim (Bool-cases (ltb n 10)) [
  | inl last ↦ rw last (parse_digits_last bound n rest small (ground arith))
  | inr more ↦ rw more (
      parse_digits-digits bound fuel (n / 10) ((48 + n % 10) ∷ rest) (omega arith) (ground arith)
      ∙ parse_digits-step bound (n / 10) (48 + n % 10) rest (omega arith) (omega arith)
          (omega arith)
      ∙ ap (λ m. parse_digits bound m rest) (omega arith))
]

abbrev Begins : Text → Type 0
Begins [] = ⊥
Begins (c ∷ cs) = 48 ≤ c

digits-Begins : (fuel n : ℕ) (rest : Text) → Begins (digits fuel n rest)
unfolding digits
digits-Begins zero n rest = omega arith
digits-Begins (suc fuel) n rest = elim (Bool-cases (ltb n 10)) [
  | inl last ↦ rw last (omega arith)
  | inr more ↦ rw more (digits-Begins fuel (n / 10) ((48 + n % 10) ∷ rest))
]

parse_unsigned-Begins :
    (bound : ℕ) (t : Text) → Begins t → parse_unsigned bound t ≡ parse_digits bound 0 t
unfolding parse_unsigned
parse_unsigned-Begins bound [] h = absurd h
parse_unsigned-Begins bound (c ∷ []) h = refl
parse_unsigned-Begins bound (c ∷ d ∷ ds) h = ground arith

pub print_unsigned-IsPlain : (n : ℕ) → IsPlain (print_unsigned n)
unfolding print_unsigned
print_unsigned-IsPlain n = digits-IsPlain n n [] (omega arith) tt

-- An integer below the bound is read back from its digits.
pub parse_unsigned-print_unsigned :
    (bound n : ℕ) → n < bound → parse_unsigned bound (print_unsigned n) ≡ some n
unfolding print_unsigned parse_digits
parse_unsigned-print_unsigned bound n small =
    parse_unsigned-Begins bound (digits n n []) (digits-Begins n n [])
    ∙ parse_digits-digits bound n n [] small (omega arith)

-- a token: not empty, and plain
abbrev pub IsWord : Text → Type 0
IsWord [] = ⊥
IsWord (c ∷ cs) = IsPlain (c ∷ cs)

abbrev pub AreWords : List Text → Type 0
AreWords [] = Unit {0}
AreWords (t ∷ ts) = IsWord t × AreWords ts

read_word : (c : ℕ) (cs : Text) → IsPlain (c ∷ cs) → read_chars start (c ∷ cs) ≡ reading [] (c ∷ cs)
read_word c cs h = read_chars-plain [] [] (c ∷ cs) h

word-IsClosed : (c : ℕ) (cs : Text) → IsPlain (c ∷ cs) → IsClosed (c ∷ cs)
word-IsClosed c cs h =
    let e = read_word c cs h in
    (
      ap (λ (s : Tokenizer). s.in_double_quote) e,
      ap (λ (s : Tokenizer). s.in_single_quote) e,
      ap (λ (s : Tokenizer). s.in_comment) e,
    )

tokenize_word : (c : ℕ) (cs : Text) → IsPlain (c ∷ cs) → tokenize_cmdline (c ∷ cs) ≡ (c ∷ cs) ∷ []
unfolding tokenize_cmdline flush flush_current
tokenize_word c cs h = ap (λ s. (flush s).tokens) (read_word c cs h)

tokenize_nothing : tokenize_cmdline [] ≡ []
unfolding tokenize_cmdline flush flush_current read_chars
tokenize_nothing = refl

-- Words joined by spaces are the tokens of the text.
pub tokenize_cmdline-join : (ts : List Text) → AreWords ts → tokenize_cmdline (join ts) ≡ ts
unfolding join
tokenize_cmdline-join [] h = tokenize_nothing
tokenize_cmdline-join ((c ∷ cs) ∷ []) (h, _) = tokenize_word c cs h
tokenize_cmdline-join ((c ∷ cs) ∷ u ∷ ts) (h, hs) =
    tokenize_cmdline-append (c ∷ cs) (join (u ∷ ts)) (word-IsClosed c cs h)
    ∙ ap (λ l. l ++ tokenize_cmdline (join (u ∷ ts))) (tokenize_word c cs h)
    ∙ ap (λ l. (c ∷ cs) ∷ l) (tokenize_cmdline-join (u ∷ ts) hs)
tokenize_cmdline-join ([] ∷ ts) (h, hs) = absurd h

plain_char : (c : ℕ) → is_plain c ≡ true → is_whitespace c ≡ false
plain_char c h = ground arith

trim_start-plain : (t : Text) → IsPlain t → trim_start t ≡ t
unfolding trim_start
trim_start-plain [] h = refl
trim_start-plain (c ∷ cs) (h, hs) = rw (plain_char c h)

trim_end-plain : (t : Text) → IsPlain t → trim_end t ≡ t
unfolding trim_end trim_before
trim_end-plain [] h = refl
trim_end-plain (c ∷ []) (h, hs) = rw (plain_char c h)
trim_end-plain (c ∷ d ∷ ds) (h, hs) = ap (trim_before c) (trim_end-plain (d ∷ ds) hs)

pub trim-plain : (t : Text) → IsPlain t → trim t ≡ t
unfolding trim
trim-plain t h = ap trim_end (trim_start-plain t h) ∙ trim_end-plain t h

needs_quotes-plain : (t : Text) → IsPlain t → needs_quotes t ≡ false
unfolding needs_quotes
needs_quotes-plain [] p = refl
needs_quotes-plain (c ∷ cs) (p, ps) = ground (arith, needs_quotes-plain cs ps)

pub quote_if_needed-plain : (t : Text) → IsPlain t → quote_if_needed t ≡ t
unfolding quote_if_needed
quote_if_needed-plain t h = rw (needs_quotes-plain t h)
