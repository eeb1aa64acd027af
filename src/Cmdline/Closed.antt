-- ===== src/Cmdline/Closed.antt =====
-- A command line in two parts: the tokenizer of tinymachine-config/src/cmdline.rs.
use mathlib.Core.List.{append_assoc, append-nil}
use tinymachine.Common.{
  ℕ, not, ◌&&◌, ◌||◌, ◌==◌, if◌then◌else◌, ◌≡◌, refl, ap, ◌∙◌, Bool, true, false, List, [], ◌∷◌,
  ◌++◌, Text,
}
use tinymachine.Cmdline.Lexer.{
  Tokenizer, flush, flush_current, read_char, read_chars, start, tokenize_cmdline, is_whitespace,
}

-- the tokens read so far, before those of a tokenizer
abbrev after : List Text → Tokenizer → Tokenizer
after tokens s = record s { tokens = tokens ++ s.tokens }

flush_current-after :
    (tokens : List Text) (s : Tokenizer) (current : Text)
    → flush_current (after tokens s) current ≡ after tokens (flush_current s current)
unfolding flush_current
flush_current-after tokens s [] = refl
flush_current-after tokens s (c ∷ cs) =
    ap (λ l. record s { tokens = l; current = [] }) (append_assoc tokens s.tokens _)

flush-after : (tokens : List Text) (s : Tokenizer) → flush (after tokens s) ≡ after tokens (flush s)
unfolding flush
flush-after tokens s = flush_current-after tokens s s.current

if_after :
    (tokens : List Text) (b : Bool) (x y x' y' : Tokenizer)
    → x' ≡ after tokens x
    → y' ≡ after tokens y
    → (if b then x' else y') ≡ after tokens (if b then x else y)
if_after tokens true x y x' y' h k = h
if_after tokens false x y x' y' h k = k

read_char-after :
    (tokens : List Text) (s : Tokenizer) (ch : ℕ)
    → read_char (after tokens s) ch ≡ after tokens (read_char s ch)
unfolding read_char
read_char-after tokens s ch =
    if_after tokens s.in_comment _ _ _ _ (if_after tokens (ch == 10) _ _ _ _ refl refl) (
      if_after tokens (ch == 34 && not s.in_single_quote) _ _ _ _
        (if_after tokens s.in_double_quote _ _ _ _ (flush-after tokens _) refl)
        (if_after tokens (ch == 39 && not s.in_double_quote) _ _ _ _
          (if_after tokens s.in_single_quote _ _ _ _ (flush-after tokens _) refl)
          (if_after tokens (s.in_double_quote || s.in_single_quote) _ _ _ _ refl (
            if_after tokens (ch == 35) _ _ _ _ (flush-after tokens _)
              (if_after tokens (is_whitespace ch) _ _ _ _ (flush-after tokens _) refl)))))

read_chars-after :
    (tokens : List Text) (s : Tokenizer) (cs : Text)
    → read_chars (after tokens s) cs ≡ after tokens (read_chars s cs)
unfolding read_chars
read_chars-after tokens s [] = refl
read_chars-after tokens s (c ∷ cs) =
    ap (λ t. read_chars t cs) (read_char-after tokens s c)
    ∙ read_chars-after tokens (read_char s c) cs

read_chars-append :
    (s : Tokenizer) (xs ys : Text) → read_chars s (xs ++ ys) ≡ read_chars (read_chars s xs) ys
unfolding read_chars
read_chars-append s [] ys = refl
read_chars-append s (x ∷ xs) ys = read_chars-append (read_char s x) xs ys

-- The text leaves no quote and no comment open.
abbrev pub IsClosed : Text → Type 0
IsClosed x =
    ((read_chars start x).in_double_quote ≡ false)
    × ((read_chars start x).in_single_quote ≡ false)
    × ((read_chars start x).in_comment ≡ false)

rebuilt :
    (tokens : List Text) (current : Text) (d q c : Bool)
    → current ≡ []
    → d ≡ false
    → q ≡ false
    → c ≡ false
    → record {
      tokens = tokens;
      current = current;
      in_double_quote = d;
      in_single_quote = q;
      in_comment = c;
    }
      ≡ after tokens start
rebuilt tokens current d q c e₁ e₂ e₃ e₄ = rw (e₁, e₂, e₃, e₄, append-nil)

flush-closed :
    (s : Tokenizer) (current : Text)
    → s.current ≡ current
    → s.in_double_quote ≡ false
    → s.in_single_quote ≡ false
    → s.in_comment ≡ false
    → flush_current s current ≡ after (flush_current s current).tokens start
unfolding flush_current
flush-closed s [] e d q c = rebuilt s.tokens s.current _ _ _ e d q c
flush-closed s (x ∷ xs) e d q c = rebuilt (s.tokens ++ (x ∷ xs) ∷ []) [] _ _ _ refl d q c

read_space :
    (s : Tokenizer)
    → s.in_double_quote ≡ false
    → s.in_single_quote ≡ false
    → s.in_comment ≡ false
    → read_char s 32 ≡ flush s
unfolding read_char is_whitespace flush
read_space s d q c = rw (d, q, c)

-- After a text that leaves no quote and no comment open and a space, the tokens start afresh.
pub tokenize_cmdline-append :
    (x y : Text)
    → IsClosed x
    → tokenize_cmdline (x ++ 32 ∷ y) ≡ tokenize_cmdline x ++ tokenize_cmdline y
unfolding tokenize_cmdline read_chars flush
tokenize_cmdline-append x y (d, q, c) =
    ap (λ s. (flush s).tokens)
      (read_chars-append start x (32 ∷ y)
        ∙ ap (λ s. read_chars s y)
            (read_space _ d q c
              ∙ flush-closed (read_chars start x) (read_chars start x).current refl d q c)
        ∙ read_chars-after (tokenize_cmdline x) start y)
    ∙ ap (λ (s : Tokenizer). s.tokens) (flush-after (tokenize_cmdline x) (read_chars start y))
