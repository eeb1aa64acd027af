-- ===== src/Cmdline/Lexer.antt =====
-- The splitting of the command line into tokens, keys and values in tinymachine-config/src/cmdline.rs, with
-- the methods of `str` that it uses. A text is the list of its code points.
use tinymachine.Common.{
  ℕ, Bool, false, true, not, ◌||◌, ◌&&◌, Option, none, some, List, [], ◌∷◌, ◌++◌, leb, ◌==◌,
  if◌then◌else◌, Text,
}

-- `char::is_whitespace`: the code points with the Unicode property White_Space
unfoldable pub is_whitespace : ℕ → Bool
is_whitespace c =
    (leb 9 c && leb c 13)
    || c == 32
    || c == 0x85
    || c == 0xa0
    || c == 0x1680
    || (leb 0x2000 c && leb c 0x200a)
    || c == 0x2028
    || c == 0x2029
    || c == 0x202f
    || c == 0x205f
    || c == 0x3000

-- the state of the loop of `tokenize_cmdline`
pub record Tokenizer : Type 0 where
  pub tokens : List Text
  pub current : Text
  pub in_double_quote : Bool
  pub in_single_quote : Bool
  pub in_comment : Bool

-- what `flush` does where `current` is the text given
unfoldable pub flush_current : Tokenizer → Text → Tokenizer
flush_current s [] = s
flush_current s (c ∷ cs) = record s { tokens = s.tokens ++ (c ∷ cs) ∷ []; current = [] }

-- `if !current.is_empty() { tokens.push(std::mem::take(&mut current)); }`
unfoldable pub flush : Tokenizer → Tokenizer
unfolding flush_current
flush s = flush_current s s.current

abbrev pub push : ℕ → Tokenizer → Tokenizer
push ch s = record s { current = s.current ++ ch ∷ [] }

-- One turn of the loop. 34 is the double quote, 39 the single one, 35 the sign # and 10 a new line.
unfoldable pub read_char : Tokenizer → ℕ → Tokenizer
unfolding flush
read_char s ch =
    if s.in_comment
    then (if ch == 10 then record s { in_comment = false } else s)
    else if ch == 34 && not s.in_single_quote
    then (if s.in_double_quote
        then flush (record s { in_double_quote = false })
        else record s { in_double_quote = true })
    else if ch == 39 && not s.in_double_quote
    then (if s.in_single_quote
        then flush (record s { in_single_quote = false })
        else record s { in_single_quote = true })
    else if s.in_double_quote || s.in_single_quote
    then push ch s
    else if ch == 35
    then flush (record s { in_comment = true })
    else if is_whitespace ch
    then flush s
    else push ch s

unfoldable pub read_chars : Tokenizer → Text → Tokenizer
read_chars s [] = s
read_chars s (ch ∷ cs) = read_chars (read_char s ch) cs

abbrev pub start : Tokenizer
start = record {
  tokens = [];
  current = [];
  in_double_quote = false;
  in_single_quote = false;
  in_comment = false;
}

unfoldable pub tokenize_cmdline : Text → List Text
tokenize_cmdline cmdline = (flush (read_chars start cmdline)).tokens

-- `str::strip_prefix`
unfoldable pub strip_prefix : Text → Text → Option Text
strip_prefix [] t = some t
strip_prefix (p ∷ ps) [] = none
strip_prefix (p ∷ ps) (c ∷ cs) = let rest = strip_prefix ps cs in if p == c then rest else none

unfoldable pub before : ℕ → Option (Text × Text) → Option (Text × Text)
before c none = none
before c (some (k, v)) = some (c ∷ k, v)

-- `str::split_once`
unfoldable pub split_once : ℕ → Text → Option (Text × Text)
unfolding before
split_once at [] = none
split_once at (c ∷ cs) =
    let rest = before c (split_once at cs) in if c == at then some ([], cs) else rest

unfoldable pub trim_start : Text → Text
trim_start [] = []
trim_start (c ∷ cs) = let rest = trim_start cs in if is_whitespace c then rest else c ∷ cs

-- drops `c` too where nothing but white space follows it
unfoldable pub trim_before : ℕ → Text → Text
trim_before c [] = if is_whitespace c then [] else c ∷ []
trim_before c (d ∷ ds) = c ∷ d ∷ ds

unfoldable pub trim_end : Text → Text
unfolding trim_before
trim_end [] = []
trim_end (c ∷ cs) = trim_before c (trim_end cs)

unfoldable pub trim : Text → Text
unfolding trim_start trim_end
trim t = trim_end (trim_start t)
