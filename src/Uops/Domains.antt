-- ===== src/Uops/Domains.antt =====
-- The reading of names and URLs in tinymachine-fork/src/uops.rs, with the methods of `str` and of slices that it uses.
use tinymachine.Common.{
  ℕ, ◌==◌, Bool, true, false, ◌||◌, ◌&&◌, if◌then◌else◌, Option, none, some, List, [], ◌∷◌, ◌++◌,
  Text, codes, text_eq, any, length,
}
use tinymachine.Cmdline.Lexer.{strip_prefix, trim}
use tinymachine.Ir.Types.{IrExpr, IrExprs, no_exprs, expr_cons}
use tinymachine.Ir.Build.{as_str, resolve_attr_chain}

-- whether a text is one of those given
unfoldable pub one_of : Text → List Text → Bool
one_of t texts = any (text_eq t) texts

-- `parts.join(".")`
unfoldable pub join : List Text → Text
join [] = []
join (part ∷ []) = part
join (part ∷ next ∷ parts) = part ++ (codes "." ++ join (next ∷ parts))

is_prefix : Text → Text → Bool
is_prefix [] t = true
is_prefix (p ∷ ps) [] = false
is_prefix (p ∷ ps) (c ∷ cs) = p == c && is_prefix ps cs

-- `s.contains(part)`
unfoldable pub contains_text : Text → Text → Bool
unfolding is_prefix
contains_text [] part = is_prefix part []
contains_text (c ∷ cs) part = is_prefix part (c ∷ cs) || contains_text cs part

-- `s.starts_with(part)`
unfoldable pub starts_with_text : Text → Text → Bool
unfolding is_prefix
starts_with_text s part = is_prefix part s

-- `s.split(at).next()`
abbrev until : ℕ → Text → Text
until at [] = []
until at (c ∷ cs) = if c == at then [] else c ∷ until at cs

-- up to the first of `/`, `?` and `#`
abbrev host_of : Text → Option Text
host_of rest =
    let host = until 35 (until 63 (until 47 rest)) in
    if length host == 0 || any (λ c. c == 32) host then none else some host

-- `for prefix in prefixes { … }`
abbrev domain_after : List Text → Text → Option Text
domain_after [] s = none
domain_after (prefix ∷ prefixes) s =
    let later = domain_after prefixes s in
    elim (strip_prefix prefix s) [
      | none ↦ later
      | some rest ↦ elim (host_of rest) [ none ↦ later | some host ↦ some host ]
    ]

unfoldable pub extract_domain : Text → Option Text
extract_domain s = domain_after (codes "https://" ∷ codes "http://" ∷ []) (trim s)

-- the first string literal among arguments
unfoldable pub first_str : IrExprs → Option Text
first_str no_exprs = none
first_str (expr_cons arg args) =
    let later = first_str args in elim (as_str arg) [ none ↦ later | some s ↦ some s ]

unfoldable pub extract_domain_from_args : IrExprs → Text
unfolding extract_domain
extract_domain_from_args no_exprs = codes "any"
extract_domain_from_args (expr_cons arg args) =
    let later = extract_domain_from_args args in
    elim (as_str arg) [
      | none ↦ later
      | some s ↦ elim (extract_domain s) [ none ↦ later | some domain ↦ domain ]
    ]

unfoldable pub is_base64_decode_call : IrExpr → Bool
unfolding join one_of
is_base64_decode_call (IrExpr.call func args _) = elim (resolve_attr_chain func) [
  | none ↦ false
  | some chain ↦ one_of (join chain) (
      codes "base64.b64decode"
      ∷ codes "base64.decodebytes"
      ∷ codes "base64.decodestring"
      ∷ codes "base64.b32decode"
      ∷ codes "base64.b16decode"
      ∷ [])
]
is_base64_decode_call expr = false
