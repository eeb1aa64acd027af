-- ===== src/Uops/Allow.antt =====
-- `PolicyEngine::allow_subnet` of tinymachine-fork/src/uops.rs, with the parsing of addresses that Rust's standard
-- library documents: four decimal octets without leading zeros.
use tinymachine.Common.{
  ℕ, zero, suc, ◌==◌, Bool, false, ◌&&◌, ◌||◌, ltb, if◌then◌else◌, Option, none, some, List, [],
  ◌∷◌, ◌++◌, Text, length,
}
use tinymachine.Cmdline.Lexer.{split_once}
use tinymachine.Cmdline.Config.{parse_digits, parse_unsigned}
use tinymachine.Uops.Types.{Ipv4Addr}
use tinymachine.Uops.Net.{new_v4}
use tinymachine.Uops.Policy.{PolicyEngine}

abbrev leads_with_zero : Text → Bool
leads_with_zero [] = false
leads_with_zero (c ∷ cs) = c == 48

unfoldable pub parse_octet : Text → Option ℕ
parse_octet t =
    if length t == 0 || ltb 3 (length t) || (ltb 1 (length t) && leads_with_zero t)
    then none
    else parse_digits 256 0 t

abbrev prepend : Option ℕ → Option (List ℕ) → Option (List ℕ)
prepend none ns = none
prepend (some n) none = none
prepend (some n) (some ns) = some (n ∷ ns)

-- an octet, and `count` more of them behind points
unfoldable pub parse_octets : ℕ → Text → Option (List ℕ)
unfolding parse_octet
parse_octets zero t = prepend (parse_octet t) (some [])
parse_octets (suc count) t = elim (split_once 46 t) [
  | none ↦ none
  | some parts ↦ prepend (parse_octet parts.0) (parse_octets count parts.1)
]

abbrev address_of : Option (List ℕ) → Option Ipv4Addr
address_of (some (a ∷ b ∷ c ∷ d ∷ [])) = some (record { a = a; b = b; c = c; d = d })
address_of ns = none

abbrev push_subnet : PolicyEngine → Option ℕ → Option Ipv4Addr → PolicyEngine
push_subnet e none addr = e
push_subnet e (some prefix) none = e
push_subnet e (some prefix) (some addr) = record e {
  allowed_subnets = e.allowed_subnets ++ new_v4 addr prefix ∷ [];
}

unfoldable pub allow_subnet : PolicyEngine → Text → PolicyEngine
unfolding parse_octets
allow_subnet e cidr = elim (split_once 47 cidr) [
  | none ↦ e
  | some parts ↦ push_subnet e (parse_unsigned 256 parts.1) (address_of (parse_octets 3 parts.0))
]
