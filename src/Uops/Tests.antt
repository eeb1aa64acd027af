-- ===== src/Uops/Tests.antt =====
-- The theorems about policies at work on a policy for one domain and one subnet.
use tinymachine.Common.{
  ℕ, ◌≡◌, ◌↔◌, ◌/◌, ◌^◌, ◌-◌, refl, true, [], ◌∷◌, codes, arith, none, Text, Result, ok, All, inl,
  inr, text_eq,
}
use tinymachine.Uops.Types.{Ipv4Addr, v4, UOp, UOpType, same_type, uop_type}
use tinymachine.Uops.Net.{new_v4, contains, from_be_bytes}
use tinymachine.Uops.Subnets.{contains-new_v4}
use tinymachine.Uops.Policy
use tinymachine.Uops.Allow.{allow_subnet, parse_octets, parse_octet}
use tinymachine.Cmdline.Lexer.{split_once, before}
use tinymachine.Cmdline.Config.{parse_unsigned, parse_digits}
use tinymachine.Uops.Policy.{PolicyEngine, check, check_uop, check_domain, ends_with}
use tinymachine.Uops.Policy.Permitted.{IsPermitted, check-IsPermitted}
use tinymachine.Uops.Domains.{one_of}
use tinymachine.Uops.Analyzer
use tinymachine.Uops.Analyzer.{analyze, visit, track_import, module_uops, check_all}
use tinymachine.Uops.Analyzer.Refusal.{IsBypass, check_clean}
use tinymachine.Ir.Types.{IrProgram, IrStmt, no_stmts, stmt_cons}
use tinymachine.Ir.Walk.{walk_program}
use tinymachine.Ir.Walk.Replay.{record_visit}

abbrev lan : Ipv4Addr
lan = record { a = 192; b = 168; c = 7; d = 0 }

abbrev host : Ipv4Addr
host = record { a = 192; b = 168; c = 7; d = 33 }

abbrev cautious : PolicyEngine
cautious = record {
  allowed_uops = UOpType.dns_resolve ∷ UOpType.tcp_connect ∷ [];
  allowed_domains = codes "example.com" ∷ [];
  allowed_paths = [];
  allowed_subnets = new_v4 lan 24 ∷ [];
}

contains-new_v4_example :
    (contains (new_v4 lan 24) (v4 host) ≡ true)
    ↔ (from_be_bytes host / 2 ^ (32 - 24) ≡ from_be_bytes lan / 2 ^ (32 - 24))
contains-new_v4_example =
    contains-new_v4 lan host 24 (omega arith, omega arith, omega arith, omega arith)
      (omega arith, omega arith, omega arith, omega arith) (omega arith) (omega arith)

check-IsPermitted_example :
    (check cautious (UOp.tcp_connect (record { ip = v4 host; port = 443 })) ≡ true)
    ↔ IsPermitted cautious (UOp.tcp_connect (record { ip = v4 host; port = 443 }))
check-IsPermitted_example =
    check-IsPermitted cautious (UOp.tcp_connect (record { ip = v4 host; port = 443 }))
      (omega arith, omega arith, omega arith, omega arith)

abbrev imports_ssl : IrProgram
imports_ssl = record { body = stmt_cons (IrStmt.import (codes "ssl") none) no_stmts }

abbrev parse_nothing_else : Text → Result ℕ IrProgram
parse_nothing_else code = ok imports_ssl

abbrev tls_only : PolicyEngine
tls_only = record {
  allowed_uops = UOpType.tls_handshake ∷ [];
  allowed_domains = [];
  allowed_paths = [];
  allowed_subnets = [];
}

check_clean_example : All (λ v. IsBypass v → ⊥) (walk_program record_visit imports_ssl [])
unfolding Analyzer.check analyze walk_program visit track_import module_uops one_of text_eq
    check_all check check_uop check_domain same_type uop_type
check_clean_example =
    check_clean parse_nothing_else (codes "import ssl") imports_ssl tls_only
      (UOp.tls_handshake (codes "any") ∷ []) refl (λ h. elim h [ inl e ↦ cc | inr e ↦ e ]) refl

parsed_prefix :
    allow_subnet Policy.new (codes "192.168.7.0/24")
    ≡ record Policy.new { allowed_subnets = new_v4 lan 24 ∷ [] }
unfolding allow_subnet parse_octets parse_octet split_once before parse_unsigned parse_digits
parsed_prefix = refl

-- an octet with a leading zero is none
leading_zero_refused : allow_subnet Policy.new (codes "192.168.07.0/24") ≡ Policy.new
unfolding allow_subnet parse_octets parse_octet split_once before parse_unsigned parse_digits
leading_zero_refused = refl
