-- ===== src/Cmdline/Stored.antt =====
-- What each part of `to_cmdline` does when it is parsed, in tinymachine-config/src/cmdline.rs.
use tinymachine.Common.{
  ℕ, ◌<◌, ◌^◌, ◌≡◌, refl, sym, ap, ◌∙◌, Bool, true, false, Option, none, some, List, ◌++◌, Text,
  codes, text_eq, Result, ok, ◌>>=◌,
}
use tinymachine.Cmdline.Lexer.{
  strip_prefix, split_once, before, trim, trim_start, trim_end, trim_before, is_whitespace,
}
use tinymachine.Cmdline.Config.{
  ConfigError, CmdlineConfig, valid, parameter, set_parameter, set, set_split, set_inner, set_token,
  set_tokens, parse_unsigned, parse_bool, override,
}
use tinymachine.Cmdline.Print.{print_unsigned, print_bool, quote_if_needed, part}
use tinymachine.Cmdline.Plain.{
  IsPlain, print_unsigned-IsPlain, parse_unsigned-print_unsigned, trim-plain, quote_if_needed-plain,
}

abbrev pub Each : {A : Type 0} → (A → Type 0) → Option A → Type 0
Each P none = Unit {0}
Each P (some a) = P a

module _ {A : Type 0} (print : A → Text) (prefix : Text)
    (put : CmdlineConfig → Option A → CmdlineConfig) where
  -- the token of a part sets its parameter
  set_tokens-part :
      (k : CmdlineConfig) (v : Option A) (rest : List Text) {r : Result ConfigError CmdlineConfig}
      → put k none ≡ k
      → Each (λ a. set_token k (prefix ++ print a) ≡ ok (put k (some a))) v
      → set_tokens (put k v) rest ≡ r
      → set_tokens k (part print prefix v ++ rest) ≡ r
  unfolding set_tokens part
  set_tokens-part k none rest skip h next = ap (λ d. set_tokens d rest) (sym skip) ∙ next
  set_tokens-part k (some a) rest skip h next = ap (λ r. r >>= λ d. set_tokens d rest) h ∙ next

text_stored :
    (k : CmdlineConfig) (prefix : Text) (put : CmdlineConfig → Option Text → CmdlineConfig)
    (v : Option Text)
    → ((t : Text) → set_token k (prefix ++ t) ≡ ok (put k (some (trim t))))
    → Each IsPlain v
    → Each (λ t. set_token k (prefix ++ quote_if_needed t) ≡ ok (put k (some t))) v
text_stored k prefix put none stores p = tt
text_stored k prefix put (some t) stores p =
    ap (λ u. set_token k (prefix ++ u)) (quote_if_needed-plain t p)
    ∙ stores t
    ∙ ap (λ u. ok (put k (some u))) (trim-plain t p)

number_read :
    (k : CmdlineConfig) (key : Text) (bound n : ℕ) (put : CmdlineConfig → Option ℕ → CmdlineConfig)
    → n < bound
    → (valid key (trim (print_unsigned n)) (parse_unsigned bound (trim (print_unsigned n))) >>= λ m.
        ok (put k (some m)))
      ≡ ok (put k (some n))
unfolding valid
number_read k key bound n put small = rw (
  trim-plain (print_unsigned n) (print_unsigned-IsPlain n),
  parse_unsigned-print_unsigned bound n small,
)

number_stored :
    (k : CmdlineConfig) (prefix key : Text) (bound : ℕ)
    (put : CmdlineConfig → Option ℕ → CmdlineConfig) (v : Option ℕ)
    → ((t : Text)
        → set_token k (prefix ++ t)
          ≡ (valid key (trim t) (parse_unsigned bound (trim t)) >>= λ n. ok (put k (some n))))
    → Each (λ n. n < bound) v
    → Each (λ n. set_token k (prefix ++ print_unsigned n) ≡ ok (put k (some n))) v
number_stored k prefix key bound put none stores p = tt
number_stored k prefix key bound put (some n) stores p =
    stores (print_unsigned n) ∙ number_read k key bound n put p

flag_stored :
    (k : CmdlineConfig) (prefix : Text) (put : CmdlineConfig → Option Bool → CmdlineConfig)
    (v : Option Bool)
    → set_token k (prefix ++ codes "true") ≡ ok (put k (some true))
    → set_token k (prefix ++ codes "false") ≡ ok (put k (some false))
    → Each (λ b. set_token k (prefix ++ print_bool b) ≡ ok (put k (some b))) v
flag_stored k prefix put none on off = tt
flag_stored k prefix put (some true) on off = on
flag_stored k prefix put (some false) on off = off

pub agent_id-part :
    (k : CmdlineConfig) (v : Option Text) (rest : List Text) {r : Result ConfigError CmdlineConfig}
    → Each IsPlain v
    → set_tokens (record k { agent_id = override k.agent_id v }) rest ≡ r
    → set_tokens k (part quote_if_needed (codes "tinymachine.agent_id=") v ++ rest) ≡ r
unfolding set_token set_inner set_split set set_parameter parameter strip_prefix split_once before
    trim trim_start trim_end trim_before is_whitespace text_eq override valid parse_bool
agent_id-part k v rest p next =
    set_tokens-part quote_if_needed (codes "tinymachine.agent_id=")
      (λ d w. record d { agent_id = override d.agent_id w }) k v rest refl
      (text_stored k (codes "tinymachine.agent_id=")
        (λ d w. record d { agent_id = override d.agent_id w }) v (λ t. refl) p)
      next

pub log_level-part :
    (k : CmdlineConfig) (v : Option Text) (rest : List Text) {r : Result ConfigError CmdlineConfig}
    → Each IsPlain v
    → set_tokens (record k { log_level = override k.log_level v }) rest ≡ r
    → set_tokens k (part quote_if_needed (codes "tinymachine.log_level=") v ++ rest) ≡ r
unfolding set_token set_inner set_split set set_parameter parameter strip_prefix split_once before
    trim trim_start trim_end trim_before is_whitespace text_eq override valid parse_bool
log_level-part k v rest p next =
    set_tokens-part quote_if_needed (codes "tinymachine.log_level=")
      (λ d w. record d { log_level = override d.log_level w }) k v rest refl
      (text_stored k (codes "tinymachine.log_level=")
        (λ d w. record d { log_level = override d.log_level w }) v (λ t. refl) p)
      next

pub orchestrator_addr-part :
    (k : CmdlineConfig) (v : Option Text) (rest : List Text) {r : Result ConfigError CmdlineConfig}
    → Each IsPlain v
    → set_tokens (record k { orchestrator_addr = override k.orchestrator_addr v }) rest ≡ r
    → set_tokens k (part quote_if_needed (codes "tinymachine.orchestrator_addr=") v ++ rest) ≡ r
unfolding set_token set_inner set_split set set_parameter parameter strip_prefix split_once before
    trim trim_start trim_end trim_before is_whitespace text_eq override valid parse_bool
orchestrator_addr-part k v rest p next =
    set_tokens-part quote_if_needed (codes "tinymachine.orchestrator_addr=")
      (λ d w. record d { orchestrator_addr = override d.orchestrator_addr w }) k v rest refl
      (text_stored k (codes "tinymachine.orchestrator_addr=")
        (λ d w. record d { orchestrator_addr = override d.orchestrator_addr w }) v (λ t. refl) p)
      next

pub default_tier-part :
    (k : CmdlineConfig) (v : Option Text) (rest : List Text) {r : Result ConfigError CmdlineConfig}
    → Each IsPlain v
    → set_tokens (record k { default_tier = override k.default_tier v }) rest ≡ r
    → set_tokens k (part quote_if_needed (codes "tinymachine.default_tier=") v ++ rest) ≡ r
unfolding set_token set_inner set_split set set_parameter parameter strip_prefix split_once before
    trim trim_start trim_end trim_before is_whitespace text_eq override valid parse_bool
default_tier-part k v rest p next =
    set_tokens-part quote_if_needed (codes "tinymachine.default_tier=")
      (λ d w. record d { default_tier = override d.default_tier w }) k v rest refl
      (text_stored k (codes "tinymachine.default_tier=")
        (λ d w. record d { default_tier = override d.default_tier w }) v (λ t. refl) p)
      next

pub proxy_addr-part :
    (k : CmdlineConfig) (v : Option Text) (rest : List Text) {r : Result ConfigError CmdlineConfig}
    → Each IsPlain v
    → set_tokens (record k { proxy_addr = override k.proxy_addr v }) rest ≡ r
    → set_tokens k (part quote_if_needed (codes "tinymachine.proxy_addr=") v ++ rest) ≡ r
unfolding set_token set_inner set_split set set_parameter parameter strip_prefix split_once before
    trim trim_start trim_end trim_before is_whitespace text_eq override valid parse_bool
proxy_addr-part k v rest p next =
    set_tokens-part quote_if_needed (codes "tinymachine.proxy_addr=")
      (λ d w. record d { proxy_addr = override d.proxy_addr w }) k v rest refl
      (text_stored k (codes "tinymachine.proxy_addr=")
        (λ d w. record d { proxy_addr = override d.proxy_addr w }) v (λ t. refl) p)
      next

pub max_forks-part :
    (k : CmdlineConfig) (v : Option ℕ) (rest : List Text) {r : Result ConfigError CmdlineConfig}
    → Each (λ n. n < 2 ^ 32) v
    → set_tokens (record k { max_forks = override k.max_forks v }) rest ≡ r
    → set_tokens k (part print_unsigned (codes "tinymachine.max_forks=") v ++ rest) ≡ r
unfolding set_token set_inner set_split set set_parameter parameter strip_prefix split_once before
    trim trim_start trim_end trim_before is_whitespace text_eq override valid parse_bool
max_forks-part k v rest p next =
    set_tokens-part print_unsigned (codes "tinymachine.max_forks=")
      (λ d w. record d { max_forks = override d.max_forks w }) k v rest refl
      (number_stored k (codes "tinymachine.max_forks=") (codes "max_forks") (2 ^ 32)
        (λ d w. record d { max_forks = override d.max_forks w }) v (λ t. refl) p)
      next

pub memory_limit_mb-part :
    (k : CmdlineConfig) (v : Option ℕ) (rest : List Text) {r : Result ConfigError CmdlineConfig}
    → Each (λ n. n < 2 ^ 64) v
    → set_tokens (record k { memory_limit_mb = override k.memory_limit_mb v }) rest ≡ r
    → set_tokens k (part print_unsigned (codes "tinymachine.memory_limit_mb=") v ++ rest) ≡ r
unfolding set_token set_inner set_split set set_parameter parameter strip_prefix split_once before
    trim trim_start trim_end trim_before is_whitespace text_eq override valid parse_bool
memory_limit_mb-part k v rest p next =
    set_tokens-part print_unsigned (codes "tinymachine.memory_limit_mb=")
      (λ d w. record d { memory_limit_mb = override d.memory_limit_mb w }) k v rest refl
      (number_stored k (codes "tinymachine.memory_limit_mb=") (codes "memory_limit_mb") (2 ^ 64)
        (λ d w. record d { memory_limit_mb = override d.memory_limit_mb w }) v (λ t. refl) p)
      next

pub cpu_cores-part :
    (k : CmdlineConfig) (v : Option ℕ) (rest : List Text) {r : Result ConfigError CmdlineConfig}
    → Each (λ n. n < 2 ^ 32) v
    → set_tokens (record k { cpu_cores = override k.cpu_cores v }) rest ≡ r
    → set_tokens k (part print_unsigned (codes "tinymachine.cpu_cores=") v ++ rest) ≡ r
unfolding set_token set_inner set_split set set_parameter parameter strip_prefix split_once before
    trim trim_start trim_end trim_before is_whitespace text_eq override valid parse_bool
cpu_cores-part k v rest p next =
    set_tokens-part print_unsigned (codes "tinymachine.cpu_cores=")
      (λ d w. record d { cpu_cores = override d.cpu_cores w }) k v rest refl
      (number_stored k (codes "tinymachine.cpu_cores=") (codes "cpu_cores") (2 ^ 32)
        (λ d w. record d { cpu_cores = override d.cpu_cores w }) v (λ t. refl) p)
      next

pub enable_network-part :
    (k : CmdlineConfig) (v : Option Bool) (rest : List Text) {r : Result ConfigError CmdlineConfig}
    → set_tokens (record k { enable_network = override k.enable_network v }) rest ≡ r
    → set_tokens k (part print_bool (codes "tinymachine.enable_network=") v ++ rest) ≡ r
unfolding set_token set_inner set_split set set_parameter parameter strip_prefix split_once before
    trim trim_start trim_end trim_before is_whitespace text_eq override valid parse_bool
enable_network-part k v rest next =
    set_tokens-part print_bool (codes "tinymachine.enable_network=")
      (λ d w. record d { enable_network = override d.enable_network w }) k v rest refl
      (flag_stored k (codes "tinymachine.enable_network=")
        (λ d w. record d { enable_network = override d.enable_network w }) v refl refl)
      next

pub enable_gpu-part :
    (k : CmdlineConfig) (v : Option Bool) (rest : List Text) {r : Result ConfigError CmdlineConfig}
    → set_tokens (record k { enable_gpu = override k.enable_gpu v }) rest ≡ r
    → set_tokens k (part print_bool (codes "tinymachine.enable_gpu=") v ++ rest) ≡ r
unfolding set_token set_inner set_split set set_parameter parameter strip_prefix split_once before
    trim trim_start trim_end trim_before is_whitespace text_eq override valid parse_bool
enable_gpu-part k v rest next =
    set_tokens-part print_bool (codes "tinymachine.enable_gpu=")
      (λ d w. record d { enable_gpu = override d.enable_gpu w }) k v rest refl
      (flag_stored k (codes "tinymachine.enable_gpu=")
        (λ d w. record d { enable_gpu = override d.enable_gpu w }) v refl refl)
      next
