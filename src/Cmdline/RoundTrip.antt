-- ===== src/Cmdline/RoundTrip.antt =====
-- What `parse` makes of `to_cmdline`, in tinymachine-config/src/cmdline.rs.
use tinymachine.Common.{
  ℕ, ◌<◌, ◌^◌, ◌≡◌, refl, ap, ◌∙◌, ◌&&◌, Bool, true, false, Option, none, some, List, [], ◌∷◌, ◌++◌,
  Text, codes, ok, arith,
}
use tinymachine.Cmdline.Lexer.{is_whitespace}
use tinymachine.Cmdline.Config.{CmdlineConfig, default, set_tokens, parse, override, merge}
use tinymachine.Cmdline.Print.{print_unsigned, print_bool, quote_if_needed, part, parts, to_cmdline}
use tinymachine.Cmdline.Plain.{
  is_plain, IsPlain, AreWords, print_unsigned-IsPlain, tokenize_cmdline-join, quote_if_needed-plain,
}
use tinymachine.Cmdline.Parts.{override-none}
use tinymachine.Cmdline.Stored.{
  Each, agent_id-part, log_level-part, orchestrator_addr-part, default_tier-part, proxy_addr-part,
  max_forks-part, memory_limit_mb-part, cpu_cores-part, enable_network-part, enable_gpu-part,
}

-- The texts have no white space, no quote and no #, and the integers fit their types.
pub record IsPrintable (c : CmdlineConfig) : Type 0 where
  pub agent_id : Each IsPlain c.agent_id
  pub log_level : Each IsPlain c.log_level
  pub orchestrator_addr : Each IsPlain c.orchestrator_addr
  pub max_forks : Each (λ n. n < 2 ^ 32) c.max_forks
  pub default_tier : Each IsPlain c.default_tier
  pub memory_limit_mb : Each (λ n. n < 2 ^ 64) c.memory_limit_mb
  pub cpu_cores : Each (λ n. n < 2 ^ 32) c.cpu_cores
  pub proxy_addr : Each IsPlain c.proxy_addr

all_plain : Text → Bool
all_plain [] = true
all_plain (c ∷ cs) = is_plain c && all_plain cs

IsPlain-append : (p t : Text) → all_plain p ≡ true → IsPlain t → IsPlain (p ++ t)
unfolding all_plain
IsPlain-append [] t h plain = plain
IsPlain-append (c ∷ p) t h plain = (ground arith, IsPlain-append p t (ground arith) plain)

AreWords-append : (xs ys : List Text) → AreWords xs → AreWords ys → AreWords (xs ++ ys)
AreWords-append [] ys h k = k
AreWords-append (x ∷ xs) ys (h, hs) k = (h, AreWords-append xs ys hs k)

all_word : Text → Bool
unfolding all_plain
all_word [] = false
all_word (c ∷ cs) = all_plain (c ∷ cs)

part-AreWords :
    {A : Type 0} (print : A → Text) (prefix : Text) (v : Option A)
    → all_word prefix ≡ true
    → Each (λ a. IsPlain (print a)) v
    → AreWords (part print prefix v)
unfolding part all_word
part-AreWords print prefix none h p = tt
part-AreWords print [] (some v) h p = absurd (ground arith)
part-AreWords print (c ∷ prefix) (some v) h p = (IsPlain-append (c ∷ prefix) (print v) h p, tt)

text :
    (prefix : Text) (v : Option Text)
    → all_word prefix ≡ true
    → Each IsPlain v
    → AreWords (part quote_if_needed prefix v)
text prefix none h p = part-AreWords quote_if_needed prefix none h tt
text prefix (some t) h p =
    part-AreWords quote_if_needed prefix (some t) h (rw (quote_if_needed-plain t p) p)

number :
    (prefix : Text) (v : Option ℕ)
    → all_word prefix ≡ true
    → AreWords (part print_unsigned prefix v)
number prefix none h = part-AreWords print_unsigned prefix none h tt
number prefix (some n) h = part-AreWords print_unsigned prefix (some n) h (print_unsigned-IsPlain n)

flag :
    (prefix : Text) (v : Option Bool) → all_word prefix ≡ true → AreWords (part print_bool prefix v)
unfolding is_whitespace all_plain
flag prefix none h = part-AreWords print_bool prefix none h tt
flag prefix (some true) h =
    part-AreWords print_bool prefix (some true) h (IsPlain-append (codes "true") [] refl tt)
flag prefix (some false) h =
    part-AreWords print_bool prefix (some false) h (IsPlain-append (codes "false") [] refl tt)

-- The configuration with the agent id that a log level replaces.
abbrev pub read_back : CmdlineConfig → CmdlineConfig
read_back c = record c { agent_id = override c.agent_id c.log_level }

parts-AreWords : (c : CmdlineConfig) → IsPrintable c → AreWords (parts c)
unfolding parts is_whitespace all_plain all_word
parts-AreWords c p =
    AreWords-append _ _ (text (codes "tinymachine.agent_id=") c.agent_id refl p.agent_id) (
      AreWords-append _ _ (text (codes "tinymachine.agent_id=") c.log_level refl p.log_level) (
        AreWords-append _ _ (text (codes "tinymachine.log_level=") c.log_level refl p.log_level) (
          AreWords-append _ _
            (text (codes "tinymachine.orchestrator_addr=") c.orchestrator_addr refl
              p.orchestrator_addr)
            (AreWords-append _ _ (number (codes "tinymachine.max_forks=") c.max_forks refl) (
              AreWords-append _ _
                (text (codes "tinymachine.default_tier=") c.default_tier refl p.default_tier)
                (AreWords-append _ _
                  (number (codes "tinymachine.memory_limit_mb=") c.memory_limit_mb refl)
                  (AreWords-append _ _ (number (codes "tinymachine.cpu_cores=") c.cpu_cores refl) (
                    AreWords-append _ _
                      (flag (codes "tinymachine.enable_network=") c.enable_network refl)
                      (AreWords-append _ _
                        (flag (codes "tinymachine.enable_gpu=") c.enable_gpu refl)
                        (AreWords-append _ _
                          (text (codes "tinymachine.proxy_addr=") c.proxy_addr refl p.proxy_addr)
                          tt))))))))))

merged_lem :
    (c : CmdlineConfig)
    → record (merge default c) { agent_id = override (override none c.agent_id) c.log_level }
      ≡ read_back c
unfolding merge
merged_lem c = simp override-none

set_tokens-parts :
    (c : CmdlineConfig) → IsPrintable c → set_tokens default (parts c) ≡ ok (read_back c)
unfolding parts set_tokens merge
set_tokens-parts c p = agent_id-part _ _ _ p.agent_id (
    agent_id-part _ _ _ p.log_level (
      log_level-part _ _ _ p.log_level (
        orchestrator_addr-part _ _ _ p.orchestrator_addr (
          max_forks-part _ _ _ p.max_forks (
            default_tier-part _ _ _ p.default_tier (
              memory_limit_mb-part _ _ _ p.memory_limit_mb (
                cpu_cores-part _ _ _ p.cpu_cores (
                  enable_network-part _ c.enable_network _ (
                    enable_gpu-part _ c.enable_gpu _
                      (proxy_addr-part _ _ [] p.proxy_addr (ap ok (merged_lem c))))))))))))

-- What `to_cmdline` writes of a configuration whose texts have no white space, quote or # and whose
-- integers fit their types, `parse` reads back, but for the agent id: the log level, where there is
-- one, replaces it.
pub parse-to_cmdline : (c : CmdlineConfig) → IsPrintable c → parse (to_cmdline c) ≡ ok (read_back c)
unfolding parse to_cmdline
parse-to_cmdline c p =
    ap (set_tokens default) (tokenize_cmdline-join (parts c) (parts-AreWords c p))
    ∙ set_tokens-parts c p
