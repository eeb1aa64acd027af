-- ===== src/Cmdline/Parts.antt =====
-- A command line in two parts: parsing of tinymachine-config/src/cmdline.rs.
use tinymachine.Common.{
  ◌≡◌, refl, ap, ◌∙◌, Option, none, some, List, [], ◌∷◌, ◌++◌, Text, Result, ok, err, ◌>>=◌,
}
use tinymachine.Cmdline.Lexer.{tokenize_cmdline}
use tinymachine.Cmdline.Config
use tinymachine.Cmdline.Config.{
  ConfigError, CmdlineConfig, default, Parameter, parameter, valid, set_parameter, set, set_split,
  set_inner, set_token, set_tokens, parse, override, merge,
}
use tinymachine.Cmdline.Closed.{IsClosed, tokenize_cmdline-append}

-- a result on top of a configuration
abbrev pub on_top :
    CmdlineConfig → Result ConfigError CmdlineConfig → Result ConfigError CmdlineConfig
on_top c (ok d) = ok (merge c d)
on_top c (err e) = err e

module _ (c d : CmdlineConfig) (key value : Text) where
  set_value-merge :
      {A : Type 0} (f : CmdlineConfig → A → CmdlineConfig) (read : Option A)
      → ((a : A) → f (merge c d) a ≡ merge c (f d a))
      → (valid key value read >>= λ a. ok (f (merge c d) a))
        ≡ on_top c (valid key value read >>= λ a. ok (f d a))
  unfolding valid
  set_value-merge f none h = refl
  set_value-merge f (some a) h = ap ok (h a)

  set_parameter-merge :
      (p : Parameter)
      → set_parameter (merge c d) p key value ≡ on_top c (set_parameter d p key value)
  unfolding set_parameter merge override
  set_parameter-merge Config.sets_agent_id = refl
  set_parameter-merge Config.sets_log_level = refl
  set_parameter-merge Config.sets_orchestrator_addr = refl
  set_parameter-merge Config.sets_max_forks =
      set_value-merge (λ k n. record k { max_forks = some n }) _ (λ _. refl)
  set_parameter-merge Config.sets_default_tier = refl
  set_parameter-merge Config.sets_memory_limit_mb =
      set_value-merge (λ k n. record k { memory_limit_mb = some n }) _ (λ _. refl)
  set_parameter-merge Config.sets_cpu_cores =
      set_value-merge (λ k n. record k { cpu_cores = some n }) _ (λ _. refl)
  set_parameter-merge Config.sets_enable_network =
      set_value-merge (λ k b. record k { enable_network = some b }) _ (λ _. refl)
  set_parameter-merge Config.sets_enable_gpu =
      set_value-merge (λ k b. record k { enable_gpu = some b }) _ (λ _. refl)
  set_parameter-merge Config.sets_proxy_addr = refl
  set_parameter-merge Config.sets_nothing = refl

set_split-merge :
    (c d : CmdlineConfig) (split : Option (Text × Text))
    → set_split (merge c d) split ≡ on_top c (set_split d split)
unfolding set_split set
set_split-merge c d none = refl
set_split-merge c d (some (key, value)) = set_parameter-merge c d _ _ (parameter _)

set_inner-merge :
    (c d : CmdlineConfig) (inner : Option Text)
    → set_inner (merge c d) inner ≡ on_top c (set_inner d inner)
unfolding set_inner
set_inner-merge c d none = refl
set_inner-merge c d (some inner) = set_split-merge c d _

set_tokens-bind :
    (c : CmdlineConfig) (tokens : List Text) (r : Result ConfigError CmdlineConfig)
    → ((d : CmdlineConfig) → set_tokens (merge c d) tokens ≡ on_top c (set_tokens d tokens))
    → (on_top c r >>= λ d. set_tokens d tokens) ≡ on_top c (r >>= λ d. set_tokens d tokens)
set_tokens-bind c tokens (ok d) h = h d
set_tokens-bind c tokens (err e) h = refl

set_tokens-merge :
    (c d : CmdlineConfig) (tokens : List Text)
    → set_tokens (merge c d) tokens ≡ on_top c (set_tokens d tokens)
unfolding set_tokens set_token
set_tokens-merge c d [] = refl
set_tokens-merge c d (token ∷ tokens) =
    ap (λ r. r >>= λ k. set_tokens k tokens) (set_inner-merge c d _)
    ∙ set_tokens-bind c tokens _ (λ k. set_tokens-merge c k tokens)

bind_assoc :
    {A B C : Type 0} (r : Result ConfigError A) (f : A → Result ConfigError B)
    (g : B → Result ConfigError C)
    → (r >>= λ a. f a >>= g) ≡ (r >>= f >>= g)
bind_assoc (ok a) f g = refl
bind_assoc (err e) f g = refl

bind-ext :
    {A B : Type 0} (r : Result ConfigError A) (f g : A → Result ConfigError B)
    → ((a : A) → f a ≡ g a)
    → (r >>= f) ≡ (r >>= g)
bind-ext (ok a) f g h = h a
bind-ext (err e) f g h = refl

set_tokens-append :
    (c : CmdlineConfig) (xs ys : List Text)
    → set_tokens c (xs ++ ys) ≡ (set_tokens c xs >>= λ d. set_tokens d ys)
unfolding set_tokens
set_tokens-append c [] ys = refl
set_tokens-append c (x ∷ xs) ys =
    bind-ext (set_token c x) (λ d. set_tokens d (xs ++ ys))
      (λ d. set_tokens d xs >>= λ k. set_tokens k ys) (λ d. set_tokens-append d xs ys)
    ∙ bind_assoc (set_token c x) _ _

-- Parsing a command line in two parts, the first of which leaves no quote and no comment open, is
-- parsing each and merging the second configuration into the first; it fails where either does.
pub parse-append :
    (x y : Text) → IsClosed x → parse (x ++ 32 ∷ y) ≡ (parse x >>= λ c. on_top c (parse y))
unfolding parse merge override
parse-append x y closed =
    ap (set_tokens default) (tokenize_cmdline-append x y closed)
    ∙ set_tokens-append default (tokenize_cmdline x) (tokenize_cmdline y)
    ∙ bind-ext (set_tokens default (tokenize_cmdline x)) _ _
        (λ d. set_tokens-merge d default (tokenize_cmdline y))

override_assoc :
    {A : Type 0} (a b c : Option A) → override (override a b) c ≡ override a (override b c)
unfolding override
override_assoc a b none = refl
override_assoc a b (some c) = refl

pub override-none : {A : Type 0} (a : Option A) → override none a ≡ a
unfolding override
override-none none = refl
override-none (some a) = refl

-- Merging is associative, and the default configuration is neutral on both sides.
merge_monoid :
    (a b c : CmdlineConfig)
    → (merge (merge a b) c ≡ merge a (merge b c)) × (merge default a ≡ a) × (merge a default ≡ a)
unfolding merge
merge_monoid a b c = (simp override_assoc, simp override-none, refl)
