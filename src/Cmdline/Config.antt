-- ===== src/Cmdline/Config.antt =====
-- `CmdlineConfig` of tinymachine-config/src/cmdline.rs: parsing and merging. An integer of the source is a
-- natural number with its bound tested. A validation error stands for its message by the key and the
-- value that the message names.
use tinymachine.Common.{
  ℕ, ◌+◌, ◌-◌, ◌*◌, ◌^◌, Bool, true, false, ◌||◌, ◌&&◌, Option, none, some, List, [], ◌∷◌, ltb, leb,
  ◌==◌, if◌then◌else◌, Text, codes, text_eq, Result, ok, err, map, ◌>>=◌,
}
use tinymachine.Cmdline.Lexer.{strip_prefix, split_once, trim, tokenize_cmdline}

pub data ConfigError : Type 0 where
  validation : (key value : Text) → ConfigError

pub record CmdlineConfig : Type 0 where
  pub agent_id : Option Text
  pub log_level : Option Text
  pub orchestrator_addr : Option Text
  pub max_forks : Option ℕ
  pub default_tier : Option Text
  pub memory_limit_mb : Option ℕ
  pub cpu_cores : Option ℕ
  pub enable_network : Option Bool
  pub enable_gpu : Option Bool
  pub proxy_addr : Option Text

abbrev pub default : CmdlineConfig
default = record {
  agent_id = none;
  log_level = none;
  orchestrator_addr = none;
  max_forks = none;
  default_tier = none;
  memory_limit_mb = none;
  cpu_cores = none;
  enable_network = none;
  enable_gpu = none;
  proxy_addr = none;
}

abbrev digit : ℕ → Option ℕ
digit c = if leb 48 c && leb c 57 then some (c - 48) else none

-- the digits that are left, with what those before them make
unfoldable pub parse_digits : ℕ → ℕ → Text → Option ℕ
parse_digits bound n [] = some n
parse_digits bound n (c ∷ cs) =
    let rest = parse_digits bound (n * 10 + (c - 48)) cs in
    if leb 48 c && leb c 57 && ltb (n * 10 + (c - 48)) bound then rest else none

-- `str::parse` for an unsigned integer below `bound`: an optional sign +, then decimal digits
unfoldable pub parse_unsigned : ℕ → Text → Option ℕ
unfolding parse_digits
parse_unsigned bound [] = none
parse_unsigned bound (c ∷ []) = parse_digits bound 0 (c ∷ [])
parse_unsigned bound (c ∷ d ∷ ds) =
    if c == 43 then parse_digits bound 0 (d ∷ ds) else parse_digits bound 0 (c ∷ d ∷ ds)

-- `str::to_lowercase`, of the letters that can become one of the words tested below
abbrev lowercase : ℕ → ℕ
lowercase c = if leb 65 c && leb c 90 then c + 32 else c

unfoldable pub parse_bool : Text → Option Bool
parse_bool value =
    let word = map lowercase value in
    if text_eq word (codes "true") || text_eq word (codes "1") || text_eq word (codes "yes")
    then some true
    else if text_eq word (codes "false") || text_eq word (codes "0") || text_eq word (codes "no")
    then some false
    else none

-- the arms of the `match key` in `set`
pub data Parameter : Type 0 where
  sets_agent_id sets_log_level sets_orchestrator_addr sets_max_forks sets_default_tier : Parameter
  sets_memory_limit_mb sets_cpu_cores sets_enable_network sets_enable_gpu sets_proxy_addr :
      Parameter
  sets_nothing : Parameter

unfoldable pub parameter : Text → Parameter
parameter key =
    if text_eq key (codes "agent_id")
    then sets_agent_id
    else if text_eq key (codes "log_level")
    then sets_log_level
    else if text_eq key (codes "orchestrator_addr")
    then sets_orchestrator_addr
    else if text_eq key (codes "max_forks")
    then sets_max_forks
    else if text_eq key (codes "default_tier")
    then sets_default_tier
    else if text_eq key (codes "memory_limit_mb")
    then sets_memory_limit_mb
    else if text_eq key (codes "cpu_cores")
    then sets_cpu_cores
    else if text_eq key (codes "enable_network")
    then sets_enable_network
    else if text_eq key (codes "enable_gpu")
    then sets_enable_gpu
    else if text_eq key (codes "proxy_addr")
    then sets_proxy_addr
    else sets_nothing

-- `map_err`
unfoldable pub valid : {A : Type 0} → Text → Text → Option A → Result ConfigError A
valid key value none = err (validation key value)
valid key value (some a) = ok a

unfoldable pub set_parameter :
    CmdlineConfig → Parameter → Text → Text → Result ConfigError CmdlineConfig
unfolding valid
set_parameter c sets_agent_id key value = ok (record c { agent_id = some value })
set_parameter c sets_log_level key value = ok (record c { log_level = some value })
set_parameter c sets_orchestrator_addr key value = ok (record c { orchestrator_addr = some value })
set_parameter c sets_max_forks key value = do
  n ← valid key value (parse_unsigned (2 ^ 32) value)
  ok (record c { max_forks = some n })
set_parameter c sets_default_tier key value = ok (record c { default_tier = some value })
set_parameter c sets_memory_limit_mb key value = do
  n ← valid key value (parse_unsigned (2 ^ 64) value)
  ok (record c { memory_limit_mb = some n })
set_parameter c sets_cpu_cores key value = do
  n ← valid key value (parse_unsigned (2 ^ 32) value)
  ok (record c { cpu_cores = some n })
set_parameter c sets_enable_network key value = do
  b ← valid key value (parse_bool value)
  ok (record c { enable_network = some b })
set_parameter c sets_enable_gpu key value = do
  b ← valid key value (parse_bool value)
  ok (record c { enable_gpu = some b })
set_parameter c sets_proxy_addr key value = ok (record c { proxy_addr = some value })
set_parameter c sets_nothing key value = ok c

unfoldable pub set : CmdlineConfig → Text → Text → Result ConfigError CmdlineConfig
unfolding set_parameter
set c key value = set_parameter c (parameter key) key value

unfoldable pub set_split : CmdlineConfig → Option (Text × Text) → Result ConfigError CmdlineConfig
unfolding set
set_split c none = ok c
set_split c (some (key, value)) = set c (trim key) (trim value)

-- what is left of a token once the prefix is off
unfoldable pub set_inner : CmdlineConfig → Option Text → Result ConfigError CmdlineConfig
unfolding set_split
set_inner c none = ok c
set_inner c (some inner) = set_split c (split_once 61 inner)

-- One turn of the loop of `parse`. A token that starts with # does not start with the prefix.
unfoldable pub set_token : CmdlineConfig → Text → Result ConfigError CmdlineConfig
unfolding set_inner
set_token c token = set_inner c (strip_prefix (codes "tinymachine.") token)

unfoldable pub set_tokens : CmdlineConfig → List Text → Result ConfigError CmdlineConfig
unfolding set_token
set_tokens c [] = ok c
set_tokens c (token ∷ tokens) = do c' ← set_token c token; set_tokens c' tokens

unfoldable pub parse : Text → Result ConfigError CmdlineConfig
unfolding set_tokens tokenize_cmdline
parse cmdline = set_tokens default (tokenize_cmdline cmdline)

-- `if let Some(v) = other.field { self.field = Some(v); }`
unfoldable pub override : {A : Type 0} → Option A → Option A → Option A
override kept none = kept
override kept (some v) = some v

unfoldable pub merge : CmdlineConfig → CmdlineConfig → CmdlineConfig
unfolding override
merge c other = record {
  agent_id = override c.agent_id other.agent_id;
  log_level = override c.log_level other.log_level;
  orchestrator_addr = override c.orchestrator_addr other.orchestrator_addr;
  max_forks = override c.max_forks other.max_forks;
  default_tier = override c.default_tier other.default_tier;
  memory_limit_mb = override c.memory_limit_mb other.memory_limit_mb;
  cpu_cores = override c.cpu_cores other.cpu_cores;
  enable_network = override c.enable_network other.enable_network;
  enable_gpu = override c.enable_gpu other.enable_gpu;
  proxy_addr = override c.proxy_addr other.proxy_addr;
}
