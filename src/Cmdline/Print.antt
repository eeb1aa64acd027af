-- ===== src/Cmdline/Print.antt =====
-- `to_cmdline` of tinymachine-config/src/cmdline.rs: a configuration as a command line.
use tinymachine.Common.{
  ℕ, zero, suc, ◌+◌, ◌/◌, ◌%◌, Bool, true, false, ◌||◌, Option, none, some, List, [], ◌∷◌, ◌++◌,
  ltb, ◌==◌, if◌then◌else◌, Text, codes,
}
use tinymachine.Cmdline.Lexer.{is_whitespace}
use tinymachine.Cmdline.Config.{CmdlineConfig}

-- The decimal digits of `n` before the text given, for fuel of at least `n`.
unfoldable pub digits : ℕ → ℕ → Text → Text
digits zero n rest = (48 + n) ∷ rest
digits (suc fuel) n rest =
    let more = digits fuel (n / 10) ((48 + n % 10) ∷ rest) in
    if ltb n 10 then (48 + n) ∷ rest else more

-- `{v}` of an unsigned integer and of a Boolean
unfoldable pub print_unsigned : ℕ → Text
unfolding digits
print_unsigned n = digits n n []

abbrev pub print_bool : Bool → Text
print_bool true = codes "true"
print_bool false = codes "false"

unfoldable pub needs_quotes : Text → Bool
needs_quotes [] = false
needs_quotes (c ∷ cs) = is_whitespace c || c == 34 || c == 39 || needs_quotes cs

-- `value.replace('"', "\\\"")`; 92 is the backslash
escape : Text → Text
escape [] = []
escape (c ∷ cs) = let rest = escape cs in if c == 34 then 92 ∷ 34 ∷ rest else c ∷ rest

unfoldable pub quote_if_needed : Text → Text
unfolding needs_quotes escape
quote_if_needed value = if needs_quotes value then 34 ∷ (escape value ++ 34 ∷ []) else value

-- `if let Some(v) = field { parts.push(format!("tinymachine.field={}", …)) }`
unfoldable pub part : {A : Type 0} → (A → Text) → Text → Option A → List Text
part print prefix none = []
part print prefix (some v) = (prefix ++ print v) ∷ []

unfoldable pub parts : CmdlineConfig → List Text
unfolding part
parts c =
    part quote_if_needed (codes "tinymachine.agent_id=") c.agent_id
    ++ (part quote_if_needed (codes "tinymachine.agent_id=") c.log_level
        ++ (part quote_if_needed (codes "tinymachine.log_level=") c.log_level
            ++ (part quote_if_needed (codes "tinymachine.orchestrator_addr=") c.orchestrator_addr
                ++ (part print_unsigned (codes "tinymachine.max_forks=") c.max_forks
                    ++ (part quote_if_needed (codes "tinymachine.default_tier=") c.default_tier
                        ++ (part print_unsigned (codes "tinymachine.memory_limit_mb=")
                              c.memory_limit_mb
                            ++ (part print_unsigned (codes "tinymachine.cpu_cores=") c.cpu_cores
                                ++ (part print_bool (codes "tinymachine.enable_network=")
                                      c.enable_network
                                    ++ (part print_bool (codes "tinymachine.enable_gpu=")
                                          c.enable_gpu
                                        ++ (part quote_if_needed (codes "tinymachine.proxy_addr=")
                                              c.proxy_addr
                                            ++ []))))))))))

-- `parts.join(" ")`
unfoldable pub join : List Text → Text
join [] = []
join (t ∷ []) = t
join (t ∷ u ∷ ts) = t ++ 32 ∷ join (u ∷ ts)

unfoldable pub to_cmdline : CmdlineConfig → Text
unfolding join parts
to_cmdline c = join (parts c)
