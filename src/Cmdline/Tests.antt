-- ===== src/Cmdline/Tests.antt =====
-- The theorems about the command line at work on short ones.
use tinymachine.Common.{false, ok, arith, ◌≡◌, refl, some, ◌∷◌, ◌++◌, codes, ◌>>=◌}
use tinymachine.Cmdline.Lexer.{read_chars, read_char, flush, flush_current, is_whitespace}
use tinymachine.Cmdline.Closed.{IsClosed}
use tinymachine.Cmdline.Config.{CmdlineConfig, default, parse}
use tinymachine.Cmdline.Print.{to_cmdline}
use tinymachine.Cmdline.RoundTrip.{IsPrintable, read_back, parse-to_cmdline}
use tinymachine.Cmdline.Parts.{on_top, parse-append}

quoted-IsClosed : IsClosed (codes "acpi=off tinymachine.agent_id='a b'")
unfolding read_chars read_char flush flush_current is_whitespace
quoted-IsClosed = (refl, refl, refl)

parse-append_example :
    parse (codes "acpi=off tinymachine.agent_id='a b'" ++ 32 ∷ codes "tinymachine.max_forks=7 # y")
    ≡ (parse (codes "acpi=off tinymachine.agent_id='a b'") >>= λ c.
        on_top c (parse (codes "tinymachine.max_forks=7 # y")))
parse-append_example =
    parse-append (codes "acpi=off tinymachine.agent_id='a b'") (codes "tinymachine.max_forks=7 # y")
      quoted-IsClosed

abbrev named : CmdlineConfig
named = record default { agent_id = some (codes "a") }

abbrev sized : CmdlineConfig
sized = record default { agent_id = some (codes "b"); cpu_cores = some 2 }

abbrev printable : CmdlineConfig
printable = record default {
  agent_id = some (codes "a");
  log_level = some (codes "debug");
  max_forks = some 120;
  enable_gpu = some false;
}

printable-IsPrintable : IsPrintable printable
unfolding is_whitespace
printable-IsPrintable = record {
  agent_id = (refl, tt);
  log_level = (refl, (refl, (refl, (refl, (refl, tt)))));
  orchestrator_addr = tt;
  max_forks = omega arith;
  default_tier = tt;
  memory_limit_mb = tt;
  cpu_cores = tt;
  proxy_addr = tt;
}

parse-to_cmdline_example : parse (to_cmdline printable) ≡ ok (read_back printable)
parse-to_cmdline_example = parse-to_cmdline printable printable-IsPrintable
