-- ===== src/Tests/Tools.antt =====
-- The command line client and the statistics pages at concrete inputs.
use pushd.Prelude.{ℕ, ◌≡◌, ◌≢◌, ◌↔◌, refl, Option, none, List, [], ◌∷◌, ◌++◌, done, panic}
use pushd.Text.{codes, same}
use pushd.Tests.Memory.{here}
use pushd.Cli.{new_command_line, Round, run, trim_newlines}
use pushd.Cli.Lines.{commands, run-commands}
use pushd.Stats.{Runtime, http_404, handle_http_query}
use pushd.Stats.Pages.{handle_http_query_lem}

-- three lines, while a message arrives, and a fourth after `quit`
abbrev typed : List Round
typed =
    record { arrivals = []; line = codes "gettoken" ++ 10 ∷ []; problem = none }
    ∷ record {
      arrivals = record { res = codes "TOKEN a"; error = none } ∷ [];
      line = [];
      problem = none;
    }
    ∷ record { arrivals = []; line = codes "quit"; problem = none }
    ∷ record { arrivals = []; line = codes "ping"; problem = none }
    ∷ []

run-commands_example :
    ((run typed new_command_line).0 ≡ done tt)
    × ((run typed new_command_line).1.written ≡ commands typed)
    × ((run typed new_command_line).1.history ≡ commands typed)
unfolding same
run-commands_example = run-commands typed (tt, (((refl, refl), tt), (tt, (tt, tt))))

commands-typed : commands typed ≡ codes "gettoken" ∷ []
unfolding commands same trim_newlines
commands-typed = refl

abbrev no_proxy : Option ℕ
no_proxy = none

abbrev idle : Runtime
idle = record {
  stack = codes "goroutine 1";
  goroutines = 9;
  mem_stats = [];
  rusage = [];
  version = codes "1";
  build_id = codes "2";
}

handle_http_query_lem_example :
    ((handle_http_query here.conf idle 0 no_proxy (codes "stat") ≡ panic)
      ↔ ((no_proxy ≡ none) × (codes "stat" ≡ codes "stat")))
    × ((handle_http_query here.conf idle 0 no_proxy (codes "stat") ≡ done http_404) ↔ (
        (codes "stat" ≢ codes "ping")
        × (codes "stat" ≢ codes "trace")
        × (codes "stat" ≢ codes "sys")
        × (codes "stat" ≢ codes "stat")))
handle_http_query_lem_example = handle_http_query_lem here.conf idle 0 no_proxy (codes "stat")
