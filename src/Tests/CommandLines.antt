-- ===== src/Tests/CommandLines.antt =====
-- Command lines: printed ones, and ones that the parser refuses.
use horseness.Common.{none, some, [], ◌∷◌, ok, err, ◌≡◌, refl}
use horseness.Common.Maps.{has, put}
use horseness.Common.Splitting.{split}
use horseness.Domain.Canonical.{text_beq, units}
use horseness.Cli.Parser.{
  human, json, value, CliCommandDefinition, unknown_option, parse_cli_invocation, take_all, take,
  take_option, at_equals, spelled, behind_words,
}
use horseness.Cli.Printing.{print, parse_cli_invocation-print}

parse_cli_invocation-print_example :
    parse_cli_invocation
      (print
        (units "task")
        ((units "run", units "r1") ∷ (units "at", units "noon") ∷ [])
        (units "--odd" ∷ []))
      none
    ≡ ok (record {
      command = units "task";
      args = units "--odd" ∷ [];
      options = (units "run", value (units "r1")) ∷ (units "at", value (units "noon")) ∷ [];
      output_mode = human;
    })
unfolding has text_beq
parse_cli_invocation-print_example =
    parse_cli_invocation-print (units "task")
      ((units "run", units "r1") ∷ (units "at", units "noon") ∷ []) (units "--odd" ∷ []) refl refl

abbrev listing : CliCommandDefinition
listing = record {
  name = units "task list";
  aliases = units "tasks" ∷ [];
  option_names = units "run" ∷ [];
}

two_words :
    parse_cli_invocation
      (units "task" ∷ units "--run" ∷ units "r1" ∷ units "list" ∷ units "--json" ∷ units "x" ∷ [])
      (some listing)
    ≡ ok (record {
      command = units "task list";
      args = units "x" ∷ [];
      options = (units "run", value (units "r1")) ∷ [];
      output_mode = json;
    })
unfolding parse_cli_invocation take_all take take_option at_equals spelled behind_words split has
    put text_beq
two_words = refl

unknown :
    parse_cli_invocation (units "task" ∷ units "--other=1" ∷ []) (some listing)
    ≡ err (record { code = unknown_option; command = units "task list" })
unfolding parse_cli_invocation take_all take take_option at_equals text_beq
unknown = refl
