-- ===== src/Tests/Commands.antt =====
-- Commands: a registry, what is executed by it, and a call that is printed.
use horseness.Common.{ℕ, none, some, List, [], ◌∷◌, map, leb, ok, true, ◌≡◌, ◌↔◌, refl}
use horseness.Common.Maps.{get, put, has}
use horseness.Common.Splitting.{split}
use horseness.Domain.Canonical.{Text, text_beq, text_eq, units}
use horseness.Cli.Parser.{
  human, json, value, CliInvocation, CliCommandDefinition, parse_cli_invocation, take_all, take,
  take_option, at_equals, behind_words,
}
use horseness.Cli.Parser
use horseness.Cli.Printing.{valued, print}
use horseness.Cli.Registry.{
  register, register_all, resolve_command, empty, spells, is_command_name, find_duplicate, put_all,
  register_all-resolve_command,
}
use horseness.Cli.Runtime.{
  executes, run_cli, run_parsed, run_initial, write_help, definition_of, is_group,
}
use horseness.Cli.Executed.{Executed, run_cli-executes}
use horseness.Cli.Coordinator.{required, Numerals, CoordinatorCall, coordinator_call}
use horseness.Cli.Calls.{Writer, options_of, coordinator_call-print}

abbrev listing : CliCommandDefinition
listing = record {
  name = units "task list";
  aliases = units "tasks" ∷ [];
  option_names = units "run" ∷ [];
}

abbrev task : CliCommandDefinition
task = record { name = units "task"; aliases = []; option_names = [] }

-- A second command that is spelled `tasks` is refused.
abbrev tasks : CliCommandDefinition
tasks = record { name = units "tasks"; aliases = []; option_names = [] }

abbrev known : List CliCommandDefinition
known = task ∷ listing ∷ tasks ∷ []

register_all-resolve_command_example :
    (resolve_command (units "tasks") (register_all known empty) ≡ some listing) ↔ (
      (get (units "task list") (register_all known empty).definitions ≡ some listing)
      × (spells listing (units "tasks") ≡ true))
register_all-resolve_command_example = register_all-resolve_command known (units "tasks") listing

tasks_resolved : resolve_command (units "tasks") (register_all known empty) ≡ some listing
unfolding resolve_command register_all register is_command_name find_duplicate put_all split get put
    has text_beq
tasks_resolved = refl

abbrev argv : List Text
argv = units "task" ∷ units "list" ∷ units "--run=r1" ∷ []

abbrev listed : CliInvocation
listed = record {
  command = units "task list";
  args = [];
  options = (units "run", value (units "r1")) ∷ [];
  output_mode = human;
}

run_cli-executes_example :
    (run_cli (register_all known empty) argv ≡ executes listing listed)
    ↔ Executed (register_all known empty) argv listing listed
run_cli-executes_example = run_cli-executes (register_all known empty) argv listing listed

listing_executed : run_cli (register_all known empty) argv ≡ executes listing listed
unfolding run_cli run_parsed run_initial write_help definition_of is_group parse_cli_invocation
    take_all take take_option at_equals behind_words horseness.Cli.Parser.spelled resolve_command
    register_all register is_command_name find_duplicate put_all split get put has text_beq
listing_executed = refl

-- A value is written behind a quotation mark, a number as one unit.
abbrev numerals : Numerals Text ℕ
numerals = record {
  parse = λ t. elim t [ [] ↦ none | c ∷ rest ↦ some rest ];
  number = λ t. elim t [ [] ↦ 0 | c ∷ rest ↦ c ];
  is_count = λ n. leb n 9007199254740991;
}

abbrev writer : Writer numerals
writer = record {
  encode = λ t. 34 ∷ t;
  digits = λ n. n ∷ [];
  encode_is_filled = λ t. refl;
  digits_is_filled = λ n. refl;
  parse_encode = λ t. refl;
  number_digits = λ n h. refl;
}

abbrev call : CoordinatorCall Text ℕ
call = record {
  observation_cursor = units "c";
  workspace_id = units "w1";
  input = units "i";
  run_id = some (units "r1");
  task_id = none;
  attempt_id = none;
  generation = some 2;
  proposal_id = none;
  adapter_id = none;
  idempotency_key = some (units "k");
  resume = none;
}

coordinator_call-print_example :
    (parse_cli_invocation (print (units "task-create") (options_of numerals writer call) []) none
      ≡ ok (record {
        command = units "task-create";
        args = [];
        options = map valued (options_of numerals writer call);
        output_mode = human;
      }))
    × (coordinator_call numerals required (map valued (options_of numerals writer call)) ≡ ok call)
unfolding text_beq
coordinator_call-print_example =
    coordinator_call-print numerals writer required (units "task-create") call [] refl refl
