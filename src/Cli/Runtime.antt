-- ===== src/Cli/Runtime.antt =====
-- apps/cli/src/runtime.ts: from the arguments of the process to the command that is executed.
use horseness.Common.{
  ℕ, zero, suc, Option, none, some, List, [], ◌∷◌, ◌++◌, length, Bool, true, false, not, ◌&&◌, ◌||◌,
  any, Result, ok, err, if◌then◌else◌,
}
use horseness.Common.Maps.{get, values}
use horseness.Common.Splitting.{has_prefix}
use horseness.Domain.Canonical.{Text, text_beq, text_eq}
use horseness.Cli.Parser.{
  CliInvocation, CliCommandDefinition, CliParseCode, invalid_invocation, unknown_command,
  CliParseError, help, is_empty, is_help, parse_cli_invocation,
}
use horseness.Cli.Registry.{CliCommandRegistry, resolve_command}

-- What `runCliV1` does with an invocation: it writes a failure of a command, or the help of a target, or
-- it executes a command.
pub data CliRun : Type 0 where
  fails_as : Text → CliParseCode → CliRun
  helps : Text → CliRun
  executes : CliCommandDefinition → CliInvocation → CliRun

-- `join(" ")`
abbrev pub join_words : List Text → Text
join_words [] = []
join_words (w ∷ []) = w
join_words (w ∷ v ∷ ws) = w ++ 32 ∷ join_words (v ∷ ws)

-- `slice(0, length)`
abbrev pub first_words : ℕ → List Text → List Text
first_words zero ws = []
first_words (suc n) [] = []
first_words (suc n) (w ∷ ws) = w ∷ first_words n ws

-- The definition of the most words, at most as many as given.
unfoldable pub definition_of : CliCommandRegistry → List Text → ℕ → Option CliCommandDefinition
definition_of r words zero = none
definition_of r words (suc n) =
    let shorter : Option CliCommandDefinition = definition_of r words n in
    elim (resolve_command (join_words (first_words (suc n) words)) r) [
      | some d ↦ some d
      | none ↦ shorter
    ]

-- Whether there are commands below a target.
unfoldable pub is_group : CliCommandRegistry → Text → Bool
is_group r target = any (λ d. has_prefix (target ++ 32 ∷ []) d.name) (values r.definitions)

abbrev pub help_target : CliInvocation → Option CliCommandDefinition → Text
help_target initial definition =
    if text_beq initial.command help
    then join_words initial.args
    else elim definition [ some d ↦ d.name | none ↦ join_words (initial.command ∷ initial.args) ]

abbrev pub is_missing : Option CliCommandDefinition → Bool
is_missing none = true
is_missing (some d) = false

-- `initial.options.all === true`, `initial.options.help === true`
abbrev pub asks_help : CliInvocation → Bool
asks_help initial = text_beq initial.command help || is_help (get help initial.options)

abbrev pub without_args : CliCommandDefinition → Result CliParseError CliInvocation → CliRun
without_args d (err e) = fails_as d.name e.code
without_args d (ok invocation) = elim invocation.args [
  | [] ↦ executes d (record invocation { command = d.name })
  | a ∷ rest ↦ fails_as d.name invalid_invocation
]

-- The help of a target, which is a command, a group of commands, or all of it.
unfoldable pub write_help : CliCommandRegistry → Text → CliRun
unfolding is_group
write_help r target =
    if not (is_empty target) && is_missing (resolve_command target r) && not (is_group r target)
    then fails_as target unknown_command
    else helps target

-- What is done once the command is looked up.
unfoldable pub run_initial :
    CliCommandRegistry → List Text → CliInvocation → Option CliCommandDefinition → CliRun
unfolding is_group write_help
run_initial r argv initial definition =
    let target : Text = help_target initial definition in
    if asks_help initial || is_missing definition && is_group r target
    then write_help r target
    else elim definition [
      | none ↦ fails_as initial.command unknown_command
      | some d ↦ without_args d (parse_cli_invocation argv (some d))
    ]

unfoldable pub run_parsed :
    CliCommandRegistry → List Text → Result CliParseError CliInvocation → CliRun
unfolding definition_of run_initial
run_parsed r argv (err e) = fails_as e.command invalid_invocation
run_parsed r argv (ok initial) =
    let words : List Text = initial.command ∷ initial.args in
    run_initial r argv initial (definition_of r words (length words))

unfoldable pub run_cli : CliCommandRegistry → List Text → CliRun
unfolding run_parsed
run_cli r argv = run_parsed r argv (parse_cli_invocation argv none)

-- What `execute` returns, if it does not throw: whether the command went well, and its exit code.
pub record CliResult : Type 0 where
  pub is_ok : Bool
  pub exit_code : Option ℕ

abbrev exit_code_of : Option CliResult → ℕ
exit_code_of none = 1
exit_code_of (some result) = elim result.exit_code [
  | some code ↦ code
  | none ↦ if result.is_ok then 0 else 1
]

-- What `runCliV1` returns.
unfoldable pub exit_of : (CliCommandDefinition → CliInvocation → Option CliResult) → CliRun → ℕ
exit_of execute (fails_as command code) = 2
exit_of execute (helps target) = 0
exit_of execute (executes d invocation) = exit_code_of (execute d invocation)
