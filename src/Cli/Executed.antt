-- ===== src/Cli/Executed.antt =====
-- apps/cli/src/runtime.ts: which command is executed, and with which invocation.
use horseness.Common.{
  ℕ, zero, suc, ◌<◌, ◌≤◌, Option, none, some, List, [], ◌∷◌, length, Bool, true, false, ◌||◌, ◌==◌,
  ==_iff, Result, ok, err, if◌then◌else◌, ◌≡◌, ◌↔◌, refl, sym, ap, ◌∙◌, inl, inr, Bool-cases,
  Option-cases, Result-cases, arith,
}
use horseness.Domain.Canonical.{Text, text_eq}
use horseness.Cli.Parser.{
  CliInvocation, CliCommandDefinition, CliParseError, invalid_invocation, parse_cli_invocation,
}
use horseness.Cli.Registry.{CliCommandRegistry, resolve_command}
use horseness.Cli.Runtime.{
  CliRun, fails_as, executes, join_words, first_words, definition_of, asks_help, help_target,
  without_args, write_help, run_initial, run_parsed, run_cli,
}

-- A definition is that of the first `k` words, and of no more words up to `n` there is one.
pub record Longest (r : CliCommandRegistry) (words : List Text) (n : ℕ) (d : CliCommandDefinition)
    : Type 0 where
  pub k : ℕ
  pub not_empty : 0 < k
  pub spelled : resolve_command (join_words (first_words k words)) r ≡ some d
  pub within : k ≤ n
  pub longest :
      (j : ℕ) → k < j → j ≤ n → resolve_command (join_words (first_words j words)) r ≡ none

definition_of-Longest :
    (r : CliCommandRegistry) (words : List Text) (n : ℕ) (d : CliCommandDefinition)
    → definition_of r words n ≡ some d
    → Longest r words n d
unfolding definition_of
definition_of-Longest r words zero d h = cc
definition_of-Longest r words (suc n) d h =
    elim (Option-cases (resolve_command (join_words (first_words (suc n) words)) r)) [
      | inr (e, here) ↦ record {
        k = suc n;
        not_empty = omega arith;
        spelled =
            here
            ∙ sym (ap (λ o. elim o [ some f ↦ some f | none ↦ definition_of r words n ]) here)
            ∙ h;
        within = omega arith;
        longest = λ j a b. absurd (omega arith);
      }
      | inl here ↦
          let old : Longest r words n d = definition_of-Longest r words n d (
            sym (ap (λ o. elim o [ some f ↦ some f | none ↦ definition_of r words n ]) here) ∙ h) in
          record {
            k = old.k;
            not_empty = old.not_empty;
            spelled = old.spelled;
            within = omega (arith, old.within);
            longest = λ j a b. elim (Bool-cases (j == suc n)) [
              | inl last ↦
                  ap (λ m. resolve_command (join_words (first_words m words)) r)
                    ((==_iff j (suc n)).0 last)
                  ∙ here
              | inr before ↦ old.longest j a (ground arith)
            ];
          }
    ]

Longest-definition_of :
    (r : CliCommandRegistry) (words : List Text) (n : ℕ) (d : CliCommandDefinition)
    → Longest r words n d
    → definition_of r words n ≡ some d
unfolding definition_of
Longest-definition_of r words zero d l = absurd (omega (arith, l.not_empty, l.within))
Longest-definition_of r words (suc n) d l = elim (Bool-cases (l.k == suc n)) [
  | inl last ↦
      let here : resolve_command (join_words (first_words (suc n) words)) r ≡ some d =
        sym (
          ap (λ m. resolve_command (join_words (first_words m words)) r)
            ((==_iff l.k (suc n)).0 last))
        ∙ l.spelled in
      ap (λ o. elim o [ some f ↦ some f | none ↦ definition_of r words n ]) here
  | inr before ↦
      let shorter : l.k < suc n = ground (arith, l.within) in
      ap (λ o. elim o [ some f ↦ some f | none ↦ definition_of r words n ])
        (l.longest (suc n) shorter (omega arith))
      ∙ Longest-definition_of r words n d (record {
        k = l.k;
        not_empty = l.not_empty;
        spelled = l.spelled;
        within = omega (arith, shorter);
        longest = λ j a b. l.longest j a (omega (arith, b));
      })
]

-- What is known of an executed command: the invocation is that of its own reading of
-- the arguments, under its name, which leaves no arguments, help is not asked for, and its definition is the longest that the words of the first
-- reading of the arguments spell.
pub record Executed (r : CliCommandRegistry) (argv : List Text) (d : CliCommandDefinition)
    (invocation : CliInvocation) : Type 0 where
  pub initial : CliInvocation
  pub read : parse_cli_invocation argv none ≡ ok initial
  pub words_of : Longest r (initial.command ∷ initial.args) (suc (length initial.args)) d
  pub no_help : asks_help initial ≡ false
  pub own : CliInvocation
  pub parsed : parse_cli_invocation argv (some d) ≡ ok own
  pub same : invocation ≡ record own { command = d.name }
  pub no_args : own.args ≡ []

args-executes :
    (e d : CliCommandDefinition) (i invocation : CliInvocation)
    → without_args e (ok i) ≡ executes d invocation
    → (e ≡ d) × (invocation ≡ record i { command = d.name }) × (i.args ≡ [])
args-executes e d i invocation h = ground arith

without_args-executes :
    (e d : CliCommandDefinition) (m : Result CliParseError CliInvocation)
    (invocation : CliInvocation)
    → without_args e m ≡ executes d invocation
    → (e ≡ d)
      × (own : CliInvocation) × (m ≡ ok own)
      × (invocation ≡ record own { command = d.name })
      × (own.args ≡ [])
without_args-executes e d (err c) invocation h = cc
without_args-executes e d (ok i) invocation h =
    let (same, whole, none_left) = args-executes e d i invocation h in
    (same, i, refl, whole, none_left)

write_help-executes :
    (r : CliCommandRegistry) (target : Text) (d : CliCommandDefinition) (invocation : CliInvocation)
    → write_help r target ≡ executes d invocation
    → ⊥
unfolding write_help
write_help-executes r target d invocation h = ground arith

only_else :
    (b : Bool) {x y z : CliRun} → (x ≡ z → ⊥) → (if b then x else y) ≡ z → (b ≡ false) × (y ≡ z)
only_else true never h = absurd (never h)
only_else false never h = (refl, h)

run_initial-executes :
    (r : CliCommandRegistry) (argv : List Text) (initial : CliInvocation)
    (o : Option CliCommandDefinition) (d : CliCommandDefinition) (invocation : CliInvocation)
    → run_initial r argv initial o ≡ executes d invocation
    → (asks_help initial ≡ false)
      × (o ≡ some d)
      × (own : CliInvocation) × (parse_cli_invocation argv (some d) ≡ ok own)
      × (invocation ≡ record own { command = d.name })
      × (own.args ≡ [])
unfolding run_initial
run_initial-executes r argv initial none d invocation h = ground arith
run_initial-executes r argv initial (some e) d invocation h =
    let target : Text = help_target initial (some e) in
    let (plain, run) =
      only_else (asks_help initial || false) (write_help-executes r target d invocation) h in
    let (same, own, parsed, whole, no_args) =
      without_args-executes e d (parse_cli_invocation argv (some e)) invocation run in
    (
      ground arith,
      ap some same,
      own,
      sym (ap (λ x. parse_cli_invocation argv (some x)) same) ∙ parsed,
      whole,
      no_args,
    )

run_cli-Executed :
    (r : CliCommandRegistry) (argv : List Text) (d : CliCommandDefinition)
    (invocation : CliInvocation)
    → run_cli r argv ≡ executes d invocation
    → Executed r argv d invocation
unfolding run_cli run_parsed
run_cli-Executed r argv d invocation h = elim (Result-cases (parse_cli_invocation argv none)) [
  | inr (e, bad) ↦
      let failed : run_parsed r argv (err e) ≡ executes d invocation =
        sym (ap (run_parsed r argv) bad) ∙ h in
      cc
  | inl (initial, read) ↦
      let words : List Text = initial.command ∷ initial.args in
      let run : run_initial r argv initial (definition_of r words (length words))
          ≡ executes d invocation =
        sym (ap (run_parsed r argv) read) ∙ h in
      let (plain, found, own, parsed, whole, no_args) =
        run_initial-executes r argv initial (definition_of r words (length words)) d invocation
          run in
      record {
        initial = initial;
        read = read;
        words_of = definition_of-Longest r words (length words) d found;
        no_help = plain;
        own = own;
        parsed = parsed;
        same = whole;
        no_args = no_args;
      }
]

Executed-run_initial :
    (r : CliCommandRegistry) (argv : List Text) (initial : CliInvocation) (d : CliCommandDefinition)
    (own : CliInvocation)
    → asks_help initial ≡ false
    → parse_cli_invocation argv (some d) ≡ ok own
    → own.args ≡ []
    → run_initial r argv initial (some d) ≡ executes d (record own { command = d.name })
unfolding run_initial
Executed-run_initial r argv initial d own plain parsed no_args =
    rw (plain, parsed)
      (ap
        (λ a. elim a [
          | [] ↦ executes d (record own { command = d.name })
          | x ∷ rest ↦ fails_as d.name invalid_invocation
        ])
        no_args)

Executed-run_cli :
    (r : CliCommandRegistry) (argv : List Text) (d : CliCommandDefinition)
    (invocation : CliInvocation)
    → Executed r argv d invocation
    → run_cli r argv ≡ executes d invocation
unfolding run_cli run_parsed
Executed-run_cli r argv d invocation x =
    let words : List Text = x.initial.command ∷ x.initial.args in
    ap (run_parsed r argv) x.read
    ∙ ap (run_initial r argv x.initial) (Longest-definition_of r words (length words) d x.words_of)
    ∙ Executed-run_initial r argv x.initial d x.own x.no_help x.parsed x.no_args
    ∙ ap (executes d) (sym x.same)

-- A command is executed exactly when help is not asked for, it is the longest command that the words
-- spell, and its own reading of the arguments leaves none over; the invocation is that of this reading,
-- under the name of the command.
pub run_cli-executes :
    (r : CliCommandRegistry) (argv : List Text) (d : CliCommandDefinition)
    (invocation : CliInvocation)
    → (run_cli r argv ≡ executes d invocation) ↔ Executed r argv d invocation
run_cli-executes r argv d invocation =
    (run_cli-Executed r argv d invocation, Executed-run_cli r argv d invocation)
