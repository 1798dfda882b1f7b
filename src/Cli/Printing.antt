-- ===== src/Cli/Printing.antt =====
-- apps/cli/src/parser.ts: arguments that are printed from an invocation are parsed as it.
use mathlib.Core.List.{append_assoc, append-nil}
use horseness.Common.{
  Option, none, some, List, [], ◌∷◌, ◌++◌, Bool, true, false, not, ◌&&◌, ◌||◌, ◌==◌, any, map, ok,
  ◌≡◌, refl, sym, ap, ◌∙◌, and-true, Bool-cases, inl, inr, arith,
}
use horseness.Common.Maps.{Entries, put, has}
use horseness.Domain.Canonical.{Text, text_beq, text_eq, units}
use horseness.Cli.Parser.{
  human, OptionValue, value, CliCommandDefinition, Found, next, starts_with_dashes, at_equals,
  is_empty, is_value, with_option, take_option, take, take_all, parse_cli_invocation,
}

abbrev pub has_equals : Text → Bool
has_equals t = any (λ c. c == 61) t

-- `--name=value`
abbrev pub print_option : Text × Text → Text
print_option o = 45 ∷ 45 ∷ o.0 ++ 61 ∷ o.1

abbrev pub print_options : List (Text × Text) → List Text → List Text
print_options [] ts = ts
print_options (o ∷ os) ts = print_option o ∷ print_options os ts

-- A command, its options and its arguments behind `--`.
abbrev pub print : Text → List (Text × Text) → List Text → List Text
print command options args = command ∷ print_options options (units "--" ∷ args)

abbrev pub valued : Text × Text → Text × OptionValue
valued o = (o.0, value o.1)

-- Options that can be printed behind others: names and values that are not empty, and names that hold
-- no `=` and are new.
abbrev pub printable : Entries Text OptionValue → List (Text × Text) → Bool
printable m [] = true
printable m (o ∷ os) =
    not (is_empty o.0)
    && not (has_equals o.0)
    && not (is_empty o.1)
    && not (has o.0 m)
    && printable (m ++ valued o ∷ []) os

put-new :
    (k : Text) (v : OptionValue) (m : Entries Text OptionValue)
    → has k m ≡ false
    → put k v m ≡ m ++ (k, v) ∷ []
unfolding put has
put-new k v [] h = refl
put-new k v ((j, w) ∷ m) h = ground (arith, h, put-new k v m)

or-false : (a b : Bool) → (a || b) ≡ false → (a ≡ false) × (b ≡ false)
or-false a b h = ground arith

pub not-true : (a : Bool) → not a ≡ true → a ≡ false
not-true a h = ground arith

at_equals-append : (n v : Text) → has_equals n ≡ false → at_equals (n ++ 61 ∷ v) ≡ (n, some v)
unfolding at_equals
at_equals-append [] v h = refl
at_equals-append (c ∷ n) v h =
    let (first, later) = or-false (c == 61) (has_equals n) h in
    rw (first, at_equals-append n v later) refl

has_equals-append : (n v : Text) → has_equals (n ++ 61 ∷ v) ≡ true
has_equals-append [] v = refl
has_equals-append (c ∷ n) v = elim (Bool-cases (c == 61)) [
  | inl b ↦ rw b refl
  | inr b ↦ rw (b, has_equals-append n v) refl
]

not_self : (b : Bool) → b ≡ not b → ⊥
not_self true h = cc
not_self false h = cc

-- Texts that a test tells apart.
text_beq-apart :
    (p : Text → Bool) (b : Bool) (t u : Text) → p t ≡ b → p u ≡ not b → text_beq t u ≡ false
text_beq-apart p b t u h k = elim (Bool-cases (text_beq t u)) [
  | inl same ↦ absurd (not_self b (sym h ∙ ap p ((text_eq.beq_iff t u).0 same) ∙ k))
  | inr other ↦ other
]

abbrev first_of : List Text → Option Text
first_of [] = none
first_of (t ∷ ts) = some t

take_all-next :
    (d : Option CliCommandDefinition) (t : Text) (ts : List Text) (f g : Found)
    → take d t (first_of ts) f ≡ ok (next g)
    → take_all d (t ∷ ts) f ≡ take_all d ts g
unfolding take_all
take_all-next d t [] f g h = rw h refl
take_all-next d t (u ∷ ts) f g h = rw h refl

take-print_option :
    (n v : Text) (following : Option Text) (f : Found)
    → is_empty n ≡ false
    → has_equals n ≡ false
    → is_empty v ≡ false
    → has n f.options ≡ false
    → take none (print_option (n, v)) following f ≡ ok (next (with_option n (value v) f))
unfolding take take_option
take-print_option n v following f filled plain filled_v new =
    let t : Text = print_option (n, v) in
    let equals : has_equals t ≡ true = has_equals-append n v in
    rw
      (
        text_beq-apart (λ x. has_equals x) true t (units "--json") equals refl,
        text_beq-apart (λ x. has_equals x) true t (units "--help") equals refl,
        text_beq-apart (λ x. has_equals x) true t (units "-h") equals refl,
        text_beq-apart (λ x. has_equals x) true t (units "--") equals refl,
        at_equals-append n v plain,
        filled,
        new,
        filled_v,
      )
      refl

take-plain :
    (t : Text) (following : Option Text) (f : Found)
    → text_beq t (units "-h") ≡ false
    → starts_with_dashes t ≡ false
    → take none t following f ≡ ok (next (record f { positional = f.positional ++ t ∷ [] }))
unfolding take
take-plain t following f flag plain =
    rw
      (
        text_beq-apart starts_with_dashes false t (units "--json") plain refl,
        text_beq-apart starts_with_dashes false t (units "--help") plain refl,
        flag,
        text_beq-apart starts_with_dashes false t (units "--") plain refl,
        plain,
      )
      refl

-- What the loop has found behind printed options.
abbrev behind_options : List (Text × Text) → List Text → Found → Found
behind_options options args f = record f {
  options = f.options ++ map valued options;
  positional = f.positional ++ args;
}

take_all-dashes :
    (args : List Text) (f : Found)
    → take_all none (units "--" ∷ args) f ≡ ok (behind_options [] args f)
unfolding take_all take text_beq
take_all-dashes [] f =
    ap (λ x. ok (record f { positional = x })) (sym (append-nil f.positional))
    ∙ ap (λ x. ok (record f { options = x; positional = f.positional ++ [] }))
        (sym (append-nil f.options))
take_all-dashes (u ∷ us) f =
    ap (λ x. ok (record f { options = x; positional = f.positional ++ u ∷ us }))
      (sym (append-nil f.options))

take_all-print_options :
    (options : List (Text × Text)) (args : List Text) (f : Found)
    → printable f.options options ≡ true
    → take_all none (print_options options (units "--" ∷ args)) f
      ≡ ok (behind_options options args f)
take_all-print_options [] args f h = take_all-dashes args f
take_all-print_options (o ∷ os) args f h =
    let (abcd, later) = and-true _ (printable (f.options ++ valued o ∷ []) os) h in
    let (abc, new) = and-true _ (not (has o.0 f.options)) abcd in
    let (ab, filled_v) = and-true _ (not (is_empty o.1)) abc in
    let (filled, plain) = and-true (not (is_empty o.0)) (not (has_equals o.0)) ab in
    let g : Found = with_option o.0 (value o.1) f in
    let same : g.options ≡ f.options ++ valued o ∷ [] =
      put-new o.0 (value o.1) f.options (not-true (has o.0 f.options) new) in
    take_all-next none (print_option o) (print_options os (units "--" ∷ args)) f g (
      take-print_option o.0 o.1 (first_of (print_options os (units "--" ∷ args))) f
        (not-true (is_empty o.0) filled) (not-true (has_equals o.0) plain)
        (not-true (is_empty o.1) filled_v) (not-true (has o.0 f.options) new))
    ∙ take_all-print_options os args g (rw same later)
    ∙ ap (λ x. ok (record f { options = x; positional = f.positional ++ args }))
        (ap (λ m. m ++ map valued os) same ∙ append_assoc f.options (valued o ∷ []) (map valued os))

-- What is printed from a command that does not look like an option, from options with distinct names
-- and with values, and from any arguments, is parsed as that invocation.
pub parse_cli_invocation-print :
    (command : Text) (options : List (Text × Text)) (args : List Text)
    → is_value command ≡ true
    → printable [] options ≡ true
    → parse_cli_invocation (print command options args) none
      ≡ ok (record {
        command = command;
        args = args;
        options = map valued options;
        output_mode = human;
      })
unfolding parse_cli_invocation
parse_cli_invocation-print command options args plain h =
    let start : Found = record { output_mode = human; positional = []; options = [] } in
    let (no_flag, no_dashes) =
      and-true (not (text_beq command (units "-h"))) (not (starts_with_dashes command)) plain in
    let later : List Text = print_options options (units "--" ∷ args) in
    let g : Found = record start { positional = command ∷ [] } in
    rw
      (take_all-next none command later start g (
          take-plain command (first_of later) start
            (not-true (text_beq command (units "-h")) no_flag)
            (not-true (starts_with_dashes command) no_dashes))
        ∙ take_all-print_options options args g h)
      refl
