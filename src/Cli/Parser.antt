-- ===== src/Cli/Parser.antt =====
-- apps/cli/src/parser.ts: an invocation from the arguments of the process.
use horseness.Common.{
  Option, none, some, List, [], ◌∷◌, ◌++◌, Bool, true, false, not, ◌&&◌, ◌||◌, ◌==◌, any, Result,
  ok, err, ◌>>=◌, ◌>>◌, guard, if◌then◌else◌,
}
use horseness.Common.Maps.{Entries, get, put, has}
use horseness.Common.Splitting.{split}
use horseness.Domain.Canonical.{Text, text_beq, text_eq, units}

pub data CliOutputMode : Type 0 where
  human json : CliOutputMode

-- The value of an option, which is `true` when none is given.
pub data OptionValue : Type 0 where
  given : OptionValue
  value : Text → OptionValue

pub record CliInvocation : Type 0 where
  pub command : Text
  pub args : List Text
  pub options : Entries Text OptionValue
  pub output_mode : CliOutputMode

-- The members of a definition that the parser reads.
pub record CliCommandDefinition : Type 0 where
  pub name : Text
  pub aliases : List Text
  pub option_names : List Text

pub data CliParseCode : Type 0 where
  invalid_invocation unknown_command unknown_option : CliParseCode

pub record CliParseError : Type 0 where
  pub code : CliParseCode
  pub command : Text

-- What the loop has found so far.
pub record Found : Type 0 where
  pub output_mode : CliOutputMode
  pub positional : List Text
  pub options : Entries Text OptionValue

-- What one round of the loop does: it goes on with the next argument, or behind that, or it ends with
-- the arguments that are left as they are.
pub data Round : Type 0 where
  next : Found → Round
  behind : Found → Round
  rest : Round

abbrev pub help : Text
help = units "help"

abbrev pub starts_with_dashes : Text → Bool
starts_with_dashes (a ∷ b ∷ t) = a == 45 && b == 45
starts_with_dashes _ = false

-- `token.slice(2)`
abbrev pub behind_dashes : Text → Text
behind_dashes (a ∷ b ∷ t) = t
behind_dashes _ = []

-- The text before the first `=`, and the one behind it if there is one.
unfoldable pub at_equals : Text → Text × Option Text
at_equals [] = ([], none)
at_equals (c ∷ t) =
    let later : Text × Option Text = at_equals t in
    if c == 61 then ([], some t) else (c ∷ later.0, later.1)

abbrev pub is_empty : Text → Bool
is_empty [] = true
is_empty (c ∷ t) = false

abbrev head_or_cli : List Text → Text
head_or_cli [] = units "cli"
head_or_cli (t ∷ ts) = t

abbrev pub command_of : Option CliCommandDefinition → Found → Text
command_of none f = head_or_cli f.positional
command_of (some d) f = d.name

abbrev pub knows : Option CliCommandDefinition → Text → Bool
knows none name = true
knows (some d) name = any (text_beq name) d.option_names

abbrev pub fails : CliParseCode → Text → CliParseError
fails code command = record { code = code; command = command }

-- Whether an argument is the value of the option before it.
abbrev pub is_value : Text → Bool
is_value t = not (text_beq t (units "-h")) && not (starts_with_dashes t)

abbrev pub with_option : Text → OptionValue → Found → Found
with_option name v f = record f { options = put name v f.options }

abbrev pub take_value : Text → Option Text → Found → Round
take_value name none f = next (with_option name given f)
take_value name (some t) f =
    if is_value t then behind (with_option name (value t) f) else next (with_option name given f)

abbrev pub after_equals :
    Option CliCommandDefinition
    → Text
    → Option Text
    → Option Text
    → Found
    → Result CliParseError Round
after_equals definition name none following f = ok (take_value name following f)
after_equals definition name (some v) following f = do
  guard (not (is_empty v)) (fails invalid_invocation (command_of definition f))
  ok (next (with_option name (value v) f))

-- An argument that begins with two dashes and is none of the fixed ones.
unfoldable pub take_option :
    Option CliCommandDefinition → Text → Option Text → Found → Result CliParseError Round
unfolding at_equals
take_option definition token following f =
    let (name, v) = at_equals (behind_dashes token) in
    do
      guard (not (is_empty name)) (fails invalid_invocation (head_or_cli f.positional))
      guard (knows definition name) (fails unknown_option (command_of definition f))
      guard (not (has name f.options)) (fails invalid_invocation (command_of definition f))
      after_equals definition name v following f

-- One round of the loop.
unfoldable pub take :
    Option CliCommandDefinition → Text → Option Text → Found → Result CliParseError Round
unfolding take_option
take definition token following f =
    if text_beq token (units "--json")
    then ok (next (record f { output_mode = json }))
    else if text_beq token (units "--help") || text_beq token (units "-h")
    then ok (next (with_option help given f))
    else if text_beq token (units "--")
    then ok rest
    else if not (starts_with_dashes token)
    then ok (next (record f { positional = f.positional ++ token ∷ [] }))
    else take_option definition token following f

unfoldable pub take_all :
    Option CliCommandDefinition → List Text → Found → Result CliParseError Found
unfolding take
take_all definition [] f = ok f
take_all definition (t ∷ []) f =
    take definition t none f >>= λ r. elim r [ next g ↦ ok g | behind g ↦ ok g | rest ↦ ok f ]
take_all definition (t ∷ u ∷ ts) f = take definition t (some u) f >>= λ r. elim r [
  | next g ↦ take_all definition (u ∷ ts) g
  | behind g ↦ take_all definition ts g
  | rest ↦ ok (record f { positional = f.positional ++ u ∷ ts })
]

abbrev pub is_help : Option OptionValue → Bool
is_help (some given) = true
is_help _ = false

abbrev pub only_json : CliOutputMode → List Text → Bool
only_json json (t ∷ []) = true
only_json _ [] = true
only_json _ _ = false

-- `words.slice(1).every((word, index) => positional[index] === word)`, and what is behind them.
unfoldable pub behind_words : List Text → List Text → Option (List Text)
behind_words [] ts = some ts
behind_words (w ∷ ws) [] = none
behind_words (w ∷ ws) (t ∷ ts) =
    let later : Option (List Text) = behind_words ws ts in if text_beq t w then later else none

abbrev match_words : Text → List Text → List Text → Option (List Text)
match_words first positional [] = none
match_words first positional (w ∷ ws) =
    if text_beq w first then behind_words ws positional else none

-- The first spelling of a command that is given, and the arguments behind it.
unfoldable pub spelled : List Text → Text → List Text → Option (List Text)
unfolding behind_words split
spelled [] first positional = none
spelled (s ∷ ss) first positional =
    let later : Option (List Text) = spelled ss first positional in
    elim (match_words first positional (split 32 (λ c. c == 32) s)) [
      | some ts ↦ some ts
      | none ↦ later
    ]

abbrev pub named : Option CliCommandDefinition → Text → List Text → Found → CliInvocation
named none first positional f = record {
  command = first;
  args = positional;
  options = f.options;
  output_mode = f.output_mode;
}
named (some d) first positional f = elim (spelled (d.name ∷ d.aliases) first positional) [
  | none ↦ record {
    command = first;
    args = positional;
    options = f.options;
    output_mode = f.output_mode;
  }
  | some ts ↦ record {
    command = d.name;
    args = ts;
    options = f.options;
    output_mode = f.output_mode;
  }
]

-- The invocation of what the loop has found.
abbrev pub invocation :
    Option CliCommandDefinition → List Text → List Text → Found → Result CliParseError CliInvocation
invocation definition argv [] f =
    if is_help (get help f.options) || only_json f.output_mode argv
    then ok (record { command = help; args = []; options = f.options; output_mode = f.output_mode })
    else err (fails invalid_invocation (units "cli"))
invocation definition argv (first ∷ positional) f = ok (named definition first positional f)

unfoldable pub parse_cli_invocation :
    List Text → Option CliCommandDefinition → Result CliParseError CliInvocation
unfolding take_all spelled
parse_cli_invocation argv definition = do
  f ← take_all definition argv (record { output_mode = human; positional = []; options = [] })
  invocation definition argv f.positional f
