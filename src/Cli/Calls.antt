-- ===== src/Cli/Calls.antt =====
-- apps/cli/src/registry.ts: the arguments that are written for a call make that call.
use horseness.Common.{
  Option, none, some, List, [], ◌∷◌, Bool, true, false, not, ◌&&◌, map, ok, ◌≡◌, refl, ap, and-true,
  arith,
}
use horseness.Common.Maps.{Entries, get, has}
use horseness.Domain.Canonical.{Text, text_beq, text_eq, units}
use horseness.Cli.Parser.{human, OptionValue, value, is_empty, is_value, parse_cli_invocation}
use horseness.Cli.Printing.{valued, print, parse_cli_invocation-print}
use horseness.Cli.Fields.{
  Field, collect, look, found, is_written, are_written, get-collect, printable-collect,
}
use horseness.Cli.Coordinator.{
  Idempotency, required, forbidden, Numerals, CoordinatorCall, required_text, optional_text,
  json_option, coordinator_call, json_or_missing, counted, is_counted, check_key,
}

optional_text-found :
    (name : Text) (o : Option Text) (m : Entries Text OptionValue)
    → is_written o ≡ true
    → get name m ≡ found o
    → optional_text m name ≡ ok o
unfolding optional_text
optional_text-found name none m h k = rw k refl
optional_text-found name (some t) m h k = rw (k, h) refl

required_text-found :
    (name t : Text) (m : Entries Text OptionValue)
    → not (is_empty t) ≡ true
    → get name m ≡ some (value t)
    → required_text m name ≡ ok t
unfolding required_text
required_text-found name t m h k = rw (k, h) refl

-- How a number and a value are written, and that they are read back.
pub record Writer {J N : Type 0} (numerals : Numerals J N) : Type 0 where
  pub encode : J → Text
  pub digits : N → Text
  pub encode_is_filled : (j : J) → not (is_empty (encode j)) ≡ true
  pub digits_is_filled : (n : N) → not (is_empty (digits n)) ≡ true
  pub parse_encode : (j : J) → numerals.parse (encode j) ≡ some j
  pub number_digits : (n : N) → numerals.is_count n ≡ true → numerals.number (digits n) ≡ n

abbrev written : {A : Type 0} → (A → Text) → Option A → Option Text
written f none = none
written f (some a) = some (f a)

abbrev is_fit : Idempotency → Option Text → Bool
is_fit required none = false
is_fit forbidden (some t) = false
is_fit _ _ = true

module _ {J N : Type 0} (numerals : Numerals J N) (writer : Writer numerals) where
  abbrev fields : CoordinatorCall J N → List Field
  fields c =
      (units "run-id", c.run_id)
      ∷ (units "task-id", c.task_id)
      ∷ (units "attempt-id", c.attempt_id)
      ∷ (units "generation", written writer.digits c.generation)
      ∷ (units "proposal-id", c.proposal_id)
      ∷ (units "adapter-id", c.adapter_id)
      ∷ (units "idempotency-key", c.idempotency_key)
      ∷ (units "cursor", some (writer.encode c.observation_cursor))
      ∷ (units "workspace-id", some c.workspace_id)
      ∷ (units "input", some (writer.encode c.input))
      ∷ (units "resume", written writer.encode c.resume)
      ∷ []

  -- The options of a call.
  abbrev pub options_of : CoordinatorCall J N → List (Text × Text)
  options_of c = collect (fields c)

  abbrev is_number : Option N → Bool
  is_number none = true
  is_number (some n) = numerals.is_count n

  -- A call whose texts are not empty, whose generation is a count, and which has an idempotency key
  -- exactly when its method requires one.
  abbrev pub sendable : Idempotency → CoordinatorCall J N → Bool
  sendable idempotency c =
      is_written c.run_id
      && is_written c.task_id
      && is_written c.attempt_id
      && is_written c.proposal_id
      && is_written c.adapter_id
      && is_written c.idempotency_key
      && not (is_empty c.workspace_id)
      && is_number c.generation
      && is_fit idempotency c.idempotency_key

  written_generation : (o : Option N) → is_written (written writer.digits o) ≡ true
  written_generation none = refl
  written_generation (some n) = writer.digits_is_filled n

  written_resume : (o : Option J) → is_written (written writer.encode o) ≡ true
  written_resume none = refl
  written_resume (some j) = writer.encode_is_filled j

  read :
      (c : CoordinatorCall J N) (name : Text)
      → get name (map valued (options_of c)) ≡ found (look name (fields c))
  unfolding text_beq
  read c name = get-collect name (fields c) refl

  json_option-found :
      (name : Text) (j : J) (m : Entries Text OptionValue)
      → get name m ≡ some (value (writer.encode j))
      → json_option numerals m name ≡ ok j
  unfolding json_option
  json_option-found name j m h =
      rw
        (
          required_text-found name (writer.encode j) m (writer.encode_is_filled j) h,
          writer.parse_encode j,
        )
        refl

  json_or_missing-found :
      (name : Text) (o : Option J) (m : Entries Text OptionValue)
      → get name m ≡ found (written writer.encode o)
      → json_or_missing numerals m name (get name m) ≡ ok o
  json_or_missing-found name none m h = rw h refl
  json_or_missing-found name (some j) m h = rw (h, json_option-found name j m h) refl

  counted-written :
      (o : Option N)
      → is_number o ≡ true
      → (is_counted numerals (written writer.digits o) ≡ true)
        × (counted numerals (written writer.digits o) ≡ o)
  counted-written none h = (refl, refl)
  counted-written (some n) h = (rw (writer.number_digits n h) h, ap some (writer.number_digits n h))

  key-fit :
      (idempotency : Idempotency) (o : Option Text)
      → is_fit idempotency o ≡ true
      → check_key idempotency o ≡ ok tt
  key-fit required none h = cc
  key-fit required (some t) h = refl
  key-fit forbidden none h = refl
  key-fit forbidden (some t) h = cc

  fields-written :
      (idempotency : Idempotency) (c : CoordinatorCall J N)
      → sendable idempotency c ≡ true
      → are_written (fields c) ≡ true
  fields-written idempotency c h = ground (
    arith,
    written_generation c.generation,
    written_resume c.resume,
    writer.encode_is_filled c.input,
    writer.encode_is_filled c.observation_cursor,
  )

  coordinator_call-options :
      (idempotency : Idempotency) (c : CoordinatorCall J N)
      → sendable idempotency c ≡ true
      → coordinator_call numerals idempotency (map valued (options_of c)) ≡ ok c
  unfolding coordinator_call text_beq
  coordinator_call-options idempotency c h =
      let m : Entries Text OptionValue = map valued (options_of c) in
      let (to_number, key) = and-true _ (is_fit idempotency c.idempotency_key) h in
      let (to_workspace, number) = and-true _ (is_number c.generation) to_number in
      let (to_key, workspace) = and-true _ (not (is_empty c.workspace_id)) to_workspace in
      let (to_adapter, key_written) = and-true _ (is_written c.idempotency_key) to_key in
      let (to_proposal, adapter) = and-true _ (is_written c.adapter_id) to_adapter in
      let (to_attempt, proposal) = and-true _ (is_written c.proposal_id) to_proposal in
      let (to_task, attempt) = and-true _ (is_written c.attempt_id) to_attempt in
      let (run, task) = and-true (is_written c.run_id) (is_written c.task_id) to_task in
      rw
        (
          optional_text-found (units "run-id") c.run_id m run (read c (units "run-id")),
          optional_text-found (units "task-id") c.task_id m task (read c (units "task-id")),
          optional_text-found (units "attempt-id") c.attempt_id m attempt
              (read c (units "attempt-id")),
          optional_text-found (units "generation") (written writer.digits c.generation) m
              (written_generation c.generation) (read c (units "generation")),
          optional_text-found (units "proposal-id") c.proposal_id m proposal
              (read c (units "proposal-id")),
          optional_text-found (units "adapter-id") c.adapter_id m adapter
              (read c (units "adapter-id")),
          optional_text-found (units "idempotency-key") c.idempotency_key m key_written
              (read c (units "idempotency-key")),
          json_option-found (units "cursor") c.observation_cursor m (read c (units "cursor")),
          required_text-found (units "workspace-id") c.workspace_id m workspace
              (read c (units "workspace-id")),
          json_option-found (units "input") c.input m (read c (units "input")),
          json_or_missing-found (units "resume") c.resume m (read c (units "resume")),
          (counted-written c.generation number).0,
          (counted-written c.generation number).1,
          key-fit idempotency c.idempotency_key key,
        )
        refl

  -- What is printed for a call is parsed, with any other arguments behind it, as an invocation with the
  -- options of the call, and the command makes that call from them. The texts of the call are not
  -- empty, its generation is a count, and it has an idempotency key exactly when the method requires one.
  pub coordinator_call-print :
      (idempotency : Idempotency) (command : Text) (c : CoordinatorCall J N) (args : List Text)
      → is_value command ≡ true
      → sendable idempotency c ≡ true
      → (parse_cli_invocation (print command (options_of c) args) none
          ≡ ok (record {
            command = command;
            args = args;
            options = map valued (options_of c);
            output_mode = human;
          }))
        × (coordinator_call numerals idempotency (map valued (options_of c)) ≡ ok c)
  unfolding text_beq has
  coordinator_call-print idempotency command c args plain h = (
    parse_cli_invocation-print command (options_of c) args plain
        (printable-collect [] (fields c) refl (fields-written idempotency c h) refl),
    coordinator_call-options idempotency c h,
  )
