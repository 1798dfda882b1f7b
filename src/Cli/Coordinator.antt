-- ===== src/Cli/Coordinator.antt =====
-- apps/cli/src/registry.ts: the command of a protocol method, which makes a call from its options.
use horseness.Common.{Option, none, some, Bool, true, not, Result, ok, err, ◌>>=◌, ◌>>◌, guard}
use horseness.Common.Maps.{Entries, get}
use horseness.Domain.Canonical.{Text, text_eq, units}
use horseness.Cli.Parser.{OptionValue, value, is_empty}

-- `METHOD_REGISTRY_V1` says of a method whether its call has an idempotency key.
pub data Idempotency : Type 0 where
  required forbidden : Idempotency

-- What `execute` throws and catches again.
pub data CoordinatorError : Type 0 where
  requires_a_value must_be_json : Text → CoordinatorError
  generation_must_be_integer idempotency_key_is_required idempotency_key_is_forbidden :
      CoordinatorError

-- What the runtime knows of texts: `JSON.parse`, `Number`, and the test for a safe integer that is not
-- negative.
pub record Numerals (J N : Type 0) : Type 0 where
  pub parse : Text → Option J
  pub number : Text → N
  pub is_count : N → Bool

-- The call without its method, which the definition gives.
pub record CoordinatorCall (J N : Type 0) : Type 0 where
  pub observation_cursor : J
  pub workspace_id : Text
  pub input : J
  pub run_id : Option Text
  pub task_id : Option Text
  pub attempt_id : Option Text
  pub generation : Option N
  pub proposal_id : Option Text
  pub adapter_id : Option Text
  pub idempotency_key : Option Text
  pub resume : Option J

abbrev filled_text : Text → Option OptionValue → Result CoordinatorError Text
filled_text name (some (value t)) = guard (not (is_empty t)) (requires_a_value name) >> ok t
filled_text name _ = err (requires_a_value name)

unfoldable pub required_text : Entries Text OptionValue → Text → Result CoordinatorError Text
required_text options name = filled_text name (get name options)

abbrev filled_or_missing : Text → Option OptionValue → Result CoordinatorError (Option Text)
filled_or_missing name none = ok none
filled_or_missing name (some v) = filled_text name (some v) >>= λ t. ok (some t)

unfoldable pub optional_text :
    Entries Text OptionValue → Text → Result CoordinatorError (Option Text)
optional_text options name = filled_or_missing name (get name options)

abbrev pub check_key : Idempotency → Option Text → Result CoordinatorError (Unit {0})
check_key required none = err idempotency_key_is_required
check_key forbidden (some t) = err idempotency_key_is_forbidden
check_key _ _ = ok tt

module _ {J N : Type 0} (numerals : Numerals J N) where
  abbrev json_or_fail : Text → Option J → Result CoordinatorError J
  json_or_fail name none = err (must_be_json name)
  json_or_fail name (some j) = ok j

  unfoldable pub json_option : Entries Text OptionValue → Text → Result CoordinatorError J
  unfolding required_text
  json_option options name =
      required_text options name >>= λ raw. json_or_fail name (numerals.parse raw)

  abbrev pub json_or_missing :
      Entries Text OptionValue → Text → Option OptionValue → Result CoordinatorError (Option J)
  json_or_missing options name none = ok none
  json_or_missing options name (some v) = json_option options name >>= λ j. ok (some j)

  abbrev pub counted : Option Text → Option N
  counted none = none
  counted (some t) = some (numerals.number t)

  abbrev pub is_counted : Option Text → Bool
  is_counted none = true
  is_counted (some t) = numerals.is_count (numerals.number t)

  -- What `execute` does before it calls the coordinator.
  unfoldable pub coordinator_call :
      Idempotency → Entries Text OptionValue → Result CoordinatorError (CoordinatorCall J N)
  unfolding json_option optional_text required_text
  coordinator_call idempotency options = do
    run_id ← optional_text options (units "run-id")
    task_id ← optional_text options (units "task-id")
    attempt_id ← optional_text options (units "attempt-id")
    generation_text ← optional_text options (units "generation")
    proposal_id ← optional_text options (units "proposal-id")
    adapter_id ← optional_text options (units "adapter-id")
    idempotency_key ← optional_text options (units "idempotency-key")
    cursor ← json_option options (units "cursor")
    workspace_id ← required_text options (units "workspace-id")
    input ← json_option options (units "input")
    resume ← json_or_missing options (units "resume") (get (units "resume") options)
    guard (is_counted generation_text) generation_must_be_integer
    check_key idempotency idempotency_key
    ok (record {
      observation_cursor = cursor;
      workspace_id = workspace_id;
      input = input;
      run_id = run_id;
      task_id = task_id;
      attempt_id = attempt_id;
      generation = counted generation_text;
      proposal_id = proposal_id;
      adapter_id = adapter_id;
      idempotency_key = idempotency_key;
      resume = resume;
    })
