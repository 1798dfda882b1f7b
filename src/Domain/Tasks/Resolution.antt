-- ===== src/Domain/Tasks/Resolution.antt =====
-- packages/domain/src/tasks.ts, `resolveTask`: the arbitration between attempt generations.
pub mod Arbitration
pub mod Winner
use horseness.Common.{
  ℕ, String, Option, none, some, List, [], ◌∷◌, Bool, true, false, not, ◌&&◌, ◌||◌, any, keep, map,
  distinct, nat_eq, Result, ok, err, ◌>>=◌, ◌>>◌, guard, if◌then◌else◌, ltb, leb, ◌==◌,
}
use horseness.Common.Sort.{sort}
use horseness.Domain.Tasks.Types
use horseness.Domain.Tasks.Types.{
  TaskError, invalid_attempt_generation, Resolution, succeeded, failed, cancelled, resolution_beq,
  DispatchState, AttemptGenerationState,
}
use horseness.Domain.Tasks.Dispatch.{is_terminal}

-- One of `consideredGenerationOutcomes`.
pub record GenerationOutcome : Type 0 where
  pub generation : ℕ
  pub outcome : Resolution
  pub terminal_event_sequence : ℕ

pub data ArbitrationReason : Type 0 where
  earliest_terminal_success explicit_cancellation : ArbitrationReason
  all_generations_terminal_no_success : ArbitrationReason

-- The cursor is carried along and not read: its type is a parameter.
pub record TaskResolution (Cursor : Type 0) : Type 0 where
  pub task_id : String
  pub considered_generation_outcomes : List GenerationOutcome
  pub winning_generation : Option ℕ
  pub retry_policy_digest : String
  pub arbitration_reason : ArbitrationReason
  pub observation_cursor : Cursor
  pub resolution : Resolution

pub record ResolveInput (Cursor : Type 0) : Type 0 where
  pub task_id : String
  pub generations : List AttemptGenerationState
  pub retry_policy_digest : String
  pub retry_permitted : Bool
  pub cancellation_requested : Bool
  pub observation_cursor : Cursor

abbrev pub generation_before : AttemptGenerationState → AttemptGenerationState → Bool
generation_before a b = leb a.generation b.generation

abbrev pub outcome_before : GenerationOutcome → GenerationOutcome → Bool
outcome_before a b = leb a.generation b.generation

-- `a.terminalEventSequence - b.terminalEventSequence || a.generation - b.generation`
abbrev pub success_before : GenerationOutcome → GenerationOutcome → Bool
success_before a b =
    ltb a.terminal_event_sequence b.terminal_event_sequence
    || a.terminal_event_sequence == b.terminal_event_sequence && leb a.generation b.generation

abbrev outcome_of : ℕ → DispatchState → Option ℕ → Option GenerationOutcome
outcome_of g (DispatchState.terminal r) (some n) =
    some (record { generation = g; outcome = r; terminal_event_sequence = n })
outcome_of _ _ _ = none

abbrev prepend : Option GenerationOutcome → List GenerationOutcome → List GenerationOutcome
prepend none rest = rest
prepend (some g) rest = g ∷ rest

-- The terminal generations that have an event sequence.
unfoldable pub terminals : List AttemptGenerationState → List GenerationOutcome
terminals [] = []
terminals (g ∷ gs) =
    prepend (outcome_of g.generation g.state g.terminal_event_sequence) (terminals gs)

abbrev pub is_success : GenerationOutcome → Bool
is_success g = resolution_beq g.outcome succeeded

abbrev pub is_unresolved : AttemptGenerationState → Bool
is_unresolved g = not (is_terminal g.state)

abbrev pub generation_of : AttemptGenerationState → ℕ
generation_of g = g.generation

abbrev pub is_below_one : AttemptGenerationState → Bool
is_below_one g = ltb g.generation 1

module _ {Cursor : Type 0} where
  abbrev resolution_with :
      ResolveInput Cursor
      → List GenerationOutcome
      → Option ℕ
      → ArbitrationReason
      → Resolution
      → TaskResolution Cursor
  resolution_with input terminal winner reason resolution = record {
    task_id = input.task_id;
    considered_generation_outcomes = sort outcome_before terminal;
    winning_generation = winner;
    retry_policy_digest = input.retry_policy_digest;
    arbitration_reason = reason;
    observation_cursor = input.observation_cursor;
    resolution = resolution;
  }

  -- The chain of `if`s, once the generations are sorted and checked.
  unfoldable pub arbitrate :
      ResolveInput Cursor
      → List AttemptGenerationState
      → List GenerationOutcome
      → List GenerationOutcome
      → Option (TaskResolution Cursor)
  arbitrate input generations terminal (s ∷ _) =
      some (resolution_with input terminal (some s.generation) earliest_terminal_success succeeded)
  arbitrate input generations terminal [] =
      if any is_unresolved generations || input.retry_permitted
      then none
      else if input.cancellation_requested
      then some (resolution_with input terminal none explicit_cancellation cancelled)
      else some (resolution_with input terminal none all_generations_terminal_no_success failed)

  unfoldable pub resolve_task :
      ResolveInput Cursor → Result TaskError (Option (TaskResolution Cursor))
  unfolding terminals arbitrate
  resolve_task input =
      let generations = sort generation_before input.generations in
      let terminal = terminals generations in
      let successes = sort success_before (keep is_success terminal) in
      do
        guard (distinct (map generation_of generations) && not (any is_below_one generations))
            invalid_attempt_generation
        ok (arbitrate input generations terminal successes)
