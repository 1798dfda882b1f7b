-- ===== src/Orchestrator/Receipts.antt =====
-- packages/orchestrator/src/receipts/receipt-projection.ts: the outcomes of the generations of one
-- attempt, and the resolution of its task.
pub mod Apply
pub mod Stands
use horseness.Common.{
  ℕ, String, Option, none, some, List, [], ◌∷◌, ◌++◌, keep, any, map, Bool, true, false, not, ◌&&◌,
  ◌||◌, ltb, leb, ◌==◌, member, unique_texts, add, delete, nat_eq, string_eq, str_eq, truthy,
  Result, ok, err, ◌>>=◌, ◌>>◌, guard, if◌then◌else◌,
}
use horseness.Common.Sort.{sort}
use horseness.Common.Maps.{Entries, get, put, has, values}
use horseness.Domain.Canonical.{units}
use horseness.Domain.Delta.Scope.{text_before}
use horseness.Domain.Forks.{CompositeCursor, cursor_beq, opt_beq, is_null}
use horseness.Domain.Tasks.Types.{
  TaskError, Resolution, succeeded, failed, cancelled, resolution_beq, DispatchState,
  AttemptGenerationState, FindingCode, late_terminal_receipt, conflicting_late_terminal_receipt,
  conflicting_provider_handle, late_dispatch_fact, duplicate_risk_authorized,
}
use horseness.Domain.Tasks.Dispatch.{terminal_receipt, reduce_dispatch, is_terminal}
use horseness.Domain.Receipts.{ReceiptError, ReceiptRuntime, AttemptReceipt, verify_attempt_receipt}

pub data ProjectionError : Type 0 where
  invalid_attempt_state generation_identity_conflict : ProjectionError
  arbitration_authority_unauthenticated arbitration_authority_stale receipt_mismatch :
      ProjectionError
  unauthenticated_receipt_event unknown_attempt_generation receipt_binding_mismatch :
      ProjectionError
  receipt_grant_mismatch receipt_operation_mismatch : ProjectionError
  invalid_receipt : ReceiptError → ProjectionError
  dispatch : TaskError → ProjectionError

pub record ReceiptGenerationOutcome : Type 0 where
  pub generation : ℕ
  pub outcome : Resolution
  pub receipt_digest : String
  pub receipt_id : String
  pub terminal_event_sequence : ℕ

pub record TaskResolved : Type 0 where
  pub task_id : String
  pub resolution : Resolution
  pub winning_generation : Option ℕ
  pub resolution_event_sequence : ℕ
  pub resolution_digest : String

pub record AttemptReceiptProjection : Type 0 where
  pub attempt_id : String
  pub task_id : Option String
  pub generations : Entries ℕ AttemptGenerationState
  pub outcomes : Entries ℕ ReceiptGenerationOutcome
  pub retry_permitted_generations : List ℕ
  pub explicit_cancellation_event_sequence : Option ℕ
  pub resolution : Option TaskResolved
  pub winning_generation : Option ℕ
  pub findings : List String

pub record ReceiptEvent : Type 0 where
  pub event_sequence : ℕ
  pub event_digest : String
  pub authenticated_principal_id : String
  pub receipt : AttemptReceipt

pub record AttemptBinding : Type 0 where
  pub attempt_id : String
  pub generation : ℕ
  pub digest : String
  pub context_manifest_core_digest : String
  pub fork_pin_digest : String
  pub provider_id : String
  pub provider_operation_id : String
  pub provider_idempotency_key_digest : String
  pub allowed_producer_principal_id : String
  pub allowed_producer_grant_digest : String

-- The members of `AttemptAuthorityInputV1` that the projection reads.
pub record AttemptAuthority : Type 0 where
  pub binding : AttemptBinding
  pub provider_handle : Option String
  pub grant_digest : String

-- A capability is an object that the module has issued, which it keeps in a `WeakSet`; for an event
-- and an authority, with the identity of the attempt's generation that both were issued for.
pub record Issued (A : Type 0) : Type 0 where
  pub value : A
  pub identity : Option (String × ℕ)

pub data RetryVerdict : Type 0 where
  permitted denied : RetryVerdict

pub record RetryDecision : Type 0 where
  pub task_id : String
  pub attempt_id : String
  pub generation : ℕ
  pub decision : RetryVerdict
  pub event_sequence : ℕ
  pub cursor : CompositeCursor
  pub issued : Bool

pub record Cancellation : Type 0 where
  pub task_id : String
  pub attempt_id : String
  pub generation : ℕ
  pub event_sequence : ℕ
  pub cursor : CompositeCursor
  pub issued : Bool

abbrev pub same_identity : Option (String × ℕ) → Option (String × ℕ) → Bool
same_identity (some (a, g)) (some (b, h)) = str_eq a b && g == h
same_identity _ _ = false

-- The spelling of the finding codes.
unfoldable pub code_text : FindingCode → String
code_text late_terminal_receipt = "LATE_TERMINAL_RECEIPT"
code_text conflicting_late_terminal_receipt = "CONFLICTING_LATE_TERMINAL_RECEIPT"
code_text conflicting_provider_handle = "CONFLICTING_PROVIDER_HANDLE"
code_text late_dispatch_fact = "LATE_DISPATCH_FACT"
code_text duplicate_risk_authorized = "DUPLICATE_RISK_AUTHORIZED"

unfoldable pub sorted_findings : List String → List String
sorted_findings values = sort (λ a b. text_before (units a) (units b)) (unique_texts values)

abbrev pub with_findings : AttemptReceiptProjection → List String → AttemptReceiptProjection
with_findings s codes = record s { findings = sorted_findings (s.findings ++ codes) }

unfoldable pub empty_receipt_projection : String → Result ProjectionError AttemptReceiptProjection
empty_receipt_projection attempt_id = do
  guard (truthy attempt_id) invalid_attempt_state
  ok (record {
    attempt_id = attempt_id;
    task_id = none;
    generations = [];
    outcomes = [];
    retry_permitted_generations = [];
    explicit_cancellation_event_sequence = none;
    resolution = none;
    winning_generation = none;
    findings = [];
  })

abbrev same_binding : Option AttemptGenerationState → AttemptGenerationState → Bool
same_binding none g = true
same_binding (some prior) g =
    str_eq prior.binding_digest g.binding_digest
    && str_eq prior.idempotency_key_digest g.idempotency_key_digest

unfoldable pub register_receipt_generation :
    AttemptReceiptProjection
    → AttemptGenerationState
    → Result ProjectionError AttemptReceiptProjection
register_receipt_generation s g = do
  guard
      (str_eq g.attempt_id s.attempt_id
        && not (ltb g.generation 1)
        && truthy g.binding_digest
        && truthy g.idempotency_key_digest)
      invalid_attempt_state
  guard (same_binding (get g.generation s.generations) g) generation_identity_conflict
  ok (record s { generations = put g.generation g s.generations })

abbrev pub outcome_is : Resolution → ReceiptGenerationOutcome → Bool
outcome_is r o = resolution_beq o.outcome r

-- `a.terminalEventSequence - b.terminalEventSequence || a.generation - b.generation`
abbrev pub earlier : ReceiptGenerationOutcome → ReceiptGenerationOutcome → Bool
earlier a b =
    ltb a.terminal_event_sequence b.terminal_event_sequence
    || a.terminal_event_sequence == b.terminal_event_sequence && leb a.generation b.generation

abbrev pub unfinished : AttemptGenerationState → Bool
unfinished g = not (is_terminal g.state)

abbrev has_failed : Option ReceiptGenerationOutcome → Bool
has_failed none = false
has_failed (some o) = resolution_beq o.outcome failed

abbrev is_nil {ℓ} : {A : Type ℓ} → List A → Bool
is_nil [] = true
is_nil (_ ∷ _) = false

abbrev known_task : Option String → Option String
known_task none = none
known_task (some t) = if truthy t then some t else none

-- `digest` stands for the SHA-256 digest of a resolution's members.
module _ (digest : String → Resolution → Option ℕ → ℕ → String) where
  unfoldable pub resolved :
      AttemptReceiptProjection → Resolution → Option ℕ → ℕ → AttemptReceiptProjection
  resolved s r winner sequence = elim (known_task s.task_id) [
    | none ↦ s
    | some task ↦ record s {
      resolution = some (record {
        task_id = task;
        resolution = r;
        winning_generation = winner;
        resolution_event_sequence = sequence;
        resolution_digest = digest task r winner sequence;
      });
      winning_generation = winner;
    }
  ]

  -- Whether no resolution by the generations' end is possible yet.
  unfoldable pub waits : AttemptReceiptProjection → Bool
  waits s =
      is_nil s.generations
      || any unfinished (values s.generations)
      || any (λ g. has_failed (get g s.outcomes)) s.retry_permitted_generations

  -- The end of `resolve`, by the recorded cancellations.
  unfoldable pub resolve_ended :
      AttemptReceiptProjection → List ReceiptGenerationOutcome → ℕ → AttemptReceiptProjection
  unfolding resolved waits
  resolve_ended s cancellations sequence = if waits s then s else elim cancellations [
    | [] ↦ resolved s failed none sequence
    | o ∷ _ ↦ resolved s cancelled (some o.generation) sequence
  ]

  -- `resolve` behind its first check, by the recorded successes and the explicit cancellation.
  unfoldable pub resolve_by :
      AttemptReceiptProjection
      → List ReceiptGenerationOutcome
      → Option ℕ
      → ℕ
      → AttemptReceiptProjection
  unfolding resolved resolve_ended
  resolve_by s (o ∷ _) explicit sequence = resolved s succeeded (some o.generation) sequence
  resolve_by s [] (some cancellation) sequence = resolved s cancelled none cancellation
  resolve_by s [] none sequence =
      resolve_ended s (sort earlier (keep (outcome_is cancelled) (values s.outcomes))) sequence

  abbrev is_open : Option TaskResolved → Bool
  is_open none = true
  is_open (some _) = false

  unfoldable pub resolve : AttemptReceiptProjection → ℕ → AttemptReceiptProjection
  unfolding resolve_by
  resolve s sequence =
      if is_open s.resolution
      then resolve_by s (sort earlier (keep (outcome_is succeeded) (values s.outcomes)))
          s.explicit_cancellation_event_sequence sequence
      else s
