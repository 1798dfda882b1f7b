-- ===== src/Tests/Receipts.antt =====
-- A receipt sealed under a runtime whose digests name the attempt, and a projection with it.
use horseness.Common.{
  ℕ, String, Option, none, some, [], ◌∷◌, true, refl, string_eq, nat_eq, str_eq, truthy,
}
use horseness.Common.Maps.{get}
use horseness.Domain.Canonical.{obj, Fields}
use horseness.Domain.Tasks.Types.{Resolution, succeeded, AttemptGenerationState, DispatchState}
use horseness.Domain.Receipts.{AttemptReceiptCore, ReceiptRuntime}
use horseness.Domain.Receipts.Sealing.{RuntimeLaws}
use horseness.Orchestrator.Receipts.{AttemptReceiptProjection, ReceiptGenerationOutcome}
use horseness.Orchestrator.Receipts.Apply.{generation, run_receipts}
use horseness.Orchestrator.Receipts.Stands.{IsKeyed, Keeps, run_receipts-Keeps}

abbrev name_digest : AttemptReceiptCore → String
name_digest c = "digest"

abbrev runtime : ReceiptRuntime
runtime = record {
  canonical_timestamp = truthy;
  locale_before = λ a b. true;
  digest = name_digest;
  digest_id = λ d. "rcp_";
}

laws : RuntimeLaws runtime
unfolding truthy str_eq
laws = record {
  total = λ a b h. cc;
  transitive = λ a b c h k. refl;
  digest_full = λ c. refl;
  id_full = λ d. refl;
}

abbrev core : AttemptReceiptCore
core = record {
  workspace_id = "w";
  run_id = "r";
  task_id = "t";
  attempt_id = "a";
  generation = 1;
  attempt_context_binding_digest = "b";
  context_manifest_core_digest = "m";
  fork_pin_digest = "f";
  provider_id = "p";
  provider_operation_id = "o";
  provider_idempotency_key_digest = "k";
  producer_principal_id = "q";
  producer_grant_digest = "g";
  adapter_id = "x";
  adapter_version = "1";
  host_id = "h";
  host_version = "2";
  outcome = succeeded;
  started_at = "2026-01-01T00:00:00Z";
  finished_at = "2026-01-01T00:00:00Z";
  output_digest = some "out";
  evidence =
      record { digest = "e2"; media_type = "text"; size = 2 }
      ∷ record { digest = "e1"; media_type = "text"; size = 1 }
      ∷ [];
  provenance = obj Fields.end;
  nonce = "n";
}

abbrev outcome_one : ReceiptGenerationOutcome
outcome_one = record {
  generation = 1;
  outcome = succeeded;
  receipt_digest = "digest";
  receipt_id = "rcp_";
  terminal_event_sequence = 7;
}

abbrev projection : AttemptReceiptProjection
projection = record {
  attempt_id = "a";
  task_id = some "t";
  generations = [];
  outcomes = (1, outcome_one) ∷ [];
  retry_permitted_generations = [];
  explicit_cancellation_event_sequence = none;
  resolution = none;
  winning_generation = none;
  findings = [];
}

abbrev second : AttemptGenerationState
second = record {
  attempt_id = "a";
  generation = 2;
  state = DispatchState.planned;
  binding_digest = "b";
  idempotency_key_digest = "k";
  provider_handle = none;
  terminal_event_sequence = none;
  finding_codes = [];
}

projection-IsKeyed : IsKeyed projection
unfolding get
projection-IsKeyed k g h = cc

abbrev resolution_digest : String → Resolution → Option ℕ → ℕ → String
resolution_digest task r winner sequence = task

run_receipts-Keeps_example :
    Keeps projection (run_receipts runtime resolution_digest projection (generation second ∷ []))
run_receipts-Keeps_example =
    run_receipts-Keeps runtime resolution_digest projection (generation second ∷ [])
      projection-IsKeyed
