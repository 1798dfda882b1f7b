-- ===== src/Domain/Tasks/Types.antt =====
-- The unions and interfaces of packages/domain/src/tasks.ts that its functions share, and
-- `Schedulability` of packages/domain/src/context.ts.
use horseness.Common.{ℕ, Bool, true, false, String, Option, List, ◌≡◌, ◌↔◌, Eq, arith}

pub data TaskError : Type 0 where
  invalid_completion_policy illegal_task_transition invalid_attempt_generation : TaskError
  invalid_dependency dependency_cycle : TaskError
  invalid_attempt_state invalid_event_sequence receipt_pre_handoff : TaskError
  invalid_provider_handle illegal_dispatch_transition : TaskError
  retry_not_permitted duplicate_risk_not_permitted : TaskError

-- `TaskResolution` and `AttemptTerminalState` are the same three literals.
pub data Resolution : Type 0 where
  succeeded failed cancelled : Resolution

abbrev pub resolution_beq : Resolution → Resolution → Bool
resolution_beq succeeded succeeded = true
resolution_beq failed failed = true
resolution_beq cancelled cancelled = true
resolution_beq _ _ = false

pub resolution_beq_iff : (a b : Resolution) → (resolution_beq a b ≡ true) ↔ (a ≡ b)
resolution_beq_iff a b = ground arith

instance abbrev pub resolution_eq : Eq Resolution
resolution_eq = record { beq = resolution_beq; beq_iff = resolution_beq_iff }

-- `draft`, `active`, or a resolution.
pub data TaskLifecycle : Type 0 where
  draft active : TaskLifecycle
  resolved : Resolution → TaskLifecycle

pub data Schedulability : Type 0 where
  ineligible blocked ready running unknown_outcome terminal : Schedulability

pub data DispatchState : Type 0 where
  planned launch_intent_committed provider_handle_recorded acknowledged : DispatchState
  cancel_requested cancel_handed_off reconciliation_required unknown_outcome : DispatchState
  terminal : Resolution → DispatchState

pub data FindingCode : Type 0 where
  late_terminal_receipt conflicting_late_terminal_receipt : FindingCode
  conflicting_provider_handle late_dispatch_fact duplicate_risk_authorized : FindingCode

abbrev pub finding_beq : FindingCode → FindingCode → Bool
finding_beq late_terminal_receipt late_terminal_receipt = true
finding_beq conflicting_late_terminal_receipt conflicting_late_terminal_receipt = true
finding_beq conflicting_provider_handle conflicting_provider_handle = true
finding_beq late_dispatch_fact late_dispatch_fact = true
finding_beq duplicate_risk_authorized duplicate_risk_authorized = true
finding_beq _ _ = false

pub finding_beq_iff : (a b : FindingCode) → (finding_beq a b ≡ true) ↔ (a ≡ b)
finding_beq_iff a b = ground arith

instance abbrev pub finding_eq : Eq FindingCode
finding_eq = record { beq = finding_beq; beq_iff = finding_beq_iff }

pub record AttemptGenerationState : Type 0 where
  pub attempt_id : String
  pub generation : ℕ
  pub state : DispatchState
  pub binding_digest : String
  pub idempotency_key_digest : String
  pub provider_handle : Option String
  pub terminal_event_sequence : Option ℕ
  pub finding_codes : List FindingCode
