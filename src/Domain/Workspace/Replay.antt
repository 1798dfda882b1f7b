-- ===== src/Domain/Workspace/Replay.antt =====
-- packages/domain/src/receipt.ts: the replay of a workspace's stream; the payloads of such a stream,
-- as packages/domain/src/events.ts parses them, and its genesis.
use horseness.Common.{
  ℕ, String, Option, none, some, List, [], ◌∷◌, every, Bool, true, false, ◌&&◌, str_eq, truthy,
  member, string_eq, Result, if◌then◌else◌, ok, err, ◌>>=◌, ◌>>◌, guard,
}
use Prim.Native.String.{◌++◌}
use horseness.Domain.Events.{
  ChainError, workspace, kind_beq, EventEnvelope, HashedEventEnvelope, PayloadFormat,
  seal_event_envelope, verify_event_chain,
}
use horseness.Domain.Forks.{WorkspaceOnlyCursor}
use horseness.Domain.Workspace.{
  WorkspaceError, WorkspaceState, WorkspaceCreated, PolicyReferenceChanged,
  WorkspaceAdmissionRecorded, WorkspaceOperationalEvent, workspace_created,
  policy_reference_changed, workspace_admission_recorded, WorkspaceAdmissionDecisionState, accepted,
  rejected, conflicted, quarantined, approval_required, reduce_workspace_state,
}

-- A recorded admission as the stream holds it, with the two enumerated members as texts.
pub record AdmissionPayload : Type 0 where
  pub workspace_id : String
  pub proposal_digest : String
  pub decision_event_id : String
  pub state : String
  pub quota_id : String
  pub quota_digest : String
  pub consumed : String

-- The payloads of a workspace's stream.
pub data WorkspacePayload : Type 0 where
  created : WorkspaceCreated → WorkspacePayload
  policy_changed : PolicyReferenceChanged → WorkspacePayload
  admission_recorded : AdmissionPayload → WorkspacePayload

unfoldable pub payload_type : WorkspacePayload → String
payload_type (created _) = "WorkspaceCreatedV1"
payload_type (policy_changed _) = "PolicyReferenceChangedV1"
payload_type (admission_recorded _) = "WorkspaceAdmissionRecordedV1"

abbrev payload_workspace : WorkspacePayload → String
payload_workspace (created p) = p.workspace_id
payload_workspace (policy_changed p) = p.workspace_id
payload_workspace (admission_recorded p) = p.workspace_id

unfoldable pub decision_state : String → Option WorkspaceAdmissionDecisionState
decision_state t =
    if str_eq t "accepted"
    then some accepted
    else if str_eq t "rejected"
    then some rejected
    else if str_eq t "conflicted"
    then some conflicted
    else if str_eq t "quarantined"
    then some quarantined
    else if str_eq t "approval_required"
    then some approval_required
    else none

abbrev yes_no : String → Option Bool
yes_no t = if str_eq t "yes" then some true else if str_eq t "no" then some false else none

abbrev is_some {ℓ} : {A : Type ℓ} → Option A → Bool
is_some none = false
is_some (some _) = true

-- `parseDomainEventPayloadV1`: no member is the empty text, and the enumerated ones are as listed.
unfoldable pub parse_payload : WorkspacePayload → Bool
parse_payload (created p) = every truthy (
    p.workspace_id ∷ p.authority_principal_id ∷ p.initial_grant_digest
    ∷ p.authority_consumption_marker ∷ p.active_policy_digest ∷ [])
parse_payload (policy_changed p) = every truthy (p.workspace_id ∷ p.active_policy_digest ∷ [])
parse_payload (admission_recorded p) =
    every truthy (
      p.workspace_id ∷ p.proposal_digest ∷ p.decision_event_id ∷ p.state ∷ p.quota_id
      ∷ p.quota_digest ∷ p.consumed ∷ [])
    && is_some (decision_state p.state)
    && is_some (yes_no p.consumed)

-- The two digests are SHA-256 digests of canonical JSON.
abbrev pub workspace_format :
    (WorkspacePayload → String)
    → (EventEnvelope WorkspacePayload → String)
    → PayloadFormat WorkspacePayload
workspace_format payload envelope = record {
  is_supported = λ p. true;
  is_valid = parse_payload;
  event_type = payload_type;
  payload_digest = payload;
  envelope_digest = envelope;
}

pub data ReplayError : Type 0 where
  chain : ChainError → ReplayError
  reduction : WorkspaceError → ReplayError
  event_identity_invalid malformed_event unsupported_event_type invalid_genesis : ReplayError

abbrev pub lift_reduction {ℓ} : {A : Type ℓ} → Result WorkspaceError A → Result ReplayError A
lift_reduction (ok a) = ok a
lift_reduction (err e) = err (reduction e)

abbrev pub lift_chain {ℓ} : {A : Type ℓ} → Result ChainError A → Result ReplayError A
lift_chain (ok a) = ok a
lift_chain (err e) = err (chain e)

abbrev expect {ℓ} : {A : Type ℓ} → Option A → Result ReplayError A
expect none = err malformed_event
expect (some a) = ok a

-- The event of an admission's payload, with the checks of its two enumerated members.
unfoldable pub admission_event : AdmissionPayload → Result ReplayError WorkspaceAdmissionRecorded
unfolding decision_state
admission_event p = do
  guard (truthy p.consumed) malformed_event
  consumed ← expect (yes_no p.consumed)
  guard (truthy p.state) malformed_event
  state ← expect (decision_state p.state)
  guard (every truthy (p.proposal_digest ∷ p.decision_event_id ∷ p.quota_id ∷ p.quota_digest ∷ []))
      malformed_event
  ok (record {
    workspace_id = p.workspace_id;
    proposal_digest = p.proposal_digest;
    decision_event_id = p.decision_event_id;
    state = state;
    quota_id = p.quota_id;
    quota_digest = p.quota_digest;
    consumed = consumed;
  })

-- The event of a payload, numbered by its envelope.
unfoldable pub operational_event :
    ℕ → WorkspacePayload → Result ReplayError WorkspaceOperationalEvent
unfolding admission_event
operational_event n (created p) = do
  guard
      (every truthy (
        p.authority_principal_id ∷ p.initial_grant_digest ∷ p.authority_consumption_marker
        ∷ p.active_policy_digest ∷ []))
      malformed_event
  ok (workspace_created n p)
operational_event n (policy_changed p) = do
  guard (truthy p.active_policy_digest) malformed_event
  ok (policy_reference_changed n p)
operational_event n (admission_recorded p) = do
  e ← admission_event p
  ok (workspace_admission_recorded n e)

-- The event that an envelope stands for. The envelope's type is its payload's once the chain is
-- verified.
unfoldable pub event_of :
    HashedEventEnvelope WorkspacePayload → Result ReplayError WorkspaceOperationalEvent
unfolding operational_event
event_of item = do
  guard
      (kind_beq item.envelope.stream_kind workspace
        && str_eq item.envelope.stream_id item.envelope.workspace_id)
      event_identity_invalid
  guard
      (truthy (payload_workspace item.envelope.payload)
        && str_eq (payload_workspace item.envelope.payload) item.envelope.workspace_id)
      malformed_event
  guard
      (member item.envelope.event_type
        ("WorkspaceCreatedV1" ∷ "PolicyReferenceChangedV1" ∷ "WorkspaceAdmissionRecordedV1" ∷ []))
      unsupported_event_type
  operational_event item.envelope.sequence item.envelope.payload

-- One turn of the replay's loop.
unfoldable pub replay_event :
    Option WorkspaceState → HashedEventEnvelope WorkspacePayload → Result ReplayError WorkspaceState
unfolding event_of
replay_event state item = do e ← event_of item; lift_reduction (reduce_workspace_state state e)

unfoldable pub replay_events :
    Option WorkspaceState
    → List (HashedEventEnvelope WorkspacePayload)
    → Result ReplayError WorkspaceState
unfolding replay_event
replay_events none [] = err invalid_genesis
replay_events (some s) [] = ok s
replay_events state (item ∷ items) = do s ← replay_event state item; replay_events (some s) items

abbrev pub starts_workspace : List (HashedEventEnvelope WorkspacePayload) → Bool
starts_workspace [] = false
starts_workspace (first ∷ _) = kind_beq first.envelope.stream_kind workspace

unfoldable pub deterministic_workspace_replay :
    PayloadFormat WorkspacePayload
    → List (HashedEventEnvelope WorkspacePayload)
    → Result ReplayError WorkspaceState
unfolding replay_events
deterministic_workspace_replay format items = do
  lift_chain (verify_event_chain format items)
  guard (starts_workspace items) invalid_genesis
  replay_events none items

pub record WorkspaceGenesis : Type 0 where
  pub command_id : String
  pub members : WorkspaceCreated

-- The first event of a workspace, and the cursor that it leaves.
unfoldable pub create_workspace_genesis :
    PayloadFormat WorkspacePayload
    → WorkspaceGenesis
    → HashedEventEnvelope WorkspacePayload × WorkspaceOnlyCursor
unfolding payload_type
create_workspace_genesis format g =
    let event : HashedEventEnvelope WorkspacePayload = seal_event_envelope format (record {
      stream_kind = workspace;
      workspace_id = g.members.workspace_id;
      stream_id = g.members.workspace_id;
      sequence = 1;
      event_id = g.command_id ++ ":1";
      event_type = payload_type (created g.members);
      principal_id = g.members.authority_principal_id;
      causation_id = g.command_id;
      correlation_id = g.command_id;
      idempotency_key = g.command_id;
      prior_envelope_hash = none;
      payload_hash = "";
      payload = created g.members;
    }) in
    (
      event,
      record {
        workspace_id = g.members.workspace_id;
        workspace_sequence = 1;
        workspace_envelope_hash = event.envelope_hash;
        workspace_context_epoch = 0;
      },
    )
