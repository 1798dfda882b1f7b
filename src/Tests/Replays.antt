-- ===== src/Tests/Replays.antt =====
-- The stream of a new workspace, with digests that name what they are of.
use horseness.Common.{String, List, [], ◌∷◌, ok, ◌≡◌, refl, str_eq, string_eq, truthy, member}
use horseness.Domain.Events.{
  EventEnvelope, HashedEventEnvelope, PayloadFormat, seal_event_envelope, verify_event,
  verify_events, verify_event_chain,
}
use horseness.Domain.Events.Tampering.{verify_event_chain-same}
use horseness.Domain.Workspace.{WorkspaceCreated, reduce_workspace_state}
use horseness.Domain.Workspace.Replay.{
  WorkspacePayload, payload_type, parse_payload, workspace_format, operational_event, event_of,
  replay_event, replay_events, deterministic_workspace_replay, WorkspaceGenesis,
  create_workspace_genesis,
}
use horseness.Domain.Workspace.Counting.{Replayed, deterministic_workspace_replay-Replayed}
use horseness.Domain.Workspace.Genesis.{new_workspace, create_workspace_genesis_lem}

abbrev members : WorkspaceCreated
members = record {
  workspace_id = "w";
  authority_principal_id = "p";
  initial_grant_digest = "g";
  authority_consumption_marker = "m";
  active_policy_digest = "policy";
}

abbrev request : WorkspaceGenesis
request = record { command_id = "c"; members = members }

abbrev of_type : WorkspacePayload → String
of_type p = "payload"

abbrev of_event : EventEnvelope WorkspacePayload → String
of_event e = e.event_id

abbrev format : PayloadFormat WorkspacePayload
format = workspace_format of_type of_event

abbrev stream : List (HashedEventEnvelope WorkspacePayload)
stream = (create_workspace_genesis format request).0 ∷ []

create_workspace_genesis_lem_example :
    deterministic_workspace_replay format stream ≡ ok (new_workspace members)
unfolding truthy str_eq parse_payload
create_workspace_genesis_lem_example =
    create_workspace_genesis_lem of_type of_event request refl refl

deterministic_workspace_replay-Replayed_example : Replayed stream (new_workspace members)
unfolding create_workspace_genesis seal_event_envelope deterministic_workspace_replay
    verify_event_chain verify_events verify_event parse_payload payload_type replay_events
    replay_event event_of operational_event reduce_workspace_state member truthy str_eq
deterministic_workspace_replay-Replayed_example =
    deterministic_workspace_replay-Replayed format stream (new_workspace members) refl

verify_event_chain-same_example : stream ≡ stream
unfolding create_workspace_genesis seal_event_envelope verify_event_chain verify_events verify_event
    parse_payload payload_type truthy str_eq
verify_event_chain-same_example =
    verify_event_chain-same format stream stream ((λ h. refl, tt), tt) refl refl refl refl
