-- ===== src/Domain/Workspace/Genesis.antt =====
-- packages/domain/src/events.ts, packages/domain/src/receipt.ts: the genesis of a workspace, replayed.
use horseness.Common.{
  String, [], ◌∷◌, Bool-cases, inl, inr, true, str_eq, str_eq_iff, truthy, member, string_eq, ok,
  ◌≡◌, refl, ◌≢◌, arith,
}
use Prim.Native.String.{◌++◌}
use text.Mathlib.TextLemmas.{append-ne-nil_of_right_ne-nil, cons≢nil}
use horseness.Domain.Events.{
  EventEnvelope, PayloadFormat, seal_event_envelope, verify_event, verify_events,
  verify_event_chain,
}
use horseness.Domain.Workspace.{WorkspaceState, WorkspaceCreated, reduce_workspace_state}
use horseness.Domain.Workspace.Replay.{
  WorkspacePayload, created, payload_type, parse_payload, workspace_format, operational_event,
  event_of, replay_event, replay_events, deterministic_workspace_replay, WorkspaceGenesis,
  create_workspace_genesis,
}

str_eq_refl : (s : String) → str_eq s s ≡ true
str_eq_refl s = (str_eq_iff s s).1 refl

not_empty : (s : String) → s ≢ "" → truthy s ≡ true
unfolding truthy
not_empty s h = elim (Bool-cases (str_eq s "")) [
  | inl e ↦ absurd (h ((str_eq_iff s "").0 e))
  | inr e ↦ rw e refl
]

append_full : (s : String) → truthy (s ++ ":1") ≡ true
append_full s = not_empty (s ++ ":1") (append-ne-nil_of_right_ne-nil s cons≢nil)

type_full : truthy "WorkspaceCreatedV1" ≡ true
unfolding truthy str_eq
type_full = refl

-- The state of a new workspace.
abbrev pub new_workspace : WorkspaceCreated → WorkspaceState
new_workspace e = record {
  workspace_id = e.workspace_id;
  authority_principal_id = e.authority_principal_id;
  initial_grant_digest = e.initial_grant_digest;
  authority_consumption_marker = e.authority_consumption_marker;
  active_policy_digest = e.active_policy_digest;
  admissions = [];
  quotas = [];
  context_epoch = 0;
  last_event_sequence = 1;
}

module _ (payload_digest : WorkspacePayload → String)
    (envelope_digest : EventEnvelope WorkspacePayload → String) where
  abbrev format : PayloadFormat WorkspacePayload
  format = workspace_format payload_digest envelope_digest

  -- The genesis event of a workspace with a command's identifier and members that are not empty is a
  -- verified stream, and its replay gives the new workspace with these members.
  pub create_workspace_genesis_lem :
      (g : WorkspaceGenesis)
      → truthy g.command_id ≡ true
      → parse_payload (created g.members) ≡ true
      → deterministic_workspace_replay format ((create_workspace_genesis format g).0 ∷ [])
        ≡ ok (new_workspace g.members)
  unfolding create_workspace_genesis seal_event_envelope deterministic_workspace_replay
      verify_event_chain verify_events verify_event parse_payload payload_type replay_events
      replay_event event_of operational_event reduce_workspace_state member
  create_workspace_genesis_lem g named valid = ground (
    arith,
    append_full g.command_id,
    str_eq_refl g.members.workspace_id,
    str_eq_refl (payload_digest (created g.members)),
    str_eq_refl "WorkspaceCreatedV1",
    type_full,
    str_eq_refl (envelope_digest (create_workspace_genesis format g).0.envelope),
  )
