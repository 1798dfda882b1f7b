-- ===== src/Tests/Workspaces.antt =====
-- A workspace with one accepted admission.
use horseness.Common.{some, [], ◌∷◌, true, ◌≡◌, refl, str_eq, string_eq}
use horseness.Common.Maps.{get, put, values}
use horseness.Domain.Workspace.{
  WorkspaceState, WorkspaceAdmissionProjection, WorkspaceCreated, WorkspaceAdmissionRecorded,
  workspace_admission_recorded, accepted, rejected, reduce_workspace_state, admission_transitions,
}
use horseness.Domain.Workspace.Settled.{run_workspace, run_workspace-settled}
use horseness.Domain.Workspace.Ledger.{IsLedger, genesis-IsLedger}

abbrev created : WorkspaceCreated
created = record {
  workspace_id = "w";
  authority_principal_id = "p";
  initial_grant_digest = "g";
  authority_consumption_marker = "m";
  active_policy_digest = "policy";
}

abbrev decision : WorkspaceAdmissionRecorded
decision = record {
  workspace_id = "w";
  proposal_digest = "d";
  decision_event_id = "e2";
  state = accepted;
  quota_id = "q";
  quota_digest = "qd";
  consumed = true;
}

abbrev admission : WorkspaceAdmissionProjection
admission = record {
  proposal_digest = "d";
  decision_event_id = "e2";
  state = accepted;
  quota_id = "q";
  quota_digest = "qd";
  consumed = true;
  history = record { decision_event_id = "e2"; state = accepted; consumed = true } ∷ [];
}

abbrev genesis : WorkspaceState
genesis = record {
  workspace_id = "w";
  authority_principal_id = "p";
  initial_grant_digest = "g";
  authority_consumption_marker = "m";
  active_policy_digest = "policy";
  admissions = [];
  quotas = [];
  context_epoch = 0;
  last_event_sequence = 1;
}

abbrev after : WorkspaceState
after = run_workspace genesis (workspace_admission_recorded 2 decision ∷ [])

genesis-IsLedger_example :
    IsLedger (run_workspace genesis (workspace_admission_recorded 2 decision ∷ []))
unfolding reduce_workspace_state
genesis-IsLedger_example =
    genesis-IsLedger 1 created genesis (workspace_admission_recorded 2 decision ∷ []) refl

abbrev again : WorkspaceAdmissionRecorded
again = record decision { decision_event_id = "e3"; state = rejected }

run_workspace-settled_example :
    get "d" (run_workspace after (workspace_admission_recorded 3 again ∷ [])).admissions
    ≡ some admission
unfolding run_workspace reduce_workspace_state get put values str_eq admission_transitions
run_workspace-settled_example =
    run_workspace-settled (workspace_admission_recorded 3 again ∷ []) after "d" admission refl refl
