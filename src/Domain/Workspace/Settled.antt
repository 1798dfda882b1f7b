-- ===== src/Domain/Workspace/Settled.antt =====
-- packages/domain/src/receipt.ts: what a decision on an admission settles.
use horseness.Common.{
  ℕ, ◌+◌, any, ◌≢◌, ==_iff, String, some, List, [], ◌∷◌, Bool, true, false, str_eq, str_eq_iff,
  string_eq, ok, err, Result-cases, Bool-cases, ◌≡◌, inl, inr, arith,
}
use horseness.Common.Maps.{get, put, values, get-put}
use horseness.Domain.Workspace.{
  WorkspaceState, WorkspaceAdmissionProjection, WorkspaceAdmissionRecorded,
  WorkspaceOperationalEvent, workspace_created, policy_reference_changed,
  workspace_admission_recorded, WorkspaceAdmissionDecisionState, accepted, rejected, conflicted,
  quarantined, approval_required, admission_transitions, validate_admission_transition, check_prior,
  record_admission, reduce_workspace_state, next_admission, next_quota, is_accepted, has_decision,
  same_quota,
}

abbrev pub is_settled : WorkspaceAdmissionDecisionState → Bool
is_settled accepted = true
is_settled rejected = true
is_settled conflicted = true
is_settled quarantined = false
is_settled approval_required = false

check_prior-settled :
    (a : WorkspaceAdmissionProjection) (e : WorkspaceAdmissionRecorded)
    → is_settled a.state ≡ true
    → check_prior (some a) e ≢ ok tt
unfolding check_prior validate_admission_transition admission_transitions
check_prior-settled a e h k = ground arith

-- The facts that the checks of a recorded admission leave.
pub record Recorded (s t : WorkspaceState) (n : ℕ) (e : WorkspaceAdmissionRecorded) : Type 0 where
  pub sequence : n ≡ s.last_event_sequence + 1
  pub charged : e.consumed ≡ is_accepted e.state
  pub fresh : any (has_decision e.decision_event_id) (values s.admissions) ≡ false
  pub prior : check_prior (get e.proposal_digest s.admissions) e ≡ ok tt
  pub quota : same_quota (get e.quota_id s.quotas) e.quota_digest ≡ true
  pub result : t ≡ record s {
    admissions =
        put e.proposal_digest (next_admission (get e.proposal_digest s.admissions) e) s.admissions;
    quotas = put e.quota_id (next_quota (get e.quota_id s.quotas) e) s.quotas;
    context_epoch = s.context_epoch + 1;
    last_event_sequence = n;
  }

pub record_admission-Recorded :
    (s t : WorkspaceState) (n : ℕ) (e : WorkspaceAdmissionRecorded)
    → record_admission s n e ≡ ok t
    → Recorded s t n e
unfolding record_admission
record_admission-Recorded s t n e h = record {
  sequence = ground (arith, ==_iff n (s.last_event_sequence + 1));
  charged = ground arith;
  fresh = ground arith;
  prior = ground arith;
  quota = ground arith;
  result = ground arith;
}

record_admission-settled :
    (s t : WorkspaceState) (n : ℕ) (e : WorkspaceAdmissionRecorded) (d : String)
    (a : WorkspaceAdmissionProjection)
    → record_admission s n e ≡ ok t
    → is_settled a.state ≡ true
    → get d s.admissions ≡ some a
    → get d t.admissions ≡ some a
unfolding check_prior
record_admission-settled s t n e d a h settled g =
    let r : _ = record_admission-Recorded s t n e h in
    elim (Bool-cases (str_eq e.proposal_digest d)) [
      | inl b ↦
          let same : e.proposal_digest ≡ d = (str_eq_iff e.proposal_digest d).0 b in
          absurd (check_prior-settled a e settled (rw (same, g) at r.prior))
      | inr b ↦
          rw
            (
              r.result,
              get-put e.proposal_digest d (next_admission (get e.proposal_digest s.admissions) e)
                  s.admissions,
              b,
            )
            g
    ]

-- Events one after another, each refused event leaving the state as it was.
unfoldable pub run_workspace : WorkspaceState → List WorkspaceOperationalEvent → WorkspaceState
run_workspace s [] = s
run_workspace s (e ∷ es) =
    run_workspace (elim (reduce_workspace_state (some s) e) [ ok t ↦ t | err _ ↦ s ]) es

reduce-settled :
    (s t : WorkspaceState) (e : WorkspaceOperationalEvent) (d : String)
    (a : WorkspaceAdmissionProjection)
    → reduce_workspace_state (some s) e ≡ ok t
    → is_settled a.state ≡ true
    → get d s.admissions ≡ some a
    → get d t.admissions ≡ some a
unfolding reduce_workspace_state
reduce-settled s t (workspace_created n e) d a h settled g = cc
reduce-settled s t (policy_reference_changed n e) d a h settled g = ground arith
reduce-settled s t (workspace_admission_recorded n e) d a h settled g =
    record_admission-settled s t n e d a h settled g

-- The admission of a proposal that is accepted, rejected or conflicted stays as it is, with its
-- quota and its history, whatever events come.
pub run_workspace-settled :
    (es : List WorkspaceOperationalEvent) (s : WorkspaceState) (d : String)
    (a : WorkspaceAdmissionProjection)
    → is_settled a.state ≡ true
    → get d s.admissions ≡ some a
    → get d (run_workspace s es).admissions ≡ some a
unfolding run_workspace
run_workspace-settled [] s d a settled g = g
run_workspace-settled (e ∷ es) s d a settled g =
    elim (Result-cases (reduce_workspace_state (some s) e)) [
      | inl (t, q) ↦
          rw (q, run_workspace)
            (run_workspace-settled es t d a settled (reduce-settled s t e d a q settled g))
      | inr (x, q) ↦ rw (q, run_workspace) (run_workspace-settled es s d a settled g)
    ]
