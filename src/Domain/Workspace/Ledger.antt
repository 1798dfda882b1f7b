-- ===== src/Domain/Workspace/Ledger.antt =====
-- packages/domain/src/receipt.ts: what the quotas of a workspace record.
use horseness.Common.{
  ℕ, any, String, Option, none, some, List, [], ◌∷◌, ◌++◌, Bool, true, false, ◌||◌, str_eq,
  string_eq, member, member-append, distinct, distinct-append, if◌then◌else◌, ok, Option-cases,
  Result-cases, Bool-cases, ◌≡◌, refl, inl, inr, arith,
}
use horseness.Common.Maps.{get, values, holds, get-put, any-put}
use horseness.Domain.Workspace.{
  WorkspaceState, WorkspaceAdmissionProjection, WorkspaceQuotaProjection,
  WorkspaceAdmissionRecorded, WorkspaceOperationalEvent, workspace_created,
  policy_reference_changed, workspace_admission_recorded, WorkspaceCreated, record_admission,
  reduce_workspace_state, next_admission, next_quota, has_decision, consumed_of, observed_of,
  WorkspaceAdmissionDecision,
}
use horseness.Domain.Workspace.Settled.{Recorded, record_admission-Recorded, run_workspace}

-- Whether a decision is in the history of some admission.
abbrev pub known : WorkspaceState → String → Bool
known s id = any (has_decision id) (values s.admissions)

-- A quota, given by what it has observed and consumed, lists each decision once, the consumed ones
-- among the observed ones, and each observed one is known.
pub record IsAccounted (s : WorkspaceState) (observed consumed : List String) : Type 0 where
  pub observed_once : distinct observed ≡ true
  pub consumed_once : distinct consumed ≡ true
  pub consumed_observed : (id : String) → member id consumed ≡ true → member id observed ≡ true
  pub observed_known : (id : String) → member id observed ≡ true → known s id ≡ true

abbrev pub IsLedger : WorkspaceState → Type 0
IsLedger s =
    (k : String) (q : WorkspaceQuotaProjection)
    → get k s.quotas ≡ some q
    → IsAccounted s q.observed_decision_event_ids q.consumed_decision_event_ids

has_decision-append :
    (id : String) (ds : List WorkspaceAdmissionDecision) (d : WorkspaceAdmissionDecision)
    → any (λ x. str_eq x.decision_event_id id) (ds ++ d ∷ [])
      ≡ (any (λ x. str_eq x.decision_event_id id) ds || str_eq d.decision_event_id id)
has_decision-append id [] d = ground arith
has_decision-append id (x ∷ xs) d = ground (arith, has_decision-append id xs d)

next_admission-decision :
    (id : String) (prior : Option WorkspaceAdmissionProjection) (e : WorkspaceAdmissionRecorded)
    → has_decision id (next_admission prior e)
      ≡ (holds (has_decision id) prior || str_eq e.decision_event_id id)
next_admission-decision id none e = ground arith
next_admission-decision id (some a) e = has_decision-append id a.history _

-- The decisions that are known after an admission is recorded.
known-Recorded :
    (s t : WorkspaceState) (n : ℕ) (e : WorkspaceAdmissionRecorded)
    → Recorded s t n e
    → (id : String) → known t id ≡ (known s id || str_eq e.decision_event_id id)
known-Recorded s t n e r id = rw (r.result) (
    any-put (has_decision id) (str_eq e.decision_event_id id) e.proposal_digest
      (next_admission (get e.proposal_digest s.admissions) e) s.admissions
      (next_admission-decision id (get e.proposal_digest s.admissions) e))

-- A quota that a fresh decision is charged to stays accounted.
module _ (s t : WorkspaceState) (id : String) (fresh : known s id ≡ false)
    (grows : (d : String) → known t d ≡ (known s d || str_eq id d)) where
  IsAccounted-grows :
      (observed consumed : List String)
      → IsAccounted s observed consumed
      → IsAccounted t observed consumed
  IsAccounted-grows observed consumed a = record {
    observed_once = a.observed_once;
    consumed_once = a.consumed_once;
    consumed_observed = a.consumed_observed;
    observed_known = λ d m. rw (grows d, a.observed_known d m) refl;
  }

  fresh_observed :
      (observed consumed : List String)
      → IsAccounted s observed consumed
      → member id observed ≡ false
  fresh_observed observed consumed a = elim (Bool-cases (member id observed)) [
    | inl m ↦ absurd (cc (a.observed_known id m, fresh))
    | inr m ↦ m
  ]

  IsAccounted-charged :
      (c : Bool) (observed consumed : List String)
      → IsAccounted s observed consumed
      → IsAccounted t (observed ++ id ∷ []) (if c then consumed ++ id ∷ [] else consumed)
  unfolding member
  IsAccounted-charged c observed consumed a =
      let out : member id observed ≡ false = fresh_observed observed consumed a in
      record {
        observed_once = ground (arith, distinct-append id observed, a.observed_once);
        consumed_once =
            ground (arith, distinct-append id consumed, a.consumed_once, a.consumed_observed id);
        consumed_observed = λ d m. ground (
          arith,
          member-append d observed (id ∷ []),
          member-append d consumed (id ∷ []),
          a.consumed_observed d,
        );
        observed_known =
            λ d m. ground (arith, member-append d observed (id ∷ []), grows d, a.observed_known d);
      }

IsAccounted-prior :
    (s : WorkspaceState) (k : String)
    → IsLedger s
    → IsAccounted s (observed_of (get k s.quotas)) (consumed_of (get k s.quotas))
unfolding distinct member
IsAccounted-prior s k ledger = elim (Option-cases (get k s.quotas)) [
  | inl e ↦ rw e (record {
    observed_once = refl;
    consumed_once = refl;
    consumed_observed = λ d m. m;
    observed_known = λ d m. cc;
  })
  | inr (q, e) ↦ rw e (ledger k q e)
]

record_admission-IsLedger :
    (s t : WorkspaceState) (n : ℕ) (e : WorkspaceAdmissionRecorded)
    → IsLedger s
    → record_admission s n e ≡ ok t
    → IsLedger t
record_admission-IsLedger s t n e ledger h k q g =
    let r : _ = record_admission-Recorded s t n e h in
    let grows : _ = known-Recorded s t n e r in
    let id : _ = e.decision_event_id in
    let charged : _ = next_quota (get e.quota_id s.quotas) e in
    let read : get k t.quotas ≡ (if str_eq e.quota_id k then some charged else get k s.quotas) =
      rw (r.result) (get-put e.quota_id k charged s.quotas) in
    elim (Bool-cases (str_eq e.quota_id k)) [
      | inl b ↦
          let same : next_quota (get e.quota_id s.quotas) e ≡ q = cc (read, g, b) in
          rw (← same) (
            IsAccounted-charged s t id r.fresh grows e.consumed _ _
              (IsAccounted-prior s e.quota_id ledger))
      | inr b ↦
          let old : get k s.quotas ≡ some q = cc (read, g, b) in
          IsAccounted-grows s t id r.fresh grows _ _ (ledger k q old)
    ]

IsLedger-same :
    (s t : WorkspaceState)
    → t.quotas ≡ s.quotas
    → t.admissions ≡ s.admissions
    → IsLedger s
    → IsLedger t
IsLedger-same s t quotas admissions ledger k q g =
    let old : IsAccounted s _ _ = ledger k q (rw quotas at g) in
    record {
      observed_once = old.observed_once;
      consumed_once = old.consumed_once;
      consumed_observed = old.consumed_observed;
      observed_known = λ d m. rw admissions (old.observed_known d m);
    }

pub reduce-IsLedger :
    (s t : WorkspaceState) (e : WorkspaceOperationalEvent)
    → IsLedger s
    → reduce_workspace_state (some s) e ≡ ok t
    → IsLedger t
unfolding reduce_workspace_state
reduce-IsLedger s t (workspace_created n e) ledger h = cc
reduce-IsLedger s t (policy_reference_changed n e) ledger h =
    IsLedger-same s t (ground arith) (ground arith) ledger
reduce-IsLedger s t (workspace_admission_recorded n e) ledger h =
    record_admission-IsLedger s t n e ledger h

run_workspace-IsLedger :
    (es : List WorkspaceOperationalEvent) (s : WorkspaceState)
    → IsLedger s
    → IsLedger (run_workspace s es)
unfolding run_workspace
run_workspace-IsLedger [] s ledger = ledger
run_workspace-IsLedger (e ∷ es) s ledger = elim (Result-cases (reduce_workspace_state (some s) e)) [
  | inl (t, q) ↦
      rw (q, run_workspace) (run_workspace-IsLedger es t (reduce-IsLedger s t e ledger q))
  | inr (x, q) ↦ rw (q, run_workspace) (run_workspace-IsLedger es s ledger)
]

-- From a workspace's genesis on, whatever events come: no quota lists a decision twice, what it has
-- consumed it has observed, and each decision that it has observed is in the history of an admission.
pub genesis-IsLedger :
    (n : ℕ) (e : WorkspaceCreated) (s : WorkspaceState) (es : List WorkspaceOperationalEvent)
    → reduce_workspace_state none (workspace_created n e) ≡ ok s
    → IsLedger (run_workspace s es)
unfolding reduce_workspace_state get
genesis-IsLedger n e s es h =
    let empty : s.quotas ≡ [] = ground arith in
    run_workspace-IsLedger es s (λ k q g. cc (rw empty at g))
