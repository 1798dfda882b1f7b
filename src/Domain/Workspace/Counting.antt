-- ===== src/Domain/Workspace/Counting.antt =====
-- packages/domain/src/receipt.ts: the state that the replay of a workspace's stream gives.
use horseness.Common.{
  ℕ, ◌+◌, Option, none, some, List, [], ◌∷◌, length, Result, ok, err, >>=-eq-ok, ok_injective,
  guard-eq-ok, ◌≡◌, refl, ◌∙◌, arith,
}
use horseness.Domain.Events.{verify_event_chain, HashedEventEnvelope, PayloadFormat}
use horseness.Domain.Workspace.{
  WorkspaceState, WorkspaceError, WorkspaceOperationalEvent, WorkspaceAdmissionRecorded,
  workspace_created, policy_reference_changed, workspace_admission_recorded, record_admission,
  reduce_workspace_state,
}
use horseness.Common.Maps.{get}
use horseness.Domain.Workspace.Ledger.{IsLedger, reduce-IsLedger}
use horseness.Domain.Workspace.Settled.{record_admission-Recorded}
use horseness.Domain.Workspace.Replay.{
  WorkspacePayload, event_of, lift_reduction, lift_chain, starts_workspace, invalid_genesis,
  replay_event, replay_events, deterministic_workspace_replay,
}

-- A state that is `n` events further than another, in the same workspace.
pub record Further (n : ℕ) (s t : WorkspaceState) : Type 0 where
  pub sequence : t.last_event_sequence ≡ s.last_event_sequence + n
  pub epoch : t.context_epoch ≡ s.context_epoch + n
  pub same_workspace : t.workspace_id ≡ s.workspace_id

record_admission-Further :
    (s t : WorkspaceState) (n : ℕ) (e : WorkspaceAdmissionRecorded)
    → record_admission s n e ≡ ok t
    → Further 1 s t
record_admission-Further s t n e h =
    let r : _ = record_admission-Recorded s t n e h in
    rw (r.result) (record { sequence = r.sequence; epoch = refl; same_workspace = refl })

reduce-Further :
    (s t : WorkspaceState) (e : WorkspaceOperationalEvent)
    → reduce_workspace_state (some s) e ≡ ok t
    → Further 1 s t
unfolding reduce_workspace_state
reduce-Further s t (workspace_created n e) h = cc
reduce-Further s t (policy_reference_changed n e) h = record {
  sequence = ground arith;
  epoch = ground arith;
  same_workspace = ground arith;
}
reduce-Further s t (workspace_admission_recorded n e) h = record_admission-Further s t n e h

lift_reduction-eq-ok :
    (m : Result WorkspaceError WorkspaceState) (t : WorkspaceState)
    → lift_reduction m ≡ ok t
    → m ≡ ok t
lift_reduction-eq-ok (ok a) t h = cc h
lift_reduction-eq-ok (err e) t h = cc h

replay_event-reduces :
    (state : Option WorkspaceState) (t : WorkspaceState)
    (item : HashedEventEnvelope WorkspacePayload)
    → replay_event state item ≡ ok t
    → (e : WorkspaceOperationalEvent) × (event_of item ≡ ok e)
      × (reduce_workspace_state state e ≡ ok t)
unfolding replay_event
replay_event-reduces state t item h =
    let (e, is, rest) = >>=-eq-ok (event_of item) _ h in
    (e, is, lift_reduction-eq-ok (reduce_workspace_state state e) t rest)

replay_events-Further :
    (s t : WorkspaceState) (items : List (HashedEventEnvelope WorkspacePayload))
    → replay_events (some s) items ≡ ok t
    → Further (length items) s t
unfolding replay_events
replay_events-Further s t [] h =
    rw (ok_injective h)
      (record { sequence = omega arith; epoch = omega arith; same_workspace = refl })
replay_events-Further s t (item ∷ items) h =
    let (u, here, rest) = >>=-eq-ok (replay_event (some s) item) _ h in
    let (e, is, step) = replay_event-reduces (some s) u item here in
    let one : Further 1 s u = reduce-Further s u e step in
    let more : Further (length items) u t = replay_events-Further u t items rest in
    record {
      sequence = omega (arith, one.sequence, more.sequence);
      epoch = omega (arith, one.epoch, more.epoch);
      same_workspace = more.same_workspace ∙ one.same_workspace;
    }

replay_events-IsLedger :
    (s t : WorkspaceState) (items : List (HashedEventEnvelope WorkspacePayload))
    → IsLedger s
    → replay_events (some s) items ≡ ok t
    → IsLedger t
unfolding replay_events
replay_events-IsLedger s t [] ledger h = rw (← ok_injective h) ledger
replay_events-IsLedger s t (item ∷ items) ledger h =
    let (u, here, rest) = >>=-eq-ok (replay_event (some s) item) _ h in
    let (e, is, step) = replay_event-reduces (some s) u item here in
    replay_events-IsLedger u t items (reduce-IsLedger s u e ledger step) rest

-- The state that the first event leaves.
reduce-genesis :
    (s : WorkspaceState) (e : WorkspaceOperationalEvent)
    → reduce_workspace_state none e ≡ ok s
    → (s.last_event_sequence ≡ 1) × (s.context_epoch ≡ 0) × IsLedger s
unfolding reduce_workspace_state get
reduce-genesis s (workspace_created n e) h =
    let empty : s.quotas ≡ [] = ground arith in
    (ground arith, ground arith, λ k q g. cc (rw empty at g))
reduce-genesis s (policy_reference_changed n e) h = cc
reduce-genesis s (workspace_admission_recorded n e) h = cc

-- What the replay of a stream gives.
pub record Replayed (items : List (HashedEventEnvelope WorkspacePayload)) (s : WorkspaceState)
    : Type 0 where
  pub sequence : s.last_event_sequence ≡ length items
  pub epoch : s.context_epoch + 1 ≡ length items
  pub ledger : IsLedger s

-- When the replay of a workspace's stream succeeds, the state's last sequence number is the number of
-- the events and its epoch one less; and no quota lists a decision twice, what it has consumed it
-- has observed, and each decision that it has observed is in the history of an admission.
pub deterministic_workspace_replay-Replayed :
    (format : PayloadFormat WorkspacePayload) (items : List (HashedEventEnvelope WorkspacePayload))
    (s : WorkspaceState)
    → deterministic_workspace_replay format items ≡ ok s
    → Replayed items s
unfolding deterministic_workspace_replay replay_events verify_event_chain
deterministic_workspace_replay-Replayed format [] s h = absurd (cc h)
deterministic_workspace_replay-Replayed format (item ∷ items) s h =
    let (u, verified, replayed) =
      >>=-eq-ok (lift_chain (verify_event_chain format (item ∷ items))) _ h in
    let (starts, rest) = guard-eq-ok (starts_workspace (item ∷ items)) invalid_genesis replayed in
    let (t, here, later) = >>=-eq-ok (replay_event none item) _ rest in
    let (e, is, step) = replay_event-reduces none t item here in
    let (last, epoch, ledger) = reduce-genesis t e step in
    let more : Further (length items) t s = replay_events-Further t s items later in
    record {
      sequence = omega (arith, last, more.sequence);
      epoch = omega (arith, epoch, more.epoch);
      ledger = replay_events-IsLedger t s items ledger later;
    }
