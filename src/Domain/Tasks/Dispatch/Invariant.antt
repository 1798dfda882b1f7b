-- ===== src/Domain/Tasks/Dispatch/Invariant.antt =====
-- What holds of an attempt generation between two dispatch inputs.
use horseness.Common.{
  ℕ, ◌≤◌, String, Option, none, some, List, [], ◌∷◌, ◌++◌, true, false, member, member-append,
  distinct, Result-cases, ok, ◌≡◌, inl, inr, truthy, arith,
}
use horseness.Domain.Tasks.Types.{
  DispatchState, FindingCode, AttemptGenerationState, planned, launch_intent_committed,
  provider_handle_recorded, acknowledged, finding_eq, conflicting_provider_handle,
  late_dispatch_fact, late_terminal_receipt, conflicting_late_terminal_receipt,
}
use horseness.Domain.Tasks.Dispatch.{DispatchInput, reduce_dispatch, run_dispatch, terminal_receipt}

-- Adding a finding keeps the codes without repetition.
distinct-concat :
    (c : FindingCode) (cs : List FindingCode)
    → member c cs ≡ false
    → distinct cs ≡ true
    → distinct (cs ++ c ∷ []) ≡ true
unfolding distinct
distinct-concat c [] m d = ground arith
distinct-concat c (x ∷ cs) m d = ground (
  arith,
  distinct-concat c cs,
  member-append x cs (c ∷ []),
  finding_eq.beq_iff x c,
  finding_eq.beq_iff c x,
)

-- An event sequence is recorded exactly in a terminal state, and it is not 0.
abbrev pub Sequenced : DispatchState → Option ℕ → Type 0
Sequenced (DispatchState.terminal _) (some n) = 1 ≤ n
Sequenced (DispatchState.terminal _) none = ⊥
Sequenced _ none = Unit
Sequenced _ (some _) = ⊥

-- No handle before the launch, and a handle that is not empty from its recording to the
-- acknowledgement.
abbrev pub Handled : DispatchState → Option String → Type 0
Handled planned none = Unit
Handled planned (some _) = ⊥
Handled launch_intent_committed none = Unit
Handled launch_intent_committed (some _) = ⊥
Handled provider_handle_recorded (some h) = truthy h ≡ true
Handled provider_handle_recorded none = ⊥
Handled acknowledged (some h) = truthy h ≡ true
Handled acknowledged none = ⊥
Handled _ _ = Unit

pub record IsValid (s : AttemptGenerationState) : Type 0 where
  pub numbered : 1 ≤ s.generation
  pub sequenced : Sequenced s.state s.terminal_event_sequence
  pub handled : Handled s.state s.provider_handle
  pub unrepeated : distinct s.finding_codes ≡ true

-- Every accepted input keeps the invariant.
pub reduce_dispatch-IsValid :
    (s t : AttemptGenerationState) (i : DispatchInput)
    → IsValid s
    → reduce_dispatch s i ≡ ok t
    → IsValid t
unfolding reduce_dispatch
reduce_dispatch-IsValid s t (terminal_receipt r n x) v h = ground (
  arith,
  distinct-concat late_terminal_receipt s.finding_codes,
  distinct-concat conflicting_late_terminal_receipt s.finding_codes,
  distinct-concat conflicting_provider_handle s.finding_codes,
)
reduce_dispatch-IsValid s t i v h = ground (
  arith,
  distinct-concat late_dispatch_fact s.finding_codes,
  distinct-concat conflicting_provider_handle s.finding_codes,
)

-- From a valid generation every list of inputs, refused ones included, leads to a valid one: it
-- has an event sequence exactly in a terminal state, no handle before the launch, a handle that is
-- not empty once it is recorded or acknowledged, and no finding twice.
pub run_dispatch-IsValid :
    (s : AttemptGenerationState) (is : List DispatchInput) → IsValid s → IsValid (run_dispatch s is)
unfolding run_dispatch
run_dispatch-IsValid s [] v = v
run_dispatch-IsValid s (i ∷ is) v = elim (Result-cases (reduce_dispatch s i)) [
  | inl (t, e) ↦ rw e (run_dispatch-IsValid t is (reduce_dispatch-IsValid s t i v e))
  | inr (x, e) ↦ rw e (run_dispatch-IsValid s is v)
]
