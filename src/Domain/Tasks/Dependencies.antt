-- ===== src/Domain/Tasks/Dependencies.antt =====
-- packages/domain/src/tasks.ts: dependency edges, and when they release a task.
use horseness.Common.{
  ℕ, String, Option, none, some, List, [], ◌∷◌, ◌++◌, Bool, true, false, not, ◌&&◌, ◌||◌, ◌≡◌,
  every, any, member, distinct, string_eq, Result, ok, err, ◌>>=◌, ◌>>◌, guard, Bool-cases,
  if◌then◌else◌, str_eq, truthy, arith, inl, inr, refl, ◌∙◌,
}
use horseness.Domain.Tasks.Types.{
  TaskError, invalid_dependency, Resolution, succeeded, cancelled, resolution_beq, resolution_eq,
}

pub data EdgeType : Type 0 where
  requires_success requires_terminal requires_outcome : EdgeType

abbrev pub edge_type_beq : EdgeType → EdgeType → Bool
edge_type_beq requires_success requires_success = true
edge_type_beq requires_terminal requires_terminal = true
edge_type_beq requires_outcome requires_outcome = true
edge_type_beq _ _ = false

pub record DependencyEdge : Type 0 where
  pub edge_id : String
  pub source_task_id : String
  pub dependent_task_id : String
  pub edge_type : EdgeType
  pub allowed_outcomes : Option (List Resolution)
  pub release_predicate : String
  pub propagate_cancellation : Bool

-- `DependencyOutcomeV1` of packages/domain/src/context.ts, with the source's resolution.
pub record DependencyOutcome : Type 0 where
  pub edge_id : String
  pub edge_type : EdgeType
  pub source_task_id : String
  pub task_resolution_event_sequence : ℕ
  pub task_resolution_digest : String
  pub winning_generation : Option ℕ
  pub resolution : Resolution

abbrev outcomes_ok : EdgeType → Option (List Resolution) → Bool
outcomes_ok requires_outcome none = false
outcomes_ok requires_outcome (some []) = false
outcomes_ok requires_outcome (some (r ∷ rs)) = distinct (r ∷ rs)
outcomes_ok _ none = true
outcomes_ok _ (some _) = false

unfoldable pub edge_ok : DependencyEdge → Bool
edge_ok e =
    truthy e.edge_id
    && truthy e.source_task_id
    && truthy e.dependent_task_id
    && not (str_eq e.source_task_id e.dependent_task_id)
    && outcomes_ok e.edge_type e.allowed_outcomes

unfoldable pub validate_dependency_edge : DependencyEdge → Result TaskError (Unit {0})
unfolding edge_ok
validate_dependency_edge e = guard (edge_ok e) invalid_dependency

abbrev includes : Option (List Resolution) → Resolution → Bool
includes none r = false
includes (some rs) r = member r rs

abbrev pub releases : EdgeType → Option (List Resolution) → Resolution → Bool
releases requires_success allowed r = resolution_beq r succeeded
releases requires_terminal allowed r = true
releases requires_outcome allowed r = includes allowed r

unfoldable pub dependency_satisfied : DependencyEdge → Resolution → Result TaskError Bool
unfolding validate_dependency_edge
dependency_satisfied e r = do
  validate_dependency_edge e
  ok (releases e.edge_type e.allowed_outcomes r)

pub data ReasonCode : Type 0 where
  cancellation_propagated dependency_unknown dependency_unsatisfied : ReasonCode

pub record Evaluation : Type 0 where
  pub satisfied : Bool
  pub unknown : Bool
  pub cancellation_propagated : Bool
  pub reason_codes : List ReasonCode

-- The three flags of the loop.
pub record Flags : Type 0 where
  pub unknown : Bool
  pub unsatisfied : Bool
  pub cancellation : Bool

-- `outcomes.get(edge.edgeId)`, when it is about the same source and of the same type.
abbrev pub known_outcome :
    (String → Option DependencyOutcome) → DependencyEdge → Option DependencyOutcome
known_outcome outcomes e = elim (outcomes e.edge_id) [
  | none ↦ none
  | some o ↦
      if not (str_eq o.source_task_id e.source_task_id)
        || not (edge_type_beq o.edge_type e.edge_type)
      then none
      else some o
]

-- The body of the loop for one edge.
unfoldable pub evaluate_edge :
    (String → Option DependencyOutcome) → DependencyEdge → Flags → Result TaskError Flags
unfolding dependency_satisfied
evaluate_edge outcomes e f = do
  validate_dependency_edge e
  elim (known_outcome outcomes e) [
    | none ↦ ok (record f { unknown = true })
    | some o ↦ do
      released ← dependency_satisfied e o.resolution
      ok (record f {
        unsatisfied = if released then f.unsatisfied else true;
        cancellation =
            if resolution_beq o.resolution cancelled && e.propagate_cancellation
            then true
            else f.cancellation;
      })
  ]

unfoldable pub evaluate_edges :
    (String → Option DependencyOutcome) → List DependencyEdge → Flags → Result TaskError Flags
evaluate_edges outcomes [] f = ok f
evaluate_edges outcomes (e ∷ es) f = do g ← evaluate_edge outcomes e f; evaluate_edges outcomes es g

abbrev when : Bool → ReasonCode → List ReasonCode
when true c = c ∷ []
when false c = []

-- The codes in their sorted order.
abbrev pub reason_codes_of : Flags → List ReasonCode
reason_codes_of f =
    when f.cancellation cancellation_propagated
    ++ (when f.unknown dependency_unknown ++ when f.unsatisfied dependency_unsatisfied)

unfoldable pub evaluate_dependencies :
    (String → Option DependencyOutcome) → List DependencyEdge → Result TaskError Evaluation
evaluate_dependencies outcomes es = do
  f ←
      evaluate_edges outcomes es
        (record { unknown = false; unsatisfied = false; cancellation = false })
  ok (record {
    satisfied = not f.unknown && not f.unsatisfied && not f.cancellation;
    unknown = f.unknown;
    cancellation_propagated = f.cancellation;
    reason_codes = reason_codes_of f;
  })

-- What one edge asks, written without the loop.
abbrev pub is_known : (String → Option DependencyOutcome) → DependencyEdge → Bool
is_known outcomes e = elim (known_outcome outcomes e) [ none ↦ false | some _ ↦ true ]

abbrev pub is_released : (String → Option DependencyOutcome) → DependencyEdge → Bool
is_released outcomes e = elim (known_outcome outcomes e) [
  | none ↦ true
  | some o ↦ releases e.edge_type e.allowed_outcomes o.resolution
]

abbrev pub cancels : (String → Option DependencyOutcome) → DependencyEdge → Bool
cancels outcomes e = elim (known_outcome outcomes e) [
  | none ↦ false
  | some o ↦ resolution_beq o.resolution cancelled && e.propagate_cancellation
]

-- The flags behind one valid edge.
abbrev after : (String → Option DependencyOutcome) → DependencyEdge → Flags → Flags
after outcomes e f = record {
  unknown = f.unknown || not (is_known outcomes e);
  unsatisfied = f.unsatisfied || not (is_released outcomes e);
  cancellation = f.cancellation || cancels outcomes e;
}

evaluate_edge-valid :
    (outcomes : String → Option DependencyOutcome) (e : DependencyEdge) (f : Flags)
    → edge_ok e ≡ true
    → evaluate_edge outcomes e f ≡ ok (after outcomes e f)
unfolding evaluate_edge
evaluate_edge-valid outcomes e f h = ground arith

evaluate_edge-invalid :
    (outcomes : String → Option DependencyOutcome) (e : DependencyEdge) (f : Flags)
    → edge_ok e ≡ false
    → evaluate_edge outcomes e f ≡ err invalid_dependency
unfolding evaluate_edge
evaluate_edge-invalid outcomes e f h = ground arith

-- The flags behind a list of edges, without the loop.
abbrev after_all : (String → Option DependencyOutcome) → List DependencyEdge → Flags → Flags
after_all outcomes es f = record {
  unknown = f.unknown || not (every (is_known outcomes) es);
  unsatisfied = f.unsatisfied || not (every (is_released outcomes) es);
  cancellation = f.cancellation || any (cancels outcomes) es;
}

after_all-after :
    (outcomes : String → Option DependencyOutcome) (e : DependencyEdge) (es : List DependencyEdge)
    (f : Flags)
    → after_all outcomes es (after outcomes e f) ≡ after_all outcomes (e ∷ es) f
after_all-after outcomes e es f = ground arith

evaluate_edges_lem :
    (outcomes : String → Option DependencyOutcome) (es : List DependencyEdge) (f : Flags)
    → evaluate_edges outcomes es f
      ≡ (if every edge_ok es then ok (after_all outcomes es f) else err invalid_dependency)
unfolding evaluate_edges
evaluate_edges_lem outcomes [] f = ground arith
evaluate_edges_lem outcomes (e ∷ es) f = elim (Bool-cases (edge_ok e)) [
  | inl p ↦
      rw (evaluate_edge-valid outcomes e f p, p)
        (evaluate_edges_lem outcomes es (after outcomes e f)
          ∙ rw (after_all-after outcomes e es f) refl)
  | inr p ↦ rw (evaluate_edge-invalid outcomes e f p, p) refl
]

-- An evaluation looks at every edge: an invalid one anywhere makes it an error; otherwise the task
-- is released exactly when every edge has an outcome of its source and type, every such outcome is
-- one that the edge allows, and none propagates a cancellation. The flags and the reason codes say
-- which of the three failed.
pub evaluate_dependencies_lem :
    (outcomes : String → Option DependencyOutcome) (es : List DependencyEdge)
    → let known : Bool = every (is_known outcomes) es in
      let released : Bool = every (is_released outcomes) es in
      let cancel : Bool = any (cancels outcomes) es in
      evaluate_dependencies outcomes es ≡ (
        if every edge_ok es
        then ok (record {
          satisfied = known && released && not cancel;
          unknown = not known;
          cancellation_propagated = cancel;
          reason_codes =
              reason_codes_of
                (record { unknown = not known; unsatisfied = not released; cancellation = cancel });
        })
        else err invalid_dependency)
unfolding evaluate_dependencies
evaluate_dependencies_lem outcomes es = ground (
  arith,
  evaluate_edges_lem outcomes es
      (record { unknown = false; unsatisfied = false; cancellation = false }),
)
