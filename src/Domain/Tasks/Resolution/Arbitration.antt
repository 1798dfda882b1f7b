-- ===== src/Domain/Tasks/Resolution/Arbitration.antt =====
-- What `resolveTask` decides: the winner, when it waits, and that the order of the generations
-- does not matter.
use mathlib.Core.Path.{ap₂}
use horseness.Common.{
  Option, none, some, List, [], ◌∷◌, Bool, not, ◌&&◌, any, keep, map, distinct, nat_eq, ok, err,
  if◌then◌else◌, ◌≡◌, inl, inr, Bool-cases, and-true, arith,
}
use horseness.Common.Sort.{sort, Rearranged, cons, swap, chain}
use horseness.Common.Rearranged.{
  sort-Rearranged, Rearranged-refl, any-Rearranged, map-Rearranged, distinct-Rearranged,
  sort_eq_of_Rearranged,
}
use horseness.Domain.Tasks.Types.{invalid_attempt_generation, AttemptGenerationState}
use horseness.Domain.Tasks.Resolution.{
  outcome_of, prepend, GenerationOutcome, ResolveInput, terminals, arbitrate, resolve_task,
  is_success, is_below_one, generation_of, generation_before, success_before,
}

prepend-cons :
    (o : Option GenerationOutcome) {xs ys : List GenerationOutcome}
    → Rearranged xs ys
    → Rearranged (prepend o xs) (prepend o ys)
prepend-cons none r = r
prepend-cons (some g) r = cons g r

prepend-swap :
    (o p : Option GenerationOutcome) (xs : List GenerationOutcome)
    → Rearranged (prepend o (prepend p xs)) (prepend p (prepend o xs))
prepend-swap none p xs = Rearranged-refl (prepend p xs)
prepend-swap (some g) none xs = Rearranged-refl (g ∷ xs)
prepend-swap (some g) (some h) xs = swap g h xs

pub terminals-Rearranged :
    {gs hs : List AttemptGenerationState}
    → Rearranged gs hs
    → Rearranged (terminals gs) (terminals hs)
unfolding terminals
terminals-Rearranged Rearranged.none = Rearranged.none
terminals-Rearranged (cons g r) =
    prepend-cons (outcome_of g.generation g.state g.terminal_event_sequence)
      (terminals-Rearranged r)
terminals-Rearranged (swap g h gs) =
    prepend-swap (outcome_of g.generation g.state g.terminal_event_sequence)
      (outcome_of h.generation h.state h.terminal_event_sequence) (terminals gs)
terminals-Rearranged (chain r s) = chain (terminals-Rearranged r) (terminals-Rearranged s)

-- What the checks ask of the generations: numbers of at least 1, none twice.
abbrev pub numbered : List AttemptGenerationState → Bool
numbered gs = distinct (map generation_of gs) && not (any is_below_one gs)

numbered-Rearranged :
    {gs hs : List AttemptGenerationState} → Rearranged gs hs → numbered gs ≡ numbered hs
numbered-Rearranged r =
    ap₂ (λ a b. a && not b) (distinct-Rearranged (map-Rearranged generation_of r))
      (any-Rearranged is_below_one r)

abbrev pub sorted_successes : List GenerationOutcome → List GenerationOutcome
sorted_successes terminal = sort success_before (keep is_success terminal)

module _ {Cursor : Type 0} where
  -- The call, with the checks first.
  pub resolve_task_lem :
      (input : ResolveInput Cursor)
      → let generations = sort generation_before input.generations in
        resolve_task input ≡ (
          if numbered input.generations
          then ok (
              arbitrate input generations
                (terminals generations)
                (sorted_successes (terminals generations)))
          else err invalid_attempt_generation)
  unfolding resolve_task
  resolve_task_lem input =
      rw (numbered-Rearranged (sort-Rearranged generation_before input.generations)) (ground arith)

  arbitrate-generations :
      (input : ResolveInput Cursor) (hs gs : List AttemptGenerationState)
      (terminal successes : List GenerationOutcome)
      → arbitrate (record input { generations = hs }) gs terminal successes
        ≡ arbitrate input gs terminal successes
  unfolding arbitrate
  arbitrate-generations input hs gs terminal [] = ground arith
  arbitrate-generations input hs gs terminal (s ∷ ss) = ground arith

  -- The order in which the generations are given does not matter, to the result or to the error.
  pub resolve_task-Rearranged :
      (input : ResolveInput Cursor) (hs : List AttemptGenerationState)
      → Rearranged input.generations hs
      → resolve_task input ≡ resolve_task (record input { generations = hs })
  resolve_task-Rearranged input hs r =
      rw
        (
          resolve_task_lem input,
          resolve_task_lem (record input { generations = hs }),
          ← numbered-Rearranged r,
        )
        (elim (Bool-cases (numbered input.generations)) [
          | inl n ↦ rw (
            n,
            arbitrate-generations input hs,
            sort_eq_of_Rearranged generation_of r (and-true _ _ n).0,
          )
          | inr n ↦ rw n
        ])
