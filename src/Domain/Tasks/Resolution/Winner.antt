-- ===== src/Domain/Tasks/Resolution/Winner.antt =====
-- Who wins in `resolveTask`, and when it waits for more.
use horseness.Common.{
  Option, none, some, List, [], ◌∷◌, true, false, ◌||◌, any, keep, nat_eq, ok, err, ◌≡◌, ◌≢◌, ◌↔◌,
  ◌⊎◌, inl, inr, refl, ap, ◌∙◌, sym, Bool-cases, arith,
}
use horseness.Common.Sort.{All, Any, All-sort, Any-sort, sort, Sorted, sort-Sorted}
use horseness.Common.Rearranged.{
  sort-Rearranged, Rearranged-sym, All-Rearranged, Any-Rearranged, any-Rearranged,
}
use horseness.Domain.Tasks.Types.{
  invalid_attempt_generation, succeeded, cancelled, AttemptGenerationState,
}
use horseness.Domain.Tasks.Resolution.{
  GenerationOutcome, TaskResolution, ResolveInput, terminals, arbitrate, resolve_task, is_success,
  is_unresolved, generation_before, success_before,
}
use horseness.Domain.Tasks.Resolution.Arbitration.{
  numbered, resolve_task_lem, terminals-Rearranged, sorted_successes,
}

success_before-total :
    (a b : GenerationOutcome) → success_before a b ≡ false → success_before b a ≡ true
success_before-total a b h = ground arith

success_before_trans :
    (a b c : GenerationOutcome)
    → success_before a b ≡ true
    → success_before b c ≡ true
    → success_before a c ≡ true
success_before_trans a b c h k = ground arith

-- `g` succeeded, and no other success comes before it.
pub record IsWinner (g : GenerationOutcome) (terminal : List GenerationOutcome) : Type 0 where
  pub present : Any (λ h. h ≡ g) terminal
  pub success : g.outcome ≡ succeeded
  pub earliest : All (λ h. h.outcome ≡ succeeded → success_before g h ≡ true) terminal

Any-keep :
    (P : GenerationOutcome → Type 0) (xs : List GenerationOutcome)
    → Any P (keep is_success xs)
    → Any P xs
Any-keep P [] h = h
Any-keep P (x ∷ xs) h = elim (Bool-cases (is_success x)) [
  | inl p ↦ elim (rw (p, keep) at h) as (λ _. Any P (x ∷ xs)) [
    | inl a ↦ inl a
    | inr b ↦ inr (Any-keep P xs b)
  ]
  | inr p ↦ inr (Any-keep P xs (rw (p, keep) at h))
]

All-keep :
    (P : GenerationOutcome → Type 0) (xs : List GenerationOutcome)
    → All P (keep is_success xs)
    → All (λ h. h.outcome ≡ succeeded → P h) xs
All-keep P [] h = tt
All-keep P (x ∷ xs) h = elim (Bool-cases (is_success x)) [
  | inl p ↦
      let k : P x × All P (keep is_success xs) = rw (p, keep) at h in (λ _. k.0, All-keep P xs k.1)
  | inr p ↦ (λ e. absurd (ground arith), All-keep P xs (rw (p, keep) at h))
]

All-is_success :
    (xs : List GenerationOutcome) → All (λ h. h.outcome ≡ succeeded) (keep is_success xs)
All-is_success [] = tt
All-is_success (x ∷ xs) = elim (Bool-cases (is_success x)) [
  | inl p ↦ rw (p, keep) (ground arith, All-is_success xs)
  | inr p ↦ rw (p, keep) (All-is_success xs)
]

-- The head of the sorted successes wins.
head-IsWinner :
    (T ss : List GenerationOutcome) (g : GenerationOutcome)
    → sorted_successes T ≡ g ∷ ss
    → IsWinner g T
head-IsWinner T ss g e =
    let sorted : Sorted success_before (g ∷ ss) =
      rw e at (
        sort-Sorted success_before success_before-total success_before_trans (keep is_success T)) in
    let good : All (λ h. h.outcome ≡ succeeded) (g ∷ ss) = rw e at (
      All-sort success_before (λ h. h.outcome ≡ succeeded) (keep is_success T)
        (All-is_success T)) in
    let least : All (λ h. success_before g h ≡ true) (sorted_successes T) =
      rw e (ground arith, sorted.0) in
    record {
      present =
          Any-keep (λ h. h ≡ g) T
            (Any-sort success_before (λ h. h ≡ g) (keep is_success T) (rw e (inl refl)));
      success = good.0;
      earliest =
          All-keep (λ h. success_before g h ≡ true) T
            (All-Rearranged (λ h. success_before g h ≡ true)
              (Rearranged-sym (sort-Rearranged success_before (keep is_success T))) least);
    }

IsWinner-terminals :
    (g : GenerationOutcome) (gs : List AttemptGenerationState)
    → IsWinner g (terminals (sort generation_before gs))
    → IsWinner g (terminals gs)
IsWinner-terminals g gs w =
    let r : _ = terminals-Rearranged (Rearranged-sym (sort-Rearranged generation_before gs)) in
    record {
      present = Any-Rearranged (λ h. h ≡ g) r w.present;
      success = w.success;
      earliest =
          All-Rearranged (λ h. h.outcome ≡ succeeded → success_before g h ≡ true) r w.earliest;
    }

any-keep : (xs : List GenerationOutcome) → any is_success (keep is_success xs) ≡ any is_success xs
any-keep [] = refl
any-keep (x ∷ xs) = ground (arith, any-keep xs)

any-sorted : (T : List GenerationOutcome) → any is_success T ≡ any is_success (sorted_successes T)
any-sorted T =
    sym (any-keep T)
    ∙ any-Rearranged is_success (sort-Rearranged success_before (keep is_success T))

any-terminals :
    (gs : List AttemptGenerationState)
    → any is_success (terminals (sort generation_before gs)) ≡ any is_success (terminals gs)
any-terminals gs =
    sym (any-Rearranged is_success (terminals-Rearranged (sort-Rearranged generation_before gs)))

module _ {Cursor : Type 0} where
  -- What the chain of tests gives, for each list of successes.
  abbrev pub Decided :
      ResolveInput Cursor → List GenerationOutcome → Option (TaskResolution Cursor) → Type 0
  Decided input T none =
      (any is_success T ≡ false)
      × ((any is_unresolved input.generations || input.retry_permitted) ≡ true)
  Decided input T (some r) =
      (r.resolution ≡ succeeded)
        × ((g : GenerationOutcome) × (r.winning_generation ≡ some g.generation) × IsWinner g T)
      ⊎ (r.resolution ≢ succeeded)
        × (any is_success T ≡ false)
        × (any is_unresolved input.generations ≡ false)
        × (input.retry_permitted ≡ false)
        × (r.winning_generation ≡ none)
        × ((r.resolution ≡ cancelled) ↔ (input.cancellation_requested ≡ true))

  arbitrate-Decided :
      (input : ResolveInput Cursor) (gs : List AttemptGenerationState)
      (T ss : List GenerationOutcome) (o : Option (TaskResolution Cursor))
      → sorted_successes T ≡ ss
      → any is_unresolved gs ≡ any is_unresolved input.generations
      → arbitrate input gs T ss ≡ o
      → Decided input T o
  unfolding arbitrate
  arbitrate-Decided input gs T [] none e u h =
      (any-sorted T ∙ ap (any is_success) e, rw (← u) (ground arith))
  arbitrate-Decided input gs T [] (some r) e u h =
      let f : any is_success T ≡ false = any-sorted T ∙ ap (any is_success) e in
      inr (
        ground arith,
        f,
        ground arith,
        ground arith,
        ground arith,
        (λ p. ground arith, λ p. ground arith),
      )
  arbitrate-Decided input gs T (g ∷ ss) none e u h = absurd (cc)
  arbitrate-Decided input gs T (g ∷ ss) (some r) e u h =
      inl (ground arith, (g, ground arith, head-IsWinner T ss g e))

  Decided-terminals :
      (input : ResolveInput Cursor) (o : Option (TaskResolution Cursor))
      → Decided input (terminals (sort generation_before input.generations)) o
      → Decided input (terminals input.generations) o
  Decided-terminals input none d = (sym (any-terminals input.generations) ∙ d.0, d.1)
  Decided-terminals input (some r) d = elim d [
    | inl (p, (g, w, v)) ↦ inl (p, (g, w, IsWinner-terminals g input.generations v))
    | inr (p, f, u, q, w, c) ↦ inr (p, sym (any-terminals input.generations) ∙ f, u, q, w, c)
  ]

  -- What is returned for numbered generations is decided by their terminal outcomes. With a
  -- success among them the task has succeeded, and the winner is a success of least event
  -- sequence, of least generation among those. Without one nothing is resolved while a generation
  -- is unresolved or a retry is permitted, and otherwise the task is cancelled exactly if that was
  -- requested. Generations that are not numbered are refused.
  pub resolve_task-Decided :
      (input : ResolveInput Cursor)
      → ((o : Option (TaskResolution Cursor))
          → resolve_task input ≡ ok o
          → Decided input (terminals input.generations) o)
        × ((numbered input.generations ≡ false)
            ↔ (resolve_task input ≡ err invalid_attempt_generation))
  resolve_task-Decided input = elim (Bool-cases (numbered input.generations)) [
    | inl n ↦
        let found : _ = rw n at (resolve_task_lem input) in
        let generations : List AttemptGenerationState = sort generation_before input.generations in
        (
          (λ o h. Decided-terminals input o (
              arbitrate-Decided input generations (terminals generations)
                (sorted_successes (terminals generations)) o refl
                (sym (
                  any-Rearranged is_unresolved
                    (sort-Rearranged generation_before input.generations)))
                (cc (found, h)))),
          ((λ f. absurd (cc)), (λ e. absurd (cc found))),
        )
    | inr n ↦
        let refused : _ = rw n at (resolve_task_lem input) in
        ((λ o h. absurd (cc refused)), ((λ f. refused), (λ e. n)))
  ]
