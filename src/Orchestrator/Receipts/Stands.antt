-- ===== src/Orchestrator/Receipts/Stands.antt =====
-- What the projection never takes back.
use horseness.Common.{
  ℕ, String, Option, none, some, List, [], ◌∷◌, not, ◌||◌, nat_eq, ◌==◌, ==_iff, ok, >>=-eq-ok,
  ok_injective, Result-cases, Option-cases, Bool-cases, ◌≡◌, refl, sym, ◌∙◌, inl, inr, arith,
}
use horseness.Common.Maps.{Entries, get, put, get-put}
use horseness.Domain.Tasks.Types.{Resolution, AttemptGenerationState}
use horseness.Domain.Tasks.Dispatch.{reduce_dispatch, terminal_receipt, is_terminal}
use horseness.Domain.Tasks.Dispatch.Outcome.{reduce_dispatch-SameGeneration}
use horseness.Domain.Receipts.{ReceiptRuntime}
use horseness.Orchestrator.Receipts.{
  AttemptReceiptProjection, TaskResolved, ReceiptGenerationOutcome, ReceiptEvent, AttemptAuthority,
  RetryDecision, Cancellation, Issued, register_receipt_generation, resolve,
}
use horseness.Orchestrator.Receipts.Apply.{
  check_arbitration, apply_retry_decision, apply_cancellation, validate_authority, outcome_record,
  record_outcome, project_receipt, no_other, is_sequence, project_authenticated_receipt,
  ReceiptInput, generation, retry, cancellation, receipt, receipt_step, run_receipts,
}

-- Each generation stands under its number.
abbrev pub IsKeyed : AttemptReceiptProjection → Type 0
IsKeyed s = (k : ℕ) (g : AttemptGenerationState) → get k s.generations ≡ some g → g.generation ≡ k

-- What a step keeps: a resolution, with the winner, and each recorded outcome.
pub record Keeps (s t : AttemptReceiptProjection) : Type 0 where
  pub resolution :
      (r : TaskResolved)
      → s.resolution ≡ some r
      → (t.resolution ≡ some r) × (t.winning_generation ≡ s.winning_generation)
  pub outcomes :
      (k : ℕ) (o : ReceiptGenerationOutcome) → get k s.outcomes ≡ some o → get k t.outcomes ≡ some o

Keeps-refl : (s : AttemptReceiptProjection) → Keeps s s
Keeps-refl s = record { resolution = λ r h. (h, refl); outcomes = λ k o h. h }

Keeps-trans : (s t u : AttemptReceiptProjection) → Keeps s t → Keeps t u → Keeps s u
Keeps-trans s t u a b = record {
  resolution = λ r h.
      let (one, won) = a.resolution r h in
      let (two, won') = b.resolution r one in (two, won' ∙ won);
  outcomes = λ k o h. b.outcomes k o (a.outcomes k o h);
}

IsKeyed-put :
    (s : AttemptReceiptProjection) (g : AttemptGenerationState)
    → IsKeyed s
    → (k : ℕ) (h : AttemptGenerationState) → get k (put g.generation g s.generations) ≡ some h
    → h.generation ≡ k
IsKeyed-put s g keyed k h e =
    ground (arith, get-put g.generation k g s.generations, keyed k h, ==_iff g.generation k)

put-fresh :
    (n : ℕ) (v : ReceiptGenerationOutcome) (m : Entries ℕ ReceiptGenerationOutcome)
    → get n m ≡ none
    → (k : ℕ) (o : ReceiptGenerationOutcome) → get k m ≡ some o
    → get k (put n v m) ≡ some o
put-fresh n v m fresh k o h = elim (Bool-cases (n == k)) [
  | inl b ↦ let same : n ≡ k = (==_iff n k).0 b in absurd (cc (fresh, h, same))
  | inr b ↦ rw (get-put n k v m, b) h
]

register-Keeps :
    (s t : AttemptReceiptProjection) (g : AttemptGenerationState)
    → IsKeyed s
    → register_receipt_generation s g ≡ ok t
    → Keeps s t × IsKeyed t
unfolding register_receipt_generation
register-Keeps s t g keyed h =
    let e : t ≡ record s { generations = put g.generation g s.generations } = ground arith in
    rw e (
      record { resolution = λ r k. (k, refl); outcomes = λ k o j. j },
      λ k f j. IsKeyed-put s g keyed k f j,
    )

module _ (runtime : ReceiptRuntime) (digest : String → Resolution → Option ℕ → ℕ → String) where
  resolve-resolved :
      (s : AttemptReceiptProjection) (n : ℕ) (r : TaskResolved)
      → s.resolution ≡ some r
      → resolve digest s n ≡ s
  unfolding resolve
  resolve-resolved s n r h = rw h refl

  resolve-outcomes :
      (s : AttemptReceiptProjection) (n : ℕ)
      → ((resolve digest s n).outcomes ≡ s.outcomes)
        × ((resolve digest s n).generations ≡ s.generations)
  unfolding resolve
  resolve-outcomes s n = ground arith

  -- A resolution under a projection that keeps what `s` has.
  resolve-Keeps :
      (s t : AttemptReceiptProjection) (n : ℕ)
      → Keeps s t × IsKeyed t
      → Keeps s (resolve digest t n) × IsKeyed (resolve digest t n)
  resolve-Keeps s t n h =
      let same : _ = resolve-outcomes t n in
      (
        record {
          resolution =
              λ r k. let kept = h.0.resolution r k in rw (resolve-resolved t n r kept.0) kept;
          outcomes = λ k o j. rw (same.0) (h.0.outcomes k o j);
        },
        λ k g j. h.1 k g (rw (same.1) at j),
      )

  retry-Keeps :
      (s t : AttemptReceiptProjection) (current : _) (d : RetryDecision)
      → IsKeyed s
      → apply_retry_decision runtime digest s current d ≡ ok t
      → Keeps s t × IsKeyed t
  unfolding apply_retry_decision
  retry-Keeps s t current d keyed h =
      let (u, checked, e) =
        >>=-eq-ok
          (check_arbitration d.issued current d.cursor s d.attempt_id d.generation d.task_id) _ h in
      rw (sym (ok_injective e)) (
        resolve-Keeps s _ d.event_sequence
          (record { resolution = λ r k. (k, refl); outcomes = λ k o j. j }, keyed))

  cancellation-Keeps :
      (s t : AttemptReceiptProjection) (current : _) (c : Cancellation)
      → IsKeyed s
      → apply_cancellation runtime digest s current c ≡ ok t
      → Keeps s t × IsKeyed t
  unfolding apply_cancellation
  cancellation-Keeps s t current c keyed h =
      let (u, checked, e) =
        >>=-eq-ok
          (check_arbitration c.issued current c.cursor s c.attempt_id c.generation c.task_id) _ h in
      elim (Option-cases s.resolution) [
        | inl q ↦ rw (sym (ok_injective (rw q at e))) (
            resolve-Keeps s _ c.event_sequence
              (record { resolution = λ r k. (k, refl); outcomes = λ k o j. j }, keyed))
        | inr (r, q) ↦
            rw (sym (ok_injective (rw q at e)))
              (record { resolution = λ r k. (k, refl); outcomes = λ k o j. j }, keyed)
      ]

  record_outcome-Keeps :
      (s t : AttemptReceiptProjection) (e : ReceiptEvent) (g : AttemptGenerationState)
      → IsKeyed s
      → get g.generation s.outcomes ≡ none
      → record_outcome runtime digest s e g ≡ ok t
      → Keeps s t × IsKeyed t
  unfolding record_outcome
  record_outcome-Keeps s t e g keyed fresh h =
      elim (Bool-cases (
        not (is_terminal g.state)
        || not (is_sequence g.terminal_event_sequence e.event_sequence))) [
          | inl b ↦ rw (sym (ok_injective (rw (b, record_outcome) at h))) (
            record { resolution = λ r k. (k, refl); outcomes = λ k o j. j },
            λ k f j. IsKeyed-put s g keyed k f j,
          )
          | inr b ↦
              let rest : _ = rw (b, record_outcome) at h in
              elim (Bool-cases (no_other s.task_id e.receipt.core.task_id)) [
                | inr m ↦ absurd (cc (rw m at rest))
                | inl m ↦ rw (sym (ok_injective (rw m at rest))) (
                    resolve-Keeps s _ e.event_sequence (
                      record {
                        resolution = λ r k. (k, refl);
                        outcomes = put-fresh g.generation (outcome_record e g) s.outcomes fresh;
                      },
                      λ k f j. IsKeyed-put s g keyed k f j,
                    ))
              ]
        ]

  project_receipt-Keeps :
      (s t : AttemptReceiptProjection) (e : ReceiptEvent) (a : AttemptAuthority)
      (g : AttemptGenerationState)
      → IsKeyed s
      → g.generation ≡ e.receipt.core.generation
      → project_receipt runtime digest s e a g ≡ ok t
      → Keeps s t × IsKeyed t
  unfolding project_receipt
  project_receipt-Keeps s t e a g keyed same h =
      elim (Option-cases (get e.receipt.core.generation s.outcomes)) [
        | inr (o, q) ↦
            rw (sym (ok_injective (rw (q, project_receipt) at h)))
              (record { resolution = λ r k. (k, refl); outcomes = λ k o j. j }, keyed)
        | inl q ↦ elim (Option-cases s.resolution) [
          | inr (r, p) ↦
              rw (sym (ok_injective (rw (q, p, project_receipt) at h)))
                (record { resolution = λ r k. (k, refl); outcomes = λ k o j. j }, keyed)
          | inl p ↦
              elim (Result-cases (
                reduce_dispatch g
                  (terminal_receipt e.receipt.core.outcome e.event_sequence a.provider_handle))) [
                    | inr (x, f) ↦ absurd (cc (rw (q, p, f, project_receipt) at h))
                    | inl (f, d) ↦
                        let number : f.generation ≡ e.receipt.core.generation =
                          (reduce_dispatch-SameGeneration g f _ d).generation ∙ same in
                        record_outcome-Keeps s t e f keyed (rw number q)
                          (rw (q, p, d, project_receipt) at h)
                  ]
        ]
      ]

  validate_authority-generation :
      (s : AttemptReceiptProjection) (e : Issued ReceiptEvent) (a : Issued AttemptAuthority)
      (g : AttemptGenerationState)
      → validate_authority runtime digest e a s ≡ ok g
      → get e.value.receipt.core.generation s.generations ≡ some g
  unfolding validate_authority
  validate_authority-generation s e a g h = ground arith

  -- An input that is refused, or any other, keeps the resolution and the outcomes.
  receipt_step-Keeps :
      (s t : AttemptReceiptProjection) (i : ReceiptInput)
      → IsKeyed s
      → receipt_step runtime digest s i ≡ ok t
      → Keeps s t × IsKeyed t
  unfolding receipt_step project_authenticated_receipt
  receipt_step-Keeps s t (generation g) keyed h = register-Keeps s t g keyed h
  receipt_step-Keeps s t (retry current d) keyed h = retry-Keeps s t current d keyed h
  receipt_step-Keeps s t (cancellation current c) keyed h = cancellation-Keeps s t current c keyed h
  receipt_step-Keeps s t (receipt e a) keyed h =
      let (g, valid, rest) = >>=-eq-ok (validate_authority runtime digest e a s) _ h in
      let found : _ = validate_authority-generation s e a g valid in
      project_receipt-Keeps s t e.value a.value g keyed (keyed _ g found) rest

  -- When each generation stands under its number, any list of registrations, retry decisions,
  -- cancellations and receipts keeps a resolution with its winner, and each recorded outcome; no
  -- input takes one back or replaces it.
  pub run_receipts-Keeps :
      (s : AttemptReceiptProjection) (is : List ReceiptInput)
      → IsKeyed s
      → Keeps s (run_receipts runtime digest s is)
  unfolding run_receipts
  run_receipts-Keeps s [] keyed = Keeps-refl s
  run_receipts-Keeps s (i ∷ is) keyed = elim (Result-cases (receipt_step runtime digest s i)) [
    | inr (e, q) ↦ rw q (run_receipts-Keeps s is keyed)
    | inl (t, q) ↦
        let (kept, keyed') = receipt_step-Keeps s t i keyed q in
        rw q (Keeps-trans s t _ kept (run_receipts-Keeps t is keyed'))
  ]
