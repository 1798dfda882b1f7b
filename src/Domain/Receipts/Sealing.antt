-- ===== src/Domain/Receipts/Sealing.antt =====
-- A sealed receipt is verified.
use horseness.Common.{
  String, Bool, true, false, string_eq, str_eq_iff, truthy, ok, >>=-eq-ok, ok_injective, ◌≡◌, refl,
  sym, ap,
}
use horseness.Common.Sort.{sort, sort-sort, Rearranged}
use horseness.Common.Rearranged.{
  sort-Rearranged, every-Rearranged, map-Rearranged, distinct-Rearranged,
}
use horseness.Domain.Receipts.{
  ReceiptRuntime, AttemptReceiptCore, AttemptReceipt, ReceiptEvidence,
  validate_attempt_receipt_core, receipt_texts, evidence_before, evidence_ok, evidence_digest,
  normalized, seal_attempt_receipt, verify_attempt_receipt,
}

-- What is documented of `localeCompare`: a total and transitive order. And digests are not empty.
pub record RuntimeLaws (runtime : ReceiptRuntime) : Type 0 where
  pub total : (a b : String) → runtime.locale_before a b ≡ false → runtime.locale_before b a ≡ true
  pub transitive :
      (a b c : String)
      → runtime.locale_before a b ≡ true
      → runtime.locale_before b c ≡ true
      → runtime.locale_before a c ≡ true
  pub digest_full : (c : AttemptReceiptCore) → truthy (runtime.digest c) ≡ true
  pub id_full : (d : String) → truthy (runtime.digest_id d) ≡ true

module _ (runtime : ReceiptRuntime) (laws : RuntimeLaws runtime) where
  abbrev order : ReceiptEvidence → ReceiptEvidence → Bool
  order = evidence_before runtime

  evidence-normalized :
      (c : AttemptReceiptCore) → sort order (sort order c.evidence) ≡ sort order c.evidence
  evidence-normalized c =
      sort-sort order (λ a b. laws.total a.digest b.digest)
        (λ a b d. laws.transitive a.digest b.digest d.digest) c.evidence

  normalized_twice :
      (c : AttemptReceiptCore) → normalized runtime (normalized runtime c) ≡ normalized runtime c
  unfolding normalized
  normalized_twice c = ap (λ xs. record c { evidence = xs }) (evidence-normalized c)

  validate-normalized :
      (c : AttemptReceiptCore)
      → validate_attempt_receipt_core runtime c ≡ ok tt
      → validate_attempt_receipt_core runtime (normalized runtime c) ≡ ok tt
  unfolding validate_attempt_receipt_core normalized receipt_texts
  validate-normalized c h =
      let r : Rearranged c.evidence (sort order c.evidence) = sort-Rearranged order c.evidence in
      rw
        (← every-Rearranged evidence_ok r, ← distinct-Rearranged (map-Rearranged evidence_digest r))
        h

  -- What `sealAttemptReceipt` returns passes `verifyAttemptReceipt`, although it has sorted the
  -- evidence; `localeCompare` is taken to be a total and transitive order and the digests not empty.
  pub verify_attempt_receipt-seal_attempt_receipt :
      (c : AttemptReceiptCore) (r : AttemptReceipt)
      → seal_attempt_receipt runtime c ≡ ok r
      → verify_attempt_receipt runtime r ≡ ok tt
  unfolding seal_attempt_receipt verify_attempt_receipt
  verify_attempt_receipt-seal_attempt_receipt c r h =
      let (u, valid, same) = >>=-eq-ok (validate_attempt_receipt_core runtime c) _ h in
      let again : _ = validate-normalized c valid in
      let fixed : _ = normalized_twice c in
      let full : _ = laws.digest_full (normalized runtime c) in
      let full_id : _ = laws.id_full (runtime.digest (normalized runtime c)) in
      rw (sym (ok_injective same))
        (rw (again, fixed, full, full_id, (str_eq_iff _ _).1 refl, (str_eq_iff _ _).1 refl) refl)
