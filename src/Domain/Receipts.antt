-- ===== src/Domain/Receipts.antt =====
-- packages/domain/src/receipt.ts: the receipt by which a producer reports the outcome of an attempt,
-- sealed with its digest.
pub mod Sealing
use horseness.Common.{
  ℕ, String, Option, none, some, List, [], ◌∷◌, every, map, Bool, true, false, not, ◌&&◌, ltb, leb,
  distinct, string_eq, str_eq, truthy, Result, ok, err, ◌>>=◌, ◌>>◌, guard,
}
use horseness.Common.Sort.{sort}
use horseness.Domain.Canonical.{units, Json, obj, assert_json}
use horseness.Domain.Delta.Scope.{text_before}
use horseness.Domain.Tasks.Types.{Resolution, succeeded, resolution_beq}

pub data ReceiptError : Type 0 where
  invalid_envelope receipt_mismatch : ReceiptError

pub record ReceiptEvidence : Type 0 where
  pub digest : String
  pub media_type : String
  pub size : ℕ

pub record AttemptReceiptCore : Type 0 where
  pub workspace_id : String
  pub run_id : String
  pub task_id : String
  pub attempt_id : String
  pub generation : ℕ
  pub attempt_context_binding_digest : String
  pub context_manifest_core_digest : String
  pub fork_pin_digest : String
  pub provider_id : String
  pub provider_operation_id : String
  pub provider_idempotency_key_digest : String
  pub producer_principal_id : String
  pub producer_grant_digest : String
  pub adapter_id : String
  pub adapter_version : String
  pub host_id : String
  pub host_version : String
  pub outcome : Resolution
  pub started_at : String
  pub finished_at : String
  pub output_digest : Option String
  pub evidence : List ReceiptEvidence
  pub provenance : Json
  pub nonce : String

pub record AttemptReceipt : Type 0 where
  pub core : AttemptReceiptCore
  pub receipt_id : String
  pub receipt_digest : String

-- The texts that must not be empty.
unfoldable pub receipt_texts : AttemptReceiptCore → List String
receipt_texts c =
    c.workspace_id ∷ c.run_id ∷ c.task_id ∷ c.attempt_id ∷ c.attempt_context_binding_digest
    ∷ c.context_manifest_core_digest ∷ c.fork_pin_digest ∷ c.provider_id ∷ c.provider_operation_id
    ∷ c.provider_idempotency_key_digest ∷ c.producer_principal_id ∷ c.producer_grant_digest
    ∷ c.adapter_id ∷ c.adapter_version ∷ c.host_id ∷ c.host_version ∷ c.nonce ∷ []

-- A succeeded attempt has an output, any other none.
abbrev pub output_ok : Resolution → Option String → Bool
output_ok succeeded (some digest) = truthy digest
output_ok succeeded none = false
output_ok _ (some digest) = false
output_ok _ none = true

abbrev pub is_object : Json → Bool
is_object (obj _) = true
is_object _ = false

abbrev pub evidence_ok : ReceiptEvidence → Bool
evidence_ok e = truthy e.digest && truthy e.media_type

abbrev pub evidence_digest : ReceiptEvidence → String
evidence_digest e = e.digest

-- What the module takes from the JavaScript runtime and from SHA-256: whether a text is a canonical
-- timestamp, the order of `localeCompare`, the digest of a core and the identifier of a digest.
pub record ReceiptRuntime : Type 0 where
  pub canonical_timestamp : String → Bool
  pub locale_before : String → String → Bool
  pub digest : AttemptReceiptCore → String
  pub digest_id : String → String

module _ (runtime : ReceiptRuntime) where
  unfoldable pub validate_attempt_receipt_core : AttemptReceiptCore → Result ReceiptError (Unit {0})
  unfolding receipt_texts
  validate_attempt_receipt_core c = do
    guard (every truthy (receipt_texts c)) invalid_envelope
    guard (not (ltb c.generation 1)) invalid_envelope
    guard (runtime.canonical_timestamp c.started_at && runtime.canonical_timestamp c.finished_at)
        invalid_envelope
    guard (text_before (units c.started_at) (units c.finished_at)) invalid_envelope
    guard (output_ok c.outcome c.output_digest) invalid_envelope
    guard (every evidence_ok c.evidence && distinct (map evidence_digest c.evidence))
        invalid_envelope
    guard (assert_json c.provenance && is_object c.provenance) invalid_envelope

  abbrev pub evidence_before : ReceiptEvidence → ReceiptEvidence → Bool
  evidence_before a b = runtime.locale_before a.digest b.digest

  unfoldable pub normalized : AttemptReceiptCore → AttemptReceiptCore
  normalized c = record c { evidence = sort evidence_before c.evidence }

  unfoldable pub seal_attempt_receipt : AttemptReceiptCore → Result ReceiptError AttemptReceipt
  unfolding normalized
  seal_attempt_receipt c = do
    validate_attempt_receipt_core c
    ok (record {
      core = normalized c;
      receipt_id = runtime.digest_id (runtime.digest (normalized c));
      receipt_digest = runtime.digest (normalized c);
    })

  unfoldable pub verify_attempt_receipt : AttemptReceipt → Result ReceiptError (Unit {0})
  verify_attempt_receipt r = do
    guard (truthy r.receipt_id && truthy r.receipt_digest) invalid_envelope
    validate_attempt_receipt_core r.core
    expected ← seal_attempt_receipt r.core
    guard
        (str_eq expected.receipt_digest r.receipt_digest && str_eq expected.receipt_id r.receipt_id)
        receipt_mismatch
