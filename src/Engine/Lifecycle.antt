-- ===== src/Engine/Lifecycle.antt =====
-- packages/policy/src/lifecycle.ts: the checks of a policy document and its digest, and the reference
-- to the active policy.
use horseness.Common.{
  ℕ, suc, String, Option, none, some, List, [], ◌∷◌, Bool, true, false, not, ◌&&◌, ◌==◌, leb, map,
  every, str_eq, string_eq, distinct, Result, ok, ◌>>◌, guard, if◌then◌else◌,
}
use horseness.Domain.Canonical.{Text}
use horseness.Domain.Delta.Scope.{pointer_ok}
use horseness.Engine.Order.{
  Sign, less, compare_utf8, PolicySubject, EvidenceRequirement, PolicyRule, PolicyDocument,
}

pub data LifecycleError : Type 0 where
  policy_document_invalid policy_lineage_invalid policy_rule_order_invalid policy_digest_mismatch
        policy_reference_invalid policy_rule_invalid policy_subject_invalid
        policy_evidence_invalid :
      LifecycleError

pub data ReferenceStatus : Type 0 where
  inactive active : ReferenceStatus

pub record PolicyReference : Type 0 where
  pub status : ReferenceStatus
  pub active_policy_digest : String
  pub activation_sequence : ℕ

-- What the module takes from the JavaScript runtime: the UTF-8 bytes and the units of a text; and the
-- digests of the core of a document, by its identifier, revision, predecessor and rules, and of the
-- empty policy.
pub record LifecycleRuntime : Type 0 where
  pub utf8 : String → List ℕ
  pub units_of : String → Text
  pub core_digest : String → ℕ → Option String → List PolicyRule → String
  pub no_policy_digest : String

-- `text`: a text that is not empty.
abbrev is_filled : String → Bool
is_filled t = not (str_eq t "")

abbrev is_filled_or_null : Option String → Bool
is_filled_or_null none = true
is_filled_or_null (some t) = is_filled t

-- `natural`: a safe integer.
abbrev is_safe : ℕ → Bool
is_safe n = leb n 9007199254740991

abbrev is_absent : Option String → Bool
is_absent none = true
is_absent (some t) = false

abbrev is_less : Sign → Bool
is_less less = true
is_less _ = false

abbrev prefix_ok : Option Text → Bool
prefix_ok none = true
prefix_ok (some p) = pointer_ok p

module _ (runtime : LifecycleRuntime) where
  -- Each text is before the next one, from the text before the list.
  unfoldable pub ascending_from : String → List String → Bool
  ascending_from t [] = true
  ascending_from t (u ∷ us) =
      is_less (compare_utf8 (runtime.utf8 t) (runtime.utf8 u)) && ascending_from u us

  abbrev ascending : List String → Bool
  ascending [] = true
  ascending (t ∷ ts) = ascending_from t ts

  abbrev validate_subject : PolicySubject → Result LifecycleError (Unit {0})
  validate_subject s = do
    guard (is_filled_or_null s.action && is_filled_or_null s.version) policy_subject_invalid
    guard (prefix_ok s.path_prefix) policy_subject_invalid

  abbrev requirement_ok : EvidenceRequirement → Bool
  requirement_ok e =
      is_filled e.evidence_id
      && is_filled e.digest
      && pointer_ok (runtime.units_of e.path)
      && is_filled e.version

  unfoldable pub validate_rule : PolicyRule → Result LifecycleError (Unit {0})
  unfolding ascending_from
  validate_rule r =
      let ids : List String = map (λ e. e.evidence_id) r.evidence in
      do
        guard (is_filled r.rule_id) policy_rule_invalid
        validate_subject r.subject
        guard (every is_filled r.constraints && ascending r.constraints) policy_rule_invalid
        guard (every requirement_ok r.evidence) policy_evidence_invalid
        guard (distinct ids && ascending ids) policy_rule_invalid

  unfoldable pub validate_rules : List PolicyRule → Result LifecycleError (Unit {0})
  unfolding validate_rule
  validate_rules [] = ok tt
  validate_rules (r ∷ rs) = let rest = validate_rules rs in do validate_rule r; rest

  -- `parsePolicyDocumentCoreV1`
  unfoldable pub check_core : PolicyDocument → Result LifecycleError (Unit {0})
  unfolding validate_rules ascending_from
  check_core d =
      let ids : List String = map (λ r. r.rule_id) d.rules in
      do
        guard
            (is_filled d.policy_id && is_safe d.revision && is_filled_or_null d.predecessor_digest)
            policy_document_invalid
        guard
            (if d.revision == 0
              then is_absent d.predecessor_digest
              else not (is_absent d.predecessor_digest))
            policy_lineage_invalid
        validate_rules d.rules
        guard (distinct ids && ascending ids) policy_rule_order_invalid

  abbrev document_digest : PolicyDocument → String
  document_digest d = runtime.core_digest d.policy_id d.revision d.predecessor_digest d.rules

  unfoldable pub seal_policy_document : PolicyDocument → Result LifecycleError PolicyDocument
  unfolding check_core
  seal_policy_document d = do check_core d; ok (record d { policy_digest = document_digest d })

  unfoldable pub check_document : PolicyDocument → Result LifecycleError (Unit {0})
  unfolding check_core
  check_document d = do
    check_core d
    guard (is_filled d.policy_digest) policy_document_invalid
    guard (str_eq d.policy_digest (document_digest d)) policy_digest_mismatch

  abbrev status_ok : ReferenceStatus → String → Bool
  status_ok inactive digest = str_eq digest runtime.no_policy_digest
  status_ok active digest = not (str_eq digest runtime.no_policy_digest)

  unfoldable pub check_reference : PolicyReference → Result LifecycleError (Unit {0})
  check_reference s = do
    guard (is_safe s.activation_sequence && is_filled s.active_policy_digest)
        policy_reference_invalid
    guard (status_ok s.status s.active_policy_digest) policy_reference_invalid

  unfoldable pub activate_policy :
      PolicyReference → PolicyDocument → Result LifecycleError PolicyReference
  unfolding check_document check_reference
  activate_policy s d = do
    check_document d
    check_reference s
    ok (
        if str_eq s.active_policy_digest d.policy_digest then s else record {
          status = active;
          active_policy_digest = d.policy_digest;
          activation_sequence = suc s.activation_sequence;
        })

  abbrev pub deactivated : ReferenceStatus → PolicyReference → PolicyReference
  deactivated inactive s = s
  deactivated active s = record {
    status = inactive;
    active_policy_digest = runtime.no_policy_digest;
    activation_sequence = suc s.activation_sequence;
  }

  unfoldable pub deactivate_policy : PolicyReference → Result LifecycleError PolicyReference
  unfolding check_reference
  deactivate_policy s = do check_reference s; ok (deactivated s.status s)
