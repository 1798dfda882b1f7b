-- ===== src/Tests/Deltas.antt =====
-- Runs of pointers and deltas (packages/domain/src/delta.ts).
use horseness.Common.{
  String, some, List, [], ◌∷◌, true, every, distinct, if◌then◌else◌, ok, ◌≡◌, ◌↔◌, refl, str_eq,
  ◌==◌,
}
use horseness.Domain.Canonical.{
  Text, units, text_beq, Json, num, obj, field, end, assert_json, assert_valid_unicode,
}
use horseness.Domain.Delta.Pointer.{
  join_tokens, validate_pointer, pointer_tokens, escapes_ok, split_slash, decode_pointer_token,
}
use horseness.Domain.Delta.Pointer.RoundTrip.{validate_pointer-join}
use horseness.Domain.Delta.Scope.{DeltaAuthorityScope, scope_contains}
use horseness.Domain.Delta.Document.{array_index, read_at, set_child, put_parent}
use horseness.Domain.Delta.Document.Frame.{apart, differ}
use horseness.Domain.Delta.Apply.{
  DeltaOperation, test, replace, Digests, Accepted, matches, apply_replace, apply_one, apply_tokens,
  apply_all, apply_delta, check_operations, writes, any_overlap,
}
use horseness.Domain.Delta.Apply.Effect.{spares, apply_delta-frame}
use horseness.Domain.Delta.Apply.Outcome.{apply_replace-read_at, apply_delta-tests}

-- A digest that tells the documents of these runs apart: it is that of the first number.
digest : Json → String
digest (num (c ∷ s)) = if c == 0x31 then "one" else "two"
digest (obj (field k v fs)) = digest v
digest _ = "none"

abbrev hash : Digests
hash = record {
  json_value_digest = digest;
  document_digest = digest;
  operation_result_digest = λ os j. digest j;
}

abbrev one : Json
one = num (units "1")

abbrev two : Json
two = num (units "2")

abbrev pair : Json → Json → Json
pair a b = obj (field (units "a") (obj (field (units "x") a end)) (field (units "b") b end))

abbrev path : Text
path = units "/a/x"

abbrev scope : DeltaAuthorityScope
scope = record { workspace_id = "w"; run_id = "r"; task_id = "t"; roots = units "/a" ∷ [] }

abbrev delta : List DeltaOperation
delta = replace path "one" two ∷ []

abbrev result : Accepted
result = record { document = pair two one; state_hash = "two"; operation_result_digest = "two" }

delta_accepted : apply_delta hash (pair one one) delta scope ≡ ok result
unfolding apply_delta apply_all apply_one apply_tokens apply_replace matches check_operations writes
    any_overlap scope_contains validate_pointer pointer_tokens escapes_ok split_slash
    decode_pointer_token join_tokens assert_json assert_valid_unicode text_beq distinct read_at
    set_child put_parent str_eq digest
delta_accepted = refl

delta-spares : every (spares (units "b" ∷ [])) delta ≡ true
unfolding validate_pointer pointer_tokens escapes_ok split_slash decode_pointer_token join_tokens
    assert_valid_unicode text_beq apart differ array_index
delta-spares = refl

apply_delta-frame_example :
    read_at result.document (units "b" ∷ []) ≡ read_at (pair one one) (units "b" ∷ [])
apply_delta-frame_example =
    apply_delta-frame hash (pair one one) delta scope result (units "b" ∷ []) delta_accepted
      delta-spares

abbrev tokens : List Text
tokens = units "a" ∷ units "x" ∷ []

replaced : apply_replace hash (pair one one) tokens "one" two ≡ ok (pair two one)
unfolding apply_replace matches read_at set_child put_parent str_eq digest text_beq
replaced = refl

apply_replace-read_at_example :
    (matches hash (read_at (pair one one) tokens) "one" ≡ true)
    × (read_at (pair two one) tokens ≡ some two)
apply_replace-read_at_example =
    apply_replace-read_at hash (pair one one) (pair two one) tokens "one" two replaced

apply_delta-tests_example :
    ¬ (apply_delta hash (pair one one) (test path "one" ∷ []) scope ≡ ok result)
apply_delta-tests_example =
    apply_delta-tests hash (pair one one) (test path "one" ∷ []) scope result refl

abbrev odd_tokens : List Text
odd_tokens = units "a/b" ∷ units "~" ∷ []

validate_pointer-join_example : (validate_pointer (units "/a~1b/~0") ≡ some odd_tokens) ↔ (
    (units "/a~1b/~0" ≡ join_tokens odd_tokens) × (assert_valid_unicode (units "/a~1b/~0") ≡ true))
validate_pointer-join_example = validate_pointer-join (units "/a~1b/~0") odd_tokens

odd_tokens_read : validate_pointer (units "/a~1b/~0") ≡ some odd_tokens
unfolding validate_pointer pointer_tokens escapes_ok split_slash decode_pointer_token join_tokens
    assert_valid_unicode text_beq
odd_tokens_read = refl
