-- ===== src/Domain/Delta/Apply.antt =====
-- packages/domain/src/delta.ts, `applyDelta`: the checks of the operations, then the operations in
-- turn. Operations and scope are given by their types, so the checks of their shape are not needed.
pub mod Effect
pub mod Outcome
use horseness.Common.{
  ℕ, List, [], ◌∷◌, ◌++◌, every, any, distinct, Bool, true, false, ◌&&◌, ◌||◌, not, ltb, ◌==◌,
  if◌then◌else◌, Option, none, some, String, str_eq, Result, ok, err, ◌>>=◌, ◌>>◌, guard,
}
use horseness.Domain.Canonical.{
  Text, text_beq, text_eq, Json, null, bool, num, str, arr, obj, Items, Fields, assert_json,
}
use horseness.Domain.Delta.Pointer.{slash, validate_pointer}
use horseness.Domain.Delta.Scope.{DeltaAuthorityScope, pointer_ok, scope_contains}
use horseness.Domain.Delta.Document.{
  array_index, length_items, insert_item, remove_item, set_child, get_field, set_field,
  delete_field, child, parent_and_key, read_at, put_parent,
}

pub data DeltaOperation : Type 0 where
  test : Text → String → DeltaOperation
  add replace : Text → String → Json → DeltaOperation
  remove : Text → String → DeltaOperation

pub data DeltaReason : Type 0 where
  test_failed add_parent_changed add_target_exists path_missing value_digest_mismatch : DeltaReason
  array_index_range invalid_envelope invalid_pointer root_add_forbidden : DeltaReason
  root_remove_forbidden duplicate_write_target overlapping_write_target scope_escape : DeltaReason
  invalid_json_value final_document_unchanged : DeltaReason

pub data DeltaOutcome : Type 0 where
  conflicted rejected : DeltaOutcome

-- The outcome that `failure` gives a reason.
unfoldable pub failure : DeltaReason → DeltaOutcome
failure test_failed = conflicted
failure add_parent_changed = conflicted
failure add_target_exists = conflicted
failure path_missing = conflicted
failure value_digest_mismatch = conflicted
failure array_index_range = conflicted
failure _ = rejected

pub record Accepted : Type 0 where
  pub document : Json
  pub state_hash : String
  pub operation_result_digest : String

abbrev pub path_of : DeltaOperation → Text
path_of (test p _) = p
path_of (add p _ _) = p
path_of (replace p _ _) = p
path_of (remove p _) = p

abbrev pub is_test : DeltaOperation → Bool
is_test (test _ _) = true
is_test _ = false

abbrev value_ok : DeltaOperation → Bool
value_ok (add _ _ v) = assert_json v
value_ok (replace _ _ v) = assert_json v
value_ok _ = true

abbrev within : DeltaAuthorityScope → Text → Bool
within scope path = elim (scope_contains scope path) [ ok b ↦ b | err _ ↦ false ]

-- The first loop; the roots of the scope are valid by then.
unfoldable pub check_operations :
    DeltaAuthorityScope → List DeltaOperation → Result DeltaReason (Unit {0})
check_operations scope [] = ok tt
check_operations scope (o ∷ os) =
    let rest = check_operations scope os in
    do
      guard (pointer_ok (path_of o)) invalid_pointer
      guard (within scope (path_of o)) scope_escape
      guard (value_ok o) invalid_json_value
      rest

-- The paths of the operations that write.
unfoldable pub writes : List DeltaOperation → List Text
writes [] = []
writes (o ∷ os) = let rest = writes os in if is_test o then rest else path_of o ∷ rest

unfoldable pub starts_with : Text → Text → Bool
starts_with [] s = true
starts_with (p ∷ ps) [] = false
starts_with (p ∷ ps) (u ∷ s) = p == u && starts_with ps s

abbrev is_root : Text → Bool
is_root [] = true
is_root (_ ∷ _) = false

unfoldable pub overlaps : Text → Text → Bool
unfolding starts_with
overlaps a b =
    not (is_root a) && starts_with (a ++ slash ∷ []) b
    || not (is_root b) && starts_with (b ++ slash ∷ []) a
    || is_root a
    || is_root b

-- The two nested loops over the writes.
unfoldable pub any_overlap : List Text → Bool
unfolding overlaps
any_overlap [] = false
any_overlap (w ∷ ws) = any (overlaps w) ws || any_overlap ws

-- SHA-256 digests of canonical JSON: of a value, of the document and of operations and document.
pub record Digests : Type 0 where
  pub json_value_digest : Json → String
  pub document_digest : Json → String
  pub operation_result_digest : List DeltaOperation → Json → String

-- The array branch of `add`: the index may be the length.
unfoldable pub insert_at : Items → Option ℕ → Json → Result DeltaReason Json
insert_at xs none v = err array_index_range
insert_at xs (some i) v =
    if ltb (length_items xs) i then err array_index_range else ok (arr (insert_item xs i v))

abbrev has_field : Text → Fields → Bool
has_field k fs = elim (get_field k fs) [ none ↦ false | some _ ↦ true ]

-- The mutation of the container by `add`.
unfoldable pub add_to : Json → Text → Json → Result DeltaReason Json
add_to (arr xs) key v = insert_at xs (array_index key) v
add_to (obj fs) key v =
    if has_field key fs then err add_target_exists else ok (obj (set_field key v fs))
add_to other key v = err path_missing

abbrev remove_item_at : Items → Option ℕ → Items
remove_item_at xs none = xs
remove_item_at xs (some i) = remove_item xs i

-- The mutation of the container by `remove`, whose member exists.
unfoldable pub remove_from : Json → Text → Json
remove_from (arr xs) key = arr (remove_item_at xs (array_index key))
remove_from (obj fs) key = obj (delete_field key fs)
remove_from other key = other

-- The document with the container at the pointer mutated by `change`.
abbrev mutate : Json → List Text → (Json → Text → Json) → Json
mutate document tokens change = elim (parent_and_key document tokens) [
  | none ↦ document
  | some (parent, key) ↦ put_parent document tokens (change parent key)
]

module _ (hash : Digests) where
  unfoldable pub matches : Option Json → String → Bool
  matches none expected = false
  matches (some v) expected = str_eq (hash.json_value_digest v) expected

  unfoldable pub apply_replace : Json → List Text → String → Json → Result DeltaReason Json
  apply_replace document tokens expected v = elim (read_at document tokens) [
    | none ↦ err path_missing
    | some current ↦
        if not (matches (some current) expected) then err value_digest_mismatch else elim tokens [
          | [] ↦ ok v
          | t ∷ ts ↦ ok (mutate document (t ∷ ts) (λ parent key. set_child parent key v))
        ]
  ]

  unfoldable pub apply_remove : Json → List Text → String → Result DeltaReason Json
  apply_remove document [] expected = err root_remove_forbidden
  apply_remove document (t ∷ ts) expected = elim (read_at document (t ∷ ts)) [
    | none ↦ err path_missing
    | some current ↦
        if not (matches (some current) expected)
        then err value_digest_mismatch
        else ok (mutate document (t ∷ ts) remove_from)
  ]

  unfoldable pub apply_add : Json → List Text → String → Json → Result DeltaReason Json
  apply_add document [] expected v = err root_add_forbidden
  apply_add document (t ∷ ts) expected v = elim (parent_and_key document (t ∷ ts)) [
    | none ↦ err path_missing
    | some (parent, key) ↦
        if not (matches (some parent) expected)
        then err add_parent_changed
        else (do changed ← add_to parent key v; ok (put_parent document (t ∷ ts) changed))
  ]

  -- One round of the second loop, at the tokens of the operation's path.
  unfoldable pub apply_tokens : Json → DeltaOperation → List Text → Result DeltaReason Json
  apply_tokens document (test p expected) tokens =
      if matches (read_at document tokens) expected then ok document else err test_failed
  apply_tokens document (replace p expected v) tokens = apply_replace document tokens expected v
  apply_tokens document (remove p expected) tokens = apply_remove document tokens expected
  apply_tokens document (add p expected v) tokens = apply_add document tokens expected v

  unfoldable pub apply_one : Json → DeltaOperation → Result DeltaReason Json
  apply_one document o = elim (validate_pointer (path_of o)) [
    | none ↦ err invalid_pointer
    | some tokens ↦ apply_tokens document o tokens
  ]

  unfoldable pub apply_all : Json → List DeltaOperation → Result DeltaReason Json
  apply_all document [] = ok document
  apply_all document (o ∷ os) = do next ← apply_one document o; apply_all next os

  unfoldable pub apply_delta :
      Json → List DeltaOperation → DeltaAuthorityScope → Result DeltaReason Accepted
  apply_delta base operations scope = do
    guard (assert_json base) invalid_envelope
    guard (every pointer_ok scope.roots) invalid_pointer
    check_operations scope operations
    guard (distinct (writes operations)) duplicate_write_target
    guard (not (any_overlap (writes operations))) overlapping_write_target
    document ← apply_all base operations
    guard (not (str_eq (hash.json_value_digest document) (hash.json_value_digest base)))
        final_document_unchanged
    ok (record {
      document = document;
      state_hash = hash.document_digest document;
      operation_result_digest = hash.operation_result_digest operations document;
    })
