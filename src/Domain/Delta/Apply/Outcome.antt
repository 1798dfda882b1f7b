-- ===== src/Domain/Delta/Apply/Outcome.antt =====
-- What an accepted delta has passed and has written.
use horseness.Common.{
  List, [], ◌∷◌, every, true, none, some, String, ok, ◌≡◌, ◌≢◌, refl, ap, ◌∙◌, arith, Option-cases,
  inl, inr,
}
use horseness.Domain.Canonical.{Text, text_eq, Json, null, bool, num, str, arr, obj}
use horseness.Domain.Delta.Scope.{DeltaAuthorityScope}
use horseness.Domain.Delta.Document.{
  child, is_container, parent_and_key, read_at, set_child, put_parent,
}
use horseness.Domain.Delta.Document.Frame.{child-set_child_self}
use horseness.Domain.Delta.Apply.{
  DeltaOperation, test, add, replace, remove, Digests, Accepted, path_of, is_test, matches,
  apply_replace, apply_tokens, apply_one, apply_all, apply_delta, check_operations, within,
}
use horseness.Domain.Delta.Apply.Effect.{apply_delta-apply_all}

-- The container is where it was written.
parent_and_key-put_parent :
    (j parent written : Json) (ts : List Text) (key : Text)
    → parent_and_key j ts ≡ some (parent, key)
    → is_container written ≡ true
    → parent_and_key (put_parent j ts written) ts ≡ some (written, key)
unfolding parent_and_key put_parent
parent_and_key-put_parent j parent written [] key e c = absurd (cc)
parent_and_key-put_parent j parent written (k ∷ []) key e c = ground arith
parent_and_key-put_parent j parent written (t ∷ u ∷ ts) key e c = elim (Option-cases (child j t)) [
  | inl p ↦ absurd (cc (rw (p, parent_and_key) at e))
  | inr (next, p) ↦
      let put : Json = put_parent next (u ∷ ts) written in
      rw (p, put_parent)
        (rw (child-set_child_self j t put next p, parent_and_key)
          (parent_and_key-put_parent next parent written (u ∷ ts) key (rw (p, parent_and_key) at e)
            c))
]

child-is_container : (j v : Json) (t : Text) → child j t ≡ some v → is_container j ≡ true
unfolding child
child-is_container null v t h = absurd (cc)
child-is_container (bool b) v t h = absurd (cc)
child-is_container (num n) v t h = absurd (cc)
child-is_container (str s) v t h = absurd (cc)
child-is_container (arr xs) v t h = refl
child-is_container (obj fs) v t h = refl

set_child-is_container :
    (j v : Json) (t : Text) → is_container j ≡ true → is_container (set_child j t v) ≡ true
unfolding set_child
set_child-is_container null v t h = h
set_child-is_container (bool b) v t h = h
set_child-is_container (num n) v t h = h
set_child-is_container (str s) v t h = h
set_child-is_container (arr xs) v t h = refl
set_child-is_container (obj fs) v t h = refl

read_at-none :
    (j : Json) (t : Text) (ts : List Text)
    → parent_and_key j (t ∷ ts) ≡ none
    → read_at j (t ∷ ts) ≡ none
unfolding read_at
read_at-none j t ts p = rw (p, read_at) refl

read_at-some :
    (j parent : Json) (t : Text) (ts : List Text) (key : Text)
    → parent_and_key j (t ∷ ts) ≡ some (parent, key)
    → read_at j (t ∷ ts) ≡ child parent key
unfolding read_at
read_at-some j parent t ts key p = rw (p, read_at) refl

module _ (hash : Digests) where
  -- A `replace` that is applied finds a value of the expected digest at its pointer, and leaves
  -- its own value there.
  pub apply_replace-read_at :
      (document next : Json) (ts : List Text) (expected : String) (v : Json)
      → apply_replace hash document ts expected v ≡ ok next
      → (matches hash (read_at document ts) expected ≡ true) × (read_at next ts ≡ some v)
  unfolding apply_replace
  apply_replace-read_at document next [] expected v h = unfold read_at in ground arith
  apply_replace-read_at document next (t ∷ ts) expected v h =
      elim (Option-cases (parent_and_key document (t ∷ ts))) [
        | inl p ↦ absurd (cc (rw (read_at-none document t ts p, apply_replace) at h))
        | inr ((parent, key), p) ↦
            let found : read_at document (t ∷ ts) ≡ child parent key =
              read_at-some document parent t ts key p in
            elim (Option-cases (child parent key)) [
              | inl q ↦ absurd (cc (rw (found ∙ q, apply_replace) at h))
              | inr (c, q) ↦
                  let container : is_container (set_child parent key v) ≡ true =
                    set_child-is_container parent v key (child-is_container parent c key q) in
                  let put : Json = put_parent document (t ∷ ts) (set_child parent key v) in
                  let written : read_at put (t ∷ ts) ≡ some v =
                    read_at-some put (set_child parent key v) t ts key (
                      parent_and_key-put_parent document parent (set_child parent key v) (t ∷ ts)
                        key p container)
                    ∙ child-set_child_self parent key v c q in
                  ground (arith, found ∙ q)
            ]
      ]

  apply_all-tests :
      (document next : Json) (os : List DeltaOperation)
      → every is_test os ≡ true
      → apply_all hash document os ≡ ok next
      → next ≡ document
  unfolding apply_all apply_one apply_tokens
  apply_all-tests document next [] t h = cc
  apply_all-tests document next (test p d ∷ os) t h =
      ground (arith, apply_all-tests document next os t)
  apply_all-tests document next (add p d v ∷ os) t h = absurd (cc)
  apply_all-tests document next (replace p d v ∷ os) t h = absurd (cc)
  apply_all-tests document next (remove p d ∷ os) t h = absurd (cc)

  -- A delta without a write is never accepted, whatever it tests.
  pub apply_delta-tests :
      (base : Json) (os : List DeltaOperation) (scope : DeltaAuthorityScope) (a : Accepted)
      → every is_test os ≡ true
      → apply_delta hash base os scope ≢ ok a
  apply_delta-tests base os scope a t h =
      let facts : _ = apply_delta-apply_all hash base os scope a h in
      facts.1 (ap hash.json_value_digest (apply_all-tests base a.document os t facts.0))

  check_operations-within :
      (scope : DeltaAuthorityScope) (os : List DeltaOperation)
      → check_operations scope os ≡ ok tt
      → every (λ o. within scope (path_of o)) os ≡ true
  unfolding check_operations
  check_operations-within scope [] h = refl
  check_operations-within scope (o ∷ os) h = ground (arith, check_operations-within scope os)
