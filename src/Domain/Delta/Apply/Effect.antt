-- ===== src/Domain/Delta/Apply/Effect.antt =====
-- What one operation, and a whole delta, does to the document: it writes what it says, and nothing
-- off the way to the containers that it names.
use horseness.Common.{
  List, [], ◌∷◌, every, Bool, true, ◌||◌, none, some, String, Result-cases, >>=-eq-ok, ok, ◌≡◌, ◌≢◌,
  refl, ap, ◌∙◌, arith, Option-cases, str_eq_iff, inl, inr, and-true,
}
use horseness.Domain.Canonical.{Text, Json}
use horseness.Domain.Delta.Pointer.{validate_pointer}
use horseness.Domain.Delta.Scope.{DeltaAuthorityScope}
use horseness.Domain.Delta.Document.{parent_and_key, read_at, set_child}
use horseness.Domain.Delta.Document.Frame.{walk, read_at-walk, apart, walk-put_parent}
use horseness.Domain.Delta.Apply.{
  DeltaOperation, test, add, replace, remove, Digests, Accepted, path_of, is_test, mutate,
  apply_replace, apply_remove, apply_add, add_to, remove_from, apply_tokens, apply_one, apply_all,
  apply_delta,
}

-- The operation is a test, or the walk `q` leaves the way to the container that it writes.
abbrev pub spares : List Text → DeltaOperation → Bool
spares q o = is_test o || elim (validate_pointer (path_of o)) [ none ↦ true | some ts ↦ apart ts q ]

mutate-walk :
    (document : Json) (ts q : List Text) (change : Json → Text → Json)
    → apart ts q ≡ true
    → walk (mutate document ts change) q ≡ walk document q
mutate-walk document ts q change h = elim (Option-cases (parent_and_key document ts)) [
  | inl e ↦ rw (e, mutate) refl
  | inr ((parent, key), e) ↦ rw (e, mutate) (walk-put_parent document ts q (change parent key) h)
]

module _ (hash : Digests) where
  apply_replace-walk :
      (document next : Json) (ts q : List Text) (expected : String) (v : Json)
      → apart ts q ≡ true
      → apply_replace hash document ts expected v ≡ ok next
      → walk next q ≡ walk document q
  unfolding apply_replace
  apply_replace-walk document next [] q expected v h e = absurd (unfold apart in cc)
  apply_replace-walk document next (t ∷ ts) q expected v h e = ground (
    arith,
    mutate-walk document (t ∷ ts) q (λ (parent : Json) (key : Text). set_child parent key v),
  )

  apply_remove-walk :
      (document next : Json) (ts q : List Text) (expected : String)
      → apart ts q ≡ true
      → apply_remove hash document ts expected ≡ ok next
      → walk next q ≡ walk document q
  unfolding apply_remove
  apply_remove-walk document next [] q expected h e = absurd (cc)
  apply_remove-walk document next (t ∷ ts) q expected h e =
      ground (arith, mutate-walk document (t ∷ ts) q remove_from)

  apply_add-walk :
      (document next : Json) (ts q : List Text) (expected : String) (v : Json)
      → apart ts q ≡ true
      → apply_add hash document ts expected v ≡ ok next
      → walk next q ≡ walk document q
  unfolding apply_add
  apply_add-walk document next [] q expected v h e = absurd (cc)
  apply_add-walk document next (t ∷ ts) q expected v h e =
      elim (Option-cases (parent_and_key document (t ∷ ts))) [
        | inl p ↦ absurd (cc (rw (p, apply_add) at e))
        | inr ((parent, key), p) ↦ elim (Result-cases (add_to parent key v)) [
          | inl (changed, c) ↦ ground (arith, walk-put_parent document (t ∷ ts) q changed)
          | inr (x, c) ↦ ground arith
        ]
      ]

  apply_tokens-walk :
      (document next : Json) (o : DeltaOperation) (ts q : List Text)
      → (is_test o || apart ts q) ≡ true
      → apply_tokens hash document o ts ≡ ok next
      → walk next q ≡ walk document q
  unfolding apply_tokens
  apply_tokens-walk document next (test p d) ts q h e = ground arith
  apply_tokens-walk document next (replace p d v) ts q h e =
      apply_replace-walk document next ts q d v h e
  apply_tokens-walk document next (remove p d) ts q h e = apply_remove-walk document next ts q d h e
  apply_tokens-walk document next (add p d v) ts q h e = apply_add-walk document next ts q d v h e

  apply_one-walk :
      (document next : Json) (o : DeltaOperation) (q : List Text)
      → spares q o ≡ true
      → apply_one hash document o ≡ ok next
      → walk next q ≡ walk document q
  unfolding apply_one
  apply_one-walk document next o q h e = elim (Option-cases (validate_pointer (path_of o))) [
    | inl p ↦ absurd (cc (rw (p, apply_one) at e))
    | inr (ts, p) ↦ apply_tokens-walk document next o ts q (rw p at h) (rw (p, apply_one) at e)
  ]

  apply_all-walk :
      (document next : Json) (os : List DeltaOperation) (q : List Text)
      → every (spares q) os ≡ true
      → apply_all hash document os ≡ ok next
      → walk next q ≡ walk document q
  unfolding apply_all
  apply_all-walk document next [] q h e = ap (λ (j : Json). walk j q) (cc)
  apply_all-walk document next (o ∷ os) q h e =
      let (middle, first, rest) =
        >>=-eq-ok (apply_one hash document o) (λ j. apply_all hash j os) e in
      let both : (spares q o ≡ true) × (every (spares q) os ≡ true) = and-true _ _ h in
      apply_all-walk middle next os q both.1 rest ∙ apply_one-walk document middle o q both.0 first

  pub apply_delta-apply_all :
      (base : Json) (os : List DeltaOperation) (scope : DeltaAuthorityScope) (a : Accepted)
      → apply_delta hash base os scope ≡ ok a
      → (apply_all hash base os ≡ ok a.document)
        × (hash.json_value_digest a.document ≢ hash.json_value_digest base)
        × (a.state_hash ≡ hash.document_digest a.document)
        × (a.operation_result_digest ≡ hash.operation_result_digest os a.document)
  unfolding apply_delta
  apply_delta-apply_all base os scope a h = elim (Result-cases (apply_all hash base os)) [
    | inl (d, e) ↦
        ground (arith, str_eq_iff (hash.json_value_digest d) (hash.json_value_digest base))
    | inr (x, e) ↦ ground arith
  ]

  -- An accepted delta leaves alone all that it does not name: where each operation is a test, or
  -- writes into a container off the way of the pointer `q`, the document reads at `q` as before.
  pub apply_delta-frame :
      (base : Json) (os : List DeltaOperation) (scope : DeltaAuthorityScope) (a : Accepted)
      (q : List Text)
      → apply_delta hash base os scope ≡ ok a
      → every (spares q) os ≡ true
      → read_at a.document q ≡ read_at base q
  apply_delta-frame base os scope a q h s =
      rw (read_at-walk a.document q, read_at-walk base q)
        (apply_all-walk base a.document os q s (apply_delta-apply_all base os scope a h).0)
