-- ===== src/Common/Rearranged.antt =====
-- What does not depend on the order of a list, and sorting by a number that no two elements share.
use mathlib.Core.Path.{◌≡◌, refl, sym, ap, ◌∙◌}
use mathlib.Core.Logic.{inl, inr, ◌≢◌}
use mathlib.Core.Bool.{Bool, true, ◌&&◌, ◌||◌}
use mathlib.Core.List.{List, [], ◌∷◌, map}
use Prim.Native.Nat.{ℕ}
use native.Mathlib.Omega.{arith}
use horseness.Common.Tests.{Bool-cases, leb}
use horseness.Common.Lists.{every, any}
use horseness.Common.Sets.{Eq, nat_eq, member, distinct}
use horseness.Common.Sort.{All, Any, Rearranged, none, cons, swap, chain, insert, sort}

module _ {ℓ} {A : Type ℓ} where
  pub Rearranged-refl : (xs : List A) → Rearranged xs xs
  Rearranged-refl [] = none
  Rearranged-refl (x ∷ xs) = cons x (Rearranged-refl xs)

  pub Rearranged-sym : {xs ys : List A} → Rearranged xs ys → Rearranged ys xs
  Rearranged-sym none = none
  Rearranged-sym (cons x r) = cons x (Rearranged-sym r)
  Rearranged-sym (swap x y xs) = swap y x xs
  Rearranged-sym (chain r s) = chain (Rearranged-sym s) (Rearranged-sym r)

  pub insert-Rearranged :
      (before : A → A → Bool) (x : A) (xs : List A) → Rearranged (x ∷ xs) (insert before x xs)
  unfolding insert
  insert-Rearranged before x [] = Rearranged-refl (x ∷ [])
  insert-Rearranged before x (y ∷ ys) = elim (Bool-cases (before x y)) [
    | inl b ↦ rw (b, insert) (Rearranged-refl (x ∷ y ∷ ys))
    | inr b ↦ rw (b, insert) (chain (swap x y ys) (cons y (insert-Rearranged before x ys)))
  ]

  pub sort-Rearranged : (before : A → A → Bool) (xs : List A) → Rearranged xs (sort before xs)
  unfolding sort
  sort-Rearranged before [] = none
  sort-Rearranged before (x ∷ xs) =
      chain (cons x (sort-Rearranged before xs)) (insert-Rearranged before x (sort before xs))

  pub All-Rearranged {κ} :
      (P : A → Type κ) {xs ys : List A} → Rearranged xs ys → All P xs → All P ys
  All-Rearranged P none h = h
  All-Rearranged P (cons x r) h = (h.0, All-Rearranged P r h.1)
  All-Rearranged P (swap x y xs) h = (h.1.0, (h.0, h.1.1))
  All-Rearranged P (chain r s) h = All-Rearranged P s (All-Rearranged P r h)

  pub Any-Rearranged : (P : A → Type 0) {xs ys : List A} → Rearranged xs ys → Any P xs → Any P ys
  Any-Rearranged P none h = h
  Any-Rearranged P (cons x r) h = elim h [ inl p ↦ inl p | inr q ↦ inr (Any-Rearranged P r q) ]
  Any-Rearranged P (swap x y xs) h = elim h [
    | inl p ↦ inr (inl p)
    | inr q ↦ elim q [ inl p ↦ inl p | inr t ↦ inr (inr t) ]
  ]
  Any-Rearranged P (chain r s) h = Any-Rearranged P s (Any-Rearranged P r h)

  pub any-Rearranged : (p : A → Bool) {xs ys : List A} → Rearranged xs ys → any p xs ≡ any p ys
  any-Rearranged p none = refl
  any-Rearranged p (cons x r) = ap (λ b. p x || b) (any-Rearranged p r)
  any-Rearranged p (swap x y xs) = ground arith
  any-Rearranged p (chain r s) = any-Rearranged p r ∙ any-Rearranged p s

  pub every-Rearranged :
      (p : A → Bool) {xs ys : List A} → Rearranged xs ys → every p xs ≡ every p ys
  every-Rearranged p none = refl
  every-Rearranged p (cons x r) = ap (λ b. p x && b) (every-Rearranged p r)
  every-Rearranged p (swap x y xs) = ground arith
  every-Rearranged p (chain r s) = every-Rearranged p r ∙ every-Rearranged p s

  pub map-Rearranged {κ} :
      {B : Type κ} (f : A → B) {xs ys : List A}
      → Rearranged xs ys
      → Rearranged (map f xs) (map f ys)
  map-Rearranged f none = none
  map-Rearranged f (cons x r) = cons (f x) (map-Rearranged f r)
  map-Rearranged f (swap x y xs) = swap (f x) (f y) (map f xs)
  map-Rearranged f (chain r s) = chain (map-Rearranged f r) (map-Rearranged f s)

module _ {ℓ} {A : Type ℓ} ⦃e : Eq A⦄ where
  pub member-Rearranged : (a : A) {xs ys : List A} → Rearranged xs ys → member a xs ≡ member a ys
  unfolding member
  member-Rearranged a none = refl
  member-Rearranged a (cons x r) = ap (λ b. e.beq x a || b) (member-Rearranged a r)
  member-Rearranged a (swap x y xs) = ground arith
  member-Rearranged a (chain r s) = member-Rearranged a r ∙ member-Rearranged a s

  pub distinct-Rearranged : {xs ys : List A} → Rearranged xs ys → distinct xs ≡ distinct ys
  unfolding distinct
  distinct-Rearranged none = refl
  distinct-Rearranged (cons x r) = ground (arith, member-Rearranged x r, distinct-Rearranged r)
  distinct-Rearranged (swap x y xs) = ground (arith, e.beq_iff x y, e.beq_iff y x)
  distinct-Rearranged (chain r s) = distinct-Rearranged r ∙ distinct-Rearranged s

module _ {ℓ} {A : Type ℓ} (key : A → ℕ) where
  abbrev by_key : A → A → Bool
  by_key a b = leb (key a) (key b)

  insert_comm :
      (x y : A) (zs : List A)
      → key x ≢ key y
      → insert by_key x (insert by_key y zs) ≡ insert by_key y (insert by_key x zs)
  unfolding insert
  insert_comm x y [] h = ground arith
  insert_comm x y (z ∷ zs) h = ground (arith, insert_comm x y zs h)

  -- Without a repeated key the sorted list does not depend on the order of the given one.
  pub sort_eq_of_Rearranged :
      {xs ys : List A}
      → Rearranged xs ys
      → distinct (map key xs) ≡ true
      → sort by_key xs ≡ sort by_key ys
  unfolding sort distinct
  sort_eq_of_Rearranged none d = refl
  sort_eq_of_Rearranged (cons x r) d = ap (insert by_key x) (sort_eq_of_Rearranged r (ground arith))
  sort_eq_of_Rearranged (swap x y xs) d = insert_comm x y (sort by_key xs) (ground arith)
  sort_eq_of_Rearranged (chain r s) d =
      sort_eq_of_Rearranged r d
      ∙ sort_eq_of_Rearranged s (sym (distinct-Rearranged (map-Rearranged key r)) ∙ d)
