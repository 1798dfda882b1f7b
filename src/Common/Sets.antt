-- ===== src/Common/Sets.antt =====
-- `Set.has`, `includes` and `new Set(xs).size === xs.length` over lists, for any type with a
-- Boolean equality that decides it.
use Prim.Native.Nat.{ℕ, suc, ◌≤◌}
use Prim.Native.String.{String}
use mathlib.Core.Path.{◌≡◌, refl}
use mathlib.Core.Logic.{◌↔◌}
use mathlib.Core.Bool.{Bool, true, false, not, ◌&&◌, ◌||◌}
use mathlib.Core.List.{List, [], ◌∷◌, ◌++◌}
use native.Mathlib.Omega.{arith}
use horseness.Common.Tests.{if◌then◌else◌, str_eq, str_eq_iff, ◌==◌, ==_iff, and-true}
use horseness.Common.Lists.{length, every, keep}

pub record Eq {ℓ} (A : Type ℓ) : Type ℓ where
  pub beq : A → A → Bool
  pub beq_iff : (x y : A) → (beq x y ≡ true) ↔ (x ≡ y)

instance abbrev pub string_eq : Eq String
string_eq = record { beq = str_eq; beq_iff = str_eq_iff }

instance abbrev pub nat_eq : Eq ℕ
nat_eq = record { beq = ◌==◌; beq_iff = ==_iff }

-- `[...new Set(values)]`
unfoldable pub unique_texts : List String → List String
unique_texts [] = []
unique_texts (t ∷ ts) = t ∷ keep (λ u. not (str_eq t u)) (unique_texts ts)

module _ {ℓ} {A : Type ℓ} ⦃e : Eq A⦄ where
  pub beq_refl : (a : A) → e.beq a a ≡ true
  beq_refl a = (e.beq_iff a a).1 refl

  -- `set.has(a)`, `list.includes(a)`.
  unfoldable pub member : A → List A → Bool
  member a [] = false
  member a (x ∷ xs) = e.beq x a || member a xs

  -- `set.add(a)`.
  unfoldable pub add : A → List A → List A
  unfolding member
  add a xs = if member a xs then xs else a ∷ xs

  -- `new Set(xs).size === xs.length`.
  unfoldable pub distinct : List A → Bool
  unfolding member
  distinct [] = true
  distinct (x ∷ xs) = not (member x xs) && distinct xs

  -- `set.delete(a)`: a set holds an element once.
  unfoldable pub delete : A → List A → List A
  delete a [] = []
  delete a (x ∷ xs) = let rest = delete a xs in if e.beq x a then xs else x ∷ rest

  pub member-head : (a : A) (xs : List A) → member a (a ∷ xs) ≡ true
  unfolding member
  member-head a xs = ground (arith, beq_refl a)

  pub member-tail : (a x : A) (xs : List A) → member a xs ≡ true → member a (x ∷ xs) ≡ true
  unfolding member
  member-tail a x xs h = ground arith

  pub member-append : (a : A) (xs ys : List A) → member a (xs ++ ys) ≡ (member a xs || member a ys)
  unfolding member
  member-append a [] ys = refl
  member-append a (x ∷ xs) ys = ground (arith, member-append a xs ys)

  pub distinct-append :
      (x : A) (xs : List A) → distinct (xs ++ x ∷ []) ≡ (distinct xs && not (member x xs))
  unfolding distinct member
  distinct-append x [] = refl
  distinct-append x (z ∷ zs) =
      ground
        (arith, distinct-append x zs, member-append z zs (x ∷ []), e.beq_iff x z, e.beq_iff z x)

  pub member-add : (a b : A) (xs : List A) → member a (add b xs) ≡ (e.beq b a || member a xs)
  unfolding add
  member-add a b xs = ground (arith, e.beq_iff b a)

  pub length-add : (a : A) (xs : List A) → member a xs ≡ false → length (add a xs) ≡ suc (length xs)
  unfolding add
  length-add a xs h = ground arith

  pub distinct-add : (a : A) (xs : List A) → distinct xs ≡ true → distinct (add a xs) ≡ true
  unfolding add distinct
  distinct-add a xs h = ground arith

  -- Every member of a list meets what `every` tests.
  pub every-member :
      (p : A → Bool) (xs : List A) (a : A) → every p xs ≡ true → member a xs ≡ true → p a ≡ true
  unfolding member
  every-member p [] a h m = cc
  every-member p (x ∷ xs) a h m = ground (arith, e.beq_iff x a, every-member p xs a)

  pub every-intro :
      (p : A → Bool) (xs : List A) → ((a : A) → member a xs ≡ true → p a ≡ true) → every p xs ≡ true
  every-intro p [] h = refl
  every-intro p (x ∷ xs) h =
      ground (arith, h x (member-head x xs), every-intro p xs (λ a m. h a (member-tail a x xs m)))

  length-delete :
      (a : A) (ys : List A) → member a ys ≡ true → suc (length (delete a ys)) ≡ length ys
  unfolding member delete
  length-delete a [] m = cc
  length-delete a (y ∷ ys) m = ground (arith, length-delete a ys)

  member-delete :
      (a b : A) (ys : List A)
      → e.beq a b ≡ false
      → member b ys ≡ true
      → member b (delete a ys) ≡ true
  unfolding member delete
  member-delete a b [] n m = cc
  member-delete a b (y ∷ ys) n m =
      ground (arith, e.beq_iff y a, e.beq_iff y b, e.beq_iff a b, member-delete a b ys)

  member_ne : (a b : A) (xs : List A) → member a xs ≡ false → member b xs ≡ true → e.beq a b ≡ false
  unfolding member
  member_ne a b [] n m = cc
  member_ne a b (x ∷ xs) n m =
      ground (arith, e.beq_iff a b, e.beq_iff x a, e.beq_iff x b, member_ne a b xs)

  -- A list without repetition, all of whose elements lie in another, is not longer.
  pub length-le_of_distinct :
      (xs ys : List A)
      → distinct xs ≡ true
      → ((a : A) → member a xs ≡ true → member a ys ≡ true)
      → length xs ≤ length ys
  unfolding distinct
  length-le_of_distinct [] ys d s = omega arith
  length-le_of_distinct (x ∷ xs) ys d s =
      let here : member x ys ≡ true = s x (member-head x xs) in
      let parts : (not (member x xs) ≡ true) × (distinct xs ≡ true) = and-true _ _ d in
      let rest : length xs ≤ length (delete x ys) =
        length-le_of_distinct xs (delete x ys) parts.1 (λ a m.
          member-delete x a ys (member_ne x a xs (ground arith) m) (s a (member-tail a x xs m))) in
      omega (arith, length-delete x ys here)
