-- ===== src/Common/Sort.antt =====
-- `Array.prototype.sort` with a comparator: the stable sort, here by insertion, with the laws that
-- the components use. `before a b` says that the comparator puts `a` no later than `b`.
use mathlib.Core.Path.{◌≡◌, refl}
use mathlib.Core.Logic.{◌⊎◌, inl, inr}
use mathlib.Core.Bool.{Bool, true, false}
use mathlib.Core.List.{List, [], ◌∷◌, ◌++◌}
use horseness.Common.Tests.{if◌then◌else◌, Bool-cases}

-- A property of each element, or of some element, by recursion.
abbrev pub All {ℓ κ} : {A : Type ℓ} → (A → Type κ) → List A → Type κ
All Holds [] = Unit
All Holds (y ∷ ys) = Holds y × All Holds ys

pub All-append {ℓ κ} :
    {A : Type ℓ} (P : A → Type κ) (xs ys : List A) → All P xs → All P ys → All P (xs ++ ys)
All-append P [] ys h k = k
All-append P (x ∷ xs) ys h k = (h.0, All-append P xs ys h.1 k)

pub All-map {ℓ κ} :
    {A : Type ℓ} {P Q : A → Type κ} (f : (a : A) → P a → Q a) (xs : List A) → All P xs → All Q xs
All-map f [] h = tt
All-map f (x ∷ xs) h = (f x h.0, All-map f xs h.1)

abbrev pub Any {ℓ} : {A : Type ℓ} → (A → Type 0) → List A → Type 0
Any P [] = ⊥
Any P (x ∷ xs) = P x ⊎ Any P xs

-- The same elements, as often, in another order.
pub data Rearranged {ℓ} {A : Type ℓ} : List A → List A → Type ℓ where
  none : Rearranged [] []
  cons : (x : A) {xs ys : List A} → Rearranged xs ys → Rearranged (x ∷ xs) (x ∷ ys)
  swap : (x y : A) (xs : List A) → Rearranged (x ∷ y ∷ xs) (y ∷ x ∷ xs)
  chain : {xs ys zs : List A} → Rearranged xs ys → Rearranged ys zs → Rearranged xs zs

module _ {ℓ} {A : Type ℓ} (before : A → A → Bool) where
  unfoldable pub insert : A → List A → List A
  insert x [] = x ∷ []
  insert x (y ∷ ys) = let rest = insert x ys in if before x y then x ∷ y ∷ ys else y ∷ rest

  unfoldable pub sort : List A → List A
  unfolding insert
  sort [] = []
  sort (x ∷ xs) = insert x (sort xs)

  pub All-insert {κ} : (P : A → Type κ) (x : A) (xs : List A) → P x → All P xs → All P (insert x xs)
  unfolding insert
  All-insert P x [] p h = (p, tt)
  All-insert P x (y ∷ ys) p h = elim (Bool-cases (before x y)) [
    | inl b ↦ rw (b, insert) (p, h)
    | inr b ↦ rw (b, insert) (h.0, All-insert P x ys p h.1)
  ]

  pub All-sort {κ} : (P : A → Type κ) (xs : List A) → All P xs → All P (sort xs)
  unfolding sort
  All-sort P [] h = tt
  All-sort P (x ∷ xs) h = All-insert P x (sort xs) h.0 (All-sort P xs h.1)

  pub Any-insert : (P : A → Type 0) (x : A) (xs : List A) → Any P (insert x xs) → P x ⊎ Any P xs
  unfolding insert
  Any-insert P x [] h = h
  Any-insert P x (y ∷ ys) h = elim (Bool-cases (before x y)) [
    | inl b ↦ rw (b, insert) at h
    | inr b ↦ elim (rw (b, insert) at h) as (λ _. P x ⊎ Any P (y ∷ ys)) [
      | inl p ↦ inr (inl p)
      | inr q ↦ elim (Any-insert P x ys q) [ inl p ↦ inl p | inr p ↦ inr (inr p) ]
    ]
  ]

  pub Any-sort : (P : A → Type 0) (xs : List A) → Any P (sort xs) → Any P xs
  unfolding sort
  Any-sort P [] h = h
  Any-sort P (x ∷ xs) h = elim (Any-insert P x (sort xs) h) [
    | inl p ↦ inl p
    | inr q ↦ inr (Any-sort P xs q)
  ]

  -- Each element comes no later than all behind it.
  abbrev pub Sorted : List A → Type 0
  Sorted [] = Unit
  Sorted (x ∷ xs) = All (λ y. before x y ≡ true) xs × Sorted xs

  module _ (total : (a b : A) → before a b ≡ false → before b a ≡ true)
      (transitive : (a b c : A) → before a b ≡ true → before b c ≡ true → before a c ≡ true) where
    All-before :
        (x y : A) (ys : List A)
        → before x y ≡ true
        → All (λ z. before y z ≡ true) ys
        → All (λ z. before x z ≡ true) ys
    All-before x y [] p h = tt
    All-before x y (z ∷ zs) p h = (transitive x y z p h.0, All-before x y zs p h.1)

    insert-Sorted : (x : A) (xs : List A) → Sorted xs → Sorted (insert x xs)
    unfolding insert
    insert-Sorted x [] h = (tt, tt)
    insert-Sorted x (y ∷ ys) h = elim (Bool-cases (before x y)) [
      | inl b ↦ rw (b, insert) ((b, All-before x y ys b h.0), h)
      | inr b ↦
          rw (b, insert)
            (All-insert (λ z. before y z ≡ true) x ys (total x y b) h.0, insert-Sorted x ys h.1)
    ]

    pub sort-Sorted : (xs : List A) → Sorted (sort xs)
    unfolding sort
    sort-Sorted [] = tt
    sort-Sorted (x ∷ xs) = insert-Sorted x (sort xs) (sort-Sorted xs)

    sort-eq_of_Sorted : (xs : List A) → Sorted xs → sort xs ≡ xs
    unfolding sort insert
    sort-eq_of_Sorted [] h = refl
    sort-eq_of_Sorted (x ∷ []) h = refl
    sort-eq_of_Sorted (x ∷ y ∷ ys) h = rw (sort-eq_of_Sorted (y ∷ ys) h.1, insert) (rw (h.0.0) refl)

    pub sort-sort : (xs : List A) → sort (sort xs) ≡ sort xs
    sort-sort xs = sort-eq_of_Sorted (sort xs) (sort-Sorted xs)
