-- ===== src/Domain/Delta/Document/Frame.antt =====
-- Reading is a walk from member to member; a write into one container is seen only on walks that
-- meet the way to it.
use horseness.Common.{
  ℕ, zero, suc, List, [], ◌∷◌, Bool, true, false, ◌&&◌, ◌||◌, ◌==◌, if◌then◌else◌, Option, none,
  some, ◌≡◌, ◌≢◌, refl, ap, arith, Bool-cases, Option-cases, inl, inr, ==_iff, and-true, not,
}
use horseness.Domain.Canonical.{
  Text, text_beq, text_beq_iff, Json, null, bool, num, str, arr, obj, Items, nil, cons, Fields, end,
  field,
}
use horseness.Domain.Delta.Document.{
  array_index, get_item, set_item, get_field, child, is_container, parent_and_key, read_at,
  set_child, put_parent, set_at, item_at, set_field,
}

-- The value at a pointer, member by member.
unfoldable pub walk : Json → List Text → Option Json
walk j [] = some j
walk j (t ∷ ts) = elim (child j t) [ none ↦ none | some next ↦ walk next ts ]

child-container : (j : Json) (t : Text) → is_container j ≡ false → child j t ≡ none
unfolding child
child-container null t h = refl
child-container (bool b) t h = refl
child-container (num n) t h = refl
child-container (str s) t h = refl
child-container (arr xs) t h = absurd (cc)
child-container (obj fs) t h = absurd (cc)

child-walk : (j : Json) (t : Text) → child j t ≡ walk j (t ∷ [])
unfolding walk
child-walk j t = elim (Option-cases (child j t)) [
  | inl e ↦ rw (e, walk) refl
  | inr (v, e) ↦ rw (e, walk) refl
]

pub read_at-walk : (j : Json) (ts : List Text) → read_at j ts ≡ walk j ts
unfolding read_at parent_and_key walk
read_at-walk j [] = refl
read_at-walk null (t ∷ []) = refl
read_at-walk (bool b) (t ∷ []) = refl
read_at-walk (num n) (t ∷ []) = refl
read_at-walk (str s) (t ∷ []) = refl
read_at-walk (arr xs) (t ∷ []) = child-walk (arr xs) t
read_at-walk (obj fs) (t ∷ []) = child-walk (obj fs) t
read_at-walk j (t ∷ u ∷ ts) = elim (Option-cases (child j t)) [
  | inl e ↦ rw (e, read_at, parent_and_key, walk) refl
  | inr (next, e) ↦ rw (e, read_at, parent_and_key, walk) (read_at-walk next (u ∷ ts))
]

clash : Option ℕ → Option ℕ → Bool
clash (some i) (some k) = i == k
clash _ _ = false

-- Two tokens that name different members of any container.
unfoldable pub differ : Text → Text → Bool
unfolding clash
differ t x = not (text_beq t x) && not (clash (array_index t) (array_index x))

get_item-set_item_ne :
    (xs : Items) (i k : ℕ) (v : Json) → i ≢ k → get_item (set_item xs i v) k ≡ get_item xs k
unfolding get_item set_item
get_item-set_item_ne nil i k v h = refl
get_item-set_item_ne (cons x xs) zero zero v h = absurd (h refl)
get_item-set_item_ne (cons x xs) zero (suc k) v h = refl
get_item-set_item_ne (cons x xs) (suc i) zero v h = refl
get_item-set_item_ne (cons x xs) (suc i) (suc k) v h =
    get_item-set_item_ne xs i k v (λ e. h (ap suc e))

get_item-set_item_self :
    (xs : Items) (i : ℕ) (v w : Json)
    → get_item xs i ≡ some w
    → get_item (set_item xs i v) i ≡ some v
unfolding get_item set_item
get_item-set_item_self nil i v w h = absurd (cc)
get_item-set_item_self (cons x xs) zero v w h = refl
get_item-set_item_self (cons x xs) (suc i) v w h = get_item-set_item_self xs i v w h

get_field-set_field :
    (t x : Text) (v : Json) (fs : Fields)
    → get_field x (set_field t v fs) ≡ (if text_beq t x then some v else get_field x fs)
unfolding get_field set_field
get_field-set_field t x v end = refl
get_field-set_field t x v (field j w fs) =
    ground
      (arith, text_beq_iff j t, text_beq_iff j x, text_beq_iff t x, get_field-set_field t x v fs)

pub child-set_child_ne :
    (j : Json) (t x : Text) (v : Json) → differ t x ≡ true → child (set_child j t v) x ≡ child j x
unfolding child set_child differ clash
child-set_child_ne null t x v h = refl
child-set_child_ne (bool b) t x v h = refl
child-set_child_ne (num n) t x v h = refl
child-set_child_ne (str s) t x v h = refl
child-set_child_ne (arr xs) t x v h = items (array_index t) (array_index x) (and-true _ _ h).1
  where
    items : (i k : Option ℕ) → not (clash i k) ≡ true → item_at (set_at xs i v) k ≡ item_at xs k
    items none k d = refl
    items (some i) none d = refl
    items (some i) (some k) d =
        get_item-set_item_ne xs i k v (λ e. absurd (ground (arith, ==_iff i k)))
child-set_child_ne (obj fs) t x v h =
    rw (get_field-set_field t x v fs) (ground (arith, text_beq_iff t x))

pub child-set_child_self :
    (j : Json) (t : Text) (v w : Json) → child j t ≡ some w → child (set_child j t v) t ≡ some v
unfolding child set_child
child-set_child_self null t v w h = absurd (cc)
child-set_child_self (bool b) t v w h = absurd (cc)
child-set_child_self (num n) t v w h = absurd (cc)
child-set_child_self (str s) t v w h = absurd (cc)
child-set_child_self (arr xs) t v w h = items (array_index t) h
  where
    items : (i : Option ℕ) → item_at xs i ≡ some w → item_at (set_at xs i v) i ≡ some v
    items none e = absurd (cc)
    items (some i) e = get_item-set_item_self xs i v w e
child-set_child_self (obj fs) t v w h =
    rw (get_field-set_field t t v fs) (ground (arith, text_beq_iff t t))

-- The walk `q` leaves the way to the container that holds the last token of the path.
unfoldable pub apart : List Text → List Text → Bool
apart [] q = false
apart (k ∷ []) q = false
apart (t ∷ u ∷ ts) [] = false
apart (t ∷ u ∷ ts) (x ∷ q) = differ t x || text_beq t x && apart (u ∷ ts) q

pub walk-put_parent :
    (j : Json) (ts q : List Text) (parent : Json)
    → apart ts q ≡ true
    → walk (put_parent j ts parent) q ≡ walk j q
unfolding walk put_parent apart
walk-put_parent j [] q parent h = refl
walk-put_parent j (k ∷ []) q parent h = absurd (cc)
walk-put_parent j (t ∷ u ∷ ts) [] parent h = absurd (cc)
walk-put_parent j (t ∷ u ∷ ts) (x ∷ q) parent h = elim (Option-cases (child j t)) [
  | inl e ↦ rw (e, put_parent) refl
  | inr (next, e) ↦ elim (Bool-cases (differ t x)) [
    | inl d ↦
        rw (e, put_parent)
          (rw (child-set_child_ne j t x (put_parent next (u ∷ ts) parent) d, walk) refl)
    | inr d ↦
        let same : t ≡ x = (text_beq_iff t x).0 (and-true (text_beq t x) _ (rw d at h)).0 in
        let there : child j x ≡ some next = rw (← same) e in
        let put : Json = put_parent next (u ∷ ts) parent in
        let written : child (set_child j t put) x ≡ some put =
          rw (← same) (child-set_child_self j t put next e) in
        rw (e, put_parent)
          (rw (written, there, walk)
            (walk-put_parent next (u ∷ ts) q parent (and-true (text_beq t x) _ (rw d at h)).1))
  ]
]
