-- ===== src/Common/Maps.antt =====
-- `Map` over a list of entries in the order of their insertion: `get`, `set`, `has`, `values`.
use mathlib.Core.Path.{◌≡◌, refl}
use mathlib.Core.Bool.{Bool, true, false, ◌||◌}
use mathlib.Core.Option.{Option, none, some}
use mathlib.Core.List.{List, [], ◌∷◌}
use native.Mathlib.Omega.{arith}
use horseness.Common.Tests.{if◌then◌else◌}
use horseness.Common.Lists.{any}
use horseness.Common.Sets.{Eq}

abbrev pub Entries {ℓ κ} : Type ℓ → Type κ → Type (ℓ ⊔ κ)
Entries K V = List (K × V)

abbrev pub holds {ℓ} : {V : Type ℓ} → (V → Bool) → Option V → Bool
holds p none = false
holds p (some v) = p v

module _ {ℓ κ} {K : Type ℓ} {V : Type κ} ⦃e : Eq K⦄ where
  unfoldable pub get : K → Entries K V → Option V
  get k [] = none
  get k ((j, v) ∷ m) = if e.beq j k then some v else get k m

  -- A key that is there keeps its place.
  unfoldable pub put : K → V → Entries K V → Entries K V
  put k v [] = (k, v) ∷ []
  put k v ((j, w) ∷ m) = let rest = put k v m in if e.beq j k then (j, v) ∷ m else (j, w) ∷ rest

  unfoldable pub has : K → Entries K V → Bool
  has k [] = false
  has k ((j, v) ∷ m) = e.beq j k || has k m

  unfoldable pub values : Entries K V → List V
  values [] = []
  values ((j, v) ∷ m) = v ∷ values m

  pub get-put :
      (k j : K) (v : V) (m : Entries K V)
      → get j (put k v m) ≡ (if e.beq k j then some v else get j m)
  unfolding get put
  get-put k j v [] = refl
  get-put k j v ((i, w) ∷ m) =
      ground (arith, e.beq_iff k j, e.beq_iff i k, e.beq_iff i j, get-put k j v m)

  pub has-put : (k j : K) (v : V) (m : Entries K V) → has j (put k v m) ≡ (e.beq k j || has j m)
  unfolding put has
  has-put k j v [] = ground arith
  has-put k j v ((i, w) ∷ m) =
      ground (arith, e.beq_iff k j, e.beq_iff i k, e.beq_iff i j, has-put k j v m)

  pub has-get : (k : K) (m : Entries K V) (v : V) → get k m ≡ some v → has k m ≡ true
  unfolding get has
  has-get k [] v h = cc
  has-get k ((j, w) ∷ m) v h = ground (arith, has-get k m v)

  pub get-has : (k : K) (m : Entries K V) → has k m ≡ false → get k m ≡ none
  unfolding get has
  get-has k [] h = refl
  get-has k ((j, w) ∷ m) h = ground (arith, get-has k m)

  -- A test that the new value meets if the old one did, or on the condition `c`.
  pub any-put :
      (p : V → Bool) (c : Bool) (k : K) (v : V) (m : Entries K V)
      → p v ≡ (holds p (get k m) || c)
      → any p (values (put k v m)) ≡ (any p (values m) || c)
  unfolding get put values
  any-put p c k v [] h = ground arith
  any-put p c k v ((j, w) ∷ m) h = ground (arith, any-put p c k v m)
