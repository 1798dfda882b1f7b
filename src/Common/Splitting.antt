-- ===== src/Common/Splitting.antt =====
-- A text as lines: `split` at a unit, and the lines that are not empty, as the journal of the installer
-- reads them (packages/installer/src/journal/index.ts), and words for the command line.
use mathlib.Core.List.{append_assoc}
use mathlib.Core.Path.{◌≡◌, refl, ap}
use mathlib.Core.Logic.{inl, inr}
use mathlib.Core.Bool.{Bool, true, false, not}
use mathlib.Core.List.{List, [], ◌∷◌, ◌++◌}
use Prim.Native.Nat.{ℕ}
use mathlib.Core.Bool.{◌&&◌}
use horseness.Common.Tests.{◌==◌, if◌then◌else◌, Bool-cases, and-true}
use horseness.Common.Lists.{every, keep}

module _ {C : Type 0} where
  abbrev to_first : C → List (List C) → List (List C)
  to_first c [] = (c ∷ []) ∷ []
  to_first c (l ∷ ls) = (c ∷ l) ∷ ls

  abbrev pub is_filled : List C → Bool
  is_filled [] = false
  is_filled (c ∷ cs) = true

-- The units of a text, the newline, and the test for it.
module _ {C : Type 0} (newline : C) (is_newline : C → Bool) where
  unfoldable pub split : List C → List (List C)
  split [] = [] ∷ []
  split (c ∷ cs) = let rest = split cs in if is_newline c then [] ∷ rest else to_first c rest

  unfoldable pub lines : List C → List (List C)
  unfolding split
  lines bytes = keep is_filled (split bytes)

  abbrev pub is_line : List C → Bool
  is_line l = every (λ c. not (is_newline c)) l

  -- Lines, each behind the one before and its newline.
  unfoldable pub unlines : List (List C) → List C
  unlines [] = []
  unlines (l ∷ ls) = l ++ newline ∷ unlines ls

  split-line :
      (l rest : List C)
      → is_newline newline ≡ true
      → is_line l ≡ true
      → split (l ++ newline ∷ rest) ≡ l ∷ split rest
  unfolding split
  split-line [] rest e h = rw e refl
  split-line (c ∷ cs) rest e h =
      let (first, later) = and-true (not (is_newline c)) (is_line cs) h in
      elim (Bool-cases (is_newline c)) [
        | inl b ↦ absurd (cc (b, first))
        | inr b ↦ rw (b, split-line cs rest e later) refl
      ]

  pub lines-unlines :
      (ls : List (List C))
      → is_newline newline ≡ true
      → every is_line ls ≡ true
      → lines (unlines ls) ≡ keep is_filled ls
  unfolding lines unlines split
  lines-unlines [] e h = refl
  lines-unlines (l ∷ ls) e h =
      let (first, later) = and-true (is_line l) (every is_line ls) h in
      rw (split-line l (unlines ls) e first)
        (ap (λ x. if is_filled l then l ∷ x else x) (lines-unlines ls e later))

  pub unlines-append :
      (ls : List (List C)) (l : List C) → unlines (ls ++ l ∷ []) ≡ unlines ls ++ l ++ newline ∷ []
  unfolding unlines
  unlines-append [] l = refl
  unlines-append (k ∷ ls) l = simp (unlines-append ls l, append_assoc)

-- `startsWith`
abbrev pub has_prefix : List ℕ → List ℕ → Bool
has_prefix [] t = true
has_prefix (c ∷ p) [] = false
has_prefix (c ∷ p) (u ∷ t) = c == u && has_prefix p t
