-- ===== src/Domain/Delta/Scope.antt =====
-- packages/domain/src/delta.ts: the scope of authority of a delta, a set of pointer roots.
use horseness.Common.{
  List, [], ◌∷◌, ◌++◌, every, keep, Bool, true, false, ◌&&◌, ◌||◌, not, ltb, ◌==◌, if◌then◌else◌,
  none, some, String, str_eq, Result, ok, err, ◌>>=◌, ◌>>◌, guard,
}
use horseness.Common.Sort.{sort}
use horseness.Domain.Canonical.{Text, text_beq, text_eq}
use horseness.Domain.Delta.Pointer.{validate_pointer}

pub data ScopeError : Type 0 where
  invalid_pointer capability_scope_mismatch : ScopeError

pub record DeltaAuthorityScope : Type 0 where
  pub workspace_id : String
  pub run_id : String
  pub task_id : String
  pub roots : List Text

abbrev pub pointer_ok : Text → Bool
pointer_ok path = elim (validate_pointer path) [ none ↦ false | some _ ↦ true ]

-- The order of `Array.prototype.sort` without a comparator: by code units.
unfoldable pub text_before : Text → Text → Bool
text_before [] t = true
text_before (a ∷ s) [] = false
text_before (a ∷ s) (b ∷ t) = ltb a b || a == b && text_before s t

-- `[...new Set(texts)]`
unfoldable pub unique : List Text → List Text
unique [] = []
unique (t ∷ ts) = t ∷ keep (λ u. not (text_beq t u)) (unique ts)

unfoldable pub canonical_scope : DeltaAuthorityScope → Result ScopeError DeltaAuthorityScope
unfolding unique
canonical_scope scope = do
  guard (every pointer_ok scope.roots) invalid_pointer
  ok (record scope { roots = sort text_before (unique scope.roots) })

-- `rootTokens.length <= pathTokens.length && rootTokens.every(...)`
unfoldable pub is_prefix : List Text → List Text → Bool
is_prefix [] path = true
is_prefix (r ∷ root) [] = false
is_prefix (r ∷ root) (p ∷ path) = text_beq r p && is_prefix root path

-- `roots.some(...)` ends at the first root that contains the path, and throws at an invalid root
-- before that.
unfoldable pub some_root : List Text → List Text → Result ScopeError Bool
unfolding is_prefix
some_root [] path = ok false
some_root (r ∷ roots) path =
    let rest = some_root roots path in
    elim (validate_pointer r) [
      | none ↦ err invalid_pointer
      | some root ↦ if is_prefix root path then ok true else rest
    ]

unfoldable pub scope_contains : DeltaAuthorityScope → Text → Result ScopeError Bool
unfolding some_root
scope_contains scope path = elim (validate_pointer path) [
  | none ↦ err invalid_pointer
  | some tokens ↦ some_root scope.roots tokens
]

-- `roots.filter((root) => scopeContains(scope, root))`
unfoldable pub roots_within : DeltaAuthorityScope → List Text → Result ScopeError (List Text)
roots_within scope [] = ok []
roots_within scope (r ∷ rs) =
    let rest = roots_within scope rs in
    do inside ← scope_contains scope r; found ← rest; ok (if inside then r ∷ found else found)

unfoldable pub intersect_scopes :
    DeltaAuthorityScope → DeltaAuthorityScope → Result ScopeError DeltaAuthorityScope
unfolding roots_within scope_contains canonical_scope
intersect_scopes left right = do
  guard
      (str_eq left.workspace_id right.workspace_id
        && str_eq left.run_id right.run_id
        && str_eq left.task_id right.task_id)
      capability_scope_mismatch
  kept_left ← roots_within right left.roots
  kept_right ← roots_within left right.roots
  canonical_scope (record left { roots = kept_left ++ kept_right })
