-- ===== src/Store/Contained.antt =====
-- packages/store-sqlite/src/restore/index.ts: `assertRetainedBackupContainment`, which writes nothing.
use horseness.Common.{Option, none, some, Bool, not, ◌≡◌}
use horseness.Domain.Canonical.{Text}
use horseness.Store.Program.{Budget, is_limited}
use horseness.Store.Outcomes.{Post, ends, require-Post, require_only-Post}
use horseness.Store.Places.{
  present, retained_exists, retained_overlaps, retained_collides, unsafe_parent,
}
use horseness.Store.Locations.{overlaps_authority, is_sibling_name}
use horseness.Store.Restore.{RestoreJournal, StoreChecks}
use horseness.Store.Recovery.{Files}
use horseness.Store.Replacement.{assert_containment, preflight}

module _ {Database Artifacts : Type 0} (checks : StoreChecks Database Artifacts) where
  assert_containment-Post :
      {l : Bool} {Crash Fault : Files checks → Type 0} (After : Files checks → Type 0)
      (root token : Text) (d : Files checks) (n : Budget)
      → is_limited n ≡ l
      → Fault d
      → After d
      → Post l (λ _ e. After e) Crash Fault (assert_containment checks root token n d)
  unfolding assert_containment
  assert_containment-Post After root token d n h f a =
      let retained : Text = checks.locations.resolve_path root in
      require-Post (not (overlaps_authority checks.locations retained token)) retained_overlaps _ n
        d f
        (λ _.
          require-Post (not (is_sibling_name checks.locations retained)) retained_collides _ n d f
            (λ _. require-Post (not (present d.retained)) retained_exists _ n d f (λ _.
              require_only-Post
                (checks.locations.is_stable_directory (checks.locations.dirname retained))
                unsafe_parent n d h f a)))

  pub preflight-Post :
      {l : Bool} {Crash Fault : Files checks → Type 0} (After : Files checks → Type 0)
      (root : Option Text) (token : Text) (j : Option RestoreJournal) (d : Files checks)
      (n : Budget)
      → is_limited n ≡ l
      → j ≡ none
      → Fault d
      → After d
      → Post l (λ _ e. After e) Crash Fault (preflight checks root token j n d)
  preflight-Post After none token j d n h e f a = ends h a
  preflight-Post After (some root) token none d n h e f a =
      assert_containment-Post After root token d n h f a
  preflight-Post After (some root) token (some j) d n h e f a = cc
