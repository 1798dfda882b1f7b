-- ===== src/Store/Replacement.antt =====
-- packages/store-sqlite/src/restore/index.ts: `restoreBackup`, with `createBackup` of
-- packages/store-sqlite/src/backup/index.ts as the writing of one directory.
use horseness.Common.{
  String, Option, none, some, [], ◌∷◌, Bool, true, false, not, ◌&&◌, ◌||◌, str_eq, if◌then◌else◌,
}
use horseness.Domain.Canonical.{Text}
use horseness.Store.Locations.{overlaps_authority, is_sibling_name}
use horseness.Store.Program.{◌>>=◌, ◌>>◌, done, pure, look, fail, require, act}
use horseness.Store.Places.{
  Slot, absent, whole, torn, present, live, old, stage, confirmation_required,
  retained_location_required, incomplete_live_unit, retained_exists, authority_invalid,
  retained_changed, invalid_backup, invalid_journal, retained_overlaps, retained_collides,
  unsafe_parent, rename_path, copy_to_stage,
}
use horseness.Store.Restore.{
  staged, old_moved, database_activated, artifacts_activated, committed, RestoreJournal,
  RestoreCommitEvidence, RestoreOptions, StoreChecks, Backup, Siblings, Disk, journal_ok, is_there,
  Restoring, on_database, on_artifacts, write_journal, verify_pair, finish_forward, remove_next,
  remove_journal, recover_interrupted_restore,
}

module _ {Database Artifacts : Type 0} (checks : StoreChecks Database Artifacts) where
  abbrev pub text_or_empty : Option Text → Text
  text_or_empty none = []
  text_or_empty (some t) = t

  abbrev pub identity_or : Option String → String → String
  identity_or none t = t
  identity_or (some s) t = s

  -- The end of `createBackup`: a backup that does not verify is removed.
  abbrev pub verify_created :
      Backup Database Artifacts → Restoring checks (Backup Database Artifacts)
  verify_created b = if checks.verify_backup b then pure b else (do
    act (λ e. record e { retained = torn })
    act (λ e. record e { retained = absent })
    fail invalid_backup)

  abbrev pub create_backup :
      Slot Database → Slot Artifacts → String → Restoring checks (Backup Database Artifacts)
  create_backup (whole d) (whole a) time =
      let b : Backup Database Artifacts = record {
        database = d;
        artifacts = a;
        created_at = time;
      } in
      do
        require (checks.verify_authority d a) authority_invalid
        disk ← look
        require (not (present disk.retained)) retained_exists
        act (λ e. record e { retained = torn })
        act (λ e. record e { retained = whole b })
        verify_created b
  create_backup _ _ time = fail authority_invalid

  -- The retained backup of what is live, and its identity.
  abbrev pub retain : RestoreOptions → String → Restoring checks (Option String)
  retain options time = do
    d ← look
    if present d.database.live || present d.artifacts.live
        then (do
          require options.confirm_replacement confirmation_required
          require (is_there options.retained_backup_root) retained_location_required
          require (present d.database.live && present d.artifacts.live) incomplete_live_unit
          b ← create_backup d.database.live d.artifacts.live time
          pure (some (checks.identity_of b)))
        else pure none

  -- The siblings of the paths in use, which stay where they are when a new token names others.
  abbrev pub siblings_of : Disk Database Artifacts → Siblings Database Artifacts
  siblings_of d = record {
    old_database = d.database.old;
    stage_database = d.database.stage;
    old_artifacts = d.artifacts.old;
    stage_artifacts = d.artifacts.stage;
  }

  -- The paths of a token that `randomUUID` has drawn, at which nothing is; what is at the siblings of
  -- the token before is left there. No file is written.
  abbrev pub derived : Disk Database Artifacts → Disk Database Artifacts
  derived d = record d {
    database = record { live = d.database.live; old = absent; stage = absent };
    artifacts = record { live = d.artifacts.live; old = absent; stage = absent };
    leftovers = siblings_of d ∷ d.leftovers;
  }

  abbrev pub derive_restore_paths : Restoring checks (Unit {0})
  derive_restore_paths n d = done tt n (derived d)

  abbrev pub stage_backup : Backup Database Artifacts → Restoring checks (Unit {0})
  stage_backup b = do
    on_database checks (copy_to_stage b.database)
    on_artifacts checks (copy_to_stage b.artifacts)
    d ← look
    verify_pair checks d.database.stage d.artifacts.stage

  abbrev pub move_old : RestoreJournal → Restoring checks (Unit {0})
  move_old j = do
    if j.had_database then on_database checks (rename_path false live old) else pure tt
    if j.had_artifacts then on_artifacts checks (rename_path true live old) else pure tt
    write_journal checks (record j { phase = old_moved })

  abbrev pub activate : RestoreJournal → Restoring checks (Unit {0})
  activate j = do
    on_database checks (rename_path false stage live)
    write_journal checks (record j { phase = database_activated })
    on_artifacts checks (rename_path true stage live)
    write_journal checks (record j { phase = artifacts_activated })
    d ← look
    verify_pair checks d.database.live d.artifacts.live
    write_journal checks (record j { phase = committed })

  abbrev pub write_evidence : RestoreCommitEvidence → Restoring checks (Unit {0})
  write_evidence e = do
    act (λ d. record d { evidence = torn })
    act (λ d. record d { evidence = whole e })

  abbrev pub identity_kept : Option String → Slot (Backup Database Artifacts) → Bool
  identity_kept none _ = true
  identity_kept (some i) (whole b) = checks.verify_backup b && str_eq (checks.identity_of b) i
  identity_kept (some i) _ = false

  abbrev pub evidence_of : RestoreJournal → Backup Database Artifacts → RestoreCommitEvidence
  evidence_of j b = record {
    generation_token = j.generation_token;
    retained_backup_root = text_or_empty j.retained_backup_root;
    retained_backup_identity = identity_or j.retained_backup_identity (checks.identity_of b);
  }

  -- The part of `restoreBackup` behind the commit.
  abbrev pub complete :
      RestoreJournal → Backup Database Artifacts → Restoring checks RestoreCommitEvidence
  complete j b = do
    write_evidence (evidence_of j b)
    finish_forward checks
    d ← look
    require (identity_kept j.retained_backup_identity d.retained) retained_changed
    remove_next checks
    remove_journal checks
    pure (evidence_of j b)

  -- The part of `restoreBackup` that the journal covers.
  unfoldable pub replace :
      RestoreJournal → Backup Database Artifacts → Restoring checks RestoreCommitEvidence
  replace j b = do write_journal checks j; move_old j; activate j; complete j b

  -- The retained backup is outside of what the restore of a token touches, its name is not that of a
  -- sibling, and nothing is there yet.
  unfoldable pub assert_containment : Text → Text → Restoring checks (Unit {0})
  unfolding overlaps_authority is_sibling_name
  assert_containment root token =
      let retained : Text = checks.locations.resolve_path root in
      do
        require (not (overlaps_authority checks.locations retained token)) retained_overlaps
        require (not (is_sibling_name checks.locations retained)) retained_collides
        d ← look
        require (not (present d.retained)) retained_exists
        require (checks.locations.is_stable_directory (checks.locations.dirname retained))
            unsafe_parent

  -- The checks before the recovery: also by the paths of the journal that is there.
  abbrev pub preflight : Option Text → Text → Option RestoreJournal → Restoring checks (Unit {0})
  preflight none token j = pure tt
  preflight (some root) token none = assert_containment root token
  preflight (some root) token (some j) = do
    assert_containment root token
    require (journal_ok checks j) invalid_journal
    assert_containment root j.generation_token

  -- `restoreBackup` of a backup that is verified, with the location as it is resolved.
  unfoldable pub restore_verified :
      Backup Database Artifacts
      → RestoreOptions
      → Text
      → String
      → Restoring checks RestoreCommitEvidence
  restore_verified b options token time = do
    before ← look
    preflight options.retained_backup_root token before.journal
    recover_interrupted_restore checks
    d ← look
    identity ← retain options time
    derive_restore_paths
    stage_backup b
    replace
        (record {
          phase = staged;
          generation_token = token;
          had_database = present d.database.live;
          had_artifacts = present d.artifacts.live;
          retained_backup_root = options.retained_backup_root;
          retained_backup_identity = identity;
        })
        b

  -- `options.retainedBackupRoot ? resolve(options.retainedBackupRoot) : null`
  abbrev pub resolved_root : Option Text → Option Text
  resolved_root none = none
  resolved_root (some []) = none
  resolved_root (some (c ∷ t)) = some (checks.locations.resolve_path (c ∷ t))

  abbrev pub resolved : RestoreOptions → RestoreOptions
  resolved options = record options {
    retained_backup_root = resolved_root options.retained_backup_root;
  }

  -- `restoreBackup`, with the token and the time that it draws.
  unfoldable pub restore_backup :
      Backup Database Artifacts
      → RestoreOptions
      → Text
      → String
      → Restoring checks RestoreCommitEvidence
  unfolding restore_verified
  restore_backup b options token time = do
    require (checks.verify_backup b) invalid_backup
    restore_verified b (resolved options) token time

  -- `rollbackFromRetainedBackup`
  abbrev rollback_from_retained_backup :
      Backup Database Artifacts
      → RestoreOptions
      → Text
      → String
      → Restoring checks RestoreCommitEvidence
  rollback_from_retained_backup b options token time = restore_backup b options token time
