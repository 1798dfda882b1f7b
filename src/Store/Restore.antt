-- ===== src/Store/Restore.antt =====
-- packages/store-sqlite/src/restore/index.ts: `restoreBackup` and `recoverInterruptedRestore`. The
-- checks of paths, links and directories are left out, and the errors of the file system; a crash
-- ends the process, so that no handler of an exception runs.
use horseness.Common.{
  String, Option, none, some, List, Bool, true, false, not, ◌&&◌, ◌||◌, if◌then◌else◌,
}
use horseness.Domain.Canonical.{Text}
use horseness.Store.Program.{Program, ◌>>=◌, ◌>>◌, pure, look, fail, require, act, zoom}
use horseness.Store.Locations.{Locations}
use horseness.Store.Places.{
  Slot, absent, whole, torn, present, Place, old, stage, RestoreError, incomplete_unit,
  authority_invalid, invalid_journal, remove_path, rollback_live, activate_missing,
}

pub data RestorePhase : Type 0 where
  staged old_moved database_activated artifacts_activated committed : RestorePhase

pub record RestoreJournal : Type 0 where
  pub phase : RestorePhase
  pub generation_token : Text
  pub had_database : Bool
  pub had_artifacts : Bool
  pub retained_backup_root : Option Text
  pub retained_backup_identity : Option String

pub record RestoreCommitEvidence : Type 0 where
  pub generation_token : Text
  pub retained_backup_root : Text
  pub retained_backup_identity : String

pub record RestoreOptions : Type 0 where
  pub confirm_replacement : Bool
  pub retained_backup_root : Option Text

-- `readonly hadDatabase` and the others say which of the optional members are there.
abbrev pub is_there {ℓ} : {A : Type ℓ} → Option A → Bool
is_there none = false
is_there (some a) = true

module _ (Database Artifacts : Type 0) where
  pub record Backup : Type 0 where
    pub database : Database
    pub artifacts : Artifacts
    pub created_at : String

  -- What the module takes from the rest of the store: `verifyAuthority` on a database and its
  -- artifacts, `verifyBackup`, the identity of a backup, as its JSON text, and the paths.
  pub record StoreChecks : Type 0 where
    pub verify_authority : Database → Artifacts → Bool
    pub verify_backup : Backup → Bool
    pub identity_of : Backup → String
    pub locations : Locations

  -- What earlier restores have left at the siblings of their tokens.
  pub record Siblings : Type 0 where
    pub old_database : Slot Database
    pub stage_database : Slot Database
    pub old_artifacts : Slot Artifacts
    pub stage_artifacts : Slot Artifacts

  -- The files that a restore reads and writes: those of one token, that of the journal if there is
  -- one, and the siblings of other tokens behind them.
  pub record Disk : Type 0 where
    pub database : Place Database
    pub artifacts : Place Artifacts
    pub journal : Option RestoreJournal
    pub journal_next : Slot RestoreJournal
    pub retained : Slot Backup
    pub evidence : Slot RestoreCommitEvidence
    pub leftovers : List Siblings

module _ {Database Artifacts : Type 0} (checks : StoreChecks Database Artifacts) where
  abbrev pub Restoring : Type 0 → Type 0
  Restoring A = Program (Disk Database Artifacts) RestoreError A

  abbrev pub with_database : Disk Database Artifacts → Place Database → Disk Database Artifacts
  with_database d p = record d { database = p }

  abbrev pub with_artifacts : Disk Database Artifacts → Place Artifacts → Disk Database Artifacts
  with_artifacts d p = record d { artifacts = p }

  abbrev pub on_database : Program (Place Database) RestoreError (Unit {0}) → Restoring (Unit {0})
  on_database m = zoom (λ d. d.database) with_database m

  abbrev pub on_artifacts : Program (Place Artifacts) RestoreError (Unit {0}) → Restoring (Unit {0})
  on_artifacts m = zoom (λ d. d.artifacts) with_artifacts m

  unfoldable pub write_journal : RestoreJournal → Restoring (Unit {0})
  write_journal j = do
    act (λ d. record d { journal_next = torn })
    act (λ d. record d { journal_next = whole j })
    act (λ d. record d { journal = some j; journal_next = absent })

  -- The condition of `parseJournal` that is not of shape.
  abbrev pub journal_ok : RestoreJournal → Bool
  journal_ok j =
      not (j.had_database || j.had_artifacts)
      || is_there j.retained_backup_root && is_there j.retained_backup_identity

  abbrev pub verify_pair : Slot Database → Slot Artifacts → Restoring (Unit {0})
  verify_pair (whole d) (whole a) = require (checks.verify_authority d a) authority_invalid
  verify_pair absent _ = fail incomplete_unit
  verify_pair (whole d) absent = fail incomplete_unit
  verify_pair torn absent = fail incomplete_unit
  verify_pair torn (whole a) = fail authority_invalid
  verify_pair torn torn = fail authority_invalid
  verify_pair (whole d) torn = fail authority_invalid

  unfoldable pub rollback : RestoreJournal → Restoring (Unit {0})
  rollback j = do
    on_database (rollback_live false j.had_database)
    on_artifacts (rollback_live true j.had_artifacts)
    on_database (remove_path false stage)
    on_artifacts (remove_path true stage)

  unfoldable pub finish_forward : Restoring (Unit {0})
  finish_forward = do
    on_database (activate_missing false)
    on_artifacts (activate_missing true)
    d ← look
    verify_pair d.database.live d.artifacts.live
    on_database (remove_path false old)
    on_artifacts (remove_path true old)
    on_database (remove_path false stage)
    on_artifacts (remove_path true stage)

  unfoldable pub remove_next : Restoring (Unit {0})
  remove_next = do
    d ← look
    if present d.journal_next then act (λ e. record e { journal_next = absent }) else pure tt

  unfoldable pub remove_journal : Restoring (Unit {0})
  remove_journal = do
    d ← look
    if is_there d.journal then act (λ e. record e { journal = none }) else pure tt

  abbrev pub resume : RestoreJournal → RestorePhase → Restoring (Unit {0})
  resume j committed = finish_forward
  resume j _ = rollback j

  abbrev pub recover_from : Option RestoreJournal → Restoring (Unit {0})
  recover_from none = remove_next
  recover_from (some j) = do
    require (journal_ok j) invalid_journal
    resume j j.phase
    remove_next
    remove_journal

  unfoldable pub recover_interrupted_restore : Restoring (Unit {0})
  recover_interrupted_restore = do d ← look; recover_from d.journal
