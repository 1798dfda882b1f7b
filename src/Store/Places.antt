-- ===== src/Store/Places.antt =====
-- packages/store-sqlite/src/restore/index.ts: the three paths that a restore uses for the database,
-- and for the artifacts; and their removal and renaming.
use horseness.Common.{Bool, true, false, if◌then◌else◌, ◌&&◌}
use horseness.Store.Program.{Program, ◌>>=◌, ◌>>◌, pure, look, fail, act}

-- What is at a path: nothing, all of a content, or what is left of a content that is being written
-- or removed.
pub data Slot (X : Type 0) : Type 0 where
  absent : Slot X
  whole : X → Slot X
  torn : Slot X

abbrev pub present : {X : Type 0} → Slot X → Bool
present absent = false
present (whole x) = true
present torn = true

pub data Side : Type 0 where
  live old stage : Side

-- The live path and its siblings of one restore, `.old-` and `.restore-` with its token.
pub record Place (X : Type 0) : Type 0 where
  pub live : Slot X
  pub old : Slot X
  pub stage : Slot X

abbrev pub at : {X : Type 0} → Side → Place X → Slot X
at live p = p.live
at old p = p.old
at stage p = p.stage

abbrev pub put_at : {X : Type 0} → Side → Slot X → Place X → Place X
put_at live s p = record p { live = s }
put_at old s p = record p { old = s }
put_at stage s p = record p { stage = s }

-- An error of a restore.
pub data RestoreError : Type 0 where
  confirmation_required retained_location_required incomplete_live_unit retained_exists
        incomplete_unit authority_invalid invalid_backup invalid_journal retained_changed
        retained_overlaps retained_collides unsafe_parent target_exists :
      RestoreError

module _ {X : Type 0} where
  -- `rmSync` and `syncDirectory`: a file goes at once, a directory entry by entry.
  abbrev pub remove_at : Bool → Side → Program (Place X) RestoreError (Unit {0})
  remove_at false side = act (put_at side absent)
  remove_at true side = do act (put_at side torn); act (put_at side absent)

  abbrev pub remove_path : Bool → Side → Program (Place X) RestoreError (Unit {0})
  remove_path recursive side = do
    p ← look
    if present (at side p) then remove_at recursive side else pure tt

  -- `renameSync` and `syncDirectory`: a directory does not replace another.
  abbrev pub rename_path : Bool → Side → Side → Program (Place X) RestoreError (Unit {0})
  rename_path recursive from to = do
    p ← look
    if recursive && present (at to p)
        then fail target_exists
        else act (λ q. put_at from absent (put_at to (at from q) q))

  -- The copy of a backup to the stage.
  abbrev pub copy_to_stage : X → Program (Place X) RestoreError (Unit {0})
  copy_to_stage x = do act (put_at stage torn); act (put_at stage (whole x))

  -- The part of `rollback` on one of the two places.
  unfoldable pub rollback_live : Bool → Bool → Program (Place X) RestoreError (Unit {0})
  rollback_live recursive had = do
    p ← look
    if present p.old
        then (do remove_path recursive live; rename_path recursive old live)
        else if had
        then pure tt
        else remove_path recursive live

  -- The part of `finishForward` that activates a staged place.
  unfoldable pub activate_missing : Bool → Program (Place X) RestoreError (Unit {0})
  activate_missing recursive = do
    p ← look
    if present p.live
        then pure tt
        else if present p.stage
        then rename_path recursive stage live
        else pure tt
