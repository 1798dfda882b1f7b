-- ===== src/Store/Uninterrupted.antt =====
-- packages/store-sqlite/src/restore/index.ts: a restore that nothing stops.
use horseness.Common.{
  ◌∷◌, Bool, false, not, ◌&&◌, arith, String, none, some, true, ◌≡◌, refl, str_eq, str_eq_iff,
}
use horseness.Domain.Canonical.{Text}
use horseness.Store.Locations.{overlaps_authority, is_sibling_name}
use horseness.Store.Program.{unlimited, done}
use horseness.Store.Places.{Slot, absent, whole, torn, activate_missing}
use horseness.Store.Restore.{
  staged, RestoreJournal, RestoreOptions, RestoreCommitEvidence, StoreChecks, Backup, write_journal,
  finish_forward, remove_next, remove_journal, recover_interrupted_restore,
}
use horseness.Store.Recovery.{Files}
use horseness.Store.Replacement.{
  siblings_of, derived, retain, stage_backup, assert_containment, replace, restore_verified,
  resolved_root, restore_backup,
}

module _ {Database Artifacts : Type 0} (checks : StoreChecks Database Artifacts)
    (p : Database × Artifacts) (b : Backup Database Artifacts) (root token : Text)
    (time : String) where
  -- The authority is live and nothing is retained yet.
  abbrev pub at_rest : Files checks → Slot RestoreJournal → Files checks
  at_rest d next = record {
    database = record d.database { live = whole p.0 };
    artifacts = record d.artifacts { live = whole p.1 };
    journal = none;
    journal_next = next;
    retained = absent;
    evidence = d.evidence;
    leftovers = d.leftovers;
  }

  abbrev pub retained_backup : Backup Database Artifacts
  retained_backup = record { database = p.0; artifacts = p.1; created_at = time }

  abbrev pub evidence : RestoreCommitEvidence
  evidence = record {
    generation_token = token;
    retained_backup_root = root;
    retained_backup_identity = checks.identity_of retained_backup;
  }

  -- The backup is live, what was live is retained, and the evidence is there; what was at the siblings
  -- of another token is as it was, and there is nothing at those of this one.
  abbrev pub replaced : Files checks → Files checks
  replaced d = record {
    database = record { live = whole b.database; old = absent; stage = absent };
    artifacts = record { live = whole b.artifacts; old = absent; stage = absent };
    journal = none;
    journal_next = absent;
    retained = whole retained_backup;
    evidence = whole evidence;
    leftovers = siblings_of checks d ∷ d.leftovers;
  }

  -- A location that `assertRetainedBackupContainment` takes when nothing is there.
  abbrev pub is_contained : Bool
  is_contained =
      let retained : Text = checks.locations.resolve_path root in
      not (overlaps_authority checks.locations retained token)
      && not (is_sibling_name checks.locations retained)
      && checks.locations.is_stable_directory (checks.locations.dirname retained)

  identity_same :
      str_eq (checks.identity_of retained_backup) (checks.identity_of retained_backup) ≡ true
  identity_same =
      (str_eq_iff (checks.identity_of retained_backup) (checks.identity_of retained_backup)).1 refl

  outside :
      is_contained ≡ true
      → overlaps_authority checks.locations (checks.locations.resolve_path root) token ≡ false
  outside c = ground arith

  no_sibling :
      is_contained ≡ true
      → is_sibling_name checks.locations (checks.locations.resolve_path root) ≡ false
  no_sibling c = ground arith

  stable :
      is_contained ≡ true
      → checks.locations.is_stable_directory
          (checks.locations.dirname (checks.locations.resolve_path root))
        ≡ true
  stable c = ground arith

  assert_containment-at_rest :
      (d : Files checks) (next : Slot RestoreJournal)
      → is_contained ≡ true
      → assert_containment checks root token unlimited (at_rest d next)
        ≡ done tt unlimited (at_rest d next)
  unfolding assert_containment
  assert_containment-at_rest d next c = rw (outside c, no_sibling c, stable c) refl

  recover-at_rest :
      (d : Files checks) (next : Slot RestoreJournal)
      → recover_interrupted_restore checks unlimited (at_rest d next)
        ≡ done tt unlimited (at_rest d absent)
  unfolding recover_interrupted_restore remove_next
  recover-at_rest d absent = refl
  recover-at_rest d (whole j) = refl
  recover-at_rest d torn = refl

  abbrev options : RestoreOptions
  options = record { confirm_replacement = true; retained_backup_root = some root }

  -- What is live is retained.
  abbrev kept : Files checks → Files checks
  kept d = record (at_rest d absent) { retained = whole retained_backup }

  retain-at_rest :
      (d : Files checks)
      → checks.verify_backup retained_backup ≡ true
      → checks.verify_authority p.0 p.1 ≡ true
      → retain checks options time unlimited (at_rest d absent)
        ≡ done (some (checks.identity_of retained_backup)) unlimited (kept d)
  retain-at_rest d y v = rw (v, y) refl

  -- The backup is at the stage.
  abbrev prepared : Files checks → Files checks
  prepared d = record (derived checks (kept d)) {
    database = record { live = whole p.0; old = absent; stage = whole b.database };
    artifacts = record { live = whole p.1; old = absent; stage = whole b.artifacts };
  }

  stage_backup-kept :
      (d : Files checks)
      → checks.verify_authority b.database b.artifacts ≡ true
      → stage_backup checks b unlimited (derived checks (kept d)) ≡ done tt unlimited (prepared d)
  stage_backup-kept d w = rw w refl

  abbrev journal : RestoreJournal
  journal = record {
    phase = staged;
    generation_token = token;
    had_database = true;
    had_artifacts = true;
    retained_backup_root = some root;
    retained_backup_identity = some (checks.identity_of retained_backup);
  }

  replace-prepared :
      (d : Files checks)
      → checks.verify_backup retained_backup ≡ true
      → checks.verify_authority b.database b.artifacts ≡ true
      → replace checks journal b unlimited (prepared d) ≡ done evidence unlimited (replaced d)
  unfolding replace write_journal finish_forward activate_missing remove_next remove_journal
  replace-prepared d y w = rw (w, w, y, identity_same) refl

  restore_verified-replaced :
      (d : Files checks) (next : Slot RestoreJournal)
      → is_contained ≡ true
      → checks.verify_backup retained_backup ≡ true
      → checks.verify_authority p.0 p.1 ≡ true
      → checks.verify_authority b.database b.artifacts ≡ true
      → restore_verified checks b options token time unlimited (at_rest d next)
        ≡ done evidence unlimited (replaced d)
  unfolding restore_verified
  restore_verified-replaced d next c y v w =
      rw
        (
          assert_containment-at_rest d next c,
          recover-at_rest d next,
          retain-at_rest d y v,
          stage_backup-kept d w,
          replace-prepared d y w,
        )
        refl

  -- A restore that nothing stops, of a backup that verifies, over an authority that does, comes to its
  -- end when it is confirmed and given a location that is not empty, and which resolves to one that
  -- nothing is at, that does not overlap the paths of the restore nor have the name of a sibling, and
  -- whose parent is a directory reached by no link; what is retained has to verify. Then the backup is
  -- live, what was live is in the retained backup, neither a journal nor a sibling of this restore is
  -- left, and what an earlier restore has left at its own siblings is as it was.
  pub restore_backup-replaced :
      (given : Text) (d : Files checks) (next : Slot RestoreJournal)
      → resolved_root checks (some given) ≡ some root
      → is_contained ≡ true
      → checks.verify_backup b ≡ true
      → checks.verify_backup retained_backup ≡ true
      → checks.verify_authority p.0 p.1 ≡ true
      → checks.verify_authority b.database b.artifacts ≡ true
      → restore_backup checks b
          (record { confirm_replacement = true; retained_backup_root = some given })
          token
          time
          unlimited
          (at_rest d next)
        ≡ done evidence unlimited (replaced d)
  unfolding restore_backup
  restore_backup-replaced given d next r c x y v w =
      rw (x, r) (restore_verified-replaced d next c y v w)
