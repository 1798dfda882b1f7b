-- ===== src/Tests/Restores.antt =====
-- A restore over a live authority, stopped at some of its writes; the members of a backup belong
-- together when they are of one generation.
use horseness.Common.{
  List, ◌++◌, false, ◌==◌, if◌then◌else◌, String, none, some, [], ◌∷◌, true, ◌≡◌, ◌⊎◌, refl, inl,
  inr, str_eq,
}
use horseness.Common.Splitting.{split}
use horseness.Domain.Canonical.{Text, text_beq, units}
use horseness.Store.Locations.{Locations, overlaps_authority, paths_overlap, is_sibling_name}
use horseness.Store.Program.{unlimited, limited, done, failed, left, is_done}
use horseness.Store.Places.{
  absent, whole, torn, retained_overlaps, retained_collides, activate_missing,
}
use horseness.Store.Restore.{
  StoreChecks, Backup, Disk, RestoreOptions, staged, recover_interrupted_restore, remove_next,
  write_journal, finish_forward, remove_journal,
}
use horseness.Store.Replacement.{replace, assert_containment, restore_verified, restore_backup}
use horseness.Store.Recovery.{IsSettled}
use horseness.Store.Reboots.{reboots, recover-reboots, restore_backup-atomic}
use horseness.Store.Uninterrupted.{at_rest, evidence, replaced, restore_backup-replaced}

abbrev parts : Text → List Text
parts t = split 47 (λ c. c == 47) t

-- A relative path as far as it tells whether it leads out: `..` in front, or the first part inside.
abbrev inside : List Text → List Text → Text
inside [] [] = []
inside [] (u ∷ us) = u
inside (t ∷ ts) [] = units ".."
inside (t ∷ ts) (u ∷ us) =
    let rest : Text = inside ts us in if text_beq t u then rest else units ".."

abbrev last_part : List Text → Text
last_part [] = []
last_part (t ∷ []) = t
last_part (t ∷ u ∷ ts) = last_part (u ∷ ts)

abbrev locations : Locations
locations = record {
  resolve_path = λ t. t;
  relative = λ t u. inside (parts t) (parts u);
  is_absolute = λ t. false;
  basename = λ t. last_part (parts t);
  dirname = λ t. units "/kept";
  join = λ d n. d ++ 47 ∷ n;
  sep = units "/";
  is_stable_directory = λ t. true;
  database_path = units "/run/base";
  artifact_root = units "/run/files";
}

abbrev checks : StoreChecks String String
checks = record {
  verify_authority = λ d a. str_eq d a;
  verify_backup = λ b. str_eq b.database b.artifacts;
  identity_of = λ b. b.created_at;
  locations = locations;
}

abbrev backup : Backup String String
backup = record { database = "second"; artifacts = "second"; created_at = "noon" }

abbrev options : RestoreOptions
options = record { confirm_replacement = true; retained_backup_root = some (units "/kept/first") }

abbrev before : Disk String String
before = record {
  database = record { live = whole "first"; old = absent; stage = absent };
  artifacts = record { live = whole "first"; old = absent; stage = absent };
  journal = none;
  journal_next = absent;
  retained = absent;
  evidence = absent;
  leftovers = [];
}

-- The old database is moved aside, and the journal is of the first phase.
abbrev between : Disk String String
between = record before {
  database = record { live = absent; old = whole "first"; stage = whole "second" };
  artifacts = record { live = whole "first"; old = absent; stage = whole "second" };
  journal = some (record {
    phase = staged;
    generation_token = units "t";
    had_database = true;
    had_artifacts = true;
    retained_backup_root = some (units "/kept/first");
    retained_backup_identity = some "noon";
  });
}

recover-reboots_example :
    (is_done (recover_interrupted_restore checks unlimited (reboots checks (1 ∷ []) between))
      ≡ true)
    × IsSettled checks
        (some ("first", "first"))
        (left (recover_interrupted_restore checks unlimited (reboots checks (1 ∷ []) between)))
recover-reboots_example =
    recover-reboots checks (some ("first", "first")) (1 ∷ []) between
      (refl, (refl, refl, (inl refl, inr (refl, refl))))

restore_backup-atomic_example :
    (is_done (
        recover_interrupted_restore checks unlimited (
          reboots checks
            (3 ∷ 1 ∷ [])
            (left (restore_backup checks backup options (units "t") "noon" (limited 14) before))))
      ≡ true)
    × (IsSettled checks (some ("first", "first")) (
          left (
            recover_interrupted_restore checks unlimited (
              reboots checks (3 ∷ 1 ∷ []) (
                left
                  (restore_backup checks backup options (units "t") "noon" (limited 14) before)))))
        ⊎ IsSettled checks (some ("second", "second")) (
            left (
              recover_interrupted_restore checks unlimited (
                reboots checks (3 ∷ 1 ∷ []) (
                  left (
                    restore_backup checks backup options
                      (units "t")
                      "noon"
                      (limited 14)
                      before))))))
restore_backup-atomic_example =
    restore_backup-atomic checks backup (some ("first", "first")) options (units "t") "noon"
      (limited 14) (3 ∷ 1 ∷ []) before (refl, (refl, refl))

-- A restore before it, of another token, has left a stage that is half written.
abbrev left_over : Disk String String
left_over = record before {
  database = record { live = whole "first"; old = absent; stage = whole "third" };
  artifacts = record { live = whole "first"; old = absent; stage = torn };
}

restore_backup-replaced_example :
    restore_backup checks backup
      (record { confirm_replacement = true; retained_backup_root = some (units "/kept/first") })
      (units "t")
      "noon"
      unlimited
      (at_rest checks
        ("first", "first")
        backup
        (units "/kept/first")
        (units "t")
        "noon"
        left_over
        torn)
    ≡ done
        (evidence checks ("first", "first") backup (units "/kept/first") (units "t") "noon")
        unlimited
        (replaced checks
          ("first", "first")
          backup
          (units "/kept/first")
          (units "t")
          "noon"
          left_over)
unfolding overlaps_authority paths_overlap is_sibling_name text_beq split str_eq
restore_backup-replaced_example =
    restore_backup-replaced checks ("first", "first") backup (units "/kept/first") (units "t")
      "noon" (units "/kept/first") left_over torn refl refl refl refl refl refl

-- A location inside of the artifacts, and one with the name of a sibling, are refused before anything
-- is written.
inside_refused :
    restore_backup checks backup
      (record options { retained_backup_root = some (units "/run/files/kept") })
      (units "t")
      "noon"
      unlimited
      before
    ≡ failed retained_overlaps before
unfolding restore_backup restore_verified assert_containment overlaps_authority paths_overlap
    text_beq split str_eq
inside_refused = refl

sibling_refused :
    restore_backup checks backup
      (record options { retained_backup_root = some (units "/run/base.restore-x") })
      (units "t")
      "noon"
      unlimited
      before
    ≡ failed retained_collides before
unfolding restore_backup restore_verified assert_containment overlaps_authority paths_overlap
    is_sibling_name text_beq split str_eq
sibling_refused = refl

restore_ends :
    is_done (restore_backup checks backup options (units "t") "noon" unlimited before) ≡ true
unfolding restore_backup restore_verified assert_containment overlaps_authority paths_overlap
    is_sibling_name text_beq split str_eq recover_interrupted_restore remove_next replace
    write_journal finish_forward activate_missing remove_journal
restore_ends = refl
