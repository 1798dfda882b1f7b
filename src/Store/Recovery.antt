-- ===== src/Store/Recovery.antt =====
-- packages/store-sqlite/src/restore/index.ts: what the recovery of an interrupted restore leads to.
use horseness.Common.{Option, none, some, Bool, true, false, ◌≡◌, inr}
use horseness.Store.Program.{Budget, is_limited}
use horseness.Store.Outcomes.{Post, then_run-Post, within-Post}
use horseness.Store.Places.{absent, torn, Place, Side, stage, put_at, remove_path, rollback_live}
use horseness.Store.Removal.{Live, Kept, remove_path-Post, rollback_live-Post}
use horseness.Store.Restore.{
  RestorePhase, committed, RestoreJournal, StoreChecks, Disk, is_there, with_database,
  with_artifacts, on_database, on_artifacts, journal_ok, rollback,
}

abbrev pub first : {A B : Type 0} → Option (A × B) → Option A
first none = none
first (some p) = some p.0

abbrev pub second : {A B : Type 0} → Option (A × B) → Option B
second none = none
second (some p) = some p.1

-- What is rolled back is kept.
back : {X : Type 0} (o : Option X) (p : Place X) → (p.old ≡ absent) × Live o p.live → Kept o p
back none p h = h.0
back (some x) p h = inr h

module _ {Database Artifacts : Type 0} (checks : StoreChecks Database Artifacts) where
  abbrev pub Files : Type 0
  Files = Disk Database Artifacts

  abbrev pub LiveIs : Option (Database × Artifacts) → Files → Type 0
  LiveIs x d = Live (first x) d.database.live × Live (second x) d.artifacts.live

  abbrev pub Verified : Option (Database × Artifacts) → Type 0
  Verified none = ⊥
  Verified (some p) = checks.verify_authority p.0 p.1 ≡ true

  abbrev pub BothKept : Option (Database × Artifacts) → Files → Type 0
  BothKept x d = Kept (first x) d.database × Kept (second x) d.artifacts

  abbrev pub Covered :
      Option (Database × Artifacts) → RestorePhase → RestoreJournal → Files → Type 0
  Covered x committed j d = Verified x × LiveIs x d
  Covered x _ j d =
      (j.had_database ≡ is_there (first x)) × (j.had_artifacts ≡ is_there (second x)) × BothKept x d

  abbrev pub Ready : Option (Database × Artifacts) → Option RestoreJournal → Files → Type 0
  Ready x none d = LiveIs x d
  Ready x (some j) d = (journal_ok checks j ≡ true) × Covered x j.phase j d

  -- Recovery makes the given authority live, or leaves none live: with no journal that is so
  -- already; the authority is live and verified under a committed journal; and under any other what
  -- is moved aside or still live is the authority.
  abbrev pub Leads : Option (Database × Artifacts) → Files → Type 0
  Leads x d = Ready x d.journal d

  abbrev pub IsSettled : Option (Database × Artifacts) → Files → Type 0
  IsSettled x d = (d.journal ≡ none) × LiveIs x d

  module _ {l : Bool} {Crash Fault : Files → Type 0} where
    pub remove_database-Post :
        (After : Files → Type 0) (recursive : Bool) (side : Side) (d : Files) (n : Budget)
        → is_limited n ≡ l
        → Crash d
        → Crash (with_database checks d (put_at side torn d.database))
        → After (with_database checks d (put_at side absent d.database))
        → Post l (λ _ e. After e) Crash Fault (on_database checks (remove_path recursive side) n d)
    remove_database-Post After recursive side d n h c t a =
        within-Post (λ d. d.database) (with_database checks) d
          (remove_path-Post {Crash = λ p. Crash (with_database checks d p)} {Fault = λ _. ⊥}
            recursive side d.database n h c t)
          (λ _ q e. rw e a) (λ _ c. c) (λ _ x. absurd x)

    pub remove_artifacts-Post :
        (After : Files → Type 0) (recursive : Bool) (side : Side) (d : Files) (n : Budget)
        → is_limited n ≡ l
        → Crash d
        → Crash (with_artifacts checks d (put_at side torn d.artifacts))
        → After (with_artifacts checks d (put_at side absent d.artifacts))
        → Post l (λ _ e. After e) Crash Fault (on_artifacts checks (remove_path recursive side) n d)
    remove_artifacts-Post After recursive side d n h c t a =
        within-Post (λ d. d.artifacts) (with_artifacts checks) d
          (remove_path-Post {Crash = λ p. Crash (with_artifacts checks d p)} {Fault = λ _. ⊥}
            recursive side d.artifacts n h c t)
          (λ _ q e. rw e a) (λ _ c. c) (λ _ x. absurd x)

  module _ (x : Option (Database × Artifacts)) where
    -- Under a journal that is not committed: the whole of the old authority is kept.
    abbrev pub Held : RestoreJournal → Files → Type 0
    Held j d = (d.journal ≡ some j) × BothKept x d

    abbrev pub RolledBack : RestoreJournal → Files → Type 0
    RolledBack j d =
        (d.journal ≡ some j) × (d.database.old ≡ absent) × (d.artifacts.old ≡ absent) × LiveIs x d

    pub RolledBack-Held : (j : RestoreJournal) (d : Files) → RolledBack j d → Held j d
    RolledBack-Held j d h =
        let (same, db, arts, both) = h in
        (same, (back (first x) d.database (db, both.0), back (second x) d.artifacts (arts, both.1)))

    rollback_database-Post :
        {l : Bool} (j : RestoreJournal) (d : Files) (n : Budget)
        → is_limited n ≡ l
        → j.had_database ≡ is_there (first x)
        → Held j d
        → Post l
            (λ _ e. Held j e × (e.database.old ≡ absent) × Live (first x) e.database.live)
            (Held j)
            (λ _. ⊥)
            (on_database checks (rollback_live false j.had_database) n d)
    rollback_database-Post j d n h had held =
        within-Post (λ d. d.database) (with_database checks) d
          (rollback_live-Post (first x) false j.had_database d.database n h had held.1.0)
          (λ _ p a. ((held.0, (back (first x) p a, held.1.1)), a.0, a.1))
          (λ p c. (held.0, (c, held.1.1))) (λ _ e. e)

    rollback_artifacts-Post :
        {l : Bool} (j : RestoreJournal) (d : Files) (n : Budget)
        → is_limited n ≡ l
        → j.had_artifacts ≡ is_there (second x)
        → Held j d
        → (d.database.old ≡ absent) × Live (first x) d.database.live
        → Post l
            (λ _ e. RolledBack j e)
            (Held j)
            (λ _. ⊥)
            (on_artifacts checks (rollback_live true j.had_artifacts) n d)
    rollback_artifacts-Post j d n h had held db =
        within-Post (λ d. d.artifacts) (with_artifacts checks) d
          (rollback_live-Post (second x) true j.had_artifacts d.artifacts n h had held.1.1)
          (λ _ p a. (held.0, db.0, a.0, (db.1, a.1))) (λ p c. (held.0, (held.1.0, c))) (λ _ e. e)

    pub rollback-Post :
        {l : Bool} (j : RestoreJournal) (d : Files) (n : Budget)
        → is_limited n ≡ l
        → j.had_database ≡ is_there (first x)
        → j.had_artifacts ≡ is_there (second x)
        → Held j d
        → Post l (λ _ e. RolledBack j e) (Held j) (λ _. ⊥) (rollback checks j n d)
    unfolding rollback
    rollback-Post j d n h db arts held =
        then_run-Post _ (rollback_database-Post j d n h db held) (λ _ m e i r.
          then_run-Post _ (rollback_artifacts-Post j e m i arts r.0 (r.1, r.2)) (λ _ k f i q.
            then_run-Post _
              (remove_database-Post (RolledBack j) false stage f k i (RolledBack-Held j f q)
                (RolledBack-Held j (with_database checks f (put_at stage torn f.database)) q) q)
              (λ _ k g i q.
                remove_artifacts-Post (RolledBack j) true stage g k i (RolledBack-Held j g q)
                  (RolledBack-Held j (with_artifacts checks g (put_at stage torn g.artifacts)) q)
                  q)))
