-- ===== src/Store/Replaced.antt =====
-- packages/store-sqlite/src/restore/index.ts: what `restoreBackup` leaves under its journal.
use horseness.Common.{Option, some, Bool, true, false, ◌≡◌, refl, ◌∙◌, ◌⊎◌, inl, inr}
use horseness.Store.Program.{Budget, is_limited}
use horseness.Store.Outcomes.{Post, then_run-Post}
use horseness.Store.Places.{Slot, absent, whole, torn, Place, live, stage}
use horseness.Store.Restore.{
  RestorePhase, staged, old_moved, database_activated, artifacts_activated, committed,
  RestoreJournal, StoreChecks, is_there, journal_ok, write_journal,
}
use horseness.Store.Recovery.{Files, first, second, BothKept, Leads}
use horseness.Store.Recovered.{ready}
use horseness.Store.Forward.{LiveNow, verify_pair-done}
use horseness.Store.Writes.{
  slot_of, Is, Kept-live, Kept-moved, write_journal-Post, rename_database-Post,
  rename_artifacts-Post, move_database-Post, move_artifacts-Post,
}
use horseness.Store.Replacement.{move_old, activate}

module _ {Database Artifacts : Type 0} (checks : StoreChecks Database Artifacts)
    (x : Option (Database × Artifacts)) (p : Database × Artifacts) where
  -- Files that lead to what was live before, or to the backup.
  abbrev pub Either : Files checks → Type 0
  Either d = Leads checks x d ⊎ Leads checks (some p) d

  -- What a journal of this restore holds.
  pub record IsOf (base : RestoreJournal) : Type 0 where
    pub valid : journal_ok checks base ≡ true
    pub database : base.had_database ≡ is_there (first x)
    pub artifacts : base.had_artifacts ≡ is_there (second x)

  abbrev pub Point :
      Option RestoreJournal
      → (Place Database → Type 0)
      → (Place Artifacts → Type 0)
      → Files checks
      → Type 0
  Point j P Q d = (d.journal ≡ j) × P d.database × Q d.artifacts

  module _ (base : RestoreJournal) (of : IsOf base)
      (v : checks.verify_authority p.0 p.1 ≡ true) where
    abbrev pub in_phase : RestorePhase → RestoreJournal
    in_phase ph = record base { phase = ph }

    -- The phases before the last one.
    pub held :
        (ph : RestorePhase) (e : Files checks)
        → e.journal ≡ some (in_phase ph)
        → (ph ≡ committed → ⊥)
        → BothKept checks x e
        → Either e
    held committed e same early k = absurd (early refl)
    held staged e same early k = inl (
        ready checks x e.journal staged (in_phase staged) e same refl of.valid
          (of.database, of.artifacts, k))
    held old_moved e same early k = inl (
        ready checks x e.journal old_moved (in_phase old_moved) e same refl of.valid
          (of.database, of.artifacts, k))
    held database_activated e same early k = inl (
        ready checks x e.journal database_activated (in_phase database_activated) e same refl
          of.valid (of.database, of.artifacts, k))
    held artifacts_activated e same early k = inl (
        ready checks x e.journal artifacts_activated (in_phase artifacts_activated) e same refl
          of.valid (of.database, of.artifacts, k))

    pub over : (e : Files checks) → LiveNow checks p (some (in_phase committed)) e → Either e
    over e q = inr (
        ready checks (some p) e.journal committed (in_phase committed) e q.0 refl of.valid (v, q.1))

    abbrev pub Staged : RestorePhase → Files checks → Type 0
    Staged ph d =
        Point (some (in_phase ph)) (Is (slot_of (first x)) absent (whole p.0))
          (Is (slot_of (second x)) absent (whole p.1)) d

    abbrev pub Moved : RestorePhase → Files checks → Type 0
    Moved ph d =
        Point (some (in_phase ph)) (Is absent (slot_of (first x)) (whole p.0))
          (Is absent (slot_of (second x)) (whole p.1)) d

    -- The database is activated.
    abbrev pub Half : RestorePhase → Files checks → Type 0
    Half ph d =
        Point (some (in_phase ph)) (Is (whole p.0) (slot_of (first x)) absent)
          (Is absent (slot_of (second x)) (whole p.1)) d

    abbrev pub Activated : RestorePhase → Files checks → Type 0
    Activated ph d =
        Point (some (in_phase ph)) (Is (whole p.0) (slot_of (first x)) absent)
          (Is (whole p.1) (slot_of (second x)) absent) d

    Kept-both :
        (d : Files checks)
        → d.database.old ≡ slot_of (first x)
        → d.artifacts.old ≡ slot_of (second x)
        → BothKept checks x d
    Kept-both d h k = (Kept-moved (first x) d.database h, Kept-moved (second x) d.artifacts k)

    pub Staged-Either : (d : Files checks) → Staged staged d → Either d
    Staged-Either d s =
        held staged d s.0 (λ e. cc)
          (Kept-live (first x) d.database s.1.0 s.1.1, Kept-live (second x) d.artifacts s.2.0 s.2.1)

    -- The database is moved aside.
    abbrev Aside : Files checks → Type 0
    Aside d =
        Point (some (in_phase staged)) (Is absent (slot_of (first x)) (whole p.0))
          (Is (slot_of (second x)) absent (whole p.1)) d

    Aside-Either : (d : Files checks) → Aside d → Either d
    Aside-Either d s =
        held staged d s.0 (λ e. cc)
          (Kept-moved (first x) d.database s.1.1, Kept-live (second x) d.artifacts s.2.0 s.2.1)

    Moved-Either :
        (ph : RestorePhase) (d : Files checks) → (ph ≡ committed → ⊥) → Moved ph d → Either d
    Moved-Either ph d early s = held ph d s.0 early (Kept-both d s.1.1 s.2.1)

    Half-Either :
        (ph : RestorePhase) (d : Files checks) → (ph ≡ committed → ⊥) → Half ph d → Either d
    Half-Either ph d early s = held ph d s.0 early (Kept-both d s.1.1 s.2.1)

    Activated-Either :
        (ph : RestorePhase) (d : Files checks) → (ph ≡ committed → ⊥) → Activated ph d → Either d
    Activated-Either ph d early s = held ph d s.0 early (Kept-both d s.1.1 s.2.1)

    -- A journal of another phase, with files that lead the same way as it is written.
    next_phase :
        {l : Bool} (Now After : Files checks → Type 0) (ph : RestorePhase) (d : Files checks)
        (n : Budget)
        → is_limited n ≡ l
        → ((s : Slot RestoreJournal) → Now (record d { journal_next = s }))
        → ((e : Files checks) → Now e → Either e)
        → Now d
        → After (record d { journal = some (in_phase ph); journal_next = absent })
        → Post l (λ _ e. After e) Either Either (write_journal checks (in_phase ph) n d)
    next_phase Now After ph d n h same leads now a =
        write_journal-Post checks Either After (in_phase ph) d n h (leads d now)
          (leads (record d { journal_next = torn }) (same torn))
          (leads (record d { journal_next = whole (in_phase ph) }) (same (whole (in_phase ph)))) a

    pub move_old-Post :
        {l : Bool} (d : Files checks) (n : Budget)
        → is_limited n ≡ l
        → Staged staged d
        → Post l (λ _ e. Moved old_moved e) Either Either (move_old checks (in_phase staged) n d)
    move_old-Post d n h s =
        then_run-Post _
          (move_database-Post checks Either Aside (first x) base.had_database d n h of.database
            s.1.0 s.1.1 (Staged-Either d s) (λ q i. (s.0, (i.0, i.1, i.2 ∙ s.1.2), s.2)))
          (λ _ m e i a.
            then_run-Post _
              (move_artifacts-Post checks Either (Moved staged) (second x) base.had_artifacts e m i
                of.artifacts a.2.0 a.2.1 (Aside-Either e a)
                (λ q i. (a.0, a.1, (i.0, i.1, i.2 ∙ a.2.2))))
              (λ _ m e i a.
                next_phase (Moved staged) (Moved old_moved) old_moved e m i (λ _. a)
                  (λ f k. Moved-Either staged f (λ e. cc) k) a (refl, a.1, a.2)))

    pub activate-Post :
        {l : Bool} (d : Files checks) (n : Budget)
        → is_limited n ≡ l
        → Moved old_moved d
        → Post l
            (λ _ e. LiveNow checks p (some (in_phase committed)) e)
            Either
            Either
            (activate checks (in_phase staged) n d)
    activate-Post d n h s =
        then_run-Post _
          (rename_database-Post checks Either (Half old_moved) false stage live d n h s.1.0
            (Moved-Either old_moved d (λ e. cc) s) (s.0, (s.1.2, s.1.1, refl), s.2))
          (λ _ m e i a.
            then_run-Post _
              (next_phase (Half old_moved) (Half database_activated) database_activated e m i
                (λ _. a) (λ f k. Half-Either old_moved f (λ e. cc) k) a (refl, a.1, a.2))
              (λ _ m e i a.
                then_run-Post _
                  (rename_artifacts-Post checks Either (Activated database_activated) true stage
                    live e m i a.2.0 (Half-Either database_activated e (λ e. cc) a)
                    (a.0, a.1, (a.2.2, a.2.1, refl)))
                  (λ _ m e i a.
                    then_run-Post _
                      (next_phase (Activated database_activated) (Activated artifacts_activated)
                        artifacts_activated e m i (λ _. a)
                        (λ f k. Activated-Either database_activated f (λ e. cc) k) a
                        (refl, a.1, a.2))
                      (λ _ m e i a.
                        rw
                          (verify_pair-done checks p.0 p.1 e.database.live e.artifacts.live m e v
                            a.1.0 a.2.0)
                          (next_phase (Activated artifacts_activated)
                            (LiveNow checks p (some (in_phase committed))) committed e m i (λ _. a)
                            (λ f k. Activated-Either artifacts_activated f (λ e. cc) k) a
                            (refl, (a.1.0, a.2.0)))))))
