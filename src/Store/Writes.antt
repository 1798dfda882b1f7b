-- ===== src/Store/Writes.antt =====
-- packages/store-sqlite/src/restore/index.ts: the writes of `restoreBackup`, whenever a crash comes.
use horseness.Common.{Option, none, some, Bool, true, false, ◌≡◌, refl, inl, inr, if◌then◌else◌}
use horseness.Store.Program.{Budget, is_limited, pure, act}
use horseness.Store.Outcomes.{Post, ends, act-Post, act_lem, within-Post}
use horseness.Store.Places.{
  Slot, absent, whole, torn, Place, Side, live, old, stage, at, put_at, rename_path, copy_to_stage,
}
use horseness.Store.Removal.{Live, Kept, rename_path-Post}
use horseness.Store.Restore.{
  RestoreJournal, StoreChecks, is_there, with_database, with_artifacts, on_database, on_artifacts,
  write_journal,
}
use horseness.Store.Recovery.{Files}

-- What is at the live path of an authority, or of none.
abbrev pub slot_of : {X : Type 0} → Option X → Slot X
slot_of none = absent
slot_of (some x) = whole x

abbrev pub Is : {X : Type 0} → Slot X → Slot X → Slot X → Place X → Type 0
Is l o s p = (p.live ≡ l) × (p.old ≡ o) × (p.stage ≡ s)

pub Live-slot_of : {X : Type 0} (o : Option X) (s : Slot X) → s ≡ slot_of o → Live o s
Live-slot_of none s h = h
Live-slot_of (some x) s h = h

pub slot_of-Live : {X : Type 0} (o : Option X) (s : Slot X) → Live o s → s ≡ slot_of o
slot_of-Live none s h = h
slot_of-Live (some x) s h = h

pub Kept-live :
    {X : Type 0} (o : Option X) (p : Place X) → p.live ≡ slot_of o → p.old ≡ absent → Kept o p
Kept-live none p h k = k
Kept-live (some x) p h k = inr (k, h)

pub Kept-moved : {X : Type 0} (o : Option X) (p : Place X) → p.old ≡ slot_of o → Kept o p
Kept-moved none p k = k
Kept-moved (some x) p k = inl k

module _ {Database Artifacts : Type 0} (checks : StoreChecks Database Artifacts) {l : Bool}
    (Crash : Files checks → Type 0) {Fault : Files checks → Type 0} where
  pub write_journal-Post :
      (After : Files checks → Type 0) (j : RestoreJournal) (d : Files checks) (n : Budget)
      → is_limited n ≡ l
      → Crash d
      → Crash (record d { journal_next = torn })
      → Crash (record d { journal_next = whole j })
      → After (record d { journal = some j; journal_next = absent })
      → Post l (λ _ e. After e) Crash Fault (write_journal checks j n d)
  unfolding write_journal
  write_journal-Post After j d n h c t w a =
      act-Post (λ e. record e { journal_next = torn }) _ n d h c
        (λ m i.
          act-Post (λ e. record e { journal_next = whole j }) _ m _ i t
            (λ m i.
              act_lem (λ e. record e { journal = some j; journal_next = absent }) m
                (record d { journal_next = whole j }) i w a))

  pub rename_database-Post :
      (After : Files checks → Type 0) (recursive : Bool) (from to : Side) (d : Files checks)
      (n : Budget)
      → is_limited n ≡ l
      → at to d.database ≡ absent
      → Crash d
      → After
          (with_database checks d (put_at from absent (put_at to (at from d.database) d.database)))
      → Post l (λ _ e. After e) Crash Fault (on_database checks (rename_path recursive from to) n d)
  rename_database-Post After recursive from to d n h e c a =
      within-Post (λ d. d.database) (with_database checks) d
        (rename_path-Post {Crash = λ p. Crash (with_database checks d p)} {Fault = λ _. ⊥} recursive
          from to d.database n h e c)
        (λ _ q f. rw f a) (λ _ c. c) (λ _ x. absurd x)

  pub rename_artifacts-Post :
      (After : Files checks → Type 0) (recursive : Bool) (from to : Side) (d : Files checks)
      (n : Budget)
      → is_limited n ≡ l
      → at to d.artifacts ≡ absent
      → Crash d
      → After (
          with_artifacts checks d
            (put_at from absent (put_at to (at from d.artifacts) d.artifacts)))
      → Post l
          (λ _ e. After e)
          Crash
          Fault
          (on_artifacts checks (rename_path recursive from to) n d)
  rename_artifacts-Post After recursive from to d n h e c a =
      within-Post (λ d. d.artifacts) (with_artifacts checks) d
        (rename_path-Post {Crash = λ p. Crash (with_artifacts checks d p)} {Fault = λ _. ⊥}
          recursive from to d.artifacts n h e c)
        (λ _ q f. rw f a) (λ _ c. c) (λ _ x. absurd x)

  pub copy_database-Post :
      (After : Files checks → Type 0) (v : Database) (d : Files checks) (n : Budget)
      → is_limited n ≡ l
      → Crash d
      → Crash (with_database checks d (put_at stage torn d.database))
      → After (with_database checks d (put_at stage (whole v) d.database))
      → Post l (λ _ e. After e) Crash Fault (on_database checks (copy_to_stage v) n d)
  copy_database-Post After v d n h c t a =
      within-Post (λ d. d.database) (with_database checks) d
        (act-Post {Crash = λ p. Crash (with_database checks d p)} {Fault = λ _. ⊥}
          {After = λ _ p. After (with_database checks d p)} (put_at stage torn)
          (λ _. act (put_at stage (whole v))) n d.database h c
          (λ m i. act_lem (put_at stage (whole v)) m (put_at stage torn d.database) i t a))
        (λ _ _ a. a) (λ _ c. c) (λ _ x. absurd x)

  pub copy_artifacts-Post :
      (After : Files checks → Type 0) (v : Artifacts) (d : Files checks) (n : Budget)
      → is_limited n ≡ l
      → Crash d
      → Crash (with_artifacts checks d (put_at stage torn d.artifacts))
      → After (with_artifacts checks d (put_at stage (whole v) d.artifacts))
      → Post l (λ _ e. After e) Crash Fault (on_artifacts checks (copy_to_stage v) n d)
  copy_artifacts-Post After v d n h c t a =
      within-Post (λ d. d.artifacts) (with_artifacts checks) d
        (act-Post {Crash = λ p. Crash (with_artifacts checks d p)} {Fault = λ _. ⊥}
          {After = λ _ p. After (with_artifacts checks d p)} (put_at stage torn)
          (λ _. act (put_at stage (whole v))) n d.artifacts h c
          (λ m i. act_lem (put_at stage (whole v)) m (put_at stage torn d.artifacts) i t a))
        (λ _ _ a. a) (λ _ c. c) (λ _ x. absurd x)

  -- Moving aside what is live, where something is.
  pub move_database-Post :
      (After : Files checks → Type 0) (o : Option Database) (had : Bool) (d : Files checks)
      (n : Budget)
      → is_limited n ≡ l
      → had ≡ is_there o
      → d.database.live ≡ slot_of o
      → d.database.old ≡ absent
      → Crash d
      → ((p : Place Database)
          → Is absent (slot_of o) d.database.stage p
          → After (with_database checks d p))
      → Post l
          (λ _ e. After e)
          Crash
          Fault
          ((if had then on_database checks (rename_path false live old) else pure tt) n d)
  move_database-Post After none had d n h e live_is old_is c a =
      rw e (ends h (a d.database (live_is, old_is, refl)))
  move_database-Post After (some v) had d n h e live_is old_is c a =
      rw e (rename_database-Post After false live old d n h old_is c (a _ (refl, live_is, refl)))

  pub move_artifacts-Post :
      (After : Files checks → Type 0) (o : Option Artifacts) (had : Bool) (d : Files checks)
      (n : Budget)
      → is_limited n ≡ l
      → had ≡ is_there o
      → d.artifacts.live ≡ slot_of o
      → d.artifacts.old ≡ absent
      → Crash d
      → ((p : Place Artifacts)
          → Is absent (slot_of o) d.artifacts.stage p
          → After (with_artifacts checks d p))
      → Post l
          (λ _ e. After e)
          Crash
          Fault
          ((if had then on_artifacts checks (rename_path true live old) else pure tt) n d)
  move_artifacts-Post After none had d n h e live_is old_is c a =
      rw e (ends h (a d.artifacts (live_is, old_is, refl)))
  move_artifacts-Post After (some v) had d n h e live_is old_is c a =
      rw e (rename_artifacts-Post After true live old d n h old_is c (a _ (refl, live_is, refl)))
