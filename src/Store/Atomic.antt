-- ===== src/Store/Atomic.antt =====
-- packages/store-sqlite/src/restore/index.ts: `restoreBackup` as one step from the authority that was
-- live to the backup.
use horseness.Common.{Option, none, some, Bool, true, ◌≡◌, refl, inl, inr, Bool-cases}
use horseness.Store.Program.{Budget, is_limited, ◌>>◌, pure}
use horseness.Store.Outcomes.{
  Post, ends, throws, Post-map, Post-never, then_run-Post, act-Post, act_lem,
}
use horseness.Store.Places.{absent, whole, torn}
use horseness.Store.Restore.{
  RestorePhase, staged, committed, RestoreJournal, RestoreCommitEvidence, StoreChecks, Backup,
  remove_next, remove_journal,
}
use horseness.Store.Recovery.{Files, first, second, IsSettled}
use horseness.Store.Recovered.{unjournaled}
use horseness.Store.Forward.{LiveNow, finish_forward-Post, remove_next-Post, remove_journal-Post}
use horseness.Store.Writes.{slot_of, Is, Live-slot_of, write_journal-Post}
use horseness.Store.Replaced.{
  Either, IsOf, Point, in_phase, over, Staged, move_old-Post, activate-Post,
}
use horseness.Store.Replacement.{evidence_of, identity_kept, write_evidence, complete, replace}

module _ {Database Artifacts : Type 0} (checks : StoreChecks Database Artifacts) where
  module _ (x : Option (Database × Artifacts)) (b : Backup Database Artifacts) where
    abbrev pub members : Database × Artifacts
    members = (b.database, b.artifacts)

    abbrev pub Ends : Files checks → Type 0
    Ends d = Either checks x members d

    abbrev pub Prepared : Files checks → Type 0
    Prepared d =
        Point checks x members none (Is (slot_of (first x)) absent (whole b.database))
          (Is (slot_of (second x)) absent (whole b.artifacts)) d

    Prepared-Ends : (d : Files checks) → Prepared d → Ends d
    Prepared-Ends d s = inl (
        unjournaled checks x d.journal d s.0 (
          Live-slot_of (first x) d.database.live s.1.0,
          Live-slot_of (second x) d.artifacts.live s.2.0,
        ))

    module _ (base : RestoreJournal) (of : IsOf checks x members base)
        (v : checks.verify_authority b.database b.artifacts ≡ true) where
      abbrev Done : Files checks → Type 0
      Done d = LiveNow checks members (some (in_phase checks x members base of v committed)) d

      Done-Ends : (d : Files checks) → Done d → Ends d
      Done-Ends d q = over checks x members base of v d q

      evidence-Post :
          {l : Bool} (w : RestoreCommitEvidence) (d : Files checks) (n : Budget)
          → is_limited n ≡ l
          → Done d
          → Post l (λ _ e. Done e) Ends Ends (write_evidence checks w n d)
      evidence-Post w d n h q =
          act-Post (λ d. record d { evidence = torn }) _ n d h (Done-Ends d q)
            (λ m i.
              act_lem (λ d. record d { evidence = whole w }) m (record d { evidence = torn }) i
                (Done-Ends (record d { evidence = torn }) q) q)

      clear-Post :
          {l : Bool} (w : RestoreCommitEvidence) (d : Files checks) (n : Budget)
          → is_limited n ≡ l
          → Done d
          → Post l
              (λ _ e. IsSettled checks (some members) e)
              Ends
              Ends
              ((remove_next checks >> (remove_journal checks >> pure w)) n d)
      clear-Post w d n h q =
          then_run-Post _ (Post-map (remove_next-Post checks Done d n h q q) (λ _ e a. a) Done-Ends)
            (λ _ m e i a.
              then_run-Post _
                (remove_journal-Post checks Ends (in_phase checks x members base of v committed) e m
                  i a.0 (Done-Ends e a))
                (λ _ m f i r. ends i (rw r (refl, a.1))))

      finish-Post :
          {l : Bool} (d : Files checks) (n : Budget)
          → is_limited n ≡ l
          → Done d
          → Post l
              (λ _ e. IsSettled checks (some members) e)
              Ends
              Ends
              (complete checks (in_phase checks x members base of v staged) b n d)
      finish-Post d n h q =
          let w : RestoreCommitEvidence =
            evidence_of checks (in_phase checks x members base of v staged) b in
          then_run-Post _ (evidence-Post w d n h q) (λ _ m e i a.
            then_run-Post _
              (Post-never (
                Post-map
                  (finish_forward-Post checks members
                    (some (in_phase checks x members base of v committed)) e m i v a)
                  (λ _ e a. a) Done-Ends))
              (λ _ m e i a.
                elim (Bool-cases (identity_kept checks base.retained_backup_identity e.retained)) [
                  | inl t ↦ rw t (clear-Post w e m i a)
                  | inr f ↦ rw f (throws (Done-Ends e a))
                ]))

      pub replace-Post :
          {l : Bool} (d : Files checks) (n : Budget)
          → is_limited n ≡ l
          → Prepared d
          → Post l
              (λ _ e. IsSettled checks (some members) e)
              Ends
              Ends
              (replace checks (in_phase checks x members base of v staged) b n d)
      unfolding replace
      replace-Post d n h s =
          let j : RestorePhase → RestoreJournal = in_phase checks x members base of v in
          then_run-Post _
            (write_journal-Post checks Ends (Staged checks x members base of v staged) (j staged) d
              n h (Prepared-Ends d s) (Prepared-Ends (record d { journal_next = torn }) s)
              (Prepared-Ends (record d { journal_next = whole (j staged) }) s) (refl, s.1, s.2))
            (λ _ m e i a.
              then_run-Post _ (move_old-Post checks x members base of v e m i a) (λ _ m e i a.
                then_run-Post _ (activate-Post checks x members base of v e m i a)
                  (λ _ m e i a. finish-Post e m i a)))
