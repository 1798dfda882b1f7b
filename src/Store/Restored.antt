-- ===== src/Store/Restored.antt =====
-- packages/store-sqlite/src/restore/index.ts: the parts of `restoreBackup` in their order.
use horseness.Common.{String, Option, none, some, Bool, true, ◌≡◌, refl, ap, inl, inr, Bool-cases}
use horseness.Domain.Canonical.{Text}
use horseness.Store.Program.{Budget, is_limited, require}
use horseness.Store.Outcomes.{
  Post, ends, throws, Post-map, Post-never, Post-fault, require-Post, then_run-Post,
}
use horseness.Store.Places.{
  Slot, absent, whole, torn, present, stage, put_at, authority_invalid, invalid_backup,
}
use horseness.Store.Removal.{Live}
use horseness.Store.Restore.{
  staged, RestoreOptions, StoreChecks, Backup, is_there, with_database, with_artifacts, verify_pair,
}
use horseness.Store.Recovery.{Files, first, second, Leads, IsSettled}
use horseness.Store.Recovered.{unjournaled, IsSettled-Leads, recover_interrupted_restore-Post}
use horseness.Store.Writes.{
  slot_of, Is, slot_of-Live, Live-slot_of, copy_database-Post, copy_artifacts-Post,
}
use horseness.Store.Retained.{rewrite-Retained, retain-Post}
use horseness.Store.Contained.{preflight-Post}
use horseness.Store.Replaced.{Point}
use horseness.Store.Atomic.{members, Ends, Prepared, replace-Post}
use horseness.Store.Replacement.{derived, stage_backup, restore_verified, resolved, restore_backup}

present-Live : {X : Type 0} (o : Option X) (s : Slot X) → Live o s → present s ≡ is_there o
present-Live none s h = ap present h
present-Live (some x) s h = ap present h

module _ {Database Artifacts : Type 0} (checks : StoreChecks Database Artifacts)
    (b : Backup Database Artifacts) where
  verify_pair-whole :
      (u : Database) (w : Artifacts) (s : Slot Database) (t : Slot Artifacts) (n : Budget)
      (d : Files checks)
      → s ≡ whole u
      → t ≡ whole w
      → verify_pair checks s t n d ≡ require (checks.verify_authority u w) authority_invalid n d
  verify_pair-whole u w s t n d e f = rw (e, f) refl

  unjournaled-Leads :
      (x : Option (Database × Artifacts)) (d : Files checks)
      → d.journal ≡ none
      → d.database.live ≡ slot_of (first x)
      → d.artifacts.live ≡ slot_of (second x)
      → Leads checks x d
  unjournaled-Leads x d e f g =
      unjournaled checks x d.journal d e
        (Live-slot_of (first x) d.database.live f, Live-slot_of (second x) d.artifacts.live g)

  abbrev HalfStaged : Option (Database × Artifacts) → Files checks → Type 0
  HalfStaged x d =
      Point checks x (members checks x b) none (Is (slot_of (first x)) absent (whole b.database))
        (Is (slot_of (second x)) absent absent) d

  verified-Post :
      {l : Bool} (x : Option (Database × Artifacts)) (d : Files checks) (n : Budget)
      → is_limited n ≡ l
      → Prepared checks x b d
      → Post l
          (λ _ e. (checks.verify_authority b.database b.artifacts ≡ true) × Prepared checks x b e)
          (Leads checks x)
          (Leads checks x)
          (require (checks.verify_authority b.database b.artifacts) authority_invalid n d)
  verified-Post x d n h a = elim (Bool-cases (checks.verify_authority b.database b.artifacts)) [
    | inl t ↦ rw t (ends h (refl, a))
    | inr f ↦ rw f (throws (unjournaled-Leads x d a.0 a.1.0 a.2.0))
  ]

  derived-Point :
      (x : Option (Database × Artifacts)) (d : Files checks)
      → IsSettled checks x d
      → Point checks x
          (members checks x b)
          none
          (Is (slot_of (first x)) absent absent)
          (Is (slot_of (second x)) absent absent)
          (derived checks d)
  derived-Point x d q = (
    q.0,
    (slot_of-Live (first x) d.database.live q.1.0, refl, refl),
    (slot_of-Live (second x) d.artifacts.live q.1.1, refl, refl),
  )

  stage_backup-Post :
      {l : Bool} (x : Option (Database × Artifacts)) (d : Files checks) (n : Budget)
      → is_limited n ≡ l
      → Point checks x
          (members checks x b)
          none
          (Is (slot_of (first x)) absent absent)
          (Is (slot_of (second x)) absent absent)
          d
      → Post l
          (λ _ e. (checks.verify_authority b.database b.artifacts ≡ true) × Prepared checks x b e)
          (Leads checks x)
          (Leads checks x)
          (stage_backup checks b n d)
  stage_backup-Post x d n h q =
      then_run-Post _
        (copy_database-Post checks (Leads checks x) (HalfStaged x) b.database d n h
          (unjournaled-Leads x d q.0 q.1.0 q.2.0)
          (unjournaled-Leads x (with_database checks d (put_at stage torn d.database)) q.0 q.1.0
            q.2.0)
          (q.0, (q.1.0, q.1.1, refl), q.2))
        (λ _ m e i a.
          then_run-Post _
            (copy_artifacts-Post checks (Leads checks x) (Prepared checks x b) b.artifacts e m i
              (unjournaled-Leads x e a.0 a.1.0 a.2.0)
              (unjournaled-Leads x (with_artifacts checks e (put_at stage torn e.artifacts)) a.0
                a.1.0 a.2.0)
              (a.0, a.1, (a.2.0, a.2.1, refl)))
            (λ _ m e i a.
              rw
                (verify_pair-whole b.database b.artifacts e.database.stage e.artifacts.stage m e
                  a.1.2 a.2.2)
                (verified-Post x e m i a)))

  -- `restoreBackup` from files with no journal, however it ends: with the backup live, or with files
  -- that lead to what was live or to the backup.
  restore_verified-Post :
      {l : Bool} (x : Option (Database × Artifacts)) (options : RestoreOptions) (token : Text)
      (time : String) (d : Files checks) (n : Budget)
      → is_limited n ≡ l
      → IsSettled checks x d
      → Post l
          (λ _ e. IsSettled checks (some (members checks x b)) e)
          (Ends checks x b)
          (Ends checks x b)
          (restore_verified checks b options token time n d)
  unfolding restore_verified
  restore_verified-Post x options token time d n h q =
      then_run-Post _
        (preflight-Post checks (IsSettled checks x) options.retained_backup_root token d.journal d n
          h q.0 (inl (IsSettled-Leads checks x d q)) q)
        (λ _ n d h q.
          then_run-Post _
            (Post-never (
              Post-map
                (recover_interrupted_restore-Post checks x d n h (IsSettled-Leads checks x d q))
                (λ _ e a. a) (λ e c. inl c)))
            (λ _ m e i a.
              then_run-Post _
                (Post-fault
                  (Post-map (retain-Post checks x options time e m i a) (λ _ f r. r) (λ f c. inl c))
                  (λ f c. inl c))
                (λ identity m f i r.
                  then_run-Post _
                    (Post-fault
                      (Post-map (stage_backup-Post x (derived checks f) m i (derived-Point x f r.0))
                        (λ _ g s. s) (λ g c. inl c))
                      (λ g c. inl c))
                    (λ _ m g i s.
                      replace-Post checks x b
                        (record {
                          phase = staged;
                          generation_token = token;
                          had_database = present e.database.live;
                          had_artifacts = present e.artifacts.live;
                          retained_backup_root = options.retained_backup_root;
                          retained_backup_identity = identity;
                        })
                        (record {
                          valid =
                              rewrite-Retained checks x options identity (present e.database.live)
                                (present e.artifacts.live)
                                (present-Live (first x) e.database.live a.1.0)
                                (present-Live (second x) e.artifacts.live a.1.1) r.1;
                          database = present-Live (first x) e.database.live a.1.0;
                          artifacts = present-Live (second x) e.artifacts.live a.1.1;
                        })
                        s.0 g m i s.1))))

  pub restore_backup-Post :
      {l : Bool} (x : Option (Database × Artifacts)) (options : RestoreOptions) (token : Text)
      (time : String) (d : Files checks) (n : Budget)
      → is_limited n ≡ l
      → IsSettled checks x d
      → Post l
          (λ _ e. IsSettled checks (some (members checks x b)) e)
          (Ends checks x b)
          (Ends checks x b)
          (restore_backup checks b options token time n d)
  unfolding restore_backup
  restore_backup-Post x options token time d n h q =
      require-Post (checks.verify_backup b) invalid_backup _ n d
        (inl (IsSettled-Leads checks x d q))
        (λ _. restore_verified-Post x (resolved checks options) token time d n h q)
