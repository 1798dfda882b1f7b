-- ===== src/Store/Retained.antt =====
-- packages/store-sqlite/src/restore/index.ts: the backup of what is live, which `restoreBackup` retains.
use horseness.Common.{
  String, Option, none, some, Bool, true, inl, inr, Bool-cases, not, ◌&&◌, ◌||◌, ◌≡◌, refl, ap,
}
use horseness.Store.Program.{Budget, is_limited}
use horseness.Store.Outcomes.{Post, ends, throws, require-Post, then_run-Post, act-Post}
use horseness.Store.Places.{
  Slot, whole, torn, present, authority_invalid, confirmation_required, retained_location_required,
  retained_exists, absent,
}
use horseness.Store.Restore.{RestoreOptions, StoreChecks, Backup, is_there}
use horseness.Store.Recovery.{Files, first, second, Leads, IsSettled}
use horseness.Store.Recovered.{IsSettled-Leads}
use horseness.Store.Replacement.{retain, create_backup, verify_created}

module _ {Database Artifacts : Type 0} (checks : StoreChecks Database Artifacts) where
  -- Whether what is live can be replaced under a journal with these members.
  abbrev Retained : Option (Database × Artifacts) → RestoreOptions → Option String → Type 0
  Retained x options identity =
      (not (is_there (first x) || is_there (second x))
        || is_there options.retained_backup_root && is_there identity)
      ≡ true

  pub rewrite-Retained :
      (x : Option (Database × Artifacts)) (options : RestoreOptions) (identity : Option String)
      (database artifacts : Bool)
      → database ≡ is_there (first x)
      → artifacts ≡ is_there (second x)
      → Retained x options identity
      → (not (database || artifacts) || is_there options.retained_backup_root && is_there identity)
        ≡ true
  rewrite-Retained x options identity database artifacts e f r = rw (e, f) r

  verify_created-Post :
      {l : Bool} (p : Database × Artifacts) (b : Backup Database Artifacts) (d : Files checks)
      (n : Budget)
      → is_limited n ≡ l
      → IsSettled checks (some p) d
      → Post l
          (λ _ e. IsSettled checks (some p) e)
          (Leads checks (some p))
          (Leads checks (some p))
          (verify_created checks b n d)
  verify_created-Post p b d n h q = elim (Bool-cases (checks.verify_backup b)) [
    | inl t ↦ rw t (ends h q)
    | inr f ↦ rw f (
        act-Post (λ e. record e { retained = torn }) _ n d h (IsSettled-Leads checks (some p) d q)
          (λ m i.
            act-Post (λ e. record e { retained = absent }) _ m (record d { retained = torn }) i
              (IsSettled-Leads checks (some p) (record d { retained = torn }) q)
              (λ m i. throws (IsSettled-Leads checks (some p) (record d { retained = absent }) q))))
  ]

  create_backup-Post :
      {l : Bool} (p : Database × Artifacts) (s : Slot Database) (t : Slot Artifacts) (time : String)
      (d : Files checks) (n : Budget)
      → is_limited n ≡ l
      → s ≡ whole p.0
      → t ≡ whole p.1
      → IsSettled checks (some p) d
      → Post l
          (λ _ e. IsSettled checks (some p) e)
          (Leads checks (some p))
          (Leads checks (some p))
          (create_backup checks s t time n d)
  create_backup-Post p s t time d n h e f q =
      rw (e, f)
        (require-Post (checks.verify_authority p.0 p.1) authority_invalid _ n d
          (IsSettled-Leads checks (some p) d q)
          (λ _.
            require-Post (not (present d.retained)) retained_exists _ n d
              (IsSettled-Leads checks (some p) d q)
              (λ _.
                act-Post (λ e. record e { retained = torn }) _ n d h
                  (IsSettled-Leads checks (some p) d q)
                  (λ m i.
                    act-Post
                      (λ e. record e {
                        retained =
                            whole (record { database = p.0; artifacts = p.1; created_at = time });
                      })
                      _ m (record d { retained = torn }) i
                      (IsSettled-Leads checks (some p) (record d { retained = torn }) q)
                      (λ m i.
                        verify_created-Post p
                          (record { database = p.0; artifacts = p.1; created_at = time }) _ m i
                          q)))))

  pub retain-Post :
      {l : Bool} (x : Option (Database × Artifacts)) (options : RestoreOptions) (time : String)
      (d : Files checks) (n : Budget)
      → is_limited n ≡ l
      → IsSettled checks x d
      → Post l
          (λ i e. IsSettled checks x e × Retained x options i)
          (Leads checks x)
          (Leads checks x)
          (retain checks options time n d)
  retain-Post none options time d n h q = rw (ap present q.1.0, ap present q.1.1) (ends h (q, refl))
  retain-Post (some p) options time d n h q =
      let leads : Leads checks (some p) d = IsSettled-Leads checks (some p) d q in
      rw (ap present q.1.0, ap present q.1.1)
        (require-Post options.confirm_replacement confirmation_required _ n d leads (λ _.
          require-Post (is_there options.retained_backup_root) retained_location_required _ n d
            leads
            (λ root.
              then_run-Post _
                (create_backup-Post p d.database.live d.artifacts.live time d n h q.1.0 q.1.1 q)
                (λ _ m e i a. ends i (a, rw root refl)))))
