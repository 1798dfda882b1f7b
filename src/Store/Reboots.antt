-- ===== src/Store/Reboots.antt =====
-- packages/store-sqlite/src/restore/index.ts: a restore that a crash stops, and its recoveries.
use horseness.Common.{
  ℕ, String, Option, some, List, [], ◌∷◌, Bool, true, false, ◌≡◌, refl, ◌⊎◌, inl, inr,
}
use horseness.Domain.Canonical.{Text}
use horseness.Store.Program.{Budget, unlimited, limited, Run, left, is_done, done, crashed, failed}
use horseness.Store.Outcomes.{Post, ends, stops, throws}
use horseness.Store.Places.{RestoreError}
use horseness.Store.Restore.{RestoreOptions, StoreChecks, Backup, recover_interrupted_restore}
use horseness.Store.Recovery.{Files, Leads, IsSettled}
use horseness.Store.Recovered.{IsSettled-Leads, recover_interrupted_restore-Post}
use horseness.Store.Atomic.{members, Ends}
use horseness.Store.Replacement.{restore_backup}
use horseness.Store.Restored.{restore_backup-Post}

module _ {Database Artifacts : Type 0} (checks : StoreChecks Database Artifacts) where
  -- Recoveries that crashes stop, each after a number of writes.
  unfoldable pub reboots : List ℕ → Files checks → Files checks
  reboots [] d = d
  reboots (n ∷ ns) d = reboots ns (left (recover_interrupted_restore checks (limited n) d))

  left-Leads :
      {l : Bool} (x : Option (Database × Artifacts))
      (r : Run (Files checks) RestoreError (Unit {0}))
      → Post l (λ _ e. IsSettled checks x e) (Leads checks x) (λ _. ⊥) r
      → Leads checks x (left r)
  left-Leads x (done a n d) (ends h s) = IsSettled-Leads checks x d s
  left-Leads x (crashed d) (stops h c) = c
  left-Leads x (failed e d) (throws z) = absurd z

  reboots-Leads :
      (x : Option (Database × Artifacts)) (ns : List ℕ) (d : Files checks)
      → Leads checks x d
      → Leads checks x (reboots ns d)
  unfolding reboots
  reboots-Leads x [] d h = h
  reboots-Leads x (n ∷ ns) d h =
      reboots-Leads x ns (left (recover_interrupted_restore checks (limited n) d)) (
        left-Leads x (recover_interrupted_restore checks (limited n) d)
          (recover_interrupted_restore-Post checks x d (limited n) refl h))

  left-IsSettled :
      (x : Option (Database × Artifacts)) (r : Run (Files checks) RestoreError (Unit {0}))
      → Post false (λ _ e. IsSettled checks x e) (Leads checks x) (λ _. ⊥) r
      → (is_done r ≡ true) × IsSettled checks x (left r)
  left-IsSettled x (done a n d) (ends h s) = (refl, s)
  left-IsSettled x (crashed d) (stops h c) = cc
  left-IsSettled x (failed e d) (throws z) = absurd z

  -- From files that lead to an authority, any number of recoveries that crashes stop, and then one that
  -- no crash stops, come to an end with the authority live and no journal.
  pub recover-reboots :
      (x : Option (Database × Artifacts)) (ns : List ℕ) (d : Files checks)
      → Leads checks x d
      → let r : Run (Files checks) RestoreError (Unit {0}) =
          recover_interrupted_restore checks unlimited (reboots ns d) in
        (is_done r ≡ true) × IsSettled checks x (left r)
  recover-reboots x ns d h =
      left-IsSettled x (recover_interrupted_restore checks unlimited (reboots ns d)) (
        recover_interrupted_restore-Post checks x (reboots ns d) unlimited refl
          (reboots-Leads x ns d h))

module _ {Database Artifacts : Type 0} (checks : StoreChecks Database Artifacts)
    (b : Backup Database Artifacts) where
  left-Ends :
      {l : Bool} {A : Type 0} (x : Option (Database × Artifacts))
      (r : Run (Files checks) RestoreError A)
      → Post l
          (λ _ e. IsSettled checks (some (members checks x b)) e)
          (Ends checks x b)
          (Ends checks x b)
          r
      → Ends checks x b (left r)
  left-Ends x (done a n d) (ends h s) = inr (IsSettled-Leads checks (some (members checks x b)) d s)
  left-Ends x (crashed d) (stops h c) = c
  left-Ends x (failed e d) (throws c) = c

  -- A restore replaces the authority as a whole or not at all: from files without a journal, where an
  -- authority is live or none is, whenever a crash stops the restore, and whenever further crashes stop
  -- its recoveries, a recovery that no crash stops comes to its end, and leaves no journal and what was
  -- live before, both database and artifacts, or the backup's.
  pub restore_backup-atomic :
      (x : Option (Database × Artifacts)) (options : RestoreOptions) (token : Text) (time : String)
      (n : Budget) (ns : List ℕ) (d : Files checks)
      → IsSettled checks x d
      → let r : Run (Files checks) RestoreError (Unit {0}) =
          recover_interrupted_restore checks unlimited
            (reboots checks ns (left (restore_backup checks b options token time n d))) in
        (is_done r ≡ true)
        × (IsSettled checks x (left r) ⊎ IsSettled checks (some (b.database, b.artifacts)) (left r))
  restore_backup-atomic x options token time n ns d h =
      let e : Files checks = left (restore_backup checks b options token time n d) in
      elim (left-Ends x (restore_backup checks b options token time n d)
        (restore_backup-Post checks b x options token time d n refl h)) [
          | inl lead ↦ let (end, s) = recover-reboots checks x ns e lead in (end, inl s)
          | inr lead ↦
              let (end, s) = recover-reboots checks (some (members checks x b)) ns e lead in
              (end, inr s)
        ]
