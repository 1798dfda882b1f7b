-- ===== src/Store/Recovered.antt =====
-- packages/store-sqlite/src/restore/index.ts: `recoverInterruptedRestore` on what a crash has left.
use horseness.Common.{Option, none, some, Bool, true, ◌≡◌, refl}
use horseness.Store.Program.{Budget, is_limited, ◌>>◌}
use horseness.Store.Outcomes.{Post, Post-map, then_run-Post}
use horseness.Store.Places.{absent}
use horseness.Store.Restore.{
  RestorePhase, staged, old_moved, database_activated, artifacts_activated, committed,
  RestoreJournal, StoreChecks, is_there, journal_ok, rollback, finish_forward, remove_next,
  remove_journal, resume, recover_from, recover_interrupted_restore,
}
use horseness.Store.Recovery.{
  Files, first, second, LiveIs, Verified, Covered, Ready, Leads, IsSettled, RolledBack, Held,
  RolledBack-Held, rollback-Post,
}
use horseness.Store.Forward.{LiveNow, finish_forward-Post, remove_next-Post, remove_journal-Post}

module _ {Database Artifacts : Type 0} (checks : StoreChecks Database Artifacts)
    (x : Option (Database × Artifacts)) where
  pub unjournaled :
      (o : Option RestoreJournal) (d : Files checks)
      → o ≡ none
      → LiveIs checks x d
      → Ready checks x o d
  unjournaled o d e h = rw e h

  pub IsSettled-Leads : (d : Files checks) → IsSettled checks x d → Leads checks x d
  IsSettled-Leads d s = unjournaled d.journal d s.0 s.1

  covers :
      (q ph : RestorePhase) (j : RestoreJournal) (d : Files checks)
      → q ≡ ph
      → Covered checks x ph j d
      → Covered checks x q j d
  covers q ph j d e c = rw e c

  pub ready :
      (o : Option RestoreJournal) (ph : RestorePhase) (j : RestoreJournal) (d : Files checks)
      → o ≡ some j
      → j.phase ≡ ph
      → journal_ok checks j ≡ true
      → Covered checks x ph j d
      → Ready checks x o d
  ready o ph j d e f k c = rw e (k, covers j.phase ph j d f c)

  clear-Post :
      {l : Bool} (j : RestoreJournal) (P : Files checks → Type 0)
      → ((d : Files checks) → P d → P (record d { journal_next = absent }))
      → ((d : Files checks) → P d → d.journal ≡ some j)
      → ((d : Files checks) → P d → LiveIs checks x d)
      → ((d : Files checks) → P d → Leads checks x d)
      → (d : Files checks) (n : Budget) → is_limited n ≡ l
      → P d
      → Post l
          (λ _ e. IsSettled checks x e)
          (Leads checks x)
          (λ _. ⊥)
          ((remove_next checks >> remove_journal checks) n d)
  clear-Post j P next same live_is leads d n h p =
      then_run-Post _
        (Post-map (remove_next-Post checks P d n h p (next d p)) (λ _ e q. q) (λ e q. leads e q))
        (λ _ m e i q.
          Post-map (remove_journal-Post checks (Leads checks x) j e m i (same e q) (leads e q))
            (λ _ f r. rw r (refl, live_is e q)) (λ f r. r))

  roll_back-Post :
      {l : Bool} (j : RestoreJournal) (d : Files checks) (n : Budget)
      → is_limited n ≡ l
      → j.had_database ≡ is_there (first x)
      → j.had_artifacts ≡ is_there (second x)
      → ((e : Files checks) → Held checks x j e → Leads checks x e)
      → Held checks x j d
      → Post l
          (λ _ e. IsSettled checks x e)
          (Leads checks x)
          (λ _. ⊥)
          ((rollback checks j >> (remove_next checks >> remove_journal checks)) n d)
  roll_back-Post j d n h db arts leads held =
      then_run-Post _ (Post-map (rollback-Post checks x j d n h db arts held) (λ _ e q. q) leads)
        (λ _ m e i q.
          clear-Post j (RolledBack checks x j) (λ _ r. r) (λ _ r. r.0) (λ _ r. r.3)
            (λ f r. leads f (RolledBack-Held checks x j f r)) e m i q)

module _ {Database Artifacts : Type 0} (checks : StoreChecks Database Artifacts) where
  go_forward-Post :
      {l : Bool} (x : Option (Database × Artifacts)) (j : RestoreJournal) (d : Files checks)
      (n : Budget)
      → is_limited n ≡ l
      → d.journal ≡ some j
      → j.phase ≡ committed
      → journal_ok checks j ≡ true
      → Verified checks x × LiveIs checks x d
      → Post l
          (λ _ e. IsSettled checks x e)
          (Leads checks x)
          (λ _. ⊥)
          ((finish_forward checks >> (remove_next checks >> remove_journal checks)) n d)
  go_forward-Post none j d n h same phase valid covered = absurd covered.0
  go_forward-Post (some p) j d n h same phase valid covered =
      let leads : (e : Files checks) → LiveNow checks p (some j) e → Leads checks (some p) e =
        λ e q. ready checks (some p) e.journal committed j e q.0 phase valid (covered.0, q.1) in
      then_run-Post _
        (Post-map (finish_forward-Post checks p (some j) d n h covered.0 (same, covered.1))
          (λ _ e q. q) leads)
        (λ _ m e i q.
          clear-Post checks (some p) j (LiveNow checks p (some j)) (λ _ r. r) (λ _ r. r.0)
            (λ _ r. r.1) leads e m i q)

  resume-Post :
      {l : Bool} (x : Option (Database × Artifacts)) (ph : RestorePhase) (j : RestoreJournal)
      (d : Files checks) (n : Budget)
      → is_limited n ≡ l
      → d.journal ≡ some j
      → j.phase ≡ ph
      → journal_ok checks j ≡ true
      → Covered checks x ph j d
      → Post l
          (λ _ e. IsSettled checks x e)
          (Leads checks x)
          (λ _. ⊥)
          ((resume checks j ph >> (remove_next checks >> remove_journal checks)) n d)
  resume-Post x committed j d n h same phase valid c = go_forward-Post x j d n h same phase valid c
  resume-Post x staged j d n h same phase valid c =
      roll_back-Post checks x j d n h c.0 c.1
        (λ e q. ready checks x e.journal staged j e q.0 phase valid (c.0, c.1, q.1)) (same, c.2)
  resume-Post x old_moved j d n h same phase valid c =
      roll_back-Post checks x j d n h c.0 c.1
        (λ e q. ready checks x e.journal old_moved j e q.0 phase valid (c.0, c.1, q.1)) (same, c.2)
  resume-Post x database_activated j d n h same phase valid c =
      roll_back-Post checks x j d n h c.0 c.1
        (λ e q. ready checks x e.journal database_activated j e q.0 phase valid (c.0, c.1, q.1))
        (same, c.2)
  resume-Post x artifacts_activated j d n h same phase valid c =
      roll_back-Post checks x j d n h c.0 c.1
        (λ e q. ready checks x e.journal artifacts_activated j e q.0 phase valid (c.0, c.1, q.1))
        (same, c.2)

  recover_from-Post :
      {l : Bool} (x : Option (Database × Artifacts)) (o : Option RestoreJournal) (d : Files checks)
      (n : Budget)
      → is_limited n ≡ l
      → d.journal ≡ o
      → Ready checks x o d
      → Post l (λ _ e. IsSettled checks x e) (Leads checks x) (λ _. ⊥) (recover_from checks o n d)
  recover_from-Post x none d n h same r =
      Post-map (remove_next-Post checks (IsSettled checks x) d n h (same, r) (same, r)) (λ _ e q. q)
        (IsSettled-Leads checks x)
  recover_from-Post x (some j) d n h same r =
      rw (r.0) (resume-Post x j.phase j d n h same refl r.0 r.1)

  -- Recovery from files that lead to an authority is never refused. It ends with that authority live,
  -- and no journal, unless a crash stops it; and then what it leaves leads to the same authority.
  pub recover_interrupted_restore-Post :
      {l : Bool} (x : Option (Database × Artifacts)) (d : Files checks) (n : Budget)
      → is_limited n ≡ l
      → Leads checks x d
      → Post l
          (λ _ e. IsSettled checks x e)
          (Leads checks x)
          (λ _. ⊥)
          (recover_interrupted_restore checks n d)
  unfolding recover_interrupted_restore
  recover_interrupted_restore-Post x d n h leads = recover_from-Post x d.journal d n h refl leads
