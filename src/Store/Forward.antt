-- ===== src/Store/Forward.antt =====
-- packages/store-sqlite/src/restore/index.ts: the end of a committed restore, and the removal of the
-- journal.
use horseness.Common.{Option, none, some, Bool, true, false, ◌≡◌, refl, ap, Bool-cases, inl, inr}
use horseness.Store.Program.{Budget, is_limited, done}
use horseness.Store.Outcomes.{Post, ends, then_run-Post, act_lem}
use horseness.Store.Places.{Slot, absent, whole, present, old, stage, activate_missing}
use horseness.Store.Restore.{
  RestoreJournal, StoreChecks, is_there, verify_pair, finish_forward, remove_next, remove_journal,
}
use horseness.Store.Recovery.{Files, LiveIs, remove_database-Post, remove_artifacts-Post}

module _ {Database Artifacts : Type 0} (checks : StoreChecks Database Artifacts) where
  pub verify_pair-done :
      (a : Database) (b : Artifacts) (s : Slot Database) (t : Slot Artifacts) (n : Budget)
      (d : Files checks)
      → checks.verify_authority a b ≡ true
      → s ≡ whole a
      → t ≡ whole b
      → verify_pair checks s t n d ≡ done tt n d
  verify_pair-done a b s t n d v e f = rw (e, f, v) refl

  module _ (p : Database × Artifacts) (o : Option RestoreJournal) where
    abbrev pub LiveNow : Files checks → Type 0
    LiveNow d = (d.journal ≡ o) × LiveIs checks (some p) d

    pub finish_forward-Post :
        {l : Bool} (d : Files checks) (n : Budget)
        → is_limited n ≡ l
        → checks.verify_authority p.0 p.1 ≡ true
        → LiveNow d
        → Post l (λ _ e. LiveNow e) LiveNow (λ _. ⊥) (finish_forward checks n d)
    unfolding finish_forward activate_missing
    finish_forward-Post d n h v live_now =
        let (same, both) = live_now in
        rw
          (
            ap present both.0,
            ap present both.1,
            verify_pair-done p.0 p.1 d.database.live d.artifacts.live n d v both.0 both.1,
          )
          (then_run-Post _
            (remove_database-Post checks LiveNow false old d n h live_now live_now live_now)
            (λ _ m e i q.
              then_run-Post _ (remove_artifacts-Post checks LiveNow true old e m i q q q)
                (λ _ m e i q.
                  then_run-Post _ (remove_database-Post checks LiveNow false stage e m i q q q)
                    (λ _ m e i q. remove_artifacts-Post checks LiveNow true stage e m i q q q))))

  pub remove_next-Post :
      {l : Bool} (P : Files checks → Type 0) {Fault : Files checks → Type 0} (d : Files checks)
      (n : Budget)
      → is_limited n ≡ l
      → P d
      → P (record d { journal_next = absent })
      → Post l (λ _ e. P e) P Fault (remove_next checks n d)
  unfolding remove_next
  remove_next-Post P d n h c a = elim (Bool-cases (present d.journal_next)) [
    | inl b ↦ rw b (act_lem (λ e. record e { journal_next = absent }) n d h c a)
    | inr b ↦ rw b (ends h c)
  ]

  pub remove_journal-Post :
      {l : Bool} (Crash : Files checks → Type 0) {Fault : Files checks → Type 0}
      (j : RestoreJournal) (d : Files checks) (n : Budget)
      → is_limited n ≡ l
      → d.journal ≡ some j
      → Crash d
      → Post l (λ _ e. e ≡ record d { journal = none }) Crash Fault (remove_journal checks n d)
  unfolding remove_journal
  remove_journal-Post Crash j d n h e c =
      rw (ap is_there e) (act_lem (λ e. record e { journal = none }) n d h c refl)
