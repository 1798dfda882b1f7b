-- ===== src/Store/Removal.antt =====
-- packages/store-sqlite/src/restore/index.ts: what is at the paths of a place when it is rolled back,
-- or when one of them is removed, whenever a crash comes.
use horseness.Common.{Option, none, some, Bool, true, false, ◌≡◌, refl, ap, ◌⊎◌, inl, inr}
use horseness.Store.Program.{Budget, is_limited, act}
use horseness.Store.Outcomes.{Post, ends, Post-map, then_run-Post, act-Post, act_lem}
use horseness.Store.Places.{
  Slot, absent, whole, torn, present, Place, Side, live, old, stage, at, put_at, remove_at,
  remove_path, rename_path, rollback_live,
}
use horseness.Store.Restore.{is_there}

put_at-put_at :
    {X : Type 0} (side : Side) (s t : Slot X) (p : Place X)
    → put_at side s (put_at side t p) ≡ put_at side s p
put_at-put_at live s t p = refl
put_at-put_at old s t p = refl
put_at-put_at stage s t p = refl

put_at-same :
    {X : Type 0} (side : Side) (s : Slot X) (p : Place X) → at side p ≡ s → p ≡ put_at side s p
put_at-same live s p h = λ i. record p { live = h i }
put_at-same old s p h = λ i. record p { old = h i }
put_at-same stage s p h = λ i. record p { stage = h i }

module _ {X : Type 0} {l : Bool} {Crash Fault : Place X → Type 0} where
  remove_at-Post :
      (recursive : Bool) (side : Side) (p : Place X) (n : Budget)
      → is_limited n ≡ l
      → Crash p
      → Crash (put_at side torn p)
      → Post l (λ _ q. q ≡ put_at side absent p) Crash Fault (remove_at recursive side n p)
  remove_at-Post false side p n h c t = act_lem (put_at side absent) n p h c refl
  remove_at-Post true side p n h c t =
      act-Post (put_at side torn) (λ _. act (put_at side absent)) n p h c
        (λ m k.
          act_lem (put_at side absent) m (put_at side torn p) k t
            (put_at-put_at side absent torn p))

  remove_if :
      (s : Slot X) (recursive : Bool) (side : Side) (p : Place X) (n : Budget)
      → at side p ≡ s
      → is_limited n ≡ l
      → Crash p
      → Crash (put_at side torn p)
      → Post l (λ _ q. q ≡ put_at side absent p) Crash Fault (remove_path recursive side n p)
  remove_if absent recursive side p n e h c t = rw e (ends h (put_at-same side absent p e))
  remove_if (whole x) recursive side p n e h c t = rw e (remove_at-Post recursive side p n h c t)
  remove_if torn recursive side p n e h c t = rw e (remove_at-Post recursive side p n h c t)

  -- A removal that a crash stops leaves the path as it was, or torn.
  pub remove_path-Post :
      (recursive : Bool) (side : Side) (p : Place X) (n : Budget)
      → is_limited n ≡ l
      → Crash p
      → Crash (put_at side torn p)
      → Post l (λ _ q. q ≡ put_at side absent p) Crash Fault (remove_path recursive side n p)
  remove_path-Post recursive side p n h c t = remove_if (at side p) recursive side p n refl h c t

  pub rename_path-Post :
      (recursive : Bool) (from to : Side) (p : Place X) (n : Budget)
      → is_limited n ≡ l
      → at to p ≡ absent
      → Crash p
      → Post l
          (λ _ q. q ≡ put_at from absent (put_at to (at from p) p))
          Crash
          Fault
          (rename_path recursive from to n p)
  rename_path-Post false from to p n h e c =
      act_lem (λ q. put_at from absent (put_at to (at from q) q)) n p h c refl
  rename_path-Post true from to p n h e c =
      rw e (act_lem (λ q. put_at from absent (put_at to (at from q) q)) n p h c refl)

-- A live path that holds a content, or nothing.
abbrev pub Live : {X : Type 0} → Option X → Slot X → Type 0
Live none s = s ≡ absent
Live (some x) s = s ≡ whole x

-- The content from before a restore is still there, live or moved aside.
abbrev pub Kept : {X : Type 0} → Option X → Place X → Type 0
Kept none p = p.old ≡ absent
Kept (some x) p = (p.old ≡ whole x) ⊎ ((p.old ≡ absent) × (p.live ≡ whole x))

rollback_there-Post :
    {X : Type 0} {l : Bool} (o : Option X) (recursive : Bool) (p : Place X) (n : Budget)
    → is_limited n ≡ l
    → Kept o p
    → Post l
        (λ _ q. (q.old ≡ absent) × Live o q.live)
        (Kept o)
        (λ _. ⊥)
        (rollback_live recursive (is_there o) n p)
unfolding rollback_live
rollback_there-Post none recursive p n h k = rw (ap present k) (
    Post-map (remove_path-Post {Crash = Kept none} recursive live p n h k k)
      (λ _ q e. rw e (k, refl)) (λ q c. c))
rollback_there-Post (some x) recursive p n h (inl k) = rw (ap present k) (
    then_run-Post (λ _. rename_path recursive old live)
      (remove_path-Post {Crash = Kept (some x)} recursive live p n h (inl k) (inl k))
      (λ _ m q i e. rw e (
        Post-map
          (rename_path-Post {Crash = Kept (some x)} recursive old live (put_at live absent p) m i
            refl (inl k))
          (λ _ r f. rw f (refl, k)) (λ r c. c))))
rollback_there-Post (some x) recursive p n h (inr k) = rw (ap present k.0) (ends h k)

pub rollback_live-Post :
    {X : Type 0} {l : Bool} (o : Option X) (recursive had : Bool) (p : Place X) (n : Budget)
    → is_limited n ≡ l
    → had ≡ is_there o
    → Kept o p
    → Post l
        (λ _ q. (q.old ≡ absent) × Live o q.live)
        (Kept o)
        (λ _. ⊥)
        (rollback_live recursive had n p)
rollback_live-Post o recursive had p n h e k = rw e (rollback_there-Post o recursive p n h k)
