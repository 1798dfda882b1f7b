-- ===== src/Store/Outcomes.antt =====
-- What holds of a program however it ends.
use horseness.Common.{zero, suc, Bool, true, false, ◌≡◌, refl, sym}
use horseness.Store.Program.{
  Budget, unlimited, limited, is_limited, Run, done, crashed, failed, Program, then_run, ◌>>=◌, act,
  within, require,
}

-- `After` of the value and the files at the end, `Crash` of the files after a crash, which only a
-- limited budget has, and `Fault` of the files after an error.
pub data Post {S E A : Type 0} (l : Bool) (After : A → S → Type 0) (Crash Fault : S → Type 0)
    : Run S E A → Type 0 where
  ends :
      {a : A} {n : Budget} {s : S}
      → is_limited n ≡ l
      → After a s
      → Post l After Crash Fault (done a n s)
  stops : {s : S} → l ≡ true → Crash s → Post l After Crash Fault (crashed s)
  throws : {e : E} {s : S} → Fault s → Post l After Crash Fault (failed e s)

module _ {S E : Type 0} {l : Bool} {Crash Fault : S → Type 0} where
  pub then_run-Post :
      {A B : Type 0} {Mid : A → S → Type 0} {After : B → S → Type 0} {r : Run S E A}
      (f : A → Program S E B)
      → Post l Mid Crash Fault r
      → ((a : A) (n : Budget) (s : S)
          → is_limited n ≡ l
          → Mid a s
          → Post l After Crash Fault (f a n s))
      → Post l After Crash Fault (then_run r f)
  then_run-Post f (ends {a} {n} {s} h m) k = k a n s h m
  then_run-Post f (stops h c) k = stops h c
  then_run-Post f (throws x) k = throws x

  -- A write leaves the files as they were when the crash comes before it.
  pub act-Post :
      {A : Type 0} {After : A → S → Type 0} (write : S → S) (f : Unit {0} → Program S E A)
      (n : Budget) (s : S)
      → is_limited n ≡ l
      → Crash s
      → ((m : Budget) → is_limited m ≡ l → Post l After Crash Fault (f tt m (write s)))
      → Post l After Crash Fault ((act write >>= f) n s)
  act-Post write f unlimited s h c k = k unlimited h
  act-Post write f (limited zero) s h c k = stops (sym h) c
  act-Post write f (limited (suc n)) s h c k = k (limited n) h

  pub act_lem :
      {After : Unit {0} → S → Type 0} (write : S → S) (n : Budget) (s : S)
      → is_limited n ≡ l
      → Crash s
      → After tt (write s)
      → Post l After Crash Fault (act {E = E} write n s)
  act_lem write unlimited s h c a = ends h a
  act_lem write (limited zero) s h c a = stops (sym h) c
  act_lem write (limited (suc n)) s h c a = ends h a

pub require-Post :
    {S E A : Type 0} {l : Bool} {After : A → S → Type 0} {Crash Fault : S → Type 0} (c : Bool)
    (x : E) (f : Unit {0} → Program S E A) (n : Budget) (s : S)
    → Fault s
    → (c ≡ true → Post l After Crash Fault (f tt n s))
    → Post l After Crash Fault ((require c x >>= f) n s)
require-Post true x f n s h k = k refl
require-Post false x f n s h k = throws h

pub require_only-Post :
    {S E : Type 0} {l : Bool} {After : Unit {0} → S → Type 0} {Crash Fault : S → Type 0} (c : Bool)
    (x : E) (n : Budget) (s : S)
    → is_limited n ≡ l
    → Fault s
    → After tt s
    → Post l After Crash Fault (require c x n s)
require_only-Post true x n s h f a = ends h a
require_only-Post false x n s h f a = throws f

pub Post-map :
    {S E A : Type 0} {l : Bool} {Mid After : A → S → Type 0} {Crash Crash' Fault : S → Type 0}
    {r : Run S E A}
    → Post l Mid Crash Fault r
    → ((a : A) (s : S) → Mid a s → After a s)
    → ((s : S) → Crash s → Crash' s)
    → Post l After Crash' Fault r
Post-map (ends {a = a} {s = s} h m) f g = ends h (f a s m)
Post-map (stops {s = s} h c) f g = stops h (g s c)
Post-map (throws x) f g = throws x

pub Post-fault :
    {S E A : Type 0} {l : Bool} {After : A → S → Type 0} {Crash Fault Fault' : S → Type 0}
    {r : Run S E A}
    → Post l After Crash Fault r
    → ((s : S) → Fault s → Fault' s)
    → Post l After Crash Fault' r
Post-fault (ends h a) f = ends h a
Post-fault (stops h c) f = stops h c
Post-fault (throws {s = s} x) f = throws (f s x)

pub Post-never :
    {S E A : Type 0} {l : Bool} {After : A → S → Type 0} {Crash Fault : S → Type 0} {r : Run S E A}
    → Post l After Crash (λ _. ⊥) r
    → Post l After Crash Fault r
Post-never (ends h a) = ends h a
Post-never (stops h c) = stops h c
Post-never (throws x) = absurd x

-- A program on a part keeps what holds of the whole when the part is put back.
pub within-Post :
    {S T E A : Type 0} {l : Bool} (part : S → T) (with : S → T → S) {After : A → T → Type 0}
    {Crash Fault : T → Type 0} {After_all : A → S → Type 0} {Crash_all Fault_all : S → Type 0}
    {r : Run T E A} (s : S)
    → Post l After Crash Fault r
    → ((a : A) (t : T) → After a t → After_all a (with s t))
    → ((t : T) → Crash t → Crash_all (with s t))
    → ((t : T) → Fault t → Fault_all (with s t))
    → Post l After_all Crash_all Fault_all (within part with s r)
within-Post part with s (ends {a = a} {s = t} h x) f g k = ends h (f a t x)
within-Post part with s (stops {s = t} h x) f g k = stops h (g t x)
within-Post part with s (throws {s = t} x) f g k = throws (k t x)
