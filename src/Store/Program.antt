-- ===== src/Store/Program.antt =====
-- Programs over files that a crash may stop before any of their writes: the injector of crashes of
-- packages/store-sqlite/src/restore/index.ts, as the number of writes until the crash.
use horseness.Common.{ℕ, zero, suc, Bool, true, false}

pub data Budget : Type 0 where
  unlimited : Budget
  limited : ℕ → Budget

abbrev pub is_limited : Budget → Bool
is_limited unlimited = false
is_limited (limited n) = true

-- How a run ends: with a value, by the crash, or by an error; and the state of the files then.
pub data Run {ℓ} (S : Type 0) (E : Type 0) (A : Type ℓ) : Type ℓ where
  done : A → Budget → S → Run S E A
  crashed : S → Run S E A
  failed : E → S → Run S E A

abbrev pub Program {ℓ} : Type 0 → Type 0 → Type ℓ → Type ℓ
Program S E A = Budget → S → Run S E A

abbrev pub then_run {ℓ κ} :
    {S E : Type 0} {A : Type ℓ} {B : Type κ} → Run S E A → (A → Program S E B) → Run S E B
then_run (done a n s) f = f a n s
then_run (crashed s) f = crashed s
then_run (failed e s) f = failed e s

infixl 5 ◌>>=◌ ◌>>◌
abbrev pub ◌>>=◌ {ℓ κ} :
    {S E : Type 0} {A : Type ℓ} {B : Type κ} → Program S E A → (A → Program S E B) → Program S E B
(m >>= f) n s = then_run (m n s) f

abbrev pub ◌>>◌ {ℓ} :
    {S E : Type 0} {B : Type ℓ} → Program S E (Unit {0}) → Program S E B → Program S E B
m >> k = m >>= λ _. k

module _ {S E : Type 0} where
  abbrev pub pure {ℓ} : {A : Type ℓ} → A → Program S E A
  pure a n s = done a n s

  abbrev pub look : Program S E S
  look n s = done s n s

  abbrev pub fail {ℓ} : {A : Type ℓ} → E → Program S E A
  fail e n s = failed e s

  -- One write.
  abbrev pub act : (S → S) → Program S E (Unit {0})
  act write unlimited s = done tt unlimited (write s)
  act write (limited zero) s = crashed s
  act write (limited (suc n)) s = done tt (limited n) (write s)

  abbrev pub require : Bool → E → Program S E (Unit {0})
  require true e = pure tt
  require false e = fail e

-- The files when a run ends, and whether it came to its end.
abbrev pub left {ℓ} : {S E : Type 0} {A : Type ℓ} → Run S E A → S
left (done a n s) = s
left (crashed s) = s
left (failed e s) = s

abbrev pub is_done {ℓ} : {S E : Type 0} {A : Type ℓ} → Run S E A → Bool
is_done (done a n s) = true
is_done _ = false

-- A program on a part of the files.
module _ {S T E : Type 0} (part : S → T) (with : S → T → S) where
  abbrev pub within {ℓ} : {A : Type ℓ} → S → Run T E A → Run S E A
  within s (done a n t) = done a n (with s t)
  within s (crashed t) = crashed (with s t)
  within s (failed e t) = failed e (with s t)

  abbrev pub zoom {ℓ} : {A : Type ℓ} → Program T E A → Program S E A
  zoom m n s = within s (m n (part s))
