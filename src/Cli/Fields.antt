-- ===== src/Cli/Fields.antt =====
-- apps/cli/src/registry.ts: options that are written from named values, and read back.
use horseness.Common.{
  Option, none, some, List, [], ◌∷◌, ◌++◌, Bool, true, false, not, ◌&&◌, ◌||◌, any, map, ◌≡◌, refl,
  sym, ap, ◌∙◌, and-true, Bool-cases, inl, inr, if◌then◌else◌, arith,
}
use horseness.Common.Maps.{Entries, get, has}
use horseness.Domain.Canonical.{Text, text_beq, text_eq}
use horseness.Cli.Parser.{OptionValue, value, is_empty}
use horseness.Cli.Printing.{valued, has_equals, printable, not-true}

-- A text that is written under a name when there is one.
abbrev pub Field : Type 0
Field = Text × Option Text

abbrev pub collect : List Field → List (Text × Text)
collect [] = []
collect ((n, none) ∷ fs) = collect fs
collect ((n, some t) ∷ fs) = (n, t) ∷ collect fs

abbrev pub look : Text → List Field → Option Text
look k [] = none
look k ((n, o) ∷ fs) = let rest = look k fs in if text_beq n k then o else rest

abbrev pub found : Option Text → Option OptionValue
found none = none
found (some t) = some (value t)

-- Names that an option can have, each once.
abbrev pub fit : List Field → Bool
fit [] = true
fit (f ∷ fs) =
    not (is_empty f.0) && not (has_equals f.0) && not (any (λ g. text_beq g.0 f.0) fs) && fit fs

abbrev pub is_written : Option Text → Bool
is_written none = true
is_written (some t) = not (is_empty t)

abbrev pub are_written : List Field → Bool
are_written [] = true
are_written (f ∷ fs) = is_written f.1 && are_written fs

look-absent : (k : Text) (fs : List Field) → any (λ g. text_beq g.0 k) fs ≡ false → look k fs ≡ none
look-absent k [] h = refl
look-absent k ((n, o) ∷ fs) h = ground (arith, look-absent k fs)

pub get-collect :
    (k : Text) (fs : List Field)
    → fit fs ≡ true
    → get k (map valued (collect fs)) ≡ found (look k fs)
unfolding get
get-collect k [] h = refl
get-collect k ((n, none) ∷ fs) h =
    let (abc, later) = and-true _ (fit fs) h in
    let (ab, once) = and-true _ (not (any (λ g. text_beq g.0 n) fs)) abc in
    elim (Bool-cases (text_beq n k)) [
      | inl same ↦ rw same (
          get-collect k fs later
          ∙ ap found (
              look-absent k fs (
                ap (λ x. any (λ g. text_beq g.0 x) fs) (sym ((text_eq.beq_iff n k).0 same))
                ∙ not-true (any (λ g. text_beq g.0 n) fs) once)))
      | inr other ↦ rw other (get-collect k fs later)
    ]
get-collect k ((n, some t) ∷ fs) h =
    let (abc, later) = and-true _ (fit fs) h in
    elim (Bool-cases (text_beq n k)) [
      | inl same ↦ rw same refl
      | inr other ↦ rw other (get-collect k fs later)
    ]

has-append :
    (k j : Text) (v : OptionValue) (m : Entries Text OptionValue)
    → has k (m ++ (j, v) ∷ []) ≡ (has k m || text_beq j k)
unfolding has
has-append k j v [] = ground arith
has-append k j v ((i, w) ∷ m) = ground (arith, has-append k j v m)

text_beq_comm : (a b : Text) → text_beq a b ≡ text_beq b a
text_beq_comm a b = ground (arith, text_eq.beq_iff a b, text_eq.beq_iff b a)

-- None of the names is a key.
abbrev pub are_new : Entries Text OptionValue → List Field → Bool
are_new m [] = true
are_new m (f ∷ fs) = not (has f.0 m) && are_new m fs

are_new-append :
    (m : Entries Text OptionValue) (j : Text) (v : OptionValue) (fs : List Field)
    → are_new m fs ≡ true
    → any (λ g. text_beq g.0 j) fs ≡ false
    → are_new (m ++ (j, v) ∷ []) fs ≡ true
are_new-append m j v [] h k = refl
are_new-append m j v ((n, o) ∷ fs) h k =
    ground (arith, has-append n j v m, text_beq_comm n j, are_new-append m j v fs)

pub printable-collect :
    (m : Entries Text OptionValue) (fs : List Field)
    → fit fs ≡ true
    → are_written fs ≡ true
    → are_new m fs ≡ true
    → printable m (collect fs) ≡ true
printable-collect m [] h w n = refl
printable-collect m ((k, none) ∷ fs) h w n = ground (arith, printable-collect m fs)
printable-collect m ((k, some t) ∷ fs) h w n =
    ground (arith, are_new-append m k (value t) fs, printable-collect (m ++ valued (k, t) ∷ []) fs)
