-- ===== src/Cli/Registry.antt =====
-- apps/cli/src/registry.ts: the commands by their names and aliases.
use horseness.Common.{
  Option, none, some, List, [], ◌∷◌, Bool, true, not, ◌&&◌, ◌||◌, ◌==◌, leb, any, every, Result, ok,
  err, ◌>>◌, guard, if◌then◌else◌, ◌≡◌, ◌↔◌, refl, sym, ◌∙◌, arith, Bool-cases, inl, inr, >>=-eq-ok,
  Result-cases, guard-eq-ok,
}
use mathlib.Core.Path.{subst}
use horseness.Common.Maps.{Entries, get, put, has, get-put, get-has}
use horseness.Common.Splitting.{split}
use horseness.Domain.Canonical.{Text, text_beq, text_eq}
use horseness.Cli.Parser.{CliCommandDefinition, is_empty}

pub record CliCommandRegistry : Type 0 where
  pub definitions : Entries Text CliCommandDefinition
  pub names : Entries Text CliCommandDefinition

pub data RegistryError : Type 0 where
  ill_named : RegistryError
  duplicate_command : Text → RegistryError

abbrev pub names_of : CliCommandDefinition → List Text
names_of d = d.name ∷ d.aliases

-- `COMMAND_NAME`: words of parts of lower case letters and digits, with single spaces and hyphens.
abbrev is_part : Text → Bool
is_part t = not (is_empty t) && every (λ c. (leb 97 c && leb c 122) || (leb 48 c && leb c 57)) t

unfoldable pub is_command_name : Text → Bool
unfolding split
is_command_name t =
    every (λ word. every is_part (split 45 (λ c. c == 45) word)) (split 32 (λ c. c == 32) t)

-- The first name that stands before itself or is taken.
unfoldable pub find_duplicate :
    Entries Text CliCommandDefinition → List Text → List Text → Option Text
find_duplicate taken earlier [] = none
find_duplicate taken earlier (n ∷ ns) =
    let later : Option Text = find_duplicate taken (n ∷ earlier) ns in
    if any (text_beq n) earlier || has n taken then some n else later

unfoldable pub put_all :
    List Text
    → CliCommandDefinition
    → Entries Text CliCommandDefinition
    → Entries Text CliCommandDefinition
put_all [] d m = m
put_all (n ∷ ns) d m = put_all ns d (put n d m)

abbrev check_duplicate : Option Text → Result RegistryError (Unit {0})
check_duplicate none = ok tt
check_duplicate (some n) = err (duplicate_command n)

unfoldable pub register :
    CliCommandDefinition → CliCommandRegistry → Result RegistryError CliCommandRegistry
unfolding is_command_name find_duplicate put_all
register d r = do
  guard (every is_command_name (names_of d)) ill_named
  check_duplicate (find_duplicate r.names [] (names_of d))
  ok (record { definitions = put d.name d r.definitions; names = put_all (names_of d) d r.names })

unfoldable pub resolve_command : Text → CliCommandRegistry → Option CliCommandDefinition
resolve_command name r = get name r.names

abbrev kept : CliCommandRegistry → Result RegistryError CliCommandRegistry → CliCommandRegistry
kept r (ok s) = s
kept r (err e) = r

-- Definitions that are registered one by one; one that is refused leaves the registry as it was.
unfoldable pub register_all : List CliCommandDefinition → CliCommandRegistry → CliCommandRegistry
unfolding register
register_all [] r = r
register_all (d ∷ ds) r = register_all ds (kept r (register d r))

abbrev pub spells : CliCommandDefinition → Text → Bool
spells d name = any (λ n. text_beq n name) (names_of d)

-- A name is resolved exactly to the definition that stands under its own name and is spelled so.
pub record IsRegistry (r : CliCommandRegistry) : Type 0 where
  pub resolved :
      (name : Text) (d : CliCommandDefinition)
      → resolve_command name r ≡ some d
      → (get d.name r.definitions ≡ some d) × (spells d name ≡ true)
  pub spelled :
      (k name : Text) (d : CliCommandDefinition)
      → get k r.definitions ≡ some d
      → spells d name ≡ true
      → resolve_command name r ≡ some d

get-put_all :
    (name : Text) (ns : List Text) (d : CliCommandDefinition)
    (m : Entries Text CliCommandDefinition)
    → get name (put_all ns d m) ≡ (if any (λ n. text_beq n name) ns then some d else get name m)
unfolding put_all
get-put_all name [] d m = refl
get-put_all name (n ∷ ns) d m =
    ground (arith, get-put_all name ns d (put n d m), get-put n name d m)

find_duplicate-none :
    (taken : Entries Text CliCommandDefinition) (earlier ns : List Text) (name : Text)
    → find_duplicate taken earlier ns ≡ none
    → any (λ n. text_beq n name) ns ≡ true
    → get name taken ≡ none
unfolding find_duplicate
find_duplicate-none taken earlier [] name h k = cc
find_duplicate-none taken earlier (n ∷ ns) name h k = ground (
  arith,
  text_eq.beq_iff n name,
  get-has name taken,
  find_duplicate-none taken (n ∷ earlier) ns name,
)

spells-own : (d : CliCommandDefinition) (name : Text) → d.name ≡ name → spells d name ≡ true
spells-own d name h = ground (arith, text_eq.beq_iff d.name name)

register-resolved :
    (d e : CliCommandDefinition) (r : CliCommandRegistry) (name : Text)
    → IsRegistry r
    → find_duplicate r.names [] (names_of d) ≡ none
    → get name (put_all (names_of d) d r.names) ≡ some e
    → (get e.name (put d.name d r.definitions) ≡ some e) × (spells e name ≡ true)
unfolding resolve_command
register-resolved d e r name i new h = elim (Bool-cases (spells d name)) [
  | inl own ↦
      let same : some d ≡ some e =
        sym (get-put_all name (names_of d) d r.names ∙ rw own refl) ∙ h in
      let is : d ≡ e = cc in
      subst (λ x. (get x.name (put d.name d r.definitions) ≡ some x) × (spells x name ≡ true)) is
        (
          get-put d.name d.name d r.definitions ∙ rw ((text_eq.beq_iff d.name d.name).1 refl) refl,
          own,
        )
  | inr other ↦
      let old : resolve_command name r ≡ some e =
        sym (get-put_all name (names_of d) d r.names ∙ rw other refl) ∙ h in
      let (stored, spelled) = i.resolved name e old in
      (
        ground (
          arith,
          text_eq.beq_iff d.name e.name,
          get-put d.name e.name d r.definitions,
          find_duplicate-none r.names [] (names_of d) e.name new,
          i.spelled e.name e.name e stored (spells-own e e.name refl),
          spells-own d e.name,
        ),
        spelled,
      )
]

register-spelled :
    (d e : CliCommandDefinition) (r : CliCommandRegistry) (k name : Text)
    → IsRegistry r
    → find_duplicate r.names [] (names_of d) ≡ none
    → get k (put d.name d r.definitions) ≡ some e
    → spells e name ≡ true
    → get name (put_all (names_of d) d r.names) ≡ some e
unfolding resolve_command
register-spelled d e r k name i new h s = ground (
  arith,
  get-put d.name k d r.definitions,
  get-put_all name (names_of d) d r.names,
  find_duplicate-none r.names [] (names_of d) name new,
  i.spelled k name e,
)

check_duplicate-none : (o : Option Text) (u : Unit {0}) → check_duplicate o ≡ ok u → o ≡ none
check_duplicate-none none u h = refl
check_duplicate-none (some n) u h = cc

kept-IsRegistry :
    (d : CliCommandDefinition) (r : CliCommandRegistry)
    → IsRegistry r
    → IsRegistry (kept r (register d r))
unfolding register resolve_command get
kept-IsRegistry d r i = elim (Result-cases (register d r)) [
  | inr (e, h) ↦ subst (λ x. IsRegistry (kept r x)) (sym h) i
  | inl (s, h) ↦
      let (_, later) = guard-eq-ok (every is_command_name (names_of d)) ill_named h in
      let (u, none_found, stored) =
        >>=-eq-ok (check_duplicate (find_duplicate r.names [] (names_of d))) _ later in
      let new = check_duplicate-none (find_duplicate r.names [] (names_of d)) u none_found in
      subst (λ x. IsRegistry (kept r x)) (sym (h ∙ sym stored))
        (record {
          resolved = λ name e. register-resolved d e r name i new;
          spelled = λ k name e. register-spelled d e r k name i new;
        })
]

register_all-IsRegistry :
    (ds : List CliCommandDefinition) (r : CliCommandRegistry)
    → IsRegistry r
    → IsRegistry (register_all ds r)
unfolding register_all
register_all-IsRegistry [] r i = i
register_all-IsRegistry (d ∷ ds) r i =
    register_all-IsRegistry ds (kept r (register d r)) (kept-IsRegistry d r i)

abbrev pub empty : CliCommandRegistry
empty = record { definitions = []; names = [] }

empty-IsRegistry : IsRegistry empty
unfolding resolve_command get
empty-IsRegistry = record { resolved = λ name d h. cc; spelled = λ k name d h s. cc }

-- Whatever is registered, accepted or refused, a name is resolved to a definition exactly when that
-- definition is stored under its own name and is spelled so, by its name or by an alias.
pub register_all-resolve_command :
    (ds : List CliCommandDefinition) (name : Text) (d : CliCommandDefinition)
    → (resolve_command name (register_all ds empty) ≡ some d)
      ↔ ((get d.name (register_all ds empty).definitions ≡ some d) × (spells d name ≡ true))
register_all-resolve_command ds name d =
    let i : IsRegistry (register_all ds empty) =
      register_all-IsRegistry ds empty empty-IsRegistry in
    (i.resolved name d, λ h. i.spelled d.name name d h.0 h.1)
