-- ===== src/Domain/Forks/Lineage.antt =====
-- What a chain of fork pins keeps.
use horseness.Common.{
  ◌+◌, String, Option, none, some, List, [], ◌∷◌, ◌++◌, map, true, ◌&&◌, str_eq_iff, distinct,
  string_eq, ok, >>=-eq-ok, guard-eq-ok, ◌≡◌, refl, sym, ap, ◌∙◌, ◌⊎◌, ◌≢◌, arith, ◌==◌,
}
use mathlib.Core.List.{map-append}
use horseness.Common.Sort.{All, All-append, All-map}
use horseness.Domain.Forks.{
  invalid_fork_lineage, ForkPinCore, SealedForkPin, validate_fork_pin_core, seal_fork_pin,
  verify_fork_pin, continues, create_fork_pin, opt_beq, is_null,
}

opt_beq-some : (a : Option String) (b : String) → opt_beq a (some b) ≡ true → a ≡ some b
opt_beq-some none b h = cc
opt_beq-some (some a) b h = ap some ((str_eq_iff a b).0 h)

-- A refresh is the next version of the parent's fork, and any other child is the first version of
-- another fork.
abbrev pub Continues : ForkPinCore → SealedForkPin → Type 0
Continues core parent =
    (core.parent_fork_pin_digest ≡ some parent.fork_pin_digest)
    × (core.workspace_id ≡ parent.core.workspace_id)
    × (core.run_id ≡ parent.core.run_id)
    × (((core.refreshes_fork_pin_digest ≡ some parent.fork_pin_digest)
          × (core.fork_id ≡ parent.core.fork_id)
          × (core.pin_version ≡ parent.core.pin_version + 1))
        ⊎ ((core.refreshes_fork_pin_digest ≡ none)
            × (core.fork_id ≢ parent.core.fork_id)
            × (core.pin_version ≡ 1)))

continues-Continues :
    (core : ForkPinCore) (parent : SealedForkPin)
    → continues core parent ≡ ok tt
    → Continues core parent
unfolding continues
continues-Continues core parent h = ground (
  arith,
  opt_beq-some core.parent_fork_pin_digest parent.fork_pin_digest,
  opt_beq-some core.refreshes_fork_pin_digest parent.fork_pin_digest,
  str_eq_iff core.workspace_id parent.core.workspace_id,
  str_eq_iff core.run_id parent.core.run_id,
  str_eq_iff core.fork_id parent.core.fork_id,
)

validate-distinct :
    (core : ForkPinCore) → validate_fork_pin_core core ≡ ok tt → distinct core.ancestry ≡ true
unfolding validate_fork_pin_core
validate-distinct core h = ground arith

module _ (digest : ForkPinCore → String) (identity : String → String) where
  -- A sealed pin is its core with the core's digest, and the core is valid.
  pub seal_fork_pin-eq-ok :
      (core : ForkPinCore) (pin : SealedForkPin)
      → seal_fork_pin digest identity core ≡ ok pin
      → (validate_fork_pin_core core ≡ ok tt)
        × (pin ≡ record {
          core = core;
          fork_pin_digest = digest core;
          fork_pin_id = identity (digest core);
        })
  unfolding seal_fork_pin
  seal_fork_pin-eq-ok core pin h =
      let (u, valid, same) = >>=-eq-ok (validate_fork_pin_core core) _ h in ground arith

  -- What is sealed is verified.
  pub verify_fork_pin-seal_fork_pin :
      (core : ForkPinCore) (pin : SealedForkPin)
      → seal_fork_pin digest identity core ≡ ok pin
      → verify_fork_pin digest identity pin ≡ ok tt
  unfolding verify_fork_pin
  verify_fork_pin-seal_fork_pin core pin h =
      let (valid, same) = seal_fork_pin-eq-ok core pin h in
      let d : pin.fork_pin_digest ≡ digest core = ap (λ p. p.fork_pin_digest) same in
      let i : pin.fork_pin_id ≡ identity (digest core) = ap (λ p. p.fork_pin_id) same in
      rw (same, h, (str_eq_iff _ _).1 d, (str_eq_iff _ _).1 i) refl

  pub create-root :
      (core : ForkPinCore) (pin : SealedForkPin)
      → create_fork_pin digest identity core none ≡ ok pin
      → seal_fork_pin digest identity (record core { ancestry = [] }) ≡ ok pin
  unfolding create_fork_pin
  create-root core pin h =
      (guard-eq-ok
        (is_null core.parent_fork_pin_digest
          && is_null core.refreshes_fork_pin_digest
          && core.pin_version == 1)
        invalid_fork_lineage h).1

  pub create-child :
      (core : ForkPinCore) (parent pin : SealedForkPin)
      → create_fork_pin digest identity core (some parent) ≡ ok pin
      → Continues core parent
        × (seal_fork_pin digest identity
              (record core { ancestry = parent.core.ancestry ++ parent.fork_pin_digest ∷ [] })
            ≡ ok pin)
  unfolding create_fork_pin
  create-child core parent pin h =
      let (u, checked, h1) = >>=-eq-ok (verify_fork_pin digest identity parent) _ h in
      let (v, lineage, h2) = >>=-eq-ok (continues core parent) _ h1 in
      (continues-Continues core parent lineage, h2)

  -- The pins that a pin descends from, the oldest first.
  pub data Descends : SealedForkPin → List SealedForkPin → Type 0 where
    root :
        (core : ForkPinCore) (pin : SealedForkPin)
        → create_fork_pin digest identity core none ≡ ok pin
        → Descends pin []
    child :
        (core : ForkPinCore) (pin parent : SealedForkPin) (ancestors : List SealedForkPin)
        → Descends parent ancestors
        → create_fork_pin digest identity core (some parent) ≡ ok pin
        → Descends pin (ancestors ++ parent ∷ [])

  abbrev pub digest_of : SealedForkPin → String
  digest_of pin = pin.fork_pin_digest

  abbrev pub SameRun : SealedForkPin → SealedForkPin → Type 0
  SameRun pin other =
      (other.core.workspace_id ≡ pin.core.workspace_id) × (other.core.run_id ≡ pin.core.run_id)

  -- What a pin keeps of the pins that it descends from.
  pub record Follows (pin : SealedForkPin) (ancestors : List SealedForkPin) : Type 0 where
    pub verified : verify_fork_pin digest identity pin ≡ ok tt
    pub ancestry : pin.core.ancestry ≡ map digest_of ancestors
    pub unrepeated : distinct pin.core.ancestry ≡ true
    pub same_run : All (SameRun pin) ancestors

  -- However long the chain of creations and refreshes that led to a pin, it is verified, its ancestry
  -- lists the digests of the pins that it descends from, the oldest first and none twice, and all of
  -- them are of its workspace and its run.
  pub Descends-Follows :
      (pin : SealedForkPin) (ancestors : List SealedForkPin)
      → Descends pin ancestors
      → Follows pin ancestors
  unfolding distinct
  Descends-Follows pin ancestors (root core _ h) =
      let sealed : _ = create-root core pin h in
      let facts : _ = seal_fork_pin-eq-ok _ pin sealed in
      record {
        verified = verify_fork_pin-seal_fork_pin _ pin sealed;
        ancestry = ap (λ p. p.core.ancestry) facts.1;
        unrepeated = rw (facts.1) refl;
        same_run = tt;
      }
  Descends-Follows pin ancestors (child core _ parent older d h) =
      let before : _ = Descends-Follows parent older d in
      let (continued, sealed) = create-child core parent pin h in
      let facts : _ = seal_fork_pin-eq-ok _ pin sealed in
      let same : SameRun pin parent = rw (facts.1) (sym (continued.1), sym (continued.2)) in
      record {
        verified = verify_fork_pin-seal_fork_pin _ pin sealed;
        ancestry =
            ap (λ p. p.core.ancestry) facts.1
            ∙ (ap (λ names. names ++ parent.fork_pin_digest ∷ []) before.ancestry
                ∙ sym (map-append digest_of older (parent ∷ [])));
        unrepeated = rw (facts.1) (validate-distinct _ facts.0);
        same_run =
            All-append (SameRun pin) older (parent ∷ [])
              (All-map (λ other r. (r.0 ∙ same.0, r.1 ∙ same.1)) older before.same_run) (same, tt);
      }
