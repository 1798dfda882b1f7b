-- ===== src/Domain/Forks/Refresh.antt =====
-- When `refreshForkPin` gives a new pin.
use horseness.Common.{
  ◌+◌, String, some, List, [], ◌∷◌, ◌++◌, true, false, str_eq_iff, distinct-append, member,
  string_eq, ok, >>=-eq-ok, ◌≡◌, refl, ◌↔◌, arith,
}
use horseness.Domain.Forks.{
  ForkPinCore, SealedForkPin, PinChanges, validate_fork_pin_core, seal_fork_pin, verify_fork_pin,
  continues, create_fork_pin, refresh_fork_pin, last, context_ok,
}

last-append : (xs : List String) (x : String) → last (xs ++ x ∷ []) ≡ some x
unfolding last
last-append [] x = refl
last-append (y ∷ []) x = refl
last-append (y ∷ z ∷ zs) x = last-append (z ∷ zs) x

-- The core that a refresh asks for, and the one that it seals.
abbrev pub requested_core : SealedForkPin → PinChanges → ForkPinCore
requested_core parent changes = record {
  fork_id = parent.core.fork_id;
  pin_version = parent.core.pin_version + 1;
  workspace_id = parent.core.workspace_id;
  run_id = parent.core.run_id;
  parent_fork_pin_digest = some parent.fork_pin_digest;
  refreshes_fork_pin_digest = some parent.fork_pin_digest;
  content = changes;
  ancestry = [];
}

abbrev pub refreshed_core : SealedForkPin → PinChanges → ForkPinCore
refreshed_core parent changes = record (requested_core parent changes) {
  ancestry = parent.core.ancestry ++ parent.fork_pin_digest ∷ [];
}

continues-refreshed :
    (parent : SealedForkPin) (changes : PinChanges)
    → continues (requested_core parent changes) parent ≡ ok tt
unfolding continues
continues-refreshed parent changes = ground (
  arith,
  str_eq_iff parent.fork_pin_digest parent.fork_pin_digest,
  str_eq_iff parent.core.workspace_id parent.core.workspace_id,
  str_eq_iff parent.core.run_id parent.core.run_id,
  str_eq_iff parent.core.fork_id parent.core.fork_id,
)

validate-refreshed :
    (parent : SealedForkPin) (changes : PinChanges)
    → validate_fork_pin_core parent.core ≡ ok tt
    → (validate_fork_pin_core (refreshed_core parent changes) ≡ ok tt) ↔ (
        (context_ok changes.source_context_version changes.source_observation_cursor ≡ true)
        × (member parent.fork_pin_digest parent.core.ancestry ≡ false))
unfolding validate_fork_pin_core
validate-refreshed parent changes v = ground (
  arith,
  last-append parent.core.ancestry parent.fork_pin_digest,
  distinct-append parent.fork_pin_digest parent.core.ancestry,
  str_eq_iff parent.fork_pin_digest parent.fork_pin_digest,
)

module _ (digest : ForkPinCore → String) (identity : String → String) where
  abbrev pub sealed_of : ForkPinCore → SealedForkPin
  sealed_of core = record {
    core = core;
    fork_pin_digest = digest core;
    fork_pin_id = identity (digest core);
  }

  seal_fork_pin_iff :
      (core : ForkPinCore)
      → (seal_fork_pin digest identity core ≡ ok (sealed_of core))
        ↔ (validate_fork_pin_core core ≡ ok tt)
  unfolding seal_fork_pin
  seal_fork_pin_iff core = (λ h. (>>=-eq-ok (validate_fork_pin_core core) _ h).1, λ v. rw v refl)

  verify-valid :
      (pin : SealedForkPin)
      → verify_fork_pin digest identity pin ≡ ok tt
      → validate_fork_pin_core pin.core ≡ ok tt
  unfolding verify_fork_pin seal_fork_pin
  verify-valid pin h =
      let sealed : _ = >>=-eq-ok (seal_fork_pin digest identity pin.core) _ h in
      (>>=-eq-ok (validate_fork_pin_core pin.core) _ sealed.1).1

  -- A verified pin is refreshed to the next version of its fork, sealed behind it in the ancestry,
  -- exactly when the changes hold the composite context version of their cursor and the digest of
  -- the pin is not in the ancestry already.
  pub refresh_fork_pin_lem :
      (parent : SealedForkPin) (changes : PinChanges)
      → verify_fork_pin digest identity parent ≡ ok tt
      → (refresh_fork_pin digest identity parent changes
          ≡ ok (sealed_of (refreshed_core parent changes)))
        ↔ ((context_ok changes.source_context_version changes.source_observation_cursor ≡ true)
            × (member parent.fork_pin_digest parent.core.ancestry ≡ false))
  unfolding refresh_fork_pin create_fork_pin
  refresh_fork_pin_lem parent changes v =
      let next : _ = validate-refreshed parent changes (verify-valid parent v) in
      let seals : _ = seal_fork_pin_iff (refreshed_core parent changes) in
      rw (v, continues-refreshed parent changes) (λ h. next.0 (seals.0 h), λ h. seals.1 (next.1 h))
