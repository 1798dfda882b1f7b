-- ===== src/Tests/Forks.antt =====
-- A pin and its refresh, of packages/domain/src/context.ts, with digests that name the state.
use horseness.Common.{
  String, none, some, [], ◌∷◌, ok, ◌≡◌, ◌↔◌, true, false, refl, distinct, member, str_eq, truthy,
  string_eq,
}
use horseness.Domain.Forks.{
  CompositeCursor, composite, PinChanges, ForkPinCore, SealedForkPin, cursor_beq, last,
  validate_fork_pin_core, seal_fork_pin, verify_fork_pin, continues, create_fork_pin,
  refresh_fork_pin, context_ok,
}
use horseness.Domain.Forks.Refresh.{refreshed_core, sealed_of, refresh_fork_pin_lem}
use horseness.Domain.Forks.Lineage.{
  Descends, root, child, Follows, Descends-Follows, verify_fork_pin-seal_fork_pin,
}

abbrev state_of : ForkPinCore → String
state_of core = core.content.canonical_state_hash

abbrev itself : String → String
itself digest = digest

abbrev cursor : CompositeCursor
cursor = record {
  workspace_id = "w";
  workspace_sequence = 4;
  workspace_envelope_hash = "wh";
  workspace_context_epoch = 1;
  run_id = "r";
  run_sequence = 2;
  run_envelope_hash = "rh";
  run_context_epoch = 1;
}

abbrev first_content : PinChanges
first_content = record {
  canonical_revision = 0;
  canonical_state_hash = "state 0";
  source_observation_cursor = cursor;
  source_context_version = composite 1 1 cursor;
  dependency_join_snapshot_digest = "join";
  delta_authority_scope_digest = "scope";
  pinned_policy_digest = "policy";
  created_by_principal_id = "p";
  created_by_grant_digest = "g";
}

abbrev first_core : ForkPinCore
first_core = record {
  fork_id = "f";
  pin_version = 1;
  workspace_id = "w";
  run_id = "r";
  parent_fork_pin_digest = none;
  refreshes_fork_pin_digest = none;
  content = first_content;
  ancestry = [];
}

abbrev first_pin : SealedForkPin
first_pin = record { core = first_core; fork_pin_digest = "state 0"; fork_pin_id = "state 0" }

abbrev second_content : PinChanges
second_content = record first_content { canonical_revision = 1; canonical_state_hash = "state 1" }

abbrev second_core : ForkPinCore
second_core = record first_core {
  pin_version = 2;
  parent_fork_pin_digest = some "state 0";
  refreshes_fork_pin_digest = some "state 0";
  content = second_content;
  ancestry = "state 0" ∷ [];
}

abbrev second_pin : SealedForkPin
second_pin = record { core = second_core; fork_pin_digest = "state 1"; fork_pin_id = "state 1" }

sealed : seal_fork_pin state_of itself second_core ≡ ok second_pin
unfolding seal_fork_pin validate_fork_pin_core cursor_beq last distinct member str_eq truthy
sealed = refl

first_sealed : seal_fork_pin state_of itself first_core ≡ ok first_pin
unfolding seal_fork_pin validate_fork_pin_core cursor_beq last distinct str_eq truthy
first_sealed = refl

refreshed : create_fork_pin state_of itself second_core (some first_pin) ≡ ok second_pin
unfolding create_fork_pin continues verify_fork_pin seal_fork_pin validate_fork_pin_core cursor_beq
    last distinct member str_eq truthy
refreshed = refl

created : create_fork_pin state_of itself first_core none ≡ ok first_pin
unfolding create_fork_pin seal_fork_pin validate_fork_pin_core cursor_beq last distinct str_eq
    truthy
created = refl

chain : Descends state_of itself second_pin (first_pin ∷ [])
chain = child second_core second_pin first_pin [] (root first_core first_pin created) refreshed

Descends-Follows_example : Follows state_of itself second_pin (first_pin ∷ [])
Descends-Follows_example = Descends-Follows state_of itself second_pin (first_pin ∷ []) chain

verified : verify_fork_pin state_of itself first_pin ≡ ok tt
verified = verify_fork_pin-seal_fork_pin state_of itself first_core first_pin first_sealed

refresh_fork_pin_lem_example :
    (refresh_fork_pin state_of itself first_pin second_content
      ≡ ok (sealed_of state_of itself (refreshed_core first_pin second_content)))
    ↔ ((context_ok second_content.source_context_version second_content.source_observation_cursor
          ≡ true)
        × (member first_pin.fork_pin_digest first_pin.core.ancestry ≡ false))
refresh_fork_pin_lem_example =
    refresh_fork_pin_lem state_of itself first_pin second_content verified
