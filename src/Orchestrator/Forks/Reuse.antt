-- ===== src/Orchestrator/Forks/Reuse.antt =====
-- packages/orchestrator/src/forks/fork-registry.ts: a fork is reused as it was created.
use horseness.Common.{
  String, none, some, [], true, not, ◌&&◌, str_eq_iff, string_eq, truthy, ok, >>=-eq-ok,
  guard-eq-ok, ok_injective, ◌≡◌, refl, sym, ap, ◌∙◌, arith,
}
use horseness.Common.Maps.{get, has, get-put}
use horseness.Domain.Forks.{
  CompositeCursor, ContextVersion, workspace_only, run_only, composite, cursor_beq, is_null,
  PinChanges, ForkPinCore, SealedForkPin, create_fork_pin,
}
use horseness.Domain.Forks.Lineage.{seal_fork_pin-eq-ok, create-root}
use horseness.Orchestrator.Forks.{
  fork_identity_continuity, ForkProjection, ForkAuthorityCapability, ForkAuthorityContext,
  ForkDigests, check_authority, version_beq, lift_pin,
}
use horseness.Orchestrator.Forks.Registry.{
  pin_at, active_pin, identities_of, authenticate, scope_digest, pin_input, store,
  create_projected_fork, check_reuse, reuse_projected_fork,
}
use horseness.Orchestrator.Forks.Stored.{IsSealed, lift_pin-eq-ok, created-IsSealed}

cursor_beq_refl : (c : CompositeCursor) → cursor_beq c c ≡ true
unfolding cursor_beq
cursor_beq_refl c = ground (
  arith,
  str_eq_iff c.workspace_id c.workspace_id,
  str_eq_iff c.workspace_envelope_hash c.workspace_envelope_hash,
  str_eq_iff c.run_id c.run_id,
  str_eq_iff c.run_envelope_hash c.run_envelope_hash,
)

version_beq_refl : (v : ContextVersion) → version_beq v v ≡ true
unfolding version_beq
version_beq_refl (workspace_only w c) = ground (
  arith,
  str_eq_iff c.workspace_id c.workspace_id,
  str_eq_iff c.workspace_envelope_hash c.workspace_envelope_hash,
)
version_beq_refl (run_only r c) = ground (
  arith,
  str_eq_iff c.workspace_id c.workspace_id,
  str_eq_iff c.run_id c.run_id,
  str_eq_iff c.run_envelope_hash c.run_envelope_hash,
)
version_beq_refl (composite w r c) = ground (arith, cursor_beq_refl c)

-- A capability with the same context, but for the digest of the pin that is expected to be active.
abbrev pub expecting : ForkAuthorityCapability → String → ForkAuthorityCapability
expecting c digest = record c {
  context = record c.context {
    authorization = record c.context.authorization {
      expected_active_fork_pin_digest = some digest;
    };
  };
}

-- The check does not read that digest.
check_authority-expecting :
    (c : ForkAuthorityCapability) (digest : String)
    → check_authority (expecting c digest) ≡ check_authority c
unfolding check_authority
check_authority-expecting c digest = refl

module _ (digests : ForkDigests) where
  store-active :
      (s : ForkProjection) (p : SealedForkPin) (i : _)
      → (get p.core.fork_id (store digests s p i).active_by_fork_id ≡ some p.fork_pin_digest)
        × (get p.fork_pin_digest (store digests s p i).pins ≡ some p)
        × (get p.fork_pin_digest (store digests s p i).authority_snapshots_by_pin ≡ some i)
  unfolding store
  store-active s p i =
      let fork : _ = (str_eq_iff p.core.fork_id p.core.fork_id).1 refl in
      let digest : _ = (str_eq_iff p.fork_pin_digest p.fork_pin_digest).1 refl in
      (
        rw (get-put p.core.fork_id p.core.fork_id p.fork_pin_digest s.active_by_fork_id, fork) refl,
        rw (get-put p.fork_pin_digest p.fork_pin_digest p s.pins, digest) refl,
        rw (get-put p.fork_pin_digest p.fork_pin_digest i s.authority_snapshots_by_pin, digest)
            refl,
      )

  -- The core that a creation asks for.
  abbrev new_core : String → ForkAuthorityContext → PinChanges → ForkPinCore
  new_core fork_id c input = record {
    fork_id = fork_id;
    pin_version = 1;
    workspace_id = c.source.workspace_id;
    run_id = c.source.run_id;
    parent_fork_pin_digest = none;
    refreshes_fork_pin_digest = none;
    content = input;
    ancestry = [];
  }

  -- What a creation has checked, and what it gives.
  record Created (s t : ForkProjection) (p : SealedForkPin) (fork : String)
      (c : ForkAuthorityCapability) : Type 0 where
    pub authority : check_authority c ≡ ok tt
    pub input : PinChanges
    pub read : pin_input digests c.context ≡ ok input
    pub core : p.core ≡ new_core fork c.context input
    pub sealed : IsSealed digests p
    pub stored : t ≡ store digests s p (identities_of digests c.context)

  create-Created :
      (s t : ForkProjection) (p : SealedForkPin) (fork : String) (c : ForkAuthorityCapability)
      → create_projected_fork digests s fork c ≡ ok (t, p)
      → Created s t p fork c
  unfolding create_projected_fork authenticate
  create-Created s t p fork c h =
      let (i, a, h1) = >>=-eq-ok (authenticate digests c) _ h in
      let (u, checked, same) = >>=-eq-ok (check_authority c) _ a in
      let (h2, h3) =
        guard-eq-ok
          (not (has fork s.active_by_fork_id)
            && is_null c.context.authorization.expected_active_fork_pin_digest)
          fork_identity_continuity h1 in
      let (input, b, h4) = >>=-eq-ok (pin_input digests c.context) _ h3 in
      let (q, made, done) =
        >>=-eq-ok
          (lift_pin
            (create_fork_pin digests.pin digests.identity (new_core fork c.context input) none))
          _ h4 in
      let created : _ = lift_pin-eq-ok _ q made in
      let is : q ≡ p = ap (λ r. r.1) (ok_injective done) in
      let root : _ =
        create-root digests.pin digests.identity (new_core fork c.context input) q created in
      let facts : _ = seal_fork_pin-eq-ok digests.pin digests.identity _ q root in
      record {
        authority = checked;
        input = input;
        read = b;
        core = rw (← is) (ap (λ r. r.core) facts.1);
        sealed = rw (← is) (created-IsSealed digests _ none q created);
        stored = cc (ap (λ r. r.0) (ok_injective done), ok_injective same, is);
      }

  input-lem :
      (c : ForkAuthorityContext) (input : PinChanges)
      → pin_input digests c ≡ ok input
      → (hash : String) × (scope_digest digests c.source.scope ≡ ok hash)
        × (input ≡ record {
          canonical_revision = c.source.canonical_revision;
          canonical_state_hash = c.source.canonical_state_hash;
          source_observation_cursor = c.source.observation_cursor;
          source_context_version = c.source.context_version;
          dependency_join_snapshot_digest = c.source.dependency_join_snapshot_digest;
          delta_authority_scope_digest = hash;
          pinned_policy_digest = c.source.pinned_policy_digest;
          created_by_principal_id = c.authorization.principal_id;
          created_by_grant_digest = c.authorization.grant_digest;
        })
  unfolding pin_input
  input-lem c input h =
      let (hash, a, b) = >>=-eq-ok (scope_digest digests c.source.scope) _ h in
      (hash, a, sym (ok_injective b))

  -- The comparisons of a reuse, on the pin that a creation has made.
  reuse-check :
      (s t : ForkProjection) (p : SealedForkPin) (fork : String) (c : ForkAuthorityCapability)
      → Created s t p fork c
      → check_reuse digests t p c.context ≡ ok tt
  unfolding check_reuse
  reuse-check s t p fork c made =
      let (hash, scope, input) = input-lem c.context made.input made.read in
      let content : p.core.content ≡ _ = ap (λ k. k.content) made.core ∙ input in
      let same : _ = (store-active s p (identities_of digests c.context)).2 in
      let source : _ = c.context.source in
      rw (made.stored, same, content, scope)
        (ground (
          arith,
          str_eq_iff (digests.source source) (digests.source source),
          str_eq_iff (identities_of digests c.context).authorization_snapshot_digest
              (identities_of digests c.context).authorization_snapshot_digest,
          str_eq_iff source.canonical_state_hash source.canonical_state_hash,
          str_eq_iff source.dependency_join_snapshot_digest source.dependency_join_snapshot_digest,
          str_eq_iff hash hash,
          str_eq_iff source.pinned_policy_digest source.pinned_policy_digest,
          cursor_beq_refl source.observation_cursor,
          version_beq_refl source.context_version,
        ))

  -- A fork that was just created is reused, with the same authority and its pin expected to be
  -- active, as the pin that the creation gave; provided that its digest is not empty.
  pub reuse-create :
      (s t : ForkProjection) (p : SealedForkPin) (fork : String) (c : ForkAuthorityCapability)
      → create_projected_fork digests s fork c ≡ ok (t, p)
      → truthy p.fork_pin_digest ≡ true
      → reuse_projected_fork digests t fork (expecting c p.fork_pin_digest) ≡ ok p
  unfolding reuse_projected_fork authenticate
  reuse-create s t p fork c h full =
      let made : Created s t p fork c = create-Created s t p fork c h in
      let (active, held, kept) = store-active s p (identities_of digests c.context) in
      let of_fork : p.core.fork_id ≡ fork = ap (λ k. k.fork_id) made.core in
      let reads : get fork t.active_by_fork_id ≡ some p.fork_pin_digest =
        rw (← of_fork, made.stored) active in
      let holds : get p.fork_pin_digest t.pins ≡ some p = rw (made.stored) held in
      let pinned : active_pin t fork ≡ some p = rw (reads, pin_at) (rw full holds) in
      let check : _ = reuse-check s t p fork c made in
      rw
        (
          check_authority-expecting c p.fork_pin_digest,
          made.authority,
          pinned,
          reads,
          (str_eq_iff p.fork_pin_digest p.fork_pin_digest).1 refl,
          made.sealed.1,
          check,
        )
        refl
