-- ===== src/Orchestrator/Forks/Stored.antt =====
-- packages/orchestrator/src/forks/fork-registry.ts: the pins that the registry holds.
use horseness.Common.{
  String, Option, none, some, List, [], ◌∷◌, true, false, not, ◌&&◌, str_eq, str_eq_iff, string_eq,
  Result, ok, err, >>=-eq-ok, guard-eq-ok, ok_injective, Result-cases, Bool-cases, ◌≢◌, ◌≡◌, refl,
  sym, ap, ◌∙◌, inl, inr,
}
use horseness.Common.Maps.{get, has, get-put, has-put}
use horseness.Domain.Forks.{
  opt_beq, is_null, PinChanges, ForkPinCore, SealedForkPin, PinError, seal_fork_pin,
  verify_fork_pin, create_fork_pin, refresh_fork_pin,
}
use horseness.Domain.Forks.Lineage.{
  seal_fork_pin-eq-ok, create-root, create-child, verify_fork_pin-seal_fork_pin,
}
use horseness.Orchestrator.Forks.{
  ForkProjection, ForkAuthorityCapability, ForkAuthoritySnapshotIdentities, ForkDigests,
  fork_identity_continuity, fork_refresh_cas_mismatch, fork_parent_mismatch, empty_fork_projection,
  lift_pin,
}
use horseness.Orchestrator.Forks.Registry.{
  found, active_pin, store, authenticate, pin_input, create_projected_fork, refresh_projected_fork,
  ForkRequest, create, refresh, run_forks,
}

pub lift_pin-eq-ok :
    (m : Result PinError SealedForkPin) (p : SealedForkPin) → lift_pin m ≡ ok p → m ≡ ok p
lift_pin-eq-ok (ok a) p h = cc h
lift_pin-eq-ok (err e) p h = cc h

module _ (digests : ForkDigests) where
  -- A pin under its core's digest, verified.
  abbrev pub IsSealed : SealedForkPin → Type 0
  IsSealed p =
      (digests.pin p.core ≡ p.fork_pin_digest)
      × (verify_fork_pin digests.pin digests.identity p ≡ ok tt)

  -- The active pin of a fork is held, sealed, of this fork, and so are its snapshots of authority.
  pub record IsHeld (s : ForkProjection) (fork digest : String) (p : SealedForkPin) : Type 0 where
    pub held : get digest s.pins ≡ some p
    pub of_fork : p.core.fork_id ≡ fork
    pub under_digest : p.fork_pin_digest ≡ digest
    pub sealed : IsSealed p
    pub snapshots : has digest s.authority_snapshots_by_pin ≡ true

  abbrev pub IsRegistry : ForkProjection → Type 0
  IsRegistry s =
      (fork digest : String)
      → get fork s.active_by_fork_id ≡ some digest
      → (p : SealedForkPin) × IsHeld s fork digest p

  seal-IsSealed :
      (core : ForkPinCore) (p : SealedForkPin)
      → seal_fork_pin digests.pin digests.identity core ≡ ok p
      → IsSealed p
  seal-IsSealed core p h =
      let facts : _ = seal_fork_pin-eq-ok digests.pin digests.identity core p h in
      (cc (facts.1), verify_fork_pin-seal_fork_pin digests.pin digests.identity core p h)

  pub created-IsSealed :
      (core : ForkPinCore) (parent : Option SealedForkPin) (p : SealedForkPin)
      → create_fork_pin digests.pin digests.identity core parent ≡ ok p
      → IsSealed p
  created-IsSealed core none p h =
      seal-IsSealed _ p (create-root digests.pin digests.identity core p h)
  created-IsSealed core (some parent) p h =
      seal-IsSealed _ p (create-child digests.pin digests.identity core parent p h).1

  refreshed-IsSealed :
      (parent : SealedForkPin) (changes : PinChanges) (p : SealedForkPin)
      → refresh_fork_pin digests.pin digests.identity parent changes ≡ ok p
      → IsSealed p
  unfolding refresh_fork_pin
  refreshed-IsSealed parent changes p h =
      created-IsSealed _ (some parent) p
        (>>=-eq-ok (verify_fork_pin digests.pin digests.identity parent) _ h).2

  -- What is taken of the digests: pins with one digest are of one fork.
  module _
      (one_fork : (a b : ForkPinCore) → digests.pin a ≡ digests.pin b → a.fork_id ≡ b.fork_id) where
    -- A pin of another fork has another digest.
    other_fork :
        (p r : SealedForkPin) (fork digest : String)
        → IsSealed p
        → IsSealed r
        → r.core.fork_id ≡ fork
        → r.fork_pin_digest ≡ digest
        → str_eq p.core.fork_id fork ≡ false
        → str_eq p.fork_pin_digest digest ≢ true
    other_fork p r fork digest a b of under n h =
        let same : p.core.fork_id ≡ r.core.fork_id =
          one_fork p.core r.core
            (a.0 ∙ ((str_eq_iff p.fork_pin_digest digest).0 h ∙ (sym under ∙ sym b.0))) in
        absurd (cc (n, (str_eq_iff p.core.fork_id fork).1 (same ∙ of)))

    store-IsRegistry :
        (s : ForkProjection) (p : SealedForkPin) (i : ForkAuthoritySnapshotIdentities)
        → IsSealed p
        → IsRegistry s
        → IsRegistry (store digests s p i)
    unfolding store
    store-IsRegistry s p i sealed before fork digest g =
        let d : String = p.fork_pin_digest in
        let read : _ = get-put p.core.fork_id fork d s.active_by_fork_id in
        let pins : _ = get-put d digest p s.pins in
        let kept : _ = has-put d digest i s.authority_snapshots_by_pin in
        elim (Bool-cases (str_eq p.core.fork_id fork)) [
          | inl b ↦
              let same : d ≡ digest = cc (read, b, g) in
              let hit : str_eq d digest ≡ true = (str_eq_iff d digest).1 same in
              (
                p,
                record {
                  held = rw (pins, hit) refl;
                  of_fork = (str_eq_iff p.core.fork_id fork).0 b;
                  under_digest = same;
                  sealed = sealed;
                  snapshots = rw (kept, hit) refl;
                },
              )
          | inr b ↦
              let (r, old) = before fork digest (cc (read, b, g)) in
              elim (Bool-cases (str_eq d digest)) [
                | inl c ↦
                    absurd (
                      other_fork p r fork digest sealed old.sealed old.of_fork old.under_digest b c)
                | inr c ↦ (
                  r,
                  record {
                    held = rw (pins, c) old.held;
                    of_fork = old.of_fork;
                    under_digest = old.under_digest;
                    sealed = old.sealed;
                    snapshots = rw (kept, c) old.snapshots;
                  },
                )
              ]
        ]

    create-IsRegistry :
        (s t : ForkProjection) (p : SealedForkPin) (fork : String) (c : ForkAuthorityCapability)
        → create_projected_fork digests s fork c ≡ ok (t, p)
        → IsRegistry s
        → IsRegistry t
    unfolding create_projected_fork
    create-IsRegistry s t p fork c h before =
        let (i, a, h1) = >>=-eq-ok (authenticate digests c) _ h in
        let (h2, h3) =
          guard-eq-ok
            (not (has fork s.active_by_fork_id)
              && is_null c.context.authorization.expected_active_fork_pin_digest)
            fork_identity_continuity h1 in
        let (input, b, h4) = >>=-eq-ok (pin_input digests c.context) _ h3 in
        let (q, made, done) =
          >>=-eq-ok (lift_pin (create_fork_pin digests.pin digests.identity _ none)) _ h4 in
        rw (← ap (λ r. r.0) (ok_injective done))
          (store-IsRegistry s q i (created-IsSealed _ none q (lift_pin-eq-ok _ q made)) before)

    refresh-IsRegistry :
        (s t : ForkProjection) (p : SealedForkPin) (fork : String) (c : ForkAuthorityCapability)
        → refresh_projected_fork digests s fork c ≡ ok (t, p)
        → IsRegistry s
        → IsRegistry t
    unfolding refresh_projected_fork
    refresh-IsRegistry s t p fork c h before =
        let (i, a, h1) = >>=-eq-ok (authenticate digests c) _ h in
        let (parent, b, h2) =
          >>=-eq-ok (found fork_refresh_cas_mismatch (active_pin s fork)) _ h1 in
        let (expected, h3) =
          guard-eq-ok
            (opt_beq c.context.authorization.expected_active_fork_pin_digest
              (get fork s.active_by_fork_id))
            fork_refresh_cas_mismatch h2 in
        let (u, verified, h4) =
          >>=-eq-ok (lift_pin (verify_fork_pin digests.pin digests.identity parent)) _ h3 in
        let (same, h5) =
          guard-eq-ok
            (str_eq parent.core.workspace_id c.context.source.workspace_id
              && str_eq parent.core.run_id c.context.source.run_id)
            fork_parent_mismatch h4 in
        let (input, d, h6) = >>=-eq-ok (pin_input digests c.context) _ h5 in
        let (q, made, done) =
          >>=-eq-ok (lift_pin (refresh_fork_pin digests.pin digests.identity parent input)) _ h6 in
        rw (← ap (λ r. r.0) (ok_injective done)) (
          store-IsRegistry s q i (refreshed-IsSealed parent input q (lift_pin-eq-ok _ q made))
            before)

    run_forks-from :
        (rs : List ForkRequest) (s : ForkProjection)
        → IsRegistry s
        → IsRegistry (run_forks digests s rs)
    unfolding run_forks
    run_forks-from [] s before = before
    run_forks-from (create fork c ∷ rs) s before =
        elim (Result-cases (create_projected_fork digests s fork c)) [
          | inl (r, e) ↦
              rw (e, run_forks)
                (run_forks-from rs r.0 (create-IsRegistry s r.0 r.1 fork c e before))
          | inr (x, e) ↦ rw (e, run_forks) (run_forks-from rs s before)
        ]
    run_forks-from (refresh fork c ∷ rs) s before =
        elim (Result-cases (refresh_projected_fork digests s fork c)) [
          | inl (r, e) ↦
              rw (e, run_forks)
                (run_forks-from rs r.0 (refresh-IsRegistry s r.0 r.1 fork c e before))
          | inr (x, e) ↦ rw (e, run_forks) (run_forks-from rs s before)
        ]

    -- After any creations and refreshes from the empty registry, the digest that is active for a fork
    -- is that of a pin that the registry holds, of this fork and verified, with its snapshots of
    -- authority; provided that pins with one digest are of one fork.
    pub run_forks-IsRegistry :
        (rs : List ForkRequest) → IsRegistry (run_forks digests empty_fork_projection rs)
    unfolding get
    run_forks-IsRegistry rs =
        run_forks-from rs empty_fork_projection (λ fork digest g. absurd (cc g))
