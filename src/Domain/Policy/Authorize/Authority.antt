-- ===== src/Domain/Policy/Authorize/Authority.antt =====
-- What an allowed command rests on.
use horseness.Common.{
  ℕ, ◌≤◌, ◌<◌, String, Option, none, some, Bool, true, false, not, ◌&&◌, ◌||◌, str_eq, str_eq_iff,
  if◌then◌else◌, ◌≡◌, ◌≢◌, ◌↔◌, ◌⊎◌, inl, inr, Bool-cases, refl, arith,
}
use horseness.Domain.Policy.Authorize.{
  PrincipalRole, authority, approver, worker, allowed, lists, Capability, AuthorizeInput,
  Authorization, allow, deny, self_approval_forbidden, AuthorizationDenial, role_forbidden,
  cross_workspace_denied, capability_scope_mismatch, grant_substituted, grant_stale,
  user_presence_required, recovery_quorum_required, operator, adapter, is_approver, needs_presence,
  needs_quorum, authorize_command, submit_proposal, authorize_admission, AdmissionAuthority,
  AdmissionSubject, submission, mismatch, mismatch_generation, stale,
}

-- A capability that is bound to a value allows only that value.
abbrev pub Binds : {A : Type 0} → Option A → Option A → Type 0
Binds none given = Unit
Binds (some bound) given = given ≡ some bound

abbrev pub Unrevoked : Option ℕ → ℕ → Type 0
Unrevoked none now = Unit
Unrevoked (some r) now = now < r

-- A capability is in force from its issue to its expiry, both included, and before its revocation.
abbrev pub InForce : Capability → ℕ → Type 0
InForce c now =
    (c.issued_observation_sequence ≤ now)
    × (now ≤ c.expires_observation_sequence)
    × Unrevoked c.revocation_sequence now

pub record IsAuthorized (i : AuthorizeInput) : Type 0 where
  pub by_role : allowed i.role i.command ≡ true
  pub workspace : i.capability.workspace_id ≡ i.workspace_id
  pub listed : lists i.capability.commands i.command ≡ true
  pub run : Binds i.capability.run_id i.run_id
  pub task : Binds i.capability.task_id i.task_id
  pub attempt : Binds i.capability.attempt_id i.attempt_id
  pub generation : Binds i.capability.generation i.generation
  pub grant : i.grant_digest ≡ i.expected_grant_digest
  pub in_force : InForce i.capability i.observation_sequence
  pub presence : needs_presence i.command ≡ true → i.user_presence ≡ true
  pub quorum : needs_quorum i.command ≡ true → i.recovery_quorum ≡ true
  pub independent : i.role ≡ approver → i.capability.delegatee ≢ i.capability.issuer

mismatch-Binds : (b g : Option String) → (mismatch b g ≡ false) ↔ Binds b g
mismatch-Binds none g = ground arith
mismatch-Binds (some b) none = ground arith
mismatch-Binds (some b) (some g) = ground (arith, str_eq_iff b g)

mismatch_generation-Binds : (b g : Option ℕ) → (mismatch_generation b g ≡ false) ↔ Binds b g
mismatch_generation-Binds b g = ground arith

stale-InForce : (c : Capability) (now : ℕ) → (stale c now ≡ false) ↔ InForce c now
stale-InForce c now = ground arith

-- A test whose failure denies is one more condition of the allowed command.
passes :
    (b : Bool) {x y : Authorization}
    → x ≢ allow
    → ((if b then x else y) ≡ allow) ↔ ((b ≡ false) × (y ≡ allow))
passes true x≢allow = (λ e. absurd (x≢allow e), λ r. ground arith)
passes false x≢allow = (λ e. (refl, e), λ r. r.1)

denied : (r : AuthorizationDenial) → deny r ≢ allow
denied r = ground arith

unapproved : self_approval_forbidden ≢ allow
unapproved = ground arith

not-false : (b : Bool) → (not b ≡ false) ↔ (b ≡ true)
not-false b = ground arith

unless : (a b : Bool) → (a && not b ≡ false) ↔ (a ≡ true → b ≡ true)
unless true true = ground arith
unless true false = ground arith
unless false b = ground arith

none_of4 :
    {a b c d : Bool}
    → (a || b || c || d ≡ false) ↔ ((a ≡ false) × (b ≡ false) × (c ≡ false) × (d ≡ false))
none_of4 {a} {b} {c} {d} = ground arith

independent_iff :
    (r : PrincipalRole) (d i : String)
    → (is_approver r && str_eq d i ≡ false) ↔ (r ≡ approver → d ≢ i)
independent_iff authority d i = ground arith
independent_iff approver d i =
    let same : _ = str_eq_iff d i in
    (
      λ e _ p. ground arith,
      λ f. elim (Bool-cases (str_eq d i)) [ inl p ↦ absurd (f refl (same.0 p)) | inr p ↦ p ],
    )
independent_iff operator d i = ground arith
independent_iff worker d i = ground arith
independent_iff adapter d i = ground arith

-- The tests of `authorize_command` in their order, as one condition.
ladder :
    (a b c d e f g h k : Bool)
    → ((if a
          then deny role_forbidden
          else if b
          then deny cross_workspace_denied
          else if c
          then deny capability_scope_mismatch
          else if d
          then deny capability_scope_mismatch
          else if e
          then deny grant_substituted
          else if f
          then deny grant_stale
          else if g
          then deny user_presence_required
          else if h
          then deny recovery_quorum_required
          else if k
          then self_approval_forbidden
          else allow)
        ≡ allow)
      ↔ ((a ≡ false)
          × (b ≡ false)
          × (c ≡ false)
          × (d ≡ false)
          × (e ≡ false)
          × (f ≡ false)
          × (g ≡ false)
          × (h ≡ false)
          × (k ≡ false))
ladder a b c d e f g h k = ground arith

may_submit : (r : PrincipalRole) → allowed r submit_proposal ≡ true → (r ≡ authority) ⊎ (r ≡ worker)
unfolding allowed
may_submit authority h = inl refl
may_submit approver h = ground arith
may_submit operator h = ground arith
may_submit worker h = inr refl
may_submit adapter h = ground arith

-- A command is allowed exactly when the role permits it, the capability is of the same workspace,
-- lists the command and binds no other run, task, attempt or generation, the grant is the expected
-- one and in force, the user is present and the quorum given where the command needs them, and an
-- approver is not approved by itself.
pub authorize_command-allow : (i : AuthorizeInput) → (authorize_command i ≡ allow) ↔ IsAuthorized i
unfolding authorize_command
authorize_command-allow i =
    let same_workspace : _ = str_eq_iff i.capability.workspace_id i.workspace_id in
    let same_grant : _ = str_eq_iff i.grant_digest i.expected_grant_digest in
    let binds_run : _ = mismatch-Binds i.capability.run_id i.run_id in
    let binds_task : _ = mismatch-Binds i.capability.task_id i.task_id in
    let binds_attempt : _ = mismatch-Binds i.capability.attempt_id i.attempt_id in
    let binds_generation : _ = mismatch_generation-Binds i.capability.generation i.generation in
    let force : _ = stale-InForce i.capability i.observation_sequence in
    let alone : _ = independent_iff i.role i.capability.delegatee i.capability.issuer in
    let tests : _ =
      ladder (not (allowed i.role i.command))
        (not (str_eq i.capability.workspace_id i.workspace_id))
        (not (lists i.capability.commands i.command))
        (mismatch i.capability.run_id i.run_id
          || mismatch i.capability.task_id i.task_id
          || mismatch i.capability.attempt_id i.attempt_id
          || mismatch_generation i.capability.generation i.generation)
        (not (str_eq i.grant_digest i.expected_grant_digest))
        (stale i.capability i.observation_sequence)
        (needs_presence i.command && not i.user_presence)
        (needs_quorum i.command && not i.recovery_quorum)
        (is_approver i.role && str_eq i.capability.delegatee i.capability.issuer) in
    (
      λ h.
          let (role, workspace, listed, bound, grant, in_force, presence, quorum, self) =
            tests.0 h in
          let (run, task, attempt, generation) = none_of4.0 bound in
          record {
            by_role = (not-false _).0 role;
            workspace = same_workspace.0 ((not-false _).0 workspace);
            listed = (not-false _).0 listed;
            run = binds_run.0 run;
            task = binds_task.0 task;
            attempt = binds_attempt.0 attempt;
            generation = binds_generation.0 generation;
            grant = same_grant.0 ((not-false _).0 grant);
            in_force = force.0 in_force;
            presence = (unless _ _).0 presence;
            quorum = (unless _ _).0 quorum;
            independent = alone.0 self;
          },
      λ h. tests.1 (
        (not-false _).1 h.by_role,
        (not-false _).1 (same_workspace.1 h.workspace),
        (not-false _).1 h.listed,
        none_of4.1 (
          binds_run.1 h.run,
          binds_task.1 h.task,
          binds_attempt.1 h.attempt,
          binds_generation.1 h.generation,
        ),
        (not-false _).1 (same_grant.1 h.grant),
        force.1 h.in_force,
        (unless _ _).1 h.presence,
        (unless _ _).1 h.quorum,
        alone.1 h.independent,
      ),
    )

either-false : (a b : Bool) → (a || b ≡ false) → (a ≡ false) × (b ≡ false)
either-false a b h = ground arith

-- An admission is allowed only to an authority or a worker who holds the named capability, not
-- revoked and in force, for this workspace, listing `submit_proposal` and bound to no other run, to
-- no task, to no attempt and to no generation.
pub authorize_admission-allow :
    (capability_id : String) (a : AdmissionAuthority) (s : AdmissionSubject)
    → authorize_admission capability_id a s ≡ allow
    → ((a.role ≡ authority) ⊎ (a.role ≡ worker))
      × (capability_id ≡ a.capability_id)
      × (a.revoked ≡ false)
      × (a.capability.delegatee ≡ s.principal_id)
      × IsAuthorized (submission a s)
unfolding authorize_admission
authorize_admission-allow capability_id a s h =
    let known : _ =
      passes (not (str_eq capability_id a.capability_id) || a.revoked)
        (denied capability_scope_mismatch) in
    let own : _ =
      passes (not (str_eq a.capability.delegatee s.principal_id))
        (denied capability_scope_mismatch) in
    let (current, later) = known.0 h in
    let (same, granted) = own.0 later in
    let (id, unrevoked) = either-false _ _ current in
    let i = (authorize_command-allow (submission a s)).0 granted in
    (
      may_submit a.role i.by_role,
      (str_eq_iff _ _).0 ((not-false _).0 id),
      unrevoked,
      (str_eq_iff _ _).0 ((not-false _).0 same),
      i,
    )
