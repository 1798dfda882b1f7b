-- ===== src/Tests/Authorizations.antt =====
-- Requests of packages/domain/src/policy.ts and admissions of packages/orchestrator/src/authorization.
use horseness.Common.{String, none, some, [], ◌∷◌, false, str_eq, ◌≡◌, ◌≢◌, ◌↔◌, ◌⊎◌, refl, arith}
use horseness.Domain.Policy.Authorize.{
  authority, approver, worker, submit_proposal, approve_proposal, Capability, allow,
  self_approval_forbidden, lists, allowed, authorize_command, authorize_admission,
  AdmissionAuthority, AdmissionSubject, submission,
}
use horseness.Domain.Policy.Authorize.Authority.{
  IsAuthorized, authorize_command-allow, authorize_admission-allow,
}

abbrev run_capability : Capability
run_capability = record {
  workspace_id = "w";
  run_id = some "r";
  task_id = none;
  attempt_id = none;
  generation = none;
  commands = submit_proposal ∷ approve_proposal ∷ [];
  issuer = "root";
  delegatee = "p";
  issued_observation_sequence = 3;
  expires_observation_sequence = 9;
  nonce = "n";
  revocation_sequence = some 8;
}

abbrev holder : AdmissionAuthority
holder = record {
  role = worker;
  capability_id = "c";
  capability = run_capability;
  grant_digest = "g";
  revoked = false;
}

abbrev subject : AdmissionSubject
subject = record { workspace_id = "w"; run_id = "r"; principal_id = "p"; observation_sequence = 5 }

abbrev the_id : String
the_id = "c"

admitted : authorize_admission the_id holder subject ≡ allow
unfolding authorize_admission authorize_command lists allowed str_eq
admitted = refl

-- At the revocation.
late : authorize_admission the_id holder (record subject { observation_sequence = 8 }) ≢ allow
unfolding authorize_admission authorize_command lists allowed str_eq
late = ground arith

self_approved :
    authorize_command
      (record (submission
        (record holder { role = approver; capability = record run_capability { issuer = "p" } })
        subject) { command = approve_proposal })
    ≡ self_approval_forbidden
unfolding authorize_command lists allowed str_eq
self_approved = refl

authorize_command-allow_example :
    (authorize_command (submission holder subject) ≡ allow)
    ↔ IsAuthorized (submission holder subject)
authorize_command-allow_example = authorize_command-allow (submission holder subject)

authorize_admission-allow_example :
    ((worker ≡ authority) ⊎ (worker ≡ worker))
    × (the_id ≡ holder.capability_id)
    × (false ≡ false)
    × (holder.capability.delegatee ≡ subject.principal_id)
    × IsAuthorized (submission holder subject)
authorize_admission-allow_example = authorize_admission-allow the_id holder subject admitted
