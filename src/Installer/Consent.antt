-- ===== src/Installer/Consent.antt =====
-- packages/installer/src/consent/index.ts: the consent to an installation, and its check.
pub mod Accepted
use horseness.Common.{
  ℕ, String, Option, none, some, List, [], ◌∷◌, any, every, Bool, true, false, not, ◌&&◌, ◌||◌,
  str_eq, string_eq, distinct, Result, ok, err, ◌>>=◌, ◌>>◌, guard, if◌then◌else◌,
}
use horseness.Common.Sort.{sort}

pub data InstallConsentMode : Type 0 where
  interactive_explicit_yes unattended_release_digest : InstallConsentMode

pub data InstallScope : Type 0 where
  user workspace : InstallScope

pub record OsIdentity : Type 0 where
  pub platform : String
  pub arch : String
  pub account_id : String

pub record InstallConsent : Type 0 where
  pub release_manifest_digest : String
  pub artifact_digests : List String
  pub requested_hosts : List String
  pub executable_capabilities : List String
  pub install_scope : InstallScope
  pub os_identity : OsIdentity
  pub acknowledged_at : String
  pub mode : InstallConsentMode
  pub consent_digest : String

pub record InstallConsentRequest : Type 0 where
  pub release_manifest_digest : String
  pub artifact_digests : List String
  pub requested_hosts : List String
  pub executable_capabilities : List String
  pub install_scope : InstallScope
  pub os_identity : OsIdentity
  pub acknowledged_at : String
  pub interactive_answer : Option String
  pub accepted_release_digest : Option String

-- `Omit<InstallConsentRequestV1, "interactiveAnswer" | "acceptedReleaseDigest" | "acknowledgedAt">`
pub record ExpectedConsent : Type 0 where
  pub release_manifest_digest : String
  pub artifact_digests : List String
  pub requested_hosts : List String
  pub executable_capabilities : List String
  pub install_scope : InstallScope
  pub os_identity : OsIdentity

pub data InstallConsentError : Type 0 where
  invalid_consent_digest invalid_consent_identity consent_explicit_yes_required :
      InstallConsentError
  consent_mode_ambiguous consent_release_digest_mismatch invalid_consent_hosts : InstallConsentError
  invalid_consent_capabilities consent_integrity_mismatch consent_binding_mismatch :
      InstallConsentError

-- What the module takes from the JavaScript runtime and from SHA-256: the two regular expressions,
-- `new Date(t).toISOString()` for a text that `Date.parse` reads, the order of texts by code units,
-- and the digest of a consent without its own digest.
pub record ConsentRuntime : Type 0 where
  pub is_hex : String → Bool
  pub is_token : String → Bool
  pub iso_date : String → Option String
  pub text_before : String → String → Bool
  pub digest : InstallConsent → String

abbrev pub is_none {ℓ} : {A : Type ℓ} → Option A → Bool
is_none none = true
is_none (some _) = false

abbrev pub is_empty {ℓ} : {A : Type ℓ} → List A → Bool
is_empty [] = true
is_empty (_ ∷ _) = false

abbrev pub scope_beq : InstallScope → InstallScope → Bool
scope_beq user user = true
scope_beq workspace workspace = true
scope_beq _ _ = false

abbrev pub mode_beq : InstallConsentMode → InstallConsentMode → Bool
mode_beq interactive_explicit_yes interactive_explicit_yes = true
mode_beq unattended_release_digest unattended_release_digest = true
mode_beq _ _ = false

unfoldable pub texts_beq : List String → List String → Bool
texts_beq [] [] = true
texts_beq (a ∷ rest) (b ∷ others) = str_eq a b && texts_beq rest others
texts_beq _ _ = false

abbrev pub identity_beq : OsIdentity → OsIdentity → Bool
identity_beq a b =
    str_eq a.platform b.platform && str_eq a.arch b.arch && str_eq a.account_id b.account_id

-- `canonicalJson(a) === canonicalJson(b)` on consents.
unfoldable pub consent_beq : InstallConsent → InstallConsent → Bool
unfolding texts_beq
consent_beq a b =
    str_eq a.release_manifest_digest b.release_manifest_digest
    && texts_beq a.artifact_digests b.artifact_digests
    && texts_beq a.requested_hosts b.requested_hosts
    && texts_beq a.executable_capabilities b.executable_capabilities
    && scope_beq a.install_scope b.install_scope
    && identity_beq a.os_identity b.os_identity
    && str_eq a.acknowledged_at b.acknowledged_at
    && mode_beq a.mode b.mode
    && str_eq a.consent_digest b.consent_digest

-- The way in which the consent was given.
unfoldable pub consent_mode :
    String → Option String → Option String → Result InstallConsentError InstallConsentMode
consent_mode release (some answer) accepted = do
  guard (str_eq answer "yes") consent_explicit_yes_required
  guard (is_none accepted) consent_mode_ambiguous
  ok interactive_explicit_yes
consent_mode release none none = err consent_release_digest_mismatch
consent_mode release none (some accepted) = do
  guard (str_eq accepted release) consent_release_digest_mismatch
  ok unattended_release_digest

-- `sorted.some((value, index) => index > 0 && value === sorted[index - 1])`
unfoldable pub repeats : List String → Bool
repeats [] = false
repeats (a ∷ []) = false
repeats (a ∷ b ∷ rest) = str_eq b a || repeats (b ∷ rest)

abbrev pub dated : Option String → Result InstallConsentError String
dated none = err invalid_consent_identity
dated (some t) = ok t

module _ (runtime : ConsentRuntime) where
  unfoldable pub frozen_unique :
      List String → InstallConsentError → Result InstallConsentError (List String)
  unfolding repeats
  frozen_unique values e = do
    guard (not (is_empty values) && every runtime.is_token values) e
    guard (not (repeats (sort runtime.text_before values))) e
    ok (sort runtime.text_before values)

  abbrev pub sealed : InstallConsent → InstallConsent
  sealed c = record c { consent_digest = runtime.digest (record c { consent_digest = "" }) }

  unfoldable pub create_install_consent :
      InstallConsentRequest → Result InstallConsentError InstallConsent
  unfolding consent_mode frozen_unique
  create_install_consent r = do
    guard
        (runtime.is_hex r.release_manifest_digest
          && not (is_empty r.artifact_digests)
          && every runtime.is_hex r.artifact_digests)
        invalid_consent_digest
    guard (runtime.is_token r.os_identity.account_id && runtime.is_token r.os_identity.arch)
        invalid_consent_identity
    date ← dated (runtime.iso_date r.acknowledged_at)
    mode ← consent_mode r.release_manifest_digest r.interactive_answer r.accepted_release_digest
    hosts ← frozen_unique r.requested_hosts invalid_consent_hosts
    capabilities ← frozen_unique r.executable_capabilities invalid_consent_capabilities
    ok (
        sealed (record {
          release_manifest_digest = r.release_manifest_digest;
          artifact_digests = sort runtime.text_before r.artifact_digests;
          requested_hosts = hosts;
          executable_capabilities = capabilities;
          install_scope = r.install_scope;
          os_identity = r.os_identity;
          acknowledged_at = date;
          mode = mode;
          consent_digest = "";
        }))

  -- The request that a consent was made for.
  unfoldable pub request_of : InstallConsent → InstallConsentRequest
  request_of c = record {
    release_manifest_digest = c.release_manifest_digest;
    artifact_digests = c.artifact_digests;
    requested_hosts = c.requested_hosts;
    executable_capabilities = c.executable_capabilities;
    install_scope = c.install_scope;
    os_identity = c.os_identity;
    acknowledged_at = c.acknowledged_at;
    interactive_answer = if mode_beq c.mode interactive_explicit_yes then some "yes" else none;
    accepted_release_digest =
        if mode_beq c.mode interactive_explicit_yes then none else some c.release_manifest_digest;
  }

  unfoldable pub binds : InstallConsent → ExpectedConsent → Bool
  unfolding texts_beq
  binds c e =
      str_eq c.release_manifest_digest e.release_manifest_digest
      && texts_beq c.artifact_digests (sort runtime.text_before e.artifact_digests)
      && texts_beq c.requested_hosts (sort runtime.text_before e.requested_hosts)
      && texts_beq c.executable_capabilities (sort runtime.text_before e.executable_capabilities)
      && scope_beq c.install_scope e.install_scope
      && identity_beq c.os_identity e.os_identity

  unfoldable pub assert_install_consent :
      InstallConsent → ExpectedConsent → Result InstallConsentError (Unit {0})
  unfolding request_of binds consent_beq
  assert_install_consent c e = do
    rebuilt ← create_install_consent (request_of c)
    guard (consent_beq rebuilt c) consent_integrity_mismatch
    guard (binds c e) consent_binding_mismatch
