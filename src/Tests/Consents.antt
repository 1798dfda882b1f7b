-- ===== src/Tests/Consents.antt =====
-- An interactive consent, with a runtime that takes any text.
use horseness.Common.{none, some, [], ◌∷◌, true, ok, ◌≡◌, refl, str_eq}
use horseness.Common.Sort.{sort}
use horseness.Installer.Consent.{
  ConsentRuntime, InstallConsent, InstallConsentRequest, user, interactive_explicit_yes,
  consent_mode, frozen_unique, repeats, create_install_consent, assert_install_consent,
}
use horseness.Installer.Consent.Accepted.{
  RuntimeLaws, expected_of, assert_install_consent-create_install_consent,
}

abbrev runtime : ConsentRuntime
runtime = record {
  is_hex = λ t. true;
  is_token = λ t. true;
  iso_date = λ t. some t;
  text_before = λ a b. true;
  digest = λ c. c.acknowledged_at;
}

laws : RuntimeLaws runtime
laws = record { total = λ a b h. cc; transitive = λ a b c h k. refl; iso_twice = λ t u h. refl }

abbrev request : InstallConsentRequest
request = record {
  release_manifest_digest = "d";
  artifact_digests = "b" ∷ "a" ∷ [];
  requested_hosts = "h" ∷ "g" ∷ [];
  executable_capabilities = "x" ∷ [];
  install_scope = user;
  os_identity = record { platform = "linux"; arch = "x64"; account_id = "1" };
  acknowledged_at = "2026-01-01T00:00:00.000Z";
  interactive_answer = some "yes";
  accepted_release_digest = none;
}

abbrev consent : InstallConsent
consent = record {
  release_manifest_digest = "d";
  artifact_digests = "b" ∷ "a" ∷ [];
  requested_hosts = "h" ∷ "g" ∷ [];
  executable_capabilities = "x" ∷ [];
  install_scope = user;
  os_identity = record { platform = "linux"; arch = "x64"; account_id = "1" };
  acknowledged_at = "2026-01-01T00:00:00.000Z";
  mode = interactive_explicit_yes;
  consent_digest = "2026-01-01T00:00:00.000Z";
}

assert_install_consent-create_install_consent_example :
    assert_install_consent runtime consent (expected_of request) ≡ ok tt
unfolding create_install_consent consent_mode frozen_unique repeats sort str_eq
assert_install_consent-create_install_consent_example =
    assert_install_consent-create_install_consent runtime laws request consent refl
