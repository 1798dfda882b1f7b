-- ===== src/Installer/Consent/Accepted.antt =====
-- packages/installer/src/consent/index.ts: a consent is accepted for what it was given for.
use horseness.Common.{
  if◌then◌else◌, String, Option, none, some, List, [], ◌∷◌, every, true, false, not, ◌&&◌, str_eq,
  str_eq_iff, ok, >>=-eq-ok, guard-eq-ok, ok_injective, ◌≡◌, refl, sym, ap, ◌∙◌, arith,
}
use horseness.Common.Sort.{sort, sort-sort, Rearranged}
use horseness.Common.Rearranged.{sort-Rearranged, every-Rearranged}
use horseness.Installer.Consent.{
  InstallConsentMode, interactive_explicit_yes, unattended_release_digest, InstallScope, user,
  workspace, OsIdentity, InstallConsent, InstallConsentRequest, ExpectedConsent,
  InstallConsentError, invalid_consent_digest, invalid_consent_identity, invalid_consent_hosts,
  invalid_consent_capabilities, ConsentRuntime, is_empty, scope_beq, mode_beq, identity_beq,
  texts_beq, consent_beq, consent_mode, repeats, dated, frozen_unique, sealed,
  create_install_consent, request_of, binds, assert_install_consent,
}

-- What is documented of the runtime: code units order texts totally, and a date's text is kept.
pub record RuntimeLaws (runtime : ConsentRuntime) : Type 0 where
  pub total : (a b : String) → runtime.text_before a b ≡ false → runtime.text_before b a ≡ true
  pub transitive :
      (a b c : String)
      → runtime.text_before a b ≡ true
      → runtime.text_before b c ≡ true
      → runtime.text_before a c ≡ true
  pub iso_twice : (t u : String) → runtime.iso_date t ≡ some u → runtime.iso_date u ≡ some u

abbrev pub expected_of : InstallConsentRequest → ExpectedConsent
expected_of r = record {
  release_manifest_digest = r.release_manifest_digest;
  artifact_digests = r.artifact_digests;
  requested_hosts = r.requested_hosts;
  executable_capabilities = r.executable_capabilities;
  install_scope = r.install_scope;
  os_identity = r.os_identity;
}

texts_beq_refl : (ts : List String) → texts_beq ts ts ≡ true
unfolding texts_beq
texts_beq_refl [] = refl
texts_beq_refl (t ∷ ts) = ground (arith, str_eq_iff t t, texts_beq_refl ts)

scope_beq_refl : (s : InstallScope) → scope_beq s s ≡ true
scope_beq_refl user = refl
scope_beq_refl workspace = refl

mode_beq_refl : (m : InstallConsentMode) → mode_beq m m ≡ true
mode_beq_refl interactive_explicit_yes = refl
mode_beq_refl unattended_release_digest = refl

identity_beq_refl : (o : OsIdentity) → identity_beq o o ≡ true
identity_beq_refl o = ground (
  arith,
  str_eq_iff o.platform o.platform,
  str_eq_iff o.arch o.arch,
  str_eq_iff o.account_id o.account_id,
)

consent_beq_refl : (c : InstallConsent) → consent_beq c c ≡ true
unfolding consent_beq
consent_beq_refl c = ground (
  arith,
  str_eq_iff c.release_manifest_digest c.release_manifest_digest,
  texts_beq_refl c.artifact_digests,
  texts_beq_refl c.requested_hosts,
  texts_beq_refl c.executable_capabilities,
  scope_beq_refl c.install_scope,
  identity_beq_refl c.os_identity,
  str_eq_iff c.acknowledged_at c.acknowledged_at,
  mode_beq_refl c.mode,
  str_eq_iff c.consent_digest c.consent_digest,
)

is_empty-Rearranged : {xs ys : List String} → Rearranged xs ys → is_empty xs ≡ is_empty ys
is_empty-Rearranged Rearranged.none = refl
is_empty-Rearranged (Rearranged.cons x r) = refl
is_empty-Rearranged (Rearranged.swap x y xs) = refl
is_empty-Rearranged (Rearranged.chain r s) = is_empty-Rearranged r ∙ is_empty-Rearranged s

-- The mode of a consent is found again from the request that it makes.
consent_mode-again :
    (release : String) (answer accepted : Option String) (m : InstallConsentMode)
    → consent_mode release answer accepted ≡ ok m
    → consent_mode release
        (if mode_beq m interactive_explicit_yes then some "yes" else none)
        (if mode_beq m interactive_explicit_yes then none else some release)
      ≡ ok m
unfolding consent_mode str_eq
consent_mode-again release answer accepted interactive_explicit_yes h = refl
consent_mode-again release answer accepted unattended_release_digest h =
    ground (arith, str_eq_iff release release)

dated-eq-ok : (o : Option String) (t : String) → dated o ≡ ok t → o ≡ some t
dated-eq-ok none t h = cc h
dated-eq-ok (some u) t h = ap some (ok_injective h)

module _ (runtime : ConsentRuntime) (laws : RuntimeLaws runtime) where
  abbrev sorted : List String → List String
  sorted = sort runtime.text_before

  sorted_twice : (ts : List String) → sorted (sorted ts) ≡ sorted ts
  sorted_twice ts = sort-sort runtime.text_before laws.total laws.transitive ts

  frozen_unique-again :
      (ts us : List String) (e : InstallConsentError)
      → frozen_unique runtime ts e ≡ ok us
      → (us ≡ sorted ts) × (frozen_unique runtime us e ≡ ok us)
  unfolding frozen_unique
  frozen_unique-again ts us e h =
      let r : Rearranged ts (sorted ts) = sort-Rearranged runtime.text_before ts in
      let (tokens, h1) = guard-eq-ok (not (is_empty ts) && every runtime.is_token ts) e h in
      let (once, h2) = guard-eq-ok (not (repeats (sorted ts))) e h1 in
      let same : us ≡ sorted ts = sym (ok_injective h2) in
      (
        same,
        rw
            (
              same,
              sorted_twice ts,
              once,
              ← is_empty-Rearranged r,
              ← every-Rearranged runtime.is_token r,
              tokens,
            )
            refl,
      )

  -- What the creation of a consent has checked, and what it gives.
  record Made (r : InstallConsentRequest) (c : InstallConsent) : Type 0 where
    pub digests :
        (runtime.is_hex r.release_manifest_digest
          && not (is_empty r.artifact_digests)
          && every runtime.is_hex r.artifact_digests)
        ≡ true
    pub tokens :
        (runtime.is_token r.os_identity.account_id && runtime.is_token r.os_identity.arch) ≡ true
    pub date : runtime.iso_date r.acknowledged_at ≡ some c.acknowledged_at
    pub mode :
        consent_mode r.release_manifest_digest r.interactive_answer r.accepted_release_digest
        ≡ ok c.mode
    pub hosts : frozen_unique runtime r.requested_hosts invalid_consent_hosts ≡ ok c.requested_hosts
    pub capabilities :
        frozen_unique runtime r.executable_capabilities invalid_consent_capabilities
        ≡ ok c.executable_capabilities
    pub whole :
        c
        ≡ sealed runtime (record {
          release_manifest_digest = r.release_manifest_digest;
          artifact_digests = sorted r.artifact_digests;
          requested_hosts = c.requested_hosts;
          executable_capabilities = c.executable_capabilities;
          install_scope = r.install_scope;
          os_identity = r.os_identity;
          acknowledged_at = c.acknowledged_at;
          mode = c.mode;
          consent_digest = "";
        })

  create-Made :
      (r : InstallConsentRequest) (c : InstallConsent)
      → create_install_consent runtime r ≡ ok c
      → Made r c
  unfolding create_install_consent
  create-Made r c h =
      let (digests, h1) =
        guard-eq-ok
          (runtime.is_hex r.release_manifest_digest
            && not (is_empty r.artifact_digests)
            && every runtime.is_hex r.artifact_digests)
          invalid_consent_digest h in
      let (tokens, h2) =
        guard-eq-ok
          (runtime.is_token r.os_identity.account_id && runtime.is_token r.os_identity.arch)
          invalid_consent_identity h1 in
      let (date, d, h3) = >>=-eq-ok (dated (runtime.iso_date r.acknowledged_at)) _ h2 in
      let (mode, m, h4) =
        >>=-eq-ok
          (consent_mode r.release_manifest_digest r.interactive_answer r.accepted_release_digest) _
          h3 in
      let (hosts, a, h5) =
        >>=-eq-ok (frozen_unique runtime r.requested_hosts invalid_consent_hosts) _ h4 in
      let (capabilities, b, h6) =
        >>=-eq-ok (frozen_unique runtime r.executable_capabilities invalid_consent_capabilities) _
          h5 in
      let same : _ = sym (ok_injective h6) in
      record {
        digests = digests;
        tokens = tokens;
        date =
            dated-eq-ok (runtime.iso_date r.acknowledged_at) date d
            ∙ ap some (sym (ap (λ x. x.acknowledged_at) same));
        mode = m ∙ ap ok (sym (ap (λ x. x.mode) same));
        hosts = a ∙ ap ok (sym (ap (λ x. x.requested_hosts) same));
        capabilities = b ∙ ap ok (sym (ap (λ x. x.executable_capabilities) same));
        whole = rw same refl;
      }

  create-again :
      (r : InstallConsentRequest) (c : InstallConsent)
      → Made r c
      → create_install_consent runtime (request_of runtime c) ≡ ok c
  unfolding create_install_consent request_of
  create-again r c made =
      let order : Rearranged r.artifact_digests (sorted r.artifact_digests) =
        sort-Rearranged runtime.text_before r.artifact_digests in
      let release : c.release_manifest_digest ≡ r.release_manifest_digest =
        ap (λ x. x.release_manifest_digest) made.whole in
      let os : c.os_identity ≡ r.os_identity = ap (λ x. x.os_identity) made.whole in
      let artifacts : c.artifact_digests ≡ sorted r.artifact_digests =
        ap (λ x. x.artifact_digests) made.whole in
      let scope : c.install_scope ≡ r.install_scope = ap (λ x. x.install_scope) made.whole in
      let hosts : _ = (frozen_unique-again r.requested_hosts c.requested_hosts _ made.hosts).1 in
      let capabilities : _ =
        (frozen_unique-again r.executable_capabilities c.executable_capabilities _
          made.capabilities).1 in
      let again : _ =
        consent_mode-again r.release_manifest_digest r.interactive_answer r.accepted_release_digest
          c.mode made.mode in
      rw
        (
          release,
          artifacts,
          os,
          ← is_empty-Rearranged order,
          ← every-Rearranged runtime.is_hex order,
          made.digests,
          made.tokens,
          laws.iso_twice r.acknowledged_at c.acknowledged_at made.date,
          again,
          hosts,
          capabilities,
          sorted_twice r.artifact_digests,
          scope,
          ap (λ x. x.consent_digest) made.whole,
        )
        refl

  -- A consent that was given is accepted by the check that expects what was asked for, although it
  -- holds the digests, hosts and capabilities in order, the date as ISO text and none of the answer;
  -- code units are taken to order texts totally and transitively, and an ISO date to be kept.
  pub assert_install_consent-create_install_consent :
      (r : InstallConsentRequest) (c : InstallConsent)
      → create_install_consent runtime r ≡ ok c
      → assert_install_consent runtime c (expected_of r) ≡ ok tt
  unfolding assert_install_consent binds
  assert_install_consent-create_install_consent r c h =
      let made : Made r c = create-Made r c h in
      let hosts : _ = (frozen_unique-again r.requested_hosts c.requested_hosts _ made.hosts).0 in
      let capabilities : _ =
        (frozen_unique-again r.executable_capabilities c.executable_capabilities _
          made.capabilities).0 in
      rw
        (
          create-again r c made,
          consent_beq_refl c,
          ap (λ x. x.release_manifest_digest) made.whole,
          ap (λ x. x.artifact_digests) made.whole,
          ap (λ x. x.install_scope) made.whole,
          ap (λ x. x.os_identity) made.whole,
          hosts,
          capabilities,
        )
        (ground (
          arith,
          str_eq_iff r.release_manifest_digest r.release_manifest_digest,
          texts_beq_refl (sorted r.artifact_digests),
          texts_beq_refl (sorted r.requested_hosts),
          texts_beq_refl (sorted r.executable_capabilities),
          scope_beq_refl r.install_scope,
          identity_beq_refl r.os_identity,
        ))
