-- ===== src/Domain/Events/Tampering.antt =====
-- packages/domain/src/events.ts: what the hash of a chain's last event fixes.
use horseness.Common.{
  ℕ, ◌+◌, String, Option, none, some, List, [], ◌∷◌, true, str_eq, str_eq_iff, ok, >>=-eq-ok,
  guard-eq-ok, ◌||◌, length, ◌≡◌, refl, sym, ap, ◌∙◌, arith,
}
use horseness.Common.Sort.{All, All-map}
use horseness.Domain.Forks.{opt_beq}
use horseness.Domain.Events.{
  is_run, event_identity_invalid, EventEnvelope, HashedEventEnvelope, PayloadFormat, verify_event,
  verify_events, verify_event_chain,
}

opt_beq_sound : (a b : Option String) → opt_beq a b ≡ true → a ≡ b
opt_beq_sound none none h = refl
opt_beq_sound none (some b) h = cc
opt_beq_sound (some a) none h = cc
opt_beq_sound (some a) (some b) h = ap some ((str_eq_iff a b).0 h)

module _ {P : Type 0} (format : PayloadFormat P) where
  -- The hash of the last event.
  unfoldable pub head_hash : List (HashedEventEnvelope P) → Option String
  head_hash [] = none
  head_hash (x ∷ []) = some x.envelope_hash
  head_hash (x ∷ y ∷ ys) = head_hash (y ∷ ys)

  -- The facts that the check of one event leaves.
  record Verified (n : ℕ) (prior : Option String) (x : HashedEventEnvelope P) : Type 0 where
    pub sequence : x.envelope.sequence ≡ n + 1
    pub prior_hash : x.envelope.prior_envelope_hash ≡ prior
    pub hash : format.envelope_digest x.envelope ≡ x.envelope_hash

  -- No two envelopes of the one list and the other share their digest.
  abbrev pub Apart : HashedEventEnvelope P → HashedEventEnvelope P → Type 0
  Apart x y =
      format.envelope_digest x.envelope ≡ format.envelope_digest y.envelope
      → x.envelope ≡ y.envelope

  abbrev pub CollisionFree : List (HashedEventEnvelope P) → List (HashedEventEnvelope P) → Type 0
  CollisionFree xs ys = All (λ x. All (Apart x) ys) xs

  verify_event-Verified :
      (first : EventEnvelope P) (n : ℕ) (prior : Option String) (x : HashedEventEnvelope P)
      → verify_event format first n prior x ≡ ok tt
      → Verified n prior x
  unfolding verify_event
  verify_event-Verified first n prior x h = record {
    sequence = ground arith;
    prior_hash = ground (arith, opt_beq_sound x.envelope.prior_envelope_hash prior);
    hash = ground (arith, str_eq_iff (format.envelope_digest x.envelope) x.envelope_hash);
  }

  verify_events-head :
      (first : EventEnvelope P) (n : ℕ) (prior : Option String) (x : HashedEventEnvelope P)
      (xs : List (HashedEventEnvelope P))
      → verify_events format first n prior (x ∷ xs) ≡ ok tt
      → Verified n prior x × (verify_events format first (n + 1) (some x.envelope_hash) xs ≡ ok tt)
  unfolding verify_events
  verify_events-head first n prior x xs h =
      let (u, here, rest) = >>=-eq-ok (verify_event format first n prior x) _ h in
      (verify_event-Verified first n prior x here, rest)

  -- Two verified events with one hash are one event, after one and the same hash.
  same_event :
      (n : ℕ) (p q : Option String) (x y : HashedEventEnvelope P)
      → Verified n p x
      → Verified n q y
      → Apart x y
      → x.envelope_hash ≡ y.envelope_hash
      → (x ≡ y) × (p ≡ q)
  same_event n p q x y a b apart h =
      let inner : x.envelope ≡ y.envelope = apart (a.hash ∙ (h ∙ sym b.hash)) in
      (cc (inner, h), sym a.prior_hash ∙ (ap (λ e. e.prior_envelope_hash) inner ∙ b.prior_hash))

  same_events :
      (f g : EventEnvelope P) (n : ℕ) (p q : Option String) (x y : HashedEventEnvelope P)
      (xs ys : List (HashedEventEnvelope P))
      → CollisionFree (x ∷ xs) (y ∷ ys)
      → verify_events format f n p (x ∷ xs) ≡ ok tt
      → verify_events format g n q (y ∷ ys) ≡ ok tt
      → length xs ≡ length ys
      → head_hash (x ∷ xs) ≡ head_hash (y ∷ ys)
      → (x ∷ xs ≡ y ∷ ys) × (p ≡ q)
  unfolding head_hash
  same_events f g n p q x y [] [] free v w len h =
      let (same, prior) =
        same_event n p q x y (verify_events-head f n p x [] v).0 (verify_events-head g n q y [] w).0
          (free.0.0) (cc h) in
      (ap (λ z. z ∷ []) same, prior)
  same_events f g n p q x y [] (y' ∷ ys) free v w len h = absurd (omega (arith, len))
  same_events f g n p q x y (x' ∷ xs) [] free v w len h = absurd (omega (arith, len))
  same_events f g n p q x y (x' ∷ xs) (y' ∷ ys) free v w len h =
      let (here, later) = verify_events-head f n p x (x' ∷ xs) v in
      let (here', later') = verify_events-head g n q y (y' ∷ ys) w in
      let (rest, hash) =
        same_events f g (n + 1) (some x.envelope_hash) (some y.envelope_hash) x' y' xs ys
          (All-map (λ z r. r.1) (x' ∷ xs) free.1) later later' (omega (arith, len)) h in
      let (same, prior) = same_event n p q x y here here' free.0.0 (cc hash) in
      (cc (same, rest), prior)

  pub verify_event_chain-events :
      (x : HashedEventEnvelope P) (xs : List (HashedEventEnvelope P))
      → verify_event_chain format (x ∷ xs) ≡ ok tt
      → verify_events format x.envelope 0 none (x ∷ xs) ≡ ok tt
  unfolding verify_event_chain
  verify_event_chain-events x xs h =
      let (kind, rest) =
        guard-eq-ok
          (is_run x.envelope.stream_kind || str_eq x.envelope.stream_id x.envelope.workspace_id)
          event_identity_invalid h in
      let (v, events, last) = >>=-eq-ok (verify_events format x.envelope 0 none (x ∷ xs)) _ rest in
      events

  -- Two verified chains of one length whose last events have the same hash are the same events, from
  -- the first on, as long as no two different envelopes among them share their digest.
  pub verify_event_chain-same :
      (xs ys : List (HashedEventEnvelope P))
      → CollisionFree xs ys
      → verify_event_chain format xs ≡ ok tt
      → verify_event_chain format ys ≡ ok tt
      → length xs ≡ length ys
      → head_hash xs ≡ head_hash ys
      → xs ≡ ys
  unfolding verify_event_chain
  verify_event_chain-same [] ys free v w len h = cc v
  verify_event_chain-same (x ∷ xs) [] free v w len h = cc w
  verify_event_chain-same (x ∷ xs) (y ∷ ys) free v w len h =
      (same_events x.envelope y.envelope 0 none none x y xs ys free
        (verify_event_chain-events x xs v) (verify_event_chain-events y ys w) (omega (arith, len))
        h).0
