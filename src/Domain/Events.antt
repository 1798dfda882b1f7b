-- ===== src/Domain/Events.antt =====
-- packages/domain/src/events.ts: the events of a stream, each sealed in an envelope with its digests,
-- and the check of the chain that they form.
pub mod Tampering
use horseness.Common.{
  ℕ, ◌+◌, String, Option, none, some, List, [], ◌∷◌, ◌++◌, every, Bool, true, false, not, ◌&&◌,
  ◌||◌, ◌==◌, str_eq, truthy, Result, ok, err, ◌>>=◌, ◌>>◌, guard,
}
use horseness.Domain.Forks.{opt_beq, is_null}

pub data ChainError : Type 0 where
  event_chain_empty event_identity_invalid event_chain_invalid event_envelope_invalid : ChainError
  event_payload_hash_invalid event_envelope_hash_invalid malformed_event : ChainError
  unsupported_event_type : ChainError
  event_payload_invalid invalid_genesis : ChainError

pub data StreamKind : Type 0 where
  workspace run : StreamKind

abbrev pub kind_beq : StreamKind → StreamKind → Bool
kind_beq workspace workspace = true
kind_beq run run = true
kind_beq _ _ = false

pub record EventEnvelope (P : Type 0) : Type 0 where
  pub stream_kind : StreamKind
  pub workspace_id : String
  pub stream_id : String
  pub sequence : ℕ
  pub event_id : String
  pub event_type : String
  pub principal_id : String
  pub causation_id : String
  pub correlation_id : String
  pub idempotency_key : String
  pub prior_envelope_hash : Option String
  pub payload_hash : String
  pub payload : P

pub record HashedEventEnvelope (P : Type 0) : Type 0 where
  pub envelope : EventEnvelope P
  pub envelope_hash : String

-- What the chain's check takes from the payloads of a stream: whether their parser knows their
-- type, and its verdict then, their type, and the digests of `domainDigest`.
pub record PayloadFormat (P : Type 0) : Type 0 where
  pub is_supported : P → Bool
  pub is_valid : P → Bool
  pub event_type : P → String
  pub payload_digest : P → String
  pub envelope_digest : EventEnvelope P → String

abbrev pub genesis_type : StreamKind → String
genesis_type workspace = "WorkspaceCreatedV1"
genesis_type run = "RunCreatedV1"

abbrev pub is_run : StreamKind → Bool
is_run run = true
is_run workspace = false

abbrev pub envelope_texts : {P : Type 0} → EventEnvelope P → List String
envelope_texts e =
    e.event_id ∷ e.event_type ∷ e.principal_id ∷ e.causation_id ∷ e.correlation_id
    ∷ e.idempotency_key ∷ []

module _ {P : Type 0} (format : PayloadFormat P) where
  -- The envelope with its payload's digest, under its own.
  unfoldable pub seal_event_envelope : EventEnvelope P → HashedEventEnvelope P
  seal_event_envelope e =
      let full : EventEnvelope P = record e { payload_hash = format.payload_digest e.payload } in
      record { envelope = full; envelope_hash = format.envelope_digest full }

  -- The checks of one event: `n` events and the hash `prior` are before it.
  unfoldable pub verify_event :
      EventEnvelope P → ℕ → Option String → HashedEventEnvelope P → Result ChainError (Unit {0})
  verify_event first n prior item = do
    guard
        (kind_beq item.envelope.stream_kind first.stream_kind
          && str_eq item.envelope.workspace_id first.workspace_id
          && str_eq item.envelope.stream_id first.stream_id)
        event_identity_invalid
    guard (item.envelope.sequence == n + 1 && opt_beq item.envelope.prior_envelope_hash prior)
        event_chain_invalid
    guard (every truthy (envelope_texts item.envelope)) event_envelope_invalid
    guard (str_eq (format.payload_digest item.envelope.payload) item.envelope.payload_hash)
        event_payload_hash_invalid
    guard (str_eq (format.envelope_digest item.envelope) item.envelope_hash)
        event_envelope_hash_invalid
    guard (format.is_supported item.envelope.payload) unsupported_event_type
    guard (format.is_valid item.envelope.payload) malformed_event
    guard (str_eq (format.event_type item.envelope.payload) item.envelope.event_type)
        event_payload_invalid

  unfoldable pub verify_events :
      EventEnvelope P
      → ℕ
      → Option String
      → List (HashedEventEnvelope P)
      → Result ChainError (Unit {0})
  unfolding verify_event
  verify_events first n prior [] = ok tt
  verify_events first n prior (item ∷ items) = do
    verify_event first n prior item
    verify_events first (n + 1) (some item.envelope_hash) items

  unfoldable pub verify_event_chain : List (HashedEventEnvelope P) → Result ChainError (Unit {0})
  unfolding verify_events
  verify_event_chain [] = err event_chain_empty
  verify_event_chain (first ∷ rest) = do
    guard
        (is_run first.envelope.stream_kind
          || str_eq first.envelope.stream_id first.envelope.workspace_id)
        event_identity_invalid
    verify_events first.envelope 0 none (first ∷ rest)
    guard
        (str_eq first.envelope.event_type (genesis_type first.envelope.stream_kind)
          && is_null first.envelope.prior_envelope_hash
          && first.envelope.sequence == 1)
        invalid_genesis
