-- ===== src/Installer/Journal.antt =====
-- packages/installer/src/journal/index.ts: the journal of the installer, a file of lines that each hold
-- a record chained to the one before.
pub mod Chain
pub mod Appends
use horseness.Common.{
  ℕ, suc, ◌+◌, String, Option, none, some, List, [], ◌∷◌, ◌++◌, length, Bool, true, false, not,
  ◌&&◌, ◌==◌, leb, str_eq, Result, ok, err, ◌>>=◌, ◌>>◌, guard, if◌then◌else◌,
}
use horseness.Common.Splitting.{lines}

pub data JournalOperation : Type 0 where
  consent_recorded migration_begun backup_created staged activated compensating compensated
        repair_required uninstall_pending uninstalled :
      JournalOperation

pub record InstallerJournalPayload : Type 0 where
  pub operation : JournalOperation
  pub transaction_id : String
  pub release_version : String
  pub detail_digest : String

pub record InstallerJournalRecord : Type 0 where
  pub generation : ℕ
  pub sequence : ℕ
  pub previous_hash : String
  pub payload : InstallerJournalPayload
  pub record_hash : String

-- A record of the first schema has the members of its payload beside its own.
pub record InstallerJournalRecordV0 : Type 0 where
  pub generation : ℕ
  pub sequence : ℕ
  pub previous_hash : String
  pub operation : JournalOperation
  pub transaction_id : String
  pub release_version : String
  pub detail_digest : String
  pub record_hash : String

pub data RawRecord : Type 0 where
  v0 : InstallerJournalRecordV0 → RawRecord
  v1 : InstallerJournalRecord → RawRecord

pub data InstallerJournalError : Type 0 where
  invalid_journal_payload invalid_journal_json invalid_journal_record unknown_newer_journal_schema
        unknown_journal_schema journal_hash_mismatch journal_chain_mismatch :
      InstallerJournalError

-- What the JSON of a line is: no JSON, a value that is not an object with a schema, an object of a
-- schema that is later or unknown, one that has not the members of its schema, or a record.
pub data DecodedLine : Type 0 where
  not_json no_schema newer_schema unknown_schema other_members : DecodedLine
  raw : RawRecord → DecodedLine

-- What the module takes from the JavaScript runtime and from SHA-256: the units of a text, the newline
-- and the test for it, the two regular expressions, the JSON of a line, the line of a record, the hash of a record without its own hash, and the hash
-- of zeros.
pub record JournalRuntime (C : Type 0) : Type 0 where
  pub newline : C
  pub is_newline : C → Bool
  pub is_hex : String → Bool
  pub is_token : String → Bool
  pub decode : List C → DecodedLine
  pub encode : InstallerJournalRecord → List C
  pub sha : RawRecord → String
  pub zeros : String

abbrev pub raw_generation : RawRecord → ℕ
raw_generation (v0 r) = r.generation
raw_generation (v1 r) = r.generation

abbrev pub raw_sequence : RawRecord → ℕ
raw_sequence (v0 r) = r.sequence
raw_sequence (v1 r) = r.sequence

abbrev pub raw_previous_hash : RawRecord → String
raw_previous_hash (v0 r) = r.previous_hash
raw_previous_hash (v1 r) = r.previous_hash

abbrev pub raw_hash : RawRecord → String
raw_hash (v0 r) = r.record_hash
raw_hash (v1 r) = r.record_hash

abbrev pub raw_payload : RawRecord → InstallerJournalPayload
raw_payload (v1 r) = r.payload
raw_payload (v0 r) = record {
  operation = r.operation;
  transaction_id = r.transaction_id;
  release_version = r.release_version;
  detail_digest = r.detail_digest;
}

abbrev pub upcast : RawRecord → InstallerJournalRecord
upcast (v1 r) = r
upcast (v0 r) = record {
  generation = r.generation;
  sequence = r.sequence;
  previous_hash = r.previous_hash;
  payload = raw_payload (v0 r);
  record_hash = r.record_hash;
}

-- A safe integer from 1 on.
abbrev pub is_count : ℕ → Bool
is_count n = leb 1 n && leb n 9007199254740991

-- The hash of the last record, or of none.
abbrev pub last_hash : String → List InstallerJournalRecord → String
last_hash hash [] = hash
last_hash hash (r ∷ rs) = last_hash r.record_hash rs

abbrev pub bytes_of : {C : Type 0} → Option (List C) → List C
bytes_of none = []
bytes_of (some bytes) = bytes

module _ {C : Type 0} (runtime : JournalRuntime C) where
  abbrev pub Text : Type 0
  Text = List C

  abbrev pub payload_ok : InstallerJournalPayload → Bool
  payload_ok p =
      runtime.is_token p.transaction_id
      && runtime.is_token p.release_version
      && runtime.is_hex p.detail_digest

  abbrev pub validate_payload : InstallerJournalPayload → Result InstallerJournalError (Unit {0})
  validate_payload p = guard (payload_ok p) invalid_journal_payload

  abbrev pub numbers_ok : RawRecord → Bool
  numbers_ok r =
      is_count (raw_generation r)
      && is_count (raw_sequence r)
      && runtime.is_hex (raw_previous_hash r)
      && runtime.is_hex (raw_hash r)

  abbrev pub check_decoded : DecodedLine → Result InstallerJournalError RawRecord
  check_decoded not_json = err invalid_journal_json
  check_decoded no_schema = err invalid_journal_record
  check_decoded newer_schema = err unknown_newer_journal_schema
  check_decoded unknown_schema = err unknown_journal_schema
  check_decoded other_members = err invalid_journal_record
  check_decoded (raw r) = do
    guard (numbers_ok r) invalid_journal_record
    validate_payload (raw_payload r)
    ok r

  unfoldable pub parse_raw_line : Text → Result InstallerJournalError RawRecord
  parse_raw_line line = check_decoded (runtime.decode line)

  abbrev pub authenticate_raw : RawRecord → Result InstallerJournalError (Unit {0})
  authenticate_raw r = guard (str_eq (runtime.sha r) (raw_hash r)) journal_hash_mismatch

  -- One round of the loop of `read`, at a number of records before and the hash of the last of them.
  unfoldable pub read_line :
      ℕ → ℕ → String → Text → Result InstallerJournalError InstallerJournalRecord
  unfolding parse_raw_line
  read_line generation index previous line = do
    r ← parse_raw_line line
    authenticate_raw r
    guard
        (raw_generation r == generation
          && raw_sequence r == index + 1
          && str_eq (raw_previous_hash r) previous)
        journal_chain_mismatch
    ok (upcast r)

  unfoldable pub read_lines :
      ℕ → ℕ → String → List Text → Result InstallerJournalError (List InstallerJournalRecord)
  unfolding read_line
  read_lines generation index previous [] = ok []
  read_lines generation index previous (l ∷ ls) = do
    r ← read_line generation index previous l
    rs ← read_lines generation (suc index) r.record_hash ls
    ok (r ∷ rs)

  -- `read`, on what is in the file of the generation, if that is there.
  unfoldable pub read : ℕ → Option Text → Result InstallerJournalError (List InstallerJournalRecord)
  unfolding read_lines
  read generation none = ok []
  read generation (some bytes) =
      read_lines generation 0 runtime.zeros (lines runtime.newline runtime.is_newline bytes)

  abbrev pub seal :
      ℕ → List InstallerJournalRecord → InstallerJournalPayload → InstallerJournalRecord
  seal generation records payload =
      let core : InstallerJournalRecord = record {
        generation = generation;
        sequence = length records + 1;
        previous_hash = last_hash runtime.zeros records;
        payload = payload;
        record_hash = "";
      } in
      record core { record_hash = runtime.sha (v1 core) }

  -- `append` under its lock: the record, and what is in the file then.
  unfoldable pub append :
      ℕ
      → Option Text
      → InstallerJournalPayload
      → Result InstallerJournalError (InstallerJournalRecord × Text)
  unfolding read
  append generation file payload = do
    validate_payload payload
    records ← read generation file
    let r = seal generation records payload
    ok (r, bytes_of file ++ runtime.encode r ++ runtime.newline ∷ [])
