-- ===== src/Tests/Journals.antt =====
-- A journal of two appends, where a line is one unit that stands for its record.
use horseness.Common.{
  Option, none, some, List, [], ◌∷◌, Bool, true, false, map, ok, err, ◌≡◌, refl, str_eq,
}
use horseness.Installer.Journal.{
  JournalRuntime, InstallerJournalPayload, InstallerJournalRecord, DecodedLine, not_json, raw, v1,
  consent_recorded, migration_begun, read, read_lines, read_line, parse_raw_line, seal,
  invalid_journal_json,
}
use horseness.Common.Splitting.{split, lines}
use horseness.Installer.Journal.Chain.{RuntimeLaws}
use horseness.Installer.Journal.Appends.{run_appends, run_appends-read}

abbrev decode : List (Option InstallerJournalRecord) → DecodedLine
decode (some r ∷ []) = raw (v1 r)
decode _ = not_json

abbrev is_none : Option InstallerJournalRecord → Bool
is_none none = true
is_none (some r) = false

abbrev runtime : JournalRuntime (Option InstallerJournalRecord)
runtime = record {
  newline = none;
  is_newline = is_none;
  is_hex = λ t. true;
  is_token = λ t. true;
  decode = decode;
  encode = λ r. some r ∷ [];
  sha = λ r. "h";
  zeros = "0";
}

laws : RuntimeLaws runtime
laws = record {
  newline_is_newline = refl;
  encode_is_line = λ r. refl;
  encode_is_filled = λ r. refl;
  decode_encode = λ r. refl;
  sha_is_hex = λ r. refl;
  zeros_is_hex = refl;
  sha_of_core = λ r hash. refl;
}

abbrev consented : InstallerJournalPayload
consented = record {
  operation = consent_recorded;
  transaction_id = "t";
  release_version = "1";
  detail_digest = "d";
}

abbrev begun : InstallerJournalPayload
begun = record {
  operation = migration_begun;
  transaction_id = "t";
  release_version = "1";
  detail_digest = "d";
}

run_appends-read_example :
    (out : Option (List (Option InstallerJournalRecord))) × (rs : List InstallerJournalRecord)
    × (run_appends runtime 1 (consented ∷ begun ∷ []) none ≡ ok out)
    × (read runtime 1 out ≡ ok rs)
    × (map (λ r. r.payload) rs ≡ consented ∷ begun ∷ [])
run_appends-read_example = run_appends-read runtime laws 1 (consented ∷ begun ∷ []) refl refl refl

-- A file that does not end in a newline is read, but is not read any more after an append to it.
unterminated_reads :
    read runtime 1 (some (some (seal runtime 1 [] consented) ∷ []))
    ≡ ok (seal runtime 1 [] consented ∷ [])
unfolding read read_lines read_line parse_raw_line lines split str_eq
unterminated_reads = refl

unterminated_append :
    read runtime 1 (
      some (
        some (seal runtime 1 [] consented)
        ∷ some (seal runtime 1 (seal runtime 1 [] consented ∷ []) begun)
        ∷ none
        ∷ []))
    ≡ err invalid_journal_json
unfolding read read_lines read_line parse_raw_line lines split str_eq
unterminated_append = refl
