-- ===== src/Store/Locations.antt =====
-- packages/store-sqlite/src/restore/index.ts: the paths of a restore, and where a retained backup may
-- not be.
use horseness.Common.{List, [], ◌∷◌, ◌++◌, Bool, not, ◌&&◌, ◌||◌, any}
use horseness.Common.Splitting.{has_prefix}
use horseness.Domain.Canonical.{Text, text_beq, units}

-- The functions of `node:path`, whether a path is that of a directory which is none through a link,
-- and the two resolved paths that the caller gives.
pub record Locations : Type 0 where
  pub resolve_path : Text → Text
  pub relative : Text → Text → Text
  pub is_absolute : Text → Bool
  pub basename : Text → Text
  pub dirname : Text → Text
  pub join : Text → Text → Text
  pub sep : Text
  pub is_stable_directory : Text → Bool
  pub database_path : Text
  pub artifact_root : Text

abbrev journal_path : Text → Text
journal_path database_path = database_path ++ units ".restore-intent.json"

abbrev journal_next_path : Text → Text
journal_next_path database_path = journal_path database_path ++ units ".next"

abbrev commit_evidence_path : Text → Text
commit_evidence_path database_path = database_path ++ units ".restore-commit.json"

abbrev is_blank : Text → Bool
is_blank t = text_beq t []

module _ (at : Locations) where
  abbrev authority_sibling : Text → Text → Text → Text
  authority_sibling live_path marker token =
      at.join (at.dirname live_path)
        (at.basename live_path ++ units "." ++ marker ++ units "-" ++ token)

  -- A relative path that does not lead out.
  abbrev leads_inside : Text → Bool
  leads_inside path =
      not (has_prefix (units ".." ++ at.sep) path)
      && not (text_beq path (units ".."))
      && not (at.is_absolute path)

  unfoldable pub paths_overlap : Text → Text → Bool
  paths_overlap left right =
      is_blank (at.relative left right)
      || leads_inside (at.relative left right)
      || leads_inside (at.relative right left)

  abbrev affected_paths : Text → List Text
  affected_paths token =
      at.database_path
      ∷ at.artifact_root
      ∷ authority_sibling at.database_path (units "old") token
      ∷ authority_sibling at.artifact_root (units "old") token
      ∷ authority_sibling at.database_path (units "restore") token
      ∷ authority_sibling at.artifact_root (units "restore") token
      ∷ journal_path at.database_path
      ∷ journal_next_path at.database_path
      ∷ commit_evidence_path at.database_path
      ∷ []

  abbrev reserved_prefixes : List Text
  reserved_prefixes =
      (at.basename at.database_path ++ units ".old-")
      ∷ (at.basename at.database_path ++ units ".restore-")
      ∷ (at.basename at.artifact_root ++ units ".old-")
      ∷ (at.basename at.artifact_root ++ units ".restore-")
      ∷ []

  -- Whether the retained backup is at or inside a path of the restore of a token, or around one.
  unfoldable pub overlaps_authority : Text → Text → Bool
  unfolding paths_overlap
  overlaps_authority retained token = any (paths_overlap retained) (affected_paths token)

  -- Whether the retained backup has the name of a sibling of any token.
  unfoldable pub is_sibling_name : Text → Bool
  is_sibling_name retained =
      any (λ prefix. has_prefix prefix (at.basename retained)) reserved_prefixes
