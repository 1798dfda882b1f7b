-- ===== src/Engine/Order.antt =====
-- packages/policy/src/lifecycle.ts: the order of texts by their UTF-8 bytes, and policy documents.
use horseness.Common.{ℕ, String, Option, List, [], ◌∷◌, Bool, true, false, ltb, if◌then◌else◌}
use horseness.Domain.Canonical.{Text}

-- The sign of a comparison.
pub data Sign : Type 0 where
  less same greater : Sign

-- The bytes of the one text and the other, up to the end of the shorter, and then the lengths.
unfoldable pub compare_utf8 : List ℕ → List ℕ → Sign
compare_utf8 [] [] = same
compare_utf8 [] (b ∷ bs) = less
compare_utf8 (a ∷ rest) [] = greater
compare_utf8 (a ∷ rest) (b ∷ bs) =
    let later : Sign = compare_utf8 rest bs in
    if ltb a b then less else if ltb b a then greater else later

-- `x || y` on the numbers of comparisons.
abbrev pub or_next : Sign → Sign → Sign
or_next less next = less
or_next greater next = greater
or_next same next = next

abbrev pub not_after : Sign → Bool
not_after less = true
not_after same = true
not_after greater = false

pub data PolicyEffect : Type 0 where
  accepted approval_required quarantined rejected : PolicyEffect

pub record PolicySubject : Type 0 where
  pub action : Option String
  pub path_prefix : Option Text
  pub version : Option String

pub record EvidenceRequirement : Type 0 where
  pub evidence_id : String
  pub digest : String
  pub path : String
  pub version : String

pub record PolicyRule : Type 0 where
  pub rule_id : String
  pub subject : PolicySubject
  pub effect : PolicyEffect
  pub constraints : List String
  pub evidence : List EvidenceRequirement

pub record PolicyDocument : Type 0 where
  pub policy_id : String
  pub revision : ℕ
  pub predecessor_digest : Option String
  pub rules : List PolicyRule
  pub policy_digest : String

pub data PolicySlot : Type 0 where
  no_policy : PolicySlot
  document : PolicyDocument → PolicySlot
