-- ===== src/Domain/Canonical.antt =====
-- packages/domain/src/canonical.ts: JSON values and the check of their texts. A text is the list of
-- its UTF-16 code units.
use horseness.Common.{
  ℕ, List, [], ◌∷◌, Bool, true, false, ◌&&◌, not, leb, ◌==◌, Eq, ◌≡◌, ◌↔◌, arith, String,
}
use Prim.Native.Char.{code}

abbrev pub Text : Type 0
Text = List ℕ

-- The code units of an ASCII literal.
abbrev pub units : String → Text
units String.[] = []
units (String.◌∷◌ c s) = code c ∷ units s

unfoldable pub text_beq : Text → Text → Bool
text_beq [] [] = true
text_beq (a ∷ s) (b ∷ t) = a == b && text_beq s t
text_beq _ _ = false

pub text_beq_iff : (s t : Text) → (text_beq s t ≡ true) ↔ (s ≡ t)
unfolding text_beq
text_beq_iff [] [] = ground arith
text_beq_iff [] (b ∷ t) = ground arith
text_beq_iff (a ∷ s) [] = ground arith
text_beq_iff (a ∷ s) (b ∷ t) = ground (arith, text_beq_iff s t)

instance abbrev pub text_eq : Eq Text
text_eq = record { beq = text_beq; beq_iff = text_beq_iff }

-- A number stands by its canonical text, which is all that is ever read of it here.
mutual
  pub data Json : Type 0 where
    null : Json
    bool : Bool → Json
    num : Text → Json
    str : Text → Json
    arr : Items → Json
    obj : Fields → Json

  pub data Items : Type 0 where
    nil : Items
    cons : Json → Items → Items

  pub data Fields : Type 0 where
    end : Fields
    field : Text → Json → Fields → Fields

abbrev is_high : ℕ → Bool
is_high u = leb 0xd800 u && leb u 0xdbff

abbrev is_low : ℕ → Bool
is_low u = leb 0xdc00 u && leb u 0xdfff

-- `assertValidUnicode`; the flag says that a high surrogate waits for its low one.
unfoldable pub valid_from : Bool → Text → Bool
valid_from true [] = false
valid_from false [] = true
valid_from true (u ∷ s) = is_low u && valid_from false s
valid_from false (u ∷ s) = not (is_low u) && valid_from (is_high u) s

unfoldable pub assert_valid_unicode : Text → Bool
unfolding valid_from
assert_valid_unicode s = valid_from false s

-- `assertJson` on a value that is JSON by its type: what is left is to check its texts.
unfoldable mutual
  unfolding assert_valid_unicode

  pub assert_json : Json → Bool
  assert_json null = true
  assert_json (bool b) = true
  assert_json (num n) = true
  assert_json (str s) = assert_valid_unicode s
  assert_json (arr xs) = assert_items xs
  assert_json (obj fs) = assert_fields fs

  pub assert_items : Items → Bool
  assert_items nil = true
  assert_items (cons x xs) = assert_json x && assert_items xs

  pub assert_fields : Fields → Bool
  assert_fields end = true
  assert_fields (field k v fs) = assert_valid_unicode k && assert_json v && assert_fields fs
