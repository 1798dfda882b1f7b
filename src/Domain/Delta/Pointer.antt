-- ===== src/Domain/Delta/Pointer.antt =====
-- packages/domain/src/delta.ts: JSON pointers, their escapes and their validation.
pub mod RoundTrip
use horseness.Common.{
  ℕ, List, [], ◌∷◌, ◌++◌, map, every, Bool, true, false, ◌&&◌, ◌||◌, not, ◌==◌, if◌then◌else◌,
  Option, none, some,
}
use horseness.Domain.Canonical.{Text, text_beq, assert_valid_unicode}

abbrev pub tilde : ℕ
tilde = 0x7e

abbrev pub slash : ℕ
slash = 0x2f

abbrev pub zero_digit : ℕ
zero_digit = 0x30

abbrev pub one_digit : ℕ
one_digit = 0x31

-- `text.replaceAll(c, by)` for a text `c` of one unit.
unfoldable pub replace_unit : ℕ → Text → Text → Text
replace_unit c by [] = []
replace_unit c by (u ∷ s) =
    let rest = replace_unit c by s in (if u == c then by else u ∷ []) ++ rest

unfoldable pub encode_pointer_token : Text → Text
unfolding replace_unit
encode_pointer_token token =
    replace_unit slash (tilde ∷ one_digit ∷ []) (replace_unit tilde (tilde ∷ zero_digit ∷ []) token)

-- `text.replaceAll(xy, z)` for a text `xy` of two units that differ; the flag says that the unit
-- before was an `x` which is not yet given out.
unfoldable pub replace_pair : ℕ → ℕ → ℕ → Bool → Text → Text
replace_pair x y z false [] = []
replace_pair x y z true [] = x ∷ []
replace_pair x y z false (u ∷ s) = elim (u == x) [
  | true ↦ replace_pair x y z true s
  | false ↦ u ∷ replace_pair x y z false s
]
replace_pair x y z true (u ∷ s) = elim (u == y) [
  | true ↦ z ∷ replace_pair x y z false s
  | false ↦ elim (u == x) [
    | true ↦ x ∷ replace_pair x y z true s
    | false ↦ x ∷ u ∷ replace_pair x y z false s
  ]
]

unfoldable pub decode_pointer_token : Text → Text
unfolding replace_pair
decode_pointer_token token =
    replace_pair tilde zero_digit tilde false (replace_pair tilde one_digit slash false token)

-- No `~` without a `0` or `1` behind it; the flag says that the unit before was a `~`.
unfoldable pub escapes_ok : Bool → Text → Bool
escapes_ok true [] = false
escapes_ok false [] = true
escapes_ok true (u ∷ s) = (u == zero_digit || u == one_digit) && escapes_ok false s
escapes_ok false (u ∷ s) = escapes_ok (u == tilde) s

abbrev grow : ℕ → List Text → List Text
grow u [] = (u ∷ []) ∷ []
grow u (t ∷ ts) = (u ∷ t) ∷ ts

-- `text.split("/")`
unfoldable pub split_slash : Text → List Text
split_slash [] = [] ∷ []
split_slash (u ∷ s) = let rest = split_slash s in if u == slash then [] ∷ rest else grow u rest

-- `/` before each token, and all joined.
unfoldable pub join_tokens : List Text → Text
unfolding encode_pointer_token
join_tokens [] = []
join_tokens (t ∷ ts) = slash ∷ (encode_pointer_token t ++ join_tokens ts)

-- The tokens behind the leading slash, or `none` for `INVALID_POINTER`.
unfoldable pub pointer_tokens : Text → Text → Option (List Text)
pointer_tokens path body =
    let parts = split_slash body in
    let tokens = map decode_pointer_token parts in
    if every (escapes_ok false) parts && text_beq (join_tokens tokens) path
    then some tokens
    else none

unfoldable pub validate_pointer : Text → Option (List Text)
validate_pointer [] = some []
validate_pointer (u ∷ s) =
    if assert_valid_unicode (u ∷ s) && u == slash then pointer_tokens (u ∷ s) s else none
