-- ===== src/Domain/Delta/Pointer/RoundTrip.antt =====
-- A pointer is read back as the tokens that it was made of, and only such texts are pointers.
use horseness.Common.{
  ℕ, List, [], ◌∷◌, ◌++◌, map, every, Bool, true, false, not, ◌==◌, if◌then◌else◌, some, ◌≡◌, ◌↔◌,
  refl, ap, ◌∙◌, arith, Bool-cases, inl, inr,
}
use horseness.Domain.Canonical.{Text, text_beq_iff, assert_valid_unicode}
use horseness.Domain.Delta.Pointer.{
  tilde, slash, zero_digit, one_digit, replace_unit, encode_pointer_token, replace_pair,
  decode_pointer_token, escapes_ok, split_slash, join_tokens, pointer_tokens, validate_pointer,
}

-- The two passes of `encodePointerToken` in one.
escape : ℕ → Text
escape u =
    if u == tilde
    then tilde ∷ zero_digit ∷ []
    else if u == slash
    then tilde ∷ one_digit ∷ []
    else u ∷ []

escaped : Text → Text
escaped [] = []
escaped (u ∷ s) = escape u ++ escaped s

encode-escaped : (t : Text) → encode_pointer_token t ≡ escaped t
unfolding encode_pointer_token replace_unit escaped escape
encode-escaped [] = refl
encode-escaped (u ∷ t) = elim (Bool-cases (u == tilde)) [
  | inl p ↦ rw p (rw (← encode-escaped t) refl)
  | inr p ↦ elim (Bool-cases (u == slash)) [
    | inl q ↦ rw (p, q) (rw (← encode-escaped t) (ground arith))
    | inr q ↦ rw (p, q) (rw (← encode-escaped t) (ground arith))
  ]
]

-- The escapes that the first pass of decoding leaves.
half : Text → Text
half [] = []
half (u ∷ s) = (if u == tilde then tilde ∷ zero_digit ∷ [] else u ∷ []) ++ half s

first_pass : (t : Text) → replace_pair tilde one_digit slash false (escaped t) ≡ half t
unfolding replace_pair escaped escape half
first_pass [] = refl
first_pass (u ∷ t) = elim (Bool-cases (u == tilde)) [
  | inl p ↦ rw p (ap (λ (s : Text). tilde ∷ zero_digit ∷ s) (first_pass t))
  | inr p ↦ elim (Bool-cases (u == slash)) [
    | inl q ↦ rw (p, q) (ground (arith, first_pass t))
    | inr q ↦ rw (p, q) (ground (arith, first_pass t))
  ]
]

second_pass : (t : Text) → replace_pair tilde zero_digit tilde false (half t) ≡ t
unfolding replace_pair half
second_pass [] = refl
second_pass (u ∷ t) = elim (Bool-cases (u == tilde)) [
  | inl p ↦ rw p (ground (arith, second_pass t))
  | inr p ↦ rw p (ground (arith, second_pass t))
]

decode-encode : (t : Text) → decode_pointer_token (encode_pointer_token t) ≡ t
unfolding decode_pointer_token
decode-encode t = rw (encode-escaped t, first_pass t) (second_pass t)

escaped-escapes_ok : (t : Text) → escapes_ok false (escaped t) ≡ true
unfolding escapes_ok escaped escape
escaped-escapes_ok [] = refl
escaped-escapes_ok (u ∷ t) = elim (Bool-cases (u == tilde)) [
  | inl p ↦ rw p (escaped-escapes_ok t)
  | inr p ↦ elim (Bool-cases (u == slash)) [
    | inl q ↦ rw (p, q) (escaped-escapes_ok t)
    | inr q ↦ rw (p, q) (ground (arith, escaped-escapes_ok t))
  ]
]

encode-escapes_ok : (t : Text) → escapes_ok false (encode_pointer_token t) ≡ true
encode-escapes_ok t = rw (encode-escaped t) (escaped-escapes_ok t)

abbrev no_slash : ℕ → Bool
no_slash u = not (u == slash)

escaped-no_slash : (t : Text) → every no_slash (escaped t) ≡ true
unfolding escaped escape
escaped-no_slash [] = refl
escaped-no_slash (u ∷ t) = elim (Bool-cases (u == tilde)) [
  | inl p ↦ rw p (escaped-no_slash t)
  | inr p ↦ elim (Bool-cases (u == slash)) [
    | inl q ↦ rw (p, q) (escaped-no_slash t)
    | inr q ↦ rw (p, q) (ground (arith, escaped-no_slash t))
  ]
]

encode-no_slash : (t : Text) → every no_slash (encode_pointer_token t) ≡ true
encode-no_slash t = rw (encode-escaped t) (escaped-no_slash t)

split-append :
    (p s : Text) → every no_slash p ≡ true → split_slash (p ++ slash ∷ s) ≡ p ∷ split_slash s
unfolding split_slash
split-append [] s h = refl
split-append (u ∷ p) s h = ground (arith, split-append p s)

split-end : (p : Text) → every no_slash p ≡ true → split_slash (p ++ []) ≡ p ∷ []
unfolding split_slash
split-end [] h = refl
split-end (u ∷ p) h = ground (arith, split-end p)

split-join :
    (t : Text) (ts : List Text)
    → split_slash (encode_pointer_token t ++ join_tokens ts) ≡ map encode_pointer_token (t ∷ ts)
unfolding join_tokens
split-join t [] = split-end (encode_pointer_token t) (encode-no_slash t)
split-join t (x ∷ ts) =
    split-append (encode_pointer_token t) (encode_pointer_token x ++ join_tokens ts)
      (encode-no_slash t)
    ∙ ap (λ (ps : List Text). encode_pointer_token t ∷ ps) (split-join x ts)

decode-map : (ts : List Text) → map decode_pointer_token (map encode_pointer_token ts) ≡ ts
decode-map [] = refl
decode-map (t ∷ ts) = cc (decode-encode t, decode-map ts)

escapes-map : (ts : List Text) → every (escapes_ok false) (map encode_pointer_token ts) ≡ true
escapes-map [] = refl
escapes-map (t ∷ ts) = ground (arith, encode-escapes_ok t, escapes-map ts)

pointer_tokens-join :
    (t : Text) (ts : List Text)
    → pointer_tokens (join_tokens (t ∷ ts)) (encode_pointer_token t ++ join_tokens ts)
      ≡ some (t ∷ ts)
unfolding pointer_tokens
pointer_tokens-join t ts = rw (split-join t ts) (
    rw (decode-map (t ∷ ts), escapes-map (t ∷ ts))
      (ground (arith, text_beq_iff (join_tokens (t ∷ ts)) (join_tokens (t ∷ ts)))))

join-validate :
    (ts : List Text)
    → assert_valid_unicode (join_tokens ts) ≡ true
    → validate_pointer (join_tokens ts) ≡ some ts
unfolding validate_pointer join_tokens
join-validate [] h = refl
join-validate (t ∷ ts) h = rw h (pointer_tokens-join t ts)

pub validate-join :
    (path : Text) (ts : List Text)
    → validate_pointer path ≡ some ts
    → (path ≡ join_tokens ts) × (assert_valid_unicode path ≡ true)
unfolding validate_pointer
validate-join [] [] h = unfold join_tokens assert_valid_unicode in (refl, refl)
validate-join [] (t ∷ ts) h = absurd (cc)
validate-join (u ∷ s) ts h =
    unfold pointer_tokens in
    ground (arith, text_beq_iff (join_tokens (map decode_pointer_token (split_slash s))) (u ∷ s))

-- A text is read as the tokens `ts` exactly when it is the pointer that they make and is valid
-- Unicode; so a pointer has one reading, and tokens whose pointer is valid Unicode are
-- read back.
pub validate_pointer-join :
    (path : Text) (ts : List Text)
    → (validate_pointer path ≡ some ts)
      ↔ ((path ≡ join_tokens ts) × (assert_valid_unicode path ≡ true))
validate_pointer-join path ts =
    (validate-join path ts, λ h. rw h.0 (join-validate ts (rw (← h.0) h.1)))
