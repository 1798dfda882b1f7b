-- ===== src/Protocol/Framing/Lines.antt =====
-- packages/protocol/src/transports/framing.ts: where a line ends.
use horseness.Common.{
  ◌<◌, none, some, [], ◌∷◌, ◌++◌, any, length, true, false, Bool-cases, Option-cases, ◌≡◌, refl, ap,
  ◌⊎◌, inl, inr, arith,
}
use horseness.Protocol.Framing.{Bytes, newline, is_newline, split_line}

-- The bytes `q` of a line and what follows it: either they end within the line, or they hold it.
pub split_line-prefix :
    (q r body tail : Bytes)
    → any is_newline body ≡ false
    → q ++ r ≡ body ++ newline ∷ tail
    → ((split_line q ≡ none) × (s : Bytes) × (body ≡ q ++ s))
      ⊎ ((next : Bytes) × (split_line q ≡ some (body, next)) × (next ++ r ≡ tail))
unfolding split_line
split_line-prefix [] r body tail clean h = inl (refl, body, refl)
split_line-prefix (b ∷ q) r [] tail clean h =
    let same : b ≡ newline = cc h in inr (q, rw (same) refl, cc h)
split_line-prefix (b ∷ q) r (c ∷ body) tail clean h =
    let same : b ≡ c = cc h in
    let other : is_newline b ≡ false = ground (arith, same) in
    elim (split_line-prefix q r body tail (ground arith) (cc h)) [
      | inl (none_left, s, inside) ↦ inl (rw (other, none_left) refl, s, cc (same, inside))
      | inr (next, found, rest) ↦ inr (next, rw (other, found, same) refl, rest)
    ]

pub split_line-length :
    (q line next : Bytes) → split_line q ≡ some (line, next) → length next < length q
unfolding split_line
split_line-length [] line next h = absurd (cc h)
split_line-length (b ∷ q) line next h = elim (Bool-cases (is_newline b)) [
  | inl e ↦ let same : q ≡ next = cc (rw e at h) in omega (arith, ap length same)
  | inr e ↦ elim (Option-cases (split_line q)) [
    | inl f ↦ absurd (cc (rw (e, f) at h))
    | inr (found, f) ↦
        let same : found.1 ≡ next = cc (rw (e, f) at h) in
        omega (arith, split_line-length q found.0 found.1 f, ap length same)
  ]
]

pub split_line-none : (q : Bytes) → split_line q ≡ none → any is_newline q ≡ false
unfolding split_line
split_line-none [] h = refl
split_line-none (b ∷ q) h = ground (arith, split_line-none q)

pub split_line-some :
    (q : Bytes) (line : Bytes × Bytes) → split_line q ≡ some line → any is_newline q ≡ true
unfolding split_line
split_line-some [] line h = absurd (cc h)
split_line-some (b ∷ q) line h = elim (Bool-cases (is_newline b)) [
  | inl e ↦ ground arith
  | inr e ↦ elim (Option-cases (split_line q)) [
    | inl f ↦ absurd (cc (rw (e, f) at h))
    | inr (found, f) ↦ ground (arith, split_line-some q found f)
  ]
]
