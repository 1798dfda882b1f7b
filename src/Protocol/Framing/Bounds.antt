-- ===== src/Protocol/Framing/Bounds.antt =====
-- packages/protocol/src/transports/framing.ts: how many bytes a reader holds.
use horseness.Common.{
  ℕ, zero, suc, ◌≤◌, List, [], ◌∷◌, Option-cases, ◌++◌, any, length, false, not, ◌&&◌, Bool-cases,
  Result, ok, err, Result-cases, ◌≡◌, refl, ap, inl, inr, arith, ok_injective,
}
use horseness.Protocol.Framing.{
  FrameError, JsonRuntime, Bytes, is_newline, oversized, is_empty, strip, split_line, decode, drain,
  feed, bounded,
}
use horseness.Protocol.Framing.Lines.{split_line-none, split_line-length}

module _ {V : Type 0} (json : JsonRuntime V) (max : ℕ) where
  bounded-eq-ok :
      (m : Result FrameError Bytes) (rest : Bytes)
      → bounded json max m ≡ ok rest
      → (m ≡ ok rest) × (oversized max rest ≡ false)
  bounded-eq-ok (err e) rest h = absurd (cc h)
  bounded-eq-ok (ok r) rest h = elim (Bool-cases (oversized max r)) [
    | inl e ↦ absurd (cc (rw e at h))
    | inr e ↦ let same : r ≡ rest = ok_injective (rw e at h) in (ap ok same, rw (← same) e)
  ]

  -- The loop over the lines leaves no line.
  drain-clean :
      (n : ℕ) (q rest : Bytes)
      → length q ≤ n
      → (drain json max n q).1 ≡ ok rest
      → any is_newline rest ≡ false
  unfolding drain
  drain-clean zero [] rest fuel h = rw (← ok_injective h) refl
  drain-clean zero (b ∷ q) rest fuel h = absurd (omega (arith, fuel))
  drain-clean (suc n) q rest fuel h = elim (Option-cases (split_line q)) [
    | inl e ↦ rw (← ok_injective (rw (e, drain) at h)) (split_line-none q e)
    | inr (line, e) ↦
        let less : length line.1 ≤ n = omega (arith, split_line-length q line.0 line.1 e, fuel) in
        elim (Bool-cases (is_empty (strip line.0))) [
          | inl f ↦ drain-clean n line.1 rest less (rw (e, f, drain) at h)
          | inr f ↦ elim (Result-cases (decode json max (strip line.0))) [
            | inl (v, d) ↦ drain-clean n line.1 rest less (rw (e, f, d, drain) at h)
            | inr (x, d) ↦ absurd (cc (rw (e, f, d, drain) at h))
          ]
        ]
  ]

  -- What a reader holds after a chunk, when it has not failed, is within its limit and has no
  -- newline: each line that was complete is read, and the reader never waits with more.
  pub feed-bounded :
      (pending chunk rest : Bytes) (vs : List V)
      → feed json max pending chunk ≡ (vs, ok rest)
      → (length rest ≤ max) × (any is_newline rest ≡ false)
  unfolding feed
  feed-bounded pending chunk rest vs h =
      let q : Bytes = pending ++ chunk in
      elim (Bool-cases (oversized max q && not (any is_newline q))) [
        | inl e ↦ absurd (cc (rw (e, feed) at h))
        | inr e ↦
            let after : bounded json max (drain json max (length q) q).1 ≡ ok rest =
              ap (λ r. r.1) (rw (e, feed) at h) in
            let (read, short) = bounded-eq-ok (drain json max (length q) q).1 rest after in
            (ground (arith, short), drain-clean (length q) q rest (omega arith) read)
      ]
