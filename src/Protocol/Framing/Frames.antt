-- ===== src/Protocol/Framing/Frames.antt =====
-- packages/protocol/src/transports/framing.ts: the frames of written values, read from any bytes that
-- hold the first of them.
use horseness.Common.{
  ℕ, zero, suc, ◌≤◌, none, some, List, [], ◌∷◌, ◌++◌, any, length, length-append, false,
  Option-cases, Bool-cases, Result, ok, ◌>>=◌, >>=-eq-ok, ok_injective, ◌≡◌, refl, sym, ap, ◌∙◌,
  ◌⊎◌, inl, inr, arith,
}
use mathlib.Core.List.{append_assoc}
use horseness.Protocol.Framing.{
  FrameError, JsonRuntime, Bytes, newline, is_newline, is_empty, oversized, split_line, strip,
  decode, drain, write, yield_value,
}
use horseness.Protocol.Framing.Lines.{split_line-prefix, split_line-length, split_line-none}

-- What is documented of JSON: a value's text has neither a newline nor a carriage return at its end,
-- is not empty, and is parsed to the value.
pub record JsonLaws {V : Type 0} (json : JsonRuntime V) : Type 0 where
  pub parsed_again : (v : V) (b : Bytes) → json.stringify v ≡ some b → json.parse b ≡ some v
  pub one_line : (v : V) (b : Bytes) → json.stringify v ≡ some b → any is_newline b ≡ false
  pub not_empty : (v : V) (b : Bytes) → json.stringify v ≡ some b → is_empty b ≡ false
  pub no_return : (v : V) (b : Bytes) → json.stringify v ≡ some b → strip b ≡ b

module _ {V : Type 0} (json : JsonRuntime V) (max : ℕ) where
  -- The bytes of values that are written one after another.
  unfoldable pub write_all : List V → Result FrameError Bytes
  write_all [] = ok []
  write_all (v ∷ vs) = do frame ← write json max v; rest ← write_all vs; ok (frame ++ rest)

  -- The frame of a value: its text, which is short enough, and a newline.
  pub record Framed (v : V) (frame : Bytes) : Type 0 where
    pub body : Bytes
    pub text : json.stringify v ≡ some body
    pub short : oversized max body ≡ false
    pub line : frame ≡ body ++ newline ∷ []

  pub write-Framed : (v : V) (frame : Bytes) → write json max v ≡ ok frame → Framed v frame
  unfolding write
  write-Framed v frame h = elim (Option-cases (json.stringify v)) [
    | inl e ↦ absurd (cc (rw (e, write) at h))
    | inr (body, e) ↦ elim (Bool-cases (oversized max body)) [
      | inl f ↦ absurd (cc (rw (e, f, write) at h))
      | inr f ↦ record {
        body = body;
        text = e;
        short = f;
        line = sym (ok_injective (rw (e, f, write) at h));
      }
    ]
  ]

  -- What a reader that holds `rest`, with the bytes `more` to come, has still to yield.
  pub record Awaits (rest more : Bytes) (vs : List V) : Type 0 where
    pub written : write_all vs ≡ ok (rest ++ more)
    pub clean : any is_newline rest ≡ false
    pub short : oversized max rest ≡ false

  pub drain-none : (n : ℕ) (q : Bytes) → split_line q ≡ none → drain json max n q ≡ ([], ok q)
  unfolding drain
  drain-none zero q h = refl
  drain-none (suc n) q h = rw (h, drain) refl

  module _ (laws : JsonLaws json) where
    -- The values that the bytes `q` hold, and what is left.
    pub record Drained (n : ℕ) (q more : Bytes) (vs : List V) : Type 0 where
      pub now : List V
      pub later : List V
      pub rest : Bytes
      pub all : vs ≡ now ++ later
      pub read : drain json max n q ≡ (now, ok rest)
      pub awaits : Awaits rest more later

    drain-line :
        (n : ℕ) (q body next : Bytes) (v : V)
        → json.stringify v ≡ some body
        → oversized max body ≡ false
        → split_line q ≡ some (body, next)
        → drain json max (suc n) q ≡ yield_value v (drain json max n next)
    unfolding drain decode
    drain-line n q body next v text short found =
        rw (found, drain)
          (rw
            (
              laws.no_return v body text,
              laws.not_empty v body text,
              short,
              laws.parsed_again v body text,
            )
            refl)

    -- One frame was read and the rest of the bytes is to come.
    drain-next :
        (n : ℕ) (q more : Bytes) (v : V) (vs : List V) (frame next : Bytes)
        (framed : Framed v frame)
        → split_line q ≡ some (framed.body, next)
        → Drained n next more vs
        → Drained (suc n) q more (v ∷ vs)
    drain-next n q more v vs frame next framed found d = record {
      now = v ∷ d.now;
      later = d.later;
      rest = d.rest;
      all = ap (λ xs. v ∷ xs) d.all;
      read =
          drain-line n q framed.body next v framed.text framed.short found
          ∙ ap (yield_value v) d.read;
      awaits = d.awaits;
    }

    -- Bytes that end within a short line are short.
    within-short :
        (q s body : Bytes) → body ≡ q ++ s → oversized max body ≡ false → oversized max q ≡ false
    within-short q s body inside short = ground (arith, ap length inside, length-append q s)

    -- Either no frame is whole yet, or the first one is.
    first_frame :
        (n : ℕ) (q more : Bytes) (v : V) (vs : List V)
        → write_all (v ∷ vs) ≡ ok (q ++ more)
        → Drained n q more (v ∷ vs)
          ⊎ ((frame : Bytes) × (next : Bytes) × (framed : Framed v frame) × (split_line q
                ≡ some (framed.body, next))
              × (write_all vs ≡ ok (next ++ more)))
    unfolding write_all
    first_frame n q more v vs w =
        let (frame, one, w1) = >>=-eq-ok (write json max v) _ w in
        let (tail, others, w2) = >>=-eq-ok (write_all vs) _ w1 in
        let framed : Framed v frame = write-Framed v frame one in
        let whole : q ++ more ≡ framed.body ++ newline ∷ tail =
          sym (ok_injective w2)
          ∙ (ap (λ f. f ++ tail) framed.line ∙ append_assoc framed.body (newline ∷ []) tail) in
        elim (split_line-prefix q more framed.body tail (laws.one_line v framed.body framed.text)
          whole) [
            | inl (cut, s, inside) ↦ inl (record {
              now = [];
              later = v ∷ vs;
              rest = q;
              all = refl;
              read = drain-none n q cut;
              awaits = record {
                written = w;
                clean = split_line-none q cut;
                short = within-short q s framed.body inside framed.short;
              };
            })
            | inr (next, found, left) ↦ inr (frame, next, framed, found, others ∙ ap ok (sym left))
          ]

    pub drain-Drained :
        (n : ℕ) (q more : Bytes) (vs : List V)
        → length q ≤ n
        → write_all vs ≡ ok (q ++ more)
        → Drained n q more vs
    unfolding write_all split_line
    drain-Drained n [] more [] fuel w = record {
      now = [];
      later = [];
      rest = [];
      all = refl;
      read = drain-none n [] refl;
      awaits = record { written = w; clean = refl; short = ground arith };
    }
    drain-Drained n (b ∷ q) more [] fuel w = absurd (cc w)
    drain-Drained zero q more (v ∷ vs) fuel w = elim (first_frame zero q more v vs w) [
      | inl d ↦ d
      | inr (frame, next, framed, found, others) ↦
          absurd (omega (arith, split_line-length q framed.body next found, fuel))
    ]
    drain-Drained (suc n) q more (v ∷ vs) fuel w = elim (first_frame (suc n) q more v vs w) [
      | inl d ↦ d
      | inr (frame, next, framed, found, others) ↦
          drain-next n q more v vs frame next framed found (
            drain-Drained n next more vs
              (omega (arith, split_line-length q framed.body next found, fuel)) others)
    ]
