-- ===== src/Protocol/Framing/Delivery.antt =====
-- packages/protocol/src/transports/framing.ts: what is written arrives, however the bytes are cut.
use horseness.Common.{
  ℕ, List, [], ◌∷◌, ◌++◌, any, length, true, false, not, ◌&&◌, Option-cases, ok, >>=-eq-ok,
  ok_injective, ◌≡◌, refl, sym, ap, ◌∙◌, inl, inr, arith,
}
use mathlib.Core.List.{append-nil, append_assoc}
use horseness.Protocol.Framing.{
  JsonRuntime, Bytes, newline, is_newline, oversized, split_line, feed, read_chunks, write,
}
use horseness.Protocol.Framing.Lines.{split_line-some}
use horseness.Protocol.Framing.Frames.{
  JsonLaws, write_all, Framed, write-Framed, Awaits, Drained, drain-none, drain-Drained,
}

module _ {V : Type 0} (json : JsonRuntime V) (max : ℕ) where
  module _ (laws : JsonLaws json) where
    -- A chunk is read to the end of its last whole frame.
    record Fed (pending chunk more : Bytes) (vs : List V) : Type 0 where
      pub now : List V
      pub later : List V
      pub rest : Bytes
      pub all : vs ≡ now ++ later
      pub read : feed json max pending chunk ≡ (now, ok rest)
      pub awaits : Awaits json max rest more later

    -- Bytes that are too many hold a newline.
    not-oversized :
        (q more : Bytes) (vs : List V)
        → write_all json max vs ≡ ok (q ++ more)
        → (oversized max q && not (any is_newline q)) ≡ false
    not-oversized q more vs w = elim (Option-cases (split_line q)) [
      | inl e ↦
          let d : Drained json max laws (length q) q more vs =
            drain-Drained json max laws (length q) q more vs (omega arith) w in
          let same : d.rest ≡ q =
            sym
              (ok_injective (ap (λ r. r.1) (sym (drain-none json max (length q) q e) ∙ d.read))) in
          let short : oversized max q ≡ false = rw (← same) (d.awaits.short) in
          ground (arith, short)
      | inr (line, e) ↦ rw (split_line-some q line e) (ground arith)
    ]

    feed-Fed :
        (pending chunk more : Bytes) (vs : List V)
        → write_all json max vs ≡ ok ((pending ++ chunk) ++ more)
        → Fed pending chunk more vs
    unfolding feed
    feed-Fed pending chunk more vs w =
        let q : Bytes = pending ++ chunk in
        let d : Drained json max laws (length q) q more vs =
          drain-Drained json max laws (length q) q more vs (omega arith) w in
        record {
          now = d.now;
          later = d.later;
          rest = d.rest;
          all = d.all;
          read = rw (not-oversized q more vs w, d.read, d.awaits.short) refl;
          awaits = d.awaits;
        }

    abbrev pub joined : List Bytes → Bytes
    joined [] = []
    joined (chunk ∷ chunks) = chunk ++ joined chunks

    newline_there : (body tail : Bytes) → any is_newline (body ++ newline ∷ tail) ≡ true
    newline_there [] tail = refl
    newline_there (b ∷ body) tail = ground (arith, newline_there body tail)

    -- At the end there is nothing left to read.
    finished-all :
        (pending : Bytes) (vs : List V) → Awaits json max pending [] vs → (vs ≡ []) × (pending ≡ [])
    unfolding write_all
    finished-all pending [] a = (refl, sym (ok_injective a.written ∙ append-nil pending))
    finished-all pending (v ∷ vs) a =
        let (frame, one, w1) = >>=-eq-ok (write json max v) _ a.written in
        let (tail, others, w2) = >>=-eq-ok (write_all json max vs) _ w1 in
        let framed : Framed json max v frame = write-Framed json max v frame one in
        let whole : pending ≡ framed.body ++ newline ∷ tail =
          sym (append-nil pending)
          ∙ (sym (ok_injective w2)
              ∙ (ap (λ f. f ++ tail) framed.line ∙ append_assoc framed.body (newline ∷ []) tail)) in
        absurd (cc (newline_there framed.body tail, ap (any is_newline) whole, a.clean))

    read_chunks-step :
        (pending chunk rest : Bytes) (chunks : List Bytes) (now later : List V)
        → feed json max pending chunk ≡ (now, ok rest)
        → read_chunks json max rest chunks ≡ (later, ok [])
        → read_chunks json max pending (chunk ∷ chunks) ≡ (now ++ later, ok [])
    unfolding read_chunks
    read_chunks-step pending chunk rest chunks now later h k =
        rw (h, read_chunks) (rw k (ap (λ r. (r.0 ++ later, ok [])) h))

    read_chunks-from :
        (chunks : List Bytes) (pending : Bytes) (vs : List V)
        → Awaits json max pending (joined chunks) vs
        → read_chunks json max pending chunks ≡ (vs, ok [])
    unfolding read_chunks
    read_chunks-from [] pending vs a =
        let (none_left, empty) = finished-all pending vs a in rw (none_left, empty) refl
    read_chunks-from (chunk ∷ chunks) pending vs a =
        let f : Fed pending chunk (joined chunks) vs =
          feed-Fed pending chunk (joined chunks) vs
            (a.written ∙ ap ok (sym (append_assoc pending chunk (joined chunks)))) in
        let rest : _ = read_chunks-from chunks f.rest f.later f.awaits in
        read_chunks-step pending chunk f.rest chunks f.now f.later f.read rest
        ∙ ap (λ xs. (xs, ok [])) (sym f.all)

    -- The values that a writer writes one after another are yielded by a reader of the same limit, in
    -- order and without an error, into whatever chunks their bytes are cut on the way; what is taken
    -- of JSON is that a text is one line, not empty, without a carriage return at its end, and parsed
    -- to its value.
    pub read_chunks-write_all :
        (vs : List V) (bytes : Bytes) (chunks : List Bytes)
        → write_all json max vs ≡ ok bytes
        → joined chunks ≡ bytes
        → read_chunks json max [] chunks ≡ (vs, ok [])
    read_chunks-write_all vs bytes chunks w cut =
        read_chunks-from chunks [] vs
          (record { written = rw cut w; clean = refl; short = ground arith })
