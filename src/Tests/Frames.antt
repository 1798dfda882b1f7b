-- ===== src/Tests/Frames.antt =====
-- Two numbers, written as their digit and a zero, cut in the middle of a frame.
use horseness.Common.{
  ◌≤◌, if◌then◌else◌, ◌==◌, false, ℕ, some, [], ◌∷◌, ok, ◌≡◌, refl, Option, none, length, any,
}
use horseness.Protocol.Framing.{
  is_empty, is_newline, Bytes, JsonRuntime, split_line, strip, feed, drain, decode, read_chunks,
  write,
}
use horseness.Protocol.Framing.Frames.{JsonLaws, write_all}
use horseness.Protocol.Framing.Bounds.{feed-bounded}
use horseness.Protocol.Framing.Delivery.{read_chunks-write_all}

abbrev first_byte : Bytes → Option ℕ
first_byte [] = none
first_byte (b ∷ bs) = some b

data Digit : Type 0 where
  seven eight : Digit

abbrev digit : Option ℕ → Option Digit
digit none = none
digit (some n) = if n == 55 then some seven else some eight

abbrev text : Digit → Bytes
text seven = 55 ∷ []
text eight = 56 ∷ []

abbrev json : JsonRuntime Digit
json = record { parse = λ b. digit (first_byte b); stringify = λ d. some (text d) }

text_of : (v : Digit) (b : Bytes) → json.stringify v ≡ some b → text v ≡ b
text_of v b h = cc h

text_lem :
    (v : Digit)
    → (json.parse (text v) ≡ some v)
      × (any is_newline (text v) ≡ false)
      × (is_empty (text v) ≡ false)
      × (strip (text v) ≡ text v)
unfolding strip
text_lem seven = (refl, refl, refl, refl)
text_lem eight = (refl, refl, refl, refl)

laws : JsonLaws json
laws = record {
  parsed_again = λ v b h. rw (← text_of v b h) ((text_lem v).0);
  one_line = λ v b h. rw (← text_of v b h) ((text_lem v).1);
  not_empty = λ v b h. rw (← text_of v b h) ((text_lem v).2);
  no_return = λ v b h. rw (← text_of v b h) ((text_lem v).3);
}

read_chunks-write_all_example :
    read_chunks json 2 [] ((55 ∷ []) ∷ (10 ∷ 56 ∷ []) ∷ (10 ∷ []) ∷ [])
    ≡ (seven ∷ eight ∷ [], ok [])
unfolding write_all write
read_chunks-write_all_example =
    read_chunks-write_all json 2 laws (seven ∷ eight ∷ []) (55 ∷ 10 ∷ 56 ∷ 10 ∷ [])
      ((55 ∷ []) ∷ (10 ∷ 56 ∷ []) ∷ (10 ∷ []) ∷ []) refl refl

-- The second byte of the chunk is a newline, and the third waits.
feed-bounded_example : (length {A = ℕ} (56 ∷ []) ≤ 2) × (any is_newline (56 ∷ []) ≡ false)
unfolding feed drain decode split_line strip
feed-bounded_example = feed-bounded json 2 [] (55 ∷ 10 ∷ 56 ∷ []) (56 ∷ []) (seven ∷ []) refl
