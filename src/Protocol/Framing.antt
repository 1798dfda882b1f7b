-- ===== src/Protocol/Framing.antt =====
-- packages/protocol/src/transports/framing.ts: JSON values as lines of bytes.
pub mod Lines
pub mod Frames
pub mod Delivery
pub mod Bounds
use horseness.Common.{
  ℕ, zero, suc, ◌+◌, Option, none, some, List, [], ◌∷◌, ◌++◌, any, length, Bool, true, false, not,
  ◌&&◌, ltb, ◌==◌, Result, ok, err, ◌>>=◌, ◌>>◌, guard, if◌then◌else◌,
}

pub data FrameError : Type 0 where
  max_frame_bytes_invalid frame_exceeds_maximum malformed_frame incomplete_frame : FrameError
  not_serializable : FrameError

abbrev pub Bytes : Type 0
Bytes = List ℕ

-- What the module takes from the JavaScript runtime: `JSON.parse` of the text that UTF-8 bytes stand
-- for, and the UTF-8 bytes of `JSON.stringify`.
pub record JsonRuntime (V : Type 0) : Type 0 where
  pub parse : Bytes → Option V
  pub stringify : V → Option Bytes

abbrev pub newline : ℕ
newline = 10

abbrev pub carriage_return : ℕ
carriage_return = 13

-- `frameLimit`: a number that is a positive integer.
unfoldable pub frame_limit : Option ℕ → Result FrameError ℕ
frame_limit none = ok 1048576
frame_limit (some n) = do guard (not (ltb n 1)) max_frame_bytes_invalid; ok n

abbrev pub is_newline : ℕ → Bool
is_newline b = b == newline

-- The bytes before the first newline and those behind it: `indexOf`, and the two `subarray`s.
unfoldable pub split_line : Bytes → Option (Bytes × Bytes)
split_line [] = none
split_line (b ∷ bs) =
    let rest = split_line bs in
    if is_newline b then some ([], bs) else elim rest [ none ↦ none | some r ↦ some (b ∷ r.0, r.1) ]

-- The frame without a carriage return at its end.
unfoldable pub strip : Bytes → Bytes
strip [] = []
strip (b ∷ []) = if b == carriage_return then [] else b ∷ []
strip (b ∷ c ∷ bs) = b ∷ strip (c ∷ bs)

abbrev pub is_empty {ℓ} : {A : Type ℓ} → List A → Bool
is_empty [] = true
is_empty (_ ∷ _) = false

abbrev pub oversized : ℕ → Bytes → Bool
oversized max bytes = ltb max (length bytes)

-- The values that a reader has yielded, and then the bytes that it still holds or its error.
abbrev pub Reading : Type 0 → Type 0
Reading V = List V × Result FrameError Bytes

abbrev pub yield_value : {V : Type 0} → V → Reading V → Reading V
yield_value v r = (v ∷ r.0, r.1)

module _ {V : Type 0} (json : JsonRuntime V) (max : ℕ) where
  abbrev pub parsed : Option V → Result FrameError V
  parsed none = err malformed_frame
  parsed (some v) = ok v

  -- The value of a frame that is not empty.
  unfoldable pub decode : Bytes → Result FrameError V
  decode frame = do
    guard (not (oversized max frame)) frame_exceeds_maximum
    parsed (json.parse frame)

  -- The loop over the lines of the pending bytes, which ends after at most as many rounds as there
  -- are bytes.
  unfoldable pub drain : ℕ → Bytes → Reading V
  unfolding split_line strip decode
  drain zero pending = ([], ok pending)
  drain (suc n) pending = elim (split_line pending) [
    | none ↦ ([], ok pending)
    | some line ↦ if is_empty (strip line.0) then drain n line.1 else elim (decode (strip line.0)) [
      | err e ↦ ([], err e)
      | ok v ↦ yield_value v (drain n line.1)
    ]
  ]

  abbrev pub bounded : Result FrameError Bytes → Result FrameError Bytes
  bounded (err e) = err e
  bounded (ok rest) = if oversized max rest then err frame_exceeds_maximum else ok rest

  -- One chunk, behind the bytes that are pending.
  unfoldable pub feed : Bytes → Bytes → Reading V
  unfolding drain
  feed pending chunk =
      let bytes : Bytes = pending ++ chunk in
      if oversized max bytes && not (any is_newline bytes)
      then ([], err frame_exceeds_maximum)
      else let read : Reading V = drain (length bytes) bytes in (read.0, bounded read.1)

  abbrev pub finished : Bytes → Result FrameError Bytes
  finished [] = ok []
  finished (_ ∷ _) = err incomplete_frame

  unfoldable pub read_chunks : Bytes → List Bytes → Reading V
  unfolding feed
  read_chunks pending [] = ([], finished pending)
  read_chunks pending (chunk ∷ chunks) =
      let read : Reading V = feed pending chunk in
      elim read.1 [
        | err e ↦ (read.0, err e)
        | ok rest ↦ let later : Reading V = read_chunks rest chunks in (read.0 ++ later.0, later.1)
      ]

  -- `JsonRpcFramedWriter.write`: the bytes that go to the stream.
  unfoldable pub write : V → Result FrameError Bytes
  write v = elim (json.stringify v) [
    | none ↦ err not_serializable
    | some encoded ↦
        if oversized max encoded then err frame_exceeds_maximum else ok (encoded ++ newline ∷ [])
  ]
