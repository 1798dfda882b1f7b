-- ===== src/Installer/Journal/Chain.antt =====
-- packages/installer/src/journal/index.ts: what is read after an append.
use horseness.Common.{
  ℕ, suc, ◌+◌, String, List, [], ◌∷◌, ◌++◌, length, true, ==_iff, str_eq_iff, ok, >>=-eq-ok,
  ok_injective, ◌≡◌, refl, sym, ap, arith,
}
use horseness.Common.Splitting.{is_filled, is_line}
use horseness.Installer.Journal.{
  InstallerJournalPayload, InstallerJournalRecord, JournalRuntime, RawRecord, raw, v1, is_count,
  last_hash, payload_ok, parse_raw_line, read_line, read_lines, seal,
}

-- What the theorems need of the runtime: the line of a record holds no newline and is read as the
-- record, and hashes are lower case hexadecimal digits.
pub record RuntimeLaws {C : Type 0} (runtime : JournalRuntime C) : Type 0 where
  pub newline_is_newline : runtime.is_newline runtime.newline ≡ true
  pub encode_is_line :
      (r : InstallerJournalRecord)
      → is_line runtime.newline runtime.is_newline (runtime.encode r) ≡ true
  pub encode_is_filled : (r : InstallerJournalRecord) → is_filled (runtime.encode r) ≡ true
  pub decode_encode : (r : InstallerJournalRecord) → runtime.decode (runtime.encode r) ≡ raw (v1 r)
  pub sha_is_hex : (r : RawRecord) → runtime.is_hex (runtime.sha r) ≡ true
  pub zeros_is_hex : runtime.is_hex runtime.zeros ≡ true
  -- The hash is of the record without its own hash.
  pub sha_of_core :
      (r : InstallerJournalRecord) (hash : String)
      → runtime.sha (v1 (record r { record_hash = hash })) ≡ runtime.sha (v1 r)

add_zero : (n : ℕ) → n + 0 ≡ n
add_zero n = omega arith

add_suc : (n m : ℕ) → n + suc m ≡ suc n + m
add_suc n m = omega arith

module _ {C : Type 0} (runtime : JournalRuntime C) where
  -- Reading lines and one more: the record of the last one is checked against the others.
  pub read_lines-append :
      (generation index : ℕ) (previous : String) (ls : List (List C)) (l : List C)
      (rs : List InstallerJournalRecord) (r : InstallerJournalRecord)
      → read_lines runtime generation index previous ls ≡ ok rs
      → read_line runtime generation (index + length rs) (last_hash previous rs) l ≡ ok r
      → read_lines runtime generation index previous (ls ++ l ∷ []) ≡ ok (rs ++ r ∷ [])
  unfolding read_lines
  read_lines-append generation index previous [] l [] r h k = rw (rw (add_zero index) at k) refl
  read_lines-append generation index previous [] l (x ∷ xs) r h k = cc
  read_lines-append generation index previous (m ∷ ls) l rs r h k =
      let (y, first, h1) = >>=-eq-ok (read_line runtime generation index previous m) _ h in
      let (ys, later, h2) =
        >>=-eq-ok (read_lines runtime generation (suc index) y.record_hash ls) _ h1 in
      let same : y ∷ ys ≡ rs = ok_injective h2 in
      let here : read_line runtime generation (index + length (y ∷ ys))
            (last_hash previous (y ∷ ys)) l
          ≡ ok r =
        rw (sym same) at k in
      let next : read_lines runtime generation (suc index) y.record_hash (ls ++ l ∷ [])
          ≡ ok (ys ++ r ∷ []) =
        read_lines-append generation (suc index) y.record_hash ls l ys r later
          (rw (add_suc index (length ys)) at here) in
      rw (first, next) (ap (λ zs. ok (zs ++ r ∷ [])) same)

  module _ (laws : RuntimeLaws runtime) where
    -- The record that an append seals is read behind the records that it was sealed for.
    pub read_line-seal :
        (generation : ℕ) (rs : List InstallerJournalRecord) (payload : InstallerJournalPayload)
        → is_count generation ≡ true
        → is_count (length rs + 1) ≡ true
        → runtime.is_hex (last_hash runtime.zeros rs) ≡ true
        → payload_ok runtime payload ≡ true
        → read_line runtime generation
            (length rs)
            (last_hash runtime.zeros rs)
            (runtime.encode (seal runtime generation rs payload))
          ≡ ok (seal runtime generation rs payload)
    unfolding read_line parse_raw_line
    read_line-seal generation rs payload g n hex p =
        let r : InstallerJournalRecord = seal runtime generation rs payload in
        let core : InstallerJournalRecord = record r { record_hash = "" } in
        rw
          (
            laws.decode_encode r,
            g,
            n,
            hex,
            laws.sha_is_hex (v1 core),
            p,
            laws.sha_of_core core r.record_hash,
            (str_eq_iff (runtime.sha (v1 core)) (runtime.sha (v1 core))).1 refl,
            (==_iff generation generation).1 refl,
            (==_iff (length rs + 1) (length rs + 1)).1 refl,
            (str_eq_iff (last_hash runtime.zeros rs) (last_hash runtime.zeros rs)).1 refl,
          )
          refl
