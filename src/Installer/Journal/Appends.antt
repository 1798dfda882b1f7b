-- ===== src/Installer/Journal/Appends.antt =====
-- packages/installer/src/journal/index.ts: a run of appends, and the journal that it leaves.
use mathlib.Core.List.{append_assoc, append-nil, map-append}
use horseness.Common.{
  ℕ, ◌+◌, String, Option, none, some, List, [], ◌∷◌, ◌++◌, length, length-append, Bool, true, every,
  leb, Result, ok, ◌>>=◌, ◌≡◌, refl, sym, ap, ◌∙◌, arith, keep, map, and-true, Bool-cases, inl, inr,
}
use horseness.Common.Splitting.{lines, is_filled, is_line, unlines, lines-unlines, unlines-append}
use horseness.Installer.Journal.{
  InstallerJournalPayload, InstallerJournalRecord, InstallerJournalError, JournalRuntime, v1,
  is_count, last_hash, payload_ok, read_lines, read, seal, bytes_of, append,
}
use horseness.Installer.Journal.Chain.{RuntimeLaws, read_lines-append, read_line-seal}

keep-append :
    {C : Type 0} (ls : List (List C)) (l : List C)
    → is_filled l ≡ true
    → keep is_filled (ls ++ l ∷ []) ≡ keep is_filled ls ++ l ∷ []
keep-append [] l h = rw h refl
keep-append (k ∷ ls) l h = elim (Bool-cases (is_filled k)) [
  | inl b ↦ rw (b, keep-append ls l h) refl
  | inr b ↦ rw (b, keep-append ls l h) refl
]

every-append :
    {A : Type 0} (p : A → Bool) (ls : List A) (l : A)
    → every p ls ≡ true
    → p l ≡ true
    → every p (ls ++ l ∷ []) ≡ true
every-append p [] l h k = rw k refl
every-append p (m ∷ ls) l h k =
    let (first, later) = and-true (p m) (every p ls) h in
    rw (first, every-append p ls l later k) refl

zero_add : (n : ℕ) → 0 + n ≡ n
zero_add n = omega arith

last_hash-append :
    (hash : String) (rs : List InstallerJournalRecord) (r : InstallerJournalRecord)
    → last_hash hash (rs ++ r ∷ []) ≡ r.record_hash
last_hash-append hash [] r = refl
last_hash-append hash (x ∷ rs) r = last_hash-append x.record_hash rs r

module _ {C : Type 0} (runtime : JournalRuntime C) where
  abbrev pub one_line : List C → Bool
  one_line l = is_line runtime.newline runtime.is_newline l

  abbrev pub joined : List (List C) → List C
  joined ls = unlines runtime.newline runtime.is_newline ls

  -- Appends of payloads, one behind the other.
  unfoldable pub run_appends :
      ℕ
      → List InstallerJournalPayload
      → Option (List C)
      → Result InstallerJournalError (Option (List C))
  unfolding append
  run_appends generation [] file = ok file
  run_appends generation (p ∷ ps) file = do
    r ← append runtime generation file p
    run_appends generation ps (some (r.1))

  -- A file of whole lines that is read as some records.
  record Holds (generation : ℕ) (file : Option (List C)) (rs : List InstallerJournalRecord)
      : Type 0 where
    pub content : List (List C)
    pub are_lines : every one_line content ≡ true
    pub bytes : bytes_of file ≡ joined content
    pub chain : read_lines runtime generation 0 runtime.zeros (keep is_filled content) ≡ ok rs
    pub reads : read runtime generation file ≡ ok rs
    pub hex : runtime.is_hex (last_hash runtime.zeros rs) ≡ true

  module _ (laws : RuntimeLaws runtime) where
    read-lines :
        (generation : ℕ) (bytes : List C) (content : List (List C))
        (rs : List InstallerJournalRecord)
        → bytes ≡ joined content
        → every one_line content ≡ true
        → read_lines runtime generation 0 runtime.zeros (keep is_filled content) ≡ ok rs
        → read runtime generation (some bytes) ≡ ok rs
    unfolding read
    read-lines generation bytes content rs e h chain =
        rw
          (ap (lines runtime.newline runtime.is_newline) e
            ∙ lines-unlines runtime.newline runtime.is_newline content laws.newline_is_newline h)
          chain

    none-Holds : (generation : ℕ) → Holds generation none []
    unfolding read read_lines unlines
    none-Holds generation = record {
      content = [];
      are_lines = refl;
      bytes = refl;
      chain = refl;
      reads = refl;
      hex = laws.zeros_is_hex;
    }

    append-Holds :
        (generation : ℕ) (file : Option (List C)) (rs : List InstallerJournalRecord)
        (payload : InstallerJournalPayload)
        → is_count generation ≡ true
        → is_count (length rs + 1) ≡ true
        → payload_ok runtime payload ≡ true
        → Holds generation file rs
        → (bytes : List C) × (append runtime generation file payload
            ≡ ok (seal runtime generation rs payload, bytes))
          × Holds generation (some bytes) (rs ++ seal runtime generation rs payload ∷ [])
    unfolding append
    append-Holds generation file rs payload g n p h =
        let r : InstallerJournalRecord = seal runtime generation rs payload in
        let line : List C = runtime.encode r in
        let content : List (List C) = h.content ++ line ∷ [] in
        let are_lines : every one_line content ≡ true =
          every-append one_line h.content line h.are_lines (laws.encode_is_line r) in
        let bytes : bytes_of file ++ line ++ runtime.newline ∷ [] ≡ joined content =
          ap (λ b. b ++ line ++ runtime.newline ∷ []) h.bytes
          ∙ sym (unlines-append runtime.newline runtime.is_newline h.content line) in
        let chain : read_lines runtime generation 0 runtime.zeros (keep is_filled content)
            ≡ ok (rs ++ r ∷ []) =
          rw (keep-append h.content line (laws.encode_is_filled r)) (
            read_lines-append runtime generation 0 runtime.zeros (keep is_filled h.content) line rs
              r h.chain
              (rw (zero_add (length rs))
                (read_line-seal runtime laws generation rs payload g n h.hex p))) in
        (
          bytes_of file ++ line ++ runtime.newline ∷ [],
          rw (p, h.reads) refl,
          record {
            content = content;
            are_lines = are_lines;
            bytes = bytes;
            chain = chain;
            reads =
                read-lines generation (bytes_of file ++ line ++ runtime.newline ∷ []) content
                  (rs ++ r ∷ []) bytes are_lines chain;
            hex =
                rw (last_hash-append runtime.zeros rs r)
                  (laws.sha_is_hex (v1 (record r { record_hash = "" })));
          },
        )

    run_appends-Holds :
        (generation : ℕ) (ps : List InstallerJournalPayload) (file : Option (List C))
        (rs : List InstallerJournalRecord)
        → is_count generation ≡ true
        → leb (length rs + length ps) 9007199254740991 ≡ true
        → every (payload_ok runtime) ps ≡ true
        → Holds generation file rs
        → (out : Option (List C)) × (all : List InstallerJournalRecord) × (run_appends generation ps
              file
            ≡ ok out)
          × Holds generation out all
          × (map (λ r. r.payload) all ≡ map (λ r. r.payload) rs ++ ps)
    unfolding run_appends
    run_appends-Holds generation [] file rs g n p h =
        (file, rs, refl, h, sym (append-nil (map (λ r. r.payload) rs)))
    run_appends-Holds generation (p ∷ ps) file rs g n ok_all h =
        let (here, later) =
          and-true (payload_ok runtime p) (every (payload_ok runtime) ps) ok_all in
        let r : InstallerJournalRecord = seal runtime generation rs p in
        let (bytes, done_here, held) =
          append-Holds generation file rs p g (ground (arith, n)) here h in
        let (out, all, run, held_all, payloads) =
          run_appends-Holds generation ps (some bytes) (rs ++ r ∷ []) g
            (rw (length-append rs (r ∷ [])) (ground (arith, n))) later held in
        (
          out,
          all,
          rw done_here run,
          held_all,
          payloads
              ∙ ap (λ x. x ++ ps) (map-append (λ r. r.payload) rs (r ∷ []))
              ∙ append_assoc (map (λ r. r.payload) rs) (p ∷ []) ps,
        )

    -- Appends of valid payloads to a generation without a file all return, for as many as a safe
    -- integer counts; and `read` then returns records with those payloads, in their order.
    pub run_appends-read :
        (generation : ℕ) (ps : List InstallerJournalPayload)
        → is_count generation ≡ true
        → leb (length ps) 9007199254740991 ≡ true
        → every (payload_ok runtime) ps ≡ true
        → (out : Option (List C)) × (rs : List InstallerJournalRecord) × (run_appends generation ps
              none
            ≡ ok out)
          × (read runtime generation out ≡ ok rs)
          × (map (λ r. r.payload) rs ≡ ps)
    run_appends-read generation ps g n p =
        let (out, all, run, held, payloads) =
          run_appends-Holds generation ps none [] g (rw (zero_add (length ps)) n) p
            (none-Holds generation) in
        (out, all, run, held.reads, payloads)
