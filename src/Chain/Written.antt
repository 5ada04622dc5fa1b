-- ===== src/Chain/Written.antt =====
-- Files that only the program has written (agent/audit_log.py): appending never fails on them, and
-- they verify.
use nemoclaw_smb.Base.{
  ℕ, ◌+◌, ◌≤◌, ◌≡◌, ◌⊎◌, inl, inr, refl, sym, ap, ◌∙◌, String, none, some, List, [], ◌∷◌, ◌++◌,
  arith, reverse, length, length-append, All, str_eq_iff,
}
use mathlib.Core.Path.{subst}
use mathlib.Core.List.{append-nil, append_assoc, reverse-append}
use nemoclaw_smb.Base.Dict.{get, get-put, without, without-put_new}
use nemoclaw_smb.Base.Act.{Result, Error, ok, err}
use nemoclaw_smb.Json.{int, str}
use nemoclaw_smb.Platform.{Platform, IsLawful}
use nemoclaw_smb.Chain.{
  Entry, File, lines, genesis_hash, window, intact, hash_entry, seal, tail_line, last_piece,
  next_of, read_head, append_with, entry_fault, verify_from, verify_chain,
}

Head-cases :
    (r : Result (String × ℕ))
    → ((prev : String) × (n : ℕ) × (r ≡ ok (prev, n))) ⊎ ((x : Error) × (r ≡ err x))
Head-cases (ok (prev, n)) = inl (prev, n, refl)
Head-cases (err x) = inr (x, refl)

module _ ⦃p : Platform⦄ where
  -- An entry whose line stands whole in the window that the next append reads, and is one line for
  -- `splitlines` too.
  pub record IsPlain (e : Entry) : Type 0 where
    pub fits : p.size (p.dump e) + 1 ≤ window
    pub one_piece : p.pieces (p.dump e) ≡ p.dump e ∷ []

  -- A payload that carries the hash and the number which it is given, as every caller's does.
  pub record IsLinked (payload : String → ℕ → Entry) : Type 0 where
    pub carries_hash : (prev : String) (n : ℕ) → get "prev_hash" (payload prev n) ≡ some (str prev)
    pub carries_seq : (prev : String) (n : ℕ) → get "seq" (payload prev n) ≡ some (int n)
    pub no_hash_yet : (prev : String) (n : ℕ) → get "entry_hash" (payload prev n) ≡ none

  -- Each line fits that is written from a head on, where each entry is chained to the one before.
  abbrev pub Fit : String → ℕ → List (String → ℕ → Entry) → Type 0
  Fit prev n [] = Unit
  Fit prev n (b ∷ bs) = IsPlain (seal prev (b prev n)) × Fit (hash_entry prev (b prev n)) (n + 1) bs

  -- One append after another, up to the first that fails.
  unfoldable pub append_all : List (String → ℕ → Entry) → File → Result File
  append_all [] file = ok file
  append_all (b ∷ bs) file =
      let (r, file') = append_with b file in elim r [ err x ↦ err x | ok e ↦ append_all bs file' ]

  append_all-cons :
      (b : String → ℕ → Entry) (bs : List (String → ℕ → Entry)) (file : File) {e : Entry}
      {file' : File}
      → append_with b file ≡ (ok e, file')
      → append_all (b ∷ bs) file ≡ append_all bs file'
  unfolding append_all
  append_all-cons b bs file done = ground arith

  -- Either nothing is written, or one line of the sealed entry is.
  abbrev pub IsAppend : (String → ℕ → Entry) → File → Result Entry × File → Type 0
  IsAppend payload file (r, file') =
      ((x : Error) × (r ≡ err x) × (file' ≡ file))
      ⊎ ((prev : String) × (n : ℕ) × (read_head file ≡ ok (prev, n))
          × (r ≡ ok (seal prev (payload prev n)))
          × (file' ≡ some (lines file ++ (p.dump (seal prev (payload prev n)) ∷ []))))

  pub append_with-IsAppend :
      (payload : String → ℕ → Entry) (file : File)
      → IsAppend payload file (append_with payload file)
  unfolding append_with
  append_with-IsAppend payload file = elim (Head-cases (read_head file)) [
    | inl (prev, n, e) ↦ inr (prev, n, e, ground arith, ground arith)
    | inr (x, e) ↦ inl (x, ground arith, ground arith)
  ]

  -- What the lines so far amount to: the head, and where checking more lines goes on from.
  record IsLog (file : File) (head : String) (n : ℕ) : Type 0 where
    readable : read_head file ≡ ok (head, n)
    resumes :
        (more : List p.Line)
        → verify_from genesis_hash 0 1 (lines file ++ more)
          ≡ verify_from head n (1 + length (lines file)) more

  module _ (laws : IsLawful) (payload : String → ℕ → Entry) (linked : IsLinked payload) where
    module _ (prev : String) (n : ℕ) where
      get-seq-seal : get "seq" (seal prev (payload prev n)) ≡ some (int n)
      unfolding seal
      get-seq-seal = rw get-put (linked.carries_seq prev n)

      get-prev_hash-seal : get "prev_hash" (seal prev (payload prev n)) ≡ some (str prev)
      unfolding seal
      get-prev_hash-seal = rw get-put (linked.carries_hash prev n)

      get-entry_hash-seal :
          get "entry_hash" (seal prev (payload prev n))
          ≡ some (str (hash_entry prev (payload prev n)))
      unfolding seal
      get-entry_hash-seal = rw get-put

      next_of-seal :
          next_of (seal prev (payload prev n)) ≡ ok (hash_entry prev (payload prev n), n + 1)
      unfolding next_of
      next_of-seal = ground (arith, get-entry_hash-seal, get-seq-seal)

      -- The newest line is the one that the next append reads.
      tail_line-seal :
          IsPlain (seal prev (payload prev n))
          → (older : List p.Line)
          → tail_line window (p.dump (seal prev (payload prev n)) ∷ older)
            ≡ some (p.dump (seal prev (payload prev n)))
      unfolding tail_line last_piece
      tail_line-seal plain older =
          ground
            (arith, plain.fits, plain.one_piece, laws.dump_visible (seal prev (payload prev n)))

      read_head-seal :
          IsPlain (seal prev (payload prev n))
          → (ls : List p.Line)
          → read_head (some (ls ++ (p.dump (seal prev (payload prev n)) ∷ [])))
            ≡ ok (hash_entry prev (payload prev n), n + 1)
      unfolding read_head
      read_head-seal plain ls =
          rw
            (
              reverse-append ls (p.dump (seal prev (payload prev n)) ∷ []),
              tail_line-seal plain (reverse ls),
              laws.load-dump (seal prev (payload prev n)),
              read_head,
            )
            next_of-seal

      without-seal : without "entry_hash" (seal prev (payload prev n)) ≡ payload prev n
      unfolding seal
      without-seal = without-put_new _ _ _ (linked.no_hash_yet prev n)

      entry_fault-seal :
          (lineno : ℕ) → entry_fault prev n lineno (seal prev (payload prev n)) ≡ none
      unfolding entry_fault
      entry_fault-seal lineno = ground (
        arith,
        get-entry_hash-seal,
        get-seq-seal,
        get-prev_hash-seal,
        without-seal,
        str_eq_iff prev prev,
        str_eq_iff (hash_entry prev (payload prev n)) (hash_entry prev (payload prev n)),
      )

      -- The checker accepts a sealed entry and goes on from its hash.
      verify_from-seal :
          (lineno : ℕ) (more : List p.Line)
          → verify_from prev n lineno (p.dump (seal prev (payload prev n)) ∷ more)
            ≡ verify_from (hash_entry prev (payload prev n)) (n + 1) (lineno + 1) more
      unfolding verify_from
      verify_from-seal lineno more = ground (
        arith,
        laws.dump_visible (seal prev (payload prev n)),
        laws.load-dump (seal prev (payload prev n)),
        entry_fault-seal lineno,
        without-seal,
      )

      -- One append to a well-formed log: it succeeds, and the log stays well formed.
      append_with-IsLog :
          (file : File)
          → IsPlain (seal prev (payload prev n))
          → IsLog file prev n
          → let e = seal prev (payload prev n) in
            let file' = some (lines file ++ (p.dump e ∷ [])) in
            (append_with payload file ≡ (ok e, file'))
            × IsLog file' (hash_entry prev (payload prev n)) (n + 1)
      unfolding append_with
      append_with-IsLog file plain log =
          let e = seal prev (payload prev n) in
          (
            rw (log.readable, append_with),
            record {
              readable = read_head-seal plain (lines file);
              resumes = λ more.
                  rw
                    (
                      append_assoc (lines file) (p.dump e ∷ []) more,
                      log.resumes (p.dump e ∷ more),
                      verify_from-seal (1 + length (lines file)) more,
                      length-append (lines file) (p.dump e ∷ []),
                    )
                    (ap (λ k. verify_from (hash_entry prev (payload prev n)) (n + 1) k more)
                      (omega arith));
            },
          )

  module _ (laws : IsLawful) where
    append_all-IsLog :
        (bs : List (String → ℕ → Entry)) (ls : List p.Line) (head : String) (n : ℕ)
        → All IsLinked bs
        → Fit head n bs
        → IsLog (some ls) head n
        → (ls' : List p.Line) × (head' : String) × (append_all bs (some ls) ≡ ok (some ls'))
          × IsLog (some ls') head' (n + length bs)
    unfolding append_all
    append_all-IsLog [] ls head n _ _ log =
        (ls, head, refl, subst (IsLog (some ls) head) (omega arith) log)
    append_all-IsLog (b ∷ bs) ls head n (linked, more) (plain, fit) log =
        let (done, log') = append_with-IsLog laws b linked head n (some ls) plain log in
        let (ls', head', all, last) = append_all-IsLog bs _ _ (n + 1) more fit log' in
        (
          ls',
          head',
          append_all-cons _ bs _ done ∙ all,
          subst (IsLog (some ls') head') (omega arith) last,
        )

    log_verifies :
        (ls : List p.Line) (head : String) (n : ℕ)
        → IsLog (some ls) head n
        → verify_chain (some ls) ≡ ok (intact n)
    unfolding verify_chain
    log_verifies ls head n log = rw (sym (append-nil ls)) (log.resumes [])

    empty-IsLog : IsLog none genesis_hash 0
    unfolding read_head tail_line
    empty-IsLog = record { readable = refl; resumes = λ more. refl }

    -- However many entries the program appends to a log that does not exist yet, no append fails, and
    -- the file then verifies with as many entries, if each payload carries the hash and the number
    -- that it is given and each line that is written fits the window which the next append reads.
    pub append_all_verifies :
        (b : String → ℕ → Entry) (bs : List (String → ℕ → Entry))
        → All IsLinked (b ∷ bs)
        → Fit genesis_hash 0 (b ∷ bs)
        → (file : File) × (append_all (b ∷ bs) none ≡ ok file)
          × (verify_chain file ≡ ok (intact (1 + length bs)))
    unfolding append_all
    append_all_verifies b bs (linked, more) (plain, fit) =
        let (done, log) = append_with-IsLog laws b linked genesis_hash 0 none plain empty-IsLog in
        let (ls, head, all, last) = append_all-IsLog bs _ _ 1 more fit log in
        (some ls, append_all-cons _ bs _ done ∙ all, log_verifies ls head (1 + length bs) last)
