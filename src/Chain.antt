-- ===== src/Chain.antt =====
-- The hash chain of agent/audit_log.py: a file of JSON lines, each of which carries the hash of the
-- line before it. The proofs stand in the modules below.
pub mod Written
pub mod Tamper
use nemoclaw_smb.Base.{
  ℕ, zero, suc, ◌+◌, ◌-◌, ◌≡◌, String, Bool, true, false, not, ◌&&◌, Option, none, some, List, [],
  ◌∷◌, ◌++◌, reverse, leb, ◌==◌, str_eq, if◌then◌else◌,
}
use Prim.Native.String.{◌++◌ as str_append}
use nemoclaw_smb.Base.Dict.{Dict, get, put, without}
use nemoclaw_smb.Base.Act.{Result, ok, err, runtime_error, type_error}
use nemoclaw_smb.Json.{Value, null, bool, int, real, str, arr, obj}
use nemoclaw_smb.Platform.{Platform, Loaded, malformed, not_object, entry}

-- "0" * 64
abbrev pub genesis_hash : String
genesis_hash = "0000000000000000000000000000000000000000000000000000000000000000"

-- the bytes that the tail of the file is read from
abbrev pub window : ℕ
window = 4096

-- What `verify_chain` finds: no file, a chain of so many entries, or the first fault and its line.
pub data Verdict : Type 0 where
  absent : Verdict
  intact : ℕ → Verdict
  malformed_json prev_mismatch seq_mismatch hash_mismatch : ℕ → Verdict

module _ ⦃p : Platform⦄ where
  open p use {Float, Line}

  abbrev pub Entry : Type 0
  Entry = Dict (Value Float)

  -- `none` where the file does not exist; the lines in file order otherwise.
  abbrev pub File : Type 0
  File = Option (List Line)

  abbrev pub lines : File → List Line
  lines none = []
  lines (some ls) = ls

  unfoldable pub hash_entry : String → Entry → String
  hash_entry prev payload = p.sha256 (str_append prev (p.canonical payload))

  -- The last part that is not blank.
  unfoldable pub last_piece : List Line → Option Line
  last_piece [] = none
  last_piece (l ∷ rest) = elim (last_piece rest) [
    | some q ↦ some q
    | none ↦ if p.is_blank l then none else some l
  ]

  -- The last line that is not blank among those in the last `budget` bytes, the newest line first.
  -- The line at the edge of these bytes is cut.
  unfoldable pub tail_line : ℕ → List Line → Option Line
  unfolding last_piece
  tail_line budget [] = none
  tail_line budget (l ∷ older) =
      let next = tail_line (budget - (p.size l + 1)) older in
      if leb (p.size l + 1) budget
      then elim (last_piece (p.pieces l)) [ some q ↦ some q | none ↦ next ]
      else last_piece (p.pieces (p.clip (budget - 1) l))

  -- `int(v) + 1`: a text that spells no number is a `ValueError`, which becomes a `RuntimeError`;
  -- the other values are a `TypeError`.
  pub next_seq : Value Float → Result ℕ
  next_seq (int n) = ok (n + 1)
  next_seq (bool true) = ok 2
  next_seq (bool false) = ok 1
  next_seq (real x) = ok (p.trunc x + 1)
  next_seq (str s) = elim (p.parse_int s) [ none ↦ err runtime_error | some n ↦ ok (n + 1) ]
  next_seq _ = err type_error

  -- A hash that is no text fails where it is joined to the payload.
  pub as_text : Value Float → Result String
  as_text (str s) = ok s
  as_text _ = err type_error

  -- `entry["entry_hash"], int(entry["seq"]) + 1`; a missing key is a `RuntimeError`.
  pub next_of : Entry → Result (String × ℕ)
  unfolding next_seq as_text get
  next_of e = elim (get "entry_hash" e) [
    | none ↦ err runtime_error
    | some h ↦ elim (get "seq" e) [
      | none ↦ err runtime_error
      | some v ↦ elim (next_seq v) [
        | err x ↦ err x
        | ok n ↦ elim (as_text h) [ err x ↦ err x | ok prev ↦ ok (prev, n) ]
      ]
    ]
  ]

  -- `_read_head`: the hash to chain to and the next sequence number. A tail that does not read as an
  -- entry is refused.
  unfoldable pub read_head : File → Result (String × ℕ)
  unfolding tail_line next_of
  read_head file = elim (tail_line window (reverse (lines file))) [
    | none ↦ ok (genesis_hash, 0)
    | some l ↦ elim (p.load l) [
      | malformed ↦ err runtime_error
      | not_object ↦ err type_error
      | entry e ↦ next_of e
    ]
  ]

  -- `payload["entry_hash"] = _hash_entry(prev_hash, payload)`
  unfoldable pub seal : String → Entry → Entry
  unfolding hash_entry put
  seal prev payload = put "entry_hash" (str (hash_entry prev payload)) payload

  -- The common part of the functions that append: read the head, complete the entry, write one line.
  unfoldable pub append_with : (String → ℕ → Entry) → File → Result Entry × File
  unfolding read_head seal
  append_with payload file = elim (read_head file) [
    | err x ↦ (err x, file)
    | ok (prev, seq) ↦
        let e = seal prev (payload prev seq) in (ok e, some (lines file ++ (p.dump e ∷ [])))
  ]

  -- `entry.get(key) == text`
  unfoldable pub holds_text : Option (Value Float) → String → Bool
  holds_text (some (str s)) t = str_eq s t
  holds_text _ t = false

  -- `entry.get(key) == n`; in Python `True == 1` and `1.0 == 1`.
  pub holds_number : Option (Value Float) → ℕ → Bool
  holds_number (some (int k)) n = k == n
  holds_number (some (bool true)) n = n == 1
  holds_number (some (bool false)) n = n == 0
  holds_number (some (real x)) n = p.le x (p.of_ℕ n) && p.le (p.of_ℕ n) x
  holds_number _ n = false

  -- The checks of one line, in the order of the code; `none` is a line that passes.
  pub entry_fault : String → ℕ → ℕ → Entry → Option Verdict
  unfolding holds_text holds_number hash_entry get without
  entry_fault prev seq lineno e =
      if not (holds_text (get "prev_hash" e) prev)
      then some (prev_mismatch lineno)
      else if not (holds_number (get "seq" e) seq)
      then some (seq_mismatch lineno)
      else if not (holds_text (get "entry_hash" e) (hash_entry prev (without "entry_hash" e)))
      then some (hash_mismatch lineno)
      else none

  -- The loop of `verify_chain`. A line that is no object fails at `entry.get`.
  pub verify_from : String → ℕ → ℕ → List Line → Result Verdict
  unfolding entry_fault
  verify_from prev seq lineno [] = ok (intact seq)
  verify_from prev seq lineno (l ∷ rest) = elim (p.is_blank l) [
    | true ↦ verify_from prev seq (lineno + 1) rest
    | false ↦ elim (p.load l) [
      | malformed ↦ ok (malformed_json lineno)
      | not_object ↦ err type_error
      | entry e ↦ elim (entry_fault prev seq lineno e) [
        | some fault ↦ ok fault
        | none ↦ verify_from (hash_entry prev (without "entry_hash" e)) (seq + 1) (lineno + 1) rest
      ]
    ]
  ]

  unfoldable pub verify_chain : File → Result Verdict
  unfolding verify_from
  verify_chain none = ok absent
  verify_chain (some ls) = verify_from genesis_hash 0 1 ls
