-- ===== src/Audit/Log.antt =====
-- What the audit log guarantees (agent/audit_log.py, payments/mpp_server.py).
use nemoclaw_smb.Base.{
  ℕ, ◌+◌, ◌≡◌, ◌⊎◌, inl, inr, refl, ◌∙◌, String, true, false, none, List, [], ◌∷◌, arith, length,
  length-map, All, map, member, Bool-cases,
}
use nemoclaw_smb.Base.Dict.{Dict, get}
use nemoclaw_smb.Base.Act.{Act, Result, Result-cases, ok, err, value_error}
use nemoclaw_smb.Json.{Value}
use nemoclaw_smb.Platform.{Platform, Moment, IsLawful}
use nemoclaw_smb.Chain.{Entry, File, genesis_hash, intact, append_with, verify_chain}
use nemoclaw_smb.Chain.Written.{
  Fit, IsLinked, append_all, append_all_verifies, IsAppend, append_with-IsAppend,
}
use nemoclaw_smb.Audit.{valid_actions, action_payload, append_action, earn_payload, append_earn}

module _ ⦃p : Platform⦄ where
  -- A write to the audit log: an action or an earn event, with the time of the write.
  pub data Write : Type 0 where
    action : Moment → String → String → p.Float → String → String → Dict (Value p.Float) → Write
    earn : Moment → String → ℕ → String → Write

  abbrev pub payload_of : Write → String → ℕ → Entry
  payload_of (action now a vendor amount decision actor metadata) =
      action_payload now a vendor amount decision actor metadata
  payload_of (earn now service cents token) = earn_payload now service cents token

  abbrev pub write : Write → Act File Entry
  write (action now a vendor amount decision actor metadata) =
      append_action now a vendor amount decision actor metadata
  write (earn now service cents token) = append_earn now service cents token

  -- A write with a known action.
  abbrev pub IsKnown : Write → Type 0
  IsKnown (action now a vendor amount decision actor metadata) = member a valid_actions ≡ true
  IsKnown (earn now service cents token) = Unit

  pub write_all : List Write → File → Result File
  write_all [] file = ok file
  write_all (w ∷ ws) file =
      let (r, file') = write w file in elim r [ err x ↦ err x | ok e ↦ write_all ws file' ]

  write-append :
      (w : Write) → IsKnown w → (file : File) → write w file ≡ append_with (payload_of w) file
  unfolding append_action append_earn
  write-append (action now a vendor amount decision actor metadata) known file = rw known
  write-append (earn now service cents token) known file = refl

  payload_of-IsLinked : (w : Write) → IsLinked (payload_of w)
  unfolding action_payload earn_payload get
  payload_of-IsLinked (action now a vendor amount decision actor metadata) = record {
    carries_hash = λ prev n. refl;
    carries_seq = λ prev n. refl;
    no_hash_yet = λ prev n. refl;
  }
  payload_of-IsLinked (earn now service cents token) = record {
    carries_hash = λ prev n. refl;
    carries_seq = λ prev n. refl;
    no_hash_yet = λ prev n. refl;
  }

  All-IsLinked : (ws : List Write) → All IsLinked (map payload_of ws)
  All-IsLinked [] = tt
  All-IsLinked (w ∷ ws) = (payload_of-IsLinked w, All-IsLinked ws)

  write_all-append :
      (ws : List Write) (file : File)
      → All IsKnown ws
      → write_all ws file ≡ append_all (map payload_of ws) file
  unfolding write_all append_all
  write_all-append [] file _ = refl
  write_all-append (w ∷ ws) file (first, rest) =
      elim (Result-cases (append_with (payload_of w) file)) [
        | inl (e, file', done) ↦
            ground (arith, write-append w first file, write_all-append ws file' rest)
        | inr (x, file', failed) ↦ ground (arith, write-append w first file)
      ]

  -- On a platform that is lawful, starting without a file, any sequence of one or more known
  -- actions and earn events is written without a failure, and the file then verifies with one entry
  -- for each, if each line that is written, chained to the one before, is shorter than the 4096 bytes
  -- which the next write reads, and is one line for `splitlines`.
  pub write_all_verifies :
      (laws : IsLawful) (w : Write) (ws : List Write)
      → All IsKnown (w ∷ ws)
      → Fit genesis_hash 0 (map payload_of (w ∷ ws))
      → (file : File) × (write_all (w ∷ ws) none ≡ ok file)
        × (verify_chain file ≡ ok (intact (1 + length ws)))
  write_all_verifies laws w ws h fit =
      let (file, done, verified) =
        append_all_verifies laws (payload_of w) (map payload_of ws) (All-IsLinked (w ∷ ws)) fit in
      (file, write_all-append (w ∷ ws) none h ∙ done, rw (length-map ws payload_of) at verified)

  -- A call of `append_action` with an unknown action is a `ValueError` and writes nothing. With a
  -- known one, either it fails and writes nothing, or it adds one line, that of the entry which it
  -- returns: the payload, sealed with the hash and the number that the end of the file gave.
  pub append_action_effect :
      (now : Moment) (a vendor : String) (amount : p.Float) (decision actor : String)
      (metadata : Dict (Value p.Float)) (file : File)
      → let done = append_action now a vendor amount decision actor metadata file in
        ((member a valid_actions ≡ false) × (done ≡ (err value_error, file)))
        ⊎ ((member a valid_actions ≡ true)
            × IsAppend (action_payload now a vendor amount decision actor metadata) file done)
  unfolding append_action
  append_action_effect now a vendor amount decision actor metadata file =
      elim (Bool-cases (member a valid_actions)) [
        | inl known ↦ inr (
          known,
          rw known (
              append_with-IsAppend (action_payload now a vendor amount decision actor metadata)
                file),
        )
        | inr unknown ↦ inl (unknown, rw unknown)
      ]
