-- ===== src/Examples/Chains.antt =====
-- Concrete logs (agent/audit_log.py, agent/interactions_log.py).
use nemoclaw_smb.Base.{
  ℕ, ◌≡◌, ◌⊎◌, refl, String, true, false, none, some, List, [], ◌∷◌, arith, map, member,
}
use nemoclaw_smb.Base.Dict.{Dict, get, put}
use nemoclaw_smb.Base.Integers.{pos}
use nemoclaw_smb.Base.Act.{ok, err, value_error}
use nemoclaw_smb.Json.{int, str}
use nemoclaw_smb.Platform.{Moment}
use nemoclaw_smb.Chain.{Entry, File, genesis_hash, holds_text, intact, seal, verify_chain}
use nemoclaw_smb.Chain.Written.{Fit, IsAppend}
use nemoclaw_smb.Chain.Tamper.{Colliding, final_hash_fixes, hashed, signed}
use nemoclaw_smb.Audit.{action_payload, earn_payload, append_action, valid_actions}
use nemoclaw_smb.Audit.Log.{
  Write, payload_of, action, append_action_effect, earn, write_all, write_all_verifies,
}
use nemoclaw_smb.Interactions.{last_n, matching, read_interactions}
use nemoclaw_smb.Examples.{desk, desk-IsLawful, desk_digest}

abbrev at_nine : Moment
at_nine = record { iso = "2026-06-01T09:00:00"; day = "20260601"; secs = 9 }

abbrev entry_for : String → Entry
entry_for vendor =
    ("seq", int 0)
    ∷ ("vendor", str vendor)
    ∷ ("prev_hash", str genesis_hash)
    ∷ ("entry_hash", str desk_digest)
    ∷ []

abbrev one_entry : String → List (Dict (nemoclaw_smb.Json.Value ℕ))
one_entry vendor = entry_for vendor ∷ []

final_hash_fixes_example :
    (signed (one_entry "AWS") ≡ signed (one_entry "Adobe"))
    ⊎ Colliding
        (hashed genesis_hash (signed (one_entry "AWS")))
        (hashed genesis_hash (signed (one_entry "Adobe")))
unfolding verify_chain
final_hash_fixes_example =
    final_hash_fixes desk-IsLawful (one_entry "AWS") (one_entry "Adobe") 1 refl refl refl

abbrev a_payment : Write
a_payment = action at_nine "payment" "AWS" 312 "executed" "agent" []

abbrev an_earning : Write
an_earning = earn at_nine "price" 25 "tok_1"

two_lines : Fit genesis_hash 0 (map payload_of (a_payment ∷ an_earning ∷ []))
unfolding seal put action_payload earn_payload
two_lines = (
  record { fits = omega arith; one_piece = refl },
  (record { fits = omega arith; one_piece = refl }, tt),
)

write_all_verifies_example :
    (file : File) × (write_all (a_payment ∷ an_earning ∷ []) none ≡ ok file)
    × (verify_chain file ≡ ok (intact 2))
unfolding member seal put action_payload earn_payload
write_all_verifies_example =
    write_all_verifies desk-IsLawful a_payment (an_earning ∷ []) (refl, (tt, tt)) two_lines

append_action_effect_example :
    ((member "payment" valid_actions ≡ false)
      × (append_action at_nine "payment" "AWS" 312 "executed" "agent" [] none
          ≡ (err value_error, none)))
    ⊎ ((member "payment" valid_actions ≡ true)
        × IsAppend
            (action_payload at_nine "payment" "AWS" 312 "executed" "agent" [])
            none
            (append_action at_nine "payment" "AWS" 312 "executed" "agent" [] none))
append_action_effect_example =
    append_action_effect at_nine "payment" "AWS" 312 "executed" "agent" [] none

abbrev call_of : String → ℕ → Entry
call_of sponsor seq = ("seq", int seq) ∷ ("sponsor", str sponsor) ∷ []

abbrev calls : List Entry
calls =
    call_of "Stripe" 0
    ∷ call_of "C1" 1
    ∷ call_of "Stripe" 2
    ∷ call_of "NVIDIA" 3
    ∷ call_of "Stripe" 4
    ∷ []

newest_two :
    read_interactions (pos 2) (some "Stripe") none (some calls)
    ≡ ok (call_of "Stripe" 2 ∷ call_of "Stripe" 4 ∷ [])
unfolding read_interactions matching last_n holds_text get
newest_two = refl
