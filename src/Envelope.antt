-- ===== src/Envelope.antt =====
-- The signed envelopes that precede each movement of money (payments/envelopes.py). Ed25519 and the
-- authority-runtime package are parameters.
pub mod Signing
pub mod Signed
pub mod Bound
pub mod Written
use Prim.Native.String.{String as Text}
use nemoclaw_smb.Base.{
  ℕ, ◌+◌, String, Bool, true, false, not, Option, none, some, List, [], ◌∷◌, ◌&&◌, concat, member,
  str_eq, if◌then◌else◌,
}
use nemoclaw_smb.Base.Dict.{Dict, get, put, without}
use nemoclaw_smb.Base.Act.{Act, Result, ok, err, value_error, type_error, pure, lift, ◌>>=◌, ◌>>◌}
use nemoclaw_smb.Json.{
  Value, null, bool, int, real, str, arr, obj, Items, nil, cons, Fields, end, field, object, texts,
}
use nemoclaw_smb.Platform.{Platform, Authority}
use nemoclaw_smb.Audit.{append_action}
use nemoclaw_smb.Chain.{Entry}
use nemoclaw_smb.World.{World, on_audit, outside}

-- `list(text)`
characters : {F : Type 0} → String → Items F
characters Text.[] = nil
characters (Text.◌∷◌ c s) = cons (str (Text.◌∷◌ c Text.[])) (characters s)

keys_of : {F : Type 0} → Fields F → Items F
keys_of end = nil
keys_of (field k v fields) = cons (str k) (keys_of fields)

-- `list(value)`, where `none` is a `TypeError`
pub listed : {F : Type 0} → Value F → Option (Items F)
unfolding characters keys_of
listed (arr items) = some items
listed (str s) = some (characters s)
listed (obj fields) = some (keys_of fields)
listed _ = none

-- whether a list is that of these texts
unfoldable pub same_texts : {F : Type 0} → Items F → List String → Bool
same_texts nil [] = true
same_texts (cons (str s) items) (t ∷ ts) = str_eq s t && same_texts items ts
same_texts _ _ = false

abbrev pub payload_resource_prefix : String
payload_resource_prefix = "payload-sha256:"

module _ ⦃p : Platform⦄ where
  open p use {Float}

  abbrev pub Envelope : Type 0
  Envelope = Dict (Value Float)

  unfoldable pub payload_hash : Value Float → String
  payload_hash payload = p.sha256 (p.compact payload)

  -- `payload-sha256:` and the hash of the payload
  abbrev pub binding : Value Float → String
  binding payload = concat (payload_resource_prefix ∷ payload_hash payload ∷ [])

  -- The key of the environment, or a new one where there is none.
  unfoldable pub load_or_generate_key : ℕ → Result (String × String)
  load_or_generate_key tick = elim (p.getenv "CARRYALL_SIGNING_KEY_B64") [
    | none ↦ ok (p.generate_key tick)
    | some raw ↦
        if str_eq raw ""
        then ok (p.generate_key tick)
        else elim (p.key_of_b64 raw) [ none ↦ err value_error | some pair ↦ ok pair ]
  ]

  pub sign : Dict (Value Float) → String → String
  sign payload private_key = p.ed25519_sign private_key (p.compact (object payload))

  pub verify : Dict (Value Float) → String → String → Bool
  verify payload sig public_key = p.ed25519_verify public_key sig (p.compact (object payload))

  pub thin_fields :
      ℕ → String → Dict (Value Float) → String → List String → String → Dict (Value Float)
  thin_fields issued_at action payload agent_id scopes public_key =
      ("action", str action)
      ∷ ("payload", object payload)
      ∷ ("agent_id", str agent_id)
      ∷ ("scopes", texts scopes)
      ∷ ("issued_at", int issued_at)
      ∷ ("public_key_hex", str public_key)
      ∷ ("envelope_source", str "thin-ed25519")
      ∷ []

  -- `_sign_thin`
  unfoldable pub sign_thin :
      ℕ → String → Dict (Value Float) → String → List String → Result Envelope
  unfolding thin_fields sign
  sign_thin tick action payload agent_id scopes = elim (load_or_generate_key tick) [
    | err x ↦ err x
    | ok (private_key, public_key) ↦
        let fields = thin_fields (p.clock tick).secs action payload agent_id scopes public_key in
        ok (put "signature" (str (sign fields private_key)) fields)
  ]

  -- The flat fields that are laid over those of the package.
  unfoldable pub laid_over :
      ℕ → String → Dict (Value Float) → List String → String → Dict (Value Float) → Envelope
  laid_over issued_at action payload scopes public_key serialized =
      put "envelope_source" (str "authority-runtime") (
        put "public_key_hex" (str public_key) (
          put "issued_at" (int issued_at) (
            put "scopes" (texts scopes)
              (put "payload" (object payload) (put "action" (str action) serialized)))))

  -- `_sign_with_authority_runtime`, where `none` is an exception
  unfoldable pub sign_with_authority_runtime :
      ℕ → String → Dict (Value Float) → String → List String → Option Envelope
  sign_with_authority_runtime tick action payload agent_id scopes =
      elim (p.generate_key_pair tick) [
        | none ↦ none
        | some (private_key, public_key) ↦
            elim (p.create_simple_envelope tick agent_id scopes private_key action
              (binding (object payload) ∷ []) action) [
                | none ↦ none
                | some serialized ↦
                    some (laid_over (p.clock tick).secs action payload scopes public_key serialized)
              ]
      ]

  abbrev pub is_empty : List String → Bool
  is_empty [] = true
  is_empty _ = false

  -- The envelope of `sign_stripe_envelope`, before it is audited.
  unfoldable pub build_envelope :
      ℕ → String → Dict (Value Float) → String → List String → Result Envelope
  build_envelope tick action payload agent_id scopes =
      if p.has_authority_runtime && not (is_empty scopes)
      then elim (sign_with_authority_runtime tick action payload agent_id scopes) [
        | none ↦ sign_thin tick action payload agent_id scopes
        | some envelope ↦ ok envelope
      ]
      else sign_thin tick action payload agent_id scopes

  -- `float(value)`
  unfoldable pub float_of : Value Float → Result Float
  float_of (int n) = ok (p.of_ℕ n)
  float_of (real x) = ok x
  float_of (bool true) = ok (p.of_ℕ 1)
  float_of (bool false) = ok (p.of_ℕ 0)
  float_of (str s) = elim (p.parse_float s) [ none ↦ err value_error | some x ↦ ok x ]
  float_of _ = err type_error

  abbrev pub field_or : String → Value Float → Dict (Value Float) → Value Float
  field_or key other d = elim (get key d) [ none ↦ other | some v ↦ v ]

  pub audit_metadata : String → List String → Envelope → Dict (Value Float)
  audit_metadata action scopes envelope =
      ("scopes", texts scopes)
      ∷ ("envelope_action", str action)
      ∷ ("public_key_hex", field_or "public_key_hex" (str "") envelope)
      ∷ ("envelope_source", field_or "envelope_source" (str "thin-ed25519") envelope)
      ∷ []

  -- `_audit_envelope`
  unfoldable pub audit_envelope :
      String → Dict (Value Float) → String → List String → Envelope → Act World Entry
  audit_envelope action payload agent_id scopes envelope =
      lift (float_of (field_or "amount_cents" (int 0) payload)) >>= λ cents. on_audit (λ now.
        append_action now "payment" (p.str_value (field_or "vendor" (str action) payload))
          (p.div cents (p.of_ℕ 100)) "envelope_signed" agent_id
          (audit_metadata action scopes envelope))

  unfoldable pub sign_stripe_envelope :
      String → Dict (Value Float) → String → List String → Act World Envelope
  sign_stripe_envelope action payload agent_id scopes =
      outside (λ tick. build_envelope tick action payload agent_id scopes) >>= λ envelope.
      audit_envelope action payload agent_id scopes envelope >> pure envelope

  -- The scopes of the flat dict, where it has some, are those that are signed.
  unfoldable pub scopes_agree : Option (Value Float) → List String → Bool
  unfolding listed
  scopes_agree none signed = true
  scopes_agree (some null) signed = true
  scopes_agree (some v) signed = elim (listed v) [
    | none ↦ false
    | some items ↦ same_texts items signed
  ]

  -- `_verify_with_authority_runtime`, where an exception is false
  unfoldable pub verify_with_authority_runtime : Envelope → String → Bool
  verify_with_authority_runtime envelope public_key = elim (p.model_validate envelope) [
    | none ↦ false
    | some signed ↦ elim (signed.verifies public_key) [
      | none ↦ false
      | some false ↦ false
      | some true ↦
          if not (scopes_agree (get "scopes" envelope) signed.scopes)
          then false
          else member (binding (field_or "payload" (object []) envelope)) signed.resources
    ]
  ]

  -- A field that holds a text that is not empty. Any other value fails to verify as a key or as a
  -- signature.
  unfoldable pub text_field : String → Envelope → Option String
  text_field key envelope = elim (get key envelope) [
    | some (str s) ↦ if str_eq s "" then none else some s
    | some _ ↦ none
    | none ↦ none
  ]

  abbrev pub says_authority : Option (Value Float) → Bool
  says_authority (some (str s)) = str_eq s "authority-runtime"
  says_authority _ = false

  unfoldable pub verify_envelope : Envelope → Bool
  unfolding verify
  verify_envelope envelope = elim (text_field "signature" envelope) [
    | none ↦ false
    | some sig ↦ elim (text_field "public_key_hex" envelope) [
      | none ↦ false
      | some public_key ↦
          if says_authority (get "envelope_source" envelope) && p.has_authority_runtime
          then verify_with_authority_runtime envelope public_key
          else verify (without "signature" envelope) sig public_key
    ]
  ]
