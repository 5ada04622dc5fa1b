-- ===== src/Envelope/Signed.antt =====
-- What is signed verifies (payments/envelopes.py).
use mathlib.Core.Path.{subst}
use nemoclaw_smb.Base.{
  ℕ, ◌≡◌, ◌≢◌, ◌⊎◌, inl, inr, sym, String, true, none, some, List, [], ◌∷◌, arith, str_eq,
  str_eq_iff, Bool-cases, Option-cases,
}
use nemoclaw_smb.Base.Dict.{Dict, put}
use nemoclaw_smb.Base.Act.{Result, ok, err, value_error}
use nemoclaw_smb.Json.{Value, str, object}
use nemoclaw_smb.Platform.{Platform}
use nemoclaw_smb.Envelope.{
  Envelope, binding, load_or_generate_key, sign, thin_fields, sign_thin, laid_over,
  sign_with_authority_runtime, build_envelope, verify_envelope, is_empty,
}
use nemoclaw_smb.Envelope.Signing.{IsPair, IsSigning, thin_verifies, laid_over_verifies}

module _ ⦃p : Platform⦄ where
  -- The environment holds a text that is no key.
  abbrev pub HasBadKey : Type 0
  HasBadKey =
      (raw : String) × (p.getenv "CARRYALL_SIGNING_KEY_B64" ≡ some raw)
      × (raw ≢ "")
      × (p.key_of_b64 raw ≡ none)

  Key-cases :
      IsSigning
      → (tick : ℕ)
      → ((private_key : String) × (public_key : String) × (load_or_generate_key tick
            ≡ ok (private_key, public_key))
          × IsPair private_key public_key)
        ⊎ (HasBadKey × (load_or_generate_key tick ≡ err value_error))
  unfolding load_or_generate_key
  Key-cases signing tick =
      let made = p.generate_key tick in
      elim (Option-cases (p.getenv "CARRYALL_SIGNING_KEY_B64")) [
        | inl e ↦ inl (made.0, made.1, ground arith, signing.generate_key tick)
        | inr (raw, e) ↦ elim (Bool-cases (str_eq raw "")) [
          | inl empty ↦ inl (made.0, made.1, ground arith, signing.generate_key tick)
          | inr given ↦ elim (Option-cases (p.key_of_b64 raw)) [
            | inl bad ↦ inr ((raw, e, ground (arith, str_eq_iff raw ""), bad), ground arith)
            | inr ((private_key, public_key), good) ↦ inl (
              private_key,
              public_key,
              ground arith,
              signing.key_of_b64 raw private_key public_key good,
            )
          ]
        ]
      ]

  abbrev pub IsSignedOrBad : Result Envelope → Type 0
  IsSignedOrBad r =
      ((e : Envelope) × (r ≡ ok e) × (verify_envelope e ≡ true))
      ⊎ (HasBadKey × (r ≡ err value_error))

  module _ (signing : IsSigning) (tick : ℕ) (action : String) (payload : Dict (Value p.Float))
      (agent_id : String) (scopes : List String) where
    sign_thin-IsSignedOrBad : IsSignedOrBad (sign_thin tick action payload agent_id scopes)
    unfolding sign_thin
    sign_thin-IsSignedOrBad = elim (Key-cases signing tick) [
      | inl (private_key, public_key, loaded, pair) ↦
          let fields = thin_fields (p.clock tick).secs action payload agent_id scopes public_key in
          inl (
            put "signature" (str (sign fields private_key)) fields,
            ground arith,
            thin_verifies (p.clock tick).secs action payload agent_id scopes private_key public_key
                pair,
          )
      | inr (bad, failed) ↦ inr (bad, ground arith)
    ]

    -- What the package signs verifies, and it may fail.
    Authority-cases :
        p.has_authority_runtime ≡ true
        → (sign_with_authority_runtime tick action payload agent_id scopes ≡ none)
          ⊎ ((e : Envelope) × (sign_with_authority_runtime tick action payload agent_id scopes
                ≡ some e)
              × (verify_envelope e ≡ true))
    unfolding sign_with_authority_runtime
    Authority-cases here = elim (Option-cases (p.generate_key_pair tick)) [
      | inl e ↦ inl (ground arith)
      | inr ((private_key, public_key), keys) ↦
          elim (Option-cases (
            p.create_simple_envelope tick agent_id scopes private_key action
              (binding (object payload) ∷ []) action)) [
                | inl e ↦ inl (ground arith)
                | inr (d, made) ↦ inr (
                  laid_over (p.clock tick).secs action payload scopes public_key d,
                  ground arith,
                  laid_over_verifies (p.clock tick).secs action payload scopes public_key d signing
                      here (signing.visible tick private_key public_key keys)
                      (signing.issues tick agent_id scopes private_key public_key action
                        (binding (object payload) ∷ []) action d keys made),
                )
              ]
    ]

    -- With keys and a package that work as documented, an envelope that is built verifies, whichever
    -- of the two ways made it; nothing else can happen than that the environment holds a text that is
    -- no key, which is a `ValueError`.
    pub build_envelope_verifies : IsSignedOrBad (build_envelope tick action payload agent_id scopes)
    unfolding build_envelope
    build_envelope_verifies =
        let thin = sign_thin-IsSignedOrBad in
        let built = build_envelope tick action payload agent_id scopes in
        let fallback : built ≡ sign_thin tick action payload agent_id scopes → IsSignedOrBad built =
          λ same. subst IsSignedOrBad (sym same) thin in
        elim (Bool-cases p.has_authority_runtime) [
          | inr absent ↦ fallback (ground arith)
          | inl here ↦ elim (Authority-cases here) [
            | inl failed ↦ fallback (ground arith)
            | inr (e, made, verified) ↦ elim (Bool-cases (is_empty scopes)) [
              | inl none_there ↦ fallback (ground arith)
              | inr given ↦ inl (e, ground arith, verified)
            ]
          ]
        ]
