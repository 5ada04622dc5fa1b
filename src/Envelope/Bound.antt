-- ===== src/Envelope/Bound.antt =====
-- What verifies is bound to its payload (payments/envelopes.py).
use nemoclaw_smb.Base.{
  ◌≡◌, ◌⊎◌, inl, inr, String, true, ◌&&◌, some, [], arith, member, Bool-cases, Option-cases,
}
use nemoclaw_smb.Base.Dict.{get, without}
use nemoclaw_smb.Json.{object}
use nemoclaw_smb.Platform.{Platform, Authority}
use nemoclaw_smb.Envelope.{
  Envelope, binding, verify, scopes_agree, field_or, verify_with_authority_runtime, text_field,
  verify_envelope, says_authority,
}

module _ ⦃p : Platform⦄ where
  -- The signature covers the payload: of an envelope of the package, the signed resources hold the
  -- hash of the payload; of a thin one, the signature is of all its other fields.
  abbrev pub IsBound : Envelope → String → Type 0
  IsBound e public_key =
      ((view : Authority) × (p.model_validate e ≡ some view)
        × (view.verifies public_key ≡ some true)
        × (scopes_agree (get "scopes" e) view.scopes ≡ true)
        × (member (binding (field_or "payload" (object []) e)) view.resources ≡ true))
      ⊎ ((sig : String) × (text_field "signature" e ≡ some sig)
          × (p.ed25519_verify public_key sig (p.compact (object (without "signature" e))) ≡ true))

  verify_with_authority_runtime_binds :
      (e : Envelope) (public_key : String)
      → verify_with_authority_runtime e public_key ≡ true
      → IsBound e public_key
  unfolding verify_with_authority_runtime
  verify_with_authority_runtime_binds e public_key h = elim (Option-cases (p.model_validate e)) [
    | inl gone ↦ ground arith
    | inr (view, reads) ↦ inl (view, reads, ground arith, ground arith, ground arith)
  ]

  -- An envelope that verifies has a signature and a public key, neither of them empty, and the key
  -- accepts a signature that covers the payload.
  pub verify_envelope_binds :
      (e : Envelope)
      → verify_envelope e ≡ true
      → (sig : String) × (public_key : String) × (text_field "signature" e ≡ some sig)
        × (text_field "public_key_hex" e ≡ some public_key)
        × IsBound e public_key
  unfolding verify_envelope verify
  verify_envelope_binds e h = elim (Option-cases (text_field "signature" e)) [
    | inl gone ↦ ground arith
    | inr (sig, signed) ↦ elim (Option-cases (text_field "public_key_hex" e)) [
      | inl gone ↦ ground arith
      | inr (public_key, keyed) ↦
          elim (Bool-cases (says_authority (get "envelope_source" e) && p.has_authority_runtime)) [
            | inl issued ↦ (
              sig,
              public_key,
              signed,
              keyed,
              verify_with_authority_runtime_binds e public_key (ground arith),
            )
            | inr thin ↦ (sig, public_key, signed, keyed, inr (sig, signed, ground arith))
          ]
    ]
  ]
