-- ===== src/Envelope/Signing.antt =====
-- What the envelopes rely on of Ed25519 and of authority-runtime, and the two ways of signing
-- (payments/envelopes.py).
use nemoclaw_smb.Base.{
  ℕ, ◌≡◌, ◌≢◌, refl, ◌∙◌, String, true, some, List, [], ◌∷◌, arith, member, str_eq_iff,
}
use nemoclaw_smb.Base.Dict.{Dict, get, put, without, get-put}
use nemoclaw_smb.Json.{Value, str, object, texts, items_of}
use nemoclaw_smb.Platform.{Platform, Authority}
use nemoclaw_smb.Envelope.{
  Envelope, same_texts, listed, binding, sign, verify, thin_fields, laid_over, scopes_agree,
  verify_with_authority_runtime, text_field, verify_envelope,
}

module _ ⦃p : Platform⦄ where
  -- A pair of keys: the public one is not empty and accepts what the private one signs.
  pub record IsPair (private_key public_key : String) : Type 0 where
    pub visible : public_key ≢ ""
    pub signs : (text : String) → p.ed25519_sign private_key text ≢ ""
    pub accepts :
        (text : String) → p.ed25519_verify public_key (p.ed25519_sign private_key text) text ≡ true

  -- What the package reads in an envelope that it made: the scopes and the resources are those that
  -- were signed, and the public key accepts it.
  pub record IsIssued (d : Envelope) (scopes resources : List String) (public_key : String)
      : Type 0 where
    pub view : Authority
    pub reads : p.model_validate d ≡ some view
    pub has_scopes : view.scopes ≡ scopes
    pub has_resources : view.resources ≡ resources
    pub accepted : view.verifies public_key ≡ some true
    pub signature : String
    pub signed : get "signature" d ≡ some (str signature)
    pub visible : signature ≢ ""

  abbrev pub flat_keys : List String
  flat_keys =
      "action" ∷ "payload" ∷ "scopes" ∷ "issued_at" ∷ "public_key_hex" ∷ "envelope_source" ∷ []

  -- What the code relies on of Ed25519 and of the package, which leaves the flat fields aside.
  pub record IsSigning : Type 0 where
    pub key_of_b64 :
        (raw private_key public_key : String)
        → p.key_of_b64 raw ≡ some (private_key, public_key)
        → IsPair private_key public_key
    pub generate_key : (tick : ℕ) → IsPair (p.generate_key tick).0 (p.generate_key tick).1
    pub visible :
        (tick : ℕ) (private_key public_key : String)
        → p.generate_key_pair tick ≡ some (private_key, public_key)
        → public_key ≢ ""
    pub issues :
        (tick : ℕ) (agent : String) (scopes : List String) (private_key public_key skill : String)
        (resources : List String) (policy : String) (d : Envelope)
        → p.generate_key_pair tick ≡ some (private_key, public_key)
        → p.create_simple_envelope tick agent scopes private_key skill resources policy ≡ some d
        → IsIssued d scopes resources public_key
    pub leaves_flat :
        (key : String) (v : Value p.Float) (d : Envelope)
        → member key flat_keys ≡ true
        → p.model_validate (put key v d) ≡ p.model_validate d

  same_texts_self : (ts : List String) → same_texts {F = p.Float} (items_of ts) ts ≡ true
  unfolding same_texts
  same_texts_self [] = refl
  same_texts_self (t ∷ ts) = ground (arith, str_eq_iff t t, same_texts_self ts)

  text_field_of :
      (key s : String) (e : Envelope)
      → get key e ≡ some (str s)
      → s ≢ ""
      → text_field key e ≡ some s
  unfolding text_field
  text_field_of key s e here visible = ground (arith, str_eq_iff s "")

  verify_thin :
      (e : Envelope) (sig public_key : String)
      → get "signature" e ≡ some (str sig)
      → sig ≢ ""
      → get "public_key_hex" e ≡ some (str public_key)
      → public_key ≢ ""
      → get "envelope_source" e ≡ some (str "thin-ed25519")
      → verify_envelope e ≡ verify (without "signature" e) sig public_key
  unfolding verify_envelope
  verify_thin e sig public_key signed visible keyed seen source = ground (
    arith,
    text_field_of "signature" sig e signed visible,
    text_field_of "public_key_hex" public_key e keyed seen,
  )

  -- The thin envelope: its fields are what was signed.
  pub thin_verifies :
      (issued_at : ℕ) (action : String) (payload : Dict (Value p.Float)) (agent_id : String)
      (scopes : List String) (private_key public_key : String)
      → IsPair private_key public_key
      → let fields = thin_fields issued_at action payload agent_id scopes public_key in
        verify_envelope (put "signature" (str (sign fields private_key)) fields) ≡ true
  unfolding verify sign thin_fields get put without
  thin_verifies issued_at action payload agent_id scopes private_key public_key pair =
      let fields = thin_fields issued_at action payload agent_id scopes public_key in
      verify_thin (put "signature" (str (sign fields private_key)) fields) (sign fields private_key)
        public_key refl (pair.signs _) refl pair.visible refl
      ∙ pair.accepts _

  -- The envelope of the package, with the flat fields over it.
  module _ (issued_at : ℕ) (action : String) (payload : Dict (Value p.Float)) (scopes : List String)
      (public_key : String) (d : Envelope) where
    abbrev Laid : Envelope
    Laid = laid_over issued_at action payload scopes public_key d

    get_signature : get "signature" Laid ≡ get "signature" d
    unfolding laid_over
    get_signature = rw (get-put, get-put, get-put, get-put, get-put, get-put) refl

    get_public_key : get "public_key_hex" Laid ≡ some (str public_key)
    unfolding laid_over
    get_public_key = rw (get-put, get-put) refl

    get_scopes : get "scopes" Laid ≡ some (texts scopes)
    unfolding laid_over
    get_scopes = rw (get-put, get-put, get-put, get-put) refl

    get_payload : get "payload" Laid ≡ some (object payload)
    unfolding laid_over
    get_payload = rw (get-put, get-put, get-put, get-put, get-put) refl

    get_source : get "envelope_source" Laid ≡ some (str "authority-runtime")
    unfolding laid_over
    get_source = rw get-put refl

    reads_as : IsSigning → p.model_validate Laid ≡ p.model_validate d
    unfolding laid_over member
    reads_as signing =
        rw
          (
            signing.leaves_flat, signing.leaves_flat, signing.leaves_flat, signing.leaves_flat,
            signing.leaves_flat, signing.leaves_flat,
          )
          refl

    scopes_agree_here : scopes_agree (get "scopes" Laid) scopes ≡ true
    unfolding scopes_agree listed
    scopes_agree_here = rw get_scopes (same_texts_self scopes)

    authority_accepts :
        IsSigning
        → IsIssued d scopes (binding (object payload) ∷ []) public_key
        → verify_with_authority_runtime Laid public_key ≡ true
    unfolding verify_with_authority_runtime member
    authority_accepts signing issued =
        let bound = binding (object payload) in
        ground (
          arith,
          reads_as signing,
          issued.reads,
          issued.accepted,
          issued.has_scopes,
          issued.has_resources,
          scopes_agree_here,
          get_payload,
          str_eq_iff bound bound,
        )

    pub laid_over_verifies :
        IsSigning
        → p.has_authority_runtime ≡ true
        → public_key ≢ ""
        → IsIssued d scopes (binding (object payload) ∷ []) public_key
        → verify_envelope Laid ≡ true
    unfolding verify_envelope
    laid_over_verifies signing here seen issued = ground (
      arith,
      text_field_of "signature" issued.signature Laid (get_signature ∙ issued.signed)
          issued.visible,
      text_field_of "public_key_hex" public_key Laid get_public_key seen,
      get_source,
      authority_accepts signing issued,
    )
