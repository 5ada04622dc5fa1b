-- ===== src/Chain/Tamper.antt =====
-- What a verified chain protects (agent/audit_log.py): its last hash fixes every entry.
use nemoclaw_smb.Base.{
  ℕ, suc, ◌+◌, ◌≡◌, ◌≢◌, refl, sym, ap, ◌∙◌, ◌⊎◌, inl, inr, String, true, false, none, some, Option,
  List, [], ◌∷◌, arith, length, str_eq, str_eq_iff, Bool-cases, Option-cases,
}
use Prim.Native.String.{◌++◌ as str_append, count}
use text.Mathlib.TextLemmas.{append_inj}
use nemoclaw_smb.Base.Dict.{get, without}
use nemoclaw_smb.Base.Act.{Result, ok}
use nemoclaw_smb.Json.{Value, str}
use nemoclaw_smb.Platform.{Platform, IsLawful, Loaded-cases, entry}
use nemoclaw_smb.Chain.{
  Entry, genesis_hash, Verdict, intact, hash_entry, holds_text, entry_fault, verify_from,
  verify_chain,
}

module _ ⦃p : Platform⦄ where
  -- At one position, the two lists have different texts with one digest.
  abbrev pub Colliding : List String → List String → Type 0
  Colliding (x ∷ xs) (y ∷ ys) = ((x ≢ y) × (p.sha256 x ≡ p.sha256 y)) ⊎ Colliding xs ys
  Colliding _ _ = ⊥

  -- The texts that the entries of a file are hashed as, without their own hashes.
  abbrev pub signed : List p.Line → List String
  signed [] = []
  signed (l ∷ ls) = elim (p.is_blank l) [
    | true ↦ signed ls
    | false ↦ elim (p.load l) [
      | entry e ↦ p.canonical (without "entry_hash" e) ∷ signed ls
      | _ ↦ signed ls
    ]
  ]

  -- The hash that the last entry carries.
  abbrev pub stored_hash : String → Entry → String
  stored_hash prev e = elim (get "entry_hash" e) [ some (str h) ↦ h | _ ↦ prev ]

  abbrev pub final_hash : String → List p.Line → String
  final_hash prev [] = prev
  final_hash prev (l ∷ ls) = elim (p.is_blank l) [
    | true ↦ final_hash prev ls
    | false ↦ elim (p.load l) [
      | entry e ↦ final_hash (stored_hash prev e) ls
      | _ ↦ final_hash prev ls
    ]
  ]

  -- The chain of digests over a list of texts.
  abbrev digest : String → List String → String
  digest prev [] = prev
  digest prev (c ∷ cs) = digest (p.sha256 (str_append prev c)) cs

  -- The texts that are hashed along the chain, each one joined to the digest before it.
  abbrev pub hashed : String → List String → List String
  hashed prev [] = []
  hashed prev (c ∷ cs) = str_append prev c ∷ hashed (p.sha256 (str_append prev c)) cs

  holds_text-eq :
      (v : Option (Value p.Float)) (t : String) → holds_text v t ≡ true → v ≡ some (str t)
  unfolding holds_text
  holds_text-eq (some (str s)) t h = ap (λ x. some (str x)) ((str_eq_iff s t).0 h)
  holds_text-eq none t h = cc
  holds_text-eq _ t h = cc

  checked_hash :
      (prev : String) (seq lineno : ℕ) (e : Entry)
      → entry_fault prev seq lineno e ≡ none
      → holds_text (get "entry_hash" e) (hash_entry prev (without "entry_hash" e)) ≡ true
  unfolding entry_fault
  checked_hash prev seq lineno e h = ground arith

  stored_hash-eq :
      (prev : String) (seq lineno : ℕ) (e : Entry)
      → entry_fault prev seq lineno e ≡ none
      → stored_hash prev e ≡ hash_entry prev (without "entry_hash" e)
  stored_hash-eq prev seq lineno e h =
      rw (holds_text-eq _ _ (checked_hash prev seq lineno e h), stored_hash)

  fault-ne-intact :
      (prev : String) (seq lineno : ℕ) (e : Entry) {v : Verdict} {m : ℕ}
      → entry_fault prev seq lineno e ≡ some v
      → v ≢ intact m
  unfolding entry_fault
  fault-ne-intact prev seq lineno e h same = ground arith

  ok-injective : {v w : Verdict} → ◌≡◌ {A = Result Verdict} (ok v) (ok w) → v ≡ w
  ok-injective h = cc

  -- What a check that passes has established about the lines from here on.
  abbrev IsDigested : String → ℕ → List p.Line → ℕ → Type 0
  IsDigested prev seq ls m =
      (final_hash prev ls ≡ digest prev (signed ls)) × (m ≡ seq + length (signed ls))

  verify_digest_entry :
      (prev : String) (seq lineno : ℕ) (e : Entry) (ls : List p.Line) {m : ℕ}
      → ((prev : String) (seq lineno : ℕ)
          → verify_from prev seq lineno ls ≡ ok (intact m)
          → IsDigested prev seq ls m)
      → (elim (entry_fault prev seq lineno e) [
        | some fault ↦ ok fault
        | none ↦ verify_from (hash_entry prev (without "entry_hash" e)) (seq + 1) (lineno + 1) ls
      ])
        ≡ ok (intact m)
      → (final_hash (stored_hash prev e) ls
          ≡ digest (hash_entry prev (without "entry_hash" e)) (signed ls))
        × (m ≡ seq + suc (length (signed ls)))
  verify_digest_entry prev seq lineno e ls ih h =
      elim (Option-cases (entry_fault prev seq lineno e)) [
        | inl clean ↦
            let (same, len) = ih _ _ _ (rw clean at h) in
            (rw (stored_hash-eq prev seq lineno e clean) same, omega arith)
        | inr (fault, bad) ↦
            absurd (fault-ne-intact prev seq lineno e bad (ok-injective (rw bad at h)))
      ]

  verify_digest :
      (prev : String) (seq lineno : ℕ) (ls : List p.Line) {m : ℕ}
      → verify_from prev seq lineno ls ≡ ok (intact m)
      → IsDigested prev seq ls m
  unfolding verify_from hash_entry
  verify_digest prev seq lineno [] h = ground arith
  verify_digest prev seq lineno (l ∷ ls) h = elim (Bool-cases (p.is_blank l)) [
    | inl blank ↦
        rw (blank, final_hash, signed)
          (verify_digest prev seq (lineno + 1) ls (rw (blank, verify_from) at h))
    | inr seen ↦ elim (Loaded-cases (p.load l)) [
      | inl bad ↦ ground arith
      | inr (inl bad) ↦ ground arith
      | inr (inr (e, good)) ↦
          rw (seen, good, final_hash, signed)
            (verify_digest_entry prev seq lineno e ls
              (λ prev' seq' lineno'. verify_digest prev' seq' lineno' ls)
              (rw (seen, good, verify_from) at h))
    ]
  ]

  module _ (laws : IsLawful) where
    digest_inj :
        (cs ds : List String) (prev prev' : String)
        → length cs ≡ length ds
        → count prev ≡ 64
        → count prev' ≡ 64
        → digest prev cs ≡ digest prev' ds
        → ((prev ≡ prev') × (cs ≡ ds)) ⊎ Colliding (hashed prev cs) (hashed prev' ds)
    digest_inj [] [] prev prev' _ _ _ h = inl (h, refl)
    digest_inj [] (d ∷ ds) prev prev' len _ _ h = absurd (omega arith)
    digest_inj (c ∷ cs) [] prev prev' len _ _ h = absurd (omega arith)
    digest_inj (c ∷ cs) (d ∷ ds) prev prev' len k k' h =
        elim (digest_inj cs ds _ _ (omega arith) (laws.count-sha256 _) (laws.count-sha256 _) h) [
          | inr found ↦ inr (inr found)
          | inl (same, rest) ↦ elim (Bool-cases (str_eq (str_append prev c) (str_append prev' d))) [
            | inl e ↦
                let (heads, texts) = append_inj ((str_eq_iff _ _).0 e) (k ∙ sym k') in
                inl (heads, cc (texts, rest))
            | inr e ↦ inr (
                inl (
                  (λ x. ground (arith, str_eq_iff (str_append prev c) (str_append prev' d))),
                  same,
                ))
          ]
        ]

    -- On a platform that is lawful, if two files verify with equally many entries and their last
    -- entries carry the same hash, then entry by entry their signed texts are the same, or the two
    -- chains collide: at one position, the texts that the two files have there, each joined to the
    -- digest before it, differ and have the same digest.
    pub final_hash_fixes :
        (xs ys : List p.Line) (n : ℕ)
        → verify_chain (some xs) ≡ ok (intact n)
        → verify_chain (some ys) ≡ ok (intact n)
        → final_hash genesis_hash xs ≡ final_hash genesis_hash ys
        → (signed xs ≡ signed ys)
          ⊎ Colliding (hashed genesis_hash (signed xs)) (hashed genesis_hash (signed ys))
    unfolding verify_chain
    final_hash_fixes xs ys n va vb same =
        let (da, la) = verify_digest genesis_hash 0 1 xs va in
        let (db, lb) = verify_digest genesis_hash 0 1 ys vb in
        elim (digest_inj (signed xs) (signed ys) genesis_hash genesis_hash (omega arith) refl refl
          (sym da ∙ same ∙ db)) [ inl (_, texts) ↦ inl texts | inr found ↦ inr found ]
