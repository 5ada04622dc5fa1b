-- ===== src/Cycle/Escalated.antt =====
-- What a cycle escalates (analysis/loop.py).
use nemoclaw_smb.Base.{
  ℕ, ◌≡◌, inl, inr, refl, sym, ap, ◌∙◌, String, true, false, some, List, [], ◌∷◌, ◌++◌, All,
  Bool-cases, arith, length, map, member, str_eq, str_eq_iff, if◌then◌else◌,
}
use nemoclaw_smb.Base.Members.{All-imp}
use nemoclaw_smb.Base.Dict.{Dict, contains, contains-put, get, put}
use nemoclaw_smb.Base.Act.{bind_inv, ◌>>=◌, pure, ok, ok_inv, pure_inv, Plain-cases}
use nemoclaw_smb.Json.{Value, object, str}
use nemoclaw_smb.Platform.{Platform, entry}
use nemoclaw_smb.Tenancy.{Tenant}
use nemoclaw_smb.Correlation.{Finding}
use nemoclaw_smb.Cycle.{
  Escalation, Files, Summary, conclude, diff_findings, escalate, escalations_of, finding_key,
  findings_map, load_last_findings, gather, Gathered, summary_of, run_cycle, save_last_findings,
}
use nemoclaw_smb.Cycle.Keeps.{gather-Keeps}

module _ ⦃p : Platform⦄ where
  contains-findings_map :
      (k : String) (fs : List Finding) (d : Dict (Value p.Float))
      → contains k (findings_map fs d)
        ≡ (if member k (map finding_key fs) then true else contains k d)
  unfolding findings_map member
  contains-findings_map k [] d = refl
  contains-findings_map k (f ∷ fs) d =
      let v = object (("title", str f.title) ∷ ("why", str f.why) ∷ []) in
      contains-findings_map k fs (put (finding_key f) v d)
      ∙ ground (
        arith,
        contains-put (finding_key f) k v d,
        str_eq_iff (finding_key f) k,
        str_eq_iff k (finding_key f),
      )

  -- the key of an escalation is not in a map
  abbrev IsNew : Dict (Value p.Float) → Escalation → Type 0
  IsNew last e = contains e.key last ≡ false

  escalations_of-IsNew :
      (tenant : Tenant) (mode ts : String) (fs : List Finding) (last : Dict (Value p.Float))
      → All (IsNew last) (escalations_of tenant mode ts (diff_findings fs last))
  unfolding diff_findings
  escalations_of-IsNew tenant mode ts [] last = tt
  escalations_of-IsNew tenant mode ts (f ∷ fs) last =
      elim (Bool-cases (contains (finding_key f) last)) [
        | inl e ↦ rw (e, diff_findings) (escalations_of-IsNew tenant mode ts fs last)
        | inr e ↦ rw (e, diff_findings) (e, escalations_of-IsNew tenant mode ts fs last)
      ]

  -- the key is that of one of the findings
  abbrev IsFound : List Finding → Escalation → Type 0
  IsFound fs e = member e.key (map finding_key fs) ≡ true

  IsFound-cons :
      (f : Finding) (fs : List Finding) (e : Escalation) → IsFound fs e → IsFound (f ∷ fs) e
  unfolding member
  IsFound-cons f fs e h = ground arith

  escalations_of-IsFound :
      (tenant : Tenant) (mode ts : String) (fs : List Finding) (last : Dict (Value p.Float))
      → All (IsFound fs) (escalations_of tenant mode ts (diff_findings fs last))
  unfolding diff_findings member
  escalations_of-IsFound tenant mode ts [] last = tt
  escalations_of-IsFound tenant mode ts (f ∷ fs) last =
      let new = escalations_of tenant mode ts (diff_findings fs last) in
      let later =
        All-imp (IsFound fs) (IsFound (f ∷ fs)) new (λ e h. IsFound-cons f fs e h)
          (escalations_of-IsFound tenant mode ts fs last) in
      elim (Bool-cases (contains (finding_key f) last)) [
        | inl e ↦ rw (e, diff_findings) later
        | inr e ↦
            rw (e, diff_findings)
              (ground (arith, str_eq_iff (finding_key f) (finding_key f)), later)
      ]

  length-escalations_of :
      (tenant : Tenant) (mode ts : String) (fs : List Finding)
      → length (escalations_of tenant mode ts fs) ≡ length fs
  length-escalations_of tenant mode ts [] = refl
  length-escalations_of tenant mode ts (f ∷ fs) =
      omega (arith, length-escalations_of tenant mode ts fs)

  -- What a cycle that succeeds and can write its files has done.
  pub record IsConcluded (count : ℕ) (w w' : Files) : Type 0 where
    pub found : List Finding
    pub last : Dict (Value p.Float)
    pub new : List Escalation
    pub remembered : load_last_findings w.findings ≡ ok last
    pub appended : w'.escalations ≡ w.escalations ++ new
    pub kept : w'.findings ≡ some (entry (findings_map found []))
    pub fresh : All (IsNew last) new
    pub known : All (IsFound found) new
    pub counted : count ≡ length new

  module _ (writable : (i : ℕ) (path : String) → p.can_write i path ≡ true) where
    escalations-escalate :
        (tenant : Tenant) (mode : String) (new : List Finding) (w : Files)
        → (escalate tenant mode new w).escalations
          ≡ w.escalations ++ escalations_of tenant mode (p.clock w.tick).iso new
    unfolding escalate
    escalations-escalate tenant mode new w = ground (arith, writable w.tick "escalations.jsonl")

    save_last_findings_lem :
        (found : Dict (Value p.Float)) (w : Files)
        → ((save_last_findings found w).findings ≡ some (entry found))
          × ((save_last_findings found w).escalations ≡ w.escalations)
    unfolding save_last_findings
    save_last_findings_lem found w = (ground (arith, writable w.tick "findings.json"), ground arith)

    conclude-IsConcluded :
        (tenant : Tenant) (mode : String) (found : List Finding) (w w' : Files) (count : ℕ)
        → conclude tenant mode found w ≡ (ok count, w')
        → IsConcluded count w w'
    unfolding conclude
    conclude-IsConcluded tenant mode found w w' count h =
        elim (Plain-cases (load_last_findings w.findings)) [
          | inr (x, failed) ↦ absurd (ground arith)
          | inl (last, remembered) ↦
              let diff = diff_findings found last in
              let new = escalations_of tenant mode (p.clock w.tick).iso diff in
              let w1 = escalate tenant mode diff w in
              let (saved, same) = save_last_findings_lem (findings_map found []) w1 in
              let done : conclude tenant mode found w
                  ≡ (ok (length diff), save_last_findings (findings_map found []) w1) =
                ground arith in
              let (counted, after) = pure_inv (sym done ∙ h) in
              record {
                found = found;
                last = last;
                new = new;
                remembered = remembered;
                appended =
                    ap (λ (v : Files). v.escalations) (sym after)
                    ∙ same
                    ∙ escalations-escalate tenant mode diff w;
                kept = ap (λ (v : Files). v.findings) (sym after) ∙ saved;
                fresh = escalations_of-IsNew tenant mode (p.clock w.tick).iso found last;
                known = escalations_of-IsFound tenant mode (p.clock w.tick).iso found last;
                counted =
                    sym counted ∙ sym (length-escalations_of tenant mode (p.clock w.tick).iso diff);
              }
        ]

  -- What a cycle that succeeds has done, where the files can be written.
  run_cycle-IsConcluded :
      (writable : (i : ℕ) (path : String) → p.can_write i path ≡ true) (tenant : Tenant)
      (mode : String) (w w' : Files) (s : Summary)
      → run_cycle tenant mode w ≡ (ok s, w')
      → IsConcluded s.new_findings w w'
  unfolding run_cycle
  run_cycle-IsConcluded writable tenant mode w w' s h =
      let counted = λ (g : Gathered).
        conclude tenant mode g.found >>= λ count. pure (summary_of tenant mode g count) in
      let (g, w1, gathered, rest) = bind_inv (gather tenant mode) counted w h in
      let (count, w2, concluded, done) =
        bind_inv (conclude tenant mode g.found) (λ count. pure (summary_of tenant mode g count)) w1
          rest in
      let (same_findings, same_escalations) = gather-Keeps tenant mode w in
      let c = conclude-IsConcluded writable tenant mode g.found w1 w2 count concluded in
      let (is_summary, last) = pure_inv done in
      let found_before : w1.findings ≡ w.findings =
        sym (ap (λ r. r.1.findings) gathered) ∙ same_findings in
      let escalated_before : w1.escalations ≡ w.escalations =
        sym (ap (λ r. r.1.escalations) gathered) ∙ same_escalations in
      record {
        found = c.found;
        last = c.last;
        new = c.new;
        remembered = ap load_last_findings (sym found_before) ∙ c.remembered;
        appended =
            ap (λ (v : Files). v.escalations) (sym last)
            ∙ c.appended
            ∙ ap (λ l. l ++ c.new) escalated_before;
        kept = ap (λ (v : Files). v.findings) (sym last) ∙ c.kept;
        fresh = c.fresh;
        known = c.known;
        counted = ap (λ (r : Summary). r.new_findings) (sym is_summary) ∙ c.counted;
      }

  abbrev Differ : Escalation → Escalation → Type 0
  Differ e e' = str_eq e.key e'.key ≡ false

  IsNew-Differ :
      (found : List Finding) (e e' : Escalation)
      → IsFound found e
      → IsNew (findings_map found []) e'
      → Differ e e'
  unfolding contains get
  IsNew-Differ found e e' known fresh =
      ground (arith, contains-findings_map e'.key found [], str_eq_iff e.key e'.key)

  -- If a tenant's files can be written, and two cycles in a row succeed, in whatever modes, then each
  -- has only added to the escalations, as many as its summary counts, and no key that the first cycle
  -- has escalated is escalated by the second.
  pub run_cycle_twice :
      (tenant : Tenant) (mode mode' : String) (w w1 w2 : Files) (s s' : Summary)
      → ((i : ℕ) (path : String) → p.can_write i path ≡ true)
      → run_cycle tenant mode w ≡ (ok s, w1)
      → run_cycle tenant mode' w1 ≡ (ok s', w2)
      → (new : List Escalation) × (new' : List Escalation) × (w1.escalations ≡ w.escalations ++ new)
        × (w2.escalations ≡ w1.escalations ++ new')
        × (s.new_findings ≡ length new)
        × (s'.new_findings ≡ length new')
        × All (λ e. All (λ e'. str_eq e.key e'.key ≡ false) new') new
  unfolding load_last_findings
  run_cycle_twice tenant mode mode' w w1 w2 s s' writable first second =
      let c = run_cycle-IsConcluded writable tenant mode w w1 s first in
      let d = run_cycle-IsConcluded writable tenant mode' w1 w2 s' second in
      let known_map : findings_map c.found [] ≡ d.last =
        ok_inv (sym (ap load_last_findings c.kept) ∙ d.remembered) in
      (
        c.new,
        d.new,
        c.appended,
        d.appended,
        c.counted,
        d.counted,
        All-imp (IsFound c.found) (λ e. All (Differ e) d.new) c.new
            (λ e known.
              All-imp (IsNew d.last) (Differ e) d.new
                (λ e' fresh. IsNew-Differ c.found e e' known (rw known_map fresh)) d.fresh)
            c.known,
      )
