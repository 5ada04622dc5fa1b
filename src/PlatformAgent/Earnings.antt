-- ===== src/PlatformAgent/Earnings.antt =====
-- The metrics of the platform agent agree with the audit log (acts/platform_agent.py).
use mathlib.Core.Path.{subst}
use mathlib.Core.List.{append-nil, append_assoc, map-append}
use nemoclaw_smb.Base.{
  ℕ, ◌+◌, ◌≡◌, inl, inr, refl, sym, ap, ◌∙◌, String, Bool, Option, none, some, List, [], ◌∷◌, ◌++◌,
  All, map, arith, length, length-append, concat, Bool-cases,
}
use nemoclaw_smb.Base.Dict.{Dict, get, put}
use nemoclaw_smb.Base.Act.{Act, Result, ok, err, Result-cases}
use nemoclaw_smb.Json.{Value, int}
use nemoclaw_smb.Platform.{Platform, Moment}
use nemoclaw_smb.Audit.{append_earn, earn_payload}
use nemoclaw_smb.Chain.{Entry, File, lines, seal}
use nemoclaw_smb.Chain.Written.{append_with-IsAppend}
use nemoclaw_smb.Earn.{c1_authorize, note_earning, write_earn_event}
use nemoclaw_smb.Pricing.{PricingRequest, recommend_price}
use nemoclaw_smb.Pricing.Anchor.{recommend_price_found}
use nemoclaw_smb.World.{World}
use nemoclaw_smb.PlatformAgent.{
  GuestReply, Metrics, Served, Session, counted, note_guest, denied, earn, serve_aeo_call,
  serve_call, serve_guest_comms_call, serve_pricing_call, served,
}

abbrev pub total : List ℕ → ℕ
total [] = 0
total (n ∷ ns) = n + total ns

total-append : (ms ns : List ℕ) → total (ms ++ ns) ≡ total ms + total ns
total-append [] ns = omega arith
total-append (m ∷ ms) ns = omega (arith, total-append ms ns)

module _ ⦃p : Platform⦄ where
  -- A skill that leaves the audit log alone.
  abbrev pub IsQuiet : {A : Type 0} → Act World A → Type 0
  IsQuiet skill = (w : World) → (skill w).1.audit ≡ w.audit

  abbrev earned : Entry → Option (Value p.Float)
  earned e = get "amount_cents" e

  abbrev priced : ℕ → Option (Value p.Float)
  priced n = some (int n)

  -- Calls that earned these prices: the metrics count them and add them up, and the audit log has one
  -- entry more for each, which carries its price.
  pub record IsAccounted (prices : List ℕ) (s s' : Session) : Type 0 where
    pub calls : s'.metrics.calls_served ≡ s.metrics.calls_served + length prices
    pub revenue : s'.metrics.revenue_earned_cents ≡ s.metrics.revenue_earned_cents + total prices
    pub entries : List Entry
    pub grown : lines s'.world.audit ≡ lines s.world.audit ++ map p.dump entries
    pub carries : map earned entries ≡ map priced prices

  -- What an attempt to earn adds to the log.
  abbrev IsEarned : {A : Type 0} → ℕ → World → Result A × World → Type 0
  IsEarned cents w (ok a, w') =
      (e : Entry) × (lines w'.audit ≡ lines w.audit ++ (p.dump e ∷ [])) × (earned e ≡ priced cents)
  IsEarned cents w (err x, w') = w'.audit ≡ w.audit

  earned-seal :
      (now : Moment) (service : String) (cents : ℕ) (token prev : String) (n : ℕ)
      → earned (seal prev (earn_payload now service cents token prev n)) ≡ priced cents
  unfolding seal earn_payload get put
  earned-seal now service cents token prev n = refl

  write_earn_event-IsEarned :
      (service : String) (cents : ℕ) (token : String) (w : World)
      → IsEarned cents w (write_earn_event service cents token w)
  unfolding write_earn_event append_earn
  write_earn_event-IsEarned service cents token w =
      let now = p.clock w.tick in
      let after : File → World = λ file. record w { tick = w.tick + 1; audit = file } in
      let done = write_earn_event service cents token w in
      elim (append_with-IsAppend (earn_payload now service cents token) w.audit) [
        | inl (x, failed, same) ↦
            let outcome : done ≡ (err x, after w.audit) = ground arith in
            subst (IsEarned cents w) (sym outcome) refl
        | inr (prev, n, head, wrote, file) ↦
            let e = seal prev (earn_payload now service cents token prev n) in
            let w1 = after (some (lines w.audit ++ (p.dump e ∷ []))) in
            let outcome : done ≡ (ok e, note_earning service cents w1) = ground arith in
            subst (IsEarned cents w) (sym outcome)
              (e, refl, earned-seal now service cents token prev n)
      ]

  earn-IsEarned :
      {A : Type 0} (service : String) (cents : ℕ) (token : String) (skill : Act World A) (w : World)
      → IsQuiet skill
      → IsEarned cents w (earn service cents token skill w)
  unfolding earn
  earn-IsEarned service cents token skill w quiet =
      let done = earn service cents token skill w in
      elim (Result-cases (skill w)) [
        | inr (x, w1, failed) ↦
            let outcome : done ≡ (err x, w1) = ground arith in
            subst (IsEarned cents w) (sym outcome)
              (ap (λ (m : _). m.1.audit) (sym failed) ∙ quiet w)
        | inl (made, w1, ran) ↦
            let same : w1.audit ≡ w.audit = ap (λ (m : _). m.1.audit) (sym ran) ∙ quiet w in
            let wrote = write_earn_event-IsEarned service cents token w1 in
            elim (Result-cases (write_earn_event service cents token w1)) [
              | inr (x, w2, failed) ↦
                  let outcome : done ≡ (err x, w2) = ground arith in
                  subst (IsEarned cents w) (sym outcome)
                    (subst (IsEarned cents w1) failed wrote ∙ same)
              | inl (entry, w2, wrote_it) ↦
                  let outcome : done ≡ (ok (made, entry), w2) = ground arith in
                  let (e, file, carries) = subst (IsEarned cents w1) wrote_it wrote in
                  subst (IsEarned cents w) (sym outcome)
                    (e, file ∙ ap (λ f. lines f ++ (p.dump e ∷ [])) same, carries)
            ]
      ]

  -- the prices that an answer earned
  abbrev pub earned_by : {A : Type 0} → Result (Served A) → List ℕ
  earned_by (ok (served cents made entry)) = cents ∷ []
  earned_by _ = []

  nothing-IsAccounted :
      (s s' : Session)
      → s'.metrics ≡ s.metrics
      → s'.world.audit ≡ s.world.audit
      → IsAccounted [] s s'
  nothing-IsAccounted s s' metrics audit = record {
    calls = ap (λ (m : Metrics). m.calls_served) metrics ∙ omega arith;
    revenue = ap (λ (m : Metrics). m.revenue_earned_cents) metrics ∙ omega arith;
    entries = [];
    grown = ap lines audit ∙ sym (append-nil (lines s.world.audit));
    carries = refl;
  }

  serve_call-IsAccounted :
      {A : Type 0} (service : String) (cents : ℕ) (property : Option String) (token : String)
      (after : A → World → World) (skill : Act World A) (s : Session)
      → IsQuiet skill
      → ((made : A) (w : World) → (after made w).audit ≡ w.audit)
      → let done = serve_call service cents property token after skill s in
        IsAccounted (earned_by done.0) s done.1
  unfolding serve_call
  serve_call-IsAccounted {A} service cents property token after skill s quiet stays =
      let says = λ (r : Result (Served A) × Session). IsAccounted (earned_by r.0) s r.1 in
      let w1 : World = record s.world { tick = s.world.tick + 2 } in
      let done = serve_call service cents property token after skill s in
      let decision = c1_authorize s.world.tick service in
      let outcome = earn-IsEarned service cents token skill w1 quiet in
      elim (Bool-cases decision.allowed) [
        | inr refused ↦
            let answer = denied (concat ("C1 governance denied: " ∷ decision.reason ∷ [])) in
            let s' : Session = record { world = w1; metrics = s.metrics } in
            let run : done ≡ (ok answer, s') = ground arith in
            subst says (sym run) (nothing-IsAccounted s s' refl refl)
        | inl allowed ↦ elim (Result-cases (earn service cents token skill w1)) [
          | inr (x, w2, failed) ↦
              let s' : Session = record { world = w2; metrics = s.metrics } in
              let run : done ≡ (err x, s') = ground arith in
              subst says (sym run)
                (nothing-IsAccounted s s' refl (subst (IsEarned cents w1) failed outcome))
          | inl ((made, entry), w2, earned_it) ↦
              let s' : Session = record {
                world = after made w2;
                metrics = counted cents property s.metrics;
              } in
              let run : done ≡ (ok (served cents made entry), s') = ground arith in
              let (e, file, carries) = subst (IsEarned cents w1) earned_it outcome in
              subst says (sym run) (record {
                calls = refl;
                revenue = omega arith;
                entries = e ∷ [];
                grown = ap lines (stays made w2) ∙ file;
                carries = ap (λ v. v ∷ []) carries;
              })
        ]
      ]

  IsAccounted-then :
      {ps qs : List ℕ} (s s1 s2 : Session)
      → IsAccounted ps s s1
      → IsAccounted qs s1 s2
      → IsAccounted (ps ++ qs) s s2
  IsAccounted-then {ps} {qs} s s1 s2 first next = record {
    calls = omega (arith, first.calls, next.calls, length-append ps qs);
    revenue = omega (arith, first.revenue, next.revenue, total-append ps qs);
    entries = first.entries ++ next.entries;
    grown =
        next.grown
        ∙ ap (λ l. l ++ map p.dump next.entries) first.grown
        ∙ append_assoc (lines s.world.audit) (map p.dump first.entries) (map p.dump next.entries)
        ∙ ap (λ l. lines s.world.audit ++ l) (sym (map-append p.dump first.entries next.entries));
    carries =
        map-append earned first.entries next.entries
        ∙ ap (λ l. l ++ map earned next.entries) first.carries
        ∙ ap (λ l. map priced ps ++ l) next.carries
        ∙ sym (map-append priced ps qs);
  }

  -- A call of one of the three services.
  pub data Call : Type 0 where
    pricing : PricingRequest → String → Bool → Call
    aeo : Act World (Dict (Value p.Float)) → String → Call
    guest : Act World GuestReply → String → String → Call

  abbrev pub IsQuietCall : Call → Type 0
  IsQuietCall (pricing req token live) = Unit
  IsQuietCall (aeo skill token) = IsQuiet skill
  IsQuietCall (guest skill property token) = IsQuiet skill

  -- What one call earns, and the session after it; a call that raises earns nothing.
  unfoldable pub serve : Call → Session → List ℕ × Session
  serve (pricing req token live) s =
      let (r, s') = serve_pricing_call req token live s in (earned_by r, s')
  serve (aeo skill token) s = let (r, s') = serve_aeo_call skill token s in (earned_by r, s')
  serve (guest skill property token) s =
      let (r, s') = serve_guest_comms_call skill property token s in (earned_by r, s')

  unfoldable pub serve_all : List Call → Session → List ℕ × Session
  serve_all [] s = ([], s)
  serve_all (c ∷ cs) s =
      let (now, s1) = serve c s in let (later, s2) = serve_all cs s1 in (now ++ later, s2)

  recommend_price-IsQuiet :
      (req : PricingRequest) (live : Bool) → IsQuiet (recommend_price req live)
  recommend_price-IsQuiet req live w =
      let (rec, w', anchor, ran, _, _, quiet) = recommend_price_found req live w in
      ap (λ m. m.1.audit) ran ∙ quiet

  serve-IsAccounted :
      (c : Call) (s : Session) → IsQuietCall c → IsAccounted (serve c s).0 s (serve c s).1
  unfolding serve serve_pricing_call serve_aeo_call serve_guest_comms_call
  serve-IsAccounted (pricing req token live) s quiet =
      serve_call-IsAccounted "price" 25 (some req.property_id) token (λ _ w. w)
        (recommend_price req live) s (recommend_price-IsQuiet req live) (λ _ w. refl)
  serve-IsAccounted (aeo skill token) s quiet =
      serve_call-IsAccounted "aeo-audit" 100 none token (λ _ w. w) skill s quiet (λ _ w. refl)
  serve-IsAccounted (guest skill property token) s quiet =
      serve_call-IsAccounted "guest-comms" 150 (some property) token note_guest skill s quiet
        (λ _ w. refl)

  -- After any sequence of calls, some of them denied and some failing, where the skills that are
  -- arguments leave the audit log alone: the metrics have counted exactly the calls that were served
  -- and added up their prices, and the audit log has grown by exactly one entry for each of these, in
  -- the order of the calls, which carries its price.
  pub serve_all-IsAccounted :
      (cs : List Call) (s : Session)
      → All IsQuietCall cs
      → IsAccounted (serve_all cs s).0 s (serve_all cs s).1
  unfolding serve_all
  serve_all-IsAccounted [] s quiet = nothing-IsAccounted s s refl refl
  serve_all-IsAccounted (c ∷ cs) s (quiet, rest) =
      let s1 = (serve c s).1 in
      IsAccounted-then s s1 (serve_all cs s1).1 (serve-IsAccounted c s quiet)
        (serve_all-IsAccounted cs s1 rest)
