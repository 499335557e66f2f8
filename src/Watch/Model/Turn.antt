-- ===== src/Watch/Model/Turn.antt =====
-- What one second can do to a learned table, whichever of the two kinds it serves.
use openlaps.Common.{
  ◌≡◌, ◌≢◌, sym, refl, String, Bool, true, false, not, Option, none, some, [], ltb, inl, inr,
  Bool-cases, string_eq,
}
use openlaps.Common.Dict.{Dict, lookup}
use openlaps.Common.Number.{Number}
use openlaps.Common.Result.{Result, ok, >>=-eq-ok}
use openlaps.Watch.{
  Raised, Status, gated, unit_mismatch, learning, insufficient_bin, insufficient_group, ready,
  Readings, Row, Stats, Maths, row, units_of, units_differ, reading, holds,
}
use openlaps.Watch.Model.{
  Bands, Model, EnvelopeConfig, RatioConfig, envelope_channels, ratio_channels, learn, assess, seen,
  judge, score_in, judge_by, indices_of, envelope_evaluate, ratio_of, after_ratio, group_of,
  ratio_evaluate,
}

module _ (number : Number) (maths : Maths number.N) where
  open number use {N}

  -- No opinion, a second of learning, or a second scored.
  pub data Turn (bands : Bands N) (at : N) (m : Model N) : Model N × Row N → Type 0 where
    idle :
        {p : Model N × Row N} (units : Dict String String) (status : Status) (observed : Option N)
        → status ≢ ready
        → p ≡ (record m { units = units }, record (row at status) { observed = observed })
        → Turn bands at m p
    learns :
        {p : Model N × Row N} (units : Dict String String) (key : String) (observed : N)
        → m.frozen ≡ false
        → p ≡ (
          learn number maths bands (record m { units = units }) key observed,
          seen number maths at observed learning,
        )
        → Turn bands at m p
    scores :
        {p : Model N × Row N} (units : Dict String String) (target : String) (observed : N)
        (stats : Stats N) (uid : String)
        → m.frozen ≡ true
        → p ≡ assess number maths bands target (record m { units = units }) at observed stats uid
        → Turn bands at m p

  score_in-Turn :
      (bands : Bands N) (insufficient : Status) (target : String) (m : Model N)
      (units : Dict String String) (at observed : N) (o : Option (Stats N)) (uid : String)
      → insufficient ≢ ready
      → m.frozen ≡ true
      → Turn bands at m (
          score_in number maths bands insufficient target
            (record m { units = units })
            at
            observed
            o
            uid)
  score_in-Turn bands insufficient target m units at observed none uid ne frozen =
      idle units insufficient (some observed) ne refl
  score_in-Turn bands insufficient target m units at observed (some stats) uid ne frozen =
      elim (Bool-cases (ltb stats.count bands.min_samples)) [
        | inl few ↦ rw few (idle units insufficient (some observed) ne refl)
        | inr enough ↦ rw enough (scores units target observed stats uid frozen refl)
      ]

  judge_by-Turn :
      (frozen : Bool) (bands : Bands N) (insufficient : Status) (target : String) (m : Model N)
      (units : Dict String String) (at observed : N) (key uid : String)
      → insufficient ≢ ready
      → m.frozen ≡ frozen
      → Turn bands at m (
          judge_by number maths frozen bands insufficient target
            (record m { units = units })
            at
            observed
            key
            uid)
  judge_by-Turn false bands insufficient target m units at observed key uid ne e =
      learns units key observed e refl
  judge_by-Turn true bands insufficient target m units at observed key uid ne e =
      score_in-Turn bands insufficient target m units at observed (lookup key m.table) uid ne e

  judge-Turn :
      (bands : Bands N) (insufficient : Status) (target : String) (m : Model N)
      (units : Dict String String) (at observed : N) (key uid : String)
      → insufficient ≢ ready
      → Turn bands at m (
          judge number maths bands insufficient target
            (record m { units = units })
            at
            observed
            key
            uid)
  unfolding judge
  judge-Turn bands insufficient target m units at observed key uid ne =
      judge_by-Turn m.frozen bands insufficient target m units at observed key uid ne refl

  ok-Turn :
      (bands : Bands N) (at : N) (m : Model N) (p q : Model N × Row N)
      → ◌≡◌ {A = Result Raised (Model N × Row N)} (ok q) (ok p)
      → Turn bands at m q
      → Turn bands at m p
  ok-Turn bands at m p q e t = let same : q ≡ p = cc e in rw (sym same) t

  pub envelope_evaluate-Turn :
      (cfg : EnvelopeConfig N) (m : Model N) (at : N) (readings : Readings N) (b : Bool)
      (uid : String) (p : Model N × Row N)
      → envelope_evaluate number maths cfg m at readings b uid ≡ ok p
      → Turn cfg.bands at m p
  unfolding envelope_evaluate
  envelope_evaluate-Turn cfg m at readings false uid p went =
      ok-Turn cfg.bands at m p _ went (idle m.units gated none (λ e. cc e) refl)
  envelope_evaluate-Turn cfg m at readings true uid p went =
      let (units, _, then_units) =
        >>=-eq-ok (units_of (envelope_channels cfg) readings []) _ went in
      elim (Bool-cases (units_differ m.units units)) [
        | inl e ↦
            ok-Turn cfg.bands at m p _ (rw e at then_units)
              (idle m.units unit_mismatch none (λ q. cc q) refl)
        | inr e ↦
            let (r, _, then_r) = >>=-eq-ok (reading cfg.target readings) _ (rw e at then_units) in
            let (indices, _, end) =
              >>=-eq-ok (indices_of number maths cfg.conditioned_on readings) _ then_r in
            ok-Turn cfg.bands at m p _ end (
              judge-Turn cfg.bands insufficient_bin cfg.target m units at r.value
                (maths.key_text indices) uid (λ q. cc q))
      ]

  pub ratio_evaluate-Turn :
      (cfg : RatioConfig N) (m : Model N) (at : N) (readings : Readings N) (b : Bool) (uid : String)
      (p : Model N × Row N)
      → ratio_evaluate number maths cfg m at readings b uid ≡ ok p
      → Turn cfg.bands at m p
  unfolding ratio_evaluate
  ratio_evaluate-Turn cfg m at readings false uid p went =
      ok-Turn cfg.bands at m p _ went (idle m.units gated none (λ e. cc e) refl)
  ratio_evaluate-Turn cfg m at readings true uid p went =
      let (passes, _, then_gate) = >>=-eq-ok (holds number cfg.when readings) _ went in
      elim (Bool-cases (not passes)) [
        | inl e ↦
            ok-Turn cfg.bands at m p _ (rw e at then_gate)
              (idle m.units gated none (λ q. cc q) refl)
        | inr e ↦
            let (units, _, then_units) =
              >>=-eq-ok (units_of (ratio_channels cfg) readings []) _ (rw e at then_gate) in
            elim (Bool-cases (units_differ m.units units)) [
              | inl q ↦
                  ok-Turn cfg.bands at m p _ (rw q at then_units)
                    (idle m.units unit_mismatch none (λ x. cc x) refl)
              | inr q ↦
                  let (ratio, _, then_ratio) =
                    >>=-eq-ok (ratio_of number maths cfg readings) _ (rw q at then_units) in
                  with_ratio units ratio then_ratio
            ]
      ]
    where
      with_ratio :
          (units : Dict String String) (ratio : Option N)
          → after_ratio number maths cfg m at readings uid units ratio ≡ ok p
          → Turn cfg.bands at m p
      with_ratio units none went =
          ok-Turn cfg.bands at m p _ went (idle units gated none (λ x. cc x) refl)
      with_ratio units (some observed) went =
          let (key, _, end) = >>=-eq-ok (group_of number maths cfg.per readings) _ went in
          ok-Turn cfg.bands at m p _ end (
            judge-Turn cfg.bands insufficient_group cfg.numerator m units at observed key uid
              (λ x. cc x))
