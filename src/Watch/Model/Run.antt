-- ===== src/Watch/Model/Run.antt =====
-- The seconds of an envelope or a ratio, one after the other.
use openlaps.Common.{
  ◌+◌, ◌<◌, ◌≡◌, ◌≢◌, refl, sym, String, Bool, true, false, Option, none, List, [], ◌∷◌, leb, arith,
  Bool-cases, inl, inr, leb→le, string_eq,
}
use openlaps.Common.Number.{Number}
use openlaps.Common.Result.{Result, ok, ◌>>=◌, >>=-eq-ok}
use openlaps.Watch.{Raised, ready, Readings, Finding, Row, Maths}
use openlaps.Watch.Story.{Shows, silent, Story, over, next, transition-Shows}
use openlaps.Watch.Model.{
  Bands, Model, EnvelopeConfig, RatioConfig, envelope_evaluate, ratio_evaluate, learn, freeze,
  assess, append_to,
}
use openlaps.Watch.Model.Turn.{
  Turn, idle, learns, scores, envelope_evaluate-Turn, ratio_evaluate-Turn,
}
use openlaps.Watch.Model.Counts.{
  binned, tabled, Distinct, binned-append_to, append_to-Distinct, Apart-nil, tabled-tabulate,
}

-- The kinds of monitor that learn a table.
pub data TableKind (N : Type 0) : Type 0 where
  envelope : EnvelopeConfig N → TableKind N
  ratio : RatioConfig N → TableKind N

abbrev pub bands_of : {N : Type 0} → TableKind N → Bands N
bands_of (envelope cfg) = cfg.bands
bands_of (ratio cfg) = cfg.bands

-- One call of `evaluate`.
pub record Second (N : Type 0) : Type 0 where
  pub at : N
  pub readings : Readings N
  pub gate_open : Bool
  pub uid : String

-- The table's seconds are counted once each: until it is frozen they are in the bins, and then in the table.
pub record IsLearned {N : Type 0} (bands : Bands N) (m : Model N) : Type 0 where
  pub before :
      m.frozen ≡ false
      → (binned m.bins ≡ m.learned) × (m.learned < bands.baseline_seconds) × (m.table ≡ [])
  pub after :
      m.frozen ≡ true
      → (tabled m.table ≡ bands.baseline_seconds)
        × (m.learned ≡ bands.baseline_seconds)
        × (m.bins ≡ [])
  pub keys : Distinct m.bins

module _ (number : Number) (maths : Maths number.N) where
  open number use {N}

  unfoldable pub evaluate : TableKind N → Model N → Second N → Result Raised (Model N × Row N)
  unfolding envelope_evaluate ratio_evaluate
  evaluate (envelope cfg) m s =
      envelope_evaluate number maths cfg m s.at s.readings s.gate_open s.uid
  evaluate (ratio cfg) m s = ratio_evaluate number maths cfg m s.at s.readings s.gate_open s.uid

  abbrev brief : Model N → List (Row N) → Model N × List (Row N)
  brief m rows = (m, rows)

  unfoldable pub run :
      TableKind N → Model N → List (Second N) → Result Raised (Model N × List (Row N))
  unfolding evaluate
  run kind m [] = ok (m, [])
  run kind m (s ∷ seconds) =
      evaluate kind m s >>= λ p. run kind p.0 seconds >>= λ q. ok (brief q.0 (p.1 ∷ q.1))

  evaluate-Turn :
      (kind : TableKind N) (m : Model N) (s : Second N) (p : Model N × Row N)
      → evaluate kind m s ≡ ok p
      → Turn number maths (bands_of kind) s.at m p
  unfolding evaluate
  evaluate-Turn (envelope cfg) m s p went =
      envelope_evaluate-Turn number maths cfg m s.at s.readings s.gate_open s.uid p went
  evaluate-Turn (ratio cfg) m s p went =
      ratio_evaluate-Turn number maths cfg m s.at s.readings s.gate_open s.uid p went

  -- The step has no opinion: the score, the finding and the row's finding show none.
  pub record NoOpinion (m : Model N) (p : Model N × Row N) : Type 0 where
    pub same_score : p.0.score ≡ m.score
    pub same_finding : p.0.finding ≡ m.finding
    pub none_shown : p.1.finding ≡ none

  learn-same :
      (bands : Bands N) (m : Model N) (key : String) (observed : N)
      → ((learn number maths bands m key observed).score ≡ m.score)
        × ((learn number maths bands m key observed).finding ≡ m.finding)
  unfolding learn freeze
  learn-same bands m key observed = elim (Bool-cases (leb bands.baseline_seconds (m.learned + 1))) [
    | inl e ↦ rw e (refl, refl)
    | inr e ↦ rw e (refl, refl)
  ]

  Turn-NoOpinion :
      (bands : Bands N) (at : N) (m : Model N) (p : Model N × Row N)
      → Turn number maths bands at m p
      → p.1.baseline_status ≢ ready
      → NoOpinion m p
  unfolding assess
  Turn-NoOpinion bands at m p (idle units status observed ne e) h =
      rw e (record { same_score = refl; same_finding = refl; none_shown = refl })
  Turn-NoOpinion bands at m p (learns units key observed e q) h =
      let same = learn-same bands (record m { units = units }) key observed in
      rw q (record { same_score = same.0; same_finding = same.1; none_shown = refl })
  Turn-NoOpinion bands at m p (scores units target observed stats uid e q) h = absurd (h (rw q))

  -- A second whose row is not `ready`, because the gate is closed, the units or the bin do not fit or the
  -- baseline is being learned, changes neither the score nor the finding, and shows no finding.
  pub evaluate-NoOpinion :
      (kind : TableKind N) (m : Model N) (s : Second N) (p : Model N × Row N)
      → evaluate kind m s ≡ ok p
      → p.1.baseline_status ≢ ready
      → NoOpinion m p
  evaluate-NoOpinion kind m s p went h =
      Turn-NoOpinion (bands_of kind) s.at m p (evaluate-Turn kind m s p went) h

  Turn-Shows :
      (bands : Bands N) (at : N) (m : Model N) (p : Model N × Row N)
      → Turn number maths bands at m p
      → Shows number m.finding p.1.finding p.0.finding
  unfolding assess
  Turn-Shows bands at m p (idle units status observed ne e) = rw e silent
  Turn-Shows bands at m p (learns units key observed e q) =
      rw q (rw (learn-same bands (record m { units = units }) key observed).1 silent)
  Turn-Shows bands at m p (scores units target observed stats uid e q) =
      rw q (transition-Shows number m.finding at _ _ _ bands.severity uid)

  abbrev pub findings_of : List (Row N) → List (Option (Finding N))
  findings_of [] = []
  findings_of (r ∷ rows) = r.finding ∷ findings_of rows

  -- The findings in the rows of a run that raises nothing tell one story: a finding opens only while none is
  -- open, each later row shows that one with its peak the same or at least as great, and it is closed once.
  pub run-Story :
      (kind : TableKind N) (m : Model N) (seconds : List (Second N)) (p : Model N × List (Row N))
      → run kind m seconds ≡ ok p
      → Story number m.finding (findings_of p.1) p.0.finding
  unfolding run
  run-Story kind m [] p went = let e : brief m [] ≡ p = cc went in rw (sym e) over
  run-Story kind m (s ∷ seconds) p went =
      let (one, first, rest) = >>=-eq-ok (evaluate kind m s) _ went in
      let (q, then_rest, end) = >>=-eq-ok (run kind one.0 seconds) _ rest in
      let e : brief q.0 (one.1 ∷ q.1) ≡ p = cc end in
      rw (sym e) (
        next (Turn-Shows (bands_of kind) s.at m one (evaluate-Turn kind m s one first))
          (run-Story kind one.0 seconds q then_rest))

  learn-IsLearned :
      (bands : Bands N) (m : Model N) (key : String) (observed : N)
      → m.frozen ≡ false
      → IsLearned bands m
      → IsLearned bands (learn number maths bands m key observed)
  unfolding learn freeze
  learn-IsLearned bands m key observed young h =
      let (sum, below, empty) = h.before young in
      let distinct = append_to-Distinct key observed m.bins h.keys in
      let one_more = binned-append_to key observed m.bins in
      elim (Bool-cases (leb bands.baseline_seconds (m.learned + 1))) [
        | inr e ↦ rw e (record {
          before = λ _. (omega (arith, sum, one_more), ground (arith, below, e), empty);
          after = λ frozen. absurd (let q : false ≡ true = rw young at frozen in cc q);
          keys = distinct;
        })
        | inl e ↦ rw e (record {
          before = λ frozen. absurd (cc frozen);
          after = λ _. (
            rw empty (
                omega (
                  arith,
                  sum,
                  below,
                  one_more,
                  leb→le _ _ e,
                  tabled-tabulate number maths (append_to key observed m.bins) [] distinct
                      (Apart-nil _),
                )),
            omega (arith, below, leb→le _ _ e),
            refl,
          );
          keys = tt;
        })
      ]

  Turn-IsLearned :
      (bands : Bands N) (at : N) (m : Model N) (p : Model N × Row N)
      → Turn number maths bands at m p
      → IsLearned bands m
      → IsLearned bands p.0
  unfolding assess
  Turn-IsLearned bands at m p (idle units status observed ne e) h =
      rw e (record { before = h.before; after = h.after; keys = h.keys })
  Turn-IsLearned bands at m p (learns units key observed e q) h = rw q (
      learn-IsLearned bands (record m { units = units }) key observed e
        (record { before = h.before; after = h.after; keys = h.keys }))
  Turn-IsLearned bands at m p (scores units target observed stats uid e q) h =
      rw q (record { before = h.before; after = h.after; keys = h.keys })

  -- Through a run that raises nothing, the seconds learned stay counted once each: fewer than the baseline's and
  -- all in the bins until the table is frozen, then just the baseline's, all in the table, with empty bins.
  pub run-IsLearned :
      (kind : TableKind N) (m : Model N) (seconds : List (Second N)) (p : Model N × List (Row N))
      → run kind m seconds ≡ ok p
      → IsLearned (bands_of kind) m
      → IsLearned (bands_of kind) p.0
  unfolding run
  run-IsLearned kind m [] p went h = let e : brief m [] ≡ p = cc went in rw (sym e) h
  run-IsLearned kind m (s ∷ seconds) p went h =
      let (one, first, rest) = >>=-eq-ok (evaluate kind m s) _ went in
      let (q, then_rest, end) = >>=-eq-ok (run kind one.0 seconds) _ rest in
      let e : brief q.0 (one.1 ∷ q.1) ≡ p = cc end in
      rw (sym e) (
        run-IsLearned kind one.0 seconds q then_rest
          (Turn-IsLearned (bands_of kind) s.at m one (evaluate-Turn kind m s one first) h))
