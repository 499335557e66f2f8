-- ===== src/Watch/Model.antt =====
-- src/pit/watch/engine.py (Envelope) and src/pit/watch/monitors.py (Ratio): the two kinds that learn a table and
-- then score each second against it. They keep the same state; `Bands` holds the settings that both have.
pub mod Turn
pub mod Counts
pub mod Run
use openlaps.Common.{
  ℕ, suc, ◌+◌, String, Bool, true, false, not, Option, none, some, List, [], ◌∷◌, ◌++◌, map, leb,
  ltb, length, if◌then◌else◌, ◌==◌, string_eq,
}
use openlaps.Common.Dict.{Dict, lookup, insert}
use openlaps.Common.Int.{ℤ, pos}
use openlaps.Common.Number.{Number}
use openlaps.Common.Result.{Result, ok, err, ◌>>=◌, or_raise}
use openlaps.Watch.{
  Raised, key_error, overflow_error, Status, gated, unit_mismatch, learning, insufficient_bin,
  insufficient_group, ready, Reading, Readings, Summary, Finding, Row, Stats, When, Maths, row,
  reading, units_of, units_differ, holds, transition,
}

pub record Bands (N : Type 0) : Type 0 where
  pub baseline_seconds : ℕ
  pub min_samples : ℕ
  pub residual_sigma : N
  pub min_scale : N
  pub score_window : N
  pub open_finding_above : N
  pub severity : String

pub record Condition (N : Type 0) : Type 0 where
  pub channel : String
  pub bins : N
  pub active_above : Option N

pub record EnvelopeConfig (N : Type 0) : Type 0 where
  pub target : String
  pub conditioned_on : List (Condition N)
  pub bands : Bands N

pub record RatioConfig (N : Type 0) : Type 0 where
  pub numerator : String
  pub denominators : List String
  pub per : Option String
  pub when : List (When N)
  pub bands : Bands N

-- `bins` is the ratio's `groups`.
pub record Model (N : Type 0) : Type 0 where
  pub learned : ℕ
  pub frozen : Bool
  pub bins : Dict String (List N)
  pub table : Dict String (Stats N)
  pub units : Dict String String
  pub score : N
  pub finding : Option (Finding N)

abbrev pub channels_of_conditions : {N : Type 0} → List (Condition N) → List String
channels_of_conditions [] = []
channels_of_conditions (c ∷ cs) = c.channel ∷ channels_of_conditions cs

abbrev pub channels_of_gates : {N : Type 0} → List (When N) → List String
channels_of_gates [] = []
channels_of_gates (w ∷ ws) = w.channel ∷ channels_of_gates ws

abbrev pub per_channel : Option String → List String
per_channel none = []
per_channel (some c) = c ∷ []

module _ {N : Type 0} where
  abbrev pub envelope_channels : EnvelopeConfig N → List String
  envelope_channels cfg = cfg.target ∷ channels_of_conditions cfg.conditioned_on

  abbrev pub ratio_channels : RatioConfig N → List String
  ratio_channels cfg =
      cfg.numerator ∷ (cfg.denominators ++ (per_channel cfg.per ++ channels_of_gates cfg.when))

  abbrev or_nil : Option (List N) → List N
  or_nil none = []
  or_nil (some values) = values

  -- `self.bins.setdefault(key, []).append(observed)`
  unfoldable pub append_to : String → N → Dict String (List N) → Dict String (List N)
  unfolding lookup insert
  append_to key observed bins = insert key (or_nil (lookup key bins) ++ observed ∷ []) bins

module _ (number : Number) (maths : Maths number.N) where
  open number use {N, of_ℕ, add, sub, mul, div, abs, lt_n, le_n, eq_n}

  abbrev stats_of : List N → Stats N
  stats_of values =
      let center = maths.median values in
      record {
        median = center;
        mad = maths.median (map (λ v. abs (sub v center)) values);
        count = length values;
      }

  -- The entries of `self.table` that `freeze` writes.
  unfoldable pub tabulate : Dict String (List N) → Dict String (Stats N) → Dict String (Stats N)
  unfolding insert
  tabulate [] table = table
  tabulate ((key, values) ∷ bins) table = tabulate bins (insert key (stats_of values) table)

  unfoldable pub freeze : Model N → Model N
  unfolding tabulate
  freeze m = record m { table = tabulate m.bins m.table; bins = []; frozen = true }

  -- A second of learning.
  unfoldable pub learn : Bands N → Model N → String → N → Model N
  unfolding append_to freeze
  learn bands m key observed =
      let grown = record m { bins = append_to key observed m.bins; learned = m.learned + 1 } in
      if leb bands.baseline_seconds grown.learned then freeze grown else grown

  -- `-math.expm1(-1 / score_window)`
  abbrev pub rate : Bands N → N
  rate bands = sub (of_ℕ 0) (maths.expm1 (div (sub (of_ℕ 0) (of_ℕ 1)) bands.score_window))

  abbrev pub residual_of : Bands N → Stats N → N → N
  residual_of bands stats observed =
      let spread = mul maths.mad_factor stats.mad in
      div (sub observed stats.median)
        (if lt_n bands.min_scale spread then spread else bands.min_scale)

  -- `self.score += alpha * (outside - self.score)`
  abbrev pub smoothed : Bands N → N → N → N
  smoothed bands score residual =
      let outside = if lt_n bands.residual_sigma (abs residual) then of_ℕ 1 else of_ℕ 0 in
      add score (mul (rate bands) (sub outside score))

  -- A second with statistics to score against.
  unfoldable pub assess : Bands N → String → Model N → N → N → Stats N → String → Model N × Row N
  unfolding transition
  assess bands target m at observed stats uid =
      let residual = residual_of bands stats observed in
      let score = smoothed bands m.score residual in
      let summary : Summary N = record {
        target = target;
        expected = stats.median;
        observed = observed;
        residual = residual;
        evidence = stats.mad ∷ of_ℕ stats.count ∷ [];
      } in
      let (finding, shown) =
        transition number m.finding at (lt_n bands.open_finding_above score) score summary
          bands.severity uid in
      (
        record m { score = score; finding = finding },
        record {
          time = at;
          score = some score;
          residual = some residual;
          expected = some stats.median;
          observed = some observed;
          baseline_status = ready;
          finding = shown;
        },
      )

  abbrev pub seen : N → N → Status → Row N
  seen at observed status = record (row at status) { observed = some observed }

  -- A bin that is unknown or too small has no opinion.
  abbrev pub score_in :
      Bands N → Status → String → Model N → N → N → Option (Stats N) → String → Model N × Row N
  score_in bands insufficient target m at observed none uid = (m, seen at observed insufficient)
  score_in bands insufficient target m at observed (some stats) uid =
      if ltb stats.count bands.min_samples
      then (m, seen at observed insufficient)
      else assess bands target m at observed stats uid

  abbrev pub judge_by :
      Bool → Bands N → Status → String → Model N → N → N → String → String → Model N × Row N
  judge_by false bands insufficient target m at observed key uid =
      (learn bands m key observed, seen at observed learning)
  judge_by true bands insufficient target m at observed key uid =
      score_in bands insufficient target m at observed (lookup key m.table) uid

  -- What both kinds do once they have the value and the key of its bin.
  unfoldable pub judge :
      Bands N → Status → String → Model N → N → N → String → String → Model N × Row N
  unfolding learn assess lookup
  judge bands insufficient target m at observed key uid =
      judge_by m.frozen bands insufficient target m at observed key uid

  abbrev pub or_overflow : {A : Type 0} → Option A → Result Raised A
  or_overflow o = or_raise o overflow_error

  -- `int(value > active_above)`, or the bin that the value is in.
  abbrev pub index_of : Condition N → N → Result Raised ℤ
  index_of c value = elim c.active_above [
    | none ↦ or_overflow (maths.floor (div value c.bins))
    | some bound ↦ ok (pos (if lt_n bound value then 1 else 0))
  ]

  unfoldable pub indices_of : List (Condition N) → Readings N → Result Raised (List ℤ)
  unfolding reading
  indices_of [] readings = ok []
  indices_of (c ∷ cs) readings = reading c.channel readings >>= λ r.
      index_of c r.value >>= λ i. indices_of cs readings >>= λ indices. ok (i ∷ indices)

  -- `Envelope.evaluate`
  unfoldable pub envelope_evaluate :
      EnvelopeConfig N → Model N → N → Readings N → Bool → String → Result Raised (Model N × Row N)
  unfolding units_of units_differ reading indices_of judge
  envelope_evaluate cfg m at readings false uid = ok (m, row at gated)
  envelope_evaluate cfg m at readings true uid =
      units_of (envelope_channels cfg) readings [] >>= λ units.
      if units_differ m.units units
      then ok (m, row at unit_mismatch)
      else reading cfg.target readings >>= λ r.
          indices_of cfg.conditioned_on readings >>= λ indices. ok (
            judge cfg.bands insufficient_bin cfg.target (record m { units = units }) at r.value
              (maths.key_text indices) uid)

  unfoldable pub values_of : List String → Readings N → Result Raised (List N)
  unfolding reading
  values_of [] readings = ok []
  values_of (c ∷ cs) readings =
      reading c readings >>= λ r. values_of cs readings >>= λ values. ok (r.value ∷ values)

  abbrev pub sum_from : N → List N → N
  sum_from total [] = total
  sum_from total (v ∷ vs) = sum_from (add total v) vs

  -- `Ratio._ratio`
  unfoldable pub ratio_of : RatioConfig N → Readings N → Result Raised (Option N)
  unfolding values_of reading
  ratio_of cfg readings = values_of cfg.denominators readings >>= λ values.
      let denominator = div (sum_from (of_ℕ 0) values) (of_ℕ (length values)) in
      if le_n denominator (of_ℕ 0)
      then ok none
      else reading cfg.numerator readings >>= λ r. ok (some (div r.value denominator))

  -- `str(int(readings[cfg.per].value)) if cfg.per else "all"`
  unfoldable pub group_of : Option String → Readings N → Result Raised String
  unfolding reading
  group_of none readings = ok "all"
  group_of (some c) readings = reading c readings >>= λ r.
      or_overflow (maths.trunc r.value) >>= λ i. ok (maths.key_text (i ∷ []))

  -- The end of `Ratio.evaluate`, once the ratio is known.
  abbrev pub after_ratio :
      RatioConfig N
      → Model N
      → N
      → Readings N
      → String
      → Dict String String
      → Option N
      → Result Raised (Model N × Row N)
  after_ratio cfg m at readings uid units none = ok (record m { units = units }, row at gated)
  after_ratio cfg m at readings uid units (some observed) = group_of cfg.per readings >>= λ key.
      ok (
        judge cfg.bands insufficient_group cfg.numerator (record m { units = units }) at observed
          key uid)

  -- `Ratio.evaluate`
  unfoldable pub ratio_evaluate :
      RatioConfig N → Model N → N → Readings N → Bool → String → Result Raised (Model N × Row N)
  unfolding units_of units_differ holds ratio_of group_of judge
  ratio_evaluate cfg m at readings false uid = ok (m, row at gated)
  ratio_evaluate cfg m at readings true uid = holds number cfg.when readings >>= λ open_gate.
      if not open_gate
      then ok (m, row at gated)
      else units_of (ratio_channels cfg) readings [] >>= λ units.
          if units_differ m.units units
          then ok (m, row at unit_mismatch)
          else ratio_of cfg readings >>= λ ratio. after_ratio cfg m at readings uid units ratio
