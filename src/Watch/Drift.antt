-- ===== src/Watch/Drift.antt =====
-- src/pit/watch/monitors.py: Drift, the mean of each lap against the baseline laps. `truth` is Python's `bool` of a
-- decoded value.
pub mod Laps
pub mod Rows
use openlaps.Common.{
  ℕ, suc, ◌+◌, ◌-◌, String, Bool, true, false, not, ◌&&◌, ◌||◌, Option, none, some, List, [], ◌∷◌,
  ◌++◌, map, leb, length, drop, last?, if◌then◌else◌,
}
use openlaps.Common.Dict.{Dict}
use openlaps.Common.Json.{Json, Members, get}
use openlaps.Common.Number.{Number}
use openlaps.Common.Result.{Result, ok, err, ◌>>=◌}
use openlaps.Watch.{
  Raised, assertion_error, Status, gated, unit_mismatch, learning, ready, Reading, Readings,
  Summary, Finding, Row, When, Maths, row, reading, units_of, units_differ, holds, transition,
  max_n, min_n,
}
use openlaps.Watch.Model.{channels_of_gates, sum_from}

pub data Direction : Type 0 where
  both up down : Direction

pub record DriftConfig (N : Type 0) : Type 0 where
  pub target : String
  pub when : List (When N)
  pub baseline_laps : ℕ
  pub min_lap_samples : ℕ
  pub min_scale : N
  pub cusum_k : N
  pub cusum_h : N
  pub direction : Direction
  pub severity : String

-- An entry of `baseline_laps`.
pub record BaselineLap (N : Type 0) : Type 0 where
  pub lap_number : Option (Json N)
  pub at : N
  pub mean : N
  pub n : ℕ

-- An entry of `laps`.
pub record JudgedLap (N : Type 0) : Type 0 where
  pub lap_number : Option (Json N)
  pub at : N
  pub mean : N
  pub n : ℕ
  pub residual : N
  pub cusum : N

-- `lap_sum`, `lap_n` and `lap_dirty` are the attributes `_sum`, `_n` and `_dirty`.
pub record Drift (N : Type 0) : Type 0 where
  pub frozen : Bool
  pub learned : ℕ
  pub units : Dict String String
  pub baseline_laps : List (BaselineLap N)
  pub mean : Option N
  pub scale : Option N
  pub laps : List (JudgedLap N)
  pub cusum_up : N
  pub cusum_down : N
  pub score : N
  pub calm : ℕ
  pub lap_sum : N
  pub lap_n : ℕ
  pub lap_dirty : Bool
  pub pending : Option (Finding N)
  pub finding : Option (Finding N)

abbrev pub max_lap_series : ℕ
max_lap_series = 200

-- The accumulation goes this way.
abbrev pub counts_up : Direction → Bool
counts_up both = true
counts_up up = true
counts_up down = false

abbrev pub counts_down : Direction → Bool
counts_down both = true
counts_down up = false
counts_down down = true

abbrev pub is_some : {A : Type 0} → Option A → Bool
is_some none = false
is_some (some a) = true

module _ {N : Type 0} where
  abbrev pub drift_channels : DriftConfig N → List String
  drift_channels cfg = cfg.target ∷ channels_of_gates cfg.when

  -- `del self.laps[:-_MAX_LAP_SERIES]` after the append.
  unfoldable pub keep_laps : List (JudgedLap N) → List (JudgedLap N)
  keep_laps laps = drop (length laps - max_lap_series) laps

  abbrev pub means_of : List (BaselineLap N) → List N
  means_of [] = []
  means_of (lap ∷ laps) = lap.mean ∷ means_of laps

  -- `on_pit`
  unfoldable pub on_pit : Drift N → Drift N
  on_pit d = record d { lap_dirty = true }

module _ (number : Number) (maths : Maths number.N) (truth : Json number.N → Bool) where
  open number use {N, of_ℕ, add, sub, mul, div, abs, lt_n, le_n}

  -- `Drift.freeze`
  unfoldable pub freeze_laps : DriftConfig N → Drift N → Drift N
  freeze_laps cfg d =
      let means = means_of d.baseline_laps in
      record d {
        mean = some (div (sum_from number maths (of_ℕ 0) means) (of_ℕ (length means)));
        scale = some (max_n number cfg.min_scale (maths.pstdev means));
        frozen = true;
      }

  -- `bool(event.get("valid", True))`
  abbrev pub is_lap : Option (Json N) → Bool
  is_lap none = true
  is_lap (some value) = truth value

  -- A clean lap while the baseline is being learned.
  unfoldable pub bank : DriftConfig N → Drift N → Option (Json N) → N → N → ℕ → Drift N
  unfolding freeze_laps
  bank cfg d lap_number at lap_mean n =
      let banked =
        d.baseline_laps
        ++ record { lap_number = lap_number; at = at; mean = lap_mean; n = n } ∷ [] in
      let d' = record d { baseline_laps = banked; learned = length banked } in
      if leb cfg.baseline_laps d'.learned then freeze_laps cfg d' else d'

  -- The sums after a lap: each grows by the residual less the allowance and never falls below zero.
  abbrev pub cusum_up_of : DriftConfig N → Drift N → N → N
  cusum_up_of cfg d residual =
      if counts_up cfg.direction
      then max_n number (of_ℕ 0) (sub (add d.cusum_up residual) cfg.cusum_k)
      else d.cusum_up

  abbrev pub cusum_down_of : DriftConfig N → Drift N → N → N
  cusum_down_of cfg d residual =
      if counts_down cfg.direction
      then max_n number (of_ℕ 0) (sub (sub d.cusum_down residual) cfg.cusum_k)
      else d.cusum_down

  abbrev pub calm_of : Drift N → N → ℕ
  calm_of d residual = if le_n (abs residual) (of_ℕ 1) then d.calm + 1 else 0

  -- A clean lap against the baseline.
  unfoldable pub judge_lap :
      DriftConfig N → Drift N → Option (Json N) → N → N → ℕ → N → N → String → Drift N
  unfolding transition
  judge_lap cfg d lap_number at lap_mean n mean scale uid =
      let residual = div (sub lap_mean mean) scale in
      let calm = calm_of d residual in
      let starts_again = is_some d.finding && leb 3 calm in
      let cusum_up = if starts_again then of_ℕ 0 else cusum_up_of cfg d residual in
      let cusum_down = if starts_again then of_ℕ 0 else cusum_down_of cfg d residual in
      let statistic =
        if starts_again
        then of_ℕ 0
        else max_n number (cusum_up_of cfg d residual) (cusum_down_of cfg d residual) in
      let score = min_n number (of_ℕ 1) (div statistic cfg.cusum_h) in
      let laps = keep_laps (
        d.laps
        ++ record {
          lap_number = lap_number;
          at = at;
          mean = lap_mean;
          n = n;
          residual = residual;
          cusum = statistic;
        }
          ∷ []) in
      let summary : Summary N = record {
        target = cfg.target;
        expected = mean;
        observed = lap_mean;
        residual = residual;
        evidence = scale ∷ statistic ∷ [];
      } in
      let (finding, shown) =
        transition number d.finding at (le_n cfg.cusum_h statistic) score summary cfg.severity
          uid in
      record d {
        cusum_up = cusum_up;
        cusum_down = cusum_down;
        calm = calm;
        score = score;
        laps = laps;
        finding = finding;
        pending = shown;
      }

  -- The two `assert`s.
  abbrev pub judge_known :
      DriftConfig N
      → Drift N
      → Option (Json N)
      → N
      → N
      → ℕ
      → String
      → Option N
      → Option N
      → Result Raised (Drift N)
  judge_known cfg d lap_number at lap_mean n uid (some mean) (some scale) =
      ok (judge_lap cfg d lap_number at lap_mean n mean scale uid)
  judge_known cfg d lap_number at lap_mean n uid none scale = err assertion_error
  judge_known cfg d lap_number at lap_mean n uid (some mean) none = err assertion_error

  abbrev pub clean_lap :
      Bool
      → DriftConfig N
      → Drift N
      → Option (Json N)
      → N
      → N
      → ℕ
      → String
      → Result Raised (Drift N)
  clean_lap false cfg d lap_number at lap_mean n uid = ok (bank cfg d lap_number at lap_mean n)
  clean_lap true cfg d lap_number at lap_mean n uid =
      judge_known cfg d lap_number at lap_mean n uid d.mean d.scale

  -- `Drift.on_lap`
  unfoldable pub on_lap : DriftConfig N → Drift N → Members N → N → String → Result Raised (Drift N)
  unfolding get bank judge_lap
  on_lap cfg d event at uid =
      let next = record d { lap_sum = of_ℕ 0; lap_n = 0; lap_dirty = false } in
      if is_lap (get event "valid") && not d.lap_dirty && leb cfg.min_lap_samples d.lap_n
      then clean_lap next.frozen cfg next (get event "lap_number") at (div d.lap_sum (of_ℕ d.lap_n))
          d.lap_n uid
      else ok next

  abbrev pub residual_of_last : Option (JudgedLap N) → Option N
  residual_of_last none = none
  residual_of_last (some lap) = some lap.residual

  -- The row of a second that counts.
  abbrev pub drift_row : Drift N → N → N → Option (Finding N) → Row N
  drift_row d at observed shown =
      if d.frozen
      then record {
        time = at;
        score = some d.score;
        residual = residual_of_last (last? d.laps);
        expected = d.mean;
        observed = some observed;
        baseline_status = ready;
        finding = shown;
      }
      else record (row at learning) { observed = some observed; finding = shown }

  abbrev pub take_in : Bool → N → Drift N → Drift N
  take_in passes observed d =
      if passes then record d { lap_sum = add d.lap_sum observed; lap_n = d.lap_n + 1 } else d

  abbrev pub showing : N → Status → Option (Finding N) → Row N
  showing at status shown = record (row at status) { finding = shown }

  -- `Drift.evaluate`
  unfoldable pub drift_evaluate :
      DriftConfig N → Drift N → N → Readings N → Bool → Result Raised (Drift N × Row N)
  unfolding units_of units_differ reading holds
  drift_evaluate cfg d at readings false =
      ok (record d { pending = none }, showing at gated d.pending)
  drift_evaluate cfg d at readings true = units_of (drift_channels cfg) readings [] >>= λ units.
      if units_differ d.units units
      then ok (record d { pending = none }, showing at unit_mismatch d.pending)
      else reading cfg.target readings >>= λ r. holds number cfg.when readings >>= λ passes.
          let d' = take_in passes r.value (record d { pending = none; units = units }) in
          ok (d', drift_row d' at r.value d.pending)
