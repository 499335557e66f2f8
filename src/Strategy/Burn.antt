-- ===== src/Strategy/Burn.antt =====
-- src/pit/strategy/model.py: the laps that the burn is computed from.
use openlaps.Common.{
  ℕ, ◌*◌, Bool, true, false, not, ◌&&◌, ◌||◌, Option, none, some, List, [], ◌∷◌, length, leb,
  if◌then◌else◌, ◌==◌, string_eq,
}
use openlaps.Common.Number.{Number}
use openlaps.Strategy.{LapFact, StopFact, StrategyPolicy, Arithmetic, text_is, last_of, max_n}

-- `_Burn`
pub record Burn (N : Type 0) : Type 0 where
  pub mean : Option N
  pub sd : Option N
  pub laps : ℕ
  pub lap_time_s : Option N
  pub lo : Option N
  pub hi : Option N

module _ (number : Number) (arithmetic : Arithmetic number.N) where
  open number use {N, of_ℕ, add, sub, mul, lt_n, le_n}

  abbrev pub positive : Option N → Bool
  positive none = false
  positive (some x) = lt_n (of_ℕ 0) x

  -- `_lap_window`: the start and the end of a lap that is timed.
  unfoldable pub lap_window : LapFact N → Option (N × N)
  lap_window lap = elim lap.lap_time_s [
    | none ↦ none
    | some t ↦ if le_n t (of_ℕ 0) then none else some (sub lap.crossed_at t, lap.crossed_at)
  ]

  -- The instant is after the start and no later than the end.
  abbrev pub falls : N → N → Option N → Bool
  falls start end none = false
  falls start end (some t) = lt_n start t && le_n t end

  abbrev pub lasts : N → Option N → Bool
  lasts end none = true
  lasts end (some exit) = le_n end exit

  -- One stop against the window of a lap.
  abbrev pub stop_touches : N → N → StopFact N → Bool
  stop_touches start end stop =
      falls start end (some stop.entry_at)
      || falls start end stop.exit_at
      || (le_n stop.entry_at start && lasts end stop.exit_at)

  unfoldable pub any_touches : N → N → List (StopFact N) → Bool
  any_touches start end [] = false
  any_touches start end (stop ∷ stops) = stop_touches start end stop || any_touches start end stops

  abbrev pub window_touches : Option (N × N) → List (StopFact N) → Bool
  window_touches none stops = true
  window_touches (some (start, end)) stops = any_touches start end stops

  -- `_touches_pits`
  unfoldable pub touches_pits : LapFact N → List (StopFact N) → Bool
  unfolding lap_window any_touches
  touches_pits lap stops = window_touches (lap_window lap) stops

  unfoldable pub is_candidate : List (StopFact N) → LapFact N → Bool
  unfolding touches_pits
  is_candidate stops lap =
      lap.valid
      && positive lap.lap_time_s
      && lap.measurement_status == "clean"
      && positive lap.fuel_used_l
      && not (text_is lap.pit_status "pit")
      && not (touches_pits lap stops)

  unfoldable pub candidates_of : List (StopFact N) → List (LapFact N) → List (LapFact N)
  unfolding is_candidate
  candidates_of stops [] = []
  candidates_of stops (lap ∷ laps) =
      let rest = candidates_of stops laps in if is_candidate stops lap then lap ∷ rest else rest

  -- The lap times that are there and not zero.
  abbrev pub lap_times : List (LapFact N) → List N
  lap_times [] = []
  lap_times (lap ∷ laps) =
      let rest = lap_times laps in
      elim lap.lap_time_s [
        | none ↦ rest
        | some t ↦ if number.eq_n t (of_ℕ 0) then rest else t ∷ rest
      ]

  abbrev pub no_slower : N → LapFact N → Bool
  no_slower ceiling lap = elim lap.lap_time_s [ none ↦ false | some t ↦ le_n t ceiling ]

  unfoldable pub within_ceiling : N → List (LapFact N) → List (LapFact N)
  within_ceiling ceiling [] = []
  within_ceiling ceiling (lap ∷ laps) =
      let rest = within_ceiling ceiling laps in if no_slower ceiling lap then lap ∷ rest else rest

  -- The lap time that is still no outlier.
  abbrev pub ceiling_of : StrategyPolicy N → List (LapFact N) → N
  ceiling_of policy candidates =
      let recent = last_of (policy.burn_window_laps * 2) candidates in
      mul (arithmetic.median (lap_times recent)) (add (of_ℕ 1) policy.outlier_fraction)

  -- `clean_laps`; of no candidates there are none within the ceiling either.
  unfoldable pub clean_laps :
      List (LapFact N) → List (StopFact N) → StrategyPolicy N → List (LapFact N)
  unfolding candidates_of within_ceiling
  clean_laps laps stops policy =
      let candidates = candidates_of stops laps in
      within_ceiling (ceiling_of policy candidates) candidates

  abbrev pub burns_of : List (LapFact N) → List N
  burns_of [] = []
  burns_of (lap ∷ laps) =
      let rest = burns_of laps in elim lap.fuel_used_l [ none ↦ rest | some x ↦ x ∷ rest ]

  abbrev pub no_burn : Burn N
  no_burn = record { mean = none; sd = none; laps = 0; lap_time_s = none; lo = none; hi = none }

  abbrev pub burn_of_window : StrategyPolicy N → List (LapFact N) → Burn N
  burn_of_window policy [] = no_burn
  burn_of_window policy (lap ∷ laps) =
      let window = lap ∷ laps in
      let burns = burns_of window in
      let mean = arithmetic.fmean burns in
      let sd = if leb 2 (length burns) then some (arithmetic.stdev burns) else none in
      let spread : N = elim sd [ none ↦ of_ℕ 0 | some s ↦ mul policy.burn_sigma s ] in
      record {
        mean = some mean;
        sd = sd;
        laps = length window;
        lap_time_s = some (arithmetic.fmean (lap_times window));
        lo = some (max_n number (sub mean spread) (mul mean arithmetic.quarter));
        hi = some (add mean spread);
      }

  -- `_burn`
  unfoldable pub burn_of : List (LapFact N) → StrategyPolicy N → Burn N
  burn_of clean policy = burn_of_window policy (last_of policy.burn_window_laps clean)
