-- ===== src/Strategy/Evaluate.antt =====
-- src/pit/strategy/model.py (evaluate): the state of the race. `round` is Python's, and the identifiers of the vehicle,
-- the session and the trigger, which are copied, are left out of the state.
use openlaps.Common.{
  ℕ, String, Bool, true, false, ◌&&◌, Option, none, some, List, [], ◌∷◌, ◌++◌, ltb, eqb, max,
  length, last?, if◌then◌else◌, string_eq,
}
use openlaps.Common.Int.{ℤ}
use openlaps.Common.Number.{Number}
use openlaps.Strategy.{PlanFacts, LapFact, StintFact, StopFact, StrategyPolicy, Arithmetic, min_n}
use openlaps.Strategy.Burn.{clean_laps, burn_of}
use openlaps.Strategy.Fuel.{Confidence, key_on, Rebase, Fuel, rebase, fuel_remaining}
use openlaps.Strategy.Stops.{Stop, PlanDrift, laps_remaining, stop_plan, plan_drift}
use openlaps.Strategy.Drivers.{
  Finding, short_fill, DriverTime, RefuelClock, window_findings, driver_time_of, target_lap,
  refuel_clock,
}
use openlaps.Strategy.Drivers
use openlaps.Strategy.Window.{nonzero, range_of, window_of}

pub record RaceInputs (N : Type 0) : Type 0 where
  pub now : N
  pub session_started : N
  pub plan : Option (PlanFacts N)
  pub laps : List (LapFact N)
  pub stints : List (StintFact N)
  pub stops : List (StopFact N)

module _ (number : Number) (arithmetic : Arithmetic number.N)
    (round : number.N → ℕ → number.N) where
  open number use {N, of_ℕ, add, sub, mul, div, lt_n, le_n, eq_n}

  -- Python's `sorted` by a key, which keeps the order of equals.
  unfoldable pub insert_by : {A : Type 0} → (A → A → Bool) → A → List A → List A
  insert_by before x [] = x ∷ []
  insert_by before x (y ∷ ys) = if before y x then y ∷ insert_by before x ys else x ∷ y ∷ ys

  unfoldable pub sort_by : {A : Type 0} → (A → A → Bool) → List A → List A
  unfolding insert_by
  sort_by before [] = []
  sort_by before (x ∷ xs) = insert_by before x (sort_by before xs)

  -- The simulated stops, and how far they are from the plan.
  abbrev stops_in :
      PlanFacts N
      → ℕ
      → Option ℕ
      → Option N
      → Option N
      → Option N
      → Option N
      → N
      → StrategyPolicy N
      → List (Stop N) × Option (PlanDrift number arithmetic)
  stops_in plan lap_count remaining (some laps_lo) (some t) (some full) driver now policy =
      let stops =
        stop_plan number arithmetic plan lap_count remaining laps_lo full t driver now policy in
      (stops, plan_drift number arithmetic plan stops lap_count now policy)
  stops_in plan lap_count remaining _ t full driver now policy = ([], none)

  unfoldable pub stops_of :
      Option (PlanFacts N)
      → ℕ
      → Option ℕ
      → Option N
      → Option N
      → Option N
      → Option N
      → N
      → StrategyPolicy N
      → List (Stop N) × Option (PlanDrift number arithmetic)
  unfolding stop_plan plan_drift
  stops_of none lap_count remaining laps_lo t full driver now policy = ([], none)
  stops_of (some plan) lap_count remaining laps_lo t full driver now policy =
      stops_in plan lap_count remaining laps_lo (nonzero number arithmetic t)
        (nonzero number arithmetic full) driver now policy

  abbrev drift_findings : StrategyPolicy N → Option (PlanDrift number arithmetic) → List (Finding N)
  drift_findings policy none = []
  drift_findings policy (some drift) =
      if drift.diverged
      then record {
        monitor = Drivers.plan_drift;
        critical = false;
        score =
            min_n number (of_ℕ 1)
              (div (of_ℕ drift.max_abs_delta) (of_ℕ (max policy.plan_drift_laps 1)));
      }
        ∷ []
      else []

  abbrev is_key_on : Confidence → Bool
  is_key_on key_on = true
  is_key_on _ = false

  abbrev fill_findings : StrategyPolicy N → Option (PlanFacts N) → Rebase N → List (Finding N)
  fill_findings policy none r = []
  fill_findings policy (some plan) r = elim r.level_l [
    | none ↦ []
    | some level ↦
        if is_key_on r.confidence
          && lt_n level (mul plan.tank_l (sub (of_ℕ 1) policy.short_fill_fraction))
        then record {
          monitor = short_fill;
          critical = false;
          score = min_n number (of_ℕ 1) (div (sub plan.tank_l level) plan.tank_l);
        }
          ∷ []
        else []
  ]

  abbrev rounded : ℕ → Option N → Option N
  rounded digits none = none
  rounded digits (some x) = some (round x digits)

  -- `StrategyState`
  pub record StrategyState : Type 0 where
    pub lap_number : Option ℕ
    pub fuel_remaining_l : Option N
    pub fuel_remaining_lo_l : Option N
    pub fuel_remaining_hi_l : Option N
    pub rebase_confidence : Confidence
    pub rebase_level_l : Option N
    pub rebase_at : Option N
    pub fuel_added_l : Option N
    pub burn_l_per_lap : Option N
    pub burn_sd : Option N
    pub burn_laps : ℕ
    pub lap_time_ref_s : Option N
    pub laps_to_dry_lo : Option N
    pub laps_to_dry_hi : Option N
    pub time_to_dry_s_lo : Option N
    pub time_to_dry_s_hi : Option N
    pub laps_remaining : Option ℕ
    pub stops_needed : Option ℕ
    pub window_open_lap : Option ℕ
    pub window_close_lap : Option ℤ
    pub target_lap_s : Option N
    pub driver : Option String
    pub driver_time_remaining_s : Option N
    pub driver_total_remaining_s : Option N
    pub refuel_elapsed_s : Option N
    pub refuel_remaining_s : Option N
    pub refuel_release_at : Option N
    pub stop_plan : List (Stop N)
    pub plan_drift : Option (PlanDrift number arithmetic)
    pub findings : List (Finding N)

  abbrev via : {A B : Type 0} → (A → B) → Option A → Option B
  via f none = none
  via f (some a) = some (f a)

  -- `evaluate`
  unfoldable pub evaluate : RaceInputs N → StrategyPolicy N → StrategyState
  unfolding sort_by clean_laps burn_of rebase fuel_remaining range_of laps_remaining window_of
      driver_time_of stops_of target_lap refuel_clock
  evaluate inputs policy =
      let now = inputs.now in
      let plan = inputs.plan in
      let laps = sort_by (λ (a b : LapFact N). lt_n a.crossed_at b.crossed_at) inputs.laps in
      let stints =
        sort_by (λ (a b : StintFact N). ltb a.stint_number b.stint_number) inputs.stints in
      let stops = sort_by (λ (a b : StopFact N). lt_n a.entry_at b.entry_at) inputs.stops in
      let lap_count = length laps in
      let burn =
        burn_of number arithmetic (clean_laps number arithmetic laps stops policy) policy in
      let r = rebase number arithmetic stints stops plan inputs.session_started now in
      let fuel = fuel_remaining number arithmetic r laps stops burn in
      let range = range_of number arithmetic plan fuel burn in
      let remaining = laps_remaining number arithmetic plan lap_count burn.lap_time_s now in
      let window =
        window_of number arithmetic plan lap_count now policy burn range.laps_lo remaining in
      let time = driver_time_of number arithmetic (last? stints) stints plan now policy in
      let (planned_stops, drift) =
        stops_of plan lap_count remaining range.laps_lo burn.lap_time_s window.full_range_lo
          time.remaining now policy in
      let clock = refuel_clock number arithmetic stops plan now in
      record {
        lap_number = if eqb lap_count 0 then none else some lap_count;
        fuel_remaining_l = rounded 2 (via (λ (f : Fuel number arithmetic). f.remaining) fuel);
        fuel_remaining_lo_l = rounded 2 (via (λ (f : Fuel number arithmetic). f.lo) fuel);
        fuel_remaining_hi_l = rounded 2 (via (λ (f : Fuel number arithmetic). f.hi) fuel);
        rebase_confidence = r.confidence;
        rebase_level_l = rounded 2 r.level_l;
        rebase_at = r.at;
        fuel_added_l = rounded 2 r.fuel_added_l;
        burn_l_per_lap = rounded 4 burn.mean;
        burn_sd = rounded 4 burn.sd;
        burn_laps = burn.laps;
        lap_time_ref_s = rounded 2 burn.lap_time_s;
        laps_to_dry_lo = rounded 2 range.laps_lo;
        laps_to_dry_hi = rounded 2 range.laps_hi;
        time_to_dry_s_lo = rounded 1 range.time_lo;
        time_to_dry_s_hi = rounded 1 range.time_hi;
        laps_remaining = remaining;
        stops_needed = window.stops_needed;
        window_open_lap = window.window_open;
        window_close_lap = window.window_close;
        target_lap_s = rounded 2 (target_lap number arithmetic plan range.laps_lo lap_count now);
        driver = via (λ (s : StintFact N). s.driver) (last? stints);
        driver_time_remaining_s = rounded 1 time.remaining;
        driver_total_remaining_s = rounded 1 time.total_remaining;
        refuel_elapsed_s = rounded 1 (via (λ (c : RefuelClock number arithmetic). c.elapsed) clock);
        refuel_remaining_s =
            rounded 1 (via (λ (c : RefuelClock number arithmetic). c.remaining) clock);
        refuel_release_at = via (λ (c : RefuelClock number arithmetic). c.release_at) clock;
        stop_plan = planned_stops;
        plan_drift = drift;
        findings =
            window.findings
            ++ (time.findings ++ (drift_findings policy drift ++ fill_findings policy plan r));
      }
