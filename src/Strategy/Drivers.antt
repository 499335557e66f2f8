-- ===== src/Strategy/Drivers.antt =====
-- src/pit/strategy/model.py: the pit window, the driver's time, the target lap and the refuel clock. A finding is kept
-- without its texts.
use openlaps.Common.{
  ℕ, ◌+◌, String, Bool, true, false, not, ◌&&◌, Option, none, some, List, [], ◌∷◌, leb,
  if◌then◌else◌, ◌==◌, string_eq,
}
use openlaps.Common.Int.{ℤ, pos, negsuc}
use openlaps.Common.Number.{Number}
use openlaps.Strategy.{
  PlanFacts, PlannedStop, StintFact, StopFact, StrategyPolicy, Arithmetic, or_else, max_n, is_some,
}
use openlaps.Strategy.Stops.{remaining_planned, limit_of, is_timed, minus}

pub data Kind : Type 0 where
  pit_window driver_time plan_drift short_fill : Kind

pub record Finding (N : Type 0) : Type 0 where
  pub monitor : Kind
  pub critical : Bool
  pub score : N

abbrev pub int_leb : ℤ → ℤ → Bool
int_leb (pos a) (pos b) = leb a b
int_leb (pos a) (negsuc b) = false
int_leb (negsuc a) (pos b) = true
int_leb (negsuc a) (negsuc b) = leb b a

module _ (number : Number) (arithmetic : Arithmetic number.N) where
  open number use {N, of_ℕ, add, sub, mul, div, lt_n, le_n, eq_n}

  abbrev of_ℤ : ℤ → N
  of_ℤ (pos n) = of_ℕ n
  of_ℤ (negsuc n) = sub (of_ℕ 0) (of_ℕ (n + 1))

  -- `_window_findings`
  unfoldable pub window_findings : ℕ → ℕ → ℤ → N → StrategyPolicy N → List (Finding N)
  window_findings lap_count window_open window_close laps_lo policy =
      let laps_left = elim window_close as (λ _. ℤ) [
        | pos n ↦ minus n (pos lap_count)
        | negsuc n ↦ negsuc (n + lap_count)
      ] in
      let urgent = lt_n laps_lo (of_ℕ 1) in
      if not (int_leb (pos window_open) window_close)
      then record { monitor = pit_window; critical = true; score = of_ℕ 1 } ∷ []
      else if int_leb laps_left (pos policy.window_warn_laps)
      then record {
        monitor = pit_window;
        critical = urgent;
        score =
            if urgent
            then of_ℕ 1
            else sub (of_ℕ 1) (div (of_ℤ laps_left) (of_ℕ (policy.window_warn_laps + 1)));
      }
        ∷ []
      else []

  -- The seconds that a driver has driven, in all stints.
  abbrev pub driven_by : String → N → N → List (StintFact N) → N
  driven_by driver now total [] = total
  driven_by driver now total (stint ∷ stints) =
      driven_by driver now
        (if stint.driver == driver
          then add total (sub (or_else stint.ended now) stint.started)
          else total)
        stints

  abbrev pub left_of : Option N → N → Option N
  left_of none spent = none
  left_of (some limit) spent = some (sub limit spent)

  -- The value is within the margin, and less than the worst so far.
  abbrev pub worse : N → Option N → Option N → Option N
  worse margin none worst = worst
  worse margin (some value) none = if le_n value margin then some value else none
  worse margin (some value) (some w) =
      if le_n value margin && lt_n value w then some value else some w

  abbrev pub driver_findings : StrategyPolicy N → Option N → List (Finding N)
  driver_findings policy none = []
  driver_findings policy (some value) =
      let over = le_n value (of_ℕ 0) in
      record {
        monitor = driver_time;
        critical = over;
        score =
            if over
            then of_ℕ 1
            else sub (of_ℕ 1) (div value (max_n number policy.driver_margin_s (of_ℕ 1)));
      }
      ∷ []

  -- What `_driver_time` returns, with the findings that it adds.
  pub record DriverTime : Type 0 where
    pub remaining : Option N
    pub total_remaining : Option N
    pub findings : List (Finding N)

  unfoldable pub driver_time_of :
      Option (StintFact N)
      → List (StintFact N)
      → Option (PlanFacts N)
      → N
      → StrategyPolicy N
      → DriverTime
  driver_time_of (some stint) stints (some plan) now policy =
      let remaining =
        left_of (limit_of number arithmetic plan "max_continuous_min") (sub now stint.started) in
      let total_remaining =
        left_of (limit_of number arithmetic plan "max_total_min")
          (driven_by stint.driver now (of_ℕ 0) stints) in
      record {
        remaining = remaining;
        total_remaining = total_remaining;
        findings = driver_findings policy (
            worse policy.driver_margin_s total_remaining
              (worse policy.driver_margin_s remaining none));
      }
  driver_time_of (some stint) stints none now policy = record {
    remaining = none;
    total_remaining = none;
    findings = [];
  }
  driver_time_of none stints plan now policy = record {
    remaining = none;
    total_remaining = none;
    findings = [];
  }

  -- The wall-clock instant that pace decides: the first stop's, or the race end's where no stop is planned.
  abbrev pub moment_of : PlanFacts N → List (PlannedStop N) → Option N
  moment_of plan (stop ∷ stops) = elim stop.at_ms [
    | none ↦ none
    | some at_ms ↦ some (div at_ms (of_ℕ 1000))
  ]
  moment_of plan [] = if is_timed number arithmetic plan then plan.race_end_at else none

  -- `_target_lap`
  unfoldable pub target_lap : Option (PlanFacts N) → Option N → ℕ → N → Option N
  unfolding remaining_planned
  target_lap (some plan) (some laps_lo) lap_count now =
      if le_n laps_lo (of_ℕ 0)
      then none
      else (elim (moment_of plan
          (remaining_planned number arithmetic lap_count now plan.planned_stops)) [
            | none ↦ none
            | some moment ↦
                let seconds = sub moment now in
                if le_n seconds (of_ℕ 0) then none else some (div seconds laps_lo)
          ])
  target_lap (some plan) none lap_count now = none
  target_lap none laps_lo lap_count now = none

  -- The last refuelling stop that is open.
  unfoldable pub open_refuel : List (StopFact N) → Option (StopFact N)
  open_refuel [] = none
  open_refuel (stop ∷ stops) =
      let later = open_refuel stops in
      if is_some later
      then later
      else if stop.is_open && stop.stop_type == "refuel"
      then some stop
      else none

  pub record RefuelClock : Type 0 where
    pub elapsed : N
    pub remaining : N
    pub release_at : N

  -- `_refuel_clock`
  unfoldable pub refuel_clock : List (StopFact N) → Option (PlanFacts N) → N → Option RefuelClock
  unfolding open_refuel
  refuel_clock stops none now = none
  refuel_clock stops (some plan) now = elim (open_refuel stops) [
    | none ↦ none
    | some stop ↦
        let elapsed = sub now stop.entry_at in
        some (record {
          elapsed = elapsed;
          remaining = max_n number (sub (of_ℕ plan.refuel_min_s) elapsed) (of_ℕ 0);
          release_at = add stop.entry_at (of_ℕ plan.refuel_min_s);
        })
  ]
