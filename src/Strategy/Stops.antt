-- ===== src/Strategy/Stops.antt =====
-- src/pit/strategy/model.py: the race end, the stops that are planned and the stops that the numbers say.
pub mod Legs
use openlaps.Common.{
  ℕ, zero, suc, ◌+◌, ◌*◌, ◌-◌, String, Bool, true, false, not, ◌&&◌, ◌||◌, Option, none, some, List,
  [], ◌∷◌, get_elem?, length, leb, ltb, eqb, min, max, if◌then◌else◌, ◌==◌, string_eq,
}
use openlaps.Common.Dict.{lookup}
use openlaps.Common.Int.{ℤ, pos, negsuc}
use openlaps.Common.Number.{Number}
use openlaps.Strategy.{PlannedStop, PlanFacts, StrategyPolicy, Arithmetic, clamp}

-- `lap - planned_lap`
abbrev pub minus : ℕ → ℤ → ℤ
minus n (pos m) = if leb m n then pos (n - m) else negsuc (m - n - 1)
minus n (negsuc m) = pos (n + m + 1)

abbrev pub distance : ℤ → ℕ
distance (pos n) = n
distance (negsuc n) = n + 1

pub record Stop (N : Type 0) : Type 0 where
  pub lap : ℕ
  pub refuel : Bool
  pub driver_in : Option String
  pub for_fuel : Bool
  pub at : N
  pub planned_lap : Option ℤ

-- The variables of the loop of `_stop_plan`; `count` is `len(stops)`.
pub record Walk (N : Type 0) : Type 0 where
  pub lap : ℕ
  pub remaining : ℕ
  pub fuel_laps : N
  pub drive_left : Option N
  pub clock : N
  pub count : ℕ

abbrev pub named : Option String → Bool
named none = false
named (some s) = not (s == "")

module _ (number : Number) (arithmetic : Arithmetic number.N) where
  open number use {N, of_ℕ, add, sub, mul, div, lt_n, le_n, eq_n}

  abbrev pub above_zero : Option N → Bool
  above_zero none = false
  above_zero (some t) = not (eq_n t (of_ℕ 0))

  -- `_laps_remaining`
  abbrev pub laps_by_time : Option N → Option N → N → Option ℕ
  laps_by_time (some end_at) (some t) now =
      if eq_n t (of_ℕ 0) then none else some (clamp (arithmetic.ceil (div (sub end_at now) t)))
  laps_by_time _ _ now = none

  unfoldable pub laps_remaining : Option (PlanFacts N) → ℕ → Option N → N → Option ℕ
  laps_remaining none lap_count lap_time_s now = none
  laps_remaining (some plan) lap_count lap_time_s now =
      if plan.end_authority == "laps"
      then (elim plan.race_end_laps [
        | none ↦ laps_by_time plan.race_end_at lap_time_s now
        | some laps ↦ some (laps - lap_count)
      ])
      else laps_by_time plan.race_end_at lap_time_s now

  -- `_planned_lap`
  unfoldable pub planned_lap_of : PlannedStop N → ℕ → N → N → Option ℤ
  planned_lap_of stop lap_count lap_time_s now = elim stop.at_lap [
    | some at_lap ↦ some (arithmetic.trunc at_lap)
    | none ↦ elim stop.at_ms [
      | none ↦ none
      | some at_ms ↦
          if eq_n lap_time_s (of_ℕ 0)
          then none
          else some (
              pos (
                lap_count
                + clamp (arithmetic.floor (div (sub (div at_ms (of_ℕ 1000)) now) lap_time_s))))
    ]
  ]

  abbrev pub is_ahead : ℕ → N → PlannedStop N → Bool
  is_ahead lap_count now stop = elim stop.at_lap [
    | some at_lap ↦ lt_n (of_ℕ lap_count) at_lap
    | none ↦ elim stop.at_ms [ none ↦ false | some at_ms ↦ lt_n now (div at_ms (of_ℕ 1000)) ]
  ]

  -- `_remaining_planned`
  unfoldable pub remaining_planned : ℕ → N → List (PlannedStop N) → List (PlannedStop N)
  remaining_planned lap_count now [] = []
  remaining_planned lap_count now (stop ∷ stops) =
      let rest = remaining_planned lap_count now stops in
      if is_ahead lap_count now stop then stop ∷ rest else rest

  abbrev pub is_timed : PlanFacts N → Bool
  is_timed plan = plan.end_authority == "time"

  -- The laps that the fuel, and that the driver, still allow.
  abbrev pub laps_fuel : Walk N → ℕ
  laps_fuel w = clamp (arithmetic.floor w.fuel_laps)

  abbrev pub laps_driver : N → Option N → Option ℕ
  laps_driver lap_time_s none = none
  laps_driver lap_time_s (some left) = some (clamp (arithmetic.floor (div left lap_time_s)))

  abbrev pub least : ℕ → Option ℕ → ℕ
  least n none = n
  least n (some m) = if ltb m n then m else n

  -- `can`: the laps to the next stop.
  unfoldable pub can : N → Walk N → ℕ
  can lap_time_s w = least (laps_fuel w) (laps_driver lap_time_s w.drive_left)

  abbrev pub fuel_first : ℕ → Option ℕ → Bool
  fuel_first n none = true
  fuel_first n (some m) = leb n m

  -- The reason of the stop is the fuel.
  unfoldable pub by_fuel : N → Walk N → Bool
  by_fuel lap_time_s w = fuel_first (laps_fuel w) (laps_driver lap_time_s w.drive_left)

  unfoldable pub refuels : N → Walk N → Bool
  unfolding by_fuel can
  refuels lap_time_s w =
      by_fuel lap_time_s w
      || lt_n (sub w.fuel_laps (of_ℕ (can lap_time_s w))) (of_ℕ (w.remaining - can lap_time_s w))

  abbrev pub driver_of : Option (PlannedStop N) → Option String
  driver_of none = none
  driver_of (some stop) = stop.driver_in

  abbrev pub lap_of : Option (PlannedStop N) → ℕ → N → N → Option ℤ
  lap_of none lap_count lap_time_s now = none
  lap_of (some stop) lap_count lap_time_s now = planned_lap_of stop lap_count lap_time_s now

  abbrev pub drive_after : Option N → N → Bool → ℕ → Option N → Option N
  drive_after limit lap_time_s fresh driven none = none
  drive_after none lap_time_s fresh driven (some left) = some left
  drive_after (some limit) lap_time_s fresh driven (some left) =
      some (if fresh then limit else sub left (mul (of_ℕ driven) lap_time_s))

  abbrev pub remaining_after : PlanFacts N → N → N → ℕ → ℕ
  remaining_after plan lap_time_s clock remaining = elim plan.race_end_at [
    | none ↦ remaining
    | some end_at ↦
        if is_timed plan
        then clamp (arithmetic.ceil (div (sub end_at clock) lap_time_s))
        else remaining
  ]

  module _ (plan : PlanFacts N) (planned : List (PlannedStop N)) (lap_count : ℕ)
      (full_range_lo lap_time_s : N) (limit : Option N) (now : N) where
    -- One turn of the loop: the stop, and the variables after it.
    unfoldable pub stop_of : Walk N → Stop N
    unfolding can by_fuel refuels planned_lap_of
    stop_of w =
        let planned_stop = get_elem? planned w.count in
        let refuel = refuels lap_time_s w in
        record {
          lap = w.lap + can lap_time_s w;
          refuel = refuel;
          driver_in = driver_of planned_stop;
          for_fuel = by_fuel lap_time_s w;
          at = add w.clock (
              add (mul (of_ℕ (can lap_time_s w)) lap_time_s)
                (of_ℕ (if refuel then plan.refuel_min_s else plan.service_typical_s)));
          planned_lap = lap_of planned_stop lap_count lap_time_s now;
        }

    unfoldable pub walk_after : Walk N → Walk N
    unfolding stop_of can by_fuel refuels
    walk_after w =
        let stop = stop_of w in
        let driven = can lap_time_s w in
        record {
          lap = stop.lap;
          remaining = remaining_after plan lap_time_s stop.at (w.remaining - driven);
          fuel_laps = if stop.refuel then full_range_lo else sub w.fuel_laps (of_ℕ driven);
          drive_left =
              drive_after limit lap_time_s (named stop.driver_in || not stop.for_fuel) driven
                w.drive_left;
          clock = stop.at;
          count = w.count + 1;
        }

    -- `remaining > 0`, and `can` is less than it.
    unfoldable pub goes_on : Walk N → Bool
    unfolding can
    goes_on w = ltb 0 w.remaining && not (leb w.remaining (can lap_time_s w))

    -- The loop; `room` is how many stops there may still be.
    unfoldable pub walk : ℕ → Walk N → List (Stop N)
    unfolding goes_on stop_of walk_after
    walk zero w = []
    walk (suc room) w =
        let rest = walk room (walk_after w) in if goes_on w then stop_of w ∷ rest else []

  -- `limit_s`
  abbrev pub limit_of : PlanFacts N → String → Option N
  limit_of plan name = elim (lookup name plan.driver_limits) [
    | none ↦ none
    | some minutes ↦ if eqb minutes 0 then none else some (mul (of_ℕ minutes) (of_ℕ 60))
  ]

  abbrev pub drive_of : Option N → Option N → Option N
  drive_of none remaining = none
  drive_of (some limit) remaining = remaining

  abbrev pub start_of : PlanFacts N → ℕ → ℕ → N → Option N → N → Walk N
  start_of plan lap_count laps laps_lo driver_remaining_s now = record {
    lap = lap_count;
    remaining = laps;
    fuel_laps = laps_lo;
    drive_left = drive_of (limit_of plan "max_continuous_min") driver_remaining_s;
    clock = now;
    count = 0;
  }

  -- `_stop_plan`
  unfoldable pub stop_plan :
      PlanFacts N → ℕ → Option ℕ → N → N → N → Option N → N → StrategyPolicy N → List (Stop N)
  unfolding walk remaining_planned lookup
  stop_plan plan lap_count none laps_lo full_range_lo lap_time_s driver_remaining_s now policy = []
  stop_plan plan lap_count (some laps) laps_lo full_range_lo lap_time_s driver_remaining_s now
        policy =
      if lt_n full_range_lo (of_ℕ 1)
      then []
      else walk plan (remaining_planned lap_count now plan.planned_stops) lap_count full_range_lo
          lap_time_s (limit_of plan "max_continuous_min") now policy.max_simulated_stops
          (start_of plan lap_count laps laps_lo driver_remaining_s now)

  -- `stop["delta_laps"]` of the stops that have one.
  abbrev pub deltas_of : List (Stop N) → List ℤ
  deltas_of [] = []
  deltas_of (stop ∷ stops) =
      let rest = deltas_of stops in
      elim stop.planned_lap [ none ↦ rest | some planned ↦ minus stop.lap planned ∷ rest ]

  abbrev pub largest : List ℤ → ℕ
  largest [] = 0
  largest (d ∷ ds) = max (distance d) (largest ds)

  abbrev pub first_delta_of : List ℤ → ℤ
  first_delta_of [] = pos 0
  first_delta_of (d ∷ ds) = d

  pub record PlanDrift : Type 0 where
    pub planned : ℕ
    pub computed : ℕ
    pub max_abs_delta : ℕ
    pub first_delta : ℤ
    pub diverged : Bool

  -- `_plan_drift`, `none` for the empty dictionary.
  unfoldable pub plan_drift :
      PlanFacts N → List (Stop N) → ℕ → N → StrategyPolicy N → Option PlanDrift
  unfolding remaining_planned
  plan_drift plan stops lap_count now policy =
      let planned = length (remaining_planned lap_count now plan.planned_stops) in
      let deltas = deltas_of stops in
      let max_abs = largest deltas in
      if eqb (length plan.planned_stops) 0
      then none
      else some (record {
        planned = planned;
        computed = length stops;
        max_abs_delta = max_abs;
        first_delta = first_delta_of deltas;
        diverged = not (eqb planned (length stops)) || ltb policy.plan_drift_laps max_abs;
      })
