-- ===== src/Strategy/Window.antt =====
-- src/pit/strategy/model.py (evaluate): how far the fuel goes, and the window for the next stop.
use openlaps.Common.{
  ℕ, ◌+◌, ◌-◌, Option, none, some, List, [], ◌∷◌, ltb, max, if◌then◌else◌, ◌==◌, string_eq,
}
use openlaps.Common.Int.{ℤ, pos, negsuc}
use openlaps.Common.Number.{Number}
use openlaps.Strategy.{PlanFacts, PlannedStop, StrategyPolicy, Arithmetic, clamp, max_n}
use openlaps.Strategy.Burn.{Burn}
use openlaps.Strategy.Fuel.{Fuel, reference_of}
use openlaps.Strategy.Stops.{remaining_planned}
use openlaps.Strategy.Drivers.{Finding, window_findings}

-- `n + z`
abbrev plus : ℕ → ℤ → ℤ
plus n (pos m) = pos (n + m)
plus n (negsuc m) = if ltb m n then pos (n - m - 1) else negsuc (m - n)

module _ (number : Number) (arithmetic : Arithmetic number.N) where
  open number use {N, of_ℕ, add, sub, mul, div, lt_n, le_n, eq_n}

  -- A number that is there and not zero.
  abbrev pub nonzero : Option N → Option N
  nonzero none = none
  nonzero (some x) = if eq_n x (of_ℕ 0) then none else some x

  -- The fuel that can be used, with its bounds.
  abbrev pub usable : PlanFacts N → Fuel number arithmetic → Fuel number arithmetic
  usable plan fuel =
      let unusable = sub plan.tank_l plan.usable_fuel_l in
      record {
        remaining = max_n number (sub fuel.remaining unusable) (of_ℕ 0);
        lo =
            max_n number
              (sub (reference_of number arithmetic (some fuel.lo) fuel.remaining) unusable)
              (of_ℕ 0);
        hi =
            max_n number
              (sub (reference_of number arithmetic (some fuel.hi) fuel.remaining) unusable)
              (of_ℕ 0);
      }

  -- `a / b` where `b` is there and not zero.
  abbrev pub over : N → Option N → Option N
  over a b = elim (nonzero b) [ none ↦ none | some d ↦ some (div a d) ]

  pub record Range : Type 0 where
    pub laps_lo : Option N
    pub laps_hi : Option N
    pub time_lo : Option N
    pub time_hi : Option N

  abbrev no_range : Range
  no_range = record { laps_lo = none; laps_hi = none; time_lo = none; time_hi = none }

  abbrev times_of : Option N → Option N → Option N → Range
  times_of (some t) (some lo) (some hi) = record {
    laps_lo = some lo;
    laps_hi = some hi;
    time_lo = some (mul lo t);
    time_hi = some (mul hi t);
  }
  times_of _ lo hi = record { laps_lo = lo; laps_hi = hi; time_lo = none; time_hi = none }

  abbrev range_of_usable : Burn N → Fuel number arithmetic → Range
  range_of_usable burn fuel = elim (nonzero burn.mean) [
    | none ↦ no_range
    | some _ ↦ times_of (nonzero burn.lap_time_s) (over fuel.lo burn.hi) (over fuel.hi burn.lo)
  ]

  -- The laps and the seconds to dry.
  unfoldable pub range_of : Option (PlanFacts N) → Option (Fuel number arithmetic) → Burn N → Range
  range_of (some plan) (some fuel) burn = range_of_usable burn (usable plan fuel)
  range_of (some plan) none burn = no_range
  range_of none fuel burn = no_range

  -- The stops that are needed and the window for the next one.
  pub record Window : Type 0 where
    pub stops_needed : Option ℕ
    pub window_open : Option ℕ
    pub window_close : Option ℤ
    pub full_range_lo : Option N
    pub findings : List (Finding N)

  abbrev no_window : Option N → Option ℕ → Window
  no_window full needed = record {
    stops_needed = needed;
    window_open = none;
    window_close = none;
    full_range_lo = full;
    findings = [];
  }

  abbrev refuels_in : List (PlannedStop N) → ℕ
  refuels_in [] = 0
  refuels_in (stop ∷ stops) =
      if stop.type == "refuel" then 1 + refuels_in stops else refuels_in stops

  abbrev window_with : PlanFacts N → ℕ → N → StrategyPolicy N → N → N → ℕ → Window
  window_with plan lap_count now policy full laps_lo remaining =
      let planned_refuels =
        refuels_in (remaining_planned number arithmetic lap_count now plan.planned_stops) in
      let needed = clamp (arithmetic.ceil (div (sub (of_ℕ remaining) laps_lo) full)) in
      let stops_total = max needed planned_refuels in
      let window_close = plus lap_count (arithmetic.floor laps_lo) in
      let window_open = max lap_count (
        clamp
          (arithmetic.ceil (sub (of_ℕ (lap_count + remaining)) (mul (of_ℕ stops_total) full)))) in
      if le_n (of_ℕ remaining) laps_lo
      then no_window (some full) (some 0)
      else if le_n (of_ℕ 1) full
      then record {
        stops_needed = some needed;
        window_open = some window_open;
        window_close = some window_close;
        full_range_lo = some full;
        findings =
            window_findings number arithmetic lap_count window_open window_close laps_lo policy;
      }
      else no_window (some full) none

  abbrev window_in :
      PlanFacts N → ℕ → N → StrategyPolicy N → Option N → Option N → Option ℕ → Window
  window_in plan lap_count now policy (some hi) (some laps_lo) (some remaining) =
      window_with plan lap_count now policy (div plan.usable_fuel_l hi) laps_lo remaining
  window_in plan lap_count now policy _ laps_lo remaining = no_window none none

  unfoldable pub window_of :
      Option (PlanFacts N) → ℕ → N → StrategyPolicy N → Burn N → Option N → Option ℕ → Window
  unfolding remaining_planned window_findings
  window_of none lap_count now policy burn laps_lo remaining = no_window none none
  window_of (some plan) lap_count now policy burn laps_lo remaining =
      window_in plan lap_count now policy (nonzero burn.hi) laps_lo remaining
