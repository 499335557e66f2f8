-- ===== src/Strategy/Fuel.antt =====
-- src/pit/strategy/model.py: the re-base and the fuel that remains. Litres are numbers, `uncertainty` is
-- `_REBASE_UNCERTAINTY_L`.
use openlaps.Common.{
  ℕ, ◌+◌, Bool, true, false, not, ◌&&◌, Option, none, some, List, [], ◌∷◌, last?, ltb,
  if◌then◌else◌, ◌==◌, string_eq,
}
use openlaps.Common.Number.{Number}
use openlaps.Strategy.{
  PlanFacts, LapFact, StintFact, StopFact, Arithmetic, is_some, or_else, max_n, min_n,
}
use openlaps.Strategy.Burn.{Burn, lap_window}

-- `key_on`, `session_start`, `moving`, `plan` and `none`.
pub data Confidence : Type 0 where
  key_on session_start moving planned unknown : Confidence

pub record Rebase (N : Type 0) : Type 0 where
  pub level_l : Option N
  pub at : Option N
  pub confidence : Confidence
  pub fuel_added_l : Option N

module _ (number : Number) (arithmetic : Arithmetic number.N) where
  open number use {N, of_ℕ, add, sub, mul, div, lt_n, le_n}

  abbrev pub uncertainty : Confidence → N
  uncertainty key_on = arithmetic.tenths 3
  uncertainty session_start = arithmetic.tenths 5
  uncertainty moving = of_ℕ 2
  uncertainty planned = of_ℕ 3
  uncertainty unknown = of_ℕ 0

  abbrev pub contains : N → N → StintFact N → Bool
  contains at now stint = le_n stint.started at && le_n at (or_else stint.ended now)

  -- `_stint_containing`
  unfoldable pub stint_containing : List (StintFact N) → N → N → Option (StintFact N)
  stint_containing [] at now = none
  stint_containing (stint ∷ stints) at now =
      let rest = stint_containing stints at now in
      if contains at now stint then some stint else rest

  abbrev pub is_done : StopFact N → Bool
  is_done stop = stop.stop_type == "refuel" && not stop.is_open && is_some stop.exit_at

  -- The last refuelling stop that is over.
  unfoldable pub last_refuel : List (StopFact N) → Option (StopFact N)
  last_refuel [] = none
  last_refuel (stop ∷ stops) =
      let later = last_refuel stops in
      if is_some later then later else if is_done stop then some stop else none

  -- The last level of an earlier stint: the first of the reversed stints, the last of these.
  unfoldable pub level_before : List (StintFact N) → ℕ → Option N
  level_before [] stint_number = none
  level_before (stint ∷ stints) stint_number =
      let later = level_before stints stint_number in
      if is_some later
      then later
      else if ltb stint.stint_number stint_number
      then stint.level_end_l
      else none

  abbrev pub no_rebase : Rebase N
  no_rebase = record { level_l = none; at = none; confidence = unknown; fuel_added_l = none }

  abbrev pub rebase_at : N → N → Confidence → Option N → Rebase N
  rebase_at level at confidence added = record {
    level_l = some level;
    at = some at;
    confidence = confidence;
    fuel_added_l = added;
  }

  -- The plan's full tank, for want of a reading.
  abbrev pub from_plan : Option (PlanFacts N) → N → Rebase N
  from_plan none at = no_rebase
  from_plan (some plan) at = rebase_at plan.tank_l at planned none

  abbrev pub level_of_last : Option (StintFact N) → Option N
  level_of_last none = none
  level_of_last (some stint) = stint.level_end_l

  -- The latest reading, taken on track, or else the plan's tank.
  abbrev pub latest_or : Option N → N → Rebase N → Rebase N
  latest_or (some level) now fallback = rebase_at level now moving none
  latest_or none now fallback = fallback

  -- A stint that began during the stop: its first reading was taken while the car stood.
  abbrev pub key_on_level : StopFact N → Option (StintFact N) → Option (N × StintFact N)
  key_on_level stop none = none
  key_on_level stop (some stint) = elim stint.level_start_l [
    | none ↦ none
    | some level ↦ if le_n stop.entry_at stint.started then some (level, stint) else none
  ]

  abbrev pub added_to : N → Option N → Option N
  added_to level none = none
  added_to level (some before) = some (sub level before)

  abbrev pub after_refuel :
      List (StintFact N) → Option (PlanFacts N) → N → N → Option (N × StintFact N) → Rebase N
  after_refuel stints plan exit_at now (some (level, stint)) =
      rebase_at level stint.started key_on (added_to level (level_before stints stint.stint_number))
  after_refuel stints plan exit_at now none =
      latest_or (level_of_last (last? stints)) now (from_plan plan exit_at)

  abbrev pub first_level : List (StintFact N) → Option (N × N)
  first_level [] = none
  first_level (stint ∷ stints) = elim stint.level_start_l [
    | none ↦ none
    | some level ↦ some (level, stint.started)
  ]

  abbrev pub before_refuel :
      List (StintFact N) → Option (PlanFacts N) → N → N → Option (N × N) → Rebase N
  before_refuel stints plan session_started now (some (level, at)) =
      rebase_at level at session_start none
  before_refuel stints plan session_started now none =
      latest_or (level_of_last (last? stints)) now (from_plan plan session_started)

  abbrev pub rebase_after :
      List (StintFact N) → Option (StopFact N) → Option (PlanFacts N) → N → N → Rebase N
  rebase_after stints none plan session_started now =
      before_refuel stints plan session_started now (first_level stints)
  rebase_after stints (some stop) plan session_started now = elim stop.exit_at [
    | none ↦ before_refuel stints plan session_started now (first_level stints)
    | some exit_at ↦
        after_refuel stints plan exit_at now
          (key_on_level stop (stint_containing stints exit_at now))
  ]

  -- `_rebase`
  unfoldable pub rebase :
      List (StintFact N) → List (StopFact N) → Option (PlanFacts N) → N → N → Rebase N
  unfolding stint_containing last_refuel level_before
  rebase stints stops plan session_started now =
      rebase_after stints (last_refuel stops) plan session_started now

  -- The seconds of a stop that fall between the two instants are not driven.
  unfoldable pub less_stops : N → N → N → List (StopFact N) → N
  less_stops start end driven [] = driven
  less_stops start end driven (stop ∷ stops) =
      let overlap =
        sub (min_n number end (or_else stop.exit_at end)) (max_n number start stop.entry_at) in
      less_stops start end (if lt_n (of_ℕ 0) overlap then sub driven overlap else driven) stops

  -- `_driven_seconds`
  unfoldable pub driven_seconds : N → N → List (StopFact N) → N
  unfolding less_stops
  driven_seconds start end stops =
      if le_n end start
      then of_ℕ 0
      else max_n number (less_stops start end (sub end start) stops) (of_ℕ 0)

  -- `burn.lap_time_s or (end - start).total_seconds()`
  abbrev pub reference_of : Option N → N → N
  reference_of none d = d
  reference_of (some t) d = if number.eq_n t (of_ℕ 0) then d else t

  -- The part of a racing lap that was driven after the re-base.
  abbrev pub fraction_of : Burn N → N → List (StopFact N) → Option (N × N) → N
  fraction_of burn rebased stops none = of_ℕ 1
  fraction_of burn rebased stops (some (start, end)) =
      let driven = driven_seconds (max_n number start rebased) end stops in
      let reference = reference_of burn.lap_time_s (sub end start) in
      if lt_n (of_ℕ 0) reference
      then min_n number (max_n number (div driven reference) (of_ℕ 0)) (of_ℕ 1)
      else of_ℕ 1

  -- What a lap adds: the litres used, and how many laps were substituted.
  abbrev pub measured : LapFact N → Option N
  measured lap = if lap.measurement_status == "clean" then lap.fuel_used_l else none

  -- The rolling mean in place of a lap that was not measured.
  abbrev pub substitute : Option N → N → N × ℕ → N × ℕ
  substitute none fraction total = total
  substitute (some mean) fraction (used, substituted) =
      (add used (mul mean fraction), substituted + 1)

  abbrev pub use_of : Burn N → N → List (StopFact N) → LapFact N → Option N → N × ℕ → N × ℕ
  use_of burn rebased stops lap (some litres) (used, substituted) = (add used litres, substituted)
  use_of burn rebased stops lap none total =
      substitute burn.mean (fraction_of burn rebased stops (lap_window number arithmetic lap)) total

  -- The loop over the laps.
  unfoldable pub used_since : Burn N → N → List (StopFact N) → List (LapFact N) → N × ℕ → N × ℕ
  unfolding driven_seconds lap_window
  used_since burn rebased stops [] total = total
  used_since burn rebased stops (lap ∷ laps) total = used_since burn rebased stops laps (
      if le_n lap.crossed_at rebased
      then total
      else use_of burn rebased stops lap (measured lap) total)

  -- `burn.sd or (burn.mean or 0.0) * 0.25`
  abbrev pub spread_per_lap : Burn N → N
  spread_per_lap burn = reference_of burn.sd (mul (or_else burn.mean (of_ℕ 0)) arithmetic.quarter)

  -- The fuel with its lower and its upper bound.
  pub record Fuel : Type 0 where
    pub remaining : N
    pub lo : N
    pub hi : N

  abbrev pub around : N → N → Fuel
  around level spread = record { remaining = level; lo = sub level spread; hi = add level spread }

  abbrev pub burned : Rebase N → Burn N → N → N × ℕ → Fuel
  burned r burn level (used, substituted) =
      around (sub level used)
        (add (uncertainty r.confidence) (mul (of_ℕ substituted) (spread_per_lap burn)))

  abbrev pub is_moving : Confidence → Bool
  is_moving moving = true
  is_moving _ = false

  -- `_fuel_remaining`
  unfoldable pub fuel_remaining :
      Rebase N → List (LapFact N) → List (StopFact N) → Burn N → Option Fuel
  unfolding used_since
  fuel_remaining r laps stops burn = elim r.level_l [
    | none ↦ none
    | some level ↦ elim r.at [
      | none ↦ none
      | some at ↦
          if is_moving r.confidence
          then some (around level (uncertainty r.confidence))
          else some (burned r burn level (used_since burn at stops laps (of_ℕ 0, 0)))
    ]
  ]
