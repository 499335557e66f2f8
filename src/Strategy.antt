-- ===== src/Strategy.antt =====
-- src/pit/strategy/model.py: what an evaluation reads and gives. An instant is a number of seconds, and a stop that is
-- planned has the numbers that it names. `Arithmetic` is what Python's `math` and `statistics` give for finite numbers.
pub mod Burn
pub mod Fuel
pub mod Stops
pub mod Drivers
pub mod Window
pub mod Evaluate
pub mod Overlap
pub mod Bracket
mod Examples
use openlaps.Common.{
  ℕ, ◌-◌, String, Bool, true, false, Option, none, some, List, [], ◌∷◌, length, drop, if◌then◌else◌,
  ◌==◌, string_eq, leb,
}
use openlaps.Common.Dict.{Dict}
use openlaps.Common.Int.{ℤ, pos, negsuc}
use openlaps.Common.Number.{Number}

pub record PlannedStop (N : Type 0) : Type 0 where
  pub type : String
  pub at_lap : Option N
  pub at_ms : Option N
  pub driver_in : Option String

pub record PlanFacts (N : Type 0) : Type 0 where
  pub revision : ℕ
  pub race_end_at : Option N
  pub race_end_laps : Option ℕ
  pub end_authority : String
  pub tank_l : N
  pub usable_fuel_l : N
  pub refuel_min_s : ℕ
  pub service_typical_s : ℕ
  pub driver_limits : Dict String ℕ
  pub planned_stops : List (PlannedStop N)

pub record LapFact (N : Type 0) : Type 0 where
  pub lap_number : ℕ
  pub crossed_at : N
  pub lap_time_s : Option N
  pub valid : Bool
  pub pit_status : Option String
  pub fuel_used_l : Option N
  pub measurement_status : String

pub record StintFact (N : Type 0) : Type 0 where
  pub stint_number : ℕ
  pub driver : String
  pub started : N
  pub ended : Option N
  pub level_start_l : Option N
  pub level_end_l : Option N

pub record StopFact (N : Type 0) : Type 0 where
  pub entry_at : N
  pub exit_at : Option N
  pub is_open : Bool
  pub stop_type : String

pub record StrategyPolicy (N : Type 0) : Type 0 where
  pub burn_window_laps : ℕ
  pub burn_sigma : N
  pub outlier_fraction : N
  pub driver_margin_s : N
  pub plan_drift_laps : ℕ
  pub short_fill_fraction : N
  pub window_warn_laps : ℕ
  pub max_simulated_stops : ℕ

-- `tenths` and `quarter` are the literals of the source that are no whole numbers.
pub record Arithmetic (N : Type 0) : Type 0 where
  pub floor : N → ℤ
  pub ceil : N → ℤ
  pub trunc : N → ℤ
  pub median : List N → N
  pub fmean : List N → N
  pub stdev : List N → N
  pub tenths : ℕ → N
  pub quarter : N

-- `max(n, 0)`
abbrev pub clamp : ℤ → ℕ
clamp (pos n) = n
clamp (negsuc n) = 0

abbrev pub text_is : Option String → String → Bool
text_is none s = false
text_is (some t) s = t == s

module _ {A : Type 0} where
  abbrev pub is_some : Option A → Bool
  is_some none = false
  is_some (some a) = true

  -- `xs[-max(n, 1):]`
  abbrev pub last_of : ℕ → List A → List A
  last_of n xs = drop (length xs - (if leb n 1 then 1 else n)) xs

  abbrev pub or_else : Option A → A → A
  or_else none a = a
  or_else (some b) a = b

module _ (number : Number) where
  open number use {N, lt_n}

  -- Python's `max` and `min`, which keep the first where neither is greater.
  abbrev pub max_n : N → N → N
  max_n a b = if lt_n a b then b else a

  abbrev pub min_n : N → N → N
  min_n a b = if lt_n b a then b else a
