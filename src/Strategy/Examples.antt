-- ===== src/Strategy/Examples.antt =====
-- A race of forty laps on tanks of twelve, with a stop that is over and a lap that touches it.
use openlaps.Common.{
  ℕ, ◌≡◌, refl, true, false, none, some, List, [], ◌∷◌, map, All, arith, string_eq,
}
use openlaps.Common.Dict.{lookup}
use openlaps.Common.Int.{pos}
use openlaps.Common.Number.{whole}
use openlaps.Strategy.{PlanFacts, LapFact, StopFact, StrategyPolicy, Arithmetic}
use openlaps.Strategy.Burn.{
  Burn, lap_window, any_touches, touches_pits, is_candidate, candidates_of, within_ceiling,
  clean_laps,
}
use openlaps.Strategy.Fuel.{Rebase, key_on, Fuel, used_since, fuel_remaining}
use openlaps.Strategy.Stops.{
  Stop, planned_lap_of, remaining_planned, can, by_fuel, refuels, stop_of, walk_after, goes_on,
  walk, stop_plan,
}
use openlaps.Strategy.Stops.Legs.{Covers, stop_plan-Covers}
use openlaps.Strategy.Overlap.{IsTotal, IsClean, clean_laps-IsClean}
use openlaps.Strategy.Bracket.{IsOrdered, IsBracket, fuel_remaining-IsBracket}

abbrev first_of : List ℕ → ℕ
first_of [] = 0
first_of (x ∷ xs) = x

abbrev arithmetic : Arithmetic ℕ
arithmetic = record {
  floor = λ x. pos x;
  ceil = λ x. pos x;
  trunc = λ x. pos x;
  median = first_of;
  fmean = first_of;
  stdev = λ xs. 0;
  tenths = λ n. n;
  quarter = 0;
}

abbrev plan : PlanFacts ℕ
plan = record {
  revision = 1;
  race_end_at = none;
  race_end_laps = some 40;
  end_authority = "laps";
  tank_l = 60;
  usable_fuel_l = 60;
  refuel_min_s = 300;
  service_typical_s = 60;
  driver_limits = [];
  planned_stops =
      record { type = "refuel"; at_lap = some 10; at_ms = none; driver_in = some "anna" } ∷ [];
}

abbrev policy : StrategyPolicy ℕ
policy = record {
  burn_window_laps = 5;
  burn_sigma = 2;
  outlier_fraction = 1;
  driver_margin_s = 600;
  plan_drift_laps = 3;
  short_fill_fraction = 0;
  window_warn_laps = 2;
  max_simulated_stops = 50;
}

abbrev lap_of_stop : Stop ℕ → ℕ
lap_of_stop stop = stop.lap

-- Forty laps to go with fuel for nine, then for twelve.
stops_of_plan :
    map lap_of_stop (stop_plan whole arithmetic plan 0 (some 40) 9 12 100 none 0 policy)
    ≡ 9 ∷ 21 ∷ 33 ∷ []
unfolding stop_plan walk goes_on stop_of walk_after can by_fuel refuels planned_lap_of
    remaining_planned lookup
stops_of_plan = refl

stop_plan-Covers_example :
    Covers 12 40 50 9 0 (stop_plan whole arithmetic plan 0 (some 40) 9 12 100 none 0 policy)
stop_plan-Covers_example =
    stop_plan-Covers whole arithmetic plan 0 40 9 12 100 none 0 policy refl refl (λ y n. refl)

whole-IsTotal : IsTotal whole
whole-IsTotal = record { from_lt = λ a b h. ground (arith, h); total = λ a b h. ground (arith, h) }

whole-IsOrdered : IsOrdered whole arithmetic
whole-IsOrdered = record {
  sub_le = λ x s h. ground (arith, h);
  le_add = λ x s h. ground (arith, h);
  add = λ x y h k. ground (arith, h, k);
  mul = λ x y h k. ground (arith, h, k);
  whole = λ n. ground arith;
  from_lt = λ x h. ground (arith, h);
  tenths = λ n. ground arith;
  quarter = refl;
}

abbrev raced : ℕ → ℕ → LapFact ℕ
raced number at = record {
  lap_number = number;
  crossed_at = at;
  lap_time_s = some 100;
  valid = true;
  pit_status = some "track";
  fuel_used_l = some 5;
  measurement_status = "clean";
}

abbrev pit_stop : StopFact ℕ
pit_stop = record { entry_at = 250; exit_at = some 290; is_open = false; stop_type = "refuel" }

abbrev laps : List (LapFact ℕ)
laps = raced 1 100 ∷ raced 2 200 ∷ raced 3 300 ∷ raced 4 400 ∷ []

abbrev number_of : LapFact ℕ → ℕ
number_of lap = lap.lap_number

clean_numbers :
    map number_of (clean_laps whole arithmetic laps (pit_stop ∷ []) policy) ≡ 1 ∷ 2 ∷ 4 ∷ []
unfolding clean_laps candidates_of within_ceiling is_candidate touches_pits lap_window any_touches
clean_numbers = refl

clean_laps-IsClean_example :
    All
      (IsClean whole arithmetic (pit_stop ∷ []))
      (clean_laps whole arithmetic laps (pit_stop ∷ []) policy)
clean_laps-IsClean_example =
    clean_laps-IsClean whole arithmetic whole-IsTotal laps (pit_stop ∷ []) policy

abbrev burn : Burn ℕ
burn = record {
  mean = some 5;
  sd = none;
  laps = 3;
  lap_time_s = some 100;
  lo = some 5;
  hi = some 5;
}

abbrev filled : Rebase ℕ
filled = record { level_l = some 60; at = some 290; confidence = key_on; fuel_added_l = none }

fuel_left :
    (f : Fuel whole arithmetic) × (fuel_remaining whole arithmetic filled laps (pit_stop ∷ []) burn
      ≡ some f)
    × (f.remaining ≡ 50)
unfolding fuel_remaining used_since
fuel_left = (_, refl, refl)

fuel_remaining-IsBracket_example : IsBracket whole arithmetic whole-IsOrdered 60 fuel_left.0
fuel_remaining-IsBracket_example =
    fuel_remaining-IsBracket whole arithmetic whole-IsOrdered filled laps (pit_stop ∷ []) burn 60
      fuel_left.0 (λ x e. ground arith) (λ x e. ground arith)
      (
        (λ x e. ground arith),
        ((λ x e. ground arith), ((λ x e. ground arith), ((λ x e. ground arith), tt))),
      )
      refl fuel_left.1
