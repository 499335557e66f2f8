-- ===== src/Plan/Examples.antt =====
-- A plan for a race of six hours with one refuelling stop, and what a second place for the stop does.
use openlaps.Common.{ℕ, ◌≡◌, refl, true, none, some, [], ◌∷◌, string_eq}
use openlaps.Common.Int.{ℤ, pos, negsuc}
use openlaps.Common.Json.{Items, Members, get, str, int, arr, obj, end, member}
use openlaps.Common.Number.{whole}
use openlaps.Common.Result.{ok, err}
use openlaps.Common.Checked.{◌>>=◌, ◌>>◌, raise_if}
use openlaps.Common.Text.{codes}
use openlaps.Plan.{not_one_place, Floats, RacePlan, time, refuel, text}
use openlaps.Plan.Validate.{
  optional_number, optional_integer, required_number, required_integer, parse_end, parse_fuel,
  parse_durations, parse_limits, parse_stop, parse_stops, validate_plan,
}
use openlaps.Plan.Sound.{IsPlan, validate_plan-IsPlan}

abbrev to_nat : ℤ → ℕ
to_nat (pos n) = n
to_nat (negsuc n) = 0

abbrev exact : Floats ℕ
exact = record {
  of_int = λ n. ok (to_nat n);
  is_finite = λ x. true;
  is_integer = λ x. true;
  to_int = pos;
}

abbrev body : Members ℕ → Members ℕ
body stop = member "race_end_at_ms" (int (pos 21_600_000)) (
    member "tank_l" (int (pos 80)) (
      member "usable_fuel_l" (int (pos 75)) (
        member "refuel_min_s" (int (pos 300)) (
          member "service_typical_s" (int (pos 90))
            (member "planned_stops" (arr (Items.◌∷◌ (obj stop) Items.[])) end)))))

abbrev one_stop : Members ℕ
one_stop = member "type" (str (codes "refuel")) (member "at_lap" (int (pos 60)) end)

abbrev plan : RacePlan ℕ
plan = record {
  race_end = record {
    race_end_at_ms = some (pos 21_600_000);
    race_end_laps = none;
    end_authority = time;
  };
  fuel = record { tank_l = 80; usable_fuel_l = 75 };
  durations = record { refuel_min_s = pos 300; service_typical_s = pos 90 };
  driver_limits = [];
  planned_stops =
      record { type = refuel; at_lap = some (pos 60); at_ms = none; driver_in = none } ∷ [];
  car_number = none;
  updated_by = none;
}

body-plan : validate_plan whole exact (body one_stop) ≡ ok plan
unfolding validate_plan parse_end parse_fuel parse_durations parse_limits parse_stops parse_stop
    text optional_number optional_integer required_number required_integer get ◌>>=◌ ◌>>◌ raise_if
body-plan = refl

two_places :
    validate_plan whole exact (body (member "at_ms" (int (pos 5)) one_stop)) ≡ err not_one_place
unfolding validate_plan parse_end parse_fuel parse_durations parse_limits parse_stops parse_stop
    text optional_number optional_integer required_number required_integer get ◌>>=◌ ◌>>◌ raise_if
two_places = refl

validate_plan-IsPlan_example : IsPlan whole exact plan
validate_plan-IsPlan_example = validate_plan-IsPlan whole exact (body one_stop) plan body-plan
