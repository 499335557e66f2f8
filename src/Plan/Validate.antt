-- ===== src/Plan/Validate.antt =====
-- The groups of fields that `validate_plan` checks, in its order.
use openlaps.Common.{
  String, not, ◌&&◌, ◌||◌, Option, none, some, List, [], ◌∷◌, ltb, if◌then◌else◌, string_eq,
}
use openlaps.Common.Dict.{Dict, insert}
use openlaps.Common.Int.{ℤ}
use openlaps.Common.Json.{Json, Items, Members, get, int, float, obj, end, member}
use openlaps.Common.Number.{Number}
use openlaps.Common.Checked.{◌>>=◌, ◌>>◌, raise_if}
use openlaps.Common.Result.{Result, ok, err}
use openlaps.Plan.{
  Error, Floats, PlannedStop, RaceEnd, Fuel, Durations, RacePlan, max_stops, is_negative,
  any_not_positive, is_none, is_limit_key, end_is_missing, xor_none, present, text, as_authority,
  stop_type, as_object, as_list, count, required, not_number, not_finite, not_whole, no_end,
  laps_not_positive, end_missing, tank_not_positive, usable_not_positive, usable_exceeds_tank,
  negative_duration, unknown_limit, negative_limit, too_many_stops, stop_not_object, not_one_place,
  lap_not_positive,
}

module _ (number : Number) (floats : Floats number.N) where
  open number use {N, of_ℕ, lt_n, le_n}

  abbrev pub number_value : Option (Json N) → Result Error (Option N)
  number_value none = ok none
  number_value (some (int n)) = do x ← floats.of_int n; ok (some x)
  number_value (some (float x)) = if floats.is_finite x then ok (some x) else err not_finite
  number_value (some _) = err not_number

  -- `_number(body, key, required=False)`, of the member's value.
  unfoldable pub optional_number : Option (Json N) → Result Error (Option N)
  optional_number value = number_value (present value)

  abbrev pub whole_value : Option N → Result Error (Option ℤ)
  whole_value none = ok none
  whole_value (some x) = if floats.is_integer x then ok (some (floats.to_int x)) else err not_whole

  unfoldable pub optional_integer : Option (Json N) → Result Error (Option ℤ)
  unfolding optional_number
  optional_integer value = do x ← optional_number value; whole_value x

  abbrev pub is_required : {A : Type 0} → Option A → Result Error A
  is_required none = err required
  is_required (some a) = ok a

  unfoldable pub required_number : Option (Json N) → Result Error N
  unfolding optional_number
  required_number value = do x ← optional_number value; is_required x

  unfoldable pub required_integer : Option (Json N) → Result Error ℤ
  unfolding optional_integer
  required_integer value = do n ← optional_integer value; is_required n

  unfoldable pub parse_end : Members N → Result Error RaceEnd
  unfolding optional_integer get
  parse_end body = do
    at_ms ← optional_integer (get body "race_end_at_ms")
    at_laps ← optional_integer (get body "race_end_laps")
    raise_if (is_none at_ms && is_none at_laps) no_end
    raise_if (any_not_positive at_laps) laps_not_positive
    authority ← as_authority (present (get body "end_authority")) at_ms
    raise_if (end_is_missing authority at_ms at_laps) end_missing
    ok (record { race_end_at_ms = at_ms; race_end_laps = at_laps; end_authority = authority })

  unfoldable pub parse_fuel : Members N → Result Error (Fuel N)
  unfolding required_number get
  parse_fuel body = do
    tank_l ← required_number (get body "tank_l")
    usable_fuel_l ← required_number (get body "usable_fuel_l")
    raise_if (le_n tank_l (of_ℕ 0)) tank_not_positive
    raise_if (le_n usable_fuel_l (of_ℕ 0)) usable_not_positive
    raise_if (lt_n tank_l usable_fuel_l) usable_exceeds_tank
    ok (record { tank_l = tank_l; usable_fuel_l = usable_fuel_l })

  unfoldable pub parse_durations : Members N → Result Error Durations
  unfolding required_integer get
  parse_durations body = do
    refuel_min_s ← required_integer (get body "refuel_min_s")
    service_typical_s ← required_integer (get body "service_typical_s")
    raise_if (is_negative refuel_min_s || is_negative service_typical_s) negative_duration
    ok (record { refuel_min_s = refuel_min_s; service_typical_s = service_typical_s })

  -- A limit that is `None` or empty is left out.
  abbrev pub add_limit : String → Option ℤ → Dict String ℤ → Result Error (Dict String ℤ)
  add_limit key none limits = ok limits
  add_limit key (some minutes) limits = do
    raise_if (is_negative minutes) negative_limit
    ok (insert key minutes limits)

  unfoldable pub parse_limits : Members N → Dict String ℤ → Result Error (Dict String ℤ)
  unfolding optional_integer insert is_limit_key
  parse_limits end limits = ok limits
  parse_limits (member key value rest) limits = do
    raise_if (not (is_limit_key key)) unknown_limit
    minutes ← optional_integer (some value)
    limits' ← add_limit key minutes limits
    parse_limits rest limits'

  unfoldable pub parse_stop : Json N → Result Error PlannedStop
  unfolding optional_integer text get
  parse_stop (obj raw) = do
    type ← stop_type (get raw "type")
    at_lap ← optional_integer (get raw "at_lap")
    at_ms ← optional_integer (get raw "at_ms")
    raise_if (not (xor_none at_lap at_ms)) not_one_place
    raise_if (any_not_positive at_lap) lap_not_positive
    driver_in ← text (get raw "driver_in")
    ok (record { type = type; at_lap = at_lap; at_ms = at_ms; driver_in = driver_in })
  parse_stop _ = err stop_not_object

  unfoldable pub parse_stops : Items N → Result Error (List PlannedStop)
  unfolding parse_stop
  parse_stops Items.[] = ok []
  parse_stops (Items.◌∷◌ raw rest) = do
    stop ← parse_stop raw
    stops ← parse_stops rest
    ok (stop ∷ stops)

  unfoldable pub validate_plan : Members N → Result Error (RacePlan N)
  unfolding parse_end parse_fuel parse_durations parse_limits parse_stops text get
  validate_plan body = do
    race_end ← parse_end body
    fuel ← parse_fuel body
    durations ← parse_durations body
    limits_raw ← as_object (get body "driver_limits")
    driver_limits ← parse_limits limits_raw []
    stops_raw ← as_list (get body "planned_stops")
    raise_if (ltb max_stops (count stops_raw)) too_many_stops
    planned_stops ← parse_stops stops_raw
    car_number ← text (get body "car_number")
    updated_by ← text (get body "updated_by")
    ok (record {
      race_end = race_end;
      fuel = fuel;
      durations = durations;
      driver_limits = driver_limits;
      planned_stops = planned_stops;
      car_number = car_number;
      updated_by = updated_by;
    })
