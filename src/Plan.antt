-- ===== src/Plan.antt =====
-- src/pit/session_control/plan.py: the validation of a race plan. The body is a decoded JSON object;
-- `Floats` is what Python does with its numbers.
pub mod Validate
pub mod Sound
mod Examples
use openlaps.Common.{
  ℕ, suc, String, Bool, true, false, not, ◌&&◌, ◌||◌, Option, none, some, List, [], ◌∷◌, ltb, take,
  length, if◌then◌else◌, ◌==◌, string_eq,
}
use openlaps.Common.Dict.{Dict, insert}
use openlaps.Common.Int.{ℤ, pos, negsuc}
use openlaps.Common.Json.{
  Json, Items, Members, get, null, bool, int, float, str, arr, obj, end, member,
}
use openlaps.Common.Number.{Number}
use openlaps.Common.Checked.{◌>>=◌, ◌>>◌, raise_if}
use openlaps.Common.Result.{Result, ok, err}
use openlaps.Common.Text.{Text, codes, text_beq, strip}

-- The `PlanError`s by their message, and the `OverflowError` of `float`.
pub data Error : Type 0 where
  required not_number not_finite not_whole not_text : Error
  no_end laps_not_positive bad_authority end_missing : Error
  tank_not_positive usable_not_positive usable_exceeds_tank negative_duration : Error
  limits_not_object unknown_limit negative_limit : Error
  stops_not_list too_many_stops stop_not_object bad_stop_type not_one_place lap_not_positive : Error
  overflow_error : Error

-- `float(n)` of an int, `math`'s tests of a float, `int(x)` of a whole one.
pub record Floats (N : Type 0) : Type 0 where
  pub of_int : ℤ → Result Error N
  pub is_finite : N → Bool
  pub is_integer : N → Bool
  pub to_int : N → ℤ

pub data StopType : Type 0 where
  refuel service : StopType

pub data Authority : Type 0 where
  time laps : Authority

pub record PlannedStop : Type 0 where
  pub type : StopType
  pub at_lap : Option ℤ
  pub at_ms : Option ℤ
  pub driver_in : Option Text

pub record RaceEnd : Type 0 where
  pub race_end_at_ms : Option ℤ
  pub race_end_laps : Option ℤ
  pub end_authority : Authority

pub record Fuel (N : Type 0) : Type 0 where
  pub tank_l : N
  pub usable_fuel_l : N

pub record Durations : Type 0 where
  pub refuel_min_s : ℤ
  pub service_typical_s : ℤ

-- `RacePlan`, its fields in the groups in which they are checked.
pub record RacePlan (N : Type 0) : Type 0 where
  pub race_end : RaceEnd
  pub fuel : Fuel N
  pub durations : Durations
  pub driver_limits : Dict String ℤ
  pub planned_stops : List PlannedStop
  pub car_number : Option Text
  pub updated_by : Option Text

abbrev pub max_stops : ℕ
max_stops = 50

abbrev pub max_text : ℕ
max_text = 80

-- `n < 0` and `n <= 0`
abbrev pub is_negative : ℤ → Bool
is_negative (pos n) = false
is_negative (negsuc n) = true

abbrev pub not_positive : ℤ → Bool
not_positive (pos n) = not (ltb 0 n)
not_positive (negsuc n) = true

abbrev pub any_not_positive : Option ℤ → Bool
any_not_positive none = false
any_not_positive (some n) = not_positive n

abbrev pub is_none : {A : Type 0} → Option A → Bool
is_none none = true
is_none (some a) = false

-- `value.strip()[:_MAX_TEXT] or None`
abbrev pub or_none : Text → Option Text
or_none [] = none
or_none (c ∷ cs) = some (c ∷ cs)

unfoldable pub is_limit_key : String → Bool
is_limit_key key = key == "max_continuous_min" || key == "max_total_min" || key == "min_rest_min"

-- Is the end that the authority goes by missing?
abbrev pub end_is_missing : Authority → Option ℤ → Option ℤ → Bool
end_is_missing time at_ms at_laps = is_none at_ms
end_is_missing laps at_ms at_laps = is_none at_laps

abbrev pub xor_none : Option ℤ → Option ℤ → Bool
xor_none none (some n) = true
xor_none (some n) none = true
xor_none _ _ = false

module _ {N : Type 0} where
  -- `value is None or value == ""`, where a missing member is `None`.
  abbrev pub present : Option (Json N) → Option (Json N)
  present (some null) = none
  present (some (str [])) = none
  present value = value

  abbrev pub text_value : Option (Json N) → Result Error (Option Text)
  text_value none = ok none
  text_value (some (str t)) = ok (or_none (take max_text (strip t)))
  text_value (some _) = err not_text

  unfoldable pub text : Option (Json N) → Result Error (Option Text)
  text value = text_value (present value)

  abbrev pub as_authority : Option (Json N) → Option ℤ → Result Error Authority
  as_authority none at_ms = ok (if is_none at_ms then laps else time)
  as_authority (some (str t)) at_ms =
      if text_beq t (codes "time")
      then ok time
      else if text_beq t (codes "laps")
      then ok laps
      else err bad_authority
  as_authority (some _) at_ms = err bad_authority

  abbrev pub stop_type : Option (Json N) → Result Error StopType
  stop_type (some (str t)) =
      if text_beq t (codes "refuel")
      then ok refuel
      else if text_beq t (codes "service")
      then ok service
      else err bad_stop_type
  stop_type _ = err bad_stop_type

  abbrev pub as_object : Option (Json N) → Result Error (Members N)
  as_object none = ok end
  as_object (some null) = ok end
  as_object (some (obj members)) = ok members
  as_object (some _) = err limits_not_object

  abbrev pub as_list : Option (Json N) → Result Error (Items N)
  as_list none = ok Items.[]
  as_list (some null) = ok Items.[]
  as_list (some (arr items)) = ok items
  as_list (some _) = err stops_not_list

  abbrev pub count : Items N → ℕ
  count Items.[] = 0
  count (Items.◌∷◌ x xs) = suc (count xs)
