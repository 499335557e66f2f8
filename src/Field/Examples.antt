-- ===== src/Field/Examples.antt =====
-- Two cars in a full table, a part of it in which one completes a lap, and a table of other cars.
use openlaps.Common.{
  ℕ, ◌≡◌, refl, String, true, false, Option, none, some, List, [], ◌∷◌, map, string_eq, nat_eq,
  if◌then◌else◌, ◌==◌,
}
use openlaps.Common.Dict.{lookup, insert}
use openlaps.Common.Int.{int_eq_instance, ℤ, pos}
use openlaps.Common.Number.{whole}
use openlaps.Common.Result.{Result, ok, err}
use openlaps.Field.{
  Element, element, no_more, more, iter, Raised, Words, CarRow, LapRow, FieldState, same_car,
  text_of, int_of_text, sum_parts, seconds_of_text,
}
use openlaps.Field.Diff.{lap_row, start_epoch, diff_rows, diff}
use openlaps.Field.Competitors.{car_state, driver_name}
use openlaps.Field.Documents.{
  update_all, details, incoming_lines, merge_lines, insert_line, sort_lines, car_row, car_rows,
  rows_from_lines,
}
use openlaps.Field.Mirror.{Reader, Table}
use openlaps.Field.Feed.{run}
use openlaps.Field.Apply.{Batch, leaderboard, apply_element, apply_elements, apply_document}

abbrev car : String → ℕ → CarRow ℕ
car number laps = record {
  time = 0;
  source = "feed";
  epoch = 0;
  car_number = number;
  competitor_id = none;
  car_class = none;
  position = none;
  class_position = none;
  laps = some (pos laps);
  last_lap_s = none;
  best_lap_s = none;
  gap_lead_s = none;
  gap_next_s = none;
  sec1_s = none;
  sec2_s = none;
  sec3_s = none;
  pit_count = none;
  in_pit = none;
  pit_flag = none;
  driver = none;
  state = none;
}

abbrev empty_field : FieldState ℕ
empty_field = record {
  source = "feed";
  competitors = [];
  lines = [];
  cars = [];
  session = none;
  epoch = none;
  documents = 0;
  unknown_tags = [];
}

abbrev tables : List (Table ℕ)
tables =
    record { rows = car "7" 3 ∷ car "8" 3 ∷ []; at = 10; full = true }
    ∷ record { rows = car "7" 4 ∷ car "8" 3 ∷ []; at = 11; full = false }
    ∷ record { rows = car "9" 0 ∷ []; at = 12; full = true }
    ∷ []

abbrev nobody : Reader ℕ
nobody = record { epoch = none; cars = [] }

abbrev lap_told : LapRow ℕ → String × ℤ
lap_told lap = (lap.car_number, lap.lap_number)

laps_told : map lap_told (run whole empty_field tables).1.1 ≡ ("7", pos 4) ∷ []
unfolding run diff diff_rows start_epoch lap_row same_car lookup insert
laps_told = refl

abbrev number_text : String → Option ℤ
number_text s = if s == "1" then some (pos 1) else if s == "5" then some (pos 5) else none

abbrev same_text : String → String
same_text s = s

abbrev words : Words ℕ
words = record {
  strip = same_text;
  lower = same_text;
  upper = same_text;
  to_int = number_text;
  to_float = λ s. none;
  split_colon = λ s. s ∷ [];
  int_of = λ n. some (pos n);
  of_ℤ = λ z. 0;
  digits = λ z. "0";
}

abbrev position : Element
position =
    element "Position" (("Line", "1") ∷ ("Pos", "1") ∷ ("Comp", "77") ∷ ("LastLap", "5") ∷ [])
      no_more

abbrev board : Element
board = element "Leaderboard" (("Type", "full") ∷ []) (more position no_more)

abbrev car_told : CarRow ℕ → String × Option ℤ
car_told car = (car.car_number, car.laps)

abbrev cars_told : Result Raised (Batch ℕ) → List (String × Option ℤ)
cars_told (err x) = []
cars_told (ok batch) = map car_told batch.cars

board_told :
    cars_told (apply_document whole words empty_field (some board) 20).1 ≡ ("77", some (pos 5)) ∷ []
unfolding apply_document apply_elements apply_element leaderboard incoming_lines iter details
    update_all merge_lines rows_from_lines sort_lines insert_line car_rows car_row car_state
    driver_name int_of_text seconds_of_text text_of sum_parts diff diff_rows start_epoch same_car
    lookup insert
board_told = refl
