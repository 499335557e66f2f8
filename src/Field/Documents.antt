-- ===== src/Field/Documents.antt =====
-- src/pit/timing_feed/model.py (FieldState): what each document does to the state. A method returns the state, which
-- keeps what was written before an exception, and its result.
use openlaps.Common.{
  ℕ, suc, String, Option, none, some, List, [], ◌∷◌, if◌then◌else◌, ◌==◌, string_eq, nat_eq,
}
use openlaps.Common.Dict.{Dict, lookup, insert}
use openlaps.Common.Int.{int_lt, int_eq_instance, ℤ}
use openlaps.Common.Number.{Number}
use openlaps.Common.Result.{Result, ok, ◌>>=◌}
use openlaps.Field.{
  Element, attributes_of, iter, Raised, Words, CarRow, Competitor, FieldState, text_of, int_of_text,
  seconds_of_text,
}
use openlaps.Field.Diff.{is_none, epoch_or}
use openlaps.Field.Competitors.{same_class, or_text, is_text, attribute, car_state, driver_name}

module _ (number : Number) (words : Words number.N) where
  open number use {N, of_ℕ, lt_n, eq_n}

  -- `attributes.update(...)`
  unfoldable pub update_all : Dict String String → Dict String String → Dict String String
  unfolding insert
  update_all attributes [] = attributes
  update_all attributes ((k, v) ∷ more) = update_all (insert k v attributes) more

  abbrev without_driver : Dict String String → Dict String String
  without_driver [] = []
  without_driver ((k, v) ∷ more) =
      let rest = without_driver more in if k == "Driv" then rest else (k, v) ∷ rest

  -- `detail.get("Driv") or "All"`
  abbrev driver_or_all : Option String → String
  driver_or_all none = "All"
  driver_or_all (some s) = if s == "" then "All" else s

  unfoldable pub details : Dict String String → List Element → Dict String String
  unfolding update_all lookup
  details attributes [] = attributes
  details attributes (d ∷ ds) =
      details
        (if driver_or_all (attribute d "Driv") == "All"
          then update_all attributes (without_driver (attributes_of d))
          else attributes)
        ds

  -- The lines of a leaderboard.
  unfoldable pub incoming_lines :
      List Element → Dict ℤ (Dict String String) → Result Raised (Dict ℤ (Dict String String))
  unfolding int_of_text insert details iter lookup
  incoming_lines [] lines = ok lines
  incoming_lines (p ∷ ps) lines = int_of_text number words (attribute p "Line") >>= λ line.
      elim line [
        | none ↦ incoming_lines ps lines
        | some n ↦ incoming_lines ps (insert n (details (attributes_of p) (iter "Detail" p)) lines)
      ]

  abbrev or_nil : Option (Dict String String) → Dict String String
  or_nil none = []
  or_nil (some attributes) = attributes

  -- `self._lines.setdefault(line, {}).update(attributes)` for each line.
  unfoldable pub merge_lines :
      Dict ℤ (Dict String String) → Dict ℤ (Dict String String) → Dict ℤ (Dict String String)
  unfolding lookup insert update_all
  merge_lines lines [] = lines
  merge_lines lines ((n, attributes) ∷ more) =
      merge_lines (insert n (update_all (or_nil (lookup n lines)) attributes) lines) more

  -- `sorted(self._lines)`
  unfoldable pub insert_line :
      ℤ × Dict String String → List (ℤ × Dict String String) → List (ℤ × Dict String String)
  insert_line l [] = l ∷ []
  insert_line (n, a) ((m, b) ∷ rest) =
      let later = insert_line (n, a) rest in
      if int_lt m n then (m, b) ∷ later else (n, a) ∷ (m, b) ∷ rest

  unfoldable pub sort_lines : Dict ℤ (Dict String String) → List (ℤ × Dict String String)
  unfolding insert_line
  sort_lines [] = []
  sort_lines (l ∷ ls) = insert_line l (sort_lines ls)

  abbrev class_of : Option Competitor → Option String
  class_of none = none
  class_of (some c) = c.car_class

  abbrev number_of : Option Competitor → Option String → ℤ → String
  number_of (some c) id line = c.number
  number_of none none line = words.digits line
  number_of none (some id) line = if id == "" then words.digits line else id

  abbrev driver_of : Option Competitor → Option String → Option String
  driver_of none id = none
  driver_of (some c) id = driver_name number words c id

  -- How many cars of the class have been placed.
  abbrev placed : Option String → List (Option String) → ℕ
  placed c [] = 0
  placed c (d ∷ ds) = if same_class d c then suc (placed c ds) else placed c ds

  -- One car's row; `before` lists the classes of the cars placed before it.
  unfoldable pub car_row :
      FieldState N → N → List (Option String) → ℤ → Dict String String → Result Raised (CarRow N)
  unfolding lookup int_of_text seconds_of_text text_of car_state driver_name
  car_row f at before line attributes =
      let get = λ (name : String). lookup name attributes in
      let seconds = λ (name : String). seconds_of_text number words (lookup name attributes) in
      let id = get "Comp" in
      let competitor = lookup (or_text id "") f.competitors in
      let car_class = class_of competitor in
      let pit_flag = text_of number words (get "PitLaneFlag") in
      let in_pit = is_text pit_flag "P" in
      int_of_text number words (get "Pos") >>= λ position.
      int_of_text number words (get "LastLap") >>= λ laps.
      int_of_text number words (get "PitStops") >>= λ pit_count.
      car_state number words (get "Pos") in_pit (get "OutLap") >>= λ state. ok (record {
        time = at;
        source = f.source;
        epoch = epoch_or f.epoch at;
        car_number = number_of competitor id line;
        competitor_id = id;
        car_class = car_class;
        position = position;
        class_position = if is_none position then none else some (suc (placed car_class before));
        laps = laps;
        last_lap_s = seconds "LastTime";
        best_lap_s = seconds "FastTime";
        gap_lead_s = seconds "GapLeadTime";
        gap_next_s = seconds "GapNextTime";
        sec1_s = seconds "LastSec1Time";
        sec2_s = seconds "LastSec2Time";
        sec3_s = seconds "LastSec3Time";
        pit_count = pit_count;
        in_pit = some in_pit;
        pit_flag = pit_flag;
        driver = driver_of competitor (get "Driv");
        state = state;
      })

  abbrev placed_after : CarRow N → List (Option String) → List (Option String)
  placed_after row before = if is_none row.position then before else row.car_class ∷ before

  unfoldable pub car_rows :
      FieldState N
      → N
      → List (Option String)
      → List (ℤ × Dict String String)
      → Result Raised (List (CarRow N))
  unfolding car_row
  car_rows f at before [] = ok []
  car_rows f at before ((line, attributes) ∷ lines) = car_row f at before line attributes >>= λ row.
      car_rows f at (placed_after row before) lines >>= λ rows. ok (row ∷ rows)

  -- `_rows_from_lines`
  unfoldable pub rows_from_lines : FieldState N → N → Result Raised (List (CarRow N))
  unfolding car_rows sort_lines
  rows_from_lines f at = car_rows f at [] (sort_lines f.lines)
