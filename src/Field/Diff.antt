-- ===== src/Field/Diff.antt =====
-- src/pit/timing_feed/model.py (FieldState._diff): the rows that changed, and the laps that they tell of.
use openlaps.Common.{
  String, Bool, true, false, not, ◌&&◌, ◌||◌, Option, none, some, List, [], ◌∷◌, ◌++◌,
  if◌then◌else◌, ◌==◌, string_eq,
}
use openlaps.Common.Dict.{Dict, lookup, insert}
use openlaps.Common.Int.{int_lt, ℤ, pos}
use openlaps.Common.Number.{Number}
use openlaps.Field.{FieldState, SessionRow, CarRow, LapRow, same_car}

abbrev pub contains : List String → String → Bool
contains [] c = false
contains (d ∷ ds) c = d == c || contains ds c

abbrev pub all_in : List String → List String → Bool
all_in [] ds = true
all_in (c ∷ cs) ds = contains ds c && all_in cs ds

abbrev pub or_zero : Option ℤ → ℤ
or_zero none = pos 0
or_zero (some n) = n

abbrev pub is_none : {A : Type 0} → Option A → Bool
is_none none = true
is_none (some a) = false

-- The count of the row is greater than the one held.
abbrev pub laps_more : Option ℤ → Option ℤ → Bool
laps_more (some now) (some before) = int_lt before now
laps_more _ _ = false

module _ {N : Type 0} where
  abbrev pub numbers : List (CarRow N) → List String
  numbers [] = []
  numbers (row ∷ rows) = row.car_number ∷ numbers rows

  abbrev pub keys : Dict String (CarRow N) → List String
  keys [] = []
  keys ((k, row) ∷ cars) = k ∷ keys cars

  abbrev pub flag_of : Option (SessionRow N) → Option String
  flag_of none = none
  flag_of (some session) = session.flag_state

  abbrev pub sub_of : Option (SessionRow N) → Option String
  sub_of none = none
  sub_of (some session) = session.sub_status

  -- `_lap`
  unfoldable pub lap_row : String → Option (SessionRow N) → CarRow N → LapRow N
  lap_row source session row = record {
    time = row.time;
    source = source;
    car_number = row.car_number;
    competitor_id = row.competitor_id;
    lap_number = or_zero row.laps;
    lap_time_s = row.last_lap_s;
    position = row.position;
    class_position = row.class_position;
    gap_lead_s = row.gap_lead_s;
    gap_next_s = row.gap_next_s;
    pit_count = row.pit_count;
    sec1_s = row.sec1_s;
    sec2_s = row.sec2_s;
    sec3_s = row.sec3_s;
    flag_state = flag_of session;
    sub_status = sub_of session;
  }

  -- `numbers != set(self.cars)`
  abbrev pub other_cars : List (CarRow N) → Dict String (CarRow N) → Bool
  other_cars rows cars =
      not (all_in (numbers rows) (keys cars) && all_in (keys cars) (numbers rows))

  -- A full standings table of other cars starts an epoch.
  unfoldable pub start_epoch : FieldState N → List (CarRow N) → N → Bool → FieldState N
  start_epoch f rows at full =
      if full && (is_none f.epoch || other_cars rows f.cars)
      then record f { epoch = some at; cars = [] }
      else f

  abbrev pub epoch_or : Option N → N → N
  epoch_or none at = at
  epoch_or (some e) at = e

  -- The rows and the laps of one car, before those of the rest.
  abbrev pub emit :
      List (CarRow N)
      → List (LapRow N)
      → List (CarRow N) × List (LapRow N)
      → List (CarRow N) × List (LapRow N)
  emit rows laps (more_rows, more_laps) = (rows ++ more_rows, laps ++ more_laps)

module _ (number : Number) where
  open number use {N}

  -- Has the row changed against the one that was last emitted?
  abbrev pub changed : CarRow N → Option (CarRow N) → Bool
  changed row none = true
  changed row (some previous) = not (same_car number row previous)

  abbrev pub laps_of :
      String → Option (SessionRow N) → CarRow N → Option (CarRow N) → List (LapRow N)
  laps_of source session row none = []
  laps_of source session row (some previous) =
      if laps_more row.laps previous.laps then lap_row source session row ∷ [] else []

  -- The loop of `_diff`.
  unfoldable pub diff_rows :
      FieldState N → List (CarRow N) → N → FieldState N × (List (CarRow N) × List (LapRow N))
  unfolding lookup insert lap_row same_car
  diff_rows f [] at = (f, ([], []))
  diff_rows f (car ∷ rows) at =
      let row = record car { epoch = epoch_or f.epoch at } in
      let previous = lookup row.car_number f.cars in
      let is_changed = changed row previous in
      let (f', out) =
        diff_rows (if is_changed then record f { cars = insert row.car_number row f.cars } else f)
          rows at in
      (
        f',
        if is_changed then emit (row ∷ []) (laps_of f.source f.session row previous) out else out,
      )

  -- `_diff`
  unfoldable pub diff :
      FieldState N → List (CarRow N) → N → Bool → FieldState N × (List (CarRow N) × List (LapRow N))
  unfolding start_epoch diff_rows
  diff f rows at full = diff_rows (start_epoch f rows at full) rows at
