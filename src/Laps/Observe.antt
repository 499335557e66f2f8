-- ===== src/Laps/Observe.antt =====
-- `observe` and what it calls.
use openlaps.Common.{
  ◌+◌, Bool, true, false, ◌||◌, Option, none, some, List, [], ◌∷◌, leb, length, if◌then◌else◌,
}
use openlaps.Common.Dict.{Dict, insert}
use openlaps.Common.Int.{ℤ}
use openlaps.Common.Json.{Json, Members, get, null, int, float, obj}
use openlaps.Common.Text.{Text, codes, text_beq}
use openlaps.Laps.{
  key_eq_instance, Key, Conversion, SectorRow, LapMaterialiser, Observed, Event,
  max_buffered_sectors, drop_oldest, rows_of, without_lap, rows, as_str, note_lap, nothing, lap,
  pit, raised,
}

module _ {N : Type 0} (conversion : Conversion N) where
  -- `_as_int` and `_as_float`: no value, one, or an exception.
  abbrev pub as_int : Option (Json N) → Option (Option ℤ)
  as_int (some (int n)) = some (some n)
  as_int (some (float x)) = elim (conversion.to_int (float x)) [
    | none ↦ none
    | some n ↦ some (some n)
  ]
  as_int _ = some none

  abbrev as_float : Option (Json N) → Option (Option N)
  as_float (some (int n)) = elim (conversion.to_float (int n)) [
    | none ↦ none
    | some x ↦ some (some x)
  ]
  as_float (some (float x)) = some (some x)
  as_float _ = some none

  abbrev event_at :
      Members N → Option (Json N) → Option (Json N) → Option (Json N) → Option (Event N)
  event_at decoded (some type) (some time) (some number) = elim (conversion.to_instant time) [
    | none ↦ none
    | some at ↦ elim (conversion.to_int number) [
      | none ↦ none
      | some lap_number ↦ some (record {
        decoded = decoded;
        type = conversion.to_text type;
        at = at;
        lap_number = lap_number;
      })
    ]
  ]
  event_at decoded _ _ _ = none

  unfoldable pub parse : Option (Json N) → Option (Event N)
  unfolding get
  parse (some (obj decoded)) =
      event_at decoded (get decoded "type") (get decoded "time") (get decoded "lap_number")
  parse _ = none

  abbrev pub full : LapMaterialiser N → Bool
  full m = leb max_buffered_sectors (length m.sectors)

  abbrev pub make_room : LapMaterialiser N → Dict Key (SectorRow N)
  make_room m = if full m then drop_oldest m.sectors else m.sectors

  -- The split is read after room was made, so that an exception leaves the smaller buffer.
  abbrev pub store_sector :
      LapMaterialiser N → Event N → ℤ → Option (Option N) → LapMaterialiser N × Observed N
  store_sector m event sector none = (record m { sectors = make_room m }, raised)
  store_sector m event sector (some split) = (
    record m {
      sectors =
          insert (event.lap_number, sector)
            (record { sector = sector; split_time_s = split; crossed_at = event.at }) (make_room m);
    },
    nothing,
  )

  unfoldable pub buffer_sector : LapMaterialiser N → Event N → LapMaterialiser N × Observed N
  unfolding drop_oldest insert get
  buffer_sector m event = elim (as_int (get event.decoded "sector")) [
    | none ↦ (m, raised)
    | some none ↦ (record m { malformed_events = m.malformed_events + 1 }, nothing)
    | some (some sector) ↦ store_sector m event sector (as_float (get event.decoded "split_time"))
  ]

  abbrev lap_row :
      LapMaterialiser N
      → Event N
      → List (SectorRow N)
      → Option (Option ℤ)
      → Option (Option N)
      → Observed N
  lap_row m event sectors (some stint_number) (some lap_time) = lap (record {
    vehicle_id = m.vehicle_id;
    session_id = as_str (get event.decoded "session_id");
    stint_number = stint_number;
    track_name = as_str (get event.decoded "track_name");
    lap_number = event.lap_number;
    crossed_at = event.at;
    lap_time_s = lap_time;
    valid = elim (get event.decoded "valid") [ none ↦ true | some v ↦ conversion.to_bool v ];
    pit_status = as_str (get event.decoded "pit_status");
    direction = as_str (get event.decoded "direction");
    sectors = sectors;
  })
  lap_row m event sectors _ _ = raised

  unfoldable pub complete_lap : LapMaterialiser N → Event N → LapMaterialiser N × Observed N
  unfolding rows_of without_lap get
  complete_lap m event =
      let sectors = rows (rows_of event.lap_number m.sectors) in
      (
        record m {
          sectors = without_lap event.lap_number m.sectors;
          laps_materialised = m.laps_materialised + 1;
          sectors_materialised = m.sectors_materialised + length sectors;
        },
        lap_row m event sectors (as_int (get event.decoded "stint_number"))
            (as_float (get event.decoded "lap_time")),
      )

  abbrev pub status_of : Text → Option (Json N) → Text
  status_of type none = type
  status_of type (some null) = type
  status_of type (some status) = conversion.to_text status

  abbrev pub contains : Text → List Text → Bool
  contains t [] = false
  contains t (u ∷ us) = text_beq u t || contains t us

  unfoldable pub dispatch : LapMaterialiser N → Event N → LapMaterialiser N × Observed N
  unfolding buffer_sector complete_lap get
  dispatch m event =
      if text_beq event.type (codes "sector_completed")
      then buffer_sector m event
      else if text_beq event.type (codes "lap_completed")
      then complete_lap m event
      else if text_beq event.type (codes "pit_entry") || text_beq event.type (codes "pit_exit")
      then (
        m,
        pit (record {
          vehicle_id = m.vehicle_id;
          at = event.at;
          pit_status = status_of event.type (get event.decoded "pit_status");
        }),
      )
      else if contains event.type m.unknown_event_types
      then (m, nothing)
      else (record m { unknown_event_types = event.type ∷ m.unknown_event_types }, nothing)

  unfoldable pub observe : LapMaterialiser N → Option (Json N) → LapMaterialiser N × Observed N
  unfolding parse note_lap dispatch
  observe m payload = elim (parse payload) [
    | none ↦ (record m { malformed_events = m.malformed_events + 1 }, nothing)
    | some event ↦ dispatch (note_lap m event.lap_number) event
  ]
