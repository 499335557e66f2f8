-- ===== src/Laps/Examples.antt =====
-- A sector, its lap, a payload that is no object, and a restart of the engine.
use openlaps.Common.{
  ℕ, ◌≡◌, refl, String, true, Option, none, some, List, [], ◌∷◌, length, nat_eq, string_eq, arith,
}
use openlaps.Common.Dict.{insert, erase}
use openlaps.Common.Int.{ℤ, pos}
use openlaps.Common.Json.{Json, get, null, int, str, obj, end, member}
use openlaps.Common.Text.{Text, codes}
use openlaps.Laps.{
  Conversion, LapMaterialiser, note_lap, drop_oldest, insert_row, rows_of, without_lap,
}
use openlaps.Laps.Observe.{parse, buffer_sector, complete_lap, dispatch, observe}
use openlaps.Laps.Bounded.{IsBounded, observe_all, observe_all-IsBounded}

abbrev text_of : Json ℕ → Text
text_of (str t) = t
text_of _ = []

abbrev nat_of : Json ℕ → Option ℕ
nat_of (int (pos n)) = some n
nat_of _ = none

abbrev int_of : Json ℕ → Option ℤ
int_of (int n) = some n
int_of _ = none

abbrev python : Conversion ℕ
python = record {
  to_text = text_of;
  to_instant = nat_of;
  to_int = int_of;
  to_float = nat_of;
  to_bool = λ j. true;
}

abbrev new_materialiser : LapMaterialiser ℕ
new_materialiser = record {
  vehicle_id = "car";
  sectors = [];
  highest_lap_number = none;
  malformed_events = 0;
  unknown_event_types = [];
  engine_restarts = 0;
  laps_materialised = 0;
  sectors_materialised = 0;
}

abbrev event : String → ℕ → ℕ → Option (Json ℕ)
event type lap_number sector = some (
    obj (
      member "type" (str (codes type)) (
        member "time" (int (pos 100))
          (member "lap_number" (int (pos lap_number)) (member "sector" (int (pos sector)) end)))))

abbrev payloads : List (Option (Json ℕ))
payloads =
    event "sector_completed" 2 1
    ∷ event "sector_completed" 2 2
    ∷ event "lap_completed" 2 0
    ∷ some null
    ∷ event "sector_completed" 3 1
    ∷ event "sector_completed" 1 1
    ∷ []

abbrev brief : LapMaterialiser ℕ → ℕ × ℕ × ℕ × ℕ
brief m = (m.sectors_materialised, m.malformed_events, m.engine_restarts, length m.sectors)

payloads-brief : brief (observe_all python new_materialiser payloads) ≡ (2, 1, 1, 1)
unfolding observe_all observe parse note_lap dispatch buffer_sector complete_lap rows_of insert_row
    without_lap drop_oldest insert erase get
payloads-brief = refl

observe_all-IsBounded_example : IsBounded (observe_all python new_materialiser payloads)
observe_all-IsBounded_example = observe_all-IsBounded python new_materialiser payloads (omega arith)
