-- ===== src/Timing/Examples.antt =====
-- Two laps of a track with a start/finish line and two sector lines, of which the second lap misses
-- one. A line is crossed where a point has its longitude.
use openlaps.Common.{
  ℕ, ◌≡◌, refl, Bool, true, false, eqb, Option, none, some, List, [], ◌∷◌, map, if◌then◌else◌,
}
use openlaps.Common.Dict.{lookup, insert}
use openlaps.Common.Number.{whole}
use openlaps.Timing.{
  GpsPoint, TimingLine, LineType, start_finish, sector, Config, TimingEvent, EventType,
  sector_completed, lap_completed, plus,
}
use openlaps.Timing.Geometry.{Hit}
use openlaps.Timing.Order.{WholeLaps}
use openlaps.Timing.Process.{
  accept, handle_pit, start_new_lap, first_crossing, best_after, finish_lap, finish_sector,
  handle_lap_point, pit_pass, lap_pass, process_point,
}
use openlaps.Timing.Run.{drive, drive-WholeLaps, start}

abbrev at : ℕ → ℕ → GpsPoint ℕ
at lon time = record { lat = 0; lon = lon; timestamp = time }

abbrev line_at : ℕ → LineType → TimingLine ℕ
line_at i type = record { name = i ∷ []; start = at i 0; stop = at i 0; line_type = type }

abbrev track_ : Config ℕ
track_ = record {
  min_line_reentry_s = 10;
  min_lap_time_s = 20;
  gate_direction = true;
  lap_points = line_at 0 start_finish ∷ line_at 1 sector ∷ line_at 2 sector ∷ [];
  pit_lines = [];
}

abbrev meets : GpsPoint ℕ → GpsPoint ℕ → TimingLine ℕ → Option (Hit ℕ)
meets prev gps line =
    if eqb gps.lon line.start.lon
    then some (record { ctime = gps.timestamp; sign = plus })
    else none

abbrev points : List (GpsPoint ℕ)
points = at 9 1 ∷ at 0 10 ∷ at 1 40 ∷ at 2 70 ∷ at 0 100 ∷ at 1 130 ∷ at 0 160 ∷ []

abbrev brief : TimingEvent ℕ → EventType × ℕ × Bool
brief v = (v.type, v.sector, v.valid)

points_events :
    map brief (drive whole track_ meets none points (start whole track_ meets)).1
    ≡ (sector_completed, 1, true)
      ∷ (sector_completed, 2, true)
      ∷ (sector_completed, 3, true)
      ∷ (lap_completed, 0, true)
      ∷ (sector_completed, 1, true)
      ∷ (sector_completed, 3, false)
      ∷ (lap_completed, 0, false)
      ∷ []
unfolding drive process_point pit_pass lap_pass accept handle_pit handle_lap_point first_crossing
    finish_lap finish_sector start_new_lap best_after lookup insert
points_events = refl

drive-WholeLaps_example :
    WholeLaps 3 0 (drive whole track_ meets none points (start whole track_ meets)).1
drive-WholeLaps_example = drive-WholeLaps whole track_ meets refl points
