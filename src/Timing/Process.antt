-- ===== src/Timing/Process.antt =====
-- The engine's handling of a GPS point: pit lines first, then at most one lap point. `cross` is what
-- `_crossing` says of the segment between two points and a line.
use openlaps.Common.{
  ℕ, ◌+◌, ◌%◌, Bool, true, false, not, ◌&&◌, ◌||◌, Option, none, some, List, [], ◌∷◌, ◌++◌, eqb,
  length, if◌then◌else◌,
}
use openlaps.Common.Dict.{lookup, insert}
use openlaps.Common.Number.{Number}
use openlaps.Common.Text.{Text, text_eq}
use openlaps.Timing.{
  GpsPoint, TimingLine, LineType, pit_entry, EventType, sector_completed, lap_completed,
  entered_pit, left_pit, PitStatus, track, pit, Sign, plus, minus, TimingEvent, TimingState, Config,
  Engine,
}
use openlaps.Timing.Geometry.{Hit}

abbrev pub on_track : PitStatus → Bool
on_track track = true
on_track pit = false

abbrev pub same_sign : Sign → Sign → Bool
same_sign plus plus = true
same_sign minus minus = true
same_sign _ _ = false

abbrev pub is_pit_entry : LineType → Bool
is_pit_entry pit_entry = true
is_pit_entry _ = false

module _ (number : Number) where
  open number use {N, of_ℕ, sub, lt_n, eq_n}

  abbrev Events : Type 0
  Events = List (TimingEvent N)

  -- `last is not None and (ctime - last) < self.min_line_reentry_s`
  abbrev pub debounced : Config N → Option N → N → Bool
  debounced c none ctime = false
  debounced c (some last) ctime = lt_n (sub ctime last) c.min_line_reentry_s

  -- `self.gate_direction` with a learned direction that is the other one.
  abbrev pub wrong_way : Config N → Option Sign → Sign → Bool
  wrong_way c none sign = false
  wrong_way c (some expected) sign = c.gate_direction && not (same_sign expected sign)

  -- The direction is learned at the first crossing, if the engine gates directions.
  abbrev pub learn : Config N → Text → Sign → TimingState N → TimingState N
  learn c name sign st =
      if c.gate_direction
      then elim (lookup name st.line_direction) [
        | none ↦ record st { line_direction = insert name sign st.line_direction }
        | some _ ↦ st
      ]
      else st

  unfoldable pub accept : Config N → TimingLine N → Hit N → Engine N → Engine N × Bool
  accept c line hit e =
      if debounced c (lookup line.name e.state.last_cross_time) hit.ctime
      then (e, false)
      else if wrong_way c (lookup line.name e.state.line_direction) hit.sign
      then (e, false)
      else let learned = learn c line.name hit.sign e.state in
        (
          record {
            state = record learned {
              last_cross_time = insert line.name hit.ctime learned.last_cross_time;
            };
            revision = e.revision + 1;
          },
          true,
        )

  unfoldable pub handle_pit :
      TimingLine N → Hit N → GpsPoint N → TimingState N → TimingState N × Events
  handle_pit line hit gps st =
      let entry = is_pit_entry line.line_type in
      let st' =
        if entry
        then record st { pit_status = pit; lap_valid = false }
        else record st { pit_status = track } in
      (
        st',
        record {
          type = if entry then entered_pit else left_pit;
          time = hit.ctime;
          line = line.name;
          lat = gps.lat;
          lon = gps.lon;
          lap_number = st'.lap_number;
          sector = 0;
          split_time = of_ℕ 0;
          lap_time = of_ℕ 0;
          valid = true;
          direction = hit.sign;
          pit_status = st'.pit_status;
        }
            ∷ [],
      )

  unfoldable pub start_new_lap : ℕ → N → TimingState N → TimingState N
  start_new_lap n_points ctime st = record st {
    lap_start_time = ctime;
    segment_start_time = ctime;
    expected_idx = 1 % n_points;
    sectors_done = 0;
    lap_valid = on_track st.pit_status;
  }

  -- The event of a crossed lap point, with what the two kinds have in common.
  abbrev pub point_event :
      EventType
      → TimingLine N
      → Hit N
      → GpsPoint N
      → TimingState N
      → ℕ
      → N
      → N
      → Bool
      → TimingEvent N
  point_event type line hit gps st sector split lap valid = record {
    type = type;
    time = hit.ctime;
    line = line.name;
    lat = gps.lat;
    lon = gps.lon;
    lap_number = st.lap_number;
    sector = sector;
    split_time = split;
    lap_time = lap;
    valid = valid;
    direction = hit.sign;
    pit_status = st.pit_status;
  }

  -- The first crossing of all starts the clocks.
  unfoldable pub first_crossing : ℕ → ℕ → Hit N → TimingState N → TimingState N
  unfolding start_new_lap
  first_crossing n_points idx hit st =
      let st' = record (start_new_lap n_points hit.ctime st) {
        lap_number = 1;
        expected_idx = (idx + 1) % n_points;
      } in
      if eqb idx 0 then st' else record st' { lap_valid = false }

  -- `st.best_lap_time` after a lap.
  unfoldable pub best_after : Bool → N → N → N
  best_after valid lap_time best =
      if valid && (eq_n best (of_ℕ 0) || lt_n lap_time best) then lap_time else best

  -- A crossing of the start/finish line with the clocks running.
  unfoldable pub finish_lap :
      Config N → TimingLine N → Hit N → GpsPoint N → TimingState N → TimingState N × Events
  unfolding start_new_lap best_after
  finish_lap c line hit gps st =
      let n_points = length c.lap_points in
      let lap_time = sub hit.ctime st.lap_start_time in
      let split = sub hit.ctime st.segment_start_time in
      let valid = st.lap_valid && eqb 0 st.expected_idx && on_track st.pit_status in
      if eqb st.sectors_done 0 || lt_n lap_time c.min_lap_time_s
      then (start_new_lap n_points hit.ctime st, [])
      else (
        start_new_lap n_points hit.ctime (record st {
          last_lap_time = lap_time;
          best_lap_time = best_after valid lap_time st.best_lap_time;
          lap_number = st.lap_number + 1;
        }),
        point_event sector_completed line hit gps st n_points split (of_ℕ 0) valid
            ∷ point_event lap_completed line hit gps st 0 (of_ℕ 0) lap_time valid
            ∷ [],
      )

  -- A crossing of a sector line with the clocks running.
  unfoldable pub finish_sector :
      Config N → ℕ → TimingLine N → Hit N → GpsPoint N → TimingState N → TimingState N × Events
  finish_sector c idx line hit gps st =
      let in_order = eqb idx st.expected_idx in
      let split = sub hit.ctime st.segment_start_time in
      (
        record st {
          lap_valid = st.lap_valid && in_order;
          sectors_done = st.sectors_done + 1;
          segment_start_time = hit.ctime;
          expected_idx = (idx + 1) % length c.lap_points;
        },
        point_event sector_completed line hit gps st idx split (of_ℕ 0)
              (in_order && on_track st.pit_status)
            ∷ [],
      )

  unfoldable pub handle_lap_point :
      Config N → ℕ → TimingLine N → Hit N → GpsPoint N → TimingState N → TimingState N × Events
  unfolding first_crossing finish_lap finish_sector
  handle_lap_point c idx line hit gps st =
      if eq_n st.lap_start_time (of_ℕ 0)
      then (first_crossing (length c.lap_points) idx hit st, [])
      else if eqb idx 0
      then finish_lap c line hit gps st
      else finish_sector c idx line hit gps st

  -- A handler of the source applied to an engine.
  abbrev pub on_state : Engine N → TimingState N × Events → Engine N × Events
  on_state e (st, events) = (record e { state = st }, events)

  -- What follows `if hit and self._accept(line, hit)`: `missed` where it fails.
  abbrev pub if_accepted :
      {A : Type 0}
      → Config N
      → TimingLine N
      → Option (Hit N)
      → Engine N
      → (Engine N → A)
      → (Hit N → Engine N → A)
      → A
  if_accepted c line none e missed took = missed e
  if_accepted c line (some hit) e missed took =
      let (e', took_it) = accept c line hit e in if took_it then took hit e' else missed e'

  module _ (cross : GpsPoint N → GpsPoint N → TimingLine N → Option (Hit N)) where
    unfoldable pub pit_pass :
        Config N → GpsPoint N → GpsPoint N → List (TimingLine N) → Engine N → Engine N × Events
    unfolding accept handle_pit
    pit_pass c prev gps [] e = (e, [])
    pit_pass c prev gps (line ∷ lines) e =
        let (e', events) =
          if_accepted c line (cross prev gps line) e (λ e'. (e', []))
            (λ hit e'. on_state e' (handle_pit line hit gps e'.state)) in
        let (e'', more) = pit_pass c prev gps lines e' in (e'', events ++ more)

    -- The loop over the lap points; it ends at the first that is accepted.
    unfoldable pub lap_pass :
        Config N → GpsPoint N → GpsPoint N → ℕ → List (TimingLine N) → Engine N → Engine N × Events
    unfolding accept handle_lap_point
    lap_pass c prev gps idx [] e = (e, [])
    lap_pass c prev gps idx (line ∷ lines) e =
        if_accepted c line (cross prev gps line) e (lap_pass c prev gps (idx + 1) lines)
          (λ hit e'. on_state e' (handle_lap_point c idx line hit gps e'.state))

    -- `process_point`; the previous point is `None` at first.
    unfoldable pub process_point :
        Config N → Option (GpsPoint N) → GpsPoint N → Engine N → Engine N × Events
    unfolding pit_pass lap_pass
    process_point c none gps e = (e, [])
    process_point c (some prev) gps e =
        let (e', pits) = pit_pass c prev gps c.pit_lines e in
        let (e'', laps) = lap_pass c prev gps 0 c.lap_points e' in (e'', pits ++ laps)
