-- ===== src/Timing.antt =====
-- src/timing/timing_core.py: the lap and sector timing engine. Times, positions and lengths are floats,
-- which are a parameter; text is code points.
pub mod Lines
pub mod Geometry
pub mod Process
pub mod Order
pub mod Laps
pub mod Run
mod Examples
use openlaps.Common.{ℕ, Bool, true, false, List, []}
use openlaps.Common.Dict.{Dict}
use openlaps.Common.Number.{Number}
use openlaps.Common.Text.{Text}

pub record GpsPoint (N : Type 0) : Type 0 where
  pub lat : N
  pub lon : N
  pub timestamp : N

pub data LineType : Type 0 where
  start_finish sector pit_entry pit_exit unknown : LineType

pub record TimingLine (N : Type 0) : Type 0 where
  pub name : Text
  pub start : GpsPoint N
  pub stop : GpsPoint N
  pub line_type : LineType

pub data EventType : Type 0 where
  sector_completed lap_completed entered_pit left_pit : EventType

-- `"track"` or `"pit"`.
pub data PitStatus : Type 0 where
  track pit : PitStatus

-- `+1` and `-1`, of which the direction's name is made.
pub data Sign : Type 0 where
  plus minus : Sign

pub record TimingEvent (N : Type 0) : Type 0 where
  pub type : EventType
  pub time : N
  pub line : Text
  pub lat : N
  pub lon : N
  pub lap_number : ℕ
  pub sector : ℕ
  pub split_time : N
  pub lap_time : N
  pub valid : Bool
  pub direction : Sign
  pub pit_status : PitStatus

pub record TimingState (N : Type 0) : Type 0 where
  pub lap_number : ℕ
  pub expected_idx : ℕ
  pub lap_start_time : N
  pub segment_start_time : N
  pub sectors_done : ℕ
  pub pit_status : PitStatus
  pub lap_valid : Bool
  pub best_lap_time : N
  pub last_lap_time : N
  pub last_cross_time : Dict Text N
  pub line_direction : Dict Text Sign

-- The arguments of `TimingEngine`, with the lines that it sorts out.
pub record Config (N : Type 0) : Type 0 where
  pub min_line_reentry_s : N
  pub min_lap_time_s : N
  pub gate_direction : Bool
  pub lap_points : List (TimingLine N)
  pub pit_lines : List (TimingLine N)

-- The engine's own state; the previous point is kept beside it by its caller in the source's `_prev`.
pub record Engine (N : Type 0) : Type 0 where
  pub state : TimingState N
  pub revision : ℕ

module _ (number : Number) where
  open number use {N, of_ℕ}

  -- `TimingState()`
  abbrev pub initial_state : TimingState N
  initial_state = record {
    lap_number = 0;
    expected_idx = 0;
    lap_start_time = of_ℕ 0;
    segment_start_time = of_ℕ 0;
    sectors_done = 0;
    pit_status = track;
    lap_valid = true;
    best_lap_time = of_ℕ 0;
    last_lap_time = of_ℕ 0;
    last_cross_time = [];
    line_direction = [];
  }
