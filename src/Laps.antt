-- ===== src/Laps.antt =====
-- src/pit/ingest_writer/laps.py: lap rows of the events that the timing engine emits. The payload is what
-- `json.loads` gives, `none` where it raises; instants are microseconds. `Conversion` is what Python's
-- `str`, `float` with `fromtimestamp`, `int` and `bool` give, `none` where they raise.
pub mod Observe
pub mod Bounded
mod Examples
use openlaps.Common.{
  ℕ, suc, ◌+◌, ◌≡◌, ◌↔◌, String, Bool, true, false, not, ◌&&◌, ◌||◌, Option, none, some, List, [],
  ◌∷◌, ◌++◌, leb, ltb, eqb, eqb_iff, length, if◌then◌else◌, Eq, ◌==◌, arith,
}
use openlaps.Common.Dict.{Dict, insert, erase}
use openlaps.Common.Int.{int_eq, int_lt, int_eq_iff, ℤ, pos, negsuc}
use openlaps.Common.Json.{Json, Members, get, null, int, float, str, obj}
use openlaps.Common.Text.{Text, codes, text_beq}

-- The lap and the sector.
abbrev pub Key : Type 0
Key = ℤ × ℤ

abbrev pub key_eq : Key → Key → Bool
key_eq (a, b) (c, d) = int_eq a c && int_eq b d

pub key_eq_iff : (a b : Key) → (key_eq a b ≡ true) ↔ (a ≡ b)
key_eq_iff (a, b) (c, d) = ground (arith, int_eq_iff a c, int_eq_iff b d)

instance abbrev pub key_eq_instance : Eq Key
key_eq_instance = record { same = key_eq; same_iff = key_eq_iff }

-- Tuples compare by their first components, then by their second.
abbrev pub key_lt : Key → Key → Bool
key_lt (a, b) (c, d) = int_lt a c || (int_eq a c && int_lt b d)

abbrev pub smaller : Key → Key → Key
smaller key k = if key_lt k key then k else key

pub record Conversion (N : Type 0) : Type 0 where
  pub to_text : Json N → Text
  pub to_instant : Json N → Option ℕ
  pub to_int : Json N → Option ℤ
  pub to_float : Json N → Option N
  pub to_bool : Json N → Bool

pub record SectorRow (N : Type 0) : Type 0 where
  pub sector : ℤ
  pub split_time_s : Option N
  pub crossed_at : ℕ

pub record LapRow (N : Type 0) : Type 0 where
  pub vehicle_id : String
  pub session_id : Option Text
  pub stint_number : Option ℤ
  pub track_name : Option Text
  pub lap_number : ℤ
  pub crossed_at : ℕ
  pub lap_time_s : Option N
  pub valid : Bool
  pub pit_status : Option Text
  pub direction : Option Text
  pub sectors : List (SectorRow N)

pub record PitStatusUpdate : Type 0 where
  pub vehicle_id : String
  pub at : ℕ
  pub pit_status : Text

pub record LapMaterialiser (N : Type 0) : Type 0 where
  pub vehicle_id : String
  pub sectors : Dict Key (SectorRow N)
  pub highest_lap_number : Option ℤ
  pub malformed_events : ℕ
  pub unknown_event_types : List Text
  pub engine_restarts : ℕ
  pub laps_materialised : ℕ
  pub sectors_materialised : ℕ

-- What `observe` returns, or that it raises.
pub data Observed (N : Type 0) : Type 0 where
  nothing : Observed N
  lap : LapRow N → Observed N
  pit : PitStatusUpdate → Observed N
  raised : Observed N

pub record Event (N : Type 0) : Type 0 where
  pub decoded : Members N
  pub type : Text
  pub at : ℕ
  pub lap_number : ℤ

abbrev pub max_buffered_sectors : ℕ
max_buffered_sectors = 64

module _ {N : Type 0} where
  -- The smallest key, `key` or one of the dictionary.
  unfoldable pub min_key : Key → Dict Key (SectorRow N) → Key
  min_key key [] = key
  min_key key ((k, row) ∷ rest) = min_key (smaller key k) rest

  -- `del self._sectors[min(self._sectors)]`
  unfoldable pub drop_oldest : Dict Key (SectorRow N) → Dict Key (SectorRow N)
  unfolding min_key erase
  drop_oldest [] = []
  drop_oldest ((k, row) ∷ rest) = erase (min_key k rest) ((k, row) ∷ rest)

  -- The rows of a lap, in the order of their keys, and what is left of the buffer.
  unfoldable pub insert_row : ℤ × SectorRow N → List (ℤ × SectorRow N) → List (ℤ × SectorRow N)
  insert_row r [] = r ∷ []
  insert_row (i, r) ((j, s) ∷ rows) =
      let later = insert_row (i, r) rows in
      if int_lt j i then (j, s) ∷ later else (i, r) ∷ (j, s) ∷ rows

  unfoldable pub rows_of : ℤ → Dict Key (SectorRow N) → List (ℤ × SectorRow N)
  unfolding insert_row
  rows_of lap_number [] = []
  rows_of lap_number (((l, sector), row) ∷ rest) =
      let others = rows_of lap_number rest in
      if int_eq l lap_number then insert_row (sector, row) others else others

  unfoldable pub without_lap : ℤ → Dict Key (SectorRow N) → Dict Key (SectorRow N)
  without_lap lap_number [] = []
  without_lap lap_number (((l, sector), row) ∷ rest) =
      let others = without_lap lap_number rest in
      if int_eq l lap_number then others else ((l, sector), row) ∷ others

  abbrev pub rows : List (ℤ × SectorRow N) → List (SectorRow N)
  rows [] = []
  rows ((i, r) ∷ rest) = r ∷ rows rest

  abbrev pub as_str : Option (Json N) → Option Text
  as_str (some (str (c ∷ cs))) = some (c ∷ cs)
  as_str _ = none

  -- `max(lap_number, self._highest_lap_number or 0)`, or a new start where the number went back.
  unfoldable pub note_lap : LapMaterialiser N → ℤ → LapMaterialiser N
  note_lap m lap_number = elim m.highest_lap_number [
    | none ↦ record m {
      highest_lap_number = some (if int_lt lap_number (pos 0) then pos 0 else lap_number);
    }
    | some highest ↦
        if int_lt lap_number highest
        then record m {
          engine_restarts = m.engine_restarts + 1;
          sectors = [];
          highest_lap_number = some lap_number;
        }
        else record m {
          highest_lap_number = some (if int_lt lap_number highest then highest else lap_number);
        }
  ]
