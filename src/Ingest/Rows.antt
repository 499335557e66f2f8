-- ===== src/Ingest/Rows.antt =====
-- src/pit/ingest_writer/writer.py (rows_from_batch, _materialise_lap): what a decoded batch gives to the next flush.
use openlaps.Common.{
  ℕ, suc, ◌≡◌, ◌↔◌, String, Bool, true, false, ◌&&◌, Option, none, some, List, [], ◌∷◌, ◌++◌, eqb,
  eqb_iff, Eq, if◌then◌else◌, ◌==◌, string_eq, arith,
}
use openlaps.Common.Dict.{Dict, lookup}
use openlaps.Common.Json.{Json}
use openlaps.Common.Number.{Number}
use openlaps.Laps.{
  Conversion, LapRow, PitStatusUpdate, LapMaterialiser, Observed, nothing, lap, pit, raised,
}
use openlaps.Laps.Observe.{observe}
use openlaps.Registry.{Value, number, flag, words, absent, ChannelRegistry, DecodedSample}

pub record SampleRow (N : Type 0) : Type 0 where
  pub time : N
  pub channel_key : ℕ
  pub value : Option N
  pub value_text : Option String

pub record BatchRows (N : Type 0) : Type 0 where
  pub rows : List (SampleRow N)
  pub lap_events : List String
  pub agent_status : Bool
  pub dropped : ℕ
  pub unresolved : ℕ

-- The channel keys by generation and wire identifier.
abbrev pub Keys : Type 0
Keys = Dict (ℕ × ℕ) ℕ

abbrev pair_eq : ℕ × ℕ → ℕ × ℕ → Bool
pair_eq (a, b) (c, d) = eqb a c && eqb b d

pub pair_eq_iff : (a b : ℕ × ℕ) → (pair_eq a b ≡ true) ↔ (a ≡ b)
pair_eq_iff (a, b) (c, d) = ground (arith, eqb_iff a c, eqb_iff b d)

instance abbrev pub pair_eq_instance : Eq (ℕ × ℕ)
pair_eq_instance = record { same = pair_eq; same_iff = pair_eq_iff }

-- The code that is not here: the keys that the database gives to the channels of a registry by their wire identifiers,
-- `none` where the writer is stopped before the database has it, and `datetime.fromtimestamp` of milliseconds and
-- `json.loads`, `none` where they raise.
pub record Outside (N : Type 0) : Type 0 where
  pub upsert_registry : ChannelRegistry N → Option (Dict ℕ ℕ)
  pub instant : N → Option N
  pub loads : String → Option (Json N)

-- The laps that a batch is folded into.
pub record Folded (N : Type 0) : Type 0 where
  pub laps : LapMaterialiser N
  pub lap_rows : List (LapRow N)
  pub pit_updates : List PitStatusUpdate

module _ (num : Number) (outside : Outside num.N) where
  open num use {N, of_ℕ}

  -- The number and the text of a row; no value gives none.
  unfoldable pub columns : Value N → Option (Option N × Option String)
  columns (number n) = some (some n, none)
  columns (flag b) = some (some (if b then of_ℕ 1 else of_ℕ 0), none)
  columns (words t) = some (none, some t)
  columns absent = none

  abbrev note : String → Option String → BatchRows N → BatchRows N
  note name (some t) r =
      if name == "lap.event"
      then record r { lap_events = t ∷ r.lap_events }
      else if name == "sys.agent.status"
      then record r { agent_status = true }
      else r
  note name none r = if name == "sys.agent.status" then record r { agent_status = true } else r

  abbrev add_sample :
      DecodedSample N
      → Option ℕ
      → Option (Option N × Option String)
      → BatchRows N
      → Option (BatchRows N)
  add_sample s none columns rest = some (record rest { unresolved = suc rest.unresolved })
  add_sample s (some channel_key) none rest = some (record rest { dropped = suc rest.dropped })
  add_sample s (some channel_key) (some (value, value_text)) rest =
      elim (outside.instant s.capture_unix_ms) [
        | none ↦ none
        | some time ↦ some (
            note s.channel.name value_text (record rest {
              rows =
                  record {
                    time = time;
                    channel_key = channel_key;
                    value = value;
                    value_text = value_text;
                  }
                  ∷ rest.rows;
            }))
      ]

  -- `none` where an exception leaves it.
  unfoldable pub rows_from_batch : ℕ → List (DecodedSample N) → Keys → Option (BatchRows N)
  unfolding columns lookup
  rows_from_batch registry_seq [] keys =
      some
        (record { rows = []; lap_events = []; agent_status = false; dropped = 0; unresolved = 0 })
  rows_from_batch registry_seq (s ∷ samples) keys =
      elim (rows_from_batch registry_seq samples keys) [
        | none ↦ none
        | some rest ↦ add_sample s (lookup (registry_seq, s.channel.id) keys) (columns s.value) rest
      ]

  module _ (conversion : Conversion N) where
    -- What `_materialise_lap` makes of a payload; `none` where an exception leaves it.
    abbrev fold_lap : Folded N → LapMaterialiser N × Observed N → Option (Folded N)
    fold_lap f (laps, nothing) = some (record f { laps = laps })
    fold_lap f (laps, lap r) = some (record f { laps = laps; lap_rows = f.lap_rows ++ r ∷ [] })
    fold_lap f (laps, pit u) =
        some (record f { laps = laps; pit_updates = f.pit_updates ++ u ∷ [] })
    fold_lap f (laps, raised) = none

    unfoldable pub materialise_laps : List String → Folded N → Option (Folded N)
    unfolding observe
    materialise_laps [] f = some f
    materialise_laps (payload ∷ payloads) f =
        elim (fold_lap f (observe conversion f.laps (outside.loads payload))) [
          | none ↦ none
          | some f' ↦ materialise_laps payloads f'
        ]
