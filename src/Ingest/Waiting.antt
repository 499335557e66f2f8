-- ===== src/Ingest/Waiting.antt =====
-- src/pit/ingest_writer/writer.py: the cursor and the messages that the writer holds until it can decode them.
use openlaps.Common.{ℕ, ◌≡◌, some, List, [], ◌∷◌}
use openlaps.Common.Number.{Number}
use openlaps.Common.Result.{Result}
use openlaps.Laps.{Conversion}
use openlaps.Ingest.Rows.{Outside}
use openlaps.Ingest.{Message, WriterSettings, IngestWriter, Outcome}
use openlaps.Ingest.Consume.{Event, turns, step}
use openlaps.Ingest.Settled.{Fits, SettledIn, IsWaiting, Up, Covers}

module _ (number : Number) (conversion : Conversion number.N) (outside : Outside number.N)
    (settings : WriterSettings) where
  open number use {N}

  abbrev CoversFrom : IngestWriter N → ℕ → ℕ → Outcome N → Type 0
  CoversFrom = Covers number outside

  abbrev UpTo : ℕ → IngestWriter N → Type 0
  UpTo = Up number outside

  abbrev Waiting : IngestWriter N → Type 0
  Waiting = IsWaiting number outside

  -- Each message that is fetched is settled, or is new: after all that the cursor may come to cover and after those
  -- before it.
  abbrev pub Delivers : IngestWriter N → Event N → Type 0
  Delivers w (turns t) =
      (ms : List (Message N)) → t.fetched ≡ some ms → Fits (SettledIn number outside w) w.max_seq ms
  Delivers w _ = Unit

  abbrev pub InOrder : IngestWriter N → List (Event N) → Type 0
  InOrder w [] = Unit
  InOrder w (e ∷ es) = Delivers w e × InOrder (step number conversion outside settings w e) es
