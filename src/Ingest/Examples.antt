-- ===== src/Ingest/Examples.antt =====
-- A registry, a batch that comes twice, one of a generation that is not known yet, a lost connection, and a restart.
use openlaps.Common.{
  ℕ, ◌≡◌, refl, subst, arith, true, false, none, some, List, [], ◌∷◌, All, string_eq, nat_eq,
}
use openlaps.Common.Dict.{lookup, insert}
use openlaps.Common.Number.{whole}
use openlaps.Laps.{Conversion}
use openlaps.Registry.{
  ChannelRegistry, SampleBatch, number, by_id, add_registry, known, physical, decode_sample,
  decode_samples, decode_batch,
}
use openlaps.Ingest.Rows.{Outside, columns, rows_from_batch, materialise_laps}
use openlaps.Ingest.{
  Message, WriterSettings, IngestWriter, landed, lost, unheard, is_registry, sequences, sectors_in,
  retry, write, flush,
}
use openlaps.Ingest.Consume.{
  Event, turns, restarts, scan_registries, recover_registry, handle, handle_all, turn, restart,
  step, run,
}
use openlaps.Ingest.Given.{committed_in}
use openlaps.Ingest.Once.{Brings, Heard, IsOnce, nothing}
use openlaps.Ingest.Once.Run.{IsFair, run-IsOnce}
use openlaps.Common.{inl, inr, ◌⊎◌}

abbrev conversion : Conversion ℕ
conversion = record {
  to_text = λ j. [];
  to_instant = λ j. none;
  to_int = λ j. none;
  to_float = λ j. none;
  to_bool = λ j. false;
}

abbrev outside : Outside ℕ
outside = record {
  upsert_registry = λ registry. some ((7, 70) ∷ []);
  instant = λ t. some t;
  loads = λ payload. none;
}

abbrev settings : WriterSettings
settings = record { vehicle_id = "car"; batch_rows = 5; max_buffered_rows = 100 }

abbrev start : IngestWriter ℕ
start = restart whole conversion outside settings (record { cursor = 0; commits = [] }) [] []

abbrev registry : ℕ → ChannelRegistry ℕ
registry seq = record {
  registry_seq = seq;
  channels = record { id = 7; name = "car.rpm"; scale = 0; offset = 0 } ∷ [];
}

abbrev batch : ℕ → SampleBatch ℕ
batch seq = record {
  registry_seq = seq;
  batch_epoch_unix_ms = 1_000;
  batch_epoch_mono_ns = 0;
  format_version = 1;
  samples = record { channel_id = 7; t_offset_us = 0; value = number 42 } ∷ [];
}

abbrev catalog : ℕ → ℕ → Message ℕ
catalog sequence seq = record {
  sequence = sequence;
  header = some "registry";
  subject = "tele.car.catalog";
  registry = some (registry seq);
  batch = none;
}

abbrev samples : ℕ → ℕ → Message ℕ
samples sequence seq = record {
  sequence = sequence;
  header = some "batch";
  subject = "tele.car.fast";
  registry = none;
  batch = some (batch seq);
}

abbrev works : List (Message ℕ) → Event ℕ
works ms =
    turns (record { fetched = some ms; due = true; first = landed; second = landed; scanned = [] })

abbrev breaks : List (Message ℕ) → Event ℕ
breaks ms =
    turns (record { fetched = some ms; due = true; first = lost; second = lost; scanned = [] })

-- The second batch stalls; after the restart all that was not committed is delivered again.
abbrev redelivered : List (Event ℕ)
redelivered =
    breaks (catalog 1 5 ∷ samples 2 5 ∷ samples 2 5 ∷ [])
    ∷ works (samples 2 5 ∷ samples 3 9 ∷ [])
    ∷ restarts (registry 5 ∷ registry 9 ∷ [])
    ∷ works (samples 2 5 ∷ samples 3 9 ∷ [])
    ∷ []

abbrev fetched : List (Message ℕ)
fetched = catalog 1 5 ∷ samples 2 5 ∷ samples 3 9 ∷ samples 4 5 ∷ []

abbrev stalled : List (Event ℕ)
stalled = works fetched ∷ []

redelivered_once :
    committed_in whole outside
      (run whole conversion outside settings start redelivered).store.commits
    ≡ 2 ∷ 3 ∷ []
unfolding run step turn handle_all handle restart scan_registries recover_registry flush write retry
    add_registry by_id insert lookup known is_registry decode_batch decode_samples decode_sample
    physical rows_from_batch columns materialise_laps sectors_in
redelivered_once = refl

stalled_held : sequences (run whole conversion outside settings start stalled).held ≡ 3 ∷ 4 ∷ []
unfolding run step turn handle_all handle restart scan_registries recover_registry flush write retry
    add_registry by_id insert lookup known is_registry decode_batch decode_samples decode_sample
    physical rows_from_batch columns materialise_laps sectors_in
stalled_held = refl

-- The registries of the stream and of the catalog.
abbrev Published : ChannelRegistry ℕ → Type 0
Published r = (registry 5 ≡ r) ⊎ (registry 9 ≡ r)

start-IsOnce : IsOnce whole outside Published start
unfolding restart scan_registries
start-IsOnce = (
  record {
    behind = omega arith;
    within = omega arith;
    committed = tt;
    distinct = tt;
    ahead = tt;
    seen = tt;
    same = refl;
    apart = tt;
    filled = nothing;
    written = tt;
  },
  record { log = []; given = tt; same_channels = refl; same_keys = refl },
  tt,
)

landed-Heard : Heard landed
landed-Heard = λ e. cc e

lost-Heard : Heard lost
lost-Heard = λ e. cc e

catalog-Brings : (sequence : ℕ) → Brings whole outside Published (catalog sequence 5)
catalog-Brings sequence = λ r q. inl (cc q)

samples-Brings : (sequence seq : ℕ) → Brings whole outside Published (samples sequence seq)
samples-Brings sequence seq = λ r q. absurd (cc q)

works-IsFair :
    (ms : List (Message ℕ))
    → All (Brings whole outside Published) ms
    → IsFair whole conversion outside settings Published (works ms)
works-IsFair ms h = (
  landed-Heard,
  landed-Heard,
  tt,
  λ ms' q. let same : ms ≡ ms' = cc q in subst (All (Brings whole outside Published)) same h,
)

breaks-IsFair :
    (ms : List (Message ℕ))
    → All (Brings whole outside Published) ms
    → IsFair whole conversion outside settings Published (breaks ms)
breaks-IsFair ms h = (
  lost-Heard,
  lost-Heard,
  tt,
  λ ms' q. let same : ms ≡ ms' = cc q in subst (All (Brings whole outside Published)) same h,
)

abbrev again : List (Message ℕ)
again = samples 2 5 ∷ samples 3 9 ∷ []

again-Brings : All (Brings whole outside Published) again
again-Brings = (samples-Brings 2 5, (samples-Brings 3 9, tt))

run-IsOnce_example :
    IsOnce whole outside Published (run whole conversion outside settings start redelivered)
run-IsOnce_example =
    run-IsOnce whole conversion outside settings Published start redelivered start-IsOnce (
      breaks-IsFair (catalog 1 5 ∷ samples 2 5 ∷ samples 2 5 ∷ [])
          (catalog-Brings 1, (samples-Brings 2 5, (samples-Brings 2 5, tt))),
      (
        works-IsFair again again-Brings,
        ((inl refl, (inr refl, tt)), (works-IsFair again again-Brings, tt)),
      ),
    )

-- A transaction that commits and is not heard of is written again when its message is delivered again.
abbrev unanswered : List (Event ℕ)
unanswered =
    turns (record {
      fetched = some (catalog 1 5 ∷ samples 2 5 ∷ []);
      due = true;
      first = unheard;
      second = unheard;
      scanned = [];
    })
    ∷ works []
    ∷ []

unanswered_twice :
    committed_in whole outside
      (run whole conversion outside settings start unanswered).store.commits
    ≡ 2 ∷ 2 ∷ []
unfolding run step turn handle_all handle restart scan_registries recover_registry flush write retry
    add_registry by_id insert lookup known is_registry decode_batch decode_samples decode_sample
    physical rows_from_batch columns materialise_laps sectors_in
unanswered_twice = refl
