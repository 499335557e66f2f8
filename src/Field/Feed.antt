-- ===== src/Field/Feed.antt =====
-- src/pit/timing_feed/model.py (FieldState._diff): a feed of standings, from its first full table on.
use openlaps.Common.{
  ◌≡◌, String, true, false, Option, none, some, List, [], ◌∷◌, ◌++◌, string_eq, All,
}
use openlaps.Common.Dict.{Dict}
use openlaps.Common.Number.{Number}
use openlaps.Field.{FieldState, CarRow, LapRow}
use openlaps.Field.Diff.{diff}
use openlaps.Field.Told.{AreTold}
use openlaps.Field.Mirror.{Reader, Table, is_at, cars_in, read_rows, laps_read}

module _ (number : Number) where
  open number use {N, eq_n}

  abbrev brief :
      FieldState N
      → List (CarRow N)
      → List (LapRow N)
      → FieldState N × (List (CarRow N) × List (LapRow N))
  brief f rows laps = (f, (rows, laps))

  -- The tables of a feed, with all rows and laps that they emit.
  unfoldable pub run :
      FieldState N → List (Table N) → FieldState N × (List (CarRow N) × List (LapRow N))
  unfolding diff
  run f [] = brief f [] []
  run f (t ∷ tables) =
      let (f', (rows, laps)) = diff number f t.rows t.at t.full in
      let (f'', (more_rows, more_laps)) = run f' tables in
      brief f'' (rows ++ more_rows) (laps ++ more_laps)

  -- No table comes at that instant, and no two come at the same.
  abbrev pub Unseen : Option N → List (Table N) → Type 0
  Unseen o tables = All (λ t. is_at number o t.at ≡ false) tables

  abbrev pub Apart : List (Table N) → Type 0
  Apart [] = Unit
  Apart (t ∷ tables) = Unseen (some t.at) tables × Apart tables

  -- The first table is a full one.
  abbrev pub Starts : List (Table N) → Type 0
  Starts [] = Unit
  Starts (t ∷ tables) = t.full ≡ true

  -- Before the feed has begun its first table is full; later the reader holds the cars of the epoch.
  abbrev pub Ready : Option N → Reader N → Dict String (CarRow N) → List (Table N) → Type 0
  Ready none r cars tables = Starts tables
  Ready (some e) r cars tables = (cars_in number r e ≡ cars) × Unseen (some e) tables

  -- The state in which a table is compared: its epoch has begun.
  record Begun (f : FieldState N) (r : Reader N) (tables : List (Table N)) (f0 : FieldState N)
      : Type 0 where
    e : N
    at : f0.epoch ≡ some e
    holds : cars_in number r e ≡ f0.cars
    unseen : Unseen (some e) tables
    same_source : f0.source ≡ f.source
    same_session : f0.session ≡ f.session

  -- The reader has in the epoch just the cars of the state, and of each table the emitted rows and laps tell it all.
  pub record IsTold (f : FieldState N) (r : Reader N) (f' : FieldState N) (tables : List (Table N))
      (rows : List (CarRow N)) (told : List (LapRow N)) : Type 0 where
    pub cars : (e : N) → f'.epoch ≡ some e → cars_in number (read_rows number r rows) e ≡ f'.cars
    pub laps : told ≡ laps_read number f.source f.session r rows
    pub follows : AreTold number f.source r tables rows told
