-- ===== src/Field/Mirror.antt =====
-- src/pit/timing_feed/model.py (FieldState._diff): what a reader of the emitted rows knows of the standings. The reader
-- keeps, as the view of the standings does, the latest row of each car within the latest epoch.
use openlaps.Common.{
  ◌≡◌, refl, sym, ap, ◌∙◌, String, Bool, true, false, Option, none, some, List, [], ◌∷◌, ◌++◌,
  if◌then◌else◌, string_eq, Bool-cases, ◌⊎◌, inl, inr,
}
use openlaps.Common.Dict.{Dict, lookup, insert}
use openlaps.Common.Number.{Number}
use openlaps.Field.{FieldState, SessionRow, CarRow, LapRow}
use openlaps.Field.Diff.{laps_of, changed, epoch_or, diff_rows}

pub record Reader (N : Type 0) : Type 0 where
  pub epoch : Option N
  pub cars : Dict String (CarRow N)

-- A call of `_diff`.
pub record Table (N : Type 0) : Type 0 where
  pub rows : List (CarRow N)
  pub at : N
  pub full : Bool

module _ (number : Number) where
  open number use {N, eq_n}

  abbrev pub is_at : Option N → N → Bool
  is_at none e = false
  is_at (some d) e = eq_n d e

  -- The cars of the reader in an epoch.
  abbrev pub cars_in : Reader N → N → Dict String (CarRow N)
  cars_in r e = if is_at r.epoch e then r.cars else []

  unfoldable pub read_row : Reader N → CarRow N → Reader N
  unfolding insert
  read_row r row = record {
    epoch = some row.epoch;
    cars = insert row.car_number row (cars_in r row.epoch);
  }

  unfoldable pub read_rows : Reader N → List (CarRow N) → Reader N
  unfolding read_row
  read_rows r [] = r
  read_rows r (row ∷ rows) = read_rows (read_row r row) rows

  -- The laps that the reader can tell: a row whose count is greater than that of the row held.
  unfoldable pub laps_read :
      String → Option (SessionRow N) → Reader N → List (CarRow N) → List (LapRow N)
  unfolding read_row lookup
  laps_read source session r [] = []
  laps_read source session r (row ∷ rows) =
      laps_of number source session row (lookup row.car_number (cars_in r row.epoch))
      ++ laps_read source session (read_row r row) rows

  -- What a call leaves: the reader has in the epoch just the cars of the state, and can tell all its laps.
  pub record Mirrors (e : N) (f : FieldState N) (r : Reader N) (f' : FieldState N)
      (rows : List (CarRow N)) (told : List (LapRow N)) : Type 0 where
    pub cars : cars_in (read_rows r rows) e ≡ f'.cars
    pub laps : told ≡ laps_read f.source f.session r rows
    pub same_source : f'.source ≡ f.source
    pub same_session : f'.session ≡ f.session
    pub same_epoch : f'.epoch ≡ f.epoch
    pub epoch : ((read_rows r rows).epoch ≡ r.epoch) ⊎ ((read_rows r rows).epoch ≡ some e)

  epoch-cons :
      (r : Reader N) (row : CarRow N) (rows : List (CarRow N))
      → ((read_rows (read_row r row) rows).epoch ≡ (read_row r row).epoch)
        ⊎ ((read_rows (read_row r row) rows).epoch ≡ some row.epoch)
      → ((read_rows r (row ∷ rows)).epoch ≡ r.epoch)
        ⊎ ((read_rows r (row ∷ rows)).epoch ≡ some row.epoch)
  unfolding read_rows read_row
  epoch-cons r row rows (inl h) = inr h
  epoch-cons r row rows (inr h) = inr h

  module _ (law : (x : N) → eq_n x x ≡ true) where
    pub read_row-cars :
        (e : N) (cars : Dict String (CarRow N)) (r : Reader N) (row : CarRow N)
        → row.epoch ≡ e
        → cars_in r e ≡ cars
        → cars_in (read_row r row) e ≡ insert row.car_number row cars
    unfolding read_row
    read_row-cars e cars r row at h =
        let here : eq_n row.epoch e ≡ true = ap (λ x. eq_n x e) at ∙ law e in
        rw here
          (ap (λ x. insert row.car_number row (cars_in r x)) at ∙ ap (insert row.car_number row) h)

    pub diff_rows-Mirrors :
        (f : FieldState N) (cars : List (CarRow N)) (at : N) (r : Reader N)
        → cars_in r (epoch_or f.epoch at) ≡ f.cars
        → let out = diff_rows number f cars at in
          Mirrors (epoch_or f.epoch at) f r out.0 out.1.0 out.1.1
    unfolding diff_rows read_rows laps_read
    diff_rows-Mirrors f [] at r h = record {
      cars = h;
      laps = refl;
      same_source = refl;
      same_session = refl;
      same_epoch = refl;
      epoch = inl refl;
    }
    diff_rows-Mirrors f (car ∷ cars) at r h =
        let e = epoch_or f.epoch at in
        let row : CarRow N = record car { epoch = e } in
        elim (Bool-cases (changed number row (lookup row.car_number f.cars))) [
          | inr q ↦ rw q (diff_rows-Mirrors f cars at r h)
          | inl q ↦
              let f1 : FieldState N = record f { cars = insert row.car_number row f.cars } in
              let rest =
                diff_rows-Mirrors f1 cars at (read_row r row)
                  (read_row-cars e f.cars r row refl h) in
              rw q (record {
                cars = rest.cars;
                laps =
                    ap
                      (λ told.
                        laps_of number f.source f.session row (lookup row.car_number f.cars)
                        ++ told)
                      rest.laps
                    ∙ ap
                        (λ held.
                          laps_of number f.source f.session row (lookup row.car_number held)
                          ++ laps_read f.source f.session (read_row r row)
                              (diff_rows number f1 cars at).1.0)
                        (sym h);
                same_source = rest.same_source;
                same_session = rest.same_session;
                same_epoch = rest.same_epoch;
                epoch = epoch-cons r row (diff_rows number f1 cars at).1.0 rest.epoch;
              })
        ]
