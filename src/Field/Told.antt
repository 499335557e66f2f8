-- ===== src/Field/Told.antt =====
-- src/pit/timing_feed/model.py (FieldState._diff): what the rows and the laps that a table emits say to a reader who
-- does not see the table.
use openlaps.Common.{
  ◌≡◌, refl, sym, ap, subst, ◌∙◌, String, Bool, true, false, not, Option, none, some, List, [], ◌∷◌,
  ◌++◌, if◌then◌else◌, string_eq, Bool-cases, ◌⊎◌, inl, inr,
}
use openlaps.Common.Dict.{lookup, insert}
use openlaps.Common.Int.{ℤ, int_lt}
use openlaps.Common.Number.{Number}
use openlaps.Field.{FieldState, SessionRow, CarRow, LapRow, same_car}
use openlaps.Field.Diff.{laps_of, laps_more, lap_row, or_zero, changed, epoch_or, diff_rows}
use openlaps.Field.Mirror.{Reader, Table, cars_in, read_row, read_rows, read_row-cars}

module _ (number : Number) where
  open number use {N, eq_n}

  -- The lap `n` of the car of the row.
  pub record IsLap (source : String) (n : ℤ) (row : CarRow N) (lap : LapRow N) : Type 0 where
    pub same_source : lap.source ≡ source
    pub same_car_number : lap.car_number ≡ row.car_number
    pub same_time : lap.time ≡ row.time
    pub numbered : lap.lap_number ≡ n
    pub timed : lap.lap_time_s ≡ row.last_lap_s
    pub placed : lap.position ≡ row.position

  -- The laps that are told of with a row: one if its count is greater than that of the row held.
  pub data LapTold (source : String) (row : CarRow N)
      : Option (CarRow N) → List (LapRow N) → Type 0 where
    unknown : LapTold source row none []
    uncounted :
        {held : CarRow N}
        → (row.laps ≡ none) ⊎ (held.laps ≡ none)
        → LapTold source row (some held) []
    no_more :
        {held : CarRow N} (n m : ℤ)
        → row.laps ≡ some n
        → held.laps ≡ some m
        → int_lt m n ≡ false
        → LapTold source row (some held) []
    one_more :
        {held : CarRow N} (n m : ℤ) (lap : LapRow N)
        → row.laps ≡ some n
        → held.laps ≡ some m
        → int_lt m n ≡ true
        → IsLap source n row lap
        → LapTold source row (some held) (lap ∷ [])

  abbrev pub in_epoch : N → CarRow N → CarRow N
  in_epoch e car = record car { epoch = e }

  -- The reader, the rows of a table that it does not see, and the rows and laps that are emitted for them: a row of the
  -- table is emitted, and the reader holds it then, or the reader holds one that says the same.
  pub data Follows (source : String) (e : N)
      : Reader N → List (CarRow N) → List (CarRow N) → List (LapRow N) → Type 0 where
    over : {r : Reader N} → Follows source e r [] [] []
    says :
        {r : Reader N} {cars rows : List (CarRow N)} {laps more : List (LapRow N)} (car : CarRow N)
        → LapTold source (in_epoch e car) (lookup car.car_number (cars_in number r e)) laps
        → Follows source e (read_row number r (in_epoch e car)) cars rows more
        → Follows source e r (car ∷ cars) (in_epoch e car ∷ rows) (laps ++ more)
    silent :
        {r : Reader N} {cars rows : List (CarRow N)} {more : List (LapRow N)} (car held : CarRow N)
        → lookup car.car_number (cars_in number r e) ≡ some held
        → same_car number (in_epoch e car) held ≡ true
        → Follows source e r cars rows more
        → Follows source e r (car ∷ cars) rows more

  -- A feed: its tables one after the other, each in its epoch.
  pub data AreTold (source : String)
      : Reader N → List (Table N) → List (CarRow N) → List (LapRow N) → Type 0 where
    over : {r : Reader N} → AreTold source r [] [] []
    tells :
        {r : Reader N} {tables : List (Table N)} {rows more : List (CarRow N)}
        {laps more_laps : List (LapRow N)} (e : N) (t : Table N)
        → Follows source e r t.rows rows laps
        → AreTold source (read_rows number r rows) tables more more_laps
        → AreTold source r (t ∷ tables) (rows ++ more) (laps ++ more_laps)

  laps_of-LapTold :
      (source : String) (session : Option (SessionRow N)) (row : CarRow N) (o : Option (CarRow N))
      → LapTold source row o (laps_of number source session row o)
  unfolding lap_row
  laps_of-LapTold source session row none = unknown
  laps_of-LapTold source session row (some held) = go row.laps held.laps refl refl
    where
      go :
          (now before : Option ℤ)
          → row.laps ≡ now
          → held.laps ≡ before
          → LapTold source row
              (some held)
              (if laps_more now before then lap_row source session row ∷ [] else [])
      go none before p q = uncounted (inl p)
      go (some n) none p q = uncounted (inr q)
      go (some n) (some m) p q = elim (Bool-cases (int_lt m n)) [
        | inr e ↦ rw e (no_more n m p q e)
        | inl e ↦ rw e (
            one_more n m (lap_row source session row) p q e (record {
              same_source = refl;
              same_car_number = refl;
              same_time = refl;
              numbered = ap or_zero p;
              timed = refl;
              placed = refl;
            }))
      ]

  changed-held :
      (row : CarRow N) (o : Option (CarRow N))
      → changed number row o ≡ false
      → (held : CarRow N) × (o ≡ some held) × (same_car number row held ≡ true)
  changed-held row none h = absurd (cc h)
  changed-held row (some held) h = (held, refl, opened (same_car number row held) h)
    where
      opened : (b : Bool) → not b ≡ false → b ≡ true
      opened true h = refl
      opened false h = absurd (cc h)

  pub diff_rows-Follows :
      (law : (x : N) → eq_n x x ≡ true) (f : FieldState N) (cars : List (CarRow N)) (at : N)
      (r : Reader N)
      → cars_in number r (epoch_or f.epoch at) ≡ f.cars
      → Follows f.source
          (epoch_or f.epoch at)
          r
          cars
          (diff_rows number f cars at).1.0
          (diff_rows number f cars at).1.1
  unfolding diff_rows
  diff_rows-Follows law f [] at r h = over
  diff_rows-Follows law f (car ∷ cars) at r h =
      let e = epoch_or f.epoch at in
      let row = in_epoch e car in
      let known = lookup row.car_number f.cars in
      elim (Bool-cases (changed number row known)) [
        | inr q ↦
            let (held, found, same) = changed-held row known q in
            rw q (
              silent car held (ap (lookup car.car_number) h ∙ found) same
                (diff_rows-Follows law f cars at r h))
        | inl q ↦
            let f1 : FieldState N = record f { cars = insert row.car_number row f.cars } in
            rw q (
              says car
                (subst (λ o. LapTold f.source row o (laps_of number f.source f.session row known))
                  (ap (lookup car.car_number) (sym h))
                  (laps_of-LapTold f.source f.session row known))
                (diff_rows-Follows law f1 cars at (read_row number r row)
                  (read_row-cars number law e f.cars r row refl h)))
      ]
