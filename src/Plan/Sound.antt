-- ===== src/Plan/Sound.antt =====
-- A plan that is accepted is one that the team could race to.
use openlaps.Common.{
  ℕ, ◌≤◌, ◌≡◌, refl, String, Bool, true, false, not, ◌||◌, Option, none, some, List, [], ◌∷◌, ltb,
  length, ◌==◌, string_eq, arith, ◌⊎◌, Bool-cases, inl, inr, All,
}
use openlaps.Common.Dict.{Dict, insert}
use openlaps.Common.Int.{ℤ}
use openlaps.Common.Json.{
  Json, Items, Members, null, bool, int, float, str, arr, obj, end, member, get,
}
use openlaps.Common.Number.{Number}
use openlaps.Common.Checked.{Ensures, Ensures-ok, Ensures-err, Ensures->>=, Ensures-raise_if}
use openlaps.Common.Result.{ok}
use openlaps.Plan.{
  Floats, PlannedStop, RaceEnd, Fuel, Durations, RacePlan, max_stops, is_negative, any_not_positive,
  present, end_is_missing, xor_none, is_limit_key, count,
}
use openlaps.Plan.Validate.{
  number_value, whole_value, is_required, optional_number, optional_integer, required_number,
  required_integer, add_limit, parse_end, parse_fuel, parse_durations, parse_limits, parse_stop,
  parse_stops, validate_plan,
}

module _ (number : Number) (floats : Floats number.N) where
  open number use {N, of_ℕ, lt_n, le_n}

  -- The float of an integer, or a float that is finite.
  abbrev pub IsNumber : N → Type 0
  IsNumber x = ((n : ℤ) × (floats.of_int n ≡ ok x)) ⊎ (floats.is_finite x ≡ true)

  -- The value of such a number that is whole.
  pub record IsWhole (n : ℤ) : Type 0 where
    pub value : N
    pub proper : IsNumber value
    pub whole : floats.is_integer value ≡ true
    pub same : n ≡ floats.to_int value

  abbrev pub Each : {A : Type 0} → (A → Type 0) → Option A → Type 0
  Each P none = Unit
  Each P (some a) = P a

  -- The end that the authority goes by is there, and the laps, if there are any, are positive.
  pub record IsEnd (r : RaceEnd) : Type 0 where
    pub present : end_is_missing r.end_authority r.race_end_at_ms r.race_end_laps ≡ false
    pub positive : any_not_positive r.race_end_laps ≡ false
    pub whole_time : Each IsWhole r.race_end_at_ms
    pub whole_laps : Each IsWhole r.race_end_laps

  -- At a lap or at a time, not both; the lap is positive.
  pub record IsStop (s : PlannedStop) : Type 0 where
    pub one_place : xor_none s.at_lap s.at_ms ≡ true
    pub positive : any_not_positive s.at_lap ≡ false
    pub whole_lap : Each IsWhole s.at_lap
    pub whole_time : Each IsWhole s.at_ms

  pub record IsDurations (d : Durations) : Type 0 where
    pub refuel : is_negative d.refuel_min_s ≡ false
    pub service : is_negative d.service_typical_s ≡ false
    pub whole_refuel : IsWhole d.refuel_min_s
    pub whole_service : IsWhole d.service_typical_s

  abbrev pub IsLimit : String × ℤ → Type 0
  IsLimit (key, minutes) =
      (is_limit_key key ≡ true) × (is_negative minutes ≡ false) × IsWhole minutes

  -- There is fuel, and no more usable than the tank holds.
  pub record IsFuel (fuel : Fuel N) : Type 0 where
    pub tank : le_n fuel.tank_l (of_ℕ 0) ≡ false
    pub usable : le_n fuel.usable_fuel_l (of_ℕ 0) ≡ false
    pub fits : lt_n fuel.tank_l fuel.usable_fuel_l ≡ false
    pub proper_tank : IsNumber fuel.tank_l
    pub proper_usable : IsNumber fuel.usable_fuel_l

  pub record IsPlan (p : RacePlan N) : Type 0 where
    pub race_end : IsEnd p.race_end
    pub fuel : IsFuel p.fuel
    pub durations : IsDurations p.durations
    pub limits : All IsLimit p.driver_limits
    pub few_stops : length p.planned_stops ≤ max_stops
    pub stops : All IsStop p.planned_stops

  number-IsNumber :
      (value : Option (Json N)) → Ensures (Each IsNumber) (number_value number floats value)
  number-IsNumber none = Ensures-ok _ tt
  number-IsNumber (some (int n)) = Ensures->>= _ _ λ x e. Ensures-ok _ (inl (n, e))
  number-IsNumber (some (float x)) = elim (Bool-cases (floats.is_finite x)) [
    | inl e ↦ rw e (Ensures-ok _ (inr e))
    | inr e ↦ rw e (Ensures-err _)
  ]
  number-IsNumber (some null) = Ensures-err _
  number-IsNumber (some (bool b)) = Ensures-err _
  number-IsNumber (some (str t)) = Ensures-err _
  number-IsNumber (some (arr items)) = Ensures-err _
  number-IsNumber (some (obj members)) = Ensures-err _

  is_required-Each :
      {A : Type 0} (P : A → Type 0) (o : Option A)
      → Each P o
      → Ensures P (is_required number floats o)
  is_required-Each P none h = Ensures-err _
  is_required-Each P (some a) h = Ensures-ok _ h

  whole_value-IsWhole :
      (o : Option N) → Each IsNumber o → Ensures (Each IsWhole) (whole_value number floats o)
  whole_value-IsWhole none h = Ensures-ok _ tt
  whole_value-IsWhole (some x) h = elim (Bool-cases (floats.is_integer x)) [
    | inl e ↦ rw e (Ensures-ok _ (record { value = x; proper = h; whole = e; same = refl }))
    | inr e ↦ rw e (Ensures-err _)
  ]

  optional-IsWhole :
      (value : Option (Json N)) → Ensures (Each IsWhole) (optional_integer number floats value)
  unfolding optional_integer optional_number
  optional-IsWhole value =
      Ensures->>= _ _ λ x e. whole_value-IsWhole x ((number-IsNumber (present value)).holds x e)

  required-IsWhole :
      (value : Option (Json N)) → Ensures IsWhole (required_integer number floats value)
  unfolding required_integer
  required-IsWhole value =
      Ensures->>= _ _ λ n e. is_required-Each IsWhole n ((optional-IsWhole value).holds n e)

  required-IsNumber :
      (value : Option (Json N)) → Ensures IsNumber (required_number number floats value)
  unfolding required_number optional_number
  required-IsNumber value =
      Ensures->>= _ _
        λ x e. is_required-Each IsNumber x ((number-IsNumber (present value)).holds x e)

  parse_fuel-IsFuel : (body : Members N) → Ensures IsFuel (parse_fuel number floats body)
  unfolding parse_fuel
  parse_fuel-IsFuel body = Ensures->>= _ _ λ tank e1. Ensures->>= _ _ λ usable e2.
      Ensures-raise_if _ _ _ λ b1. Ensures-raise_if _ _ _ λ b2. Ensures-raise_if _ _ _ λ b3.
        Ensures-ok _ (record {
          tank = b1;
          usable = b2;
          fits = b3;
          proper_tank = (required-IsNumber (get body "tank_l")).holds tank e1;
          proper_usable = (required-IsNumber (get body "usable_fuel_l")).holds usable e2;
        })

  parse_end-IsEnd : (body : Members N) → Ensures IsEnd (parse_end number floats body)
  unfolding parse_end
  parse_end-IsEnd body = Ensures->>= _ _ λ at_ms e1. Ensures->>= _ _ λ at_laps e2.
      Ensures-raise_if _ _ _ λ b1. Ensures-raise_if _ _ _ λ b2. Ensures->>= _ _ λ authority e3.
        Ensures-raise_if _ _ _ λ b3. Ensures-ok _ (record {
          present = b3;
          positive = b2;
          whole_time = (optional-IsWhole (get body "race_end_at_ms")).holds at_ms e1;
          whole_laps = (optional-IsWhole (get body "race_end_laps")).holds at_laps e2;
        })

  parse_durations-IsDurations :
      (body : Members N) → Ensures IsDurations (parse_durations number floats body)
  unfolding parse_durations
  parse_durations-IsDurations body = Ensures->>= _ _ λ refuel e1. Ensures->>= _ _ λ service e2.
      Ensures-raise_if _ _ _ λ b. Ensures-ok _ (record {
        refuel = left (is_negative refuel) (is_negative service) b;
        service = right (is_negative refuel) (is_negative service) b;
        whole_refuel = (required-IsWhole (get body "refuel_min_s")).holds refuel e1;
        whole_service = (required-IsWhole (get body "service_typical_s")).holds service e2;
      })
    where
      left : (a b : Bool) → a || b ≡ false → a ≡ false
      left a b h = ground arith

      right : (a b : Bool) → a || b ≡ false → b ≡ false
      right a b h = ground arith

  not-false : (b : Bool) → not b ≡ false → b ≡ true
  not-false b h = ground arith

  parse_stop-IsStop : (raw : Json N) → Ensures IsStop (parse_stop number floats raw)
  unfolding parse_stop
  parse_stop-IsStop (obj raw) = Ensures->>= _ _ λ type e1. Ensures->>= _ _ λ at_lap e2.
      Ensures->>= _ _ λ at_ms e3. Ensures-raise_if _ _ _ λ b1. Ensures-raise_if _ _ _ λ b2.
        Ensures->>= _ _ λ driver e4. Ensures-ok _ (record {
          one_place = not-false (xor_none at_lap at_ms) b1;
          positive = b2;
          whole_lap = (optional-IsWhole (get raw "at_lap")).holds at_lap e2;
          whole_time = (optional-IsWhole (get raw "at_ms")).holds at_ms e3;
        })
  parse_stop-IsStop null = Ensures-err _
  parse_stop-IsStop (bool b) = Ensures-err _
  parse_stop-IsStop (int n) = Ensures-err _
  parse_stop-IsStop (float x) = Ensures-err _
  parse_stop-IsStop (str t) = Ensures-err _
  parse_stop-IsStop (arr items) = Ensures-err _

  -- As many stops as the list has, each of them well placed.
  AreStops : Items N → List PlannedStop → Type 0
  AreStops raw stops = (length stops ≡ count raw) × All IsStop stops

  parse_stops-All : (raw : Items N) → Ensures (AreStops raw) (parse_stops number floats raw)
  unfolding parse_stops AreStops
  parse_stops-All Items.[] = Ensures-ok _ (refl, tt)
  parse_stops-All (Items.◌∷◌ raw rest) = Ensures->>= _ _ λ stop e1. Ensures->>= _ _ λ stops e2.
      let tail = (parse_stops-All rest).holds stops e2 in
      Ensures-ok _ (omega (arith, tail.0), ((parse_stop-IsStop raw).holds stop e1, tail.1))

  insert-IsLimit :
      (key : String) (minutes : ℤ) (limits : Dict String ℤ)
      → IsLimit (key, minutes)
      → All IsLimit limits
      → All IsLimit (insert key minutes limits)
  unfolding insert
  insert-IsLimit key minutes [] p h = (p, tt)
  insert-IsLimit key minutes ((k, n) ∷ limits) (named, counts, w) ((named', counts', w'), h) =
      elim (Bool-cases (k == key)) [
        | inl e ↦ rw e ((named', counts, w), h)
        | inr e ↦
            rw e ((named', counts', w'), insert-IsLimit key minutes limits (named, counts, w) h)
      ]

  add_limit-IsLimit :
      (key : String) (minutes : Option ℤ) (limits : Dict String ℤ)
      → is_limit_key key ≡ true
      → Each IsWhole minutes
      → All IsLimit limits
      → Ensures (All IsLimit) (add_limit number floats key minutes limits)
  add_limit-IsLimit key none limits named w h = Ensures-ok _ h
  add_limit-IsLimit key (some minutes) limits named w h =
      Ensures-raise_if _ _ _ λ b. Ensures-ok _ (insert-IsLimit key minutes limits (named, b, w) h)

  parse_limits-All :
      (raw : Members N) (limits : Dict String ℤ)
      → All IsLimit limits
      → Ensures (All IsLimit) (parse_limits number floats raw limits)
  unfolding parse_limits
  parse_limits-All end limits h = Ensures-ok _ h
  parse_limits-All (member key value rest) limits h = Ensures-raise_if _ _ _ λ b.
      Ensures->>= _ _ λ minutes e1. Ensures->>= _ _ λ limits' e2. parse_limits-All rest limits' (
        (add_limit-IsLimit key minutes limits (not-false (is_limit_key key) b)
            ((optional-IsWhole (some value)).holds minutes e1) h).holds
          limits' e2)

  -- A plan that `validate_plan` returns has an end that its authority goes by, with positive laps if it counts laps;
  -- fuel, with no more usable than the tank holds; no negative duration and no negative or unknown driver limit; and at
  -- most 50 stops, each placed by a positive lap or by a time, not by both. Each number of it was an integer or a
  -- finite float, and each time, lap, duration and limit is the value of a whole one.
  pub validate_plan-IsPlan :
      (body : Members N) (plan : RacePlan N)
      → validate_plan number floats body ≡ ok plan
      → IsPlan plan
  unfolding validate_plan AreStops
  validate_plan-IsPlan body plan = (all_checked body).holds plan
    where
      few : (n : ℕ) → ltb max_stops n ≡ false → n ≤ max_stops
      few n h = ground arith

      all_checked : (body : Members N) → Ensures IsPlan (validate_plan number floats body)
      all_checked body = Ensures->>= _ _ λ race_end e1. Ensures->>= _ _ λ fuel e2.
          Ensures->>= _ _ λ durations e3. Ensures->>= _ _ λ limits_raw e4.
            Ensures->>= _ _ λ limits e5. Ensures->>= _ _ λ stops_raw e6. Ensures-raise_if _ _ _ λ b.
              Ensures->>= _ _ λ stops e7. Ensures->>= _ _ λ car e8. Ensures->>= _ _ λ by e9.
                let placed = (parse_stops-All stops_raw).holds stops e7 in
                Ensures-ok _ (record {
                  race_end = (parse_end-IsEnd body).holds race_end e1;
                  fuel = (parse_fuel-IsFuel body).holds fuel e2;
                  durations = (parse_durations-IsDurations body).holds durations e3;
                  limits = (parse_limits-All limits_raw [] tt).holds limits e5;
                  few_stops = omega (arith, placed.0, few (count stops_raw) b);
                  stops = placed.1;
                })
