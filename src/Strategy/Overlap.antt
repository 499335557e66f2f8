-- ===== src/Strategy/Overlap.antt =====
-- src/pit/strategy/model.py (clean_laps): a lap that the burn is computed from was driven outside every pit stop.
use openlaps.Common.{
  ◌≡◌, ◌⊎◌, inl, inr, refl, Bool, true, false, ◌&&◌, ◌||◌, Option, none, some, List, [], ◌∷◌, ◌==◌,
  string_eq, All, arith, Bool-cases, Option-cases,
}
use openlaps.Common.Number.{Number}
use openlaps.Strategy.{LapFact, StopFact, StrategyPolicy, Arithmetic}
use openlaps.Strategy.Burn.{
  positive, lap_window, falls, lasts, stop_touches, any_touches, window_touches, touches_pits,
  is_candidate, candidates_of, no_slower, within_ceiling, ceiling_of, clean_laps,
}

-- Of two numbers one is no greater than the other, as for floats that are no NaN.
pub record IsTotal (number : Number) : Type 0 where
  pub from_lt : (a b : number.N) → number.lt_n a b ≡ false → number.le_n b a ≡ true
  pub total : (a b : number.N) → number.le_n a b ≡ false → number.le_n b a ≡ true

module _ (number : Number) (arithmetic : Arithmetic number.N) where
  open number use {N, lt_n, le_n}

  -- The stop is over by the start of the lap, or begins after its end.
  abbrev pub Outside : N → N → StopFact N → Type 0
  Outside start end stop =
      (le_n stop.entry_at end ≡ false)
      ⊎ ((exit : N) × (stop.exit_at ≡ some exit) × (lt_n start exit ≡ false))

  -- The lap is valid, timed and measured, and all the stops are outside of it.
  pub record IsClean (stops : List (StopFact N)) (lap : LapFact N) : Type 0 where
    pub start : N
    pub end : N
    pub window : lap_window number arithmetic lap ≡ some (start, end)
    pub outside : All (Outside start end) stops
    pub measured : lap.measurement_status ≡ "clean"
    pub counts : lap.valid ≡ true
    pub burned : positive number arithmetic lap.fuel_used_l ≡ true

  or_false : (a b : Bool) → (a || b) ≡ false → (a ≡ false) × (b ≡ false)
  or_false false b h = (refl, h)
  or_false true b h = absurd (cc h)

  stop-Outside :
      (law : IsTotal number) (start end : N) (stop : StopFact N)
      → stop_touches number arithmetic start end stop ≡ false
      → Outside start end stop
  stop-Outside law start end stop h = elim (Bool-cases (le_n stop.entry_at end)) [
    | inr e ↦ inl e
    | inl e ↦
        let at_entry = falls number arithmetic start end (some stop.entry_at) in
        let at_exit = falls number arithmetic start end stop.exit_at in
        let around = le_n stop.entry_at start && lasts number arithmetic end stop.exit_at in
        let (first_two, third) = or_false (at_entry || at_exit) around h in
        let (first, second) = or_false at_entry at_exit first_two in
        let late : le_n stop.entry_at start ≡ true =
          law.from_lt start stop.entry_at (ground (arith, first, e)) in
        elim (Option-cases stop.exit_at) [
          | inl q ↦ absurd (
              let z : (le_n stop.entry_at start && true) ≡ false = rw q at third in
              ground (arith, late, z))
          | inr (exit, q) ↦ elim (Bool-cases (lt_n start exit)) [
            | inr z ↦ inr (exit, q, z)
            | inl z ↦
                let inside : (lt_n start exit && le_n exit end) ≡ false = rw q at second in
                let beyond : (le_n stop.entry_at start && le_n end exit) ≡ false = rw q at third in
                let after : le_n end exit ≡ true = law.total exit end (ground (arith, inside, z)) in
                absurd (ground (arith, beyond, late, after))
          ]
        ]
  ]

  any-Outside :
      (law : IsTotal number) (start end : N) (stops : List (StopFact N))
      → any_touches number arithmetic start end stops ≡ false
      → All (Outside start end) stops
  unfolding any_touches
  any-Outside law start end [] h = tt
  any-Outside law start end (stop ∷ stops) h =
      let (one, rest) = or_false _ _ h in
      (stop-Outside law start end stop one, any-Outside law start end stops rest)

  abbrev Timed : List (StopFact N) → Option (N × N) → Type 0
  Timed stops o = (start : N) × (end : N) × (o ≡ some (start, end)) × All (Outside start end) stops

  window-Timed :
      (law : IsTotal number) (stops : List (StopFact N)) (o : Option (N × N))
      → window_touches number arithmetic o stops ≡ false
      → Timed stops o
  window-Timed law stops none h = absurd (cc h)
  window-Timed law stops (some (start, end)) h =
      (start, end, refl, any-Outside law start end stops h)

  candidate-IsClean :
      (law : IsTotal number) (stops : List (StopFact N)) (lap : LapFact N)
      → is_candidate number arithmetic stops lap ≡ true
      → IsClean stops lap
  unfolding is_candidate touches_pits
  candidate-IsClean law stops lap h =
      let free : window_touches number arithmetic (lap_window number arithmetic lap) stops ≡ false =
        ground (arith, h) in
      let clean : lap.measurement_status == "clean" ≡ true = ground (arith, h) in
      let (start, end, window, outside) =
        window-Timed law stops (lap_window number arithmetic lap) free in
      record {
        start = start;
        end = end;
        window = window;
        outside = outside;
        counts = ground (arith, h);
        burned = ground (arith, h);
        measured = (string_eq.same_iff lap.measurement_status "clean").0 clean;
      }

  candidates_of-IsClean :
      (law : IsTotal number) (stops : List (StopFact N)) (laps : List (LapFact N))
      → All (IsClean stops) (candidates_of number arithmetic stops laps)
  unfolding candidates_of
  candidates_of-IsClean law stops [] = tt
  candidates_of-IsClean law stops (lap ∷ laps) =
      elim (Bool-cases (is_candidate number arithmetic stops lap)) [
        | inl e ↦ rw e (candidate-IsClean law stops lap e, candidates_of-IsClean law stops laps)
        | inr e ↦ rw e (candidates_of-IsClean law stops laps)
      ]

  within_ceiling-All :
      (P : LapFact N → Type 0) (ceiling : N) (laps : List (LapFact N))
      → All P laps
      → All P (within_ceiling number arithmetic ceiling laps)
  unfolding within_ceiling
  within_ceiling-All P ceiling [] h = tt
  within_ceiling-All P ceiling (lap ∷ laps) (h, hs) =
      elim (Bool-cases (no_slower number arithmetic ceiling lap)) [
        | inl e ↦ rw e (h, within_ceiling-All P ceiling laps hs)
        | inr e ↦ rw e (within_ceiling-All P ceiling laps hs)
      ]

  -- Where the numbers are totally ordered, each lap that the burn is computed from is valid, is timed,
  -- and is measured as clean with some fuel used, and
  -- each pit stop begins after its end or is over by its start.
  pub clean_laps-IsClean :
      (law : IsTotal number) (laps : List (LapFact N)) (stops : List (StopFact N))
      (policy : StrategyPolicy N)
      → All (IsClean stops) (clean_laps number arithmetic laps stops policy)
  unfolding clean_laps
  clean_laps-IsClean law laps stops policy =
      let candidates = candidates_of number arithmetic stops laps in
      within_ceiling-All (IsClean stops) (ceiling_of number arithmetic policy candidates) candidates
        (candidates_of-IsClean law stops laps)
