-- ===== src/Strategy/Stops/Legs.antt =====
-- src/pit/strategy/model.py (_stop_plan): where the simulated stops stand, and what the fuel allows between them.
use openlaps.Common.{
  ℕ, zero, suc, ◌+◌, ◌-◌, ◌≤◌, ◌<◌, ◌≡◌, refl, Bool, true, false, Option, none, some, List, [], ◌∷◌,
  if◌then◌else◌, arith, Bool-cases, ◌⊎◌, inl, inr, subst,
}
use openlaps.Common.Number.{Number}
use openlaps.Strategy.{PlannedStop, PlanFacts, StrategyPolicy, Arithmetic, clamp}
use openlaps.Strategy.Stops.{
  Stop, Walk, is_timed, laps_driver, least, can, refuels, remaining_after, stop_of, walk_after,
  goes_on, walk, limit_of, start_of, remaining_planned, stop_plan,
}

-- The stops `room` at most, from lap `lap` with fuel for `tank` laps, before lap `end`: each is no earlier than the
-- one before it and before the end, and no leg is longer than the fuel allows. Unless the room is used up, the fuel
-- after the last stop reaches the end. A stop that refuels gives fuel for `full` laps.
abbrev pub Covers : {N : Type 0} → ℕ → ℕ → ℕ → ℕ → ℕ → List (Stop N) → Type 0
Covers full end room tank lap [] = (room ≡ 0) ⊎ (end ≤ lap + tank)
Covers full end zero tank lap (stop ∷ stops) = ◌≡◌ {A = Bool} true false
Covers full end (suc room) tank lap (stop ∷ stops) =
    (lap ≤ stop.lap)
    × (stop.lap < end)
    × (stop.lap ≤ lap + tank)
    × Covers full end room (if stop.refuel then full else lap + tank - stop.lap) stop.lap stops

module _ (number : Number) (arithmetic : Arithmetic number.N) (plan : PlanFacts number.N)
    (planned : List (PlannedStop number.N)) (lap_count : ℕ) (full_range_lo lap_time_s : number.N)
    (limit : Option number.N) (now : number.N) where
  open number use {N, of_ℕ, sub, lt_n}

  abbrev pub tank_of : N → ℕ
  tank_of x = clamp (arithmetic.floor x)

  abbrev next_walk : Walk N → Walk N
  next_walk w =
      walk_after number arithmetic plan planned lap_count full_range_lo lap_time_s limit now w

  abbrev next_stop : Walk N → Stop N
  next_stop w =
      stop_of number arithmetic plan planned lap_count full_range_lo lap_time_s limit now w

  least-le : (n : ℕ) (o : Option ℕ) → least number arithmetic n o ≤ n
  least-le n none = omega arith
  least-le n (some m) = ground arith

  can-le : (w : Walk N) → can number arithmetic lap_time_s w ≤ tank_of w.fuel_laps
  unfolding can
  can-le w = least-le (tank_of w.fuel_laps) (laps_driver number arithmetic lap_time_s w.drive_left)

  remaining-laps :
      (clock : N) (remaining : ℕ)
      → is_timed number arithmetic plan ≡ false
      → remaining_after number arithmetic plan lap_time_s clock remaining ≡ remaining
  remaining-laps clock remaining by_laps = go plan.race_end_at
    where
      go :
          (o : Option N)
          → remaining_after number arithmetic
              (record plan { race_end_at = o })
              lap_time_s
              clock
              remaining
            ≡ remaining
      go none = refl
      go (some end_at) = rw by_laps refl

  goes_on-true :
      (w : Walk N)
      → goes_on number arithmetic plan planned lap_count full_range_lo lap_time_s limit now w ≡ true
      → can number arithmetic lap_time_s w < w.remaining
  unfolding goes_on
  goes_on-true w h = ground (arith, h)

  goes_on-false :
      (w : Walk N)
      → goes_on number arithmetic plan planned lap_count full_range_lo lap_time_s limit now w
        ≡ false
      → w.remaining ≤ can number arithmetic lap_time_s w
  unfolding goes_on
  goes_on-false w h = ground (arith, h)

  tank-after :
      (b : Bool) (x : N) (driven lap : ℕ)
      → ((y : N) (n : ℕ) → tank_of (sub y (of_ℕ n)) ≡ tank_of y - n)
      → tank_of (if b then full_range_lo else sub x (of_ℕ driven))
        ≡ (if b then tank_of full_range_lo else lap + tank_of x - (lap + driven))
  tank-after true x driven lap law = refl
  tank-after false x driven lap law = rw (law x driven) (omega arith)

  walk-Covers :
      (room : ℕ) (w : Walk N)
      → is_timed number arithmetic plan ≡ false
      → ((y : N) (n : ℕ) → tank_of (sub y (of_ℕ n)) ≡ tank_of y - n)
      → Covers
          (tank_of full_range_lo)
          (w.lap + w.remaining)
          room
          (tank_of w.fuel_laps)
          w.lap
          (walk number arithmetic plan planned lap_count full_range_lo lap_time_s limit now room w)
  unfolding walk walk_after stop_of
  walk-Covers zero w by_laps law = inl refl
  walk-Covers (suc room) w by_laps law =
      elim (Bool-cases
        (goes_on number arithmetic plan planned lap_count full_range_lo lap_time_s limit now w)) [
          | inr e ↦ rw e (inr (omega (arith, goes_on-false w e, can-le w)))
          | inl e ↦
              let driven = can number arithmetic lap_time_s w in
              let less : driven < w.remaining = goes_on-true w e in
              let rest = walk-Covers room (next_walk w) by_laps law in
              rw e (
                unfold stop_of in omega arith,
                unfold stop_of in omega (arith, less),
                unfold stop_of in omega (arith, can-le w),
                moved w less rest,
              )
        ]
    where
      moved :
          (w : Walk N)
          → can number arithmetic lap_time_s w < w.remaining
          → Covers
              (tank_of full_range_lo)
              ((next_walk w).lap + (next_walk w).remaining)
              room
              (tank_of (next_walk w).fuel_laps)
              (next_walk w).lap
              (walk number arithmetic plan planned lap_count full_range_lo lap_time_s limit now room
                (next_walk w))
          → Covers
              (tank_of full_range_lo)
              (w.lap + w.remaining)
              room
              (if (next_stop w).refuel
                then tank_of full_range_lo
                else w.lap + tank_of w.fuel_laps - (next_stop w).lap)
              (next_stop w).lap
              (walk number arithmetic plan planned lap_count full_range_lo lap_time_s limit now room
                (next_walk w))
      moved w less h =
          let stops =
            walk number arithmetic plan planned lap_count full_range_lo lap_time_s limit now room
              (next_walk w) in
          let end_same : (next_walk w).lap + (next_walk w).remaining ≡ w.lap + w.remaining =
            unfold walk_after stop_of in rw (remaining-laps _ _ by_laps) (omega (arith, less)) in
          let tank_same =
            tank-after (refuels number arithmetic lap_time_s w) w.fuel_laps
              (can number arithmetic lap_time_s w) w.lap law in
          subst
            (λ (e : ℕ).
              Covers (tank_of full_range_lo) e room
                (if refuels number arithmetic lap_time_s w
                  then tank_of full_range_lo
                  else w.lap + tank_of w.fuel_laps - (w.lap + can number arithmetic lap_time_s w))
                (w.lap + can number arithmetic lap_time_s w) stops)
            end_same
            (subst
              (λ (t : ℕ).
                Covers (tank_of full_range_lo) ((next_walk w).lap + (next_walk w).remaining) room t
                  (w.lap + can number arithmetic lap_time_s w) stops)
              tank_same h)

-- The simulated stops of a race that ends after a number of laps, where a tank gives a lap at least and taking whole
-- laps from the fuel takes as many from its floor: there are as many as the policy allows at most, each is no earlier
-- than the one before it and before the end, and no leg is longer than the fuel allows. Unless there are as many as
-- the policy allows, the fuel after the last stop reaches the end.
pub stop_plan-Covers :
    (number : Number) (arithmetic : Arithmetic number.N) (plan : PlanFacts number.N)
    (lap_count laps : ℕ) (laps_lo full_range_lo lap_time_s : number.N)
    (driver_remaining_s : Option number.N) (now : number.N) (policy : StrategyPolicy number.N)
    → is_timed number arithmetic plan ≡ false
    → number.lt_n full_range_lo (number.of_ℕ 1) ≡ false
    → ((y : number.N) (n : ℕ)
        → clamp (arithmetic.floor (number.sub y (number.of_ℕ n))) ≡ clamp (arithmetic.floor y) - n)
    → Covers
        (clamp (arithmetic.floor full_range_lo))
        (lap_count + laps)
        policy.max_simulated_stops
        (clamp (arithmetic.floor laps_lo))
        lap_count
        (stop_plan number arithmetic plan lap_count
          (some laps)
          laps_lo
          full_range_lo
          lap_time_s
          driver_remaining_s
          now
          policy)
unfolding stop_plan
stop_plan-Covers number arithmetic plan lap_count laps laps_lo full_range_lo lap_time_s
      driver_remaining_s now policy by_laps enough law =
    rw enough (
      walk-Covers number arithmetic plan
        (remaining_planned number arithmetic lap_count now plan.planned_stops) lap_count
        full_range_lo lap_time_s (limit_of number arithmetic plan "max_continuous_min") now
        policy.max_simulated_stops
        (start_of number arithmetic plan lap_count laps laps_lo driver_remaining_s now) by_laps law)
