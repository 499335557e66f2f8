-- ===== src/Watch/Engine/Ticks.antt =====
-- src/pit/watch/engine.py (WatchEngine): the order of the ticks that give rows, and of the readings.
use openlaps.Common.{
  ◌≡◌, refl, sym, String, Bool, true, false, not, ◌&&◌, ◌||◌, Option, none, some, List, [], ◌∷◌,
  if◌then◌else◌, ◌==◌, Bool-cases, ◌⊎◌, inl, inr, string_eq,
}
use openlaps.Common.Dict.{Dict, lookup, insert, lookup-insert}
use openlaps.Common.Json.{Json, Members, get, null, bool, int, float, str, arr, obj}
use openlaps.Common.Number.{Number}
use openlaps.Common.Result.{Result, ok, ◌>>=◌, >>=-eq-ok}
use openlaps.Watch.{Raised, Reading, Row, Maths}
use openlaps.Watch.Engine.{
  Value, number_value, document, WatchEngine, is_input, is_str, pit_all, lap_all, lap_event,
  not_after, from_on, newer, observe_event, observe_sample, observe, tick_all, tick,
}

pub data Call (N : Type 0) : Type 0 where
  observes : String → Value N → N → String → Call N
  ticks : N → Bool → Call N

module _ (number : Number) (maths : Maths number.N) (truth : Json number.N → Bool)
    (uid : String → String) where
  open number use {N, lt_n, le_n}

  abbrev with_times :
      WatchEngine N
      → List (N × Dict String (Row N))
      → WatchEngine N × List (N × Dict String (Row N))
  with_times e rows = (e, rows)

  -- A run ends at an exception. Each tick leaves its second and the rows that it returned.
  unfoldable pub run :
      WatchEngine N → List (Call N) → Result Raised (WatchEngine N × List (N × Dict String (Row N)))
  unfolding observe tick
  run e [] = ok (e, [])
  run e (observes channel value at unit ∷ calls) =
      observe number maths truth e channel value at unit uid >>= λ e'. run e' calls
  run e (ticks at active ∷ calls) = tick number maths truth e at active uid >>= λ p.
      run p.0 calls >>= λ q. ok (with_times q.0 ((at, p.1) ∷ q.1))

  -- Each tick gives no rows, or it is after the one before it that was evaluated.
  abbrev pub Advancing : Option N → List (N × Dict String (Row N)) → Type 0
  Advancing last [] = Unit
  Advancing last ((at, rows) ∷ rest) =
      ((rows ≡ []) × (not_after number maths truth last at ≡ true) × Advancing last rest)
      ⊎ ((not_after number maths truth last at ≡ false) × Advancing (some at) rest)

  -- What an observation leaves alone, and what it may do to the readings.
  pub record Observes (e e' : WatchEngine N) : Type 0 where
    pub same_tick : e'.last_tick ≡ e.last_tick
    pub readings :
        (c : String) (r : Reading N)
        → lookup c e'.readings ≡ some r
        → (lookup c e.readings ≡ some r) ⊎ (not_after number maths truth e.last_tick r.time ≡ false)
    pub newer_only :
        (c : String) (r : Reading N)
        → lookup c e.readings ≡ some r
        → (r' : Reading N) × (lookup c e'.readings ≡ some r')
          × ((r' ≡ r) ⊎ (le_n r.time r'.time ≡ true))

  same-Observes :
      (e e' : WatchEngine N) → e'.last_tick ≡ e.last_tick → e'.readings ≡ e.readings → Observes e e'
  same-Observes e e' t h = record {
    same_tick = t;
    readings = λ c r q. inl (rw h at q);
    newer_only = λ c r q. (r, rw h q, inl refl);
  }

  of_ok : (q p : WatchEngine N) → ◌≡◌ {A = Result Raised (WatchEngine N)} (ok q) (ok p) → q ≡ p
  of_ok q p e = cc e

  lap_event-Observes :
      (e e' : WatchEngine N) (event : Members N) (at : N)
      → lap_event number maths truth e event at uid ≡ ok e'
      → (e'.last_tick ≡ e.last_tick) × (e'.readings ≡ e.readings)
  unfolding lap_event
  lap_event-Observes e e' event at went =
      elim (Bool-cases (is_str (get event "type") "lap_completed")) [
        | inl q ↦
            let (monitors, _, end) =
              >>=-eq-ok (lap_all number maths truth e.monitors event at uid) _ (rw q at went) in
            let same : record e { monitors = monitors } ≡ e' = cc end in rw (sym same) (refl, refl)
        | inr q ↦
            elim (Bool-cases (
              is_str (get event "type") "pit_entry"
              || is_str (get event "type") "pit_exit"
              || is_str (get event "pit_status") "pit")) [
                | inl z ↦
                    let same : record e { monitors = pit_all e.monitors } ≡ e' =
                      of_ok _ e' (rw (q, z) at went) in
                    rw (sym same) (refl, refl)
                | inr z ↦
                    let same : e ≡ e' = of_ok e e' (rw (q, z) at went) in rw (sym same) (refl, refl)
              ]
      ]

  observe_event-Observes :
      (e e' : WatchEngine N) (value : Value N) (at : N)
      → observe_event number maths truth e value at uid ≡ ok e'
      → Observes e e'
  unfolding observe_event
  observe_event-Observes e e' (document (some (obj event))) at went =
      elim (Bool-cases (from_on number maths truth e.pit_time at)) [
        | inl q ↦
            let same =
              lap_event-Observes
                (record e { pit_status = get event "pit_status"; pit_time = some at }) e' event at
                (rw q at went) in
            same-Observes e e' same.0 same.1
        | inr q ↦ unchanged e e' (rw q at went)
      ]
    where
      unchanged :
          (e e' : WatchEngine N)
          → ◌≡◌ {A = Result Raised (WatchEngine N)} (ok e) (ok e')
          → Observes e e'
      unchanged e e' q = rw (sym (of_ok e e' q)) (same-Observes e e refl refl)
  observe_event-Observes e e' (document none) at went = absurd (cc went)
  observe_event-Observes e e' (number_value x) at went =
      rw (sym (of_ok e e' went)) (same-Observes e e refl refl)
  observe_event-Observes e e' (document (some null)) at went =
      rw (sym (of_ok e e' went)) (same-Observes e e refl refl)
  observe_event-Observes e e' (document (some (bool x))) at went =
      rw (sym (of_ok e e' went)) (same-Observes e e refl refl)
  observe_event-Observes e e' (document (some (int x))) at went =
      rw (sym (of_ok e e' went)) (same-Observes e e refl refl)
  observe_event-Observes e e' (document (some (float x))) at went =
      rw (sym (of_ok e e' went)) (same-Observes e e refl refl)
  observe_event-Observes e e' (document (some (str x))) at went =
      rw (sym (of_ok e e' went)) (same-Observes e e refl refl)
  observe_event-Observes e e' (document (some (arr x))) at went =
      rw (sym (of_ok e e' went)) (same-Observes e e refl refl)

  insert-Observes :
      (e : WatchEngine N) (channel : String) (new : Reading N)
      → not_after number maths truth e.last_tick new.time ≡ false
      → newer number maths truth (lookup channel e.readings) new.time ≡ true
      → Observes e (record e { readings = insert channel new e.readings })
  insert-Observes e channel new late later = record {
    same_tick = refl;
    readings = λ c r q. elim (Bool-cases (channel == c)) [
      | inl here ↦
          let found : some new ≡ some r = rw (lookup-insert channel c new e.readings, here) at q in
          let same : new ≡ r = cc found in inr (rw (sym same) late)
      | inr there ↦ inl (rw (lookup-insert channel c new e.readings, there) at q)
    ];
    newer_only = λ c r q. elim (Bool-cases (channel == c)) [
      | inl here ↦ (
        new,
        rw (lookup-insert channel c new e.readings) (rw here refl),
        inr (
            let key : channel ≡ c = (string_eq.same_iff channel c).0 here in
            let found : lookup channel e.readings ≡ some r = rw key q in rw found at later),
      )
      | inr there ↦ (r, rw (lookup-insert channel c new e.readings) (rw there q), inl refl)
    ];
  }

  observe_sample-Observes :
      (e : WatchEngine N) (channel : String) (value : Value N) (at : N) (unit : String)
      → not_after number maths truth e.last_tick at ≡ false
      → Observes e (observe_sample number maths truth e channel value at unit)
  unfolding observe_sample
  observe_sample-Observes e channel (document d) at unit late = same-Observes e e refl refl
  observe_sample-Observes e channel (number_value x) at unit late =
      elim (Bool-cases
        (maths.is_finite x && newer number maths truth (lookup channel e.readings) at)) [
          | inl q ↦ rw q (
              insert-Observes e channel (record { value = x; time = at; unit = unit }) late
                (second _ _ q))
          | inr q ↦ rw q (same-Observes e e refl refl)
        ]
    where
      second : (a b : Bool) → (a && b) ≡ true → b ≡ true
      second true b h = h
      second false b h = absurd (cc h)

  -- An observation that raises nothing leaves the last tick. It keeps a reading or puts another of the same time or
  -- later in its place, and each reading that it puts is after the last tick.
  pub observe-Observes :
      (e e' : WatchEngine N) (channel : String) (value : Value N) (at : N) (unit : String)
      → observe number maths truth e channel value at unit uid ≡ ok e'
      → Observes e e'
  unfolding observe
  observe-Observes e e' channel value at unit went =
      let late = not_after number maths truth e.last_tick at in
      let refused = not (is_input e channel) || not (maths.is_finite at) || late in
      elim (Bool-cases refused) [
        | inl q ↦ rw (sym (of_ok e e' (rw q at went))) (same-Observes e e refl refl)
        | inr q ↦ elim (Bool-cases (channel == "lap.event")) [
          | inl z ↦ observe_event-Observes e e' value at (rw (q, z) at went)
          | inr z ↦ rw (sym (of_ok _ e' (rw (q, z) at went))) (
              observe_sample-Observes e channel value at unit
                (third (not (is_input e channel)) (not (maths.is_finite at)) late q))
        ]
      ]
    where
      third : (a b c : Bool) → (a || b || c) ≡ false → c ≡ false
      third false false c h = h
      third true b c h = absurd (cc h)
      third false true c h = absurd (cc h)

  abbrev Rows : Type 0
  Rows = WatchEngine N × List (N × Dict String (Row N))

  of_ok_run : (q p : Rows) → ◌≡◌ {A = Result Raised Rows} (ok q) (ok p) → q ≡ p
  of_ok_run q p e = cc e

  of_ok_tick :
      (q p : WatchEngine N × Dict String (Row N))
      → ◌≡◌ {A = Result Raised (WatchEngine N × Dict String (Row N))} (ok q) (ok p)
      → q ≡ p
  of_ok_tick q p e = cc e

  tick-last_tick :
      (e : WatchEngine N) (at : N) (active : Bool) (p : WatchEngine N × Dict String (Row N))
      → tick number maths truth e at active uid ≡ ok p
      → p.0.last_tick
        ≡ (if not_after number maths truth e.last_tick at then e.last_tick else some at)
  unfolding tick
  tick-last_tick e at active p went =
      elim (Bool-cases (not_after number maths truth e.last_tick at)) [
        | inl late ↦ rw (sym (of_ok_tick _ p (rw late at went))) (rw late refl)
        | inr later ↦
            let (rows, _, end) =
              >>=-eq-ok
                (tick_all number maths truth (record e { last_tick = some at }) at active uid
                  e.monitors)
                _ (rw later at went) in
            rw (sym (of_ok_tick _ p end)) (rw later refl)
      ]

  late-no_rows :
      (e : WatchEngine N) (at : N) (active : Bool) (p : WatchEngine N × Dict String (Row N))
      → not_after number maths truth e.last_tick at ≡ true
      → tick number maths truth e at active uid ≡ ok p
      → p.1 ≡ []
  unfolding tick
  late-no_rows e at active p late went = rw (sym (of_ok_tick _ p (rw late at went))) refl

  Advancing-tick :
      (late : Bool) (last moved : Option N) (at : N) (rows : Dict String (Row N))
      (rest : List (N × Dict String (Row N)))
      → not_after number maths truth last at ≡ late
      → moved ≡ (if late then last else some at)
      → (late ≡ true → rows ≡ [])
      → Advancing moved rest
      → Advancing last ((at, rows) ∷ rest)
  Advancing-tick true last moved at rows rest e m empty h = inl (empty refl, e, rw (sym m) h)
  Advancing-tick false last moved at rows rest e m empty h = inr (e, rw (sym m) h)

  -- Through a run that raises nothing, of the rows that each tick returns: a tick that is not later than the last one
  -- that was evaluated gives no rows, and the seconds of the others advance, the first being after the last tick of
  -- the start.
  pub run-Advancing :
      (e : WatchEngine N) (calls : List (Call N))
      (p : WatchEngine N × List (N × Dict String (Row N)))
      → run e calls ≡ ok p
      → Advancing e.last_tick p.1
  unfolding run
  run-Advancing e [] p went = let same : with_times e [] ≡ p = cc went in rw (sym same) tt
  run-Advancing e (observes channel value at unit ∷ calls) p went =
      let (e', observed, rest) =
        >>=-eq-ok (observe number maths truth e channel value at unit uid) _ went in
      rw (sym (observe-Observes e e' channel value at unit observed).same_tick)
        (run-Advancing e' calls p rest)
  run-Advancing e (ticks at active ∷ calls) p went =
      let (one, ticked, rest) = >>=-eq-ok (tick number maths truth e at active uid) _ went in
      let (q, then_rest, end) = >>=-eq-ok (run one.0 calls) _ rest in
      let same = of_ok_run _ p end in
      rw (sym same) (
        Advancing-tick (not_after number maths truth e.last_tick at) e.last_tick one.0.last_tick at
          one.1 q.1 refl (tick-last_tick e at active one ticked)
          (λ late. late-no_rows e at active one late ticked)
          (run-Advancing one.0 calls q then_rest))
