-- ===== src/Watch/Examples.antt =====
-- An envelope that learns two seconds and then opens and closes a finding, a drift that judges a lap, a counter that
-- warms up, and an engine with all three.
use openlaps.Common.{
  ℕ, ◌-◌, ◌≡◌, ◌≢◌, refl, String, Bool, true, false, Option, none, some, List, [], ◌∷◌, map, eqb,
  if◌then◌else◌, arith, string_eq,
}
use openlaps.Common.Dict.{Dict, lookup, insert}
use openlaps.Common.Int.{pos}
use openlaps.Common.Json.{Json, Members, end, member, get, bool, str, obj}
use openlaps.Common.Number.{Number, whole}
use openlaps.Common.Result.{Result, ok, err}
use openlaps.Common.Text.{codes}
use openlaps.Watch.{
  Raised, key_error, index_error, Status, learning, ready, Reading, Readings, Finding, Row, Maths,
  reading, units_of, within, units_differ, holds, transition,
}
use openlaps.Watch.Story.{Story, silent}
use openlaps.Watch.Model.{
  EnvelopeConfig, Model, append_to, tabulate, freeze, learn, assess, judge, indices_of,
  envelope_evaluate,
}
use openlaps.Watch.Model.Run.{
  envelope, Second, IsLearned, NoOpinion, evaluate, run, findings_of, evaluate-NoOpinion, run-Story,
  run-IsLearned,
}
use openlaps.Watch.Counter.{CounterConfig, Counter, remember, drop_old, counter_evaluate}
use openlaps.Watch.Counter.Window.{
  Measures, counter_evaluate-NoIndexError, counter_evaluate-Measures,
}
use openlaps.Watch.Drift.{
  DriftConfig, Drift, both, keep_laps, freeze_laps, bank, judge_lap, on_lap, on_pit, drift_evaluate,
}
use openlaps.Watch.Drift.Laps.{IsDrift, on_lap-IsDrift}
use openlaps.Watch.Drift.Rows.{
  Input, laps, seconds, Owes, step, run as run_drift, findings_of as findings_of_drift, drift-Story,
}
use openlaps.Watch.Engine.{
  table_monitor, counter_monitor, drift_monitor, number_value, document, WatchEngine, is_input,
  pit_all, lap_all, lap_event, observe_event, observe_sample, observe, all_fresh, is_valid,
  evaluate_monitor, tick_monitor, tick_all, tick,
}
use openlaps.Watch.Engine.Present.{tick-NoKeyError}
use openlaps.Watch.Engine.Ticks.{
  run as run_engine, Call, observes, ticks, Advancing, Observes, observe-Observes, run-Advancing,
}

-- Statistics of the examples' values, all of whose bins hold one value.
abbrev first_of : List ℕ → ℕ
first_of [] = 0
first_of (x ∷ xs) = x

abbrev maths : Maths ℕ
maths = record {
  median = first_of;
  pstdev = λ xs. 0;
  expm1 = λ x. 0;
  floor = λ x. some (pos x);
  trunc = λ x. some (pos x);
  is_finite = λ x. true;
  key_text = λ is. "0";
  mad_factor = 1;
}

-- One second smooths the score in full.
abbrev quick : Number
quick = record whole { sub = λ a b. if eqb a 0 then (if eqb b 0 then 1 else 0) else a - b }

abbrev temperature : EnvelopeConfig ℕ
temperature = record {
  target = "engine.oil_t";
  conditioned_on = record { channel = "car.rpm"; bins = 1000; active_above = none } ∷ [];
  bands = record {
    baseline_seconds = 2;
    min_samples = 2;
    residual_sigma = 3;
    min_scale = 1;
    score_window = 1;
    open_finding_above = 0;
    severity = "warning";
  };
}

abbrev blank : Model ℕ
blank = record {
  learned = 0;
  frozen = false;
  bins = [];
  table = [];
  units = [];
  score = 0;
  finding = none;
}

abbrev sample : ℕ → ℕ → Reading ℕ
sample value time = record { value = value; time = time; unit = "" }

abbrev heard : ℕ → ℕ → Readings ℕ
heard at value = ("car.rpm", sample 3000 at) ∷ ("engine.oil_t", sample value at) ∷ []

abbrev second_at : ℕ → ℕ → Second ℕ
second_at at value = record { at = at; readings = heard at value; gate_open = true; uid = "f1" }

abbrev drive : List (Second ℕ)
drive = second_at 1 90 ∷ second_at 2 90 ∷ second_at 3 120 ∷ []

abbrev seen_status : Result Raised (Model ℕ × List (Row ℕ)) → List Status
seen_status (err e) = []
seen_status (ok (m, rows)) = map (λ (r : Row ℕ). r.baseline_status) rows

drive_status :
    seen_status (run quick maths (envelope temperature) blank drive)
    ≡ learning ∷ learning ∷ ready ∷ []
unfolding run evaluate envelope_evaluate units_of units_differ within reading indices_of judge learn
    append_to freeze tabulate assess transition lookup insert
drive_status = refl

drive_ok :
    (p : Model ℕ × List (Row ℕ)) × (run quick maths (envelope temperature) blank drive ≡ ok p)
unfolding run evaluate envelope_evaluate units_of units_differ within reading indices_of judge learn
    append_to freeze tabulate assess transition lookup insert
drive_ok = (_, refl)

blank-IsLearned : IsLearned temperature.bands blank
blank-IsLearned = record {
  before = λ _. (refl, omega arith, refl);
  after = λ frozen. absurd (cc frozen);
  keys = tt;
}

run-Story_example : Story quick none (findings_of quick maths drive_ok.0.1) drive_ok.0.0.finding
run-Story_example = run-Story quick maths (envelope temperature) blank drive drive_ok.0 drive_ok.1

run-IsLearned_example : IsLearned temperature.bands drive_ok.0.0
run-IsLearned_example =
    run-IsLearned quick maths (envelope temperature) blank drive drive_ok.0 drive_ok.1
      blank-IsLearned

first_second :
    (p : Model ℕ × Row ℕ) × (evaluate quick maths (envelope temperature) blank (second_at 1 90)
      ≡ ok p)
    × (p.1.baseline_status ≡ learning)
unfolding evaluate envelope_evaluate units_of units_differ within reading indices_of judge learn
    append_to lookup insert
first_second = (_, refl, refl)

not_ready : (s : Status) → s ≡ learning → s ≢ ready
not_ready s e q = cc (e, q)

evaluate-NoOpinion_example : NoOpinion quick maths blank first_second.0
evaluate-NoOpinion_example =
    evaluate-NoOpinion quick maths (envelope temperature) blank (second_at 1 90) first_second.0
      first_second.1 (not_ready first_second.0.1.baseline_status first_second.2)

abbrev misfires : CounterConfig ℕ
misfires = record {
  channel = "engine.misfires";
  when = [];
  score_window = 60;
  open_finding_above = 1;
  severity = "critical";
}

abbrev counted : Counter ℕ
counted = record { units = []; history = (0, 5) ∷ []; score = 0; finding = none }

abbrev counts : ℕ → ℕ → Readings ℕ
counts at value = ("car.rpm", sample 3000 at) ∷ ("engine.misfires", sample value at) ∷ []

counted_ok :
    (p : Counter ℕ × Row ℕ) × (counter_evaluate whole misfires counted 30 (counts 30 9) true "f2"
      ≡ ok p)
unfolding counter_evaluate holds units_of reading remember drop_old transition lookup insert
counted_ok = (_, refl)

counter_evaluate-NoIndexError_example :
    counter_evaluate whole misfires counted 30 (counts 30 9) true "f2" ≢ err index_error
counter_evaluate-NoIndexError_example =
    counter_evaluate-NoIndexError whole misfires counted 30 (counts 30 9) true "f2" refl
      (omega arith)

counter_evaluate-Measures_example : Measures whole misfires counted 30 (counts 30 9) counted_ok.0
counter_evaluate-Measures_example =
    counter_evaluate-Measures whole misfires counted 30 (counts 30 9) true "f2" counted_ok.0 refl
      (omega arith) counted_ok.1

abbrev pressure : DriftConfig ℕ
pressure = record {
  target = "engine.oil_p";
  when = [];
  baseline_laps = 1;
  min_lap_samples = 1;
  min_scale = 1;
  cusum_k = 0;
  cusum_h = 4;
  direction = both;
  severity = "warning";
}

abbrev steady : Drift ℕ
steady = record {
  frozen = false;
  learned = 0;
  units = [];
  baseline_laps = [];
  mean = none;
  scale = none;
  laps = [];
  cusum_up = 0;
  cusum_down = 0;
  score = 0;
  calm = 0;
  lap_sum = 50;
  lap_n = 1;
  lap_dirty = false;
  pending = none;
  finding = none;
}

abbrev truth : Json ℕ → Bool
truth (bool b) = b
truth _ = true

abbrev lap_done : Members ℕ
lap_done = member "type" (str (codes "lap_completed")) (member "valid" (bool true) end)

abbrev pressed : ℕ → ℕ → Readings ℕ
pressed at value = ("car.rpm", sample 3000 at) ∷ ("engine.oil_p", sample value at) ∷ []

abbrev two_laps : List (Input ℕ)
two_laps = laps lap_done 100 "f3" ∷ seconds 101 (pressed 101 60) true ∷ laps lap_done 200 "f4" ∷ []

two_laps_ok :
    (p : Drift ℕ × List (Row ℕ)) × (run_drift whole maths truth pressure steady two_laps ≡ ok p)
unfolding run_drift step on_lap on_pit drift_evaluate bank judge_lap freeze_laps keep_laps
    transition holds units_of units_differ within reading get lookup insert
two_laps_ok = (_, refl)

drift-Story_example :
    (shown : Option (Finding ℕ)) × Story whole none
      (findings_of_drift whole maths truth two_laps_ok.0.1)
      shown
    × Owes whole maths truth shown two_laps_ok.0.0
drift-Story_example =
    drift-Story whole maths truth pressure false none steady two_laps two_laps_ok.0 two_laps_ok.1
      (refl, (refl, tt)) (λ _. refl) silent

steady-IsDrift : IsDrift pressure steady
steady-IsDrift = record {
  before = λ _. (refl, omega arith);
  after = λ frozen. absurd (cc frozen);
  size = omega arith;
}

on_lap-IsDrift_example :
    (d : Drift ℕ) × (on_lap whole maths truth pressure steady lap_done 100 "f3" ≡ ok d)
    × IsDrift pressure d
on_lap-IsDrift_example =
    on_lap-IsDrift whole maths truth pressure steady lap_done 100 "f3" steady-IsDrift

abbrev engine : WatchEngine ℕ
engine = record {
  baseline_rpm_min = 1200;
  max_age_seconds = 10;
  monitors =
      ("oil_t", table_monitor (envelope temperature) blank)
      ∷ ("misfires", counter_monitor misfires counted)
      ∷ ("oil_p", drift_monitor pressure steady)
      ∷ [];
  readings = [];
  pit_status = none;
  pit_time = none;
  last_tick = none;
}

abbrev uid : String → String
uid name = name

abbrev out_lap : List (Call ℕ)
out_lap =
    observes "lap.event" (document (some (obj (member "pit_status" (str (codes "track")) end)))) 1
      ""
    ∷ observes "car.rpm" (number_value 3000) 2 "rpm"
    ∷ observes "engine.oil_t" (number_value 90) 2 "C"
    ∷ ticks 3 true
    ∷ observes "car.rpm" (number_value 0) 3 "rpm"
    ∷ ticks 3 true
    ∷ ticks 4 true
    ∷ []

abbrev Ran : Type 0
Ran = WatchEngine ℕ × List (ℕ × Dict String (Row ℕ))

out_lap_ok : (p : Ran) × (run_engine whole maths truth uid engine out_lap ≡ ok p)
unfolding run_engine observe is_input observe_event observe_sample lap_event lap_all pit_all tick
    tick_all tick_monitor evaluate_monitor is_valid all_fresh evaluate envelope_evaluate
    counter_evaluate drift_evaluate on_lap on_pit units_of units_differ within reading indices_of
    judge learn append_to freeze get lookup insert
out_lap_ok = (_, refl)

run-Advancing_example : Advancing whole maths truth uid none out_lap_ok.0.1
run-Advancing_example = run-Advancing whole maths truth uid engine out_lap out_lap_ok.0 out_lap_ok.1

observed_ok :
    (e : WatchEngine ℕ) × (observe whole maths truth engine "car.rpm"
        (number_value 3000)
        2
        "rpm"
        uid
      ≡ ok e)
unfolding observe is_input observe_sample lookup insert
observed_ok = (_, refl)

observe-Observes_example : Observes whole maths truth uid engine observed_ok.0
observe-Observes_example =
    observe-Observes whole maths truth uid engine observed_ok.0 "car.rpm" (number_value 3000) 2
      "rpm" observed_ok.1

tick-NoKeyError_example : tick whole maths truth engine 3 true uid ≢ err (key_error "engine.oil_t")
tick-NoKeyError_example = tick-NoKeyError whole maths truth engine 3 true uid "engine.oil_t"
