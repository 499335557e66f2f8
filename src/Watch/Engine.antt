-- ===== src/Watch/Engine.antt =====
-- src/pit/watch/engine.py: WatchEngine. `uid` gives what `uuid4` gives for each monitor. A text is the document that
-- `json.loads` makes of it, `none` where it raises. The whole-car kind is no constructor here.
pub mod Keys
pub mod Present
pub mod Ticks
use openlaps.Common.{
  ℕ, ◌≡◌, String, Bool, true, false, not, ◌&&◌, ◌||◌, Option, none, some, List, [], ◌∷◌, ◌++◌,
  if◌then◌else◌, ◌==◌, string_eq,
}
use openlaps.Common.Dict.{Dict, lookup, insert}
use openlaps.Common.Json.{Json, Members, get, null, str, obj}
use openlaps.Common.Number.{Number}
use openlaps.Common.Result.{Result, ok, err, ◌>>=◌}
use openlaps.Common.Text.{Text, codes, text_beq}
use openlaps.Watch.{
  Raised, value_error, Status, missing_or_stale, no_session, Reading, Readings, Row, Maths,
}
use openlaps.Watch.Model.{Model, envelope_channels, ratio_channels}
use openlaps.Watch.Model.Run.{TableKind, envelope, ratio, evaluate}
use openlaps.Watch.Counter.{CounterConfig, Counter, counter_channels, counter_evaluate}
use openlaps.Watch.Drift.{DriftConfig, Drift, drift_channels, drift_evaluate, on_lap, on_pit}

-- A monitor is its settings with its state.
pub data Monitor (N : Type 0) : Type 0 where
  table_monitor : TableKind N → Model N → Monitor N
  counter_monitor : CounterConfig N → Counter N → Monitor N
  drift_monitor : DriftConfig N → Drift N → Monitor N

-- What `observe` is given: a number, or a text or a document.
pub data Value (N : Type 0) : Type 0 where
  number_value : N → Value N
  document : Option (Json N) → Value N

-- `pit_time` is `none` for minus infinity.
pub record WatchEngine (N : Type 0) : Type 0 where
  pub baseline_rpm_min : N
  pub max_age_seconds : N
  pub monitors : Dict String (Monitor N)
  pub readings : Readings N
  pub pit_status : Option (Json N)
  pub pit_time : Option N
  pub last_tick : Option N

abbrev pub is_str : {N : Type 0} → Option (Json N) → String → Bool
is_str (some (str t)) s = text_beq t (codes s)
is_str _ s = false

abbrev pub contains : List String → String → Bool
contains [] c = false
contains (x ∷ xs) c = x == c || contains xs c

module _ {N : Type 0} where
  abbrev pub table_channels : TableKind N → List String
  table_channels (envelope cfg) = envelope_channels cfg
  table_channels (ratio cfg) = ratio_channels cfg

  abbrev pub channels : Monitor N → List String
  channels (table_monitor kind m) = table_channels kind
  channels (counter_monitor cfg c) = counter_channels cfg
  channels (drift_monitor cfg d) = drift_channels cfg

  abbrev pub read_by : Dict String (Monitor N) → String → Bool
  read_by [] c = false
  read_by ((name, m) ∷ monitors) c = contains (channels m) c || read_by monitors c

  -- `channel in self.input_channels`
  unfoldable pub is_input : WatchEngine N → String → Bool
  is_input e c = c == "car.rpm" || c == "lap.event" || read_by e.monitors c

  -- `monitor.on_pit()` of those that have it.
  unfoldable pub pit_all : Dict String (Monitor N) → Dict String (Monitor N)
  unfolding on_pit
  pit_all [] = []
  pit_all ((name, drift_monitor cfg d) ∷ monitors) =
      (name, drift_monitor cfg (on_pit d)) ∷ pit_all monitors
  pit_all ((name, table_monitor kind m) ∷ monitors) =
      (name, table_monitor kind m) ∷ pit_all monitors
  pit_all ((name, counter_monitor cfg c) ∷ monitors) =
      (name, counter_monitor cfg c) ∷ pit_all monitors

  abbrev pub tag : String → Monitor N → String × Monitor N
  tag name m = (name, m)

  -- The row as `tick` leaves it.
  abbrev pub mark : Bool → Bool → Row N → Row N
  mark false active shown = record shown { baseline_status = missing_or_stale }
  mark true false shown = record shown { baseline_status = no_session }
  mark true true shown = shown

module _ (number : Number) (maths : Maths number.N) (truth : Json number.N → Bool) where
  open number use {N, of_ℕ, sub, lt_n, le_n}

  -- `monitor.on_lap(event, at)` of those that have it.
  unfoldable pub lap_all :
      Dict String (Monitor N)
      → Members N
      → N
      → (String → String)
      → Result Raised (Dict String (Monitor N))
  unfolding on_lap
  lap_all [] event at uid = ok []
  lap_all ((name, drift_monitor cfg d) ∷ monitors) event at uid =
      on_lap number maths truth cfg d event at (uid name) >>= λ d'.
      lap_all monitors event at uid >>= λ rest. ok (tag name (drift_monitor cfg d') ∷ rest)
  lap_all ((name, table_monitor kind m) ∷ monitors) event at uid =
      lap_all monitors event at uid >>= λ rest. ok (tag name (table_monitor kind m) ∷ rest)
  lap_all ((name, counter_monitor cfg c) ∷ monitors) event at uid =
      lap_all monitors event at uid >>= λ rest. ok (tag name (counter_monitor cfg c) ∷ rest)

  -- `_lap_event`
  unfoldable pub lap_event :
      WatchEngine N → Members N → N → (String → String) → Result Raised (WatchEngine N)
  unfolding get lap_all pit_all
  lap_event e event at uid =
      if is_str (get event "type") "lap_completed"
      then (lap_all e.monitors event at uid >>= λ monitors. ok (record e { monitors = monitors }))
      else if is_str (get event "type") "pit_entry"
          || is_str (get event "type") "pit_exit"
          || is_str (get event "pit_status") "pit"
      then ok (record e { monitors = pit_all e.monitors })
      else ok e

  -- Is `at` no later than the instant, if there is one?
  abbrev pub not_after : Option N → N → Bool
  not_after none at = false
  not_after (some t) at = le_n at t

  abbrev pub from_on : Option N → N → Bool
  from_on none at = true
  from_on (some t) at = le_n t at

  abbrev pub newer : Option (Reading N) → N → Bool
  newer none at = true
  newer (some previous) at = le_n previous.time at

  -- A `lap.event`.
  unfoldable pub observe_event :
      WatchEngine N → Value N → N → (String → String) → Result Raised (WatchEngine N)
  unfolding lap_event get
  observe_event e (document none) at uid = err value_error
  observe_event e (document (some (obj event))) at uid =
      if from_on e.pit_time at
      then lap_event (record e { pit_status = get event "pit_status"; pit_time = some at }) event at
          uid
      else ok e
  observe_event e _ at uid = ok e

  -- A channel's sample.
  unfoldable pub observe_sample : WatchEngine N → String → Value N → N → String → WatchEngine N
  unfolding lookup insert
  observe_sample e channel (document value) at unit = e
  observe_sample e channel (number_value value) at unit =
      if maths.is_finite value && newer (lookup channel e.readings) at
      then record e {
        readings = insert channel (record { value = value; time = at; unit = unit }) e.readings;
      }
      else e

  unfoldable pub observe :
      WatchEngine N
      → String
      → Value N
      → N
      → String
      → (String → String)
      → Result Raised (WatchEngine N)
  unfolding is_input observe_event observe_sample
  observe e channel value at unit uid =
      if not (is_input e channel) || not (maths.is_finite at) || not_after e.last_tick at
      then ok e
      else if channel == "lap.event"
      then observe_event e value at uid
      else ok (observe_sample e channel value at unit)

  -- One channel's reading is there and no older than it may be.
  abbrev pub is_fresh : WatchEngine N → N → Option (Reading N) → Bool
  is_fresh e at none = false
  is_fresh e at (some r) = le_n (of_ℕ 0) (sub at r.time) && le_n (sub at r.time) e.max_age_seconds

  unfoldable pub all_fresh : WatchEngine N → N → List String → Bool
  unfolding lookup
  all_fresh e at [] = true
  all_fresh e at (c ∷ cs) = is_fresh e at (lookup c e.readings) && all_fresh e at cs

  abbrev pub above : N → Option (Reading N) → Bool
  above bound none = false
  above bound (some r) = lt_n bound r.value

  -- Has this monitor something to go on? All its channels are fresh, and the gate of the session is open.
  unfoldable pub is_valid : WatchEngine N → N → Bool → List String → Bool
  unfolding all_fresh lookup
  is_valid e at active cs =
      active
      && all_fresh e at ("car.rpm" ∷ cs)
      && is_str e.pit_status "track"
      && above e.baseline_rpm_min (lookup "car.rpm" e.readings)

  unfoldable pub evaluate_monitor :
      Monitor N → N → Readings N → Bool → String → Result Raised (Monitor N × Row N)
  unfolding evaluate counter_evaluate drift_evaluate
  evaluate_monitor (table_monitor kind m) at readings valid uid =
      evaluate number maths kind m
        (record { at = at; readings = readings; gate_open = valid; uid = uid })
      >>= λ p. ok (table_monitor kind p.0, p.1)
  evaluate_monitor (counter_monitor cfg c) at readings valid uid =
      counter_evaluate number cfg c at readings valid uid >>= λ p. ok (counter_monitor cfg p.0, p.1)
  evaluate_monitor (drift_monitor cfg d) at readings valid uid =
      drift_evaluate number maths truth cfg d at readings valid >>= λ p.
      ok (drift_monitor cfg p.0, p.1)

  -- One turn of the loop of `tick`.
  unfoldable pub tick_monitor :
      WatchEngine N → N → Bool → Monitor N → String → Result Raised (Monitor N × Row N)
  unfolding evaluate_monitor is_valid all_fresh
  tick_monitor e at active m uid =
      evaluate_monitor m at e.readings (is_valid e at active (channels m)) uid >>= λ p.
      ok (p.0, mark (all_fresh e at ("car.rpm" ∷ channels m)) active p.1)

  abbrev pub put :
      String
      → Monitor N × Row N
      → Dict String (Monitor N) × Dict String (Row N)
      → Dict String (Monitor N) × Dict String (Row N)
  put name (m, shown) (monitors, rows) = ((name, m) ∷ monitors, (name, shown) ∷ rows)

  unfoldable pub tick_all :
      WatchEngine N
      → N
      → Bool
      → (String → String)
      → Dict String (Monitor N)
      → Result Raised (Dict String (Monitor N) × Dict String (Row N))
  unfolding tick_monitor
  tick_all e at active uid [] = ok ([], [])
  tick_all e at active uid ((name, m) ∷ monitors) = tick_monitor e at active m (uid name) >>= λ p.
      tick_all e at active uid monitors >>= λ rest. ok (put name p rest)

  unfoldable pub tick :
      WatchEngine N
      → N
      → Bool
      → (String → String)
      → Result Raised (WatchEngine N × Dict String (Row N))
  unfolding tick_all
  tick e at active uid =
      if not_after e.last_tick at
      then ok (e, [])
      else tick_all (record e { last_tick = some at }) at active uid e.monitors >>= λ p.
          ok (record e { last_tick = some at; monitors = p.0 }, p.1)
