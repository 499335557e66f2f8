-- ===== src/Alerts/Examples.antt =====
-- An alert that fires twice, is acknowledged and ends, and a drill that its acknowledgement clears.
use openlaps.Common.{ℕ, ◌≡◌, refl, false, none, List, [], ◌∷◌, map, string_eq}
use openlaps.Common.Dict.{lookup, insert, erase}
use openlaps.Alerts.{
  AlertBook, Alert, AlertStatus, firing, resolved, Event, Kind, fired, ended, acked, receive,
  receive_all, receive_one, remember, remember_all, remember_one, is_heartbeat, ack, ack_active,
  raise_test,
}
use openlaps.Alerts.Trace.{follow}
use openlaps.Alerts.Run.{IsBook, Call, receives, acks, raises_test, call, run, run-IsBook}

abbrev oil : AlertStatus → Alert
oil status = record {
  fingerprint = "a1";
  name = "oil-pressure";
  status = status;
  severity = "critical";
  started_at = 0;
  labels = [];
  annotations = [];
  rule_uid = none;
  summary = "oil pressure";
}

abbrev empty_book : AlertBook
empty_book = record {
  heartbeat_rule = "heartbeat";
  heartbeat_expected = 60_000_000;
  heartbeat_missed_intervals = 3;
  max_history = 4;
  active = [];
  history = [];
  heartbeat_seen = none;
  heartbeats = 0;
  notifications = 0;
}

abbrev night : List Call
night =
    receives (oil firing ∷ oil firing ∷ []) 1
    ∷ acks "a1" "anna" none 2
    ∷ receives (oil resolved ∷ oil resolved ∷ []) 3
    ∷ raises_test "test-1" "drill" "warning" 4
    ∷ acks "test-1" "ben" none 5
    ∷ []

abbrev brief : Event → Kind × ℕ
brief e = (e.kind, e.at)

-- The first of the six events is gone from the history, and the second as well.
night_history :
    map brief (run empty_book night).history
    ≡ (ended, 3) ∷ (fired, 4) ∷ (acked, 5) ∷ (ended, 5) ∷ []
unfolding run call receive receive_all receive_one remember remember_all remember_one is_heartbeat
    ack ack_active raise_test lookup insert erase
night_history = refl

empty_book-IsBook : IsBook empty_book
unfolding lookup follow
empty_book-IsBook = record { keyed = λ k v e. cc e; coherent = λ fp. (false, refl) }

run-IsBook_example : IsBook (run empty_book night)
run-IsBook_example = run-IsBook empty_book night empty_book-IsBook
