-- ===== src/Alerts.antt =====
-- src/pit/notifier/alerts.py: the book of alerts. Instants are microseconds; a method returns the
-- book that it leaves and its result.
pub mod Trace
pub mod Coherent
pub mod Keyed
pub mod Run
mod Examples
use openlaps.Common.{
  ℕ, ◌+◌, ◌-◌, ◌*◌, String, Bool, true, false, not, ◌||◌, Option, none, some, List, [], ◌∷◌, ◌++◌,
  leb, length, drop, if◌then◌else◌, ◌==◌, string_eq,
}
use openlaps.Common.Dict.{Dict, lookup, insert, erase}

pub data AlertStatus : Type 0 where
  firing resolved : AlertStatus

pub record Alert : Type 0 where
  pub fingerprint : String
  pub name : String
  pub status : AlertStatus
  pub severity : String
  pub started_at : ℕ
  pub labels : Dict String String
  pub annotations : Dict String String
  pub rule_uid : Option String
  pub summary : String

pub record ActiveAlert : Type 0 where
  pub alert : Alert
  pub first_seen : ℕ
  pub last_seen : ℕ
  pub acked_at : Option ℕ
  pub acked_by : Option String
  pub note : Option String
  pub last_notified : Dict String ℕ

-- `firing`, `resolved`, `repeat`, `ack`, `test`.
pub data Kind : Type 0 where
  fired ended repeated acked tested : Kind

pub record Event : Type 0 where
  pub kind : Kind
  pub alert : Alert
  pub at : ℕ
  pub by : Option String
  pub note : Option String

pub record AlertBook : Type 0 where
  pub heartbeat_rule : String
  pub heartbeat_expected : ℕ
  pub heartbeat_missed_intervals : ℕ
  pub max_history : ℕ
  pub active : Dict String ActiveAlert
  pub history : List Event
  pub heartbeat_seen : Option ℕ
  pub heartbeats : ℕ
  pub notifications : ℕ

abbrev pub test_alert_name : String
test_alert_name = "notifier-test"

abbrev pub is_text : Option String → String → Bool
is_text none t = false
is_text (some s) t = s == t

unfoldable pub is_heartbeat : AlertBook → Alert → Bool
unfolding lookup
is_heartbeat b alert =
    is_text (lookup "kind" alert.labels) "heartbeat"
    || is_text alert.rule_uid b.heartbeat_rule
    || alert.name == b.heartbeat_rule

-- `deque(maxlen=max_history).append`
unfoldable pub remember_one : ℕ → List Event → Event → List Event
remember_one max_history history event =
    let longer = history ++ event ∷ [] in drop (length longer - max_history) longer

unfoldable pub remember_all : ℕ → List Event → List Event → List Event
unfolding remember_one
remember_all max_history history [] = history
remember_all max_history history (event ∷ events) =
    remember_all max_history (remember_one max_history history event) events

unfoldable pub remember : AlertBook → List Event → AlertBook
unfolding remember_all
remember b events = record b { history = remember_all b.max_history b.history events }

abbrev pub event_of : Kind → Alert → ℕ → Event
event_of kind alert now = record { kind = kind; alert = alert; at = now; by = none; note = none }

abbrev pub new_active : Alert → ℕ → ActiveAlert
new_active alert now = record {
  alert = alert;
  first_seen = now;
  last_seen = now;
  acked_at = none;
  acked_by = none;
  note = none;
  last_notified = [];
}

-- An alert that is no heartbeat, with what the book has under its fingerprint.
abbrev pub fold_alert :
    AlertBook → Alert → ℕ → AlertStatus → Option ActiveAlert → AlertBook × List Event
fold_alert b alert now firing none = (
  record b { active = insert alert.fingerprint (new_active alert now) b.active },
  event_of fired alert now ∷ [],
)
fold_alert b alert now firing (some current) = (
  record b { active = insert alert.fingerprint (record current { last_seen = now }) b.active },
  [],
)
fold_alert b alert now resolved none = (b, [])
fold_alert b alert now resolved (some current) =
    (record b { active = erase alert.fingerprint b.active }, event_of ended alert now ∷ [])

abbrev pub heartbeat : AlertBook → AlertStatus → ℕ → AlertBook
heartbeat b firing now = record b { heartbeat_seen = some now; heartbeats = b.heartbeats + 1 }
heartbeat b resolved now = b

-- One turn of the loop of `receive`.
unfoldable pub receive_one : AlertBook → Alert → ℕ → AlertBook × List Event
unfolding is_heartbeat
receive_one b alert now =
    if is_heartbeat b alert
    then (heartbeat b alert.status now, [])
    else fold_alert b alert now alert.status (lookup alert.fingerprint b.active)

unfoldable pub receive_all : AlertBook → List Alert → ℕ → AlertBook × List Event
unfolding receive_one
receive_all b [] now = (b, [])
receive_all b (alert ∷ alerts) now =
    let (b', events) = receive_one b alert now in
    let (b'', more) = receive_all b' alerts now in (b'', events ++ more)

unfoldable pub receive : AlertBook → List Alert → ℕ → AlertBook × List Event
unfolding receive_all remember
receive b alerts now =
    let (b', events) = receive_all (record b { notifications = b.notifications + 1 }) alerts now in
    (remember b' events, events)

abbrev pub acknowledge : ActiveAlert → String → Option String → ℕ → ActiveAlert
acknowledge current by note now = record current {
  acked_at = some now;
  acked_by = some by;
  note = note;
}

-- `ack` of an alert that is active.
unfoldable pub ack_active :
    AlertBook → String → String → Option String → ℕ → ActiveAlert → AlertBook × Event
unfolding remember
ack_active b fingerprint by note now current =
    let event : Event = record {
      kind = acked;
      alert = current.alert;
      at = now;
      by = some by;
      note = note;
    } in
    let b' =
      remember (record b { active = insert fingerprint (acknowledge current by note now) b.active })
        (event ∷ []) in
    if current.alert.name == test_alert_name
    then (
      remember (record b' { active = erase fingerprint b'.active })
          (event_of ended current.alert now ∷ []),
      event,
    )
    else (b', event)

unfoldable pub ack : AlertBook → String → String → Option String → ℕ → AlertBook × Option Event
unfolding ack_active lookup
ack b fingerprint by note now = elim (lookup fingerprint b.active) [
  | none ↦ (b, none)
  | some current ↦
      let (b', event) = ack_active b fingerprint by note now current in (b', some event)
]

-- The alert of a drill; its fingerprint and its summary are texts made of the time and the severity.
abbrev pub test_alert : String → String → String → ℕ → Alert
test_alert fingerprint summary severity now = record {
  fingerprint = fingerprint;
  name = test_alert_name;
  status = firing;
  severity = severity;
  started_at = now;
  labels = ("alertname", test_alert_name) ∷ ("severity", severity) ∷ [];
  annotations = ("summary", summary) ∷ [];
  rule_uid = none;
  summary = summary;
}

unfoldable pub raise_test : AlertBook → String → String → String → ℕ → AlertBook × List Event
unfolding receive
raise_test b fingerprint summary severity now =
    receive b (test_alert fingerprint summary severity now ∷ []) now

abbrev pub is_acked : ActiveAlert → Bool
is_acked entry = elim entry.acked_at [ none ↦ false | some _ ↦ true ]

unfoldable pub unacknowledged : Dict String ActiveAlert → List ActiveAlert
unacknowledged [] = []
unacknowledged ((fingerprint, entry) ∷ entries) =
    let rest = unacknowledged entries in if is_acked entry then rest else entry ∷ rest

unfoldable pub heartbeat_age : AlertBook → ℕ → Option ℕ
heartbeat_age b now = elim b.heartbeat_seen [ none ↦ none | some seen ↦ some (now - seen) ]

unfoldable pub heartbeat_ok : AlertBook → ℕ → Option Bool
unfolding heartbeat_age
heartbeat_ok b now = elim (heartbeat_age b now) [
  | none ↦ none
  | some age ↦ some (leb age (b.heartbeat_expected * b.heartbeat_missed_intervals))
]
