-- ===== src/Alerts/Run.antt =====
-- Every call keeps the book's history and its active alerts in step.
use openlaps.Common.{
  ℕ, ◌+◌, ◌≡◌, refl, String, Option, some, List, [], ◌∷◌, ◌==◌, string_eq, Option-cases, Bool-cases,
  inl, inr,
}
use openlaps.Common.Dict.{
  Dict, lookup, insert, erase, lookup-insert, lookup-insert_self, lookup-erase,
}
use openlaps.Alerts.{
  AlertBook, Alert, ActiveAlert, Event, acked, ended, event_of, receive, raise_test, remember, ack,
  ack_active, acknowledge, test_alert_name, test_alert,
}
use openlaps.Alerts.Trace.{follow}
use openlaps.Alerts.Coherent.{
  is_some, IsCoherent, lookup-here, remember-IsCoherent, receive-IsCoherent,
}
use openlaps.Alerts.Keyed.{IsKeyed, insert-IsKeyed, erase-IsKeyed, receive_all-IsKeyed}

pub record IsBook (b : AlertBook) : Type 0 where
  pub keyed : IsKeyed b.active
  pub coherent : IsCoherent b

pub receive-IsBook :
    (b : AlertBook) (alerts : List Alert) (now : ℕ) → IsBook b → IsBook (receive b alerts now).0
unfolding receive remember
receive-IsBook b alerts now h = record {
  keyed = receive_all-IsKeyed (record b { notifications = b.notifications + 1 }) alerts now h.keyed;
  coherent = receive-IsCoherent b alerts now h.coherent;
}

ended-follow :
    (k fp : String) (d : Dict String ActiveAlert) (current : ActiveAlert) (alert : Alert) (now : ℕ)
    → lookup k d ≡ some current
    → alert.fingerprint ≡ k
    → follow fp (is_some (lookup fp d)) (event_of ended alert now ∷ [])
      ≡ some (is_some (lookup fp (erase k d)))
unfolding follow
ended-follow k fp d current alert now e q = elim (Bool-cases (k == fp)) [
  | inl h ↦ rw (q, h, lookup-erase k fp d, h, lookup-here k fp d (some current) e h)
  | inr h ↦ rw (q, h, lookup-erase k fp d, h)
]

acked-follow :
    (k fp : String) (d : Dict String ActiveAlert) (current new : ActiveAlert) (event : Event)
    → lookup k d ≡ some current
    → event.alert.fingerprint ≡ k
    → event.kind ≡ acked
    → follow fp (is_some (lookup fp d)) (event ∷ []) ≡ some (is_some (lookup fp (insert k new d)))
unfolding follow
acked-follow k fp d current new event e q kind = elim (Bool-cases (k == fp)) [
  | inl h ↦ rw (q, h, kind, lookup-insert k fp new d, h, lookup-here k fp d (some current) e h)
  | inr h ↦ rw (q, h, lookup-insert k fp new d, h)
]

remove-IsBook :
    (b : AlertBook) (k : String) (current : ActiveAlert) (alert : Alert) (now : ℕ)
    → lookup k b.active ≡ some current
    → alert.fingerprint ≡ k
    → IsBook b
    → IsBook (remember (record b { active = erase k b.active }) (event_of ended alert now ∷ []))
remove-IsBook b k current alert now e named h = record {
  keyed = unfold remember in erase-IsKeyed k b.active h.keyed;
  coherent = λ fp.
      let b' : AlertBook = record b { active = erase k b.active } in
      unfold remember in
      remember-IsCoherent fp b b' (event_of ended alert now ∷ []) refl (h.coherent fp)
        (ended-follow k fp b.active current alert now e named);
}

ack_active-IsBook :
    (b : AlertBook) (k by : String) (note : Option String) (now : ℕ) (current : ActiveAlert)
    → lookup k b.active ≡ some current
    → IsBook b
    → IsBook (ack_active b k by note now current).0
unfolding ack_active
ack_active-IsBook b k by note now current e h =
    let new = acknowledge current by note now in
    let event : Event = record {
      kind = acked;
      alert = current.alert;
      at = now;
      by = some by;
      note = note;
    } in
    let named : current.alert.fingerprint ≡ k = h.keyed k current e in
    let b1 : AlertBook = record b { active = insert k new b.active } in
    let told : IsBook (remember b1 (event ∷ [])) = record {
      keyed = unfold remember in insert-IsKeyed k new b.active h.keyed named;
      coherent = λ fp.
          unfold remember in
          remember-IsCoherent fp b b1 (event ∷ []) refl (h.coherent fp)
            (acked-follow k fp b.active current new event e named refl);
    } in
    elim (Bool-cases (current.alert.name == test_alert_name)) [
      | inl q ↦ rw q (
          remove-IsBook (remember b1 (event ∷ [])) k new current.alert now
            (unfold remember in lookup-insert_self k new b.active) named told)
      | inr q ↦ rw q told
    ]

ack-IsBook :
    (b : AlertBook) (k by : String) (note : Option String) (now : ℕ)
    → IsBook b
    → IsBook (ack b k by note now).0
unfolding ack
ack-IsBook b k by note now h = elim (Option-cases (lookup k b.active)) [
  | inl e ↦ rw (e, ack) h
  | inr (current, e) ↦ rw (e, ack) (ack_active-IsBook b k by note now current e h)
]

-- A call of the notifier's service.
pub data Call : Type 0 where
  receives : List Alert → ℕ → Call
  acks : String → String → Option String → ℕ → Call
  raises_test : String → String → String → ℕ → Call

unfoldable pub call : AlertBook → Call → AlertBook
unfolding receive ack raise_test
call b (receives alerts now) = (receive b alerts now).0
call b (acks k by note now) = (ack b k by note now).0
call b (raises_test k summary severity now) = (raise_test b k summary severity now).0

unfoldable pub run : AlertBook → List Call → AlertBook
unfolding call
run b [] = b
run b (c ∷ cs) = run (call b c) cs

call-IsBook : (b : AlertBook) (c : Call) → IsBook b → IsBook (call b c)
unfolding call raise_test
call-IsBook b (receives alerts now) h = receive-IsBook b alerts now h
call-IsBook b (acks k by note now) h = ack-IsBook b k by note now h
call-IsBook b (raises_test k summary severity now) h =
    receive-IsBook b (test_alert k summary severity now ∷ []) now h

-- Through any calls, a book stays a book: each active alert stands under its own fingerprint, and for
-- each fingerprint the events in the bounded history fire when it is off, are acknowledged or end
-- when it is on, and end with it on exactly if it is active.
pub run-IsBook : (b : AlertBook) (cs : List Call) → IsBook b → IsBook (run b cs)
unfolding run
run-IsBook b [] h = h
run-IsBook b (c ∷ cs) h = run-IsBook (call b c) cs (call-IsBook b c h)
