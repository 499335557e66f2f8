-- ===== src/Session/Run.antt =====
-- Histories of calls on a session.
use openlaps.Common.{ℕ, ◌≡◌, refl, List, [], ◌∷◌}
use openlaps.Common.Result.{ok, err}
use openlaps.Common.Text.{Text}
use openlaps.Session.{
  SessionState, start_session, change_driver, amend_stint_start, end_session, Outcome,
}
use openlaps.Session.Valid.{IsValid}
use openlaps.Session.Step.{change_driver-IsValid, amend_stint_start-IsValid, end_session-IsValid}
use openlaps.Session.Start.{IsStamp, start_session-IsValid}

pub data Call : Type 0 where
  starts : (kind driver track car stamp : Text) → IsStamp stamp → ℕ → Call
  changes : Text → ℕ → Call
  amends ends : ℕ → Call

unfoldable pub call : SessionState → Call → Outcome
call s (starts kind driver track car stamp word now) =
    start_session s kind driver track car stamp now
call s (changes driver now) = change_driver s driver now
call s (amends at_ms) = amend_stint_start s at_ms
call s (ends now) = end_session s now

-- A call that raises leaves the state.
abbrev pub after : SessionState → Outcome → SessionState
after s (ok t) = t
after s (err e) = s

unfoldable pub run : SessionState → List Call → SessionState
unfolding call
run s [] = s
run s (c ∷ cs) = run (after s (call s c)) cs

call-IsValid : (s t : SessionState) (c : Call) → IsValid s → call s c ≡ ok t → IsValid t
unfolding call
call-IsValid s t (starts kind driver track car stamp word now) v h =
    start_session-IsValid s t kind driver track car stamp now word h
call-IsValid s t (changes driver now) v h = change_driver-IsValid s t driver now v h
call-IsValid s t (amends at_ms) v h = amend_stint_start-IsValid s t at_ms v h
call-IsValid s t (ends now) v h = end_session-IsValid s t now v h

after-IsValid :
    (s : SessionState) (c : Call) (r : Outcome) → IsValid s → call s c ≡ r → IsValid (after s r)
after-IsValid s c (ok t) v e = call-IsValid s t c v e
after-IsValid s c (err x) v e = v

-- Through any calls, accepted or refused, a valid session stays valid.
pub run-IsValid : (s : SessionState) (cs : List Call) → IsValid s → IsValid (run s cs)
unfolding run
run-IsValid s [] v = v
run-IsValid s (c ∷ cs) v = run-IsValid (after s (call s c)) cs (after-IsValid s c (call s c) v refl)
