-- ===== src/Session/Examples.antt =====
-- An evening's session: a race, a driver change whose time is corrected, and its end.
use openlaps.Common.{ℕ, ◌≡◌, refl, List, [], ◌∷◌}
use openlaps.Common.Result.{ok}
use openlaps.Common.Text.{codes, is_space, strip, lower}
use openlaps.Session.{
  initial, to_dict, start_session, change_driver, amend_stint_start, end_session, is_session_type,
}
use openlaps.Session.Decode.{from_dict}
use openlaps.Session.Start.{no_spaces, HasNoSpace-of, IsStamp}
use openlaps.Session.Valid.{IsValid}
use openlaps.Session.Run.{Call, starts, changes, amends, ends, run, run-IsValid}
use openlaps.Session.RoundTrip.{from_dict-to_dict}

IsStamp-of_digits : IsStamp (codes "20260901-1900-ab12")
unfolding no_spaces is_space
IsStamp-of_digits = (HasNoSpace-of (codes "20260901-1900-ab12") refl, refl)

abbrev evening : List Call
evening =
    changes (codes "Kim") 5
    ∷ starts (codes " Race") (codes "Kim") (codes "Wanneroo") (codes "7")
        (codes "20260901-1900-ab12") IsStamp-of_digits 1000
    ∷ changes (codes "Lee ") 2000
    ∷ amends 1900
    ∷ ends 3000
    ∷ []

evening_stints :
    (run initial evening).stints
    ≡ record { driver = codes "Kim"; stint_number = 1; start_ms = 1000; end_ms = 1900 }
      ∷ record { driver = codes "Lee"; stint_number = 2; start_ms = 1900; end_ms = 3000 }
      ∷ []
unfolding run start_session change_driver amend_stint_start end_session strip lower is_session_type
evening_stints = refl

run-IsValid_example : IsValid (run initial evening)
run-IsValid_example = run-IsValid initial evening refl

from_dict-to_dict_example :
    from_dict (to_dict {N = ℕ} (run initial evening) 4000) ≡ ok (run initial evening)
from_dict-to_dict_example = from_dict-to_dict ℕ (run initial evening) 4000 run-IsValid_example
