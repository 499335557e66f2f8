-- ===== src/Session/Decode.antt =====
-- `from_dict`: the durable form of a session is read and validated. A missing member is `none`.
use openlaps.Common.{
  ℕ, ◌+◌, ◌-◌, String, ◌||◌, not, Option, none, some, List, [], ◌∷◌, ltb, eqb, length, last?,
  if◌then◌else◌,
}
use openlaps.Common.Int.{ℤ, pos, negsuc}
use openlaps.Common.Json.{Json, Items, Members, get, str, int, arr, obj}
use openlaps.Common.Result.{Result, ok, err, ◌>>=◌, ◌>>◌, raise_if}
use openlaps.Common.Text.{Text, codes, text_beq, strip, lower}
use openlaps.Session.{
  Status, Stint, initial, Error, is_active, is_empty, is_session_type, Outcome, no_session, active,
  ended, type_error, value_error, index_error,
}

module _ {N : Type 0} where
  abbrev pub as_required_string : Option (Json N) → Result Error Text
  as_required_string (some (str t)) = if is_empty (strip t) then err value_error else ok (strip t)
  as_required_string _ = err value_error

  unfoldable pub required_string : Members N → String → Result Error Text
  unfolding get
  required_string data_ key = as_required_string (get data_ key)

  abbrev pub as_optional_string : Option (Json N) → Result Error Text
  as_optional_string none = ok []
  as_optional_string (some (str t)) = ok (strip t)
  as_optional_string _ = err type_error

  unfoldable pub optional_string : Members N → String → Result Error Text
  unfolding get
  optional_string data_ key = as_optional_string (get data_ key)

  abbrev pub as_required_integer : Option (Json N) → Result Error ℤ
  as_required_integer (some (int n)) = ok n
  as_required_integer _ = err type_error

  unfoldable pub required_integer : Members N → String → Result Error ℤ
  unfolding get
  required_integer data_ key = as_required_integer (get data_ key)

-- A negative number fails each of the range tests that the decoder makes, with `ValueError`.
abbrev pub natural : ℤ → Result Error ℕ
natural (pos n) = ok n
natural (negsuc n) = err value_error

abbrev pub as_status_text : {N : Type 0} → Option (Json N) → Result Error Text
as_status_text none = ok (codes "none")
as_status_text (some (str t)) = ok (lower (strip t))
as_status_text _ = err type_error

abbrev pub to_status : Text → Result Error Status
to_status t =
    if text_beq t (codes "none")
    then ok no_session
    else if text_beq t (codes "active")
    then ok active
    else if text_beq t (codes "ended")
    then ok ended
    else err value_error

-- The tests on the last stint of an ended session.
abbrev pub check_ended : Text → ℕ → Option Stint → Result Error (Unit {0})
check_ended driver stint_start none = err index_error
check_ended driver stint_start (some last) =
    raise_if (not (text_beq driver last.driver) || not (eqb stint_start last.start_ms)) value_error

abbrev pub check_current : Status → Text → ℕ → ℕ → List Stint → Result Error (Unit {0})
check_current active driver stint_start previous_end closed =
    raise_if (ltb stint_start previous_end) value_error
check_current _ driver stint_start previous_end closed =
    check_ended driver stint_start (last? closed)

module _ {N : Type 0} where
  abbrev pub as_stints : Option (Json N) → Result Error (Items N)
  as_stints none = ok Items.[]
  as_stints (some (arr items)) = ok items
  as_stints _ = err type_error

  -- One turn of the loop over `stints`.
  unfoldable pub check_stint : ℕ → ℕ → Members N → Result Error Stint
  unfolding required_string required_integer
  check_stint expected_number previous_end item = do
    number_ ← required_integer item "stint_number"
    start_ ← required_integer item "start_ms"
    end_ ← required_integer item "end_ms"
    n ← natural number_
    start ← natural start_
    stop ← natural end_
    raise_if (not (eqb n expected_number) || ltb start previous_end || ltb stop start) value_error
    driver ← required_string item "driver"
    ok (record { driver = driver; stint_number = n; start_ms = start; end_ms = stop })

  unfoldable pub check_stints : ℕ → ℕ → Items N → Result Error (List Stint × ℕ)
  unfolding check_stint
  check_stints expected_number previous_end Items.[] = ok ([], previous_end)
  check_stints expected_number previous_end (Items.◌∷◌ (obj item) rest) = do
    stint ← check_stint expected_number previous_end item
    closed ← check_stints (expected_number + 1) stint.end_ms rest
    ok (stint ∷ closed.0, closed.1)
  check_stints expected_number previous_end (Items.◌∷◌ _ rest) = err type_error

  -- `from_dict` for a status other than `"none"`.
  unfoldable pub from_members : Status → Members N → Outcome
  unfolding check_stints required_string required_integer optional_string is_session_type
  from_members status data_ = do
    kind ← required_string data_ "session_type"
    raise_if (not (is_session_type (lower kind))) value_error
    session_start_ ← required_integer data_ "session_start"
    stint_start_ ← required_integer data_ "stint_start"
    stint_number_ ← required_integer data_ "stint_number"
    session_start ← natural session_start_
    stint_start ← natural stint_start_
    stint_number ← natural stint_number_
    raise_if (ltb stint_start session_start || ltb stint_number 1) value_error
    items ← as_stints (get data_ "stints")
    closed ← check_stints 1 session_start items
    let expected_closed = if is_active status then stint_number - 1 else stint_number
    raise_if (not (eqb (length closed.0) expected_closed)) value_error
    driver ← required_string data_ "driver"
    check_current status driver stint_start closed.1 closed.0
    session_id ← required_string data_ "session_id"
    track_name ← optional_string data_ "track_name"
    car ← optional_string data_ "car"
    ok (record {
      session_id = session_id;
      session_type = lower kind;
      driver = driver;
      track_name = track_name;
      car = car;
      stint_number = stint_number;
      session_start_ms = session_start;
      stint_start_ms = stint_start;
      status = status;
      stints = closed.0;
    })

  unfoldable pub from_status : Members N → Status → Outcome
  unfolding from_members
  from_status data_ no_session = ok initial
  from_status data_ status = from_members status data_

  unfoldable pub from_dict : Members N → Outcome
  unfolding from_status get
  from_dict data_ = do
    text ← as_status_text (get data_ "status")
    status ← to_status text
    from_status data_ status
