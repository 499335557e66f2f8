-- ===== src/Field/Apply.antt =====
-- src/pit/timing_feed/model.py (FieldState): documents and snapshots. A method returns the state, which
-- keeps what was written before an exception, and its result.
use openlaps.Common.{
  ℕ, ◌+◌, String, Bool, true, false, not, ◌&&◌, ◌||◌, Option, none, some, List, [], ◌∷◌, ◌++◌,
  length, ltb, if◌then◌else◌, ◌==◌, string_eq, nat_eq,
}
use openlaps.Common.Dict.{lookup, insert}
use openlaps.Common.Int.{int_eq_instance, ℤ, pos, negsuc}
use openlaps.Common.Number.{Number}
use openlaps.Common.Result.{Result, ok, err, ◌>>=◌}
use openlaps.Field.{
  Element, tag, children_of, listed, iter, Raised, document_error, not_finite, Words, SessionRow,
  CarRow, LapRow, PassingRow, FieldState, Competitor, max_cars, same_session, text_of, int_of_text,
  seconds_of_text,
}
use openlaps.Field.Diff.{is_none, diff}
use openlaps.Field.Competitors.{
  attribute, or_text, or_value, passing_lines, flag_state, sub_status, competitor_list,
}
use openlaps.Field.Documents.{incoming_lines, merge_lines, rows_from_lines}

-- What one element changes, and what a document does: `Batch` without the text.
pub record Batch (N : Type 0) : Type 0 where
  pub session : Option (SessionRow N)
  pub cars : List (CarRow N)
  pub laps : List (LapRow N)
  pub passings : List (PassingRow N)

pub record Snapshot (N : Type 0) : Type 0 where
  pub at : N
  pub session : Option (SessionRow N)
  pub cars : List (CarRow N)

abbrev number_known : Option Competitor → Option String
number_known none = none
number_known (some c) = some c.number

module _ {N : Type 0} where
  abbrev pub no_batch : Batch N
  no_batch = record { session = none; cars = []; laps = []; passings = [] }

  abbrev pub join : Batch N → Batch N → Batch N
  join a b = record {
    session = or_value b.session a.session;
    cars = a.cars ++ b.cars;
    laps = a.laps ++ b.laps;
    passings = a.passings ++ b.passings;
  }

  abbrev pub standings :
      FieldState N × (List (CarRow N) × List (LapRow N)) → FieldState N × Result Raised (Batch N)
  standings (f, (cars, laps)) =
      (f, ok (record { session = none; cars = cars; laps = laps; passings = [] }))

  abbrev pub session_of : FieldState N → N → SessionRow N
  session_of f at = elim f.session [
    | some session ↦ session
    | none ↦ record {
      time = at;
      source = f.source;
      session_name = none;
      event_type = none;
      flag_state = none;
      sub_status = none;
      time_remaining_s = none;
      laps_remaining = none;
      time_elapsed_s = none;
      track_temp = none;
    }
  ]

module _ (number : Number) (words : Words number.N) where
  open number use {N, of_ℕ, mul, lt_n}

  -- The rows of the lines that are held, against those that were last emitted.
  abbrev pub emit_lines : FieldState N → N → Bool → FieldState N × Result Raised (Batch N)
  emit_lines f at full = elim (rows_from_lines number words f at) [
    | err x ↦ (f, err x)
    | ok rows ↦ standings (diff number f rows at full)
  ]

  -- The state keeps the lines of a leaderboard that is too long.
  abbrev pub hold_lines : FieldState N → N → Bool → FieldState N × Result Raised (Batch N)
  hold_lines f at full =
      if ltb max_cars (length f.lines) then (f, err document_error) else emit_lines f at full

  -- `(element.get("Type") or "full").lower() == "part"`
  abbrev pub is_part : Element → Bool
  is_part e = words.lower (or_text (attribute e "Type") "full") == "part"

  -- `_leaderboard`
  unfoldable pub leaderboard : FieldState N → Element → N → FieldState N × Result Raised (Batch N)
  unfolding incoming_lines merge_lines rows_from_lines diff iter lookup
  leaderboard f e at = elim (incoming_lines number words (iter "Position" e) []) [
    | err x ↦ (f, err x)
    | ok lines ↦
        hold_lines
          (record f { lines = if is_part e then merge_lines number words f.lines lines else lines })
          at (not (is_part e))
  ]

  unfoldable pub registry : FieldState N → Element → N → FieldState N × Result Raised (Batch N)
  unfolding competitor_list rows_from_lines diff
  registry f e at =
      let f' = competitor_list number words f e in
      elim f'.lines [ [] ↦ (f', ok no_batch) | _ ∷ _ ↦ emit_lines f' at false ]

  abbrev seconds : Element → String → Option N
  seconds e name = seconds_of_text number words (attribute e name)

  abbrev with_status : Element → SessionRow N → SessionRow N
  with_status e s = elim (attribute e "Status") [
    | none ↦ s
    | some status ↦ record s { flag_state = flag_state number words (some status) }
  ]

  abbrev with_sub_status : Element → SessionRow N → SessionRow N
  with_sub_status e s = elim (attribute e "SubStatus") [
    | none ↦ s
    | some status ↦ record s { sub_status = sub_status number words (some status) }
  ]

  abbrev with_temp : Element → SessionRow N → SessionRow N
  with_temp e s = record s { track_temp = or_value (seconds e "TrackTemp") s.track_temp }

  abbrev int_count : SessionRow N → Option ℤ → Result Raised (SessionRow N)
  int_count s none = err not_finite
  int_count s (some n) = ok (record s { laps_remaining = some n })

  -- `Counters`, whose count is of the kind that its type names.
  abbrev with_count : String → SessionRow N → Option N → Option N → Result Raised (SessionRow N)
  with_count kind s none elapsed = ok s
  with_count kind s (some count) elapsed =
      if kind == "time" || kind == "countdown"
      then ok (record s { time_remaining_s = some count })
      else if kind == "laps"
      then int_count s (words.int_of count)
      else if kind == "elapsed" && is_none elapsed
      then ok (record s { time_elapsed_s = some count })
      else ok s

  abbrev with_counters : Element → SessionRow N → Result Raised (SessionRow N)
  with_counters e s =
      let elapsed = seconds e "Elapsed" in
      with_count (words.lower (or_text (attribute e "Type") ""))
        (record s { time_elapsed_s = or_value elapsed s.time_elapsed_s }) (seconds e "Count")
        elapsed

  abbrev text : Element → String → Option String
  text e name = text_of number words (attribute e name)

  abbrev with_event : Element → SessionRow N → SessionRow N
  with_event e s = record s {
    session_name = or_value (or_value (text e "Description1") (text e "Code")) s.session_name;
    event_type = or_value (text e "Type") s.event_type;
  }

  unfoldable pub updated_session : FieldState N → Element → N → Result Raised (SessionRow N)
  unfolding flag_state sub_status seconds_of_text text_of lookup
  updated_session f e at =
      let s =
        with_temp e (with_sub_status e (with_status e (record (session_of f at) { time = at }))) in
      if tag e == "Counters"
      then with_counters e s
      else if tag e == "Event"
      then ok (with_event e s)
      else ok s

  -- `_session_update`
  unfoldable pub session_update :
      FieldState N → Element → N → FieldState N × Result Raised (Batch N)
  unfolding updated_session same_session
  session_update f e at = elim (updated_session f e at) [
    | err x ↦ (f, err x)
    | ok s ↦
        if same_session number s f.session
        then (f, ok no_batch)
        else (record f { session = some s }, ok (record no_batch { session = some s }))
  ]

  -- `PASSING_LINES.get(code or -1, str(code) if code is not None else "unknown")`
  abbrev line_of : Option ℤ → String
  line_of none = "unknown"
  line_of (some (pos n)) = or_text (lookup n passing_lines) (words.digits (pos n))
  line_of (some (negsuc n)) = words.digits (negsuc n)

  -- A time of day is an instant where it is later than 1e9 seconds.
  abbrev tod_of : Option N → Option N
  tod_of none = none
  tod_of (some t) = if lt_n (of_ℕ 1_000_000_000) t then some t else none

  -- `_passing`
  unfoldable pub passing : FieldState N → Element → N → Result Raised (Batch N)
  unfolding text_of int_of_text seconds_of_text lookup
  passing f e at = elim (text e "ID") [
    | none ↦ ok no_batch
    | some id ↦ int_of_text number words (attribute e "Type") >>= λ code. ok (record no_batch {
      passings =
          record {
            time = at;
            source = f.source;
            competitor_id = id;
            line = line_of code;
            passing_type = code;
            active = text e "Active";
            tod = tod_of (seconds e "Time");
            car_number = number_known (lookup id f.competitors);
          }
          ∷ [];
    })
  ]

  abbrev or_zero : Option ℕ → ℕ
  or_zero none = 0
  or_zero (some n) = n

  -- One turn of the loop of `apply_document`.
  unfoldable pub apply_element : FieldState N → Element → N → FieldState N × Result Raised (Batch N)
  unfolding leaderboard registry session_update passing lookup insert
  apply_element f e at =
      let t = tag e in
      if t == "Leaderboard"
      then leaderboard f e at
      else if t == "CompetitorList"
      then registry f e at
      else if t == "Counters" || t == "Status" || t == "Heartbeat" || t == "Flag" || t == "Event"
      then session_update f e at
      else if t == "Passing" || t == "Seen"
      then (f, passing f e at)
      else (
        record f { unknown_tags = insert t (or_zero (lookup t f.unknown_tags) + 1) f.unknown_tags },
        ok no_batch,
      )

  unfoldable pub apply_elements :
      FieldState N → N → Batch N → List Element → FieldState N × Result Raised (Batch N)
  unfolding apply_element
  apply_elements f at batch [] = (f, ok batch)
  apply_elements f at batch (e ∷ es) =
      let (f', out) = apply_element f e at in
      elim out [ err x ↦ (f', err x) | ok change ↦ apply_elements f' at (join batch change) es ]

  -- `apply_document`, of the tree that the parser makes of the text.
  unfoldable pub apply_document :
      FieldState N → Option Element → N → FieldState N × Result Raised (Batch N)
  unfolding apply_elements
  apply_document f none at = (f, err document_error)
  apply_document f (some root) at =
      apply_elements (record f { documents = f.documents + 1 }) at no_batch
        (if tag root == "New" then listed (children_of root) else root ∷ [])

  -- The session of a snapshot, where it is another.
  abbrev with_session :
      FieldState N → N → Option (SessionRow N) → FieldState N × Option (SessionRow N)
  with_session f at none = (f, none)
  with_session f at (some session) =
      let merged = record session { time = at; source = f.source } in
      if same_session number merged f.session
      then (f, none)
      else (record f { session = some merged }, some merged)

  abbrev stamped : FieldState N → N → List (CarRow N) → List (CarRow N)
  stamped f at [] = []
  stamped f at (car ∷ cars) = record car { time = at; source = f.source } ∷ stamped f at cars

  abbrev with_cars :
      FieldState N
      → N
      → Option (SessionRow N)
      → List (CarRow N)
      → FieldState N × Result Raised (Batch N)
  with_cars f at session cars =
      if ltb max_cars (length cars)
      then (f, err document_error)
      else let (f', (changed, laps)) = diff number f cars at true in
        (f', ok (record { session = session; cars = changed; laps = laps; passings = [] }))

  -- `apply_snapshot`
  unfoldable pub apply_snapshot : FieldState N → Snapshot N → FieldState N × Result Raised (Batch N)
  unfolding same_session diff
  apply_snapshot f s =
      let (f', session) = with_session (record f { documents = f.documents + 1 }) s.at s.session in
      with_cars f' s.at session (stamped f' s.at s.cars)
