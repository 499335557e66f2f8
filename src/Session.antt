-- ===== src/Session.antt =====
-- src/pit/session_control/state.py: the session and driver-stint state machine. A method returns the
-- new state and the payload, or the exception, which leaves the state as it was. Times are epoch
-- milliseconds of the host's clock, not negative; `stamp` is the text made of the start time and
-- the random id, which `time.strftime` and `uuid4` give.
pub mod Decode
pub mod Valid
pub mod Step
pub mod Start
pub mod Run
pub mod RoundTrip
mod Examples
use openlaps.Common.{
  ℕ, ◌+◌, ◌-◌, String, Bool, true, false, ◌&&◌, ◌||◌, not, Option, none, some, List, [], ◌∷◌, ◌++◌,
  ltb, eqb, length, last?, if◌then◌else◌,
}
use openlaps.Common.Int.{ℤ, pos, negsuc}
use openlaps.Common.Json.{Json, Items, Members, get, end, member, str, int, arr, obj}
use openlaps.Common.Result.{Result, ok, err, ◌>>=◌, ◌>>◌, raise_if}
use openlaps.Common.Text.{Text, codes, text_beq, strip, lower}

pub data Status : Type 0 where
  no_session active ended : Status

pub record Stint : Type 0 where
  pub driver : Text
  pub stint_number : ℕ
  pub start_ms : ℕ
  pub end_ms : ℕ

pub record SessionState : Type 0 where
  pub session_id : Text
  pub session_type : Text
  pub driver : Text
  pub track_name : Text
  pub car : Text
  pub stint_number : ℕ
  pub session_start_ms : ℕ
  pub stint_start_ms : ℕ
  pub status : Status
  pub stints : List Stint

-- `SessionState()`
abbrev pub initial : SessionState
initial = record {
  session_id = [];
  session_type = [];
  driver = [];
  track_name = [];
  car = [];
  stint_number = 0;
  session_start_ms = 0;
  stint_start_ms = 0;
  status = no_session;
  stints = [];
}

-- The `SessionError`s of the methods, and what the decoder raises.
pub data Error : Type 0 where
  already_active bad_session_type driver_required not_active same_driver before_stint : Error
  first_stint before_previous_stint : Error
  type_error value_error index_error : Error

abbrev pub is_active : Status → Bool
is_active active = true
is_active _ = false

abbrev pub is_empty : Text → Bool
is_empty [] = true
is_empty (c ∷ s) = false

-- `t in SESSION_TYPES`
unfoldable pub is_session_type : Text → Bool
is_session_type t =
    text_beq t (codes "practice")
    || text_beq t (codes "qualifying")
    || text_beq t (codes "race")
    || text_beq t (codes "test")

abbrev pub status_text : Status → Text
status_text no_session = codes "none"
status_text active = codes "active"
status_text ended = codes "ended"

module _ {N : Type 0} where
  abbrev pub number : ℕ → Json N
  number n = int (pos n)

  -- The members of `payload`, followed by `rest`.
  abbrev pub payload_then : SessionState → ℕ → Members N → Members N
  payload_then s now rest = member "session_id" (str s.session_id) (
      member "session_type" (str s.session_type) (
        member "driver" (str s.driver) (
          member "track_name" (str s.track_name) (
            member "car" (str s.car) (
              member "stint_number" (number s.stint_number) (
                member "session_start" (number s.session_start_ms) (
                  member "stint_start" (number s.stint_start_ms) (
                    member "status" (str (status_text s.status))
                      (member "timestamp" (number now) rest)))))))))

  unfoldable pub payload : SessionState → ℕ → Members N
  payload s now = payload_then s now end

  abbrev pub stint_members : Stint → Members N
  stint_members t = member "driver" (str t.driver) (
      member "stint_number" (number t.stint_number)
        (member "start_ms" (number t.start_ms) (member "end_ms" (number t.end_ms) end)))

  abbrev pub stint_items : List Stint → Items N
  stint_items [] = Items.[]
  stint_items (t ∷ ts) = Items.◌∷◌ (obj (stint_members t)) (stint_items ts)

  unfoldable pub to_dict : SessionState → ℕ → Members N
  to_dict s now = payload_then s now (member "stints" (arr (stint_items s.stints)) end)

abbrev pub Outcome : Type 0
Outcome = Result Error SessionState

unfoldable pub start_session : SessionState → Text → Text → Text → Text → Text → ℕ → Outcome
start_session s session_type driver track_name car stamp now = do
  raise_if (is_active s.status) already_active
  let kind = lower (strip session_type)
  let name = strip driver
  raise_if (not (is_session_type kind)) bad_session_type
  raise_if (is_empty name) driver_required
  ok (record {
    session_id = stamp ++ (codes "-" ++ kind);
    session_type = kind;
    driver = name;
    track_name = strip track_name;
    car = strip car;
    stint_number = 1;
    session_start_ms = now;
    stint_start_ms = now;
    status = active;
    stints = [];
  })

-- The stint that is being driven, closed at `now`.
abbrev pub closed_at : SessionState → ℕ → Stint
closed_at s now = record {
  driver = s.driver;
  stint_number = s.stint_number;
  start_ms = s.stint_start_ms;
  end_ms = now;
}

unfoldable pub change_driver : SessionState → Text → ℕ → Outcome
change_driver s driver now = do
  raise_if (not (is_active s.status)) not_active
  let name = strip driver
  raise_if (is_empty name) driver_required
  raise_if (text_beq name s.driver) same_driver
  raise_if (ltb now s.stint_start_ms) before_stint
  ok (record s {
    stints = s.stints ++ closed_at s now ∷ [];
    driver = name;
    stint_number = s.stint_number + 1;
    stint_start_ms = now;
  })

-- `self.stints[-1]["end_ms"] = at_ms`
unfoldable pub set_last_end : List Stint → ℕ → List Stint
set_last_end [] at_ms = []
set_last_end (t ∷ []) at_ms = (record t { end_ms = at_ms }) ∷ []
set_last_end (t ∷ u ∷ ts) at_ms = t ∷ set_last_end (u ∷ ts) at_ms

unfoldable pub amend_stint_start : SessionState → ℕ → Outcome
unfolding set_last_end
amend_stint_start s at_ms = do
  raise_if (not (is_active s.status)) not_active
  raise_if (ltb s.stint_number 2) first_stint
  previous ← elim (last? s.stints) [ none ↦ err index_error | some t ↦ ok t ]
  raise_if (ltb at_ms previous.start_ms) before_previous_stint
  ok (record s { stints = set_last_end s.stints at_ms; stint_start_ms = at_ms })

unfoldable pub end_session : SessionState → ℕ → Outcome
end_session s now = do
  raise_if (not (is_active s.status)) not_active
  raise_if (ltb now s.stint_start_ms) before_stint
  ok (record s { stints = s.stints ++ closed_at s now ∷ []; status = ended })
