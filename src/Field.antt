-- ===== src/Field.antt =====
-- src/pit/timing_feed/model.py: the standings of the field. An XML document enters as its tree, `none` where the parser
-- raises; instants and seconds are numbers. `Words` is what Python's methods of texts and its conversions give.
pub mod Diff
pub mod Competitors
pub mod Documents
pub mod Apply
pub mod Mirror
pub mod Told
pub mod Feed
mod Examples
use openlaps.Common.{
  ℕ, ◌+◌, ◌*◌, ◌≡◌, ◌↔◌, refl, String, Bool, true, false, not, ◌&&◌, ◌||◌, Option, none, some, List,
  [], ◌∷◌, ◌++◌, if◌then◌else◌, Eq, ◌==◌, string_eq, eqb, ltb, arith,
}
use openlaps.Common.Dict.{Dict, lookup}
use openlaps.Common.Int.{int_eq, ℤ, pos, negsuc}
use openlaps.Common.Number.{Number}
use openlaps.Common.Result.{Result, ok, err, ◌>>=◌}

mutual
  pub data Element : Type 0 where
    element : String → Dict String String → Elements → Element

  pub data Elements : Type 0 where
    no_more : Elements
    more : Element → Elements → Elements

abbrev pub tag : Element → String
tag (element t attributes children) = t

abbrev pub attributes_of : Element → Dict String String
attributes_of (element t attributes children) = attributes

abbrev pub children_of : Element → Elements
children_of (element t attributes children) = children

abbrev pub listed : Elements → List Element
listed no_more = []
listed (more e es) = e ∷ listed es

-- `element.iter(name)`: the element and all below it that have the tag, in document order.
unfoldable mutual
  pub iter : String → Element → List Element
  iter name (element t attributes children) =
      let below = iter_all name children in
      if t == name then element t attributes children ∷ below else below

  pub iter_all : String → Elements → List Element
  iter_all name no_more = []
  iter_all name (more e es) = iter name e ++ iter_all name es

-- `DocumentError`, and what `int` raises of an infinite or undefined float.
pub data Raised : Type 0 where
  document_error not_finite : Raised

pub record Words (N : Type 0) : Type 0 where
  pub strip : String → String
  pub lower : String → String
  pub upper : String → String
  pub to_int : String → Option ℤ
  pub to_float : String → Option N
  pub split_colon : String → List String
  pub int_of : N → Option ℤ
  pub of_ℤ : ℤ → N
  -- `str` of an integer.
  pub digits : ℤ → String

pub record SessionRow (N : Type 0) : Type 0 where
  pub time : N
  pub source : String
  pub session_name : Option String
  pub event_type : Option String
  pub flag_state : Option String
  pub sub_status : Option String
  pub time_remaining_s : Option N
  pub laps_remaining : Option ℤ
  pub time_elapsed_s : Option N
  pub track_temp : Option N

pub record CarRow (N : Type 0) : Type 0 where
  pub time : N
  pub source : String
  pub epoch : N
  pub car_number : String
  pub competitor_id : Option String
  pub car_class : Option String
  pub position : Option ℤ
  pub class_position : Option ℕ
  pub laps : Option ℤ
  pub last_lap_s : Option N
  pub best_lap_s : Option N
  pub gap_lead_s : Option N
  pub gap_next_s : Option N
  pub sec1_s : Option N
  pub sec2_s : Option N
  pub sec3_s : Option N
  pub pit_count : Option ℤ
  pub in_pit : Option Bool
  pub pit_flag : Option String
  pub driver : Option String
  pub state : Option String

pub record LapRow (N : Type 0) : Type 0 where
  pub time : N
  pub source : String
  pub car_number : String
  pub competitor_id : Option String
  pub lap_number : ℤ
  pub lap_time_s : Option N
  pub position : Option ℤ
  pub class_position : Option ℕ
  pub gap_lead_s : Option N
  pub gap_next_s : Option N
  pub pit_count : Option ℤ
  pub sec1_s : Option N
  pub sec2_s : Option N
  pub sec3_s : Option N
  pub flag_state : Option String
  pub sub_status : Option String

pub record PassingRow (N : Type 0) : Type 0 where
  pub time : N
  pub source : String
  pub competitor_id : String
  pub line : String
  pub passing_type : Option ℤ
  pub active : Option String
  pub tod : Option N
  pub car_number : Option String

pub record Competitor : Type 0 where
  pub competitor_id : String
  pub number : String
  pub car_class : Option String
  pub drivers : Dict String String

pub record FieldState (N : Type 0) : Type 0 where
  pub source : String
  pub competitors : Dict String Competitor
  pub lines : Dict ℤ (Dict String String)
  pub cars : Dict String (CarRow N)
  pub session : Option (SessionRow N)
  pub epoch : Option N
  pub documents : ℕ
  pub unknown_tags : Dict String ℕ

abbrev pub max_cars : ℕ
max_cars = 200

abbrev pub bool_eq : Bool → Bool → Bool
bool_eq true b = b
bool_eq false b = not b

abbrev pub option_eq : {A : Type 0} → (A → A → Bool) → Option A → Option A → Bool
option_eq same none none = true
option_eq same (some a) (some b) = same a b
option_eq same _ _ = false

-- `CarRow.same_as` and `SessionRow.same_as`: equal in everything but the times.
module _ (number : Number) where
  open number use {N, eq_n}

  unfoldable pub same_car : CarRow N → CarRow N → Bool
  same_car a b =
      a.source == b.source
      && a.car_number == b.car_number
      && option_eq (λ (x y : String). x == y) a.competitor_id b.competitor_id
      && option_eq (λ (x y : String). x == y) a.car_class b.car_class
      && option_eq int_eq a.position b.position
      && option_eq eqb a.class_position b.class_position
      && option_eq int_eq a.laps b.laps
      && option_eq eq_n a.last_lap_s b.last_lap_s
      && option_eq eq_n a.best_lap_s b.best_lap_s
      && option_eq eq_n a.gap_lead_s b.gap_lead_s
      && option_eq eq_n a.gap_next_s b.gap_next_s
      && option_eq eq_n a.sec1_s b.sec1_s
      && option_eq eq_n a.sec2_s b.sec2_s
      && option_eq eq_n a.sec3_s b.sec3_s
      && option_eq int_eq a.pit_count b.pit_count
      && option_eq bool_eq a.in_pit b.in_pit
      && option_eq (λ (x y : String). x == y) a.pit_flag b.pit_flag
      && option_eq (λ (x y : String). x == y) a.driver b.driver
      && option_eq (λ (x y : String). x == y) a.state b.state

  unfoldable pub same_session : SessionRow N → Option (SessionRow N) → Bool
  same_session a none = false
  same_session a (some b) =
      a.source == b.source
      && option_eq (λ (x y : String). x == y) a.session_name b.session_name
      && option_eq (λ (x y : String). x == y) a.event_type b.event_type
      && option_eq (λ (x y : String). x == y) a.flag_state b.flag_state
      && option_eq (λ (x y : String). x == y) a.sub_status b.sub_status
      && option_eq eq_n a.time_remaining_s b.time_remaining_s
      && option_eq int_eq a.laps_remaining b.laps_remaining
      && option_eq eq_n a.time_elapsed_s b.time_elapsed_s
      && option_eq eq_n a.track_temp b.track_temp

-- The values of the attributes.
module _ (number : Number) (words : Words number.N) where
  open number use {N, of_ℕ, add, mul, eq_n}

  abbrev pub non_empty : String → Option String
  non_empty s = if s == "" then none else some s

  -- `_text`
  unfoldable pub text_of : Option String → Option String
  text_of none = none
  text_of (some value) = non_empty (words.strip value)

  abbrev whole_of : N → Option ℤ → Result Raised (Option ℤ)
  whole_of x none = err not_finite
  whole_of x (some n) = ok (if eq_n x (words.of_ℤ n) then some n else none)

  -- `_int` of a text or of nothing.
  unfoldable pub int_of_text : Option String → Result Raised (Option ℤ)
  int_of_text none = ok none
  int_of_text (some value) =
      let text = words.strip value in
      if text == "" then ok none else (elim (words.to_int text) [
        | some n ↦ ok (some n)
        | none ↦ elim (words.to_float text) [
          | none ↦ ok none
          | some x ↦ whole_of x (words.int_of x)
        ]
      ])

  -- `m:ss.fff` and `h:mm:ss`
  unfoldable pub sum_parts : N → List String → Option N
  sum_parts total [] = some total
  sum_parts total (part ∷ parts) = elim (words.to_float part) [
    | none ↦ none
    | some x ↦ sum_parts (add (mul total (of_ℕ 60)) x) parts
  ]

  abbrev has_more : List String → Bool
  has_more (a ∷ b ∷ rest) = true
  has_more _ = false

  -- `_seconds` of a text or of nothing.
  unfoldable pub seconds_of_text : Option String → Option N
  unfolding sum_parts
  seconds_of_text none = none
  seconds_of_text (some value) =
      let text = words.strip value in
      let parts = words.split_colon text in
      if text == ""
      then none
      else if has_more parts
      then sum_parts (of_ℕ 0) parts
      else words.to_float text
