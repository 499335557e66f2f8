-- ===== src/Field/Competitors.antt =====
-- src/pit/timing_feed/model.py: the words of the feed, the state of a car, and the competitors with their drivers.
use openlaps.Common.{
  ℕ, String, Bool, false, Option, none, some, List, [], ◌∷◌, if◌then◌else◌, ◌==◌, string_eq, nat_eq,
}
use openlaps.Common.Dict.{Dict, lookup, insert}
use openlaps.Common.Int.{ℤ}
use openlaps.Common.Number.{Number}
use openlaps.Common.Result.{Result, ok, ◌>>=◌}
use openlaps.Field.{
  Element, attributes_of, iter, Raised, Words, Competitor, FieldState, option_eq, text_of,
  int_of_text,
}

abbrev pub same_class : Option String → Option String → Bool
same_class a b = option_eq (λ (x y : String). x == y) a b

abbrev pub flag_states : Dict String String
flag_states =
    ("waitstart", "none")
    ∷ ("green", "green")
    ∷ ("yellow", "yellow")
    ∷ ("red", "red")
    ∷ ("checkered", "chequered")
    ∷ ("chequered", "chequered")
    ∷ ("end", "ended")
    ∷ ("ended", "ended")
    ∷ ("none", "none")
    ∷ ("white", "white")
    ∷ []

abbrev pub sub_statuses : Dict String String
sub_statuses =
    ("safetycar", "sc")
    ∷ ("sc", "sc")
    ∷ ("fcy", "fcy")
    ∷ ("vsc", "vsc")
    ∷ ("code_60", "code_60")
    ∷ ("caution", "caution")
    ∷ ("slow_zone", "slow_zone")
    ∷ []

-- The flags of Timing71 that are split; the flag is `yellow` for all of them.
abbrev pub t71_flags : Dict String String
t71_flags =
    ("sc", "yellow")
    ∷ ("fcy", "yellow")
    ∷ ("vsc", "yellow")
    ∷ ("code_60", "yellow")
    ∷ ("code_60_zone", "yellow")
    ∷ ("slow_zone", "yellow")
    ∷ ("caution", "yellow")
    ∷ []

abbrev pub passing_lines : Dict ℕ String
passing_lines =
    (1, "main")
    ∷ (41, "main")
    ∷ (2, "pit_main")
    ∷ (3, "pit_entry")
    ∷ (4, "pit_exit")
    ∷ (5, "int1")
    ∷ (45, "int1")
    ∷ (6, "int2")
    ∷ (46, "int2")
    ∷ (11, "main")
    ∷ (20, "pit_main")
    ∷ []

abbrev pub or_text : Option String → String → String
or_text none s = s
or_text (some t) s = t

-- `a or b`
abbrev pub or_value : {A : Type 0} → Option A → Option A → Option A
or_value none b = b
or_value (some a) b = some a

abbrev pub is_text : Option String → String → Bool
is_text none s = false
is_text (some t) s = t == s

abbrev pub attribute : Element → String → Option String
attribute e name = lookup name (attributes_of e)

module _ (number : Number) (words : Words number.N) where
  open number use {N, of_ℕ, lt_n, eq_n}

  unfoldable pub flag_state : Option String → Option String
  unfolding lookup
  flag_state none = none
  flag_state (some value) =
      let key = words.lower (words.strip value) in
      if key == "" then none else (elim (lookup key t71_flags) [
        | some flag ↦ some flag
        | none ↦ some (or_text (lookup key flag_states) key)
      ])

  unfoldable pub sub_status : Option String → Option String
  unfolding lookup
  sub_status none = none
  sub_status (some value) =
      let key = words.lower (words.strip value) in
      if key == "" then none else some (or_text (lookup key sub_statuses) key)

  -- `value or ""`, without its blanks, in upper or in lower case.
  abbrev pub upper_of : Option String → String
  upper_of o = words.upper (words.strip (or_text o ""))

  abbrev state_running : Bool → Option String → Option String
  state_running in_pit out_lap =
      if in_pit then some "PIT" else if upper_of out_lap == "Y" then some "OUT" else some "RUN"

  abbrev state_of_word : String → Option ℤ → Bool → Option String → Option String
  state_of_word p (some n) in_pit out_lap = state_running in_pit out_lap
  state_of_word p none in_pit out_lap =
      if words.strip p == ""
      then state_running in_pit out_lap
      else some (words.upper (words.strip p))

  -- `_car_state`
  unfoldable pub car_state : Option String → Bool → Option String → Result Raised (Option String)
  unfolding int_of_text
  car_state none in_pit out_lap = ok (state_running in_pit out_lap)
  car_state (some p) in_pit out_lap =
      int_of_text number words (some p) >>= λ n. ok (state_of_word p n in_pit out_lap)

  -- The drivers of a competitor that have an identifier and a name.
  unfoldable pub drivers_of : List Element → Dict String String → Dict String String
  unfolding text_of insert lookup
  drivers_of [] drivers = drivers
  drivers_of (d ∷ ds) drivers = elim (attribute d "ID") [
    | none ↦ drivers_of ds drivers
    | some driver_id ↦ elim (text_of number words (attribute d "Name")) [
      | none ↦ drivers_of ds drivers
      | some name ↦ drivers_of ds (insert driver_id name drivers)
    ]
  ]

  -- `entry.get("Number") or competitor_id`
  abbrev number_or : Option String → String → String
  number_or none id = id
  number_or (some s) id = if s == "" then id else s

  unfoldable pub registry_of : List Element → Dict String Competitor → Dict String Competitor
  unfolding drivers_of text_of insert iter lookup
  registry_of [] registry = registry
  registry_of (entry ∷ entries) registry = elim (attribute entry "ID") [
    | none ↦ registry_of entries registry
    | some id ↦ registry_of entries (
        insert id
          (record {
            competitor_id = id;
            number = words.strip (number_or (attribute entry "Number") id);
            car_class = text_of number words (attribute entry "Class");
            drivers = drivers_of (iter "Driver" entry) [];
          })
          registry)
  ]

  -- `_competitor_list`
  unfoldable pub competitor_list : FieldState N → Element → FieldState N
  unfolding registry_of iter
  competitor_list f e = record f { competitors = registry_of (iter "Competitor" e) [] }

  abbrev first_driver : Dict String String → Option String
  first_driver [] = none
  first_driver ((id, name) ∷ drivers) = some name

  -- `driver_name`
  unfoldable pub driver_name : Competitor → Option String → Option String
  unfolding lookup
  driver_name c none = first_driver c.drivers
  driver_name c (some id) = elim (lookup id c.drivers) [
    | some name ↦ some name
    | none ↦ first_driver c.drivers
  ]
