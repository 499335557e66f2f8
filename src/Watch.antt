-- ===== src/Watch.antt =====
-- src/pit/watch/engine.py and src/pit/watch/monitors.py: what the kinds of monitor share, which is the rows, the
-- findings and the learned tables. Seconds and values are numbers of the parameter; `Maths` is what Python's
-- `statistics`, `math` and conversions give, with the literals that are no whole numbers.
pub mod Story
pub mod Raises
pub mod Model
pub mod Counter
pub mod Drift
pub mod Engine
mod Examples
use openlaps.Common.{
  ℕ, suc, ◌+◌, ◌≡◌, refl, String, Bool, true, false, not, ◌&&◌, ◌||◌, Option, none, some, List, [],
  ◌∷◌, ◌++◌, map, leb, length, if◌then◌else◌, ◌==◌, string_eq,
}
use openlaps.Common.Dict.{Dict, lookup, insert}
use openlaps.Common.Int.{ℤ}
use openlaps.Common.Number.{Number}
use openlaps.Common.Result.{Result, ok, err, ◌>>=◌, or_raise}

-- The exceptions that a monitor can meet: `KeyError`, `OverflowError` of a conversion to `int`,
-- `IndexError`, `AssertionError`, and the `ValueError` of `json.loads`.
pub data Raised : Type 0 where
  key_error : String → Raised
  overflow_error index_error assertion_error value_error : Raised

pub data Status : Type 0 where
  gated unit_mismatch learning insufficient_bin insufficient_group warming ready : Status
  missing_or_stale no_session : Status

pub record Reading (N : Type 0) : Type 0 where
  pub value : N
  pub time : N
  pub unit : String

-- The numbers of a finding's summary. The copies of the configuration in it, and the texts made of both, are left out.
pub record Summary (N : Type 0) : Type 0 where
  pub target : String
  pub expected : N
  pub observed : N
  pub residual : N
  pub evidence : List N

pub record Finding (N : Type 0) : Type 0 where
  pub finding_id : String
  pub opened_at : N
  pub closed_at : Option N
  pub severity : String
  pub peak_score : N
  pub summary : Summary N

pub record Row (N : Type 0) : Type 0 where
  pub time : N
  pub score : Option N
  pub residual : Option N
  pub expected : Option N
  pub observed : Option N
  pub baseline_status : Status
  pub finding : Option (Finding N)

pub record Stats (N : Type 0) : Type 0 where
  pub median : N
  pub mad : N
  pub count : ℕ

pub record When (N : Type 0) : Type 0 where
  pub channel : String
  pub above : Option N
  pub below : Option N
  pub between : Option (N × N)
  pub equals : Option N

pub record Maths (N : Type 0) : Type 0 where
  pub median : List N → N
  pub pstdev : List N → N
  pub expm1 : N → N
  pub floor : N → Option ℤ
  pub trunc : N → Option ℤ
  pub is_finite : N → Bool
  -- `",".join(map(str, indices))`
  pub key_text : List ℤ → String
  -- The literal 1.4826.
  pub mad_factor : N

abbrev pub Readings : Type 0 → Type 0
Readings N = Dict String (Reading N)

-- `_row`, with the status `gated` unless another is given.
abbrev pub row : {N : Type 0} → N → Status → Row N
row at status = record {
  time = at;
  score = none;
  residual = none;
  expected = none;
  observed = none;
  baseline_status = status;
  finding = none;
}

abbrev pub text_is : Option String → String → Bool
text_is none s = false
text_is (some t) s = t == s

-- Every entry of the first is one of the second.
unfoldable pub within : Dict String String → Dict String String → Bool
unfolding lookup
within [] units = true
within ((c, unit) ∷ rest) units = text_is (lookup c units) unit && within rest units

-- `self.units and units != self.units`
unfoldable pub units_differ : Dict String String → Dict String String → Bool
unfolding within
units_differ [] units = false
units_differ (u ∷ us) units = not (within (u ∷ us) units && within units (u ∷ us))

module _ {N : Type 0} where
  unfoldable pub reading : String → Readings N → Result Raised (Reading N)
  unfolding lookup
  reading c readings = or_raise (lookup c readings) (key_error c)

  -- `{c: readings[c].unit for c in channels}`
  unfoldable pub units_of :
      List String → Readings N → Dict String String → Result Raised (Dict String String)
  unfolding reading
  units_of [] readings units = ok units
  units_of (c ∷ cs) readings units =
      reading c readings >>= λ r. units_of cs readings (insert c r.unit units)

module _ (number : Number) where
  open number use {N, of_ℕ, add, sub, mul, div, abs, lt_n, le_n, eq_n}

  abbrev pub fails_above : Option N → N → Bool
  fails_above none value = false
  fails_above (some bound) value = not (lt_n bound value)

  abbrev pub fails_below : Option N → N → Bool
  fails_below none value = false
  fails_below (some bound) value = not (lt_n value bound)

  abbrev pub fails_between : Option (N × N) → N → Bool
  fails_between none value = false
  fails_between (some (lower, upper)) value = not (le_n lower value && le_n value upper)

  abbrev pub fails_equals : Option N → N → Bool
  fails_equals none value = false
  fails_equals (some bound) value = not (eq_n value bound)

  -- `When.holds`
  unfoldable pub gate_holds : When N → N → Bool
  gate_holds w value = not (
      fails_above w.above value
      || fails_below w.below value
      || fails_between w.between value
      || fails_equals w.equals value)

  -- `_holds`, which stops at the first gate that fails.
  unfoldable pub holds : List (When N) → Readings N → Result Raised Bool
  unfolding reading gate_holds
  holds [] readings = ok true
  holds (w ∷ ws) readings =
      let rest = holds ws readings in
      reading w.channel readings >>= λ r. if gate_holds w r.value then rest else ok false

  -- `max(a, b)` and `min(a, b)`, which keep `a` where neither is greater.
  abbrev pub max_n : N → N → N
  max_n a b = if lt_n a b then b else a

  abbrev pub min_n : N → N → N
  min_n a b = if lt_n b a then b else a

  -- `if score >= self.finding["peak_score"]: self.finding.update(...)`
  abbrev pub touch : N → Summary N → Finding N → Finding N
  touch score summary finding =
      if le_n finding.peak_score score
      then record finding { peak_score = score; summary = summary }
      else finding

  abbrev pub opened : N → N → Summary N → String → String → Finding N
  opened at score summary severity uid = record {
    finding_id = uid;
    opened_at = at;
    closed_at = none;
    severity = severity;
    peak_score = score;
    summary = summary;
  }

  -- `_Findings._transition`: the finding that stays, and the row's. `uid` is what `uuid4` gives.
  unfoldable pub transition :
      Option (Finding N)
      → N
      → Bool
      → N
      → Summary N
      → String
      → String
      → Option (Finding N) × Option (Finding N)
  transition none at true score summary severity uid =
      let finding = touch score summary (opened at score summary severity uid) in
      (some finding, some finding)
  transition (some f) at true score summary severity uid =
      let finding = touch score summary f in (some finding, some finding)
  transition (some f) at false score summary severity uid =
      (none, some (record f { closed_at = some at }))
  transition none at false score summary severity uid = (none, none)
