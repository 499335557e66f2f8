-- ===== src/Watch/Counter.antt =====
-- src/pit/watch/monitors.py: Counter, the rate of a count over a window of seconds.
pub mod Window
use openlaps.Common.{
  ℕ, ◌+◌, ◌-◌, ◌≤◌, ◌≡◌, ◌≢◌, refl, sym, String, Bool, true, false, not, Option, none, some, List,
  [], ◌∷◌, ◌++◌, length, drop, ltb, if◌then◌else◌, arith, length-append, length-drop, Bool-cases,
  inl, inr, All, All-append,
}
use openlaps.Common.Dict.{Dict}
use openlaps.Common.Number.{Number}
use openlaps.Common.Result.{Result, ok, err, ◌>>=◌, >>=-eq-ok}
use openlaps.Watch.{
  Raised, index_error, Status, gated, warming, ready, Reading, Readings, Summary, Finding, Row,
  When, row, reading, units_of, holds, transition, max_n, min_n,
}
use openlaps.Watch.Model.{channels_of_gates}
use openlaps.Watch.Story.{Shows, silent, transition-Shows}

pub record CounterConfig (N : Type 0) : Type 0 where
  pub channel : String
  pub when : List (When N)
  pub score_window : N
  pub open_finding_above : N
  pub severity : String

-- `history` is the deque, the oldest first.
pub record Counter (N : Type 0) : Type 0 where
  pub units : Dict String String
  pub history : List (N × N)
  pub score : N
  pub finding : Option (Finding N)

abbrev pub max_counter_history : ℕ
max_counter_history = 3600

module _ {N : Type 0} where
  abbrev pub counter_channels : CounterConfig N → List String
  counter_channels cfg = cfg.channel ∷ channels_of_gates cfg.when

  -- `deque(maxlen=_MAX_COUNTER_HISTORY).append`
  unfoldable pub remember : List (N × N) → N × N → List (N × N)
  remember history entry =
      let longer = history ++ entry ∷ [] in drop (length longer - max_counter_history) longer

module _ (number : Number) where
  open number use {N, of_ℕ, add, sub, mul, div, lt_n, le_n}

  -- `while self.history and at - self.history[0][0] > score_window: popleft()`
  unfoldable pub drop_old : N → N → List (N × N) → List (N × N)
  drop_old window at [] = []
  drop_old window at ((t, v) ∷ history) =
      let rest = drop_old window at history in
      if lt_n window (sub at t) then rest else (t, v) ∷ history

  -- The rest of `evaluate`, with the history that is left: it reads the first entry.
  abbrev pub measure :
      CounterConfig N
      → Counter N
      → N
      → N
      → String
      → List (N × N)
      → Result Raised (Counter N × Row N)
  measure cfg c at observed uid [] = err index_error
  measure cfg c at observed uid ((first_at, first_value) ∷ rest) =
      let history = (first_at, first_value) ∷ rest in
      let span = sub at first_at in
      let rise = max_n number (of_ℕ 0) (sub observed first_value) in
      let rate_per_min = div (mul rise (of_ℕ 60)) span in
      let score = min_n number (of_ℕ 1) (div rate_per_min cfg.open_finding_above) in
      let summary : Summary N = record {
        target = cfg.channel;
        expected = first_value;
        observed = observed;
        residual = rise;
        evidence = rate_per_min ∷ span ∷ [];
      } in
      let (finding, shown) =
        transition number c.finding at (le_n cfg.open_finding_above rate_per_min) score summary
          cfg.severity uid in
      if lt_n span (min_n number cfg.score_window (of_ℕ 10))
      then ok (
        record c { history = history },
        record (row at warming) { observed = some observed; expected = some first_value },
      )
      else ok (
        record c { history = history; score = score; finding = finding },
        record {
          time = at;
          score = some score;
          residual = some rise;
          expected = some first_value;
          observed = some observed;
          baseline_status = ready;
          finding = shown;
        },
      )

  -- `Counter.evaluate`
  unfoldable pub counter_evaluate :
      CounterConfig N
      → Counter N
      → N
      → Readings N
      → Bool
      → String
      → Result Raised (Counter N × Row N)
  unfolding holds units_of reading remember drop_old transition
  counter_evaluate cfg c at readings false uid = ok (c, row at gated)
  counter_evaluate cfg c at readings true uid = holds number cfg.when readings >>= λ open_gate.
      if not open_gate
      then ok (c, row at gated)
      else units_of (counter_channels cfg) readings [] >>= λ units.
          reading cfg.channel readings >>= λ r.
          measure cfg (record c { units = units }) at r.value uid
            (drop_old cfg.score_window at (remember c.history (at, r.value)))
