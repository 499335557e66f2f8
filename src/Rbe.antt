-- ===== src/Rbe.antt =====
-- src/core/rbe.py: report-by-exception. An operation returns the filter that it leaves and its
-- result, `none` where the source raises `TypeError`. `elapsed_ns >= m` is written
-- `previous + m <= now`, the same test with no negative difference.
pub mod Verdict
pub mod Stream
mod Examples
use openlaps.Common.{
  ℕ, ◌+◌, Bool, true, false, Option, none, some, List, [], ◌∷◌, ltb, leb, if◌then◌else◌, nat_eq,
}
use openlaps.Common.Dict.{Dict, lookup, insert}
use openlaps.Common.Number.{Number}
use openlaps.Samples.{Sample, SampleValue, num}

-- The fields of `RbeConfig` that the filter reads.
pub record RbePolicy (N : Type 0) : Type 0 where
  pub deadband : Option N
  pub min_interval_ns : Option ℕ
  pub max_interval_ns : Option ℕ

pub record SentState (N : Type 0) : Type 0 where
  pub value : SampleValue N
  pub t_mono_ns : ℕ

pub record RbeFilter (N : Type 0) : Type 0 where
  pub state : Dict ℕ (SentState N)
  pub suppressed_count : ℕ

-- A bool is an `int` in Python, so the source tests for it first.
unfoldable pub deadband_value : {N : Type 0} → SampleValue N → Option N
deadband_value (num n) = some n
deadband_value _ = none

-- `policy.max_interval_ns is not None and elapsed_ns >= policy.max_interval_ns`
unfoldable pub heartbeat_due : Option ℕ → ℕ → ℕ → Bool
heartbeat_due none previous now = false
heartbeat_due (some m) previous now = leb (previous + m) now

-- `policy.min_interval_ns is not None and elapsed_ns < policy.min_interval_ns`
unfoldable pub too_early : Option ℕ → ℕ → ℕ → Bool
too_early none previous now = false
too_early (some m) previous now = ltb now (previous + m)

module _ (number : Number) where
  open number use {N, sub, abs, le_n}

  -- Does the value lie within the deadband of the last one sent? `none` is a `TypeError`.
  unfoldable pub within_deadband : Option N → SampleValue N → SampleValue N → Option Bool
  unfolding deadband_value
  within_deadband none value previous = some false
  within_deadband (some band) value previous = elim (deadband_value value) [
    | none ↦ none
    | some v ↦ elim (deadband_value previous) [
      | none ↦ none
      | some p ↦ some (le_n (abs (sub v p)) band)
    ]
  ]

  unfoldable pub record_sent : ℕ → Sample N → RbeFilter N → RbeFilter N
  record_sent channel_id sample f = record f {
    state =
        insert channel_id (record { value = sample.value; t_mono_ns = sample.t_mono_ns }) f.state;
  }

  abbrev pub suppress : RbeFilter N → RbeFilter N × Option Bool
  suppress f = (record f { suppressed_count = f.suppressed_count + 1 }, some false)

  -- The first sample of a channel: only its type is checked.
  unfoldable pub accept_first : ℕ → Sample N → RbePolicy N → RbeFilter N → RbeFilter N × Option Bool
  unfolding deadband_value
  accept_first channel_id sample policy f = elim policy.deadband [
    | none ↦ (record_sent channel_id sample f, some true)
    | some _ ↦ elim (deadband_value sample.value) [
      | none ↦ (f, none)
      | some _ ↦ (record_sent channel_id sample f, some true)
    ]
  ]

  -- The tests against the value that was sent last.
  unfoldable pub accept_next :
      ℕ → Sample N → RbePolicy N → SentState N → RbeFilter N → RbeFilter N × Option Bool
  unfolding within_deadband heartbeat_due too_early
  accept_next channel_id sample policy previous f =
      if heartbeat_due policy.max_interval_ns previous.t_mono_ns sample.t_mono_ns
      then (record_sent channel_id sample f, some true)
      else if too_early policy.min_interval_ns previous.t_mono_ns sample.t_mono_ns
      then suppress f
      else elim (within_deadband policy.deadband sample.value previous.value) [
        | none ↦ (f, none)
        | some true ↦ suppress f
        | some false ↦ (record_sent channel_id sample f, some true)
      ]

  unfoldable pub accept :
      ℕ → Sample N → Option (RbePolicy N) → RbeFilter N → RbeFilter N × Option Bool
  unfolding accept_first accept_next
  accept channel_id sample none f = (f, some true)
  accept channel_id sample (some policy) f = elim (lookup channel_id f.state) [
    | none ↦ accept_first channel_id sample policy f
    | some previous ↦ accept_next channel_id sample policy previous f
  ]

  -- One step of a stream: a sample that is held back, or that raises, is not sent.
  abbrev pub send_on :
      Sample N
      → RbeFilter N × Option Bool
      → (RbeFilter N → RbeFilter N × List (Sample N))
      → RbeFilter N × List (Sample N)
  send_on s (g, none) rest = rest g
  send_on s (g, some false) rest = rest g
  send_on s (g, some true) rest = let (h, sent) = rest g in (h, s ∷ sent)

  -- The samples of one channel that proceed, of a stream that is offered in order.
  unfoldable pub sent_of :
      ℕ → RbePolicy N → RbeFilter N → List (Sample N) → RbeFilter N × List (Sample N)
  sent_of channel_id policy f [] = (f, [])
  sent_of channel_id policy f (s ∷ ss) =
      send_on s (accept channel_id s (some policy) f) (λ g. sent_of channel_id policy g ss)
