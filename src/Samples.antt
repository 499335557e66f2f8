-- ===== src/Samples.antt =====
-- src/core/samples.py: the sample that collectors hand to the pipeline. `t_mono_ns` comes from the
-- monotonic clock and is not negative.
use openlaps.Common.{ℕ, Bool, String}

-- `float | int | bool | str`; `N` is the type of Python's numbers.
pub data SampleValue (N : Type 0) : Type 0 where
  num : N → SampleValue N
  bool : Bool → SampleValue N
  str : String → SampleValue N

pub record Sample (N : Type 0) : Type 0 where
  pub source_ref : String
  pub t_mono_ns : ℕ
  pub t_wall_ms : N
  pub value : SampleValue N
