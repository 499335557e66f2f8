-- ===== src/Rbe/Examples.antt =====
-- The filter on a short stream: values every 10 ns, a deadband of 2, at least 5 and at most 30 ns.
use openlaps.Common.{ℕ, ◌+◌, ◌≡◌, ◌<◌, refl, false, some, List, [], ◌∷◌, nat_eq, arith}
use openlaps.Common.Dict.{lookup, insert}
use openlaps.Common.Number.{whole}
use openlaps.Samples.{Sample, num}
use openlaps.Rbe.{RbePolicy, RbeFilter, SentState, accept, record_sent, sent_of}
use openlaps.Rbe.Verdict.{Verdict, accept-Verdict}
use openlaps.Rbe.Stream.{IsConfigured, SpacedAfter, last_time, sent_of-SpacedAfter, accept-fresh}

abbrev policy : RbePolicy ℕ
policy = record { deadband = some 2; min_interval_ns = some 5; max_interval_ns = some 30 }

abbrev sample : ℕ → ℕ → Sample ℕ
sample t v = record { source_ref = "can0:ecu.M.rpm"; t_mono_ns = t; t_wall_ms = 0; value = num v }

abbrev filter_ : RbeFilter ℕ
filter_ = record {
  state = (7, record { value = num 100; t_mono_ns = 1000 }) ∷ [];
  suppressed_count = 0;
}

abbrev stream : List (Sample ℕ)
stream =
    sample 1003 200 ∷ sample 1010 101 ∷ sample 1020 110 ∷ sample 1040 111 ∷ sample 1050 111 ∷ []

stream_sent : (sent_of whole 7 policy filter_ stream).1 ≡ sample 1020 110 ∷ sample 1050 111 ∷ []
unfolding sent_of accept lookup record_sent insert
stream_sent = refl

accept-Verdict_example :
    Verdict whole 7
      (sample 1003 200)
      policy
      filter_
      (accept whole 7 (sample 1003 200) (some policy) filter_)
accept-Verdict_example = accept-Verdict whole 7 (sample 1003 200) policy filter_

policy-IsConfigured : IsConfigured policy 5
policy-IsConfigured = record { min_interval = refl; ordered = λ m e. ground arith }

sent_of-SpacedAfter_example :
    SpacedAfter 5 (last_time whole 7 filter_) (sent_of whole 7 policy filter_ stream).1
sent_of-SpacedAfter_example = sent_of-SpacedAfter whole 7 policy policy-IsConfigured filter_ stream

accept-fresh_example :
    (e : SentState ℕ) × (lookup 7 filter_.state ≡ some e)
    × ((sample 1010 101).t_mono_ns < e.t_mono_ns + 30)
accept-fresh_example =
    accept-fresh whole 7 (sample 1010 101) policy filter_ (record filter_ { suppressed_count = 1 })
      30 false refl (omega arith) (unfold accept lookup in refl)
