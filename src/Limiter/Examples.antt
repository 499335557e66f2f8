-- ===== src/Limiter/Examples.antt =====
-- Four updates of three channels, and a budget of two.
use openlaps.Common.{
  ℕ, ◌+◌, ◌≡◌, refl, String, true, Option, none, some, List, [], ◌∷◌, length, string_eq,
}
use openlaps.Common.Dict.{lookup, insert}
use openlaps.Common.Number.{whole}
use openlaps.Registry.{number}
use openlaps.Limiter.{
  LiveUpdate, ConflatingLimiter, ChannelState, count, conflate_candidates, conflate_all,
  conflate_one, conflate_as, set_elem,
}
use openlaps.Limiter.Gauge.{rank, refill_aggregate, accept_all, reject_all, admit}
use openlaps.Limiter.Counts.{total, conflate_candidates-total}
use openlaps.Limiter.Budget.{Call, Keeps, admits-Keeps}

abbrev update : String → ℕ → LiveUpdate ℕ
update channel n = record {
  channel = channel;
  capture_unix_ms = n;
  value = number n;
  conflate = true;
}

abbrev published_at : Option ℕ → ChannelState ℕ
published_at t = record { interval_s = 1; pending = none; next_due = none; last_published = t }

abbrev gauges : ConflatingLimiter ℕ
gauges = record {
  config = record { max_hz_for = λ c. some 1; total_max_hz = 2 };
  suppressed = [];
  published = [];
  aggregate_sheds = 0;
  states =
      ("oil", published_at (some 5))
      ∷ ("rpm", published_at none)
      ∷ ("speed", published_at (some 9))
      ∷ [];
  aggregate_at = none;
  aggregate_tokens = 0;
}

abbrev candidates : List (LiveUpdate ℕ)
candidates = update "rpm" 1 ∷ update "oil" 2 ∷ update "rpm" 3 ∷ update "speed" 4 ∷ []

abbrev floor : ℕ → ℕ
floor n = n

candidates-conflated :
    (conflate_candidates gauges candidates).1
    ≡ update "rpm" 3 ∷ update "oil" 2 ∷ update "speed" 4 ∷ []
unfolding conflate_candidates conflate_all conflate_one conflate_as set_elem count lookup insert
candidates-conflated = refl

candidates-admitted :
    (admit whole floor gauges (conflate_candidates gauges candidates).1 20).1
    ≡ update "speed" 4 ∷ update "oil" 2 ∷ []
unfolding admit rank refill_aggregate accept_all reject_all conflate_candidates conflate_all
    conflate_one conflate_as set_elem count lookup insert
candidates-admitted = refl

conflate_candidates-total_example :
    length (conflate_candidates gauges candidates).1
      + total (conflate_candidates gauges candidates).0.suppressed
    ≡ 4 + total gauges.suppressed
conflate_candidates-total_example = conflate_candidates-total gauges candidates

abbrev calls : List (Call ℕ)
calls = (candidates, 20) ∷ (candidates, 20) ∷ (candidates, 21) ∷ []

admits-Keeps_example : Keeps whole floor 2 (record { level = 0; at = none }) gauges calls
admits-Keeps_example = admits-Keeps whole floor gauges calls refl
