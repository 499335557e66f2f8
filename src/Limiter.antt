-- ===== src/Limiter.antt =====
-- src/pit/live_decoder/limiter.py: the rate limiter of the live gauges. The configuration is what
-- `max_hz_for` says of a channel and the total rate; `floor` is `max(0, int(x))`.
pub mod Gauge
pub mod Counts
pub mod Admit
pub mod Budget
mod Examples
use openlaps.Common.{
  ℕ, zero, suc, ◌+◌, ◌^◌, String, Bool, true, false, not, ◌&&◌, ◌||◌, Option, none, some, List, [],
  ◌∷◌, ◌++◌, eqb, ltb, min, length, take, drop, get_elem?, if◌then◌else◌, ◌==◌, string_eq,
}
use openlaps.Common.Dict.{Dict, lookup, insert}
use openlaps.Common.Number.{Number}
use openlaps.Common.Text.{Text, codes}
use openlaps.Registry.{DecodedSample, Value}

pub record LiveConfig (N : Type 0) : Type 0 where
  pub max_hz_for : String → Option N
  pub total_max_hz : N

pub record LiveUpdate (N : Type 0) : Type 0 where
  pub channel : String
  pub capture_unix_ms : N
  pub value : Value N
  pub conflate : Bool

pub record ChannelState (N : Type 0) : Type 0 where
  pub interval_s : N
  pub pending : Option (LiveUpdate N)
  pub next_due : Option N
  pub last_published : Option N

pub record ConflatingLimiter (N : Type 0) : Type 0 where
  pub config : LiveConfig N
  pub suppressed : Dict String ℕ
  pub published : Dict String ℕ
  pub aggregate_sheds : ℕ
  pub states : Dict String (ChannelState N)
  pub aggregate_at : Option N
  pub aggregate_tokens : N

-- `d[key] += 1` on a `defaultdict(int)`.
unfoldable pub count : String → Dict String ℕ → Dict String ℕ
count key [] = (key, 1) ∷ []
count key ((k, n) ∷ rest) = if k == key then (k, n + 1) ∷ rest else (k, n) ∷ count key rest

-- `a < b` of strings, by their code points.
abbrev pub text_lt : Text → Text → Bool
text_lt _ [] = false
text_lt [] (y ∷ ys) = true
text_lt (x ∷ xs) (y ∷ ys) = ltb x y || (eqb x y && text_lt xs ys)

pub record Conflated (N : Type 0) : Type 0 where
  pub conflated : List (LiveUpdate N)
  pub indexes : Dict String ℕ
  pub suppressed : Dict String ℕ

module _ {N : Type 0} where
  -- `conflated[index] = update`
  unfoldable pub set_elem : ℕ → LiveUpdate N → List (LiveUpdate N) → List (LiveUpdate N)
  set_elem i update [] = []
  set_elem zero update (u ∷ us) = update ∷ us
  set_elem (suc i) update (u ∷ us) = u ∷ set_elem i update us

  -- One turn of the loop of `conflate_candidates`, given whether the update is limited and where
  -- one of its channel stands.
  unfoldable pub conflate_as : Conflated N → LiveUpdate N → Bool → Option ℕ → Conflated N
  unfolding set_elem count insert
  conflate_as c update false place = record c { conflated = c.conflated ++ update ∷ [] }
  conflate_as c update true none = record c {
    indexes = insert update.channel (length c.conflated) c.indexes;
    conflated = c.conflated ++ update ∷ [];
  }
  conflate_as c update true (some index) = record c {
    conflated = set_elem index update c.conflated;
    suppressed = count update.channel c.suppressed;
  }

  unfoldable pub conflate_one : Conflated N → LiveUpdate N → Conflated N
  unfolding conflate_as lookup
  conflate_one c update = conflate_as c update update.conflate (lookup update.channel c.indexes)

  unfoldable pub conflate_all : Conflated N → List (LiveUpdate N) → Conflated N
  unfolding conflate_one
  conflate_all c [] = c
  conflate_all c (update ∷ updates) = conflate_all (conflate_one c update) updates

  unfoldable pub conflate_candidates :
      ConflatingLimiter N → List (LiveUpdate N) → ConflatingLimiter N × List (LiveUpdate N)
  unfolding conflate_all
  conflate_candidates l candidates =
      let c =
        conflate_all (record { conflated = []; indexes = []; suppressed = l.suppressed })
          candidates in
      (record l { suppressed = c.suppressed }, c.conflated)

  abbrev pub fresh_state : N → ChannelState N
  fresh_state interval = record {
    interval_s = interval;
    pending = none;
    next_due = none;
    last_published = none;
  }

  abbrev pub or_fresh : N → Option (ChannelState N) → ChannelState N
  or_fresh zero_ none = fresh_state zero_
  or_fresh zero_ (some state) = state

  abbrev pub is_pending : ChannelState N → Bool
  is_pending state = elim state.pending [ none ↦ false | some _ ↦ true ]
