-- ===== src/Watch/Engine/Keys.antt =====
-- src/pit/watch/monitors.py: a monitor reads no channel that is not there, if the channels that it names are.
use openlaps.Common.{
  ◌≡◌, refl, String, Bool, true, false, not, Option, none, some, List, [], ◌∷◌, ◌++◌, if◌then◌else◌,
  All, All-split, string_eq,
}
use openlaps.Common.Dict.{Dict, lookup, insert}
use openlaps.Common.Json.{Json}
use openlaps.Common.Number.{Number}
use openlaps.Common.Result.{Result, ok, ◌>>=◌, or_raise}
use openlaps.Watch.{
  Raised, key_error, overflow_error, Reading, Readings, When, Maths, reading, units_of,
  units_differ, holds, gate_holds,
}
use openlaps.Watch.Model.{
  Model, Condition, EnvelopeConfig, RatioConfig, channels_of_conditions, channels_of_gates,
  per_channel, envelope_channels, ratio_channels, index_of, indices_of, values_of, ratio_of,
  group_of, after_ratio, envelope_evaluate, ratio_evaluate,
}
use openlaps.Watch.Raises.{Avoids, ok-Avoids, >>=-Avoids, if-Avoids}
use openlaps.Watch.Model.Run.{TableKind, envelope, ratio, evaluate}
use openlaps.Watch.Counter.{CounterConfig, Counter, counter_channels, measure, counter_evaluate}
use openlaps.Watch.Drift.{DriftConfig, Drift, drift_channels, drift_evaluate}
use openlaps.Watch.Engine.{
  Monitor, table_monitor, counter_monitor, drift_monitor, table_channels, channels,
  evaluate_monitor,
}

-- The code raises no `KeyError`.
abbrev pub NoKeyError : {A : Type 0} → Result Raised A → Type 0
NoKeyError r = (c : String) → Avoids (key_error c) r

pub ok-NoKeyError : {A : Type 0} (a : A) → NoKeyError (ok a)
ok-NoKeyError a c = ok-Avoids (key_error c) a

pub >>=-NoKeyError :
    {A B : Type 0} (first : Result Raised A) (next : A → Result Raised B)
    → NoKeyError first
    → ((a : A) → NoKeyError (next a))
    → NoKeyError (first >>= next)
>>=-NoKeyError first next h k c = >>=-Avoids (key_error c) first next (h c) (λ a. k a c)

pub if-NoKeyError :
    {A : Type 0} (b : Bool) (one other : Result Raised A)
    → NoKeyError one
    → NoKeyError other
    → NoKeyError (if b then one else other)
if-NoKeyError b one other h k c = if-Avoids (key_error c) b one other (h c) (k c)

module _ {N : Type 0} (readings : Readings N) where
  abbrev pub Present : String → Type 0
  Present c = (r : Reading N) × (lookup c readings ≡ some r)

  reading-NoKeyError : (c : String) → Present c → NoKeyError (reading c readings)
  unfolding reading
  reading-NoKeyError c (r, h) = rw h (ok-NoKeyError r)

  units_of-NoKeyError :
      (cs : List String) (units : Dict String String)
      → All Present cs
      → NoKeyError (units_of cs readings units)
  unfolding units_of
  units_of-NoKeyError [] units h = ok-NoKeyError units
  units_of-NoKeyError (c ∷ cs) units (h, hs) =
      >>=-NoKeyError (reading c readings) _ (reading-NoKeyError c h)
        (λ r. units_of-NoKeyError cs (insert c r.unit units) hs)

module _ (number : Number) (readings : Readings number.N) where
  open number use {N}

  holds-NoKeyError :
      (ws : List (When N))
      → All (Present readings) (channels_of_gates ws)
      → NoKeyError (holds number ws readings)
  unfolding holds
  holds-NoKeyError [] h = ok-NoKeyError true
  holds-NoKeyError (w ∷ ws) (h, hs) =
      >>=-NoKeyError (reading w.channel readings) _ (reading-NoKeyError readings w.channel h) (λ r.
        if-NoKeyError (gate_holds number w r.value) _ _ (holds-NoKeyError ws hs)
          (ok-NoKeyError false))

module _ (number : Number) (maths : Maths number.N) (readings : Readings number.N) where
  open number use {N}

  overflow-NoKeyError : {A : Type 0} (o : Option A) → NoKeyError (or_raise o overflow_error)
  overflow-NoKeyError none = λ c e. cc e
  overflow-NoKeyError (some a) = ok-NoKeyError a

  index_of-NoKeyError : (c : Condition N) (value : N) → NoKeyError (index_of number maths c value)
  index_of-NoKeyError c value = go c.active_above
    where
      go : (o : Option N) → NoKeyError (index_of number maths (record c { active_above = o }) value)
      go none = overflow-NoKeyError (maths.floor (number.div value c.bins))
      go (some bound) = ok-NoKeyError _

  indices_of-NoKeyError :
      (cs : List (Condition N))
      → All (Present readings) (channels_of_conditions cs)
      → NoKeyError (indices_of number maths cs readings)
  unfolding indices_of
  indices_of-NoKeyError [] h = ok-NoKeyError []
  indices_of-NoKeyError (c ∷ cs) (h, hs) =
      >>=-NoKeyError (reading c.channel readings) _ (reading-NoKeyError readings c.channel h) (λ r.
        >>=-NoKeyError (index_of number maths c r.value) _ (index_of-NoKeyError c r.value) (λ i.
          >>=-NoKeyError (indices_of number maths cs readings) _ (indices_of-NoKeyError cs hs)
            (λ indices. ok-NoKeyError (i ∷ indices))))

  envelope_evaluate-NoKeyError :
      (cfg : EnvelopeConfig N) (m : Model N) (at : N) (uid : String)
      → All (Present readings) (envelope_channels cfg)
      → NoKeyError (envelope_evaluate number maths cfg m at readings true uid)
  unfolding envelope_evaluate
  envelope_evaluate-NoKeyError cfg m at uid h =
      >>=-NoKeyError (units_of (envelope_channels cfg) readings []) _
        (units_of-NoKeyError readings (envelope_channels cfg) [] h)
        (λ units. if-NoKeyError (units_differ m.units units) _ _ (ok-NoKeyError _) (
          >>=-NoKeyError (reading cfg.target readings) _
            (reading-NoKeyError readings cfg.target h.0)
            (λ r.
              >>=-NoKeyError (indices_of number maths cfg.conditioned_on readings) _
                (indices_of-NoKeyError cfg.conditioned_on h.1) (λ indices. ok-NoKeyError _))))

  values_of-NoKeyError :
      (cs : List String)
      → All (Present readings) cs
      → NoKeyError (values_of number maths cs readings)
  unfolding values_of
  values_of-NoKeyError [] h = ok-NoKeyError []
  values_of-NoKeyError (c ∷ cs) (h, hs) =
      >>=-NoKeyError (reading c readings) _ (reading-NoKeyError readings c h) (λ r.
        >>=-NoKeyError (values_of number maths cs readings) _ (values_of-NoKeyError cs hs)
          (λ values. ok-NoKeyError (r.value ∷ values)))

  ratio_of-NoKeyError :
      (cfg : RatioConfig N)
      → Present readings cfg.numerator
      → All (Present readings) cfg.denominators
      → NoKeyError (ratio_of number maths cfg readings)
  unfolding ratio_of
  ratio_of-NoKeyError cfg h hs =
      >>=-NoKeyError (values_of number maths cfg.denominators readings) _
        (values_of-NoKeyError cfg.denominators hs)
        (λ values. if-NoKeyError _ _ _ (ok-NoKeyError none) (
          >>=-NoKeyError (reading cfg.numerator readings) _
            (reading-NoKeyError readings cfg.numerator h) (λ r. ok-NoKeyError _)))

  group_of-NoKeyError :
      (per : Option String)
      → All (Present readings) (per_channel per)
      → NoKeyError (group_of number maths per readings)
  unfolding group_of
  group_of-NoKeyError none h = ok-NoKeyError "all"
  group_of-NoKeyError (some c) (h, _) =
      >>=-NoKeyError (reading c readings) _ (reading-NoKeyError readings c h) (λ r.
        >>=-NoKeyError (or_raise (maths.trunc r.value) overflow_error) _
          (overflow-NoKeyError (maths.trunc r.value)) (λ i. ok-NoKeyError _))

  ratio_evaluate-NoKeyError :
      (cfg : RatioConfig N) (m : Model N) (at : N) (uid : String)
      → All (Present readings) (ratio_channels cfg)
      → NoKeyError (ratio_evaluate number maths cfg m at readings true uid)
  unfolding ratio_evaluate
  ratio_evaluate-NoKeyError cfg m at uid (h, hs) =
      let (dens, others) =
        All-split (Present readings) cfg.denominators
          (per_channel cfg.per ++ channels_of_gates cfg.when) hs in
      let (per, gates) =
        All-split (Present readings) (per_channel cfg.per) (channels_of_gates cfg.when) others in
      >>=-NoKeyError (holds number cfg.when readings) _
        (holds-NoKeyError number readings cfg.when gates)
        (λ passes. if-NoKeyError (not passes) _ _ (ok-NoKeyError _) (
          >>=-NoKeyError (units_of (ratio_channels cfg) readings []) _
            (units_of-NoKeyError readings (ratio_channels cfg) [] (h, hs))
            (λ units. if-NoKeyError (units_differ m.units units) _ _ (ok-NoKeyError _) (
              >>=-NoKeyError (ratio_of number maths cfg readings) _ (ratio_of-NoKeyError cfg h dens)
                (λ ratio. go units ratio per)))))
    where
      go :
          (units : Dict String String) (o : Option N)
          → All (Present readings) (per_channel cfg.per)
          → NoKeyError (after_ratio number maths cfg m at readings uid units o)
      go units none per = ok-NoKeyError _
      go units (some observed) per =
          >>=-NoKeyError (group_of number maths cfg.per readings) _
            (group_of-NoKeyError cfg.per per) (λ key. ok-NoKeyError _)

  evaluate-NoKeyError :
      (kind : TableKind N) (m : Model N) (at : N) (uid : String)
      → All (Present readings) (table_channels kind)
      → NoKeyError (
          evaluate number maths kind m
            (record { at = at; readings = readings; gate_open = true; uid = uid }))
  unfolding evaluate
  evaluate-NoKeyError (envelope cfg) m at uid h = envelope_evaluate-NoKeyError cfg m at uid h
  evaluate-NoKeyError (ratio cfg) m at uid h = ratio_evaluate-NoKeyError cfg m at uid h

  measure-NoKeyError :
      (cfg : CounterConfig N) (c : Counter N) (at observed : N) (uid : String)
      (history : List (N × N))
      → NoKeyError (measure number cfg c at observed uid history)
  measure-NoKeyError cfg c at observed uid [] = λ k e. cc e
  measure-NoKeyError cfg c at observed uid ((first_at, first_value) ∷ rest) =
      if-NoKeyError _ _ _ (ok-NoKeyError _) (ok-NoKeyError _)

  counter_evaluate-NoKeyError :
      (cfg : CounterConfig N) (c : Counter N) (at : N) (uid : String)
      → All (Present readings) (counter_channels cfg)
      → NoKeyError (counter_evaluate number cfg c at readings true uid)
  unfolding counter_evaluate
  counter_evaluate-NoKeyError cfg c at uid (h, hs) =
      >>=-NoKeyError (holds number cfg.when readings) _
        (holds-NoKeyError number readings cfg.when hs)
        (λ passes. if-NoKeyError (not passes) _ _ (ok-NoKeyError _) (
          >>=-NoKeyError (units_of (counter_channels cfg) readings []) _
            (units_of-NoKeyError readings (counter_channels cfg) [] (h, hs))
            (λ units.
              >>=-NoKeyError (reading cfg.channel readings) _
                (reading-NoKeyError readings cfg.channel h)
                (λ r. measure-NoKeyError cfg (record c { units = units }) at r.value uid _))))

  module _ (truth : Json N → Bool) where
    drift_evaluate-NoKeyError :
        (cfg : DriftConfig N) (d : Drift N) (at : N)
        → All (Present readings) (drift_channels cfg)
        → NoKeyError (drift_evaluate number maths truth cfg d at readings true)
    unfolding drift_evaluate
    drift_evaluate-NoKeyError cfg d at (h, hs) =
        >>=-NoKeyError (units_of (drift_channels cfg) readings []) _
          (units_of-NoKeyError readings (drift_channels cfg) [] (h, hs))
          (λ units. if-NoKeyError (units_differ d.units units) _ _ (ok-NoKeyError _) (
            >>=-NoKeyError (reading cfg.target readings) _
              (reading-NoKeyError readings cfg.target h)
              (λ r.
                >>=-NoKeyError (holds number cfg.when readings) _
                  (holds-NoKeyError number readings cfg.when hs) (λ passes. ok-NoKeyError _))))

    pub evaluate_monitor-NoKeyError :
        (m : Monitor N) (at : N) (gate_open : Bool) (uid : String)
        → (gate_open ≡ true → All (Present readings) (channels m))
        → NoKeyError (evaluate_monitor number maths truth m at readings gate_open uid)
    unfolding evaluate_monitor
    evaluate_monitor-NoKeyError (table_monitor kind m) at true uid h =
        >>=-NoKeyError _ _ (evaluate-NoKeyError kind m at uid (h refl)) (λ p. ok-NoKeyError _)
    evaluate_monitor-NoKeyError (counter_monitor cfg c) at true uid h =
        >>=-NoKeyError _ _ (counter_evaluate-NoKeyError cfg c at uid (h refl))
          (λ p. ok-NoKeyError _)
    evaluate_monitor-NoKeyError (drift_monitor cfg d) at true uid h =
        >>=-NoKeyError _ _ (drift_evaluate-NoKeyError cfg d at (h refl)) (λ p. ok-NoKeyError _)
    evaluate_monitor-NoKeyError (table_monitor (envelope cfg) m) at false uid h =
        unfold evaluate envelope_evaluate in ok-NoKeyError _
    evaluate_monitor-NoKeyError (table_monitor (ratio cfg) m) at false uid h =
        unfold evaluate ratio_evaluate in ok-NoKeyError _
    evaluate_monitor-NoKeyError (counter_monitor cfg c) at false uid h =
        unfold counter_evaluate in ok-NoKeyError _
    evaluate_monitor-NoKeyError (drift_monitor cfg d) at false uid h =
        unfold drift_evaluate in ok-NoKeyError _
