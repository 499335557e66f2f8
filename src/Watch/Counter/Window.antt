-- ===== src/Watch/Counter/Window.antt =====
-- What a counter keeps of its past: the window ends with the second that is evaluated.
use openlaps.Common.{
  ◌+◌, ◌-◌, ◌≤◌, ◌≡◌, ◌≢◌, ◌↔◌, refl, sym, String, Bool, true, false, not, Option, none, some, List,
  [], ◌∷◌, ◌++◌, length, drop, arith, length-append, length-drop, drop-append, string_eq,
  Bool-cases, inl, inr,
}
use openlaps.Common.Dict.{Dict, lookup, insert}
use openlaps.Common.Number.{Number}
use openlaps.Common.Result.{Result, ok, err, ◌>>=◌, >>=-eq-ok, or_raise}
use openlaps.Watch.{
  Raised, key_error, index_error, gated, warming, ready, max_n, Reading, Readings, Row, row,
  reading, units_of, holds, gate_holds, When, min_n,
}
use openlaps.Watch.Raises.{Avoids, ok-Avoids, >>=-Avoids, if-Avoids}
use openlaps.Watch.Story.{Shows, silent, transition-Shows, transition-open}
use openlaps.Watch.Counter.{
  CounterConfig, Counter, counter_channels, max_counter_history, remember, drop_old, measure,
  counter_evaluate,
}

abbrev NoIndexError : {A : Type 0} → Result Raised A → Type 0
NoIndexError r = Avoids index_error r

abbrev >>=-NoIndexError :
    {A B : Type 0} (first : Result Raised A) (next : A → Result Raised B)
    → NoIndexError first
    → ((a : A) → NoIndexError (next a))
    → NoIndexError (first >>= next)
>>=-NoIndexError first next h k = >>=-Avoids index_error first next h k

module _ {N : Type 0} where
  reading-NoIndexError : (c : String) (readings : Readings N) → NoIndexError (reading c readings)
  unfolding reading
  reading-NoIndexError c readings = go (lookup c readings)
    where
      go : (o : Option (Reading N)) → NoIndexError (or_raise o (key_error c))
      go none e = cc e
      go (some r) e = cc e

  units_of-NoIndexError :
      (cs : List String) (readings : Readings N) (units : Dict String String)
      → NoIndexError (units_of cs readings units)
  unfolding units_of
  units_of-NoIndexError [] readings units = λ e. cc e
  units_of-NoIndexError (c ∷ cs) readings units =
      >>=-NoIndexError (reading c readings) _ (reading-NoIndexError c readings)
        (λ r. units_of-NoIndexError cs readings (insert c r.unit units))

module _ (number : Number) where
  open number use {N, sub, mul, div, lt_n, le_n, of_ℕ}

  holds-NoIndexError :
      (ws : List (When N)) (readings : Readings N) → NoIndexError (holds number ws readings)
  unfolding holds
  holds-NoIndexError [] readings = λ e. cc e
  holds-NoIndexError (w ∷ ws) readings =
      >>=-NoIndexError (reading w.channel readings) _ (reading-NoIndexError w.channel readings)
        (λ r.
          if-Avoids index_error (gate_holds number w r.value) _ _ (holds-NoIndexError ws readings)
            (ok-Avoids index_error false))

  -- The first entry is not older than the window.
  abbrev pub Fresh : N → N → List (N × N) → Type 0
  Fresh window at [] = Unit
  Fresh window at ((t, v) ∷ rest) = lt_n window (sub at t) ≡ false

  -- The history ends with the second `at`, starts inside the window, and is no longer than the deque allows.
  pub record IsWindow (window at observed : N) (history : List (N × N)) : Type 0 where
    pub earlier : List (N × N)
    pub ends : history ≡ earlier ++ (at, observed) ∷ []
    pub size : length earlier + 1 ≤ max_counter_history
    pub fresh : Fresh window at history

  drop_old-IsWindow :
      (window at observed : N) (xs : List (N × N))
      → lt_n window (sub at at) ≡ false
      → length xs + 1 ≤ max_counter_history
      → IsWindow window at observed (drop_old number window at (xs ++ (at, observed) ∷ []))
  unfolding drop_old
  drop_old-IsWindow window at observed [] now h =
      rw now (record { earlier = []; ends = refl; size = h; fresh = now })
  drop_old-IsWindow window at observed ((t, v) ∷ xs) now h =
      elim (Bool-cases (lt_n window (sub at t))) [
        | inl e ↦ rw e (drop_old-IsWindow window at observed xs now (omega (arith, h)))
        | inr e ↦ rw e (record { earlier = (t, v) ∷ xs; ends = refl; size = h; fresh = e })
      ]

  remember-IsWindow :
      (window at observed : N) (history : List (N × N))
      → lt_n window (sub at at) ≡ false
      → length history ≤ max_counter_history
      → IsWindow window at observed (drop_old number window at (remember history (at, observed)))
  unfolding remember
  remember-IsWindow window at observed history now h =
      let k = length (history ++ (at, observed) ∷ []) - max_counter_history in
      let small : k ≤ length history = omega (arith, length-append history ((at, observed) ∷ [])) in
      rw (drop-append k history ((at, observed) ∷ []) small) (
        drop_old-IsWindow window at observed (drop k history) now
          (omega (arith, length-append history ((at, observed) ∷ []), length-drop k history, h)))

  -- The rate per minute of a rise that is not negative over a span.
  abbrev pub rate : N → N → N
  rate rise span = div (mul rise (of_ℕ 60)) span

  -- What the row says of the rise since the first entry of the history: nothing while the history is shorter than ten
  -- seconds and the window; later the rise, and the score, which is the part of the threshold that the rate reaches, 1
  -- at most. A finding is open just when the rate has reached the threshold.
  pub data Rates (cfg : CounterConfig N) (before : N) (rise span : N) (c : Counter N)
      (shown : Row N) : Type 0 where
    warms :
        lt_n span (min_n number cfg.score_window (of_ℕ 10)) ≡ true
        → shown.baseline_status ≡ warming
        → shown.score ≡ none
        → c.score ≡ before
        → Rates cfg before rise span c shown
    rates :
        lt_n span (min_n number cfg.score_window (of_ℕ 10)) ≡ false
        → shown.baseline_status ≡ ready
        → shown.residual ≡ some rise
        → shown.score ≡ some (min_n number (of_ℕ 1) (div (rate rise span) cfg.open_finding_above))
        → shown.score ≡ some c.score
        → (c.finding ≢ none) ↔ (le_n cfg.open_finding_above (rate rise span) ≡ true)
        → Rates cfg before rise span c shown

  -- A call that comes to measure the rate, and a call that does not.
  pub data Measures (cfg : CounterConfig N) (c : Counter N) (at : N) (readings : Readings N)
      : Counter N × Row N → Type 0 where
    waits : {p : Counter N × Row N} → p ≡ (c, row at gated) → Measures cfg c at readings p
    measures :
        {p : Counter N × Row N} (r : Reading N) (first_at first_value : N) (rest : List (N × N))
        → reading cfg.channel readings ≡ ok r
        → p.0.history ≡ (first_at, first_value) ∷ rest
        → IsWindow cfg.score_window at r.value p.0.history
        → p.1.observed ≡ some r.value
        → p.1.expected ≡ some first_value
        → Rates cfg c.score
            (max_n number (of_ℕ 0) (sub r.value first_value))
            (sub at first_at)
            p.0
            p.1
        → Shows number c.finding p.1.finding p.0.finding
        → Measures cfg c at readings p

  of_ok :
      (q p : Counter N × Row N) → ◌≡◌ {A = Result Raised (Counter N × Row N)} (ok q) (ok p) → q ≡ p
  of_ok q p e = cc e

  measure-Measures :
      (cfg : CounterConfig N) (c : Counter N) (units : Dict String String) (at : N)
      (readings : Readings N) (r : Reading N) (uid : String) (history : List (N × N))
      (p : Counter N × Row N)
      → reading cfg.channel readings ≡ ok r
      → IsWindow cfg.score_window at r.value history
      → measure number cfg (record c { units = units }) at r.value uid history ≡ ok p
      → Measures cfg c at readings p
  measure-Measures cfg c units at readings r uid [] p read h went = cc went
  measure-Measures cfg c units at readings r uid ((first_at, first_value) ∷ rest) p read h went =
      elim (Bool-cases (lt_n (sub at first_at) (min_n number cfg.score_window (of_ℕ 10)))) [
        | inl e ↦
            let same = of_ok _ p (rw e at went) in
            rw (sym same) (
              measures r first_at first_value rest read refl h refl refl (warms e refl refl refl)
                silent)
        | inr e ↦
            let same = of_ok _ p (rw e at went) in
            rw (sym same) (
              measures r first_at first_value rest read refl h refl refl
                (rates e refl refl refl refl
                  (transition-open number c.finding at _ _ _ cfg.severity uid))
                (transition-Shows number c.finding at _ _ _ cfg.severity uid))
      ]

  measure-NoIndexError :
      (cfg : CounterConfig N) (c : Counter N) (at observed : N) (uid : String)
      (history : List (N × N))
      → IsWindow cfg.score_window at observed history
      → NoIndexError (measure number cfg c at observed uid history)
  measure-NoIndexError cfg c at observed uid [] h = absurd (nonempty h.earlier h.ends)
    where
      nonempty : (xs : List (N × N)) → [] ≢ xs ++ (at, observed) ∷ []
      nonempty [] e = cc e
      nonempty (x ∷ xs) e = cc e
  measure-NoIndexError cfg c at observed uid ((first_at, first_value) ∷ rest) h =
      elim (Bool-cases (lt_n (sub at first_at) (min_n number cfg.score_window (of_ℕ 10)))) [
        | inl e ↦ rw e (λ q. cc q)
        | inr e ↦ rw e (λ q. cc q)
      ]

  -- Where the window is no shorter than a second's distance from itself, and the history within its bound, the
  -- counter never reads the first entry of an empty history.
  pub counter_evaluate-NoIndexError :
      (cfg : CounterConfig N) (c : Counter N) (at : N) (readings : Readings N) (gate_open : Bool)
      (uid : String)
      → lt_n cfg.score_window (sub at at) ≡ false
      → length c.history ≤ max_counter_history
      → counter_evaluate number cfg c at readings gate_open uid ≢ err index_error
  unfolding counter_evaluate
  counter_evaluate-NoIndexError cfg c at readings false uid now h = λ e. cc e
  counter_evaluate-NoIndexError cfg c at readings true uid now h =
      >>=-NoIndexError (holds number cfg.when readings) _ (holds-NoIndexError cfg.when readings)
        (λ passes. if-Avoids index_error (not passes) _ _ (ok-Avoids index_error _) (
          >>=-NoIndexError (units_of (counter_channels cfg) readings []) _
            (units_of-NoIndexError (counter_channels cfg) readings [])
            (λ units.
              >>=-NoIndexError (reading cfg.channel readings) _
                (reading-NoIndexError cfg.channel readings)
                (λ r.
                  measure-NoIndexError cfg (record c { units = units }) at r.value uid _
                    (remember-IsWindow cfg.score_window at r.value c.history now h)))))

  -- Where the window is no shorter than a second's distance from itself, and the history within its bound, a call that
  -- raises nothing leaves the counter and shows a gated row, or it reads the channel and leaves a history of at most
  -- 3600 entries that ends with this second and starts inside the window. Its row then shows the value of this second
  -- and of the history's first entry. While these are less than ten seconds and the window apart it has no score; later
  -- it shows the rise between them, 0 at least, and as the score the rise per minute over the time between them, as a
  -- part of the threshold, 1 at most. A finding is open just if the threshold is reached, and the row opens, updates or
  -- closes it.
  pub counter_evaluate-Measures :
      (cfg : CounterConfig N) (c : Counter N) (at : N) (readings : Readings N) (gate_open : Bool)
      (uid : String) (p : Counter N × Row N)
      → lt_n cfg.score_window (sub at at) ≡ false
      → length c.history ≤ max_counter_history
      → counter_evaluate number cfg c at readings gate_open uid ≡ ok p
      → Measures cfg c at readings p
  unfolding counter_evaluate
  counter_evaluate-Measures cfg c at readings false uid p now h went = waits (sym (of_ok _ p went))
  counter_evaluate-Measures cfg c at readings true uid p now h went =
      let (passes, _, then_gate) = >>=-eq-ok (holds number cfg.when readings) _ went in
      elim (Bool-cases (not passes)) [
        | inl e ↦ waits (sym (of_ok _ p (rw e at then_gate)))
        | inr e ↦
            let (units, _, then_units) =
              >>=-eq-ok (units_of (counter_channels cfg) readings []) _ (rw e at then_gate) in
            let (r, read, end) = >>=-eq-ok (reading cfg.channel readings) _ then_units in
            measure-Measures cfg c units at readings r uid _ p read
              (remember-IsWindow cfg.score_window at r.value c.history now h) end
      ]
