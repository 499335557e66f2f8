-- ===== src/Watch/Drift/Rows.antt =====
-- src/pit/watch/monitors.py (Drift): the findings that the rows show, in step with the laps that make them.
use openlaps.Common.{
  ℕ, ◌+◌, ◌≡◌, ◌≢◌, refl, sym, String, Bool, true, false, not, ◌&&◌, Option, none, some, List, [],
  ◌∷◌, ◌++◌, leb, if◌then◌else◌, Bool-cases, inl, inr,
}
use openlaps.Common.Dict.{Dict}
use openlaps.Common.Json.{Json, Members, get}
use openlaps.Common.Number.{Number}
use openlaps.Common.Result.{Result, ok, ◌>>=◌, >>=-eq-ok}
use openlaps.Watch.{Raised, Maths, Readings, Finding, Row, reading, units_of, units_differ, holds}
use openlaps.Watch.Story.{Shows, silent, Story, over, next, transition-Shows}
use openlaps.Watch.Drift.{
  DriftConfig, Drift, drift_channels, freeze_laps, bank, judge_lap, judge_known, clean_lap, is_lap,
  on_lap, on_pit, drift_evaluate, take_in, drift_row,
}

-- What the engine calls.
pub data Input (N : Type 0) : Type 0 where
  laps : Members N → N → String → Input N
  pits : Input N
  seconds : N → Readings N → Bool → Input N

-- Between two laps there is a second; `waiting` says that a lap has come since the last second.
abbrev pub Spaced : {N : Type 0} → Bool → List (Input N) → Type 0
Spaced waiting [] = Unit
Spaced waiting (laps event at uid ∷ inputs) = (waiting ≡ false) × Spaced true inputs
Spaced waiting (pits ∷ inputs) = Spaced waiting inputs
Spaced waiting (seconds at readings gate_open ∷ inputs) = Spaced false inputs

module _ (number : Number) (maths : Maths number.N) (truth : Json number.N → Bool) where
  open number use {N}

  abbrev brief : Drift N → List (Row N) → Drift N × List (Row N)
  brief d rows = (d, rows)

  unfoldable pub step : DriftConfig N → Drift N → Input N → Result Raised (Drift N × List (Row N))
  unfolding on_lap on_pit drift_evaluate
  step cfg d (laps event at uid) =
      on_lap number maths truth cfg d event at uid >>= λ d'. ok (brief d' [])
  step cfg d pits = ok (brief (on_pit d) [])
  step cfg d (seconds at readings gate_open) =
      drift_evaluate number maths truth cfg d at readings gate_open >>= λ p.
      ok (brief p.0 (p.1 ∷ []))

  unfoldable pub run :
      DriftConfig N → Drift N → List (Input N) → Result Raised (Drift N × List (Row N))
  unfolding step
  run cfg d [] = ok (d, [])
  run cfg d (i ∷ inputs) =
      step cfg d i >>= λ p. run cfg p.0 inputs >>= λ q. ok (brief q.0 (p.1 ++ q.1))

  abbrev pub findings_of : List (Row N) → List (Option (Finding N))
  findings_of [] = []
  findings_of (r ∷ rows) = r.finding ∷ findings_of rows

  -- The finding that the rows have shown so far, with the one that is still to be shown, gives the monitor's.
  abbrev pub Owes : Option (Finding N) → Drift N → Type 0
  Owes shown d = Shows number shown d.pending d.finding

  pub settled :
      (shown : Option (Finding N)) (d : Drift N)
      → Owes shown d
      → d.pending ≡ none
      → shown ≡ d.finding
  settled shown d h e = go shown d.pending d.finding h e
    where
      go : (g p f : Option (Finding N)) → Shows number g p f → p ≡ none → g ≡ f
      go g p f silent e = refl
      go g p f (Shows.opens q) e = absurd (cc e)
      go g p f (Shows.updates q) e = absurd (cc e)
      go g p f (Shows.closes at q) e = absurd (cc e)

  bank-Owes :
      (shown : Option (Finding N)) (cfg : DriftConfig N) (d : Drift N)
      (lap_number : Option (Json N)) (at lap_mean : N) (n : ℕ)
      → Owes shown d
      → Owes shown (bank number maths truth cfg d lap_number at lap_mean n)
  unfolding bank freeze_laps
  bank-Owes shown cfg d lap_number at lap_mean n h =
      elim (Bool-cases (
        leb cfg.baseline_laps (
          openlaps.Common.length (
            d.baseline_laps
            ++ record { lap_number = lap_number; at = at; mean = lap_mean; n = n } ∷ [])))) [
              | inl e ↦ rw e h
              | inr e ↦ rw e h
            ]

  -- A lap after the last finding has been shown leaves one to show, or none.
  abbrev LeavesOne : Option (Finding N) → Result Raised (Drift N) → Type 0
  LeavesOne shown r = (d' : Drift N) → r ≡ ok d' → Owes shown d'

  ok-LeavesOne : (shown : Option (Finding N)) (d : Drift N) → Owes shown d → LeavesOne shown (ok d)
  ok-LeavesOne shown d h d' e = let same : d ≡ d' = cc e in rw (sym same) h

  clean_lap-LeavesOne :
      (frozen : Bool) (shown : Option (Finding N)) (cfg : DriftConfig N) (d : Drift N)
      (lap_number : Option (Json N)) (at lap_mean : N) (n : ℕ) (uid : String)
      → d.pending ≡ none
      → Owes shown d
      → LeavesOne shown (clean_lap number maths truth frozen cfg d lap_number at lap_mean n uid)
  unfolding judge_lap
  clean_lap-LeavesOne false shown cfg d lap_number at lap_mean n uid e h =
      ok-LeavesOne shown _ (bank-Owes shown cfg d lap_number at lap_mean n h)
  clean_lap-LeavesOne true shown cfg d lap_number at lap_mean n uid e h = go d.mean d.scale
    where
      go :
          (mean scale : Option N)
          → LeavesOne shown
              (judge_known number maths truth cfg d lap_number at lap_mean n uid mean scale)
      go (some mean) (some scale) =
          ok-LeavesOne shown _
            (rw (settled shown d h e) (transition-Shows number d.finding at _ _ _ cfg.severity uid))
      go none scale = λ d' q. absurd (cc q)
      go (some mean) none = λ d' q. absurd (cc q)

  on_lap-LeavesOne :
      (shown : Option (Finding N)) (cfg : DriftConfig N) (d : Drift N) (event : Members N) (at : N)
      (uid : String)
      → d.pending ≡ none
      → Owes shown d
      → LeavesOne shown (on_lap number maths truth cfg d event at uid)
  unfolding on_lap
  on_lap-LeavesOne shown cfg d event at uid e h =
      let cleared : Drift N = record d { lap_sum = number.of_ℕ 0; lap_n = 0; lap_dirty = false } in
      go
        (is_lap number maths truth (get event "valid")
          && not d.lap_dirty
          && leb cfg.min_lap_samples d.lap_n)
        _ cleared
        (clean_lap-LeavesOne d.frozen shown cfg cleared (get event "lap_number") at
          (number.div d.lap_sum (number.of_ℕ d.lap_n)) d.lap_n uid e h)
        (ok-LeavesOne shown cleared h)
    where
      go :
          (b : Bool) (judged : Result Raised (Drift N)) (cleared : Drift N)
          → LeavesOne shown judged
          → LeavesOne shown (ok cleared)
          → LeavesOne shown (if b then judged else ok cleared)
      go true judged cleared j n = j
      go false judged cleared j n = n

  -- A second shows what is owed and owes nothing.
  abbrev Settles : Drift N → Drift N × Row N → Type 0
  Settles d (d', shown) =
      (shown.finding ≡ d.pending) × (d'.pending ≡ none) × (d'.finding ≡ d.finding)

  ok-Settles :
      (d : Drift N) (p q : Drift N × Row N)
      → ◌≡◌ {A = Result Raised (Drift N × Row N)} (ok q) (ok p)
      → Settles d q
      → Settles d p
  ok-Settles d p q e h = let same : q ≡ p = cc e in rw (sym same) h

  taken-Settles :
      (passes : Bool) (cfg : DriftConfig N) (d : Drift N) (units : Dict String String)
      (at observed : N) (frozen : Bool)
      → d.frozen ≡ frozen
      → let d' =
          take_in number maths truth passes observed (record d { pending = none; units = units }) in
        Settles d (d', drift_row number maths truth d' at observed d.pending)
  taken-Settles true cfg d units at observed true e = rw e (refl, refl, refl)
  taken-Settles true cfg d units at observed false e = rw e (refl, refl, refl)
  taken-Settles false cfg d units at observed true e = rw e (refl, refl, refl)
  taken-Settles false cfg d units at observed false e = rw e (refl, refl, refl)

  drift_evaluate-Settles :
      (cfg : DriftConfig N) (d : Drift N) (at : N) (readings : Readings N) (gate_open : Bool)
      (p : Drift N × Row N)
      → drift_evaluate number maths truth cfg d at readings gate_open ≡ ok p
      → Settles d p
  unfolding drift_evaluate
  drift_evaluate-Settles cfg d at readings false p went = ok-Settles d p _ went (refl, refl, refl)
  drift_evaluate-Settles cfg d at readings true p went =
      let (units, _, then_units) = >>=-eq-ok (units_of (drift_channels cfg) readings []) _ went in
      elim (Bool-cases (units_differ d.units units)) [
        | inl e ↦ ok-Settles d p _ (rw e at then_units) (refl, refl, refl)
        | inr e ↦
            let (r, _, then_r) = >>=-eq-ok (reading cfg.target readings) _ (rw e at then_units) in
            let (passes, _, end) = >>=-eq-ok (holds number cfg.when readings) _ then_r in
            ok-Settles d p _ end (taken-Settles passes cfg d units at r.value d.frozen refl)
      ]

  -- Where a second comes between any two laps, the findings in the rows of a run that raises nothing tell one
  -- story: a finding opens only while none is open, each later row with one shows that one with its peak the same or at
  -- least as great, and it is closed once. What is then still to be shown goes on with it.
  pub drift-Story :
      (cfg : DriftConfig N) (waiting : Bool) (shown : Option (Finding N)) (d : Drift N)
      (inputs : List (Input N)) (p : Drift N × List (Row N))
      → run cfg d inputs ≡ ok p
      → Spaced waiting inputs
      → (waiting ≡ false → d.pending ≡ none)
      → Owes shown d
      → (shown' : Option (Finding N)) × Story number shown (findings_of p.1) shown'
        × Owes shown' p.0
  unfolding run step on_pit
  drift-Story cfg waiting shown d [] p went spaced settled_if owes =
      let e : brief d [] ≡ p = cc went in rw (sym e) (shown, over, owes)
  drift-Story cfg waiting shown d (laps event at uid ∷ inputs) p went spaced settled_if owes =
      let (one, first, rest) = >>=-eq-ok (step cfg d (laps event at uid)) _ went in
      let (q, then_rest, end) = >>=-eq-ok (run cfg one.0 inputs) _ rest in
      let (d', lapped, made) = >>=-eq-ok (on_lap number maths truth cfg d event at uid) _ first in
      let same : brief d' [] ≡ one = cc made in
      let e : brief q.0 (one.1 ++ q.1) ≡ p = cc end in
      let left = on_lap-LeavesOne shown cfg d event at uid (settled_if spaced.0) owes d' lapped in
      rw (sym e) (
        rw (sym same) (
          drift-Story cfg true shown d' inputs q (rw (sym same) at then_rest) spaced.1
            (λ z. absurd (cc z)) left))
  drift-Story cfg waiting shown d (pits ∷ inputs) p went spaced settled_if owes =
      let (q, then_rest, end) = >>=-eq-ok (run cfg (on_pit d) inputs) _ went in
      let e : brief q.0 q.1 ≡ p = cc end in
      rw (sym e)
        (drift-Story cfg waiting shown (on_pit d) inputs q then_rest spaced settled_if owes)
  drift-Story cfg waiting shown d (seconds at readings gate_open ∷ inputs) p went spaced settled_if
        owes =
      let (one, first, rest) = >>=-eq-ok (step cfg d (seconds at readings gate_open)) _ went in
      let (q, then_rest, end) = >>=-eq-ok (run cfg one.0 inputs) _ rest in
      let (out, evaluated, made) =
        >>=-eq-ok (drift_evaluate number maths truth cfg d at readings gate_open) _ first in
      let same : brief out.0 (out.1 ∷ []) ≡ one = cc made in
      let e : brief q.0 (one.1 ++ q.1) ≡ p = cc end in
      let (shows, none_left, kept) =
        drift_evaluate-Settles cfg d at readings gate_open out evaluated in
      let (shown', story, owes') =
        drift-Story cfg false d.finding out.0 inputs q (rw (sym same) at then_rest) spaced
          (λ _. none_left) (rw (none_left, kept) silent) in
      rw (sym e) (rw (sym same) (shown', next (rw shows owes) story, owes'))
