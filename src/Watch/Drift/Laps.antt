-- ===== src/Watch/Drift/Laps.antt =====
-- src/pit/watch/monitors.py (Drift.on_lap): the laps that a drift monitor keeps, and its two assertions.
use openlaps.Common.{
  ℕ, ◌-◌, ◌<◌, ◌≤◌, ◌≡◌, refl, String, Bool, true, false, not, ◌&&◌, Option, none, some, List, [],
  ◌∷◌, ◌++◌, leb, length, if◌then◌else◌, length-append, length-drop, arith, Bool-cases, inl, inr,
  leb→le,
}
use openlaps.Common.Json.{Json, Members, get}
use openlaps.Common.Number.{Number}
use openlaps.Common.Result.{Result, ok}
use openlaps.Watch.{Raised, Maths}
use openlaps.Watch.Drift.{
  DriftConfig, Drift, BaselineLap, JudgedLap, is_some, max_lap_series, keep_laps, freeze_laps, bank,
  judge_lap, judge_known, clean_lap, is_lap, on_lap,
}

-- Until the table is frozen there are fewer laps than the baseline wants; then there are as many, with a mean and a
-- scale. No more than `max_lap_series` judged laps are kept.
pub record IsDrift {N : Type 0} (cfg : DriftConfig N) (d : Drift N) : Type 0 where
  pub before :
      d.frozen ≡ false
      → (d.learned ≡ length d.baseline_laps) × (length d.baseline_laps < cfg.baseline_laps)
  pub after :
      d.frozen ≡ true
      → (length d.baseline_laps ≡ cfg.baseline_laps)
        × (is_some d.mean ≡ true)
        × (is_some d.scale ≡ true)
  pub size : length d.laps ≤ max_lap_series

module _ (number : Number) (maths : Maths number.N) (truth : Json number.N → Bool) where
  open number use {N}

  -- The call raises nothing and keeps the invariant.
  abbrev pub Goes : DriftConfig N → Result Raised (Drift N) → Type 0
  Goes cfg r = (d' : Drift N) × (r ≡ ok d') × IsDrift cfg d'

  bank-IsDrift :
      (cfg : DriftConfig N) (d : Drift N) (lap_number : Option (Json N)) (at lap_mean : N) (n : ℕ)
      → d.frozen ≡ false
      → IsDrift cfg d
      → IsDrift cfg (bank number maths truth cfg d lap_number at lap_mean n)
  unfolding bank freeze_laps
  bank-IsDrift cfg d lap_number at lap_mean n young h =
      let lap : BaselineLap N = record {
        lap_number = lap_number;
        at = at;
        mean = lap_mean;
        n = n;
      } in
      let (same, below) = h.before young in
      let longer = length-append d.baseline_laps (lap ∷ []) in
      elim (Bool-cases (leb cfg.baseline_laps (length (d.baseline_laps ++ lap ∷ [])))) [
        | inl e ↦ rw e (record {
          before = λ frozen. absurd (cc frozen);
          after = λ _. (omega (arith, longer, below, leb→le _ _ e), refl, refl);
          size = h.size;
        })
        | inr e ↦ rw e (record {
          before = λ _. (refl, ground (arith, e));
          after = λ frozen. absurd (let q : false ≡ true = rw young at frozen in cc q);
          size = h.size;
        })
      ]

  length-keep_laps : (laps : List (JudgedLap N)) → length (keep_laps laps) ≤ max_lap_series
  unfolding keep_laps
  length-keep_laps laps = omega (arith, length-drop (length laps - max_lap_series) laps)

  judge_lap-IsDrift :
      (cfg : DriftConfig N) (d : Drift N) (lap_number : Option (Json N)) (at lap_mean : N) (n : ℕ)
      (mean scale : N) (uid : String)
      → IsDrift cfg d
      → IsDrift cfg (judge_lap number maths truth cfg d lap_number at lap_mean n mean scale uid)
  unfolding judge_lap
  judge_lap-IsDrift cfg d lap_number at lap_mean n mean scale uid h = record {
    before = h.before;
    after = h.after;
    size = length-keep_laps _;
  }

  judge_known-Goes :
      (cfg : DriftConfig N) (d : Drift N) (lap_number : Option (Json N)) (at lap_mean : N) (n : ℕ)
      (uid : String) (mean scale : Option N)
      → is_some mean ≡ true
      → is_some scale ≡ true
      → IsDrift cfg d
      → Goes cfg (judge_known number maths truth cfg d lap_number at lap_mean n uid mean scale)
  judge_known-Goes cfg d lap_number at lap_mean n uid (some mean) (some scale) a b h = (
    judge_lap number maths truth cfg d lap_number at lap_mean n mean scale uid,
    refl,
    judge_lap-IsDrift cfg d lap_number at lap_mean n mean scale uid h,
  )
  judge_known-Goes cfg d lap_number at lap_mean n uid none scale a b h = absurd (cc a)
  judge_known-Goes cfg d lap_number at lap_mean n uid (some mean) none a b h = absurd (cc b)

  clean_lap-Goes :
      (frozen : Bool) (cfg : DriftConfig N) (d : Drift N) (lap_number : Option (Json N))
      (at lap_mean : N) (n : ℕ) (uid : String)
      → d.frozen ≡ frozen
      → IsDrift cfg d
      → Goes cfg (clean_lap number maths truth frozen cfg d lap_number at lap_mean n uid)
  clean_lap-Goes false cfg d lap_number at lap_mean n uid e h = (
    bank number maths truth cfg d lap_number at lap_mean n,
    refl,
    bank-IsDrift cfg d lap_number at lap_mean n e h,
  )
  clean_lap-Goes true cfg d lap_number at lap_mean n uid e h =
      let (count, mean_known, scale_known) = h.after e in
      judge_known-Goes cfg d lap_number at lap_mean n uid d.mean d.scale mean_known scale_known h

  -- A lap is taken without an exception, so that neither assertion fails, and keeps the invariant: the baseline is
  -- frozen with just the laps it wants, and no more than 200 judged laps are kept.
  pub on_lap-IsDrift :
      (cfg : DriftConfig N) (d : Drift N) (event : Members N) (at : N) (uid : String)
      → IsDrift cfg d
      → (d' : Drift N) × (on_lap number maths truth cfg d event at uid ≡ ok d') × IsDrift cfg d'
  unfolding on_lap
  on_lap-IsDrift cfg d event at uid h =
      let next : Drift N = record d { lap_sum = number.of_ℕ 0; lap_n = 0; lap_dirty = false } in
      let h' : IsDrift cfg next = record { before = h.before; after = h.after; size = h.size } in
      let at_end =
        clean_lap-Goes next.frozen cfg next (get event "lap_number") at
          (number.div d.lap_sum (number.of_ℕ d.lap_n)) d.lap_n uid refl h' in
      go
        (is_lap number maths truth (get event "valid")
          && not d.lap_dirty
          && leb cfg.min_lap_samples d.lap_n)
        next h' _ at_end
    where
      go :
          (b : Bool) (next : Drift N)
          → IsDrift cfg next
          → (judged : Result Raised (Drift N)) → Goes cfg judged
          → Goes cfg (if b then judged else ok next)
      go true next h judged g = g
      go false next h judged g = (next, refl, h)
