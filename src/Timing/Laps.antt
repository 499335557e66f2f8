-- ===== src/Timing/Laps.antt =====
-- The handlers of the engine keep a listener's count in step.
use openlaps.Common.{
  ℕ, ◌+◌, ◌<◌, ◌≡◌, ◌≢◌, inl, inr, refl, sym, true, false, ◌&&◌, ◌||◌, List, eqb, length, arith,
  Bool-cases, eqb_iff,
}
use openlaps.Common.Number.{Number}
use openlaps.Timing.{GpsPoint, TimingLine, TimingEvent, TimingState, Config}
use openlaps.Timing.Geometry.{Hit}
use openlaps.Timing.Order.{%-IsNext, WholeLaps, counted, count_sector, Tracks}
use openlaps.Timing.Process.{
  on_track, start_new_lap, first_crossing, finish_lap, finish_sector, handle_lap_point,
}

module _ (number : Number) (c : Config number.N) where
  open number use {N, of_ℕ, eq_n, lt_n, sub}

  abbrev pub n : ℕ
  n = length c.lap_points

  abbrev pub Tracked : ℕ → TimingState N → Type 0
  Tracked k st = Tracks (λ t. eq_n t (of_ℕ 0)) n k st

  -- The outcome of a handler for a listener whose count was `k`.
  abbrev pub Kept : ℕ → TimingState N × List (TimingEvent N) → Type 0
  Kept k (st, events) = WholeLaps n k events × Tracked (counted k events) st

  start_new_lap-Tracked :
      (k : ℕ) (ctime : N) (st : TimingState N) → 0 < n → Tracked k (start_new_lap number n ctime st)
  unfolding start_new_lap Tracks
  start_new_lap-Tracked k ctime st pos started valid = (%-IsNext n 0 pos, inl refl)

  first_crossing-Tracked :
      (k idx : ℕ) (hit : Hit N) (st : TimingState N)
      → 0 < n
      → Tracked k (first_crossing number n idx hit st)
  unfolding first_crossing start_new_lap Tracks
  first_crossing-Tracked k idx hit st pos = elim (Bool-cases (eqb idx 0)) [
    | inl e ↦ rw (e, (eqb_iff idx 0).0 e) (λ started valid. (%-IsNext n 0 pos, inl refl))
    | inr e ↦ rw e (λ started valid. cc)
  ]

  full_count :
      (k : ℕ) (st : TimingState N)
      → eq_n st.lap_start_time (of_ℕ 0) ≡ false
      → Tracked k st
      → st.sectors_done ≢ 0
      → (st.lap_valid && eqb 0 st.expected_idx && on_track st.pit_status) ≡ true
      → count_sector k n ≡ n
  unfolding Tracks
  full_count k st started tracked done valid =
      let lap_ok : st.lap_valid ≡ true = ground arith in
      let (next, seen) = tracked started lap_ok in ground (arith, next, seen)

  finish_lap-Kept :
      (k : ℕ) (line : TimingLine N) (hit : Hit N) (gps : GpsPoint N) (st : TimingState N)
      → 0 < n
      → eq_n st.lap_start_time (of_ℕ 0) ≡ false
      → Tracked k st
      → Kept k (finish_lap number c line hit gps st)
  unfolding finish_lap start_new_lap Tracks
  finish_lap-Kept k line hit gps st pos started tracked =
      let lap_time = sub hit.ctime st.lap_start_time in
      elim (Bool-cases (eqb st.sectors_done 0 || lt_n lap_time c.min_lap_time_s)) [
        | inl e ↦ rw e (tt, start_new_lap-Tracked k hit.ctime st pos)
        | inr e ↦ rw e (
          (tt, (full_count k st started tracked (λ z. ground (arith, e, z)), tt)),
          λ started' valid. (%-IsNext n 0 pos, inl refl),
        )
      ]

  finish_sector-Kept :
      (k idx : ℕ) (line : TimingLine N) (hit : Hit N) (gps : GpsPoint N) (st : TimingState N)
      → idx < n
      → idx ≢ 0
      → eq_n st.lap_start_time (of_ℕ 0) ≡ false
      → Tracked k st
      → Kept k (finish_sector number c idx line hit gps st)
  unfolding finish_sector Tracks
  finish_sector-Kept k idx line hit gps st lt ne started tracked = (
    (tt, tt),
    λ started' valid.
        let lap_ok : st.lap_valid ≡ true = ground arith in
        let in_order : idx ≡ st.expected_idx = ground arith in
        let (next, seen) = tracked started lap_ok in
        let here : idx ≡ st.sectors_done + 1 = ground (arith, next) in
        (rw (sym here) (%-IsNext n idx lt), inr (ground (arith, seen))),
  )

  pub handle_lap_point-Kept :
      (k idx : ℕ) (line : TimingLine N) (hit : Hit N) (gps : GpsPoint N) (st : TimingState N)
      → idx < n
      → Tracked k st
      → Kept k (handle_lap_point number c idx line hit gps st)
  unfolding handle_lap_point
  handle_lap_point-Kept k idx line hit gps st lt tracked =
      elim (Bool-cases (eq_n st.lap_start_time (of_ℕ 0))) [
        | inl e ↦ rw e (tt, first_crossing-Tracked k idx hit st (omega arith))
        | inr e ↦ elim (Bool-cases (eqb idx 0)) [
          | inl z ↦ rw (e, z) (finish_lap-Kept k line hit gps st (omega arith) e tracked)
          | inr z ↦
              rw (e, z)
                (finish_sector-Kept k idx line hit gps st lt (λ q. ground (arith, z)) e tracked)
        ]
      ]
