-- ===== src/Timing/Run.antt =====
-- A whole drive: the points of a session, one after the other, and the events they give.
use openlaps.Common.{
  ℕ, ◌+◌, ◌≡◌, inl, inr, true, Option, none, some, List, [], ◌∷◌, ◌++◌, length, arith, Bool-cases,
  Option-cases,
}
use openlaps.Common.Dict.{lookup}
use openlaps.Common.Number.{Number}
use openlaps.Common.Text.{text_eq}
use openlaps.Timing.{GpsPoint, TimingLine, TimingEvent, TimingState, Config, Engine, initial_state}
use openlaps.Timing.Geometry.{Hit}
use openlaps.Timing.Order.{WholeLaps, WholeLaps-append, counted, counted-append, Tracks}
use openlaps.Timing.Laps.{n, Tracked, Kept, handle_lap_point-Kept}
use openlaps.Timing.Process.{
  handle_lap_point, handle_pit, accept, is_pit_entry, debounced, wrong_way, learn, if_accepted,
  on_state, pit_pass, lap_pass, process_point,
}

module _ (number : Number) (c : Config number.N) where
  open number use {N}

  -- What a pass over the lines leaves for a listener whose count was `k`.
  abbrev KeptBy : ℕ → Engine N × List (TimingEvent N) → Type 0
  KeptBy k (e, events) = Kept number c k (e.state, events)

  learn-Tracked :
      (k : ℕ) (line : TimingLine N) (hit : Hit N) (st : TimingState N)
      → Tracked number c k st
      → Tracked number c k (learn number c line.name hit.sign st)
  unfolding Tracks
  learn-Tracked k line hit st t = elim (Bool-cases c.gate_direction) [
    | inl e ↦ elim (Option-cases (lookup line.name st.line_direction)) [
      | inl e' ↦ rw (e, e') t
      | inr (_, e') ↦ rw (e, e') t
    ]
    | inr e ↦ rw e t
  ]

  accept-Tracked :
      (k : ℕ) (line : TimingLine N) (hit : Hit N) (e : Engine N)
      → Tracked number c k e.state
      → Tracked number c k (accept number c line hit e).0.state
  unfolding accept Tracks
  accept-Tracked k line hit e t =
      elim (Bool-cases (debounced number c (lookup line.name e.state.last_cross_time) hit.ctime)) [
        | inl h ↦ rw h t
        | inr h ↦
            elim (Bool-cases
              (wrong_way number c (lookup line.name e.state.line_direction) hit.sign)) [
                | inl h' ↦ rw (h, h') t
                | inr h' ↦ rw (h, h') (learn-Tracked k line hit e.state t)
              ]
      ]

  handle_pit-Kept :
      (k : ℕ) (line : TimingLine N) (hit : Hit N) (gps : GpsPoint N) (st : TimingState N)
      → Tracked number c k st
      → Kept number c k (handle_pit number line hit gps st)
  unfolding handle_pit Tracks
  handle_pit-Kept k line hit gps st t = elim (Bool-cases (is_pit_entry line.line_type)) [
    | inl e ↦ rw e ((tt, tt), λ started valid. cc)
    | inr e ↦ rw e ((tt, tt), t)
  ]

  -- What holds where the crossing is missed and where it is taken holds after the test.
  if_accepted-cases :
      {A : Type 0} (P : A → Type 0) (k : ℕ) (line : TimingLine N) (found : Option (Hit N))
      (e : Engine N) (missed : Engine N → A) (took : Hit N → Engine N → A)
      → Tracked number c k e.state
      → ((e' : Engine N) → Tracked number c k e'.state → P (missed e'))
      → ((hit : Hit N) (e' : Engine N) → Tracked number c k e'.state → P (took hit e'))
      → P (if_accepted number c line found e missed took)
  if_accepted-cases P k line none e missed took t m h = m e t
  if_accepted-cases P k line (some hit) e missed took t m h =
      let t' = accept-Tracked k line hit e t in
      elim (Bool-cases (accept number c line hit e).1) [
        | inl q ↦ rw q (h hit _ t')
        | inr q ↦ rw q (m _ t')
      ]

  KeptBy-append :
      (k : ℕ) (r : Engine N × List (TimingEvent N)) (then_ : Engine N × List (TimingEvent N))
      → KeptBy k r
      → KeptBy (counted k r.1) then_
      → KeptBy k (then_.0, r.1 ++ then_.1)
  KeptBy-append k (e, vs) (e', ws) (w, t) (w', t') =
      (WholeLaps-append (n number c) k vs ws w w', rw (counted-append k vs ws) t')

  module _ (cross : GpsPoint N → GpsPoint N → TimingLine N → Option (Hit N)) where
    pit_pass-Kept :
        (k : ℕ) (prev gps : GpsPoint N) (lines : List (TimingLine N)) (e : Engine N)
        → Tracked number c k e.state
        → KeptBy k (pit_pass number cross c prev gps lines e)
    unfolding pit_pass
    pit_pass-Kept k prev gps [] e t = (tt, t)
    pit_pass-Kept k prev gps (line ∷ lines) e t =
        let found = cross prev gps line in
        let one : Engine N × List (TimingEvent N) =
          if_accepted number c line found e (λ e'. (e', []))
            (λ hit e'. on_state number e' (handle_pit number line hit gps e'.state)) in
        let first : KeptBy k one =
          if_accepted-cases (KeptBy k) k line found e (λ e'. (e', []))
            (λ hit e'. on_state number e' (handle_pit number line hit gps e'.state)) t
            (λ e' t'. (tt, t')) (λ hit e' t'. handle_pit-Kept k line hit gps e'.state t') in
        KeptBy-append k one (pit_pass number cross c prev gps lines one.0) first
          (pit_pass-Kept (counted k one.1) prev gps lines one.0 first.1)

    lap_pass-Kept :
        (k : ℕ) (prev gps : GpsPoint N) (idx : ℕ) (lines : List (TimingLine N)) (e : Engine N)
        → idx + length lines ≡ n number c
        → Tracked number c k e.state
        → KeptBy k (lap_pass number cross c prev gps idx lines e)
    unfolding lap_pass
    lap_pass-Kept k prev gps idx [] e q t = (tt, t)
    lap_pass-Kept k prev gps idx (line ∷ lines) e q t =
        if_accepted-cases (KeptBy k) k line (cross prev gps line) e
          (lap_pass number cross c prev gps (idx + 1) lines)
          (λ hit e'. on_state number e' (handle_lap_point number c idx line hit gps e'.state)) t
          (λ e' t'. lap_pass-Kept k prev gps (idx + 1) lines e' (omega arith) t')
          (λ hit e' t'. handle_lap_point-Kept number c k idx line hit gps e'.state (omega arith) t')

    process_point-Kept :
        (k : ℕ) (prev : Option (GpsPoint N)) (gps : GpsPoint N) (e : Engine N)
        → Tracked number c k e.state
        → KeptBy k (process_point number cross c prev gps e)
    unfolding process_point
    process_point-Kept k none gps e t = (tt, t)
    process_point-Kept k (some prev) gps e t =
        let pits = pit_pass number cross c prev gps c.pit_lines e in
        let kept : KeptBy k pits = pit_pass-Kept k prev gps c.pit_lines e t in
        KeptBy-append k pits (lap_pass number cross c prev gps 0 c.lap_points pits.0) kept
          (lap_pass-Kept (counted k pits.1) prev gps 0 c.lap_points pits.0 (omega arith) kept.1)

    -- The events of a drive from the point `prev`.
    unfoldable pub drive :
        Option (GpsPoint N) → List (GpsPoint N) → Engine N → Engine N × List (TimingEvent N)
    drive prev [] e = (e, [])
    drive prev (gps ∷ points) e =
        let (e', events) = process_point number cross c prev gps e in
        let (e'', more) = drive (some gps) points e' in (e'', events ++ more)

    drive-Kept :
        (k : ℕ) (prev : Option (GpsPoint N)) (points : List (GpsPoint N)) (e : Engine N)
        → Tracked number c k e.state
        → KeptBy k (drive prev points e)
    unfolding drive
    drive-Kept k prev [] e t = (tt, t)
    drive-Kept k prev (gps ∷ points) e t =
        let first = process_point number cross c prev gps e in
        let kept : KeptBy k first = process_point-Kept k prev gps e t in
        KeptBy-append k first (drive (some gps) points first.0) kept
          (drive-Kept (counted k first.1) (some gps) points first.0 kept.1)

    abbrev pub start : Engine N
    start = record { state = initial_state number; revision = 0 }

    -- If the float 0 equals itself: in the events of any drive from a fresh engine, whatever lines
    -- are crossed in whatever order, a lap event that is marked valid comes directly after the
    -- sector events 1, 2, ..., n in this order, pit events apart, where n is the number of lap
    -- points.
    pub drive-WholeLaps :
        number.eq_n (number.of_ℕ 0) (number.of_ℕ 0) ≡ true
        → (points : List (GpsPoint N))
        → WholeLaps (length c.lap_points) 0 (drive none points start).1
    unfolding Tracks
    drive-WholeLaps zero_eq points = (drive-Kept 0 none points start (λ started valid. cc)).0
