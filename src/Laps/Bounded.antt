-- ===== src/Laps/Bounded.antt =====
-- The buffer of sectors stays bounded, whatever the payloads are.
use openlaps.Common.{
  ℕ, ◌+◌, ◌≤◌, ◌<◌, ◌≡◌, subst, Bool, true, false, ◌||◌, Option, none, some, List, [], ◌∷◌, leb,
  length, ◌==◌, arith, Bool-cases, Option-cases, inl, inr, leb→le,
}
use openlaps.Common.Dict.{Dict, insert, erase, same_refl}
use openlaps.Common.Int.{int_eq, int_lt, ℤ}
use openlaps.Common.Json.{Json, get}
use openlaps.Common.Text.{codes, text_beq}
use openlaps.Laps.{
  Key, key_eq_instance, key_lt, smaller, Conversion, SectorRow, LapMaterialiser, Event,
  max_buffered_sectors, min_key, drop_oldest, without_lap, note_lap,
}
use openlaps.Laps.Observe.{
  parse, full, make_room, store_sector, as_int, buffer_sector, complete_lap, contains, dispatch,
  observe,
}

module _ {N : Type 0} where
  has : Key → Dict Key (SectorRow N) → Bool
  has key [] = false
  has key ((k, row) ∷ rest) = k == key || has key rest

  min_key-has :
      (key : Key) (d : Dict Key (SectorRow N))
      → (key == min_key key d || has (min_key key d) d) ≡ true
  unfolding min_key has
  min_key-has key [] = rw (same_refl key)
  min_key-has key ((k, row) ∷ rest) =
      let m = min_key (smaller key k) rest in
      let ih : (smaller key k == m || has m rest) ≡ true = min_key-has (smaller key k) rest in
      elim (Bool-cases (key_lt k key)) [
        | inl e ↦
            let q : smaller key k ≡ k = rw e in
            later (key == m) (k == m) (has m rest) (subst (λ x. (x == m || has m rest) ≡ true) q ih)
        | inr e ↦
            let q : smaller key k ≡ key = rw e in
            skip (key == m) (k == m) (has m rest) (subst (λ x. (x == m || has m rest) ≡ true) q ih)
      ]
    where
      later : (a b c : Bool) → b || c ≡ true → (a || (b || c)) ≡ true
      later a b c h = ground arith

      skip : (a b c : Bool) → a || c ≡ true → (a || (b || c)) ≡ true
      skip a b c h = ground arith

  length-erase : (key : Key) (d : Dict Key (SectorRow N)) → length (erase key d) ≤ length d
  unfolding erase
  length-erase key [] = omega arith
  length-erase key ((k, row) ∷ rest) = elim (Bool-cases (k == key)) [
    | inl e ↦ rw e (omega (arith, length-erase key rest))
    | inr e ↦ rw e (omega (arith, length-erase key rest))
  ]

  length-erase-has :
      (key : Key) (d : Dict Key (SectorRow N)) → has key d ≡ true → length (erase key d) < length d
  unfolding erase has
  length-erase-has key [] h = cc h
  length-erase-has key ((k, row) ∷ rest) h = elim (Bool-cases (k == key)) [
    | inl e ↦ rw e (omega (arith, length-erase key rest))
    | inr e ↦ rw e (omega (arith, length-erase-has key rest (rw e at h)))
  ]

  length-drop_oldest :
      (d : Dict Key (SectorRow N)) → 0 < length d → length (drop_oldest d) < length d
  unfolding drop_oldest
  length-drop_oldest [] h = absurd (omega arith)
  length-drop_oldest ((k, row) ∷ rest) h =
      length-erase-has (min_key k rest) ((k, row) ∷ rest) (unfold has in min_key-has k rest)

  length-insert :
      (key : Key) (row : SectorRow N) (d : Dict Key (SectorRow N))
      → length (insert key row d) ≤ length d + 1
  unfolding insert
  length-insert key row [] = omega arith
  length-insert key row ((k, r) ∷ rest) = elim (Bool-cases (k == key)) [
    | inl e ↦ rw e (omega arith)
    | inr e ↦ rw e (omega (arith, length-insert key row rest))
  ]

  length-without_lap :
      (lap_number : ℤ) (d : Dict Key (SectorRow N)) → length (without_lap lap_number d) ≤ length d
  unfolding without_lap
  length-without_lap lap_number [] = omega arith
  length-without_lap lap_number (((l, sector), row) ∷ rest) =
      elim (Bool-cases (int_eq l lap_number)) [
        | inl e ↦ rw e (omega (arith, length-without_lap lap_number rest))
        | inr e ↦ rw e (omega (arith, length-without_lap lap_number rest))
      ]

  -- The buffer holds no more sectors than its bound.
  abbrev pub IsBounded : LapMaterialiser N → Type 0
  IsBounded m = length m.sectors ≤ max_buffered_sectors

  note_lap-IsBounded :
      (m : LapMaterialiser N) (lap_number : ℤ) → IsBounded m → IsBounded (note_lap m lap_number)
  unfolding note_lap
  note_lap-IsBounded m lap_number h = elim (Option-cases m.highest_lap_number) [
    | inl e ↦ rw (e, note_lap) h
    | inr (highest, e) ↦ elim (Bool-cases (int_lt lap_number highest)) [
      | inl q ↦ rw (e, q, note_lap) (omega arith)
      | inr q ↦ rw (e, q, note_lap) h
    ]
  ]

module _ {N : Type 0} (conversion : Conversion N) where
  make_room-bound :
      (m : LapMaterialiser N) → IsBounded m → length (make_room conversion m) < max_buffered_sectors
  make_room-bound m h = elim (Bool-cases (full conversion m)) [
    | inl e ↦
        let most : max_buffered_sectors ≤ length m.sectors = leb→le _ _ e in
        rw e (omega (arith, length-drop_oldest m.sectors (omega arith)))
    | inr e ↦ rw e (below (length m.sectors) e)
  ]
    where
      below : (n : ℕ) → leb max_buffered_sectors n ≡ false → n < max_buffered_sectors
      below n e = ground arith

  store_sector-IsBounded :
      (m : LapMaterialiser N) (event : Event N) (sector : ℤ) (split : Option (Option N))
      → IsBounded m
      → IsBounded (store_sector conversion m event sector split).0
  store_sector-IsBounded m event sector none h = omega (arith, make_room-bound m h)
  store_sector-IsBounded m event sector (some split) h =
      let row : SectorRow N = record {
        sector = sector;
        split_time_s = split;
        crossed_at = event.at;
      } in
      omega (
        arith,
        make_room-bound m h,
        length-insert (event.lap_number, sector) row (make_room conversion m),
      )

  buffer_sector-IsBounded :
      (m : LapMaterialiser N) (event : Event N)
      → IsBounded m
      → IsBounded (buffer_sector conversion m event).0
  unfolding buffer_sector
  buffer_sector-IsBounded m event h =
      elim (Option-cases (as_int conversion (get event.decoded "sector"))) [
        | inl e ↦ rw (e, buffer_sector) h
        | inr (none, e) ↦ rw (e, buffer_sector) h
        | inr (some sector, e) ↦ rw (e, buffer_sector) (store_sector-IsBounded m event sector _ h)
      ]

  complete_lap-IsBounded :
      (m : LapMaterialiser N) (event : Event N)
      → IsBounded m
      → IsBounded (complete_lap conversion m event).0
  unfolding complete_lap
  complete_lap-IsBounded m event h = omega (arith, length-without_lap event.lap_number m.sectors)

  dispatch-IsBounded :
      (m : LapMaterialiser N) (event : Event N)
      → IsBounded m
      → IsBounded (dispatch conversion m event).0
  unfolding dispatch
  dispatch-IsBounded m event h =
      elim (Bool-cases (text_beq event.type (codes "sector_completed"))) [
        | inl e ↦ rw e (buffer_sector-IsBounded m event h)
        | inr e ↦ elim (Bool-cases (text_beq event.type (codes "lap_completed"))) [
          | inl e' ↦ rw (e, e') (complete_lap-IsBounded m event h)
          | inr e' ↦
              elim (Bool-cases (
                text_beq event.type (codes "pit_entry")
                || text_beq event.type (codes "pit_exit"))) [
                  | inl q ↦ rw (e, e', q) h
                  | inr q ↦
                      elim (Bool-cases (contains conversion event.type m.unknown_event_types)) [
                        | inl q' ↦ rw (e, e', q, q') h
                        | inr q' ↦ rw (e, e', q, q') h
                      ]
                ]
        ]
      ]

  observe-IsBounded :
      (m : LapMaterialiser N) (payload : Option (Json N))
      → IsBounded m
      → IsBounded (observe conversion m payload).0
  unfolding observe
  observe-IsBounded m payload h = elim (Option-cases (parse conversion payload)) [
    | inl e ↦ rw (e, observe) h
    | inr (event, e) ↦
        rw (e, observe)
          (dispatch-IsBounded (note_lap m event.lap_number) event
            (note_lap-IsBounded m event.lap_number h))
  ]

  -- The materialiser after the payloads, an exception leaving what it had by then.
  unfoldable pub observe_all : LapMaterialiser N → List (Option (Json N)) → LapMaterialiser N
  unfolding observe
  observe_all m [] = m
  observe_all m (payload ∷ payloads) = observe_all (observe conversion m payload).0 payloads

  -- From a buffer within its bound, whatever payloads come, malformed ones and those that raise
  -- included, no more than 64 sectors are ever buffered.
  pub observe_all-IsBounded :
      (m : LapMaterialiser N) (payloads : List (Option (Json N)))
      → IsBounded m
      → IsBounded (observe_all m payloads)
  unfolding observe_all
  observe_all-IsBounded m [] h = h
  observe_all-IsBounded m (payload ∷ payloads) h =
      observe_all-IsBounded (observe conversion m payload).0 payloads
        (observe-IsBounded m payload h)
