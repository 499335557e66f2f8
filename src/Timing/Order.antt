-- ===== src/Timing/Order.antt =====
-- The order of the events that the engine emits: what a listener that counts sectors knows.
use openlaps.Common.{
  ℕ, ◌+◌, ◌%◌, ◌<◌, ◌≡◌, ◌⊎◌, inl, inr, refl, Bool, true, false, List, [], ◌∷◌, ◌++◌, eqb,
  if◌then◌else◌, arith, Bool-cases, eqb_iff,
}
use openlaps.Common.Text.{text_eq}
use openlaps.Timing.{
  sector_completed, lap_completed, entered_pit, left_pit, EventType, TimingEvent, TimingState,
}
use native.Mathlib.Nat.{mod-eq_of_lt, mod_self}

-- How many sectors in order from the first the listener has seen, after one more sector.
abbrev pub count_sector : ℕ → ℕ → ℕ
count_sector k sector = if eqb sector 1 then 1 else if eqb sector (k + 1) then k + 1 else 0

-- After one more event; pit events do not count, and a lap starts the count afresh.
abbrev pub count_kind : EventType → ℕ → ℕ → ℕ
count_kind sector_completed k sector = count_sector k sector
count_kind lap_completed k sector = 0
count_kind entered_pit k sector = k
count_kind left_pit k sector = k

abbrev pub counted : {N : Type 0} → ℕ → List (TimingEvent N) → ℕ
counted k [] = k
counted k (v ∷ vs) = counted (count_kind v.type k v.sector) vs

-- What an event promises to a listener whose count is `k`: a valid lap comes when the count is full.
abbrev pub Promise : ℕ → ℕ → EventType → Bool → Type 0
Promise n k lap_completed valid = valid ≡ true → k ≡ n
Promise n k _ valid = Unit

-- Every valid lap among the events comes directly after the sectors 1, 2, ..., n in this order.
abbrev pub WholeLaps : {N : Type 0} → ℕ → ℕ → List (TimingEvent N) → Type 0
WholeLaps n k [] = Unit
WholeLaps n k (v ∷ vs) = Promise n k v.type v.valid × WholeLaps n (count_kind v.type k v.sector) vs

pub WholeLaps-append :
    {N : Type 0} (n k : ℕ) (vs ws : List (TimingEvent N))
    → WholeLaps n k vs
    → WholeLaps n (counted k vs) ws
    → WholeLaps n k (vs ++ ws)
WholeLaps-append n k [] ws h h' = h'
WholeLaps-append n k (v ∷ vs) ws (p, h) h' =
    (p, WholeLaps-append n (count_kind v.type k v.sector) vs ws h h')

pub counted-append :
    {N : Type 0} (k : ℕ) (vs ws : List (TimingEvent N))
    → counted k (vs ++ ws) ≡ counted (counted k vs) ws
counted-append k [] ws = refl
counted-append k (v ∷ vs) ws = counted-append (count_kind v.type k v.sector) vs ws

-- The next point after `i` sectors, the start/finish line after the last.
abbrev pub IsNext : ℕ → ℕ → ℕ → Type 0
IsNext n i e = ((i + 1 < n) × (e ≡ i + 1)) ⊎ ((i + 1 ≡ n) × (e ≡ 0))

pub %-IsNext : (n i : ℕ) → i < n → IsNext n i ((i + 1) % n)
%-IsNext n i h = elim (Bool-cases (eqb (i + 1) n)) [
  | inl e ↦ let q : i + 1 ≡ n = (eqb_iff (i + 1) n).0 e in inr (q, rw q (mod_self n))
  | inr e ↦ let l : i + 1 < n = ground arith in inl (l, mod-eq_of_lt l)
]

module _ {N : Type 0} where
  -- With the clocks running and the lap valid, the point that the engine expects is the one after the
  -- sectors done, and a listener has counted them.
  unfoldable pub Tracks : (N → Bool) → ℕ → ℕ → TimingState N → Type 0
  Tracks is_zero n k st =
      is_zero st.lap_start_time ≡ false
      → st.lap_valid ≡ true
      → IsNext n st.sectors_done st.expected_idx × ((st.sectors_done ≡ 0) ⊎ (st.sectors_done ≡ k))
