-- ===== src/Strategy/Bracket.antt =====
-- src/pit/strategy/model.py (_fuel_remaining): the fuel lies between its bounds and is never more than was read.
use openlaps.Common.{
  ℕ, ◌≡◌, refl, sym, true, false, Option, none, some, List, [], ◌∷◌, All, if◌then◌else◌, if-both,
  ◌==◌, string_eq, Bool-cases, ◌⊎◌, inl, inr,
}
use openlaps.Common.Number.{Number}
use openlaps.Strategy.{LapFact, StopFact, Arithmetic, or_else, max_n, min_n}
use openlaps.Strategy.Burn.{Burn, lap_window}
use openlaps.Strategy.Fuel.{
  Confidence, key_on, session_start, moving, planned, unknown, Rebase, uncertainty, fraction_of,
  reference_of, driven_seconds, measured, substitute, use_of, used_since, spread_per_lap, Fuel,
  around, burned, is_moving, fuel_remaining,
}

-- What the arithmetic must satisfy of numbers that are not negative.
pub record IsOrdered (number : Number) (arithmetic : Arithmetic number.N) : Type 0 where
  pub sub_le :
      (x s : number.N)
      → number.le_n (number.of_ℕ 0) s ≡ true
      → number.le_n (number.sub x s) x ≡ true
  pub le_add :
      (x s : number.N)
      → number.le_n (number.of_ℕ 0) s ≡ true
      → number.le_n x (number.add x s) ≡ true
  pub add :
      (x y : number.N)
      → number.le_n (number.of_ℕ 0) x ≡ true
      → number.le_n (number.of_ℕ 0) y ≡ true
      → number.le_n (number.of_ℕ 0) (number.add x y) ≡ true
  pub mul :
      (x y : number.N)
      → number.le_n (number.of_ℕ 0) x ≡ true
      → number.le_n (number.of_ℕ 0) y ≡ true
      → number.le_n (number.of_ℕ 0) (number.mul x y) ≡ true
  pub whole : (n : ℕ) → number.le_n (number.of_ℕ 0) (number.of_ℕ n) ≡ true
  pub from_lt :
      (x : number.N) → number.lt_n x (number.of_ℕ 0) ≡ false → number.le_n (number.of_ℕ 0) x ≡ true
  pub tenths : (n : ℕ) → number.le_n (number.of_ℕ 0) (arithmetic.tenths n) ≡ true
  pub quarter : number.le_n (number.of_ℕ 0) arithmetic.quarter ≡ true

module _ (number : Number) (arithmetic : Arithmetic number.N)
    (law : IsOrdered number arithmetic) where
  open number use {N, of_ℕ, add, sub, mul, div, lt_n, le_n}

  abbrev pub NonNegative : N → Type 0
  NonNegative x = le_n (of_ℕ 0) x ≡ true

  abbrev pub Known : Option N → Type 0
  Known o = (x : N) → o ≡ some x → NonNegative x

  pub record IsBracket (level : N) (f : Fuel number arithmetic) : Type 0 where
    pub below : le_n f.lo f.remaining ≡ true
    pub above : le_n f.remaining f.hi ≡ true
    pub read : (f.remaining ≡ level) ⊎ (le_n f.remaining level ≡ true)

  uncertainty-NonNegative : (c : Confidence) → NonNegative (uncertainty number arithmetic c)
  uncertainty-NonNegative key_on = law.tenths 3
  uncertainty-NonNegative session_start = law.tenths 5
  uncertainty-NonNegative moving = law.whole 2
  uncertainty-NonNegative planned = law.whole 3
  uncertainty-NonNegative unknown = law.whole 0

  max_n-NonNegative : (x : N) → NonNegative (max_n number x (of_ℕ 0))
  max_n-NonNegative x = elim (Bool-cases (lt_n x (of_ℕ 0))) [
    | inl e ↦ rw e (law.whole 0)
    | inr e ↦ rw e (law.from_lt x e)
  ]

  fraction_of-NonNegative :
      (burn : Burn N) (at : N) (stops : List (StopFact N)) (o : Option (N × N))
      → NonNegative (fraction_of number arithmetic burn at stops o)
  fraction_of-NonNegative burn at stops none = law.whole 1
  fraction_of-NonNegative burn at stops (some (start, end)) =
      let reference = reference_of number arithmetic burn.lap_time_s (sub end start) in
      let part =
        div (driven_seconds number arithmetic (max_n number start at) end stops) reference in
      let clipped = max_n number part (of_ℕ 0) in
      if-both NonNegative (lt_n (of_ℕ 0) reference) (min_n number clipped (of_ℕ 1)) (of_ℕ 1)
        (if-both NonNegative (lt_n (of_ℕ 1) clipped) (of_ℕ 1) clipped (law.whole 1)
          (max_n-NonNegative part))
        (law.whole 1)

  substitute-NonNegative :
      (o : Option N) (fraction : N) (total : N × ℕ)
      → Known o
      → NonNegative fraction
      → NonNegative total.0
      → NonNegative (substitute number arithmetic o fraction total).0
  substitute-NonNegative none fraction total known f h = h
  substitute-NonNegative (some mean) fraction (used, k) known f h =
      law.add used (mul mean fraction) h (law.mul mean fraction (known mean refl) f)

  use_of-NonNegative :
      (burn : Burn N) (at : N) (stops : List (StopFact N)) (lap : LapFact N) (o : Option N)
      (total : N × ℕ)
      → Known burn.mean
      → Known o
      → NonNegative total.0
      → NonNegative (use_of number arithmetic burn at stops lap o total).0
  use_of-NonNegative burn at stops lap (some litres) (used, k) mean known h =
      law.add used litres h (known litres refl)
  use_of-NonNegative burn at stops lap none total mean known h =
      substitute-NonNegative burn.mean _ total mean
        (fraction_of-NonNegative burn at stops (lap_window number arithmetic lap)) h

  measured-Known :
      (lap : LapFact N) → Known lap.fuel_used_l → Known (measured number arithmetic lap)
  measured-Known lap h x e = elim (Bool-cases (lap.measurement_status == "clean")) [
    | inl q ↦ h x (rw q at e)
    | inr q ↦ absurd (let z : none ≡ some x = rw q at e in cc z)
  ]

  used_since-NonNegative :
      (burn : Burn N) (at : N) (stops : List (StopFact N)) (laps : List (LapFact N)) (total : N × ℕ)
      → Known burn.mean
      → All (λ lap. Known lap.fuel_used_l) laps
      → NonNegative total.0
      → NonNegative (used_since number arithmetic burn at stops laps total).0
  unfolding used_since
  used_since-NonNegative burn at stops [] total mean known h = h
  used_since-NonNegative burn at stops (lap ∷ laps) total mean (k, ks) h =
      used_since-NonNegative burn at stops laps
        (if le_n lap.crossed_at at
          then total
          else use_of number arithmetic burn at stops lap (measured number arithmetic lap) total)
        mean ks
        (if-both (λ (p : N × ℕ). NonNegative p.0) (le_n lap.crossed_at at) total _ h
          (use_of-NonNegative burn at stops lap (measured number arithmetic lap) total mean
            (measured-Known lap k) h))

  or_zero-NonNegative : (o : Option N) → Known o → NonNegative (or_else o (of_ℕ 0))
  or_zero-NonNegative none h = law.whole 0
  or_zero-NonNegative (some x) h = h x refl

  reference_of-NonNegative :
      (o : Option N) (d : N)
      → Known o
      → NonNegative d
      → NonNegative (reference_of number arithmetic o d)
  reference_of-NonNegative none d h k = k
  reference_of-NonNegative (some t) d h k = if-both NonNegative _ _ _ k (h t refl)

  spread-NonNegative :
      (burn : Burn N)
      → Known burn.mean
      → Known burn.sd
      → NonNegative (spread_per_lap number arithmetic burn)
  spread-NonNegative burn mean sd =
      reference_of-NonNegative burn.sd _ sd
        (law.mul _ _ (or_zero-NonNegative burn.mean mean) law.quarter)

  around-IsBracket :
      (level remaining spread : N)
      → NonNegative spread
      → (remaining ≡ level) ⊎ (le_n remaining level ≡ true)
      → IsBracket level (around number arithmetic remaining spread)
  around-IsBracket level remaining spread h read = record {
    below = law.sub_le remaining spread h;
    above = law.le_add remaining spread h;
    read = read;
  }

  -- Where the mean burn, its deviation and what the laps used are not negative, and the arithmetic is that of such
  -- numbers, the fuel that remains lies between its two bounds and is no more than the level of the re-base.
  pub fuel_remaining-IsBracket :
      (r : Rebase N) (laps : List (LapFact N)) (stops : List (StopFact N)) (burn : Burn N)
      (level : N) (f : Fuel number arithmetic)
      → Known burn.mean
      → Known burn.sd
      → All (λ lap. Known lap.fuel_used_l) laps
      → r.level_l ≡ some level
      → fuel_remaining number arithmetic r laps stops burn ≡ some f
      → IsBracket level f
  unfolding fuel_remaining
  fuel_remaining-IsBracket r laps stops burn level f mean sd known at_level went =
      from_at r.at (rw (at_level, fuel_remaining) at went)
    where
      found : (g : Fuel number arithmetic) → some g ≡ some f → IsBracket level g → IsBracket level f
      found g e h = let same : g ≡ f = cc e in rw (sym same) h

      from_at :
          (o : Option N)
          → (elim o as (λ (x : Option N). Option (Fuel number arithmetic)) [
            | none ↦ none
            | some at ↦
                if is_moving number arithmetic r.confidence
                then some
                    (around number arithmetic level (uncertainty number arithmetic r.confidence))
                else some (
                    burned number arithmetic r burn level
                      (used_since number arithmetic burn at stops laps (of_ℕ 0, 0)))
          ])
            ≡ some f
          → IsBracket level f
      from_at none e = absurd (cc e)
      from_at (some at) e = elim (Bool-cases (is_moving number arithmetic r.confidence)) [
        | inl q ↦
            found _ (rw q at e)
              (around-IsBracket level level _ (uncertainty-NonNegative r.confidence) (inl refl))
        | inr q ↦
            let used = used_since number arithmetic burn at stops laps (of_ℕ 0, 0) in
            found _ (rw q at e) (
              around-IsBracket level (sub level used.0) _
                (law.add _ _ (uncertainty-NonNegative r.confidence)
                  (law.mul _ _ (law.whole used.1) (spread-NonNegative burn mean sd)))
                (inr (
                  law.sub_le level used.0 (
                    used_since-NonNegative burn at stops laps (of_ℕ 0, 0) mean known
                      (law.whole 0)))))
      ]
