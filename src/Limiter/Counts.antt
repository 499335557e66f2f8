-- ===== src/Limiter/Counts.antt =====
-- Every update is published, or counted as suppressed.
use openlaps.Common.{
  ℕ, zero, suc, ◌+◌, ◌≤◌, ◌≡◌, refl, ap, String, Bool, true, false, Option, none, some, List, [],
  ◌∷◌, length, take, length-append, ◌==◌, string_eq, arith, Bool-cases, inl, inr,
}
use openlaps.Common.Dict.{Dict, lookup}
use openlaps.Common.Number.{Number}
use openlaps.Limiter.{
  LiveUpdate, ConflatingLimiter, ChannelState, Conflated, count, set_elem, conflate_as,
  conflate_one, conflate_all, conflate_candidates,
}
use openlaps.Limiter.Gauge.{
  rank, rank_one, ranked_before, publish_state, refill_aggregate, accept_all, reject_all, epsilon,
}

-- All that the counters of the channels have counted.
abbrev pub total : Dict String ℕ → ℕ
total [] = 0
total ((k, n) ∷ rest) = n + total rest

total-count : (key : String) (d : Dict String ℕ) → total (count key d) ≡ total d + 1
unfolding count
total-count key [] = omega arith
total-count key ((k, n) ∷ rest) = elim (Bool-cases (k == key)) [
  | inl e ↦ rw e (omega arith)
  | inr e ↦ rw e (omega (arith, total-count key rest))
]

module _ {N : Type 0} where
  length-set_elem :
      (i : ℕ) (update : LiveUpdate N) (us : List (LiveUpdate N))
      → length (set_elem i update us) ≡ length us
  unfolding set_elem
  length-set_elem zero update [] = refl
  length-set_elem (suc i) update [] = refl
  length-set_elem zero update (u ∷ us) = refl
  length-set_elem (suc i) update (u ∷ us) = ap suc (length-set_elem i update us)

  abbrev weight : Conflated N → ℕ
  weight c = length c.conflated + total c.suppressed

  weight-conflate_as :
      (c : Conflated N) (update : LiveUpdate N) (limited : Bool) (place : Option ℕ)
      → weight (conflate_as c update limited place) ≡ weight c + 1
  unfolding conflate_as
  weight-conflate_as c update false place = omega (arith, length-append c.conflated (update ∷ []))
  weight-conflate_as c update true none = omega (arith, length-append c.conflated (update ∷ []))
  weight-conflate_as c update true (some i) =
      omega (arith, length-set_elem i update c.conflated, total-count update.channel c.suppressed)

  weight-conflate_one :
      (c : Conflated N) (update : LiveUpdate N) → weight (conflate_one c update) ≡ weight c + 1
  unfolding conflate_one
  weight-conflate_one c update =
      weight-conflate_as c update update.conflate (lookup update.channel c.indexes)

  weight-conflate_all :
      (c : Conflated N) (updates : List (LiveUpdate N))
      → weight (conflate_all c updates) ≡ weight c + length updates
  unfolding conflate_all
  weight-conflate_all c [] = omega arith
  weight-conflate_all c (update ∷ updates) =
      omega
        (arith, weight-conflate_all (conflate_one c update) updates, weight-conflate_one c update)

  -- Of any batch of candidates, the number that is kept and the growth of the channels'
  -- suppression counters add up to the number of candidates.
  pub conflate_candidates-total :
      (l : ConflatingLimiter N) (candidates : List (LiveUpdate N))
      → length (conflate_candidates l candidates).1
          + total (conflate_candidates l candidates).0.suppressed
        ≡ length candidates + total l.suppressed
  unfolding conflate_candidates
  conflate_candidates-total l candidates = omega (
    arith,
    weight-conflate_all (record { conflated = []; indexes = []; suppressed = l.suppressed })
        candidates,
  )

module _ (number : Number) (floor : number.N → ℕ) where
  open number use {N, of_ℕ, add, eq_n}

  length-rank_one :
      (states : Dict String (ChannelState N)) (u : LiveUpdate N) (us : List (LiveUpdate N))
      → length (rank_one number floor states u us) ≡ length us + 1
  length-rank_one states u [] = omega arith
  length-rank_one states u (v ∷ vs) = elim (Bool-cases (ranked_before number floor states u v)) [
    | inl e ↦ rw e (omega (arith, length-rank_one states u vs))
    | inr e ↦ rw e (omega arith)
  ]

  pub length-rank :
      (states : Dict String (ChannelState N)) (us : List (LiveUpdate N))
      → length (rank number floor states us) ≡ length us
  unfolding rank
  length-rank states [] = refl
  length-rank states (u ∷ us) =
      omega (arith, length-rank_one states u (rank number floor states us), length-rank states us)

  -- What publishing and shedding leave of a limiter.
  pub record Counted (l m : ConflatingLimiter N) (accepted rejected : ℕ) : Type 0 where
    pub published : total m.published ≡ total l.published + accepted
    pub suppressed : total m.suppressed ≡ total l.suppressed + rejected
    pub sheds : m.aggregate_sheds ≡ l.aggregate_sheds + rejected

  pub accept_all-Counted :
      (l : ConflatingLimiter N) (us : List (LiveUpdate N)) (now : N)
      → Counted l (accept_all number floor l us now) (length us) 0
  unfolding accept_all
  accept_all-Counted l [] now = record {
    published = omega arith;
    suppressed = omega arith;
    sheds = omega arith;
  }
  accept_all-Counted l (u ∷ us) now =
      let next : ConflatingLimiter N = record l {
        published = count u.channel l.published;
        states = publish_state number floor u.channel now (lookup u.channel l.states) l.states;
      } in
      let rest = accept_all-Counted next us now in
      record {
        published = omega (arith, rest.published, total-count u.channel l.published);
        suppressed = rest.suppressed;
        sheds = rest.sheds;
      }

  pub reject_all-Counted :
      (l : ConflatingLimiter N) (us : List (LiveUpdate N))
      → Counted l (reject_all number floor l us) 0 (length us)
  unfolding reject_all
  reject_all-Counted l [] = record {
    published = omega arith;
    suppressed = omega arith;
    sheds = omega arith;
  }
  reject_all-Counted l (u ∷ us) =
      let next : ConflatingLimiter N = record l {
        aggregate_sheds = l.aggregate_sheds + 1;
        suppressed = count u.channel l.suppressed;
      } in
      let rest = reject_all-Counted next us in
      record {
        published = rest.published;
        suppressed = omega (arith, rest.suppressed, total-count u.channel l.suppressed);
        sheds = omega (arith, rest.sheds);
      }

  -- What `admit` promises of a batch: it accepts the best ranked, within the budget where there is one,
  -- counts them as published, and counts all others as shed and suppressed.
  pub record IsAdmitted (l : ConflatingLimiter N) (candidates : List (LiveUpdate N)) (now : N)
      (r : ConflatingLimiter N × List (LiveUpdate N)) : Type 0 where
    pub best : r.1 ≡ take (length r.1) (rank number floor l.states candidates)
    pub budget :
        eq_n l.config.total_max_hz (of_ℕ 0) ≡ false
        → length r.1
          ≤ floor (
              add
                (refill_aggregate number floor l now l.config.total_max_hz).aggregate_tokens
                (epsilon number floor))
    pub published : total r.0.published ≡ total l.published + length r.1
    pub suppressed : total r.0.suppressed + length r.1 ≡ total l.suppressed + length candidates
    pub sheds : r.0.aggregate_sheds + length r.1 ≡ l.aggregate_sheds + length candidates
