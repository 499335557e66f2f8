-- ===== src/Limiter/Admit.antt =====
-- The aggregate budget.
use openlaps.Common.{
  ℕ, ◌+◌, ◌≤◌, ◌≡◌, sym, ap, false, List, length, take, drop, length-take, length-drop, arith,
  Bool-cases, inl, inr,
}
use openlaps.Common.Number.{Number}
use openlaps.Limiter.{LiveUpdate, ConflatingLimiter}
use openlaps.Limiter.Gauge.{
  rank, refill_aggregate, accept_all, reject_all, available, spend, admit, epsilon,
}
use openlaps.Limiter.Counts.{
  Counted, accept_all-Counted, reject_all-Counted, length-rank, IsAdmitted,
}

module _ (number : Number) (floor : number.N → ℕ) where
  open number use {N, of_ℕ, add, eq_n}

  spend-Counted :
      (limit : N) (n : ℕ) (l m : ConflatingLimiter N) (a r : ℕ)
      → Counted number floor l m a r
      → Counted number floor l (spend number floor limit n m) a r
  spend-Counted limit n l m a r h = elim (Bool-cases (eq_n limit (of_ℕ 0))) [
    | inl e ↦ rw e h
    | inr e ↦ rw e (record { published = h.published; suppressed = h.suppressed; sheds = h.sheds })
  ]

  refill-Counted :
      (l : ConflatingLimiter N) (now limit : N)
      → Counted number floor l (refill_aggregate number floor l now limit) 0 0
  unfolding refill_aggregate
  refill-Counted l now limit = elim (Bool-cases (eq_n limit (of_ℕ 0))) [
    | inl e ↦
        rw e (record { published = omega arith; suppressed = omega arith; sheds = omega arith })
    | inr e ↦
        rw e (record { published = omega arith; suppressed = omega arith; sheds = omega arith })
  ]

  available-bound : (limit tokens : N) (n : ℕ) → available number floor limit tokens n ≤ n
  available-bound limit tokens n = elim (Bool-cases (eq_n limit (of_ℕ 0))) [
    | inl e ↦ rw e (omega arith)
    | inr e ↦ rw e (omega arith)
  ]

  available-budget :
      (limit tokens : N) (n : ℕ)
      → eq_n limit (of_ℕ 0) ≡ false
      → available number floor limit tokens n ≤ floor (add tokens (epsilon number floor))
  available-budget limit tokens n e = rw e (omega arith)

  -- One call of `admit`: it accepts the first ones of the ranking, where there is a total rate
  -- no more than the tokens allow. In total the published counters grow by the number of accepted
  -- ones, the suppression counters and the sheds by the number of the others.
  pub admit-IsAdmitted :
      (l : ConflatingLimiter N) (candidates : List (LiveUpdate N)) (now : N)
      → IsAdmitted number floor l candidates now (admit number floor l candidates now)
  unfolding admit
  admit-IsAdmitted l candidates now =
      let ranked = rank number floor l.states candidates in
      let limit = l.config.total_max_hz in
      let filled = refill_aggregate number floor l now limit in
      let n = available number floor limit filled.aggregate_tokens (length ranked) in
      let few : n ≤ length ranked = available-bound limit filled.aggregate_tokens (length ranked) in
      let taken : length (take n ranked) ≡ n = omega (arith, length-take n ranked) in
      let left : length (drop n ranked) + n ≡ length candidates =
        omega (arith, length-drop n ranked, length-rank number floor l.states candidates) in
      let start = refill-Counted l now limit in
      let sent = accept_all number floor filled (take n ranked) now in
      let one = accept_all-Counted number floor filled (take n ranked) now in
      let two = reject_all-Counted number floor sent (drop n ranked) in
      let all =
        spend-Counted limit (length (take n ranked)) sent
          (reject_all number floor sent (drop n ranked)) 0 (length (drop n ranked)) two in
      record {
        best = ap (λ k. take k ranked) (sym taken);
        budget = λ e.
            let most = available-budget limit filled.aggregate_tokens (length ranked) e in
            omega (arith, most, taken);
        published = omega (arith, start.published, one.published, all.published);
        suppressed = omega (arith, start.suppressed, one.suppressed, all.suppressed, left, taken);
        sheds = omega (arith, start.sheds, one.sheds, all.sheds, left, taken);
      }
