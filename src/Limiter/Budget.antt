-- ===== src/Limiter/Budget.antt =====
-- src/pit/live_decoder/limiter.py (ConflatingLimiter.admit): the aggregate budget over many calls, against a bucket of
-- tokens that holds a second's worth of the total rate, one at least.
use openlaps.Common.{
  ℕ, ◌≤◌, ◌≡◌, ◌∙◌, refl, sym, ap, subst, false, Option, none, some, List, [], ◌∷◌, length, take,
  drop, min, if◌then◌else◌,
}
use openlaps.Common.Number.{Number}
use openlaps.Limiter.{LiveUpdate, ConflatingLimiter}
use openlaps.Limiter.Gauge.{
  rank, refilled, refill_aggregate, accept_all, reject_all, admit, epsilon,
}
use openlaps.Limiter.Counts.{IsAdmitted}
use openlaps.Limiter.Admit.{admit-IsAdmitted}

-- The tokens at the time of the last call, if there was one.
pub record Bucket (N : Type 0) : Type 0 where
  pub level : N
  pub at : Option N

-- The candidates and the time of a call.
abbrev pub Call : Type 0 → Type 0
Call N = List (LiveUpdate N) × N

module _ (number : Number) (floor : number.N → ℕ) where
  open number use {N, of_ℕ, add, sub, mul, lt_n, eq_n}

  abbrev pub capacity : N → N
  capacity rate = if lt_n (of_ℕ 1) rate then rate else of_ℕ 1

  -- The tokens at a later time; the bucket is full at first, and after the clock has gone back.
  abbrev pub level_at : N → Bucket N → N → N
  level_at rate b now = elim b.at [
    | none ↦ capacity rate
    | some then_ ↦
        let grown = add b.level (mul (sub now then_) rate) in
        if lt_n now then_
        then capacity rate
        else if lt_n grown (capacity rate)
        then grown
        else capacity rate
  ]

  abbrev pub taken : N → Bucket N → N → ℕ → Bucket N
  taken rate b now n = record { level = sub (level_at rate b now) (of_ℕ n); at = some now }

  -- The limiter after each of the calls, and the bucket that each takes its tokens from.
  pub data Keeps (rate : N) : Bucket N → ConflatingLimiter N → List (Call N) → Type 0 where
    ends : {b : Bucket N} {l : ConflatingLimiter N} → Keeps rate b l []
    admits :
        {b : Bucket N} {l : ConflatingLimiter N} {calls : List (Call N)}
        (candidates : List (LiveUpdate N)) (now : N)
        → IsAdmitted number floor l candidates now (admit number floor l candidates now)
        → length (admit number floor l candidates now).1
          ≤ floor (add (level_at rate b now) (epsilon number floor))
        → Keeps rate
            (taken rate b now (length (admit number floor l candidates now).1))
            (admit number floor l candidates now).0
            calls
        → Keeps rate b l ((candidates, now) ∷ calls)

  accept_all-tokens :
      (updates : List (LiveUpdate N)) (l : ConflatingLimiter N) (now : N)
      → ((accept_all number floor l updates now).aggregate_tokens ≡ l.aggregate_tokens)
        × ((accept_all number floor l updates now).aggregate_at ≡ l.aggregate_at)
        × ((accept_all number floor l updates now).config ≡ l.config)
  unfolding accept_all
  accept_all-tokens [] l now = (refl, refl, refl)
  accept_all-tokens (u ∷ us) l now = accept_all-tokens us _ now

  reject_all-tokens :
      (updates : List (LiveUpdate N)) (l : ConflatingLimiter N)
      → ((reject_all number floor l updates).aggregate_tokens ≡ l.aggregate_tokens)
        × ((reject_all number floor l updates).aggregate_at ≡ l.aggregate_at)
        × ((reject_all number floor l updates).config ≡ l.config)
  unfolding reject_all
  reject_all-tokens [] l = (refl, refl, refl)
  reject_all-tokens (u ∷ us) l = reject_all-tokens us _

  abbrev bucket_of : ConflatingLimiter N → Bucket N
  bucket_of l = record { level = l.aggregate_tokens; at = l.aggregate_at }

  -- A call leaves the bucket that has lost a token for each accepted update.
  record Takes (rate : N) (l : ConflatingLimiter N) (now : N)
      (r : ConflatingLimiter N × List (LiveUpdate N)) : Type 0 where
    tokens : r.0.aggregate_tokens ≡ sub (level_at rate (bucket_of l) now) (of_ℕ (length r.1))
    at : r.0.aggregate_at ≡ some now
    same_rate : r.0.config ≡ l.config

  refilled-level :
      (now rate : N) (o : Option N) (tokens : N)
      → refilled number floor now rate o tokens
        ≡ level_at rate (record { level = tokens; at = o }) now
  refilled-level now rate none tokens = refl
  refilled-level now rate (some then_) tokens = refl

  admit-Takes :
      (l : ConflatingLimiter N) (candidates : List (LiveUpdate N)) (now : N)
      → eq_n l.config.total_max_hz (of_ℕ 0) ≡ false
      → Takes l.config.total_max_hz l now (admit number floor l candidates now)
  unfolding admit refill_aggregate
  admit-Takes l candidates now e =
      let rate = l.config.total_max_hz in
      let ranked = rank number floor l.states candidates in
      let tokens = refilled number floor now rate l.aggregate_at l.aggregate_tokens in
      let filled : ConflatingLimiter N = record l {
        aggregate_tokens = tokens;
        aggregate_at = some now;
      } in
      let n = min (length ranked) (floor (add tokens (epsilon number floor))) in
      let sent = accept_all number floor filled (take n ranked) now in
      let (sent_tokens, sent_at, sent_config) = accept_all-tokens (take n ranked) filled now in
      let (left_tokens, left_at, left_config) = reject_all-tokens (drop n ranked) sent in
      let same = refilled-level now rate l.aggregate_at l.aggregate_tokens in
      rw e (record {
        tokens = ap (λ x. sub x (of_ℕ (length (take n ranked)))) (left_tokens ∙ sent_tokens ∙ same);
        at = left_at ∙ sent_at;
        same_rate = left_config ∙ sent_config;
      })

  budget_at :
      (l : ConflatingLimiter N) (now rate : N) (n : ℕ)
      → eq_n rate (of_ℕ 0) ≡ false
      → n
        ≤ floor
            (add (refill_aggregate number floor l now rate).aggregate_tokens (epsilon number floor))
      → n
        ≤ floor (
            add
              (refilled number floor now rate l.aggregate_at l.aggregate_tokens)
              (epsilon number floor))
  unfolding refill_aggregate
  budget_at l now rate n e h = rw e at h

  bucket_eq : (b c : Bucket N) → b.level ≡ c.level → b.at ≡ c.at → b ≡ c
  bucket_eq b c p q = λ i. record { level = p i; at = q i }

  moved :
      (rate other : N) (b c : Bucket N) (l : ConflatingLimiter N) (calls : List (Call N))
      → other ≡ rate
      → b ≡ c
      → Keeps other b l calls
      → Keeps rate c l calls
  moved rate other b c l calls p q h =
      subst (λ x. Keeps rate x l calls) q (subst (λ x. Keeps x b l calls) p h)

  -- Where there is a total rate: in any series of calls each accepts the first ones of the ranking, no more than the
  -- whole tokens in a bucket that is full at first, holds a second's worth of the rate, one at least, fills at that
  -- rate, and loses a token for each update that was accepted. In total the published counters grow by the number of
  -- accepted ones, the suppression counters and the sheds by the number of the others.
  pub admits-Keeps :
      (l : ConflatingLimiter N) (calls : List (Call N))
      → eq_n l.config.total_max_hz (of_ℕ 0) ≡ false
      → Keeps l.config.total_max_hz
          (record { level = l.aggregate_tokens; at = l.aggregate_at })
          l
          calls
  admits-Keeps l [] e = ends
  admits-Keeps l ((candidates, now) ∷ calls) e =
      let rate = l.config.total_max_hz in
      let r = admit number floor l candidates now in
      let one = admit-IsAdmitted number floor l candidates now in
      let takes = admit-Takes l candidates now e in
      let same = refilled-level now rate l.aggregate_at l.aggregate_tokens in
      let budget = one.budget e in
      let full : length r.1 ≤ floor (add (level_at rate (bucket_of l) now) (epsilon number floor)) =
        rw (sym same) (budget_at l now rate (length r.1) e budget) in
      let rest = admits-Keeps r.0 calls (rw takes.same_rate e) in
      admits candidates now one full (
        moved rate r.0.config.total_max_hz (bucket_of r.0)
          (taken rate (bucket_of l) now (length r.1)) r.0 calls
          (ap (λ c. c.total_max_hz) takes.same_rate) (bucket_eq _ _ takes.tokens takes.at) rest)
