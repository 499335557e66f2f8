-- ===== src/Limiter/Gauge.antt =====
-- The methods that read times and rates: `offer`, `drain` and `admit`.
use openlaps.Common.{
  ℕ, ◌+◌, ◌^◌, String, Bool, true, false, not, ◌&&◌, ◌||◌, Option, none, some, List, [], ◌∷◌, min,
  length, take, drop, if◌then◌else◌, string_eq,
}
use openlaps.Common.Dict.{Dict, lookup, insert}
use openlaps.Common.Number.{Number}
use openlaps.Common.Text.{codes}
use openlaps.Registry.{DecodedSample}
use openlaps.Limiter.{
  LiveConfig, LiveUpdate, ChannelState, ConflatingLimiter, count, text_lt, fresh_state, or_fresh,
  is_pending,
}

module _ (number : Number) (floor : number.N → ℕ) where
  open number use {N, of_ℕ, add, sub, mul, div, lt_n, le_n, eq_n}

  abbrev pub epsilon : N
  epsilon = div (of_ℕ 1) (of_ℕ (10 ^ 9))

  -- `reconfigure`
  unfoldable pub reconfigure : ConflatingLimiter N → LiveConfig N → ConflatingLimiter N
  reconfigure l config = record l {
    config = config;
    states = [];
    aggregate_at = none;
    aggregate_tokens = of_ℕ 0;
  }

  abbrev is_due : N → Option N → Bool
  is_due now none = true
  is_due now (some due) = le_n due (add now epsilon)

  -- The part of `offer` for a channel with a limit.
  unfoldable pub offer_limited :
      ConflatingLimiter N
      → LiveUpdate N
      → ChannelState N
      → N
      → ConflatingLimiter N × List (LiveUpdate N)
  unfolding count insert
  offer_limited l update state now =
      let counted = if is_pending state then count update.channel l.suppressed else l.suppressed in
      if is_due now state.next_due
      then (
        record l {
          suppressed = counted;
          states = insert update.channel (record state { pending = none }) l.states;
        },
        update ∷ [],
      )
      else (
        record l {
          suppressed = counted;
          states = insert update.channel (record state { pending = some update }) l.states;
        },
        [],
      )

  unfoldable pub offer_at :
      ConflatingLimiter N → DecodedSample N → N → N → ConflatingLimiter N × List (LiveUpdate N)
  unfolding offer_limited lookup insert
  offer_at l sample max_hz now =
      let update : LiveUpdate N = record {
        channel = sample.channel.name;
        capture_unix_ms = sample.capture_unix_ms;
        value = sample.value;
        conflate = not (eq_n max_hz (of_ℕ 0));
      } in
      let state = or_fresh (of_ℕ 0) (lookup update.channel l.states) in
      let interval = div (of_ℕ 1) max_hz in
      if eq_n max_hz (of_ℕ 0)
      then (record l { states = insert update.channel state l.states }, update ∷ [])
      else offer_limited l update
          (if eq_n state.interval_s interval then state else fresh_state interval) now

  unfoldable pub offer :
      ConflatingLimiter N → DecodedSample N → N → ConflatingLimiter N × List (LiveUpdate N)
  unfolding offer_at
  offer l sample now = elim (l.config.max_hz_for sample.channel.name) [
    | none ↦ (l, [])
    | some max_hz ↦ offer_at l sample max_hz now
  ]

  -- The loop of `drain`: the pending values that are due, and the states without them.
  abbrev ready_now : N → ChannelState N → Bool
  ready_now now state = elim state.next_due [ none ↦ false | some due ↦ le_n due (add now epsilon) ]

  abbrev pub pick : Bool → Option (LiveUpdate N) → List (LiveUpdate N) → List (LiveUpdate N)
  pick ready none rest = rest
  pick ready (some update) rest = if ready then update ∷ rest else rest

  unfoldable pub take_ready :
      N → Dict String (ChannelState N) → Dict String (ChannelState N) × List (LiveUpdate N)
  take_ready now [] = ([], [])
  take_ready now ((channel, state) ∷ rest) =
      let (states, updates) = take_ready now rest in
      (
        (channel, if ready_now now state then record state { pending = none } else state) ∷ states,
        pick (ready_now now state) state.pending updates,
      )

  -- `-inf` where a channel was never published.
  abbrev before : Option N → Option N → Bool
  before _ none = false
  before none (some b) = true
  before (some a) (some b) = lt_n a b

  abbrev same_time : Option N → Option N → Bool
  same_time none none = true
  same_time (some a) (some b) = eq_n a b
  same_time _ _ = false

  -- Candidates come from `offer` and `drain`, so that their channels have a state; the source raises
  -- where one has none.
  abbrev last_published : Dict String (ChannelState N) → LiveUpdate N → Option N
  last_published states update = elim (lookup update.channel states) [
    | none ↦ none
    | some state ↦ state.last_published
  ]

  abbrev pub ranked_before : Dict String (ChannelState N) → LiveUpdate N → LiveUpdate N → Bool
  ranked_before states u v =
      before (last_published states u) (last_published states v)
      || (same_time (last_published states u) (last_published states v)
          && text_lt (codes u.channel) (codes v.channel))

  -- `sort(reverse=True)`, which keeps the order of equals.
  abbrev pub rank_one :
      Dict String (ChannelState N) → LiveUpdate N → List (LiveUpdate N) → List (LiveUpdate N)
  rank_one states u [] = u ∷ []
  rank_one states u (v ∷ vs) =
      let later = rank_one states u vs in if ranked_before states u v then v ∷ later else u ∷ v ∷ vs

  unfoldable pub rank : Dict String (ChannelState N) → List (LiveUpdate N) → List (LiveUpdate N)
  unfolding lookup
  rank states [] = []
  rank states (u ∷ us) = rank_one states u (rank states us)

  unfoldable pub drain : ConflatingLimiter N → N → ConflatingLimiter N × List (LiveUpdate N)
  unfolding take_ready rank
  drain l now =
      let (states, ready) = take_ready now l.states in
      (record l { states = states }, rank states ready)

  abbrev pub refilled : N → N → Option N → N → N
  refilled now limit none tokens = if lt_n (of_ℕ 1) limit then limit else of_ℕ 1
  refilled now limit (some at) tokens =
      let capacity = if lt_n (of_ℕ 1) limit then limit else of_ℕ 1 in
      let grown = add tokens (mul (sub now at) limit) in
      if lt_n now at then capacity else if lt_n grown capacity then grown else capacity

  unfoldable pub refill_aggregate : ConflatingLimiter N → N → N → ConflatingLimiter N
  refill_aggregate l now limit = if eq_n limit (of_ℕ 0) then l else record l {
    aggregate_tokens = refilled now limit l.aggregate_at l.aggregate_tokens;
    aggregate_at = some now;
  }

  abbrev pub publish_state :
      String
      → N
      → Option (ChannelState N)
      → Dict String (ChannelState N)
      → Dict String (ChannelState N)
  publish_state channel now none states = states
  publish_state channel now (some state) states =
      insert channel
        (record state { last_published = some now; next_due = some (add now state.interval_s) })
        states

  unfoldable pub accept_all : ConflatingLimiter N → List (LiveUpdate N) → N → ConflatingLimiter N
  unfolding count lookup insert
  accept_all l [] now = l
  accept_all l (update ∷ updates) now =
      accept_all
        (record l {
          published = count update.channel l.published;
          states = publish_state update.channel now (lookup update.channel l.states) l.states;
        })
        updates now

  unfoldable pub reject_all : ConflatingLimiter N → List (LiveUpdate N) → ConflatingLimiter N
  unfolding count
  reject_all l [] = l
  reject_all l (update ∷ updates) =
      reject_all
        (record l {
          aggregate_sheds = l.aggregate_sheds + 1;
          suppressed = count update.channel l.suppressed;
        })
        updates

  abbrev pub available : N → N → ℕ → ℕ
  available limit tokens n = if eq_n limit (of_ℕ 0) then n else min n (floor (add tokens epsilon))

  abbrev pub spend : N → ℕ → ConflatingLimiter N → ConflatingLimiter N
  spend limit n l =
      if eq_n limit (of_ℕ 0)
      then l
      else record l { aggregate_tokens = sub l.aggregate_tokens (of_ℕ n) }

  unfoldable pub admit :
      ConflatingLimiter N → List (LiveUpdate N) → N → ConflatingLimiter N × List (LiveUpdate N)
  unfolding rank refill_aggregate accept_all reject_all
  admit l candidates now =
      let ranked = rank l.states candidates in
      let limit = l.config.total_max_hz in
      let filled = refill_aggregate l now limit in
      let n = available limit filled.aggregate_tokens (length ranked) in
      let accepted = take n ranked in
      (
        spend limit (length accepted) (reject_all (accept_all filled accepted now) (drop n ranked)),
        accepted,
      )
