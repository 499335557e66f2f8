-- ===== src/Pipeline/Flush.antt =====
-- `flush` loses nothing that can be encoded.
use mathlib.Core.List.{append_assoc, append-nil}
use openlaps.Common.{
  ℕ, zero, suc, ◌+◌, ◌≤◌, ◌<◌, ◌≡◌, ◌∙◌, refl, sym, subst, ap, ap₂, String, some, List, [], ◌∷◌,
  ◌++◌, All, All-split, length, length-append, lt→ltb, ◌==◌, string_eq, nat_eq, arith, Bool-cases,
  inl, inr,
}
use openlaps.Common.Dict.{Dict, lookup}
use openlaps.Common.Number.{Number}
use openlaps.Common.Result.{Result, ok}
use openlaps.Samples.{Sample}
use openlaps.Batcher.{Batcher, Error, Conversion, ChannelPolicy, push, add, tick}
use openlaps.Pipeline.{
  Pipeline, Staged, TickBatch, time, sort_staged, take_window, add_all, batches_of, flush_window,
  flush_windows, flush,
}
use openlaps.Pipeline.Sort.{
  SortedFrom, sort_staged-SortedFrom, sort_staged-All, length-sort_staged, IsCut, take_window-IsCut,
}
use openlaps.Pipeline.Classes.{
  under, IsDistinct, push-IsDistinct, under-push, AllUnder, push-AllUnder,
}
use openlaps.Pipeline.Encode.{
  Match, none, Match-append, staged_in, sent_in, staged_in-append, sent_in-append, Carries,
  IsEncodable, Fits, item-Fits, encode_classes-Match,
}

module _ (number : Number) (conversion : Conversion number.N) where
  open number use {N}

  add_all-cons :
      (batcher : Batcher N) (item : Staged N) (items : List (Staged N)) (policy : ChannelPolicy N)
      → lookup item.channel_id batcher.policies_by_id ≡ some policy
      → add_all batcher (item ∷ items)
        ≡ add_all
            (record batcher {
              pending = push item.source_class (item.channel_id, item.sample) batcher.pending;
            })
            items
  unfolding add_all
  add_all-cons batcher item items policy known = rw (known, add)

  -- The batcher after it took the items, whose pending samples were `d`.
  abbrev Taken : Batcher N → ℕ → Dict String (List (ℕ × Sample N)) → List (Staged N) → Type 0
  Taken batcher epoch d items =
      (d' : Dict String (List (ℕ × Sample N))) × (add_all (record batcher { pending = d }) items
        ≡ ok (record batcher { pending = d' }))
      × IsDistinct d'
      × AllUnder (Fits number conversion batcher epoch) d'
      × ((c : String) → under c d' ≡ under c d ++ staged_in c items)

  batcher-Taken :
      (batcher : Batcher N) (epoch : ℕ) (d : Dict String (List (ℕ × Sample N)))
      (items : List (Staged N))
      → IsDistinct d
      → AllUnder (Fits number conversion batcher epoch) d
      → All (IsEncodable number conversion batcher.policies_by_id) items
      → All (λ item. (epoch ≤ time item) × (time item < epoch + batcher.tick_ns)) items
      → Taken batcher epoch d items
  unfolding add_all
  batcher-Taken batcher epoch d [] distinct fits encodable inside =
      (d, refl, distinct, fits, λ c. sym (append-nil (under c d)))
  batcher-Taken batcher epoch d (item ∷ items) distinct fits (e, encodable)
        ((from, before), inside) =
      let x : ℕ × Sample N = (item.channel_id, item.sample) in
      let d' = push item.source_class x d in
      let rest =
        batcher-Taken batcher epoch d' items (push-IsDistinct item.source_class x d distinct)
          (push-AllUnder (Fits number conversion batcher epoch) item.source_class x d
            (item-Fits number conversion batcher epoch item e from before) fits)
          encodable inside in
      (
        rest.0,
        add_all-cons (record batcher { pending = d }) item items e.policy e.known ∙ rest.1,
        rest.2,
        rest.3,
        λ c. rest.4 c ∙ channels c,
      )
    where
      channels :
          (c : String)
          → under c (push item.source_class (item.channel_id, item.sample) d) ++ staged_in c items
            ≡ under c d ++ staged_in c (item ∷ items)
      channels c = elim (Bool-cases (item.source_class == c)) [
        | inl q ↦ rw (
          under-push c item.source_class (item.channel_id, item.sample) d distinct,
          q,
          append_assoc (under c d),
        )
        | inr q ↦ rw (
          under-push c item.source_class (item.channel_id, item.sample) d distinct,
          q,
          append-nil (under c d),
        )
      ]

  abbrev Idle : Batcher N → Batcher N
  Idle batcher = record batcher { pending = [] }

  module _ (wall_clock : ℕ → ℕ) where
    -- A run of windows left nothing pending, counted no failure and sent its items.
    abbrev Sent :
        Batcher N → List (Staged N) → Result Error (Batcher N × List (TickBatch N) × ℕ) → Type 0
    Sent batcher items r =
        (batches : List (TickBatch N)) × (r ≡ ok (Idle batcher, batches, 0))
        × ((c : String)
            → Match (Carries number conversion batcher.policies_by_id) (sent_in c batches)
                (staged_in c items))

    flush_window-Sent :
        (batcher : Batcher N) (epoch : ℕ) (window : List (Staged N))
        → All (IsEncodable number conversion batcher.policies_by_id) window
        → All (λ item. (epoch ≤ time item) × (time item < epoch + batcher.tick_ns)) window
        → Sent batcher window
            (flush_window number conversion wall_clock (Idle batcher) epoch window)
    unfolding flush_window tick
    flush_window-Sent batcher epoch window encodable inside =
        let taken = batcher-Taken batcher epoch [] window tt tt encodable inside in
        let coded =
          encode_classes-Match number conversion (record batcher { pending = taken.0 })
            (wall_clock epoch) epoch taken.0 taken.3 in
        (
          batches_of (wall_clock epoch) epoch coded.0,
          rw taken.1 (rw coded.1),
          λ c.
              subst
                (Match (Carries number conversion batcher.policies_by_id)
                  (sent_in c (batches_of (wall_clock epoch) epoch coded.0)))
                (taken.4 c) (coded.2 c),
        )

    window-nonempty :
        (tick_ns : ℕ) (first : Staged N) (items : List (Staged N))
        → 0 < tick_ns
        → 0 < length (take_window (time first) tick_ns (first ∷ items)).0
    unfolding take_window
    window-nonempty tick_ns first items pos =
        rw (lt→ltb (time first) (time first + tick_ns) (omega arith)) (omega arith)

    flush_windows-Sent :
        (fuel since : ℕ) (batcher : Batcher N) (items : List (Staged N))
        → 0 < batcher.tick_ns
        → length items ≤ fuel
        → SortedFrom since items
        → All (IsEncodable number conversion batcher.policies_by_id) items
        → Sent batcher items
            (flush_windows number conversion wall_clock fuel (Idle batcher) batcher.tick_ns items)
    unfolding flush_windows
    flush_windows-Sent zero since batcher [] pos enough sorted encodable = ([], refl, λ c. none)
    flush_windows-Sent zero since batcher (x ∷ items) pos enough sorted encodable =
        absurd (omega arith)
    flush_windows-Sent (suc fuel) since batcher [] pos enough sorted encodable =
        ([], refl, λ c. none)
    flush_windows-Sent (suc fuel) since batcher (first ∷ items) pos enough sorted encodable =
        let cut = take_window (time first) batcher.tick_ns (first ∷ items) in
        let good : IsCut (time first) batcher.tick_ns (first ∷ items) cut =
          take_window-IsCut (time first) batcher.tick_ns (time first) (first ∷ items) (omega arith)
            (omega arith, sorted.1) in
        let both = All-split (IsEncodable number conversion batcher.policies_by_id) cut.0 cut.1 (
          subst (All (IsEncodable number conversion batcher.policies_by_id)) (sym good.whole)
            encodable) in
        let some_taken : 0 < length cut.0 = window-nonempty batcher.tick_ns first items pos in
        let total : length cut.0 + length cut.1 ≡ length (first ∷ items) =
          sym (length-append cut.0 cut.1) ∙ ap length good.whole in
        let one = flush_window-Sent batcher (time first) cut.0 both.0 good.fits in
        let more =
          flush_windows-Sent fuel (time first) batcher cut.1 pos (omega arith) good.sorted both.1 in
        (
          one.0 ++ more.0,
          rw one.1 (rw more.1),
          λ c. rw (sent_in-append c one.0 more.0) (
              subst
                (Match (Carries number conversion batcher.policies_by_id)
                  (sent_in c one.0 ++ sent_in c more.0))
                (sym (staged_in-append c cut.0 cut.1) ∙ ap (staged_in c) good.whole)
                (Match-append (one.2 c) (more.2 c))),
        )

    -- A pipeline whose tick is the batcher's and not zero, and whose batcher has nothing pending, flushes staged samples
    -- that all have a policy by which they can be encoded: it raises nothing and counts no failure, nothing is staged or
    -- pending afterwards, and for each source class the batches carry its samples, all of them, in the order of capture:
    -- each with its channel, its value as the channel's policy encodes it, and its time, to a microsecond, as an offset
    -- from the epoch of its batch.
    pub flush_complete :
        (p : Pipeline N)
        → p.batcher.pending ≡ []
        → p.tick_ns ≡ p.batcher.tick_ns
        → 0 < p.tick_ns
        → All (IsEncodable number conversion p.batcher.policies_by_id) p.staged
        → (batches : List (TickBatch N)) × (flush number conversion wall_clock p
            ≡ ok (record p { staged = [] }, batches))
          × ((c : String)
              → Match
                  (Carries number conversion p.batcher.policies_by_id)
                  (sent_in c batches)
                  (staged_in c (sort_staged p.staged)))
    unfolding flush
    flush_complete p idle same pos encodable =
        let sent =
          flush_windows-Sent (length p.staged) 0 p.batcher (sort_staged p.staged) (omega arith)
            (omega (arith, length-sort_staged p.staged)) (sort_staged-SortedFrom p.staged)
            (sort_staged-All (IsEncodable number conversion p.batcher.policies_by_id) p.staged
              encodable) in
        let idle' : Idle p.batcher ≡ p.batcher =
          ap (λ d. record p.batcher { pending = d }) (sym idle) in
        let flushed : flush_windows number conversion wall_clock (length p.staged) p.batcher
              p.tick_ns (sort_staged p.staged)
            ≡ ok (p.batcher, sent.0, 0) =
          ap₂
            (λ b t.
              flush_windows number conversion wall_clock (length p.staged) b t
                (sort_staged p.staged))
            (sym idle') same
          ∙ sent.1
          ∙ ap (λ b. ok (b, sent.0, 0)) idle' in
        let none_more : p.encode_failures + 0 ≡ p.encode_failures = omega arith in
        (
          sent.0,
          rw flushed
              (ap (λ n. ok (record p { staged = []; encode_failures = n }, sent.0)) none_more),
          sent.2,
        )
