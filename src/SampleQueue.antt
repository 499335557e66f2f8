-- ===== src/SampleQueue.antt =====
-- src/agent/queues.py: the bounded drop-oldest queue between a collector and the pipeline. Each
-- method holds the lock throughout, so threads interleave whole calls: a history is a list of calls.
pub mod Newest
mod Examples
use openlaps.Common.{
  ℕ, String, ◌+◌, List, [], ◌∷◌, ◌++◌, leb, length, if◌then◌else◌, Option, none, some, eqb,
}

pub record SampleQueue (A : Type 0) : Type 0 where
  pub source_class : String
  pub maxlen : ℕ
  pub queue : List A
  pub dropped : ℕ

module _ {A : Type 0} where
  -- `__init__`; a `maxlen` that is not positive raises.
  unfoldable pub init : String → ℕ → Option (SampleQueue A)
  init source_class maxlen =
      if eqb maxlen 0
      then none
      else some (record { source_class = source_class; maxlen = maxlen; queue = []; dropped = 0 })

  abbrev popleft : List A → List A
  popleft [] = []
  popleft (x ∷ xs) = xs

  unfoldable pub put : SampleQueue A → A → SampleQueue A
  put q sample =
      if leb q.maxlen (length q.queue)
      then record q { queue = popleft q.queue ++ sample ∷ []; dropped = q.dropped + 1 }
      else record q { queue = q.queue ++ sample ∷ [] }

  unfoldable pub drain : SampleQueue A → SampleQueue A × List A
  drain q = (record q { queue = [] }, q.queue)

-- A call by a collector or by the pipeline thread.
pub data Call (A : Type 0) : Type 0 where
  puts : A → Call A
  drains : Call A

-- The queue after a history, and what its `drain` calls returned.
unfoldable pub run : {A : Type 0} → SampleQueue A → List (Call A) → SampleQueue A × List (List A)
unfolding put drain
run q [] = (q, [])
run q (puts x ∷ calls) = run (put q x) calls
run q (drains ∷ calls) =
    let (q', items) = drain q in let (q'', outs) = run q' calls in (q'', items ∷ outs)
