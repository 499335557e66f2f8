-- ===== src/SampleQueue/Examples.antt =====
-- A queue of two, overfilled, drained and filled again.
use openlaps.Common.{ℕ, ◌≡◌, ◌≤◌, ◌+◌, refl, List, [], ◌∷◌, length, arith}
use openlaps.SampleQueue.{SampleQueue, Call, puts, drains, run}
use openlaps.SampleQueue.Newest.{Holds, log_run, put_count, total, run-log_run, run-count}

abbrev two : SampleQueue ℕ
two = record { source_class = "can0"; maxlen = 2; queue = []; dropped = 0 }

abbrev history : List (Call ℕ)
history = puts 1 ∷ puts 2 ∷ puts 3 ∷ drains ∷ puts 4 ∷ drains ∷ puts 5 ∷ []

history_drains : (run two history).1 ≡ (2 ∷ 3 ∷ []) ∷ (4 ∷ []) ∷ []
unfolding run
history_drains = refl

two-Holds : Holds two []
two-Holds = record { room = omega arith; holds = refl }

run-log_run_example : (run two history).1 ≡ log_run 2 [] history
run-log_run_example = run-log_run two [] history two-Holds

run-count_example :
    (put_count history + 0 + 0
      ≡ total (run two history).1 + length (run two history).0.queue + (run two history).0.dropped)
    × (length (run two history).0.queue ≤ 2)
run-count_example = run-count two history (omega arith) (omega arith)
