-- ===== src/Publisher/Examples.antt =====
-- A publisher with a budget of 25 bytes and a window of one, through an outage.
use mathlib.Core.List.{Sublist}
use openlaps.Common.{◌≡◌, ◌+◌, refl, none, inl, List, [], ◌∷◌, ◌++◌, arith, String}
use openlaps.Publisher.{QueuedBatch, Publisher, Event, submitted, fills, acked, failed, run}
use openlaps.Publisher.Accounting.{IsAccounted, held, run-IsAccounted, held-run}
use openlaps.Publisher.Order.{confirmed_by, queued, brought_by, run-sublist}

abbrev batch : String → QueuedBatch
batch id = record { subject = "tele.car.can0"; size = 10; msg_id = id; submit_mono_ns = 5 }

abbrev idle : Publisher
idle = record {
  window = 1;
  buffer_budget = 25;
  buffer = [];
  buffer_bytes = 0;
  oldest_pending_mono_ns = none;
  publish_drops = 0;
  published = 0;
  pending = [];
}

abbrev outage : List Event
outage =
    submitted (batch "a")
    ∷ fills
    ∷ fills
    ∷ submitted (batch "b")
    ∷ submitted (batch "c")
    ∷ failed
    ∷ fills
    ∷ fills
    ∷ acked
    ∷ []

-- The batch that comes back from the window stays, and the newest one is shed.
outage_sheds_newest : (run idle outage).buffer ≡ batch "b" ∷ []
unfolding run
outage_sheds_newest = refl

idle-IsAccounted : IsAccounted idle
idle-IsAccounted = record {
  bytes = refl;
  bounded = inl (omega arith);
  windowed = omega arith;
  oldest = refl;
}

run-IsAccounted_example : IsAccounted (run idle outage)
run-IsAccounted_example = run-IsAccounted idle outage idle-IsAccounted

held-run_example : held (run idle outage) ≡ 3 + held idle
held-run_example = held-run idle outage idle-IsAccounted

run-sublist_example :
    Sublist
      (confirmed_by idle outage ++ queued (run idle outage))
      (queued idle ++ brought_by outage)
run-sublist_example = run-sublist idle outage
