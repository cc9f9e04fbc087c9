-- ===== src/Tests/Bulkhead.antt =====
-- src/aduib_rpc/resilience/bulkhead.py on its default configuration.
use aduib_rpc.Prelude.{List, [], pos, refl, ◌∷◌, ◌≡◌, ◌≤◌, arith, ◌+◌}
use aduib_rpc.Resilience.Bulkhead.{
  Bulkhead, init, run, acquires, step, active_count, BulkheadConfig, Event, available_slots,
}
use aduib_rpc.Resilience.Bulkhead.Bounds.{run_capped_by_depth, run_bounded}

abbrev config : BulkheadConfig
config = record { max_concurrent = pos 10; max_wait_us = pos 30000000; queue_depth = pos 5 }

abbrev six : List Event
six = acquires ∷ acquires ∷ acquires ∷ acquires ∷ acquires ∷ acquires ∷ []

-- Ten slots, and the sixth task waits for a place in the queue.
sixth_waits : ((run six (init config)).holding ≡ 5) × ((run six (init config)).at_queue ≡ 1)
unfolding run step init
sixth_waits = (refl, refl)

run_bounded_example :
    let b = run six (init config) in
    (b.holding ≡ active_count b) × (b.holding ≤ 10) × (available_slots b ≡ b.free)
run_bounded_example = run_bounded config six

-- Six tasks that come with ten slots free.
abbrev shut : BulkheadConfig
shut = record { max_concurrent = pos 10; max_wait_us = pos 0; queue_depth = pos 5 }

abbrev one_held : Bulkhead
one_held = record {
  max_concurrent = 10;
  max_wait_us = 1000000;
  queue_depth = 5;
  free = 9;
  queued = 1;
  active = 1;
  at_queue = 0;
  at_semaphore = 0;
  holding = 1;
}

run_capped_by_depth_example : let b = run six (init config) in b.at_semaphore + b.holding ≤ 5
run_capped_by_depth_example = run_capped_by_depth config six (omega arith)
