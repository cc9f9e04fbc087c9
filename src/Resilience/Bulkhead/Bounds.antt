-- ===== src/Resilience/Bulkhead/Bounds.antt =====
-- How many tasks a Bulkhead of src/aduib_rpc/resilience/bulkhead.py lets run.
use aduib_rpc.Prelude.{
  List, [], arith, at_least, false, if◌then◌else◌, ltb, not, refl, true, ◌&&◌, ◌+◌, ◌-◌, ◌<◌, ◌∙◌,
  ◌∷◌, ◌≡◌, ◌≤◌, sym,
}
use aduib_rpc.Resilience.Bulkhead.{
  Bulkhead, init, step, BulkheadConfig, active_count, try_acquire, run, queue_full, Event,
  available_slots,
}

-- The semaphore, the queue and the counter agree with the tasks that stand in the bulkhead.
pub record IsValid (b : Bulkhead) : Type 0 where
  pub slots : b.free + b.holding ≡ b.max_concurrent
  pub placeholders : b.queued ≡ b.at_semaphore + b.holding
  pub counted : b.active ≡ b.holding
  pub depth : 0 < b.queue_depth → b.queued ≤ b.queue_depth

pub init-IsValid : (config : BulkheadConfig) → IsValid (init config)
unfolding init
init-IsValid config = ground arith

pub step-IsValid : (e : Event) (b : Bulkhead) → IsValid b → IsValid (step e b)
unfolding step
step-IsValid e b v = ground arith

run-IsValid : (es : List Event) (b : Bulkhead) → IsValid b → IsValid (run es b)
unfolding run
run-IsValid [] b v = v
run-IsValid (e ∷ es) b v = run-IsValid es (step e b) (step-IsValid e b v)

step_settings :
    (e : Event) (b : Bulkhead)
    → ((step e b).max_concurrent ≡ b.max_concurrent) × ((step e b).queue_depth ≡ b.queue_depth)
unfolding step
step_settings e b = ground arith

run_settings :
    (es : List Event) (b : Bulkhead)
    → ((run es b).max_concurrent ≡ b.max_concurrent) × ((run es b).queue_depth ≡ b.queue_depth)
unfolding run
run_settings [] b = (refl, refl)
run_settings (e ∷ es) b =
    let (m, q) = run_settings es (step e b) in let (m', q') = step_settings e b in (m ∙ m', q ∙ q')

-- After any events on a new bulkhead the tasks that hold a slot are those counted as active, are
-- at most `max_concurrent`, and leave `available_slots` equal to the value of the semaphore.
pub run_bounded :
    (config : BulkheadConfig) (es : List Event)
    → let b = run es (init config) in
      (b.holding ≡ active_count b)
      × (b.holding ≤ at_least 1 config.max_concurrent)
      × (available_slots b ≡ b.free)
unfolding active_count available_slots init
run_bounded config es =
    let v = run-IsValid es (init config) (init-IsValid config) in
    let (m, _) = run_settings es (init config) in
    (sym v.counted, omega (arith, v.slots, m), omega (arith, v.slots, v.counted))

-- A bulkhead with a queue depth lets at most that many tasks hold a slot or wait for the
-- semaphore, however large `max_concurrent` is, since a task keeps its place in the queue while it
-- runs.
pub run_capped_by_depth :
    (config : BulkheadConfig) (es : List Event)
    → 0 < at_least 0 config.queue_depth
    → let b = run es (init config) in b.at_semaphore + b.holding ≤ at_least 0 config.queue_depth
unfolding init
run_capped_by_depth config es h =
    let v = run-IsValid es (init config) (init-IsValid config) in
    let (_, q) = run_settings es (init config) in omega (arith, v.placeholders, v.depth, q)

-- `try_acquire` never waits: it takes a slot exactly when the semaphore has one that no task waits
-- for, the queue has room and `max_wait` is not 0, and otherwise changes nothing.
pub try_acquire_lem :
    (b : Bulkhead)
    → try_acquire b ≡ (
        if ltb 0 b.max_wait_us
          && (ltb 0 b.free && (not (ltb 0 b.at_semaphore) && not (queue_full b)))
        then (
          record b {
            free = b.free - 1;
            queued = b.queued + 1;
            active = b.active + 1;
            holding = b.holding + 1;
          },
          true,
        )
        else (b, false))
unfolding try_acquire
try_acquire_lem b = ground arith

-- No task stands in a bulkhead that does not wait.
record IsShut (b : Bulkhead) : Type 0 where
  no_wait : b.max_wait_us ≡ 0
  none_queued : b.at_queue ≡ 0
  none_waiting : b.at_semaphore ≡ 0
  none_holding : b.holding ≡ 0
