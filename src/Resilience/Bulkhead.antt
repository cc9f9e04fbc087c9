-- ===== src/Resilience/Bulkhead.antt =====
-- src/aduib_rpc/resilience/bulkhead.py: the state of a Bulkhead with the tasks that stand in it,
-- and its operations between two suspensions of the event loop. Of asyncio it models the counting
-- semaphore and the queue, which is unbounded when its size is zero.
pub mod Bounds
use aduib_rpc.Prelude.{
  ℕ, Bool, List, [], at_least, false, if◌then◌else◌, leb, ltb, not, ℤ, ◌&&◌, ◌+◌, ◌-◌, ◌||◌, ◌∷◌,
}

pub record BulkheadConfig : Type 0 where
  pub max_concurrent : ℤ
  pub max_wait_us : ℤ
  pub queue_depth : ℤ

-- `free` is the value of the semaphore and `queued` the size of the queue. Of the tasks inside,
-- `at_queue` wait to put their placeholder, `at_semaphore` wait for the semaphore, and `holding`
-- hold a slot.
pub record Bulkhead : Type 0 where
  pub max_concurrent : ℕ
  pub max_wait_us : ℕ
  pub queue_depth : ℕ
  pub free : ℕ
  pub queued : ℕ
  pub active : ℕ
  pub at_queue : ℕ
  pub at_semaphore : ℕ
  pub holding : ℕ

-- `__init__`.
unfoldable pub init : BulkheadConfig → Bulkhead
init config = record {
  max_concurrent = at_least 1 config.max_concurrent;
  max_wait_us = at_least 0 config.max_wait_us;
  queue_depth = at_least 0 config.queue_depth;
  free = at_least 1 config.max_concurrent;
  queued = 0;
  active = 0;
  at_queue = 0;
  at_semaphore = 0;
  holding = 0;
}

-- `asyncio.Queue.full`: a queue of size zero has no bound.
unfoldable pub queue_full : Bulkhead → Bool
queue_full b = ltb 0 b.queue_depth && leb b.queue_depth b.queued

-- `asyncio.Semaphore.locked`: no value, or tasks that wait already.
unfoldable pub semaphore_locked : Bulkhead → Bool
semaphore_locked b = leb b.free 0 || ltb 0 b.at_semaphore

-- `_increment_active` and `_decrement_active`.
increment_active : Bulkhead → Bulkhead
increment_active b = record b { active = b.active + 1 }

decrement_active : Bulkhead → Bulkhead
decrement_active b = record b { active = b.active - 1 }

-- What follows the semaphore in `acquire` and `execute`: the task holds a slot and is counted.
hold : Bulkhead → Bulkhead
unfolding increment_active
hold b = increment_active (record b { free = b.free - 1; holding = b.holding + 1 })

-- The second half of `_acquire_slot`, once the placeholder is in the queue.
past_queue : Bulkhead → Bulkhead
unfolding hold semaphore_locked
past_queue b = if semaphore_locked b then record b { at_semaphore = b.at_semaphore + 1 } else hold b

-- `_acquire_slot` with `_increment_active` up to the first suspension. Where `max_wait` is 0,
-- `wait_for` cancels the `put` before it runs, and the task leaves with a BulkheadError.
unfoldable pub acquire : Bulkhead → Bulkhead
unfolding past_queue queue_full
acquire b =
    if leb b.max_wait_us 0
    then b
    else if queue_full b
    then record b { at_queue = b.at_queue + 1 }
    else past_queue (record b { queued = b.queued + 1 })

-- `try_acquire`, where no other task runs while `wait_for` puts the placeholder into the queue, which
-- has room; a BulkheadError is false.
unfoldable pub try_acquire : Bulkhead → Bulkhead × Bool
unfolding acquire
try_acquire b =
    if semaphore_locked b
    then (b, false)
    else if queue_full b
    then (b, false)
    else (acquire b, ltb 0 b.max_wait_us)

-- `_release_slot`: the placeholder leaves the queue, if there is one.
release_slot : Bulkhead → Bulkhead
release_slot b = record b { free = b.free + 1; queued = b.queued - 1 }

-- `release`, and the `finally` of `execute`, by a task that holds a slot.
unfoldable pub release : Bulkhead → Bulkhead
unfolding release_slot decrement_active
release b = decrement_active (record (release_slot b) { holding = b.holding - 1 })

-- What the event loop does next. A task that waits goes on when the queue or the semaphore lets it,
-- or gives up with a BulkheadError when its `max_wait` at the queue is over. No task is cancelled.
pub data Event : Type 0 where
  acquires tries releases passes_queue times_out passes_semaphore : Event

unfoldable pub step : Event → Bulkhead → Bulkhead
unfolding acquire try_acquire release past_queue hold queue_full
step acquires b = acquire b
step tries b = (try_acquire b).0
step releases b = if ltb 0 b.holding then release b else b
step passes_queue b =
    if ltb 0 b.at_queue && not (queue_full b)
    then past_queue (record b { at_queue = b.at_queue - 1; queued = b.queued + 1 })
    else b
step times_out b = if ltb 0 b.at_queue then record b { at_queue = b.at_queue - 1 } else b
step passes_semaphore b =
    if ltb 0 b.at_semaphore && ltb 0 b.free
    then hold (record b { at_semaphore = b.at_semaphore - 1 })
    else b

unfoldable pub run : List Event → Bulkhead → Bulkhead
run [] b = b
run (e ∷ es) b = run es (step e b)

-- The properties `available_slots` and `active_count`.
unfoldable pub available_slots : Bulkhead → ℕ
available_slots b = b.max_concurrent - b.active

unfoldable pub active_count : Bulkhead → ℕ
active_count b = b.active
