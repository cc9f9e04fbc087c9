-- ===== src/Tasks/Manager.antt =====
-- src/aduib_rpc/server/tasks/task_manager.py: InMemoryTaskManager. Its methods are steps from state
-- to state at a time in milliseconds, and the coroutine `runner` of a task is the steps that it
-- makes: `set_status` at its start, and `set_result` or `set_error` at its end.
pub mod Expiry
pub mod Capacity
pub mod Lifecycle
use Prim.Native.String.{String}
use aduib_rpc.Prelude.{
  ℕ, Bool, List, Option, [], false, if◌then◌else◌, leb, length, ltb, map, none, some, text_dec,
  true, ◌*◌, ◌++◌, ◌+◌, ◌/◌, ◌==◌, ◌∷◌,
}
use aduib_rpc.Prelude.Dict
use aduib_rpc.Tasks.Types.{
  TaskRecord, succeeded, RpcError, TaskEventName, TaskStatus, is_terminal, pending, terminal,
  started, completed, failed_event, progress, running, failed, canceled,
}

-- An event as it is put into a queue. (The record that it refers to is the one in the table.)
pub record TaskEvent : Type 0 where
  pub event : TaskEventName
  pub task_id : String
  pub timestamp_ms : ℕ

-- The subscribers' queues are numbers, and `delivered` lists what was put into which, oldest first;
-- an `asyncio.Queue` with no size takes every event.
pub record TaskManager (R : Type 0) : Type 0 where
  pub default_ttl_seconds : Option ℕ
  pub max_tasks : ℕ
  pub tasks : List (String × TaskRecord R)
  pub expiry : List (String × Option ℕ)
  pub subs : List (String × List ℕ)
  pub delivered : List (ℕ × TaskEvent)

unfoldable pub init : {R : Type 0} → Option ℕ → ℕ → TaskManager R
init ttl max_tasks = record {
  default_ttl_seconds = ttl;
  max_tasks = max_tasks;
  tasks = [];
  expiry = [];
  subs = [];
  delivered = [];
}

-- `_event_for_task`.
unfoldable pub event_of : TaskStatus → TaskEventName
event_of running = started
event_of succeeded = completed
event_of failed = failed_event
event_of canceled = failed_event
event_of _ = progress

-- `expires_at`, by the ttl given or the default one.
abbrev pub expires_at : Option ℕ → Option ℕ → ℕ → Option ℕ
expires_at (some ttl) default now = some (now + ttl * 1000)
expires_at none (some ttl) now = some (now + ttl * 1000)
expires_at none none now = none

-- The queues of a task without one.
without : ℕ → List ℕ → List ℕ
without q [] = []
without q (r ∷ qs) = if r == q then without q qs else r ∷ without q qs

-- `started_at_ms` is set by the first RUNNING.
unfoldable pub started_if : TaskStatus → ℕ → Option ℕ → Option ℕ
started_if running now none = some now
started_if running now (some t) = some t
started_if _ now at = at

-- The queues of `self._subs.get(task_id, ())`.
queues_in : String → List (String × List ℕ) → List ℕ
queues_in tid subs = elim (Dict.get text_dec tid subs) [ none ↦ [] | some qs ↦ qs ]

module _ {R : Type 0} where
  event_for_task : ℕ → TaskRecord R → TaskEvent
  unfolding event_of
  event_for_task now r = record {
    event = event_of r.status;
    task_id = r.task_id;
    timestamp_ms = now;
  }

  unfoldable pub queues_of : String → TaskManager R → List ℕ
  unfolding queues_in
  queues_of tid m = queues_in tid m.subs

  -- `_emit`.
  unfoldable pub emit : String → TaskEvent → TaskManager R → TaskManager R
  unfolding queues_of
  emit tid ev m = record m { delivered = m.delivered ++ map (λ q. (q, ev)) (queues_of tid m) }

  -- `_is_expired_locked`.
  unfoldable pub is_expired : String → ℕ → TaskManager R → Bool
  is_expired tid now m = elim (Dict.get text_dec tid m.expiry) [
    | none ↦ false
    | some at ↦ elim at [ none ↦ false | some t ↦ leb t now ]
  ]

  -- `_delete_locked`.
  unfoldable pub delete : String → TaskManager R → TaskManager R
  delete tid m = record m {
    tasks = Dict.pop text_dec tid m.tasks;
    expiry = Dict.pop text_dec tid m.expiry;
    subs = Dict.pop text_dec tid m.subs;
  }

  delete_all : List String → TaskManager R → TaskManager R
  delete_all [] m = m
  delete_all (tid ∷ tids) m = delete_all tids (delete tid m)

  -- The keys of the tasks that are expired.
  expired_keys : List (String × TaskRecord R) → ℕ → TaskManager R → List String
  expired_keys [] now m = []
  expired_keys ((tid, r) ∷ rs) now m =
      let rest = expired_keys rs now m in if is_expired tid now m then tid ∷ rest else rest

  -- The finished records, and the sort key `completed_at_ms or created_at_ms`.
  finished : List (String × TaskRecord R) → List (TaskRecord R)
  finished [] = []
  finished ((tid, r) ∷ rs) = if is_terminal r then r ∷ finished rs else finished rs

  sort_key : TaskRecord R → ℕ
  sort_key r = elim r.completed_at_ms [
    | none ↦ r.created_at_ms
    | some t ↦ if t == 0 then r.created_at_ms else t
  ]

  insert_sorted : TaskRecord R → List (TaskRecord R) → List (TaskRecord R)
  insert_sorted r [] = r ∷ []
  insert_sorted r (s ∷ rs) =
      if leb (sort_key r) (sort_key s) then r ∷ s ∷ rs else s ∷ insert_sorted r rs

  sort_finished : List (TaskRecord R) → List (TaskRecord R)
  unfolding insert_sorted sort_key
  sort_finished [] = []
  sort_finished (r ∷ rs) = insert_sorted r (sort_finished rs)

  -- `int(max_tasks * 0.9)`, and the loop that deletes finished tasks above it.
  abbrev pub low_water : TaskManager R → ℕ
  low_water m = m.max_tasks * 9 / 10

  delete_finished : List (TaskRecord R) → TaskManager R → TaskManager R
  delete_finished [] m = m
  delete_finished (r ∷ rs) m =
      let rest = delete_finished rs (delete r.task_id m) in
      if ltb (low_water m) (length m.tasks) then rest else m

  -- `_gc_locked`.
  unfoldable pub gc : ℕ → TaskManager R → TaskManager R
  unfolding delete_all expired_keys
  gc now m = delete_all (expired_keys m.tasks now m) m

  unfoldable pub gc_aggressive : ℕ → TaskManager R → TaskManager R
  unfolding delete_finished sort_finished finished
  gc_aggressive now m = let m' = gc now m in delete_finished (sort_finished (finished m'.tasks)) m'

  -- `min(self._tasks.values(), key=created_at_ms)`: the first of the oldest.
  oldest : TaskRecord R → List (String × TaskRecord R) → TaskRecord R
  oldest r [] = r
  oldest r ((tid, s) ∷ rs) = oldest (if ltb s.created_at_ms r.created_at_ms then s else r) rs

  -- False stands for the ValueError of `min` where there is no task to drop.
  drop_oldest : List (String × TaskRecord R) → TaskManager R → TaskManager R × Bool
  unfolding oldest
  drop_oldest [] m = (m, false)
  drop_oldest ((tid, r) ∷ rs) m = (delete (oldest r rs).task_id m, true)

  drop_if_full : TaskManager R → TaskManager R × Bool
  unfolding drop_oldest
  drop_if_full m = if leb m.max_tasks (length m.tasks) then drop_oldest m.tasks m else (m, true)

  -- The room that `submit` makes.
  make_room : ℕ → TaskManager R → TaskManager R × Bool
  unfolding drop_if_full
  make_room now m =
      if leb m.max_tasks (length m.tasks) then drop_if_full (gc_aggressive now m) else (m, true)

  -- The record of a new task.
  unfoldable pub new_record : String → ℕ → TaskRecord R
  new_record tid now = record {
    task_id = tid;
    status = pending;
    created_at_ms = now;
    started_at_ms = none;
    completed_at_ms = none;
    result = none;
    error = none;
  }

  insert_task : String → Option ℕ → ℕ → TaskManager R → TaskManager R
  unfolding event_for_task new_record
  insert_task tid ttl now m = emit tid (event_for_task now (new_record tid now)) (record m {
    tasks = Dict.set text_dec tid (new_record tid now) m.tasks;
    expiry = Dict.set text_dec tid (expires_at ttl m.default_ttl_seconds now) m.expiry;
  })

  -- The rest of `submit` after the collection: the record, with whether a runner is started for it;
  -- `none` is the ValueError.
  submit_new :
      String → Option ℕ → ℕ → TaskManager R × Bool → TaskManager R × Option (TaskRecord R × Bool)
  unfolding insert_task
  submit_new tid ttl now (m, true) = (insert_task tid ttl now m, some (new_record tid now, true))
  submit_new tid ttl now (m, false) = (m, none)

  submit_after :
      String
      → Option ℕ
      → ℕ
      → TaskManager R
      → Option (TaskRecord R)
      → TaskManager R × Option (TaskRecord R × Bool)
  unfolding submit_new make_room
  submit_after tid ttl now m (some r) = (m, some (r, false))
  submit_after tid ttl now m none = submit_new tid ttl now (make_room now m)

  -- `submit`, where `tid` is the id given or the new uuid.
  unfoldable pub submit :
      String → Option ℕ → ℕ → TaskManager R → TaskManager R × Option (TaskRecord R × Bool)
  unfolding submit_after
  submit tid ttl now m =
      submit_after tid ttl now (gc now m) (Dict.get text_dec tid (gc now m).tasks)

  -- `get`: `none` is the TaskNotFoundError.
  unfoldable pub get : String → ℕ → TaskManager R → TaskManager R × Option (TaskRecord R)
  get tid now m = (gc now m, Dict.get text_dec tid (gc now m).tasks)

  -- `subscribe` of a queue: the queue gets an event for the state of the task.
  subscribe_to : String → ℕ → ℕ → TaskManager R → Option (TaskRecord R) → TaskManager R × Bool
  unfolding event_for_task
  subscribe_to tid q now m none = (m, false)
  subscribe_to tid q now m (some r) = (
    record m {
      subs = Dict.set text_dec tid (queues_of tid m ++ q ∷ []) m.subs;
      delivered = m.delivered ++ (q, event_for_task now r) ∷ [];
    },
    true,
  )

  unfoldable pub subscribe : String → ℕ → ℕ → TaskManager R → TaskManager R × Bool
  unfolding subscribe_to
  subscribe tid q now m = subscribe_to tid q now (get tid now m).0 (get tid now m).1

  -- `unsubscribe`.
  unsubscribed : String → List ℕ → TaskManager R → TaskManager R
  unsubscribed tid [] m = record m { subs = Dict.pop text_dec tid m.subs }
  unsubscribed tid (q ∷ qs) m = record m { subs = Dict.set text_dec tid (q ∷ qs) m.subs }

  unfoldable pub unsubscribe : String → ℕ → TaskManager R → TaskManager R
  unfolding unsubscribed without
  unsubscribe tid q m = unsubscribed tid (without q (queues_of tid m)) m

  -- The write of a record that is still there, with its event; a task that is gone gets neither.
  write_record :
      String
      → ℕ
      → (TaskRecord R → TaskRecord R)
      → TaskManager R
      → Option (TaskRecord R)
      → TaskManager R
  unfolding event_for_task
  write_record tid now f m none = m
  write_record tid now f m (some r) =
      emit tid (event_for_task now (f r)) (record m { tasks = Dict.set text_dec tid (f r) m.tasks })

  -- `_set_status`.
  unfoldable pub set_status : String → TaskStatus → ℕ → TaskManager R → TaskManager R
  unfolding write_record started_if
  set_status tid s now m =
      write_record tid now
        (λ r. record r { status = s; started_at_ms = started_if s now r.started_at_ms }) m
        (Dict.get text_dec tid m.tasks)

  -- `_set_result`.
  unfoldable pub set_result : String → R → ℕ → TaskManager R → TaskManager R
  unfolding write_record
  set_result tid value now m =
      write_record tid now
        (λ r. record r {
          status = succeeded;
          result = some value;
          error = none;
          completed_at_ms = some now;
        })
        m (Dict.get text_dec tid m.tasks)

  -- `_set_error`.
  unfoldable pub set_error : String → RpcError → TaskStatus → ℕ → TaskManager R → TaskManager R
  unfolding write_record
  set_error tid e s now m =
      write_record tid now
        (λ r. record r {
          status = s;
          error = some e;
          result = none;
          completed_at_ms = if terminal s then some now else r.completed_at_ms;
        })
        m (Dict.get text_dec tid m.tasks)

-- How the coroutine of a task ends.
pub data Ending (R : Type 0) : Type 0 where
  finishes : R → Ending R
  is_cancelled : Ending R
  fails : Ending R

module _ {R : Type 0} where
  end_task : String → Ending R → ℕ → TaskManager R → TaskManager R
  end_task tid (finishes value) now m = set_result tid value now m
  end_task tid is_cancelled now m =
      set_error tid (record { code = 499; name = "CANCELED" }) canceled now m
  end_task tid fails now m =
      set_error tid (record { code = 5000; name = "INTERNAL_ERROR" }) failed now m

  -- `runner`, where nothing else changes the manager while the task runs: the times at which it
  -- starts and ends, and how it ends.
  unfoldable pub runner : String → ℕ → ℕ → Ending R → TaskManager R → TaskManager R
  unfolding end_task
  runner tid start end_ how m = end_task tid how end_ (set_status tid running start m)
