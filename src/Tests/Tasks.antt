-- ===== src/Tests/Tasks.antt =====
-- src/aduib_rpc/server/tasks on concrete tasks.
use Prim.Native.String.{String}
use aduib_rpc.Prelude.Dict
use aduib_rpc.Tasks.Types.{TaskRecord, started, pending, completed, is_terminal}
use aduib_rpc.Tasks.Manager.{
  TaskManager, finishes, TaskEvent, runner, gc, is_expired, queues_of, submit, gc_aggressive,
  delete, emit, new_record,
}
use aduib_rpc.Tasks.Manager.Expiry.{IsManager}
use aduib_rpc.Tasks.Manager.Lifecycle.{ended, runner_lem}
use aduib_rpc.Prelude.{
  refl, text_dec, ℕ, Option, ℤ, none, ◌≡◌, ◌∷◌, some, ◌≢◌, [], ◌++◌, map, arith,
}
use aduib_rpc.Tasks.Manager.Capacity.{Submitted, IsStore, answer, submit-Submitted}

-- Stand-ins for `str.lower` and `int` of a str.
abbrev same : String → String
same t = t

abbrev no_int : String → Option ℤ
no_int t = none

abbrev task : TaskRecord ℕ
task = record {
  task_id = "a";
  status = pending;
  created_at_ms = 5;
  started_at_ms = none;
  completed_at_ms = none;
  result = none;
  error = none;
}

-- Task a, which expires at 100, with one subscriber.
abbrev manager : TaskManager ℕ
manager = record {
  default_ttl_seconds = none;
  max_tasks = 10;
  tasks = ("a", task) ∷ [];
  expiry = ("a", some 100) ∷ [];
  subs = ("a", 7 ∷ []) ∷ [];
  delivered = [];
}

manager-IsManager : IsManager manager
unfolding Dict.get text_dec
manager-IsManager = record { tasks_once = (refl, tt); expiry_once = (refl, tt) }

task_a : Dict.get text_dec "a" manager.tasks ≡ some task
unfolding Dict.get text_dec
task_a = refl

abbrev b : String
b = "b"

task_b : Dict.get text_dec "b" manager.tasks ≡ none
unfolding Dict.get text_dec
task_b = refl

runner_lem_example :
    let m' = runner "a" 20 30 (finishes 8) manager in
    let begun : TaskEvent = record { event = started; task_id = "a"; timestamp_ms = 20 } in
    let done : TaskEvent = record { event = completed; task_id = "a"; timestamp_ms = 30 } in
    (Dict.get text_dec "a" m'.tasks ≡ some (ended (finishes 8) 20 30 task))
    × (b ≢ task.task_id → Dict.get text_dec b m'.tasks ≡ Dict.get text_dec b manager.tasks)
    × (m'.delivered
        ≡ ([] ++ map (λ k. (k, begun)) (queues_of "a" manager))
          ++ map (λ k. (k, done)) (queues_of "a" manager))
runner_lem_example = runner_lem "a" b 20 30 (finishes 8) manager task task_a

manager-IsStore : IsStore manager
unfolding Dict.get text_dec
manager-IsStore = record {
  once = (refl, tt);
  keyed = (refl, tt);
  room = omega arith;
  some_room = omega arith;
}

-- A store with room for one task drops that task for a new one.
abbrev tiny : TaskManager ℕ
tiny = record manager { max_tasks = 1 }

tiny_drops : (submit b none 50 tiny).0.tasks ≡ (b, new_record b 50) ∷ []
unfolding submit gc gc_aggressive is_expired delete Dict.get Dict.set Dict.pop text_dec is_terminal
    emit new_record
tiny_drops = refl

submit-Submitted_example :
    Submitted b (answer b 50 (Dict.get text_dec b (gc 50 manager).tasks)) (submit b none 50 manager)
submit-Submitted_example = submit-Submitted b none 50 manager manager-IsStore
