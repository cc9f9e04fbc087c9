-- ===== src/Tasks/Manager/Lifecycle.antt =====
-- The life of a task in src/aduib_rpc/server/tasks/task_manager.py.
use Prim.Native.String.{String}
use mathlib.Core.Path.{ap₂}
use aduib_rpc.Prelude.{ℕ, map, none, refl, some, text_dec, ◌++◌, ◌≡◌, ◌≢◌, ◌∙◌, ap}
use aduib_rpc.Prelude.Dict
use aduib_rpc.Tasks.Types.{
  TaskRecord, TaskEventName, succeeded, completed, failed_event, running, canceled, failed, started,
}
use aduib_rpc.Tasks.Manager.{
  TaskManager, Ending, write_record, finishes, emit, queues_of, event_for_task, started_if,
  is_cancelled, fails, queues_in, runner, set_status, set_result, set_error, TaskEvent, end_task,
  event_of,
}

-- The record of a task at its end.
unfoldable pub ended : {R : Type 0} → Ending R → ℕ → ℕ → TaskRecord R → TaskRecord R
ended (finishes value) start end_ r = record r {
  status = succeeded;
  started_at_ms = started_if running start r.started_at_ms;
  completed_at_ms = some end_;
  result = some value;
  error = none;
}
ended is_cancelled start end_ r = record r {
  status = canceled;
  started_at_ms = started_if running start r.started_at_ms;
  completed_at_ms = some end_;
  result = none;
  error = some (record { code = 499; name = "CANCELED" });
}
ended fails start end_ r = record r {
  status = failed;
  started_at_ms = started_if running start r.started_at_ms;
  completed_at_ms = some end_;
  result = none;
  error = some (record { code = 5000; name = "INTERNAL_ERROR" });
}

-- What the start and the end of a runner write into the record.
abbrev at_start : {R : Type 0} → ℕ → TaskRecord R → TaskRecord R
at_start start r = record r {
  status = running;
  started_at_ms = started_if running start r.started_at_ms;
}

abbrev at_end : {R : Type 0} → Ending R → ℕ → TaskRecord R → TaskRecord R
at_end (finishes value) end_ r = record r {
  status = succeeded;
  result = some value;
  error = none;
  completed_at_ms = some end_;
}
at_end is_cancelled end_ r = record r {
  status = canceled;
  error = some (record { code = 499; name = "CANCELED" });
  result = none;
  completed_at_ms = some end_;
}
at_end fails end_ r = record r {
  status = failed;
  error = some (record { code = 5000; name = "INTERNAL_ERROR" });
  result = none;
  completed_at_ms = some end_;
}

-- The name of the last event.
abbrev pub last_event : {R : Type 0} → Ending R → TaskEventName
last_event (finishes value) = completed
last_event is_cancelled = failed_event
last_event fails = failed_event

module _ {R : Type 0} where
  write_record_lem :
      (tid q : String) (now : ℕ) (f : TaskRecord R → TaskRecord R) (m : TaskManager R)
      (r : TaskRecord R)
      → Dict.get text_dec tid m.tasks ≡ some r
      → let m' = write_record tid now f m (Dict.get text_dec tid m.tasks) in
        (Dict.get text_dec tid m'.tasks ≡ some (f r))
        × (q ≢ tid → Dict.get text_dec q m'.tasks ≡ Dict.get text_dec q m.tasks)
        × (m'.subs ≡ m.subs)
        × (m'.delivered ≡ m.delivered ++ map (λ k. (k, event_for_task now (f r))) (queues_of tid m))
  unfolding write_record emit queues_of
  write_record_lem tid q now f m r h = rw h (
    Dict.get-set_self text_dec tid (f r) m.tasks,
    (λ n. Dict.get-set_ne text_dec tid q (f r) m.tasks n),
    refl,
    refl,
  )

  write_twice :
      (tid q : String) (start end_ : ℕ) (f g : TaskRecord R → TaskRecord R) (m : TaskManager R)
      (r : TaskRecord R)
      → Dict.get text_dec tid m.tasks ≡ some r
      → let m₁ = write_record tid start f m (Dict.get text_dec tid m.tasks) in
        let m' = write_record tid end_ g m₁ (Dict.get text_dec tid m₁.tasks) in
        (Dict.get text_dec tid m'.tasks ≡ some (g (f r)))
        × (q ≢ tid → Dict.get text_dec q m'.tasks ≡ Dict.get text_dec q m.tasks)
        × (m'.delivered
            ≡ (m.delivered ++ map (λ k. (k, event_for_task start (f r))) (queues_of tid m))
              ++ map (λ k. (k, event_for_task end_ (g (f r)))) (queues_of tid m))
  unfolding queues_of queues_in
  write_twice tid q start end_ f g m r h =
      let m₁ = write_record tid start f m (Dict.get text_dec tid m.tasks) in
      let (there, others, subs, sent) = write_record_lem tid q start f m r h in
      let (there', others', _, sent') = write_record_lem tid q end_ g m₁ (f r) there in
      (
        there',
        (λ n. others' n ∙ others n),
        sent'
            ∙ ap₂ (λ d s. d ++ map (λ k. (k, event_for_task end_ (g (f r)))) (queues_in tid s)) sent
                subs,
      )

  -- A task that is in the table when its runner starts, and that nothing else changes, has at the end
  -- the status, the result or the error, and the times that fit the way it ends; its subscribers
  -- get two events, one for the start and one for the end, in that order, and every other task is
  -- left as it was.
  pub runner_lem :
      (tid q : String) (start end_ : ℕ) (how : Ending R) (m : TaskManager R) (r : TaskRecord R)
      → Dict.get text_dec tid m.tasks ≡ some r
      → let m' = runner tid start end_ how m in
        let begun : TaskEvent = record {
          event = started;
          task_id = r.task_id;
          timestamp_ms = start;
        } in
        let done : TaskEvent = record {
          event = last_event how;
          task_id = r.task_id;
          timestamp_ms = end_;
        } in
        (Dict.get text_dec tid m'.tasks ≡ some (ended how start end_ r))
        × (q ≢ tid → Dict.get text_dec q m'.tasks ≡ Dict.get text_dec q m.tasks)
        × (m'.delivered
            ≡ (m.delivered ++ map (λ k. (k, begun)) (queues_of tid m))
              ++ map (λ k. (k, done)) (queues_of tid m))
  unfolding runner end_task set_status set_result set_error event_for_task event_of ended
  runner_lem tid q start end_ (finishes value) m r h =
      write_twice tid q start end_ (at_start start) (at_end (finishes value) end_) m r h
  runner_lem tid q start end_ is_cancelled m r h =
      write_twice tid q start end_ (at_start start) (at_end is_cancelled end_) m r h
  runner_lem tid q start end_ fails m r h =
      write_twice tid q start end_ (at_start start) (at_end fails end_) m r h

  write_gone :
      (tid : String) (now : ℕ) (f : TaskRecord R → TaskRecord R) (m : TaskManager R)
      → Dict.get text_dec tid m.tasks ≡ none
      → write_record tid now f m (Dict.get text_dec tid m.tasks) ≡ m
  unfolding write_record
  write_gone tid now f m h = ap (write_record tid now f m) h

  end_task_gone :
      (tid : String) (now : ℕ) (how : Ending R) (m : TaskManager R)
      → Dict.get text_dec tid m.tasks ≡ none
      → end_task tid how now m ≡ m
  unfolding end_task set_result set_error
  end_task_gone tid now (finishes value) m h = write_gone tid now (at_end (finishes value) now) m h
  end_task_gone tid now is_cancelled m h = write_gone tid now (at_end is_cancelled now) m h
  end_task_gone tid now fails m h = write_gone tid now (at_end fails now) m h

  -- The runner of a task that is gone changes nothing and tells nobody.
  pub runner_of_gone :
      (tid : String) (start end_ : ℕ) (how : Ending R) (m : TaskManager R)
      → Dict.get text_dec tid m.tasks ≡ none
      → runner tid start end_ how m ≡ m
  unfolding runner set_status
  runner_of_gone tid start end_ how m h =
      ap (end_task tid how end_) (write_gone tid start (at_start start) m h)
      ∙ end_task_gone tid end_ how m h
