-- ===== src/Tasks/Manager/Capacity.antt =====
-- The number of tasks that the manager of src/aduib_rpc/server/tasks/task_manager.py keeps.
use Prim.Native.String.{String}
use mathlib.Core.Path.{subst}
use aduib_rpc.Prelude.Dict
use aduib_rpc.Tasks.Manager.Expiry.{present}
use aduib_rpc.Tasks.Manager.{
  oldest, delete, delete_finished, gc_aggressive, delete_all, gc, low_water, sort_finished,
  expired_keys, finished, drop_oldest, drop_if_full, insert_task, make_room, new_record, emit,
  submit, submit_new, submit_after,
}
use aduib_rpc.Tasks.Manager.{TaskManager}
use aduib_rpc.Prelude.{
  List, All, ◌≡◌, [], arith, eq→same_text, inl, inr, length, ltb, refl, same_text→eq, sym, text_dec,
  true, ◌+◌, ◌∷◌, ◌≤◌, ◌⊎◌, Bool, false, if◌then◌else◌, ℕ, Option, leb, none, some,
}
use aduib_rpc.Tasks.Types.{TaskRecord}

-- Every record stands under its own id, once, and there are at most `max_tasks`, which is not zero.
pub record IsStore {R : Type 0} (m : TaskManager R) : Type 0 where
  pub once : Dict.IsDict text_dec m.tasks
  pub keyed : All (λ kr. kr.1.task_id ≡ kr.0) m.tasks
  pub room : length m.tasks ≤ m.max_tasks
  pub some_room : 1 ≤ m.max_tasks

module _ {R : Type 0} where
  abbrev IsKeyed : List (String × TaskRecord R) → Type 0
  IsKeyed rs = All (λ kr. kr.1.task_id ≡ kr.0) rs

  pop-IsKeyed :
      (tid : String) (rs : List (String × TaskRecord R))
      → IsKeyed rs
      → IsKeyed (Dict.pop text_dec tid rs)
  unfolding Dict.pop
  pop-IsKeyed tid [] h = tt
  pop-IsKeyed tid ((k, r) ∷ rs) h = ground (arith, pop-IsKeyed tid rs h.1)

  set-IsKeyed :
      (tid : String) (r : TaskRecord R) (rs : List (String × TaskRecord R))
      → r.task_id ≡ tid
      → IsKeyed rs
      → IsKeyed (Dict.set text_dec tid r rs)
  unfolding Dict.set
  set-IsKeyed tid r [] e h = (e, tt)
  set-IsKeyed tid r ((k, s) ∷ rs) e h = ground (arith, set-IsKeyed tid r rs e h.1)

  -- A key that is there leaves one record less.
  length-pop_known :
      (tid : String) (rs : List (String × TaskRecord R))
      → present tid rs ≡ true
      → length (Dict.pop text_dec tid rs) + 1 ≡ length rs
  unfolding Dict.pop
  length-pop_known tid [] h = absurd (ground arith)
  length-pop_known tid ((k, r) ∷ rs) h =
      ground (arith, length-pop_known tid rs, eq→same_text k tid, same_text→eq k tid)

  older_in_table :
      (o r s : TaskRecord R) (k : String) (rs : List (String × TaskRecord R))
      → s.task_id ≡ k
      → (o ≡ s) ⊎ (present o.task_id rs ≡ true)
      → (o ≡ r) ⊎ (present o.task_id ((k, s) ∷ rs) ≡ true)
  older_in_table o r s k rs e (inl p) = inr (rw (p, eq→same_text k s.task_id (sym e)) refl)
  older_in_table o r s k rs e (inr p) = inr (ground (arith, p))

  newer_in_table :
      (o r s : TaskRecord R) (k : String) (rs : List (String × TaskRecord R))
      → (o ≡ r) ⊎ (present o.task_id rs ≡ true)
      → (o ≡ r) ⊎ (present o.task_id ((k, s) ∷ rs) ≡ true)
  newer_in_table o r s k rs (inl p) = inl p
  newer_in_table o r s k rs (inr p) = inr (ground (arith, p))

  either_in_table :
      (b : Bool) (r s : TaskRecord R) (k : String) (rs : List (String × TaskRecord R))
      → s.task_id ≡ k
      → (oldest s rs ≡ s) ⊎ (present (oldest s rs).task_id rs ≡ true)
      → (oldest r rs ≡ r) ⊎ (present (oldest r rs).task_id rs ≡ true)
      → let o = oldest (if b then s else r) rs in (o ≡ r) ⊎ (present o.task_id ((k, s) ∷ rs) ≡ true)
  either_in_table true r s k rs e older newer = older_in_table (oldest s rs) r s k rs e older
  either_in_table false r s k rs e older newer = newer_in_table (oldest r rs) r s k rs newer

  -- The record that is dropped stands in the table.
  oldest_in_table :
      (r : TaskRecord R) (rs : List (String × TaskRecord R))
      → IsKeyed rs
      → (oldest r rs ≡ r) ⊎ (present (oldest r rs).task_id rs ≡ true)
  unfolding oldest
  oldest_in_table r [] h = inl refl
  oldest_in_table r ((k, s) ∷ rs) h =
      either_in_table (ltb s.created_at_ms r.created_at_ms) r s k rs h.0 (oldest_in_table s rs h.1)
        (oldest_in_table r rs h.1)

  first_or_present :
      (o r : TaskRecord R) (k : String) (rs : List (String × TaskRecord R))
      → r.task_id ≡ k
      → (o ≡ r) ⊎ (present o.task_id rs ≡ true)
      → present o.task_id ((k, r) ∷ rs) ≡ true
  first_or_present o r k rs e (inl p) = rw (p, eq→same_text k r.task_id (sym e)) refl
  first_or_present o r k rs e (inr p) = ground (arith, p)

  -- What the deletion of one task and of several keeps.
  pub delete-IsStore : (tid : String) (m : TaskManager R) → IsStore m → IsStore (delete tid m)
  unfolding delete
  delete-IsStore tid m v = record {
    once = Dict.pop-IsDict text_dec tid m.tasks v.once;
    keyed = pop-IsKeyed tid m.tasks v.keyed;
    room = omega (arith, Dict.length-pop-le text_dec tid m.tasks, v.room);
    some_room = v.some_room;
  }

  delete_all-IsStore :
      (tids : List String) (m : TaskManager R) → IsStore m → IsStore (delete_all tids m)
  unfolding delete_all
  delete_all-IsStore [] m v = v
  delete_all-IsStore (tid ∷ tids) m v =
      delete_all-IsStore tids (delete tid m) (delete-IsStore tid m v)

  stop_or_go :
      (b : Bool) (m m' : TaskManager R) → IsStore m → IsStore m' → IsStore (if b then m' else m)
  stop_or_go true m m' v v' = v'
  stop_or_go false m m' v v' = v

  delete_finished-IsStore :
      (rs : List (TaskRecord R)) (m : TaskManager R) → IsStore m → IsStore (delete_finished rs m)
  unfolding delete_finished
  delete_finished-IsStore [] m v = v
  delete_finished-IsStore (r ∷ rs) m v =
      stop_or_go (ltb (low_water m) (length m.tasks)) m (delete_finished rs (delete r.task_id m)) v
        (delete_finished-IsStore rs (delete r.task_id m) (delete-IsStore r.task_id m v))

  -- A collection keeps the store as it should be.
  pub gc-IsStore : (now : ℕ) (m : TaskManager R) → IsStore m → IsStore (gc now m)
  unfolding gc
  gc-IsStore now m v = delete_all-IsStore (expired_keys m.tasks now m) m v

  gc_aggressive-IsStore : (now : ℕ) (m : TaskManager R) → IsStore m → IsStore (gc_aggressive now m)
  unfolding gc_aggressive
  gc_aggressive-IsStore now m v =
      delete_finished-IsStore (sort_finished (finished (gc now m).tasks)) (gc now m)
        (gc-IsStore now m v)

  abbrev HasRoom : TaskManager R × Bool → Type 0
  HasRoom (m, found) = (found ≡ true) × IsStore m × (length m.tasks + 1 ≤ m.max_tasks)

  if-HasRoom :
      (b : Bool) (x y : TaskManager R × Bool)
      → (b ≡ true → HasRoom x)
      → (b ≡ false → HasRoom y)
      → HasRoom (if b then x else y)
  if-HasRoom true x y h k = h refl
  if-HasRoom false x y h k = k refl

  drop_oldest-HasRoom :
      (rs : List (String × TaskRecord R)) (m : TaskManager R)
      → rs ≡ m.tasks
      → 1 ≤ length rs
      → IsStore m
      → HasRoom (drop_oldest rs m)
  unfolding drop_oldest delete
  drop_oldest-HasRoom [] m same filled v = absurd (omega (arith, filled))
  drop_oldest-HasRoom ((tid, r) ∷ rs) m same filled v =
      let key : String = (oldest r rs).task_id in
      let keyed : IsKeyed ((tid, r) ∷ rs) = subst IsKeyed (sym same) v.keyed in
      let there : present key m.tasks ≡ true =
        rw (sym same)
          (first_or_present (oldest r rs) r tid rs keyed.0 (oldest_in_table r rs keyed.1)) in
      (refl, delete-IsStore key m v, omega (arith, length-pop_known key m.tasks there, v.room))

  drop_if_full-HasRoom : (m : TaskManager R) → IsStore m → HasRoom (drop_if_full m)
  unfolding drop_if_full
  drop_if_full-HasRoom m v =
      if-HasRoom (leb m.max_tasks (length m.tasks)) (drop_oldest m.tasks m) (m, true)
        (λ full. drop_oldest-HasRoom m.tasks m refl (let some_room = v.some_room in ground arith) v)
        (λ free. (refl, v, ground arith))

  make_room-HasRoom : (now : ℕ) (m : TaskManager R) → IsStore m → HasRoom (make_room now m)
  unfolding make_room
  make_room-HasRoom now m v =
      if-HasRoom (leb m.max_tasks (length m.tasks)) (drop_if_full (gc_aggressive now m)) (m, true)
        (λ full. drop_if_full-HasRoom (gc_aggressive now m) (gc_aggressive-IsStore now m v))
        (λ free. (refl, v, ground arith))

  insert_task-IsStore :
      (tid : String) (ttl : Option ℕ) (now : ℕ) (m : TaskManager R)
      → IsStore m
      → length m.tasks + 1 ≤ m.max_tasks
      → IsStore (insert_task tid ttl now m)
  unfolding insert_task emit new_record
  insert_task-IsStore tid ttl now m v free = record {
    once = Dict.set-IsDict text_dec tid (new_record tid now) m.tasks v.once;
    keyed = set-IsKeyed tid (new_record tid now) m.tasks refl v.keyed;
    room = omega (arith, Dict.length-set-le text_dec tid (new_record tid now) m.tasks, free);
    some_room = v.some_room;
  }

  -- What `submit` returns: the record that is there already, or a new one with its runner.
  abbrev pub answer : String → ℕ → Option (TaskRecord R) → TaskRecord R × Bool
  answer tid now none = (new_record tid now, true)
  answer tid now (some r) = (r, false)

  abbrev pub Submitted :
      String → TaskRecord R × Bool → TaskManager R × Option (TaskRecord R × Bool) → Type 0
  Submitted tid (r, fresh) (m, result) =
      (result ≡ some (r, fresh)) × (Dict.get text_dec tid m.tasks ≡ some r) × IsStore m

  submit_new-Submitted :
      (tid : String) (ttl : Option ℕ) (now : ℕ) (m : TaskManager R) (found : Bool)
      → HasRoom (m, found)
      → Submitted tid (new_record tid now, true) (submit_new tid ttl now (m, found))
  unfolding submit_new insert_task emit
  submit_new-Submitted tid ttl now m false h = absurd (ground arith)
  submit_new-Submitted tid ttl now m true (_, v, free) = (
    refl,
    Dict.get-set_self text_dec tid (new_record tid now) m.tasks,
    insert_task-IsStore tid ttl now m v free,
  )

  submit_after-Submitted :
      (tid : String) (ttl : Option ℕ) (now : ℕ) (m : TaskManager R) (found : Option (TaskRecord R))
      → Dict.get text_dec tid m.tasks ≡ found
      → IsStore m
      → Submitted tid (answer tid now found) (submit_after tid ttl now m found)
  unfolding submit_after
  submit_after-Submitted tid ttl now m (some r) h v = (refl, h, v)
  submit_after-Submitted tid ttl now m none h v =
      submit_new-Submitted tid ttl now (make_room now m).0 (make_room now m).1
        (make_room-HasRoom now m v)

  -- In a manager whose `max_tasks` is not zero, which keeps each record once and under its own id
  -- and has at most `max_tasks` of them, a submission never fails: it returns the record of that id
  -- that an expiry leaves, or else a new one with a runner; that record then stands in the table,
  -- and the manager is still as it was said, so that it never has more than `max_tasks` tasks.
  pub submit-Submitted :
      (tid : String) (ttl : Option ℕ) (now : ℕ) (m : TaskManager R)
      → IsStore m
      → Submitted tid
          (answer tid now (Dict.get text_dec tid (gc now m).tasks))
          (submit tid ttl now m)
  unfolding submit
  submit-Submitted tid ttl now m v =
      submit_after-Submitted tid ttl now (gc now m) (Dict.get text_dec tid (gc now m).tasks) refl
        (gc-IsStore now m v)
