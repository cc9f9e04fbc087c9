-- ===== src/Tasks/Manager/Expiry.antt =====
-- What the collection of expired tasks in src/aduib_rpc/server/tasks/task_manager.py removes.
use Prim.Native.String.{String}
use mathlib.Core.Logic.{if_neg}
use aduib_rpc.Prelude.{
  Bool, List, [], false, if◌then◌else◌, none, refl, same_text, text_dec, ◌||◌, ◌∙◌, ◌∷◌, ◌≡◌,
  Bool-cases, ap, arith, eq→same_text, inl, inr, same_text→eq, sym, ℕ, ◌&&◌,
}
use aduib_rpc.Prelude.Dict
use aduib_rpc.Tasks.Manager.{TaskManager, delete_all, delete, gc, expired_keys, is_expired}
use aduib_rpc.Tasks.Types.{TaskRecord}

-- Each table has every key once.
pub record IsManager {R : Type 0} (m : TaskManager R) : Type 0 where
  pub tasks_once : Dict.IsDict text_dec m.tasks
  pub expiry_once : Dict.IsDict text_dec m.expiry

abbrev has_text : String → List String → Bool
has_text tid [] = false
has_text tid (k ∷ ks) = same_text k tid || has_text tid ks

module _ {R : Type 0} where
  delete-IsManager : (tid : String) (m : TaskManager R) → IsManager m → IsManager (delete tid m)
  unfolding delete
  delete-IsManager tid m v = record {
    tasks_once = Dict.pop-IsDict text_dec tid m.tasks v.tasks_once;
    expiry_once = Dict.pop-IsDict text_dec tid m.expiry v.expiry_once;
  }

  popped_or_listed :
      (tid : String) (tids : List String) (q : String) (m : TaskManager R)
      → IsManager m
      → (if has_text q tids then none else Dict.get text_dec q (delete tid m).tasks)
        ≡ (if same_text tid q || has_text q tids then none else Dict.get text_dec q m.tasks)
  unfolding delete
  popped_or_listed tid tids q m v = elim (Bool-cases (same_text tid q)) [
    | inl p ↦
        let gone : Dict.get text_dec q (Dict.pop text_dec tid m.tasks) ≡ none =
          rw (same_text→eq tid q p) (Dict.get-pop_self text_dec q m.tasks v.tasks_once) in
        rw (p, gone) (ground arith)
    | inr p ↦ rw (p, Dict.get-pop_ne text_dec tid q m.tasks (λ e. cc (eq→same_text tid q (sym e))))
  ]

  -- What stands under a key after the deletion of a list of keys.
  delete_all_lem :
      (tids : List String) (q : String) (m : TaskManager R)
      → IsManager m
      → (Dict.get text_dec q (delete_all tids m).tasks
          ≡ (if has_text q tids then none else Dict.get text_dec q m.tasks))
        × IsManager (delete_all tids m)
  unfolding delete_all
  delete_all_lem [] q m v = (refl, v)
  delete_all_lem (tid ∷ tids) q m v =
      let (rest, v') = delete_all_lem tids q (delete tid m) (delete-IsManager tid m v) in
      (rest ∙ popped_or_listed tid tids q m v, v')

  -- Whether a key is there.
  abbrev pub present : String → List (String × TaskRecord R) → Bool
  present q [] = false
  present q ((tid, r) ∷ rs) = same_text tid q || present q rs

  expired_keys_lem :
      (rs : List (String × TaskRecord R)) (q : String) (now : ℕ) (m : TaskManager R)
      → has_text q (expired_keys rs now m) ≡ (present q rs && is_expired q now m)
  unfolding expired_keys
  expired_keys_lem [] q now m = refl
  expired_keys_lem ((tid, r) ∷ rs) q now m = elim (Bool-cases (same_text tid q)) [
    | inl p ↦
        let same : is_expired tid now m ≡ is_expired q now m =
          ap (λ t. is_expired t now m) (same_text→eq tid q p) in
        ground (arith, expired_keys_lem rs q now m)
    | inr p ↦ ground (arith, expired_keys_lem rs q now m)
  ]

  get_of_absent :
      (rs : List (String × TaskRecord R)) (q : String)
      → present q rs ≡ false
      → Dict.get text_dec q rs ≡ none
  unfolding Dict.get
  get_of_absent [] q h = refl
  get_of_absent ((tid, r) ∷ rs) q h = elim (text_dec tid q) [
    | yes p ↦ absurd (let e = eq→same_text tid q p in ground arith)
    | no p ↦ rw (if_neg (text_dec tid q) p) (get_of_absent rs q (ground arith))
  ]

  -- A collection removes exactly the tasks whose time to live is over, and leaves every other task
  -- as it was.
  pub gc_lem :
      (q : String) (now : ℕ) (m : TaskManager R)
      → IsManager m
      → (Dict.get text_dec q (gc now m).tasks
          ≡ (if is_expired q now m then none else Dict.get text_dec q m.tasks))
        × IsManager (gc now m)
  unfolding gc
  gc_lem q now m v =
      let (kept, v') = delete_all_lem (expired_keys m.tasks now m) q m v in
      (
        kept ∙ elim (Bool-cases (present q m.tasks)) [
          | inl p ↦ rw (expired_keys_lem m.tasks q now m, p)
          | inr p ↦
              rw (expired_keys_lem m.tasks q now m, p, get_of_absent m.tasks q p) (ground arith)
        ],
        v',
      )
