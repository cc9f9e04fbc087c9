-- ===== src/Tasks/Types.antt =====
-- src/aduib_rpc/server/tasks/types.py: TaskStatus with its wire numbers, and TaskRecord.
use Prim.Native.String.{String}
use aduib_rpc.Protocol.Wire
use aduib_rpc.Protocol.Wire.{Format, IsFormat, WireValue, int_value}
use aduib_rpc.Prelude.{
  ℕ, Bool, Option, [], false, if◌then◌else◌, leb, pos, refl, true, ℤ, ◌==◌, ◌∷◌, ◌≡◌, arith,
}

pub data TaskStatus : Type 0 where
  pending scheduled running succeeded failed canceled retrying : TaskStatus

-- The numbers of the members, and the member for a number.
unfoldable pub status_number : TaskStatus → ℕ
status_number pending = 1
status_number scheduled = 2
status_number running = 3
status_number succeeded = 4
status_number failed = 5
status_number canceled = 6
status_number retrying = 7

status_of_nat : ℕ → TaskStatus
status_of_nat n =
    if n == 1
    then pending
    else if n == 2
    then scheduled
    else if n == 3
    then running
    else if n == 4
    then succeeded
    else if n == 5
    then failed
    else if n == 6
    then canceled
    else if n == 7
    then retrying
    else pending

-- The tests of `_from_wire` and `_to_wire`.
unfoldable pub task_status : Format TaskStatus
unfolding status_number status_of_nat
task_status = record {
  names =
      ("pending", pending)
      ∷ ("scheduled", scheduled)
      ∷ ("running", running)
      ∷ ("succeeded", succeeded)
      ∷ ("failed", failed)
      ∷ ("canceled", canceled)
      ∷ ("retrying", retrying)
      ∷ [];
  of_number = status_of_nat;
  default = pending;
  number = status_number;
  passes = λ n. leb n 7;
  default_number = 0;
}

from_number : (s : TaskStatus) → status_of_nat (status_number s) ≡ s
unfolding status_of_nat status_number
from_number pending = refl
from_number _ = refl

task_status-IsFormat : IsFormat (λ s. s) task_status
unfolding task_status status_of_nat status_number
task_status-IsFormat = record {
  of_number-number = from_number;
  keep_of_number = λ n. refl;
  others = λ n h. ground arith;
  of_default = refl;
}

-- Python's `str.lower` and `int` of a str are parameters.
module _ (lower : String → String) (parse_int : String → Option ℤ) where
  -- The number that is written for any value at all reads back as the status of that value.
  pub from_wire-to_wire :
      (v : WireValue TaskStatus)
      → Wire.from_wire lower parse_int task_status
          (int_value (pos (Wire.to_wire lower parse_int task_status v)))
        ≡ Wire.from_wire lower parse_int task_status v
  from_wire-to_wire v = Wire.from_wire-to_wire task_status-IsFormat lower parse_int v

pub record RpcError : Type 0 where
  pub code : ℕ
  pub name : String

-- TaskRecord, with the fields that the in-memory manager reads or writes.
pub record TaskRecord (R : Type 0) : Type 0 where
  pub task_id : String
  pub status : TaskStatus
  pub created_at_ms : ℕ
  pub started_at_ms : Option ℕ
  pub completed_at_ms : Option ℕ
  pub result : Option R
  pub error : Option RpcError

abbrev pub terminal : TaskStatus → Bool
terminal succeeded = true
terminal failed = true
terminal canceled = true
terminal _ = false

abbrev pub live : TaskStatus → Bool
live pending = true
live scheduled = true
live running = true
live retrying = true
live _ = false

-- The properties `is_terminal` and `is_active`.
unfoldable pub is_terminal : {R : Type 0} → TaskRecord R → Bool
is_terminal r = terminal r.status

unfoldable pub is_active : {R : Type 0} → TaskRecord R → Bool
is_active r = live r.status

pub data TaskEventName : Type 0 where
  started completed failed_event progress : TaskEventName
