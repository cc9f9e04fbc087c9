-- ===== src/Protocol/Proto/FromProto/Tasks.antt =====
-- The tasks and the health checks of FromProto, src/aduib_rpc/utils/grpc_v2_utils.py.
use aduib_rpc.Prelude.{
  ◌>>=◌, Bool, List, Option, [], false, if◌then◌else◌, map, non_empty, none, pos, same_text, some,
  true, ◌∷◌,
}
use Prim.Native.String.{String}
use mathlib.Core.Option as Opt
use aduib_rpc.Protocol.Messages.{TaskProgress, HealthCheckResponse, TaskMessage, TaskSubmitRequest}
use aduib_rpc.Protocol.Proto.{
  Libraries, ProtoTaskProgress, ProtoTaskRecord, ProtoHealthCheckResponse, ProtoTaskSubmitRequest,
}
use aduib_rpc.Protocol.Wire
use aduib_rpc.Protocol.Wire.{int_value}
use aduib_rpc.Protocol.Wire.Enums.{health_status}
use aduib_rpc.Protocol.Wire.Priority as PriorityWire
use aduib_rpc.Tasks.Types.{task_status}
use aduib_rpc.Protocol.Proto.FromProto.{rpc_error, value_entries}

unfoldable pub task_progress : ProtoTaskProgress → TaskProgress
task_progress p = record {
  current = p.current;
  total = p.total;
  message = p.message;
  percentage = p.percentage;
}

-- `HasField` of a name, among the fields that tell whether they are there: of any other name it
-- raises ValueError.
unfoldable pub has_field : String → List (String × Bool) → Option Bool
has_field name [] = none
has_field name ((f, there) ∷ fs) = if same_text name f then some there else has_field name fs

is_there : {A : Type 0} → Option A → Bool
is_there none = false
is_there (some a) = true

module _ {V S P : Type 0} (x : Libraries V S P) where
  unfoldable pub task_record : ProtoTaskRecord P → TaskMessage V
  unfolding rpc_error task_progress value_entries
  task_record r = record {
    task_id = r.task_id;
    parent_task_id = r.parent_task_id;
    status = Wire.from_wire x.lower x.parse_int task_status (int_value (pos r.status));
    priority = PriorityWire.from_wire x.lower x.parse_int (int_value (pos r.priority));
    created_at_ms = r.created_at_ms;
    scheduled_at_ms = r.scheduled_at_ms;
    started_at_ms = r.started_at_ms;
    completed_at_ms = r.completed_at_ms;
    attempt = r.attempt;
    max_attempts = r.max_attempts;
    next_retry_at_ms = r.next_retry_at_ms;
    result = r.result >>= x.value_to_dict;
    error = Opt.map (rpc_error x) r.error;
    progress = Opt.map task_progress r.progress;
    metadata = non_empty (value_entries x r.metadata);
    tags = non_empty r.tags;
  }

  unfoldable pub health_response : ProtoHealthCheckResponse → HealthCheckResponse
  health_response h = record {
    status = Wire.from_wire x.lower x.parse_int health_status (int_value (pos h.status));
    services = non_empty (
        map (λ kn. (kn.0, Wire.from_wire x.lower x.parse_int health_status (int_value (pos kn.1))))
          h.services);
  }

  -- `task_submit_request`: it asks for `timeout_ms`, `scheduled_at_ms` and `idempotency_key` too,
  -- which the message does not have, and reads its `metadata`. The fields that tell whether they
  -- are there are those of the message: only `params`.
  unfoldable pub presence : ProtoTaskSubmitRequest S → List (String × Bool)
  unfolding is_there
  presence t = ("params", is_there t.params) ∷ []

  unfoldable pub task_submit_request : ProtoTaskSubmitRequest S → Option (TaskSubmitRequest V)
  unfolding has_field presence
  task_submit_request t = do
    params ← has_field "params" (presence t)
    timeout ← has_field "timeout_ms" (presence t)
    scheduled ← has_field "scheduled_at_ms" (presence t)
    key ← has_field "idempotency_key" (presence t)
    some (record {
      target_method = t.target_method;
      params = if params then Opt.map x.struct_to_dict t.params else none;
      priority = PriorityWire.from_wire x.lower x.parse_int (int_value (pos t.priority));
    })
