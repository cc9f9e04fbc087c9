-- ===== src/Protocol/Proto/ToProto/Tasks.antt =====
-- The tasks and the health checks of ToProto, src/aduib_rpc/utils/grpc_v2_utils.py.
use aduib_rpc.Prelude.{Option, or_empty, map, none, some, traverse}
use mathlib.Core.Option as Opt
use aduib_rpc.Protocol.Messages.{TaskProgress, HealthCheckResponse, TaskMessage, TaskSubmitRequest}
use aduib_rpc.Protocol.Proto.{
  Libraries, ProtoTaskProgress, ProtoTaskRecord, ProtoHealthCheckResponse, ProtoTaskSubmitRequest,
}
use aduib_rpc.Protocol.Wire
use aduib_rpc.Protocol.Wire.{member_value}
use aduib_rpc.Protocol.Wire.Enums.{health_status}
use aduib_rpc.Protocol.Wire.Priority.{priority_value}
use aduib_rpc.Protocol.Wire.Priority as PriorityWire
use aduib_rpc.Tasks.Types.{task_status}
use aduib_rpc.Protocol.Proto.ToProto.{rpc_error, text_entries, fill_struct}

unfoldable pub task_progress : TaskProgress → ProtoTaskProgress
task_progress p = record {
  current = p.current;
  total = p.total;
  message = p.message;
  percentage = p.percentage;
}

module _ {V S P : Type 0} (x : Libraries V S P) where
  -- The result of a task: where it is no value of JSON, its `str`.
  unfoldable pub result_value : Option P → V → Option P
  result_value (some p) v = some p
  result_value none v = x.parse_value (some (x.text_value (x.text_of v)))

  unfoldable pub with_result : TaskMessage V → Option P → ProtoTaskRecord P
  unfolding rpc_error task_progress text_entries
  with_result r result = record {
    task_id = r.task_id;
    parent_task_id = r.parent_task_id;
    status = Wire.to_wire x.lower x.parse_int task_status (member_value r.status);
    priority = PriorityWire.to_wire x.lower x.parse_int (member_value r.priority);
    created_at_ms = r.created_at_ms;
    scheduled_at_ms = r.scheduled_at_ms;
    started_at_ms = r.started_at_ms;
    completed_at_ms = r.completed_at_ms;
    attempt = r.attempt;
    max_attempts = r.max_attempts;
    next_retry_at_ms = r.next_retry_at_ms;
    result = result;
    error = Opt.map (rpc_error x) r.error;
    progress = Opt.map task_progress r.progress;
    metadata = text_entries x (or_empty r.metadata);
    tags = or_empty r.tags;
  }

  unfoldable pub task_record : TaskMessage V → Option (ProtoTaskRecord P)
  unfolding result_value with_result
  task_record r =
      Opt.map (with_result r) (traverse (λ v. result_value (x.parse_value (some v)) v) r.result)

  unfoldable pub health_response : HealthCheckResponse → ProtoHealthCheckResponse
  health_response h = record {
    status = Wire.to_wire x.lower x.parse_int health_status (member_value h.status);
    services =
        map (λ kv. (kv.0, Wire.to_wire x.lower x.parse_int health_status (member_value kv.1)))
          (or_empty h.services);
  }

  -- `task_submit_request`: `Priority.from_proto` gives a member as it is, and protobuf takes the
  -- value of the member for the number of its enumeration.
  unfoldable pub task_submit_request : TaskSubmitRequest V → ProtoTaskSubmitRequest S
  unfolding fill_struct
  task_submit_request t = record {
    target_method = t.target_method;
    params = Opt.map (λ v. fill_struct x v x.empty_struct) t.params;
    priority =
        priority_value (PriorityWire.from_wire x.lower x.parse_int (member_value t.priority));
  }
