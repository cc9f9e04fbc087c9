-- ===== src/Protocol/Proto/RoundTrip/TaskMessages.antt =====
-- What the messages of tasks and of health keep on their way through protobuf:
-- src/aduib_rpc/utils/grpc_v2_utils.py.
use aduib_rpc.Prelude.{
  List, Option, [], map, non_empty, none, or_empty, pos, refl, some, traverse, ◌>>=◌, ◌∷◌, ◌≡◌,
  map-map_opt, ℕ, arith, sym, ◌∙◌, ◌≢◌,
}
use Prim.Native.String.{String}
use mathlib.Core.Path.{ap₂}
use mathlib.Core.Option as Opt
use aduib_rpc.Protocol.Messages.{
  TaskMessage, TaskProgress, TaskSubmitRequest, RpcError, HealthCheckResponse,
}
use aduib_rpc.Protocol.Proto.{Libraries}
use aduib_rpc.Protocol.Proto.FromProto
use aduib_rpc.Protocol.Proto.FromProto.Tasks as FromTasks
use aduib_rpc.Protocol.Proto.FromProto.Tasks.{has_field, presence}
use aduib_rpc.Protocol.Proto.ToProto
use aduib_rpc.Protocol.Proto.ToProto.Tasks as ToTasks
use aduib_rpc.Protocol.Proto.ToProto.Tasks.{result_value, with_result}
use aduib_rpc.Protocol.Proto.RoundTrip.{kept_items}
use aduib_rpc.Protocol.Proto.RoundTrip.Responses.{
  kept_error, kept_values, rpc_error_round_trip, values_lem,
}
use aduib_rpc.Protocol.Wire
use aduib_rpc.Protocol.Wire.{member_value, no_value, int_value}
use aduib_rpc.Protocol.Wire.Enums.{HealthStatus, enums_round_trip}
use aduib_rpc.Protocol.Wire.Priority.{
  priority_round_trip, priority_value, Priority, low, normal, high, critical, read_number,
}
use aduib_rpc.Protocol.Wire.Priority as PriorityWire
use aduib_rpc.Protocol.Wire.Enums as WireEnums
use aduib_rpc.Tasks.Types.{from_wire-to_wire}

module _ {V S P : Type 0} (x : Libraries V S P) where
  -- The result of a task as JSON gives it back.
  abbrev pub kept_result : Option P → Option V
  kept_result q = q >>= x.value_to_dict

  abbrev pub kept_task : TaskMessage V → Option P → TaskMessage V
  kept_task r q = record r {
    result = kept_result q;
    error = Opt.map (kept_error x) r.error;
    metadata = kept_values x r.metadata;
    tags = kept_items r.tags;
  }

  progress_part :
      (p : Option TaskProgress)
      → Opt.map FromTasks.task_progress (Opt.map ToTasks.task_progress p) ≡ p
  unfolding FromTasks.task_progress ToTasks.task_progress
  progress_part none = refl
  progress_part (some p) = refl

  error_part :
      (e : Option (RpcError V))
      → Opt.map (FromProto.rpc_error x) (Opt.map (ToProto.rpc_error x) e) ≡ Opt.map (kept_error x) e
  error_part e = map-map_opt _ _ _ (rpc_error_round_trip x) e

  with_result_lem :
      (r : TaskMessage V) (q : Option P)
      → FromTasks.task_record x (with_result x r q) ≡ kept_task r q
  unfolding FromTasks.task_record with_result Wire.from_wire
  with_result_lem r q = λ i. record (kept_task r q) {
    status = from_wire-to_wire x.lower x.parse_int (member_value r.status) i;
    priority = priority_round_trip x.lower x.parse_int (member_value r.priority) i;
    error = error_part r.error i;
    progress = progress_part r.progress i;
    metadata = non_empty (values_lem x (or_empty r.metadata) i);
  }

  -- A task record arrives with everything but its result as it was, up to texts for the values of
  -- metadata; its result arrives as JSON gives it back, or that of its `str` where it is no value of
  -- JSON. It fails to be sent only where that is no value either.
  pub task_record_round_trip :
      (r : TaskMessage V)
      → Opt.map (FromTasks.task_record x) (ToTasks.task_record x r)
        ≡ Opt.map (kept_task r) (traverse (λ v. result_value x (x.parse_value (some v)) v) r.result)
  unfolding ToTasks.task_record
  task_record_round_trip r =
      map-map_opt _ _ _ (with_result_lem r)
        (traverse (λ v. result_value x (x.parse_value (some v)) v) r.result)

  services_part :
      (m : List (String × HealthStatus))
      → map
          (λ (kn : String × ℕ). (
            kn.0,
            Wire.from_wire x.lower x.parse_int WireEnums.health_status (int_value (pos kn.1)),
          ))
          (map
            (λ (kv : String × HealthStatus).
              (kv.0, Wire.to_wire x.lower x.parse_int WireEnums.health_status (member_value kv.1)))
            m)
        ≡ m
  unfolding Wire.from_wire
  services_part [] = refl
  services_part ((k, s) ∷ m) =
      ap₂ (λ s m. (k, s) ∷ m)
        (enums_round_trip x.lower x.parse_int no_value (member_value s) no_value).1
        (services_part m)

  -- The answer of a health check arrives as it was, but for an empty list of services, which is
  -- read as None.
  pub health_response_round_trip :
      (h : HealthCheckResponse)
      → FromTasks.health_response x (ToTasks.health_response x h)
        ≡ record h { services = kept_items h.services }
  unfolding FromTasks.health_response ToTasks.health_response Wire.from_wire
  health_response_round_trip h = λ i. record h {
    status = (enums_round_trip x.lower x.parse_int no_value (member_value h.status) no_value).1 i;
    services = non_empty (services_part (or_empty h.services) i);
  }

  lowered : Priority → Priority
  lowered low = normal
  lowered normal = low
  lowered high = normal
  lowered critical = high

  lowered_lem :
      (p : Priority)
      → PriorityWire.from_wire x.lower x.parse_int (int_value (pos (priority_value p))) ≡ lowered p
  unfolding PriorityWire.from_wire priority_value lowered read_number
  lowered_lem low = refl
  lowered_lem _ = refl

  lowered-ne : (p : Priority) → lowered p ≢ p
  unfolding lowered
  lowered-ne low h = ground arith
  lowered-ne normal h = ground arith
  lowered-ne high h = ground arith
  lowered-ne critical h = ground arith

  -- A task that is submitted through protobuf does not arrive: reading the submission asks for a
  -- field that its message does not have, which raises. Its priority is not the one that was
  -- submitted either: the number that is written stands for another one.
  pub task_submit_request_lost :
      (t : TaskSubmitRequest V)
      → (FromTasks.task_submit_request x (ToTasks.task_submit_request x t) ≡ none)
        × (PriorityWire.from_wire x.lower x.parse_int
              (int_value (pos (ToTasks.task_submit_request x t).priority))
            ≢ t.priority)
  unfolding FromTasks.task_submit_request ToTasks.task_submit_request has_field presence
      PriorityWire.from_wire
  task_submit_request_lost t = (refl, λ e. lowered-ne t.priority (sym (lowered_lem t.priority) ∙ e))
