-- ===== src/Tests/Proto.antt =====
-- src/aduib_rpc/utils/grpc_v2_utils.py on concrete messages, whose values are texts.
use aduib_rpc.Prelude.{
  [], false, none, pos, refl, some, true, ◌==◌, if◌then◌else◌, ◌>>=◌, ◌∷◌, ◌≡◌, ◌≢◌,
}
use Prim.Native.String.{String, len}
use mathlib.Core.Option as Opt
use aduib_rpc.Protocol.Messages.{
  AduibRpcRequest, AduibRpcResponse, TaskMessage, TaskSubmitRequest, TraceContext, RpcError, typed,
  is_success,
}
use aduib_rpc.Protocol.Proto.{Libraries}
use aduib_rpc.Protocol.Proto.FromProto
use aduib_rpc.Protocol.Proto.FromProto.Tasks as FromTasks
use aduib_rpc.Protocol.Proto.ToProto
use aduib_rpc.Protocol.Proto.ToProto.Tasks as ToTasks
use aduib_rpc.Protocol.Proto.Sendable.{is_sendable, response_sendable, error_sendable}
use aduib_rpc.Protocol.Proto.RoundTrip.Responses.{kept_response, response_round_trip}
use aduib_rpc.Protocol.Proto.RoundTrip.TaskMessages.{task_submit_request_lost}
use aduib_rpc.Protocol.Wire.{int_value}
use aduib_rpc.Protocol.Wire.Enums.{bearer, partial}
use aduib_rpc.Protocol.Wire.Priority as PriorityWire
use aduib_rpc.Protocol.Wire.Priority.{high}
use aduib_rpc.Tasks.Types.{succeeded}

-- A library whose values, structs and parsed values are all texts.
abbrev texts : Libraries String String String
texts = record {
  empty_struct = "";
  parse_dict = λ v s. (v, true);
  update = λ v s. (s, false);
  set_items = λ v s. s;
  parse_value = λ v. some (Opt.get_or v "null");
  struct_to_dict = λ s. s;
  value_to_dict = λ p. some p;
  text_of = λ v. v;
  text_value = λ t. t;
  wrapped = λ v. v;
  is_dict = λ v. true;
  lower = λ t. t;
  parse_int = λ t. none;
  is_trace_id = λ t. len t == 32;
  is_span_id = λ t. len t == 16;
}

abbrev trace : TraceContext
trace = record {
  trace_id = "0123456789abcdef0123456789abcdef";
  span_id = "0123456789abcdef";
  parent_span_id = none;
  sampled = true;
  baggage = some [];
}

abbrev call : AduibRpcRequest String
call = record {
  aduib_rpc = "2.0";
  id = none;
  method = "rpc.v2/users/get";
  name = none;
  payload = some "{}";
  supported_versions = some ("2.0" ∷ []);
  trace_context = some trace;
  metadata = some (record {
    timestamp_ms = 5;
    client_id = some "c";
    client_version = none;
    auth = some (record {
      scheme = bearer;
      credentials = some "secret";
      principal = some "alice";
      principal_type = some "service";
      roles = some [];
    });
    tenant_id = none;
    headers = none;
    long_task = false;
    long_task_method = none;
    long_task_timeout = none;
  });
  qos = some (
      typed (record {
        enabled = true;
        priority = high;
        timeout_ms = some 100;
        idempotency_ttl_s = 9;
        retry = none;
        idempotency_key = some "k";
      }));
  meta = none;
}

abbrev answer : AduibRpcResponse String
answer = record {
  aduib_rpc = "2.0";
  id = some "1";
  status = partial;
  result = some "half";
  error = none;
  negotiated_version = none;
  trace_context = none;
  metadata = none;
}

response_round_trip_example :
    (ToProto.response texts answer >>= FromProto.response texts)
    ≡ (if response_sendable answer then kept_response texts answer else none)
response_round_trip_example = response_round_trip texts answer refl tt

-- The request is sent.
call_sendable : is_sendable call ≡ true
unfolding is_sendable
call_sendable = refl

answer_sendable : response_sendable answer ≡ true
unfolding response_sendable is_success error_sendable
answer_sendable = refl

-- Nothing of a partial result is left.
partial_lost : Opt.map (λ r. r.result) (kept_response texts answer) ≡ some none
unfolding is_success
partial_lost = refl

abbrev failure : RpcError String
failure = record { code = 5000; name = ""; message = "m"; details = some []; debug = none }

abbrev done : TaskMessage String
done = record {
  task_id = "t";
  parent_task_id = none;
  status = succeeded;
  priority = high;
  created_at_ms = 1;
  scheduled_at_ms = none;
  started_at_ms = some 2;
  completed_at_ms = some 3;
  attempt = 1;
  max_attempts = 3;
  next_retry_at_ms = none;
  result = some "42";
  error = none;
  progress = none;
  metadata = none;
  tags = some ("a" ∷ []);
}

abbrev submission : TaskSubmitRequest String
submission = record { target_method = "users.export"; params = none; priority = high }

task_submit_request_lost_example :
    (FromTasks.task_submit_request texts (ToTasks.task_submit_request texts submission) ≡ none)
    × (PriorityWire.from_wire texts.lower texts.parse_int
          (int_value (pos (ToTasks.task_submit_request texts submission).priority))
        ≢ submission.priority)
task_submit_request_lost_example = task_submit_request_lost texts submission
