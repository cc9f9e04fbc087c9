-- ===== src/Protocol/Thrift/ToThrift.antt =====
-- ToThrift of src/aduib_rpc/utils/thrift_v2_utils.py. `none` is the exception of an attribute that is
-- missing. The generated classes take every number.
use aduib_rpc.Prelude.{
  List, Option, [], if◌then◌else◌, map, non_empty, none, or_empty, some, text_or, traverse,
}
use Prim.Native.String.{String}
use mathlib.Core.Option as Opt
use aduib_rpc.Protocol.Messages.{
  TraceContext, AuthContext, RequestMetadata, ResponseMetadata, DebugInfo, QosConfig, TaskProgress,
  ErrorDetail, RpcError, AduibRpcRequest, AduibRpcResponse, TaskMessage, is_success, typed_of,
}
use aduib_rpc.Protocol.Thrift.{
  Json, ThriftTraceContext, ThriftAuthContext, ThriftRequestMetadata, ThriftResponseMetadata,
  ThriftErrorDetail, ThriftDebugInfo, ThriftRpcError, ThriftRetryConfig, ThriftQosConfig,
  ThriftRequest, ThriftResponsePayload, ThriftResponse, ThriftTaskProgress, ThriftTaskRecord,
}
use aduib_rpc.Protocol.Wire
use aduib_rpc.Protocol.Wire.{member_value}
use aduib_rpc.Protocol.Wire.Enums.{auth_scheme, response_status}
use aduib_rpc.Protocol.Wire.Priority as PriorityWire
use aduib_rpc.Resilience.RetryPolicy.{RetryPolicy}
use aduib_rpc.Tasks.Types.{task_status}

unfoldable pub trace_context : TraceContext → ThriftTraceContext
trace_context t = record {
  trace_id = t.trace_id;
  span_id = t.span_id;
  parent_span_id = t.parent_span_id;
  sampled = t.sampled;
  baggage = some (or_empty t.baggage);
}

unfoldable pub response_metadata : ResponseMetadata → ThriftResponseMetadata
response_metadata m = record {
  timestamp_ms = m.timestamp_ms;
  duration_ms = Opt.get_or m.duration_ms 0;
  server_id = m.server_id;
  server_version = m.server_version;
}

unfoldable pub retry_config : RetryPolicy → ThriftRetryConfig
retry_config r = record {
  max_attempts = r.max_attempts;
  initial_delay_ms = r.initial_delay_ms;
  max_delay_ms = r.max_delay_ms;
  backoff_multiplier = r.backoff_multiplier;
  retryable_codes = non_empty (or_empty r.retryable_codes);
}

unfoldable pub task_progress : TaskProgress → ThriftTaskProgress
task_progress p = record {
  current = p.current;
  total = p.total;
  message = p.message;
  percentage = p.percentage;
}

-- What `error_detail` and `debug_info` may be given: a model, or the dict that `model_dump` of an
-- error makes of it. A dict has no attributes, so that each `getattr` of it is the default.
pub data Given (A : Type 0) : Type 0 where
  model : A → Given A
  dumped_dict : A → Given A

unfoldable pub debug_info : Given DebugInfo → ThriftDebugInfo
debug_info (model d) = record {
  stack_trace = d.stack_trace;
  internal_message = d.internal_message;
  timestamp_ms = d.timestamp_ms;
}
debug_info (dumped_dict d) = record {
  stack_trace = none;
  internal_message = none;
  timestamp_ms = 0;
}

module _ {V : Type 0} (x : Json V) where
  unfoldable pub json_dumps_safe : Option V → String
  json_dumps_safe v = Opt.get_or (x.dumps v) x.unserializable

  unfoldable pub auth_context : AuthContext → ThriftAuthContext
  auth_context a = record {
    scheme = Wire.to_wire x.lower x.parse_int auth_scheme (member_value a.scheme);
    credentials = a.credentials;
    principal = a.principal;
    roles = non_empty (or_empty a.roles);
  }

  unfoldable pub request_metadata : RequestMetadata → ThriftRequestMetadata
  unfolding auth_context
  request_metadata m = record {
    timestamp_ms = m.timestamp_ms;
    client_id = m.client_id;
    client_version = m.client_version;
    auth = Opt.map auth_context m.auth;
    tenant_id = m.tenant_id;
    headers = non_empty (or_empty m.headers);
    long_task = some m.long_task;
    long_task_method = m.long_task_method;
    long_task_timeout = m.long_task_timeout;
  }

  unfoldable pub qos_config : QosConfig → ThriftQosConfig
  unfolding retry_config
  qos_config q = record {
    priority = PriorityWire.to_wire x.lower x.parse_int (member_value q.priority);
    timeout_ms = q.timeout_ms;
    retry_config = Opt.map retry_config q.retry;
    idempotency_key = q.idempotency_key;
  }

  -- `request`: the data is a dict, so that one that is false is the empty one.
  unfoldable pub request_with : AduibRpcRequest V → Option QosConfig → ThriftRequest
  unfolding json_dumps_safe trace_context request_metadata qos_config
  request_with r qos = record {
    aduib_rpc = text_or r.aduib_rpc "2.0";
    id = Opt.get_or r.id "";
    method = r.method;
    name = r.name;
    data_json = text_or (json_dumps_safe (some (Opt.get_or r.payload x.empty_dict))) "{}";
    trace_context = Opt.map trace_context r.trace_context;
    metadata = Opt.map request_metadata r.metadata;
    qos = Opt.map qos_config qos;
  }

  unfoldable pub request : AduibRpcRequest V → Option ThriftRequest
  unfolding request_with typed_of
  request r = Opt.map (request_with r) (traverse typed_of r.qos)

  unfoldable pub coerce_str_map : List (String × V) → List (String × String)
  coerce_str_map m = map (λ kv. (kv.0, x.text_of kv.1)) m

  unfoldable pub error_detail : Given (ErrorDetail V) → ThriftErrorDetail
  unfolding coerce_str_map
  error_detail (model d) = record {
    kind = d.kind;
    field = d.field;
    reason = d.reason;
    metadata = some (coerce_str_map (or_empty d.metadata));
  }
  error_detail (dumped_dict d) = record { kind = ""; field = none; reason = ""; metadata = some [] }

  -- `rpc_error`, which dumps the error with its details and its debug information first.
  unfoldable pub rpc_error : RpcError V → ThriftRpcError
  unfolding error_detail debug_info
  rpc_error e = record {
    code = e.code;
    name = e.name;
    message = e.message;
    details = non_empty (map (λ d. error_detail (dumped_dict d)) (or_empty e.details));
    debug = Opt.map (λ d. debug_info (dumped_dict d)) e.debug;
  }

  unfoldable pub unknown_error : RpcError V
  unknown_error = record { code = 0; name = "UNKNOWN"; message = ""; details = none; debug = none }

  unfoldable pub response_payload : AduibRpcResponse V → ThriftResponsePayload
  unfolding json_dumps_safe rpc_error unknown_error
  response_payload r =
      if is_success r
      then record { result_json = some (json_dumps_safe r.result); error = none }
      else record {
        result_json = none;
        error = some (rpc_error (Opt.get_or r.error unknown_error));
      }

  -- `response_to_thrift`, for the generated class of responses.
  unfoldable pub response_with : AduibRpcResponse V → Option ResponseMetadata → ThriftResponse
  unfolding response_payload trace_context response_metadata
  response_with r metadata = record {
    aduib_rpc = r.aduib_rpc;
    id = Opt.get_or r.id "";
    status = Wire.to_wire x.lower x.parse_int response_status (member_value r.status);
    payload = some (response_payload r);
    trace_context = Opt.map trace_context r.trace_context;
    metadata = Opt.map response_metadata metadata;
  }

  unfoldable pub response_to_thrift : AduibRpcResponse V → Option ThriftResponse
  unfolding response_with typed_of
  response_to_thrift r = Opt.map (response_with r) (traverse typed_of r.metadata)

  unfoldable pub task_record : TaskMessage V → ThriftTaskRecord
  unfolding json_dumps_safe rpc_error task_progress coerce_str_map
  task_record r = record {
    task_id = r.task_id;
    parent_task_id = r.parent_task_id;
    status = Wire.to_wire x.lower x.parse_int task_status (member_value r.status);
    priority = PriorityWire.to_wire x.lower x.parse_int (member_value r.priority);
    created_at_ms = r.created_at_ms;
    scheduled_at_ms = r.scheduled_at_ms;
    started_at_ms = r.started_at_ms;
    completed_at_ms = r.completed_at_ms;
    attempt = r.attempt;
    max_attempts = r.max_attempts;
    next_retry_at_ms = r.next_retry_at_ms;
    result = Opt.map (λ v. json_dumps_safe (some v)) r.result;
    error = Opt.map rpc_error r.error;
    progress = Opt.map task_progress r.progress;
    metadata = non_empty (coerce_str_map (or_empty r.metadata));
    tags = non_empty (or_empty r.tags);
  }
