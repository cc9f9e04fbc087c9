-- ===== src/Protocol/Thrift/FromThrift.antt =====
-- FromThrift of src/aduib_rpc/utils/thrift_v2_utils.py. What pydantic's validation raises is `none`.
use aduib_rpc.Prelude.{
  List, Option, false, if◌then◌else◌, map, non_empty, none, or_empty, pos, require, same_text, some,
  text_or, traverse, ◌>>=◌, ◌>>◌,
}
use Prim.Native.String.{String}
use mathlib.Core.Option as Opt
use aduib_rpc.Protocol.Messages.{
  TraceContext, AuthContext, RequestMetadata, ResponseMetadata, DebugInfo, QosConfig, TaskProgress,
  ErrorDetail, RpcError, AduibRpcRequest, AduibRpcResponse, typed, TaskMessage,
}
use aduib_rpc.Protocol.Proto.FromProto.{int_or, default_retry}
use aduib_rpc.Protocol.Thrift.{
  Json, ThriftTraceContext, ThriftAuthContext, ThriftRequestMetadata, ThriftResponseMetadata,
  ThriftErrorDetail, ThriftDebugInfo, ThriftRpcError, ThriftRetryConfig, ThriftQosConfig,
  ThriftRequest, ThriftResponsePayload, ThriftResponse, ThriftTaskProgress, ThriftTaskRecord,
}
use aduib_rpc.Protocol.Wire
use aduib_rpc.Protocol.Wire.{int_value}
use aduib_rpc.Protocol.Wire.Enums.{auth_scheme, response_status}
use aduib_rpc.Protocol.Wire.Priority as PriorityWire
use aduib_rpc.Resilience.RetryPolicy.{RetryPolicy}
use aduib_rpc.Tasks.Types.{task_status}

unfoldable pub response_metadata : ThriftResponseMetadata → ResponseMetadata
response_metadata m = record {
  timestamp_ms = m.timestamp_ms;
  duration_ms = some m.duration_ms;
  server_id = m.server_id;
  server_version = m.server_version;
}

unfoldable pub retry_policy : ThriftRetryConfig → RetryPolicy
unfolding default_retry
retry_policy r = record default_retry {
  max_attempts = int_or r.max_attempts default_retry.max_attempts;
  initial_delay_ms = int_or r.initial_delay_ms default_retry.initial_delay_ms;
  max_delay_ms = int_or r.max_delay_ms default_retry.max_delay_ms;
  backoff_multiplier = int_or r.backoff_multiplier default_retry.backoff_multiplier;
  retryable_codes = non_empty (or_empty r.retryable_codes);
}

unfoldable pub debug_info : ThriftDebugInfo → DebugInfo
debug_info d = record {
  stack_trace = d.stack_trace;
  internal_message = d.internal_message;
  timestamp_ms = d.timestamp_ms;
}

unfoldable pub task_progress : ThriftTaskProgress → TaskProgress
task_progress p = record {
  current = p.current;
  total = p.total;
  message = p.message;
  percentage = p.percentage;
}

module _ {V : Type 0} (x : Json V) where
  unfoldable pub trace_context : ThriftTraceContext → Option TraceContext
  trace_context t = do
    require (x.is_trace_id t.trace_id)
    require (x.is_span_id t.span_id)
    some (record {
      trace_id = t.trace_id;
      span_id = t.span_id;
      parent_span_id = t.parent_span_id;
      sampled = t.sampled;
      baggage = non_empty (or_empty t.baggage);
    })

  unfoldable pub auth_context : ThriftAuthContext → AuthContext
  auth_context a = record {
    scheme = Wire.from_wire x.lower x.parse_int auth_scheme (int_value (pos a.scheme));
    credentials = a.credentials;
    principal = a.principal;
    principal_type = none;
    roles = non_empty (or_empty a.roles);
  }

  unfoldable pub request_metadata : ThriftRequestMetadata → RequestMetadata
  unfolding auth_context
  request_metadata m = record {
    timestamp_ms = m.timestamp_ms;
    client_id = m.client_id;
    client_version = m.client_version;
    auth = Opt.map auth_context m.auth;
    tenant_id = m.tenant_id;
    headers = non_empty (or_empty m.headers);
    long_task = Opt.get_or m.long_task false;
    long_task_method = m.long_task_method;
    long_task_timeout = m.long_task_timeout;
  }

  unfoldable pub qos_config : ThriftQosConfig → QosConfig
  unfolding retry_policy
  qos_config q = record {
    enabled = false;
    priority = PriorityWire.from_wire x.lower x.parse_int (int_value (pos q.priority));
    timeout_ms = q.timeout_ms;
    idempotency_ttl_s = 300;
    retry = Opt.map retry_policy q.retry_config;
    idempotency_key = q.idempotency_key;
  }

  -- `safe_json_loads`, and the same in `request`.
  unfoldable pub safe_json_loads : String → V
  safe_json_loads t = if same_text t "" then x.empty_dict else Opt.get_or (x.loads t) x.empty_dict

  -- The data must be a dict, and `aduib_rpc` the literal "2.0".
  unfoldable pub request : ThriftRequest → Option (AduibRpcRequest V)
  unfolding safe_json_loads trace_context request_metadata qos_config
  request r = do
    trace ← traverse trace_context r.trace_context
    require (same_text (text_or r.aduib_rpc "2.0") "2.0")
    require (x.is_dict (safe_json_loads r.data_json))
    some (record {
      aduib_rpc = text_or r.aduib_rpc "2.0";
      id = some r.id;
      method = r.method;
      name = r.name;
      payload = some (safe_json_loads r.data_json);
      supported_versions = none;
      trace_context = trace;
      metadata = Opt.map request_metadata r.metadata;
      qos = Opt.map (λ q. typed (qos_config q)) r.qos;
      meta = none;
    })

  unfoldable pub value_entries : List (String × String) → List (String × V)
  value_entries m = map (λ kt. (kt.0, x.text_value kt.1)) m

  unfoldable pub error_detail : ThriftErrorDetail → ErrorDetail V
  unfolding value_entries
  error_detail d = record {
    kind = d.kind;
    field = d.field;
    reason = d.reason;
    metadata = non_empty (value_entries (or_empty d.metadata));
  }

  unfoldable pub rpc_error : ThriftRpcError → RpcError V
  unfolding error_detail debug_info
  rpc_error e = record {
    code = e.code;
    name = text_or e.name "UNKNOWN";
    message = e.message;
    details = non_empty (map error_detail (or_empty e.details));
    debug = Opt.map debug_info e.debug;
  }

  -- The payload of a response: its error, if there is one, or else its result.
  unfoldable pub result_unless : Option ThriftRpcError → Option String → Option V
  unfolding safe_json_loads
  result_unless (some e) t = none
  result_unless none t = Opt.map safe_json_loads t

  unfoldable pub payload_result : Option ThriftResponsePayload → Option V
  unfolding result_unless
  payload_result none = none
  payload_result (some p) = result_unless p.error p.result_json

  unfoldable pub payload_error : Option ThriftResponsePayload → Option (RpcError V)
  unfolding rpc_error
  payload_error none = none
  payload_error (some p) = Opt.map rpc_error p.error

  unfoldable pub response : ThriftResponse → Option (AduibRpcResponse V)
  unfolding trace_context payload_result payload_error response_metadata
  response r = do
    trace ← traverse trace_context r.trace_context
    require (same_text (text_or r.aduib_rpc "2.0") "2.0")
    some (record {
      aduib_rpc = text_or r.aduib_rpc "2.0";
      id = some r.id;
      status = Wire.from_wire x.lower x.parse_int response_status (int_value (pos r.status));
      result = payload_result r.payload;
      error = payload_error r.payload;
      negotiated_version = none;
      trace_context = trace;
      metadata = Opt.map (λ m. typed (response_metadata m)) r.metadata;
    })

  unfoldable pub task_record : ThriftTaskRecord → TaskMessage V
  unfolding rpc_error task_progress value_entries safe_json_loads
  task_record r = record {
    task_id = r.task_id;
    parent_task_id = r.parent_task_id;
    status = Wire.from_wire x.lower x.parse_int task_status (int_value (pos r.status));
    priority = PriorityWire.from_wire x.lower x.parse_int (int_value (pos r.priority));
    created_at_ms = r.created_at_ms;
    scheduled_at_ms = r.scheduled_at_ms;
    started_at_ms = r.started_at_ms;
    completed_at_ms = r.completed_at_ms;
    attempt = r.attempt;
    max_attempts = r.max_attempts;
    next_retry_at_ms = r.next_retry_at_ms;
    result = Opt.map safe_json_loads r.result;
    error = Opt.map rpc_error r.error;
    progress = Opt.map task_progress r.progress;
    metadata = non_empty (value_entries (or_empty r.metadata));
    tags = non_empty (or_empty r.tags);
  }
