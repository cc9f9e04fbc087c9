-- ===== src/Protocol/Proto/FromProto.antt =====
-- FromProto of src/aduib_rpc/utils/grpc_v2_utils.py. What pydantic's validation or a message's
-- HasField raises is `none`.
pub mod Tasks
use aduib_rpc.Prelude.{
  ◌>>=◌, List, Option, false, if◌then◌else◌, map, negsuc, non_empty, none, pos, require, same_text,
  some, text_or, traverse, true, ℤ, ◌==◌, ◌>>=◌, ◌>>◌,
}
use Prim.Native.String.{String}
use mathlib.Core.Option as Opt
use aduib_rpc.Protocol.Messages.{
  TraceContext, AuthContext, RequestMetadata, ResponseMetadata, DebugInfo, QosConfig, ErrorDetail,
  RpcError, AduibRpcRequest, AduibRpcResponse, typed,
}
use aduib_rpc.Protocol.Proto.{
  Libraries, ProtoTraceContext, ProtoAuthContext, ProtoRequestMetadata, ProtoResponseMetadata,
  ProtoErrorDetail, ProtoDebugInfo, ProtoRpcError, ProtoRetryConfig, ProtoQosConfig, ProtoRequest,
  Payload, result_payload, error_payload, no_payload, ProtoResponse,
}
use aduib_rpc.Protocol.Wire
use aduib_rpc.Protocol.Wire.{int_value}
use aduib_rpc.Protocol.Wire.Enums.{auth_scheme, response_status}
use aduib_rpc.Protocol.Wire.Priority as PriorityWire
use aduib_rpc.Resilience.RetryPolicy.{RetryPolicy, exponential}

unfoldable pub response_metadata : ProtoResponseMetadata → ResponseMetadata
response_metadata m = record {
  timestamp_ms = m.timestamp_ms;
  duration_ms = some m.duration_ms;
  server_id = m.server_id;
  server_version = m.server_version;
}

-- `RetryPolicy()`, with its jitter in thousandths.
unfoldable pub default_retry : RetryPolicy
default_retry = record {
  max_attempts = pos 3;
  strategy = exponential;
  initial_delay_ms = pos 100;
  max_delay_ms = pos 10000;
  backoff_multiplier = pos 2;
  jitter = pos 100;
  retryable_codes = none;
  respect_circuit_breaker = true;
}

-- `n or d`.
abbrev pub int_or : ℤ → ℤ → ℤ
int_or (pos n) d = if n == 0 then d else pos n
int_or (negsuc n) d = negsuc n

unfoldable pub retry_policy : ProtoRetryConfig → RetryPolicy
unfolding default_retry
retry_policy r = record default_retry {
  max_attempts = int_or r.max_attempts default_retry.max_attempts;
  initial_delay_ms = int_or r.initial_delay_ms default_retry.initial_delay_ms;
  max_delay_ms = int_or r.max_delay_ms default_retry.max_delay_ms;
  backoff_multiplier = int_or r.backoff_multiplier default_retry.backoff_multiplier;
  retryable_codes = non_empty r.retryable_codes;
}

unfoldable pub debug_info : ProtoDebugInfo → DebugInfo
debug_info d = record {
  stack_trace = d.stack_trace;
  internal_message = d.internal_message;
  timestamp_ms = d.timestamp_ms;
}

module _ {V S P : Type 0} (x : Libraries V S P) where
  unfoldable pub trace_context : ProtoTraceContext → Option TraceContext
  trace_context t = do
    require (x.is_trace_id t.trace_id)
    require (x.is_span_id t.span_id)
    some (record {
      trace_id = t.trace_id;
      span_id = t.span_id;
      parent_span_id = t.parent_span_id;
      sampled = t.sampled;
      baggage = non_empty t.baggage;
    })

  unfoldable pub auth_context : ProtoAuthContext → AuthContext
  auth_context a = record {
    scheme = Wire.from_wire x.lower x.parse_int auth_scheme (int_value (pos a.scheme));
    credentials = a.credentials;
    principal = a.principal;
    principal_type = none;
    roles = non_empty a.roles;
  }

  unfoldable pub request_metadata : ProtoRequestMetadata → RequestMetadata
  unfolding auth_context
  request_metadata m = record {
    timestamp_ms = m.timestamp_ms;
    client_id = m.client_id;
    client_version = m.client_version;
    auth = Opt.map auth_context m.auth;
    tenant_id = m.tenant_id;
    headers = non_empty m.headers;
    long_task = Opt.get_or m.long_task false;
    long_task_method = m.long_task_method;
    long_task_timeout = m.long_task_timeout;
  }

  -- `QosConfig(...)` with what is read; `enabled` and the time to live keep their defaults.
  unfoldable pub qos_config : ProtoQosConfig → QosConfig
  unfolding retry_policy
  qos_config q = record {
    enabled = false;
    priority = PriorityWire.from_wire x.lower x.parse_int (int_value (pos q.priority));
    timeout_ms = q.timeout_ms;
    idempotency_ttl_s = 300;
    retry = Opt.map retry_policy q.retry;
    idempotency_key = q.idempotency_key;
  }

  -- `aduib_rpc` must be the literal "2.0".
  unfoldable pub request : ProtoRequest S → Option (AduibRpcRequest V)
  unfolding trace_context request_metadata qos_config
  request r = do
    trace ← traverse trace_context r.trace_context
    require (same_text r.aduib_rpc "2.0")
    some (record {
      aduib_rpc = r.aduib_rpc;
      id = some r.id;
      method = r.method;
      name = r.name;
      payload = Opt.map x.struct_to_dict r.payload;
      supported_versions = none;
      trace_context = trace;
      metadata = Opt.map request_metadata r.metadata;
      qos = Opt.map (λ q. typed (qos_config q)) r.qos;
      meta = none;
    })

  unfoldable pub value_entries : List (String × String) → List (String × V)
  value_entries m = map (λ kt. (kt.0, x.text_value kt.1)) m

  unfoldable pub error_detail : ProtoErrorDetail → ErrorDetail V
  unfolding value_entries
  error_detail d = record {
    kind = d.kind;
    field = d.field;
    reason = d.reason;
    metadata = non_empty (value_entries d.metadata);
  }

  unfoldable pub rpc_error : ProtoRpcError → RpcError V
  unfolding error_detail debug_info
  rpc_error e = record {
    code = e.code;
    name = text_or e.name "UNKNOWN";
    message = e.message;
    details = non_empty (map error_detail e.details);
    debug = Opt.map debug_info e.debug;
  }

  unfoldable pub payload_result : Payload P → Option V
  payload_result (result_payload p) = x.value_to_dict p
  payload_result (error_payload e) = none
  payload_result no_payload = none

  unfoldable pub payload_error : Payload P → Option (RpcError V)
  unfolding rpc_error
  payload_error (result_payload p) = none
  payload_error (error_payload e) = some (rpc_error e)
  payload_error no_payload = none

  unfoldable pub response : ProtoResponse P → Option (AduibRpcResponse V)
  unfolding trace_context payload_result payload_error response_metadata
  response r = do
    trace ← traverse trace_context r.trace_context
    require (same_text (text_or r.aduib_rpc "2.0") "2.0")
    some (record {
      aduib_rpc = text_or r.aduib_rpc "2.0";
      id = some r.id;
      status = Wire.from_wire x.lower x.parse_int response_status (int_value (pos r.status));
      result = payload_result r.payload;
      error = payload_error r.payload;
      negotiated_version = none;
      trace_context = trace;
      metadata = Opt.map (λ m. typed (response_metadata m)) r.metadata;
    })
