-- ===== src/Protocol/Proto/ToProto.antt =====
-- ToProto of src/aduib_rpc/utils/grpc_v2_utils.py. `none` is an exception: of ParseDict, of an
-- attribute that is missing, or of a number out of the range of its field.
pub mod Tasks
use aduib_rpc.Prelude.{
  Bool, List, Option, [], or_empty, false, if◌then◌else◌, map, none, some, text_or, true, traverse,
  ◌>>=◌,
}
use Prim.Native.String.{String}
use mathlib.Core.Option as Opt
use aduib_rpc.Protocol.Messages.{
  TraceContext, AuthContext, RequestMetadata, ResponseMetadata, DebugInfo, QosConfig, ErrorDetail,
  RpcError, AduibRpcRequest, AduibRpcResponse, is_success, typed_of,
}
use aduib_rpc.Protocol.Proto.{
  Libraries, ProtoTraceContext, ProtoAuthContext, ProtoRequestMetadata, ProtoResponseMetadata,
  ProtoErrorDetail, ProtoDebugInfo, ProtoRpcError, ProtoRetryConfig, ProtoQosConfig, ProtoRequest,
  Payload, result_payload, error_payload, no_payload, ProtoResponse,
}
use aduib_rpc.Protocol.Proto.Ranges.{in_range, request_fits, response_fits}
use aduib_rpc.Protocol.Wire
use aduib_rpc.Protocol.Wire.{member_value}
use aduib_rpc.Protocol.Wire.Enums.{auth_scheme, response_status}
use aduib_rpc.Protocol.Wire.Priority as PriorityWire
use aduib_rpc.Resilience.RetryPolicy.{RetryPolicy}

unfoldable pub trace_context : TraceContext → ProtoTraceContext
trace_context t = record {
  trace_id = t.trace_id;
  span_id = t.span_id;
  parent_span_id = t.parent_span_id;
  sampled = t.sampled;
  baggage = or_empty t.baggage;
}

unfoldable pub response_metadata : ResponseMetadata → ProtoResponseMetadata
response_metadata m = record {
  timestamp_ms = m.timestamp_ms;
  duration_ms = Opt.get_or m.duration_ms 0;
  server_id = m.server_id;
  server_version = m.server_version;
}

unfoldable pub retry_config : RetryPolicy → ProtoRetryConfig
retry_config r = record {
  max_attempts = r.max_attempts;
  initial_delay_ms = r.initial_delay_ms;
  max_delay_ms = r.max_delay_ms;
  backoff_multiplier = r.backoff_multiplier;
  retryable_codes = or_empty r.retryable_codes;
}

unfoldable pub debug_info : DebugInfo → ProtoDebugInfo
debug_info d = record {
  stack_trace = d.stack_trace;
  internal_message = d.internal_message;
  timestamp_ms = d.timestamp_ms;
}

-- A step of `_fill_struct` that did not raise ends it.
unless_done : {S : Type 0} → S × Bool → (S → S) → S
unless_done (s, true) next = s
unless_done (s, false) next = next s

module _ {V S P : Type 0} (x : Libraries V S P) where
  unfoldable pub auth_context : AuthContext → ProtoAuthContext
  auth_context a = record {
    scheme = Wire.to_wire x.lower x.parse_int auth_scheme (member_value a.scheme);
    credentials = a.credentials;
    principal = a.principal;
    roles = or_empty a.roles;
  }

  unfoldable pub request_metadata : RequestMetadata → ProtoRequestMetadata
  unfolding auth_context
  request_metadata m = record {
    timestamp_ms = m.timestamp_ms;
    client_id = m.client_id;
    client_version = m.client_version;
    auth = Opt.map auth_context m.auth;
    tenant_id = m.tenant_id;
    headers = or_empty m.headers;
    long_task = some m.long_task;
    long_task_method = m.long_task_method;
    long_task_timeout = m.long_task_timeout;
  }

  unfoldable pub qos_config : QosConfig → ProtoQosConfig
  unfolding retry_config
  qos_config q = record {
    priority = PriorityWire.to_wire x.lower x.parse_int (member_value q.priority);
    timeout_ms = q.timeout_ms;
    retry = Opt.map retry_config q.retry;
    idempotency_key = q.idempotency_key;
  }

  -- `_fill_struct`: the payload as it is, or else `{"value": payload}`, by three methods in turn.
  fill_by_methods : V → S → S
  unfolding unless_done
  fill_by_methods v s =
      unless_done (x.parse_dict v s) (λ s. unless_done (x.update v s) (x.set_items v))

  unfoldable pub fill_struct : V → S → S
  unfolding fill_by_methods unless_done
  fill_struct v s =
      if x.is_dict v
      then fill_by_methods v s
      else unless_done (x.parse_dict v s) (fill_by_methods (x.wrapped v))

  -- The message of a request with its QoS settings.
  unfoldable pub request_with : AduibRpcRequest V → Option QosConfig → ProtoRequest S
  unfolding fill_struct trace_context request_metadata qos_config
  request_with r qos = record {
    aduib_rpc = text_or r.aduib_rpc "2.0";
    id = Opt.get_or r.id "";
    method = r.method;
    name = r.name;
    payload = Opt.map (λ v. fill_struct v x.empty_struct) r.payload;
    trace_context = Opt.map trace_context r.trace_context;
    metadata = Opt.map request_metadata r.metadata;
    qos = Opt.map qos_config qos;
  }

  unfoldable pub request : AduibRpcRequest V → Option (ProtoRequest S)
  unfolding request_with request_fits in_range typed_of
  request r = traverse typed_of r.qos >>= λ qos. in_range request_fits (request_with r qos)

  -- The error of `response`: its code, name and message.
  unfoldable pub bare_error : Option (RpcError V) → Payload P
  bare_error none = no_payload
  bare_error (some e) =
      error_payload
        (record { code = e.code; name = e.name; message = e.message; details = []; debug = none })

  unfoldable pub response_payload : AduibRpcResponse V → Option (Payload P)
  unfolding bare_error is_success
  response_payload r =
      if is_success r
      then Opt.map result_payload (x.parse_value r.result)
      else some (bare_error r.error)

  unfoldable pub with_payload :
      AduibRpcResponse V → Payload P → Option ResponseMetadata → ProtoResponse P
  unfolding trace_context response_metadata
  with_payload r p metadata = record {
    aduib_rpc = r.aduib_rpc;
    id = Opt.get_or r.id "";
    status = Wire.to_wire x.lower x.parse_int response_status (member_value r.status);
    payload = p;
    trace_context = Opt.map trace_context r.trace_context;
    metadata = Opt.map response_metadata metadata;
  }

  unfoldable pub response : AduibRpcResponse V → Option (ProtoResponse P)
  unfolding response_payload with_payload response_fits in_range typed_of
  response r = do
    payload ← response_payload r
    metadata ← traverse typed_of r.metadata
    in_range response_fits (with_payload r payload metadata)

  unfoldable pub text_entries : List (String × V) → List (String × String)
  text_entries m = map (λ kv. (kv.0, x.text_of kv.1)) m

  unfoldable pub error_detail : ErrorDetail V → ProtoErrorDetail
  unfolding text_entries
  error_detail d = record {
    kind = d.kind;
    field = d.field;
    reason = d.reason;
    metadata = text_entries (or_empty d.metadata);
  }

  unfoldable pub rpc_error : RpcError V → ProtoRpcError
  unfolding error_detail debug_info
  rpc_error e = record {
    code = e.code;
    name = text_or e.name "UNKNOWN";
    message = e.message;
    details = map error_detail (or_empty e.details);
    debug = Opt.map debug_info e.debug;
  }
