-- ===== src/Protocol/Proto.antt =====
-- The messages of src/aduib_rpc/proto/aduib_rpc_v2.proto, as protobuf's Python classes hold them: an
-- `optional` field may be missing, a `repeated` one is a list and a `map` one a list of entries. S is
-- protobuf's Struct and P its Value. What src/aduib_rpc/utils/grpc_v2_utils.py takes from libraries
-- is a record of operations. Ranges tests whether numbers fit into their fields.
pub mod Ranges
pub mod ToProto
pub mod FromProto
pub mod Sendable
pub mod RoundTrip
use aduib_rpc.Prelude.{Bool, List, Option, ℕ, ℤ}
use Prim.Native.String.{String}

-- What json_format and Struct offer: `ParseDict` into a Struct, which leaves the Struct changed even
-- where it fails, `update` and item assignment, `ParseDict` into a Value, and `MessageToDict`. Then
-- Python's `str`, of a value and back as a value, `{"value": payload}`, `isinstance(payload, dict)`,
-- `str.lower`, `int`, and the regular expressions of the two trace identifiers.
pub record Libraries (V S P : Type 0) : Type 0 where
  pub empty_struct : S
  pub parse_dict : V → S → S × Bool
  pub update : V → S → S × Bool
  pub set_items : V → S → S
  pub parse_value : Option V → Option P
  pub struct_to_dict : S → V
  pub value_to_dict : P → Option V
  pub text_of : V → String
  pub text_value : String → V
  pub wrapped : V → V
  pub is_dict : V → Bool
  pub lower : String → String
  pub parse_int : String → Option ℤ
  pub is_trace_id : String → Bool
  pub is_span_id : String → Bool

pub record ProtoTraceContext : Type 0 where
  pub trace_id : String
  pub span_id : String
  pub parent_span_id : Option String
  pub sampled : Bool
  pub baggage : List (String × String)

pub record ProtoAuthContext : Type 0 where
  pub scheme : ℕ
  pub credentials : Option String
  pub principal : Option String
  pub roles : List String

pub record ProtoRequestMetadata : Type 0 where
  pub timestamp_ms : ℕ
  pub client_id : Option String
  pub client_version : Option String
  pub auth : Option ProtoAuthContext
  pub tenant_id : Option String
  pub headers : List (String × String)
  pub long_task : Option Bool
  pub long_task_method : Option String
  pub long_task_timeout : Option ℕ

pub record ProtoResponseMetadata : Type 0 where
  pub timestamp_ms : ℕ
  pub duration_ms : ℕ
  pub server_id : Option String
  pub server_version : Option String

pub record ProtoErrorDetail : Type 0 where
  pub kind : String
  pub field : Option String
  pub reason : String
  pub metadata : List (String × String)

pub record ProtoDebugInfo : Type 0 where
  pub stack_trace : Option String
  pub internal_message : Option String
  pub timestamp_ms : ℕ

pub record ProtoRpcError : Type 0 where
  pub code : ℕ
  pub name : String
  pub message : String
  pub details : List ProtoErrorDetail
  pub debug : Option ProtoDebugInfo

pub record ProtoRetryConfig : Type 0 where
  pub max_attempts : ℤ
  pub initial_delay_ms : ℤ
  pub max_delay_ms : ℤ
  pub backoff_multiplier : ℤ
  pub retryable_codes : List ℕ

pub record ProtoQosConfig : Type 0 where
  pub priority : ℕ
  pub timeout_ms : Option ℕ
  pub retry : Option ProtoRetryConfig
  pub idempotency_key : Option String

pub record ProtoRequest (S : Type 0) : Type 0 where
  pub aduib_rpc : String
  pub id : String
  pub method : String
  pub name : Option String
  pub payload : Option S
  pub trace_context : Option ProtoTraceContext
  pub metadata : Option ProtoRequestMetadata
  pub qos : Option ProtoQosConfig

-- The `oneof payload` of a response.
pub data Payload (P : Type 0) : Type 0 where
  result_payload : P → Payload P
  error_payload : ProtoRpcError → Payload P
  no_payload : Payload P

pub record ProtoResponse (P : Type 0) : Type 0 where
  pub aduib_rpc : String
  pub id : String
  pub status : ℕ
  pub payload : Payload P
  pub trace_context : Option ProtoTraceContext
  pub metadata : Option ProtoResponseMetadata

pub record ProtoTaskProgress : Type 0 where
  pub current : ℕ
  pub total : ℕ
  pub message : Option String
  pub percentage : Option ℕ

pub record ProtoTaskRecord (P : Type 0) : Type 0 where
  pub task_id : String
  pub parent_task_id : Option String
  pub status : ℕ
  pub priority : ℕ
  pub created_at_ms : ℕ
  pub scheduled_at_ms : Option ℕ
  pub started_at_ms : Option ℕ
  pub completed_at_ms : Option ℕ
  pub attempt : ℕ
  pub max_attempts : ℕ
  pub next_retry_at_ms : Option ℕ
  pub result : Option P
  pub error : Option ProtoRpcError
  pub progress : Option ProtoTaskProgress
  pub metadata : List (String × String)
  pub tags : List String

pub record ProtoHealthCheckResponse : Type 0 where
  pub status : ℕ
  pub services : List (String × ℕ)

pub record ProtoTaskSubmitRequest (S : Type 0) : Type 0 where
  pub target_method : String
  pub params : Option S
  pub priority : ℕ
