-- ===== src/Protocol/Thrift.antt =====
-- The structs of src/aduib_rpc/proto/aduib_rpc_v2.thrift, as the generated Python classes hold them:
-- a field that was not set is None. What src/aduib_rpc/utils/thrift_v2_utils.py takes from libraries
-- is a record of operations. Numbers fit into their fields.
pub mod ToThrift
pub mod FromThrift
pub mod RoundTrip
use aduib_rpc.Prelude.{Bool, List, Option, ℕ, ℤ}
use Prim.Native.String.{String}

-- `json.dumps`, which may raise, its text for `{"_unserializable": True}`, `json.loads`, which may
-- raise, the empty dict, `isinstance(value, dict)`, `str` of a value and a text as a value, and as
-- in Protocol/Proto `str.lower`, `int` and the regular expressions of the trace identifiers.
pub record Json (V : Type 0) : Type 0 where
  pub dumps : Option V → Option String
  pub unserializable : String
  pub loads : String → Option V
  pub empty_dict : V
  pub is_dict : V → Bool
  pub text_of : V → String
  pub text_value : String → V
  pub lower : String → String
  pub parse_int : String → Option ℤ
  pub is_trace_id : String → Bool
  pub is_span_id : String → Bool

pub record ThriftTraceContext : Type 0 where
  pub trace_id : String
  pub span_id : String
  pub parent_span_id : Option String
  pub sampled : Bool
  pub baggage : Option (List (String × String))

pub record ThriftAuthContext : Type 0 where
  pub scheme : ℕ
  pub credentials : Option String
  pub principal : Option String
  pub roles : Option (List String)

pub record ThriftRequestMetadata : Type 0 where
  pub timestamp_ms : ℕ
  pub client_id : Option String
  pub client_version : Option String
  pub auth : Option ThriftAuthContext
  pub tenant_id : Option String
  pub headers : Option (List (String × String))
  pub long_task : Option Bool
  pub long_task_method : Option String
  pub long_task_timeout : Option ℕ

pub record ThriftResponseMetadata : Type 0 where
  pub timestamp_ms : ℕ
  pub duration_ms : ℕ
  pub server_id : Option String
  pub server_version : Option String

pub record ThriftErrorDetail : Type 0 where
  pub kind : String
  pub field : Option String
  pub reason : String
  pub metadata : Option (List (String × String))

pub record ThriftDebugInfo : Type 0 where
  pub stack_trace : Option String
  pub internal_message : Option String
  pub timestamp_ms : ℕ

pub record ThriftRpcError : Type 0 where
  pub code : ℕ
  pub name : String
  pub message : String
  pub details : Option (List ThriftErrorDetail)
  pub debug : Option ThriftDebugInfo

pub record ThriftRetryConfig : Type 0 where
  pub max_attempts : ℤ
  pub initial_delay_ms : ℤ
  pub max_delay_ms : ℤ
  pub backoff_multiplier : ℤ
  pub retryable_codes : Option (List ℕ)

pub record ThriftQosConfig : Type 0 where
  pub priority : ℕ
  pub timeout_ms : Option ℕ
  pub retry_config : Option ThriftRetryConfig
  pub idempotency_key : Option String

pub record ThriftRequest : Type 0 where
  pub aduib_rpc : String
  pub id : String
  pub method : String
  pub name : Option String
  pub data_json : String
  pub trace_context : Option ThriftTraceContext
  pub metadata : Option ThriftRequestMetadata
  pub qos : Option ThriftQosConfig

-- The union ResponsePayload: both fields may be None.
pub record ThriftResponsePayload : Type 0 where
  pub result_json : Option String
  pub error : Option ThriftRpcError

pub record ThriftResponse : Type 0 where
  pub aduib_rpc : String
  pub id : String
  pub status : ℕ
  pub payload : Option ThriftResponsePayload
  pub trace_context : Option ThriftTraceContext
  pub metadata : Option ThriftResponseMetadata

pub record ThriftTaskProgress : Type 0 where
  pub current : ℕ
  pub total : ℕ
  pub message : Option String
  pub percentage : Option ℕ

pub record ThriftTaskRecord : Type 0 where
  pub task_id : String
  pub parent_task_id : Option String
  pub status : ℕ
  pub priority : ℕ
  pub created_at_ms : ℕ
  pub scheduled_at_ms : Option ℕ
  pub started_at_ms : Option ℕ
  pub completed_at_ms : Option ℕ
  pub attempt : ℕ
  pub max_attempts : ℕ
  pub next_retry_at_ms : Option ℕ
  pub result : Option String
  pub error : Option ThriftRpcError
  pub progress : Option ThriftTaskProgress
  pub metadata : Option (List (String × String))
  pub tags : Option (List String)
