-- ===== src/Protocol/Messages.antt =====
-- The messages of src/aduib_rpc/protocol/v2 and of src/aduib_rpc/server/tasks/types.py as records.
-- V is Python's Any. Dicts are lists of entries, and the whole numbers are those that are not
-- negative. Fields that no conversion reads or writes are kept.
use aduib_rpc.Prelude.{Bool, List, Option, false, none, some, true, ℕ, ◌&&◌}
use Prim.Native.String.{String}
use aduib_rpc.Protocol.Wire.Enums.{AuthScheme, ResponseStatus, HealthStatus, success}
use aduib_rpc.Protocol.Wire.Priority.{Priority}
use aduib_rpc.Resilience.RetryPolicy.{RetryPolicy}
use aduib_rpc.Tasks.Types.{TaskStatus}

pub record TraceContext : Type 0 where
  pub trace_id : String
  pub span_id : String
  pub parent_span_id : Option String
  pub sampled : Bool
  pub baggage : Option (List (String × String))

pub record AuthContext : Type 0 where
  pub scheme : AuthScheme
  pub credentials : Option String
  pub principal : Option String
  pub principal_type : Option String
  pub roles : Option (List String)

pub record RequestMetadata : Type 0 where
  pub timestamp_ms : ℕ
  pub client_id : Option String
  pub client_version : Option String
  pub auth : Option AuthContext
  pub tenant_id : Option String
  pub headers : Option (List (String × String))
  pub long_task : Bool
  pub long_task_method : Option String
  pub long_task_timeout : Option ℕ

pub record ResponseMetadata : Type 0 where
  pub timestamp_ms : ℕ
  pub duration_ms : Option ℕ
  pub server_id : Option String
  pub server_version : Option String

pub record DebugInfo : Type 0 where
  pub stack_trace : Option String
  pub internal_message : Option String
  pub timestamp_ms : ℕ

-- QosConfig, a dataclass: what is given for `timeout_ms` may be None.
pub record QosConfig : Type 0 where
  pub enabled : Bool
  pub priority : Priority
  pub timeout_ms : Option ℕ
  pub idempotency_ttl_s : ℕ
  pub retry : Option RetryPolicy
  pub idempotency_key : Option String

-- The percentage is in whole numbers.
pub record TaskProgress : Type 0 where
  pub current : ℕ
  pub total : ℕ
  pub message : Option String
  pub percentage : Option ℕ

pub record HealthCheckResponse : Type 0 where
  pub status : HealthStatus
  pub services : Option (List (String × HealthStatus))

-- What stands in a field that is declared as Any: an object of the class that the comments name, or
-- a value, such as a dict, without its attributes.
pub data Loose (A : Type 0) : Type 0 where
  typed : A → Loose A
  untyped : Loose A

-- The object, where its attributes are read; `none` is the AttributeError.
unfoldable pub typed_of : {A : Type 0} → Loose A → Option A
typed_of (typed a) = some a
typed_of untyped = none

module _ (V : Type 0) where
  pub record ErrorDetail : Type 0 where
    pub kind : String
    pub field : Option String
    pub reason : String
    pub metadata : Option (List (String × V))

  pub record RpcError : Type 0 where
    pub code : ℕ
    pub name : String
    pub message : String
    pub details : Option (List ErrorDetail)
    pub debug : Option DebugInfo

  -- AduibRpcRequest and AduibRpcResponse.
  pub record AduibRpcRequest : Type 0 where
    pub aduib_rpc : String
    pub id : Option String
    pub method : String
    pub name : Option String
    pub payload : Option V
    pub supported_versions : Option (List String)
    pub trace_context : Option TraceContext
    pub metadata : Option RequestMetadata
    pub qos : Option (Loose QosConfig)
    pub meta : Option V

  pub record AduibRpcResponse : Type 0 where
    pub aduib_rpc : String
    pub id : Option String
    pub status : ResponseStatus
    pub result : Option V
    pub error : Option RpcError
    pub negotiated_version : Option String
    pub trace_context : Option TraceContext
    pub metadata : Option (Loose ResponseMetadata)

  -- TaskRecord and TaskSubmitRequest of src/aduib_rpc/server/tasks/types.py, with all fields.
  pub record TaskMessage : Type 0 where
    pub task_id : String
    pub parent_task_id : Option String
    pub status : TaskStatus
    pub priority : Priority
    pub created_at_ms : ℕ
    pub scheduled_at_ms : Option ℕ
    pub started_at_ms : Option ℕ
    pub completed_at_ms : Option ℕ
    pub attempt : ℕ
    pub max_attempts : ℕ
    pub next_retry_at_ms : Option ℕ
    pub result : Option V
    pub error : Option RpcError
    pub progress : Option TaskProgress
    pub metadata : Option (List (String × V))
    pub tags : Option (List String)

  pub record TaskSubmitRequest : Type 0 where
    pub target_method : String
    pub params : Option V
    pub priority : Priority

-- `is_success` of a response.
is_status_success : ResponseStatus → Bool
is_status_success success = true
is_status_success _ = false

no_error : {A : Type 0} → Option A → Bool
no_error none = true
no_error (some e) = false

unfoldable pub is_success : {V : Type 0} → AduibRpcResponse V → Bool
unfolding is_status_success no_error
is_success r = is_status_success r.status && no_error r.error
