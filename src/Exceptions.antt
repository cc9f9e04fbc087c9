-- ===== src/Exceptions.antt =====
-- The exception classes of src/aduib_rpc/exceptions.py, with BulkheadError and
-- FallbackExhaustedError of src/aduib_rpc/resilience, and Python's `isinstance` on them.
use aduib_rpc.Prelude.{ℕ, ◌+◌, Bool, List, [], ◌∷◌, any, ◌==◌}

-- The subclasses of RpcException.
pub data RpcErrorClass : Type 0 where
  protocol_error : RpcErrorClass
  unsupported_version_error : RpcErrorClass
  invalid_message_error : RpcErrorClass
  serialization_error : RpcErrorClass
  compression_error : RpcErrorClass
  bad_request_error : RpcErrorClass
  invalid_params_error : RpcErrorClass
  missing_required_field_error : RpcErrorClass
  invalid_field_value_error : RpcErrorClass
  request_too_large_error : RpcErrorClass
  unauthenticated_error : RpcErrorClass
  invalid_token_error : RpcErrorClass
  token_expired_error : RpcErrorClass
  unauthorized_error : RpcErrorClass
  permission_denied_error : RpcErrorClass
  insufficient_scope_error : RpcErrorClass
  resource_not_found_error : RpcErrorClass
  method_not_found_error : RpcErrorClass
  service_not_found_error : RpcErrorClass
  already_exists_error : RpcErrorClass
  conflict_error : RpcErrorClass
  gone_error : RpcErrorClass
  internal_error : RpcErrorClass
  rpc_not_implemented_error : RpcErrorClass
  service_unavailable_error : RpcErrorClass
  rpc_timeout_error : RpcErrorClass
  circuit_breaker_open_error : RpcErrorClass
  rate_limited_error : RpcErrorClass
  resource_exhausted_error : RpcErrorClass
  dependency_error : RpcErrorClass
  upstream_timeout_error : RpcErrorClass
  upstream_unavailable_error : RpcErrorClass
  bulkhead_error : RpcErrorClass
  fallback_exhausted_error : RpcErrorClass

-- The default of the field `code` of each class.
unfoldable pub default_code : RpcErrorClass → ℕ
default_code protocol_error = 1000
default_code unsupported_version_error = 1001
default_code invalid_message_error = 1002
default_code serialization_error = 1003
default_code compression_error = 1004
default_code bad_request_error = 2000
default_code invalid_params_error = 2001
default_code missing_required_field_error = 2002
default_code invalid_field_value_error = 2003
default_code request_too_large_error = 2004
default_code unauthenticated_error = 3000
default_code invalid_token_error = 3001
default_code token_expired_error = 3002
default_code unauthorized_error = 3010
default_code permission_denied_error = 3011
default_code insufficient_scope_error = 3012
default_code resource_not_found_error = 4000
default_code method_not_found_error = 4001
default_code service_not_found_error = 4002
default_code already_exists_error = 4010
default_code conflict_error = 4011
default_code gone_error = 4020
default_code internal_error = 5000
default_code rpc_not_implemented_error = 5001
default_code service_unavailable_error = 5002
default_code rpc_timeout_error = 5003
default_code circuit_breaker_open_error = 5010
default_code rate_limited_error = 5020
default_code resource_exhausted_error = 5021
default_code dependency_error = 6000
default_code upstream_timeout_error = 6001
default_code upstream_unavailable_error = 6002
default_code bulkhead_error = 5030
default_code fallback_exhausted_error = 5040

-- The exception classes: the base class RpcException, its subclasses, and all other classes
-- (Python's own and those of callers), which the code never names, by a number.
pub data ExcClass : Type 0 where
  rpc_exception : ExcClass
  rpc_error : RpcErrorClass → ExcClass
  other_class : ℕ → ExcClass

-- A number for each class, by which classes are compared.
unfoldable pub class_number : ExcClass → ℕ
unfolding default_code
class_number rpc_exception = 0
class_number (rpc_error c) = default_code c
class_number (other_class n) = n + 10000

-- An exception: the classes of its method resolution order, and the field `code` (read of an
-- RpcException only).
pub record Exn : Type 0 where
  pub mro : List ExcClass
  pub code : ℕ

-- `isinstance(e, c)`.
unfoldable pub isinstance : Exn → ExcClass → Bool
unfolding class_number
isinstance e c = any (λ d. class_number d == class_number c) e.mro

-- An instance of a subclass of RpcException, with its default code.
unfoldable pub rpc_instance : RpcErrorClass → Exn
unfolding default_code
rpc_instance c = record { mro = rpc_error c ∷ rpc_exception ∷ []; code = default_code c }
