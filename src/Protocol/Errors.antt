-- ===== src/Protocol/Errors.antt =====
-- src/aduib_rpc/protocol/v2/errors.py: the error codes, the exceptions and statuses that stand for
-- them, the mapping of exceptions to codes, and the cached debug flag.
pub mod Statuses
pub mod Mapping
pub mod Debug
use Prim.Native.String.{String}
use aduib_rpc.Exceptions.{
  RpcErrorClass, Exn, rpc_instance, isinstance, rpc_exception, ExcClass, other_class,
}
use aduib_rpc.Prelude.{List, ℕ, if◌then◌else◌, Option, ◌∷◌, none, leb, [], some, ◌&&◌, ◌==◌, ltb}

-- ErrorCode.
pub data ErrorCode : Type 0 where
  protocol unsupported_version invalid_message serialization compression : ErrorCode
  bad_request invalid_params missing_required_field invalid_field_value : ErrorCode
  request_too_large unauthenticated invalid_token token_expired unauthorized : ErrorCode
  permission_denied insufficient_scope resource_not_found method_not_found : ErrorCode
  service_not_found already_exists conflict gone internal not_implemented : ErrorCode
  service_unavailable rpc_timeout circuit_breaker_open rate_limited resource_exhausted : ErrorCode
  dependency upstream_timeout upstream_unavailable : ErrorCode

-- The value of a member.
unfoldable pub code_of : ErrorCode → ℕ
code_of protocol = 1000
code_of unsupported_version = 1001
code_of invalid_message = 1002
code_of serialization = 1003
code_of compression = 1004
code_of bad_request = 2000
code_of invalid_params = 2001
code_of missing_required_field = 2002
code_of invalid_field_value = 2003
code_of request_too_large = 2004
code_of unauthenticated = 3000
code_of invalid_token = 3001
code_of token_expired = 3002
code_of unauthorized = 3010
code_of permission_denied = 3011
code_of insufficient_scope = 3012
code_of resource_not_found = 4000
code_of method_not_found = 4001
code_of service_not_found = 4002
code_of already_exists = 4010
code_of conflict = 4011
code_of gone = 4020
code_of internal = 5000
code_of not_implemented = 5001
code_of service_unavailable = 5002
code_of rpc_timeout = 5003
code_of circuit_breaker_open = 5010
code_of rate_limited = 5020
code_of resource_exhausted = 5021
code_of dependency = 6000
code_of upstream_timeout = 6001
code_of upstream_unavailable = 6002

-- The classes of `_EXCEPTION_BY_CODE`.
unfoldable pub exception_class : ErrorCode → RpcErrorClass
exception_class protocol = RpcErrorClass.protocol_error
exception_class unsupported_version = RpcErrorClass.unsupported_version_error
exception_class invalid_message = RpcErrorClass.invalid_message_error
exception_class serialization = RpcErrorClass.serialization_error
exception_class compression = RpcErrorClass.compression_error
exception_class bad_request = RpcErrorClass.bad_request_error
exception_class invalid_params = RpcErrorClass.invalid_params_error
exception_class missing_required_field = RpcErrorClass.missing_required_field_error
exception_class invalid_field_value = RpcErrorClass.invalid_field_value_error
exception_class request_too_large = RpcErrorClass.request_too_large_error
exception_class unauthenticated = RpcErrorClass.unauthenticated_error
exception_class invalid_token = RpcErrorClass.invalid_token_error
exception_class token_expired = RpcErrorClass.token_expired_error
exception_class unauthorized = RpcErrorClass.unauthorized_error
exception_class permission_denied = RpcErrorClass.permission_denied_error
exception_class insufficient_scope = RpcErrorClass.insufficient_scope_error
exception_class resource_not_found = RpcErrorClass.resource_not_found_error
exception_class method_not_found = RpcErrorClass.method_not_found_error
exception_class service_not_found = RpcErrorClass.service_not_found_error
exception_class already_exists = RpcErrorClass.already_exists_error
exception_class conflict = RpcErrorClass.conflict_error
exception_class gone = RpcErrorClass.gone_error
exception_class internal = RpcErrorClass.internal_error
exception_class not_implemented = RpcErrorClass.rpc_not_implemented_error
exception_class service_unavailable = RpcErrorClass.service_unavailable_error
exception_class rpc_timeout = RpcErrorClass.rpc_timeout_error
exception_class circuit_breaker_open = RpcErrorClass.circuit_breaker_open_error
exception_class rate_limited = RpcErrorClass.rate_limited_error
exception_class resource_exhausted = RpcErrorClass.resource_exhausted_error
exception_class dependency = RpcErrorClass.dependency_error
exception_class upstream_timeout = RpcErrorClass.upstream_timeout_error
exception_class upstream_unavailable = RpcErrorClass.upstream_unavailable_error

-- The members in the order of the class.
abbrev pub members : List ErrorCode
members =
    protocol ∷ unsupported_version ∷ invalid_message ∷ serialization ∷ compression ∷ bad_request
    ∷ invalid_params ∷ missing_required_field ∷ invalid_field_value ∷ request_too_large
    ∷ unauthenticated ∷ invalid_token ∷ token_expired ∷ unauthorized ∷ permission_denied
    ∷ insufficient_scope ∷ resource_not_found ∷ method_not_found ∷ service_not_found
    ∷ already_exists ∷ conflict ∷ gone ∷ internal ∷ not_implemented ∷ service_unavailable
    ∷ rpc_timeout ∷ circuit_breaker_open ∷ rate_limited ∷ resource_exhausted ∷ dependency
    ∷ upstream_timeout ∷ upstream_unavailable ∷ []

-- The lookup of a number among members, as in the dicts that are keyed by code.
unfoldable pub find_code : ℕ → List ErrorCode → Option ErrorCode
find_code n [] = none
find_code n (c ∷ cs) = if code_of c == n then some c else find_code n cs

-- `exception_from_code`: the class and the code of what it makes.
make_exception : ℕ → Option ErrorCode → Exn
unfolding exception_class rpc_instance
make_exception n none = record { mro = rpc_exception ∷ []; code = n }
make_exception n (some c) = rpc_instance (exception_class c)

unfoldable pub exception_from_code : ℕ → Exn
unfolding find_code code_of make_exception
exception_from_code n = make_exception n (find_code n members)

-- `error_code_to_http_status`.
unfoldable pub error_code_to_http_status : ℕ → ℕ
error_code_to_http_status code =
    if leb 1000 code && ltb code 2000
    then 400
    else if leb 2000 code && ltb code 3000
    then 400
    else if leb 3000 code && leb code 3002
    then 401
    else if leb 3010 code && leb code 3012
    then 403
    else if leb 4000 code && leb code 4002
    then 404
    else if leb 4010 code && leb code 4011
    then 409
    else if code == 4020
    then 410
    else if code == 5000
    then 500
    else if code == 5001
    then 501
    else if code == 5002
    then 503
    else if code == 5003
    then 504
    else if code == 5010
    then 503
    else if leb 5020 code && leb code 5021
    then 429
    else if leb 5000 code && ltb code 6000
    then 500
    else if code == 6000
    then 502
    else if code == 6001
    then 504
    else if code == 6002
    then 502
    else if leb 6000 code && ltb code 7000
    then 502
    else 500

-- The gRPC statuses, and `error_code_to_grpc_status`.
pub data GrpcStatus : Type 0 where
  invalid_argument unauthenticated_status permission_denied_status not_found : GrpcStatus
  already_exists_status internal_status unimplemented unavailable deadline_exceeded : GrpcStatus
  resource_exhausted_status unknown : GrpcStatus

unfoldable pub error_code_to_grpc_status : ℕ → GrpcStatus
error_code_to_grpc_status code =
    if leb 2000 code && ltb code 3000
    then invalid_argument
    else if leb 3000 code && leb code 3002
    then unauthenticated_status
    else if leb 3010 code && leb code 3012
    then permission_denied_status
    else if leb 4000 code && leb code 4002
    then not_found
    else if leb 4010 code && leb code 4011
    then already_exists_status
    else if code == 4020
    then not_found
    else if code == 5000
    then internal_status
    else if code == 5001
    then unimplemented
    else if code == 5002
    then unavailable
    else if code == 5003
    then deadline_exceeded
    else if leb 5020 code && leb code 5021
    then resource_exhausted_status
    else unknown

-- The exception classes of Python that `_STANDARD_EXCEPTION_MAPPING` names.
pub data StandardClass : Type 0 where
  value_error key_error type_error attribute_error index_error assertion_error : StandardClass
  stop_iteration permission_error file_not_found_error lookup_error : StandardClass
  not_implemented_error runtime_error exception : StandardClass

class_index : StandardClass → ℕ
class_index value_error = 0
class_index key_error = 1
class_index type_error = 2
class_index attribute_error = 3
class_index index_error = 4
class_index assertion_error = 5
class_index stop_iteration = 6
class_index permission_error = 7
class_index file_not_found_error = 8
class_index lookup_error = 9
class_index not_implemented_error = 10
class_index runtime_error = 11
class_index exception = 12

unfoldable pub standard : StandardClass → ExcClass
unfolding class_index
standard c = other_class (class_index c)

-- `_STANDARD_EXCEPTION_MAPPING` in its order.
abbrev pub standard_mapping : List (StandardClass × ErrorCode)
standard_mapping =
    (value_error, invalid_params)
    ∷ (key_error, invalid_params)
    ∷ (type_error, invalid_params)
    ∷ (attribute_error, invalid_params)
    ∷ (index_error, invalid_params)
    ∷ (assertion_error, invalid_params)
    ∷ (stop_iteration, invalid_params)
    ∷ (permission_error, permission_denied)
    ∷ (file_not_found_error, resource_not_found)
    ∷ (lookup_error, resource_not_found)
    ∷ (not_implemented_error, not_implemented)
    ∷ (runtime_error, internal)
    ∷ (exception, internal)
    ∷ []

-- The loop of `map_exception_to_error_code`, and the function.
first_match : Exn → List (StandardClass × ErrorCode) → ErrorCode
unfolding standard isinstance
first_match e [] = internal
first_match e ((c, code) ∷ rest) = if isinstance e (standard c) then code else first_match e rest

unfoldable pub map_exception_to_error_code : Exn → ℕ
unfolding first_match code_of isinstance
map_exception_to_error_code e =
    if isinstance e rpc_exception then e.code else code_of (first_match e standard_mapping)
