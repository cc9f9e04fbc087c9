-- ===== src/Protocol/Errors/Statuses.antt =====
-- Which statuses the codes of src/aduib_rpc/protocol/v2/errors.py are given.
use aduib_rpc.Prelude.{ℕ, refl, ◌≡◌, ◌≤◌, Bool, arith, true, false, if◌then◌else◌}
use aduib_rpc.Protocol.Errors.{
  ErrorCode, code_of, error_code_to_http_status, error_code_to_grpc_status, GrpcStatus, protocol,
  unsupported_version, invalid_message, serialization, compression, unauthenticated, invalid_token,
  token_expired, unauthorized, permission_denied, insufficient_scope, resource_not_found,
  method_not_found, service_not_found, already_exists, conflict, gone, internal, not_implemented,
  service_unavailable, rpc_timeout, circuit_breaker_open, rate_limited, resource_exhausted,
  dependency, upstream_timeout, upstream_unavailable, unauthenticated_status,
  permission_denied_status, not_found, already_exists_status, internal_status, unimplemented,
  unavailable, deadline_exceeded, resource_exhausted_status, unknown, invalid_argument,
}

-- The table of the statuses in the protocol's specification, by member.
abbrev pub documented : ErrorCode → ℕ × GrpcStatus
documented protocol = (400, unknown)
documented unsupported_version = (400, unknown)
documented invalid_message = (400, unknown)
documented serialization = (400, unknown)
documented compression = (400, unknown)
documented unauthenticated = (401, unauthenticated_status)
documented invalid_token = (401, unauthenticated_status)
documented token_expired = (401, unauthenticated_status)
documented unauthorized = (403, permission_denied_status)
documented permission_denied = (403, permission_denied_status)
documented insufficient_scope = (403, permission_denied_status)
documented resource_not_found = (404, not_found)
documented method_not_found = (404, not_found)
documented service_not_found = (404, not_found)
documented already_exists = (409, already_exists_status)
documented conflict = (409, already_exists_status)
documented gone = (410, not_found)
documented internal = (500, internal_status)
documented not_implemented = (501, unimplemented)
documented service_unavailable = (503, unavailable)
documented rpc_timeout = (504, deadline_exceeded)
documented circuit_breaker_open = (503, unknown)
documented rate_limited = (429, resource_exhausted_status)
documented resource_exhausted = (429, resource_exhausted_status)
documented dependency = (502, unknown)
documented upstream_timeout = (504, unknown)
documented upstream_unavailable = (502, unknown)
documented _ = (400, invalid_argument)

-- Each error code has the HTTP status and the gRPC status of the table, where the codes for which
-- the specification gives no gRPC status have UNKNOWN, and those of 4020 are 410 and NOT_FOUND.
pub statuses_documented :
    (c : ErrorCode)
    → (error_code_to_http_status (code_of c) ≡ (documented c).0)
      × (error_code_to_grpc_status (code_of c) ≡ (documented c).1)
unfolding error_code_to_http_status error_code_to_grpc_status code_of
statuses_documented protocol = (refl, refl)
statuses_documented _ = (refl, refl)

abbrev IsErrorStatus : ℕ → Type 0
IsErrorStatus n = (400 ≤ n) × (n ≤ 504)

if-IsErrorStatus :
    (b : Bool) (x y : ℕ) → IsErrorStatus x → IsErrorStatus y → IsErrorStatus (if b then x else y)
if-IsErrorStatus true x y h k = h
if-IsErrorStatus false x y h k = k

-- Any number at all, a code or not, has an HTTP status from 400 to 504.
pub http_status_bounds : (code : ℕ) → IsErrorStatus (error_code_to_http_status code)
unfolding error_code_to_http_status
http_status_bounds code = search (if-IsErrorStatus, arith)
