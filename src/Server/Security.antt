-- ===== src/Server/Security.antt =====
-- SecurityInterceptor of src/aduib_rpc/server/interceptors/security.py: `intercept` before its
-- `yield`; after it there is nothing. What the interceptor is given is an `Environment`.
pub mod Admission
pub mod Identity
pub mod Trail
pub mod Defaults
pub mod Guard
use Prim.Native.String.{String}
use aduib_rpc.Prelude.{
  Bool, List, Option, [], false, if◌then◌else◌, none, some, true, ℕ, ◌++◌, ◌>>=◌, ◌||◌, ◌∷◌,
}
use mathlib.Core.Option as Opt
use aduib_rpc.Protocol.Errors.{code_of}
use aduib_rpc.Protocol.Errors as ErrorCodes
use aduib_rpc.Security.Rbac.{Permission, Principal}
use aduib_rpc.Server.Credentials.{
  SecurityConfig, SecuredRequest, ServerContext, PermissionData, Validated, valid, token_expired,
  invalid_token, unauthenticated, other_exception, is_anonymous_method, get_permission_for_method,
  extract_token, extract_principal,
}
use aduib_rpc.Server.MethodName.{Text}

-- `isspace`, `str.lower`, the service functions of the runtime, and the two validators; a
-- permission validator that raises gives `none`.
pub record Environment : Type 0 where
  pub is_space : ℕ → Bool
  pub lower : Text → Text
  pub service_funcs : Text → Option (Option PermissionData)
  pub validate : String → SecuredRequest → ServerContext → Validated
  pub check : Principal → Permission → Text → SecuredRequest → ServerContext → Option Bool

pub data EventType : Type 0 where
  access_attempt access_granted access_denied : EventType

-- What the audit logger gets.
pub record SecurityEvent : Type 0 where
  pub event_type : EventType
  pub tenant_id : Option String
  pub request_id : Option String
  pub trace_id : Option String
  pub principal : Option String
  pub method : Text
  pub roles : List String
  pub reason : Option String

-- The detail of a refusal.
pub record Denial : Type 0 where
  pub reason : String
  pub principal_id : Option String
  pub resource : String
  pub action : String

-- A request passes on, is aborted with an error code, or its interceptor raises.
pub data Verdict : Type 0 where
  passed : Verdict
  aborted : ℕ → Option Denial → Verdict
  raised : Verdict

pub record Intercepted : Type 0 where
  pub context : ServerContext
  pub events : List SecurityEvent
  pub verdict : Verdict

-- `_log_security_event`.
unfoldable pub log_security_event :
    SecuredRequest → Principal → EventType → Option String → SecurityEvent
log_security_event r p event_type reason = record {
  event_type = event_type;
  tenant_id = r.metadata >>= λ m. m.tenant_id;
  request_id = r.id;
  trace_id = r.trace_id;
  principal = p.id;
  method = r.method;
  roles = p.roles;
  reason = reason;
}

unfoldable pub logged :
    SecurityConfig → SecuredRequest → Principal → EventType → Option String → List SecurityEvent
unfolding log_security_event
logged config r p event_type reason =
    if config.audit_enabled then log_security_event r p event_type reason ∷ [] else []

-- The context after the principal is known.
unfoldable pub set_principal : Principal → ServerContext → ServerContext
set_principal p c = record c {
  principal = some p;
  principal_id = p.id;
  principal_type = some p.kind;
}

abort_with_error : ServerContext → ℕ → Intercepted
abort_with_error c code = record { context = c; events = []; verdict = aborted code none }

-- `_deny_permission`: its event, and the abort.
denial : String → Principal → Permission → Denial
denial reason p q = record {
  reason = reason;
  principal_id = p.id;
  resource = q.resource;
  action = q.action;
}

module _ (config : SecurityConfig) (r : SecuredRequest) (p : Principal) where
  deny_permission : String → Option Permission → List SecurityEvent × Verdict
  unfolding logged denial code_of
  deny_permission reason q = (
    logged config r p access_denied (some reason),
    aborted (code_of ErrorCodes.permission_denied) (Opt.map (denial reason p) q),
  )

  grant : List SecurityEvent × Verdict
  unfolding logged
  grant = (logged config r p access_granted none, passed)

  -- The part under `rbac_enabled`, after the check of a permission that is defined.
  checked : Permission → Option Bool → List SecurityEvent × Verdict
  unfolding deny_permission grant
  checked q none = ([], raised)
  checked q (some true) = grant
  checked q (some false) = deny_permission "insufficient_permissions" (some q)

module _ (e : Environment) (config : SecurityConfig) (r : SecuredRequest) where
  authorize_by : Principal → ServerContext → Option Permission → List SecurityEvent × Verdict
  unfolding checked deny_permission
  authorize_by p c none = deny_permission config r p "permission_not_defined" none
  authorize_by p c (some q) = checked config r p q (e.check p q r.method r c)

  authorize : Principal → ServerContext → List SecurityEvent × Verdict
  unfolding authorize_by grant
  authorize p c =
      if config.rbac_enabled
      then authorize_by p c (get_permission_for_method e.is_space e.service_funcs r.method)
      else grant config r p

  -- `intercept` from the point where a principal is known; `none` is the exception before it.
  identified : ServerContext → Option Principal → Intercepted
  unfolding authorize logged set_principal
  identified c none = record { context = c; events = []; verdict = raised }
  identified c (some p) =
      let (events, verdict) = authorize p (set_principal p c) in
      record {
        context = set_principal p c;
        events = logged config r p access_attempt none ++ events;
        verdict = verdict;
      }

  validated : ServerContext → Validated → Intercepted
  unfolding identified abort_with_error code_of
  validated c (valid (some p)) = identified c (some p)
  validated c (valid none) = identified c (extract_principal config r c)
  validated c token_expired = abort_with_error c (code_of ErrorCodes.token_expired)
  validated c invalid_token = abort_with_error c (code_of ErrorCodes.invalid_token)
  validated c unauthenticated = abort_with_error c (code_of ErrorCodes.unauthenticated)
  validated c other_exception = abort_with_error c (code_of ErrorCodes.invalid_token)

  authenticate : ServerContext → Option String → Intercepted
  unfolding validated identified abort_with_error code_of
  authenticate c none =
      if config.require_auth || config.rbac_enabled
      then abort_with_error c (code_of ErrorCodes.unauthenticated)
      else identified c (extract_principal config r c)
  authenticate c (some token) = validated c (e.validate token r c)

  -- `intercept`.
  unfoldable pub intercept : ServerContext → Intercepted
  unfolding authenticate
  intercept c =
      if is_anonymous_method e.is_space e.lower config.anonymous_methods r.method
      then record { context = c; events = []; verdict = passed }
      else authenticate c (extract_token r c)
