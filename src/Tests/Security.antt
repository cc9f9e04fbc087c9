-- ===== src/Tests/Security.antt =====
-- src/aduib_rpc/server/interceptors/security.py on concrete requests.
use Prim.Native.String.{String}
use aduib_rpc.Prelude.{
  Bool, Option, [], false, none, refl, same_text, some, true, ℕ, ◌==◌, ◌↔◌, ◌∷◌, ◌≡◌, ◌≢◌, arith,
}
use aduib_rpc.Protocol.Messages.{AuthContext, RequestMetadata}
use aduib_rpc.Protocol.Wire.Enums.{bearer}
use aduib_rpc.Security.Rbac.{set_superadmin_role, Permission, RbacPolicy, is_superadmin}
use aduib_rpc.Server.Credentials.{
  SecurityConfig, SecuredRequest, ServerContext, PermissionData, permission_items,
  is_anonymous_method, get_permission_for_method, normalize_permission_data, principal_of_auth,
  ends_with, same_codes, extract_token, or_else,
}
use aduib_rpc.Server.MethodName.{
  Text, parse_compat, strip, lstrip, partition, split, join, after_prefix, contains,
}
use aduib_rpc.Server.Security.{Environment, intercept, passed, Verdict}
use aduib_rpc.Server.Security.Admission.{Admitted, intercept_passed_iff}
use aduib_rpc.Server.Security.Guard.{SecuredState, security_interceptor, unadmitted_handler}
use aduib_rpc.Server.Chain.{View, Handler, execute, finished, failed, stops}
use aduib_rpc.Server.Security.{aborted}
use aduib_rpc.Server.Security.Trail.{Trail, types, intercept-Trail}
use aduib_rpc.Server.Security.Defaults.{
  with_policy, init_policy, suffix_passes, claimed_superadmin_passes,
}
use aduib_rpc.Protocol.Errors.{code_of}

-- "ping", "a.shipping" and "a.pay".
abbrev ping : Text
ping = b'p' ∷ b'i' ∷ b'n' ∷ b'g' ∷ []

abbrev shipping : Text
shipping = b'a' ∷ b'.' ∷ b's' ∷ b'h' ∷ b'i' ∷ b'p' ∷ b'p' ∷ b'i' ∷ b'n' ∷ b'g' ∷ []

abbrev pay : Text
pay = b'a' ∷ b'.' ∷ b'p' ∷ b'a' ∷ b'y' ∷ []

abbrev config : SecurityConfig
config = record {
  rbac_enabled = true;
  audit_enabled = true;
  default_role = "anonymous";
  superadmin_role = some "admin";
  require_auth = false;
  anonymous_methods = ping ∷ [];
}

abbrev pay_permission : Permission
pay_permission = record { resource = "orders"; action = "pay" }

-- Every service function asks for that permission.
abbrev funcs : Text → Option (Option PermissionData)
funcs name = some (some (permission_items ("orders" ∷ "pay" ∷ [])))

abbrev is_space : ℕ → Bool
is_space c = c == b' '

abbrev same : Text → Text
same t = t

abbrev exact : String → String → Bool
exact name pattern = same_text name pattern

abbrev label : Text → String
label t = "method"

abbrev policy : RbacPolicy
policy = init_policy config none

abbrev environment : Environment
environment = with_policy is_space same funcs exact label policy

abbrev claim : AuthContext
claim = record {
  scheme = bearer;
  credentials = some "anything";
  principal = some "mallory";
  principal_type = none;
  roles = some ("admin" ∷ []);
}

abbrev claiming : RequestMetadata
claiming = record {
  timestamp_ms = 0;
  client_id = none;
  client_version = none;
  auth = some claim;
  tenant_id = none;
  headers = none;
  long_task = false;
  long_task_method = none;
  long_task_timeout = none;
}

abbrev request : Text → Option RequestMetadata → SecuredRequest
request method m = record { id = some "1"; method = method; metadata = m; trace_id = none }

abbrev context : ServerContext
context = record {
  principal = none;
  auth = none;
  principal_id = none;
  principal_type = none;
  roles = none;
}

-- "a.shipping" ends with "ping".
suffix_passes_example :
    intercept environment config (request shipping none) context
    ≡ record { context = context; events = []; verdict = passed }
unfolding with_policy
suffix_passes_example =
    suffix_passes environment config (request shipping none) context [] [] ping
      (b'a' ∷ b'.' ∷ b's' ∷ b'h' ∷ b'i' ∷ b'p' ∷ []) refl refl

pay_permitted : get_permission_for_method is_space funcs pay ≡ some pay_permission
unfolding get_permission_for_method normalize_permission_data parse_compat strip lstrip partition
    split join after_prefix contains
pay_permitted = refl

claim_superadmin : is_superadmin policy (principal_of_auth claim) ≡ true
unfolding is_superadmin init_policy principal_of_auth set_superadmin_role
claim_superadmin = refl

claimed_superadmin_passes_example :
    (intercept environment config (request pay (some claiming)) context).verdict ≡ passed
claimed_superadmin_passes_example =
    claimed_superadmin_passes is_space same funcs exact label policy config
      (request pay (some claiming)) context claiming claim pay_permission "anything" "mallory" refl
      refl refl refl claim_superadmin refl pay_permitted

intercept_passed_iff_example :
    ((intercept environment config (request pay (some claiming)) context).verdict ≡ passed)
    ↔ Admitted environment config (request pay (some claiming)) context
intercept_passed_iff_example =
    intercept_passed_iff environment config (request pay (some claiming)) context

pay_named : is_anonymous_method is_space same (ping ∷ []) pay ≡ false
unfolding is_anonymous_method ends_with same_codes parse_compat strip lstrip partition split join
    after_prefix contains
pay_named = refl

intercept-Trail_example :
    Trail environment config
      (request pay (some claiming))
      context
      (types (intercept environment config (request pay (some claiming)) context).events)
      (intercept environment config (request pay (some claiming)) context).verdict
unfolding with_policy
intercept-Trail_example =
    intercept-Trail environment config (request pay (some claiming)) context refl pay_named

-- In a chain whose state is the context, with two handlers.
abbrev state : SecuredState ServerContext
state = record {
  request = λ c. request pay none;
  context = λ c. c;
  set_context = λ d c. d;
  log_events = λ es c. c;
}

abbrev view : View ServerContext ℕ String
view = record {
  handler_wrappers = λ c. [];
  error_with =
      λ code. record { code = code; name = "E"; message = ""; details = none; debug = none };
  request_id = λ c. "1";
  abort_reading = λ c. record { timestamp_ms = 5; elapsed_ms = 1; server_metadata = [] };
  store_response = λ r c. c;
  store_error = λ e c. c;
}

abbrev silent : Handler ServerContext ℕ String
silent c = stops c finished

abbrev failing : Handler ServerContext ℕ String
failing c = stops c (failed 3)

-- Without a token.
pay_aborted : (intercept environment config (request pay none) context).verdict ≡ aborted 3000 none
unfolding intercept with_policy extract_token or_else is_anonymous_method ends_with same_codes
    parse_compat strip lstrip partition split join after_prefix contains code_of
pay_aborted = refl

aborted-ne-passed : (v : Verdict) → v ≡ aborted 3000 none → v ≢ passed
aborted-ne-passed v h k = ground arith

pay_refused : (intercept environment config (request pay none) context).verdict ≢ passed
pay_refused = aborted-ne-passed _ pay_aborted

not_admitted : ¬ (Admitted environment config (request pay none) context)
not_admitted a =
    pay_refused ((intercept_passed_iff environment config (request pay none) context).1 a)

unadmitted_handler_example :
    execute view (security_interceptor state environment config 9 ∷ []) silent context
    ≡ execute view (security_interceptor state environment config 9 ∷ []) failing context
unadmitted_handler_example =
    unadmitted_handler state environment config 9 view [] [] context silent failing not_admitted
