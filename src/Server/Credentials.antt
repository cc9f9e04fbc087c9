-- ===== src/Server/Credentials.antt =====
-- Who a request comes from and what its method asks for: the helpers of SecurityInterceptor in
-- src/aduib_rpc/server/interceptors/security.py, and the default validators of
-- src/aduib_rpc/security/validators.py. Methods are lists of code points, as in Server/MethodName.
use Prim.Native.String.{String}
use aduib_rpc.Prelude.{
  Bool, List, Option, [], any, false, if◌then◌else◌, none, or_empty, same_text, some, true,
  truthy_text, ℕ, ◌&&◌, ◌++◌, ◌==◌, ◌>>=◌, ◌||◌, ◌∷◌,
}
use mathlib.Core.Option as Opt
use aduib_rpc.Protocol.Messages.{AuthContext, RequestMetadata}
use aduib_rpc.Security.Rbac
use aduib_rpc.Security.Rbac.{Permission, Principal, RbacPolicy}
use aduib_rpc.Server.MethodName.{Text, MethodName, parse_compat}

pub record SecurityConfig : Type 0 where
  pub rbac_enabled : Bool
  pub audit_enabled : Bool
  pub default_role : String
  pub superadmin_role : Option String
  pub require_auth : Bool
  pub anonymous_methods : List Text

-- What the interceptor reads of an AduibRpcRequest.
pub record SecuredRequest : Type 0 where
  pub id : Option String
  pub method : Text
  pub metadata : Option RequestMetadata
  pub trace_id : Option String

-- `state["auth"]`, a dict with a token, an api_key, or neither.
pub record StateAuth : Type 0 where
  pub token : Option String
  pub key : Option String

-- ServerContext: the entries `principal` and `auth` of its state, and the entries of its metadata
-- that the interceptor uses; the roles where they are a set.
pub record ServerContext : Type 0 where
  pub principal : Option Principal
  pub auth : Option StateAuth
  pub principal_id : Option String
  pub principal_type : Option String
  pub roles : Option (List String)

-- The value of `permission` in the metadata of a service function: a Permission, a dict with a
-- resource and an action, a tuple or list of values as `str` gives them, or something else.
pub data PermissionData : Type 0 where
  permission_object : Permission → PermissionData
  permission_dict : Option String → Option String → PermissionData
  permission_items : List String → PermissionData
  other_permission : PermissionData

starts_with : Text → Text → Bool
starts_with [] s = true
starts_with (c ∷ p) [] = false
starts_with (c ∷ p) (d ∷ s) = c == d && starts_with p s

unfoldable pub same_codes : Text → Text → Bool
same_codes [] [] = true
same_codes [] (d ∷ s) = false
same_codes (c ∷ p) [] = false
same_codes (c ∷ p) (d ∷ s) = c == d && same_codes p s

unfoldable pub ends_with : Text → Text → Bool
unfolding same_codes
ends_with p [] = same_codes p []
ends_with p (d ∷ s) = same_codes p (d ∷ s) || ends_with p s

-- `p in s`.
has_part : Text → Text → Bool
unfolding starts_with
has_part p [] = starts_with p []
has_part p (d ∷ s) = starts_with p (d ∷ s) || has_part p s

-- Python's `isspace` of a character and `str.lower` are parameters.
module _ (is_space : ℕ → Bool) (lower : Text → Text) where
  starts_parsed : List Text → Option MethodName → Bool
  unfolding starts_with
  starts_parsed patterns none = false
  starts_parsed patterns (some m) =
      any (λ p. starts_with (lower p) (lower m.service) || starts_with (lower p) (lower m.handler))
        patterns

  unfoldable pub is_anonymous_method : List Text → Text → Bool
  unfolding ends_with has_part starts_parsed
  is_anonymous_method patterns method =
      any (λ p. ends_with (lower p) (lower method) || has_part (b'.' ∷ lower p) (lower method))
        patterns
      || starts_parsed patterns (parse_compat is_space method)

-- `_normalize_permission_data`.
permission_of_texts : Option String → Option String → Option Permission
permission_of_texts none action = none
permission_of_texts (some resource) none = none
permission_of_texts (some resource) (some action) =
    some (record { resource = resource; action = action })

permission_of_items : List String → Option Permission
permission_of_items (resource ∷ action ∷ []) =
    some (record { resource = resource; action = action })
permission_of_items _ = none

unfoldable pub normalize_permission_data : Option PermissionData → Option Permission
unfolding permission_of_texts permission_of_items
normalize_permission_data none = none
normalize_permission_data (some (permission_object p)) = some p
normalize_permission_data (some (permission_dict resource action)) =
    permission_of_texts resource action
normalize_permission_data (some (permission_items items)) = permission_of_items items
normalize_permission_data (some other_permission) = none

-- `_get_permission_for_method`: the runtime's service functions are a function from their names,
-- each with the permission in its metadata.
module _ (is_space : ℕ → Bool) (service_funcs : Text → Option (Option PermissionData)) where
  or_legacy : MethodName → Option (Option PermissionData) → Option (Option PermissionData)
  or_legacy m (some f) = some f
  or_legacy m none = service_funcs (m.service ++ b'.' ∷ m.handler)

  unfoldable pub get_permission_for_method : Text → Option Permission
  unfolding or_legacy
  get_permission_for_method method = do
    m ← parse_compat is_space method
    f ← or_legacy m (service_funcs m.handler)
    normalize_permission_data f

-- `_extract_token`.
unfoldable pub or_else : {A : Type 0} → Option A → Option A → Option A
or_else (some a) b = some a
or_else none b = b

unfoldable pub extract_token : SecuredRequest → ServerContext → Option String
unfolding or_else
extract_token r c =
    or_else (r.metadata >>= λ m. m.auth >>= λ a. truthy_text a.credentials)
      (c.auth >>= λ s. or_else (truthy_text s.token) (truthy_text s.key))

-- A principal as the metadata of a request names it: without a type, a user.
unfoldable pub principal_of_auth : AuthContext → Principal
principal_of_auth a = record {
  id = a.principal;
  kind = Opt.get_or (truthy_text a.principal_type) "user";
  roles = or_empty a.roles;
}

-- A principal as the metadata of the context names it, or else the anonymous one.
anonymous_principal : SecurityConfig → Principal
anonymous_principal config = record {
  id = some "anonymous";
  kind = "anonymous";
  roles = if same_text config.default_role "" then [] else config.default_role ∷ [];
}

principal_of_context : SecurityConfig → ServerContext → Option String → Principal
unfolding anonymous_principal
principal_of_context config c none = anonymous_principal config
principal_of_context config c (some id) = record {
  id = some id;
  kind = Opt.get_or c.principal_type "user";
  roles = or_empty c.roles;
}

principal_of_metadata : SecurityConfig → ServerContext → Option AuthContext → Principal
unfolding principal_of_context principal_of_auth
principal_of_metadata config c (some a) = principal_of_auth a
principal_of_metadata config c none = principal_of_context config c (truthy_text c.principal_id)

-- `_extract_principal`: `none` is the AttributeError of a request without metadata.
principal_of_request : SecurityConfig → ServerContext → Option RequestMetadata → Option Principal
unfolding principal_of_metadata
principal_of_request config c none = none
principal_of_request config c (some m) = some (principal_of_metadata config c m.auth)

unfoldable pub extract_principal :
    SecurityConfig → SecuredRequest → ServerContext → Option Principal
unfolding or_else principal_of_request
extract_principal config r c = or_else c.principal (principal_of_request config c r.metadata)

-- What a token validator does: it returns a principal or None, or raises.
pub data Validated : Type 0 where
  valid : Option Principal → Validated
  token_expired invalid_token unauthenticated other_exception : Validated

-- MetadataTokenValidator.
unfoldable pub validated_by : Option AuthContext → Option String → Validated
validated_by (some a) (some id) = valid (some (principal_of_auth a))
validated_by _ _ = invalid_token

unfoldable pub metadata_validator : String → SecuredRequest → ServerContext → Validated
unfolding validated_by
metadata_validator token r c =
    let auth = r.metadata >>= λ m. m.auth in
    validated_by auth (auth >>= λ a. truthy_text a.principal)

-- RbacPermissionValidator; its audit events are those of `has_permission`. `text` is the text with
-- some code points.
unfoldable pub rbac_validator :
    (String → String → Bool) → (Text → String) → RbacPolicy → Principal → Permission → Text → Bool
rbac_validator fnmatch text policy p q method =
    Rbac.can_invoke_method fnmatch policy p (text method)
    && (Rbac.has_permission fnmatch policy p q).0
