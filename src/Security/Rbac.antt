-- ===== src/Security/Rbac.antt =====
-- src/aduib_rpc/security/rbac.py: permissions, roles, principals and RbacPolicy. `fnmatch` is that
-- of Python's library, a parameter: what is proved holds for every way to match a name with a
-- pattern. The audit callback is the list of the events that it gets.
pub mod Access
pub mod Audit
use Prim.Native.String.{String}
use aduib_rpc.Prelude.{
  Bool, List, Option, [], any, false, if◌then◌else◌, none, not, some, text_dec, true, ◌&&◌, ◌++◌,
  ◌||◌, ◌∷◌, same_text, map,
}
use aduib_rpc.Prelude.Dict

pub record Permission : Type 0 where
  pub resource : String
  pub action : String

-- The frozensets are lists; `metadata` plays no part.
pub record Role : Type 0 where
  pub name : String
  pub permissions : List Permission
  pub allowed_methods : List String
  pub denied_methods : List String

-- The id may be None: the security interceptor makes such principals.
pub record Principal : Type 0 where
  pub id : Option String
  pub kind : String
  pub roles : List String

-- `has_role`.
unfoldable pub has_role : Principal → String → Bool
has_role p name = any (λ r. same_text r name) p.roles

pub record RbacPolicy : Type 0 where
  pub roles : List (String × Role)
  pub superadmin_role : Option String
  pub default_role : Option String
  pub audited : Bool

-- `__init__`: of two roles with one name the later is kept.
roles_by_name : List Role → List (String × Role) → List (String × Role)
roles_by_name [] m = m
roles_by_name (r ∷ rs) m = roles_by_name rs (Dict.set text_dec r.name r m)

unfoldable pub init : List Role → Option String → Bool → RbacPolicy
unfolding roles_by_name
init roles default_role audited = record {
  roles = roles_by_name roles [];
  superadmin_role = none;
  default_role = default_role;
  audited = audited;
}

unfoldable pub add_role : Role → RbacPolicy → RbacPolicy
add_role r p = record p { roles = Dict.set text_dec r.name r p.roles }

unfoldable pub remove_role : String → RbacPolicy → RbacPolicy
remove_role name p = record p { roles = Dict.pop text_dec name p.roles }

unfoldable pub set_superadmin_role : String → RbacPolicy → RbacPolicy
set_superadmin_role name p = record p { superadmin_role = some name }

unfoldable pub set_default_role : String → RbacPolicy → RbacPolicy
set_default_role name p = record p { default_role = some name }

unfoldable pub set_audit_callback : RbacPolicy → RbacPolicy
set_audit_callback p = record p { audited = true }

unfoldable pub list_roles : RbacPolicy → List String
list_roles p = map (λ nr. nr.0) p.roles

unfoldable pub get_role : String → RbacPolicy → Option Role
get_role name p = Dict.get text_dec name p.roles

-- A name that Python takes for true: one is set, and it is not empty.
truthy : Option String → Bool
truthy none = false
truthy (some name) = not (same_text name "")

-- `self._superadmin_role and principal.has_role(self._superadmin_role)`.
superadmin_of : Option String → Principal → Bool
unfolding truthy has_role
superadmin_of none p = false
superadmin_of (some name) p = truthy (some name) && has_role p name

unfoldable pub is_superadmin : RbacPolicy → Principal → Bool
unfolding superadmin_of
is_superadmin policy p = superadmin_of policy.superadmin_role p

-- The set of role names that `create_principal` gives.
principal_roles : List String → Option String → List String
unfolding truthy
principal_roles [] none = []
principal_roles [] (some name) = if truthy (some name) then name ∷ [] else []
principal_roles (r ∷ rs) default_role = r ∷ rs

unfoldable pub create_principal : RbacPolicy → String → String → List String → Principal
unfolding principal_roles
create_principal policy id kind roles = record {
  id = some id;
  kind = kind;
  roles = principal_roles roles policy.default_role;
}

-- What the audit callback gets.
pub data AuditEvent : Type 0 where
  permission_check : Principal → Permission → Bool → AuditEvent
  permission_denied : Principal → Permission → Bool → AuditEvent

-- `_audit`: an event, if there is a callback; what the callback raises is swallowed.
unfoldable pub audit : RbacPolicy → AuditEvent → List AuditEvent
audit policy e = if policy.audited then e ∷ [] else []

-- Whether a role that is defined says which methods it allows.
unfoldable pub restricts : Option Role → Bool
restricts none = false
restricts (some r) = elim r.allowed_methods [ [] ↦ false | _ ∷ _ ↦ true ]

module _ (fnmatch : String → String → Bool) where
  -- `Permission.matches`: this permission's patterns against the other's names.
  unfoldable pub matches : Permission → Permission → Bool
  matches pattern p = fnmatch p.resource pattern.resource && fnmatch p.action pattern.action

  -- `Role.has_permission`.
  unfoldable pub role_has_permission : Role → Permission → Bool
  unfolding matches
  role_has_permission r p = any (λ q. matches q p) r.permissions

  unfoldable pub matches_any : String → List String → Bool
  matches_any method patterns = any (λ q. fnmatch method q) patterns

  -- `Role.is_method_allowed`.
  unfoldable pub is_method_allowed : Role → String → Bool
  unfolding matches_any
  is_method_allowed r method =
      if matches_any method r.denied_methods
      then false
      else elim r.allowed_methods [ [] ↦ true | _ ∷ _ ↦ matches_any method r.allowed_methods ]

  -- The first loop of `can_invoke_method`: some role that is defined denies the method.
  unfoldable pub denied_by : Option Role → String → Bool
  unfolding matches_any
  denied_by none method = false
  denied_by (some r) method = matches_any method r.denied_methods

  denied : RbacPolicy → List String → String → Bool
  unfolding denied_by get_role
  denied policy [] method = false
  denied policy (name ∷ names) method =
      denied_by (get_role name policy) method || denied policy names method

  -- The second loop: `allowed` is its early return, `has_allowed_rules` its flag.
  unfoldable pub allowed_by : Option Role → String → Bool
  unfolding matches_any
  allowed_by none method = false
  allowed_by (some r) method = matches_any method r.allowed_methods

  allowed_loop : RbacPolicy → List String → String → Bool → Bool
  unfolding allowed_by restricts get_role
  allowed_loop policy [] method has_allowed_rules = not has_allowed_rules
  allowed_loop policy (name ∷ names) method has_allowed_rules =
      let rest =
        allowed_loop policy names method (has_allowed_rules || restricts (get_role name policy)) in
      if allowed_by (get_role name policy) method then true else rest

  -- `can_invoke_method`.
  unfoldable pub can_invoke_method : RbacPolicy → Principal → String → Bool
  unfolding denied allowed_loop
  can_invoke_method policy p method =
      if is_superadmin policy p
      then true
      else if denied policy p.roles method
      then false
      else allowed_loop policy p.roles method false

  -- `_has_permission_no_audit`.
  grants : Option Role → Permission → Bool
  unfolding role_has_permission
  grants none q = false
  grants (some r) q = role_has_permission r q

  has_permission_no_audit : RbacPolicy → Principal → Permission → Bool
  unfolding grants get_role
  has_permission_no_audit policy p q =
      if is_superadmin policy p then true else any (λ name. grants (get_role name policy) q) p.roles

  -- `has_permission`, with the audit events that it emits.
  unfoldable pub has_permission : RbacPolicy → Principal → Permission → Bool × List AuditEvent
  unfolding has_permission_no_audit audit
  has_permission policy p q =
      let granted = has_permission_no_audit policy p q in
      (granted, audit policy (permission_check p q granted))

  -- `require_permission`: false stands for the PermissionDeniedError.
  unfoldable pub require_permission : RbacPolicy → Principal → Permission → Bool × List AuditEvent
  unfolding audit
  require_permission policy p q =
      let (granted, events) = has_permission policy p q in
      if granted
      then (true, events)
      else (false, events ++ audit policy (permission_denied p q false))
