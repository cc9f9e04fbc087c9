-- ===== src/Server/Security/Defaults.antt =====
-- SecurityInterceptor of src/aduib_rpc/server/interceptors/security.py as its constructor makes it
-- where nothing is given: the policy, the validators, and what they let pass.
use Prim.Native.String.{String}
use aduib_rpc.Prelude.{
  Bool, List, Option, [], any, arith, false, none, refl, some, true, truthy_text, ℕ, ◌++◌, ◌∷◌, ◌≡◌,
  sym, ◌||◌,
}
use mathlib.Core.Path.{subst}
use aduib_rpc.Protocol.Messages.{AuthContext, RequestMetadata}
use aduib_rpc.Security.Rbac
use aduib_rpc.Security.Rbac.{Permission, RbacPolicy, Role, is_superadmin}
use aduib_rpc.Server.Credentials.{
  extract_token, SecurityConfig, SecuredRequest, ServerContext, PermissionData, is_anonymous_method,
  get_permission_for_method, metadata_validator, rbac_validator, principal_of_auth, ends_with,
  same_codes,
}
use aduib_rpc.Server.MethodName.{Text}
use aduib_rpc.Server.Security.{Environment, intercept, passed}
use aduib_rpc.Server.Security.Admission.{intercept_passed_iff, authorized, by_token, by_permission}

-- The policy of `__init__`.
admin_role : Role
admin_role = record {
  name = "admin";
  permissions = record { resource = "*"; action = "*" } ∷ [];
  allowed_methods = "*" ∷ [];
  denied_methods = [];
}

with_superadmin : Option String → RbacPolicy → RbacPolicy
with_superadmin none policy = policy
with_superadmin (some name) policy = Rbac.set_superadmin_role name policy

given_policy : SecurityConfig → Option RbacPolicy → RbacPolicy
unfolding admin_role
given_policy config (some policy) = policy
given_policy config none = Rbac.init (admin_role ∷ []) (some config.default_role) false

unfoldable pub init_policy : SecurityConfig → Option RbacPolicy → RbacPolicy
unfolding with_superadmin given_policy
init_policy config policy =
    with_superadmin (truthy_text config.superadmin_role) (given_policy config policy)

-- `refresh_from_config`.
unfoldable pub refresh_from_config : SecurityConfig → RbacPolicy → RbacPolicy
unfolding with_superadmin
refresh_from_config config policy =
    with_superadmin (truthy_text config.superadmin_role)
      (Rbac.set_default_role config.default_role policy)

-- The interceptor with the default validators over a policy.
unfoldable pub with_policy :
    (ℕ → Bool)
    → (Text → Text)
    → (Text → Option (Option PermissionData))
    → (String → String → Bool)
    → (Text → String)
    → RbacPolicy
    → Environment
with_policy is_space lower service_funcs fnmatch text policy = record {
  is_space = is_space;
  lower = lower;
  service_funcs = service_funcs;
  validate = metadata_validator;
  check = λ p q method r c. some (rbac_validator fnmatch text policy p q method);
}

or_true : (a b : Bool) → a ≡ true → (a || b) ≡ true
or_true a b h = rw h refl

any_middle :
    (f : Text → Bool) (ps qs : List Text) (p : Text) → f p ≡ true → any f (ps ++ p ∷ qs) ≡ true
any_middle f [] qs p h = rw h refl
any_middle f (q ∷ ps) qs p h = ground (arith, any_middle f ps qs p h)

same_codes_refl : (t : Text) → same_codes t t ≡ true
unfolding same_codes
same_codes_refl [] = refl
same_codes_refl (c ∷ t) = ground (arith, same_codes_refl t)

ends_with_self : (p : Text) → ends_with p p ≡ true
unfolding ends_with same_codes
ends_with_self [] = refl
ends_with_self (c ∷ p) = ground (arith, same_codes_refl (c ∷ p))

ends_with-append : (p t : Text) → ends_with p (t ++ p) ≡ true
unfolding ends_with
ends_with-append p [] = ends_with_self p
ends_with-append p (c ∷ t) = ground (arith, ends_with-append p t)

suffix_anonymous :
    (is_space : ℕ → Bool) (lower : Text → Text) (ps qs : List Text) (p t method : Text)
    → lower method ≡ t ++ lower p
    → is_anonymous_method is_space lower (ps ++ p ∷ qs) method ≡ true
unfolding is_anonymous_method
suffix_anonymous is_space lower ps qs p t method named =
    let ends : ends_with (lower p) (lower method) ≡ true =
      subst (λ m. ends_with (lower p) m ≡ true) (sym named) (ends_with-append (lower p) t) in
    or_true _ _ (any_middle _ ps qs p (or_true _ _ ends))

-- A method whose lower-case name ends with that of an anonymous method, whatever stands before it,
-- passes with no authentication, no authorisation and no audit event.
pub suffix_passes :
    (e : Environment) (config : SecurityConfig) (r : SecuredRequest) (c : ServerContext)
    (ps qs : List Text) (p t : Text)
    → config.anonymous_methods ≡ ps ++ p ∷ qs
    → e.lower r.method ≡ t ++ e.lower p
    → intercept e config r c ≡ record { context = c; events = []; verdict = passed }
unfolding intercept
suffix_passes e config r c ps qs p t listed named =
    let anonymous =
      subst (λ patterns. is_anonymous_method e.is_space e.lower patterns r.method ≡ true)
        (sym listed) (suffix_anonymous e.is_space e.lower ps qs p t r.method named) in
    rw anonymous refl

module _ (is_space : ℕ → Bool) (lower : Text → Text)
    (service_funcs : Text → Option (Option PermissionData)) (fnmatch : String → String → Bool)
    (text : Text → String) (policy : RbacPolicy) where
  -- With the default validators a request is believed: if its own metadata carry any credentials,
  -- a name, and among its roles the superadmin's, it passes to every method with a permission.
  pub claimed_superadmin_passes :
      (config : SecurityConfig) (r : SecuredRequest) (c : ServerContext) (m : RequestMetadata)
      (a : AuthContext) (q : Permission) (token id : String)
      → r.metadata ≡ some m
      → m.auth ≡ some a
      → truthy_text a.credentials ≡ some token
      → truthy_text a.principal ≡ some id
      → is_superadmin policy (principal_of_auth a) ≡ true
      → config.rbac_enabled ≡ true
      → get_permission_for_method is_space service_funcs r.method ≡ some q
      → (intercept
          (with_policy is_space lower service_funcs fnmatch text policy)
          config
          r
          c).verdict
        ≡ passed
  unfolding extract_token with_policy principal_of_auth metadata_validator rbac_validator
      Rbac.can_invoke_method Rbac.has_permission
  claimed_superadmin_passes config r c m a q token id hm ha ht hi hs hr hq =
      let p = principal_of_auth a in
      (intercept_passed_iff (with_policy is_space lower service_funcs fnmatch text policy) config r
          c).1
        (authorized p (by_token p token (rw (hm, ha, ht) refl) (rw (hm, ha, hi) refl))
          (by_permission p q hr hq (rw (hs) refl)))
