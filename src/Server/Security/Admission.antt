-- ===== src/Server/Security/Admission.antt =====
-- Which requests pass `intercept` of src/aduib_rpc/server/interceptors/security.py.
use Prim.Native.String.{String}
use aduib_rpc.Prelude.{
  Bool, Option, ap, arith, false, none, refl, some, true, ◌||◌, ◌↔◌, ◌∙◌, ◌≡◌, [], if◌then◌else◌,
}
use mathlib.Core.Path.{subst}
use aduib_rpc.Protocol.Errors.{code_of}
use aduib_rpc.Protocol.Errors as ErrorCodes
use aduib_rpc.Security.Rbac.{Permission, Principal}
use aduib_rpc.Server.Credentials.{
  SecurityConfig, SecuredRequest, ServerContext, Validated, valid, token_expired, invalid_token,
  unauthenticated, other_exception, is_anonymous_method, get_permission_for_method, extract_token,
  extract_principal,
}
use aduib_rpc.Server.Security.{
  Environment, passed, intercept, authenticate, validated, identified, authorize, authorize_by,
  checked, grant, deny_permission, set_principal, abort_with_error,
}

module _ (e : Environment) (config : SecurityConfig) (r : SecuredRequest) (c : ServerContext) where
  -- How the principal of a request is known: its token's, the one that is extracted where the
  -- validator names none, or, where neither authentication nor RBAC is asked for, the one that is
  -- extracted without a token.
  pub data Known : Principal → Type 0 where
    by_token :
        (p : Principal) (token : String)
        → extract_token r c ≡ some token
        → e.validate token r c ≡ valid (some p)
        → Known p
    by_valid_token :
        (p : Principal) (token : String)
        → extract_token r c ≡ some token
        → e.validate token r c ≡ valid none
        → extract_principal config r c ≡ some p
        → Known p
    without_token :
        (p : Principal)
        → extract_token r c ≡ none
        → (config.require_auth || config.rbac_enabled) ≡ false
        → extract_principal config r c ≡ some p
        → Known p

  -- What a principal needs.
  pub data Allowed : Principal → Type 0 where
    without_rbac : (p : Principal) → config.rbac_enabled ≡ false → Allowed p
    by_permission :
        (p : Principal) (q : Permission)
        → config.rbac_enabled ≡ true
        → get_permission_for_method e.is_space e.service_funcs r.method ≡ some q
        → e.check p q r.method r (set_principal p c) ≡ some true
        → Allowed p

  pub data Admitted : Type 0 where
    anonymous :
        is_anonymous_method e.is_space e.lower config.anonymous_methods r.method ≡ true → Admitted
    authorized : (p : Principal) → Known p → Allowed p → Admitted

  checked_passed :
      (p : Principal) (q : Permission) (k : Option Bool)
      → (checked config r p q k).1 ≡ passed
      → k ≡ some true
  unfolding checked deny_permission
  checked_passed p q none h = ground arith
  checked_passed p q (some true) h = refl
  checked_passed p q (some false) h = ground arith

  authorize_by_passed :
      (p : Principal) (o : Option Permission)
      → (authorize_by e config r p (set_principal p c) o).1 ≡ passed
      → (q : Permission) × (o ≡ some q) × (e.check p q r.method r (set_principal p c) ≡ some true)
  unfolding authorize_by deny_permission
  authorize_by_passed p none h = absurd (ground arith)
  authorize_by_passed p (some q) h =
      (q, refl, checked_passed p q (e.check p q r.method r (set_principal p c)) h)

  authorize_passed :
      (p : Principal) (b : Bool)
      → config.rbac_enabled ≡ b
      → (authorize e config r p (set_principal p c)).1 ≡ passed
      → Allowed p
  unfolding authorize
  authorize_passed p false o h = without_rbac p o
  authorize_passed p true o h =
      let permission = get_permission_for_method e.is_space e.service_funcs r.method in
      let (q, found, granted) = authorize_by_passed p permission (
        subst
          (λ x.
            (if x
              then authorize_by e config r p (set_principal p c) permission
              else grant config r p).1
            ≡ passed)
          o h) in
      by_permission p q o found granted

  identified_passed :
      (o : Option Principal)
      → (identified e config r c o).verdict ≡ passed
      → (p : Principal) × (o ≡ some p) × Allowed p
  unfolding identified
  identified_passed none h = absurd (ground arith)
  identified_passed (some p) h = (p, refl, authorize_passed p config.rbac_enabled refl h)

  validated_passed :
      (token : String) (v : Validated)
      → extract_token r c ≡ some token
      → e.validate token r c ≡ v
      → (validated e config r c v).verdict ≡ passed
      → Admitted
  unfolding validated abort_with_error
  validated_passed token (valid (some p)) t o h =
      let (p', same, allowed) = identified_passed (some p) h in
      authorized p' (by_token p' token t (o ∙ ap valid same)) allowed
  validated_passed token (valid none) t o h =
      let (p, found, allowed) = identified_passed (extract_principal config r c) h in
      authorized p (by_valid_token p token t o found) allowed
  validated_passed token token_expired t o h = absurd (ground arith)
  validated_passed token invalid_token t o h = absurd (ground arith)
  validated_passed token unauthenticated t o h = absurd (ground arith)
  validated_passed token other_exception t o h = absurd (ground arith)

  without_token_passed :
      (b : Bool)
      → (config.require_auth || config.rbac_enabled) ≡ b
      → extract_token r c ≡ none
      → (authenticate e config r c none).verdict ≡ passed
      → Admitted
  unfolding authenticate abort_with_error
  without_token_passed true o t h = absurd (ground arith)
  without_token_passed false o t h =
      let (p, found, allowed) = identified_passed (extract_principal config r c) (
        subst
          (λ x.
            (if x
              then abort_with_error c (code_of ErrorCodes.unauthenticated)
              else identified e config r c (extract_principal config r c)).verdict
            ≡ passed)
          o h) in
      authorized p (without_token p t o found) allowed

  authenticate_passed :
      (t : Option String)
      → extract_token r c ≡ t
      → (authenticate e config r c t).verdict ≡ passed
      → Admitted
  unfolding authenticate
  authenticate_passed none o h =
      without_token_passed (config.require_auth || config.rbac_enabled) refl o h
  authenticate_passed (some token) o h = validated_passed token (e.validate token r c) o refl h

  intercept_passed :
      (b : Bool)
      → is_anonymous_method e.is_space e.lower config.anonymous_methods r.method ≡ b
      → (intercept e config r c).verdict ≡ passed
      → Admitted
  unfolding intercept
  intercept_passed true o h = anonymous o
  intercept_passed false o h = authenticate_passed (extract_token r c) refl (
      subst
        (λ x.
          (if x
            then record { context = c; events = []; verdict = passed }
            else authenticate e config r c (extract_token r c)).verdict
          ≡ passed)
        o h)

  authorize-Allowed :
      (p : Principal) → Allowed p → (authorize e config r p (set_principal p c)).1 ≡ passed
  unfolding authorize authorize_by checked grant
  authorize-Allowed p (without_rbac _ o) = rw o refl
  authorize-Allowed p (by_permission _ q o found granted) = rw (o, found, granted) refl

  authenticate-Known :
      (p : Principal)
      → Known p
      → Allowed p
      → (authenticate e config r c (extract_token r c)).verdict ≡ passed
  unfolding authenticate validated identified
  authenticate-Known p (by_token _ token t o) a = rw (t, o) (authorize-Allowed p a)
  authenticate-Known p (by_valid_token _ token t o found) a =
      rw (t, o, found) (authorize-Allowed p a)
  authenticate-Known p (without_token _ t o found) a = rw (t, o, found) (authorize-Allowed p a)

  admitted_passed :
      (b : Bool)
      → is_anonymous_method e.is_space e.lower config.anonymous_methods r.method ≡ b
      → Admitted
      → (intercept e config r c).verdict ≡ passed
  unfolding intercept
  admitted_passed true o a = rw o refl
  admitted_passed false o (anonymous named) = absurd (ground arith)
  admitted_passed false o (authorized p k a) = rw o (authenticate-Known p k a)

  -- A request passes the interceptor exactly if its method is anonymous, or its principal is known
  -- by a token that its validator takes, or without one where neither authentication nor RBAC is
  -- asked for, and that principal has the permission of the method where RBAC is enabled. A method
  -- without a permission passes for nobody then, and a validator that raises lets nobody pass.
  pub intercept_passed_iff : ((intercept e config r c).verdict ≡ passed) ↔ Admitted
  intercept_passed_iff =
      let method = is_anonymous_method e.is_space e.lower config.anonymous_methods r.method in
      (λ h. intercept_passed method refl h, λ a. admitted_passed method refl a)
