-- ===== src/Server/Security/Identity.antt =====
-- Who is authenticated and who is not allowed a method by `intercept` of
-- src/aduib_rpc/server/interceptors/security.py.
use Prim.Native.String.{String}
use aduib_rpc.Prelude.{Option, arith, false, none, some, sym, true, ◌||◌, ◌∙◌, ◌≡◌}
use mathlib.Core.Path.{subst}
use aduib_rpc.Security.Rbac.{Permission, Principal}
use aduib_rpc.Server.Credentials.{
  SecurityConfig, SecuredRequest, ServerContext, Validated, valid, get_permission_for_method,
  extract_token, extract_principal,
}
use aduib_rpc.Server.Security.Admission.{
  Known, Allowed, by_token, by_valid_token, without_token, without_rbac, by_permission,
}
use aduib_rpc.Server.Security.{Environment, set_principal}

module _ (e : Environment) (config : SecurityConfig) (r : SecuredRequest) (c : ServerContext) where
  -- How a request is authenticated: by a token that its validator takes, or, where neither
  -- authentication nor RBAC is asked for, without one.
  pub data Authenticated : Type 0 where
    with_token :
        (token : String) (o : Option Principal)
        → extract_token r c ≡ some token
        → e.validate token r c ≡ valid o
        → Authenticated
    no_token_needed :
        extract_token r c ≡ none
        → (config.require_auth || config.rbac_enabled) ≡ false
        → Authenticated

  -- A principal that is allowed a method under RBAC has its permission.
  pub no_permission :
      (p : Principal)
      → config.rbac_enabled ≡ true
      → get_permission_for_method e.is_space e.service_funcs r.method ≡ none
      → ¬ (Allowed e config r c p)
  no_permission p on o (without_rbac _ off) = absurd (ground arith)
  no_permission p on o (by_permission _ q on' found permit) = absurd (ground arith)

  pub not_granted :
      (p : Principal) (q : Permission)
      → config.rbac_enabled ≡ true
      → get_permission_for_method e.is_space e.service_funcs r.method ≡ some q
      → e.check p q r.method r (set_principal p c) ≡ some false
      → ¬ (Allowed e config r c p)
  not_granted p q on o k (without_rbac _ off) = absurd (ground arith)
  not_granted p q on o k (by_permission _ q' on' found permit) =
      let same : q' ≡ q = cc in
      let both : e.check p q r.method r (set_principal p c) ≡ some true =
        subst (λ x. e.check p x r.method r (set_principal p c) ≡ some true) same permit in
      absurd (ground arith)

  -- The principal of a token that was validated.
  pub token_principal :
      (token : String) (p q : Principal)
      → extract_token r c ≡ some token
      → e.validate token r c ≡ valid (some p)
      → Known e config r c q
      → some p ≡ some q
  token_principal token p q t o (by_token _ token' t' o') =
      let same : token' ≡ token = cc in
      let both : valid (some p) ≡ valid (some q) =
        sym o ∙ subst (λ x. e.validate x r c ≡ valid (some q)) same o' in
      cc
  token_principal token p q t o (by_valid_token _ token' t' o' found) =
      let same : token' ≡ token = cc in
      let both : valid (some p) ≡ valid none =
        sym o ∙ subst (λ x. e.validate x r c ≡ valid none) same o' in
      absurd (ground arith)
  token_principal token p q t o (without_token _ t' off found) = absurd (ground arith)

  pub other_principal :
      (token : String) (q : Principal)
      → extract_token r c ≡ some token
      → e.validate token r c ≡ valid none
      → Known e config r c q
      → extract_principal config r c ≡ some q
  other_principal token q t o (by_token _ token' t' o') =
      let same : token' ≡ token = cc in
      let both : valid (some q) ≡ valid none =
        sym (subst (λ x. e.validate x r c ≡ valid (some q)) same o') ∙ o in
      absurd (ground arith)
  other_principal token q t o (by_valid_token _ token' t' o' found) = found
  other_principal token q t o (without_token _ t' off found) = found

  pub untaken :
      (token : String) (v : Validated)
      → extract_token r c ≡ some token
      → e.validate token r c ≡ v
      → ((o : Option Principal) → ¬ (v ≡ valid o))
      → ¬ (Authenticated)
  untaken token v t o n (with_token token' p t' o') =
      let same : token' ≡ token = cc in
      n p (sym o ∙ subst (λ x. e.validate x r c ≡ valid p) same o')
  untaken token v t o n (no_token_needed t' off) = absurd (ground arith)

  pub tokenless :
      extract_token r c ≡ none
      → (config.require_auth || config.rbac_enabled) ≡ true
      → ¬ (Authenticated)
  tokenless t on (with_token token p t' o) = absurd (ground arith)
  tokenless t on (no_token_needed t' off) =
      let both : true ≡ false = sym on ∙ off in absurd (ground arith)

  pub own_principal :
      (q : Principal)
      → extract_token r c ≡ none
      → Known e config r c q
      → extract_principal config r c ≡ some q
  own_principal q t (by_token _ token t' o) = absurd (ground arith)
  own_principal q t (by_valid_token _ token t' o found) = found
  own_principal q t (without_token _ t' off found) = found
