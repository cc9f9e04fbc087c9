-- ===== src/Server/Security/Trail.antt =====
-- The audit events of `intercept` of src/aduib_rpc/server/interceptors/security.py.
use Prim.Native.String.{String}
use aduib_rpc.Prelude.{
  Bool, List, Option, [], false, if◌then◌else◌, map, none, refl, some, sym, true, ℕ, ◌++◌, ◌||◌,
  ◌∷◌, ◌∙◌, ap, arith, ◌≡◌,
}
use mathlib.Core.Path.{subst}
use aduib_rpc.Protocol.Errors.{code_of}
use aduib_rpc.Protocol.Errors as ErrorCodes
use aduib_rpc.Security.Rbac.{Permission, Principal}
use aduib_rpc.Server.Credentials.{
  SecurityConfig, SecuredRequest, ServerContext, Validated, valid, token_expired, invalid_token,
  unauthenticated, other_exception, is_anonymous_method, get_permission_for_method, extract_token,
  extract_principal,
}
use aduib_rpc.Server.Security.Admission.{
  Known, Allowed, by_token, by_valid_token, without_token, without_rbac, by_permission,
}
use aduib_rpc.Server.Security.Identity.{
  Authenticated, with_token, no_token_needed, no_permission, not_granted, token_principal,
  other_principal, untaken, tokenless, own_principal,
}
use aduib_rpc.Server.Security.{
  Environment, Intercepted, Verdict, passed, aborted, raised, Denial, SecurityEvent, EventType,
  access_attempt, access_granted, access_denied, intercept, authenticate, validated, identified,
  authorize, authorize_by, checked, grant, deny_permission, set_principal, abort_with_error, logged,
  log_security_event,
}

abbrev pub types : List SecurityEvent → List EventType
types events = map (λ (x : SecurityEvent). x.event_type) events

module _ (e : Environment) (config : SecurityConfig) (r : SecuredRequest) (c : ServerContext) where
  -- What follows the attempt of a principal: a grant where it is allowed to call the method, a denial
  -- where it is not, and nothing where the permission validator raises.
  pub data Decided (p : Principal) : List EventType → Verdict → Type 0 where
    granted : Allowed e config r c p → Decided p (access_granted ∷ []) passed
    denied :
        (d : Option Denial)
        → ¬ (Allowed e config r c p)
        → Decided p (access_denied ∷ []) (aborted (code_of ErrorCodes.permission_denied) d)
    interrupted :
        (q : Permission)
        → config.rbac_enabled ≡ true
        → get_permission_for_method e.is_space e.service_funcs r.method ≡ some q
        → e.check p q r.method r (set_principal p c) ≡ none
        → Decided p [] raised

  -- The events of a request and its verdict: no event where it is not authenticated or its principal
  -- is not found, and else an attempt and its decision.
  pub data Trail : List EventType → Verdict → Type 0 where
    refused : (code : ℕ) → ¬ (Authenticated e config r c) → Trail [] (aborted code none)
    unidentified :
        Authenticated e config r c → ((p : Principal) → ¬ (Known e config r c p)) → Trail [] raised
    attempted :
        (p : Principal) (events : List EventType) (v : Verdict)
        → Known e config r c p
        → Decided p events v
        → Trail (access_attempt ∷ events) v

module _ (e : Environment) (config : SecurityConfig) (r : SecuredRequest) (c : ServerContext)
    (audited : config.audit_enabled ≡ true) where
  logged_lem :
      (p : Principal) (t : EventType) (reason : Option String)
      → logged config r p t reason ≡ log_security_event r p t reason ∷ []
  unfolding logged
  logged_lem p t reason = rw audited refl

  grant-Decided :
      (p : Principal)
      → Allowed e config r c p
      → Decided e config r c p (types (grant config r p).0) (grant config r p).1
  unfolding grant log_security_event
  grant-Decided p a =
      subst (λ l. Decided e config r c p (types l) passed) (sym (logged_lem p access_granted none))
        (granted a)

  deny_permission-Decided :
      (p : Principal) (reason : String) (q : Option Permission)
      → ¬ (Allowed e config r c p)
      → Decided e config r c p
          (types (deny_permission config r p reason q).0)
          (deny_permission config r p reason q).1
  unfolding deny_permission log_security_event
  deny_permission-Decided p reason q n =
      subst (λ l. Decided e config r c p (types l) (deny_permission config r p reason q).1)
        (sym (logged_lem p access_denied (some reason))) (denied _ n)

  checked-Decided :
      (p : Principal) (q : Permission) (k : Option Bool)
      → config.rbac_enabled ≡ true
      → get_permission_for_method e.is_space e.service_funcs r.method ≡ some q
      → e.check p q r.method r (set_principal p c) ≡ k
      → Decided e config r c p (types (checked config r p q k).0) (checked config r p q k).1
  unfolding checked
  checked-Decided p q none on o k = interrupted q on o k
  checked-Decided p q (some true) on o k = grant-Decided p (by_permission p q on o k)
  checked-Decided p q (some false) on o k =
      deny_permission-Decided p "insufficient_permissions" (some q)
        (not_granted e config r c p q on o k)

  authorize_by-Decided :
      (p : Principal) (o : Option Permission)
      → config.rbac_enabled ≡ true
      → get_permission_for_method e.is_space e.service_funcs r.method ≡ o
      → Decided e config r c p
          (types (authorize_by e config r p (set_principal p c) o).0)
          (authorize_by e config r p (set_principal p c) o).1
  unfolding authorize_by
  authorize_by-Decided p none on o =
      deny_permission-Decided p "permission_not_defined" none (no_permission e config r c p on o)
  authorize_by-Decided p (some q) on o =
      checked-Decided p q (e.check p q r.method r (set_principal p c)) on o refl

  either-Decided :
      (p : Principal) (b : Bool) (f g : List SecurityEvent × Verdict)
      → (b ≡ true → Decided e config r c p (types f.0) f.1)
      → (b ≡ false → Decided e config r c p (types g.0) g.1)
      → Decided e config r c p (types (if b then f else g).0) (if b then f else g).1
  either-Decided p true f g hf hg = hf refl
  either-Decided p false f g hf hg = hg refl

  authorize-Decided :
      (p : Principal)
      → Decided e config r c p
          (types (authorize e config r p (set_principal p c)).0)
          (authorize e config r p (set_principal p c)).1
  unfolding authorize
  authorize-Decided p =
      either-Decided p config.rbac_enabled _ _
        (λ on.
          authorize_by-Decided p (get_permission_for_method e.is_space e.service_funcs r.method) on
            refl)
        (λ off. grant-Decided p (without_rbac p off))

  identified-Trail :
      (o : Option Principal)
      → Authenticated e config r c
      → ((p : Principal) → o ≡ some p → Known e config r c p)
      → ((p : Principal) → Known e config r c p → o ≡ some p)
      → Trail e config r c
          (types (identified e config r c o).events)
          (identified e config r c o).verdict
  unfolding identified log_security_event
  identified-Trail none a known only =
      unidentified a (λ p k. let found = only p k in absurd (ground arith))
  identified-Trail (some p) a known only =
      subst
        (λ l.
          Trail e config r c (types (l ++ (authorize e config r p (set_principal p c)).0))
            (authorize e config r p (set_principal p c)).1)
        (sym (logged_lem p access_attempt none))
        (attempted p _ _ (known p refl) (authorize-Decided p))

  validated-Trail :
      (token : String) (v : Validated)
      → extract_token r c ≡ some token
      → e.validate token r c ≡ v
      → Trail e config r c
          (types (validated e config r c v).events)
          (validated e config r c v).verdict
  unfolding validated abort_with_error
  validated-Trail token (valid (some p)) t o =
      identified-Trail (some p) (with_token token (some p) t o)
        (λ q found. by_token q token t (o ∙ ap valid found))
        (λ q k. token_principal e config r c token p q t o k)
  validated-Trail token (valid none) t o =
      identified-Trail (extract_principal config r c) (with_token token none t o)
        (λ q found. by_valid_token q token t o found)
        (λ q k. other_principal e config r c token q t o k)
  validated-Trail token token_expired t o =
      refused _ (untaken e config r c token token_expired t o (λ p x. absurd (ground arith)))
  validated-Trail token invalid_token t o =
      refused _ (untaken e config r c token invalid_token t o (λ p x. absurd (ground arith)))
  validated-Trail token unauthenticated t o =
      refused _ (untaken e config r c token unauthenticated t o (λ p x. absurd (ground arith)))
  validated-Trail token other_exception t o =
      refused _ (untaken e config r c token other_exception t o (λ p x. absurd (ground arith)))

  either-Trail :
      (b : Bool) (f g : Intercepted)
      → (b ≡ true → Trail e config r c (types f.events) f.verdict)
      → (b ≡ false → Trail e config r c (types g.events) g.verdict)
      → Trail e config r c (types (if b then f else g).events) (if b then f else g).verdict
  either-Trail true f g hf hg = hf refl
  either-Trail false f g hf hg = hg refl

  authenticate-Trail :
      (t : Option String)
      → extract_token r c ≡ t
      → Trail e config r c
          (types (authenticate e config r c t).events)
          (authenticate e config r c t).verdict
  unfolding authenticate abort_with_error
  authenticate-Trail none t =
      either-Trail (config.require_auth || config.rbac_enabled) _ _
        (λ on. refused _ (tokenless e config r c t on))
        (λ off.
          identified-Trail (extract_principal config r c) (no_token_needed t off)
            (λ q found. without_token q t off found) (λ q k. own_principal e config r c q t k))
  authenticate-Trail (some token) t = validated-Trail token (e.validate token r c) t refl

  -- With audit logging on, a request to a method that is not anonymous leaves no event exactly where
  -- it is not authenticated, and aborted, or its principal is not known, and an exception raised.
  -- Every other one leaves an attempt, followed by exactly one decision: a grant where the principal
  -- is allowed the method and passes, a denial where it is not and is aborted. Only a permission
  -- validator that raises leaves an attempt alone.
  pub intercept-Trail :
      is_anonymous_method e.is_space e.lower config.anonymous_methods r.method ≡ false
      → Trail e config r c (types (intercept e config r c).events) (intercept e config r c).verdict
  unfolding intercept
  intercept-Trail named =
      either-Trail (is_anonymous_method e.is_space e.lower config.anonymous_methods r.method) _ _
        (λ on. let both : true ≡ false = sym on ∙ named in absurd (ground arith))
        (λ off. authenticate-Trail (extract_token r c) refl)
