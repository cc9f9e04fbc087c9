-- ===== src/Server/Security/Guard.antt =====
-- SecurityInterceptor of src/aduib_rpc/server/interceptors/security.py in the chain of
-- src/aduib_rpc/server/context.py: it is the first of its interceptors, since its order is 0.
use aduib_rpc.Prelude.{List, refl, some, ◌∷◌, ◌≡◌, ◌≢◌}
use aduib_rpc.Server.Chain.{
  Interceptor, Entered, continues, aborts, raises, View, Handler, execute, nest, body, entered_with,
}
use aduib_rpc.Server.Credentials.{SecurityConfig, SecuredRequest, ServerContext}
use aduib_rpc.Server.Security.{
  Environment, SecurityEvent, Verdict, passed, aborted, raised, intercept,
}
use aduib_rpc.Server.Security.Admission.{Admitted, intercept_passed_iff}

-- The request and the server context in the state of a chain, and where the audit events go.
pub record SecuredState (S : Type 0) : Type 0 where
  pub request : S → SecuredRequest
  pub context : S → ServerContext
  pub set_context : ServerContext → S → S
  pub log_events : List SecurityEvent → S → S

module _ {S E : Type 0} (f : SecuredState S) (e : Environment) (config : SecurityConfig)
    (exception : E) where
  -- What a verdict is to the chain; the exceptions are not told apart.
  entered_by : Verdict → Entered E
  entered_by passed = continues
  entered_by (aborted code d) = aborts (some code)
  entered_by raised = raises exception

  enter : S → S × Entered E
  unfolding entered_by
  enter s =
      let i = intercept e config (f.request s) (f.context s) in
      (f.set_context i.context (f.log_events i.events s), entered_by i.verdict)

  unfoldable pub security_interceptor : Interceptor S E
  unfolding enter
  security_interceptor = record { order = 0; enter = enter; leave = λ s x. (s, x) }

module _ {S E V : Type 0} (f : SecuredState S) (e : Environment) (config : SecurityConfig)
    (exception : E) (v : View S E V) (is js : List (Interceptor S E)) where
  same_unless_passed :
      (t : Verdict) (s : S) (h k : Handler S E V)
      → t ≢ passed
      → entered_with
          (security_interceptor f e config exception)
          (s, entered_by f e config exception t)
          (λ s. nest is (body v h) s)
          (body v h)
        ≡ entered_with
            (security_interceptor f e config exception)
            (s, entered_by f e config exception t)
            (λ s. nest js (body v k) s)
            (body v k)
  unfolding entered_with entered_by body
  same_unless_passed passed s h k n = absurd (n refl)
  same_unless_passed (aborted code d) s h k n = refl
  same_unless_passed raised s h k n = refl

  -- Where the security interceptor is the first, a request that is not admitted is answered in the
  -- same way, and leaves the same state, whatever the handler and the interceptors after it are:
  -- none of them gets to see it.
  pub unadmitted_handler :
      (s : S) (h k : Handler S E V)
      → ¬ (Admitted e config (f.request s) (f.context s))
      → execute v (security_interceptor f e config exception ∷ is) h s
        ≡ execute v (security_interceptor f e config exception ∷ js) k s
  unfolding execute nest security_interceptor enter
  unadmitted_handler s h k n =
      let i = intercept e config (f.request s) (f.context s) in
      same_unless_passed i.verdict (f.set_context i.context (f.log_events i.events s)) h k
        (λ p. n ((intercept_passed_iff e config (f.request s) (f.context s)).0 p))
