-- ===== src/Server/Chain/Version.antt =====
-- VersionNegotiationInterceptor and negotiate_client_version of
-- src/aduib_rpc/server/interceptors/version_negotiation.py, as an interceptor of the chain.
use Prim.Native.String.{String}
use aduib_rpc.Prelude.{
  Bool, List, Option, [], any, arith, if◌then◌else◌, refl, same_text, some, All, ap, ◌++◌, ◌∙◌, ◌∷◌,
  ◌≡◌, false, true,
}
use mathlib.Core.Option as Opt
use aduib_rpc.Protocol.Errors.{code_of, unsupported_version}
use aduib_rpc.Protocol.Messages.{AduibRpcResponse}
use aduib_rpc.Server.Chain.{
  Interceptor, Entered, continues, aborts, raises, Ended, finished, failed, Done, nest,
  entered_with, left, View, Handler, execute, body,
}

-- What a request is: an AduibRpcRequest, a dict with a value for "aduib_rpc" or "jsonrpc" or
-- neither, another object with an attribute `aduib_rpc`, or anything else.
pub data RequestForm : Type 0 where
  v2_request : RequestForm
  dict_request : Option String → Option String → RequestForm
  attribute_request : String → RequestForm
  other_request : RequestForm

-- `_detect_version`.
unfoldable pub detect_version : RequestForm → String
detect_version v2_request = "2.0"
detect_version (dict_request v j) = Opt.get_or v (Opt.get_or j "unknown")
detect_version (attribute_request v) = v
detect_version other_request = "unknown"

-- The state's request, and the versions that are set in it.
pub record VersionFields (S : Type 0) : Type 0 where
  pub form : S → RequestForm
  pub set_versions : String → String → S → S

module _ {S E : Type 0} (f : VersionFields S) (did_not_stop : E) (default_version : String) where
  enter : S → S × Entered E
  unfolding detect_version code_of
  enter s =
      let v = detect_version (f.form s) in
      (
        f.set_versions v default_version s,
        if same_text v "2.0" then continues else aborts (some (code_of unsupported_version)),
      )

  -- After an exception the `except` yields once more, for which contextlib raises the RuntimeError
  -- "generator didn't stop after athrow()".
  leave : S → Ended E → S × Ended E
  leave s finished = (s, finished)
  leave s (failed x) = (s, failed did_not_stop)

  unfoldable pub version_interceptor : Interceptor S E
  unfolding enter leave
  version_interceptor = record { order = 2; enter = enter; leave = leave }

-- That an interceptor leaves the form of the request as it is.
abbrev pub KeepsForm : {S E : Type 0} → VersionFields S → Interceptor S E → Type 0
KeepsForm {S} f i = (s : S) → f.form (i.enter s).0 ≡ f.form s

module _ {S E V : Type 0} (f : VersionFields S) (did_not_stop : E) (default_version : String)
    (v : View S E V) (js ks : List (Interceptor S E)) (h k : Handler S E V) where
  refused_entry :
      (b : Bool) (s : S)
      → b ≡ false
      → entered_with
          (version_interceptor f did_not_stop default_version)
          (s, if b then continues else aborts (some 1001))
          (λ s. nest js (body v h) s)
          (body v h)
        ≡ entered_with
            (version_interceptor f did_not_stop default_version)
            (s, if b then continues else aborts (some 1001))
            (λ s. nest ks (body v k) s)
            (body v k)
  unfolding entered_with body
  refused_entry true s o = absurd (ground arith)
  refused_entry false s o = refl

  same_entry :
      (p : Interceptor S E) (t : S × Entered E) (g l : S → Done S E (AduibRpcResponse V))
      → g t.0 ≡ l t.0
      → entered_with p t g (body v h) ≡ entered_with p t l (body v k)
  unfolding entered_with body
  same_entry p (s, continues) g l o = ap (left p) o
  same_entry p (s, aborts code) g l o = refl
  same_entry p (s, raises x) g l o = refl

  -- Where the interceptors before it leave the form of the request as it is, a request of another
  -- version than 2.0 is answered in the same way, and leaves the same state, whatever the handler
  -- and the interceptors after the version interceptor are: none of them gets to see it.
  pub unsupported_unseen :
      (ps : List (Interceptor S E)) (s : S)
      → All (KeepsForm f) ps
      → same_text (detect_version (f.form s)) "2.0" ≡ false
      → execute v (ps ++ version_interceptor f did_not_stop default_version ∷ js) h s
        ≡ execute v (ps ++ version_interceptor f did_not_stop default_version ∷ ks) k s
  unfolding execute nest version_interceptor enter code_of
  unsupported_unseen [] s keep other =
      refused_entry (same_text (detect_version (f.form s)) "2.0")
        (f.set_versions (detect_version (f.form s)) default_version s) other
  unsupported_unseen (p ∷ ps) s keep other = same_entry p (p.enter s) _ _ (
      unsupported_unseen ps (p.enter s).0 keep.1
        (ap (λ r. same_text (detect_version r) "2.0") (keep.0 s) ∙ other))

-- `negotiate_client_version`.
abbrev supported : List String → String → Bool
supported versions v = any (λ w. same_text v w) versions

first_supported : List String → List String → String
first_supported [] server = "2.0"
first_supported (v ∷ client) server =
    let rest = first_supported client server in if supported server v then v else rest

unfoldable pub negotiate_client_version : Option (List String) → Option (List String) → String
unfolding first_supported
negotiate_client_version client server =
    first_supported (Opt.get_or client ("2.0" ∷ [])) (Opt.get_or server ("2.0" ∷ []))
