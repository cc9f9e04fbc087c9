-- ===== src/Tests/Chain.antt =====
-- src/aduib_rpc/server/context.py and version_negotiation.py on concrete chains. The state is the
-- list of what has run; exceptions and responses are numbers.
use aduib_rpc.Prelude.{
  List, Option, [], false, map, none, refl, same_text, some, ℕ, ◌*◌, ◌++◌, ◌+◌, ◌∷◌, ◌≡◌,
}
use Prim.Native.String.{String}
use mathlib.Core.Option as Opt
use aduib_rpc.Protocol.Messages.{AduibRpcResponse}
use aduib_rpc.Protocol.Wire.Enums.{success}
use aduib_rpc.Server.Chain.{
  View, Handler, execute, body, entered_with, attach_response_metadata, Interceptor, continues,
  aborts, failed, Done, Reading, yields, stops, nest, init, left, apply_wrappers,
}
use aduib_rpc.Server.Chain.Version.{
  VersionFields, version_interceptor, unsupported_unseen, v2_request, attribute_request,
  detect_version, negotiate_client_version,
}

-- Interceptors that write down that they run, under a number.
abbrev plain : ℕ → Interceptor (List ℕ) ℕ
plain n = record {
  order = n;
  enter = λ s. (s ++ n ∷ [], continues);
  leave = λ s e. (s ++ (n + 100) ∷ [], e);
}

abbrev aborting : Interceptor (List ℕ) ℕ
aborting = record {
  order = 2;
  enter = λ s. (s ++ 2 ∷ [], aborts none);
  leave = λ s e. (s ++ 102 ∷ [], e);
}

abbrev handler : Option (Option ℕ) → List ℕ → Done (List ℕ) ℕ ℕ
handler code s = record { state = s ++ 0 ∷ []; yielded = 42 ∷ []; ended = failed 13 }

abbrev chain : List (Interceptor (List ℕ) ℕ)
chain = plain 1 ∷ aborting ∷ plain 3 ∷ []

-- The third is not entered.
run_order : (nest chain handler []).state ≡ 1 ∷ 2 ∷ 0 ∷ 102 ∷ 101 ∷ []
unfolding nest left
run_order = refl

sorted_chain :
    map (λ (i : Interceptor (List ℕ) ℕ). i.order) (init (plain 3 ∷ plain 1 ∷ aborting ∷ []))
    ≡ 1 ∷ 2 ∷ 3 ∷ []
unfolding init
sorted_chain = refl

-- The wrapper that was stored first is the outermost.
wrapped : apply_wrappers ((λ (n : ℕ). 2 * n) ∷ (λ n. n + 1) ∷ []) 5 ≡ 12
unfolding apply_wrappers
wrapped = refl

-- A view of that state: the request is "1", and nothing is stored in it.
abbrev view : View (List ℕ) ℕ String
view = record {
  handler_wrappers = λ s. [];
  error_with =
      λ code. record { code = code; name = "E"; message = ""; details = none; debug = none };
  request_id = λ s. "1";
  abort_reading = λ s. record { timestamp_ms = 5; elapsed_ms = 1; server_metadata = [] };
  store_response = λ r s. s ++ 50 ∷ [];
  store_error = λ e s. s ++ 60 ∷ [];
}

abbrev failing : Handler (List ℕ) ℕ String
failing s = stops (s ++ 0 ∷ []) (failed 13)

-- Two responses, of which the first is in the context when the handler goes on.
abbrev response : AduibRpcResponse String
response = record {
  aduib_rpc = "2.0";
  id = none;
  status = success;
  result = some "r";
  error = none;
  negotiated_version = none;
  trace_context = none;
  metadata = none;
}

abbrev reading : Reading
reading = record { timestamp_ms = 5; elapsed_ms = 1; server_metadata = [] }

abbrev streaming : Handler (List ℕ) ℕ String
streaming s =
    yields (s ++ 0 ∷ []) (response, reading)
      (λ s. yields (s ++ 1 ∷ []) (response, reading) (λ s. stops s (failed 13)))

stored_between :
    (execute view (plain 1 ∷ []) streaming []).state ≡ 1 ∷ 0 ∷ 50 ∷ 1 ∷ 50 ∷ 60 ∷ 101 ∷ []
unfolding execute nest left body entered_with
stored_between = refl

-- The handler does not run, and the answer is an error of code 5000.
aborted_run : (execute view chain failing []).state ≡ 1 ∷ 2 ∷ 50 ∷ 102 ∷ 101 ∷ []
unfolding execute nest left body entered_with
aborted_run = refl

aborted_code :
    map
      (λ (r : AduibRpcResponse String). Opt.map (λ e. e.code) r.error)
      (execute view chain failing []).yielded
    ≡ some 5000 ∷ []
unfolding execute nest left body entered_with attach_response_metadata
aborted_code = refl

abbrev fields : VersionFields (List ℕ)
fields = record { form = λ s. v2_request; set_versions = λ v d s. s }

abbrev old_fields : VersionFields (List ℕ)
old_fields = record { form = λ s. attribute_request "1.0"; set_versions = λ v d s. s }

old_version : same_text (detect_version (attribute_request "1.0")) "2.0" ≡ false
unfolding detect_version
old_version = refl

-- An old request sees neither the chain after the interceptor nor the handler.
unsupported_unseen_example :
    execute view (plain 1 ∷ version_interceptor old_fields 99 "2.0" ∷ chain) failing []
    ≡ execute view (plain 1 ∷ version_interceptor old_fields 99 "2.0" ∷ []) streaming []
unsupported_unseen_example =
    unsupported_unseen old_fields 99 "2.0" view chain [] failing streaming (plain 1 ∷ []) []
      ((λ s. refl), tt) old_version

-- The handler's exception 13 leaves the interceptor as 99.
exception_masked :
    (execute view (version_interceptor fields 99 "2.0" ∷ []) failing []).ended ≡ failed 99
unfolding execute nest left body entered_with version_interceptor detect_version
exception_masked = refl

no_common_version : negotiate_client_version (some ("3.0" ∷ [])) (some ("4.0" ∷ [])) ≡ "2.0"
unfolding negotiate_client_version
no_common_version = refl
