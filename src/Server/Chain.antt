-- ===== src/Server/Chain.antt =====
-- InterceptorChain of src/aduib_rpc/server/context.py. S is the state that the interceptors and the
-- handler share, E the exceptions. An interceptor is its `intercept` before its `yield` and after it,
-- as asynccontextmanager runs it; a handler runs from one response that it yields to the next, with
-- what is read at each. Who reads the responses reads them all.
pub mod Passes
pub mod Version
use Prim.Native.String.{String}
use aduib_rpc.Prelude.{
  List, Option, [], if◌then◌else◌, leb, none, some, text_dec, truthy_text, ℕ, ◌∷◌,
}
use mathlib.Core.List.{reverse}
use mathlib.Core.Option as Opt
use aduib_rpc.Prelude.Dict
use aduib_rpc.Protocol.Errors.{code_of, internal}
use aduib_rpc.Protocol.Messages.{AduibRpcResponse, Loose, ResponseMetadata, RpcError, typed}
use aduib_rpc.Protocol.Wire.Enums.{error}

-- What the part before the `yield` does: it goes on, aborts with the code of an error, if one is
-- given, or raises.
pub data Entered (E : Type 0) : Type 0 where
  continues : Entered E
  aborts : Option ℕ → Entered E
  raises : E → Entered E

-- How a body ends, and a part after the `yield`, which may keep or change that.
pub data Ended (E : Type 0) : Type 0 where
  finished : Ended E
  failed : E → Ended E

-- The run of an asynchronous generator: it yields and goes on in the state that it finds then, or
-- ends.
pub data Run (S E R : Type 0) : Type 0 where
  yields : S → R → (S → Run S E R) → Run S E R
  stops : S → Ended E → Run S E R

pub record Interceptor (S E : Type 0) : Type 0 where
  pub order : ℕ
  pub enter : S → S × Entered E
  pub leave : S → Ended E → S × Ended E

-- What a request leaves: the state, what is yielded, and the end.
pub record Done (S E R : Type 0) : Type 0 where
  pub state : S
  pub yielded : List R
  pub ended : Ended E

-- `sorted` by `order`, which is stable.
module _ {S E : Type 0} where
  insert_by_order : Interceptor S E → List (Interceptor S E) → List (Interceptor S E)
  insert_by_order i [] = i ∷ []
  insert_by_order i (j ∷ js) =
      let rest = insert_by_order i js in if leb i.order j.order then i ∷ j ∷ js else j ∷ rest

  unfoldable pub init : List (Interceptor S E) → List (Interceptor S E)
  unfolding insert_by_order
  init [] = []
  init (i ∷ is) = insert_by_order i (init is)

module _ {S E R : Type 0} where
  -- The part after the `yield`, after the body.
  unfoldable pub left : Interceptor S E → Done S E R → Done S E R
  left i d =
      let (s, ended) = i.leave d.state d.ended in
      record { state = s; yielded = d.yielded; ended = ended }

  -- `_nest` around the body of `execute`, which gets the error of an abort, if there is one. The
  -- arguments are the part before the `yield` of the next interceptor, and what is run inside it.
  unfoldable pub entered_with :
      Interceptor S E
      → S × Entered E
      → (S → Done S E R)
      → (Option (Option ℕ) → S → Done S E R)
      → Done S E R
  unfolding left
  entered_with i (s, continues) inner body = left i (inner s)
  entered_with i (s, aborts code) inner body = left i (body (some code) s)
  entered_with i (s, raises x) inner body = record { state = s; yielded = []; ended = failed x }

  unfoldable pub nest :
      List (Interceptor S E) → (Option (Option ℕ) → S → Done S E R) → S → Done S E R
  unfolding entered_with
  nest [] body s = body none s
  nest (i ∷ is) body s = entered_with i (i.enter s) (λ s. nest is body s) body

-- `_apply_wrappers`.
wrap_loop : {H : Type 0} → List (H → H) → H → H
wrap_loop [] h = h
wrap_loop (w ∷ ws) h = wrap_loop ws (w h)

unfoldable pub apply_wrappers : {H : Type 0} → List (H → H) → H → H
unfolding wrap_loop
apply_wrappers ws h = wrap_loop (reverse ws) h

-- What is read at a response: the time of day, the time since the start of the request, and the
-- metadata of the server context.
pub record Reading : Type 0 where
  pub timestamp_ms : ℕ
  pub elapsed_ms : ℕ
  pub server_metadata : List (String × String)

-- `_attach_response_metadata`.
or_text : Option String → Option String → Option String
or_text none u = u
or_text (some t) u = some t

either_key : List (String × String) → String → String → Option String
unfolding or_text
either_key meta key other =
    or_text (truthy_text (Dict.get text_dec key meta)) (Dict.get text_dec other meta)

created : Reading → Option (Loose ResponseMetadata) → Loose ResponseMetadata
unfolding either_key
created now (some m) = m
created now none = typed (record {
  timestamp_ms = now.timestamp_ms;
  duration_ms = some now.elapsed_ms;
  server_id = either_key now.server_metadata "server_id" "server-id";
  server_version = either_key now.server_metadata "server_version" "server-version";
})

unfoldable pub attach_response_metadata :
    {V : Type 0} → Reading → AduibRpcResponse V → AduibRpcResponse V
unfolding created
attach_response_metadata now r = record r { metadata = some (created now r.metadata) }

abbrev pub Handler : Type 0 → Type 0 → Type 0 → Type 0
Handler S E V = S → Run S E (AduibRpcResponse V × Reading)

-- What the chain reads of its state and writes to it: the wrappers that interceptors stored, the id
-- of the request, which is made where there is none, what is read at the response to an abort, and
-- the fields `response` and `error` of the context, which are for the parts after the `yield`; and
-- the error with a code, whose name and message are not told apart.
pub record View (S E V : Type 0) : Type 0 where
  pub handler_wrappers : S → List (Handler S E V → Handler S E V)
  pub error_with : ℕ → RpcError V
  pub request_id : S → String
  pub abort_reading : S → Reading
  pub store_response : AduibRpcResponse V → S → S
  pub store_error : E → S → S

module _ {S E V : Type 0} (v : View S E V) where
  set_ended : Ended E → S → S
  set_ended finished s = s
  set_ended (failed e) s = v.store_error e s

  -- A response goes to the context before it is yielded on.
  unfoldable pub attach_all : Run S E (AduibRpcResponse V × Reading) → Done S E (AduibRpcResponse V)
  unfolding attach_response_metadata set_ended
  attach_all (stops s e) = record { state = set_ended e s; yielded = []; ended = e }
  attach_all (yields s (r, now) next) =
      let out = attach_response_metadata now r in
      let d = attach_all (next (v.store_response out s)) in
      record { state = d.state; yielded = out ∷ d.yielded; ended = d.ended }

  -- `_abort_response`.
  abort_response : Option ℕ → S → AduibRpcResponse V
  unfolding code_of
  abort_response code s = record {
    aduib_rpc = "2.0";
    id = some (v.request_id s);
    status = error;
    result = none;
    error = some (v.error_with (Opt.get_or code (code_of internal)));
    negotiated_version = none;
    trace_context = none;
    metadata = none;
  }

  -- The body of `execute`.
  abort_with : AduibRpcResponse V → S → Done S E (AduibRpcResponse V)
  abort_with r s = record { state = v.store_response r s; yielded = r ∷ []; ended = finished }

  unfoldable pub body : Handler S E V → Option (Option ℕ) → S → Done S E (AduibRpcResponse V)
  unfolding attach_all attach_response_metadata apply_wrappers abort_with abort_response
  body handler (some code) s =
      abort_with (attach_response_metadata (v.abort_reading s) (abort_response code s)) s
  body handler none s = attach_all (apply_wrappers (v.handler_wrappers s) handler s)

  -- `execute`.
  unfoldable pub execute :
      List (Interceptor S E) → Handler S E V → S → Done S E (AduibRpcResponse V)
  unfolding nest body
  execute interceptors handler s = nest interceptors (body handler) s
