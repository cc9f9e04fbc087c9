-- ===== src/Server/Chain/Passes.antt =====
-- The nested chain of src/aduib_rpc/server/context.py as two passes over its interceptors.
use aduib_rpc.Prelude.{List, Option, [], ap, none, refl, some, ℕ, ◌++◌, ◌∙◌, ◌∷◌, ◌≡◌, sym}
use mathlib.Core.List.{reverse, reverse-cons}
use aduib_rpc.Server.Chain.{
  View, Handler, body, Interceptor, Entered, continues, aborts, raises, failed, Done, nest,
  entered_with, left, finished, attach_all, attach_response_metadata,
}
use mathlib.Core.Option as Opt
use aduib_rpc.Protocol.Messages.{AduibRpcResponse}
use aduib_rpc.Protocol.Wire.Enums.{error}

-- Where the way in ends: at the handler, at an abort, or in an exception.
pub data Arrival (E : Type 0) : Type 0 where
  at_body : Option (Option ℕ) → Arrival E
  at_exception : E → Arrival E

-- The way in: the interceptors that were entered and yielded, in order, the state, and where the way
-- ends.
pub record WayIn (S E : Type 0) : Type 0 where
  pub entered : List (Interceptor S E)
  pub state : S
  pub arrival : Arrival E

module _ {S E : Type 0} where
  then_in : Interceptor S E → WayIn S E → WayIn S E
  then_in i w = record w { entered = i ∷ w.entered }

  step_in : Interceptor S E → S × Entered E → (S → WayIn S E) → WayIn S E
  unfolding then_in
  step_in i (s, continues) rest = then_in i (rest s)
  step_in i (s, aborts code) rest = record {
    entered = i ∷ [];
    state = s;
    arrival = at_body (some code);
  }
  step_in i (s, raises x) rest = record { entered = []; state = s; arrival = at_exception x }

  unfoldable pub way_in : List (Interceptor S E) → S → WayIn S E
  unfolding step_in
  way_in [] s = record { entered = []; state = s; arrival = at_body none }
  way_in (i ∷ is) s = step_in i (i.enter s) (λ s. way_in is s)

module _ {S E R : Type 0} where
  -- The body, where the way in arrives at it.
  unfoldable pub arrive : (Option (Option ℕ) → S → Done S E R) → S → Arrival E → Done S E R
  arrive body s (at_body code) = body code s
  arrive body s (at_exception x) = record { state = s; yielded = []; ended = failed x }

  -- The way out, over the interceptors in the order in which they are left.
  unfoldable pub way_out : List (Interceptor S E) → Done S E R → Done S E R
  way_out [] d = d
  way_out (i ∷ is) d = way_out is (left i d)

  way_out-append :
      (is js : List (Interceptor S E)) (d : Done S E R)
      → way_out (is ++ js) d ≡ way_out js (way_out is d)
  unfolding way_out
  way_out-append [] js d = refl
  way_out-append (i ∷ is) js d = way_out-append is js (left i d)

  around :
      (i : Interceptor S E) (is : List (Interceptor S E)) (d : Done S E R)
      → left i (way_out (reverse is) d) ≡ way_out (reverse (i ∷ is)) d
  unfolding way_out
  around i is d =
      sym (way_out-append (reverse is) (i ∷ []) d) ∙ ap (λ l. way_out l d) (sym (reverse-cons i is))

  two_passes :
      (i : Interceptor S E) (is : List (Interceptor S E))
      (body : Option (Option ℕ) → S → Done S E R) (e : S × Entered E)
      → ((s : S)
          → nest is body s
            ≡ way_out
                (reverse (way_in is s).entered)
                (arrive body (way_in is s).state (way_in is s).arrival))
      → entered_with i e (λ s. nest is body s) body
        ≡ way_out (reverse (step_in i e (λ s. way_in is s)).entered) (
            arrive body
              (step_in i e (λ s. way_in is s)).state
              (step_in i e (λ s. way_in is s)).arrival)
  unfolding entered_with step_in then_in arrive way_out
  two_passes i is body (s, continues) h =
      ap (left i) (h s)
      ∙ around i (way_in is s).entered (arrive body (way_in is s).state (way_in is s).arrival)
  two_passes i is body (s, aborts code) h = refl
  two_passes i is body (s, raises x) h = refl

  -- `_nest` in two passes.
  pub nest_lem :
      (is : List (Interceptor S E)) (body : Option (Option ℕ) → S → Done S E R) (s : S)
      → nest is body s
        ≡ way_out
            (reverse (way_in is s).entered)
            (arrive body (way_in is s).state (way_in is s).arrival)
  unfolding nest way_in way_out arrive
  nest_lem [] body s = refl
  nest_lem (i ∷ is) body s = two_passes i is body (i.enter s) (λ s. nest_lem is body s)

module _ {S E V : Type 0} (v : View S E V) where
  -- The handler within its wrappers, of which the first that was stored is the outermost.
  wrapped_in : List (Handler S E V → Handler S E V) → Handler S E V → Handler S E V
  wrapped_in [] h = h
  wrapped_in (w ∷ ws) h = w (wrapped_in ws h)

  -- The one answer to an abort, an error with the code that was given, or else 5000.
  abort_answer : Option ℕ → S → AduibRpcResponse V
  abort_answer code s = attach_response_metadata (v.abort_reading s) (record {
    aduib_rpc = "2.0";
    id = some (v.request_id s);
    status = error;
    result = none;
    error = some (v.error_with (Opt.get_or code 5000));
    negotiated_version = none;
    trace_context = none;
    metadata = none;
  })

  -- What becomes of a request where its way in ends.
  unfoldable pub served : Handler S E V → S → Arrival E → Done S E (AduibRpcResponse V)
  unfolding wrapped_in abort_answer
  served handler s (at_body none) = attach_all v (wrapped_in (v.handler_wrappers s) handler s)
  served handler s (at_body (some code)) = record {
    state = v.store_response (abort_answer code s) s;
    yielded = abort_answer code s ∷ [];
    ended = finished;
  }
  served handler s (at_exception x) = record { state = s; yielded = []; ended = failed x }
