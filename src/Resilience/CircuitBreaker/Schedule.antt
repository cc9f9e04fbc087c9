-- ===== src/Resilience/CircuitBreaker/Schedule.antt =====
-- Calls of one CircuitBreaker that overlap: src/aduib_rpc/resilience/circuit_breaker.py runs the
-- callable outside its lock, so that other calls begin and end meanwhile. A schedule lists the
-- critical sections in the order in which they run.
use aduib_rpc.Prelude.{ℕ, ◌++◌, List, [], ◌∷◌, Option, none, some, get_elem?, remove_at}
use aduib_rpc.Resilience.CircuitBreaker.{
  CircuitState, CircuitBreaker, reset, before_call, Admission, admit, reject, Outcome, finish_call,
}
use aduib_rpc.Resilience.CircuitBreaker.Invariant.{
  IsValid, reset-IsValid, before_call-IsValid, finish_call-IsValid,
}

-- The breaker, and for each call whose callable runs the state that it started under.
pub record System : Type 0 where
  pub breaker : CircuitBreaker
  pub running : List CircuitState

pub data Event : Type 0 where
  begin : ℕ → Event
  finish : ℕ → ℕ → Outcome (Unit {0}) → Event
  reset_all : Event

start_running : Admission → List CircuitState → List CircuitState
start_running (admit started) running = running ++ started ∷ []
start_running (reject e) running = running

finish_running : Option CircuitState → ℕ → ℕ → Outcome (Unit {0}) → System → System
finish_running none i now o s = s
finish_running (some started) i now o s = record {
  breaker = finish_call started now o s.breaker;
  running = remove_at s.running i;
}

-- One critical section. `begin now` is a `_before_call`, `finish i now o` the record that ends
-- the running call of index i with the outcome o, if there is one.
unfoldable pub step : Event → System → System
unfolding start_running finish_running
step (begin now) s =
    let (b, admission) = before_call now s.breaker in
    record { breaker = b; running = start_running admission s.running }
step (finish i now o) s = finish_running (get_elem? s.running i) i now o s
step reset_all s = record s { breaker = reset s.breaker }

unfoldable pub run : List Event → System → System
run [] s = s
run (e ∷ es) s = run es (step e s)

finish_running-IsValid :
    (started : Option CircuitState) (i now : ℕ) (o : Outcome (Unit {0})) (s : System)
    → IsValid s.breaker
    → IsValid (finish_running started i now o s).breaker
unfolding finish_running
finish_running-IsValid none i now o s v = v
finish_running-IsValid (some started) i now o s v = finish_call-IsValid started now o s.breaker v

step-IsValid : (e : Event) (s : System) → IsValid s.breaker → IsValid (step e s).breaker
unfolding step
step-IsValid (begin now) s v = before_call-IsValid now s.breaker v
step-IsValid (finish i now o) s v = finish_running-IsValid (get_elem? s.running i) i now o s v
step-IsValid reset_all s v = reset-IsValid s.breaker v

-- From a breaker in a valid state, every schedule of beginnings and ends of overlapping calls, with
-- any outcomes, clock readings and resets, leaves the breaker in a valid state.
pub run-IsValid : (es : List Event) (s : System) → IsValid s.breaker → IsValid (run es s).breaker
unfolding run
run-IsValid [] s v = v
run-IsValid (e ∷ es) s v = run-IsValid es (step e s) (step-IsValid e s v)
