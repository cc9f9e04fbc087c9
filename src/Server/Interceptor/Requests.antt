-- ===== src/Server/Interceptor/Requests.antt =====
-- The requests inside a ServerResilienceInterceptor of
-- src/aduib_rpc/server/interceptors/resilience.py: they arrive and leave in any order.
pub mod Permits
use aduib_rpc.Prelude.{List, Option, [], false, get_elem?, none, remove_at, some, true, ℕ, ◌+◌, ◌∷◌}
use aduib_rpc.Server.Interceptor.{
  ServerResilience, Entry, unguarded, aborted, entered, enter, leave,
}

-- A request arrives, by its tenant and the clock, or one that is inside leaves, by its place.
pub data Event (K : Type 0) : Type 0 where
  arrives : K → ℕ → Event K
  leaves : ℕ → Event K

-- The interceptor with what the start of `intercept` gave each request that has not left.
pub record System (K F : Type 0) : Type 0 where
  pub server : ServerResilience K F
  pub inside : List Entry

-- The permits that entries stand for.
unfoldable pub permit_of : Entry → ℕ
permit_of (entered true) = 1
permit_of (entered false) = 0
permit_of (aborted code) = 0
permit_of unguarded = 0

unfoldable pub permits : List Entry → ℕ
unfolding permit_of
permits [] = 0
permits (e ∷ es) = permit_of e + permits es

module _ {K F : Type 0} where
  -- A request leaves from its place, if there is one.
  leave_place : ℕ → Option Entry → System K F → System K F
  leave_place i none y = y
  leave_place i (some e) y = record { server = leave e y.server; inside = remove_at y.inside i }

  arrived : List Entry → ServerResilience K F × Entry → System K F
  arrived es (s, e) = record { server = s; inside = e ∷ es }

module _ {K F : Type 0} (dec : Discrete K) (default : K) where
  unfoldable pub step : Event K → System K F → System K F
  unfolding leave_place arrived
  step (arrives tenant now) y = arrived y.inside (enter dec default tenant now y.server)
  step (leaves i) y = leave_place i (get_elem? y.inside i) y

  unfoldable pub run : List (Event K) → System K F → System K F
  unfolding step
  run [] y = y
  run (e ∷ es) y = run es (step e y)

unfoldable pub start : {K F : Type 0} → ServerResilience K F → System K F
start s = record { server = s; inside = [] }
