-- ===== src/Protocol/Errors/Debug.antt =====
-- The cached debug flag of src/aduib_rpc/protocol/v2/errors.py.
use Prim.Native.String.{String}
use aduib_rpc.Prelude.{Bool, List, Option, [], any, if◌then◌else◌, none, same_text, some, true, ◌∷◌}

-- What the process sees: two environment variables, and whether a tracer is set.
pub record Environment : Type 0 where
  pub debug : Option String
  pub env : Option String
  pub traced : Bool

abbrev one_of : String → List String → Bool
one_of s names = any (λ n. same_text n s) names

-- `os.environ.get(…, "")`.
abbrev or_empty : Option String → String
or_empty none = ""
or_empty (some s) = s

-- `is_debug_enabled` before it is cached.
module _ (lower : String → String) where
  unfoldable pub detect : Environment → Bool
  detect e =
      if one_of (lower (or_empty e.debug)) ("1" ∷ "true" ∷ "yes" ∷ "on" ∷ [])
      then true
      else if one_of (lower (or_empty e.env)) ("dev" ∷ "development" ∷ "test" ∷ [])
      then true
      else e.traced

  -- `is_debug_enabled`: the new value of `_DEBUG_ENABLED` and the result.
  unfoldable pub is_debug_enabled : Environment → Option Bool → Option Bool × Bool
  unfolding detect
  is_debug_enabled e (some b) = (some b, b)
  is_debug_enabled e none = (some (detect e), detect e)

-- `set_debug_enabled` and `reset_debug_cache`.
unfoldable pub set_debug_enabled : Bool → Option Bool → Option Bool
set_debug_enabled b flag = some b

unfoldable pub reset_debug_cache : Option Bool → Option Bool
reset_debug_cache flag = none
