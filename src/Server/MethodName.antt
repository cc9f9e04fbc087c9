-- ===== src/Server/MethodName.antt =====
-- MethodName of src/aduib_rpc/server/rpc_execution/method_registry.py: the names of methods on the
-- wire. Texts are lists of code points, and Python's `isspace` of a character is an argument. A
-- ValueError is `none`.
pub mod RoundTrip
use mathlib.Core.List.{reverse}
use aduib_rpc.Prelude.{
  Bool, List, Option, [], any, false, if◌then◌else◌, none, not, some, true, ℕ, ◌&&◌, ◌++◌, ◌==◌,
  ◌||◌, ◌∷◌,
}

abbrev pub Text : Type 0
Text = List ℕ

pub record MethodName : Type 0 where
  pub service : Text
  pub handler : Text

-- `_V2_PREFIX`, "rpc.v2/".
abbrev pub v2_prefix : Text
v2_prefix = b'r' ∷ b'p' ∷ b'c' ∷ b'.' ∷ b'v' ∷ b'2' ∷ b'/' ∷ []

unfoldable pub is_empty : Text → Bool
is_empty [] = true
is_empty (c ∷ s) = false

-- `format_v2`.
unfoldable pub format_v2 : Text → Text → Option Text
unfolding is_empty
format_v2 service handler =
    if is_empty service
    then none
    else if is_empty handler
    then none
    else some (v2_prefix ++ (service ++ b'/' ∷ handler))

-- `lstrip`, of the characters that a test takes, and `strip`.
unfoldable pub lstrip : (ℕ → Bool) → Text → Text
lstrip p [] = []
lstrip p (c ∷ s) = let rest = lstrip p s in if p c then rest else c ∷ s

unfoldable pub strip : (ℕ → Bool) → Text → Text
unfolding lstrip
strip p s = reverse (lstrip p (reverse (lstrip p s)))

-- What follows a prefix, if the text starts with it.
unfoldable pub after_prefix : Text → Text → Option Text
after_prefix [] s = some s
after_prefix (p ∷ ps) [] = none
after_prefix (p ∷ ps) (c ∷ s) = let rest = after_prefix ps s in if p == c then rest else none

-- `partition(sep)`: what stands before and after the first separator, if there is one.
before : ℕ → Option (Text × Text) → Option (Text × Text)
before c none = none
before c (some (a, b)) = some (c ∷ a, b)

unfoldable pub partition : ℕ → Text → Option (Text × Text)
unfolding before
partition sep [] = none
partition sep (c ∷ s) =
    let rest = before c (partition sep s) in if c == sep then some ([], s) else rest

-- `sep in text`.
unfoldable pub contains : ℕ → Text → Bool
contains sep s = any (λ c. c == sep) s

-- `split(sep)` and `sep.join`.
extend_first : ℕ → List Text → List Text
extend_first c [] = (c ∷ []) ∷ []
extend_first c (t ∷ ts) = (c ∷ t) ∷ ts

unfoldable pub split : ℕ → Text → List Text
unfolding extend_first
split sep [] = [] ∷ []
split sep (c ∷ s) = let rest = split sep s in if c == sep then [] ∷ rest else extend_first c rest

unfoldable pub join : ℕ → List Text → Text
join sep [] = []
join sep (t ∷ []) = t
join sep (t ∷ u ∷ ts) = t ++ sep ∷ join sep (u ∷ ts)

-- A service and a handler, neither of them empty.
named_method : Text → Text → Option MethodName
unfolding is_empty
named_method service handler =
    if is_empty service || is_empty handler
    then none
    else some (record { service = service; handler = handler })

v2_method : Option (Text × Text) → Option MethodName
unfolding named_method
v2_method none = none
v2_method (some (service, handler)) = named_method service handler

-- The first separator of a legacy name as a dot.
dotted : Text → Option (Text × Text) → Text
unfolding is_empty
dotted m none = m
dotted m (some (service, tail)) =
    if is_empty service || is_empty tail then m else service ++ b'.' ∷ tail

normalize_legacy : Text → Text
unfolding dotted partition contains
normalize_legacy m =
    if contains b':' m
    then dotted m (partition b':' m)
    else if contains b'/' m && not (contains b'.' m)
    then dotted m (partition b'/' m)
    else m

legacy_parts : List Text → Option MethodName
unfolding named_method join
legacy_parts [] = none
legacy_parts (t ∷ []) = none
legacy_parts (t ∷ u ∷ ts) = named_method t (join b'.' (u ∷ ts))

parse_rest : Text → Option Text → Option MethodName
unfolding v2_method legacy_parts normalize_legacy split
parse_rest m (some rest) = v2_method (partition b'/' rest)
parse_rest m none = legacy_parts (split b'.' (normalize_legacy m))

parse_stripped : Text → Option MethodName
unfolding parse_rest lstrip after_prefix
parse_stripped [] = none
parse_stripped (c ∷ m) =
    let m' = lstrip (λ d. d == b'/') (c ∷ m) in parse_rest m' (after_prefix v2_prefix m')

-- `parse_compat`.
unfoldable pub parse_compat : (ℕ → Bool) → Text → Option MethodName
unfolding parse_stripped strip
parse_compat is_space method = parse_stripped (strip is_space method)
