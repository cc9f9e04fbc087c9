-- ===== src/Prelude/Options.antt =====
-- Chains of fallible steps as do blocks over Option, Python's `or` on what may be empty, and
-- collections that are absent or empty.
use Prim.Native.String.{String}
use mathlib.Core.Bool.{Bool, true, false}
use mathlib.Core.List.{List, [], ◌∷◌}
use mathlib.Core.Option.{Option, none, some}
use mathlib.Core.Option as Opt
use mathlib.Core.Path.{◌≡◌, refl, ap}
use aduib_rpc.Prelude.Tests.{if◌then◌else◌}
use aduib_rpc.Prelude.Text.{same_text}

infixl 5 ◌>>=◌ ◌>>◌
abbrev pub ◌>>=◌ : {A B : Type 0} → Option A → (A → Option B) → Option B
none >>= f = none
some a >>= f = f a

abbrev pub ◌>>◌ : {A B : Type 0} → Option A → Option B → Option B
m >> k = m >>= λ _. k

-- A test that raises where it fails.
abbrev pub require : Bool → Option (Unit {0})
require true = some tt
require false = none

-- A conversion of a value that may be missing.
abbrev pub traverse : {A B : Type 0} → (A → Option B) → Option A → Option (Option B)
traverse f none = some none
traverse f (some a) = f a >>= λ b. some (some b)

-- `xs or []` of an optional collection, and `xs if xs else None`.
abbrev pub or_empty : {A : Type 0} → Option (List A) → List A
or_empty none = []
or_empty (some xs) = xs

abbrev pub non_empty : {A : Type 0} → List A → Option (List A)
non_empty [] = none
non_empty (x ∷ xs) = some (x ∷ xs)

-- `t or d` of a text.
abbrev pub text_or : String → String → String
text_or t d = if same_text t "" then d else t

-- Whether Python takes an optional text for true, and the text that it then is.
abbrev pub truthy_text : Option String → Option String
truthy_text none = none
truthy_text (some t) = if same_text t "" then none else some t

pub map-map_opt :
    {A B C : Type 0} (f : B → C) (g : A → B) (h : A → C)
    → ((a : A) → f (g a) ≡ h a)
    → (o : Option A) → Opt.map f (Opt.map g o) ≡ Opt.map h o
map-map_opt f g h e none = refl
map-map_opt f g h e (some a) = ap some (e a)
