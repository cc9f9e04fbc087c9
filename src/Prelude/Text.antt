-- ===== src/Prelude/Text.antt =====
-- Texts: the library's test, and equality of texts as a decision.
use Prim.Native.String.{String}
use mathlib.Core.Path.{◌≡◌, refl}
use mathlib.Core.Bool.{Bool, true, false}
use text.Mathlib.Text.{◌==◌ as str_eq}
use text.Mathlib.TextEquality.{eq_iff}

abbrev pub same_text : String → String → Bool
same_text a b = str_eq a b

pub same_text→eq : (a b : String) → same_text a b ≡ true → a ≡ b
same_text→eq a b h = (eq_iff a b).0 h

pub eq→same_text : (a b : String) → a ≡ b → same_text a b ≡ true
eq→same_text a b h = (eq_iff a b).1 h

dec_of : (a b : String) (t : Bool) → same_text a b ≡ t → Dec (a ≡ b)
dec_of a b true h = yes (same_text→eq a b h)
dec_of a b false h = no (λ e. cc (eq→same_text a b e))

unfoldable pub text_dec : Discrete String
unfolding dec_of
text_dec a b = dec_of a b (same_text a b) refl
