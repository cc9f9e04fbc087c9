-- ===== src/Protocol/Wire.antt =====
-- The conversions `_from_wire` and `_to_wire` that the enumerations of the protocol share:
-- ResponseStatus (src/aduib_rpc/protocol/v2/types.py), HealthStatus (health.py), AuthScheme
-- (metadata.py) and TaskStatus (src/aduib_rpc/server/tasks/types.py). What differs is a `Format`.
pub mod Enums
pub mod Priority
use Prim.Native.String.{String}
use aduib_rpc.Prelude.{
  Bool, Bool-cases, List, Option, [], ap, false, if◌then◌else◌, inl, inr, negsuc, none, pos,
  same_text, some, sym, ℕ, ℤ, ◌∙◌, ◌∷◌, ◌≡◌,
}

-- The values that the conversions accept, after the `value` of an enumeration's member is taken: a
-- member, None, a str, an int, or any other value, for which `int(...)` gives a number or raises.
pub data WireValue (E : Type 0) : Type 0 where
  member_value : E → WireValue E
  no_value : WireValue E
  text_value : String → WireValue E
  int_value : ℤ → WireValue E
  other_value : Option ℤ → WireValue E

-- The tests of one enumeration: its names, in the order of the tests, the member for a number and
-- the one for anything else, the number of a member, the numbers that are passed on as they are,
-- and the number for anything else.
pub record Format (E : Type 0) : Type 0 where
  pub names : List (String × E)
  pub of_number : ℕ → E
  pub default : E
  pub number : E → ℕ
  pub passes : ℕ → Bool
  pub default_number : ℕ

module _ {E : Type 0} where
  -- The chain of tests of a name.
  unfoldable pub named : String → List (String × E) → Option E
  named key [] = none
  named key ((name, s) ∷ names) = if same_text key name then some s else named key names

  -- `num = int(raw)` and its tests; `none` is the exception.
  member_of_int : Format E → Option ℤ → E
  member_of_int f none = f.default
  member_of_int f (some (pos n)) = f.of_number n
  member_of_int f (some (negsuc n)) = f.default

  number_of_int : Format E → Option ℤ → ℕ
  number_of_int f none = f.default_number
  number_of_int f (some (pos n)) = if f.passes n then n else f.default_number
  number_of_int f (some (negsuc n)) = f.default_number

  -- A text that names a member, or else a number.
  member_of_text : Format E → Option E → Option ℤ → E
  unfolding member_of_int
  member_of_text f (some s) n = s
  member_of_text f none n = member_of_int f n

  number_of_text : Format E → Option E → Option ℤ → ℕ
  unfolding number_of_int
  number_of_text f (some s) n = f.number s
  number_of_text f none n = number_of_int f n

  -- Python's `str.lower` and `int` of a str are parameters.
  module _ (lower : String → String) (parse_int : String → Option ℤ) where
    -- `_from_wire`, which `from_proto` and `from_thrift` call.
    unfoldable pub from_wire : Format E → WireValue E → E
    unfolding named member_of_int member_of_text
    from_wire f (member_value s) = s
    from_wire f no_value = f.default
    from_wire f (text_value t) = member_of_text f (named (lower t) f.names) (parse_int t)
    from_wire f (int_value n) = member_of_int f (some n)
    from_wire f (other_value n) = member_of_int f n

    -- `_to_wire`, which `to_proto` and `to_thrift` call.
    unfoldable pub to_wire : Format E → WireValue E → ℕ
    unfolding named number_of_int number_of_text
    to_wire f no_value = f.default_number
    to_wire f (member_value s) = f.number s
    to_wire f (text_value t) = number_of_text f (named (lower t) f.names) (parse_int t)
    to_wire f (int_value n) = number_of_int f (some n)
    to_wire f (other_value n) = number_of_int f n

  -- What makes a format round trip, up to what it keeps of a member.
  pub record IsFormat (keep : E → E) (f : Format E) : Type 0 where
    pub of_number-number : (s : E) → f.of_number (f.number s) ≡ keep s
    pub keep_of_number : (n : ℕ) → keep (f.of_number n) ≡ f.of_number n
    pub others : (n : ℕ) → f.passes n ≡ false → f.of_number n ≡ f.default
    pub of_default : f.of_number f.default_number ≡ f.default

  module _ {keep : E → E} {f : Format E} (v : IsFormat keep f) where
    keep_default : keep f.default ≡ f.default
    keep_default = ap keep (sym v.of_default) ∙ v.keep_of_number f.default_number ∙ v.of_default

    of_passed : (n : ℕ) → f.of_number (number_of_int f (some (pos n))) ≡ keep (f.of_number n)
    unfolding number_of_int
    of_passed n = elim (Bool-cases (f.passes n)) [
      | inl p ↦ rw p (sym (v.keep_of_number n))
      | inr p ↦ rw p (v.of_default ∙ sym (v.others n p) ∙ sym (v.keep_of_number n))
    ]

    of_int : (n : Option ℤ) → f.of_number (number_of_int f n) ≡ keep (member_of_int f n)
    unfolding number_of_int member_of_int
    of_int none = v.of_default ∙ sym keep_default
    of_int (some (pos n)) = of_passed n
    of_int (some (negsuc n)) = v.of_default ∙ sym keep_default

    of_text :
        (s : Option E) (n : Option ℤ)
        → f.of_number (number_of_text f s n) ≡ keep (member_of_text f s n)
    unfolding number_of_text member_of_text
    of_text (some s) n = v.of_number-number s
    of_text none n = of_int n

    pub from_wire-to_wire :
        (lower : String → String) (parse_int : String → Option ℤ) (w : WireValue E)
        → from_wire lower parse_int f (int_value (pos (to_wire lower parse_int f w)))
          ≡ keep (from_wire lower parse_int f w)
    unfolding from_wire to_wire
    from_wire-to_wire lower parse_int (member_value s) = v.of_number-number s
    from_wire-to_wire lower parse_int no_value = v.of_default ∙ sym keep_default
    from_wire-to_wire lower parse_int (text_value t) =
        of_text (named (lower t) f.names) (parse_int t)
    from_wire-to_wire lower parse_int (int_value n) = of_int (some n)
    from_wire-to_wire lower parse_int (other_value n) = of_int n
