-- ===== src/Protocol/Errors/Mapping.antt =====
-- Exceptions and their codes in src/aduib_rpc/protocol/v2/errors.py.
use aduib_rpc.Prelude.{
  List, Option, [], arith, none, refl, some, true, ℕ, ◌∙◌, ◌∷◌, ◌≡◌, All, map, ◌++◌, ◌+◌, ◌<◌,
}
use aduib_rpc.Exceptions.{
  isinstance, rpc_exception, rpc_instance, protocol_error, class_number, ExcClass, other_class,
  RpcErrorClass, Exn,
}
use aduib_rpc.Protocol.Errors.{
  ErrorCode, code_of, protocol, exception_class, make_exception, find_code, StandardClass,
  exception_from_code, permission_denied, lookup_error, map_exception_to_error_code,
  resource_not_found, members, exception, standard, runtime_error, not_implemented, key_error,
  internal, index_error, invalid_params, not_implemented_error, permission_error,
  file_not_found_error, value_error, first_match, standard_mapping,
}

class_code : (c : ErrorCode) → (rpc_instance (exception_class c)).code ≡ code_of c
unfolding rpc_instance exception_class code_of
class_code protocol = refl
class_code _ = refl

find_code_lem :
    (n : ℕ) (cs : List ErrorCode) (c : ErrorCode) → find_code n cs ≡ some c → code_of c ≡ n
unfolding find_code
find_code_lem n [] c h = absurd (ground arith)
find_code_lem n (d ∷ cs) c h = ground (arith, find_code_lem n cs c)

instance_of_base : (c : RpcErrorClass) → isinstance (rpc_instance c) rpc_exception ≡ true
unfolding isinstance rpc_instance
instance_of_base protocol_error = refl
instance_of_base _ = refl

make_exception_lem :
    (n : ℕ) (o : Option ErrorCode)
    → ((c : ErrorCode) → o ≡ some c → code_of c ≡ n)
    → ((make_exception n o).code ≡ n) × (isinstance (make_exception n o) rpc_exception ≡ true)
unfolding make_exception isinstance
make_exception_lem n none h = (refl, refl)
make_exception_lem n (some c) h = (class_code c ∙ h c refl, instance_of_base (exception_class c))

-- An exception that is made from any number has that number as its code, and is mapped back to it,
-- whether the number is an error code or not.
pub exception_from_code_lem :
    (n : ℕ)
    → ((exception_from_code n).code ≡ n) × (map_exception_to_error_code (exception_from_code n) ≡ n)
unfolding exception_from_code map_exception_to_error_code
exception_from_code_lem n =
    let (same, base) = make_exception_lem n (find_code n members) (find_code_lem n members) in
    (same, rw base same)

-- The classes above each class in Python, as far as the mapping names them.
abbrev pub bases : StandardClass → List StandardClass
bases key_error = lookup_error ∷ exception ∷ []
bases index_error = lookup_error ∷ exception ∷ []
bases not_implemented_error = runtime_error ∷ exception ∷ []
bases exception = []
bases _ = exception ∷ []

-- The code that the mapping has for a class.
abbrev pub own_code : StandardClass → ErrorCode
own_code permission_error = permission_denied
own_code file_not_found_error = resource_not_found
own_code lookup_error = resource_not_found
own_code not_implemented_error = not_implemented
own_code runtime_error = internal
own_code exception = internal
own_code _ = invalid_params

-- Classes that the mapping does not name.
abbrev pub Unnamed : List ExcClass → Type 0
Unnamed cs = All (λ c. ((n : ℕ) × (c ≡ other_class (n + 13)))) cs

-- An exception of a class that derives from a standard one by unnamed classes.
abbrev pub derived : List ExcClass → StandardClass → Exn
derived extra c = record { mro = extra ++ map standard (c ∷ bases c); code = 0 }

Unnamed-differs :
    (extra : List ExcClass) (rest : List ExcClass) (k : ExcClass)
    → class_number k < 10013
    → Unnamed extra
    → isinstance (record { mro = extra ++ rest; code = 0 }) k
      ≡ isinstance (record { mro = rest; code = 0 }) k
unfolding isinstance
Unnamed-differs [] rest k h u = refl
Unnamed-differs (c ∷ extra) rest k h ((n, e), u) =
    rw e (ground (arith, Unnamed-differs extra rest k h u))

standard-lt : (k : StandardClass) → class_number (standard k) < 10013
unfolding standard class_number
standard-lt value_error = omega arith
standard-lt _ = omega arith

base-lt : class_number rpc_exception < 10013
unfolding class_number
base-lt = omega arith

first_match_eq :
    (e e' : Exn) (ms : List (StandardClass × ErrorCode))
    → ((k : StandardClass) → isinstance e (standard k) ≡ isinstance e' (standard k))
    → first_match e ms ≡ first_match e' ms
unfolding first_match
first_match_eq e e' [] h = refl
first_match_eq e e' ((k, code) ∷ ms) h = rw (h k, first_match_eq e e' ms h)

Unnamed-code :
    (extra : List ExcClass) (c : StandardClass)
    → Unnamed extra
    → map_exception_to_error_code (derived extra c) ≡ map_exception_to_error_code (derived [] c)
unfolding map_exception_to_error_code
Unnamed-code extra c u =
    let rest = map standard (c ∷ bases c) in
    rw
      (
        Unnamed-differs extra rest rpc_exception base-lt u,
        first_match_eq (derived extra c) (derived [] c) standard_mapping
            (λ k. Unnamed-differs extra rest (standard k) (standard-lt k) u),
      )
      refl

own_match : (c : StandardClass) → map_exception_to_error_code (derived [] c) ≡ code_of (own_code c)
unfolding map_exception_to_error_code standard
own_match value_error = refl
own_match _ = refl

-- An exception of one of Python's classes in the mapping, or of a class that derives from one by
-- classes that the mapping does not name, gets the code of that class itself, though the mapping
-- has its base classes too: the order of the mapping finds the most specific class.
pub most_specific :
    (extra : List ExcClass) (c : StandardClass)
    → Unnamed extra
    → map_exception_to_error_code (derived extra c) ≡ code_of (own_code c)
most_specific extra c u = Unnamed-code extra c u ∙ own_match c
