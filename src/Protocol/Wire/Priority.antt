-- ===== src/Protocol/Wire/Priority.antt =====
-- Priority of src/aduib_rpc/protocol/v2/qos.py: the numbers on the wire are one above those of the
-- members, so an int is read one way and written another.
use Prim.Native.String.{String}
use aduib_rpc.Prelude.{
  List, Option, [], arith, if◌then◌else◌, leb, negsuc, none, pos, refl, some, ℕ, ℤ, ◌==◌, ◌∷◌, ◌≡◌,
}
use aduib_rpc.Protocol.Wire.{
  WireValue, named, member_value, no_value, text_value, int_value, other_value,
}

pub data Priority : Type 0 where
  low normal high critical : Priority

-- The value of a member.
unfoldable pub priority_value : Priority → ℕ
priority_value low = 0
priority_value normal = 1
priority_value high = 2
priority_value critical = 3

abbrev priority_names : List (String × Priority)
priority_names = ("low", low) ∷ ("normal", normal) ∷ ("high", high) ∷ ("critical", critical) ∷ []

-- The tests of a number in `_from_wire` and in `_to_wire`.
unfoldable pub read_number : Option ℤ → Priority
read_number none = normal
read_number (some (negsuc n)) = normal
read_number (some (pos n)) =
    if n == 1
    then low
    else if n == 2
    then normal
    else if n == 3
    then high
    else if leb 4 n
    then critical
    else normal

write_number : Option ℤ → ℕ
write_number none = 0
write_number (some (negsuc n)) = 1
write_number (some (pos n)) = if leb n 0 then 1 else if n == 1 then 2 else if n == 2 then 3 else 4

-- The number that `_to_wire` has for a name.
name_number : Priority → ℕ
name_number low = 1
name_number normal = 2
name_number high = 3
name_number critical = 4

read_text : Option Priority → Option ℤ → Priority
unfolding read_number
read_text (some p) n = p
read_text none n = read_number n

write_text : Option Priority → Option ℤ → ℕ
unfolding write_number name_number
write_text (some p) n = name_number p
write_text none n = write_number n

module _ (lower : String → String) (parse_int : String → Option ℤ) where
  unfoldable pub from_wire : WireValue Priority → Priority
  unfolding named read_number read_text
  from_wire (member_value p) = p
  from_wire no_value = normal
  from_wire (text_value t) = read_text (named (lower t) priority_names) (parse_int t)
  from_wire (int_value n) = read_number (some n)
  from_wire (other_value n) = read_number n

  unfoldable pub to_wire : WireValue Priority → ℕ
  unfolding named priority_value write_number write_text name_number
  to_wire no_value = 0
  to_wire (member_value p) = write_number (some (pos (priority_value p)))
  to_wire (text_value t) = write_text (named (lower t) priority_names) (parse_int t)
  to_wire (int_value n) = write_number (some n)
  to_wire (other_value n) = write_number n

-- What the writer takes a number for: the member with that value, or the nearest one.
abbrev pub nearest : ℤ → Priority
nearest (negsuc n) = low
nearest (pos n) =
    if n == 0 then low else if n == 1 then normal else if n == 2 then high else critical

abbrev pub nearest_or_normal : Option ℤ → Priority
nearest_or_normal none = normal
nearest_or_normal (some n) = nearest n

-- What a value stands for to the writer.
abbrev meant_by_text : Option Priority → Option ℤ → Priority
meant_by_text (some p) n = p
meant_by_text none n = nearest_or_normal n

module _ (lower : String → String) (parse_int : String → Option ℤ) where
  abbrev pub meant : WireValue Priority → Priority
  meant (member_value p) = p
  meant no_value = normal
  meant (text_value t) = meant_by_text (named (lower t) priority_names) (parse_int t)
  meant (int_value n) = nearest n
  meant (other_value n) = nearest_or_normal n

  of_number : (n : Option ℤ) → read_number (some (pos (write_number n))) ≡ nearest_or_normal n
  unfolding read_number write_number
  of_number none = refl
  of_number (some (pos n)) = ground arith
  of_number (some (negsuc n)) = refl

  of_text :
      (p : Option Priority) (n : Option ℤ)
      → read_number (some (pos (write_text p n))) ≡ meant_by_text p n
  unfolding read_number write_text name_number
  of_text (some low) n = refl
  of_text (some _) n = refl
  of_text none n = of_number n

  -- A priority that is written to the wire reads back as the member that it stands for: a member as
  -- itself, a name as its member, an int as the member with that value or the nearest one, and
  -- anything else as NORMAL.
  pub priority_round_trip :
      (v : WireValue Priority)
      → from_wire lower parse_int (int_value (pos (to_wire lower parse_int v))) ≡ meant v
  unfolding from_wire to_wire
  priority_round_trip (member_value low) = refl
  priority_round_trip (member_value _) = refl
  priority_round_trip no_value = refl
  priority_round_trip (text_value t) = of_text (named (lower t) priority_names) (parse_int t)
  priority_round_trip (int_value n) = of_number (some n)
  priority_round_trip (other_value n) = of_number n
