-- ===== src/Text/Stoul.antt =====
-- std::stoul: the number that stands at the start of a text, in base 10, behind white space and a
-- sign, and the two exceptions.
use Prim.Native.Char.{Char, code}
use painless_mesh_simulator.Prelude.{
  ℕ, ◌+◌, ◌-◌, ◌*◌, ◌%◌, String, Bool, true, false, ◌&&◌, ◌||◌, Option, none, some, ltb, leb, ◌==◌,
  if◌then◌else◌, ◌≡◌, refl,
}
use painless_mesh_simulator.Result.{Result, ok, err, invalid_argument, out_of_range}

abbrev is_digit : Char → Bool
is_digit c = leb 48 (code c) && leb (code c) 57

abbrev is_space : Char → Bool
is_space c = code c == 32 || leb 9 (code c) && leb (code c) 13

skip_space : String → String
skip_space String.[] = ""
skip_space (String.◌∷◌ c s) = let rest = skip_space s in if is_space c then rest else String.◌∷◌ c s

abbrev or_zero : Option ℕ → ℕ
or_zero none = 0
or_zero (some n) = n

-- The digits at the start of a text, with the number that stands before them, if any.
read_digits : Option ℕ → String → Option ℕ
read_digits before String.[] = before
read_digits before (String.◌∷◌ c s) =
    let value = or_zero before * 10 + (code c - 48) in
    let rest = read_digits (some value) s in if is_digit c then rest else before

-- The value as an `unsigned long`, where a minus sign takes it from 2^64.
abbrev unsigned_long : Bool → Option ℕ → Result ℕ
unsigned_long negative none = err (invalid_argument "stoul")
unsigned_long negative (some n) =
    if ltb n 18446744073709551616
    then ok (if negative then (18446744073709551616 - n) % 18446744073709551616 else n)
    else err (out_of_range "stoul")

after_sign : String → Result ℕ
unfolding read_digits
after_sign String.[] = unsigned_long false none
after_sign (String.◌∷◌ c s) =
    if code c == 45
    then unsigned_long true (read_digits none s)
    else if code c == 43
    then unsigned_long false (read_digits none s)
    else unsigned_long false (read_digits none (String.◌∷◌ c s))

unfoldable pub stoul : String → Result ℕ
unfolding skip_space read_digits after_sign
stoul s = after_sign (skip_space s)

stoul_number : stoul "5000" ≡ ok 5000
unfolding stoul
stoul_number = refl

stoul_sign : stoul " -1x" ≡ ok 18446744073709551615
unfolding stoul
stoul_sign = refl

stoul_nothing : stoul "x1" ≡ err (invalid_argument "stoul")
unfolding stoul
stoul_nothing = refl
