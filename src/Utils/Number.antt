-- ===== src/Utils/Number.antt =====
-- std::to_string and std::stoi.
pub mod Digits
use mod_security.Prelude.{
  Bool, Option, [], false, if◌then◌else◌, leb, ltb, none, not, some, suc, true, zero, ℕ, ◌%◌, ◌&&◌,
  ◌*◌, ◌++◌, ◌+◌, ◌-◌, ◌/◌, ◌==◌, ◌∷◌,
}
use mod_security.Prelude.Bytes.{Bytes}
use mod_security.Prelude.Int.{negsuc, pos, sub_ℕ, ℤ}
use mod_security.Utils.Ctype.{isdigit, isspace}

-- The decimal digits of `n`; the fuel is above `n`, and each round divides `n` by ten.
unfoldable pub to_string_fuel : ℕ → ℕ → Bytes
to_string_fuel zero n = []
to_string_fuel (suc f) n =
    let rest = to_string_fuel f (n / 10) in
    if ltb n 10 then (b'0' + n) ∷ [] else rest ++ (b'0' + n % 10) ∷ []

-- std::to_string of an unsigned number
unfoldable pub to_string : ℕ → Bytes
unfolding to_string_fuel
to_string n = to_string_fuel (suc n) n

-- std::to_string of an int
unfoldable pub to_string_ℤ : ℤ → Bytes
unfolding to_string
to_string_ℤ (pos n) = to_string n
to_string_ℤ (negsuc n) = b'-' ∷ to_string (suc n)

-- The value of the leading digits, from the value `acc` of those before; the rest is not read.
unfoldable pub leading_digits : ℕ → Bytes → ℕ
unfolding isdigit
leading_digits acc [] = acc
leading_digits acc (c ∷ cs) =
    let rest = leading_digits (acc * 10 + (c - b'0')) cs in if isdigit c then rest else acc

-- `find_first_not_of("0123456789")` finds nothing.
unfoldable pub all_digits : Bytes → Bool
unfolding isdigit
all_digits [] = true
all_digits (c ∷ cs) = isdigit c && all_digits cs

-- What remains after the leading white space.
unfoldable pub skip_space : Bytes → Bytes
unfolding isspace
skip_space [] = []
skip_space (c ∷ cs) = if isspace c then skip_space cs else c ∷ cs

-- A number of the given sign at the head, if it is there and is an `int`.
unfoldable pub signed_digits : Bool → Bytes → Option ℤ
unfolding leading_digits isdigit
signed_digits negative [] = none
signed_digits negative (c ∷ cs) =
    let n = leading_digits 0 (c ∷ cs) in
    if not (isdigit c)
    then none
    else if negative
    then (if leb n 2147483648 then some (sub_ℕ 0 n) else none)
    else if leb n 2147483647
    then some (pos n)
    else none

unfoldable pub signed_number : Bytes → Option ℤ
unfolding signed_digits
signed_number [] = none
signed_number (c ∷ cs) =
    if c == b'-'
    then signed_digits true cs
    else if c == b'+'
    then signed_digits false cs
    else signed_digits false (c ∷ cs)

-- std::stoi; `none` is an exception, of either kind.
unfoldable pub stoi : Bytes → Option ℤ
unfolding skip_space signed_number
stoi s = signed_number (skip_space s)
