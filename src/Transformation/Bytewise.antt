-- ===== src/Transformation/Bytewise.antt =====
-- The transformations that change, or take out, every byte on its own: lowercase, uppercase,
-- removeNulls, replaceNulls, removeWhitespace, parityEven7bit, parityOdd7bit, parityZero7bit, and
-- length and none.
pub mod Parity
use Prim.Native.Nat.{bit_and, bit_or, bit_xor}
use mod_security.Prelude.{
  Bool, [], false, if◌then◌else◌, length, map, not, true, ℕ, ◌%◌, ◌/◌, ◌==◌, ◌^◌, ◌||◌, ◌∷◌,
}
use mod_security.Prelude.Bytes.{Bytes}
use mod_security.Utils.Ctype.{isspace, tolower, toupper}
use mod_security.Utils.Number.{to_string}

-- LowerCase::convert
unfoldable pub convert : (ℕ → ℕ) → Bytes → Bytes × Bool
convert op [] = ([], false)
convert op (c ∷ rest) =
    let later = convert op rest in let nc = op c in (nc ∷ later.0, not (nc == c) || later.1)

unfoldable pub lower_case : Bytes → Bytes × Bool
unfolding convert tolower
lower_case value = convert tolower value

unfoldable pub upper_case : Bytes → Bytes × Bool
unfolding convert toupper
upper_case value = convert toupper value

-- std::remove_if
unfoldable pub without : (ℕ → Bool) → Bytes → Bytes
without pred [] = []
without pred (c ∷ rest) = let later = without pred rest in if pred c then later else c ∷ later

-- RemoveNulls::remove_if
unfoldable pub remove_if : (ℕ → Bool) → Bytes → Bytes × Bool
unfolding without
remove_if pred val = let v = without pred val in (v, not (length v == length val))

unfoldable pub remove_nulls : Bytes → Bytes × Bool
unfolding remove_if
remove_nulls value = remove_if (λ c. c == 0) value

-- White space, and the two bytes of a non-breaking space in UTF-8.
unfoldable pub is_removed_space : ℕ → Bool
unfolding isspace
is_removed_space c = isspace c || c == 0xa0 || c == 0xc2

unfoldable pub remove_whitespace : Bytes → Bytes × Bool
unfolding remove_if is_removed_space
remove_whitespace value = remove_if is_removed_space value

unfoldable pub replace_nulls : Bytes → Bytes × Bool
replace_nulls [] = ([], false)
replace_nulls (c ∷ rest) =
    let later = replace_nulls rest in
    if c == 0 then (b' ' ∷ later.0, true) else (c ∷ later.0, later.1)

-- A byte of ParityEven7bit::inplace: bit `uc` of 0x6996 is the parity of the nibble `uc`.
unfoldable pub parity_byte : Bool → ℕ → ℕ
parity_byte even x =
    let uc = bit_and (bit_xor x (x / 16)) 0xf in
    let condition = (0x6996 / 2 ^ uc) % 2 == 1 in
    if (if even then condition else not condition) then bit_or x 0x80 else bit_and x 0x7f

unfoldable pub parity : Bool → Bytes → Bytes × Bool
unfolding parity_byte
parity even [] = ([], false)
parity even (c ∷ rest) = (map (parity_byte even) (c ∷ rest), true)

unfoldable pub parity_zero : Bytes → Bytes × Bool
parity_zero [] = ([], false)
parity_zero (c ∷ rest) = (map (λ x. bit_and x 0x7f) (c ∷ rest), true)

-- Length::transform
unfoldable pub length_of : Bytes → Bytes × Bool
unfolding to_string
length_of value = (to_string (length value), true)

-- None::transform
unfoldable pub unchanged : Bytes → Bytes × Bool
unchanged value = (value, false)
