-- ===== src/Operators/Utf8.antt =====
-- @validateUtf8Encoding (src/operators/validate_utf8_encoding.cc). Of a byte, `(c & 0xE0) == 0xC0` is
-- a test of its quotient by 32, `c & 0x3F` its remainder by 64, and shifted parts are summed.
pub mod Encoded
use mod_security.Operators.Strings.{Answer, match_at, no_match}
use mod_security.Prelude.{
  Bool, [], if◌then◌else◌, leb, length, ltb, suc, true, within, zero, ℕ, ◌%◌, ◌&&◌, ◌*◌, ◌+◌, ◌-◌,
  ◌/◌, ◌==◌, ◌||◌, ◌∷◌,
}
use mod_security.Prelude.Bytes.{Bytes}

-- The UNICODE_ERROR values, and the length of a character.
pub data Utf8Character : Type 0 where
  characters_missing invalid_encoding overlong_character restricted_character : Utf8Character
  unicode_len : ℕ → Utf8Character

-- the tests on the number of a character, at the end of detect_utf8_character
unfoldable pub check_number : ℕ → ℕ → Utf8Character
check_number len d =
    if within 55296 57343 d
    then restricted_character
    else (if (len == 4 && ltb d 65536) || ((len == 3 && ltb d 2048) || (len == 2 && ltb d 128))
        then overlong_character
        else unicode_len len)

-- whether a byte starts with binary 10
abbrev pub is_continuation : ℕ → Bool
is_continuation c = c / 64 == 2

unfoldable pub two_bytes : ℕ → Bytes → Utf8Character
unfolding check_number
two_bytes c [] = characters_missing
two_bytes c (x ∷ rest) =
    if is_continuation x then check_number 2 (c % 32 * 64 + x % 64) else invalid_encoding

unfoldable pub three_bytes : ℕ → Bytes → Utf8Character
unfolding check_number
three_bytes c [] = characters_missing
three_bytes c (x ∷ []) = characters_missing
three_bytes c (x ∷ y ∷ rest) =
    if is_continuation x && is_continuation y
    then check_number 3 (c % 16 * 4096 + x % 64 * 64 + y % 64)
    else invalid_encoding

unfoldable pub four_bytes : ℕ → Bytes → Utf8Character
unfolding check_number
four_bytes c [] = characters_missing
four_bytes c (x ∷ []) = characters_missing
four_bytes c (x ∷ y ∷ []) = characters_missing
four_bytes c (x ∷ y ∷ z ∷ rest) =
    if is_continuation x && (is_continuation y && is_continuation z)
    then check_number 4 (c % 8 * 262144 + x % 64 * 4096 + y % 64 * 64 + z % 64)
    else invalid_encoding

-- on the first byte and those behind it
unfoldable pub detect_utf8_character : ℕ → Bytes → Utf8Character
detect_utf8_character c rest =
    if c / 128 == 0
    then unicode_len 1
    else (if c / 32 == 6
        then two_bytes c rest
        else (if c / 16 == 14
            then three_bytes c rest
            else (if c / 8 == 30
                then (if leb 245 c then restricted_character else four_bytes c rest)
                else invalid_encoding)))

-- What the loop does with the answer at a place of a value of some size; too few bytes are not logged.
unfoldable pub validated : ℕ → ℕ → (ℕ → Answer) → Utf8Character → Answer
validated size i later characters_missing = record { is_match = true; offsets = [] }
validated size i later (unicode_len n) = later (n - 1)
validated size i later _ = match_at i size

-- The loop, with the bytes of a character that are still to be passed over.
unfoldable pub validate_utf8_from : ℕ → ℕ → ℕ → Bytes → Answer
unfolding validated
validate_utf8_from size i left [] = no_match
validate_utf8_from size i (suc left) (c ∷ rest) = validate_utf8_from size (i + 1) left rest
validate_utf8_from size i zero (c ∷ rest) =
    validated size i (λ left. validate_utf8_from size (i + 1) left rest)
      (detect_utf8_character c rest)

-- ValidateUtf8Encoding::evaluate
unfoldable pub evaluate_utf8_encoding : Bytes → Answer
unfolding validate_utf8_from detect_utf8_character two_bytes three_bytes four_bytes
evaluate_utf8_encoding str = validate_utf8_from (length str) 0 0 str
