-- ===== src/Operators/UrlEncoding.antt =====
-- @validateUrlEncoding.
pub mod Valid
use mod_security.Operators.Strings.{Answer, match_at, no_match}
use mod_security.Prelude.{[], if◌then◌else◌, leb, length, not, suc, zero, ℕ, ◌&&◌, ◌+◌, ◌==◌, ◌∷◌}
use mod_security.Prelude.Bytes.{Bytes}
use mod_security.Transformation.Scan.{ahead}
use mod_security.Utils.Hex.{valid_hex}

-- The answer of validate_url_encoding: 1 for valid, -2 and -3 with the offset, and -1 for no input.
pub data UrlEncodingCheck : Type 0 where
  valid_encoding : UrlEncodingCheck
  non_hexadecimal : ℕ → UrlEncodingCheck
  not_enough_bytes : ℕ → UrlEncodingCheck
  no_input : UrlEncodingCheck

-- The loop at the index `i`, with `passed` bytes still to be passed over.
unfoldable pub check_encoding : ℕ → ℕ → Bytes → UrlEncodingCheck
unfolding valid_hex
check_encoding i passed [] = valid_encoding
check_encoding i (suc passed) (x ∷ rest) = check_encoding (i + 1) passed rest
check_encoding i zero (x ∷ rest) =
    let later = check_encoding (i + 1) 0 rest in
    let decoded = check_encoding (i + 1) 2 rest in
    if x == b'%'
    then if not (leb 2 (length rest))
      then not_enough_bytes i
      else if valid_hex (ahead rest 0) && valid_hex (ahead rest 1)
      then decoded
      else non_hexadecimal i
    else later

unfoldable pub validate_url_encoding : Bytes → UrlEncodingCheck
unfolding check_encoding
validate_url_encoding input = if length input == 0 then no_input else check_encoding 0 0 input

-- ValidateUrlEncoding::evaluate, where logOffset is called with the size of the input.
unfoldable pub evaluate_url_encoding : Bytes → Answer
unfolding validate_url_encoding
evaluate_url_encoding [] = no_match
evaluate_url_encoding (c ∷ input) = elim (validate_url_encoding (c ∷ input)) [
  | valid_encoding ↦ no_match
  | non_hexadecimal offset ↦ match_at offset (length (c ∷ input))
  | not_enough_bytes offset ↦ match_at offset (length (c ∷ input))
  | no_input ↦ match_at 0 (length (c ∷ input))
]
