-- ===== src/Transformation/Url.antt =====
-- Percent encoding: utils/decode.cc and the transformations urlDecode and urlEncode.
pub mod RoundTrip
pub mod Uri
use mod_security.Prelude.{
  Bool, Option, [], false, if◌then◌else◌, leb, length, none, not, some, true, within, ℕ, ◌%◌, ◌&&◌,
  ◌*◌, ◌++◌, ◌+◌, ◌-◌, ◌==◌, ◌||◌, ◌∷◌,
}
use mod_security.Prelude.Bytes.{Bytes}
use mod_security.Transformation.Scan.{Scanned, Step, ahead, put, scan}
use mod_security.Utils.Hex.{c2x, valid_hex, x2c}

-- A pass of urldecode_nonstrict_inplace_ext. The state is invalid_count.
unfoldable pub url_decode_step : Bool → ℕ → ℕ → Bytes → Step ℕ
unfolding valid_hex x2c
url_decode_step plus_to_space invalid_count x rest =
    if x == b'%'
    then if leb 2 (length rest)
      then if valid_hex (ahead rest 0) && valid_hex (ahead rest 1)
        then put (x2c (ahead rest 0) (ahead rest 1) ∷ []) 2 true invalid_count
        else put (x ∷ []) 0 false (invalid_count + 1)
      else put (x ∷ []) 0 false (invalid_count + 1)
    else if plus_to_space && x == b'+'
    then put (b' ' ∷ []) 0 true invalid_count
    else put (x ∷ []) 0 false invalid_count

unfoldable pub urldecode_nonstrict_inplace_ext : Bytes → Bool → Scanned ℕ
unfolding scan url_decode_step
urldecode_nonstrict_inplace_ext val plus_to_space = scan (url_decode_step plus_to_space) 0 0 val

unfoldable pub urldecode_nonstrict_inplace : Bytes → Scanned ℕ
unfolding urldecode_nonstrict_inplace_ext
urldecode_nonstrict_inplace val = urldecode_nonstrict_inplace_ext val true

-- UrlDecode::transform
unfoldable pub url_decode : Bytes → Bytes × Bool
unfolding urldecode_nonstrict_inplace
url_decode value = let r = urldecode_nonstrict_inplace value in (r.value, r.changed)

-- HEX2DEC, with none for (char)-1.
unfoldable pub hex_to_dec : ℕ → Option ℕ
hex_to_dec c =
    if within b'0' b'9' c
    then some (c - b'0')
    else if within b'A' b'F' c
    then some (c - b'A' + 10)
    else if within b'a' b'f' c
    then some (c - b'a' + 10)
    else none

-- `dec1` and `dec2` of the two bytes ahead, where both are digits.
unfoldable pub dec_pair : Bytes → Option (ℕ × ℕ)
unfolding hex_to_dec
dec_pair (a ∷ b ∷ rest) = elim (hex_to_dec a) [
  | none ↦ none
  | some dec1 ↦ elim (hex_to_dec b) [ none ↦ none | some dec2 ↦ some (dec1, dec2) ]
]
dec_pair _ = none

-- A pass of uri_decode, which `SRC_LAST_DEC` keeps from the last two bytes.
unfoldable pub uri_decode_step : Unit {0} → ℕ → Bytes → Step (Unit {0})
unfolding dec_pair
uri_decode_step s x rest =
    if leb 2 (length rest) && x == b'%'
    then elim (dec_pair rest) [
      | some (dec1, dec2) ↦ put ((dec1 * 16 + dec2) % 256 ∷ []) 2 true s
      | none ↦ put (x ∷ []) 0 false s
    ]
    else put (x ∷ []) 0 false s

unfoldable pub uri_decode : Bytes → Bytes
unfolding scan uri_decode_step
uri_decode s_src = (scan uri_decode_step tt 0 s_src).value

-- The bytes that url_enc copies.
unfoldable pub is_unescaped : ℕ → Bool
is_unescaped c = c == 42 || within 48 57 c || within 65 90 c || within 97 122 c

-- What url_enc writes for a byte.
unfoldable pub url_encode_byte : ℕ → Bytes
unfolding is_unescaped c2x
url_encode_byte c = if c == b' ' then b'+' ∷ [] else if is_unescaped c then c ∷ [] else b'%' ∷ c2x c

-- url_enc, the body of UrlEncode::transform.
unfoldable pub url_encode : Bytes → Bytes × Bool
unfolding url_encode_byte is_unescaped
url_encode [] = ([], false)
url_encode (c ∷ rest) =
    let later = url_encode rest in (url_encode_byte c ++ later.0, not (is_unescaped c) || later.1)
