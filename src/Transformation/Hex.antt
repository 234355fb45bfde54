-- ===== src/Transformation/Hex.antt =====
-- hexEncode, hexDecode and sqlHexDecode.
pub mod RoundTrip
use mod_security.Prelude.{
  Bool, [], false, if◌then◌else◌, leb, length, true, ℕ, ◌&&◌, ◌++◌, ◌==◌, ◌∷◌,
}
use mod_security.Prelude.Bytes.{Bytes}
use mod_security.Transformation.Scan.{Step, ahead, put, scan}
use mod_security.Utils.Ctype.{tolower}
use mod_security.Utils.Hex.{c2x, valid_hex, x2c}

-- The loop of HexEncode::transform.
unfoldable pub hex_digits : Bytes → Bytes
unfolding c2x
hex_digits [] = []
hex_digits (c ∷ rest) = c2x c ++ hex_digits rest

-- HexEncode::transform
unfoldable pub hex_encode : Bytes → Bytes × Bool
unfolding hex_digits
hex_encode [] = ([], false)
hex_encode (c ∷ rest) = (hex_digits (c ∷ rest), true)

-- The loop of HexDecode: a last odd digit is dropped.
unfoldable pub hex_bytes : Bytes → Bytes
unfolding x2c
hex_bytes (a ∷ b ∷ rest) = x2c a b ∷ hex_bytes rest
hex_bytes _ = []

unfoldable pub hex_decode : Bytes → Bytes × Bool
unfolding hex_bytes
hex_decode [] = ([], false)
hex_decode (c ∷ rest) = (hex_bytes (c ∷ rest), true)

-- A pass of sqlHexDecode; `in_run` inside the do loop, where a byte that does not go on with it is
-- read again by the outer loop.
unfoldable pub sql_hex_step : Bool → ℕ → Bytes → Step Bool
unfolding valid_hex x2c tolower
sql_hex_step in_run x rest =
    if in_run && leb 1 (length rest) && valid_hex x && valid_hex (ahead rest 0)
    then put (x2c x (ahead rest 0) ∷ []) 1 true true
    else if leb 3 (length rest)
        && x == b'0'
        && tolower (ahead rest 0) == b'x'
        && valid_hex (ahead rest 1)
        && valid_hex (ahead rest 2)
    then put (x2c (ahead rest 1) (ahead rest 2) ∷ []) 3 true true
    else put (x ∷ []) 0 false false

unfoldable pub sql_hex_decode : Bytes → Bytes × Bool
unfolding scan sql_hex_step
sql_hex_decode value = let r = scan sql_hex_step false 0 value in (r.value, r.changed)
