-- ===== src/Transformation/Hex/RoundTrip.antt =====
-- hexDecode and sqlHexDecode behind hexEncode.
use mod_security.Prelude.{[], ap, arith, false, leb, length, refl, true, ℕ, ◌<◌, ◌∙◌, ◌∷◌, ◌≡◌}
use mod_security.Prelude.Bytes.{AreBytes, Bytes}
use mod_security.Transformation.Hex.{
  hex_bytes, hex_decode, hex_digits, hex_encode, sql_hex_decode, sql_hex_step,
}
use mod_security.Transformation.Scan.{put, scan, scan-step}
use mod_security.Utils.Ctype.{tolower}
use mod_security.Utils.Hex.{
  c2x, c2x_high, c2x_low, valid_hex-c2x_high, valid_hex-c2x_low, x2c, x2c-c2x,
}

hex_bytes-hex_digits : (v : Bytes) → AreBytes v → hex_bytes (hex_digits v) ≡ v
unfolding hex_bytes hex_digits c2x
hex_bytes-hex_digits [] h = refl
hex_bytes-hex_digits (c ∷ rest) h =
    let one : x2c (c2x_high c) (c2x_low c) ≡ c = x2c-c2x c h.0 in
    cons (unfold c2x_high c2x_low in one) (hex_bytes-hex_digits rest h.1)
  where
    cons : {a b : ℕ} {x y : Bytes} → a ≡ b → x ≡ y → a ∷ x ≡ b ∷ y
    cons p q = cc

-- hexDecode gives back any string of bytes from its hexEncode.
pub hex_decode-hex_encode : (v : Bytes) → AreBytes v → (hex_decode (hex_encode v).0).0 ≡ v
unfolding hex_decode hex_encode hex_digits c2x
hex_decode-hex_encode [] h = refl
hex_decode-hex_encode (c ∷ rest) h = hex_bytes-hex_digits (c ∷ rest) h

sql_run_step :
    (c : ℕ) (rest : Bytes)
    → c < 256
    → sql_hex_step true (c2x_high c) (c2x_low c ∷ rest) ≡ put (c ∷ []) 1 true true
unfolding sql_hex_step
sql_run_step c rest h =
    let k : leb 1 (length (c2x_low c ∷ rest)) ≡ true = ground arith in
    rw (k, valid_hex-c2x_high c h, valid_hex-c2x_low c h, x2c-c2x c h) refl

sql_run : (v : Bytes) → AreBytes v → (scan sql_hex_step true 0 (hex_digits v)).value ≡ v
unfolding hex_digits c2x c2x_high c2x_low scan
sql_run [] h = refl
sql_run (c ∷ rest) h =
    let one =
      scan-step sql_hex_step true (c2x_high c) (c2x_low c ∷ hex_digits rest)
        (put (c ∷ []) 1 true true) (sql_run_step c (hex_digits rest) h.0) in
    ap (λ r. r.value) one ∙ ap (λ l. c ∷ l) (sql_run rest h.1)

sql_first_step :
    (c : ℕ) (rest : Bytes)
    → c < 256
    → sql_hex_step false b'0' (b'x' ∷ c2x_high c ∷ c2x_low c ∷ rest) ≡ put (c ∷ []) 3 true true
unfolding sql_hex_step tolower
sql_first_step c rest h =
    let k : leb 3 (length (b'x' ∷ c2x_high c ∷ c2x_low c ∷ rest)) ≡ true = ground arith in
    rw (k, valid_hex-c2x_high c h, valid_hex-c2x_low c h, x2c-c2x c h) refl

-- sqlHexDecode reads a whole string of bytes, not empty, from its SQL hexadecimal literal: 0x and the
-- digits of hexEncode.
sql_hex_decode-literal :
    (c : ℕ) (rest : Bytes)
    → AreBytes (c ∷ rest)
    → (sql_hex_decode (b'0' ∷ b'x' ∷ (hex_encode (c ∷ rest)).0)).0 ≡ c ∷ rest
unfolding sql_hex_decode hex_encode hex_digits c2x
sql_hex_decode-literal c rest h =
    let one =
      scan-step sql_hex_step false b'0' (b'x' ∷ c2x_high c ∷ c2x_low c ∷ hex_digits rest)
        (put (c ∷ []) 3 true true) (sql_first_step c (hex_digits rest) h.0) in
    unfold scan c2x_high c2x_low in ap (λ r. r.value) one ∙ ap (λ l. c ∷ l) (sql_run rest h.1)
