-- ===== src/Transformation/Escapes/Hex.antt =====
-- jsDecode of text that is written in hexadecimal escapes.
use mod_security.Prelude.{
  Bool-cases, [], ap, arith, inl, inr, leb, length, refl, true, ℕ, ◌<◌, ◌∙◌, ◌∷◌, ◌≡◌,
}
use mod_security.Prelude.Bytes.{AreBytes, Bytes}
use mod_security.Transformation.Escapes.{js_decode, js_decode_step}
use mod_security.Transformation.Scan.{put, scan, scan-step}
use mod_security.Utils.Hex.{c2x_high, c2x_low, valid_hex-c2x_high, valid_hex-c2x_low, x2c-c2x}

-- Each byte as a JavaScript escape \xHH.
abbrev pub js_hex_escapes : Bytes → Bytes
js_hex_escapes [] = []
js_hex_escapes (c ∷ rest) = b'\\' ∷ b'x' ∷ c2x_high c ∷ c2x_low c ∷ js_hex_escapes rest

js_hex_step :
    (c : ℕ) (rest : Bytes)
    → c < 256
    → js_decode_step tt b'\\' (b'x' ∷ c2x_high c ∷ c2x_low c ∷ rest) ≡ put (c ∷ []) 3 true tt
unfolding js_decode_step
js_hex_step c rest h =
    let r = b'x' ∷ c2x_high c ∷ c2x_low c ∷ rest in
    let k : leb 3 (length r) ≡ true = ground arith in
    elim (Bool-cases (leb 5 (length r))) [
      | inl e ↦ rw (e, k, valid_hex-c2x_high c h, valid_hex-c2x_low c h, x2c-c2x c h) refl
      | inr e ↦ rw (e, k, valid_hex-c2x_high c h, valid_hex-c2x_low c h, x2c-c2x c h) refl
    ]

-- jsDecode reads any string of bytes from its hexadecimal escapes, so that an attack written in them
-- is seen in the clear.
pub js_decode-js_hex_escapes : (v : Bytes) → AreBytes v → (js_decode (js_hex_escapes v)).0 ≡ v
unfolding js_decode scan
js_decode-js_hex_escapes [] h = refl
js_decode-js_hex_escapes (c ∷ rest) h =
    let one =
      scan-step js_decode_step tt b'\\' (b'x' ∷ c2x_high c ∷ c2x_low c ∷ js_hex_escapes rest)
        (put (c ∷ []) 3 true tt) (js_hex_step c (js_hex_escapes rest) h.0) in
    ap (λ r. r.value) one ∙ ap (λ l. c ∷ l) (js_decode-js_hex_escapes rest h.1)
