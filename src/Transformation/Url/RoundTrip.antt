-- ===== src/Transformation/Url/RoundTrip.antt =====
-- urlDecode and uri_decode behind urlEncode.
use mod_security.Prelude.{
  Bool-cases, [], ap, arith, false, inl, inr, leb, length, refl, true, ℕ, ◌++◌, ◌<◌, ◌==◌, ◌∙◌, ◌∷◌,
  ◌≡◌,
}
use mod_security.Prelude.Bytes.{AreBytes, Bytes}
use mod_security.Transformation.Scan.{put, scan, scan-step}
use mod_security.Transformation.Url.{
  is_unescaped, url_decode_step, url_encode, url_encode_byte, urldecode_nonstrict_inplace,
  urldecode_nonstrict_inplace_ext,
}
use mod_security.Utils.Hex.{c2x, c2x_high, c2x_low, valid_hex-c2x_high, valid_hex-c2x_low, x2c-c2x}

step-unescaped :
    (c n : ℕ) (rest : Bytes)
    → is_unescaped c ≡ true
    → url_decode_step true n c rest ≡ put (c ∷ []) 0 false n
unfolding url_decode_step is_unescaped
step-unescaped c n rest u =
    let p : (c == b'%') ≡ false = ground arith in
    let q : (c == b'+') ≡ false = ground arith in rw p (rw q refl)

step-escaped :
    (c n : ℕ) (rest : Bytes)
    → c < 256
    → url_decode_step true n b'%' (c2x_high c ∷ c2x_low c ∷ rest) ≡ put (c ∷ []) 2 true n
unfolding url_decode_step
step-escaped c n rest h =
    let k : leb 2 (length (c2x_high c ∷ c2x_low c ∷ rest)) ≡ true = ground arith in
    rw (k, valid_hex-c2x_high c h, valid_hex-c2x_low c h, x2c-c2x c h) refl

scan-url_encode_byte :
    (c n : ℕ) (rest : Bytes)
    → c < 256
    → let later = scan (url_decode_step true) n 0 rest in
      let all = scan (url_decode_step true) n 0 (url_encode_byte c ++ rest) in
      (all.value ≡ c ∷ later.value) × (all.final ≡ later.final)
unfolding url_encode_byte
scan-url_encode_byte c n rest h = elim (Bool-cases (c == b' ')) [
  | inl e ↦ unfold scan url_decode_step in (ground arith, ground arith)
  | inr e ↦ elim (Bool-cases (is_unescaped c)) [
    | inl u ↦
        let one =
          scan-step (url_decode_step true) n c rest (put (c ∷ []) 0 false n)
            (step-unescaped c n rest u) in
        rw (e, u) (ap (λ r. r.value) one, ap (λ r. r.final) one)
    | inr u ↦
        let one =
          scan-step (url_decode_step true) n b'%' (c2x c ++ rest) (put (c ∷ []) 2 true n)
            (unfold c2x c2x_high c2x_low in step-escaped c n rest h) in
        rw (e, u) (unfold scan c2x in (ap (λ r. r.value) one, ap (λ r. r.final) one))
  ]
]

scan-url_encode :
    (v : Bytes) (n : ℕ)
    → AreBytes v
    → ((scan (url_decode_step true) n 0 (url_encode v).0).value ≡ v)
      × ((scan (url_decode_step true) n 0 (url_encode v).0).final ≡ n)
unfolding url_encode
scan-url_encode [] n h = unfold scan in (refl, refl)
scan-url_encode (c ∷ rest) n h =
    let one = scan-url_encode_byte c n (url_encode rest).0 h.0 in
    let ih = scan-url_encode rest n h.1 in (one.0 ∙ ap (λ l. c ∷ l) ih.0, one.1 ∙ ih.1)

-- urlDecode gives back any string of bytes from its urlEncode, and counts no invalid encoding in it.
pub url_decode-url_encode :
    (v : Bytes)
    → AreBytes v
    → ((urldecode_nonstrict_inplace (url_encode v).0).value ≡ v)
      × ((urldecode_nonstrict_inplace (url_encode v).0).final ≡ 0)
unfolding urldecode_nonstrict_inplace urldecode_nonstrict_inplace_ext
url_decode-url_encode v h = scan-url_encode v 0 h
