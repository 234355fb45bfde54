-- ===== src/Transformation/Url/Uri.antt =====
-- uri_decode is the percent decoding of urlDecode without the plus sign.
use mod_security.Prelude.{
  ==_iff, Bool, Bool-cases, Option, [], ap, arith, false, inl, inr, ltb, none, not, refl, some, suc,
  true, zero, ℕ, ◌%◌, ◌&&◌, ◌*◌, ◌+◌, ◌<◌, ◌==◌, ◌||◌, ◌∷◌, ◌≡◌,
}
use mod_security.Prelude.Bytes.{Bytes}
use mod_security.Transformation.Scan.{Step, scan}
use mod_security.Transformation.Url.{
  dec_pair, hex_to_dec, uri_decode, uri_decode_step, url_decode_step,
  urldecode_nonstrict_inplace_ext,
}
use mod_security.Utils.Hex.{check_below, check_below_correct, valid_hex, x2c, xsingle2c}

abbrev holds : Option ℕ → ℕ → Bool
holds o n = elim o [ none ↦ false | some m ↦ m == n ]

holds_sound : (o : Option ℕ) (n : ℕ) → holds o n ≡ true → o ≡ some n
holds_sound none n h = ground arith
holds_sound (some m) n h = ap some ((==_iff m n).0 h)

hex_to_dec_table :
    check_below 256
      (λ c. not (valid_hex c) || (holds (hex_to_dec c) (xsingle2c c) && ltb (xsingle2c c) 16))
    ≡ true
unfolding check_below valid_hex xsingle2c hex_to_dec
hex_to_dec_table = refl

valid_hex-lt : (c : ℕ) → valid_hex c ≡ true → c < 256
unfolding valid_hex
valid_hex-lt c h = ground arith

hex_to_dec-valid : (c : ℕ) → valid_hex c ≡ true → hex_to_dec c ≡ some (xsingle2c c)
hex_to_dec-valid c h =
    let t = check_below_correct 256 _ hex_to_dec_table c (valid_hex-lt c h) in
    holds_sound (hex_to_dec c) (xsingle2c c) (ground arith)

xsingle2c-lt : (c : ℕ) → valid_hex c ≡ true → xsingle2c c < 16
xsingle2c-lt c h =
    let t = check_below_correct 256 _ hex_to_dec_table c (valid_hex-lt c h) in ground arith

hex_to_dec-invalid : (c : ℕ) → valid_hex c ≡ false → hex_to_dec c ≡ none
unfolding valid_hex hex_to_dec
hex_to_dec-invalid c h = ground arith

x2c_value :
    (a b : ℕ)
    → valid_hex a ≡ true
    → valid_hex b ≡ true
    → x2c a b ≡ (xsingle2c a * 16 + xsingle2c b) % 256
unfolding x2c
x2c_value a b h k = omega (arith, xsingle2c-lt a h, xsingle2c-lt b k)

module _ {σ τ : Type 0} (f : σ → ℕ → Bytes → Step σ) (g : τ → ℕ → Bytes → Step τ) where
  -- Two loops whose passes write the same and read the same write the same.
  abbrev SamePasses : Type 0
  SamePasses =
      (s : σ) (t : τ) (x : ℕ) (rest : Bytes)
      → ((f s x rest).written ≡ (g t x rest).written) × ((f s x rest).more ≡ (g t x rest).more)

  scan-same :
      (s : σ) (t : τ) (n : ℕ) (input : Bytes)
      → SamePasses
      → (scan f s n input).value ≡ (scan g t n input).value
  unfolding scan
  scan-same s t n [] h = refl
  scan-same s t (suc n) (x ∷ rest) h = scan-same s t n rest h
  scan-same s t zero (x ∷ rest) h =
      let same = h s t x rest in
      let ih = scan-same (f s x rest).next (g t x rest).next (f s x rest).more rest h in
      rw (same.0, ih, same.1) refl

same_passes : SamePasses uri_decode_step (url_decode_step false)
unfolding uri_decode_step url_decode_step dec_pair
same_passes s t x [] = ground arith
same_passes s t x (a ∷ []) = ground arith
same_passes s t x (a ∷ b ∷ rest) = elim (Bool-cases (valid_hex a)) [
  | inr e ↦ ground (arith, hex_to_dec-invalid a e)
  | inl e ↦ elim (Bool-cases (valid_hex b)) [
    | inr d ↦ ground (arith, hex_to_dec-valid a e, hex_to_dec-invalid b d)
    | inl d ↦ ground (arith, hex_to_dec-valid a e, hex_to_dec-valid b d, x2c_value a b e d)
  ]
]

-- uri_decode, which decodes the path and the query string of the request line, is the percent
-- decoding of urldecode_nonstrict_inplace_ext with `plus_to_space` off, on every string.
pub uri_decode-urldecode :
    (v : Bytes) → uri_decode v ≡ (urldecode_nonstrict_inplace_ext v false).value
unfolding uri_decode urldecode_nonstrict_inplace_ext
uri_decode-urldecode v = scan-same uri_decode_step (url_decode_step false) tt 0 0 v same_passes
