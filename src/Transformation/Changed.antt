-- ===== src/Transformation/Changed.antt =====
-- What a transformation that reports no change has done.
pub mod Direct
use mod_security.Prelude.{Bool, [], ap, arith, false, refl, sym, take, true, ℕ, ◌==◌, ◌∙◌, ◌∷◌, ◌≡◌}
use mod_security.Prelude.Bytes.{Bytes}
use mod_security.Transformation.Bytewise.{
  is_removed_space, length_of, lower_case, parity, parity_zero, remove_nulls, remove_whitespace,
  unchanged, upper_case,
}
use mod_security.Transformation.Changed.Direct.{
  convert_unchanged, ltrim_unchanged, remove_if_unchanged, replace_nulls_unchanged, rtrim_unchanged,
  trim_unchanged, url_encode_unchanged,
}
use mod_security.Transformation.Classes.{
  TransformationClass, cmd_line_class, compress_whitespace_class, css_decode_class,
  escape_seq_decode_class, hex_decode_class, hex_encode_class, js_decode_class, length_class,
  lower_case_class, none_class, normalise_path_class, normalise_path_win_class, parity_even_class,
  parity_odd_class, parity_zero_class, remove_comments_char_class, remove_comments_class,
  remove_nulls_class, remove_whitespace_class, replace_comments_class, replace_nulls_class,
  sql_hex_decode_class, transform, trim_class, trim_left_class, trim_right_class, upper_case_class,
  url_decode_class, url_encode_class,
}
use mod_security.Transformation.Comments.{
  in_comment, left_loop, outside, remove_comments, remove_comments_char, remove_comments_char_step,
  remove_comments_step, replace_comments, replace_comments_step,
}
use mod_security.Transformation.Escapes.{
  escape_seq_decode, escape_seq_step, js_decode, js_decode_step,
}
use mod_security.Transformation.Hex.{hex_decode, hex_encode, sql_hex_decode, sql_hex_step}
use mod_security.Transformation.Scan.{Reports, Stays, Step, scan-Stays, scan_unchanged}
use mod_security.Transformation.Url.{
  url_decode, url_decode_step, urldecode_nonstrict_inplace, urldecode_nonstrict_inplace_ext,
}
use mod_security.Utils.Ctype.{tolower, toupper}

module _ {ℓ} {σ : Type ℓ} where
  -- A step that reports no change writes its byte and moves on by one.
  abbrev Plain : (σ → ℕ → Bytes → Step σ) → Type ℓ
  Plain step =
      (s : σ) (x : ℕ) (rest : Bytes)
      → (step s x rest).step_changed ≡ false
      → ((step s x rest).written ≡ x ∷ []) × ((step s x rest).more ≡ 0)

  Plain-Reports : (step : σ → ℕ → Bytes → Step σ) → Plain step → Reports step
  Plain-Reports step h s x rest e =
      let p = h s x rest e in p.0 ∙ ap (λ n. x ∷ take n rest) (sym p.1)

url_decode_step-Plain : (plus : Bool) → Plain (url_decode_step plus)
unfolding url_decode_step
url_decode_step-Plain plus s x rest e = (ground arith, ground arith)

sql_hex_step-Plain : Plain sql_hex_step
unfolding sql_hex_step
sql_hex_step-Plain s x rest e = (ground arith, ground arith)

remove_comments_char_step-Plain : Plain remove_comments_char_step
unfolding remove_comments_char_step
remove_comments_char_step-Plain s x rest e = (ground arith, ground arith)

replace_comments_step-Plain : Plain replace_comments_step
unfolding replace_comments_step
replace_comments_step-Plain true x rest e = (ground arith, ground arith)
replace_comments_step-Plain false x rest e = (ground arith, ground arith)

remove_comments_step-Plain : Plain remove_comments_step
unfolding remove_comments_step
remove_comments_step-Plain outside x rest e = (ground arith, ground arith)
remove_comments_step-Plain in_comment x rest e = (ground arith, ground arith)
remove_comments_step-Plain left_loop x rest e = (ground arith, ground arith)

escape_seq_step-Plain : Plain escape_seq_step
unfolding escape_seq_step
escape_seq_step-Plain s x rest e = (ground arith, ground arith)

js_decode_step-Reports : Reports js_decode_step
unfolding js_decode_step
js_decode_step-Reports s x rest e = ground arith

remove_comments_step-Stays : Stays remove_comments_step
unfolding remove_comments_step
remove_comments_step-Stays outside x rest e = ground arith
remove_comments_step-Stays in_comment x rest e = ground arith
remove_comments_step-Stays left_loop x rest e = ground arith

replace_comments_step-Stays : Stays replace_comments_step
unfolding replace_comments_step
replace_comments_step-Stays true x rest e = ground arith
replace_comments_step-Stays false x rest e = ground arith

remove_comments_unchanged : (v : Bytes) → (remove_comments v).1 ≡ false → (remove_comments v).0 ≡ v
unfolding remove_comments
remove_comments_unchanged v e =
    let f = scan-Stays remove_comments_step outside 0 v remove_comments_step-Stays e in
    rw f (
      scan_unchanged remove_comments_step outside v
        (Plain-Reports remove_comments_step remove_comments_step-Plain) e)

replace_comments_unchanged :
    (v : Bytes) → (replace_comments v).1 ≡ false → (replace_comments v).0 ≡ v
unfolding replace_comments
replace_comments_unchanged v e =
    let f = scan-Stays replace_comments_step false 0 v replace_comments_step-Stays e in
    rw f (
      scan_unchanged replace_comments_step false v
        (Plain-Reports replace_comments_step replace_comments_step-Plain) e)

-- The classes whose `transform` answers false only where it has left the value as it was: not cmdLine,
-- compressWhitespace, cssDecode, normalisePath and normalisePathWin.
abbrev pub IsHonest : TransformationClass → Type 0
IsHonest cmd_line_class = ⊥
IsHonest compress_whitespace_class = ⊥
IsHonest css_decode_class = ⊥
IsHonest normalise_path_class = ⊥
IsHonest normalise_path_win_class = ⊥
IsHonest _ = Unit

-- Where `transform` reports no change, the value is as before, for each of escapeSeqDecode, hexDecode,
-- hexEncode, jsDecode, length, lowercase, none, parityEven7bit, parityOdd7bit, parityZero7bit,
-- removeComments, removeCommentsChar, removeNulls, removeWhitespace, replaceComments, replaceNulls,
-- sqlHexDecode, trim, trimLeft, trimRight, uppercase, urlDecode and urlEncode.
pub transform_unchanged :
    (k : TransformationClass) (v : Bytes)
    → IsHonest k
    → (transform k v).1 ≡ false
    → (transform k v).0 ≡ v
unfolding transform
transform_unchanged cmd_line_class v h e = elim h [ ]
transform_unchanged compress_whitespace_class v h e = elim h [ ]
transform_unchanged css_decode_class v h e = elim h [ ]
transform_unchanged normalise_path_class v h e = elim h [ ]
transform_unchanged normalise_path_win_class v h e = elim h [ ]
transform_unchanged escape_seq_decode_class v h e =
    unfold escape_seq_decode in
    scan_unchanged escape_seq_step tt v (Plain-Reports escape_seq_step escape_seq_step-Plain) e
transform_unchanged hex_decode_class [] h e = unfold hex_decode in refl
transform_unchanged hex_decode_class (c ∷ rest) h e = unfold hex_decode in ground arith
transform_unchanged hex_encode_class [] h e = unfold hex_encode in refl
transform_unchanged hex_encode_class (c ∷ rest) h e = unfold hex_encode in ground arith
transform_unchanged js_decode_class v h e =
    unfold js_decode in scan_unchanged js_decode_step tt v js_decode_step-Reports e
transform_unchanged length_class v h e = unfold length_of in ground arith
transform_unchanged lower_case_class v h e = unfold lower_case in convert_unchanged tolower v e
transform_unchanged none_class v h e = unfold unchanged in refl
transform_unchanged parity_even_class [] h e = unfold parity in refl
transform_unchanged parity_even_class (c ∷ rest) h e = unfold parity in ground arith
transform_unchanged parity_odd_class [] h e = unfold parity in refl
transform_unchanged parity_odd_class (c ∷ rest) h e = unfold parity in ground arith
transform_unchanged parity_zero_class [] h e = unfold parity_zero in refl
transform_unchanged parity_zero_class (c ∷ rest) h e = unfold parity_zero in ground arith
transform_unchanged remove_comments_char_class v h e =
    unfold remove_comments_char in
    scan_unchanged remove_comments_char_step tt v
      (Plain-Reports remove_comments_char_step remove_comments_char_step-Plain) e
transform_unchanged remove_comments_class v h e = remove_comments_unchanged v e
transform_unchanged remove_nulls_class v h e =
    unfold remove_nulls in remove_if_unchanged (λ c. c == 0) v e
transform_unchanged remove_whitespace_class v h e =
    unfold remove_whitespace in remove_if_unchanged is_removed_space v e
transform_unchanged replace_comments_class v h e = replace_comments_unchanged v e
transform_unchanged replace_nulls_class v h e = replace_nulls_unchanged v e
transform_unchanged sql_hex_decode_class v h e =
    unfold sql_hex_decode in
    scan_unchanged sql_hex_step false v (Plain-Reports sql_hex_step sql_hex_step-Plain) e
transform_unchanged trim_left_class v h e = ltrim_unchanged v e
transform_unchanged trim_right_class v h e = rtrim_unchanged v e
transform_unchanged trim_class v h e = trim_unchanged v e
transform_unchanged upper_case_class v h e = unfold upper_case in convert_unchanged toupper v e
transform_unchanged url_decode_class v h e =
    unfold url_decode urldecode_nonstrict_inplace urldecode_nonstrict_inplace_ext in
    scan_unchanged (url_decode_step true) 0 v
      (Plain-Reports (url_decode_step true) (url_decode_step-Plain true)) e
transform_unchanged url_encode_class v h e = url_encode_unchanged v e
