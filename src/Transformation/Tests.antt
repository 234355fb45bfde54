-- ===== src/Transformation/Tests.antt =====
-- The transformations on a few strings, with what the theorems say of them.
use mod_security.Prelude.{[], arith, false, length, refl, reverse, true, ℕ, ◌∷◌, ◌≡◌, ◌≤◌}
use mod_security.Prelude.Bytes.{AreBytes, Bytes}
use mod_security.Prelude.Text.{codes}
use mod_security.Transformation.Changed.{transform_unchanged}
use mod_security.Transformation.Classes.{remove_comments_class, replace_comments_class, transform}
use mod_security.Transformation.Comments.{remove_comments, replace_comments}
use mod_security.Transformation.Comments.Removed.{has_comment, replace_comments-has_comment}
use mod_security.Transformation.Escapes.{css_decode, escape_seq_decode, js_decode}
use mod_security.Transformation.Escapes.Hex.{js_decode-js_hex_escapes, js_hex_escapes}
use mod_security.Transformation.Hex.{hex_decode, hex_encode}
use mod_security.Transformation.Hex.RoundTrip.{hex_decode-hex_encode}
use mod_security.Transformation.Length.InPlace.{transform-length}
use mod_security.Transformation.Path.{goes_on, normalize_path_inplace, path_rounds, start_path}
use mod_security.Transformation.Path.Normal.{IsNormal, normalize_path_inplace-IsNormal}
use mod_security.Transformation.Path.Rounds.{path_loop-ends}
use mod_security.Transformation.Url.{
  uri_decode, url_encode, urldecode_nonstrict_inplace, urldecode_nonstrict_inplace_ext,
}
use mod_security.Transformation.Url.RoundTrip.{url_decode-url_encode}
use mod_security.Transformation.Url.Uri.{uri_decode-urldecode}
use mod_security.Transformation.Whitespace.{cmd_line, compress_whitespace}
use mod_security.Transformation.Whitespace.Canonical.{IsCanonical, cmd_line-IsCanonical}
use mod_security.Utils.Hex.{c2x}

abbrev sample : Bytes
sample = codes "a b+/%"

sample-AreBytes : AreBytes sample
sample-AreBytes =
    (omega arith, (omega arith, (omega arith, (omega arith, (omega arith, (omega arith, tt))))))

encoded_sample : (url_encode sample).0 ≡ codes "a+b%2b%2f%25"
unfolding url_encode c2x
encoded_sample = refl

url_decode-url_encode_example :
    ((urldecode_nonstrict_inplace (url_encode sample).0).value ≡ sample)
    × ((urldecode_nonstrict_inplace (url_encode sample).0).final ≡ 0)
url_decode-url_encode_example = url_decode-url_encode sample sample-AreBytes

uri_decode-urldecode_example :
    uri_decode (codes "a+%41%4") ≡ (urldecode_nonstrict_inplace_ext (codes "a+%41%4") false).value
uri_decode-urldecode_example = uri_decode-urldecode (codes "a+%41%4")

decoded_uri : uri_decode (codes "a+%41%4") ≡ codes "a+A%4"
unfolding uri_decode
decoded_uri = refl

hex_decode-hex_encode_example : (hex_decode (hex_encode sample).0).0 ≡ sample
hex_decode-hex_encode_example = hex_decode-hex_encode sample sample-AreBytes

js_decode-js_hex_escapes_example : (js_decode (js_hex_escapes sample)).0 ≡ sample
js_decode-js_hex_escapes_example = js_decode-js_hex_escapes sample sample-AreBytes

transform_unchanged_example : (transform remove_comments_class sample).0 ≡ sample
unfolding transform remove_comments
transform_unchanged_example = transform_unchanged remove_comments_class sample tt refl

transform-length_example :
    length (transform replace_comments_class (codes "a/*b")).0 ≤ length (codes "a/*b")
transform-length_example = transform-length replace_comments_class (codes "a/*b") tt

replace_comments-has_comment_example :
    has_comment (replace_comments (codes "un/*x*/ion/*")).0 ≡ false
replace_comments-has_comment_example = replace_comments-has_comment (codes "un/*x*/ion/*")

replaced_comments : (replace_comments (codes "un/*x*/ion/*")).0 ≡ codes "un ion "
unfolding replace_comments
replaced_comments = refl

cmd_line-IsCanonical_example : IsCanonical (reverse (cmd_line (codes "C^md ,/C \"x\"")).0)
cmd_line-IsCanonical_example = cmd_line-IsCanonical (codes "C^md ,/C \"x\"")

canonical_command : (cmd_line (codes "C^md ,/C \"x\"")).0 ≡ codes "cmd/c x"
unfolding cmd_line
canonical_command = refl

-- A tab becomes a blank, and no change is reported.
unreported_tab : compress_whitespace (9 ∷ []) ≡ (32 ∷ [], false)
unfolding compress_whitespace
unreported_tab = refl

-- Nor is a letter that becomes a small one, or a backslash that is dropped.
unreported_letter : cmd_line (codes "A") ≡ (codes "a", false)
unfolding cmd_line
unreported_letter = refl

unreported_backslash : css_decode (codes "\\g") ≡ (codes "g", false)
unfolding css_decode
unreported_backslash = refl

-- jsDecode and escapeSeqDecode differ where three octal digits are more than a byte.
octal_escapes :
    ((js_decode (codes "\\401")).0 ≡ 0x20 ∷ b'1' ∷ [])
    × ((escape_seq_decode (codes "\\401")).0 ≡ 1 ∷ [])
unfolding js_decode escape_seq_decode
octal_escapes = (refl, refl)

full_width_escape : (js_decode (codes "\\uff1cscript")).0 ≡ codes "<script"
unfolding js_decode
full_width_escape = refl

css_escapes : (css_decode (codes "ja\\vascript\\3a x")).0 ≡ codes "javascript:x"
unfolding css_decode
css_escapes = refl

path_examples :
    (normalize_path_inplace (codes "/a/./b//../c") false ≡ (codes "/a/c", true))
    × (normalize_path_inplace (codes "../x/../y") false ≡ (codes "../y", true))
    × (normalize_path_inplace (codes "\\a\\..\\b") true ≡ (codes "/b", true))
unfolding normalize_path_inplace
path_examples = (refl, refl, refl)

-- A back reference at the end is taken out, the slash of the root with it, and no change is reported;
-- and a name that ends in two dots is taken for one.
path_surprises :
    (normalize_path_inplace (codes "/a/..") false ≡ ([], false))
    × (normalize_path_inplace (codes "/x/foo../bar") false ≡ (codes "/x/bar", true))
unfolding normalize_path_inplace
path_surprises = (refl, refl)

path_loop-ends_example :
    let v = codes "/a" in
    let rounds = λ (n : ℕ). path_rounds false false 1 n (start_path v) in
    ((n : ℕ) → 2 ≤ n → goes_on false false 1 (rounds n) ≡ false)
    × ((n : ℕ)
        → (length (rounds n).buffer ≡ 2) × ((rounds n).dst ≤ (rounds n).src) × ((rounds n).src ≤ 2))
path_loop-ends_example = path_loop-ends b'/' (codes "a") false false

abbrev plain_path : Bytes
plain_path = codes "/a"

plain_path-IsNormal : IsNormal true 0 plain_path
plain_path-IsNormal = (
  λ e. ground arith,
  λ e f. ground arith,
  λ w e. ground arith,
  (λ e. ground arith, λ e f. ground arith, λ w e. ground arith, tt),
)

normalize_path_inplace-IsNormal_example :
    normalize_path_inplace plain_path true ≡ (plain_path, false)
normalize_path_inplace-IsNormal_example =
    normalize_path_inplace-IsNormal plain_path true plain_path-IsNormal
