-- ===== src/Operators/Tests.antt =====
-- The operators on a few strings.
use mod_security.Operators.Utf8.{evaluate_utf8_encoding}
use mod_security.Operators.Utf8.Encoded.{evaluate_utf8_encoding-utf8_text, utf8_text}
use mod_security.Operators.ByteRange.{evaluate_byte_range, init_byte_range, pieces_from}
use mod_security.Operators.ByteRange.Ranges.{all_in, evaluate_byte_range-all_in, ranges_of}
use mod_security.Operators.Numbers.{eq, ge, gt, le, lt, str_match}
use mod_security.Operators.Strings.{contains, match_at, no_match, within_string}
use mod_security.Operators.Strings.Found.{Occurs, contains-within_iff}
use mod_security.Operators.UrlEncoding.{evaluate_url_encoding}
use mod_security.Operators.UrlEncoding.Valid.{evaluate_url_encoding-urldecode}
use mod_security.Prelude.{List, [], arith, false, inl, inr, not, refl, true, ℕ, ◌==◌, ◌↔◌, ◌∷◌, ◌≡◌}
use mod_security.Prelude.Text.{codes}
use mod_security.Transformation.Url.{urldecode_nonstrict_inplace_ext}

evaluate_url_encoding-urldecode_example :
    (evaluate_url_encoding (codes "a%4")).is_match
    ≡ not ((urldecode_nonstrict_inplace_ext (codes "a%4") true).final == 0)
evaluate_url_encoding-urldecode_example = evaluate_url_encoding-urldecode true (codes "a%4")

short_encoding : evaluate_url_encoding (codes "a%4") ≡ match_at 1 3
unfolding evaluate_url_encoding
short_encoding = refl

contains-within_iff_example :
    (((contains (codes "or") (codes "word")).is_match ≡ true) ↔ Occurs (codes "or") (codes "word"))
    × (((within_string (codes "or") (codes "word")).is_match ≡ true)
        ↔ Occurs (codes "word") (codes "or"))
contains-within_iff_example = contains-within_iff (codes "or") (codes "word")

found_word : contains (codes "or") (codes "word") ≡ match_at 1 2
unfolding contains
found_word = refl

-- The table of "97-98,100".
abbrev letters : List ℕ
letters = elim (init_byte_range (codes "97-98,100")) [ inl table ↦ table | inr why ↦ [] ]

evaluate_byte_range-all_in_example :
    (evaluate_byte_range letters (codes "abc")).is_match
    ≡ not (all_in (ranges_of (pieces_from [] (codes "97-98,100"))) (codes "abc"))
unfolding init_byte_range
evaluate_byte_range-all_in_example =
    evaluate_byte_range-all_in (codes "97-98,100") (codes "abc") letters refl
      (omega arith, (omega arith, (omega arith, tt)))

outside_letter : evaluate_byte_range letters (codes "abc") ≡ match_at 2 1
unfolding init_byte_range evaluate_byte_range
outside_letter = refl

evaluate_utf8_encoding-utf8_text_example :
    evaluate_utf8_encoding (utf8_text (65 ∷ 233 ∷ 8364 ∷ 128512 ∷ [])) ≡ no_match
evaluate_utf8_encoding-utf8_text_example =
    evaluate_utf8_encoding-utf8_text (65 ∷ 233 ∷ 8364 ∷ 128512 ∷ []) (
      (omega arith, inl (omega arith)),
      (
        (omega arith, inl (omega arith)),
        ((omega arith, inl (omega arith)), ((omega arith, inr (omega arith)), tt)),
      ),
    )

-- An overlong slash and a surrogate are found; a number above U+10FFFF is not.
utf8_errors :
    (evaluate_utf8_encoding (192 ∷ 175 ∷ []) ≡ match_at 0 2)
    × (evaluate_utf8_encoding (237 ∷ 160 ∷ 128 ∷ []) ≡ match_at 0 3)
    × (evaluate_utf8_encoding (244 ∷ 144 ∷ 128 ∷ 128 ∷ []) ≡ no_match)
unfolding evaluate_utf8_encoding
utf8_errors = (refl, refl, refl)

-- What does not fit an `int` is 0 for @eq, and itself for the others.
great_numbers :
    (eq (codes "0") (codes "3000000000") ≡ true)
    × (gt (codes "0") (codes " 3000000000x") ≡ true)
    × (lt (codes "-1") (codes "-2") ≡ true)
    × (ge (codes "5") (codes "5") ≡ true)
    × (le (codes "5") (codes "6") ≡ false)
    × (str_match (codes "b") (codes "abc") ≡ true)
unfolding eq gt lt ge le str_match
great_numbers = (refl, refl, refl, refl, refl, refl)
