-- ===== src/Transformation/Changed/Direct.antt =====
-- The transformations that are no scans, where they report no change.
use mod_security.Prelude.{
  Bool, Bool-cases, [], ap, arith, false, inl, inr, length, refl, ℕ, ◌&&◌, ◌==◌, ◌∙◌, ◌∷◌, ◌≡◌, ◌≤◌,
}
use mod_security.Prelude.Bytes.{Bytes}
use mod_security.Transformation.Bytewise.{convert, remove_if, replace_nulls, without}
use mod_security.Transformation.Url.{is_unescaped, url_encode, url_encode_byte}
use mod_security.Transformation.Whitespace.{drop_last_spaces, drop_spaces, ltrim, rtrim, trim}
use mod_security.Utils.Ctype.{isspace}

pub convert_unchanged : (op : ℕ → ℕ) (v : Bytes) → (convert op v).1 ≡ false → (convert op v).0 ≡ v
unfolding convert
convert_unchanged op [] e = refl
convert_unchanged op (c ∷ rest) e =
    let k : op c ≡ c = ground arith in
    rw k (ap (λ l. c ∷ l) (convert_unchanged op rest (ground arith)))

pub length-without : (pred : ℕ → Bool) (v : Bytes) → length (without pred v) ≤ length v
unfolding without
length-without pred [] = omega arith
length-without pred (c ∷ rest) = ground (arith, length-without pred rest)

without_same :
    (pred : ℕ → Bool) (v : Bytes) → length (without pred v) ≡ length v → without pred v ≡ v
unfolding without
without_same pred [] e = refl
without_same pred (c ∷ rest) e =
    let shorter = length-without pred rest in
    elim (Bool-cases (pred c)) [
      | inl p ↦ ground arith
      | inr p ↦ rw p (ap (λ l. c ∷ l) (without_same pred rest (ground arith)))
    ]

pub remove_if_unchanged :
    (pred : ℕ → Bool) (v : Bytes) → (remove_if pred v).1 ≡ false → (remove_if pred v).0 ≡ v
unfolding remove_if
remove_if_unchanged pred v e = without_same pred v (ground arith)

pub replace_nulls_unchanged : (v : Bytes) → (replace_nulls v).1 ≡ false → (replace_nulls v).0 ≡ v
unfolding replace_nulls
replace_nulls_unchanged [] e = refl
replace_nulls_unchanged (c ∷ rest) e = elim (Bool-cases (c == 0)) [
  | inl p ↦ ground arith
  | inr p ↦ rw p (ap (λ l. c ∷ l) (replace_nulls_unchanged rest (ground arith)))
]

pub length-drop_spaces : (v : Bytes) → length (drop_spaces v) ≤ length v
unfolding drop_spaces
length-drop_spaces [] = omega arith
length-drop_spaces (c ∷ rest) = ground (arith, length-drop_spaces rest)

pub ltrim_unchanged : (v : Bytes) → (ltrim v).1 ≡ false → (ltrim v).0 ≡ v
unfolding ltrim drop_spaces
ltrim_unchanged [] e = refl
ltrim_unchanged (c ∷ rest) e = ground (arith, length-drop_spaces rest)

pub length-drop_last_spaces : (v : Bytes) → length (drop_last_spaces v) ≤ length v
unfolding drop_last_spaces
length-drop_last_spaces [] = omega arith
length-drop_last_spaces (c ∷ rest) = ground (arith, length-drop_last_spaces rest)

drop_last_spaces_same :
    (v : Bytes) → length (drop_last_spaces v) ≡ length v → drop_last_spaces v ≡ v
unfolding drop_last_spaces
drop_last_spaces_same [] e = refl
drop_last_spaces_same (c ∷ rest) e =
    let shorter = length-drop_last_spaces rest in
    elim (Bool-cases (isspace c && length (drop_last_spaces rest) == 0)) [
      | inl p ↦ ground arith
      | inr p ↦ rw p (ap (λ l. c ∷ l) (drop_last_spaces_same rest (ground arith)))
    ]

pub rtrim_unchanged : (v : Bytes) → (rtrim v).1 ≡ false → (rtrim v).0 ≡ v
unfolding rtrim
rtrim_unchanged v e = drop_last_spaces_same v (ground arith)

pub trim_unchanged : (v : Bytes) → (trim v).1 ≡ false → (trim v).0 ≡ v
unfolding trim
trim_unchanged v e = ltrim_unchanged (rtrim v).0 (ground arith) ∙ rtrim_unchanged v (ground arith)

pub url_encode_unchanged : (v : Bytes) → (url_encode v).1 ≡ false → (url_encode v).0 ≡ v
unfolding url_encode url_encode_byte is_unescaped
url_encode_unchanged [] e = refl
url_encode_unchanged (c ∷ rest) e =
    let k : url_encode_byte c ≡ c ∷ [] = unfold url_encode_byte is_unescaped in ground arith in
    rw k (ap (λ l. c ∷ l) (url_encode_unchanged rest (ground arith)))
