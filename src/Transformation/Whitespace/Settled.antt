-- ===== src/Transformation/Whitespace/Settled.antt =====
-- trim and compressWhitespace have nothing to do on their own results.
use mod_security.Prelude.{
  Bool-cases, [], arith, false, inl, inr, length, not, refl, true, ◌==◌, ◌∷◌, ◌≡◌,
}
use mod_security.Prelude.Bytes.{Bytes}
use mod_security.Transformation.Whitespace.{
  compress_from, compress_whitespace, drop_last_spaces, drop_spaces, ltrim, rtrim, trim,
}
use mod_security.Utils.Ctype.{isspace}

drop_spaces_idem : (v : Bytes) → drop_spaces (drop_spaces v) ≡ drop_spaces v
unfolding drop_spaces
drop_spaces_idem [] = refl
drop_spaces_idem (c ∷ rest) = ground (arith, drop_spaces_idem rest)

drop_last_spaces_idem : (v : Bytes) → drop_last_spaces (drop_last_spaces v) ≡ drop_last_spaces v
unfolding drop_last_spaces
drop_last_spaces_idem [] = refl
drop_last_spaces_idem (c ∷ rest) = ground (arith, drop_last_spaces_idem rest)

drop_last_spaces-drop_spaces :
    (v : Bytes) → drop_last_spaces v ≡ v → drop_last_spaces (drop_spaces v) ≡ drop_spaces v
unfolding drop_last_spaces drop_spaces
drop_last_spaces-drop_spaces [] e = refl
drop_last_spaces-drop_spaces (c ∷ rest) e = elim (Bool-cases (isspace c)) [
  | inl s ↦ rw s (drop_last_spaces-drop_spaces rest (ground arith))
  | inr s ↦ rw s (ground arith)
]

same_length : (a b : Bytes) → a ≡ b → not (length a == length b) ≡ false
same_length a b e = ground arith

-- Trimming a trimmed value changes nothing and reports no change: no white space is left at its ends.
trim-trim : (v : Bytes) → trim (trim v).0 ≡ ((trim v).0, false)
unfolding trim ltrim rtrim
trim-trim v =
    let w = drop_spaces (drop_last_spaces v) in
    let p : drop_last_spaces w ≡ w =
      drop_last_spaces-drop_spaces (drop_last_spaces v) (drop_last_spaces_idem v) in
    let q : drop_spaces w ≡ w = drop_spaces_idem (drop_last_spaces v) in
    rw (p, q) (ground (arith, same_length w w refl))

-- Whichever state the compressed value is read in; inside white space it begins with none.
compress_from_idem :
    (v : Bytes)
    → (compress_from false (compress_from false v) ≡ compress_from false v)
      × (compress_from false (compress_from true v) ≡ compress_from true v)
      × (compress_from true (compress_from true v) ≡ compress_from true v)
unfolding compress_from isspace
compress_from_idem [] = (refl, refl, refl)
compress_from_idem (c ∷ rest) =
    let ih = compress_from_idem rest in
    elim (Bool-cases (isspace c)) [
      | inl s ↦ (ground (arith, ih.2), ground (arith, ih.1), ground (arith, ih.2))
      | inr s ↦ (ground (arith, ih.0), ground (arith, ih.0), ground (arith, ih.0))
    ]

-- Compressing the white space of a compressed value changes nothing.
compress_whitespace_idem :
    (v : Bytes) → compress_whitespace (compress_whitespace v).0 ≡ ((compress_whitespace v).0, false)
unfolding compress_whitespace
compress_whitespace_idem v =
    let w = compress_from false v in
    rw ((compress_from_idem v).0) (ground (arith, same_length w w refl))
