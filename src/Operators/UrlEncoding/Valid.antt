-- ===== src/Operators/UrlEncoding/Valid.antt =====
-- What @validateUrlEncoding finds, against the decoder.
use mod_security.Operators.UrlEncoding.{
  UrlEncodingCheck, check_encoding, evaluate_url_encoding, valid_encoding, validate_url_encoding,
}
use mod_security.Prelude.{
  Bool, Bool-cases, [], ap, arith, false, inl, inr, leb, length, not, refl, suc, true, zero, ℕ,
  ◌&&◌, ◌+◌, ◌==◌, ◌∙◌, ◌∷◌, ◌≡◌, ◌≤◌, ◌⊎◌,
}
use mod_security.Prelude.Bytes.{Bytes}
use mod_security.Transformation.Scan.{ahead, scan}
use mod_security.Transformation.Url.{url_decode_step, urldecode_nonstrict_inplace_ext}
use mod_security.Utils.Hex.{valid_hex}

abbrev is_valid : UrlEncodingCheck → Bool
is_valid valid_encoding = true
is_valid _ = false

module _ (plus : Bool) where
  abbrev count_from : ℕ → ℕ → Bytes → ℕ
  count_from n k v = (scan (url_decode_step plus) n k v).final

  count_step :
      (n x : ℕ) (rest : Bytes) (n' k' : ℕ)
      → (url_decode_step plus n x rest).next ≡ n'
      → (url_decode_step plus n x rest).more ≡ k'
      → count_from n 0 (x ∷ rest) ≡ count_from n' k' rest
  unfolding scan
  count_step n x rest n' k' p q = rw (p, q) refl

  -- A pass counts one, or none.
  next_cases :
      (n x : ℕ) (rest : Bytes)
      → ((url_decode_step plus n x rest).next ≡ n) ⊎ ((url_decode_step plus n x rest).next ≡ n + 1)
  unfolding url_decode_step
  next_cases n x rest = ground arith

  count_from-le : (n k : ℕ) (v : Bytes) → n ≤ count_from n k v
  unfolding scan
  count_from-le n k [] = omega arith
  count_from-le n (suc k) (x ∷ rest) = count_from-le n k rest
  count_from-le n zero (x ∷ rest) =
      let r = url_decode_step plus n x rest in
      let ih = count_from-le r.next r.more rest in
      elim (next_cases n x rest) [ inl e ↦ omega (arith, ih, e) | inr e ↦ omega (arith, ih, e) ]

  -- A pass that counts makes the count differ.
  counted :
      (n x k' : ℕ) (rest : Bytes)
      → (url_decode_step plus n x rest).next ≡ n + 1
      → (url_decode_step plus n x rest).more ≡ k'
      → (count_from n 0 (x ∷ rest) == n) ≡ false
  counted n x k' rest p q =
      ground (arith, count_step n x rest (n + 1) k' p q, count_from-le (n + 1) k' rest)

  check_encoding-count :
      (i n k : ℕ) (v : Bytes) → is_valid (check_encoding i k v) ≡ (count_from n k v == n)
  unfolding check_encoding
  check_encoding-count i n k [] = unfold scan in ground arith
  check_encoding-count i n (suc k) (x ∷ rest) =
      let ih = check_encoding-count (i + 1) n k rest in go ih
    where
      go :
          is_valid (check_encoding (i + 1) k rest) ≡ (count_from n k rest == n)
          → is_valid (check_encoding i (suc k) (x ∷ rest)) ≡ (count_from n (suc k) (x ∷ rest) == n)
      go h = unfold scan in h
  check_encoding-count i n zero (x ∷ rest) =
      let plain = check_encoding-count (i + 1) n 0 rest in
      let decoded = check_encoding-count (i + 1) n 2 rest in
      elim (Bool-cases (x == b'%')) [
        | inr e ↦
            let p : (url_decode_step plus n x rest).next ≡ n =
              unfold url_decode_step in ground arith in
            let q : (url_decode_step plus n x rest).more ≡ 0 =
              unfold url_decode_step in ground arith in
            rw (e, count_step n x rest n 0 p q) plain
        | inl e ↦ elim (Bool-cases (leb 2 (length rest))) [
          | inr l ↦
              let p : (url_decode_step plus n x rest).next ≡ n + 1 =
                unfold url_decode_step in rw (e, l) refl in
              let q : (url_decode_step plus n x rest).more ≡ 0 =
                unfold url_decode_step in rw (e, l) refl in
              rw (e, l, counted n x 0 rest p q) refl
          | inl l ↦ elim (Bool-cases (valid_hex (ahead rest 0) && valid_hex (ahead rest 1))) [
            | inl h ↦
                let p : (url_decode_step plus n x rest).next ≡ n =
                  unfold url_decode_step in rw (e, l, h) refl in
                let q : (url_decode_step plus n x rest).more ≡ 2 =
                  unfold url_decode_step in rw (e, l, h) refl in
                rw (e, l, h, count_step n x rest n 2 p q) decoded
            | inr h ↦
                let p : (url_decode_step plus n x rest).next ≡ n + 1 =
                  unfold url_decode_step in rw (e, l, h) refl in
                let q : (url_decode_step plus n x rest).more ≡ 0 =
                  unfold url_decode_step in rw (e, l, h) refl in
                rw (e, l, h, counted n x 0 rest p q) refl
          ]
        ]
      ]

answer_of :
    (c : ℕ) (input : Bytes)
    → (evaluate_url_encoding (c ∷ input)).is_match ≡ not (is_valid (check_encoding 0 0 (c ∷ input)))
unfolding evaluate_url_encoding validate_url_encoding
answer_of c input = ground arith

-- @validateUrlEncoding matches just the strings in which the decoder of urlDecode counts an invalid
-- encoding, whether it takes a plus sign for a blank or not.
pub evaluate_url_encoding-urldecode :
    (plus : Bool) (input : Bytes)
    → (evaluate_url_encoding input).is_match
      ≡ not ((urldecode_nonstrict_inplace_ext input plus).final == 0)
unfolding urldecode_nonstrict_inplace_ext
evaluate_url_encoding-urldecode plus [] = unfold evaluate_url_encoding scan in refl
evaluate_url_encoding-urldecode plus (c ∷ input) =
    answer_of c input ∙ ap not (check_encoding-count plus 0 0 0 (c ∷ input))
