-- ===== src/Transformation/Length.antt =====
-- How much a step of each decoder writes for the bytes that it reads.
pub mod InPlace
use mod_security.Prelude.{
  Bool, [], arith, false, if_ind, if_ind_eq, if◌then◌else◌, leb, leb→le, length, ltb, ltb→lt, not,
  suc, true, zero, ℕ, ◌&&◌, ◌+◌, ◌<◌, ◌==◌, ◌∷◌, ◌≡◌, ◌≤◌,
}
use mod_security.Prelude.Bytes.{Bytes}
use mod_security.Transformation.Comments.{
  CommentState, in_comment, left_loop, outside, remove_comments_char_step, remove_comments_step,
  replace_comments_step,
}
use mod_security.Transformation.Escapes.{
  css_decode_step, escape_seq_step, js_decode_step, js_octal_count, prefix_count,
}
use mod_security.Transformation.Hex.{sql_hex_step}
use mod_security.Transformation.Scan.{Fits, Step, ahead, next_is}
use mod_security.Transformation.Url.{url_decode_step}
use mod_security.Utils.Ctype.{isspace, tolower}
use mod_security.Utils.Hex.{is_odigit, valid_hex}

abbrev pub nothing : {σ : Type 0} → σ → ℕ
nothing s = 0

-- In an open comment the blank at the end is still to be written.
abbrev pub open_comment : CommentState → ℕ
open_comment in_comment = 1
open_comment _ = 0

abbrev pub open_flag : Bool → ℕ
open_flag true = 1
open_flag false = 0

next_is-length : (rest : Bytes) (k c : ℕ) → next_is rest k c ≡ true → k < length rest
next_is-length [] k c e = ground arith
next_is-length (x ∷ rest) zero c e = omega arith
next_is-length (x ∷ rest) (suc k) c e = omega (arith, next_is-length rest k c e)

prefix_count-le : (test : ℕ → Bool) (limit : ℕ) (b : Bytes) → prefix_count test limit b ≤ length b
unfolding prefix_count
prefix_count-le test zero b = omega arith
prefix_count-le test (suc limit) [] = omega arith
prefix_count-le test (suc limit) (c ∷ rest) = ground (arith, prefix_count-le test limit rest)

pub url_decode_step-Fits : (plus : Bool) → Fits (url_decode_step plus) nothing
unfolding url_decode_step
url_decode_step-Fits plus s x rest = (ground arith, ground arith)

-- The step fits, where it stands for `step s x rest`.
abbrev StepFits : {σ : Type 0} → Bytes → Step σ → Type 0
StepFits rest r = (length r.written + 0 ≤ 1 + r.more + 0) × (r.more ≤ length rest)

&&-left : (a b : Bool) → (a && b) ≡ true → a ≡ true
&&-left a b e = ground arith

pub sql_hex_step-Fits : Fits sql_hex_step nothing
unfolding sql_hex_step
sql_hex_step-Fits s x rest =
    let hex = valid_hex (ahead rest 0) in
    if_ind_eq (StepFits rest) (s && leb 1 (length rest) && valid_hex x && hex)
      (λ e. (omega arith, leb→le 1 (length rest) (ground arith)))
      (λ d.
        if_ind_eq (StepFits rest)
          (leb 3 (length rest)
            && x == b'0'
            && tolower (ahead rest 0) == b'x'
            && valid_hex (ahead rest 1)
            && valid_hex (ahead rest 2))
          (λ e. (omega arith, leb→le 3 (length rest) (ground arith)))
          (λ e. (omega arith, omega arith)))

js_octal_count-le : (rest : Bytes) → js_octal_count rest ≤ length rest
unfolding js_octal_count
js_octal_count-le rest = ground (arith, prefix_count-le is_odigit 3 rest)

pub js_decode_step-Fits : Fits js_decode_step nothing
unfolding js_decode_step
js_decode_step-Fits s x rest =
    let j = js_octal_count-le rest in
    if_ind (StepFits rest) (not (x == b'\\')) (omega arith, omega arith)
      (if_ind_eq (StepFits rest)
        (leb 5 (length rest)
          && ahead rest 0 == b'u'
          && valid_hex (ahead rest 1)
          && valid_hex (ahead rest 2)
          && valid_hex (ahead rest 3)
          && valid_hex (ahead rest 4))
        (λ e. (omega arith, leb→le 5 (length rest) (ground arith)))
        (λ d.
          if_ind_eq (StepFits rest)
            (leb 3 (length rest)
              && ahead rest 0 == b'x'
              && valid_hex (ahead rest 1)
              && valid_hex (ahead rest 2))
            (λ e. (omega arith, leb→le 3 (length rest) (ground arith)))
            (λ d'.
              if_ind (StepFits rest) (leb 1 (length rest) && is_odigit (ahead rest 0))
                (omega arith, j)
                (if_ind_eq (StepFits rest) (leb 1 (length rest))
                  (λ e. (omega arith, leb→le 1 (length rest) e))
                  (λ e. (omega arith, omega arith))))))

pub escape_seq_step-Fits : Fits escape_seq_step nothing
unfolding escape_seq_step
escape_seq_step-Fits s x rest =
    let j = prefix_count-le is_odigit 3 rest in (ground arith, ground arith)

pub css_decode_step-Fits : Fits css_decode_step nothing
unfolding css_decode_step
css_decode_step-Fits s x [] = (ground arith, ground arith)
css_decode_step-Fits s x (c ∷ rest) =
    let j = prefix_count valid_hex 6 (c ∷ rest) in
    let le = prefix_count-le valid_hex 6 (c ∷ rest) in
    let P = StepFits {σ = Unit {0}} (c ∷ rest) in
    let blank = ltb j (length (c ∷ rest)) && isspace (ahead (c ∷ rest) j) in
    let more : (if blank then j + 1 else j) ≤ length (c ∷ rest) =
      if_ind_eq (λ n. n ≤ length (c ∷ rest)) blank
        (λ e. omega (arith, ltb→lt j (length (c ∷ rest)) (&&-left (ltb j (length (c ∷ rest))) _ e)))
        (λ e. le) in
    if_ind P (x == b'\\')
      (if_ind P (ltb 0 j) (omega arith, more)
        (if_ind P (c == 10) (omega arith, omega arith) (omega arith, omega arith)))
      (omega arith, omega arith)

pub remove_comments_char_step-Fits : Fits remove_comments_char_step nothing
unfolding remove_comments_char_step
remove_comments_char_step-Fits s x rest =
    let a = next_is-length rest 0 in
    let b = next_is-length rest 1 in
    let d = next_is-length rest 2 in
    (ground arith, ground (arith, a b'*', a b'/', a b'!', a b'-', b b'-', b b'>', d b'-'))

pub replace_comments_step-Fits : Fits replace_comments_step open_flag
unfolding replace_comments_step
replace_comments_step-Fits true x rest = (ground arith, ground (arith, next_is-length rest 0 b'/'))
replace_comments_step-Fits false x rest = (ground arith, ground (arith, next_is-length rest 0 b'*'))

pub remove_comments_step-Fits : Fits remove_comments_step open_comment
unfolding remove_comments_step
remove_comments_step-Fits outside x rest =
    (ground arith, ground (arith, next_is-length rest 0 b'*', next_is-length rest 2 b'-'))
remove_comments_step-Fits in_comment x rest =
    (ground arith, ground (arith, next_is-length rest 0 b'/', next_is-length rest 1 b'>'))
remove_comments_step-Fits left_loop x rest = (ground arith, ground arith)
