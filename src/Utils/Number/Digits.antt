-- ===== src/Utils/Number/Digits.antt =====
-- The digits of a number, and their value.
use mod_security.Prelude.{
  Bool-cases, [], ap, arith, inl, inr, length, length-append, ltb, refl, some, suc, true, zero, ℕ,
  ◌%◌, ◌&&◌, ◌*◌, ◌++◌, ◌+◌, ◌-◌, ◌/◌, ◌<◌, ◌∙◌, ◌∷◌, ◌≡◌, ◌≤◌,
}
use mod_security.Prelude.Bytes.{Bytes}
use mod_security.Prelude.Int.{pos}
use mod_security.Utils.Ctype.{isdigit, isspace}
use mod_security.Utils.Number.{
  all_digits, leading_digits, signed_digits, signed_number, skip_space, stoi, to_string,
  to_string_fuel,
}

-- 10 to the power k.
ten_power : ℕ → ℕ
ten_power zero = 1
ten_power (suc k) = 10 * ten_power k

length-digits :
    (k f n : ℕ)
    → n < f
    → ten_power k ≤ n
    → n < 10 * ten_power k
    → length (to_string_fuel f n) ≡ k + 1
unfolding to_string_fuel ten_power
length-digits k zero n h lo hi = absurd (omega arith)
length-digits zero (suc f) n h lo hi = ground arith
length-digits (suc k) (suc f) n h lo hi =
    let ih = length-digits k f (n / 10) (omega arith) (omega arith) (omega arith) in
    ground (arith, ih, length-append (to_string_fuel f (n / 10)) ((b'0' + n % 10) ∷ []))

pub all_digits-append : (a b : Bytes) → all_digits (a ++ b) ≡ (all_digits a && all_digits b)
unfolding all_digits
all_digits-append [] b = refl
all_digits-append (c ∷ a) b = ground (arith, all_digits-append a b)

digits-all_digits : (f n : ℕ) → n < f → all_digits (to_string_fuel f n) ≡ true
unfolding to_string_fuel all_digits isdigit
digits-all_digits zero n h = absurd (omega arith)
digits-all_digits (suc f) n h = ground (
  arith,
  digits-all_digits f (n / 10),
  all_digits-append (to_string_fuel f (n / 10)) ((b'0' + n % 10) ∷ []),
)

-- One digit more.
leading_digits-append :
    (acc : ℕ) (a : Bytes) (d : ℕ)
    → all_digits a ≡ true
    → isdigit d ≡ true
    → leading_digits acc (a ++ d ∷ []) ≡ leading_digits acc a * 10 + (d - b'0')
unfolding leading_digits all_digits
leading_digits-append acc [] d h k = ground arith
leading_digits-append acc (c ∷ a) d h k =
    ground (arith, leading_digits-append (acc * 10 + (c - b'0')) a d)

digits_value : (f n : ℕ) → n < f → leading_digits 0 (to_string_fuel f n) ≡ n
unfolding to_string_fuel isdigit
digits_value zero n h = absurd (omega arith)
digits_value (suc f) n h =
    let rest = to_string_fuel f (n / 10) in
    let ih = digits_value f (n / 10) in
    let whole : isdigit (b'0' + n % 10) ≡ true = ground arith in
    elim (Bool-cases (ltb n 10)) [
      | inl e ↦ rw e (unfold leading_digits in ground arith)
      | inr e ↦ rw e (
          leading_digits-append 0 rest (b'0' + n % 10) (digits-all_digits f (n / 10) (ground arith))
            whole
          ∙ ground (arith, ih))
    ]

pub to_string_facts :
    (n : ℕ) → (all_digits (to_string n) ≡ true) × (leading_digits 0 (to_string n) ≡ n)
unfolding to_string
to_string_facts n =
    (digits-all_digits (suc n) n (omega arith), digits_value (suc n) n (omega arith))

pub length-to_string_ten : (n : ℕ) → 1000000000 ≤ n → n < 10000000000 → length (to_string n) ≡ 10
unfolding to_string ten_power
length-to_string_ten n lo hi = length-digits 9 (suc n) n (omega arith) lo hi

length-digits_pos : (f n : ℕ) → n < f → 0 < length (to_string_fuel f n)
unfolding to_string_fuel
length-digits_pos zero n h = absurd (omega arith)
length-digits_pos (suc f) n h =
    ground (arith, length-append (to_string_fuel f (n / 10)) ((b'0' + n % 10) ∷ []))

stoi-all_digits :
    (s : Bytes)
    → 0 < length s
    → all_digits s ≡ true
    → leading_digits 0 s ≤ 2147483647
    → stoi s ≡ some (pos (leading_digits 0 s))
unfolding stoi skip_space signed_number signed_digits all_digits isdigit isspace
stoi-all_digits [] h d b = absurd (omega arith)
stoi-all_digits (c ∷ cs) h d b = ground arith

-- The digits of a number that is an `int` are read as that number.
pub stoi-to_string : (n : ℕ) → n ≤ 2147483647 → stoi (to_string n) ≡ some (pos n)
stoi-to_string n h =
    let facts = to_string_facts n in
    let some_digit : 0 < length (to_string n) =
      unfold to_string in length-digits_pos (suc n) n (omega arith) in
    stoi-all_digits (to_string n) some_digit facts.0 (omega (arith, facts.1))
    ∙ ap (λ v. some (pos v)) facts.1
