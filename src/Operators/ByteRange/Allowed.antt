-- ===== src/Operators/ByteRange/Allowed.antt =====
-- Which bytes @validateByteRange allows.
use Prim.Native.Nat.{bit_and, bit_or}
use mod_security.Operators.ByteRange.{allow_byte, is_allowed}
use mod_security.Prelude.{
  ==_iff, Bool, Bool-cases, List, [], ap, arith, false, get_or, inl, inr, length, length-set, ltb,
  ltb→lt, not, refl, set, suc, sym, true, zero, ℕ, ◌%◌, ◌&&◌, ◌/◌, ◌<◌, ◌==◌, ◌^◌, ◌||◌, ◌∙◌, ◌∷◌,
  ◌≡◌, ◌≢◌,
}
use mod_security.Prelude.Bytes.{AreBytes}
use mod_security.Utils.Hex.{check_below, check_below_correct}

abbrev has_bit : ℕ → ℕ → Bool
has_bit t k = not (bit_and t (2 ^ k) == 0)

abbrev same_bool : Bool → Bool → Bool
same_bool true b = b
same_bool false b = not b

same_bool_correct : (a b : Bool) → same_bool a b ≡ true → a ≡ b
same_bool_correct a b h = ground arith

abbrev bit_right : ℕ → ℕ → ℕ → Bool
bit_right t k j =
    same_bool (has_bit (bit_or t (2 ^ k)) j) (j == k || has_bit t j) && ltb (bit_or t (2 ^ k)) 256

bit_table : check_below 256 (λ t. check_below 8 (λ k. check_below 8 (λ j. bit_right t k j))) ≡ true
unfolding check_below
bit_table = refl

bits :
    (t k j : ℕ)
    → t < 256
    → k < 8
    → j < 8
    → (has_bit (bit_or t (2 ^ k)) j ≡ (j == k || has_bit t j)) × (bit_or t (2 ^ k) < 256)
bits t k j ht hk hj =
    let a =
      check_below_correct 256 (λ t. check_below 8 (λ k. check_below 8 (λ j. bit_right t k j)))
        bit_table t ht in
    let b = check_below_correct 8 (λ k. check_below 8 (λ j. bit_right t k j)) a k hk in
    let c = check_below_correct 8 (λ j. bit_right t k j) b j hj in
    (same_bool_correct _ _ (ground arith), ltb→lt _ 256 (ground arith))

get_or-set_self : (xs : List ℕ) (i v : ℕ) → i < length xs → get_or (set xs i v) i 0 ≡ v
get_or-set_self [] i v h = absurd (omega arith)
get_or-set_self (x ∷ xs) zero v h = refl
get_or-set_self (x ∷ xs) (suc i) v h = get_or-set_self xs i v (omega arith)

get_or-set_ne : (xs : List ℕ) (i j v : ℕ) → i ≢ j → get_or (set xs i v) j 0 ≡ get_or xs j 0
get_or-set_ne [] i j v h = refl
get_or-set_ne (x ∷ xs) zero zero v h = absurd (h refl)
get_or-set_ne (x ∷ xs) zero (suc j) v h = refl
get_or-set_ne (x ∷ xs) (suc i) zero v h = refl
get_or-set_ne (x ∷ xs) (suc i) (suc j) v h = get_or-set_ne xs i j v (λ e. h (ap suc e))

-- A table as the constructor makes it: 32 bytes.
abbrev pub IsTable : List ℕ → Type 0
IsTable table = (length table ≡ 32) × AreBytes table

get_or-lt : (xs : List ℕ) (i : ℕ) → AreBytes xs → get_or xs i 0 < 256
get_or-lt [] i h = omega arith
get_or-lt (x ∷ xs) zero h = h.0
get_or-lt (x ∷ xs) (suc i) h = get_or-lt xs i h.1

set-AreBytes : (xs : List ℕ) (i v : ℕ) → v < 256 → AreBytes xs → AreBytes (set xs i v)
set-AreBytes [] i v hv h = tt
set-AreBytes (x ∷ xs) zero v hv h = (hv, h.1)
set-AreBytes (x ∷ xs) (suc i) v hv h = (h.0, set-AreBytes xs i v hv h.1)

pub allow_byte-IsTable : (y : ℕ) (table : List ℕ) → IsTable table → IsTable (allow_byte y table)
unfolding allow_byte
allow_byte-IsTable y table h =
    let k =
      (bits (get_or table (y / 8) 0) (y % 8) 0 (get_or-lt table (y / 8) h.1) (omega arith)
        (omega arith)).1 in
    (length-set table (y / 8) _ ∙ h.0, set-AreBytes table (y / 8) _ k h.1)

pub allow_byte-is_allowed :
    (y x : ℕ) (table : List ℕ)
    → IsTable table
    → y < 256
    → x < 256
    → is_allowed (allow_byte y table) x ≡ (x == y || is_allowed table x)
unfolding allow_byte is_allowed
allow_byte-is_allowed y x table h hy hx =
    let t = get_or table (y / 8) 0 in
    let b = bits t (y % 8) (x % 8) (get_or-lt table (y / 8) h.1) (omega arith) (omega arith) in
    elim (Bool-cases (y / 8 == x / 8)) [
      | inl e ↦
          let same : y / 8 ≡ x / 8 = (==_iff (y / 8) (x / 8)).0 e in
          let here = get_or-set_self table (y / 8) (bit_or t (2 ^ (y % 8))) (omega (arith, h.0)) in
          let low : (x % 8 == y % 8) ≡ (x == y) = ground arith in
          ap (λ i. has_bit (get_or (set table (y / 8) (bit_or t (2 ^ (y % 8)))) i 0) (x % 8))
            (sym same)
          ∙ ap (λ v. has_bit v (x % 8)) here
          ∙ b.0
          ∙ ap (λ z. z || has_bit t (x % 8)) low
          ∙ ap (λ i. x == y || has_bit (get_or table i 0) (x % 8)) same
      | inr e ↦
          let apart =
            get_or-set_ne table (y / 8) (x / 8) (bit_or t (2 ^ (y % 8)))
              (λ p. absurd (ground arith)) in
          let differ : (x == y) ≡ false = ground arith in rw (apart, differ) refl
    ]
