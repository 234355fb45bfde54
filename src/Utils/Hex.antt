-- ===== src/Utils/Hex.antt =====
-- Hexadecimal digits, of src/utils/string.h.
use Prim.Native.Nat.{bit_and}
use mod_security.Prelude.{
  ==_iff, Bool, Bool-cases, [], arith, get_or, if◌then◌else◌, inl, inr, leb, refl, suc, true,
  within, zero, ℕ, ◌%◌, ◌&&◌, ◌*◌, ◌+◌, ◌-◌, ◌/◌, ◌<◌, ◌==◌, ◌||◌, ◌∷◌, ◌≡◌,
}
use mod_security.Prelude.Bytes.{Bytes}
use mod_security.Prelude.Text.{codes}

unfoldable pub valid_hex : ℕ → Bool
valid_hex x = within b'0' b'9' x || within b'a' b'f' x || within b'A' b'F' x

-- ISODIGIT
unfoldable pub is_odigit : ℕ → Bool
is_odigit x = within b'0' b'7' x

-- Both results are `unsigned char`s.
unfoldable pub xsingle2c : ℕ → ℕ
xsingle2c what =
    if leb b'A' what then (bit_and what 0xdf + 256 - b'A' + 10) % 256 else (what + 256 - b'0') % 256

-- x2c on the two bytes at `what`
unfoldable pub x2c : ℕ → ℕ → ℕ
unfolding xsingle2c
x2c hi lo = (xsingle2c hi * 16 % 256 + xsingle2c lo) % 256

abbrev pub c2x_table : Bytes
c2x_table = codes "0123456789abcdef"

-- the two bytes that c2x writes at `where`
unfoldable pub c2x : ℕ → Bytes
c2x what = let b = what % 256 in get_or c2x_table (b / 16) 0 ∷ get_or c2x_table (b % 16) 0 ∷ []

-- the first and the second of them
unfoldable pub c2x_high : ℕ → ℕ
c2x_high c = get_or c2x_table (c % 256 / 16) 0

unfoldable pub c2x_low : ℕ → ℕ
c2x_low c = get_or c2x_table (c % 256 % 16) 0

-- Over the bytes, facts are checked by evaluation.
unfoldable pub check_below : ℕ → (ℕ → Bool) → Bool
check_below zero test = true
check_below (suc k) test = check_below k test && test k

pub check_below_correct :
    (k : ℕ) (test : ℕ → Bool) → check_below k test ≡ true → (c : ℕ) → c < k → test c ≡ true
unfolding check_below
check_below_correct zero test all c less = absurd (omega arith)
check_below_correct (suc k) test all c less =
    let below = check_below_correct k test (ground arith) c in
    elim (Bool-cases (c == k)) [ inl e ↦ ground arith | inr e ↦ below (ground arith) ]

x2c-c2x_table : check_below 256 (λ c. x2c (c2x_high c) (c2x_low c) == c) ≡ true
unfolding check_below x2c c2x_high c2x_low
x2c-c2x_table = refl

-- Decoding the two digits of a byte gives it back.
pub x2c-c2x : (c : ℕ) → c < 256 → x2c (c2x_high c) (c2x_low c) ≡ c
x2c-c2x c h = (==_iff _ c).0 (check_below_correct 256 _ x2c-c2x_table c h)

valid_hex-c2x_table : check_below 256 (λ c. valid_hex (c2x_high c) && valid_hex (c2x_low c)) ≡ true
unfolding check_below valid_hex c2x_high c2x_low
valid_hex-c2x_table = refl

-- Both digits are hexadecimal digits.
pub valid_hex-c2x_high : (c : ℕ) → c < 256 → valid_hex (c2x_high c) ≡ true
valid_hex-c2x_high c h =
    let both = check_below_correct 256 _ valid_hex-c2x_table c h in ground arith

pub valid_hex-c2x_low : (c : ℕ) → c < 256 → valid_hex (c2x_low c) ≡ true
valid_hex-c2x_low c h = let both = check_below_correct 256 _ valid_hex-c2x_table c h in ground arith
