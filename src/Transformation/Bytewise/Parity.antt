-- ===== src/Transformation/Bytewise/Parity.antt =====
-- The parity bit that parityEven7bit and parityOdd7bit set.
use mod_security.Prelude.{
  Bool, arith, false, if◌then◌else◌, ltb, refl, suc, true, zero, ℕ, ◌%◌, ◌&&◌, ◌+◌, ◌/◌, ◌<◌, ◌==◌,
  ◌≡◌,
}
use mod_security.Transformation.Bytewise.{parity_byte}
use mod_security.Utils.Hex.{check_below, check_below_correct}

-- How many of the lowest `n` bits are set.
abbrev pub ones : ℕ → ℕ → ℕ
ones zero x = 0
ones (suc n) x = x % 2 + ones n (x / 2)

-- The byte keeps its lower seven bits, and has an even number of bits just where the byte before is
-- a seven-bit one; likewise for odd.
abbrev parity_right : ℕ → Bool
parity_right c =
    parity_byte true c % 128 == c % 128
    && parity_byte false c % 128 == c % 128
    && ones 8 (parity_byte true c) % 2 == (if ltb c 128 then 0 else 1)
    && ones 8 (parity_byte false c) % 2 == (if ltb c 128 then 1 else 0)

parity_table : check_below 256 parity_right ≡ true
unfolding check_below parity_byte
parity_table = refl

-- parityEven7bit keeps the lower seven bits of a byte, and gives a byte with an even number of bits
-- where the byte is below 128 and an odd number where it is not; parityOdd7bit keeps them, too, and
-- gives an odd number below 128 and an even number from there on.
parity_byte-ones :
    (c : ℕ)
    → c < 256
    → (parity_byte true c % 128 ≡ c % 128)
      × (parity_byte false c % 128 ≡ c % 128)
      × (ones 8 (parity_byte true c) % 2 ≡ (if ltb c 128 then 0 else 1))
      × (ones 8 (parity_byte false c) % 2 ≡ (if ltb c 128 then 1 else 0))
parity_byte-ones c h =
    let t = check_below_correct 256 parity_right parity_table c h in
    (ground arith, ground arith, ground arith, ground arith)
