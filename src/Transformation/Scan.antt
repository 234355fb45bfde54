-- ===== src/Transformation/Scan.antt =====
-- The loops of the transformations that read a string from the left with one or more bytes of
-- lookahead, writing what they keep into the same buffer: `while (i < input_len)`, where a pass
-- writes some bytes, moves `i` on, and may set `changed`. A pass reads nothing that was written, as
-- it writes no more than it has read.
use mod_security.Prelude.{
  Bool, [], ap, arith, false, get_elem?, get_or, length, length-append, none, refl, some, suc, take,
  zero, ℕ, ◌++◌, ◌+◌, ◌==◌, ◌||◌, ◌∙◌, ◌∷◌, ◌≡◌, ◌≤◌,
}
use mod_security.Prelude.Bytes.{Bytes}

-- What one pass does at the byte `x` with `rest` behind it: the bytes written, how many bytes it moves
-- on besides `x`, the `changed` of the pass, and the state of the next pass.
pub record Step {ℓ} (σ : Type ℓ) : Type ℓ where
  pub written : Bytes
  pub more : ℕ
  pub step_changed : Bool
  pub next : σ

module _ {ℓ} {σ : Type ℓ} where
  abbrev pub put : Bytes → ℕ → Bool → σ → Step σ
  put b k c s = record { written = b; more = k; step_changed = c; next = s }

-- The value at the end, `changed`, and the state.
pub record Scanned {ℓ} (σ : Type ℓ) : Type ℓ where
  pub value : Bytes
  pub changed : Bool
  pub final : σ

-- Is there a k-th byte behind, and is it `c`?
abbrev pub next_is : Bytes → ℕ → ℕ → Bool
next_is rest k c = elim (get_elem? rest k) [ none ↦ false | some d ↦ d == c ]

-- the k-th byte behind, where there is one
abbrev pub ahead : Bytes → ℕ → ℕ
ahead rest k = get_or rest k 0

module _ {ℓ} {σ : Type ℓ} (step : σ → ℕ → Bytes → Step σ) where
  -- The loop, from a state, with `pending` bytes still to move on.
  unfoldable pub scan : σ → ℕ → Bytes → Scanned σ
  scan s pending [] = record { value = []; changed = false; final = s }
  scan s (suc pending) (x ∷ rest) = scan s pending rest
  scan s zero (x ∷ rest) =
      let r = step s x rest in
      let later = scan r.next r.more rest in
      record {
        value = r.written ++ later.value;
        changed = r.step_changed || later.changed;
        final = later.final;
      }

  -- The scan where the first step is known.
  abbrev pub scan_behind : Step σ → Bytes → Scanned σ
  scan_behind r rest =
      let later = scan r.next r.more rest in
      record {
        value = r.written ++ later.value;
        changed = r.step_changed || later.changed;
        final = later.final;
      }

  pub scan-step :
      (s : σ) (x : ℕ) (rest : Bytes) (r : Step σ)
      → step s x rest ≡ r
      → scan s 0 (x ∷ rest) ≡ scan_behind r rest
  unfolding scan
  scan-step s x rest r e = ap (λ q. scan_behind q rest) e

  -- A step that reports no change writes what it has read.
  abbrev pub Reports : Type ℓ
  Reports =
      (s : σ) (x : ℕ) (rest : Bytes)
      → (step s x rest).step_changed ≡ false
      → (step s x rest).written ≡ x ∷ take (step s x rest).more rest

  -- A step writes no more than it has read, less what the state owes for the end.
  abbrev pub Fits : (σ → ℕ) → Type ℓ
  Fits owed =
      (s : σ) (x : ℕ) (rest : Bytes)
      → (length (step s x rest).written + owed (step s x rest).next
          ≤ 1 + (step s x rest).more + owed s)
        × ((step s x rest).more ≤ length rest)

  scan_unchanged_from :
      (s : σ) (pending : ℕ) (input : Bytes)
      → Reports
      → (scan s pending input).changed ≡ false
      → take pending input ++ (scan s pending input).value ≡ input
  unfolding scan
  scan_unchanged_from s zero [] h e = refl
  scan_unchanged_from s (suc pending) [] h e = refl
  scan_unchanged_from s (suc pending) (x ∷ rest) h e =
      ap (λ l. x ∷ l) (scan_unchanged_from s pending rest h e)
  scan_unchanged_from s zero (x ∷ rest) h e =
      let r = step s x rest in
      let h' = h s x rest (ground arith) in
      let ih = scan_unchanged_from r.next r.more rest h (ground arith) in rw h' (ap (λ l. x ∷ l) ih)

  -- A scan that reports no change leaves the value as it is.
  pub scan_unchanged :
      (s : σ) (input : Bytes)
      → Reports
      → (scan s 0 input).changed ≡ false
      → (scan s 0 input).value ≡ input
  scan_unchanged s input h e = scan_unchanged_from s 0 input h e

  -- A step that reports no change keeps the state.
  abbrev pub Stays : Type ℓ
  Stays =
      (s : σ) (x : ℕ) (rest : Bytes)
      → (step s x rest).step_changed ≡ false
      → (step s x rest).next ≡ s

  pub scan-Stays :
      (s : σ) (n : ℕ) (input : Bytes)
      → Stays
      → (scan s n input).changed ≡ false
      → (scan s n input).final ≡ s
  unfolding scan
  scan-Stays s n [] h e = refl
  scan-Stays s (suc n) (x ∷ rest) h e = scan-Stays s n rest h e
  scan-Stays s zero (x ∷ rest) h e =
      let r = step s x rest in
      scan-Stays r.next r.more rest h (ground arith) ∙ h s x rest (ground arith)

  scan-length_from :
      (owed : σ → ℕ) (s : σ) (n : ℕ) (input : Bytes)
      → Fits owed
      → n ≤ length input
      → n + length (scan s n input).value + owed (scan s n input).final ≤ length input + owed s
  unfolding scan
  scan-length_from owed s zero [] h e = omega arith
  scan-length_from owed s (suc n) [] h e = omega arith
  scan-length_from owed s (suc n) (x ∷ rest) h e =
      omega (arith, scan-length_from owed s n rest h (omega arith))
  scan-length_from owed s zero (x ∷ rest) h e =
      let r = step s x rest in
      let fits = h s x rest in
      let ih = scan-length_from owed r.next r.more rest h fits.1 in
      let both = length-append r.written (scan r.next r.more rest).value in omega arith

  -- Nor does it ever write past what it reads, so the value does not get longer.
  pub scan-length :
      (owed : σ → ℕ) (s : σ) (input : Bytes)
      → Fits owed
      → length (scan s 0 input).value + owed (scan s 0 input).final ≤ length input + owed s
  scan-length owed s input h = omega (arith, scan-length_from owed s 0 input h (omega arith))
