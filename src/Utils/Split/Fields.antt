-- ===== src/Utils/Split/Fields.antt =====
-- Splitting a text that was put together with the separator.
use mod_security.Prelude.{
  [], ap, append-nil, append_assoc, arith, false, length, length-append, refl, sym, true, ℕ, ◌++◌,
  ◌+◌, ◌<◌, ◌==◌, ◌||◌, ◌∙◌, ◌∷◌, ◌≡◌,
}
use mod_security.Prelude.Bytes.{Bytes}
use mod_security.Utils.Split.{after, before, contains_byte, ssplit_from}

pub contains_byte-append :
    (d : ℕ) (a b : Bytes) → contains_byte d (a ++ b) ≡ (contains_byte d a || contains_byte d b)
unfolding contains_byte
contains_byte-append d [] b = refl
contains_byte-append d (c ∷ a) b = ground (arith, contains_byte-append d a b)

pub ssplit_from-field :
    (d : ℕ) (tok f cs : Bytes)
    → contains_byte d f ≡ false
    → ssplit_from d tok (f ++ d ∷ cs) ≡ (tok ++ f) ∷ ssplit_from d [] cs
unfolding ssplit_from contains_byte
ssplit_from-field d tok [] cs h =
    let e : (d == d) ≡ true = ground arith in rw e (rw append-nil refl)
ssplit_from-field d tok (c ∷ f) cs h =
    let ih = ssplit_from-field d (tok ++ c ∷ []) f cs (ground arith) in
    let e : (c == d) ≡ false = ground arith in rw e (ih ∙ rw append_assoc refl)

pub ssplit_from-last :
    (d : ℕ) (tok f : Bytes)
    → contains_byte d f ≡ false
    → 0 < length tok + length f
    → ssplit_from d tok f ≡ (tok ++ f) ∷ []
unfolding ssplit_from contains_byte
ssplit_from-last d [] [] h l = absurd (omega arith)
ssplit_from-last d (c ∷ tok) [] h l = ap (λ t. (c ∷ t) ∷ []) (sym (append-nil tok))
ssplit_from-last d tok (x ∷ f) h l =
    let more = length-append tok (x ∷ []) in
    let ih = ssplit_from-last d (tok ++ x ∷ []) f (ground arith) (omega arith) in
    let e : (x == d) ≡ false = ground arith in rw e (ih ∙ rw append_assoc refl)

pub before-field : (d : ℕ) (a b : Bytes) → contains_byte d a ≡ false → before d (a ++ d ∷ b) ≡ a
unfolding before contains_byte
before-field d [] b h = ground arith
before-field d (c ∷ a) b h =
    let e : (c == d) ≡ false = ground arith in
    rw e (ap (λ l. c ∷ l) (before-field d a b (ground arith)))

pub after-field : (d : ℕ) (a b : Bytes) → contains_byte d a ≡ false → after d (a ++ d ∷ b) ≡ b
unfolding after contains_byte
after-field d [] b h = ground arith
after-field d (c ∷ a) b h =
    let e : (c == d) ≡ false = ground arith in rw e (after-field d a b (ground arith))
