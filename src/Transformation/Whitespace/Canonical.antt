-- ===== src/Transformation/Whitespace/Canonical.antt =====
-- What the values look like behind cmdLine, and behind compressWhitespace and trim.
use mod_security.Prelude.{
  Bool, Bool-cases, [], arith, drop, false, if_ind_eq, inl, inr, refl, reverse, reverse-reverse,
  subst, sym, true, ℕ, ◌==◌, ◌∙◌, ◌∷◌, ◌≡◌, ◌⊎◌,
}
use mod_security.Prelude.Bytes.{Bytes}
use mod_security.Transformation.Whitespace.{
  cmd_line, cmd_line_from, cmd_line_step, is_cmd_joined, is_cmd_removed, is_cmd_space,
}
use mod_security.Utils.Ctype.{tolower}

-- What cmdLine has written, last byte first, with its flag: no byte is one of those that are removed
-- or made blank (but for the blank itself), or a capital; blanks do not touch, and stand before no
-- slash and no parenthesis; the flag says whether the last byte is a blank.
abbrev pub IsCmdByte : ℕ → Type 0
IsCmdByte c = (is_cmd_removed c ≡ false) × ((is_cmd_space c ≡ false) ⊎ (c ≡ b' ')) × (tolower c ≡ c)

-- `later` may stand behind a blank.
abbrev pub MayFollowBlank : ℕ → Type 0
MayFollowBlank c = (is_cmd_space c ≡ false) × (is_cmd_joined c ≡ false)

abbrev pub IsCanonical : Bytes → Type 0
IsCanonical [] = Unit
IsCanonical (c ∷ []) = IsCmdByte c
IsCanonical (d ∷ c ∷ rest) = IsCmdByte d × (c ≡ b' ' → MayFollowBlank d) × IsCanonical (c ∷ rest)

abbrev starts_blank : Bytes → Bool
starts_blank [] = false
starts_blank (c ∷ rest) = c == b' '

IsCanonical-cons :
    (d : ℕ) (w : Bytes)
    → IsCmdByte d
    → (starts_blank w ≡ true → MayFollowBlank d)
    → IsCanonical w
    → IsCanonical (d ∷ w)
IsCanonical-cons d [] b f h = b
IsCanonical-cons d (c ∷ w) b f h = (b, (λ e. f (ground arith)), h)

IsCanonical-tail : (w : Bytes) → IsCanonical w → IsCanonical (drop 1 w)
IsCanonical-tail [] h = tt
IsCanonical-tail (d ∷ []) h = tt
IsCanonical-tail (d ∷ c ∷ w) h = h.2

-- Behind a blank no blank stands.
starts_blank-tail :
    (w : Bytes) → IsCanonical w → starts_blank w ≡ true → starts_blank (drop 1 w) ≡ false
unfolding is_cmd_space
starts_blank-tail [] h e = ground arith
starts_blank-tail (d ∷ []) h e = refl
starts_blank-tail (d ∷ c ∷ w) h e = elim (Bool-cases (c == b' ')) [
  | inr n ↦ n
  | inl y ↦ let m = h.1 (ground arith) in absurd (ground arith)
]

blank-IsCmdByte : IsCmdByte b' '
unfolding is_cmd_removed is_cmd_space tolower
blank-IsCmdByte = (refl, inr refl, refl)

joined-IsCmdByte :
    (a : ℕ)
    → is_cmd_removed a ≡ false
    → is_cmd_space a ≡ false
    → is_cmd_joined a ≡ true
    → IsCmdByte a
unfolding is_cmd_joined tolower
joined-IsCmdByte a r s j = (r, inl s, ground arith)

tolower-IsCmdByte :
    (a : ℕ)
    → is_cmd_removed a ≡ false
    → is_cmd_space a ≡ false
    → IsCmdByte (tolower a) × (is_cmd_space (tolower a) ≡ false)
unfolding is_cmd_removed is_cmd_space tolower
tolower-IsCmdByte a r s = ((ground arith, inl (ground arith), ground arith), ground arith)

tolower-joined : (a : ℕ) → is_cmd_joined a ≡ false → is_cmd_joined (tolower a) ≡ false
unfolding is_cmd_joined tolower
tolower-joined a j = ground arith

not_blank : (a : ℕ) → is_cmd_space a ≡ false → (a == b' ') ≡ false
unfolding is_cmd_space
not_blank a s = ground arith

cmd_line_step-IsCanonical :
    (a : ℕ) (w : Bytes) (space : Bool)
    → IsCanonical w
    → starts_blank w ≡ space
    → let r = cmd_line_step a (w, space) in IsCanonical r.0 × (starts_blank r.0 ≡ r.1)
unfolding cmd_line_step
cmd_line_step-IsCanonical a w space h e =
    let P = λ (r : Bytes × Bool). IsCanonical r.0 × (starts_blank r.0 ≡ r.1) in
    if_ind_eq P (is_cmd_removed a) (λ r. (h, e))
      (λ r.
        if_ind_eq P (is_cmd_space a)
          (λ s.
            if_ind_eq P space {x = (w, space)} {y = (b' ' ∷ w, true)} (λ t. (h, e))
              (λ t. (IsCanonical-cons b' ' w blank-IsCmdByte (λ k. absurd (ground arith)) h, refl)))
          (λ s.
            if_ind_eq P (is_cmd_joined a)
              (λ j. (
                if_ind_eq (λ v. IsCanonical (a ∷ v)) space
                    (λ t.
                      IsCanonical-cons a (drop 1 w) (joined-IsCmdByte a r s j)
                        (λ k. absurd (ground (arith, starts_blank-tail w h (e ∙ t))))
                        (IsCanonical-tail w h))
                    (λ t.
                      IsCanonical-cons a w (joined-IsCmdByte a r s j) (λ k. absurd (ground arith))
                        h),
                not_blank a s,
              ))
              (λ j.
                let low = tolower-IsCmdByte a r s in
                (
                  IsCanonical-cons (tolower a) w low.0 (λ k. (low.1, tolower-joined a j)) h,
                  not_blank (tolower a) low.1,
                ))))

cmd_line_from-IsCanonical :
    (v : Bytes) (w : Bytes) (space : Bool)
    → IsCanonical w
    → starts_blank w ≡ space
    → IsCanonical (cmd_line_from v (w, space)).0
unfolding cmd_line_from
cmd_line_from-IsCanonical [] w space h e = h
cmd_line_from-IsCanonical (a ∷ rest) w space h e =
    let r = cmd_line_step a (w, space) in
    let k = cmd_line_step-IsCanonical a w space h e in
    cmd_line_from-IsCanonical rest r.0 r.1 k.0 k.1

-- Read from its end, a value behind cmdLine has no quote, backslash, caret, comma, semicolon, tab,
-- newline or carriage return and no capital letter, no two blanks in a row, and no blank before a
-- slash or an opening parenthesis.
pub cmd_line-IsCanonical : (v : Bytes) → IsCanonical (reverse (cmd_line v).0)
unfolding cmd_line
cmd_line-IsCanonical v =
    subst IsCanonical (sym (reverse-reverse (cmd_line_from v ([], false)).0))
      (cmd_line_from-IsCanonical v [] false tt refl)
