-- ===== src/Transformation/Comments/Removed.antt =====
-- What is left behind replaceComments.
use mod_security.Prelude.{
  Bool, Bool-cases, [], arith, false, if_ind, inl, inr, refl, subst, suc, sym, true, zero, ℕ, ◌&&◌,
  ◌++◌, ◌==◌, ◌||◌, ◌∷◌, ◌≡◌,
}
use mod_security.Prelude.Bytes.{Bytes}
use mod_security.Transformation.Comments.{replace_comments, replace_comments_step}
use mod_security.Transformation.Scan.{next_is, put, scan, scan-step}

-- Somewhere a comment begins.
abbrev pub has_comment : Bytes → Bool
has_comment [] = false
has_comment (x ∷ rest) = (x == b'/' && next_is rest 0 b'*') || has_comment rest

has_comment-blank : (v : Bytes) → has_comment v ≡ false → has_comment (v ++ b' ' ∷ []) ≡ false
has_comment-blank [] e = ground arith
has_comment-blank (x ∷ []) e = ground arith
has_comment-blank (x ∷ y ∷ v) e = ground (arith, has_comment-blank (y ∷ v) (ground arith))

-- What holds of the value that is written from either state, with `n` bytes to pass over: no comment
-- begins in it, and its first byte is a star only where the first byte that it reads is one.
abbrev Clean : Bool → ℕ → Bytes → Bytes → Type 0
Clean s n v written =
    (has_comment written ≡ false)
    × (next_is v 0 b'*' ≡ false → s ≡ false → n ≡ 0 → next_is written 0 b'*' ≡ false)
    × (s ≡ true → next_is written 0 b'*' ≡ false)

no_comment : (s : Bool) (n : ℕ) (v : Bytes) → Clean s n v (scan replace_comments_step s n v).value
unfolding scan
no_comment s n [] = (refl, (λ a b c. refl), (λ t. refl))
no_comment s (suc n) (x ∷ rest) =
    let ih = no_comment s n rest in (ih.0, (λ a b c. absurd (omega (arith, c))), ih.2)
no_comment false zero (x ∷ rest) =
    let opened = no_comment true 1 rest in
    let copied = no_comment false 0 rest in
    elim (Bool-cases (x == b'/' && next_is rest 0 b'*')) [
      | inl e ↦
          subst (λ r. Clean false 0 (x ∷ rest) r.value)
            (sym
              (scan-step replace_comments_step false x rest (put [] 1 true true) (opens x rest e)))
            (opened.0, (λ a b c. opened.2 refl), (λ t. absurd (ground arith)))
      | inr e ↦
          subst (λ r. Clean false 0 (x ∷ rest) r.value)
            (sym (
              scan-step replace_comments_step false x rest (put (x ∷ []) 0 false false)
                (copies x rest e)))
            (kept x rest (scan replace_comments_step false 0 rest).value e copied)
    ]
  where
    opens :
        (x : ℕ) (rest : Bytes)
        → (x == b'/' && next_is rest 0 b'*') ≡ true
        → replace_comments_step false x rest ≡ put [] 1 true true
    opens x rest e = unfold replace_comments_step in rw e refl

    copies :
        (x : ℕ) (rest : Bytes)
        → (x == b'/' && next_is rest 0 b'*') ≡ false
        → replace_comments_step false x rest ≡ put (x ∷ []) 0 false false
    copies x rest e = unfold replace_comments_step in rw e refl

    kept :
        (x : ℕ) (rest written : Bytes)
        → (x == b'/' && next_is rest 0 b'*') ≡ false
        → Clean false 0 rest written
        → Clean false 0 (x ∷ rest) (x ∷ written)
    kept x rest written e c = (ground (arith, c.1), (λ a b d. a), (λ t. absurd (ground arith)))
no_comment true zero (x ∷ rest) =
    let closed = no_comment false 1 rest in
    let open' = no_comment true 0 rest in
    elim (Bool-cases (x == b'*' && next_is rest 0 b'/')) [
      | inl e ↦
          subst (λ r. Clean true 0 (x ∷ rest) r.value)
            (sym (
              scan-step replace_comments_step true x rest (put (b' ' ∷ []) 1 true false)
                (closes x rest e)))
            (ground (arith, closed.0), (λ a b c. absurd (ground arith)), (λ t. refl))
      | inr e ↦
          subst (λ r. Clean true 0 (x ∷ rest) r.value)
            (sym
              (scan-step replace_comments_step true x rest (put [] 0 true true) (goes_on x rest e)))
            (open'.0, (λ a b c. absurd (ground arith)), open'.2)
    ]
  where
    closes :
        (x : ℕ) (rest : Bytes)
        → (x == b'*' && next_is rest 0 b'/') ≡ true
        → replace_comments_step true x rest ≡ put (b' ' ∷ []) 1 true false
    closes x rest e = unfold replace_comments_step in rw e refl

    goes_on :
        (x : ℕ) (rest : Bytes)
        → (x == b'*' && next_is rest 0 b'/') ≡ false
        → replace_comments_step true x rest ≡ put [] 0 true true
    goes_on x rest e = unfold replace_comments_step in rw e refl

-- No comment begins in a value behind replaceComments: the two bytes that open one are nowhere in it.
pub replace_comments-has_comment : (v : Bytes) → has_comment (replace_comments v).0 ≡ false
unfolding replace_comments
replace_comments-has_comment v =
    let r = scan replace_comments_step false 0 v in
    let h = (no_comment false 0 v).0 in
    if_ind (λ b. has_comment b ≡ false) r.final (has_comment-blank r.value h) h
