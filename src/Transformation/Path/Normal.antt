-- ===== src/Transformation/Path/Normal.antt =====
-- Paths that normalisePath has nothing to do on.
-- No byte is a dot, no slash stands next to another, and, for normalisePathWin, none is a backslash.
use mod_security.Prelude.{
  ==_iff, Bool, Bool-cases, [], ap, append-nil, arith, false, if_ind_eq, if◌then◌else◌, inl, inr,
  leb, length, ltb, not, refl, set, subst, suc, sym, take, take-append_length, true, zero, ℕ, ◌&&◌,
  ◌+◌, ◌-◌, ◌<◌, ◌==◌, ◌∙◌, ◌∷◌, ◌≡◌, ◌≢◌, ◌≤◌,
}
use mod_security.Prelude.Bytes.{Bytes}
use mod_security.Transformation.Path.{
  PathState, at, convert_at, convert_backslashes, converted_round, copy, finish_path, is_separator,
  normalize_path_inplace, normalize_segment, path_round, path_rounds, skip_slashes, start_path,
}

abbrev pub IsNormal : Bool → ℕ → Bytes → Type 0
IsNormal win last [] = Unit
IsNormal win last (c ∷ cs) =
    (c ≢ b'.') × ((c ≡ b'/') → last ≢ b'/') × (win ≡ true → c ≢ b'\\') × IsNormal win c cs

set-get_or : (b : Bytes) (i : ℕ) → set b i (at b i) ≡ b
set-get_or [] i = refl
set-get_or (c ∷ b) zero = refl
set-get_or (c ∷ b) (suc i) = ap (λ l. c ∷ l) (set-get_or b i)

-- What it says of the byte at a place and of the one behind it.
IsNormal-at :
    (win : Bool) (last : ℕ) (b : Bytes) (i : ℕ)
    → IsNormal win last b
    → i < length b
    → (at b i ≢ b'.') × (win ≡ true → at b i ≢ b'\\')
IsNormal-at win last [] i h k = ground arith
IsNormal-at win last (c ∷ b) zero h k = (h.0, h.2)
IsNormal-at win last (c ∷ b) (suc i) h k = IsNormal-at win c b i h.3 (omega arith)

IsNormal-next :
    (win : Bool) (last : ℕ) (b : Bytes) (i : ℕ)
    → IsNormal win last b
    → i + 1 < length b
    → at b i ≡ b'/'
    → at b (i + 1) ≢ b'/'
IsNormal-next win last [] i h k e = ground arith
IsNormal-next win last (c ∷ []) i h k e = omega arith
IsNormal-next win last (c ∷ d ∷ b) zero h k e = λ f. h.3.1 f e
IsNormal-next win last (c ∷ d ∷ b) (suc i) h k e =
    let same : suc (i + 1) ≡ suc i + 1 = omega arith in
    subst (λ j. at (c ∷ d ∷ b) j ≢ b'/') same (IsNormal-next win c (d ∷ b) i h.3 (omega arith) e)

both_within : (k end : ℕ) → k ≤ end → (leb k end && leb k end) ≡ true
both_within k end h = ground arith

same_end : (k end : ℕ) → k ≡ end → (k == end) ≡ true
same_end k end h = ground arith

before_end : (k end : ℕ) → k < end → (k == end) ≡ false
before_end k end h = ground arith

take_all : (b : Bytes) (n : ℕ) → length b ≡ n → take n b ≡ b
take_all b n e = ap (take n) (sym (append-nil b)) ∙ take-append_length b [] n e

no_trailing :
    (win : Bool) (c : ℕ) (b : Bool) → (not (is_separator win c) && (b && c == b'/')) ≡ false
no_trailing win c b = ground arith

and_false : (b : Bool) → (b && false) ≡ false
and_false true = refl
and_false false = refl

module _ (win : Bool) (v : Bytes) (end : ℕ) (size : length v ≡ end + 1) (h : IsNormal win 0 v) where
  abbrev relative : Bool
  relative = not (is_separator win (at v 0))

  -- Behind `k` rounds nothing has changed.
  abbrev moved_on : ℕ → Bool → Bool → PathState
  moved_on k root over = record {
    buffer = v;
    src = k;
    dst = k;
    hitroot = root;
    is_done = over;
    path_changed = false;
  }

  no_separator : (k : ℕ) → k + 1 ≤ end → at v k ≡ b'/' → is_separator win (at v (k + 1)) ≡ false
  no_separator k b e =
      let n = IsNormal-next win 0 v k h (omega (arith, size)) e in
      let w = (IsNormal-at win 0 v (k + 1) h (omega (arith, size))).1 in
      elim (Bool-cases win) [
        | inl y ↦ let z = w y in ground (arith, n, z)
        | inr f ↦ ground (arith, n, f)
      ]

  skip_none : (n k : ℕ) → k + n ≤ end → at v k ≡ b'/' → skip_slashes win v n k ≡ k
  unfolding skip_slashes
  skip_none zero k b e = refl
  skip_none (suc n) k b e = rw (no_separator k (omega arith) e) refl

  copy-moved_on :
      (k : ℕ) (root over : Bool)
      → k ≤ end
      → copy win relative end (moved_on k root over) ≡ moved_on (k + 1) root over
  unfolding copy
  copy-moved_on k root over b =
      let kept = set-get_or v k in
      elim (Bool-cases (at v k == b'/')) [
        | inr n ↦ rw (n, kept) refl
        | inl y ↦
            let e : at v k ≡ b'/' = ground arith in
            let none_skipped = skip_none (end - k) k (omega arith) e in
            let self : (k == k) ≡ true = ground arith in
            let rooted : (relative && k == 0) ≡ false = elim (Bool-cases (k == 0)) [
              | inl z ↦
                  let start : (at v 0 == b'/') ≡ true =
                    ap (λ j. at v j == b'/') (sym ((==_iff k 0).0 z)) ∙ y in
                  let rooted_path : relative ≡ false = rw start refl in rw rooted_path refl
              | inr n ↦ rw n (and_false relative)
            ] in
            rw (y, none_skipped, self, rooted, kept) refl
      ]

  not_backslash : (k : ℕ) → k ≤ end → win ≡ true → (at v k == b'\\') ≡ false
  not_backslash k b y =
      let z = (IsNormal-at win 0 v k h (omega (arith, size))).1 y in ground (arith, z)

  convert_at-moved_on :
      (p k : ℕ) (root over : Bool)
      → (at v p == b'\\') ≡ false
      → convert_at p (moved_on k root over) ≡ moved_on k root over
  unfolding convert_at
  convert_at-moved_on p k root over e = rw e refl

  convert_backslashes-moved_on :
      (k : ℕ) (root over : Bool)
      → k ≤ end
      → convert_backslashes win relative end (moved_on k root over) ≡ moved_on k root over
  unfolding convert_backslashes
  convert_backslashes-moved_on k root over b =
      let m = moved_on k root over in
      if_ind_eq (λ t. t ≡ m) win
        (λ y.
          ap (λ t. if ltb t.src end then convert_at (t.src + 1) t else t)
            (convert_at-moved_on k k root over (not_backslash k b y))
          ∙ if_ind_eq (λ t. t ≡ m) (ltb k end)
              (λ z.
                convert_at-moved_on (k + 1) k root over (not_backslash (k + 1) (ground arith) y))
              (λ z. refl))
        (λ n. refl)

  segment-moved_on :
      (k : ℕ) (root over : Bool)
      → k ≤ end
      → (not (k == end) && at v k == b'/') ≡ false
      → (r : Bool) × (normalize_segment win relative end (moved_on k root over)
          ≡ moved_on (k + 1) r over)
  unfolding normalize_segment
  segment-moved_on k root over b e =
      let d = (IsNormal-at win 0 v k h (omega (arith, size))).0 in
      let no_dot : (at v k == b'.') ≡ false = ground (arith, d) in
      elim (Bool-cases (ltb 0 k)) [
        | inl y ↦ (false, rw (e, no_dot, y) (copy-moved_on k false over b))
        | inr n ↦ (root, rw (e, no_dot, n) (copy-moved_on k root over b))
      ]

  round-moved_on :
      (k : ℕ) (root : Bool)
      → k ≤ end
      → (r : Bool) × (path_round win relative end (moved_on k root false)
          ≡ moved_on (k + 1) r (k == end))
  unfolding path_round converted_round
  round-moved_on k root b =
      let c = ap (converted_round win relative end) (convert_backslashes-moved_on k root false b) in
      elim (Bool-cases (k == end)) [
        | inl y ↦ let t = segment-moved_on k root true b (rw y refl) in (t.0, c ∙ rw y t.1)
        | inr n ↦ elim (Bool-cases (at v (k + 1) == b'/')) [
          | inr z ↦ (root, c ∙ rw (n, z) (copy-moved_on k root false b))
          | inl y ↦
              let e = IsNormal-next win 0 v k h (ground (arith, size)) in
              let plain : (at v k == b'/') ≡ false = ground (arith, e) in
              let t = segment-moved_on k root false b (rw (n, plain) refl) in
              (t.0, c ∙ rw (n, y) t.1)
        ]
      ]

  rounds-moved_on :
      (n k : ℕ) (root : Bool)
      → k + n ≡ end
      → (r : Bool) × (path_rounds win relative end (suc n) (moved_on k root false)
          ≡ moved_on (end + 1) r true)
  unfolding path_rounds
  rounds-moved_on zero k root e =
      let t = round-moved_on k root (omega (arith, e)) in
      let goes : (leb k end && leb k end) ≡ true = both_within k end (omega (arith, e)) in
      let last : (k == end) ≡ true = same_end k end (omega (arith, e)) in
      (
        t.0,
        rw goes (
            t.1
            ∙ (ap (moved_on (k + 1) t.0) last ∙ ap (λ j. moved_on j t.0 true) (omega (arith, e)))),
      )
  rounds-moved_on (suc n) k root e =
      let t = round-moved_on k root (omega (arith, e)) in
      let goes : (leb k end && leb k end) ≡ true = both_within k end (omega (arith, e)) in
      let more : (k == end) ≡ false = before_end k end (omega (arith, e)) in
      let ih = rounds-moved_on n (k + 1) t.0 (omega (arith, e)) in
      (
        ih.0,
        rw goes (
            ap (path_rounds win relative end (suc n)) (t.1 ∙ ap (moved_on (k + 1) t.0) more)
            ∙ ih.1),
      )

  finish-moved_on :
      (r : Bool)
      → finish_path (is_separator win (at v end)) (moved_on (end + 1) r true) ≡ (v, false)
  unfolding finish_path
  finish-moved_on r =
      let index : end + 1 - 1 ≡ end = omega arith in
      let kept : (not (is_separator win (at v end))
            && (ltb 0 (end + 1) && at v (end + 1 - 1) == b'/'))
          ≡ false =
        rw index (no_trailing win (at v end) (ltb 0 (end + 1))) in
      rw kept (ap (λ b. (b, false)) (take_all v (end + 1) size))

normalize_path_inplace-nil : (win : Bool) → normalize_path_inplace [] win ≡ ([], false)
unfolding normalize_path_inplace
normalize_path_inplace-nil win = refl

normalize_path_inplace-rounds :
    (c : ℕ) (cs : Bytes) (win : Bool)
    → normalize_path_inplace (c ∷ cs) win
      ≡ finish_path (is_separator win (at (c ∷ cs) (length cs))) (
          path_rounds win
            (not (is_separator win c))
            (length cs)
            (suc (length cs))
            (start_path (c ∷ cs)))
unfolding normalize_path_inplace
normalize_path_inplace-rounds c cs win = refl

-- A path with no dot, no two slashes together and, for normalisePathWin, no backslash, is left as it
-- is, a trailing slash included, and no change is reported.
pub normalize_path_inplace-IsNormal :
    (v : Bytes) (win : Bool) → IsNormal win 0 v → normalize_path_inplace v win ≡ (v, false)
normalize_path_inplace-IsNormal [] win h = normalize_path_inplace-nil win
normalize_path_inplace-IsNormal (c ∷ cs) win h =
    let size : length (c ∷ cs) ≡ length cs + 1 = omega arith in
    let t = rounds-moved_on win (c ∷ cs) (length cs) size h (length cs) 0 false (omega arith) in
    normalize_path_inplace-rounds c cs win
    ∙ ap (finish_path (is_separator win (at (c ∷ cs) (length cs)))) t.1
    ∙ finish-moved_on win (c ∷ cs) (length cs) size h t.0
