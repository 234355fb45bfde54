-- ===== src/Transformation/Path/Rounds.antt =====
-- The loop of normalize_path_inplace: where its pointers are, and when it ends.
-- The pointers of a round: `dst` is never ahead of `src`, which is in the buffer.
use mod_security.Prelude.{
  Bool, [], ap, arith, false, if_ind, if_ind_eq, if◌then◌else◌, inl, inr, leb, length, length-set,
  length-take, ltb, not, refl, subst, suc, sym, true, true≢false, zero, ℕ, ◌&&◌, ◌+◌, ◌-◌, ◌<◌,
  ◌==◌, ◌||◌, ◌∙◌, ◌∷◌, ◌≡◌, ◌≤◌, ◌⊎◌,
}
use mod_security.Prelude.Bytes.{Bytes}
use mod_security.Transformation.Path.{
  PathState, at, back_reference, back_to, convert_at, convert_backslashes, converted_round, copy,
  copy_byte, dot_segment, drop_reference, finish_path, goes_on, is_separator,
  normalize_path_inplace, normalize_segment, path_loop, path_round, path_rounds, skip_slashes,
  start_path,
}

abbrev IsInside : ℕ → PathState → Type 0
IsInside end s = (length s.buffer ≡ end + 1) × (s.dst ≤ s.src) × (s.src ≤ end)

-- At the end of the buffer only in the last round.
abbrev IsReady : ℕ → PathState → Type 0
IsReady end s = IsInside end s × ((s.is_done ≡ true) ⊎ (s.src < end))

-- What a round leaves behind that began at `p`.
abbrev HasMoved : ℕ → ℕ → PathState → Type 0
HasMoved end p s =
    (length s.buffer ≡ end + 1)
    × (s.dst ≤ s.src)
    × (s.src ≤ end + 1)
    × ((s.is_done ≡ true) ⊎ (p < s.src))

back_to-bound : (b : Bytes) (d : ℕ) → back_to b d ≤ d
unfolding back_to
back_to-bound b zero = omega arith
back_to-bound b (suc d) = ground (arith, back_to-bound b d)

skip_slashes-bound :
    (win : Bool) (b : Bytes) (n p : ℕ)
    → (p ≤ skip_slashes win b n p) × (skip_slashes win b n p ≤ p + n)
unfolding skip_slashes
skip_slashes-bound win b zero p = (omega arith, omega arith)
skip_slashes-bound win b (suc n) p =
    let ih = skip_slashes-bound win b n (p + 1) in
    if_ind (λ q. (p ≤ q) × (q ≤ p + suc n)) (is_separator win (at b (p + 1)))
      (omega (arith, ih.0), omega (arith, ih.1)) (omega arith, omega arith)

convert_at-IsInside :
    (end p : ℕ) (s : PathState)
    → IsInside end s
    → IsInside end (convert_at p s)
      × ((convert_at p s).src ≡ s.src)
      × ((convert_at p s).is_done ≡ s.is_done)
unfolding convert_at
convert_at-IsInside end p s (l, h, k) =
    if_ind (λ t. IsInside end t × (t.src ≡ s.src) × (t.is_done ≡ s.is_done))
      (at s.buffer p == b'\\') ((length-set s.buffer p b'/' ∙ l, h, k), refl, refl)
      ((l, h, k), refl, refl)

module _ (win relative : Bool) (end : ℕ) where
  convert_backslashes-IsInside :
      (s : PathState)
      → IsInside end s
      → let t = convert_backslashes win relative end s in
        IsInside end t × (t.src ≡ s.src) × (t.is_done ≡ s.is_done)
  unfolding convert_backslashes
  convert_backslashes-IsInside s h =
      let P = λ (t : PathState). IsInside end t × (t.src ≡ s.src) × (t.is_done ≡ s.is_done) in
      let a = convert_at-IsInside end s.src s h in
      let t = convert_at s.src s in
      let b = convert_at-IsInside end (t.src + 1) t a.0 in
      if_ind P win (if_ind P (ltb t.src end) (b.0, b.1 ∙ a.1, b.2 ∙ a.2) a) (h, refl, refl)

  copy_byte-HasMoved :
      (s : PathState) (p : ℕ)
      → IsInside end s
      → p ≤ s.src
      → HasMoved end p (copy_byte win relative end s)
  unfolding copy_byte
  copy_byte-HasMoved s p (l, h, k) b = (
    length-set s.buffer s.dst (at s.buffer s.src) ∙ l,
    omega arith,
    omega arith,
    inr (omega arith),
  )

  copy-HasMoved : (s : PathState) → IsInside end s → HasMoved end s.src (copy win relative end s)
  unfolding copy
  copy-HasMoved s h =
      let p = skip_slashes win s.buffer (end - s.src) s.src in
      let b = skip_slashes-bound win s.buffer (end - s.src) s.src in
      let t = record s { src = p; path_changed = s.path_changed || not (s.src == p) } in
      let d = h.1 in
      let e = h.2 in
      let inside : IsInside end t = (h.0, omega (arith, b, d), omega (arith, b, e)) in
      if_ind (HasMoved end s.src) (at s.buffer s.src == b'/')
        (if_ind (HasMoved end s.src) (relative && t.dst == 0)
          (h.0, omega (arith, b, d), omega (arith, b, e), inr (omega (arith, b)))
          (copy_byte-HasMoved t s.src inside b.0))
        (copy_byte-HasMoved s s.src h (omega arith))

  drop_reference-HasMoved :
      (s : PathState) → IsReady end s → HasMoved end s.src (drop_reference win relative end s)
  unfolding drop_reference
  drop_reference-HasMoved s ((l, h, k), r) =
      if_ind_eq (HasMoved end s.src) s.is_done (λ y. (l, h, omega arith, inl y))
        (λ n.
          let far : s.src < end = elim r [ inl y ↦ absurd (true≢false (sym y ∙ n)) | inr f ↦ f ] in
          let t = record s { src = s.src + 1; path_changed = true } in
          let c = copy-HasMoved t (l, omega arith, omega arith) in
          (c.0, c.1, c.2, elim c.3 [ inl y ↦ inl y | inr f ↦ inr (omega arith) ]))

  back_reference-HasMoved :
      (s : PathState)
      → IsReady end s
      → 0 < s.dst
      → HasMoved end s.src (back_reference win relative end s)
  unfolding back_reference
  back_reference-HasMoved s ((l, h, k), r) z =
      let d = back_to s.buffer (s.dst - 3) in
      let b = back_to-bound s.buffer (s.dst - 3) in
      if_ind (HasMoved end s.src) (relative && (s.hitroot || leb s.dst 2))
        (copy-HasMoved (record s { hitroot = true }) (l, h, k))
        (if_ind (λ t. HasMoved end s.src (drop_reference win relative end t)) (d == 0)
          (drop_reference-HasMoved
            (record s { hitroot = true; dst = if not relative && s.src == end then 1 else 0 })
            (
              (
                l,
                if_ind (λ x. x ≤ s.src) (not relative && s.src == end) (omega arith) (omega arith),
                k,
              ),
              r,
            ))
          (drop_reference-HasMoved (record s { dst = d }) ((l, omega (arith, b), k), r)))

  dot_segment-HasMoved :
      (s : PathState) → IsReady end s → HasMoved end s.src (dot_segment win relative end s)
  unfolding dot_segment
  dot_segment-HasMoved s ((l, h, k), r) =
      let P = HasMoved end s.src in
      if_ind_eq P (ltb 0 s.dst && at s.buffer (s.dst - 1) == b'.')
        (λ y. back_reference-HasMoved s ((l, h, k), r) (ground arith))
        (λ n.
          if_ind P (s.dst == 0)
            (drop_reference-HasMoved (record s { path_changed = true }) ((l, h, k), r))
            (if_ind P (at s.buffer (s.dst - 1) == b'/')
              (drop_reference-HasMoved
                (record s { path_changed = true; dst = if s.is_done then s.dst else s.dst - 1 })
                ((l, if_ind (λ x. x ≤ s.src) s.is_done h (omega arith), k), r))
              (copy-HasMoved s (l, h, k))))

  normalize_segment-HasMoved :
      (s : PathState) → IsReady end s → HasMoved end s.src (normalize_segment win relative end s)
  unfolding normalize_segment
  normalize_segment-HasMoved s (i, r) =
      let P = HasMoved end s.src in
      if_ind P (not (s.src == end) && at s.buffer s.src == b'/')
        (copy-HasMoved (record s { path_changed = true }) i)
        (if_ind P (at s.buffer s.src == b'.') (dot_segment-HasMoved s (i, r)) (
          if_ind (λ t. P (copy win relative end t)) (ltb 0 s.dst)
            (copy-HasMoved (record s { hitroot = false }) i) (copy-HasMoved s i)))

  converted_round-HasMoved :
      (s : PathState) → IsInside end s → HasMoved end s.src (converted_round win relative end s)
  unfolding converted_round
  converted_round-HasMoved s i =
      let P = HasMoved end s.src in
      let e = i.2 in
      if_ind_eq P (s.src == end)
        (λ y. normalize_segment-HasMoved (record s { is_done = true }) (i, inl refl))
        (λ n.
          if_ind P (at s.buffer (s.src + 1) == b'/')
            (normalize_segment-HasMoved s (i, inr (ground (arith, e)))) (copy-HasMoved s i))

  path_round-HasMoved :
      (s : PathState) → IsInside end s → HasMoved end s.src (path_round win relative end s)
  unfolding path_round
  path_round-HasMoved s i =
      let c = convert_backslashes-IsInside s i in
      let r = converted_round-HasMoved (convert_backslashes win relative end s) c.0 in
      subst (λ p. HasMoved end p (path_round win relative end s)) c.1 r

  abbrev goes : PathState → Bool
  goes = goes_on win relative end

  path_rounds-stopped :
      (n : ℕ) (s : PathState) → goes s ≡ false → path_rounds win relative end n s ≡ s
  unfolding path_rounds
  path_rounds-stopped zero s h = refl
  path_rounds-stopped (suc n) s h = rw h refl

  -- Between two rounds.
  abbrev IsKept : PathState → Type 0
  IsKept s = (length s.buffer ≡ end + 1) × (s.dst ≤ s.src) × (s.src ≤ end + 1)

  path_rounds-IsKept :
      (n : ℕ) (s : PathState) → IsKept s → IsKept (path_rounds win relative end n s)
  unfolding path_rounds
  path_rounds-IsKept zero s k = k
  path_rounds-IsKept (suc n) s k =
      if_ind_eq IsKept (goes s)
        (λ y.
          let m = path_round-HasMoved s (k.0, k.1, ground arith) in
          path_rounds-IsKept n (path_round win relative end s) (m.0, m.1, m.2))
        (λ z. k)

  path_rounds-ends :
      (n : ℕ) (s : PathState)
      → IsKept s
      → end + 1 ≤ s.src + n
      → goes (path_rounds win relative end n s) ≡ false
  unfolding path_rounds
  path_rounds-ends zero s k h = ground arith
  path_rounds-ends (suc n) s k h =
      let t = path_round win relative end s in
      if_ind_eq (λ u. goes u ≡ false) (goes s)
        (λ y.
          let m = path_round-HasMoved s (k.0, k.1, ground arith) in
          elim m.3 [
            | inl e ↦
                let stopped : goes t ≡ false = rw e refl in
                ap goes (path_rounds-stopped n t stopped) ∙ stopped
            | inr f ↦ path_rounds-ends n t (m.0, m.1, m.2) (omega (arith, f, h))
          ])
        (λ z. z)

-- The loop of normalisePath ends by its own condition, in no more rounds than the value has bytes;
-- and after any number of rounds the buffer has its length, and the place that is written is not
-- behind the place that is read, which is in the buffer or just behind it.
pub path_loop-ends :
    (c : ℕ) (cs : Bytes) (win relative : Bool)
    → let v = c ∷ cs in
      let rounds = λ (n : ℕ). path_rounds win relative (length cs) n (start_path v) in
      ((n : ℕ) → length v ≤ n → goes_on win relative (length cs) (rounds n) ≡ false)
      × ((n : ℕ)
          → (length (rounds n).buffer ≡ length v)
            × ((rounds n).dst ≤ (rounds n).src)
            × ((rounds n).src ≤ length v))
path_loop-ends c cs win relative =
    let start : IsKept win relative (length cs) (start_path (c ∷ cs)) =
      (omega arith, omega arith, omega arith) in
    (
      λ n h. path_rounds-ends win relative (length cs) n (start_path (c ∷ cs)) start (omega arith),
      λ n.
          let k = path_rounds-IsKept win relative (length cs) n (start_path (c ∷ cs)) start in
          (omega (arith, k.0), k.1, omega (arith, k.2)),
    )

finish_path-length :
    (trailing : Bool) (s : PathState) → length (finish_path trailing s).0 ≤ length s.buffer
unfolding finish_path
finish_path-length trailing s =
    let d =
      if not trailing && (ltb 0 s.dst && at s.buffer (s.dst - 1) == b'/')
      then s.dst - 1
      else s.dst in
    let e = length-take d s.buffer in omega (arith, e)

-- normalisePath and normalisePathWin never make a value longer.
pub normalize_path_inplace-length :
    (v : Bytes) (win : Bool) → length (normalize_path_inplace v win).0 ≤ length v
unfolding normalize_path_inplace path_loop
normalize_path_inplace-length [] win = omega arith
normalize_path_inplace-length (c ∷ cs) win =
    let k = (path_loop-ends c cs win (not (is_separator win c))).1 (length (c ∷ cs)) in
    let f = finish_path-length (is_separator win (at (c ∷ cs) (length cs))) (path_loop c cs win) in
    omega (arith, f, k.0)
