-- ===== src/Transformation/Path.antt =====
-- normalisePath and normalisePathWin: NormalisePath::normalize_path_inplace
-- (src/actions/transformations/normalise_path.cc). The loop works in the buffer of the value, with
-- an index for each of the pointers `src` and `dst`, and each `goto` is a call. A pointer before the
-- buffer is only compared with its start, and is 0 here.
pub mod Rounds
pub mod Normal
use mod_security.Prelude.{
  Bool, [], false, get_or, if◌then◌else◌, leb, length, ltb, not, set, suc, take, true, zero, ℕ,
  ◌&&◌, ◌+◌, ◌-◌, ◌==◌, ◌||◌, ◌∷◌,
}
use mod_security.Prelude.Bytes.{Bytes}

pub record PathState : Type 0 where
  pub buffer : Bytes
  pub src : ℕ
  pub dst : ℕ
  pub hitroot : Bool
  pub is_done : Bool
  pub path_changed : Bool

-- *p of the buffer; no place behind it is read
abbrev pub at : Bytes → ℕ → ℕ
at buffer p = get_or buffer p 0

abbrev pub is_separator : Bool → ℕ → Bool
is_separator win c = c == b'/' || (win && c == b'\\')

-- `while ((dst > input) && (*dst != '/')) dst--`
unfoldable pub back_to : Bytes → ℕ → ℕ
back_to buffer zero = zero
back_to buffer (suc d) = if at buffer (suc d) == b'/' then suc d else back_to buffer d

-- `while ((src < end) && ...) src++`, with the distance to the end
unfoldable pub skip_slashes : Bool → Bytes → ℕ → ℕ → ℕ
skip_slashes win buffer zero p = p
skip_slashes win buffer (suc n) p =
    let rest = skip_slashes win buffer n (p + 1) in
    if is_separator win (at buffer (p + 1)) then rest else p

-- `if (*p == '\\') { *p = '/'; changed = true; }`
unfoldable pub convert_at : ℕ → PathState → PathState
convert_at p s =
    if at s.buffer p == b'\\'
    then record s { buffer = set s.buffer p b'/'; path_changed = true }
    else s

module _ (win relative : Bool) (end : ℕ) where
  unfoldable pub convert_backslashes : PathState → PathState
  unfolding convert_at
  convert_backslashes s =
      if win
      then (let t = convert_at s.src s in if ltb t.src end then convert_at (t.src + 1) t else t)
      else s

  -- `*(dst++) = *(src++)`
  unfoldable pub copy_byte : PathState → PathState
  copy_byte s = record s {
    buffer = set s.buffer s.dst (at s.buffer s.src);
    dst = s.dst + 1;
    src = s.src + 1;
  }

  -- the label `copy`
  unfoldable pub copy : PathState → PathState
  unfolding copy_byte skip_slashes
  copy s =
      if at s.buffer s.src == b'/'
      then (let p = skip_slashes win s.buffer (end - s.src) s.src in
          let t = record s { src = p; path_changed = s.path_changed || not (s.src == p) } in
          if relative && t.dst == 0 then record t { src = p + 1 } else copy_byte t)
      else copy_byte s

  -- behind a reference that is taken out: on to the slash, if the end is not reached
  unfoldable pub drop_reference : PathState → PathState
  unfolding copy
  drop_reference s =
      if s.is_done then s else copy (record s { src = s.src + 1; path_changed = true })

  unfoldable pub back_reference : PathState → PathState
  unfolding copy back_to drop_reference
  back_reference s =
      if relative && (s.hitroot || leb s.dst 2)
      then copy (record s { hitroot = true })
      else (let d = back_to s.buffer (s.dst - 3) in
          drop_reference (
            if d == 0
            then record s { hitroot = true; dst = if not relative && s.src == end then 1 else 0 }
            else record s { dst = d }))

  unfoldable pub dot_segment : PathState → PathState
  unfolding copy back_reference drop_reference
  dot_segment s =
      if ltb 0 s.dst && at s.buffer (s.dst - 1) == b'.'
      then back_reference s
      else (if s.dst == 0
          then drop_reference (record s { path_changed = true })
          else (if at s.buffer (s.dst - 1) == b'/'
              then drop_reference
                  (record s { path_changed = true; dst = if s.is_done then s.dst else s.dst - 1 })
              else copy s))

  unfoldable pub normalize_segment : PathState → PathState
  normalize_segment s =
      if not (s.src == end) && at s.buffer s.src == b'/'
      then copy (record s { path_changed = true })
      else (if at s.buffer s.src == b'.'
          then dot_segment s
          else copy (if ltb 0 s.dst then record s { hitroot = false } else s))

  unfoldable pub converted_round : PathState → PathState
  converted_round s =
      if s.src == end
      then normalize_segment (record s { is_done = true })
      else (if at s.buffer (s.src + 1) == b'/' then normalize_segment s else copy s)

  -- the body of the loop
  unfoldable pub path_round : PathState → PathState
  path_round s = converted_round (convert_backslashes s)

  -- its condition
  abbrev pub goes_on : PathState → Bool
  goes_on s = not s.is_done && (leb s.src end && leb s.dst end)

  unfoldable pub path_rounds : ℕ → PathState → PathState
  path_rounds zero s = s
  path_rounds (suc n) s = let rest = path_rounds n (path_round s) in if goes_on s then rest else s

abbrev pub start_path : Bytes → PathState
start_path v = record {
  buffer = v;
  src = 0;
  dst = 0;
  hitroot = false;
  is_done = false;
  path_changed = false;
}

-- The loop on a value that is not empty, for as many rounds as it has bytes.
unfoldable pub path_loop : ℕ → Bytes → Bool → PathState
path_loop c cs win =
    path_rounds win (not (is_separator win c)) (length cs) (length (c ∷ cs)) (start_path (c ∷ cs))

-- what is left of the buffer: no trailing slash where the value has none
unfoldable pub finish_path : Bool → PathState → Bytes × Bool
finish_path trailing s = (
  take
      (if not trailing && (ltb 0 s.dst && at s.buffer (s.dst - 1) == b'/')
        then s.dst - 1
        else s.dst)
      s.buffer,
  s.path_changed,
)

unfoldable pub normalize_path_inplace : Bytes → Bool → Bytes × Bool
unfolding path_loop path_rounds finish_path path_round convert_backslashes converted_round
    normalize_segment dot_segment copy
normalize_path_inplace [] win = ([], false)
normalize_path_inplace (c ∷ cs) win =
    finish_path (is_separator win (at (c ∷ cs) (length cs))) (path_loop c cs win)
