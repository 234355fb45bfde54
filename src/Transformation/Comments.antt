-- ===== src/Transformation/Comments.antt =====
-- removeComments, replaceComments and removeCommentsChar.
pub mod Removed
use mod_security.Prelude.{Bool, [], false, if◌then◌else◌, true, ℕ, ◌&&◌, ◌++◌, ◌==◌, ◌∷◌}
use mod_security.Prelude.Bytes.{Bytes}
use mod_security.Transformation.Scan.{Step, next_is, put, scan}

-- Before a comment, inside one, and behind `--` or `#`, where the loop of removeComments is left.
pub data CommentState : Type 0 where
  outside : CommentState
  in_comment : CommentState
  left_loop : CommentState

unfoldable pub remove_comments_step : CommentState → ℕ → Bytes → Step CommentState
remove_comments_step outside x rest =
    if x == b'/' && next_is rest 0 b'*'
    then put [] 1 true in_comment
    else if x == b'<' && next_is rest 0 b'!' && next_is rest 1 b'-' && next_is rest 2 b'-'
    then put [] 3 true in_comment
    else if x == b'-' && next_is rest 0 b'-'
    then put [] 0 true left_loop
    else if x == b'#'
    then put [] 0 true left_loop
    else put (x ∷ []) 0 false outside
remove_comments_step in_comment x rest =
    if x == b'*' && next_is rest 0 b'/'
    then put [] 1 true outside
    else if x == b'-' && next_is rest 0 b'-' && next_is rest 1 b'>'
    then put [] 2 true outside
    else put [] 0 true in_comment
remove_comments_step left_loop x rest = put [] 0 true left_loop

-- A comment that the string ends in leaves a blank.
abbrev pub end_comment : CommentState → Bytes → Bytes
end_comment in_comment v = v ++ b' ' ∷ []
end_comment _ v = v

unfoldable pub remove_comments : Bytes → Bytes × Bool
unfolding scan remove_comments_step
remove_comments value =
    let r = scan remove_comments_step outside 0 value in (end_comment r.final r.value, r.changed)

unfoldable pub replace_comments_step : Bool → ℕ → Bytes → Step Bool
replace_comments_step false x rest =
    if x == b'/' && next_is rest 0 b'*' then put [] 1 true true else put (x ∷ []) 0 false false
replace_comments_step true x rest =
    if x == b'*' && next_is rest 0 b'/' then put (b' ' ∷ []) 1 true false else put [] 0 true true

unfoldable pub replace_comments : Bytes → Bytes × Bool
unfolding scan replace_comments_step
replace_comments value =
    let r = scan replace_comments_step false 0 value in
    (if r.final then r.value ++ b' ' ∷ [] else r.value, r.changed)

-- `changed` is `d != s`: something was dropped.
unfoldable pub remove_comments_char_step : Unit {0} → ℕ → Bytes → Step (Unit {0})
remove_comments_char_step s x rest =
    if x == b'/' && next_is rest 0 b'*'
    then put [] 1 true s
    else if x == b'*' && next_is rest 0 b'/'
    then put [] 1 true s
    else if x == b'<' && next_is rest 0 b'!' && next_is rest 1 b'-' && next_is rest 2 b'-'
    then put [] 3 true s
    else if x == b'-' && next_is rest 0 b'-' && next_is rest 1 b'>'
    then put [] 2 true s
    else if x == b'-' && next_is rest 0 b'-'
    then put [] 1 true s
    else if x == b'#'
    then put [] 0 true s
    else put (x ∷ []) 0 false s

unfoldable pub remove_comments_char : Bytes → Bytes × Bool
unfolding scan remove_comments_char_step
remove_comments_char value =
    let r = scan remove_comments_char_step tt 0 value in (r.value, r.changed)
