-- ===== src/Request/Headers/CookiePairs.antt =====
-- A Cookie header that a client wrote from pairs of names and values.
use mod_security.Prelude.{
  List, [], ap, append-nil, append_assoc, arith, false, length, length-append, refl, sym, ℕ, ◌++◌,
  ◌+◌, ◌∙◌, ◌∷◌, ◌≡◌,
}
use mod_security.Prelude.Bytes.{All, Bytes}
use mod_security.Request.Anchored.{AnchoredSet, SetEntry, is_empty}
use mod_security.Request.Headers.{
  Cookies, add_cookie, add_cookies, parse_cookies, trim_end, trim_last_cookie,
}
use mod_security.Utils.Number.{skip_space}
use mod_security.Utils.Split.{contains_byte, ssplit, ssplit_from}
use mod_security.Utils.Split.Fields.{
  after-field, before-field, contains_byte-append, ssplit_from-field, ssplit_from-last,
}

abbrev pub cookie_of : Bytes × Bytes → Bytes
cookie_of (k, v) = k ++ b'=' ∷ v

-- The pairs behind the first one, each with its separator.
abbrev pub more_cookies : List (Bytes × Bytes) → Bytes
more_cookies [] = []
more_cookies (p ∷ rest) = b';' ∷ b' ' ∷ (cookie_of p ++ more_cookies rest)

abbrev pub cookie_header : List (Bytes × Bytes) → Bytes
cookie_header [] = []
cookie_header (p ∷ rest) = cookie_of p ++ more_cookies rest

abbrev pub entry : Bytes → Bytes → ℕ → SetEntry
entry key value offset = record {
  entry_key = key;
  entry_value = value;
  entry_origin = record { origin_length = length value; offset = offset };
}

-- The members for the pairs, where the first name stands at the offset: a value stands behind its
-- name and the equals sign, and the next name behind the value, the semicolon and the blank.
abbrev pub cookie_entries : ℕ → List (Bytes × Bytes) → AnchoredSet
cookie_entries offset [] = []
cookie_entries offset ((k, v) ∷ rest) =
    entry k v (offset + length k + 1) ∷ cookie_entries (offset + length k + 1 + length v + 2) rest

abbrev pub name_entries : ℕ → List (Bytes × Bytes) → AnchoredSet
name_entries offset [] = []
name_entries offset ((k, v) ∷ rest) =
    entry k k offset ∷ name_entries (offset + length k + 1 + length v + 2) rest

-- A name that is not empty, does not begin with white space and has no equals sign or semicolon, and
-- a value with no semicolon.
abbrev pub IsCookie : Bytes × Bytes → Type 0
IsCookie (k, v) =
    (is_empty k ≡ false)
    × (skip_space k ≡ k)
    × (contains_byte b'=' k ≡ false)
    × (contains_byte b';' k ≡ false)
    × (contains_byte b';' v ≡ false)

-- The last value does not end with white space.
abbrev pub EndsTrimmed : List (Bytes × Bytes) → Type 0
EndsTrimmed [] = Unit
EndsTrimmed ((k, v) ∷ []) = trim_end v ≡ v
EndsTrimmed (p ∷ q ∷ rest) = EndsTrimmed (q ∷ rest)

abbrev blank_cookies : List (Bytes × Bytes) → List Bytes
blank_cookies [] = []
blank_cookies (p ∷ rest) = (b' ' ∷ cookie_of p) ∷ blank_cookies rest

cookie_of-semicolon : (p : Bytes × Bytes) → IsCookie p → contains_byte b';' (cookie_of p) ≡ false
cookie_of-semicolon (k, v) h =
    let e = contains_byte-append b';' k (b'=' ∷ v) in unfold contains_byte in ground arith

-- The fields of the header; `tok` is what was read of the current one.
ssplit_from-more :
    (tok : Bytes) (p : Bytes × Bytes) (rest : List (Bytes × Bytes))
    → IsCookie p
    → All IsCookie rest
    → ssplit_from b';' tok (cookie_of p ++ more_cookies rest)
      ≡ (tok ++ cookie_of p) ∷ blank_cookies rest
unfolding ssplit_from
ssplit_from-more tok p [] h hs = rw append-nil (
    ssplit_from-last b';' tok (cookie_of p) (cookie_of-semicolon p h)
      (omega (arith, length-append p.0 (b'=' ∷ p.1))))
ssplit_from-more tok p (q ∷ rest) h hs =
    let next = ssplit_from-more (b' ' ∷ []) q rest hs.0 hs.1 in
    let one =
      ssplit_from-field b';' tok (cookie_of p) (b' ' ∷ (cookie_of q ++ more_cookies rest))
        (cookie_of-semicolon p h) in
    one ∙ ap (λ l. (tok ++ cookie_of p) ∷ l) next

trim_end-cons :
    (c : ℕ) (s : Bytes) {d : ℕ} {ds : Bytes} → trim_end s ≡ d ∷ ds → trim_end (c ∷ s) ≡ c ∷ d ∷ ds
unfolding trim_end
trim_end-cons c s h = rw h refl

-- A text that ends in a trimmed one, not empty, is trimmed.
trim_end-append :
    (a : Bytes) (d : ℕ) (ds : Bytes)
    → trim_end (d ∷ ds) ≡ d ∷ ds
    → trim_end (a ++ d ∷ ds) ≡ a ++ d ∷ ds
trim_end-append [] d ds h = h
trim_end-append (x ∷ []) d ds h = trim_end-cons x (d ∷ ds) h
trim_end-append (x ∷ y ∷ a) d ds h =
    trim_end-cons x (y ∷ (a ++ d ∷ ds)) (trim_end-append (y ∷ a) d ds h)

trim_end-equals : (v : Bytes) → trim_end v ≡ v → trim_end (b'=' ∷ v) ≡ b'=' ∷ v
trim_end-equals [] h = unfold trim_end in refl
trim_end-equals (x ∷ v) h = trim_end-cons b'=' (x ∷ v) h

trim_last_cookie-pieces :
    (c : Bytes) (p : Bytes × Bytes) (rest : List (Bytes × Bytes))
    → EndsTrimmed (p ∷ rest)
    → trim_last_cookie ((c ++ cookie_of p) ∷ blank_cookies rest)
      ≡ (c ++ cookie_of p) ∷ blank_cookies rest
unfolding trim_last_cookie
trim_last_cookie-pieces c (k, v) [] h =
    ap (λ l. l ∷ [])
      (ap trim_end (sym (append_assoc c k (b'=' ∷ v)))
        ∙ trim_end-append (c ++ k) b'=' v (trim_end-equals v h)
        ∙ append_assoc c k (b'=' ∷ v))
trim_last_cookie-pieces c p (q ∷ rest) h =
    ap (λ l. (c ++ cookie_of p) ∷ l) (trim_last_cookie-pieces (b' ' ∷ []) q rest h)

abbrev pair_added : Bytes × Bytes → ℕ → Cookies → Cookies
pair_added (k, v) offset s = record {
  cookies_names = s.cookies_names ++ entry k k offset ∷ [];
  cookies = s.cookies ++ entry k v (offset + length k + 1) ∷ [];
  local_offset = offset + length k + 1 + length v + 1;
}

add_cookie-pair :
    (k v : Bytes) (s : Cookies)
    → IsCookie (k, v)
    → add_cookie (cookie_of (k, v)) s ≡ pair_added (k, v) s.local_offset s
unfolding add_cookie
add_cookie-pair [] v s h = absurd (ground (arith, h.0))
add_cookie-pair (x ∷ k) v s h =
    rw (before-field b'=' (x ∷ k) v h.2, after-field b'=' (x ∷ k) v h.2, h.1) (ground arith)

add_cookie-blank :
    (k v : Bytes) (s : Cookies)
    → IsCookie (k, v)
    → add_cookie (b' ' ∷ cookie_of (k, v)) s ≡ pair_added (k, v) (s.local_offset + 1) s
unfolding add_cookie
add_cookie-blank k v s h =
    let e : contains_byte b'=' (b' ' ∷ k) ≡ false = unfold contains_byte in ground (arith, h.2) in
    let d : skip_space (b' ' ∷ k) ≡ k = unfold skip_space in h.1 in
    rw (before-field b'=' (b' ' ∷ k) v e, after-field b'=' (b' ' ∷ k) v e, d, h.0) (ground arith)

-- The state behind pairs of which the first name stands at the offset.
abbrev pairs_added : List (Bytes × Bytes) → ℕ → Cookies → Cookies
pairs_added [] offset s = s
pairs_added ((k, v) ∷ rest) offset s =
    pairs_added rest (offset + length k + 1 + length v + 2) (pair_added (k, v) offset s)

add_cookies-blank :
    (l : List (Bytes × Bytes)) (s : Cookies) (offset : ℕ)
    → All IsCookie l
    → s.local_offset + 1 ≡ offset
    → add_cookies (blank_cookies l) s ≡ pairs_added l offset s
unfolding add_cookies
add_cookies-blank [] s offset h e = refl
add_cookies-blank ((k, v) ∷ rest) s offset h e =
    let ih =
      add_cookies-blank rest (pair_added (k, v) offset s) (offset + length k + 1 + length v + 2) h.1
        (omega arith) in
    ap (add_cookies (blank_cookies rest))
      (add_cookie-blank k v s h.0 ∙ ap (λ o. pair_added (k, v) o s) e)
    ∙ ih

-- What the pairs add to the two sets.
added_sets :
    (l : List (Bytes × Bytes)) (offset : ℕ) (s : Cookies)
    → ((pairs_added l offset s).cookies ≡ s.cookies ++ cookie_entries offset l)
      × ((pairs_added l offset s).cookies_names ≡ s.cookies_names ++ name_entries offset l)
added_sets [] offset s = (sym (append-nil s.cookies), sym (append-nil s.cookies_names))
added_sets ((k, v) ∷ rest) offset s =
    let ih = added_sets rest (offset + length k + 1 + length v + 2) (pair_added (k, v) offset s) in
    (ih.0 ∙ append_assoc s.cookies _ _, ih.1 ∙ append_assoc s.cookies_names _ _)

add_cookies-pieces :
    (p : Bytes × Bytes) (rest : List (Bytes × Bytes)) (s : Cookies)
    → IsCookie p
    → All IsCookie rest
    → add_cookies (cookie_of p ∷ blank_cookies rest) s ≡ pairs_added (p ∷ rest) s.local_offset s
unfolding add_cookies
add_cookies-pieces (k, v) rest s h hs =
    ap (add_cookies (blank_cookies rest)) (add_cookie-pair k v s h)
    ∙ add_cookies-blank rest (pair_added (k, v) s.local_offset s) _ hs (omega arith)

-- From the Cookie header of pairs of names and values, REQUEST_COOKIES has the pairs in their order,
-- the values where they stand in the header, and REQUEST_COOKIES_NAMES the names where they stand;
-- for names that are not empty, begin with no white space and have no equals sign or semicolon,
-- values with no semicolon, and a last value that does not end with white space.
pub parse_cookies-cookie_header :
    (l : List (Bytes × Bytes)) (s : Cookies)
    → All IsCookie l
    → EndsTrimmed l
    → let s' = parse_cookies (cookie_header l) s in
      (s'.cookies ≡ s.cookies ++ cookie_entries s.local_offset l)
      × (s'.cookies_names ≡ s.cookies_names ++ name_entries s.local_offset l)
unfolding parse_cookies
parse_cookies-cookie_header [] s h t =
    unfold ssplit trim_last_cookie add_cookies in added_sets [] s.local_offset s
parse_cookies-cookie_header (p ∷ rest) s h t =
    let fields : ssplit (cookie_header (p ∷ rest)) b';' ≡ cookie_of p ∷ blank_cookies rest =
      unfold ssplit in ssplit_from-more [] p rest h.0 h.1 in
    rw (fields, trim_last_cookie-pieces [] p rest t, add_cookies-pieces p rest s h.0 h.1)
      (added_sets (p ∷ rest) s.local_offset s)
