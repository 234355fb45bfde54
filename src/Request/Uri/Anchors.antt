-- ===== src/Request/Uri/Anchors.antt =====
-- Where the variables of the request line stand in REQUEST_LINE.
use mod_security.Prelude.{
  [], ap, append-nil, append_assoc, arith, drop, drop-append_length, if◌then◌else◌, length,
  length-append, refl, sym, take, take-append_length, true, ℕ, ◌++◌, ◌+◌, ◌==◌, ◌∙◌, ◌∷◌, ◌≡◌,
}
use mod_security.Prelude.Bytes.{Bytes}
use mod_security.Prelude.Text.{codes}
use mod_security.Request.Anchored.{AnchoredVariable}
use mod_security.Request.State.{UriVariables}
use mod_security.Request.Uri.{set_target, without_fragment}
use mod_security.Transformation.Url.{uri_decode}
use mod_security.Utils.Split.{after, before, contains_byte}

-- The `len` bytes of `s` from `offset` on.
abbrev pub slice : ℕ → ℕ → Bytes → Bytes
slice offset len s = take len (drop offset s)

stands_at : (a b c s : Bytes) (n : ℕ) → n ≡ length a → s ≡ a ++ (b ++ c) → slice n (length b) s ≡ b
stands_at a b c s n e d =
    rw (d, drop-append_length a (b ++ c) n (sym e)) (take-append_length b c (length b) refl)

-- What `before` leaves out.
rest_of : ℕ → Bytes → Bytes
rest_of d [] = []
rest_of d (c ∷ cs) = if c == d then c ∷ cs else rest_of d cs

before-rest_of : (d : ℕ) (s : Bytes) → s ≡ before d s ++ rest_of d s
unfolding before rest_of
before-rest_of d [] = refl
before-rest_of d (c ∷ cs) = ground (arith, before-rest_of d cs)

rest_of-after : (d : ℕ) (s : Bytes) → contains_byte d s ≡ true → rest_of d s ≡ d ∷ after d s
unfolding rest_of after contains_byte
rest_of-after d [] h = ground arith
rest_of-after d (c ∷ cs) h = ground (arith, rest_of-after d cs)

regroup :
    (m p q r t : Bytes)
    → (m ++ b' ' ∷ (p ++ (q ++ r))) ++ t ≡ (m ++ b' ' ∷ []) ++ (p ++ (q ++ (r ++ t)))
regroup m p q r t = simp append_assoc

regroup_query :
    (m p q r : Bytes)
    → (m ++ b' ' ∷ []) ++ (p ++ b'?' ∷ (q ++ r)) ≡ (m ++ b' ' ∷ (p ++ b'?' ∷ [])) ++ (q ++ r)
regroup_query m p q r = simp append_assoc

length-space : (m : Bytes) → length (m ++ b' ' ∷ []) ≡ length m + 1
length-space m = omega (arith, length-append m (b' ' ∷ []))

length-path : (m p : Bytes) → length (m ++ b' ' ∷ (p ++ b'?' ∷ [])) ≡ length p + 1 + length m + 1
length-path m p =
    let e = length-append m (b' ' ∷ (p ++ b'?' ∷ [])) in
    let d = length-append p (b'?' ∷ []) in omega (arith, e, d)

-- The path as it came, with no query and no fragment.
abbrev pub raw_path : Bytes → Bytes
raw_path uri = before b'?' (without_fragment uri)

module _ (uri method http_version : Bytes) where
  line : Bytes
  line = (method ++ b' ' ∷ uri) ++ (codes " HTTP/" ++ http_version)

  abbrev behind : Bytes
  behind = rest_of b'#' uri ++ (codes " HTTP/" ++ http_version)

  line-path :
      line
      ≡ (method ++ b' ' ∷ []) ++ (raw_path uri ++ (rest_of b'?' (without_fragment uri) ++ behind))
  unfolding line
  line-path =
      let q = rest_of b'?' (without_fragment uri) in
      let r = rest_of b'#' uri in
      let whole : uri ≡ raw_path uri ++ (q ++ r) =
        before-rest_of b'#' uri
        ∙ ap (λ l. l ++ r) (before-rest_of b'?' (without_fragment uri))
        ∙ append_assoc (raw_path uri) q r in
      ap (λ u. (method ++ b' ' ∷ u) ++ (codes " HTTP/" ++ http_version)) whole
      ∙ regroup method (raw_path uri) q r (codes " HTTP/" ++ http_version)

  line-query :
      contains_byte b'?' (without_fragment uri) ≡ true
      → line
        ≡ (method ++ b' ' ∷ (raw_path uri ++ b'?' ∷ []))
          ++ (after b'?' (without_fragment uri) ++ behind)
  line-query h =
      let q = after b'?' (without_fragment uri) in
      line-path
      ∙ ap (λ l. (method ++ b' ' ∷ []) ++ (raw_path uri ++ (l ++ behind)))
          (rest_of-after b'?' (without_fragment uri) h)
      ∙ regroup_query method (raw_path uri) q behind

  module _ (v : UriVariables) where
    -- On the first call for a request, each of REQUEST_METHOD, REQUEST_PROTOCOL, REQUEST_URI_RAW and,
    -- with a query, QUERY_STRING is what stands in REQUEST_LINE at its offset; and PATH_INFO and
    -- REQUEST_FILENAME are the decoding of what stands there at theirs, up to the question mark or the
    -- fragment.
    pub set_target_anchors :
        let t = set_target uri method http_version 0 v in
        let s = t.request_line.anchored_value in
        let at = λ (w : AnchoredVariable). slice w.anchored_offset (length w.anchored_value) s in
        (at t.request_method ≡ t.request_method.anchored_value)
        × (at t.request_protocol ≡ t.request_protocol.anchored_value)
        × (at t.request_uri_raw ≡ uri)
        × (contains_byte b'?' (without_fragment uri) ≡ true
            → at t.query_string ≡ t.query_string.anchored_value)
        × (uri_decode (slice t.path_info.anchored_offset (length (raw_path uri)) s)
            ≡ t.path_info.anchored_value)
        × (uri_decode (slice t.request_filename.anchored_offset (length (raw_path uri)) s)
            ≡ t.request_filename.anchored_value)
    unfolding set_target line
    set_target_anchors =
        let tail = codes " HTTP/" ++ http_version in
        let path =
          stands_at (method ++ b' ' ∷ []) (raw_path uri)
            (rest_of b'?' (without_fragment uri) ++ behind) line (0 + length method + 1)
            (omega (arith, length-space method)) line-path in
        (
          stands_at [] method (b' ' ∷ (uri ++ tail)) line 0 refl
              (append_assoc method (b' ' ∷ uri) tail),
          stands_at ((method ++ b' ' ∷ uri) ++ b' ' ∷ []) (codes "HTTP/" ++ http_version) [] line
              (0 + length (method ++ b' ' ∷ uri) + 1)
              (omega (arith, length-space (method ++ b' ' ∷ uri)))
              (simp (append_assoc, append-nil)),
          stands_at (method ++ b' ' ∷ []) uri tail line (length method + 1)
              (omega (arith, length-space method)) (simp append_assoc),
          λ h. rw h (
              stands_at (method ++ b' ' ∷ (raw_path uri ++ b'?' ∷ []))
                (after b'?' (without_fragment uri)) behind line
                (length (raw_path uri) + 1 + length method + 1)
                (omega (arith, length-path method (raw_path uri))) (line-query h)),
          ap uri_decode path,
          ap uri_decode path,
        )
