-- ===== src/Request/Tests/Texts.antt =====
-- The request line, the cookies and the parts of the audit log of small transactions.
use mod_security.Prelude.{List, [], length, refl, true, ◌++◌, ◌∷◌, ◌≡◌}
use mod_security.Prelude.Bytes.{Bytes}
use mod_security.Prelude.Text.{codes}
use mod_security.Request.Anchored.{AnchoredVariable, is_empty}
use mod_security.Request.Headers.{Cookies, parse_cookies, trim_end}
use mod_security.Request.Headers.CookiePairs.{
  cookie_entries, cookie_header, name_entries, parse_cookies-cookie_header,
}
use mod_security.Request.Tests.Samples.{no_target}
use mod_security.Request.Uri.{parsed_uri, set_target, without_fragment}
use mod_security.Request.Uri.Anchors.{raw_path, set_target_anchors, slice}
use mod_security.Transformation.Url.{uri_decode}
use mod_security.Utils.Number.{skip_space}
use mod_security.Utils.Split.{contains_byte}

-- GET /a/b?c=%27#d
abbrev uri : Bytes
uri = codes "/a/b?c=%27#d"

set_target_anchors_example :
    let t = set_target uri (codes "GET") (codes "1.1") 0 no_target in
    let s = t.request_line.anchored_value in
    let at = λ (w : AnchoredVariable). slice w.anchored_offset (length w.anchored_value) s in
    (at t.request_method ≡ t.request_method.anchored_value)
    × (at t.request_protocol ≡ t.request_protocol.anchored_value)
    × (at t.request_uri_raw ≡ uri)
    × (contains_byte b'?' (without_fragment uri) ≡ true
        → at t.query_string ≡ t.query_string.anchored_value)
    × (uri_decode (slice t.path_info.anchored_offset (length (raw_path uri)) s)
        ≡ t.path_info.anchored_value)
    × (uri_decode (slice t.request_filename.anchored_offset (length (raw_path uri)) s)
        ≡ t.request_filename.anchored_value)
set_target_anchors_example = set_target_anchors uri (codes "GET") (codes "1.1") no_target

query_and_path :
    let t = set_target uri (codes "GET") (codes "1.1") 0 no_target in
    (t.query_string.anchored_value ≡ codes "c=%27")
    × (t.path_info.anchored_value ≡ codes "/a/b")
    × (t.request_basename.anchored_value ≡ codes "b")
unfolding set_target
query_and_path = (refl, refl, refl)

without_host :
    (parsed_uri (codes "http://h:80/x?y") ≡ codes "/x?y")
    × (parsed_uri (codes "x/y") ≡ codes "x/y")
    × (parsed_uri (codes "http://h") ≡ codes "http://h")
unfolding parsed_uri
without_host = (refl, refl, refl)

abbrev two_cookies : List (Bytes × Bytes)
two_cookies = (codes "a", codes "1=2") ∷ (codes "b", []) ∷ []

abbrev no_cookies : Cookies
no_cookies = record { cookies_names = []; cookies = []; local_offset = 8 }

parse_cookies-cookie_header_example :
    let s' = parse_cookies (cookie_header two_cookies) no_cookies in
    (s'.cookies ≡ [] ++ cookie_entries 8 two_cookies)
    × (s'.cookies_names ≡ [] ++ name_entries 8 two_cookies)
unfolding is_empty skip_space contains_byte trim_end
parse_cookies-cookie_header_example =
    parse_cookies-cookie_header two_cookies no_cookies
      ((refl, refl, refl, refl, refl), ((refl, refl, refl, refl, refl), tt)) refl
