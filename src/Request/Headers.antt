-- ===== src/Request/Headers.antt =====
-- addRequestHeader and addResponseHeader, of src/transaction.cc, with the cookies.
pub mod CookiePairs
use mod_security.Engine.State.{Transaction}
use mod_security.Prelude.{List, [], if◌then◌else◌, length, map, not, ℕ, ◌+◌, ◌-◌, ◌∷◌}
use mod_security.Prelude.Bytes.{Bytes, str_eq}
use mod_security.Prelude.Text.{codes}
use mod_security.Request.Anchored.{AnchoredSet, is_empty, set_entry, set_value}
use mod_security.Request.State.{
  HeaderVariables, Request, RequestBodyType, multi_part_request_body, with_response,
  www_form_url_encoded,
}
use mod_security.Utils.Ctype.{isspace, tolower}
use mod_security.Utils.Number.{skip_space}
use mod_security.Utils.Replace.{starts_with}
use mod_security.Utils.Split.{after, before, split, ssplit}

-- White space is taken off the end of the last cookie.
unfoldable pub trim_end : Bytes → Bytes
unfolding isspace
trim_end [] = []
trim_end (c ∷ cs) = elim (trim_end cs) [
  | [] ↦ if isspace c then [] else c ∷ []
  | d ∷ ds ↦ c ∷ d ∷ ds
]

unfoldable pub trim_last_cookie : List Bytes → List Bytes
unfolding trim_end
trim_last_cookie [] = []
trim_last_cookie (c ∷ []) = trim_end c ∷ []
trim_last_cookie (c ∷ d ∷ rest) = c ∷ trim_last_cookie (d ∷ rest)

-- REQUEST_COOKIES_NAMES, REQUEST_COOKIES and localOffset.
pub record Cookies : Type 0 where
  pub cookies_names : AnchoredSet
  pub cookies : AnchoredSet
  pub local_offset : ℕ

-- One round of the loop.
unfoldable pub add_cookie : Bytes → Cookies → Cookies
unfolding set_entry is_empty
add_cookie c s =
    let ckey = skip_space (before b'=' c) in
    let cval = after b'=' c in
    let blanks = length (before b'=' c) - length ckey in
    let offset = s.local_offset + blanks in
    let key_end = offset + length ckey + 1 in
    if is_empty c
    then record s { local_offset = s.local_offset + 1 }
    else if is_empty ckey
    then record s { local_offset = offset + length c + 1 }
    else record {
      cookies_names = set_entry ckey ckey offset s.cookies_names;
      cookies = set_entry ckey cval key_end s.cookies;
      local_offset = key_end + length cval + 1;
    }

unfoldable pub add_cookies : List Bytes → Cookies → Cookies
add_cookies [] s = s
add_cookies (c ∷ rest) s = add_cookies rest (add_cookie c s)

unfoldable pub parse_cookies : Bytes → Cookies → Cookies
parse_cookies value s = add_cookies (trim_last_cookie (ssplit value b';')) s

-- `[0]` of a vector that is not empty
unfoldable pub front : List Bytes → Bytes
front [] = []
front (c ∷ cs) = c

-- What a header named `keyl`, with its value at `offset`, sets beside the headers.
unfoldable pub set_named_header : Bytes → Bytes → ℕ → HeaderVariables → HeaderVariables
unfolding str_eq split front set_value parse_cookies tolower starts_with
set_named_header keyl value offset h =
    let l = map tolower value in
    let parsed = parse_cookies value (record {
      cookies_names = h.request_cookies_names;
      cookies = h.request_cookies;
      local_offset = offset;
    }) in
    if str_eq keyl (codes "authorization")
    then record h { auth_type = set_value (front (split value b' ')) offset h.auth_type }
    else if str_eq keyl (codes "cookie")
    then record h { request_cookies_names = parsed.cookies_names; request_cookies = parsed.cookies }
    else if str_eq keyl (codes "content-type")
    then (if starts_with (codes "multipart/form-data") l
        then record h {
          reqbody_processor = set_value (codes "MULTIPART") offset h.reqbody_processor;
        }
        else if starts_with (codes "application/x-www-form-urlencoded") l
        then record h {
          reqbody_processor = set_value (codes "URLENCODED") offset h.reqbody_processor;
        }
        else h)
    else if str_eq keyl (codes "host")
    then record h { server_name = set_value (front (split value b':')) offset h.server_name }
    else h

-- The type of the body that a Content-Type names.
unfoldable pub body_type_of : Bytes → Bytes → RequestBodyType → RequestBodyType
unfolding str_eq tolower starts_with
body_type_of keyl value type =
    let l = map tolower value in
    if not (str_eq keyl (codes "content-type"))
    then type
    else if starts_with (codes "multipart/form-data") l
    then multi_part_request_body
    else if starts_with (codes "application/x-www-form-urlencoded") l
    then www_form_url_encoded
    else type

module _ {C : Type 0} where
  unfoldable pub add_request_header :
      Bytes → Bytes → Transaction (Request C) → Transaction (Request C)
  unfolding set_named_header body_type_of set_entry tolower
  add_request_header key value t =
      let r = t.store in
      let keyl = map tolower key in
      let offset = r.variable_offset + length key + 2 in
      let h = record (r.headers) {
        request_headers_names = set_entry key key r.variable_offset r.headers.request_headers_names;
        request_headers = set_entry key value offset r.headers.request_headers;
      } in
      record t {
        store = record r {
          headers = set_named_header keyl value offset h;
          request_body_type = body_type_of keyl value r.request_body_type;
          variable_offset = offset + length value + 1;
        };
      }

  unfoldable pub add_response_header :
      Bytes → Bytes → Transaction (Request C) → Transaction (Request C)
  unfolding set_entry tolower str_eq split front set_value
  add_response_header key value t =
      let r = t.store.response in
      let offset = t.store.variable_offset in
      let r' = record r {
        response_headers_names = set_entry key key offset r.response_headers_names;
        response_headers = set_entry key value offset r.response_headers;
      } in
      let content_type = set_value (front (split value b';')) 0 r.response_content_type in
      if str_eq (map tolower key) (codes "content-type")
      then with_response (record r' { response_content_type = content_type }) t
      else with_response r' t
