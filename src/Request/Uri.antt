-- ===== src/Request/Uri.antt =====
-- processURI, of src/transaction.cc.
pub mod Anchors
use mod_security.Engine.State.{Transaction}
use mod_security.Prelude.{
  [], drop, if◌then◌else◌, length, ltb, none, not, some, ℕ, ◌%◌, ◌&&◌, ◌++◌, ◌+◌, ◌==◌, ◌||◌, ◌∷◌,
}
use mod_security.Prelude.Bytes.{Bytes}
use mod_security.Prelude.Text.{codes}
use mod_security.Request.Anchored.{AnchoredVariable, is_empty, set_anchored, set_value}
use mod_security.Request.Arguments.{extract_arguments}
use mod_security.Request.State.{Request, Settings, UriVariables}
use mod_security.Transformation.Url.{uri_decode}
use mod_security.Utils.Find.{find_last_slash, find_pos, npos, size_mod}
use mod_security.Utils.Split.{after, before, contains_byte}

-- REQUEST_URI: of a URI that does not begin with a slash, what stands behind its scheme and host, if
-- it has them and a path. The sums wrap around, as npos + 1 and npos + 2 do.
unfoldable pub parsed_uri : Bytes → Bytes
unfolding find_pos
parsed_uri [] = []
parsed_uri (c ∷ cs) =
    let u = c ∷ cs in
    let scheme = (find_pos u (codes ":") 0 + 1) % size_mod in
    let netloc = (find_pos u (codes "//") scheme + 2) % size_mod in
    let path = find_pos u (codes "/") netloc in
    let full_domain = not (scheme == npos) in
    let followed = not (netloc == npos || not (netloc == scheme + 2)) in
    if c == b'/'
    then u
    else if not (scheme == npos)
        && full_domain
        && not (netloc == npos)
        && followed
        && not (path == npos)
    then drop path u
    else u

-- A fragment is kept in REQUEST_URI_RAW and REQUEST_LINE only.
abbrev pub without_fragment : Bytes → Bytes
without_fragment uri = before b'#' uri

-- REQUEST_BASENAME: what stands behind the last slash of the decoded path.
unfoldable pub set_basename : Bytes → Bytes → ℕ → AnchoredVariable → AnchoredVariable
unfolding find_last_slash set_value
set_basename path_info method variable_offset v = elim (find_last_slash path_info) [
  | none ↦ v
  | some offset ↦
      if ltb (offset + 1) (length path_info)
      then set_value (drop (offset + 1) path_info)
          (variable_offset + length method + 1 + offset + 1) v
      else v
]

-- The variables of the request line.
unfoldable pub set_target : Bytes → Bytes → Bytes → ℕ → UriVariables → UriVariables
unfolding parsed_uri set_basename before after contains_byte uri_decode set_anchored set_value
set_target uri method http_version variable_offset v =
    let uri_s = without_fragment uri in
    let has_query = contains_byte b'?' uri_s in
    let path_info_raw = before b'?' uri_s in
    let path = uri_decode path_info_raw in
    let decoded = uri_decode uri_s in
    let size = (if has_query then length path_info_raw else length uri_s) in
    let request_line = method ++ b' ' ∷ uri in
    let qry = after b'?' uri_s in
    let path_offset = variable_offset + length method + 1 in
    record {
      http_version = http_version;
      uri = uri;
      uri_decoded = decoded;
      request_method = set_value method 0 v.request_method;
      request_line =
          set_value (request_line ++ (codes " HTTP/" ++ http_version)) variable_offset
            v.request_line;
      request_protocol =
          set_value (codes "HTTP/" ++ http_version) (variable_offset + length request_line + 1)
            v.request_protocol;
      query_string =
          if has_query
          then set_value qry (length path_info_raw + 1 + length method + 1) v.query_string
          else v.query_string;
      path_info = set_anchored path path_offset size v.path_info;
      request_filename = set_anchored path path_offset size v.request_filename;
      request_basename = set_basename path method variable_offset v.request_basename;
      request_uri =
          set_anchored (parsed_uri decoded) (length method + 1) (length uri_s) v.request_uri;
      request_uri_raw = set_value uri (length method + 1) v.request_uri_raw;
    }

module _ {C : Type 0} where
  unfoldable pub process_uri :
      Settings C → Bytes → Bytes → Bytes → Transaction (Request C) → Transaction (Request C)
  unfolding set_target extract_arguments is_empty uri_decode before
  process_uri settings uri method http_version t =
      let r = t.store in
      let target = set_target uri method http_version r.variable_offset r.target in
      let query = target.query_string in
      let arguments =
        extract_arguments settings.argument_config (codes "GET") query.anchored_value
          query.anchored_offset r.arguments in
      record t {
        who = record (t.who) {
          uri_no_query_string_decoded = uri_decode (before b'?' (without_fragment uri));
        };
        store = record r {
          target = target;
          arguments = if is_empty query.anchored_value then r.arguments else arguments;
          variable_offset = length target.request_line.anchored_value + 1;
        };
      }
