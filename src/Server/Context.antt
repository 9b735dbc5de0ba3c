-- ===== src/Server/Context.antt =====
-- internal/phpengine/context.go: the superglobals of a request. `join` is `filepath.Join`. A map is
-- walked in the order of its list.
use maboo.Base.{◌-◌, String, not, ◌&&◌, List, [], ◌∷◌, none, some, leb, ◌==◌, str_eq, if◌then◌else◌}
use maboo.Base.Dict.{Dict, lookup, insert}
use maboo.Server.Http.{Request, canonical_name}
use Prim.Native.Char.{Char, code}
use Prim.Native.String.{char_at, ◌++◌ as ◌<>◌, [] as empty, ◌∷◌ as ◌∷ₛ◌}

-- `Files` and `Env` are made and stay empty.
pub record Context : Type 0 where
  pub server : Dict String
  pub get : Dict String
  pub post : Dict String
  pub cookies : Dict String
  pub script_filename : String
  pub document_root : String

-- `strings.Split(s, ":")[0]`
unfoldable pub before_colon : String → String
before_colon empty = ""
before_colon (c ∷ₛ s) = let rest = before_colon s in if code c == 58 then "" else c ∷ₛ rest

abbrev pub upper : Char → Char
upper c =
    if leb 97 (code c) && leb (code c) 122
    then char_at "ABCDEFGHIJKLMNOPQRSTUVWXYZ" (code c - 97)
    else if code c == 45
    then char_at "_" 0
    else c

-- `strings.ToUpper` and `strings.ReplaceAll` of a header name, which is ASCII.
unfoldable pub upper_name : String → String
upper_name empty = ""
upper_name (c ∷ₛ s) = upper c ∷ₛ upper_name s

unfoldable pub http_key : String → String
unfolding upper_name
http_key name = "HTTP_" <> upper_name name

abbrev pub first_of : List String → String
first_of [] = ""
first_of (v ∷ vs) = v

-- `Header.Get`
unfoldable pub get_first : String → Dict (List String) → String
unfolding lookup canonical_name
get_first name headers = elim (lookup (canonical_name name) headers) [
  | none ↦ ""
  | some vs ↦ first_of vs
]

unfoldable pub add_headers : Dict (List String) → Dict String → Dict String
unfolding insert http_key
add_headers [] m = m
add_headers ((name, values) ∷ headers) m = add_headers headers (
    let key = http_key name in
    if not (str_eq key "HTTP_CONTENT_TYPE") && not (str_eq key "HTTP_CONTENT_LENGTH")
    then insert key (first_of values) m
    else m)

-- The loops over the query and the form.
unfoldable pub add_firsts : Dict (List String) → Dict String → Dict String
unfolding insert
add_firsts [] m = m
add_firsts ((name, values) ∷ rest) m = add_firsts rest (insert name (first_of values) m)

unfoldable pub add_cookies : List (String × String) → Dict String → Dict String
unfolding insert
add_cookies [] m = m
add_cookies ((name, value) ∷ rest) m = add_cookies rest (insert name value m)

abbrev pub cgi : Request → String → String → String → Dict String
cgi req doc_root entry_point script =
    ("REQUEST_METHOD", req.method)
    ∷ ("REQUEST_URI", req.path)
    ∷ ("QUERY_STRING", req.raw_query)
    ∷ ("SERVER_PROTOCOL", "HTTP/1.1")
    ∷ ("SERVER_NAME", req.host)
    ∷ ("DOCUMENT_ROOT", doc_root)
    ∷ ("SCRIPT_NAME", "/" <> entry_point)
    ∷ ("SCRIPT_FILENAME", script)
    ∷ ("PHP_SELF", "/" <> entry_point)
    ∷ ("REMOTE_ADDR", before_colon req.remote_addr)
    ∷ ("CONTENT_TYPE", get_first "Content-Type" req.headers)
    ∷ ("CONTENT_LENGTH", get_first "Content-Length" req.headers)
    ∷ []

unfoldable pub new_context : (String → String → String) → Request → String → String → Context
unfolding insert get_first before_colon add_headers add_firsts add_cookies
new_context join req doc_root entry_point =
    let script = join doc_root entry_point in
    let plain = cgi req doc_root entry_point script in
    record {
      server = add_headers req.headers (if req.has_tls then insert "HTTPS" "on" plain else plain);
      get = add_firsts req.query [];
      post = if str_eq req.method "POST" then add_firsts req.post_form [] else [];
      cookies = add_cookies req.cookies [];
      script_filename = script;
      document_root = doc_root;
    }
