-- ===== src/Server/Http.antt =====
-- net/http as internal/server uses it: a request, what a handler does with its writer, what the client gets.
-- The names in `headers` and in `set_header` have their canonical spelling, which `Header.Get` and
-- `Header.Set` give to a name. A handler does its writes in order; `panicked` tells that it then panics,
-- and `left` is the request as it leaves it.
use maboo.Base.{
  ℕ, String, Bool, true, false, List, [], ◌∷◌, ◌++◌, ltb, leb, not, ◌&&◌, ◌||◌, ◌==◌, ◌-◌, str_eq,
  if◌then◌else◌,
}
use Prim.Native.Char.{Char, code}
use Prim.Native.String.{char_at, [] as empty, ◌∷◌ as ◌∷ₛ◌}
use maboo.Base.Dict.{Dict}
use maboo.Compress.{Call, write_header, write, gzip, gzip_close, Op, set_header, status, body}

-- A character that a header name may have.
abbrev is_token : ℕ → Bool
is_token c =
    (leb 94 c && leb c 122)
    || (leb 65 c && leb c 90)
    || (leb 48 c && leb c 57)
    || (c == 33 || c == 124 || c == 126 || c == 42 || c == 43 || c == 45 || c == 46)
    || (leb 35 c && leb c 39)

abbrev is_name : String → Bool
is_name empty = true
is_name (c ∷ₛ s) = is_token (code c) && is_name s

abbrev large : Char → Char
large c =
    if leb 97 (code c) && leb (code c) 122
    then char_at "ABCDEFGHIJKLMNOPQRSTUVWXYZ" (code c - 97)
    else c

abbrev small : Char → Char
small c =
    if leb 65 (code c) && leb (code c) 90
    then char_at "abcdefghijklmnopqrstuvwxyz" (code c - 65)
    else c

-- `first`: at the beginning of a word.
abbrev capitalised : Bool → String → String
capitalised first empty = ""
capitalised first (c ∷ₛ s) = (if first then large c else small c) ∷ₛ capitalised (code c == 45) s

-- `textproto.CanonicalMIMEHeaderKey`
unfoldable pub canonical_name : String → String
canonical_name name = if is_name name then capitalised true name else name

-- `query`, `post_form` and `cookies` are what `Query`, `ParseForm` and `Cookies` give.
pub record Request : Type 0 where
  pub method : String
  pub path : String
  pub raw_query : String
  pub host : String
  pub remote_addr : String
  pub has_tls : Bool
  pub headers : Dict (List String)
  pub query : Dict (List String)
  pub post_form : Dict (List String)
  pub cookies : List (String × String)

-- `http.Error`; no handler here has set a Content-Length before.
unfoldable pub error : List ℕ → ℕ → List Op
error text code =
    set_header "Content-Type" "text/plain; charset=utf-8"
    ∷ set_header "X-Content-Type-Options" "nosniff"
    ∷ status code
    ∷ body (text ++ 10 ∷ [])
    ∷ []

pub record Behaviour : Type 0 where
  pub ops : List Op
  pub panicked : Bool
  pub left : Request

-- Whether a response of this status has a body.
abbrev pub allows_body : ℕ → Bool
allows_body code = not (ltb code 200) && not (code == 204) && not (code == 304)

-- What net/http makes of the calls: an informational status is not yet the response, the first other one
-- is, and a write before any stands for 200. `panicked`: on a first status outside 100 to 999 WriteHeader
-- panics; what the handlers around it then do is not followed. A Content-Length that a handler sets is
-- taken to be that of its body.
pub record Reply : Type 0 where
  pub is_sent : Bool
  pub code : ℕ
  pub content : List ℕ
  pub is_gzip : Bool
  pub panicked : Bool

abbrev pub no_reply : Reply
no_reply = record { is_sent = false; code = 200; content = []; is_gzip = false; panicked = false }

abbrev pub add_content : List ℕ → Reply → Reply
add_content b r = record r {
  is_sent = true;
  content = if allows_body r.code then r.content ++ b else r.content;
}

abbrev pub receive : Call → Reply → Reply
receive (write_header code) r =
    if r.is_sent
    then r
    else if ltb code 100 || ltb 999 code
    then record r { panicked = true }
    else if ltb code 200 && not (code == 101)
    then r
    else record r { is_sent = true; code = code }
receive (write b) r = add_content b r
receive (gzip b) r = record (add_content b r) { is_gzip = true }
receive gzip_close r = r

unfoldable pub reply : List Call → Reply → Reply
reply [] r = r
reply (c ∷ cs) r =
    let r' = receive c r in let later = reply cs r' in if r'.panicked then r' else later

-- The body of a response to a request: to a HEAD net/http sends none.
abbrev pub body_for : Request → List ℕ → List ℕ
body_for req b = if str_eq req.method "HEAD" then [] else b

-- What the client gets.
unfoldable pub client_gets : Request → List Call → Reply
unfolding reply
client_gets req calls =
    let r = reply calls no_reply in record r { content = body_for req r.content }
