-- ===== src/Compress.antt =====
-- internal/server/compress.go: the response writer that buffers a body until it may be compressed.
-- The calls that reach the wrapped http.ResponseWriter are listed in their order. `gzip` are bytes
-- that the gzip writer takes, and `gzip_result` is what its Write returns for them; the pools of
-- writers only save allocations. `sent_headers` is the header map as it was at the WriteHeader of the
-- wrapped writer, which is when net/http reads it. Header names have their canonical spelling.
pub mod Body
mod Tests
use maboo.Base.{
  ℕ, ◌≡◌, String, Bool, true, false, not, ◌&&◌, ◌||◌, List, [], ◌∷◌, ◌++◌, Option, none, some, ltb,
  leb, str_eq, if◌then◌else◌, length,
}
use maboo.Base.Dict.{Dict, lookup, insert, delete}
use text.Mathlib.Text.{starts_with, find?}

pub data Call : Type 0 where
  write_header : ℕ → Call
  write gzip : List ℕ → Call
  gzip_close : Call

pub record CompressWriter : Type 0 where
  pub headers : Dict String
  pub sent_headers : Dict String
  pub calls : List Call
  pub has_gz_writer : Bool
  pub buf : List ℕ
  pub wrote_header : Bool
  pub compressed : Bool
  pub header_code : ℕ

abbrev pub compress_min_size : ℕ
compress_min_size = 1024

unfoldable pub reset : Dict String → CompressWriter
reset headers = record {
  headers = headers;
  sent_headers = [];
  calls = [];
  has_gz_writer = false;
  buf = [];
  wrote_header = false;
  compressed = false;
  header_code = 0;
}

abbrev pub or_blank : Option String → String
or_blank none = ""
or_blank (some s) = s

abbrev pub get_header : String → Dict String → String
get_header name headers = or_blank (lookup name headers)

abbrev pub has_text : Option ℕ → Bool
has_text none = false
has_text (some i) = true

abbrev pub contains_text : String → String → Bool
contains_text s t = has_text (find? s t)

unfoldable pub is_compressible_content_type : String → Bool
is_compressible_content_type ct =
    (starts_with ct "text/" || (starts_with ct "Text/" || starts_with ct "TEXT/"))
    || contains_text ct "application/json"
    || contains_text ct "application/javascript"
    || contains_text ct "application/xml"
    || contains_text ct "application/xhtml"
    || contains_text ct "image/svg+xml"

unfoldable pub should_compress : Dict String → Bool
should_compress headers =
    if str_eq (get_header "Content-Type" headers) ""
    then false
    else if not (str_eq (get_header "Content-Encoding" headers) "")
    then false
    else is_compressible_content_type (get_header "Content-Type" headers)

abbrev pub call : Call → CompressWriter → CompressWriter
call c cw = record cw { calls = cw.calls ++ c ∷ [] }

-- `cw.ResponseWriter.WriteHeader(code)`
abbrev pub pass_header : ℕ → CompressWriter → CompressWriter
pass_header code cw = record (call (write_header code) cw) { sent_headers = cw.headers }

unfoldable pub start_compress : CompressWriter → CompressWriter
start_compress cw = record cw {
  headers =
      delete "Content-Length"
        (insert "Vary" "Accept-Encoding" (insert "Content-Encoding" "gzip" cw.headers));
  compressed = true;
  has_gz_writer = true;
}

unfoldable pub write_header_to : ℕ → CompressWriter → CompressWriter
unfolding start_compress
write_header_to code cw =
    if cw.wrote_header
    then cw
    else let cw' = record cw { header_code = code; wrote_header = true } in
      pass_header code (
        if leb compress_min_size (length cw'.buf) && should_compress cw'.headers
        then start_compress cw'
        else cw')

-- With the count and the error that Write returns.
unfoldable pub write_to : (List ℕ → ℕ × Bool) → List ℕ → CompressWriter → CompressWriter × ℕ × Bool
unfolding start_compress
write_to gzip_result b cw =
    if cw.compressed
    then (let (n, failed) = gzip_result b in (call (gzip b) cw, n, failed))
    else let cw' = record cw { buf = cw.buf ++ b } in
      let (n, failed) = gzip_result cw'.buf in
      if leb compress_min_size (length cw'.buf)
        && not cw'.wrote_header
        && should_compress cw'.headers
      then (
        call (gzip cw'.buf) (pass_header 200 (record (start_compress cw') { wrote_header = true })),
        (if ltb (length b) n then length b else n),
        failed,
      )
      else (cw', length b, false)

abbrev pub is_blank : List ℕ → Bool
is_blank [] = true
is_blank (x ∷ xs) = false

unfoldable pub close : CompressWriter → CompressWriter
close cw =
    if cw.compressed && cw.has_gz_writer
    then record (call gzip_close cw) { has_gz_writer = false }
    else if not (is_blank cw.buf)
    then call (write cw.buf) (if not cw.wrote_header then pass_header 200 cw else cw)
    else cw

-- What a handler does with the writer.
pub data Op : Type 0 where
  set_header : String → String → Op
  status : ℕ → Op
  body : List ℕ → Op

unfoldable pub op : (List ℕ → ℕ × Bool) → Op → CompressWriter → CompressWriter
unfolding write_header_to write_to
op g (set_header k v) cw = record cw { headers = insert k v cw.headers }
op g (status code) cw = write_header_to code cw
op g (body b) cw = (write_to g b cw).0

unfoldable pub run : (List ℕ → ℕ × Bool) → List Op → CompressWriter → CompressWriter
unfolding op
run g [] cw = cw
run g (o ∷ os) cw = run g os (op g o cw)

-- CompressionMiddleware, for a client that accepts gzip.
unfoldable pub serve : (List ℕ → ℕ × Bool) → Dict String → List Op → CompressWriter
unfolding run close reset
serve g headers handler = close (run g handler (reset headers))
