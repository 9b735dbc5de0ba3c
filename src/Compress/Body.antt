-- ===== src/Compress/Body.antt =====
-- The body and the status that internal/server/compress.go sends.
use maboo.Base.{
  ℕ, ◌+◌, ◌≤◌, ◌≡◌, refl, String, Bool, true, false, not, ◌&&◌, str_eq, List, [], ◌∷◌, ◌++◌, leb,
  if◌then◌else◌, length, arith,
}
use maboo.Base.Dict.{Dict, insert}
use maboo.Compress.{
  Call, CompressWriter, Op, reset, close, op, run, serve, write_header_to, write_to, get_header,
  should_compress, start_compress, write_header, write, gzip, gzip_close, set_header, status, body,
}

-- The bytes that go out, before gzip where they pass through it.
unfoldable pub sent : List Call → List ℕ
sent [] = []
sent (write_header code ∷ cs) = sent cs
sent (write b ∷ cs) = b ++ sent cs
sent (gzip b ∷ cs) = b ++ sent cs
sent (gzip_close ∷ cs) = sent cs

-- Whether some of them pass through gzip.
unfoldable pub zipped : List Call → Bool
zipped [] = false
zipped (write_header code ∷ cs) = zipped cs
zipped (write b ∷ cs) = zipped cs
zipped (gzip b ∷ cs) = true
zipped (gzip_close ∷ cs) = zipped cs

-- Whether the gzip stream is closed after its last bytes; `b` tells so of what was before.
unfoldable pub closed : Bool → List Call → Bool
closed b [] = b
closed b (write_header code ∷ cs) = closed b cs
closed b (write bytes ∷ cs) = closed b cs
closed b (gzip bytes ∷ cs) = closed false cs
closed b (gzip_close ∷ cs) = closed true cs

-- Headers that tell a client to inflate the body, and no length of another body.
unfoldable pub declares_gzip : Dict String → Bool
declares_gzip headers =
    str_eq (get_header "Content-Encoding" headers) "gzip"
    && str_eq (get_header "Content-Length" headers) ""

-- The body that the client reads, where the status and the method allow one: of a gzip stream that is not closed, or whose headers do not declare
-- it, nothing.
unfoldable pub client_body : CompressWriter → List ℕ
client_body cw =
    if zipped cw.calls && not (closed true cw.calls && declares_gzip cw.sent_headers)
    then []
    else sent cw.calls

-- How often a status is sent.
unfoldable pub statuses : List Call → ℕ
statuses [] = 0
statuses (write_header code ∷ cs) = 1 + statuses cs
statuses (write b ∷ cs) = statuses cs
statuses (gzip b ∷ cs) = statuses cs
statuses (gzip_close ∷ cs) = statuses cs

-- The body that a handler writes.
unfoldable pub written : List Op → List ℕ
written [] = []
written (set_header k v ∷ os) = written os
written (status code ∷ os) = written os
written (body b ∷ os) = b ++ written os

-- A handler that has set its headers before.
abbrev pub IsSettled : List Op → Type 0
IsSettled [] = Unit {0}
IsSettled (set_header k v ∷ os) = ⊥
IsSettled (status code ∷ os) = IsSettled os
IsSettled (body b ∷ os) = IsSettled os

-- Before compression starts all the bytes `w` written so far are in the buffer; after it they are sent.
-- What `Write` leaves in the buffer before the header is short or not to be compressed.
record Kept (cw : CompressWriter) (w : List ℕ) : Type 0 where
  bytes : (if cw.compressed then sent cw.calls else cw.buf) ≡ w
  unsent : cw.compressed ≡ false → sent cw.calls ≡ []
  started : cw.compressed ≡ true → (cw.has_gz_writer ≡ true) × (cw.wrote_header ≡ true)
  decided :
      cw.wrote_header ≡ false → (leb 1024 (length cw.buf) && should_compress cw.headers) ≡ false
  plain : cw.compressed ≡ false → zipped cw.calls ≡ false
  declared : cw.compressed ≡ true → declares_gzip cw.sent_headers ≡ true
  one_status : statuses cw.calls ≡ (if cw.wrote_header then 1 else 0)

-- A header that comes with a full buffer starts compression without it.
late_header :
    (code : ℕ) (cw : CompressWriter)
    → cw.calls ≡ []
    → cw.wrote_header ≡ false
    → should_compress cw.headers ≡ true
    → 1024 ≤ length cw.buf
    → sent (close (write_header_to code cw)).calls ≡ []
unfolding close write_header_to start_compress sent
late_header code cw c w t h = ground (arith, c, w, t)

write_to-buffered :
    (g : List ℕ → ℕ × Bool) (b : List ℕ) (headers : Dict String)
    → should_compress headers ≡ false
    → (write_to g b (reset headers)).0 ≡ record (reset headers) { buf = b }
unfolding write_to reset
write_to-buffered g b headers h = ground (arith, h)

-- A handler that writes at least 1024 bytes, then sets the header that makes them compressible, then
-- the status: the client gets nothing of the body, whatever its bytes are.
pub serve_loses_body :
    (g : List ℕ → ℕ × Bool) (b : List ℕ) (code : ℕ) (headers : Dict String) (name value : String)
    → 1024 ≤ length b
    → should_compress headers ≡ false
    → should_compress (insert name value headers) ≡ true
    → sent (serve g headers (body b ∷ set_header name value ∷ status code ∷ [])).calls ≡ []
unfolding serve run op reset
serve_loses_body g b code headers name value h before after =
    let cw : CompressWriter = record (reset headers) {
      headers = insert name value headers;
      buf = b;
    } in
    rw (write_to-buffered g b headers before) (late_header code cw refl refl after h)
