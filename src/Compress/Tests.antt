-- ===== src/Compress/Tests.antt =====
-- Examples for internal/server/compress.go.
use maboo.Base.{
  ℕ, ◌≡◌, ◌≤◌, refl, Bool, false, String, List, [], ◌∷◌, replicate, length, length-replicate, arith,
}
use maboo.Base.Dict.{Dict, lookup, insert}
use maboo.Compress.{serve, body, status, set_header, should_compress, is_compressible_content_type}
use maboo.Compress.Body.{sent, serve_loses_body}

gzip_all : List ℕ → ℕ × Bool
gzip_all b = (length b, false)

abbrev html : Dict String
html = ("Content-Type", "text/html") ∷ []

sixty : ℕ
sixty = 60

-- A body of 1024 bytes.
page : (b : List ℕ) × (1024 ≤ length b)
page = (replicate 1024 sixty, omega (arith, length-replicate 1024 sixty))

serve_loses_body_example :
    sent
      (serve gzip_all []
        (body page.0 ∷ set_header "Content-Type" "text/html" ∷ status 200 ∷ [])).calls
    ≡ []
unfolding should_compress insert lookup is_compressible_content_type
serve_loses_body_example =
    serve_loses_body gzip_all page.0 200 [] "Content-Type" "text/html" page.1 refl refl
