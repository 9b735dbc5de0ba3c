-- ===== src/ResponseWriter.antt =====
-- internal/server/middleware.go: `mabooResponseWriter`, the writer that CoreMiddleware logs from.
-- The calls that reach the wrapped http.ResponseWriter are listed in their order; `written` is what
-- its Write returns for some bytes. `links` are the values of the Link header.
pub mod Recorded
mod Tests
use maboo.Base.{
  ℕ, ◌+◌, String, Bool, true, false, not, ◌||◌, List, [], ◌∷◌, ◌++◌, Option, none, some,
  if◌then◌else◌,
}
use text.Mathlib.Text.{find?}

pub data HeaderCall : Type 0 where
  early_hints : HeaderCall
  final_status : ℕ → HeaderCall
  body_bytes : List ℕ → HeaderCall

pub record ResponseWriter : Type 0 where
  pub links : List String
  pub calls : List HeaderCall
  pub status_code : ℕ
  pub bytes_written : ℕ
  pub wrote_header : Bool
  pub hints_sent : Bool

unfoldable pub reset : List String → ResponseWriter
reset links = record {
  links = links;
  calls = [];
  status_code = 200;
  bytes_written = 0;
  wrote_header = false;
  hints_sent = false;
}

abbrev pub is_found : Option ℕ → Bool
is_found none = false
is_found (some i) = true

-- Whether one of the links is to be hinted at; the loop stops at the first.
unfoldable pub has_hint : List String → Bool
has_hint [] = false
has_hint (link ∷ links) =
    (is_found (find? link "rel=preload") || is_found (find? link "rel=preconnect"))
    || has_hint links

unfoldable pub send_hints : ResponseWriter → ResponseWriter
send_hints rw =
    if not rw.hints_sent
    then record rw {
      hints_sent = true;
      calls = if has_hint rw.links then rw.calls ++ early_hints ∷ [] else rw.calls;
    }
    else rw

unfoldable pub send_status : ℕ → ResponseWriter → ResponseWriter
send_status code rw = if rw.wrote_header then rw else record rw {
  wrote_header = true;
  status_code = code;
  calls = rw.calls ++ final_status code ∷ [];
}

unfoldable pub write_header : ℕ → ResponseWriter → ResponseWriter
unfolding send_hints send_status
write_header code rw = send_status code (send_hints rw)

-- With the count and the error that Write returns.
unfoldable pub write : (List ℕ → ℕ × Bool) → List ℕ → ResponseWriter → ResponseWriter × ℕ × Bool
write written b rw =
    let (n, failed) = written b in
    (
      record rw {
        wrote_header = true;
        status_code = if not rw.wrote_header then 200 else rw.status_code;
        bytes_written = rw.bytes_written + n;
        calls = rw.calls ++ body_bytes b ∷ [];
      },
      n,
      failed,
    )

-- What a handler does with the writer.
pub data Use : Type 0 where
  header : List String → Use
  status : ℕ → Use
  body : List ℕ → Use

unfoldable pub use_once : (List ℕ → ℕ × Bool) → Use → ResponseWriter → ResponseWriter
unfolding write_header write
use_once written (header links) rw = record rw { links = links }
use_once written (status code) rw = write_header code rw
use_once written (body b) rw = (write written b rw).0

unfoldable pub use_all : (List ℕ → ℕ × Bool) → List Use → ResponseWriter → ResponseWriter
unfolding use_once
use_all written [] rw = rw
use_all written (u ∷ us) rw = use_all written us (use_once written u rw)
