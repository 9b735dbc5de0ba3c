-- ===== src/Server/Listen.antt =====
-- internal/server/server.go, acme.go, http2.go and http3.go: what the server listens on.
-- The listeners are those of net/http, quic-go and autocert: a call that does not return is what the
-- server ends in, and what is started beside it is recorded.
use maboo.Base.{
  ℕ, String, Bool, true, false, not, ◌&&◌, ◌||◌, List, [], ◌∷◌, Option, some, none, str_eq,
  if◌then◌else◌,
}
use maboo.Base.Results.{Result, ok, err, ◌>>=◌}
use Prim.Native.String.{◌++◌ as ◌<>◌}
use maboo.Server.Certificate.{Crypto, CertError, generate_self_signed_cert}
use maboo.Config.{Config, AcmeConfig}

-- The certificates come from Let's Encrypt, or one is made.
pub data Certificates : Type 0 where
  from_acme : (cache_dir : String) (is_staging : Bool) → Certificates
  self_signed : (cert key : List ℕ) → Certificates

-- The last call of `Start`.
pub data Listening : Type 0 where
  plain : Listening
  own_certificate : String → String → Listening
  configured : Certificates → Listening

pub data StartError : Type 0 where
  no_email no_domains no_cache_dir not_generated no_key_pair no_certificate : StartError

-- Whether the cache directory can be made, what makes a certificate, and whether it is parsed.
pub record Machine : Type 0 where
  pub mkdir_all : String → Bool
  pub crypto : Crypto
  pub parses : List ℕ → List ℕ → Bool

-- `has_h2c`: the handler also takes HTTP/2 in clear text. `has_http3` and `has_redirect`: that server runs.
pub record Server : Type 0 where
  pub has_h2c : Bool
  pub has_http3 : Bool
  pub has_redirect : Bool

abbrev pub is_set : String → Bool
is_set s = not (str_eq s "")

-- The test that `New` and `Start` share.
abbrev pub uses_tls : Config → Bool
uses_tls cfg =
    cfg.server.tls.auto
    || (is_set cfg.server.tls.cert && is_set cfg.server.tls.key)
    || is_set cfg.server.tls.acme.email

-- `EnableHTTP2`, which does not fail.
unfoldable pub enable_http2 : Bool → Server → Server
enable_http2 use_tls s = if use_tls then s else record s { has_h2c = true }

unfoldable pub new : Config → Server
unfolding enable_http2
new cfg =
    let s : Server = record { has_h2c = false; has_http3 = false; has_redirect = false } in
    if cfg.server.http2 then enable_http2 (uses_tls cfg) s else s

abbrev pub no_names : List String → Bool
no_names [] = true
no_names (d ∷ ds) = false

-- `NewHTTP3Server`: whether there is one. A nil one starts and stops nothing.
unfoldable pub new_http3_server : Config → Option Certificates → Bool
new_http3_server cfg none = false
new_http3_server cfg (some c) = cfg.server.http3

-- From the TLS config on; `NewHTTP3Server` gets one that is not nil.
unfoldable pub listen_configured : Config → Server → Certificates → Server × Listening
unfolding new_http3_server
listen_configured cfg s c = (
  if cfg.server.http3 then record s { has_http3 = new_http3_server cfg (some c) } else s,
  configured c,
)

abbrev pub after_acme :
    Config → Server → Result StartError (Certificates × Bool) → Server × Result StartError Listening
after_acme cfg s (err e) = (s, err e)
after_acme cfg s (ok (c, redirect)) =
    let (s', l) = listen_configured cfg (record s { has_redirect = redirect }) c in (s', ok l)

abbrev pub after_self_sign :
    Config → Server → Result StartError Certificates → Server × Result StartError Listening
after_self_sign cfg s (err e) = (s, err e)
after_self_sign cfg s (ok c) = let (s', l) = listen_configured cfg s c in (s', ok l)

-- Where the redirect server sends a request that is not a challenge of ACME, with status 301.
unfoldable pub redirect_url : String → String → String → String
redirect_url host path raw_query =
    "https://" <> (host <> (path <> (if str_eq raw_query "" then "" else "?" <> raw_query)))

module _ (machine : Machine) where
  unfoldable pub new_acme_manager : AcmeConfig → Result StartError Certificates
  new_acme_manager acme =
      let cache_dir = if str_eq acme.cache_dir "" then "/var/lib/maboo/certs" else acme.cache_dir in
      if str_eq acme.email ""
      then err no_email
      else if no_names acme.domains
      then err no_domains
      else if not (machine.mkdir_all cache_dir)
      then err no_cache_dir
      else ok (from_acme cache_dir acme.staging)

  -- With whether the redirect server runs.
  unfoldable pub setup_acme : Config → Result StartError (Certificates × Bool)
  unfolding new_acme_manager
  setup_acme cfg =
      if str_eq cfg.server.tls.acme.email ""
      then err no_email
      else (new_acme_manager cfg.server.tls.acme >>= λ c. ok (c, cfg.server.http_redirect))

  abbrev pub after_generate : Result CertError (List ℕ × List ℕ) → Result StartError Certificates
  after_generate (err e) = err not_generated
  after_generate (ok (cert, key)) =
      if machine.parses cert key then ok (self_signed cert key) else err no_key_pair

  unfoldable pub self_sign : Result StartError Certificates
  unfolding generate_self_signed_cert
  self_sign = after_generate (generate_self_signed_cert machine.crypto)

  unfoldable pub start_tls : Config → Server → Server × Result StartError Listening
  unfolding setup_acme self_sign listen_configured
  start_tls cfg s =
      if is_set cfg.server.tls.acme.email
      then after_acme cfg s (setup_acme cfg)
      else if is_set cfg.server.tls.cert && is_set cfg.server.tls.key
      then (s, ok (own_certificate cfg.server.tls.cert cfg.server.tls.key))
      else if cfg.server.tls.auto
      then after_self_sign cfg s self_sign
      else (s, err no_certificate)

  unfoldable pub start : Config → Server → Server × Result StartError Listening
  unfolding start_tls
  start cfg s = if uses_tls cfg then start_tls cfg s else (s, ok plain)

-- What `Stop` shuts down, in its order.
pub data Stopped : Type 0 where
  http3 redirect main : Stopped

unfoldable pub stop : Server → List Stopped
stop s =
    let rest = if s.has_redirect then redirect ∷ main ∷ [] else main ∷ [] in
    if s.has_http3 then http3 ∷ rest else rest
