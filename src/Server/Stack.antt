-- ===== src/Server/Stack.antt =====
-- internal/server/server.go, `buildMiddleware`, and AltSvcMiddleware of internal/server/http3.go: what a
-- request makes the router do, behind all middleware.
use maboo.Base.{ℕ, String, Bool, false, ◌&&◌, List, [], ◌∷◌, str_eq, if◌then◌else◌}
use maboo.Base.Dict.{Dict, insert}
use maboo.Compress
use maboo.Compress.{Call, write_header, write, Op, set_header, status, body, contains_text}
use maboo.Config.{Config}
use maboo.Server.Http.{Request, Behaviour}
use maboo.Server.Context.{get_first}
use maboo.Server.Middleware.{core_middleware}
use maboo.Server.Router.{Site, serve_http}

-- Without compression the handler writes to the writer of net/http itself.
unfoldable pub direct : List Op → List Call
direct [] = []
direct (set_header name value ∷ os) = direct os
direct (status code ∷ os) = write_header code ∷ direct os
direct (body b ∷ os) = write b ∷ direct os

unfoldable pub alt_svc : Config → Dict String
unfolding insert
alt_svc cfg = if cfg.server.http3 then insert "Alt-Svc" "h3=\":443\"; ma=86400" [] else []

-- `metrics_text` is the page of serveMetrics at the moment, `gzip_result` what the gzip writer's Write returns.
pub record Env : Type 0 where
  pub fresh_id : String
  pub metrics_text : List ℕ
  pub written : List ℕ → ℕ × Bool
  pub gzip_result : List ℕ → ℕ × Bool

module _ (env : Env) (cfg : Config) where
  -- Metrics.Middleware: the path of the metrics is answered before CoreMiddleware.
  unfoldable pub measured : (Request → Behaviour) → Request → List Op
  unfolding core_middleware
  measured next req =
      if cfg.metrics.enabled && str_eq req.path cfg.metrics.path
      then set_header "Content-Type" "text/plain; version=0.0.4; charset=utf-8"
        ∷ body env.metrics_text
        ∷ []
      else (core_middleware env.written env.fresh_id next req).0

  -- CompressionMiddleware.
  unfoldable pub accepts_gzip : Request → Bool
  unfolding get_first
  accepts_gzip req = contains_text (get_first "Accept-Encoding" req.headers) "gzip"

  unfoldable pub build_middleware : (Request → Behaviour) → Request → List Call
  unfolding measured accepts_gzip alt_svc direct Compress.serve
  build_middleware next req =
      let ops = measured next req in
      if accepts_gzip req
      then (Compress.serve env.gzip_result (alt_svc cfg) ops).calls
      else direct ops

  unfoldable pub handle : {E : Type 0} → Site E → Request → List Call
  unfolding build_middleware serve_http
  handle site =
      build_middleware
        (λ req. record { ops = serve_http site cfg req; panicked = false; left = req })
