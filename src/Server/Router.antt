-- ===== src/Server/Router.antt =====
-- internal/server/router.go and health.go: which handler a request gets, and what it does.
-- The pool is its interface: `exec` and `stats`. `serve_file` is the file server of net/http on the
-- static root, `render` the JSON of a health report with the uptime and memory of the moment.
use maboo.Base.{
  ℕ, String, Bool, not, ◌&&◌, List, [], ◌∷◌, ◌++◌, Option, none, some, ltb, str_eq, if◌then◌else◌,
}
use maboo.Base.Dict.{Dict}
use maboo.Base.Paths.{codes, ext, lower, is_one_of}
use maboo.Base.Results.{Result, ok, err}
use maboo.Compress.{Op, set_header, status, body}
use maboo.Config.{Config}
use maboo.Engine.{Response}
use maboo.WorkerPool.Upkeep.{Stats}
use maboo.Server.Http.{Request, error, canonical_name}
use maboo.Server.Detector.{detect_entry_point}
use maboo.Server.Context.{Context, new_context}

pub record Health : Type 0 where
  pub status : String
  pub workers : Option Stats

-- The file system below the document root, and what handlers call.
pub record Site (E : Type 0) : Type 0 where
  pub join : String → String → String
  pub exists : String → String → Bool
  pub exec : Context → String → Result E Response
  pub describe : E → List ℕ
  pub stats : Stats
  pub serve_file : Request → List Op
  pub render : Health → List ℕ

abbrev pub static_extensions : List String
static_extensions =
    ".css" ∷ ".js" ∷ ".png" ∷ ".jpg" ∷ ".jpeg" ∷ ".gif" ∷ ".svg" ∷ ".ico" ∷ ".woff" ∷ ".woff2"
    ∷ ".ttf" ∷ ".eot" ∷ ".map" ∷ ".webp" ∷ ".avif" ∷ ".mp4" ∷ ".webm" ∷ ".pdf" ∷ ".txt" ∷ ".xml"
    ∷ ".json" ∷ []

unfoldable pub is_static_file : String → Bool
unfolding ext lower is_one_of
is_static_file path = is_one_of (lower (ext path)) static_extensions

unfoldable pub is_health_path : String → Bool
unfolding is_one_of codes
is_health_path path = is_one_of (codes path) ("/health" ∷ "/healthz" ∷ "/ready" ∷ "/readyz" ∷ [])

-- `w.Header().Set(k, v)` for each, in the order in which the map is walked.
unfoldable pub set_headers : Dict String → List Op
unfolding canonical_name
set_headers [] = []
set_headers ((name, value) ∷ headers) = set_header (canonical_name name) value ∷ set_headers headers

module _ {E : Type 0} (site : Site E) where
  unfoldable pub liveness : List Op
  liveness =
      set_header "Content-Type" "application/json"
      ∷ status 200
      ∷ body (site.render (record { status = "ok"; workers = none }))
      ∷ []

  unfoldable pub readiness : List Op
  readiness =
      let ready = ltb 0 site.stats.total_workers in
      set_header "Content-Type" "application/json"
      ∷ status (if ready then 200 else 503)
      ∷ body (
          site.render
            (record { status = if ready then "ready" else "not_ready"; workers = some site.stats }))
      ∷ []

  unfoldable pub serve_health : Request → List Op
  unfolding is_one_of codes readiness liveness
  serve_health req =
      if is_one_of (codes req.path) ("/ready" ∷ "/readyz" ∷ []) then readiness else liveness

  -- What follows the pool's `Exec`.
  abbrev pub answer : Result E Response → List Op
  answer (err e) = error (codes "Internal Server Error: " ++ site.describe e) 502
  answer (ok resp) = set_headers resp.headers ++ status resp.status ∷ body resp.body ∷ []

  unfoldable pub serve_php : Config → Request → List Op
  unfolding detect_entry_point new_context set_headers codes error
  serve_php cfg req =
      let root = if str_eq cfg.app.root "" then "." else cfg.app.root in
      let entry_point = detect_entry_point (site.exists root) cfg.app.entry in
      let script = site.join root entry_point in
      answer (site.exec (new_context site.join req root entry_point) script)

  unfoldable pub serve_static : Config → Request → List Op
  serve_static cfg req =
      if not (str_eq cfg.static.cache_control "")
      then set_header "Cache-Control" cfg.static.cache_control ∷ site.serve_file req
      else site.serve_file req

  unfoldable pub serve_http : Config → Request → List Op
  unfolding is_health_path serve_health is_static_file serve_static serve_php
  serve_http cfg req =
      if is_health_path req.path
      then serve_health req
      else if not (str_eq cfg.static.root "") && is_static_file req.path
      then serve_static cfg req
      else serve_php cfg req
