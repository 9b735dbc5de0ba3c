-- ===== src/Server/Site.antt =====
-- A request for PHP, from internal/server/server.go through the pool of internal/worker and back.
use maboo.Base.{
  ℕ, ◌≡◌, ◌≢◌, refl, sym, ap, subst, ◌∙◌, String, Bool, true, false, not, ◌&&◌, ◌||◌, ◌<◌, List, [],
  ◌∷◌, ◌++◌, str_eq, if◌then◌else◌, arith, Bool-cases, inl, inr,
}
use maboo.Base.Dict.{Dict, insert}
use maboo.Base.Results.{Result, ok}
use maboo.Compress.{write_header, set_header, status, body}
use maboo.Config.{Config}
use maboo.Engine.{Response, EngineError, execute}
use maboo.WorkerPool.Pool.{Settings, Pool, run_worker}
use maboo.WorkerPool.Worker
use maboo.WorkerPool.System.{System}
use maboo.WorkerPool.Ids.{mem}
use maboo.WorkerPool.Ownership.Reached.{Started}
use maboo.WorkerPool.WorkerMode.{worker_mode_serves}
use maboo.ResponseWriter
use maboo.Server.Http.{
  Request, Reply, reply, no_reply, allows_body, client_gets, body_for, canonical_name,
}
use maboo.ResponseWriter.{has_hint}
use maboo.Server.Context.{Context, get_first}
use maboo.Server.Middleware.{core_middleware}
use maboo.Server.Router.{
  Site, serve_http, serve_php, answer, set_headers, is_health_path, is_static_file,
}
use maboo.Server.Stack.{Env, direct, alt_svc, measured, accepts_gzip, build_middleware, handle}
use maboo.Server.Delivered.{
  hinted, hint_first, links_after, core_ops-set_headers, core_ops-response, body_call,
  serve-settled, direct-set_headers,
}
use mathlib.Core.List.{append-nil}

-- A path that the router leaves to PHP.
pub record IsPhp (cfg : Config) (path : String) : Type 0 where
  pub not_health : is_health_path path ≡ false
  pub not_static : not (str_eq cfg.static.root "") && is_static_file path ≡ false
  pub not_metrics : cfg.metrics.enabled && str_eq path cfg.metrics.path ≡ false

module _ {E : Type 0} (site : Site E) (cfg : Config) (r : Result E Response) where
  serve_http-answer :
      (req : Request)
      → IsPhp cfg req.path
      → ((ctx : Context) (script : String) → site.exec ctx script ≡ r)
      → serve_http site cfg req ≡ answer site r
  unfolding serve_http serve_php
  serve_http-answer req php h = rw (php.not_health, php.not_static) (ap (answer site) (h _ _))

module _ (env : Env) (cfg : Config) {E : Type 0} (site : Site E) where
  -- The id under which the request is known.
  abbrev id_of : Request → String
  id_of req =
      let given = get_first "X-Request-ID" req.headers in
      if str_eq given "" then env.fresh_id else given

  -- What leaves CoreMiddleware of an answer of PHP.
  measured-answer :
      (req : Request) (headers : Dict String) (code : ℕ) (b : List ℕ)
      → IsPhp cfg req.path
      → ((q : Request)
          → q.path ≡ req.path
          → serve_http site cfg q ≡ set_headers headers ++ status code ∷ body b ∷ [])
      → measured env cfg
          (λ q. record { ops = serve_http site cfg q; panicked = false; left = q })
          req
        ≡ set_headers (("X-Request-ID", id_of req) ∷ headers)
          ++ hint_first (hinted headers) (status code ∷ body b ∷ [])
  unfolding measured core_middleware set_headers hinted ResponseWriter.reset
  measured-answer req headers code b php served =
      let given = get_first "X-Request-ID" req.headers in
      let q : Request =
        if str_eq given ""
        then record req {
          headers = insert (canonical_name "X-Request-ID") (id_of req ∷ []) req.headers;
        }
        else req in
      let same : q.path ≡ req.path = elim (Bool-cases (str_eq given "")) [
        | inl e ↦ rw e refl
        | inr e ↦ rw e refl
      ] in
      rw (php.not_metrics, served q same)
        (ap (λ l. set_header (canonical_name "X-Request-ID") (id_of req) ∷ l)
          (append-nil _
            ∙ core_ops-set_headers env.written headers (status code ∷ body b ∷ [])
                (ResponseWriter.reset [])
            ∙ ap (λ l. set_headers headers ++ l)
                (core_ops-response env.written (links_after headers []) code b)))

  -- The calls on the writer of net/http.
  handle-answer :
      (req : Request) (headers : Dict String) (code : ℕ) (b : List ℕ)
      → IsPhp cfg req.path
      → ((q : Request)
          → q.path ≡ req.path
          → serve_http site cfg q ≡ set_headers headers ++ status code ∷ body b ∷ [])
      → handle env cfg site req ≡ (
          if accepts_gzip env cfg req
          then write_header (if hinted headers then 103 else code) ∷ body_call b
          else direct (hint_first (hinted headers) (status code ∷ body b ∷ [])))
  unfolding handle build_middleware
  handle-answer req headers code b php served =
      let all = ("X-Request-ID", id_of req) ∷ headers in
      rw
        (
          measured-answer req headers code b php served,
          serve-settled env.gzip_result (alt_svc cfg) all (hinted headers) code b,
          direct-set_headers all (hint_first (hinted headers) (status code ∷ body b ∷ [])),
        )
        refl

abbrev plain_reply : ℕ → List ℕ → Reply
plain_reply code b = record {
  is_sent = true;
  code = code;
  content = b;
  is_gzip = false;
  panicked = false;
}

-- A reply as the client of a request gets it.
abbrev for_client : Request → Reply → Reply
for_client req r = record r { content = body_for req r.content }

reply-direct :
    (hint : Bool) (code : ℕ) (b : List ℕ)
    → allows_body code ≡ true
    → code < 1000
    → reply (direct (hint_first hint (status code ∷ body b ∷ []))) no_reply ≡ plain_reply code b
unfolding reply direct
reply-direct true code b h k = ground (arith, h, k)
reply-direct false code b h k = ground (arith, h, k)

reply-settled :
    (code : ℕ) (b : List ℕ)
    → allows_body code ≡ true
    → code < 1000
    → reply (write_header code ∷ body_call b) no_reply ≡ plain_reply code b
unfolding reply
reply-settled code [] h k = ground (arith, h, k)
reply-settled code (x ∷ xs) h k = ground (arith, h, k)

reply-hinted :
    (b : List ℕ) → b ≢ [] → reply (write_header 103 ∷ body_call b) no_reply ≡ plain_reply 200 b
unfolding reply
reply-hinted [] h = absurd (h refl)
reply-hinted (x ∷ xs) h = refl

-- A Content-Length of its own, in any spelling.
unfoldable pub has_length : Dict String → Bool
unfolding canonical_name
has_length [] = false
has_length ((name, value) ∷ headers) =
    str_eq (canonical_name name) "Content-Length" || has_length headers

-- What the pool returns for a request for PHP, if its status may have a body and is below 1000, and it
-- asks for no early hint and sets no Content-Length, is what the client gets: the same status and body
-- (to a HEAD no body), not compressed, whatever the client accepts.
pub response_reaches_client :
    (env : Env) (cfg : Config) {E : Type 0} (site : Site E) (req : Request) (resp : Response)
    → IsPhp cfg req.path
    → ((ctx : Context) (script : String) → site.exec ctx script ≡ ok resp)
    → hinted resp.headers ≡ false
    → has_length resp.headers ≡ false
    → allows_body resp.status ≡ true
    → resp.status < 1000
    → client_gets req (handle env cfg site req) ≡ plain_reply resp.status (body_for req resp.body)
unfolding client_gets
response_reaches_client env cfg site req resp php h plain no_length allowed small =
    let served = λ (q : Request) (same : q.path ≡ req.path).
      serve_http-answer site cfg (ok resp) q (subst (IsPhp cfg) (sym same) php) h in
    let code = resp.status in
    rw (handle-answer env cfg site req resp.headers code resp.body php served, plain)
      (elim (Bool-cases (accepts_gzip env cfg req)) [
        | inl e ↦ rw e (ap (for_client req) (reply-settled code resp.body allowed small))
        | inr e ↦ rw e (ap (for_client req) (reply-direct false code resp.body allowed small))
      ])

-- A response with a body, and with a link that is to be sent as an early hint, loses its status on the
-- way to a client that accepts gzip: the client gets 200, whatever the pool returned, and the body (to
-- a HEAD none).
pub hinted_status_lost :
    (env : Env) (cfg : Config) {E : Type 0} (site : Site E) (req : Request) (resp : Response)
    → IsPhp cfg req.path
    → ((ctx : Context) (script : String) → site.exec ctx script ≡ ok resp)
    → hinted resp.headers ≡ true
    → accepts_gzip env cfg req ≡ true
    → resp.body ≢ []
    → client_gets req (handle env cfg site req) ≡ plain_reply 200 (body_for req resp.body)
unfolding client_gets
hinted_status_lost env cfg site req resp php h hint gzip some_body =
    let served = λ (q : Request) (same : q.path ≡ req.path).
      serve_http-answer site cfg (ok resp) q (subst (IsPhp cfg) (sym same) php) h in
    rw (handle-answer env cfg site req resp.headers resp.status resp.body php served, hint, gzip)
      (ap (for_client req) (reply-hinted resp.body some_body))

-- The page of a run that went well, and its headers.
run_worker-page :
    (page : String → List ℕ) (w : ℕ) (p : Pool) (resp : Response)
    → (run_worker page w p).1 ≡ ok resp
    → (resp.headers ≡ ("Content-Type", "text/html; charset=utf-8") ∷ [])
      × (resp.body ≡ page (p.heap w).engine.version)
unfolding run_worker Worker.exec execute
run_worker-page page w p resp h = ground (arith, h)

abbrev page_type : Dict String
page_type = ("Content-Type", "text/html; charset=utf-8") ∷ []

page_headers : (hinted page_type ≡ false) × (has_length page_type ≡ false)
unfolding hinted has_hint has_length canonical_name
page_headers = (refl, refl)

-- In worker mode, with the worker that a request holds in any state that a started pool reaches before
-- it is cancelled (without a `Reload`), the client gets the page of that worker's PHP version with
-- status 200 (to a HEAD without its body), on every path that the router leaves to PHP.
pub site_serves :
    (page : String → List ℕ) (limits : Settings) (s : System) (w : ℕ) (env : Env) (cfg : Config)
    (site : Site EngineError) (req : Request)
    → limits.mode ≡ "worker"
    → Started page limits s
    → s.pool.cancelled ≡ false
    → mem w s.holding ≡ true
    → ((ctx : Context) (script : String) → site.exec ctx script ≡ (run_worker page w s.pool).1)
    → IsPhp cfg req.path
    → client_gets req (handle env cfg site req)
      ≡ plain_reply 200 (body_for req (page (s.pool.heap w).engine.version))
site_serves page limits s w env cfg site req mode run running m h php =
    let (resp, ran, code) = worker_mode_serves page limits s w mode run running m in
    let (headers, content) = run_worker-page page w s.pool resp ran in
    response_reaches_client env cfg site req resp php (λ ctx script. h ctx script ∙ ran)
      (ap hinted headers ∙ page_headers.0) (ap has_length headers ∙ page_headers.1)
      (ap allows_body code) (omega (arith, code))
    ∙ ap (λ c. plain_reply c (body_for req resp.body)) code
    ∙ ap (λ b. plain_reply 200 (body_for req b)) content
