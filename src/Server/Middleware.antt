-- ===== src/Server/Middleware.antt =====
-- internal/server/middleware.go around a handler: recovery, request ids, hints and the log entry; and the
-- writer of internal/server/metrics.go. A middleware is what its handler does with the writer
-- that it was given, in the order of the calls. `written` is what the wrapped Write returns.
use maboo.Base.{
  ℕ, ◌+◌, String, Bool, List, [], ◌∷◌, ◌++◌, Option, none, some, str_eq, if◌then◌else◌,
}
use maboo.Base.Dict.{insert}
use maboo.Base.Paths.{codes}
use maboo.Compress.{Op, set_header, status, body}
use maboo.ResponseWriter.{
  ResponseWriter, HeaderCall, early_hints, final_status, body_bytes, reset, write_header, write,
}
use maboo.Server.Http.{Request, Behaviour, canonical_name, error}
use maboo.Server.Context.{get_first}

-- What `mabooResponseWriter` calls on the writer that it wraps.
unfoldable pub passed_on : List HeaderCall → List Op
passed_on [] = []
passed_on (early_hints ∷ cs) = status 103 ∷ passed_on cs
passed_on (final_status code ∷ cs) = status code ∷ passed_on cs
passed_on (body_bytes b ∷ cs) = body b ∷ passed_on cs

-- What is logged of a request where the logger takes that level, but for the time that it took.
pub record LogEntry : Type 0 where
  pub method : String
  pub path : String
  pub status : ℕ
  pub bytes : ℕ
  pub remote_addr : String
  pub request_id : String

abbrev pub log_entry : Request → ResponseWriter → String → LogEntry
log_entry req rw id = record {
  method = req.method;
  path = req.path;
  status = rw.status_code;
  bytes = rw.bytes_written;
  remote_addr = req.remote_addr;
  request_id = id;
}

module _ (written : List ℕ → ℕ × Bool) where
  -- The header map is that of the wrapped writer.
  unfoldable pub core_op : Op → ResponseWriter → ResponseWriter × List Op
  unfolding passed_on write_header write
  core_op (set_header name value) rw = (
    (if str_eq name "Link" then record rw { links = value ∷ [] } else rw),
    set_header name value ∷ [],
  )
  core_op (status code) rw =
      let rw' = write_header code (record rw { calls = [] }) in (rw', passed_on rw'.calls)
  core_op (body b) rw =
      let rw' = (write written b (record rw { calls = [] })).0 in (rw', passed_on rw'.calls)

  unfoldable pub core_ops : List Op → ResponseWriter → ResponseWriter × List Op
  unfolding core_op
  core_ops [] rw = (rw, [])
  core_ops (o ∷ os) rw =
      let (rw', now) = core_op o rw in let (rw'', later) = core_ops os rw' in (rw'', now ++ later)

  -- The writes of a handler behind CoreMiddleware, and what it logs. A panic
  -- is answered on the wrapped writer, and nothing is logged. `fresh` is a new request id.
  unfoldable pub core_middleware :
      String → (Request → Behaviour) → Request → List Op × Option LogEntry
  unfolding get_first insert canonical_name core_ops reset error codes
  core_middleware fresh next req =
      let given = get_first "X-Request-ID" req.headers in
      let id = if str_eq given "" then fresh else given in
      let req' =
        if str_eq given ""
        then record req { headers = insert (canonical_name "X-Request-ID") (id ∷ []) req.headers }
        else req in
      let b = next req' in
      let (rw, ops) = core_ops b.ops (reset []) in
      (
        set_header (canonical_name "X-Request-ID") id
            ∷ (ops ++ (if b.panicked then error (codes "Internal Server Error") 500 else [])),
        (if b.panicked then none else some (log_entry b.left rw id)),
      )

  -- `metricsResponseWriter`: its status and its count; it passes everything on.
  unfoldable pub measure : List Op → ℕ × ℕ → ℕ × ℕ
  measure [] (code, n) = (code, n)
  measure (set_header name value ∷ os) (code, n) = measure os (code, n)
  measure (status c ∷ os) (code, n) = measure os (c, n)
  measure (body b ∷ os) (code, n) = measure os (code, n + (written b).0)
