-- ===== src/Server/Standalone.antt =====
-- internal/server/middleware.go and earlyhints.go: the middleware kept for standalone use, which the
-- collapsed CoreMiddleware replaces; and the static handler, which nothing uses.
use maboo.Base.{
  ℕ, String, Bool, false, not, List, [], ◌∷◌, ◌++◌, Option, none, some, str_eq, if◌then◌else◌,
}
use maboo.Base.Dict.{insert}
use maboo.Base.Paths.{codes}
use maboo.Compress.{Op, set_header}
use maboo.ResponseWriter.{reset}
use maboo.Server.Http.{Request, Behaviour, canonical_name, error}
use maboo.Server.Context.{get_first}
use maboo.Server.Middleware.{core_ops, LogEntry, log_entry}

-- With what was logged, if anything was.
pub record Logged : Type 0 where
  pub behaviour : Behaviour
  pub entry : Option LogEntry

unfoldable pub recovery_middleware : (Request → Logged) → Request → Logged
unfolding error codes
recovery_middleware next req =
    let l = next req in
    if l.behaviour.panicked
    then record l {
      behaviour = record l.behaviour {
        ops = l.behaviour.ops ++ error (codes "Internal Server Error") 500;
        panicked = false;
      };
    }
    else l

unfoldable pub request_id_middleware : String → (Request → Logged) → Request → Logged
unfolding get_first insert canonical_name
request_id_middleware fresh next req =
    let given = get_first "X-Request-ID" req.headers in
    let id = if str_eq given "" then fresh else given in
    let l = next (
      if str_eq given ""
      then record req { headers = insert (canonical_name "X-Request-ID") (id ∷ []) req.headers }
      else req) in
    record l {
      behaviour = record l.behaviour {
        ops = set_header (canonical_name "X-Request-ID") id ∷ l.behaviour.ops;
      };
    }

unfoldable pub logging_middleware : (List ℕ → ℕ × Bool) → (Request → Behaviour) → Request → Logged
unfolding core_ops reset get_first
logging_middleware written next req =
    let b = next req in
    let (rw, ops) = core_ops written b.ops (reset []) in
    record {
      behaviour = record { ops = ops; panicked = b.panicked; left = b.left };
      entry =
          if b.panicked
          then none
          else some (log_entry b.left rw (get_first "X-Request-ID" b.left.headers));
    }

-- A placeholder: it passes its handler on.
unfoldable pub early_hints_middleware : (Request → Behaviour) → Request → Behaviour
early_hints_middleware next = next

-- `StaticHandler.ServeHTTP`; `is_file` is whether the path below the root is there and no directory,
-- `not_found` and `serve_file` are net/http's.
unfoldable pub serve_static : Bool → List Op → List Op → String → List Op
serve_static is_file not_found serve_file cache_control =
    if not is_file
    then not_found
    else if not (str_eq cache_control "")
    then set_header "Cache-Control" cache_control ∷ serve_file
    else serve_file

abbrev pub with_id : String → Option LogEntry → Option LogEntry
with_id id none = none
with_id id (some entry) = some (record entry { request_id = id })
