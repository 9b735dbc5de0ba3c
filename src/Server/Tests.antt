-- ===== src/Server/Tests.antt =====
-- Examples for internal/server.
use maboo.Base.{ℕ, ◌≡◌, ◌≢◌, refl, String, true, false, List, [], ◌∷◌, some, length, str_eq, arith}
use maboo.Base.Dict.{lookup, insert}
use maboo.Base.Paths.{codes, ext, ext_from, lower, is_one_of}
use maboo.Base.Results.{ok, err}
use maboo.Compress.{status}
use maboo.Config.{Config, default_config}
use maboo.Engine.{Response}
use maboo.ResponseWriter.{has_hint, reset, write_header, send_hints, send_status}
use maboo.Server.Http.{Behaviour, Request, Reply, client_gets, canonical_name}
use maboo.Server.Detector.{detect_entry_point, first_candidate}
use maboo.Server.Context.{before_colon, http_key, upper_name, get_first}
use maboo.Server.Router.{Site, is_health_path, is_static_file}
use maboo.Server.Stack.{Env, accepts_gzip, handle, alt_svc}
use maboo.Server.Delivered.{hinted}
use maboo.Server.Site.{IsPhp, has_length, response_reaches_client, hinted_status_lost}
use maboo.Server.Middleware.{core_middleware, core_ops, core_op, passed_on, LogEntry}
use maboo.Server.Standalone.{Logged, recovery_middleware, request_id_middleware, logging_middleware}
use maboo.Server.Certificate.{Crypto}
use maboo.Server.Listen.{Machine, start, new, no_certificate}
use maboo.Server.Advertised.{beside_listener}

abbrev page_request : Request
page_request = record {
  method = "GET";
  path = "/shop.php";
  raw_query = "";
  host = "localhost";
  remote_addr = "10.0.0.1:4711";
  has_tls = false;
  headers = ("Accept-Encoding", "br, gzip" ∷ []) ∷ [];
  query = [];
  post_form = [];
  cookies = [];
}

shop-IsPhp : IsPhp default_config "/shop.php"
unfolding is_health_path is_one_of codes ext ext_from lower is_static_file default_config
shop-IsPhp = record { not_health = refl; not_static = refl; not_metrics = refl }

abbrev env : Env
env = record {
  fresh_id = "0123456789abcdef";
  metrics_text = [];
  written = λ b. (length b, false);
  gzip_result = λ b. (length b, false);
}

abbrev missing : Response
missing = record { status = 404; headers = ("Content-Type", "text/html") ∷ []; body = 63 ∷ [] }

abbrev hinting : Response
hinting = record {
  status = 404;
  headers = ("link", "</app.css>; rel=preload") ∷ [];
  body = 63 ∷ [];
}

abbrev site_of : Response → Site String
site_of resp = record {
  join = λ root name. name;
  exists = λ root name. true;
  exec = λ ctx script. ok resp;
  describe = λ e. [];
  stats = record {
    total_workers = 1;
    active_workers = 1;
    busy_workers = 0;
    idle_workers = 1;
    total_requests = 0;
  };
  serve_file = λ req. [];
  render = λ health. [];
}

abbrev plain : ℕ → Reply
plain code = record {
  is_sent = true;
  code = code;
  content = 63 ∷ [];
  is_gzip = false;
  panicked = false;
}

response_reaches_client_example :
    client_gets page_request (handle env default_config (site_of missing) page_request) ≡ plain 404
unfolding hinted has_hint has_length canonical_name
response_reaches_client_example =
    response_reaches_client env default_config (site_of missing) page_request missing shop-IsPhp
      (λ ctx script. refl) refl refl refl (omega arith)

not_nil : (x : ℕ) (xs : List ℕ) → x ∷ xs ≢ []
not_nil x xs h = cc

hinted_status_lost_example :
    client_gets page_request (handle env default_config (site_of hinting) page_request) ≡ plain 200
unfolding hinted lookup canonical_name accepts_gzip get_first has_hint
hinted_status_lost_example =
    hinted_status_lost env default_config (site_of hinting) page_request hinting shop-IsPhp
      (λ ctx script. refl) refl refl (not_nil 63 [])

-- With a certificate of its own, and HTTP/3 asked for.
abbrev with_certificate : Config
with_certificate = record default_config {
  server = record default_config.server {
    http3 = true;
    tls = record default_config.server.tls { cert = "cert.pem"; key = "key.pem" };
  };
}

abbrev crypto : Crypto
crypto = record {
  generate_key = some 3;
  public_key = λ key. key;
  serial_below = λ n. some 5;
  create_certificate = λ template parent public_key key. some (template.serial_number ∷ []);
  marshal_private_key = λ key. some (key ∷ []);
  encode_to_memory = λ type bytes. bytes;
  now = 0;
}

abbrev machine : Machine
machine = record { mkdir_all = λ path. true; crypto = crypto; parses = λ cert key. true }

beside_listener_example :
    ((start machine with_certificate (new with_certificate)).0.has_http3 ≡ false)
    × ((start machine with_certificate (new with_certificate)).0.has_redirect ≡ false)
    × ((start machine with_certificate (new with_certificate)).1 ≢ err no_certificate)
    × (lookup "Alt-Svc" (alt_svc with_certificate) ≡ some "h3=\":443\"; ma=86400")
unfolding start new default_config
beside_listener_example = beside_listener machine with_certificate

-- The address of a client that speaks IPv6 is cut at its first colon.
ipv6_address_cut : before_colon "[2001:db8::1]:4711" ≡ "[2001"
unfolding before_colon
ipv6_address_cut = refl

header_key : http_key "User-Agent" ≡ "HTTP_USER_AGENT"
unfolding http_key upper_name
header_key = refl

laravel_entry : detect_entry_point (λ path. str_eq path "index.php") "auto" ≡ "index.php"
unfolding detect_entry_point first_candidate
laravel_entry = refl

-- A handler that sends a status and then changes the id of the request.
abbrev renaming : Request → Behaviour
renaming req = record {
  ops = status 204 ∷ [];
  panicked = false;
  left = record req { headers = ("X-Request-Id", "mine" ∷ []) ∷ req.headers };
}

abbrev replaced : Logged
replaced =
    recovery_middleware (request_id_middleware "0123" (logging_middleware env.written renaming))
      page_request

abbrev logged_as : String → LogEntry
logged_as id = record {
  method = "GET";
  path = "/shop.php";
  status = 204;
  bytes = 0;
  remote_addr = "10.0.0.1:4711";
  request_id = id;
}

-- The chain logs the id that the handler left, CoreMiddleware the one that it gave out.
ids_differ :
    ((core_middleware env.written "0123" renaming page_request).1 ≡ some (logged_as "0123"))
    × (replaced.entry ≡ some (logged_as "mine"))
unfolding core_middleware core_ops core_op reset write_header send_hints send_status has_hint
    passed_on get_first lookup insert canonical_name recovery_middleware request_id_middleware
    logging_middleware
ids_differ = (refl, refl)
