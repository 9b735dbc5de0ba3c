-- ===== src/Config.antt =====
-- internal/config/config.go and internal/config/defaults.go: the settings of the server.
-- `read_file` and `unmarshal` stand for os.ReadFile and yaml.v3, which fills in a config in place.
-- A `Duration` is its number of nanoseconds.
pub mod Accepted
use maboo.Base.{
  ℕ, String, Bool, true, false, not, ◌*◌, ◌&&◌, ◌||◌, List, [], ◌∷◌, Option, none, some, str_eq,
  if◌then◌else◌,
}
use maboo.Base.Dict.{Dict}
use maboo.Base.Ints.{ℤ, pos, lt}
use maboo.Base.Results.{Result, ok, err}

pub record AcmeConfig : Type 0 where
  pub email : String
  pub domains : List String
  pub cache_dir : String
  pub staging : Bool

pub record TlsConfig : Type 0 where
  pub auto : Bool
  pub cert : String
  pub key : String
  pub acme : AcmeConfig

pub record ServerConfig : Type 0 where
  pub address : String
  pub mode : String
  pub http2 : Bool
  pub http3 : Bool
  pub tls : TlsConfig
  pub http_redirect : Bool

pub record PhpConfig : Type 0 where
  pub version : String
  pub mode : String
  pub binary : String
  pub worker : String
  pub ini : Dict String

pub record AppConfig : Type 0 where
  pub root : String
  pub entry : String
  pub env : Dict String

pub record PoolConfig : Type 0 where
  pub min_workers : ℤ
  pub max_workers : ℤ
  pub max_jobs : ℤ
  pub max_memory : String
  pub idle_timeout : ℤ
  pub allocate_timeout : ℤ
  pub request_timeout : ℤ

pub record WebSocketConfig : Type 0 where
  pub enabled : Bool
  pub path : String
  pub worker : String
  pub max_connections : ℤ
  pub ping_interval : ℤ

pub record StaticConfig : Type 0 where
  pub root : String
  pub cache_control : String

pub record LogConfig : Type 0 where
  pub level : String
  pub format : String
  pub output : String

pub record MetricsConfig : Type 0 where
  pub enabled : Bool
  pub path : String

pub record WatchConfig : Type 0 where
  pub enabled : Bool
  pub dirs : List String
  pub interval : ℤ

pub record WorkerConfig : Type 0 where
  pub script : String
  pub pattern : String
  pub count : ℤ
  pub watch : List String

pub record Config : Type 0 where
  pub server : ServerConfig
  pub php : PhpConfig
  pub pool : PoolConfig
  pub app : AppConfig
  pub websocket : WebSocketConfig
  pub static : StaticConfig
  pub logging : LogConfig
  pub metrics : MetricsConfig
  pub watch : WatchConfig
  pub workers : List WorkerConfig

-- `value.Decode(&s)` gives `decoded`; `parse_duration` and `print_duration` are those of time.
pub data DurationError : Type 0 where
  not_a_string : DurationError
  invalid_duration : String → DurationError

abbrev pub parsed_duration : String → Option ℤ → Result DurationError ℤ
parsed_duration s none = err (invalid_duration s)
parsed_duration s (some d) = ok d

unfoldable pub unmarshal_yaml : (String → Option ℤ) → Option String → Result DurationError ℤ
unmarshal_yaml parse_duration none = err not_a_string
unmarshal_yaml parse_duration (some s) = parsed_duration s (parse_duration s)

unfoldable pub marshal_yaml : (ℤ → String) → ℤ → String
marshal_yaml print_duration d = print_duration d

abbrev pub seconds : ℕ → ℤ
seconds n = pos (n * 1000000000)

unfoldable pub default_config : Config
default_config = record {
  server = record {
    address = "0.0.0.0:8080";
    mode = "native";
    http2 = true;
    http3 = false;
    tls = record {
      auto = false;
      cert = "";
      key = "";
      acme = record { email = ""; domains = []; cache_dir = ""; staging = false };
    };
    http_redirect = false;
  };
  php = record {
    version = "auto";
    mode = "worker";
    binary = "";
    worker = "";
    ini = ("memory_limit", "256M") ∷ ("max_execution_time", "30") ∷ [];
  };
  pool = record {
    min_workers = pos 4;
    max_workers = pos 32;
    max_jobs = pos 10000;
    max_memory = "128M";
    idle_timeout = seconds 60;
    allocate_timeout = seconds 30;
    request_timeout = seconds 30;
  };
  app = record { root = "."; entry = "auto"; env = [] };
  websocket = record {
    enabled = false;
    path = "/ws";
    worker = "";
    max_connections = pos 10000;
    ping_interval = seconds 30;
  };
  static = record { root = "public"; cache_control = "public, max-age=3600" };
  logging = record { level = "info"; format = "json"; output = "stdout" };
  metrics = record { enabled = true; path = "/metrics" };
  watch = record { enabled = false; dirs = []; interval = seconds 2 };
  workers = [];
}

pub data ConfigError : Type 0 where
  bad_min_workers bad_max_workers bad_max_jobs bad_mode bad_version : ConfigError
  no_php_worker no_address no_websocket_worker : ConfigError

abbrev pub valid_modes : List String
valid_modes = "worker" ∷ "request" ∷ []

abbrev pub version_settings : List String
version_settings = "auto" ∷ "7.4" ∷ "8.0" ∷ "8.1" ∷ "8.2" ∷ "8.3" ∷ "8.4" ∷ []

-- Whether a Go map with these keys, all true, holds the text.
unfoldable pub holds : String → List String → Bool
holds s [] = false
holds s (t ∷ ts) = str_eq t s || holds s ts

abbrev pub is_empty : {A : Type 0} → List A → Bool
is_empty [] = true
is_empty (x ∷ xs) = false

-- A chain of `if ... { return err }`: the first test that holds, or nil.
unfoldable pub checks : List (Bool × ConfigError) → Option ConfigError
checks [] = none
checks ((b, e) ∷ rest) = let others = checks rest in if b then some e else others

unfoldable pub tests : Config → List (Bool × ConfigError)
tests c =
    (lt c.pool.min_workers (pos 1), bad_min_workers)
    ∷ (lt c.pool.max_workers c.pool.min_workers, bad_max_workers)
    ∷ (lt c.pool.max_jobs (pos 0), bad_max_jobs)
    ∷ (not (holds c.php.mode valid_modes), bad_mode)
    ∷ (not (holds c.php.version version_settings), bad_version)
    ∷ (
      not (str_eq c.php.binary "") && (str_eq c.php.worker "" && is_empty c.workers),
      no_php_worker,
    )
    ∷ (str_eq c.server.address "", no_address)
    ∷ (c.websocket.enabled && str_eq c.websocket.worker "", no_websocket_worker)
    ∷ []

unfoldable pub validate : Config → Option ConfigError
unfolding checks tests
validate c = checks (tests c)

pub data LoadError : Type 0 where
  reading parsing : LoadError
  invalid : ConfigError → LoadError

unfoldable pub load :
    (String → Option (List ℕ))
    → (List ℕ → Config → Option Config)
    → String
    → Result LoadError Config
load read_file unmarshal path = elim (read_file path) [
  | none ↦ err reading
  | some bytes ↦ elim (unmarshal bytes default_config) [
    | none ↦ err parsing
    | some cfg ↦ elim (validate cfg) [ none ↦ ok cfg | some e ↦ err (invalid e) ]
  ]
]
