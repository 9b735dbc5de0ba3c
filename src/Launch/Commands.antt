-- ===== src/Launch/Commands.antt =====
-- cmd/maboo/main.go: the commands, the logger's settings, and the order in which `serve` starts and stops
-- things. What the process prints and logs is left out.
use maboo.Base.{ℕ, String, Bool, true, false, List, [], ◌∷◌, str_eq, ◌||◌, if◌then◌else◌}

-- `args` are those after the program's name. A command ends with an exit status but for `serve`, which
-- gets the path of the config.
pub data Command : Type 0 where
  serve : String → Command
  exit : ℕ → Command

abbrev pub config_path : List String → String
config_path [] = "maboo.yaml"
config_path (path ∷ rest) = path

unfoldable pub command : List String → Command
command [] = exit 1
command (name ∷ rest) =
    if str_eq name "serve" || str_eq name "start"
    then serve (config_path rest)
    else if str_eq name "version" || str_eq name "help"
    then exit 0
    else exit 1

pub data Level : Type 0 where
  debug info warn error : Level

-- `setupLogger`: the level, and whether it writes text rather than JSON.
unfoldable pub setup_logger : String → String → Level × Bool
setup_logger level format = (
  (if str_eq level "debug"
      then debug
      else if str_eq level "warn"
      then warn
      else if str_eq level "error"
      then error
      else info),
  str_eq format "text",
)

-- The calls of `serve`, in their order.
pub data Call : Type 0 where
  load_config start_pool start_server reload_pool stop_server stop_pool : Call
  exits : ℕ → Call

-- What `serve` is woken by: SIGUSR1; SIGINT or SIGTERM; or a server that ended with an error, after
-- which it sends itself SIGTERM.
pub data Signal : Type 0 where
  reload quit server_failed : Signal

-- From the running server on; signals that come after the first of the others are not read.
unfoldable pub await_signals : List Signal → List Call
await_signals [] = []
await_signals (reload ∷ signals) = reload_pool ∷ await_signals signals
await_signals (quit ∷ signals) = stop_server ∷ stop_pool ∷ []
await_signals (server_failed ∷ signals) = stop_server ∷ stop_pool ∷ []

-- `loads` and `starts` tell whether the config can be loaded and the pool started.
unfoldable pub run_serve : (loads starts : Bool) → List Signal → List Call
unfolding await_signals
run_serve false starts signals = load_config ∷ exits 1 ∷ []
run_serve true false signals = load_config ∷ start_pool ∷ exits 1 ∷ []
run_serve true true signals = load_config ∷ start_pool ∷ start_server ∷ await_signals signals
