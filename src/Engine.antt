-- ===== src/Engine.antt =====
-- internal/phpengine/engine.go: the embedded interpreter, still a placeholder in the source.
-- `page version` stands for the embedded placeholder.html with the version put in.
use maboo.Base.{ℕ, String, Bool, true, false, not, ◌||◌, List, [], ◌∷◌, str_eq, if◌then◌else◌}
use maboo.Base.Dict.{Dict}
use maboo.Base.Results.{Result, ok, err}

pub record Engine : Type 0 where
  pub version : String
  pub started : Bool

pub record Response : Type 0 where
  pub status : ℕ
  pub headers : Dict String
  pub body : List ℕ

pub data EngineError : Type 0 where
  unsupported_version : String → EngineError
  not_started : EngineError

unfoldable pub contains : String → List String → Bool
contains s [] = false
contains s (t ∷ ts) = str_eq t s || contains s ts

abbrev pub valid_versions : List String
valid_versions = "7.4" ∷ "8.0" ∷ "8.1" ∷ "8.2" ∷ "8.3" ∷ "8.4" ∷ []

unfoldable pub new_engine : String → Result EngineError Engine
unfolding contains
new_engine version =
    if not (contains version valid_versions)
    then err (unsupported_version version)
    else ok (record { version = version; started = false })

-- `Startup` and `Shutdown` return no error: the result is the engine.
unfoldable pub startup : Engine → Engine
startup e = if e.started then e else record e { started = true }

unfoldable pub shutdown : Engine → Engine
shutdown e = if not e.started then e else record e { started = false }

-- The context and the script are not used yet.
unfoldable pub execute : (String → List ℕ) → Engine → Result EngineError Response
execute page e =
    if not e.started
    then err not_started
    else ok (record {
      status = 200;
      headers = ("Content-Type", "text/html; charset=utf-8") ∷ [];
      body = page e.version;
    })
