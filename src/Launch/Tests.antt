-- ===== src/Launch/Tests.antt =====
-- Examples for internal/config, internal/phpengine and cmd/maboo.
use maboo.Base.{ℕ, ◌≡◌, ◌↔◌, refl, String, List, [], ◌∷◌, Option, some, none, length}
use maboo.Base.Dict.{Dict}
use maboo.Base.Ints.{lt}
use maboo.Base.Results.{ok}
use maboo.Config.{Config, default_config, load, validate, checks, tests, holds}
use maboo.Config.Accepted.{Accepted, validate_iff}
use maboo.Selector.{Text, select_version}
use maboo.Selector.Selected.{select_version_lem}
use maboo.WorkerPool.Pool.{Pool, start, new_pool, done}
use maboo.Launch.{settings, load_starts}

abbrev a_file : String → Option (List ℕ)
a_file path = some (123 ∷ 125 ∷ [])

abbrev keeps_defaults : List ℕ → Config → Option Config
keeps_defaults bytes c = some c

-- `~7.4`
abbrev requires_7_4 : List ℕ → Option (Dict Text)
requires_7_4 bytes = some (("php", 126 ∷ 55 ∷ 46 ∷ 52 ∷ []) ∷ [])

validate_iff_example :
    (validate default_config ≡ none)
    ↔ ((lo : ℕ) × (hi : ℕ) × (jobs : ℕ) × Accepted default_config lo hi jobs)
validate_iff_example = validate_iff default_config

select_version_lem_example : select_version a_file requires_7_4 "." "auto" ≡ "8.3"
select_version_lem_example = select_version_lem a_file requires_7_4 "." "auto"

default_loads : load a_file keeps_defaults "maboo.yaml" ≡ ok default_config
unfolding load validate checks tests holds default_config lt
default_loads = refl

load_starts_example :
    (lo : ℕ) × (hi : ℕ) × (jobs : ℕ) × Accepted default_config lo hi jobs
    × (q : Pool) × (start (
          new_pool (
            settings default_config
              (select_version a_file requires_7_4 default_config.app.root
                default_config.php.version)
              lo
              hi
              jobs))
        ≡ done q (ok tt))
    × (length q.workers ≡ lo)
    × (q.available ≡ q.workers)
load_starts_example =
    load_starts a_file keeps_defaults requires_7_4 "maboo.yaml" default_config default_loads
