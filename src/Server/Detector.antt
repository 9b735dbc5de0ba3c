-- ===== src/Server/Detector.antt =====
-- internal/phpengine/detector.go. `exists path` tells whether `os.Stat` finds the path below the
-- document root that is joined with it.
use maboo.Base.{String, Bool, not, ◌&&◌, List, [], ◌∷◌, str_eq, if◌then◌else◌}

abbrev pub candidates : List String
candidates = "public/index.php" ∷ "index.php" ∷ "app.php" ∷ "frontend.php" ∷ "main.php" ∷ []

unfoldable pub first_candidate : (String → Bool) → List String → String
first_candidate exists [] = "index.php"
first_candidate exists (c ∷ cs) =
    let rest = first_candidate exists cs in if exists c then c else rest

unfoldable pub detect_entry_point : (String → Bool) → String → String
unfolding first_candidate
detect_entry_point exists explicit =
    if not (str_eq explicit "") && not (str_eq explicit "auto")
    then explicit
    else first_candidate exists candidates

unfoldable pub detect_framework : (String → Bool) → String
detect_framework exists =
    if exists "artisan"
    then "laravel"
    else if exists "bin/console"
    then "symfony"
    else if exists "wp-config.php"
    then "wordpress"
    else if exists "core/lib/Drupal.php"
    then "drupal"
    else "generic"
