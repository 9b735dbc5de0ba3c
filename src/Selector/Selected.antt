-- ===== src/Selector/Selected.antt =====
-- What internal/phpengine/selector.go selects.
use maboo.Base.{
  ℕ, String, ◌≡◌, refl, inl, inr, List, [], ◌∷◌, Option, none, some, str_eq, str_eq_iff, ◌||◌,
  if◌then◌else◌, arith, Option-cases, ◌⊎◌,
}
use maboo.Base.Dict.{Dict, lookup}
use maboo.Selector.{
  Text, find_version, trim_left, trim_right, highest_for, php_versions, first_compatible,
  get_highest_compatible, resolve_version_constraint, parse_composer_php_version, select_version,
}

first_compatible-lem : (min : Text) (vs : List Text) → first_compatible min vs ≡ "8.3"
unfolding first_compatible
first_compatible-lem min [] = refl
first_compatible-lem min (v ∷ vs) = ground (arith, first_compatible-lem min vs)

highest_for-lem : (o : Option Text) → (highest_for o ≡ "8.3") ⊎ (highest_for o ≡ "")
unfolding highest_for get_highest_compatible
highest_for-lem none = inr refl
highest_for-lem (some min) = inl (first_compatible-lem min php_versions)

parse_composer_php_version-lem :
    (require : List ℕ → Option (Dict Text)) (bytes : List ℕ)
    → (parse_composer_php_version require bytes ≡ "8.3")
      ⊎ (parse_composer_php_version require bytes ≡ "")
unfolding parse_composer_php_version resolve_version_constraint
parse_composer_php_version-lem require bytes = elim (Option-cases (require bytes)) [
  | inl e ↦ inr (rw (e, parse_composer_php_version) refl)
  | inr (map, e) ↦ elim (Option-cases (lookup "php" map)) [
    | inl f ↦ inr (rw (e, f, parse_composer_php_version) refl)
    | inr (t, f) ↦
        rw (e, f, parse_composer_php_version)
          (highest_for-lem (find_version (trim_right (trim_left t))))
  ]
]

-- Without a version in the config the selected version is 8.3, whatever composer.json requires; with
-- one it is that version.
pub select_version_lem :
    (read_file : String → Option (List ℕ)) (require : List ℕ → Option (Dict Text))
    (root explicit : String)
    → select_version read_file require root explicit
      ≡ (if str_eq explicit "" || str_eq explicit "auto" then "8.3" else explicit)
unfolding select_version
select_version_lem read_file require root explicit = elim (Option-cases (read_file root)) [
  | inl e ↦ ground arith
  | inr (bytes, e) ↦
      let version = parse_composer_php_version require bytes in
      ground (arith, e, parse_composer_php_version-lem require bytes, str_eq_iff version "")
]
