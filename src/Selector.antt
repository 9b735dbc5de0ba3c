-- ===== src/Selector.antt =====
-- internal/phpengine/selector.go: which PHP version a project gets.
-- A text that is read character by character is the list of its code points. `read_file` and
-- `require` stand for os.ReadFile and json.Unmarshal: the map of a composer.json, if it parses. The
-- name of the file is the project root joined with "composer.json", hence left to `read_file`.
pub mod Selected
use maboo.Base.{
  ℕ, ◌+◌, ◌-◌, ◌*◌, ◌%◌, String, Bool, true, false, not, ◌&&◌, ◌||◌, List, [], ◌∷◌, Option, none,
  some, ltb, leb, ◌==◌, str_eq, if◌then◌else◌,
}
use maboo.Base.Dict.{Dict, lookup}

abbrev pub Text : Type 0
Text = List ℕ

unfoldable pub is_digit : ℕ → Bool
is_digit c = leb 48 c && leb c 57

-- Unicode's White_Space, as strings.TrimSpace has it.
unfoldable pub is_space : ℕ → Bool
is_space c =
    (leb 9 c && leb c 13)
    || (c == 32)
    || (c == 133)
    || (c == 160)
    || (c == 5760)
    || (leb 8192 c && leb c 8202)
    || (c == 8232)
    || (c == 8233)
    || (c == 8239)
    || (c == 8287)
    || (c == 12288)

unfoldable pub trim_left : Text → Text
trim_left [] = []
trim_left (c ∷ cs) = let rest = trim_left cs in if is_space c then rest else c ∷ cs

abbrev pub is_nil : Text → Bool
is_nil [] = true
is_nil (c ∷ cs) = false

unfoldable pub trim_right : Text → Text
trim_right [] = []
trim_right (c ∷ cs) = let rest = trim_right cs in if is_space c && is_nil rest then [] else c ∷ rest

-- The digits that a text starts with, and what follows.
unfoldable pub digits : Text → Text × Text
digits [] = ([], [])
digits (c ∷ cs) = let (ds, rest) = digits cs in if is_digit c then (c ∷ ds, rest) else ([], c ∷ cs)

-- `\d+`
unfoldable pub some_digits : Text → Option (Text × Text)
unfolding digits
some_digits cs = let (ds, rest) = digits cs in if is_nil ds then none else some (ds, rest)

-- `\.`
abbrev pub dot : Text → Option Text
dot [] = none
dot (c ∷ cs) = if c == 46 then some cs else none

pub append : Text → Text → Text
append [] ys = ys
append (x ∷ xs) ys = x ∷ append xs ys

-- `(\d+\.\d+)`: the match and what follows.
unfoldable pub version_at : Text → Option (Text × Text)
unfolding some_digits append
version_at cs = elim (some_digits cs) [
  | none ↦ none
  | some (major, rest) ↦ elim (dot rest) [
    | none ↦ none
    | some rest' ↦ elim (some_digits rest') [
      | none ↦ none
      | some (minor, rest'') ↦ some (append major (46 ∷ minor), rest'')
    ]
  ]
]

abbrev pub group : Option (Text × Text) → Option Text
group none = none
group (some (v, rest)) = some v

-- `^>=?(\d+\.\d+)`, and the patterns with `^` and `~` in front.
unfoldable pub match_at_least : Text → Option Text
unfolding version_at
match_at_least [] = none
match_at_least (c ∷ []) = none
match_at_least (c ∷ d ∷ cs) =
    if c == 62
    then (if d == 61 then group (version_at cs) else group (version_at (d ∷ cs)))
    else none

unfoldable pub match_after : ℕ → Text → Option Text
unfolding version_at
match_after p [] = none
match_after p (c ∷ cs) = if c == p then group (version_at cs) else none

abbrev pub at_end : Text → Text → Option Text
at_end v [] = some v
at_end v (c ∷ cs) = none

-- `^(\d+\.\d+)\.\d+$`
unfoldable pub match_patch : Text → Option Text
unfolding version_at some_digits
match_patch cs = elim (version_at cs) [
  | none ↦ none
  | some (v, rest) ↦ elim (dot rest) [
    | none ↦ none
    | some rest' ↦ elim (some_digits rest') [ none ↦ none | some (patch, rest'') ↦ at_end v rest'' ]
  ]
]

-- `^\d+\.\d+$`
unfoldable pub match_exact : Text → Option Text
unfolding version_at
match_exact cs = elim (version_at cs) [ none ↦ none | some (v, rest) ↦ at_end v rest ]

abbrev pub or_else : Option Text → Option Text → Option Text
or_else (some v) o = some v
or_else none o = o

-- `int` arithmetic on 64 bits.
unfoldable pub atoi_from : ℕ → Text → ℕ
unfolding is_digit
atoi_from n [] = n
atoi_from n (c ∷ cs) =
    if is_digit c then atoi_from ((n * 10 + (c - 48)) % 18446744073709551616) cs else atoi_from n cs

unfoldable pub atoi : Text → ℕ
unfolding atoi_from
atoi s = atoi_from 0 s

-- `<` on signed 64-bit numbers.
unfoldable pub signed_lt : ℕ → ℕ → Bool
signed_lt a b =
    ltb ((a + 9223372036854775808) % 18446744073709551616)
      ((b + 9223372036854775808) % 18446744073709551616)

-- strings.Split at the dots: the first part, and the text behind the dot if there is one.
unfoldable pub split_dot : Text → Text × Option Text
split_dot [] = ([], none)
split_dot (c ∷ cs) =
    let (part, rest) = split_dot cs in if c == 46 then ([], some cs) else (c ∷ part, rest)

-- The numbers of the first two parts; a part that is missing counts 0.
unfoldable pub two_parts : Text → ℕ × ℕ
unfolding split_dot atoi
two_parts s =
    let (first, rest) = split_dot s in
    (atoi first, elim rest [ none ↦ 0 | some t ↦ atoi (split_dot t).0 ])

pub data Comparison : Type 0 where
  less same greater : Comparison

unfoldable pub compare_versions : Text → Text → Comparison
unfolding two_parts signed_lt
compare_versions a b =
    let (a0, a1) = two_parts a in
    let (b0, b1) = two_parts b in
    if signed_lt a0 b0
    then less
    else if signed_lt b0 a0
    then greater
    else if signed_lt a1 b1
    then less
    else if signed_lt b1 a1
    then greater
    else same

abbrev pub at_least : Comparison → Bool
at_least less = false
at_least same = true
at_least greater = true

abbrev pub php : ℕ → ℕ → Text
php major minor = (48 + major) ∷ 46 ∷ (48 + minor) ∷ []

abbrev pub php_versions : List Text
php_versions = php 7 4 ∷ php 8 0 ∷ php 8 1 ∷ php 8 2 ∷ php 8 3 ∷ php 8 4 ∷ []

-- The loop of `getHighestCompatible`, then the return behind it.
unfoldable pub first_compatible : Text → List Text → String
unfolding compare_versions
first_compatible min [] = "8.3"
first_compatible min (v ∷ vs) =
    let rest = first_compatible min vs in if at_least (compare_versions v min) then "8.3" else rest

unfoldable pub get_highest_compatible : Text → String
unfolding first_compatible
get_highest_compatible min = first_compatible min php_versions

unfoldable pub highest_for : Option Text → String
unfolding get_highest_compatible
highest_for none = ""
highest_for (some min) = get_highest_compatible min

-- The patterns in their order, then the exact version.
unfoldable pub find_version : Text → Option Text
unfolding match_at_least match_after match_patch match_exact
find_version c = or_else (match_at_least c) (
    or_else (match_after 94 c)
      (or_else (match_after 126 c) (or_else (match_patch c) (match_exact c))))

unfoldable pub resolve_version_constraint : Text → String
unfolding trim_left trim_right find_version highest_for
resolve_version_constraint constraint =
    highest_for (find_version (trim_right (trim_left constraint)))

unfoldable pub parse_composer_php_version : (List ℕ → Option (Dict Text)) → List ℕ → String
unfolding resolve_version_constraint
parse_composer_php_version require bytes = elim (require bytes) [
  | none ↦ ""
  | some map ↦ elim (lookup "php" map) [
    | none ↦ ""
    | some constraint ↦ resolve_version_constraint constraint
  ]
]

unfoldable pub select_version :
    (String → Option (List ℕ)) → (List ℕ → Option (Dict Text)) → String → String → String
unfolding parse_composer_php_version
select_version read_file require root explicit =
    if not (str_eq explicit "") && not (str_eq explicit "auto")
    then explicit
    else elim (read_file root) [
      | none ↦ "8.3"
      | some bytes ↦
          let version = parse_composer_php_version require bytes in
          if not (str_eq version "") then version else "8.3"
    ]
