-- ===== src/ProcessPool/Watcher/Walked.antt =====
-- The walks of internal/pool/watcher.go as loops over the files that they visit.
use maboo.Base.{
  ℕ, String, Bool, false, ◌&&◌, ◌||◌, ◌≡◌, refl, sym, inl, inr, List, [], ◌∷◌, ◌++◌, Option, none,
  some, str_eq, if◌then◌else◌, Bool-cases,
}
use maboo.ProcessPool.Watcher.{
  Node, file, dir, failing, Entries, end, entry, FileSystem, Watcher, is_skipped, is_watched_file,
  walk, walk_entries, walk_dirs,
}

-- The files below an entry, those of the skipped directories left out.
unfoldable mutual
  pub files : Node → List String
  files (file path) = path ∷ []
  files (dir name es) = let rest = files_in es in if is_skipped name then [] else rest
  files failing = []

  files_in : Entries → List String
  files_in end = []
  files_in (entry node es) = files node ++ files_in es

unfoldable pub all_files : (String → Node) → List String → List String
unfolding files
all_files root [] = []
all_files root (d ∷ ds) = files (root d) ++ all_files root ds

abbrev pub is_listed : String → List String → Bool
is_listed p [] = false
is_listed p (q ∷ qs) = str_eq q p || is_listed p qs

-- What the watcher is to know of a path: its time, if it is a watched file of the tree.
unfoldable pub modified : FileSystem → Watcher → String → Option ℕ
unfolding all_files is_watched_file
modified fs w path =
    if is_watched_file w path && is_listed path (all_files fs.root w.dirs)
    then some (fs.mtime path)
    else none

module _ {S : Type 0} (visit : String → S → S) where
  abbrev pub fold : List String → S → S
  fold [] s = s
  fold (p ∷ ps) s = fold ps (visit p s)

  fold-append : (ps qs : List String) (s : S) → fold (ps ++ qs) s ≡ fold qs (fold ps s)
  fold-append [] qs s = refl
  fold-append (p ∷ ps) qs s = fold-append ps qs (visit p s)

  mutual
    unfolding walk files

    walk-files : (n : Node) (s : S) → walk visit n s ≡ fold (files n) s
    walk-files (file path) s = refl
    walk-files (dir name es) s = elim (Bool-cases (is_skipped name)) [
      | inl e ↦ rw e refl
      | inr e ↦ rw e (walk_entries-files_in es s)
    ]
    walk-files failing s = refl

    walk_entries-files_in : (es : Entries) (s : S) → walk_entries visit es s ≡ fold (files_in es) s
    walk_entries-files_in end s = refl
    walk_entries-files_in (entry node es) s =
        rw (walk-files node s, walk_entries-files_in es (fold (files node) s))
          (sym (fold-append (files node) (files_in es) s))

  pub walk_dirs-all_files :
      (root : String → Node) (ds : List String) (s : S)
      → walk_dirs visit root ds s ≡ fold (all_files root ds) s
  unfolding walk_dirs all_files
  walk_dirs-all_files root [] s = refl
  walk_dirs-all_files root (d ∷ ds) s =
      rw (walk-files (root d) s, walk_dirs-all_files root ds (fold (files (root d)) s))
        (sym (fold-append (files (root d)) (all_files root ds) s))
