-- ===== src/ProcessPool/Watcher.antt =====
-- internal/pool/watcher.go: the watcher of the PHP files, which reloads the pool.
-- A file system at one moment is what `filepath.Walk` finds from each root, and the `ModTime` of each
-- path. Nothing changes during a walk. Of a time only the order counts.
pub mod Walked
pub mod Changes
pub mod Quiet
use maboo.Base.{
  ℕ, String, Bool, true, false, ◌||◌, List, [], ◌∷◌, Option, none, some, ltb, str_eq, if◌then◌else◌,
}
use maboo.Base.Dict.{Dict, lookup, insert, keys}
use maboo.Base.Paths.{ext, lower, is_one_of}

-- A file by its path, a directory by its `Name`, in the order of the walk; `failing` is an entry that
-- the callback gets with an error.
mutual
  pub data Node : Type 0 where
    file : String → Node
    dir : String → Entries → Node
    failing : Node

  pub data Entries : Type 0 where
    end : Entries
    entry : Node → Entries → Entries

pub record FileSystem : Type 0 where
  pub root : String → Node
  pub mtime : String → ℕ

pub record Watcher : Type 0 where
  pub dirs : List String
  pub exts : List String
  pub cancelled : Bool
  pub mtimes : Dict ℕ

unfoldable pub new_watcher : List String → Watcher
new_watcher dirs = record {
  dirs = dirs;
  exts = ".php" ∷ ".inc" ∷ ".phtml" ∷ [];
  cancelled = false;
  mtimes = [];
}

-- `filepath.SkipDir`
unfoldable pub is_skipped : String → Bool
is_skipped name = str_eq name "vendor" || (str_eq name "node_modules" || str_eq name ".git")

unfoldable pub is_watched_file : Watcher → String → Bool
unfolding ext lower is_one_of
is_watched_file w path = is_one_of (lower (ext path)) w.exts

module _ {S : Type 0} (visit : String → S → S) where
  -- `filepath.Walk` with the callback that both walks share; `visit` is what it does to a file.
  unfoldable mutual
    pub walk : Node → S → S
    walk (file path) s = visit path s
    walk (dir name es) s = let rest = walk_entries es s in if is_skipped name then s else rest
    walk failing s = s

    pub walk_entries : Entries → S → S
    walk_entries end s = s
    walk_entries (entry node es) s = walk_entries es (walk node s)

  unfoldable pub walk_dirs : (String → Node) → List String → S → S
  unfolding walk
  walk_dirs root [] s = s
  walk_dirs root (d ∷ ds) s = walk_dirs root ds (walk (root d) s)

-- Whether a file that is there was not, or was older.
abbrev pub is_newer : ℕ → Option ℕ → Bool
is_newer t none = true
is_newer t (some old) = ltb old t

abbrev pub is_none : Option ℕ → Bool
is_none none = true
is_none (some t) = false

-- The last loop: a path of the old map that the new one lacks.
unfoldable pub some_deleted : List String → Dict ℕ → Bool
unfolding lookup
some_deleted [] current = false
some_deleted (path ∷ paths) current = is_none (lookup path current) || some_deleted paths current

module _ (fs : FileSystem) where
  unfoldable pub see : Watcher → String → Dict ℕ → Dict ℕ
  unfolding insert is_watched_file
  see w path m = if is_watched_file w path then insert path (fs.mtime path) m else m

  unfoldable pub scan : Watcher → Watcher
  unfolding walk_dirs see
  scan w = record w { mtimes = walk_dirs (see w) fs.root w.dirs w.mtimes }

  unfoldable pub compare_file : Watcher → String → Bool × Dict ℕ → Bool × Dict ℕ
  unfolding lookup insert is_watched_file
  compare_file w path (changed, current) =
      if is_watched_file w path
      then (
        changed || is_newer (fs.mtime path) (lookup path w.mtimes),
        insert path (fs.mtime path) current,
      )
      else (changed, current)

  unfoldable pub detect_changes : Watcher → Watcher × Bool
  unfolding walk_dirs compare_file some_deleted keys
  detect_changes w =
      let (changed, current) = walk_dirs (compare_file w) fs.root w.dirs (false, []) in
      (record w { mtimes = current }, changed || some_deleted (keys w.mtimes) current)

unfoldable pub start : FileSystem → Watcher → Watcher
unfolding scan
start fs w = scan fs w

-- The goroutine of `Start` on the ticks that it takes before it is cancelled, each with the file system
-- that it finds: whether it calls `onChange`.
unfoldable pub ticks : List FileSystem → Watcher → List Bool
unfolding detect_changes
ticks [] w = []
ticks (fs ∷ later) w = let (w', changed) = detect_changes fs w in changed ∷ ticks later w'

unfoldable pub stop : Watcher → Watcher
stop w = record w { cancelled = true }
