-- ===== src/ProcessPool/Watcher/Quiet.antt =====
-- The ticks of the watcher of internal/pool/watcher.go on a tree that stays as it is.
use maboo.Base.{
  ℕ, zero, suc, replicate, String, false, ◌≡◌, refl, inl, inr, List, [], Option, none, some, arith,
  Bool-cases,
}
use maboo.Base.Dict.{lookup}
use maboo.ProcessPool.Watcher.{
  FileSystem, Watcher, see, detect_changes, ticks, start, scan, new_watcher,
}
use maboo.ProcessPool.Watcher.Walked.{all_files, modified, walk_dirs-all_files}
use maboo.ProcessPool.Watcher.Changes.{
  is_changed, lookup-fold, lookup-current, detect_changes-all_files, detect_changes_iff,
}

-- The watcher knows the tree as it is.
abbrev Known : FileSystem → Watcher → Type 0
Known fs w = (p : String) → lookup p w.mtimes ≡ modified fs w p

is_changed_irrefl : (o : Option ℕ) → is_changed o o ≡ false
is_changed_irrefl none = refl
is_changed_irrefl (some t) = ground arith

detect_changes-Known :
    (fs : FileSystem) (w : Watcher)
    → Known fs w
    → ((detect_changes fs w).1 ≡ false) × Known fs (detect_changes fs w).0
unfolding modified
detect_changes-Known fs w known =
    let differs = (detect_changes_iff fs w "").0.0 in
    (
      elim (Bool-cases (detect_changes fs w).1) [
        | inl e ↦
            let (p, d) = differs e in
            absurd (ground (arith, d, known p, is_changed_irrefl (modified fs w p)))
        | inr e ↦ e
      ],
      λ p. rw (detect_changes-all_files fs w) (lookup-current fs w p),
    )

ticks-Known :
    (fs : FileSystem) (n : ℕ) (w : Watcher)
    → Known fs w
    → ticks (replicate n fs) w ≡ replicate n false
unfolding ticks
ticks-Known fs zero w known = refl
ticks-Known fs (suc n) w known =
    let (still, known') = detect_changes-Known fs w known in
    rw (still, ticks-Known fs n (detect_changes fs w).0 known') refl

start-Known : (fs : FileSystem) (dirs : List String) → Known fs (start fs (new_watcher dirs))
unfolding start scan new_watcher modified lookup
start-Known fs dirs p =
    let w = new_watcher dirs in
    rw (walk_dirs-all_files (see fs w) fs.root dirs [])
      (lookup-fold fs w p (all_files fs.root dirs) [])

-- While the tree stays as it was when the watcher was started, no tick reloads the workers.
pub quiet_ticks :
    (fs : FileSystem) (dirs : List String) (n : ℕ)
    → ticks (replicate n fs) (start fs (new_watcher dirs)) ≡ replicate n false
quiet_ticks fs dirs n = ticks-Known fs n (start fs (new_watcher dirs)) (start-Known fs dirs)
