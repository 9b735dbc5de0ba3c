-- ===== src/ProcessPool/Watcher/Changes.antt =====
-- When the watcher of internal/pool/watcher.go sees a change.
use maboo.Base.{
  ℕ, String, Bool, true, false, ◌&&◌, ◌||◌, ◌≡◌, refl, ap, ◌↔◌, inl, inr, List, [], ◌∷◌, Option,
  none, some, ltb, str_eq, str_eq_iff, if◌then◌else◌, arith, Bool-cases, Option-cases,
}
use maboo.Base.Dict.{Dict, lookup, insert, keys, lookup-insert}
use maboo.ProcessPool.Watcher.{
  FileSystem, Watcher, is_watched_file, see, is_newer, compare_file, some_deleted, detect_changes,
}
use maboo.ProcessPool.Watcher.Walked.{all_files, is_listed, modified, fold, walk_dirs-all_files}

-- A file that came, went or got a later time.
abbrev pub is_changed : Option ℕ → Option ℕ → Bool
is_changed none none = false
is_changed none (some new) = true
is_changed (some old) none = true
is_changed (some old) (some new) = ltb old new

or_assoc : (a b c : Bool) → ((a || b) || c) ≡ (a || (b || c))
or_assoc true b c = refl
or_assoc false b c = refl

module _ (fs : FileSystem) (w : Watcher) where
  -- Whether a visit of the path finds it new or later.
  abbrev is_new : String → Bool
  is_new p = is_watched_file w p && is_newer (fs.mtime p) (lookup p w.mtimes)

  abbrev some_new : List String → Bool
  some_new [] = false
  some_new (p ∷ ps) = is_new p || some_new ps

  fold-compare_file :
      (ps : List String) (c : Bool) (m : Dict ℕ)
      → fold (compare_file fs w) ps (c, m) ≡ (c || some_new ps, fold (see fs w) ps m)
  unfolding compare_file see
  fold-compare_file [] c m = ground arith
  fold-compare_file (p ∷ ps) c m = elim (Bool-cases (is_watched_file w p)) [
    | inl e ↦
        let newer = is_newer (fs.mtime p) (lookup p w.mtimes) in
        rw (e, fold-compare_file ps (c || newer) (insert p (fs.mtime p) m))
          (ap (λ b. (b, fold (see fs w) ps (insert p (fs.mtime p) m)))
            (or_assoc c newer (some_new ps)))
    | inr e ↦ rw e (fold-compare_file ps c m)
  ]

  pub lookup-fold :
      (p : String) (ps : List String) (m : Dict ℕ)
      → lookup p (fold (see fs w) ps m)
        ≡ (if is_watched_file w p && is_listed p ps then some (fs.mtime p) else lookup p m)
  unfolding see
  lookup-fold p [] m = ground arith
  lookup-fold p (q ∷ qs) m =
      ground
        (arith, lookup-fold p qs (see fs w q m), str_eq_iff q p, lookup-insert q p (fs.mtime q) m)

  some_new-found :
      (ps : List String)
      → some_new ps ≡ true
      → (p : String) × (is_listed p ps ≡ true) × (is_new p ≡ true)
  some_new-found [] h = absurd (ground (arith, h))
  some_new-found (q ∷ qs) h = elim (Bool-cases (is_new q)) [
    | inl e ↦ (q, ground (arith, str_eq_iff q q), e)
    | inr e ↦
        let (p, found, new) = some_new-found qs (ground (arith, e, h)) in
        (p, ground (arith, found), new)
  ]

  some_new-is_listed :
      (p : String) (ps : List String) → is_listed p ps ≡ true → is_new p ≡ true → some_new ps ≡ true
  some_new-is_listed p [] h new = absurd (ground (arith, h))
  some_new-is_listed p (q ∷ qs) h new = elim (Bool-cases (str_eq q p)) [
    | inl e ↦ rw ((str_eq_iff q p).0 e, new) refl
    | inr e ↦ ground (arith, some_new-is_listed p qs (ground (arith, e, h)) new)
  ]

some_deleted-found :
    (ks : List String) (m : Dict ℕ)
    → some_deleted ks m ≡ true
    → (k : String) × (is_listed k ks ≡ true) × (lookup k m ≡ none)
unfolding some_deleted
some_deleted-found [] m h = absurd (ground (arith, h))
some_deleted-found (k ∷ ks) m h = elim (Option-cases (lookup k m)) [
  | inl e ↦ (k, ground (arith, str_eq_iff k k), e)
  | inr (t, e) ↦
      let (j, found, gone) = some_deleted-found ks m (ground (arith, e, h)) in
      (j, ground (arith, found), gone)
]

some_deleted-is_listed :
    (k : String) (ks : List String) (m : Dict ℕ)
    → is_listed k ks ≡ true
    → lookup k m ≡ none
    → some_deleted ks m ≡ true
unfolding some_deleted
some_deleted-is_listed k [] m h gone = absurd (ground (arith, h))
some_deleted-is_listed k (j ∷ ks) m h gone = elim (Bool-cases (str_eq j k)) [
  | inl e ↦ rw ((str_eq_iff j k).0 e, gone) refl
  | inr e ↦ ground (arith, some_deleted-is_listed k ks m (ground (arith, e, h)) gone)
]

-- A key is what a lookup finds.
is_listed-keys :
    (k : String) (m : Dict ℕ) → is_listed k (keys m) ≡ true → (t : ℕ) × (lookup k m ≡ some t)
unfolding keys lookup
is_listed-keys k [] h = absurd (ground (arith, h))
is_listed-keys k ((j, t) ∷ m) h = elim (Bool-cases (str_eq j k)) [
  | inl e ↦ (t, ground (arith, e))
  | inr e ↦
      let (u, found) = is_listed-keys k m (ground (arith, e, h)) in (u, ground (arith, e, found))
]

keys-is_listed :
    (k : String) (t : ℕ) (m : Dict ℕ) → lookup k m ≡ some t → is_listed k (keys m) ≡ true
unfolding keys lookup
keys-is_listed k t [] h = absurd (ground (arith, h))
keys-is_listed k t ((j, u) ∷ m) h = elim (Bool-cases (str_eq j k)) [
  | inl e ↦ ground (arith, e)
  | inr e ↦ ground (arith, e, keys-is_listed k t m (ground (arith, e, h)))
]

module _ (fs : FileSystem) (w : Watcher) where
  abbrev current : Dict ℕ
  current = fold (see fs w) (all_files fs.root w.dirs) []

  pub detect_changes-all_files : detect_changes fs w ≡ (
    record w { mtimes = current },
    some_new fs w (all_files fs.root w.dirs) || some_deleted (keys w.mtimes) current,
  )
  unfolding detect_changes
  detect_changes-all_files =
      rw
        (
          walk_dirs-all_files (compare_file fs w) fs.root w.dirs (false, []),
          fold-compare_file fs w (all_files fs.root w.dirs) false [],
        )
        refl

  pub lookup-current : (p : String) → lookup p current ≡ modified fs w p
  unfolding modified lookup
  lookup-current p = lookup-fold fs w p (all_files fs.root w.dirs) []

  change-seen :
      some_new fs w (all_files fs.root w.dirs) || some_deleted (keys w.mtimes) current ≡ true
      → (p : String) × (is_changed (lookup p w.mtimes) (modified fs w p) ≡ true)
  unfolding modified
  change-seen h = elim (Bool-cases (some_new fs w (all_files fs.root w.dirs))) [
    | inl e ↦
        let (p, found, new) = some_new-found fs w (all_files fs.root w.dirs) e in
        (p, ground (arith, found, new))
    | inr e ↦
        let (p, key, gone) = some_deleted-found (keys w.mtimes) current (ground (arith, e, h)) in
        let (t, known) = is_listed-keys p w.mtimes key in
        (p, ground (arith, known, gone, lookup-current p))
  ]

  seen-change :
      (p : String)
      → is_changed (lookup p w.mtimes) (modified fs w p) ≡ true
      → some_new fs w (all_files fs.root w.dirs) || some_deleted (keys w.mtimes) current ≡ true
  unfolding modified
  seen-change p h =
      elim (Bool-cases (is_watched_file w p && is_listed p (all_files fs.root w.dirs))) [
        | inl e ↦
            let new =
              some_new-is_listed fs w p (all_files fs.root w.dirs) (ground (arith, e))
                (ground (arith, e, h)) in
            ground (arith, new)
        | inr e ↦ elim (Option-cases (lookup p w.mtimes)) [
          | inl f ↦ absurd (ground (arith, e, f, h))
          | inr (t, f) ↦
              let gone =
                some_deleted-is_listed p (keys w.mtimes) current (keys-is_listed p t w.mtimes f)
                  (ground (arith, lookup-current p, e)) in
              ground (arith, gone)
        ]
      ]

-- A tick finds a change just where the times of some path differ: a watched file that has come, that
-- has gone, or whose time is later than the one known. Then the watcher knows of each path what the
-- tree says of it: the time of a watched file, outside `vendor`, `node_modules` and `.git`.
pub detect_changes_iff :
    (fs : FileSystem) (w : Watcher) (path : String)
    → (((detect_changes fs w).1 ≡ true)
        ↔ ((p : String) × (is_changed (lookup p w.mtimes) (modified fs w p) ≡ true)))
      × (lookup path (detect_changes fs w).0.mtimes ≡ modified fs w path)
detect_changes_iff fs w path =
    rw (detect_changes-all_files fs w)
      ((change-seen fs w, λ (p, h). seen-change fs w p h), lookup-current fs w path)
