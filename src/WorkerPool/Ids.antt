-- ===== src/WorkerPool/Ids.antt =====
-- Lists of worker ids, as internal/worker/pool.go searches and cuts them.
use maboo.Base.{
  ℕ, ◌+◌, ◌≤◌, ◌<◌, ◌≡◌, refl, Bool, true, false, ◌||◌, List, [], ◌∷◌, ◌++◌, ◌==◌, if◌then◌else◌,
  length, arith,
}

unfoldable pub mem : ℕ → List ℕ → Bool
mem w [] = false
mem w (v ∷ vs) = v == w || mem w vs

-- `append(workers[:i], workers[i+1:]...)` at the first worker of that id.
unfoldable pub remove : ℕ → List ℕ → List ℕ
remove w [] = []
remove w (v ∷ vs) = if v == w then vs else v ∷ remove w vs

-- How often an id occurs.
unfoldable pub count : ℕ → List ℕ → ℕ
count x [] = 0
count x (v ∷ vs) = (if v == x then 1 else 0) + count x vs

pub count-cons : (x v : ℕ) (vs : List ℕ) → count x (v ∷ vs) ≡ (if v == x then 1 else 0) + count x vs
unfolding count
count-cons x v vs = refl

pub count-nil : (x : ℕ) → count x [] ≡ 0
unfolding count
count-nil x = refl

pub count-append : (x : ℕ) (xs ys : List ℕ) → count x (xs ++ ys) ≡ count x xs + count x ys
unfolding count
count-append x [] ys = omega arith
count-append x (v ∷ vs) ys = omega (arith, count-append x vs ys)

pub count_last :
    (x v : ℕ) (vs : List ℕ) → count x (vs ++ v ∷ []) ≡ (if v == x then 1 else 0) + count x vs
count_last x v vs = omega (arith, count-append x vs (v ∷ []), count-cons x v [], count-nil x)

pub count-mem : (x : ℕ) (xs : List ℕ) → mem x xs ≡ true → 0 < count x xs
unfolding mem count
count-mem x [] h = cc
count-mem x (v ∷ vs) h = ground (arith, count-mem x vs)

pub mem-count : (x : ℕ) (xs : List ℕ) → 0 < count x xs → mem x xs ≡ true
unfolding mem count
mem-count x [] h = absurd (omega arith)
mem-count x (v ∷ vs) h = ground (arith, mem-count x vs)

pub mem-here : (w : ℕ) (ws : List ℕ) → mem w (w ∷ ws) ≡ true
unfolding mem
mem-here w ws = ground arith

-- Of an id that occurs, one occurrence goes.
pub count-remove :
    (x w : ℕ) (xs : List ℕ)
    → mem w xs ≡ true
    → (if w == x then 1 else 0) + count x (remove w xs) ≡ count x xs
unfolding mem remove count
count-remove x w [] h = cc
count-remove x w (v ∷ vs) h = ground (arith, count-remove x w vs)

pub length-remove : (w : ℕ) (xs : List ℕ) → mem w xs ≡ true → length (remove w xs) + 1 ≡ length xs
unfolding mem remove
length-remove w [] h = cc
length-remove w (v ∷ vs) h = ground (arith, length-remove w vs)

pub count-le-length : (x : ℕ) (xs : List ℕ) → count x xs ≤ length xs
unfolding count
count-le-length x [] = omega arith
count-le-length x (v ∷ vs) = ground (arith, count-le-length x vs)
