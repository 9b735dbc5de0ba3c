-- ===== src/ProcessPool/Ownership.antt =====
-- Who owns the workers of internal/pool/pool.go, in every interleaving.
pub mod Pieces
pub mod Moves
pub mod Changes
pub mod Stops
pub mod Workers
pub mod Reloads
pub mod Steps
pub mod Disturbed
pub mod Reached
use maboo.Base.{ℕ, ◌+◌, ◌≤◌, ◌<◌, ◌≡◌, sym, ap, ◌∙◌, ◌||◌, Bool, true, false, List, length, arith}
use maboo.WorkerPool.Ids.{count}
use maboo.ProcessPool.Pool.{Pool}
use maboo.ProcessPool.System.{System, sent_by, spawned_by}

-- The places of a worker that nobody has stopped, but for `checkHealth`, `Reload` and `Stop`.
abbrev pub lives : ℕ → System → ℕ
lives x s =
    count x s.pool.available
    + count x s.holding
    + count x s.answered
    + count x s.returning
    + count x s.retiring
    + count x s.stopping
    + count x s.arriving
    + count x s.lost
    + count x (sent_by s.reload)

-- The places of a worker that its own goroutine has stopped and has yet to take off the list.
abbrev pub deads : ℕ → System → ℕ
deads x s = count x s.removing + count x s.unlisting

abbrev pub launches : ℕ → System → ℕ
launches x s = count x s.launching + count x (spawned_by s.reload)

-- The places that a worker has with `checkHealth` and the goroutines that it started.
abbrev pub marks : ℕ → System → ℕ
marks x s = count x s.condemned + count x s.discarding

abbrev pub in_use : System → ℕ
in_use s = length s.holding + length s.answered + length s.returning

-- Whether a `Reload` has stopped a worker, or the shutdown has begun.
abbrev pub disturbed : System → Bool
disturbed s = s.reloaded || s.pool.cancelled

-- What holds of one worker, by the number of its places: it has one at most, and where it is on the
-- list it has one; one with a new id is nowhere. Until a `Reload` stops a worker, or
-- the shutdown, one that nobody has
-- stopped is on the list, its process has not been reaped, and `checkHealth` has started nothing for it.
pub record Sound (x next live dead listed launching marked seen : ℕ) (reaped shaken : Bool)
    : Type 0 where
  pub alone : live + dead + launching ≤ 1
  pub listed_once : listed ≤ live + dead
  pub nowhere : next < x → live + dead + launching + marked + seen ≡ 0
  pub unmarked : 0 < launching → marked + seen ≡ 0
  pub kept : shaken ≡ false → live ≤ listed
  pub fit : shaken ≡ false → 0 < live → reaped ≡ false
  pub spared : shaken ≡ false → 0 < marked → live ≡ 0

abbrev pub Placed : ℕ → System → Type 0
Placed x s =
    Sound x s.pool.next_id (lives x s) (deads x s) (count x s.pool.workers) (launches x s)
      (marks x s) (count x s.checking) (s.pool.heap x).reaped (disturbed s)

pub record Inv (s : System) : Type 0 where
  pub each : (x : ℕ) → Placed x s
  pub active : s.pool.active_workers ≡ length s.pool.workers
  pub busy : s.pool.busy_workers ≡ in_use s
  pub open_until : s.pool.cancelled ≡ false → s.pool.closed ≡ false

-- What a step does not change: all that the invariant reads of the pool, but for the channel and the
-- number of busy workers.
pub record Same (p q : Pool) : Type 0 where
  pub same_workers : q.workers ≡ p.workers
  pub same_id : q.next_id ≡ p.next_id
  pub same_active : q.active_workers ≡ p.active_workers
  pub same_closed : q.closed ≡ p.closed
  pub same_cancelled : q.cancelled ≡ p.cancelled
  pub same_reaped : (x : ℕ) → (q.heap x).reaped ≡ (p.heap x).reaped

pub Sound-same :
    {x next live dead listed launching marked seen : ℕ} {reaped shaken : Bool}
    {next' live' dead' listed' launching' marked' seen' : ℕ} {reaped' shaken' : Bool}
    → next' ≡ next
    → live' ≡ live
    → dead' ≡ dead
    → listed' ≡ listed
    → launching' ≡ launching
    → marked' ≡ marked
    → seen' ≡ seen
    → reaped' ≡ reaped
    → shaken' ≡ shaken
    → Sound x next live dead listed launching marked seen reaped shaken
    → Sound x next' live' dead' listed' launching' marked' seen' reaped' shaken'
Sound-same a l d i n m c r e v = record {
  alone = omega (arith, v.alone);
  listed_once = omega (arith, v.listed_once);
  nowhere = λ h. omega (arith, v.nowhere (omega arith));
  unmarked = λ h. omega (arith, v.unmarked (omega arith));
  kept = λ h. omega (arith, v.kept (sym e ∙ h));
  fit = λ h k. r ∙ v.fit (sym e ∙ h) (omega arith);
  spared = λ h k. omega (arith, v.spared (sym e ∙ h) (omega arith));
}

-- A step that moves a worker from a place to another where nobody has stopped it.
pub moved-Inv :
    (s t : System)
    → Inv s
    → Same s.pool t.pool
    → ((x : ℕ) → lives x t ≡ lives x s)
    → ((x : ℕ) → deads x t ≡ deads x s)
    → ((x : ℕ) → launches x t ≡ launches x s)
    → ((x : ℕ) → marks x t ≡ marks x s)
    → t.checking ≡ s.checking
    → t.reloaded ≡ s.reloaded
    → (s.pool.busy_workers ≡ in_use s → t.pool.busy_workers ≡ in_use t)
    → Inv t
moved-Inv s t v same l d n m c f b = record {
  each = λ x.
      Sound-same same.same_id (l x) (d x) (ap (count x) same.same_workers) (n x) (m x)
        (ap (count x) c) (same.same_reaped x) (ground (arith, f, same.same_cancelled)) (v.each x);
  active = same.same_active ∙ v.active ∙ ap length (sym same.same_workers);
  busy = b v.busy;
  open_until = λ h. same.same_closed ∙ v.open_until (sym same.same_cancelled ∙ h);
}
