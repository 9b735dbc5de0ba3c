-- ===== src/ProcessPool/Pairing/Moved.antt =====
-- internal/pool/pool.go with processes of the protocol: steps after which a worker
-- has no more places.
use maboo.Base.{
  ℕ, ◌+◌, ◌≤◌, ◌≡◌, ap, ◌∙◌, inl, inr, false, [], ◌==◌, if◌then◌else◌, arith, Bool-cases, ◌<◌, ◌⊎◌,
  sym, subst,
}
use maboo.Protocol.Wire.{Frame}
use maboo.WorkerPool.Ids.{count}
use maboo.ProcessPool.Pool.{World, store}
use maboo.ProcessPool.System.{System, Call}
use maboo.ProcessPool.Ownership.{launches}
use maboo.ProcessPool.Pairing.{rests, SyncedAt, Paired, Owed, Returned, Synced, ready_bytes}
use maboo.ProcessPool.Worker.{Worker}

-- A step that leaves the worker and its call as they are, and gives it no new place of a kind.
pub fewer-Synced :
    {answer : Frame → Frame} {x next rest held answered coming : ℕ} {worker : Worker} {call : Call}
    {next' rest' held' answered' coming' : ℕ} {worker' : Worker} {call' : Call}
    → ((next' < x) ⊎ (0 < rest' + answered' + coming')
        → (next < x) ⊎ (0 < rest + answered + coming))
    → (0 < rest' → 0 < rest)
    → (0 < held' → 0 < held)
    → (0 < answered' → 0 < answered)
    → (0 < rest' + held' + answered' → worker'.stdout ≡ worker.stdout)
    → call' ≡ call
    → Synced answer x next rest held answered coming worker call
    → Synced answer x next' rest' held' answered' coming' worker' call'
fewer-Synced {answer = answer} n r h a w c v = record {
  no_call = λ k. (
    λ req e. (v.no_call (n k)).0 req (sym c ∙ e),
    λ req sent e. (v.no_call (n k)).1 req sent (sym c ∙ e),
  );
  read_out = λ k. w (omega arith) ∙ v.read_out (r k);
  unsent = λ req k e. w (omega arith) ∙ v.unsent req (h k) (sym c ∙ e);
  owed = λ req k e. subst (Owed answer req) (sym (w (omega arith))) (v.owed req (h k) (sym c ∙ e));
  paired = λ req resp k e.
      subst (Returned answer req resp) (sym (w (omega arith)))
        (v.paired req resp (h k) (sym c ∙ e));
  pending =
      λ k. subst (λ b. (b ≡ ready_bytes) ⊎ (b ≡ [])) (sym (w (omega arith))) (v.pending (a k));
}

-- One worker that the step is about, and the others.
pub by_worker : (P : ℕ → Type 0) (w : ℕ) → P w → ((x : ℕ) → (w == x) ≡ false → P x) → (x : ℕ) → P x
by_worker P w here others x = elim (Bool-cases (w == x)) [
  | inl same ↦ subst P (ground (arith, same)) here
  | inr other ↦ others x other
]

module _ (world : World) (answer : ℕ → Frame → Frame) (x : ℕ) (s t : System) where
  pub moved-SyncedAt :
      s.pool.next_id ≤ t.pool.next_id
      → rests x t ≤ rests x s
      → count x t.holding ≤ count x s.holding
      → count x t.answered ≤ count x s.answered
      → launches x t ≤ launches x s
      → (0 < rests x t + count x t.holding + count x t.answered
          → (t.pool.heap x).stdout ≡ (s.pool.heap x).stdout)
      → t.calls x ≡ s.calls x
      → SyncedAt world answer x s
      → SyncedAt world answer x t
  moved-SyncedAt n r h a l w c v =
      fewer-Synced (λ k. ground (arith, n, r, a, l)) (λ k. omega (arith, r)) (λ k. omega (arith, h))
        (λ k. omega (arith, a)) w c v

-- A step that gives a worker no more places of any kind.
abbrev pub NoMore : ℕ → System → System → Type 0
NoMore x s t =
    (rests x t ≤ rests x s)
    × (count x t.holding ≤ count x s.holding)
    × (count x t.answered ≤ count x s.answered)
    × (launches x t ≤ launches x s)

pub no_more : (x : ℕ) (s : System) → NoMore x s s
no_more x s = (omega arith, omega arith, omega arith, omega arith)

module _ (world : World) (reply : ℕ → Frame → Frame) (s : System)
    (y : (x : ℕ) → SyncedAt world reply x s) where
  -- A worker leaves a request, for good or for the channel, or none moves.
  pub leave-Synced :
      (t : System)
      → t.pool.next_id ≡ s.pool.next_id
      → t.pool.heap ≡ s.pool.heap
      → t.calls ≡ s.calls
      → ((x : ℕ) → NoMore x s t)
      → Paired world reply t
  leave-Synced t n h c f = record {
    at_each = λ x.
        let (r, k, a, l) = f x in
        moved-SyncedAt world reply x s t (omega (arith, n)) r k a l
          (λ _. ap (λ (heap : ℕ → Worker). (heap x).stdout) h)
          (ap (λ (calls : ℕ → Call). calls x) c) (y x);
  }

  -- A worker that is with no request, and does not wait for one, changes.
  pub touched-Synced :
      (w : ℕ) (worker : Worker) (t : System)
      → rests w t + count w t.holding + count w t.answered ≡ 0
      → t.pool.next_id ≡ s.pool.next_id
      → t.pool.heap ≡ (store w worker s.pool).heap
      → t.calls ≡ s.calls
      → ((x : ℕ) → NoMore x s t)
      → Paired world reply t
  unfolding store
  touched-Synced w worker t away n h c f = record {
    at_each = λ x.
        let (r, k, a, l) = f x in
        moved-SyncedAt world reply x s t (omega (arith, n)) r k a l
          (λ there. ap (λ (heap : ℕ → Worker). (heap x).stdout) h ∙ elim (Bool-cases (w == x)) [
            | inl e ↦ absurd (ground (arith, e, away, there))
            | inr e ↦ ground (arith, e)
          ])
          (ap (λ (calls : ℕ → Call). calls x) c) (y x);
  }

  -- An id is taken.
  pub launched-Synced :
      (t : System)
      → t.pool.next_id ≡ s.pool.next_id + 1
      → t.pool.heap ≡ s.pool.heap
      → t.calls ≡ s.calls
      → ((x : ℕ)
          → (rests x t ≤ rests x s)
            × (count x t.holding ≤ count x s.holding)
            × (count x t.answered ≤ count x s.answered)
            × (launches x t ≤ (if s.pool.next_id + 1 == x then 1 else 0) + launches x s))
      → Paired world reply t
  launched-Synced t n h c f = record {
    at_each = λ x.
        let (r, k, a, l) = f x in
        fewer-Synced (λ z. ground (arith, n, r, a, l)) (λ z. omega (arith, r))
          (λ z. omega (arith, k)) (λ z. omega (arith, a))
          (λ _. ap (λ (heap : ℕ → Worker). (heap x).stdout) h)
          (ap (λ (calls : ℕ → Call). calls x) c) (y x);
  }
