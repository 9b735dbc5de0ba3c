-- ===== src/ProcessPool/Pairing/Settled.antt =====
-- internal/pool/pool.go with processes of the protocol: the pieces that several steps share.
use maboo.Base.{ℕ, ◌+◌, ◌≡◌, ap, ◌∙◌, true, [], ◌∷◌, ◌==◌, if◌then◌else◌, arith, refl}
use maboo.Protocol.Wire.{Frame}
use maboo.WorkerPool.Ids.{count, count-cons, count-nil, count_last, count-remove, mem, remove}
use maboo.ProcessPool.Pool.{World, Pool, store, send, done, stop_worker, remove_worker}
use maboo.ProcessPool.System.{System, Reload, sent_by, spawned_by}
use maboo.ProcessPool.System.Steps.{take_id}
use maboo.ProcessPool.Ownership.Pieces.{send-done}
use maboo.ProcessPool.Ownership.Stops.{remove_worker-relisted}
use maboo.ProcessPool.Pairing.{rests, SyncedAt, Paired}
use maboo.ProcessPool.Worker
use maboo.ProcessPool.Worker.{Worker}
use maboo.ProcessPool.Pairing.Moved.{leave-Synced, touched-Synced, launched-Synced, no_more, NoMore}

module _ (world : World) (reply : ℕ → Frame → Frame) (s : System)
    (y : (x : ℕ) → SyncedAt world reply x s) where
  -- A request lets go of its worker.
  pub let_go-Synced :
      (w : ℕ)
      → mem w s.holding ≡ true
      → Paired world reply (record s { holding = remove w s.holding })
  let_go-Synced w m =
      leave-Synced world reply s y _ refl refl refl
        (λ x. (omega arith, omega (arith, count-remove x w s.holding m), omega arith, omega arith))

  -- A worker goes into the channel.
  pub sent-Synced :
      (w : ℕ) (q : Pool) (t : System)
      → send w s.pool ≡ done q tt
      → t.pool.next_id ≡ q.next_id
      → t.pool.heap ≡ q.heap
      → t.calls ≡ s.calls
      → ((x : ℕ)
          → count x q.available ≡ count x s.pool.available + (if w == x then 1 else 0)
          → NoMore x s t)
      → Paired world reply t
  sent-Synced w q t h n k c f =
      let same = send-done s.pool q w h in
      leave-Synced world reply s y t (n ∙ ap (λ (p : Pool). p.next_id) same)
        (k ∙ ap (λ (p : Pool). p.heap) same) c
        (λ x. f x (
          omega
            (arith, ap (λ (p : Pool). count x p.available) same, count_last x w s.pool.available)))

  -- A worker is stopped.
  pub stopped-Synced :
      (w : ℕ)
      → rests w s + count w s.holding + count w s.answered ≡ 0
      → Paired world reply (record s { pool = stop_worker world w s.pool })
  unfolding stop_worker store
  stopped-Synced w away =
      touched-Synced world reply s y w
        (Worker.stop (world.php w) world.buffer (world.ends w) (s.pool.heap w)) _ away refl refl
        refl (λ x. no_more x s)

  -- A worker leaves the list.
  pub removed-Synced : (w : ℕ) → Paired world reply (record s { pool = remove_worker w s.pool })
  removed-Synced w =
      let same = remove_worker-relisted w s.pool in
      leave-Synced world reply s y _ (ap (λ (p : Pool). p.next_id) same)
        (ap (λ (p : Pool). p.heap) same) refl
        (λ x. (
          omega (arith, ap (λ (p : Pool). count x p.available) same),
          omega arith,
          omega arith,
          omega arith,
        ))

  -- A spawn outside a reload takes an id.
  pub spawns-Synced :
      Paired world reply
        (record s { pool = take_id s.pool; launching = (s.pool.next_id + 1) ∷ s.launching })
  unfolding take_id
  spawns-Synced = launched-Synced world reply s y _ refl refl refl (λ x. (
    omega arith,
    omega arith,
    omega arith,
    omega (arith, count-cons x (s.pool.next_id + 1) s.launching),
  ))

  -- A reload that is not with a worker.
  pub between-Synced :
      (r : Reload)
      → sent_by r ≡ []
      → spawned_by r ≡ []
      → Paired world reply (record s { reload = r })
  between-Synced r h k = leave-Synced world reply s y _ refl refl refl (λ x. (
    omega (arith, ap (count x) h, count-nil x),
    omega arith,
    omega arith,
    omega (arith, ap (count x) k, count-nil x),
  ))
