-- ===== src/ProcessPool/Pairing/Readied.antt =====
-- internal/pool/pool.go with processes of the protocol: a worker on its way
-- back to the channel, and a new one.
use maboo.Base.{
  ℕ, ◌≤◌, ◌≡◌, refl, ap, ◌∙◌, inl, inr, false, [], ◌∷◌, ◌==◌, arith, ◌<◌, ◌≢◌, sym, subst, true,
}
use maboo.Protocol.Wire.{Frame, WriteError}
use maboo.WorkerPool.Ids.{remove, count, count-cons, count-remove, count-mem, mem}
use maboo.ProcessPool.Pool.{Pool, World, store, register}
use maboo.ProcessPool.Serve.{read_ready}
use maboo.ProcessPool.System.{System, Call, called, begun, ended}
use maboo.ProcessPool.Ownership.{Inv, launches}
use maboo.ProcessPool.Pairing.{rests, SyncedAt}
use maboo.ProcessPool.Pairing.Calls.{read_ready-empties}
use maboo.Base.Results.{Result, ok}
use maboo.ProcessPool.Sequential.Calls.{store-heap}
use maboo.ProcessPool.Worker.{Worker, returned}
use maboo.ProcessPool.Pairing.Moved.{by_worker, moved-SyncedAt}

module _ (world : World) (answer : ℕ → Frame → Frame) (s : System) (v : Inv s)
    (y : (x : ℕ) → SyncedAt world answer x s) where
  pub answer-Synced :
      (w : ℕ) (req resp : Frame)
      → mem w s.holding ≡ true
      → s.calls w ≡ ended req (ok resp)
      → (x : ℕ)
      → SyncedAt world answer x
          (record s { holding = remove w s.holding; answered = w ∷ s.answered })
  answer-Synced w req resp m e =
      let t : System = record s { holding = remove w s.holding; answered = w ∷ s.answered } in
      let z = y w in
      let p = v.each w in
      let held = count-mem w s.holding m in
      by_worker (λ x. SyncedAt world answer x t) w
        (record {
          no_call = λ k. (λ r c. ground (arith, e, c), λ r sent c. ground (arith, e, c));
          read_out = λ k. absurd (omega (arith, held, p.alone));
          unsent = λ r k c. absurd (ground (arith, e, c));
          owed = λ r k c. absurd (ground (arith, e, c));
          paired = λ r f k c. absurd (ground (arith, count-remove w w s.holding m, p.alone));
          pending = λ k. elim (z.paired req resp held e) [
            | inl (_, _, left) ↦ left
            | inr (_, left) ↦ inr left
          ];
        })
        (λ x other.
          moved-SyncedAt world answer x s t (omega arith) (omega arith)
            (omega (arith, count-remove x w s.holding m))
            (ground (arith, other, count-cons x w s.answered)) (omega arith) (λ k. refl) refl (y x))

  pub get_ready-Synced :
      (w : ℕ) (worker : Worker)
      → mem w s.answered ≡ true
      → read_ready world w (s.pool.heap w) ≡ returned worker (ok tt)
      → (x : ℕ)
      → SyncedAt world answer x (record s {
        pool = store w worker s.pool;
        answered = remove w s.answered;
        returning = w ∷ s.returning;
      })
  unfolding store
  get_ready-Synced w worker m h =
      let t : System = record s {
        pool = store w worker s.pool;
        answered = remove w s.answered;
        returning = w ∷ s.returning;
      } in
      let z = y w in
      let p = v.each w in
      let due = count-mem w s.answered m in
      by_worker (λ x. SyncedAt world answer x t) w
        (record {
          no_call = λ k. z.no_call (inr (omega (arith, due)));
          read_out = λ k.
              ap (λ (u : Worker). u.stdout) (store-heap w worker s.pool)
              ∙ read_ready-empties world w (s.pool.heap w) worker (z.pending due) h;
          unsent = λ r k c. absurd (omega (arith, due, p.alone));
          owed = λ r k c. absurd (omega (arith, due, p.alone));
          paired = λ r f k c. absurd (omega (arith, due, p.alone));
          pending = λ k. absurd (ground (arith, count-remove w w s.answered m, p.alone));
        })
        (λ x other.
          moved-SyncedAt world answer x s t (omega arith)
            (ground (arith, other, count-cons x w s.returning)) (omega arith)
            (omega (arith, count-remove x w s.answered m)) (omega arith)
            (λ k. ground (arith, other)) refl (y x))

  -- A worker that `NewWorker` has made, for a `Reload` or not.
  pub joined-Synced :
      (id : ℕ) (worker : Worker) (t : System)
      → 0 < launches id s
      → worker.stdout ≡ []
      → t.pool ≡ register id worker s.pool
      → t.calls ≡ s.calls
      → t.holding ≡ s.holding
      → t.answered ≡ s.answered
      → ((x : ℕ) → (id == x) ≡ false → (rests x t ≤ rests x s) × (launches x t ≤ launches x s))
      → (x : ℕ) → SyncedAt world answer x t
  unfolding register store
  joined-Synced id worker t new empty e c h a others =
      let p = v.each id in
      let z = y id in
      let held : count id t.holding ≡ 0 = omega (arith, ap (count id) h, p.alone) in
      let none_answered : count id t.answered ≡ 0 = omega (arith, ap (count id) a, p.alone) in
      by_worker (λ x. SyncedAt world answer x t) id
        (record {
          no_call = λ k.
              subst
                (λ (call : Call).
                  ((r : Frame) → call ≢ called r)
                  × ((r : Frame) (sent : Result WriteError (Unit {0})) → call ≢ begun r sent))
                (ap (λ (f : ℕ → Call). f id) (sym c)) (z.no_call (inr (omega (arith, new))));
          read_out = λ k.
              ap (λ (u : Pool). (u.heap id).stdout) e
              ∙ ap (λ (u : Worker). u.stdout) (store-heap id worker s.pool)
              ∙ empty;
          unsent = λ r k d. absurd (omega (arith, held));
          owed = λ r k d. absurd (omega (arith, held));
          paired = λ r f k d. absurd (omega (arith, held));
          pending = λ k. absurd (omega (arith, none_answered));
        })
        (λ x other.
          let (r, l) = others x other in
          moved-SyncedAt world answer x s t (ground (arith, ap (λ (u : Pool). u.next_id) e)) r
            (omega (arith, ap (count x) h)) (omega (arith, ap (count x) a)) l
            (λ k. ap (λ (u : Pool). (u.heap x).stdout) e ∙ ground (arith, other))
            (ap (λ (f : ℕ → Call). f x) c) (y x))
