-- ===== src/ProcessPool/Ownership/Stops.antt =====
-- internal/pool/pool.go: the steps that stop workers and take them off the list keep the ownership.
use maboo.Base.{
  ℕ, ◌-◌, ◌≡◌, refl, sym, inl, inr, true, ◌∷◌, ◌==◌, if◌then◌else◌, length, arith, Bool-cases,
  subst,
}
use maboo.WorkerPool.Ids.{mem, remove, count, count-cons, count-remove, length-remove, mem-count}
use maboo.ProcessPool.Pool.{Pool, World, store, remove_worker, stop_worker}
use maboo.ProcessPool.System.{System}
use maboo.ProcessPool.Ownership.{Inv}
use maboo.ProcessPool.Ownership.Changes.{
  stopped-Sound, removed-Sound, restopped-Sound, discarded-Sound,
}

abbrev pub at : ℕ → ℕ → ℕ
at w x = if w == x then 1 else 0

-- A removal takes the worker off the list, if it is there, and keeps the count of workers.
pub remove_worker-count :
    (w x : ℕ) (p : Pool) → count x (remove_worker w p).workers ≡ count x p.workers - at w x
unfolding remove_worker
remove_worker-count w x p = ground (arith, count-remove x w p.workers, mem-count w p.workers)

pub remove_worker-active :
    (w : ℕ) (p : Pool)
    → p.active_workers ≡ length p.workers
    → (remove_worker w p).active_workers ≡ length (remove_worker w p).workers
unfolding remove_worker
remove_worker-active w p h = ground (arith, length-remove w p.workers)

-- The pool with another list and another count of workers.
abbrev relisted : Pool → Pool → Pool
relisted p q = record p { workers = q.workers; active_workers = q.active_workers }

pub remove_worker-relisted : (w : ℕ) (p : Pool) → remove_worker w p ≡ relisted p (remove_worker w p)
unfolding remove_worker
remove_worker-relisted w p = elim (Bool-cases (mem w p.workers)) [
  | inl h ↦ rw h refl
  | inr h ↦ rw h refl
]

stop_worker-reaped :
    (world : World) (w x : ℕ) (p : Pool)
    → at w x ≡ 0
    → ((stop_worker world w p).heap x).reaped ≡ (p.heap x).reaped
unfolding stop_worker store
stop_worker-reaped world w x p h = ground arith

module _ (world : World) (s : System) (v : Inv s) (w : ℕ) where
  pub stop_old-Inv :
      mem w s.retiring ≡ true
      → Inv (record s {
        pool = stop_worker world w s.pool;
        retiring = remove w s.retiring;
        removing = w ∷ s.removing;
      })
  unfolding stop_worker store
  stop_old-Inv m = record {
    each = λ x.
        stopped-Sound (v.each x) (at w x) (omega (arith, count-remove x w s.retiring m))
          (omega (arith, count-cons x w s.removing)) (stop_worker-reaped world w x s.pool);
    active = v.active;
    busy = v.busy;
    open_until = v.open_until;
  }

  pub stop_idle-Inv :
      mem w s.stopping ≡ true
      → Inv (record s {
        pool = stop_worker world w s.pool;
        stopping = remove w s.stopping;
        unlisting = w ∷ s.unlisting;
      })
  unfolding stop_worker store
  stop_idle-Inv m = record {
    each = λ x.
        stopped-Sound (v.each x) (at w x) (omega (arith, count-remove x w s.stopping m))
          (omega (arith, count-cons x w s.unlisting)) (stop_worker-reaped world w x s.pool);
    active = v.active;
    busy = v.busy;
    open_until = v.open_until;
  }

  pub stop_dead-Inv :
      mem w s.condemned ≡ true
      → Inv (record s {
        pool = stop_worker world w s.pool;
        condemned = remove w s.condemned;
        discarding = w ∷ s.discarding;
      })
  unfolding stop_worker store
  stop_dead-Inv m = record {
    each = λ x.
        restopped-Sound (v.each x)
          (omega (arith, count-remove x w s.condemned m, count-cons x w s.discarding))
          (λ h.
            stop_worker-reaped world w x s.pool (omega (arith, count-remove x w s.condemned m)));
    active = v.active;
    busy = v.busy;
    open_until = v.open_until;
  }

  pub remove_old-Inv :
      (n : ℕ)
      → mem w s.removing ≡ true
      → Inv
          (record s { pool = remove_worker w s.pool; removing = remove w s.removing; removed = n })
  remove_old-Inv n m =
      subst (λ p. Inv (record s { pool = p; removing = remove w s.removing; removed = n }))
        (sym (remove_worker-relisted w s.pool))
        (record {
          each = λ x.
              removed-Sound (v.each x) (at w x) (omega (arith, count-remove x w s.removing m))
                (remove_worker-count w x s.pool);
          active = remove_worker-active w s.pool v.active;
          busy = v.busy;
          open_until = v.open_until;
        })

  pub remove_idle-Inv :
      mem w s.unlisting ≡ true
      → Inv (record s { pool = remove_worker w s.pool; unlisting = remove w s.unlisting })
  remove_idle-Inv m =
      subst (λ p. Inv (record s { pool = p; unlisting = remove w s.unlisting }))
        (sym (remove_worker-relisted w s.pool))
        (record {
          each = λ x.
              removed-Sound (v.each x) (at w x) (omega (arith, count-remove x w s.unlisting m))
                (remove_worker-count w x s.pool);
          active = remove_worker-active w s.pool v.active;
          busy = v.busy;
          open_until = v.open_until;
        })

  pub remove_dead-Inv :
      (n : ℕ)
      → mem w s.discarding ≡ true
      → Inv (record s {
        pool = remove_worker w s.pool;
        discarding = remove w s.discarding;
        removed = n;
      })
  remove_dead-Inv n m =
      subst (λ p. Inv (record s { pool = p; discarding = remove w s.discarding; removed = n }))
        (sym (remove_worker-relisted w s.pool))
        (record {
          each = λ x.
              discarded-Sound (v.each x) (at w x) (omega (arith, count-remove x w s.discarding m))
                (remove_worker-count w x s.pool);
          active = remove_worker-active w s.pool v.active;
          busy = v.busy;
          open_until = v.open_until;
        })
