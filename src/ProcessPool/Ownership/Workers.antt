-- ===== src/ProcessPool/Ownership/Workers.antt =====
-- internal/pool/pool.go: the steps that make and check workers, and the shutdown, keep the ownership.
use maboo.Base.{
  ℕ, ◌+◌, ◌≡◌, refl, ap, inl, inr, Bool, true, false, List, [], ◌∷◌, arith, length-append,
  Bool-cases, ◌⊎◌,
}
use maboo.Base.Results.{ok}
use maboo.WorkerPool.Ids.{mem, remove, count, count-cons, count_last, count-remove}
use maboo.ProcessPool.Worker
use maboo.ProcessPool.Worker.{Worker, WorkerError, Php, Io, returned, waits}
use maboo.ProcessPool.Pool.{Pool, store, register}
use maboo.ProcessPool.Upkeep.{check_workers, is_in_use}
use maboo.ProcessPool.System.{System, replaced}
use maboo.ProcessPool.System.Steps.{take_id}
use maboo.ProcessPool.Ownership.{Inv}
use maboo.ProcessPool.Ownership.Changes.{
  launched-Sound, joined-Sound, unlaunched-Sound, seen-Sound, inspected-Sound, shaken-Sound,
}
use maboo.ProcessPool.Ownership.Stops.{at}

pub new_worker-fresh :
    (php : Php) (id : ℕ) (worker : Worker) (launched : _)
    → Worker.new_worker php launched id ≡ returned worker (ok tt)
    → worker.reaped ≡ false
unfolding Worker.new_worker Worker.receive_frame
new_worker-fresh php id worker launched h = ground arith

-- A worker is handed to a goroutine only where its process was reaped.
replaced-check :
    (p : Pool) (w : ℕ) (old : List ℕ)
    → ((replaced (check_workers p (w ∷ [])) old ≡ w ∷ old) × ((p.heap w).reaped ≡ true))
      ⊎ (replaced (check_workers p (w ∷ [])) old ≡ old)
unfolding check_workers Worker.is_alive
replaced-check p w old = elim (Bool-cases (is_in_use (p.heap w).state)) [
  | inl h ↦ inr (rw h refl)
  | inr h ↦ elim (Bool-cases (p.heap w).reaped) [
    | inl r ↦ inl (rw (h, r) refl, r)
    | inr r ↦ inr (rw (h, r) refl)
  ]
]

module _ (s : System) (v : Inv s) where
  pub launch-Inv :
      (n : ℕ)
      → Inv (record s {
        pool = take_id s.pool;
        respawning = n;
        launching = (s.pool.next_id + 1) ∷ s.launching;
      })
  unfolding take_id
  launch-Inv n = record {
    each = λ x.
        launched-Sound (v.each x) (at (s.pool.next_id + 1) x) refl
          (omega (arith, count-cons x (s.pool.next_id + 1) s.launching)) (ground arith)
          (λ h. ground arith);
    active = v.active;
    busy = v.busy;
    open_until = v.open_until;
  }

  pub join-Inv :
      (id : ℕ) (worker : Worker)
      → mem id s.launching ≡ true
      → worker.reaped ≡ false
      → Inv (record s {
        pool = register id worker s.pool;
        launching = remove id s.launching;
        arriving = id ∷ s.arriving;
      })
  unfolding register store
  join-Inv id worker m fresh = record {
    each = λ x.
        joined-Sound (v.each x) (at id x) (omega (arith, count-remove x id s.launching m))
          (omega (arith, count-cons x id s.arriving)) (count_last x id s.pool.workers)
          (λ h. ground arith) (λ h. ground (arith, fresh));
    active = omega (arith, v.active, length-append s.pool.workers (id ∷ []));
    busy = v.busy;
    open_until = v.open_until;
  }

  pub join_fails-Inv :
      (id : ℕ) → mem id s.launching ≡ true → Inv (record s { launching = remove id s.launching })
  join_fails-Inv id m = record {
    each = λ x. unlaunched-Sound (v.each x) (omega (arith, count-remove x id s.launching m));
    active = v.active;
    busy = v.busy;
    open_until = v.open_until;
  }

  pub snapshot-Inv : Inv (record s { checking = s.pool.workers })
  snapshot-Inv = record {
    each = λ x. seen-Sound (v.each x);
    active = v.active;
    busy = v.busy;
    open_until = v.open_until;
  }

  pub inspect-Inv :
      (w : ℕ) (rest : List ℕ)
      → s.checking ≡ w ∷ rest
      → Inv (record s {
        checking = rest;
        condemned = replaced (check_workers s.pool (w ∷ [])) s.condemned;
      })
  inspect-Inv w rest e = record {
    each = λ x.
        let gone : count x rest + at w x ≡ count x s.checking =
          omega (arith, ap (count x) e, count-cons x w rest) in
        elim (replaced-check s.pool w s.condemned) [
          | inl (marked, dead_one) ↦
              inspected-Sound (v.each x) (at w x) (at w x) gone
                (omega (arith, ap (count x) marked, count-cons x w s.condemned)) (omega arith)
                (λ h. ground (arith, dead_one))
          | inr same ↦
              inspected-Sound (v.each x) (at w x) 0 gone (omega (arith, ap (count x) same))
                (omega arith) (λ h. absurd (omega arith))
        ];
    active = v.active;
    busy = v.busy;
    open_until = v.open_until;
  }

  -- After the shutdown the states of the workers do not matter.
  pub shut_down-Inv :
      (heap : ℕ → Worker) (closed : Bool)
      → Inv (record s { pool = record s.pool { heap = heap; closed = closed; cancelled = true } })
  shut_down-Inv heap closed = record {
    each = λ x. shaken-Sound (v.each x) (omega arith) (ground arith);
    active = v.active;
    busy = v.busy;
    open_until = λ h. cc;
  }
