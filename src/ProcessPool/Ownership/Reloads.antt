-- ===== src/ProcessPool/Ownership/Reloads.antt =====
-- internal/pool/pool.go: the steps of `Reload` and of the goroutine that it leaves keep the ownership.
use maboo.Base.{
  ℕ, suc, ◌+◌, ◌≡◌, refl, sym, ap, subst, true, false, List, [], ◌∷◌, ◌++◌, arith, length-append,
}
use maboo.WorkerPool.Ids.{count, count-cons, count-nil, count_last}
use maboo.ProcessPool.Worker.{Worker}
use maboo.ProcessPool.Pool.{Pool, World, done, store, register, send, remove_worker, stop_worker}
use maboo.ProcessPool.System.{
  System, Reload, no_reload, making, spawning, sending, spawned_by, sent_by,
}
use maboo.ProcessPool.System.Steps.{take_id}
use maboo.ProcessPool.Ownership.{Inv, Sound-same}
use maboo.ProcessPool.Ownership.Changes.{
  launched-Sound, joined-Sound, unlaunched-Sound, shaken-Sound,
}
use maboo.ProcessPool.Ownership.Stops.{
  at, remove_worker-count, remove_worker-active, remove_worker-relisted,
}
use maboo.ProcessPool.Ownership.Pieces.{send-done}
use maboo.ProcessPool.Ownership.Moves.{recounted-Inv}

module _ (s : System) (v : Inv s) where
  -- From one pause of `Reload` to another, where it has no worker under way.
  pub paused-Inv :
      (t : Reload) (draining : List ℕ)
      → spawned_by t ≡ spawned_by s.reload
      → sent_by t ≡ sent_by s.reload
      → Inv (record s { reload = t; draining = draining })
  paused-Inv t draining a b = record {
    each = λ x.
        Sound-same refl (omega (arith, ap (count x) b)) refl refl (omega (arith, ap (count x) a))
          refl refl refl refl (v.each x);
    active = v.active;
    busy = v.busy;
    open_until = v.open_until;
  }

  pub reload_spawns-Inv :
      (n : ℕ) (old made : List ℕ)
      → s.reload ≡ making (suc n) old made
      → Inv (record s { pool = take_id s.pool; reload = spawning (s.pool.next_id + 1) n old made })
  unfolding take_id
  reload_spawns-Inv n old made e = record {
    each = λ x.
        let id = s.pool.next_id + 1 in
        Sound-same refl (omega (arith, ap (λ r. count x (sent_by r)) e, count-nil x)) refl refl refl
          refl refl refl refl
          (launched-Sound (v.each x) (at id x) refl
            (omega (arith, ap (λ r. count x (spawned_by r)) e, count-nil x, count-cons x id []))
            (ground arith) (λ h. ground arith));
    active = v.active;
    busy = v.busy;
    open_until = v.open_until;
  }

  pub reload_joins-Inv :
      (id n : ℕ) (old made made' : List ℕ) (worker : Worker)
      → s.reload ≡ spawning id n old made
      → worker.reaped ≡ false
      → Inv (record s { pool = register id worker s.pool; reload = sending id n old made' })
  unfolding register store
  reload_joins-Inv id n old made made' worker e fresh = record {
    each = λ x.
        joined-Sound (v.each x) (at id x)
          (omega (arith, ap (λ r. count x (spawned_by r)) e, count-nil x, count-cons x id []))
          (omega (arith, ap (λ r. count x (sent_by r)) e, count-nil x, count-cons x id []))
          (count_last x id s.pool.workers) (λ h. ground arith) (λ h. ground (arith, fresh));
    active = omega (arith, v.active, length-append s.pool.workers (id ∷ []));
    busy = v.busy;
    open_until = v.open_until;
  }

  pub reload_fails-Inv :
      (id n : ℕ) (old made failing : List ℕ)
      → s.reload ≡ spawning id n old made
      → Inv (record s { reload = no_reload; failing = failing })
  reload_fails-Inv id n old made failing e = record {
    each = λ x.
        Sound-same refl (omega (arith, ap (λ r. count x (sent_by r)) e, count-nil x)) refl refl refl
          refl refl refl refl
          (unlaunched-Sound (v.each x)
            (omega (arith, ap (λ r. count x (spawned_by r)) e, count-nil x, count-cons x id [])));
    active = v.active;
    busy = v.busy;
    open_until = v.open_until;
  }

  pub reload_sends-Inv :
      (id n : ℕ) (old made : List ℕ) (q : Pool)
      → s.reload ≡ sending id n old made
      → send id s.pool ≡ done q tt
      → Inv (record s { pool = q; reload = making n old made })
  reload_sends-Inv id n old made q e h =
      let same = send-done s.pool q id h in
      recounted-Inv s v _ (s.pool.available ++ id ∷ []) s.pool.busy_workers s.pool.total_requests
        same
        (λ x. omega (
          arith,
          ap (λ (p : Pool). count x p.available) same,
          ap (λ r. count x (sent_by r)) e,
          count-nil x,
          count-cons x id [],
          count_last x id s.pool.available,
        ))
        (λ x. refl) (λ x. omega (arith, ap (λ r. count x (spawned_by r)) e, count-nil x))
        (λ x. refl) refl refl v.busy

  -- `Reload` stops a worker, wherever it is.
  pub reload_stops-Inv :
      (world : World) (w : ℕ) (failing draining drained : List ℕ)
      → Inv (record s {
        pool = stop_worker world w s.pool;
        failing = failing;
        draining = draining;
        drained = drained;
        reloaded = true;
      })
  unfolding stop_worker store
  reload_stops-Inv world w failing draining drained = record {
    each = λ x. shaken-Sound (v.each x) (omega arith) refl;
    active = v.active;
    busy = v.busy;
    open_until = v.open_until;
  }

  pub remove_drained-Inv :
      (w : ℕ) (drained : List ℕ)
      → Inv (record s { pool = remove_worker w s.pool; drained = drained; reloaded = true })
  remove_drained-Inv w drained =
      subst (λ p. Inv (record s { pool = p; drained = drained; reloaded = true }))
        (sym (remove_worker-relisted w s.pool))
        (record {
          each = λ x. shaken-Sound (v.each x) (omega (arith, remove_worker-count w x s.pool)) refl;
          active = remove_worker-active w s.pool v.active;
          busy = v.busy;
          open_until = v.open_until;
        })
