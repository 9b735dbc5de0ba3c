-- ===== src/ProcessPool/Lost.antt =====
-- internal/pool/pool.go: requests and the watchdog's rounds on a pool that has no worker left.
use maboo.Base.{
  some_inj, ◌≡◌, refl, sym, ap, subst, ◌∙◌, ◌⊎◌, inl, inr, false, List, [], ◌∷◌, some, arith,
}
use maboo.Base.Results.{err}
use maboo.Protocol.Wire.{Frame}
use maboo.ProcessPool.Pool.{Pool, World, Run, done, Task}
use maboo.ProcessPool.Serve.{
  no_available_worker, shutting_down, Wake, received, timed_out, ctx_done, Finish, exec,
  after_select, select, receive, arrive, Answer,
}
use maboo.ProcessPool.Upkeep.{
  check_health, check_workers, auto_scale, Wakeup, tick, shut_down, watchdog,
}

-- No worker is registered, none is in the channel, and the channel is open.
pub record Lost (p : Pool) : Type 0 where
  pub no_workers : p.workers ≡ []
  pub no_available : p.available ≡ []
  pub opened : p.closed ≡ false

-- Requests and rounds of the watchdog, in any order.
pub data Life (world : World) (p : Pool) : Pool → Type 0 where
  nothing : Life world p p
  then_exec :
      {q t : Pool} (wake : Wake) (finish : Finish) (req : Frame) (a : Answer)
      → Life world p q
      → exec world wake finish req q ≡ some (done t a)
      → Life world p t
  then_watchdog :
      {q t : Pool} (wakeups : List Wakeup) (tasks : List Task)
      → Life world p q
      → watchdog world wakeups q ≡ done t tasks
      → Life world p t

done_pool : {A : Type 0} (p q : Pool) (a b : A) → done p a ≡ done q b → p ≡ q
done_pool p q a b h = cc

exec_on_empty :
    (world : World) (wake : Wake) (finish : Finish) (req : Frame) (p : Pool) (r : Run Answer)
    → p.available ≡ []
    → p.closed ≡ false
    → exec world wake finish req p ≡ some r
    → (r ≡ done (arrive p) (err no_available_worker, []))
      ⊎ (r ≡ done (arrive p) (err shutting_down, []))
unfolding exec after_select select arrive
exec_on_empty world received finish req p r e opened h =
    absurd
      (ground (arith, h, opened, ap (λ l. after_select world finish req (receive (arrive p) l)) e))
exec_on_empty world timed_out finish req p r e opened h = inl (some_inj _ _ (sym h))
exec_on_empty world ctx_done finish req p r e opened h = ground (arith, h)

auto_scale-Lost : (world : World) (p : Pool) → Lost p → auto_scale world p ≡ done p []
unfolding auto_scale
auto_scale-Lost world p l = rw l.no_workers refl

check_health-Lost : (p : Pool) → Lost p → check_health p ≡ []
unfolding check_health check_workers
check_health-Lost p l = rw l.no_workers refl

watchdog-Lost :
    (world : World) (wakeups : List Wakeup) (p : Pool)
    → Lost p
    → watchdog world wakeups p ≡ done p []
unfolding watchdog
watchdog-Lost world [] p l = refl
watchdog-Lost world (shut_down ∷ wakeups) p l = refl
watchdog-Lost world (tick ∷ wakeups) p l =
    rw (auto_scale-Lost world p l)
      (rw (watchdog-Lost world wakeups p l) (rw (check_health-Lost p l) refl))

Lost-arrive : (p q : Pool) → Lost p → q ≡ arrive p → Lost q
unfolding arrive
Lost-arrive p q l e = record {
  no_workers = rw e l.no_workers;
  no_available = rw e l.no_available;
  opened = rw e l.opened;
}

Life-Lost : (world : World) (p q : Pool) → Lost p → Life world p q → Lost q
Life-Lost world p q l nothing = l
Life-Lost world p q l (then_exec {q = m} wake finish req a life h) =
    let k = Life-Lost world p m l life in
    elim (exec_on_empty world wake finish req m (done q a) k.no_available k.opened h) [
      | inl e ↦ Lost-arrive m q k (done_pool q (arrive m) _ _ e)
      | inr e ↦ Lost-arrive m q k (done_pool q (arrive m) _ _ e)
    ]
Life-Lost world p q l (then_watchdog {q = m} wakeups tasks life h) =
    let k = Life-Lost world p m l life in
    subst Lost (done_pool m q [] tasks (sym (watchdog-Lost world wakeups m k) ∙ h)) k

-- A pool that has lost its last worker does not recover by itself: after any requests and rounds of
-- the watchdog it still has none, any further rounds change nothing and start no goroutine, and a
-- request that returns fails, as it finds no worker or as the pool shuts down, and leaves no goroutine.
pub no_recovery :
    (world : World) (p q : Pool) (wakeups : List Wakeup) (wake : Wake) (finish : Finish)
    (req : Frame) (r : Run Answer)
    → Lost p
    → Life world p q
    → exec world wake finish req q ≡ some r
    → (q.workers ≡ [])
      × (watchdog world wakeups q ≡ done q [])
      × ((r ≡ done (arrive q) (err no_available_worker, []))
          ⊎ (r ≡ done (arrive q) (err shutting_down, [])))
no_recovery world p q wakeups wake finish req r l life h =
    let k = Life-Lost world p q l life in
    (
      k.no_workers,
      watchdog-Lost world wakeups q k,
      exec_on_empty world wake finish req q r k.no_available k.opened h,
    )
