-- ===== src/ProcessPool/Sequential/Replaced.antt =====
-- internal/pool/pool.go: `replaceWorker` from its start to its end as interleaved steps.
use maboo.Base.{ℕ, ◌+◌, ◌-◌, ◌<◌, ◌≡◌, refl, inl, inr, true, ◌∷◌, arith, Bool-cases}
use maboo.WorkerPool.Ids.{mem, mem-here, remove}
use maboo.ProcessPool.Worker
use maboo.ProcessPool.Worker.{Worker, WorkerError, Io, returned, waits}
use maboo.ProcessPool.Pool.{
  Pool, World, done, register, remove_worker, stop_worker, refill, replace_worker, spawn_worker,
}
use maboo.ProcessPool.Balance.{Io-cases, Result-cases}
use maboo.ProcessPool.System.{System}
use maboo.ProcessPool.System.Steps.{
  take_id, Reach, here, next, stop_old, remove_old, go_on, go_home, respawn, join, join_fails,
  deliver,
}
use maboo.ProcessPool.Sequential.Calls.{Reach-trans, Gets}

-- `replaceWorker` once the old worker is gone.
refill-Reach :
    (world : World) (s : System) (t : Pool)
    → 0 < s.removed
    → refill world s.pool ≡ done t tt
    → Gets world s t
unfolding refill spawn_worker take_id
refill-Reach world s t some' h = elim (Bool-cases s.pool.cancelled) [
  | inl c ↦ (
    record s { removed = s.removed - 1 },
    next here (go_home s some' c),
    ground (arith, c, h),
    refl,
  )
  | inr c ↦
      let id : ℕ = s.pool.next_id + 1 in
      let s1 : System = record s { removed = s.removed - 1; respawning = s.respawning + 1 } in
      let s2 : System = record s1 {
        pool = take_id s1.pool;
        respawning = s1.respawning - 1;
        launching = id ∷ s1.launching;
      } in
      let launched : Reach world s s2 =
        next (next here (go_on s some' c)) (respawn s1 (omega arith)) in
      elim (Io-cases (Worker.new_worker (world.php id) (world.launch id) id)) [
        | inl e ↦ absurd (ground (arith, c, e, h))
        | inr (worker, r, e) ↦ elim (Result-cases r) [
          | inl (u, f) ↦
              let s3 : System = record s2 {
                pool = register id worker s2.pool;
                launching = remove id s2.launching;
                arriving = id ∷ s2.arriving;
              } in
              (
                record s3 { pool = t; arriving = remove id s3.arriving },
                next
                    (next launched
                      (join s2 id worker (mem-here id s1.launching) (ground (arith, e, f))))
                    (deliver s3 id t (mem-here id s2.arriving) (ground (arith, c, e, f, h))),
                refl,
                refl,
              )
          | inr (x, f) ↦ (
            record s2 { launching = remove id s2.launching },
            next launched
                (join_fails s2 id worker x (mem-here id s1.launching) (ground (arith, e, f))),
            ground (arith, c, e, f, h),
            refl,
          )
        ]
      ]
]

pub replace_worker-Reach :
    (world : World) (s : System) (w : ℕ) (t : Pool)
    → mem w s.retiring ≡ true
    → replace_worker world w s.pool ≡ done t tt
    → Gets world s t
unfolding replace_worker
replace_worker-Reach world s w t m h =
    let s1 : System = record s {
      pool = stop_worker world w s.pool;
      retiring = remove w s.retiring;
      removing = w ∷ s.removing;
    } in
    let s2 : System = record s1 {
      pool = remove_worker w s1.pool;
      removing = remove w s1.removing;
      removed = s1.removed + 1;
    } in
    let (u, rest, e, k) = refill-Reach world s2 t (omega arith) h in
    (
      u,
      Reach-trans world
          (next (next here (stop_old s w m)) (remove_old s1 w (mem-here w s.removing))) rest,
      e,
      k,
    )
