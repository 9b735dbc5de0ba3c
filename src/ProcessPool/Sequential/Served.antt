-- ===== src/ProcessPool/Sequential/Served.antt =====
-- internal/pool/pool.go: `Exec` from its start to its end as interleaved steps.
use maboo.Base.{
  ℕ, ◌++◌, ◌+◌, ◌-◌, ◌≡◌, refl, ap, ◌∙◌, inl, inr, true, List, [], ◌∷◌, some, arith, Bool-cases,
}
use maboo.Base.Results.{Result, ok, err}
use maboo.Protocol.Wire.{Frame}
use maboo.WorkerPool.Ids.{mem, mem-here, remove}
use maboo.ProcessPool.Worker
use maboo.ProcessPool.Worker.{Worker, WorkerError, Io, returned, waits}
use maboo.ProcessPool.Pool.{Pool, World, done, store, send, needs_recycle, count_busy, uncount_busy}
use maboo.ProcessPool.Serve.{
  Wake, received, timed_out, ctx_done, exec, after_select, receive, select, arrive,
  no_available_worker, shutting_down, Finish, completed, too_late, cancelled, serve, after_exec,
  Answer, after_ready, read_ready,
}
use maboo.ProcessPool.Balance.{Io-cases, Result-cases}
use maboo.ProcessPool.Ownership.Steps.{send-cases}
use maboo.ProcessPool.System.{System, called, begun, ended, set_call}
use maboo.ProcessPool.System.Steps.{
  here, next, exec_fails, wear_out, answer, time_out, drop_worker, request, give_up, take_worker,
  get_ready, miss_ready, give_back, exec_begins,
}
use maboo.ProcessPool.Sequential.Calls.{
  Leaves, Leaves-after, store-store, store-heap, set_call-same, exec_runs,
}

-- A request whose worker has answered.
module _ (world : World) (s : System) (w : ℕ) (p : Pool) where
  answered-Reach :
      (q : Pool) (worker : Worker) (resp : Frame) (a : Answer)
      → mem w s.answered ≡ true
      → s.pool ≡ store w worker p
      → after_ready world w resp p (read_ready world w worker) ≡ done q a
      → Leaves world s q a.1
  unfolding uncount_busy
  answered-Reach q worker resp a m same h = elim (Io-cases (read_ready world w worker)) [
    | inl e ↦ absurd (ground (arith, e, h))
    | inr (worker', r, e) ↦
        let read : read_ready world w (s.pool.heap w) ≡ returned worker' r =
          ap (λ x. read_ready world w (x.heap w)) same
          ∙ ap (read_ready world w) (store-heap w worker p)
          ∙ e in
        let stored : store w worker' s.pool ≡ store w worker' p =
          ap (store w worker') same ∙ store-store w worker' worker p in
        elim (Result-cases r) [
          | inl (u, f) ↦
              let s1 : System = record s {
                pool = store w worker' s.pool;
                answered = remove w s.answered;
                returning = w ∷ s.returning;
              } in
              elim (send-cases w (store w worker' p)) [
                | inl sent ↦
                    let back : Pool = record (store w worker' p) {
                      available = (store w worker' p).available ++ w ∷ [];
                    } in
                    (
                      record s1 { pool = uncount_busy back; returning = remove w s1.returning },
                      next (next here (get_ready s w worker' m (read ∙ ap (returned worker') f))) (
                          give_back s1 w back (mem-here w s.returning) (ap (send w) stored ∙ sent)),
                      ground (arith, e, f, sent, h),
                      refl,
                      inl (ground (arith, e, f, sent, h)),
                    )
                | inr (inl stuck) ↦ absurd (ground (arith, e, f, stuck, h))
                | inr (inr fault) ↦ absurd (ground (arith, e, f, fault, h))
              ]
          | inr (x, f) ↦ (
            record s {
              pool = uncount_busy (store w worker' s.pool);
              answered = remove w s.answered;
              retiring = w ∷ s.retiring;
            },
            next here (miss_ready s w worker' x m (read ∙ ap (returned worker') f)),
            ap uncount_busy stored ∙ ground (arith, e, f, h),
            refl,
            inr (w, ground (arith, e, f, h), mem-here w s.retiring),
          )
        ]
  ]

module _ (world : World) (s : System) (w : ℕ) (p : Pool) where
  -- A request whose call of the worker's `Exec` has returned.
  called-Reach :
      (q : Pool) (req : Frame) (worker : Worker) (r : Result WorkerError Frame) (a : Answer)
      → mem w s.holding ≡ true
      → s.calls w ≡ ended req r
      → s.pool ≡ store w worker p
      → after_exec world w p worker r ≡ done q a
      → Leaves world s q a.1
  unfolding after_exec uncount_busy needs_recycle store
  called-Reach q req worker (err e) a m c same h = (
    record s {
      pool = uncount_busy s.pool;
      holding = remove w s.holding;
      retiring = w ∷ s.retiring;
    },
    next here (exec_fails s w req e m c),
    ap uncount_busy same ∙ ground (arith, h),
    refl,
    inr (w, ground (arith, h), mem-here w s.retiring),
  )
  called-Reach q req worker (ok resp) a m c same h =
      let kept : needs_recycle s.pool (s.pool.heap w) ≡ needs_recycle p worker =
        ap (λ x. needs_recycle x (x.heap w)) same ∙ ap (needs_recycle p) (store-heap w worker p) in
      elim (Bool-cases (needs_recycle p worker)) [
        | inl b ↦ (
          record s {
            pool = uncount_busy s.pool;
            holding = remove w s.holding;
            retiring = w ∷ s.retiring;
          },
          next here (wear_out s w req resp m c (kept ∙ b)),
          ap uncount_busy same ∙ ground (arith, b, h),
          refl,
          inr (w, ground (arith, b, h), mem-here w s.retiring),
        )
        | inr b ↦
            let s1 : System = record s {
              holding = remove w s.holding;
              answered = w ∷ s.answered;
            } in
            Leaves-after world {t = s1} (next here (answer s w req resp m c (kept ∙ b))) refl (
              answered-Reach world s1 w p q worker resp a (mem-here w s.answered) same
                (ground (arith, b, h)))
      ]

-- The pool after a request that does not wait for its worker.
abbrev abandoned : World → Frame → ℕ → Pool → Pool
abandoned world req w p =
    uncount_busy (store w (Worker.begin (world.php w) world.buffer req (p.heap w)).0 p)

serve-Reach :
    (world : World) (finish : Finish) (req : Frame) (s : System) (w : ℕ) (p q : Pool) (a : Answer)
    → mem w s.holding ≡ true
    → s.calls w ≡ called req
    → s.pool ≡ count_busy p
    → serve world finish req w p ≡ some (done q a)
    → Leaves world s q a.1
unfolding serve count_busy uncount_busy store
serve-Reach world completed req s w p q a m c same h =
    let sent = Worker.begin (world.php w) world.buffer req (p.heap w) in
    elim (Io-cases (Worker.await (world.php w) sent)) [
      | inl e ↦ absurd (ground (arith, e, h))
      | inr (worker, r, e) ↦
          let (calls, over, ran) = exec_runs world s w req worker r c (
            ap
              (λ (x : Pool).
                Worker.await (world.php w) (Worker.begin (world.php w) world.buffer req (x.heap w)))
              same
            ∙ e) in
          let s1 : System = record s { pool = store w worker s.pool; calls = calls } in
          Leaves-after world {t = s1} ran refl (
            called-Reach world s1 w (count_busy p) q req worker r a m over
              (ap (store w worker) same) (ground (arith, e, h)))
    ]
serve-Reach world too_late req s w p q a m c same h =
    let sent = Worker.begin (world.php w) world.buffer req (s.pool.heap w) in
    let s1 : System = record s {
      pool = store w sent.0 s.pool;
      calls = set_call w (begun req sent.1) s.calls;
    } in
    elim (Bool-cases p.cfg.has_request_timeout) [
      | inl b ↦ (
        record s1 {
          pool = uncount_busy s1.pool;
          holding = remove w s1.holding;
          retiring = w ∷ s1.retiring;
        },
        next (next here (exec_begins s w req c))
            (time_out s1 w m (ap (λ (x : Pool). x.cfg.has_request_timeout) same ∙ b)),
        ap (abandoned world req w) same ∙ ground (arith, b, h),
        refl,
        inr (w, ground (arith, b, h), mem-here w s1.retiring),
      )
      | inr b ↦ absurd (ground (arith, b, h))
    ]
serve-Reach world cancelled req s w p q a m c same h =
    let sent = Worker.begin (world.php w) world.buffer req (s.pool.heap w) in
    let s1 : System = record s {
      pool = store w sent.0 s.pool;
      calls = set_call w (begun req sent.1) s.calls;
    } in
    elim (Bool-cases p.cfg.has_request_timeout) [
      | inl b ↦ elim (Bool-cases p.cancelled) [
        | inl off ↦ (
          record s1 {
            pool = uncount_busy s1.pool;
            holding = remove w s1.holding;
            lost = w ∷ s1.lost;
          },
          next (next here (exec_begins s w req c)) (
              drop_worker s1 w m (ap (λ (x : Pool). x.cfg.has_request_timeout) same ∙ b)
                (ap (λ (x : Pool). x.cancelled) same ∙ off)),
          ap (abandoned world req w) same ∙ ground (arith, b, off, h),
          refl,
          inl (ground (arith, b, off, h)),
        )
        | inr on ↦ absurd (ground (arith, b, on, h))
      ]
      | inr b ↦ absurd (ground (arith, b, h))
    ]

received-Reach :
    (world : World) (finish : Finish) (req : Frame) (s : System) (xs : List ℕ) (q : Pool)
    (a : Answer)
    → s.pool.available ≡ xs
    → after_select world finish req (receive (arrive s.pool) xs) ≡ some (done q a)
    → Leaves world s q a.1
unfolding after_select arrive select count_busy
received-Reach world finish req s [] q a e h = absurd (ground (arith, h))
received-Reach world finish req s (w ∷ rest) q a e h =
    let taken : Pool = record (arrive s.pool) { available = rest } in
    let s1 : System = record s { pool = arrive s.pool; waiting = s.waiting + 1 } in
    let s2 : System = record s1 {
      pool = count_busy taken;
      calls = set_call w (called req) s1.calls;
      waiting = s1.waiting - 1;
      holding = w ∷ s1.holding;
    } in
    Leaves-after world {t = s2}
      (next (next here (request s))
        (take_worker s1 w taken req (omega arith) (ap (receive s1.pool) e)))
      refl
      (serve-Reach world finish req s2 w taken q a (mem-here w s1.holding)
        (set_call-same w (called req) s1.calls) refl h)

pub exec-Reach :
    (world : World) (wake : Wake) (finish : Finish) (req : Frame) (s : System) (q : Pool)
    (a : Answer)
    → exec world wake finish req s.pool ≡ some (done q a)
    → Leaves world s q a.1
unfolding exec after_select select arrive
exec-Reach world received finish req s q a h =
    received-Reach world finish req s s.pool.available q a refl h
exec-Reach world timed_out finish req s q a h =
    let s1 : System = record s { pool = arrive s.pool; waiting = s.waiting + 1 } in
    (
      record s1 { waiting = s1.waiting - 1 },
      next (next here (request s))
          (give_up s1 timed_out no_available_worker s1.pool (omega arith) refl),
      ground (arith, h),
      refl,
      inl (ground (arith, h)),
    )
exec-Reach world ctx_done finish req s q a h = elim (Bool-cases s.pool.cancelled) [
  | inl off ↦
      let s1 : System = record s { pool = arrive s.pool; waiting = s.waiting + 1 } in
      (
        record s1 { waiting = s1.waiting - 1 },
        next (next here (request s))
            (give_up s1 ctx_done shutting_down s1.pool (omega arith) (ground (arith, off))),
        ground (arith, off, h),
        refl,
        inl (ground (arith, off, h)),
      )
  | inr on ↦ absurd (ground (arith, on, h))
]
