-- ===== src/ProcessPool/Pairing/InTurn.antt =====
-- internal/pool/pool.go with processes of the protocol: the answers to requests that run one after the
-- other, whatever became of those before.
use maboo.Base.{
  ℕ, ◌+◌, ◌-◌, ◌≡◌, ◌≤◌, refl, ap, ◌∙◌, inl, inr, true, false, List, [], ◌∷◌, some, arith,
  Bool-cases, Option-cases,
}
use maboo.Base.Results.{Result, ok, err}
use maboo.Protocol.Wire.{Frame, type_request}
use maboo.WorkerPool.Ids.{mem, mem-here}
use maboo.ProcessPool.Worker
use maboo.ProcessPool.Worker.{Worker, WorkerError, Io, returned, waits}
use maboo.ProcessPool.Pool.{
  Settings, Pool, World, Task, done, start, new_pool, store, needs_recycle, count_busy, ◌>>=◌,
}
use maboo.ProcessPool.Serve.{
  Wake, received, timed_out, ctx_done, exec, after_select, receive, select, arrive, PoolError,
  Finish, completed, too_late, cancelled, serve, after_exec, read_ready,
}
use maboo.ProcessPool.Balance.{Io-cases, Result-cases}
use maboo.ProcessPool.Requests.{round, run_task, History}
use maboo.ProcessPool.History.{started-Balanced, History-Balanced}
use maboo.ProcessPool.Ownership.{disturbed}
use maboo.ProcessPool.Ownership.Reached.{running}
use maboo.ProcessPool.Ownership.Steps.{send-cases}
use maboo.ProcessPool.System.{at_rest, System, called, ended, set_call}
use maboo.ProcessPool.System.Steps.{Reach, here, next, request, take_worker}
use maboo.ProcessPool.Sequential.{History-Reach, Run-cases}
use maboo.ProcessPool.Sequential.Calls.{Reach-trans, set_call-same, exec_runs}
use maboo.ProcessPool.Pairing.{Obeys}
use maboo.ProcessPool.Pairing.Answered.{own_answer}

-- A request that is answered has the answer of its worker's call.
after_exec-ok :
    (world : World) (w : ℕ) (p q : Pool) (worker : Worker) (r : Result WorkerError Frame)
    (resp : Frame) (tasks : List Task)
    → after_exec world w p worker r ≡ done q (ok resp, tasks)
    → r ≡ ok resp
unfolding after_exec
after_exec-ok world w p q worker (err e) resp tasks h = absurd (ground (arith, h))
after_exec-ok world w p q worker (ok answered) resp tasks h =
    elim (Bool-cases (needs_recycle p worker)) [
      | inl b ↦ ground (arith, b, h)
      | inr b ↦ elim (Io-cases (read_ready world w worker)) [
        | inl e ↦ absurd (ground (arith, b, e, h))
        | inr (worker', s, e) ↦ elim (Result-cases s) [
          | inl (u, f) ↦ elim (send-cases w (store w worker' p)) [
            | inl sent ↦ ground (arith, b, e, f, sent, h)
            | inr (inl stuck) ↦ absurd (ground (arith, b, e, f, stuck, h))
            | inr (inr fault) ↦ absurd (ground (arith, b, e, f, fault, h))
          ]
          | inr (x, f) ↦ ground (arith, b, e, f, h)
        ]
      ]
    ]

-- A state in which the call of a request has returned this frame.
abbrev Returns : World → System → Frame → Frame → Type 0
Returns world s req resp =
    (w : ℕ) × (t : System) × Reach world s t
    × (t.reloaded ≡ s.reloaded)
    × (t.pool.cancelled ≡ s.pool.cancelled)
    × (mem w t.holding ≡ true)
    × (t.calls w ≡ ended req (ok resp))

serve-Returns :
    (world : World) (finish : Finish) (req resp : Frame) (s : System) (w : ℕ) (p q : Pool)
    (tasks : List Task)
    → mem w s.holding ≡ true
    → s.calls w ≡ called req
    → s.pool ≡ count_busy p
    → serve world finish req w p ≡ some (done q (ok resp, tasks))
    → Returns world s req resp
unfolding serve count_busy store
serve-Returns world completed req resp s w p q tasks m c same h =
    let sent = Worker.begin (world.php w) world.buffer req (p.heap w) in
    elim (Io-cases (Worker.await (world.php w) sent)) [
      | inl e ↦ absurd (ground (arith, e, h))
      | inr (worker, r, e) ↦
          let (calls, over, ran) = exec_runs world s w req worker r c (
            ap
              (λ (x : Pool).
                Worker.await (world.php w) (Worker.begin (world.php w) world.buffer req (x.heap w)))
              same
            ∙ e) in
          let is_ok : r ≡ ok resp =
            after_exec-ok world w (count_busy p) q worker r resp tasks (ground (arith, e, h)) in
          (
            w,
            record s { pool = store w worker s.pool; calls = calls },
            ran,
            refl,
            refl,
            m,
            over ∙ ap (ended req) is_ok,
          )
    ]
serve-Returns world too_late req resp s w p q tasks m c same h = absurd (ground (arith, h))
serve-Returns world cancelled req resp s w p q tasks m c same h = absurd (ground (arith, h))

received-Returns :
    (world : World) (finish : Finish) (req resp : Frame) (s : System) (xs : List ℕ) (q : Pool)
    (tasks : List Task)
    → s.pool.available ≡ xs
    → after_select world finish req (receive (arrive s.pool) xs) ≡ some (done q (ok resp, tasks))
    → Returns world s req resp
unfolding after_select arrive select count_busy
received-Returns world finish req resp s [] q tasks e h = absurd (ground (arith, h))
received-Returns world finish req resp s (w ∷ rest) q tasks e h =
    let taken : Pool = record (arrive s.pool) { available = rest } in
    let s1 : System = record s { pool = arrive s.pool; waiting = s.waiting + 1 } in
    let s2 : System = record s1 {
      pool = count_busy taken;
      calls = set_call w (called req) s1.calls;
      waiting = s1.waiting - 1;
      holding = w ∷ s1.holding;
    } in
    let (v, t, to_t, kept, on, held, over) =
      serve-Returns world finish req resp s2 w taken q tasks (mem-here w s1.holding)
        (set_call-same w (called req) s1.calls) refl h in
    let to_s2 : Reach world s s2 =
      next (next here (request s))
        (take_worker s1 w taken req (omega arith) (ap (receive s1.pool) e)) in
    (v, t, Reach-trans world to_s2 to_t, kept, on, held, over)

exec-Returns :
    (world : World) (wake : Wake) (finish : Finish) (req resp : Frame) (s : System) (q : Pool)
    (tasks : List Task)
    → exec world wake finish req s.pool ≡ some (done q (ok resp, tasks))
    → Returns world s req resp
unfolding exec after_select select arrive
exec-Returns world received finish req resp s q tasks h =
    received-Returns world finish req resp s s.pool.available q tasks refl h
exec-Returns world timed_out finish req resp s q tasks h = absurd (ground (arith, h))
exec-Returns world ctx_done finish req resp s q tasks h = absurd (ground (arith, h))

-- The goroutine that a request leaves does not change what the request returned.
result_kept :
    (world : World) (tasks : List Task) (q t : Pool) (x y : Result PoolError Frame)
    → (run_task world tasks q >>= λ u _. done u x) ≡ done t y
    → x ≡ y
result_kept world tasks q t x y h = elim (Run-cases (run_task world tasks q)) [
  | inl (u, unit, e) ↦ ground (arith, e, h)
  | inr e ↦ absurd (ground (arith, e, h))
]

round-Returns :
    (world : World) (wake : Wake) (finish : Finish) (req resp : Frame) (s : System) (t : Pool)
    → round world wake finish req s.pool ≡ some (done t (ok resp))
    → Returns world s req resp
unfolding round
round-Returns world wake finish req resp s t h =
    elim (Option-cases (exec world wake finish req s.pool)) [
      | inl e ↦ absurd (ground (arith, e, h))
      | inr (r, e) ↦ elim (Run-cases r) [
        | inl (q, (x, tasks), f) ↦
            let is_ok : x ≡ ok resp =
              result_kept world tasks q t x (ok resp) (ground (arith, e, f, h)) in
            exec-Returns world wake finish req resp s q tasks
              (e ∙ ap some (f ∙ ap (λ y. done q (y, tasks)) is_ok))
        | inr f ↦ absurd (ground (arith, e, f, h))
      ]
    ]

-- With processes of the protocol, after a start that went well and any requests, one after the other and
-- each with the goroutine that it left, whether they were answered, timed out, failed or gave up: a
-- request that is then answered has the answer of the process of some worker to this very request.
pub answered_in_turn :
    (world : World) (reply : ℕ → Frame → Frame) (cfg : Settings) (p q t : Pool) (wake : Wake)
    (finish : Finish) (req resp : Frame)
    → ((x : ℕ) → Obeys (world.php x) (reply x))
    → start world (new_pool cfg) ≡ done p (ok tt)
    → cfg.min_workers ≤ cfg.max_workers
    → History world p q
    → round world wake finish req q ≡ some (done t (ok resp))
    → req.type ≡ type_request
    → (w : ℕ) × (resp ≡ reply w req)
answered_in_turn world reply cfg p q t wake finish req resp o h room hist e asks =
    let (b, size) = started-Balanced world cfg p h room in
    let (c, few) = History-Balanced world p q hist b in
    let (s, to_s, same, kept) = History-Reach world (at_rest p) q hist in
    let (w, u, to_u, kept', on, held, over) =
      round-Returns world wake finish req resp s t (ap (round world wake finish req) same ∙ e) in
    let calm : disturbed u ≡ false =
      ground (arith, kept, kept', on, ap (λ (x : Pool). x.cancelled) same, c.running) in
    (
      w,
      own_answer world reply cfg u w req resp o (running p (ok tt) h (Reach-trans world to_s to_u))
          calm held over asks,
    )
