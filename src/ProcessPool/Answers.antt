-- ===== src/ProcessPool/Answers.antt =====
-- internal/pool with processes that keep the protocol: requests get their answers.
use maboo.Base.{
  ℕ, ◌+◌, ◌≤◌, ◌<◌, ◌≡◌, refl, ap, List, [], ◌∷◌, ◌++◌, Option, none, some, map, false, length,
  length-append, arith, All,
}
use maboo.Base.Results.{Result, ok}
use maboo.Protocol.Wire.{Frame, type_request, type_worker_ready, new_worker_ready_frame}
use maboo.WorkerPool.Ids.{count, count-cons, count_last}
use maboo.ProcessPool.Worker.{Worker, returned, begin, receive_frame, finish}
use maboo.ProcessPool.Pool.{
  Pool, World, done, blocked, silent, panicked, send, store, count_busy, uncount_busy,
  needs_recycle,
}
use maboo.ProcessPool.Serve.{
  received, Finish, completed, exec, after_select, serve, after_exec, read_ready, arrive, select,
  receive, PoolError,
}
use maboo.ProcessPool.Balance.{Balanced}
use maboo.ProcessPool.Requests.{round, map_some, round-Ends}
use maboo.ProcessPool.Exchange.{
  Answers, size, begin-sent, await-answered, receive_ready, replied, settled,
}

-- Requests that go to the pool in their order, with nothing timed out: what `Exec` returned to each.
unfoldable pub exec_all : World → List Frame → Pool → Option (List (Result PoolError Frame))
unfolding round
exec_all world [] p = some []
exec_all world (req ∷ reqs) p = elim (round world received completed req p) [
  | none ↦ none
  | some blocked ↦ none
  | some (silent w) ↦ none
  | some panicked ↦ none
  | some (done q a) ↦ map_some (λ answers. a ∷ answers) (exec_all world reqs q)
]

-- The bytes that some requests take on the wire.
unfoldable pub total_size : List Frame → ℕ
total_size [] = 0
total_size (req ∷ reqs) = size req + total_size reqs

-- A pool at rest with a worker at least, no limit of jobs, and in each idle worker nothing left to read
-- and room for `n` bytes.
pub record Ready (n : ℕ) (p : Pool) : Type 0 where
  pub balanced : Balanced p
  pub some_worker : 0 < length p.available
  pub no_limit : p.cfg.max_jobs ≡ 0
  pub empty : (w : ℕ) → 0 < count w p.available → (p.heap w).stdout ≡ []
  pub room : (w : ℕ) → 0 < count w p.available → n ≤ (p.heap w).stdin.room

read_ready-read :
    (world : World) (w : ℕ) (worker worker' : Worker) (f : Frame)
    → receive_frame (world.php w) worker ≡ returned worker' (ok f)
    → f.type ≡ type_worker_ready
    → read_ready world w worker ≡ returned worker' (ok tt)
unfolding read_ready
read_ready-read world w worker worker' f h t = rw (h, t, read_ready) refl

read_ready-replied :
    (world : World) (w : ℕ) (worker : Worker)
    → read_ready world w (replied worker) ≡ returned (settled worker) (ok tt)
unfolding new_worker_ready_frame
read_ready-replied world w worker =
    read_ready-read world w (replied worker) (settled worker) new_worker_ready_frame
      (receive_ready (world.php w) worker) refl

at_front : (w : ℕ) (rest xs : List ℕ) → xs ≡ w ∷ rest → 0 < count w xs
at_front w rest xs e = ground (arith, ap (count w) e, count-cons w w rest)

-- The worker goes back with its READY read.
abbrev given_back : ℕ → Worker → Pool → Pool
given_back w worker p =
    uncount_busy (record (store w worker p) { available = p.available ++ w ∷ [] })

after_exec-replied :
    (world : World) (w : ℕ) (p : Pool) (worker : Worker) (resp : Frame)
    → p.cfg.max_jobs ≡ 0
    → p.closed ≡ false
    → length p.available < p.cfg.max_workers
    → after_exec world w p (replied worker) (ok resp)
      ≡ done (given_back w (settled worker) p) (ok resp, [])
unfolding after_exec needs_recycle send store uncount_busy
after_exec-replied world w p worker resp unlimited opened room =
    ground (arith, read_ready-replied world w worker, unlimited, opened, room)

serve-answered :
    (world : World) (answer : Frame → Frame) (req : Frame) (w : ℕ) (p : Pool)
    → Answers (world.php w) answer
    → req.type ≡ type_request
    → (p.heap w).stdout ≡ []
    → size req ≤ (p.heap w).stdin.room
    → p.cfg.max_jobs ≡ 0
    → p.closed ≡ false
    → length p.available < p.cfg.max_workers
    → serve world completed req w p
      ≡ some (
          done
            (given_back w
              (settled (begin (world.php w) world.buffer req (p.heap w)).0)
              (count_busy p))
            (ok (answer req), []))
unfolding serve count_busy
serve-answered world answer req w p a asks empty fits unlimited opened room =
    rw (await-answered (world.php w) world.buffer answer req (p.heap w) a asks empty fits) (
      ap some (
        after_exec-replied world w (count_busy p)
          (begin (world.php w) world.buffer req (p.heap w)).0 (answer req) unlimited opened room))

exec-received :
    (world : World) (finish : Finish) (req : Frame) (p : Pool) (w : ℕ) (rest : List ℕ)
    → p.available ≡ w ∷ rest
    → exec world received finish req p
      ≡ serve world finish req w (record (arrive p) { available = rest })
unfolding exec after_select select arrive
exec-received world finish req p w rest e =
    ap (λ l. after_select world finish req (receive (arrive p) l)) e

-- The pool after one request that went well.
abbrev answered : World → Frame → ℕ → List ℕ → Pool → Pool
answered world req w rest p =
    given_back w (settled (begin (world.php w) world.buffer req (p.heap w)).0)
      (count_busy (record (arrive p) { available = rest }))

round-answered :
    (world : World) (answer : Frame → Frame) (req : Frame) (n : ℕ) (p : Pool) (w : ℕ)
    (rest : List ℕ)
    → Answers (world.php w) answer
    → req.type ≡ type_request
    → size req ≤ n
    → Ready n p
    → p.available ≡ w ∷ rest
    → round world received completed req p
      ≡ some (done (answered world req w rest p) (ok (answer req)))
unfolding round arrive
round-answered world answer req n p w rest a asks fits r e =
    let here : 0 < count w p.available = at_front w rest p.available e in
    let b = r.balanced in
    rw
      (
        exec-received world completed req p w rest e,
        serve-answered world answer req w (record (arrive p) { available = rest }) a asks
            (r.empty w here) (omega (arith, r.room w here)) r.no_limit b.opened
            (omega (arith, b.sizes, b.few, ap length e)),
      )
      refl

answered-Ready :
    (world : World) (answer : Frame → Frame) (req : Frame) (n : ℕ) (p : Pool) (w : ℕ)
    (rest : List ℕ)
    → Answers (world.php w) answer
    → req.type ≡ type_request
    → Ready (size req + n) p
    → p.available ≡ w ∷ rest
    → Ready n (answered world req w rest p)
unfolding arrive count_busy uncount_busy store finish
answered-Ready world answer req n p w rest a asks r e =
    let here : 0 < count w p.available = at_front w rest p.available e in
    let (sent, reply, left) =
      begin-sent (world.php w) world.buffer answer req (p.heap w) a asks (r.empty w here)
        (omega (arith, r.room w here)) in
    let done' = round-answered world answer req (size req + n) p w rest a asks (omega arith) r e in
    record {
      balanced =
          (round-Ends world received completed req p
            (done (answered world req w rest p) (ok (answer req))) r.balanced done').0;
      some_worker = omega (arith, length-append rest (w ∷ []));
      no_limit = r.no_limit;
      empty = λ v h.
          ground (arith, count_last v w rest, ap (count v) e, count-cons v w rest, r.empty v);
      room = λ v h. ground (
        arith,
        count_last v w rest,
        ap (count v) e,
        count-cons v w rest,
        r.room v,
        r.room w here,
        left,
      );
    }

first_of : (xs : List ℕ) → 0 < length xs → (w : ℕ) × (rest : List ℕ) × (xs ≡ w ∷ rest)
first_of [] h = absurd (omega (arith, h))
first_of (w ∷ rest) h = (w, rest, refl)

-- With processes that keep the protocol, a pool that is at rest with a worker, no limit of jobs and
-- room in the pipes answers any number of requests, each with the answer to that very request.
pub exec_all_lem :
    (world : World) (answer : Frame → Frame) (reqs : List Frame) (p : Pool)
    → ((id : ℕ) → Answers (world.php id) answer)
    → All (λ req. req.type ≡ type_request) reqs
    → Ready (total_size reqs) p
    → exec_all world reqs p ≡ some (map (λ req. ok (answer req)) reqs)
unfolding exec_all total_size
exec_all_lem world answer [] p a asks r = refl
exec_all_lem world answer (req ∷ reqs) p a (ask, asks) r =
    let (w, rest, e) = first_of p.available r.some_worker in
    rw
      (
        round-answered world answer req (size req + total_size reqs) p w rest (a w) ask
            (omega arith) r e,
        exec_all,
        exec_all_lem world answer reqs (answered world req w rest p) a asks
            (answered-Ready world answer req (total_size reqs) p w rest (a w) ask r e),
      )
      refl
