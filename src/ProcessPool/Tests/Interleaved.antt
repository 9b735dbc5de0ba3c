-- ===== src/ProcessPool/Tests/Interleaved.antt =====
-- Examples for the interleaved steps of internal/pool.
use maboo.Base.{
  ◌∙◌, ◌++◌, List, inl, inr, Bool-cases, some, ◌==◌, if◌then◌else◌, ℕ, ◌+◌, ◌≤◌, ◌<◌, ◌≡◌, refl,
  true, false, [], ◌∷◌, ◌++◌, length, arith,
}
use maboo.Base.Results.{ok}
use maboo.Protocol.Wire.{Frame, new_worker_ready_frame, read_frame, write_frame}
use maboo.WorkerPool.Ids.{mem, remove, count}
use maboo.ProcessPool.Worker
use maboo.ProcessPool.Worker.{reading, Worker, WorkerState}
use maboo.ProcessPool.Pool.{
  World, Settings, Pool, done, new_pool, start, start_loop, spawn_worker, register, store, send,
  stats, count_busy, uncount_busy, stop_worker, needs_recycle,
}
use maboo.ProcessPool.Serve.{arrive, select, read_ready}
use maboo.ProcessPool.System.{System, at_rest, called, begun, ended, set_call}
use maboo.ProcessPool.System.Steps.{
  Reach, here, next, request, take_worker, exec_begins, exec_returns, answer, get_ready, time_out,
  snapshot, stop_old,
}
use maboo.ProcessPool.Ownership.{disturbed, marks, in_use}
use maboo.ProcessPool.Ownership.Reached.{
  Running, running, users, served_alone, returned_at_once, stats-Running,
}
use maboo.ProcessPool.Pairing.{Obeys, ready_bytes}
use maboo.ProcessPool.Pairing.Answered.{own_answer}
use maboo.Protocol.Wire.Layout.{encoding, header}
use maboo.ProcessPool.Twice.{Starts, Between, replaced_twice}
use maboo.ProcessPool.Tests.{pipe, first, ask, page, started, page_then_ready, ready}

-- A process that answers requests, and nothing else, with the same page.
abbrev polite_emits : List ℕ → List ℕ
polite_emits [] = ready
polite_emits (a ∷ b ∷ c ∷ type ∷ rest) = if type == 1 then page_then_ready else []
polite_emits (a ∷ rest) = []

abbrev pub polite : World
polite = record {
  launch = λ id. some pipe;
  php = λ id. record { emits = λ before chunk. polite_emits chunk; exits = λ received. false };
  ends = λ id. true;
  buffer = [];
}

polite_on_frame :
    (f : Frame) → polite_emits (encoding f) ≡ (if f.type == 1 then page_then_ready else [])
unfolding encoding header
polite_on_frame f = refl

ready_encoded : ready ≡ ready_bytes
unfolding encoding header new_worker_ready_frame
ready_encoded = refl

page_encoded : page_then_ready ≡ encoding page ++ ready_bytes
unfolding encoding header new_worker_ready_frame
page_encoded = refl

pub polite-Obeys : (id : ℕ) → Obeys (polite.php id) (λ req. page)
polite-Obeys id = record {
  greets = inl ready_encoded;
  owes = λ before f. elim (Bool-cases (f.type == 1)) [
    | inl e ↦
        inl (ground (arith, e), (ready_bytes, inl refl, polite_on_frame f ∙ rw e page_encoded))
    | inr e ↦ inr (inl (polite_on_frame f ∙ rw e refl))
  ];
  typed =
      λ f. record { type_byte = omega arith; flags_byte = omega arith; stream_word = omega arith };
  fits = λ f. record { headers_fit = omega arith; payload_fits = omega arith };
}

-- One worker at most, and a limit on the time of a request.
abbrev pub limited : Settings
limited = record { min_workers = 1; max_workers = 1; max_jobs = 0; has_request_timeout = true }

abbrev pub begun_pool : Pool
begun_pool = record started { cfg = limited }

pub begins : start polite (new_pool limited) ≡ done begun_pool (ok tt)
unfolding start start_loop spawn_worker send register store new_pool Worker.new_worker
    Worker.receive_frame read_frame
begins = refl

-- A request has the worker.
abbrev taken : System
taken = record (at_rest begun_pool) {
  pool = record begun_pool { available = []; total_requests = 1; busy_workers = 1 };
  calls = set_call 1 (called ask) (at_rest begun_pool).calls;
  holding = 1 ∷ [];
}

to_taken : Reach polite (at_rest begun_pool) taken
unfolding arrive select count_busy
to_taken =
    let asked : System = record (at_rest begun_pool) { pool = arrive begun_pool; waiting = 1 } in
    next (next here (request (at_rest begun_pool))) (
      take_worker asked 1 (record begun_pool { available = []; total_requests = 1 }) ask
        (omega arith) refl)

taken-Running : Running polite limited taken
taken-Running = running begun_pool (ok tt) begins to_taken

users_one : 0 < users 1 taken
unfolding count
users_one = omega arith

served_alone_example :
    (users 1 taken ≡ 1)
    × (count 1 taken.pool.available ≡ 0)
    × (count 1 taken.retiring
          + count 1 taken.removing
          + count 1 taken.stopping
          + count 1 taken.unlisting
        ≡ 0)
    × (disturbed taken ≡ false
        → (marks 1 taken ≡ 0)
          × (mem 1 taken.pool.workers ≡ true)
          × ((taken.pool.heap 1).reaped ≡ false))
served_alone_example = served_alone polite limited taken 1 taken-Running users_one

stats-Running_example :
    let t = stats taken.pool in
    (t.active_workers ≡ t.total_workers)
    × (t.busy_workers ≡ in_use taken)
    × (disturbed taken ≡ false
        → (t.busy_workers + t.idle_workers ≡ t.total_workers) × (t.queue_depth ≤ t.idle_workers))
stats-Running_example = stats-Running polite limited taken taken-Running

abbrev begun_worker : Worker
begun_worker = record first {
  stdin = record {
    written = 77 ∷ 66 ∷ 1 ∷ 1 ∷ 0 ∷ 0 ∷ 0 ∷ 0 ∷ 0 ∷ 0 ∷ 0 ∷ 0 ∷ 0 ∷ 1 ∷ 63 ∷ [];
    room = 85;
  };
  stdout = page_then_ready;
  state = WorkerState.busy;
}

abbrev done_worker : Worker
done_worker = record begun_worker { stdout = ready; state = WorkerState.idle; jobs = 1 }

abbrev written : System
written = record taken {
  pool = store 1 begun_worker taken.pool;
  calls = set_call 1 (begun ask (ok tt)) taken.calls;
}

abbrev read_back : System
read_back = record written {
  pool = store 1 done_worker written.pool;
  calls = set_call 1 (ended ask (ok page)) written.calls;
}

abbrev answered_one : System
answered_one = record read_back { holding = []; answered = 1 ∷ [] }

abbrev ready_again : System
ready_again = record answered_one {
  pool = store 1 (record done_worker { stdout = [] }) answered_one.pool;
  answered = [];
  returning = 1 ∷ [];
}

to_written : Reach polite (at_rest begun_pool) written
unfolding Worker.begin write_frame
to_written = next to_taken (exec_begins taken 1 ask refl)

to_read_back : Reach polite (at_rest begun_pool) read_back
unfolding store Worker.await read_frame
to_read_back = next to_written (exec_returns written 1 ask (ok tt) done_worker (ok page) refl refl)

to_ready_again : Reach polite (at_rest begun_pool) ready_again
unfolding store remove read_ready read_frame mem needs_recycle
to_ready_again =
    next (next to_read_back (answer read_back 1 ask page refl refl refl))
      (get_ready answered_one 1 (record done_worker { stdout = [] }) refl refl)

own_answer_example : page ≡ page
unfolding store mem
own_answer_example =
    own_answer polite (λ id req. page) limited read_back 1 ask page polite-Obeys
      (running begun_pool (ok tt) begins to_read_back) refl refl refl refl

returning_one : 0 < count 1 ready_again.returning + count 1 ready_again.arriving
unfolding count
returning_one = omega arith

few_workers : length ready_again.pool.workers ≤ ready_again.pool.cfg.max_workers
unfolding store
few_workers = omega arith

goes_on : disturbed ready_again ≡ false
unfolding store
goes_on = refl

returned_at_once_example :
    send 1 ready_again.pool
    ≡ done (record ready_again.pool { available = ready_again.pool.available ++ 1 ∷ [] }) tt
returned_at_once_example =
    returned_at_once polite limited ready_again 1 (running begun_pool (ok tt) begins to_ready_again)
      goes_on few_workers returning_one

-- Its request has timed out, `checkHealth` has copied the list, and `replaceWorker` has stopped it.
abbrev timed_out_one : System
timed_out_one = record taken { pool = uncount_busy taken.pool; holding = []; retiring = 1 ∷ [] }

abbrev copied : System
copied = record timed_out_one { checking = timed_out_one.pool.workers }

abbrev stopped_one : System
stopped_one = record copied {
  pool = stop_worker polite 1 copied.pool;
  retiring = [];
  removing = 1 ∷ [];
}

to_stopped_one : Reach polite (at_rest begun_pool) stopped_one
unfolding remove uncount_busy mem
to_stopped_one =
    next (next (next to_taken (time_out taken 1 refl refl)) (snapshot timed_out_one refl))
      (stop_old copied 1 refl)

stopped_one-Between : Between 1 [] stopped_one
unfolding uncount_busy stop_worker store mem Worker.stop
stopped_one-Between = record {
  stopped_one = refl;
  still_listed = refl;
  up_next = refl;
  idle_now = refl;
  reaped_now = refl;
  runs_on = refl;
}

polite-Starts : (id : ℕ) → Starts polite id
unfolding Worker.new_worker Worker.receive_frame read_frame
polite-Starts id = (record first { id = id }, refl)

replaced_twice_example :
    (t : System) × Reach polite stopped_one t
    × (length t.pool.workers ≡ length stopped_one.pool.workers + 1)
    × (stopped_one.pool.cfg.max_workers ≤ length stopped_one.pool.workers
        → t.pool.cfg.max_workers < length t.pool.workers)
replaced_twice_example =
    replaced_twice polite limited 1 [] stopped_one
      (running begun_pool (ok tt) begins to_stopped_one) stopped_one-Between (polite-Starts _)
      (polite-Starts _)
