-- ===== src/ProcessPool/Tests.antt =====
-- Examples for internal/pool.
mod Interleaved
mod InTurn
use maboo.Base.{
  Bool, ℕ, ◌≤◌, ◌≡◌, refl, ◌⊎◌, ◌↔◌, String, ◌++◌, true, false, List, [], ◌∷◌, none, some, arith,
  if◌then◌else◌, ◌==◌, length,
}
use maboo.Base.Results.{Result, ok, err}
use maboo.Protocol.Wire.{
  Frame, Writer, type_request, type_response, new_worker_ready_frame, read_frame, reading_header,
  write_frame,
}
use maboo.Protocol.Wire.Layout.{encoding, header}
use maboo.WorkerPool.Ids.{count}
use maboo.ProcessPool.Worker
use maboo.ProcessPool.Worker.{Worker, WorkerState, Php, reading}
use maboo.ProcessPool.Pool.{
  Settings, Pool, World, done, no_worker, new_pool, start, start_loop, spawn_worker, register,
  store, send, replace_worker, Run,
}
use maboo.ProcessPool.Serve.{
  received, timed_out, completed, exec, arrive, Answer, no_available_worker, shutting_down,
  exec_failed, PoolError,
}
use maboo.ProcessPool.Upkeep.{tick, watchdog}
use maboo.ProcessPool.Balance.{Balanced, Ends}
use maboo.ProcessPool.Requests.{round}
use maboo.ProcessPool.Requests
use maboo.ProcessPool.History.{started-Balanced, requests_keep_workers}
use maboo.ProcessPool.Exchange.{Answers}
use maboo.ProcessPool.Answers.{Ready, total_size, exec_all, exec_all_lem}
use maboo.ProcessPool.Watcher.{
  Node, file, dir, end, entry, FileSystem, Watcher, new_watcher, start as start_watcher, scan,
  walk_dirs, walk, see, compare_file, detect_changes, is_watched_file, is_skipped, some_deleted,
}
use maboo.ProcessPool.Watcher.Walked.{modified}
use maboo.ProcessPool.Watcher.Changes.{is_changed, detect_changes_iff}
use maboo.Base.Dict.{lookup, insert, keys}
use maboo.Base.Paths.{codes, ext, ext_from, lower, is_one_of}
use maboo.ProcessPool.Lost.{nothing, no_recovery}

abbrev small : Settings
small = record { min_workers = 1; max_workers = 2; max_jobs = 0; has_request_timeout = false }

-- READY, as bytes.
abbrev ready : List ℕ
ready = 77 ∷ 66 ∷ 1 ∷ 5 ∷ 0 ∷ 0 ∷ 0 ∷ 0 ∷ 0 ∷ 0 ∷ 0 ∷ 0 ∷ 0 ∷ 0 ∷ []

abbrev page : Frame
page = record { type = type_response; flags = 0; stream_id = 0; headers = []; payload = 60 ∷ [] }

abbrev ask : Frame
ask = record { type = type_request; flags = 0; stream_id = 0; headers = []; payload = 63 ∷ [] }

abbrev page_then_ready : List ℕ
page_then_ready = 77 ∷ 66 ∷ 1 ∷ 2 ∷ 0 ∷ 0 ∷ 0 ∷ 0 ∷ 0 ∷ 0 ∷ 0 ∷ 0 ∷ 0 ∷ 1 ∷ 60 ∷ ready

-- A process that greets, and answers whatever it gets with the same page.
abbrev steady_php : Php
steady_php = record {
  emits = λ before chunk. elim chunk [ [] ↦ ready | x ∷ xs ↦ page_then_ready ];
  exits = λ received. false;
}

abbrev pipe : Writer
pipe = record { written = []; room = 100 }

abbrev steady : World
steady = record { launch = λ id. some pipe; php = λ id. steady_php; ends = λ id. true; buffer = [] }

abbrev first : Worker
first = record {
  id = 1;
  stdin = pipe;
  stdout = [];
  reaped = false;
  state = WorkerState.idle;
  jobs = 0;
}

abbrev started : Pool
started = record {
  cfg = small;
  heap = λ j. if 1 == j then first else no_worker;
  workers = 1 ∷ [];
  available = 1 ∷ [];
  closed = false;
  next_id = 1;
  cancelled = false;
  total_requests = 0;
  active_workers = 1;
  busy_workers = 0;
}

first_greets : start steady (new_pool small) ≡ done started (ok tt)
unfolding start start_loop spawn_worker send register store new_pool Worker.new_worker
    Worker.receive_frame read_frame
first_greets = refl

started-Balanced_one : Balanced started
started-Balanced_one = (started-Balanced steady small started first_greets (omega arith)).0

steady-Answers : Answers steady_php (λ req. page)
unfolding encoding header new_worker_ready_frame
steady-Answers = record {
  reply = λ before req h. refl;
  typed = λ req. record {
    type_byte = omega arith;
    flags_byte = omega arith;
    stream_word = omega arith;
  };
  fits = λ req. record { headers_fit = omega arith; payload_fits = omega arith };
}

started-Ready : Ready 30 started
unfolding count
started-Ready = record {
  balanced = started-Balanced_one;
  some_worker = omega arith;
  no_limit = refl;
  empty = λ w h. ground arith;
  room = λ w h. ground arith;
}

exec_all_lem_example : exec_all steady (ask ∷ ask ∷ []) started ≡ some (ok page ∷ ok page ∷ [])
unfolding total_size
exec_all_lem_example =
    exec_all_lem steady (λ req. page) (ask ∷ ask ∷ []) started (λ id. steady-Answers)
      (refl, (refl, tt)) started-Ready

-- Its one process answers nothing and ends; a second cannot be started.
abbrev dying : World
dying = record {
  launch = λ id. if id == 1 then some pipe else none;
  php = λ id. record {
    emits = λ before chunk. elim chunk [ [] ↦ ready | x ∷ xs ↦ [] ];
    exits = λ received. elim received [ [] ↦ false | x ∷ xs ↦ true ];
  };
  ends = λ id. true;
  buffer = [];
}

first_greets_too : start dying (new_pool small) ≡ done started (ok tt)
unfolding start start_loop spawn_worker send register store new_pool Worker.new_worker
    Worker.receive_frame read_frame
first_greets_too = refl

abbrev asked : List ℕ
asked = 77 ∷ 66 ∷ 1 ∷ 1 ∷ 0 ∷ 0 ∷ 0 ∷ 0 ∷ 0 ∷ 0 ∷ 0 ∷ 0 ∷ 0 ∷ 1 ∷ 63 ∷ []

abbrev failed_worker : Worker
failed_worker = record first { stdin = record { written = asked; room = 85 }; jobs = 1 }

abbrev stopped_worker : Worker
stopped_worker = record {
  id = 1;
  stdin = record {
    written = asked ++ 77 ∷ 66 ∷ 1 ∷ 6 ∷ 0 ∷ 0 ∷ 0 ∷ 0 ∷ 0 ∷ 0 ∷ 0 ∷ 0 ∷ 0 ∷ 0 ∷ [];
    room = 0;
  };
  stdout = [];
  reaped = true;
  state = WorkerState.stopped;
  jobs = 1;
}

-- Its last worker has failed, and no other could be started.
abbrev lost : Pool
lost = record started {
  heap = λ j. if 1 == j then stopped_worker else if 1 == j then failed_worker else started.heap j;
  workers = [];
  available = [];
  next_id = 2;
  total_requests = 1;
  active_workers = 0;
}

last_one_fails :
    round dying received completed ask started
    ≡ some (done lost (err (exec_failed (reading reading_header))))
unfolding round exec write_frame read_frame replace_worker Worker.new_worker Worker.stop
last_one_fails = refl

abbrev refused : PoolError → Run Answer
refused e = done (arrive lost) (err e, [])

finds_nobody : exec dying timed_out completed ask lost ≡ some (refused no_available_worker)
unfolding exec
finds_nobody = refl

no_recovery_example :
    (lost.workers ≡ [])
    × (watchdog dying (tick ∷ tick ∷ []) lost ≡ done lost [])
    × ((refused no_available_worker ≡ refused no_available_worker)
        ⊎ (refused no_available_worker ≡ refused shutting_down))
no_recovery_example =
    no_recovery dying lost lost (tick ∷ tick ∷ []) timed_out completed ask
      (refused no_available_worker)
      (record { no_workers = refl; no_available = refl; opened = refl }) nothing finds_nobody

requests_keep_workers_example :
    Ends dying
      (λ t (a : Result PoolError Frame). Balanced t × (length t.workers ≤ 1))
      (done lost (err (exec_failed (reading reading_header))))
requests_keep_workers_example =
    requests_keep_workers dying small started started received completed ask
      (done lost (err (exec_failed (reading reading_header)))) first_greets_too (omega arith)
      Requests.nothing last_one_fails

-- A project with one file of its own and one that a package brings.
abbrev tree : String → Node
tree root = dir "app" (
    entry (file "app/index.php") (
      entry (dir "vendor" (entry (file "app/vendor/lib.php") end))
        (entry (file "app/logo.png") end)))

abbrev at_time : ℕ → FileSystem
at_time t = record { root = tree; mtime = λ path. t }

abbrev watcher : Watcher
watcher = start_watcher (at_time 5) (new_watcher ("app" ∷ []))

abbrev is_later : Bool
is_later = (detect_changes (at_time 6) watcher).1

touched : is_later ≡ true
unfolding detect_changes start_watcher scan walk_dirs walk compare_file see is_watched_file
    is_skipped lookup insert keys some_deleted new_watcher ext ext_from codes lower is_one_of
touched = refl

detect_changes_iff_example :
    ((is_later ≡ true) ↔ (
      (p : String) × (is_changed (lookup p watcher.mtimes) (modified (at_time 6) watcher p)
        ≡ true)))
    × (lookup "app/index.php" (detect_changes (at_time 6) watcher).0.mtimes
        ≡ modified (at_time 6) watcher "app/index.php")
detect_changes_iff_example = detect_changes_iff (at_time 6) watcher "app/index.php"
