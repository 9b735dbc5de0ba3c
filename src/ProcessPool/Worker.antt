-- ===== src/ProcessPool/Worker.antt =====
-- internal/pool/worker.go: one external PHP process, behind its pipes.
-- What a process writes and when it ends is a parameter, a `Php`. The stdout of a worker is the bytes
-- that it wrote and that were not read. A read that would have to wait for ever `waits`; one from a
-- process that has ended fails. `lastUsed` is written only. `buffer` is what the pool of
-- `WriteFrame` hands out.
use maboo.Base.{
  ℕ, ◌+◌, Bool, true, false, not, ◌&&◌, List, [], ◌++◌, Option, none, some, ◌==◌, drop, length,
  if◌then◌else◌,
}
use maboo.Base.Results.{Result, ok, err}
use maboo.Protocol.Wire.{
  Frame, Writer, WriteError, ReadError, reading_header, reading_data, write_frame, read_frame,
  new_ping_frame, new_worker_stop_frame, type_worker_ready, type_ping,
}

-- `emits before chunk` are the bytes that the process writes on receiving `chunk` after `before`;
-- `exits received` tells whether it has ended once it got these bytes in all.
pub record Php : Type 0 where
  pub emits : List ℕ → List ℕ → List ℕ
  pub exits : List ℕ → Bool

pub data WorkerState : Type 0 where
  idle busy stopped : WorkerState

-- `reaped`: `Wait` has returned, with a `ProcessState` that says that the process exited.
pub record Worker : Type 0 where
  pub id : ℕ
  pub stdin : Writer
  pub stdout : List ℕ
  pub reaped : Bool
  pub state : WorkerState
  pub jobs : ℕ

pub data WorkerError : Type 0 where
  starting : WorkerError
  sending : WorkerError
  reading : ReadError → WorkerError
  unexpected : ℕ → WorkerError

-- A call returns or waits for ever.
pub data Io (A : Type 0) : Type 0 where
  returned : Worker → A → Io A
  waits : Io A

abbrev pub is_short : Result ReadError Frame → Bool
is_short (ok f) = false
is_short (err reading_header) = true
is_short (err (reading_data n)) = true
is_short (err e) = false

-- `protocol.ReadFrame(w.stdout)`
unfoldable pub receive_frame : Php → Worker → Io (Result ReadError Frame)
receive_frame php w =
    let (r, rest) = read_frame w.stdout in
    if is_short r && not (php.exits w.stdin.written)
    then waits
    else returned (record w { stdout = rest }) r

-- `protocol.WriteFrame(w.stdin, f)`, and what the process writes on it.
unfoldable pub send_frame : Php → List ℕ → Frame → Worker → Worker × Result WriteError (Unit {0})
send_frame php buffer f w =
    let (buffer', stdin', r) = write_frame buffer w.stdin f in
    let before = w.stdin.written in
    (
      record w {
        stdin = stdin';
        stdout = w.stdout ++ php.emits before (drop (length before) stdin'.written);
      },
      r,
    )

abbrev pub lift_read : Result ReadError Frame → Result WorkerError Frame
lift_read (ok f) = ok f
lift_read (err e) = err (reading e)

abbrev pub expect : ℕ → Result WorkerError Frame → Result WorkerError (Unit {0})
expect type (ok f) = if f.type == type then ok tt else err (unexpected f.type)
expect type (err e) = err e

-- `launched` is the stdin of the process that exec started, or none where that failed.
unfoldable pub new_worker : Php → Option Writer → ℕ → Io (Result WorkerError (Unit {0}))
unfolding receive_frame
new_worker php none id =
    returned
      (record {
        id = id;
        stdin = record { written = []; room = 0 };
        stdout = [];
        reaped = false;
        state = stopped;
        jobs = 0;
      })
      (err starting)
new_worker php (some stdin) id =
    let w : Worker = record {
      id = id;
      stdin = stdin;
      stdout = php.emits [] [];
      reaped = false;
      state = idle;
      jobs = 0;
    } in
    elim (receive_frame php w) [
      | waits ↦ waits
      | returned w' r ↦ returned w' (expect type_worker_ready (lift_read r))
    ]

-- The deferred calls of `Exec`.
unfoldable pub finish : Worker → Worker
finish w = record w { state = idle; jobs = w.jobs + 1 }

-- `Exec` up to its read.
unfoldable pub begin : Php → List ℕ → Frame → Worker → Worker × Result WriteError (Unit {0})
unfolding send_frame
begin php buffer req w = send_frame php buffer req (record w { state = busy })

-- The rest of `Exec`.
unfoldable pub await : Php → Worker × Result WriteError (Unit {0}) → Io (Result WorkerError Frame)
unfolding receive_frame finish
await php (w, err e) = returned (finish w) (err sending)
await php (w, ok u) = elim (receive_frame php w) [
  | waits ↦ waits
  | returned w' r ↦ returned (finish w') (lift_read r)
]

unfoldable pub exec : Php → List ℕ → Frame → Worker → Io (Result WorkerError Frame)
unfolding begin await
exec php buffer req w = await php (begin php buffer req w)

unfoldable pub exec_stream : Php → List ℕ → Frame → Worker → Worker × Result WriteError (Unit {0})
unfolding send_frame
exec_stream php buffer f w = send_frame php buffer f w

-- The timeout is an argument that `Ping` does not use.
unfoldable pub ping : Php → List ℕ → Worker → Io (Result WorkerError (Unit {0}))
unfolding send_frame receive_frame new_ping_frame
ping php buffer w =
    let (w', sent) = send_frame php buffer new_ping_frame w in
    elim sent [
      | err e ↦ returned w' (err sending)
      | ok u ↦ elim (receive_frame php w') [
        | waits ↦ waits
        | returned w'' r ↦ returned w'' (expect type_ping (lift_read r))
      ]
    ]

-- `reaped` is whether the process exits within the five seconds; it is killed otherwise, and counts as alive.
unfoldable pub stop : Php → List ℕ → Bool → Worker → Worker
unfolding send_frame new_worker_stop_frame
stop php buffer reaped w =
    let (w', sent) = send_frame php buffer new_worker_stop_frame (record w { state = stopped }) in
    record w' { stdin = record w'.stdin { room = 0 }; reaped = reaped }

unfoldable pub is_alive : Worker → Bool
is_alive w = not w.reaped
