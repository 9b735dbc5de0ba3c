-- ===== src/ProcessPool/Exchange.antt =====
-- internal/pool/worker.go with a PHP process that keeps the protocol of php-sdk/src/Worker.php, below the
-- MAX_REQUESTS at which it exits without READY: for each request a response, then WORKER_READY.
use maboo.Base.{
  ℕ, ◌+◌, ◌-◌, ◌≡◌, refl, sym, ap, ◌∙◌, List, [], ◌++◌, length, drop-length-append, arith,
}
use maboo.Base.Results.{Result, ok}
use maboo.Protocol.Wire.{
  Frame, Writer, IsTyped, Fits, WriteError, write, read_frame, new_worker_ready_frame, type_request,
}
use maboo.Protocol.Wire.Layout.{encoding, length-encoding, write_frame-encoding}
use maboo.Protocol.Wire.Reading.{read_frame-encoding}
use maboo.Protocol.Wire.RoundTrip.{HasRoom, write_frame-written}
use maboo.ProcessPool.Worker.{
  Worker, Php, returned, send_frame, receive_frame, begin, await, finish,
}
use mathlib.Core.List.{append-nil}

-- The process answers each request frame, and then is ready again.
pub record Answers (php : Php) (answer : Frame → Frame) : Type 0 where
  pub reply :
      (before : List ℕ) (req : Frame)
      → req.type ≡ type_request
      → php.emits before (encoding req) ≡ encoding (answer req) ++ encoding new_worker_ready_frame
  pub typed : (req : Frame) → IsTyped (answer req)
  pub fits : (req : Frame) → Fits (answer req)

abbrev pub size : Frame → ℕ
size f = 14 + length f.headers + length f.payload

pub ready-IsTyped : IsTyped new_worker_ready_frame
unfolding new_worker_ready_frame
ready-IsTyped = record {
  type_byte = omega arith;
  flags_byte = omega arith;
  stream_word = omega arith;
}

pub ready-Fits : Fits new_worker_ready_frame
unfolding new_worker_ready_frame
ready-Fits = record { headers_fit = omega arith; payload_fits = omega arith }

-- A frame at the front of the pipe is read, whatever the process does.
pub receive_frame-encoding :
    (php : Php) (w : Worker) (f : Frame) (rest : List ℕ)
    → IsTyped f
    → Fits f
    → w.stdout ≡ encoding f ++ rest
    → receive_frame php w ≡ returned (record w { stdout = rest }) (ok f)
unfolding receive_frame
receive_frame-encoding php w f rest t fits e =
    let read : read_frame w.stdout ≡ (ok f, rest) =
      ap read_frame e ∙ read_frame-encoding f rest t fits in
    rw read refl

-- `Exec` on a worker with nothing left to read: the request goes out and the reply is in the pipe.
pub begin-sent :
    (php : Php) (buffer : List ℕ) (answer : Frame → Frame) (req : Frame) (w : Worker)
    → Answers php answer
    → req.type ≡ type_request
    → w.stdout ≡ []
    → HasRoom w.stdin req
    → ((begin php buffer req w).1 ≡ ok tt)
      × ((begin php buffer req w).0.stdout
          ≡ encoding (answer req) ++ encoding new_worker_ready_frame)
      × ((begin php buffer req w).0.stdin.room ≡ w.stdin.room - size req)
unfolding begin send_frame write
begin-sent php buffer answer req w a asks empty room =
    let (done, bytes) = write_frame-written buffer w.stdin req room in
    let sent = (write_frame-encoding buffer w.stdin req).0 in
    (
      done,
      rw
          (
            empty,
            bytes,
            drop-length-append w.stdin.written (encoding req),
            a.reply w.stdin.written req asks,
          )
          refl,
      omega (arith, ap (λ (v : Writer). v.room) sent, length-encoding req),
    )

-- The worker after `Exec` and after its READY was read.
abbrev pub replied : Worker → Worker
replied w = finish (record w { stdout = encoding new_worker_ready_frame })

abbrev pub settled : Worker → Worker
settled w = record (replied w) { stdout = [] }

await-got :
    (php : Php) (sent : Worker × Result WriteError (Unit {0})) (w : Worker) (f : Frame)
    → sent.1 ≡ ok tt
    → receive_frame php sent.0 ≡ returned w (ok f)
    → await php sent ≡ returned (finish w) (ok f)
unfolding await
await-got php (v, r) w f sent got = rw (sent, got) refl

pub await-answered :
    (php : Php) (buffer : List ℕ) (answer : Frame → Frame) (req : Frame) (w : Worker)
    → Answers php answer
    → req.type ≡ type_request
    → w.stdout ≡ []
    → HasRoom w.stdin req
    → await php (begin php buffer req w)
      ≡ returned (replied (begin php buffer req w).0) (ok (answer req))
unfolding await
await-answered php buffer answer req w a asks empty room =
    let (sent, reply, left) = begin-sent php buffer answer req w a asks empty room in
    let got =
      receive_frame-encoding php (begin php buffer req w).0 (answer req)
        (encoding new_worker_ready_frame) (a.typed req) (a.fits req) reply in
    await-got php (begin php buffer req w)
      (record (begin php buffer req w).0 { stdout = encoding new_worker_ready_frame }) (answer req)
      sent got

pub receive_ready :
    (php : Php) (w : Worker)
    → receive_frame php (replied w) ≡ returned (settled w) (ok new_worker_ready_frame)
unfolding finish
receive_ready php w =
    receive_frame-encoding php (replied w) new_worker_ready_frame [] ready-IsTyped ready-Fits
      (sym (append-nil (encoding new_worker_ready_frame)))
