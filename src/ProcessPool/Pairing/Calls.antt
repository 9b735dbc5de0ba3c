-- ===== src/ProcessPool/Pairing/Calls.antt =====
-- internal/pool/worker.go with a process of the protocol: what each call leaves to read.
use maboo.Base.{
  ℕ, ◌≡◌, ◌≢◌, ◌⊎◌, refl, sym, ap, subst, ◌∙◌, inl, inr, false, List, [], Option, none, some,
  length, leb, arith, Bool-cases, drop-length-append,
}
use maboo.Base.Results.{Result, ok, err}
use maboo.Protocol.Wire.{
  ReadError, reading_header, Frame, Writer, WriteError, write, write_frame, read_frame,
  new_worker_ready_frame,
}
use maboo.Protocol.Wire.Layout.{encoding, length-encoding, write_frame-encoding}
use maboo.Protocol.Wire.RoundTrip.{HasRoom, write_frame-written}
use maboo.ProcessPool.Worker
use maboo.ProcessPool.Worker.{Worker, WorkerError, Php, Io, returned, waits}
use maboo.ProcessPool.Pool.{World}
use maboo.ProcessPool.Serve.{read_ready}
use maboo.ProcessPool.Balance.{Io-cases, Result-cases}
use maboo.ProcessPool.Exchange.{receive_frame-encoding, ready-IsTyped, ready-Fits}
use maboo.ProcessPool.Pairing.{ready_bytes, Due, Owed, Obeys, Returned}
use mathlib.Core.List.{append-nil}

-- A write that succeeds had room.
write_frame-room :
    (buffer : List ℕ) (stdin : Writer) (f : Frame)
    → (write_frame buffer stdin f).2 ≡ ok tt
    → HasRoom stdin f
unfolding write
write_frame-room buffer stdin f h =
    let sent = (write_frame-encoding buffer stdin f).1 in
    elim (Bool-cases (leb (length (encoding f)) stdin.room)) [
      | inl b ↦ ground (arith, length-encoding f, b)
      | inr b ↦ absurd (ground (arith, sent, h, b))
    ]

-- `Exec` up to its read, on a worker with nothing left to read.
pub begin-Owed :
    (php : Php) (buffer : List ℕ) (answer : Frame → Frame) (req : Frame) (w : Worker)
    → Obeys php answer
    → w.stdout ≡ []
    → (Worker.begin php buffer req w).1 ≡ ok tt
    → Owed answer req (Worker.begin php buffer req w).0.stdout
unfolding Worker.begin Worker.send_frame
begin-Owed php buffer answer req w o empty sent =
    let (done, bytes) =
      write_frame-written buffer w.stdin req (write_frame-room buffer w.stdin req sent) in
    subst (Owed answer req) {x = php.emits w.stdin.written (encoding req)}
      (rw (empty, bytes, drop-length-append w.stdin.written (encoding req)) refl)
      (o.owes w.stdin.written req)

read_frame-nil : read_frame [] ≡ (err reading_header, [])
unfolding read_frame
read_frame-nil = refl

-- From an empty pipe no frame is read.
receive_frame-empty :
    (php : Php) (w worker : Worker) (f : Frame)
    → w.stdout ≡ []
    → Worker.receive_frame php w ≢ returned worker (ok f)
unfolding Worker.receive_frame
receive_frame-empty php w worker f e h =
    absurd (ground (arith, ap read_frame e ∙ read_frame-nil, h))

await-received :
    (php : Php) (w worker : Worker) (resp : Frame)
    → Worker.await php (w, ok tt) ≡ returned worker (ok resp)
    → (w' : Worker) × (Worker.receive_frame php w ≡ returned w' (ok resp))
      × (worker.stdout ≡ w'.stdout)
unfolding Worker.await Worker.finish
await-received php w worker resp h = elim (Io-cases (Worker.receive_frame php w)) [
  | inl e ↦ absurd (ground (arith, e, h))
  | inr (w', r, e) ↦ elim (Result-cases r) [
    | inl (f, g) ↦ (w', e ∙ ap (returned w') (ground (arith, e, g, h)), ground (arith, e, g, h))
    | inr (x, g) ↦ absurd (ground (arith, e, g, h))
  ]
]

abbrev got_frame : Worker → Frame → Io (Result ReadError Frame)
got_frame w f = returned w (ok f)

returned-stdout :
    (u v : Worker) (f g : Frame) → got_frame u f ≡ got_frame v g → (u.stdout ≡ v.stdout) × (f ≡ g)
returned-stdout u v f g h = ground arith

pub await-sent :
    (php : Php) (w worker : Worker) (sent : Result WriteError (Unit {0})) (resp : Frame)
    → Worker.await php (w, sent) ≡ returned worker (ok resp)
    → sent ≡ ok tt
unfolding Worker.await
await-sent php w worker (ok u) resp h = refl
await-sent php w worker (err e) resp h = absurd (ground (arith, h))

-- The rest of `Exec`, where it returns a frame.
pub await-Returned :
    (php : Php) (answer : Frame → Frame) (req resp : Frame) (w worker : Worker)
    → Obeys php answer
    → Owed answer req w.stdout
    → Worker.await php (w, ok tt) ≡ returned worker (ok resp)
    → Returned answer req resp worker.stdout
await-Returned php answer req resp w worker o owed h =
    let (w', got, same) = await-received php w worker resp h in
    elim owed [
      | inl (asks, (rest, due, e)) ↦
          let read = receive_frame-encoding php w (answer req) rest (o.typed req) (o.fits req) e in
          let (out, reply) =
            returned-stdout w' (record w { stdout = rest }) resp (answer req) (sym got ∙ read) in
          inl (asks, reply, subst Due (sym (same ∙ out)) due)
      | inr (inl e) ↦ absurd (receive_frame-empty php w w' resp e got)
      | inr (inr (other, (g, t, fits, e))) ↦
          let read = receive_frame-encoding php w g [] t fits (e ∙ sym (append-nil (encoding g))) in
          let (out, reply) =
            returned-stdout w' (record w { stdout = [] }) resp g (sym got ∙ read) in
          inr (other, same ∙ out)
    ]

-- A frame that is read where READY or nothing is left to read leaves nothing.
ready-read :
    (php : Php) (w worker : Worker) (f : Frame)
    → (w.stdout ≡ ready_bytes) ⊎ (w.stdout ≡ [])
    → Worker.receive_frame php w ≡ returned worker (ok f)
    → worker.stdout ≡ []
ready-read php w worker f (inl e) h =
    let read =
      receive_frame-encoding php w new_worker_ready_frame [] ready-IsTyped ready-Fits
        (e ∙ sym (append-nil ready_bytes)) in
    (returned-stdout worker (record w { stdout = [] }) f new_worker_ready_frame (sym h ∙ read)).0
ready-read php w worker f (inr e) h = absurd (receive_frame-empty php w worker f e h)

pub read_ready-empties :
    (world : World) (id : ℕ) (w worker : Worker)
    → (w.stdout ≡ ready_bytes) ⊎ (w.stdout ≡ [])
    → read_ready world id w ≡ returned worker (ok tt)
    → worker.stdout ≡ []
unfolding read_ready
read_ready-empties world id w worker due h =
    elim (Io-cases (Worker.receive_frame (world.php id) w)) [
      | inl e ↦ absurd (ground (arith, e, h))
      | inr (w', r, e) ↦ elim (Result-cases r) [
        | inl (f, g) ↦
            let empty = ready-read (world.php id) w w' f due (e ∙ ap (returned w') g) in
            ground (arith, e, g, h, empty)
        | inr (x, g) ↦ absurd (ground (arith, e, g, h))
      ]
    ]

pub new_worker-empties :
    (php : Php) (answer : Frame → Frame) (launched : Option Writer) (id : ℕ) (worker : Worker)
    → Obeys php answer
    → Worker.new_worker php launched id ≡ returned worker (ok tt)
    → worker.stdout ≡ []
unfolding Worker.new_worker
new_worker-empties php answer none id worker o h = absurd (ground (arith, h))
new_worker-empties php answer (some stdin) id worker o h =
    let w : Worker = record {
      id = id;
      stdin = stdin;
      stdout = php.emits [] [];
      reaped = false;
      state = Worker.idle;
      jobs = 0;
    } in
    elim (Io-cases (Worker.receive_frame php w)) [
      | inl e ↦ absurd (ground (arith, e, h))
      | inr (w', r, e) ↦ elim (Result-cases r) [
        | inl (f, g) ↦
            let empty = ready-read php w w' f o.greets (e ∙ ap (returned w') g) in
            ground (arith, e, g, h, empty)
        | inr (x, g) ↦ absurd (ground (arith, e, g, h))
      ]
    ]
