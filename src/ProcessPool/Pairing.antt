-- ===== src/ProcessPool/Pairing.antt =====
-- internal/pool with processes that answer each request once: which request an answer belongs to, in
-- every interleaving.
pub mod Calls
pub mod Moved
pub mod Settled
pub mod Asked
pub mod Readied
pub mod Kept
pub mod Answered
pub mod InTurn
use maboo.Base.{ℕ, ◌+◌, ◌<◌, ◌≡◌, ◌≢◌, ◌⊎◌, List, [], ◌++◌}
use maboo.Base.Results.{Result, ok}
use maboo.Protocol.Wire.{Frame, IsTyped, Fits, new_worker_ready_frame, type_request}
use maboo.Protocol.Wire.Layout.{encoding}
use maboo.WorkerPool.Ids.{count}
use maboo.ProcessPool.Worker.{Worker, Php}
use maboo.ProcessPool.Pool.{World}
use maboo.ProcessPool.System.{System, Call, uncalled, called, begun, ended, sent_by}
use maboo.ProcessPool.Ownership.{launches}

abbrev pub ready_bytes : List ℕ
ready_bytes = encoding new_worker_ready_frame

-- READY, or nothing where the process stops.
abbrev pub Due : List ℕ → Type 0
Due bytes = (bytes ≡ ready_bytes) ⊎ (bytes ≡ [])

-- What a process writes on a frame: on a request its answer, then READY or nothing more; nothing; or on another frame
-- than a request a single frame.
abbrev pub Owed : (Frame → Frame) → Frame → List ℕ → Type 0
Owed answer f bytes =
    ((f.type ≡ type_request) × ((rest : List ℕ) × Due rest × (bytes ≡ encoding (answer f) ++ rest)))
    ⊎ ((bytes ≡ [])
        ⊎ ((f.type ≢ type_request) × ((g : Frame) × IsTyped g × Fits g × (bytes ≡ encoding g))))

-- A process of the protocol, as php-sdk/src/Worker.php runs it: it is ready first, or silent, and
-- answers the frames that it gets whole. At MAX_REQUESTS it exits after an answer, without READY.
pub record Obeys (php : Php) (answer : Frame → Frame) : Type 0 where
  pub greets : Due (php.emits [] [])
  pub owes : (before : List ℕ) (f : Frame) → Owed answer f (php.emits before (encoding f))
  pub typed : (f : Frame) → IsTyped (answer f)
  pub fits : (f : Frame) → Fits (answer f)

-- What is left to read of a worker that has returned this answer to this request.
abbrev pub Returned : (Frame → Frame) → Frame → Frame → List ℕ → Type 0
Returned answer req resp bytes =
    ((req.type ≡ type_request) × (resp ≡ answer req) × Due bytes)
    ⊎ ((req.type ≢ type_request) × (bytes ≡ []))

-- The places where a worker waits for its next request.
abbrev pub rests : ℕ → System → ℕ
rests x s =
    count x s.pool.available + count x s.returning + count x s.arriving + count x (sent_by s.reload)

-- What is left to read of a worker, by where it is and how far its call is: `rest`, `held` and `answered`
-- are the numbers of its places.
pub record Synced (answer : Frame → Frame) (x next_id rest held answered coming : ℕ)
    (worker : Worker) (call : Call) : Type 0 where
  pub no_call :
      (next_id < x) ⊎ (0 < rest + answered + coming)
      → ((req : Frame) → call ≢ called req)
        × ((req : Frame) (sent : Result _ (Unit {0})) → call ≢ begun req sent)
  pub read_out : 0 < rest → worker.stdout ≡ []
  pub unsent : (req : Frame) → 0 < held → call ≡ called req → worker.stdout ≡ []
  pub owed : (req : Frame) → 0 < held → call ≡ begun req (ok tt) → Owed answer req worker.stdout
  pub paired :
      (req resp : Frame)
      → 0 < held
      → call ≡ ended req (ok resp)
      → Returned answer req resp worker.stdout
  pub pending : 0 < answered → Due worker.stdout

abbrev pub SyncedAt : World → (ℕ → Frame → Frame) → ℕ → System → Type 0
SyncedAt world answer x s =
    Synced (answer x) x s.pool.next_id (rests x s) (count x s.holding) (count x s.answered)
      (launches x s) (s.pool.heap x) (s.calls x)

-- The same of every worker.
pub record Paired (world : World) (answer : ℕ → Frame → Frame) (s : System) : Type 0 where
  pub at_each : (x : ℕ) → SyncedAt world answer x s
