-- ===== src/ProcessPool/Tests/InTurn.antt =====
-- Examples for requests of internal/pool that run one after the other.
use maboo.Base.{◌≡◌, refl, ℕ, some, Option, arith}
use maboo.Base.Results.{Result, ok, err}
use maboo.Protocol.Wire.{Frame, read_frame, write_frame}
use maboo.ProcessPool.Worker
use maboo.ProcessPool.Pool.{Pool, Run, done, replace_worker}
use maboo.ProcessPool.Serve.{PoolError, received, completed, too_late, request_timeout, exec}
use maboo.ProcessPool.Requests.{round, nothing, then_round}
use maboo.ProcessPool.Pairing.InTurn.{answered_in_turn}
use maboo.ProcessPool.Tests.{ask, page}
use maboo.ProcessPool.Tests.Interleaved.{polite, polite-Obeys, limited, begun_pool, begins}

abbrev pool_of : Option (Run (Result PoolError Frame)) → Pool
pool_of (some (done p a)) = p
pool_of _ = begun_pool

-- A request that times out, whose worker is replaced, and one that is answered.
abbrev timed_out_once : Pool
timed_out_once = pool_of (round polite received too_late ask begun_pool)

abbrev answered_then : Pool
answered_then = pool_of (round polite received completed ask timed_out_once)

times_out :
    round polite received too_late ask begun_pool ≡ some (done timed_out_once (err request_timeout))
unfolding round exec write_frame read_frame replace_worker Worker.new_worker Worker.stop
times_out = refl

is_answered :
    round polite received completed ask timed_out_once ≡ some (done answered_then (ok page))
unfolding round exec write_frame read_frame replace_worker Worker.new_worker Worker.stop
is_answered = refl

answered_in_turn_example : (w : ℕ) × (page ≡ page)
answered_in_turn_example =
    answered_in_turn polite (λ id req. page) limited begun_pool timed_out_once answered_then
      received completed ask page polite-Obeys begins (omega arith)
      (then_round received too_late ask (err request_timeout) nothing times_out) is_answered refl
