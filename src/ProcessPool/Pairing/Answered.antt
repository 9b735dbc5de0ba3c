-- ===== src/ProcessPool/Pairing/Answered.antt =====
-- internal/pool with processes of the protocol: each request gets its own answer.
use maboo.Base.{ℕ, zero, suc, ◌+◌, ◌≡◌, refl, ap, subst, ◌∙◌, inl, inr, true, false, [], ◌∷◌, arith}
use maboo.Base.Results.{Result, ok}
use maboo.Protocol.Wire.{Frame, type_request}
use maboo.WorkerPool.Ids.{mem, count, count-cons, count-nil, count-mem, count_last}
use maboo.ProcessPool.Worker
use maboo.ProcessPool.Worker.{Worker, WorkerError, returned}
use maboo.ProcessPool.Pool.{
  Settings, Pool, World, done, new_pool, register, send, start, start_loop, spawn_worker,
}
use maboo.ProcessPool.Balance.{Io-cases, Result-cases}
use maboo.ProcessPool.System.{System, at_rest, ended}
use maboo.ProcessPool.System.Steps.{take_id, Reach, here, next}
use maboo.ProcessPool.Ownership.{Inv, disturbed}
use maboo.ProcessPool.Ownership.Pieces.{send-done}
use maboo.ProcessPool.Ownership.Workers.{launch-Inv, new_worker-fresh}
use maboo.ProcessPool.Ownership.Steps.{
  Reach-Inv, new_pool-Inv, start_loop-Inv, added-Inv, send-cases,
}
use maboo.ProcessPool.Ownership.Reached.{Running, running}
use maboo.ProcessPool.Ownership.Disturbed.{Step-disturbed}
use maboo.ProcessPool.Pairing.{Obeys, Paired}
use maboo.ProcessPool.Pairing.Moved.{launched-Synced, leave-Synced}
use maboo.ProcessPool.Pairing.Readied.{joined-Synced}
use maboo.ProcessPool.Pairing.Kept.{Step-Synced}
use maboo.ProcessPool.Pairing.Calls.{new_worker-empties}

new_pool-Paired :
    (world : World) (reply : ℕ → Frame → Frame) (cfg : Settings)
    → Paired world reply (at_rest (new_pool cfg))
unfolding new_pool count
new_pool-Paired world reply cfg = record {
  at_each = λ x. record {
    no_call = λ k. (λ r c. cc, λ r sent c. cc);
    read_out = λ k. refl;
    unsent = λ r k c. refl;
    owed = λ r k c. absurd (omega arith);
    paired = λ r f k c. absurd (omega arith);
    pending = λ k. inr refl;
  };
}

module _ (world : World) (reply : ℕ → Frame → Frame)
    (o : (x : ℕ) → Obeys (world.php x) (reply x)) where
  unlaunched-Paired :
      (p : Pool) → Paired world reply (at_rest p) → Paired world reply (at_rest (take_id p))
  unfolding take_id
  unlaunched-Paired p y =
      launched-Synced world reply (at_rest p) y.at_each (at_rest (take_id p)) refl refl refl
        (λ x. (omega arith, omega arith, omega arith, omega arith))

  -- A worker that the loop of `Start` has made and sent.
  added-Paired :
      (p q : Pool) (worker : Worker)
      → Worker.new_worker (world.php (p.next_id + 1)) (world.launch (p.next_id + 1)) (p.next_id + 1)
        ≡ returned worker (ok tt)
      → send (p.next_id + 1) (register (p.next_id + 1) worker (take_id p)) ≡ done q tt
      → Inv (at_rest p)
      → Paired world reply (at_rest p)
      → Paired world reply (at_rest q)
  unfolding take_id register
  added-Paired p q worker made sent v y =
      let id = p.next_id + 1 in
      let s = at_rest p in
      let launched : System = record s { pool = take_id p; launching = id ∷ [] } in
      let joined : System = record launched {
        pool = register id worker (take_id p);
        launching = [];
        arriving = id ∷ [];
      } in
      let first : Paired world reply launched =
        launched-Synced world reply s y.at_each launched refl refl refl (λ x. (
          omega arith,
          omega arith,
          omega arith,
          omega (arith, count-cons x id [], count-nil x),
        )) in
      let w : Inv launched = launch-Inv s v 0 in
      let second : Paired world reply joined = record {
        at_each =
            joined-Synced world reply launched w first.at_each id worker joined
              (ground (arith, count-cons id id []))
              (new_worker-empties (world.php id) (reply id) (world.launch id) id worker (o id) made)
              refl refl refl refl
              (λ x other. (
                ground (arith, other, count-cons x id [], count-nil x),
                omega (arith, count-nil x),
              ));
      } in
      let same = send-done (register id worker (take_id p)) q id sent in
      leave-Synced world reply joined second.at_each (at_rest q) (ap (λ (u : Pool). u.next_id) same)
        (ap (λ (u : Pool). u.heap) same) refl
        (λ x. (
          omega (
            arith,
            ap (λ (u : Pool). count x u.available) same,
            count_last x id p.available,
            count-cons x id [],
            count-nil x,
          ),
          omega arith,
          omega arith,
          omega arith,
        ))

  start_loop-Paired :
      (n : ℕ) (p q : Pool) (r : Result WorkerError (Unit {0}))
      → start_loop world n p ≡ done q r
      → Inv (at_rest p)
      → Paired world reply (at_rest p)
      → Paired world reply (at_rest q)
  unfolding start_loop spawn_worker take_id
  start_loop-Paired zero p q r h v y = subst (λ t. Paired world reply (at_rest t)) (ground arith) y
  start_loop-Paired (suc n) p q r h v y =
      let id = p.next_id + 1 in
      elim (Io-cases (Worker.new_worker (world.php id) (world.launch id) id)) [
        | inl e ↦ absurd (ground (arith, e, h))
        | inr (worker, a, e) ↦ elim (Result-cases a) [
          | inl (u, f) ↦ elim (send-cases id (register id worker (take_id p))) [
            | inl sent ↦
                let made : Worker.new_worker (world.php id) (world.launch id) id
                    ≡ returned worker (ok tt) =
                  e ∙ ap (returned worker) f in
                start_loop-Paired n _ q r (ground (arith, e, f, sent, h))
                  (added-Inv p _ worker
                    (new_worker-fresh (world.php id) id worker (world.launch id) made) sent v)
                  (added-Paired p _ worker made sent v y)
            | inr (inl stuck) ↦ absurd (ground (arith, e, f, stuck, h))
            | inr (inr fault) ↦ absurd (ground (arith, e, f, fault, h))
          ]
          | inr (x, f) ↦
              subst (λ t. Paired world reply (at_rest t)) (ground (arith, e, f, h))
                (unlaunched-Paired p y)
        ]
      ]

  Reach-Paired :
      {s t : System}
      → Reach world s t
      → disturbed t ≡ false
      → Inv s
      → Paired world reply s
      → Paired world reply t
  Reach-Paired here c v y = y
  Reach-Paired (next r st) c v y =
      Step-Synced world reply o st c (Reach-Inv world v r)
        (Reach-Paired r (Step-disturbed world st c) v y)

-- With processes of the protocol, in every state that a started pool reaches before the shutdown, and
-- before a `Reload` stops a worker, whatever the order of its goroutines: where the call for a request
-- has returned a frame, it is the answer of that worker's process to this very request.
pub own_answer :
    (world : World) (reply : ℕ → Frame → Frame) (cfg : Settings) (s : System) (w : ℕ)
    (req resp : Frame)
    → ((x : ℕ) → Obeys (world.php x) (reply x))
    → Running world cfg s
    → disturbed s ≡ false
    → mem w s.holding ≡ true
    → s.calls w ≡ ended req (ok resp)
    → req.type ≡ type_request
    → resp ≡ reply w req
unfolding start
own_answer world reply cfg s w req resp o (running q r h reach) c m e asks =
    let first =
      start_loop-Paired world reply o _ (new_pool cfg) q r h (new_pool-Inv cfg)
        (new_pool-Paired world reply cfg) in
    let v = start_loop-Inv world _ (new_pool cfg) q r h (new_pool-Inv cfg) in
    elim (((Reach-Paired world reply o reach c v first).at_each w).paired req resp
      (count-mem w s.holding m) e) [ inl (_, own, _) ↦ own | inr (other, _) ↦ absurd (other asks) ]
