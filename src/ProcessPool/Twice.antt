-- ===== src/ProcessPool/Twice.antt =====
-- internal/pool/pool.go: `checkHealth` against `replaceWorker`.
use maboo.Base.{
  ℕ, ◌+◌, ◌-◌, ◌≤◌, ◌<◌, ◌≡◌, refl, ap, subst, ◌∙◌, inl, inr, true, false, List, [], ◌∷◌, length,
  arith, length-append, Bool-cases,
}
use maboo.Base.Results.{ok}
use maboo.WorkerPool.Ids.{mem, mem-here, remove, count, count-mem, count-remove, length-remove}
use maboo.ProcessPool.Worker
use maboo.ProcessPool.Worker.{Worker, WorkerState, Io, returned}
use maboo.ProcessPool.Pool.{Settings, Pool, World, register, remove_worker, stop_worker}
use maboo.ProcessPool.Upkeep.{check_workers, is_in_use}
use maboo.ProcessPool.System.{System, replaced}
use maboo.ProcessPool.System.Steps.{
  take_id, Reach, here, next, inspect, remove_old, stop_dead, remove_dead, go_on, respawn, join,
}
use maboo.ProcessPool.Sequential.Calls.{Reach-trans}
use maboo.ProcessPool.Ownership.{Inv}
use maboo.ProcessPool.Ownership.Reached.{Running, Running-Inv}

-- The process of this id starts and sends its READY.
abbrev pub Starts : World → ℕ → Type 0
Starts world id =
    (worker : Worker) × (Worker.new_worker (world.php id) (world.launch id) id
      ≡ returned worker (ok tt))

-- One replacement that goes well.
record Grown (s t : System) : Type 0 where
  one_more : length t.pool.workers ≡ length s.pool.workers + 1
  next_one : t.pool.next_id ≡ s.pool.next_id + 1
  one_less : t.respawning + 1 ≡ s.respawning
  cfg_same : t.pool.cfg ≡ s.pool.cfg

replacement :
    (world : World) (s : System)
    → 0 < s.respawning
    → Starts world (s.pool.next_id + 1)
    → (t : System) × Reach world s t × Grown s t
unfolding take_id register
replacement world s some' (worker, starts) =
    let id : ℕ = s.pool.next_id + 1 in
    let launched : System = record s {
      pool = take_id s.pool;
      respawning = s.respawning - 1;
      launching = id ∷ s.launching;
    } in
    let joined : System = record launched {
      pool = register id worker launched.pool;
      launching = remove id launched.launching;
      arriving = id ∷ launched.arriving;
    } in
    (
      joined,
      next (next here (respawn s some')) (join launched id worker (mem-here id s.launching) starts),
      record {
        one_more = length-append s.pool.workers (id ∷ []);
        next_one = refl;
        one_less = omega arith;
        cfg_same = refl;
      },
    )

-- The pool after both goroutines have removed the worker.
abbrev gone : World → ℕ → Pool → Pool
gone world w p = remove_worker w (remove_worker w (stop_worker world w p))

record Gone (w : ℕ) (p q : Pool) : Type 0 where
  one_fewer : length q.workers + 1 ≡ length p.workers
  id_same : q.next_id ≡ p.next_id
  settings_same : q.cfg ≡ p.cfg
  going_on : q.cancelled ≡ p.cancelled

gone-Gone :
    (world : World) (w : ℕ) (p : Pool)
    → mem w p.workers ≡ true
    → count w p.workers ≤ 1
    → Gone w p (gone world w p)
unfolding remove_worker stop_worker
gone-Gone world w p m few =
    let absent : mem w (remove w p.workers) ≡ false =
      elim (Bool-cases (mem w (remove w p.workers))) [
        | inl h ↦
            absurd
              (ground (arith, count-mem w (remove w p.workers) h, count-remove w w p.workers m))
        | inr h ↦ h
      ] in
    record {
      one_fewer = rw (m, absent) (length-remove w p.workers m);
      id_same = rw (m, absent) refl;
      settings_same = rw (m, absent) refl;
      going_on = rw (m, absent) refl;
    }

-- A worker that `replaceWorker` has stopped, and not yet taken off the list, and to which the loop of
-- `checkHealth` comes just then.
pub record Between (w : ℕ) (rest : List ℕ) (s : System) : Type 0 where
  pub stopped_one : mem w s.removing ≡ true
  pub still_listed : mem w s.pool.workers ≡ true
  pub up_next : s.checking ≡ w ∷ rest
  pub idle_now : is_in_use (s.pool.heap w).state ≡ false
  pub reaped_now : (s.pool.heap w).reaped ≡ true
  pub runs_on : s.pool.cancelled ≡ false

removed_twice :
    (world : World) (w : ℕ) (rest : List ℕ) (s : System)
    → Inv s
    → Between w rest s
    → (t : System) × Reach world s t × Gone w s.pool t.pool × (t.respawning ≡ s.respawning + 2)
unfolding check_workers Worker.is_alive
removed_twice world w rest s v b =
    let q = gone world w s.pool in
    let g : Gone w s.pool q =
      gone-Gone world w s.pool b.still_listed
        (omega (arith, (v.each w).listed_once, (v.each w).alone)) in
    let found : replaced (check_workers s.pool (w ∷ [])) s.condemned ≡ w ∷ s.condemned =
      rw (b.idle_now, b.reaped_now) refl in
    let s1 : System = record s {
      checking = rest;
      condemned = replaced (check_workers s.pool (w ∷ [])) s.condemned;
    } in
    let s2 : System = record s1 {
      pool = stop_worker world w s1.pool;
      condemned = remove w s1.condemned;
      discarding = w ∷ s1.discarding;
    } in
    let s3 : System = record s2 {
      pool = remove_worker w s2.pool;
      discarding = remove w s2.discarding;
      removed = s2.removed + 1;
    } in
    let s4 : System = record s3 {
      pool = remove_worker w s3.pool;
      removing = remove w s3.removing;
      removed = s3.removed + 1;
    } in
    let s5 : System = record s4 { removed = s4.removed - 1; respawning = s4.respawning + 1 } in
    let s6 : System = record s5 { removed = s5.removed - 1; respawning = s5.respawning + 1 } in
    let on : s4.pool.cancelled ≡ false = g.going_on ∙ b.runs_on in
    (
      s6,
      next
          (next
            (next
              (next
                (next (next here (inspect s w rest b.up_next))
                  (stop_dead s1 w (ap (mem w) found ∙ mem-here w s.condemned)))
                (remove_dead s2 w (mem-here w s1.discarding)))
              (remove_old s3 w b.stopped_one))
            (go_on s4 (omega arith) on))
          (go_on s5 (omega arith) on),
      g,
      omega arith,
    )

-- From any state that a started pool reaches in which `checkHealth` comes to a worker between its
-- stop and its removal, if the next two processes start, a history leads to one worker more: both
-- goroutines remove it, and each makes another in its place. Where the pool had `max_workers`, it
-- has more then.
pub replaced_twice :
    (world : World) (cfg : Settings) (w : ℕ) (rest : List ℕ) (s : System)
    → Running world cfg s
    → Between w rest s
    → Starts world (s.pool.next_id + 1)
    → Starts world (s.pool.next_id + 2)
    → (t : System) × Reach world s t
      × (length t.pool.workers ≡ length s.pool.workers + 1)
      × (s.pool.cfg.max_workers ≤ length s.pool.workers
          → t.pool.cfg.max_workers < length t.pool.workers)
replaced_twice world cfg w rest s r b one two =
    let (t, to_t, g, pending) = removed_twice world w rest s (Running-Inv world cfg s r) b in
    let (u, to_u, first) = replacement world t (omega arith) (rw g.id_same one) in
    let (x, to_x, second) =
      replacement world u (omega (arith, first.one_less))
        (subst (Starts world) (omega (arith, g.id_same, first.next_one)) two) in
    let same : x.pool.cfg ≡ s.pool.cfg = second.cfg_same ∙ first.cfg_same ∙ g.settings_same in
    let grown : length x.pool.workers ≡ length s.pool.workers + 1 =
      omega (arith, g.one_fewer, first.one_more, second.one_more) in
    (
      x,
      Reach-trans world to_t (Reach-trans world to_u to_x),
      grown,
      λ full. omega (arith, grown, ap (λ (c : Settings). c.max_workers) same),
    )
