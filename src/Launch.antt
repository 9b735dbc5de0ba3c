-- ===== src/Launch.antt =====
-- cmd/maboo/main.go up to `workerPool.Start`: the config is loaded and its pool is started.
-- The selector is called for each worker in the source; the file it reads is taken not to change
-- between those calls.
pub mod Commands
mod Tests
use maboo.Base.{
  ℕ, String, true, List, ◌≡◌, refl, subst, sym, Bool-cases, if◌then◌else◌, ◌||◌, Option, str_eq,
  str_eq_iff, length, arith, inl, inr,
}
use maboo.Base.Dict.{Dict}
use maboo.Base.Results.{ok}
use maboo.Engine.{contains, valid_versions}
use maboo.Config.{Config, load, holds, version_settings}
use maboo.Config.Accepted.{Accepted, validate_iff, load-validate}
use maboo.Selector.{Text, select_version}
use maboo.Selector.Selected.{select_version_lem}
use maboo.WorkerPool.Pool.{Settings, Pool, done, start, new_pool}
use maboo.WorkerPool.Ownership.Start.{start_lem}

-- What the pool and its workers read of a config with these limits.
unfoldable pub settings : Config → String → ℕ → ℕ → ℕ → Settings
settings c version lo hi jobs = record {
  mode = c.php.mode;
  version = version;
  min_workers = lo;
  max_workers = hi;
  max_jobs = jobs;
}

-- A version that the config allows is resolved to one that the engine has.
supported :
    (s : String)
    → holds s version_settings ≡ true
    → contains (if str_eq s "" || str_eq s "auto" then "8.3" else s) valid_versions ≡ true
unfolding holds contains
supported s h = elim (Bool-cases (str_eq s "" || str_eq s "auto")) [
  | inl e ↦ rw e refl
  | inr e ↦ rw e (ground (arith, str_eq_iff s "auto", str_eq_iff "auto" s))
]

-- A config that `Load` returns starts its pool, whatever composer.json requires: all the `min_workers`
-- workers are made and wait in the channel.
pub load_starts :
    (read_file : String → Option (List ℕ)) (unmarshal : List ℕ → Config → Option Config)
    (require : List ℕ → Option (Dict Text)) (path : String) (c : Config)
    → load read_file unmarshal path ≡ ok c
    → (lo : ℕ) × (hi : ℕ) × (jobs : ℕ) × Accepted c lo hi jobs
      × (q : Pool) × (start (
            new_pool
              (settings c (select_version read_file require c.app.root c.php.version) lo hi jobs))
          ≡ done q (ok tt))
      × (length q.workers ≡ lo)
      × (q.available ≡ q.workers)
unfolding settings
load_starts read_file unmarshal require path c h =
    let (lo, hi, jobs, a) = (validate_iff c).0 (load-validate read_file unmarshal path c h) in
    let version = select_version read_file require c.app.root c.php.version in
    let valid : contains version valid_versions ≡ true =
      subst (λ v. contains v valid_versions ≡ true)
        (sym (select_version_lem read_file require c.app.root c.php.version))
        (supported c.php.version a.version) in
    let (q, runs, size, full, inv) = start_lem (settings c version lo hi jobs) valid a.ordered in
    (lo, hi, jobs, a, q, runs, size, full)
