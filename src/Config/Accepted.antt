-- ===== src/Config/Accepted.antt =====
-- What internal/config/config.go accepts.
use maboo.Base.{
  ℕ, ◌≤◌, ◌≡◌, ◌≢◌, ◌↔◌, ◌⊎◌, refl, subst, ap, All, Bool, not, ◌&&◌, String, true, false, List, [],
  ◌∷◌, Option, none, str_eq, str_eq_iff, arith,
}
use maboo.Base.Ints.{ℤ, pos, negsuc, lt}
use maboo.Base.Results.{ok}
use maboo.Config.{
  Config, ConfigError, checks, tests, validate, load, holds, is_empty, valid_modes,
  version_settings,
}

-- A config that is in order, with the limits of its pool as natural numbers.
pub record Accepted (c : Config) (lo hi jobs : ℕ) : Type 0 where
  pub min_is : c.pool.min_workers ≡ pos lo
  pub max_is : c.pool.max_workers ≡ pos hi
  pub jobs_is : c.pool.max_jobs ≡ pos jobs
  pub some_worker : 1 ≤ lo
  pub ordered : lo ≤ hi
  pub mode : (c.php.mode ≡ "worker") ⊎ (c.php.mode ≡ "request")
  pub version : holds c.php.version version_settings ≡ true
  pub php_worker : (c.php.binary ≡ "") ⊎ (c.php.worker ≢ "") ⊎ (c.workers ≢ [])
  pub address : c.server.address ≢ ""
  pub websocket : (c.websocket.enabled ≡ false) ⊎ (c.websocket.worker ≢ "")

natural : (z : ℤ) → lt z (pos 0) ≡ false → (n : ℕ) × (z ≡ pos n)
unfolding lt
natural (pos n) h = (n, λ i. pos n)
natural (negsuc n) h = absurd (cc)

min_natural : (z : ℤ) → lt z (pos 1) ≡ false → (n : ℕ) × (z ≡ pos n) × (1 ≤ n)
unfolding lt
min_natural (pos n) h = (n, (λ i. pos n), ground arith)
min_natural (negsuc n) h = absurd (cc)

max_natural : (z : ℤ) (lo : ℕ) → lt z (pos lo) ≡ false → (n : ℕ) × (z ≡ pos n) × (lo ≤ n)
unfolding lt
max_natural (pos n) lo h = (n, (λ i. pos n), ground arith)
max_natural (negsuc n) lo h = absurd (cc)

is_empty_iff : {A : Type 0} (xs : List A) → (is_empty xs ≡ true) ↔ (xs ≡ [])
is_empty_iff [] = ((λ e. refl), λ e. refl)
is_empty_iff (x ∷ xs) = ((λ e. absurd (cc)), λ e. absurd (cc))

-- `Validate` accepts when no test holds.
checks-none : (ts : List (Bool × ConfigError)) → (checks ts ≡ none) ↔ All (λ t. t.0 ≡ false) ts
unfolding checks
checks-none [] = ((λ e. tt), λ e. refl)
checks-none ((b, e) ∷ ts) =
    let (f, g) = checks-none ts in
    ((λ h. (ground arith, f (ground arith))), λ h. ground (arith, h.0, g h.1))

not-false : (b : Bool) → not b ≡ false → b ≡ true
not-false b h = ground arith

mode_iff : (s : String) → (not (holds s valid_modes) ≡ false) ↔ ((s ≡ "worker") ⊎ (s ≡ "request"))
unfolding holds
mode_iff s = ground (arith, str_eq_iff "worker" s, str_eq_iff "request" s)

php_worker_iff :
    {A : Type 0} (s t : String) (xs : List A)
    → (not (str_eq s "") && (str_eq t "" && is_empty xs) ≡ false)
      ↔ ((s ≡ "") ⊎ (t ≢ "") ⊎ (xs ≢ []))
php_worker_iff s t xs = ground (arith, str_eq_iff s "", str_eq_iff t "", is_empty_iff xs)

websocket_iff : (b : Bool) (s : String) → ((b && str_eq s "") ≡ false) ↔ ((b ≡ false) ⊎ (s ≢ ""))
websocket_iff b s = ground (arith, str_eq_iff s "")

address_iff : (s : String) → (str_eq s "" ≡ false) ↔ (s ≢ "")
address_iff s = ground (arith, str_eq_iff s "")

accepted :
    (c : Config) → validate c ≡ none → (lo : ℕ) × (hi : ℕ) × (jobs : ℕ) × Accepted c lo hi jobs
unfolding validate tests
accepted c h =
    let (b1, (b2, (b3, (b4, (b5, (b6, (b7, (b8, end)))))))) = (checks-none (tests c)).0 h in
    let (lo, e, some_worker) = min_natural c.pool.min_workers b1 in
    let (hi, f, ordered) =
      max_natural c.pool.max_workers lo (subst (λ z. lt c.pool.max_workers z ≡ false) e b2) in
    let (jobs, g) = natural c.pool.max_jobs b3 in
    (
      lo,
      hi,
      jobs,
      record {
        min_is = e;
        max_is = f;
        jobs_is = g;
        some_worker = some_worker;
        ordered = ordered;
        mode = (mode_iff c.php.mode).0 b4;
        version = not-false (holds c.php.version version_settings) b5;
        php_worker = (php_worker_iff c.php.binary c.php.worker c.workers).0 b6;
        address = (address_iff c.server.address).0 b7;
        websocket = (websocket_iff c.websocket.enabled c.websocket.worker).0 b8;
      },
    )

min_test :
    (c : Config) (lo hi jobs : ℕ) → Accepted c lo hi jobs → lt c.pool.min_workers (pos 1) ≡ false
unfolding lt
min_test c lo hi jobs a = rw a.min_is (ground (arith, a.some_worker))

max_test :
    (c : Config) (lo hi jobs : ℕ)
    → Accepted c lo hi jobs
    → lt c.pool.max_workers c.pool.min_workers ≡ false
unfolding lt
max_test c lo hi jobs a = rw (a.min_is, a.max_is) (ground (arith, a.ordered))

jobs_test :
    (c : Config) (lo hi jobs : ℕ) → Accepted c lo hi jobs → lt c.pool.max_jobs (pos 0) ≡ false
unfolding lt
jobs_test c lo hi jobs a = rw a.jobs_is (ground arith)

validate-Accepted : (c : Config) (lo hi jobs : ℕ) → Accepted c lo hi jobs → validate c ≡ none
unfolding validate tests
validate-Accepted c lo hi jobs a = (checks-none (tests c)).1 (
  min_test c lo hi jobs a,
  (
    max_test c lo hi jobs a,
    (
      jobs_test c lo hi jobs a,
      (
        (mode_iff c.php.mode).1 a.mode,
        (
          ap not a.version,
          (
            (php_worker_iff c.php.binary c.php.worker c.workers).1 a.php_worker,
            (
              (address_iff c.server.address).1 a.address,
              ((websocket_iff c.websocket.enabled c.websocket.worker).1 a.websocket, tt),
            ),
          ),
        ),
      ),
    ),
  ),
)

-- `Validate` returns no error exactly for a config that is in order: limits with
-- 1 ≤ min ≤ max and 0 ≤ jobs, a known mode and version, a worker script where an external PHP needs
-- one, an address, and a websocket worker where websockets are on.
pub validate_iff :
    (c : Config) → (validate c ≡ none) ↔ ((lo : ℕ) × (hi : ℕ) × (jobs : ℕ) × Accepted c lo hi jobs)
validate_iff c = (accepted c, λ (lo, hi, jobs, a). validate-Accepted c lo hi jobs a)

-- What `Load` returns, `Validate` accepts.
pub load-validate :
    (read_file : String → Option (List ℕ)) (unmarshal : List ℕ → Config → Option Config)
    (path : String) (c : Config)
    → load read_file unmarshal path ≡ ok c
    → validate c ≡ none
unfolding load
load-validate read_file unmarshal path c h = ground arith
