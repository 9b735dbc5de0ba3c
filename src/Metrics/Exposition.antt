-- ===== src/Metrics/Exposition.antt =====
-- internal/server/metrics.go, `serveMetrics`: the samples of the page, in their order. The comment lines and the
-- formats are constant text; a time is in nanoseconds. `goroutines` and `allocated` are the
-- runtime's figures, and `stats` the pool's, if there is a pool.
use maboo.Base.{ℕ, String, List, [], ◌∷◌, ◌++◌, Option, none, some}
use maboo.WorkerPool.Upkeep.{Stats}
use maboo.Metrics.{Counter, Metrics, duration_buckets, histogram}

-- A bucket without a bound is that of `+Inf`.
pub data Sample : Type 0 where
  requests_total : String → ℕ → ℕ → Sample
  requests_active response_bytes duration_sum duration_count : ℕ → Sample
  duration_bucket : Option ℕ → ℕ → Sample
  workers_total workers_busy workers_idle pool_requests : ℕ → Sample
  go_goroutines go_alloc_bytes : ℕ → Sample

unfoldable pub counter_samples : List Counter → List Sample
counter_samples [] = []
counter_samples (c ∷ cs) = requests_total c.method c.status c.count ∷ counter_samples cs

unfoldable pub bucket_samples : List ℕ → List ℕ → List Sample
bucket_samples [] counts = []
bucket_samples (b ∷ bs) [] = []
bucket_samples (b ∷ bs) (n ∷ counts) = duration_bucket (some b) n ∷ bucket_samples bs counts

abbrev pub pool_samples : Option Stats → List Sample
pool_samples none = []
pool_samples (some stats) =
    workers_total stats.total_workers
    ∷ workers_busy stats.busy_workers
    ∷ workers_idle stats.idle_workers
    ∷ pool_requests stats.total_requests
    ∷ []

unfoldable pub serve_metrics : Option Stats → ℕ → ℕ → Metrics → List Sample
unfolding counter_samples bucket_samples histogram
serve_metrics stats goroutines allocated m =
    let (counts, total) = histogram m in
    counter_samples m.total_requests
    ++ requests_active m.active_requests
      ∷ response_bytes m.total_bytes
      ∷ (bucket_samples duration_buckets counts
          ++ duration_bucket none total
            ∷ duration_sum m.duration_sum
            ∷ duration_count total
            ∷ (pool_samples stats ++ go_goroutines goroutines ∷ go_alloc_bytes allocated ∷ []))
