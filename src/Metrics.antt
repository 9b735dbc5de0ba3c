-- ===== src/Metrics.antt =====
-- internal/server/metrics.go: the counters of the middleware, and the histogram that the endpoint
-- shows. A key of `totalRequests` is the pair that the source formats as `method:status`. Durations
-- are nanoseconds; so are the bucket bounds, given in seconds in the source. The counters do not
-- wrap.
pub mod Histogram
pub mod Exposition
mod Tests
use maboo.Base.{
  ℕ, zero, suc, ◌+◌, ◌-◌, String, Bool, true, false, ◌&&◌, List, [], ◌∷◌, leb, ◌==◌, str_eq,
  if◌then◌else◌,
}

pub record Counter : Type 0 where
  pub method : String
  pub status : ℕ
  pub count : ℕ

-- `duration_counts` has the count of each bucket, 0 for one that the map does not hold yet.
pub record Metrics : Type 0 where
  pub total_requests : List Counter
  pub active_requests : ℕ
  pub total_bytes : ℕ
  pub duration_counts : List ℕ
  pub duration_sum : ℕ
  pub duration_count : ℕ

abbrev pub duration_buckets : List ℕ
duration_buckets =
    5000000 ∷ 10000000 ∷ 25000000 ∷ 50000000 ∷ 100000000 ∷ 250000000 ∷ 500000000 ∷ 1000000000
    ∷ 2500000000 ∷ 5000000000 ∷ 10000000000 ∷ []

abbrev pub zeros : List ℕ → List ℕ
zeros [] = []
zeros (b ∷ bs) = 0 ∷ zeros bs

unfoldable pub new_metrics : Metrics
new_metrics = record {
  total_requests = [];
  active_requests = 0;
  total_bytes = 0;
  duration_counts = zeros duration_buckets;
  duration_sum = 0;
  duration_count = 0;
}

-- `LoadOrStore`, then `Add(1)`.
unfoldable pub count_request : String → ℕ → List Counter → List Counter
count_request method status [] = record { method = method; status = status; count = 1 } ∷ []
count_request method status (c ∷ cs) =
    let rest = count_request method status cs in
    if str_eq c.method method && (c.status == status)
    then record c { count = c.count + 1 } ∷ cs
    else c ∷ rest

-- The loop over the buckets.
unfoldable pub observe : ℕ → List ℕ → List ℕ → List ℕ
observe duration [] counts = counts
observe duration (b ∷ bs) [] = []
observe duration (b ∷ bs) (n ∷ counts) =
    let rest = observe duration bs counts in (if leb duration b then n + 1 else n) ∷ rest

-- A request, as the wrapped handler answered it.
pub record Request : Type 0 where
  pub method : String
  pub status : ℕ
  pub bytes : ℕ
  pub duration : ℕ

unfoldable pub begin_request : Metrics → Metrics
begin_request m = record m { active_requests = m.active_requests + 1 }

unfoldable pub end_request : Request → Metrics → Metrics
unfolding count_request observe
end_request r m = record m {
  total_requests = count_request r.method r.status m.total_requests;
  active_requests = m.active_requests - 1;
  total_bytes = m.total_bytes + r.bytes;
  duration_counts = observe r.duration duration_buckets m.duration_counts;
  duration_sum = m.duration_sum + r.duration;
  duration_count = m.duration_count + 1;
}

-- Requests one after the other.
unfoldable pub serve_all : List Request → Metrics → Metrics
unfolding begin_request end_request
serve_all [] m = m
serve_all (r ∷ rs) m = serve_all rs (end_request r (begin_request m))

-- The loop of `serveMetrics` over the buckets, from the sum so far.
unfoldable pub cumulate : ℕ → List ℕ → List ℕ
cumulate cumulative [] = []
cumulate cumulative (n ∷ counts) = (cumulative + n) ∷ cumulate (cumulative + n) counts

-- The bucket lines, and the line for `+Inf`.
unfoldable pub histogram : Metrics → List ℕ × ℕ
unfolding cumulate
histogram m = (cumulate 0 m.duration_counts, m.duration_count)
