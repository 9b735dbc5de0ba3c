-- ===== src/Metrics/Histogram.antt =====
-- The histogram of internal/server/metrics.go.
use maboo.Base.{
  ℕ, ◌+◌, ◌*◌, ◌≤◌, ◌≡◌, refl, sym, ap, ◌∙◌, List, [], ◌∷◌, map, leb, length, All, arith,
  if◌then◌else◌,
}
use maboo.Metrics.{
  Metrics, Request, duration_buckets, zeros, new_metrics, observe, begin_request, end_request,
  serve_all, cumulate, histogram,
}

-- How many of the requests took at most so long.
unfoldable pub within : ℕ → List Request → ℕ
within bound [] = 0
within bound (r ∷ rs) = (if leb r.duration bound then 1 else 0) + within bound rs

-- Counts with a number added for each bucket.
add_within : List Request → List ℕ → List ℕ → List ℕ
add_within rs [] counts = counts
add_within rs (b ∷ bs) [] = []
add_within rs (b ∷ bs) (n ∷ counts) = (n + within b rs) ∷ add_within rs bs counts

cons-eq : (m n : ℕ) (ms ns : List ℕ) → m ≡ n → ms ≡ ns → m ∷ ms ≡ n ∷ ns
cons-eq m n ms ns p q = λ i. p i ∷ q i

add_within-observe :
    (r : Request) (rs : List Request) (bs counts : List ℕ)
    → add_within rs bs (observe r.duration bs counts) ≡ add_within (r ∷ rs) bs counts
unfolding add_within observe within
add_within-observe r rs [] counts = refl
add_within-observe r rs (b ∷ bs) [] = refl
add_within-observe r rs (b ∷ bs) (n ∷ counts) =
    cons-eq _ _ _ _ (ground arith) (add_within-observe r rs bs counts)

add_within-nil : (bs counts : List ℕ) → add_within [] bs counts ≡ counts
unfolding add_within within
add_within-nil [] counts = refl
add_within-nil (b ∷ bs) [] = refl
add_within-nil (b ∷ bs) (n ∷ counts) = cons-eq _ _ _ _ (omega arith) (add_within-nil bs counts)

serve_all-counts :
    (rs : List Request) (m : Metrics)
    → (serve_all rs m).duration_counts ≡ add_within rs duration_buckets m.duration_counts
unfolding serve_all begin_request end_request
serve_all-counts [] m = sym (add_within-nil duration_buckets m.duration_counts)
serve_all-counts (r ∷ rs) m =
    serve_all-counts rs (end_request r (begin_request m))
    ∙ add_within-observe r rs duration_buckets m.duration_counts

add_within-zeros :
    (rs : List Request) (bs : List ℕ) → add_within rs bs (zeros bs) ≡ map (λ b. within b rs) bs
unfolding add_within
add_within-zeros rs [] = refl
add_within-zeros rs (b ∷ bs) = cons-eq _ _ _ _ (omega arith) (add_within-zeros rs bs)

serve_all-count :
    (rs : List Request) (m : Metrics)
    → ((serve_all rs m).duration_count ≡ m.duration_count + length rs)
      × ((serve_all rs m).active_requests ≡ m.active_requests)
unfolding serve_all begin_request end_request
serve_all-count [] m = (omega arith, refl)
serve_all-count (r ∷ rs) m =
    let (a, b) = serve_all-count rs (end_request r (begin_request m)) in
    (omega (arith, a), b ∙ omega arith)

-- After any requests, the middleware's count for each bucket is the number of requests that took at
-- most that long, the total is their number, and none is left active.
pub counts_lem :
    (rs : List Request)
    → let m = serve_all rs new_metrics in
      (m.duration_counts ≡ map (λ b. within b rs) duration_buckets)
      × (m.duration_count ≡ length rs)
      × (m.active_requests ≡ 0)
unfolding new_metrics
counts_lem rs =
    let (count, active) = serve_all-count rs new_metrics in
    (
      serve_all-counts rs new_metrics ∙ add_within-zeros rs duration_buckets,
      omega (arith, count),
      active,
    )

within-all :
    (bound : ℕ) (rs : List Request)
    → All (λ r. r.duration ≤ bound) rs
    → (b : ℕ) → bound ≤ b
    → within b rs ≡ length rs
unfolding within
within-all bound [] a b h = refl
within-all bound (r ∷ rs) a b h = ground (arith, a.0, within-all bound rs a.1 b h)

map-within :
    (rs : List Request) (bs : List ℕ)
    → All (λ r. r.duration ≤ 5000000) rs
    → All (λ b. 5000000 ≤ b) bs
    → map (λ b. within b rs) bs ≡ map (λ b. length rs) bs
map-within rs [] a h = refl
map-within rs (b ∷ bs) a h =
    cons-eq _ _ _ _ (within-all 5000000 rs a b h.0) (map-within rs bs a h.1)

-- The numbers from `k` on, one for each bucket.
places : ℕ → List ℕ → List ℕ
places k [] = []
places k (b ∷ bs) = k ∷ places (k + 1) bs

next_multiple : (k n : ℕ) → k * n + n ≡ (k + 1) * n
next_multiple k n = omega arith

cumulate-same :
    (k n : ℕ) (bs : List ℕ)
    → cumulate (k * n) (map (λ b. n) bs) ≡ map (λ j. j * n) (places (k + 1) bs)
unfolding cumulate places
cumulate-same k n [] = refl
cumulate-same k n (b ∷ bs) =
    cons-eq _ _ _ _ (next_multiple k n)
      (ap (λ c. cumulate c (map (λ b. n) bs)) (next_multiple k n) ∙ cumulate-same (k + 1) n bs)

all_bounds : All (λ b. 5000000 ≤ b) duration_buckets
all_bounds = omega arith

-- Where no request took longer than the first bound, the endpoint does not show their number in each
-- bucket: it shows that number times the place of the bucket, up to eleven times the `+Inf` line.
pub histogram_overcounts :
    (rs : List Request)
    → All (λ r. r.duration ≤ 5000000) rs
    → let n = length rs in
      histogram (serve_all rs new_metrics)
      ≡ (map (λ k. k * n) (1 ∷ 2 ∷ 3 ∷ 4 ∷ 5 ∷ 6 ∷ 7 ∷ 8 ∷ 9 ∷ 10 ∷ 11 ∷ []), n)
unfolding histogram places
histogram_overcounts rs a =
    let (counts, total, active) = counts_lem rs in
    let shown = counts ∙ map-within rs duration_buckets a all_bounds in
    let none_yet : 0 ≡ 0 * length rs = omega arith in
    let lines =
      ap (cumulate 0) shown
      ∙ ap (λ c. cumulate c (map (λ b. length rs) duration_buckets)) none_yet
      ∙ cumulate-same 0 (length rs) duration_buckets in
    λ i. (lines i, total i)
