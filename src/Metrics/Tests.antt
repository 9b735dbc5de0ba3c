-- ===== src/Metrics/Tests.antt =====
-- Examples for internal/server/metrics.go.
use maboo.Base.{◌≡◌, [], ◌∷◌, map, arith}
use maboo.Metrics.{Request, duration_buckets, new_metrics, serve_all, histogram}
use maboo.Metrics.Histogram.{within, counts_lem, histogram_overcounts}

abbrev fast : Request
fast = record { method = "GET"; status = 200; bytes = 12; duration = 3000000 }

abbrev slow : Request
slow = record { method = "POST"; status = 502; bytes = 40; duration = 700000000 }

counts_lem_example :
    let m = serve_all (fast ∷ slow ∷ []) new_metrics in
    (m.duration_counts ≡ map (λ b. within b (fast ∷ slow ∷ [])) duration_buckets)
    × (m.duration_count ≡ 2)
    × (m.active_requests ≡ 0)
counts_lem_example = counts_lem (fast ∷ slow ∷ [])

histogram_overcounts_example :
    histogram (serve_all (fast ∷ fast ∷ []) new_metrics)
    ≡ (2 ∷ 4 ∷ 6 ∷ 8 ∷ 10 ∷ 12 ∷ 14 ∷ 16 ∷ 18 ∷ 20 ∷ 22 ∷ [], 2)
histogram_overcounts_example =
    histogram_overcounts (fast ∷ fast ∷ []) (omega arith, (omega arith, tt))
