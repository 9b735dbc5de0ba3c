-- ===== src/ResponseWriter/Tests.antt =====
-- Examples for internal/server/middleware.go.
use maboo.Base.{ℕ, ◌≡◌, ◌≤◌, Bool, false, List, [], ◌∷◌, length}
use maboo.ResponseWriter.{reset, status, body, use_all}
use maboo.ResponseWriter.Recorded.{
  finals, hints, taken, first_status, sent_status, sent_body, used_body, recorded_lem,
}

all_taken : List ℕ → ℕ × Bool
all_taken b = (length b, false)

recorded_lem_example :
    let rw =
      use_all all_taken
        (status 404 ∷ body (1 ∷ 2 ∷ []) ∷ status 500 ∷ [])
        (reset ("</a.css>; rel=preload" ∷ [])) in
    (rw.status_code ≡ sent_status rw.calls)
    × (rw.status_code ≡ 404)
    × (sent_body rw.calls ≡ 1 ∷ 2 ∷ [])
    × (rw.bytes_written ≡ taken all_taken (status 404 ∷ body (1 ∷ 2 ∷ []) ∷ status 500 ∷ []))
    × (finals rw.calls ≤ 1)
    × (hints rw.calls ≤ 1)
unfolding first_status used_body
recorded_lem_example =
    recorded_lem all_taken ("</a.css>; rel=preload" ∷ [])
      (status 404 ∷ body (1 ∷ 2 ∷ []) ∷ status 500 ∷ [])
