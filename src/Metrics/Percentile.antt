-- ===== src/Metrics/Percentile.antt =====
-- orchestrator/metrics.py: `percentile`, the nearest-rank percentile over sorted samples.
use fleet_lm.Base.{
  ℕ, zero, suc, ◌+◌, ◌-◌, ◌*◌, ◌/◌, min, max, Option, none, some, List, [], ◌∷◌, length, sort_by,
}

abbrev pub get_elem? : List ℕ → ℕ → Option ℕ
get_elem? [] i = none
get_elem? (x ∷ xs) zero = some x
get_elem? (x ∷ xs) (suc i) = get_elem? xs i

-- `max(1, min(n, -(-n * pct // 100)))`: the negations round the quotient up.
unfoldable pub rank : ℕ → ℕ → ℕ
rank n pct = max 1 (min n ((n * pct + 99) / 100))

unfoldable pub percentile : List ℕ → ℕ → Option ℕ
unfolding rank
percentile [] pct = none
percentile (v ∷ vs) pct =
    let ordered = sort_by (λ x. x) (v ∷ vs) in get_elem? ordered (rank (length ordered) pct - 1)
