-- ===== src/Analytics/Queries/Figures.antt =====
-- analytics/analytics.service.ts: the queries of one row, which are getLatencyPercentiles,
-- getActiveUsers and what getSummaryStats asks. `percentile_cont` lies on the line between the two
-- ordered latencies next to its place.
use edge_sphere_self_hosted.Prelude.{
  ℕ, zero, suc, ◌+◌, ◌-◌, ◌*◌, ◌/◌, ◌%◌, List, [], ◌∷◌, map, Option, none, some, leb, if◌then◌else◌,
  or_else, keep, length,
}
use edge_sphere_self_hosted.Prelude.Ratios.{Ratio, whole}
use edge_sphere_self_hosted.Analytics.Ingestion.{EventEntity}
use edge_sphere_self_hosted.Analytics.Summary.{Rows}
use edge_sphere_self_hosted.Analytics.Queries.{
  events_within, is_error, is_hit, count_where, order_by, sum_or_null, average, latencies,
  byte_counts, groups_of,
}

-- The element at a place; behind the end, the last.
unfoldable pub nth : List ℕ → ℕ → ℕ
nth [] n = 0
nth (x ∷ []) n = x
nth (x ∷ y ∷ xs) zero = x
nth (x ∷ y ∷ xs) (suc n) = nth (y ∷ xs) n

-- A hundred times the value at a hundredth of a place.
unfoldable pub between : List ℕ → (place : ℕ) → ℕ
between ns place =
    nth ns (place / 100) * (100 - place % 100) + nth ns (place / 100 + 1) * (place % 100)

unfoldable pub percentile_cont : (percent : ℕ) → List ℕ → Option Ratio
percentile_cont percent [] = none
percentile_cont percent (n ∷ ns) =
    some (record { num = between (order_by leb (n ∷ ns)) (percent * length ns); den = 99 })

pub record Percentiles : Type 0 where
  pub p50 : Ratio
  pub p95 : Ratio
  pub p99 : Ratio

unfoldable pub percentile_or_0 : (percent : ℕ) → List ℕ → Ratio
percentile_or_0 percent ns = or_else (percentile_cont percent ns) (whole 0)

unfoldable pub get_latency_percentiles : (now window : ℕ) → List EventEntity → Percentiles
get_latency_percentiles now window events =
    let ns = latencies (events_within now window events) in
    record { p50 = percentile_or_0 50 ns; p95 = percentile_or_0 95 ns; p99 = percentile_or_0 99 ns }

-- `COUNT(DISTINCT user_id)`.
unfoldable pub get_active_users : (now window : ℕ) → List EventEntity → ℕ
get_active_users now window events = length (groups_of (λ e. e.user_id) now window events)

-- What the database answers to the queries of a summary.
unfoldable pub rows_of : (now window : ℕ) → List EventEntity → Rows
rows_of now window events =
    let seen = events_within now window events in
    record {
      errors = some (count_where is_error seen);
      total = some (length seen);
      hits = sum_or_null (map (λ e. if is_hit e then 1 else 0) seen);
      cached_bytes = sum_or_null (byte_counts (keep is_hit seen));
      p95 = percentile_cont 95 (latencies seen);
      active_users = some (get_active_users now window events);
      total_bytes = sum_or_null (byte_counts seen);
      avg_latency = average (latencies seen);
    }
