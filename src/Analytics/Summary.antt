-- ===== src/Analytics/Summary.antt =====
-- analytics/analytics.service.ts: getErrorRate, getCacheHitRatio and getSummaryStats. The answers
-- of the database are arguments; each is `none` where the row holds null, as SUM and AVG do over no
-- event.
mod Tests
use edge_sphere_self_hosted.Prelude.{
  ℕ, zero, suc, ◌-◌, ◌≤◌, ◌≡◌, Option, none, some, ltb, if◌then◌else◌, or_else, true, arith,
}
use edge_sphere_self_hosted.Prelude.Ratios.{Ratio, whole, ler}

-- The rows of the queries over one window of minutes.
pub record Rows : Type 0 where
  pub errors : Option ℕ
  pub total : Option ℕ
  pub hits : Option ℕ
  pub cached_bytes : Option ℕ
  pub p95 : Option Ratio
  pub active_users : Option ℕ
  pub total_bytes : Option ℕ
  pub avg_latency : Option Ratio

-- COUNT(*) FILTER and SUM(CASE …) count some of the rows that COUNT(*) counts.
pub record IsCounted (r : Rows) : Type 0 where
  pub errors : or_else r.errors 0 ≤ or_else r.total 0
  pub hits : or_else r.hits 0 ≤ or_else r.total 0

-- `total > 0 ? part / total : 0`.
pub share : ℕ → ℕ → Ratio
share part total = if ltb 0 total then record { num = part; den = total - 1 } else whole 0

pub record ErrorRate : Type 0 where
  pub error_rate : Ratio
  pub total : ℕ
  pub errors : ℕ

unfoldable pub get_error_rate : Rows → ErrorRate
get_error_rate rows =
    let errors = or_else rows.errors 0 in
    let total = or_else rows.total 0 in
    record { error_rate = share errors total; total = total; errors = errors }

pub record CacheHitRatio : Type 0 where
  pub hit_ratio : Ratio
  pub hits : ℕ
  pub misses : ℕ
  pub cached_bytes : ℕ

pub get_cache_hit_ratio : Rows → CacheHitRatio
get_cache_hit_ratio rows =
    let hits = or_else rows.hits 0 in
    let total = or_else rows.total 0 in
    record {
      hit_ratio = share hits total;
      hits = hits;
      misses = total - hits;
      cached_bytes = or_else rows.cached_bytes 0;
    }

pub record SummaryStats : Type 0 where
  pub total_requests : ℕ
  pub cache_hit_ratio : Ratio
  pub avg_latency : Ratio
  pub p95_latency : Ratio
  pub total_bandwidth_bytes : ℕ
  pub error_rate : Ratio
  pub active_users : ℕ
  pub window_minutes : ℕ

unfoldable pub get_summary_stats : ℕ → Rows → SummaryStats
unfolding get_error_rate get_cache_hit_ratio
get_summary_stats window rows = record {
  total_requests = (get_error_rate rows).total;
  cache_hit_ratio = (get_cache_hit_ratio rows).hit_ratio;
  avg_latency = or_else rows.avg_latency (whole 0);
  p95_latency = or_else rows.p95 (whole 0);
  total_bandwidth_bytes = or_else rows.total_bytes 0;
  error_rate = (get_error_rate rows).error_rate;
  active_users = or_else rows.active_users 0;
  window_minutes = window;
}

share-le-one : (part total : ℕ) → part ≤ total → ler (share part total) (whole 1) ≡ true
unfolding share
share-le-one part total h = ground arith

-- Both rates of a summary are fractions of 1, not percentages.
pub summary_rates :
    (window : ℕ) (rows : Rows)
    → IsCounted rows
    → let s = get_summary_stats window rows in
      (ler s.error_rate (whole 1) ≡ true) × (ler s.cache_hit_ratio (whole 1) ≡ true)
unfolding get_summary_stats
summary_rates window rows c = (
  share-le-one (or_else rows.errors 0) (or_else rows.total 0) c.errors,
  share-le-one (or_else rows.hits 0) (or_else rows.total 0) c.hits,
)
