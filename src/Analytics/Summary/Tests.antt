-- ===== src/Analytics/Summary/Tests.antt =====
-- A window with 40 requests, of which 10 failed and 30 were hits.
use edge_sphere_self_hosted.Prelude.{◌≡◌, refl, some}
use edge_sphere_self_hosted.Prelude.Ratios.{whole}
use edge_sphere_self_hosted.Analytics.Summary.{Rows, get_summary_stats, get_error_rate, share}

abbrev window : Rows
window = record {
  errors = some 10;
  total = some 40;
  hits = some 30;
  cached_bytes = some 900;
  p95 = some (whole 30);
  active_users = some 2;
  total_bytes = some 1000;
  avg_latency = some (whole 12);
}

a_quarter_failed : (get_summary_stats 60 window).error_rate ≡ (record { num = 10; den = 39 })
unfolding get_summary_stats get_error_rate share
a_quarter_failed = refl
