-- ===== src/Analytics/Queries/Tests.antt =====
-- Four events: two of them errors, one without a service.
use edge_sphere_self_hosted.Prelude.{
  ℕ, ◌≡◌, refl, List, [], ◌∷◌, map, Bool, true, false, Option, none, some, String, ◌≤◌, ◌&&◌,
  length,
}
use edge_sphere_self_hosted.Prelude.Ratios.{whole, ler}
use edge_sphere_self_hosted.Analytics.Summary.{get_summary_stats}
use edge_sphere_self_hosted.Analytics.Queries.Grouping.{total, IsDescending}
use edge_sphere_self_hosted.Analytics.Queries.Services.{
  counts_for, count_of, error_count_of, is_row_of, get_requests_by_service-counts,
}
use edge_sphere_self_hosted.Analytics.Queries.Percentiles.{get_latency_percentiles_rise}
use edge_sphere_self_hosted.Analytics.Queries.Totals.{get_summary_stats-counts}
use edge_sphere_self_hosted.Analytics.Ingestion.{EventEntity}
use edge_sphere_self_hosted.Analytics.Queries.{
  is_within, events_within, is_error, count_where, gather, group_by, insert_by, order_by, sum,
  average, values, latencies, rounded, by_minute, get_request_rate, get_bandwidth_over_time,
  get_cache_hit_ratio_time_series, groups_of, group_total, to_country_count, get_geo_distribution,
  to_service_count, get_requests_by_service, byte_counts, same_or_null, to_path_count,
  get_top_paths, latest, to_edge_stats, get_edge_stats,
}
use edge_sphere_self_hosted.Analytics.Queries.Figures.{
  nth, between, percentile_cont, percentile_or_0, get_latency_percentiles, rows_of,
}

abbrev event :
    (time : ℕ) (service country : Option String) (status latency : ℕ) → Bool → EventEntity
event time service country status latency hit = record {
  time = time;
  service = service;
  method = some "GET";
  path = some "/a";
  status = some status;
  latency_ms = some latency;
  user_id = none;
  ip = none;
  country = country;
  cache_hit = hit;
  bytes = 10;
  edge_region = some "eu";
  request_id = "r";
}

abbrev events : List EventEntity
events =
    event 1000 (some "cdn") (some "IN") 200 10 true
    ∷ event 2000 (some "auth") (some "IN") 500 20 false
    ∷ event 61000 (some "cdn") (some "US") 404 30 false
    ∷ event 62000 none none 200 40 true
    ∷ []

services :
    map {B = String × ℕ × ℕ}
      (λ row. (row.service, row.count, row.error_count))
      (get_requests_by_service 100000 60 events)
    ≡ ("cdn", 2, 1) ∷ ("auth", 1, 1) ∷ []
unfolding get_requests_by_service to_service_count groups_of events_within is_within is_error gather
    group_by insert_by order_by
services = refl

countries :
    map {B = String × ℕ × ℕ}
      (λ row. (row.country, row.count, row.pct))
      (get_geo_distribution 100000 60 events)
    ≡ ("IN", 2, 6667) ∷ ("US", 1, 3333) ∷ []
unfolding get_geo_distribution to_country_count group_total groups_of events_within is_within gather
    group_by insert_by order_by rounded
countries = refl

rate :
    map {B = ℕ × ℕ} (λ point. (point.t, point.value)) (get_request_rate 100000 60 events)
    ≡ (0, 2) ∷ (60000, 2) ∷ []
unfolding get_request_rate by_minute events_within is_within gather group_by insert_by order_by
rate = refl

hit_rate :
    map (λ point. point.value) (get_cache_hit_ratio_time_series 100000 60 events) ≡ 50 ∷ 50 ∷ []
unfolding get_cache_hit_ratio_time_series by_minute events_within is_within gather group_by
    insert_by order_by rounded
hit_rate = refl

bandwidth : map (λ point. point.value) (get_bandwidth_over_time 100000 60 events) ≡ 20 ∷ 20 ∷ []
unfolding get_bandwidth_over_time byte_counts sum by_minute events_within is_within gather group_by
    insert_by order_by
bandwidth = refl

paths :
    map {B = Option String × ℕ × ℕ × ℕ}
      (λ row. (row.path, row.count, row.avg_latency.num, row.avg_latency.den))
      (get_top_paths 10 100000 60 events)
    ≡ (some "/a", 4, 100, 3) ∷ []
unfolding get_top_paths to_path_count same_or_null average latencies values sum events_within
    is_within gather group_by insert_by order_by
paths = refl

edges :
    map {B = String × ℕ × ℕ × ℕ}
      (λ row. (row.region, row.requests, row.cache_hit_ratio, row.last_seen))
      (get_edge_stats 100000 60 events)
    ≡ ("eu", 4, 5000, 62000) ∷ []
unfolding get_edge_stats to_edge_stats latest rounded groups_of events_within is_within gather
    group_by insert_by order_by
edges = refl

-- 38.5 is 3850 hundredths.
percentile : (get_latency_percentiles 100000 60 events).p95.num ≡ 3850
unfolding get_latency_percentiles percentile_or_0 percentile_cont between nth latencies values
    events_within is_within insert_by order_by
percentile = refl

get_requests_by_service-counts_example :
    let rows = get_requests_by_service 100000 60 events in
    (total (count_of "cdn") rows ≡ count_where (counts_for "cdn" 100000 60) events)
    × (total (error_count_of "cdn") rows
        ≡ count_where (λ e. counts_for "cdn" 100000 60 e && is_error e) events)
    × (total (is_row_of "cdn") rows ≤ 1)
    × IsDescending (λ row. row.count) rows
get_requests_by_service-counts_example = get_requests_by_service-counts "cdn" 100000 60 events

get_latency_percentiles_rise_example :
    let p = get_latency_percentiles 100000 60 events in
    (ler p.p50 p.p95 ≡ true) × (ler p.p95 p.p99 ≡ true)
get_latency_percentiles_rise_example = get_latency_percentiles_rise 100000 60 events

get_summary_stats-counts_example :
    let s = get_summary_stats 60 (rows_of 100000 60 events) in
    let seen = events_within 100000 60 events in
    (s.total_requests ≡ length seen)
    × (s.total_bandwidth_bytes ≡ sum (byte_counts seen))
    × (s.active_users ≤ s.total_requests)
    × (ler s.error_rate (whole 1) ≡ true)
    × (ler s.cache_hit_ratio (whole 1) ≡ true)
    × (total (λ row. row.count) (get_requests_by_service 100000 60 events) ≤ s.total_requests)
get_summary_stats-counts_example = get_summary_stats-counts 100000 60 events
