-- ===== src/Analytics/Queries/Totals.antt =====
-- The figures of a summary, and the counts of the services, over the events of one window.
use edge_sphere_self_hosted.Prelude.{
  ℕ, suc, ◌≤◌, ◌≡◌, refl, sym, ◌∙◌, List, [], ◌∷◌, map, true, Option, String, str_eq, if◌then◌else◌,
  or_else, is_some, keep, length, length-keep-le, arith,
}
use edge_sphere_self_hosted.Prelude.Ratios.{whole, ler}
use edge_sphere_self_hosted.Analytics.Ingestion.{EventEntity}
use edge_sphere_self_hosted.Analytics.Summary.{
  IsCounted, get_summary_stats, get_error_rate, summary_rates,
}
use edge_sphere_self_hosted.Analytics.Queries.{
  Group, gather, group_by, order_by, larger, is_error, is_hit, events_within, sum, sum_or_null,
  byte_counts, groups_of, to_service_count, get_requests_by_service,
}
use edge_sphere_self_hosted.Analytics.Queries.Grouping.{
  total, total-map, total_same, total-order_by, total-group_by, chosen_count,
}
use edge_sphere_self_hosted.Analytics.Queries.Services.{count_where_all}
use edge_sphere_self_hosted.Analytics.Queries.Figures.{rows_of, get_active_users}

sum_or_null-sum : (ns : List ℕ) → or_else (sum_or_null ns) 0 ≡ sum ns
unfolding sum_or_null sum
sum_or_null-sum [] = refl
sum_or_null-sum (n ∷ ns) = refl

sum-hits :
    (events : List EventEntity) → sum (map (λ e. if is_hit e then 1 else 0) events) ≤ length events
unfolding sum
sum-hits [] = omega arith
sum-hits (e ∷ events) = ground (arith, sum-hits events)

gather-length :
    (k : String) (e : EventEntity) (groups : List (Group String))
    → length (gather str_eq k e groups) ≤ suc (length groups)
unfolding gather
gather-length k e [] = omega arith
gather-length k e (g ∷ groups) = ground (arith, gather-length k e groups)

group_by-length :
    (key : EventEntity → String) (events : List EventEntity)
    → length (group_by str_eq key events) ≤ length events
unfolding group_by
group_by-length key [] = omega arith
group_by-length key (e ∷ events) =
    let rest = group_by-length key events in
    omega (arith, gather-length (key e) e (group_by str_eq key events))

-- No more groups than events, and no event in two of them.
groups_of-length :
    (of : EventEntity → Option String) (now window : ℕ) (events : List EventEntity)
    → length (groups_of of now window events) ≤ length (events_within now window events)
unfolding groups_of
groups_of-length of now window events =
    let seen = events_within now window events in
    let rows = keep (λ e. is_some (of e)) seen in
    let fewer = length-keep-le (λ e. is_some (of e)) seen in
    omega (arith, group_by-length (λ e. or_else (of e) "") rows)

groups_of-total :
    (of : EventEntity → Option String) (now window : ℕ) (events : List EventEntity)
    → total (λ g. length g.events) (groups_of of now window events)
      ≤ length (events_within now window events)
unfolding groups_of
groups_of-total of now window events =
    let seen = events_within now window events in
    let rows = keep (λ e. is_some (of e)) seen in
    let key = λ (e : EventEntity). or_else (of e) "" in
    let every = λ (k : String). true in
    let groups = group_by str_eq key rows in
    let counted : total (λ g. length g.events) groups ≡ length rows =
      total_same (λ g. length g.events) (chosen_count str_eq every (λ e. true)) groups
        (λ g. sym (count_where_all g.events))
      ∙ total-group_by str_eq every (λ x k e. refl) (λ e. true) key rows
      ∙ count_where_all rows in
    rw (counted) (length-keep-le (λ e. is_some (of e)) seen)

rows_of-IsCounted :
    (now window : ℕ) (events : List EventEntity) → IsCounted (rows_of now window events)
unfolding rows_of
rows_of-IsCounted now window events =
    let seen = events_within now window events in
    record {
      errors = length-keep-le is_error seen;
      hits = rw (sum_or_null-sum (map (λ e. if is_hit e then 1 else 0) seen)) (sum-hits seen);
    }

-- Over the events of a window the summary counts each request and adds up their bytes; it has no
-- more active users than requests, its two rates are at most 1, and the counts of the services make
-- at most its number of requests.
pub get_summary_stats-counts :
    (now window : ℕ) (events : List EventEntity)
    → let s = get_summary_stats window (rows_of now window events) in
      let seen = events_within now window events in
      (s.total_requests ≡ length seen)
      × (s.total_bandwidth_bytes ≡ sum (byte_counts seen))
      × (s.active_users ≤ s.total_requests)
      × (ler s.error_rate (whole 1) ≡ true)
      × (ler s.cache_hit_ratio (whole 1) ≡ true)
      × (total (λ row. row.count) (get_requests_by_service now window events) ≤ s.total_requests)
unfolding get_summary_stats rows_of get_error_rate get_active_users get_requests_by_service
    to_service_count
get_summary_stats-counts now window events =
    let seen = events_within now window events in
    let rates =
      summary_rates window (rows_of now window events) (rows_of-IsCounted now window events) in
    let groups = groups_of (λ e. e.service) now window events in
    let served : total (λ row. row.count) (get_requests_by_service now window events)
        ≤ length seen =
      rw
        (
          total-map (λ row. row.count) to_service_count (order_by larger groups),
          total-order_by (λ g. length g.events) larger groups,
        )
        (groups_of-total (λ e. e.service) now window events) in
    (
      refl,
      sum_or_null-sum (byte_counts seen),
      groups_of-length (λ e. e.user_id) now window events,
      rates.0,
      rates.1,
      served,
    )
