-- ===== src/Analytics/Queries.antt =====
-- analytics/analytics.service.ts: the queries over a window of the request events, with what the
-- database makes of their text. Times are milliseconds. Rows of equal rank come in an order of the
-- database's choice, here the later group first; ROUND takes a half up.
pub mod Grouping
pub mod Services
pub mod Figures
pub mod Percentiles
pub mod Totals
mod Tests
use edge_sphere_self_hosted.Prelude.{
  ℕ, zero, suc, ◌+◌, ◌-◌, ◌*◌, ◌/◌, ◌%◌, List, [], ◌∷◌, map, Bool, true, false, Option, none, some,
  String, str_eq, ltb, leb, ◌==◌, if◌then◌else◌, or_else, is_some, keep, length, take,
}
use edge_sphere_self_hosted.Prelude.Ratios.{Ratio, whole}
use edge_sphere_self_hosted.Analytics.Ingestion.{EventEntity}
use edge_sphere_self_hosted.Analytics.Summary.{Rows}

-- `time > NOW() - INTERVAL`.
unfoldable pub is_within : (now window : ℕ) → EventEntity → Bool
is_within now window e = ltb now (e.time + window * 60000)

unfoldable pub events_within : (now window : ℕ) → List EventEntity → List EventEntity
events_within now window events = keep (is_within now window) events

-- `status >= 400`, which null is not.
unfoldable pub is_error : EventEntity → Bool
is_error e = elim e.status [ none ↦ false | some status ↦ leb 400 status ]

abbrev pub is_hit : EventEntity → Bool
is_hit e = e.cache_hit

abbrev pub count_where : (EventEntity → Bool) → List EventEntity → ℕ
count_where p events = length (keep p events)

-- `GROUP BY`: each key with its events.
pub record Group (K : Type 0) : Type 0 where
  pub key : K
  pub events : List EventEntity

unfoldable pub gather :
    {K : Type 0} → (same : K → K → Bool) → K → EventEntity → List (Group K) → List (Group K)
gather same k e [] = record { key = k; events = e ∷ [] } ∷ []
gather same k e (g ∷ groups) =
    if same g.key k then record g { events = e ∷ g.events } ∷ groups else g ∷ gather same k e groups

unfoldable pub group_by :
    {K : Type 0}
    → (same : K → K → Bool) → (key : EventEntity → K) → List EventEntity
    → List (Group K)
group_by same key [] = []
group_by same key (e ∷ events) = gather same (key e) e (group_by same key events)

-- `ORDER BY`: `first x y` is whether x may stand in front of y.
unfoldable pub insert_by : {A : Type 0} → (first : A → A → Bool) → A → List A → List A
insert_by first x [] = x ∷ []
insert_by first x (y ∷ ys) = if first x y then x ∷ y ∷ ys else y ∷ insert_by first x ys

unfoldable pub order_by : {A : Type 0} → (first : A → A → Bool) → List A → List A
order_by first [] = []
order_by first (x ∷ xs) = insert_by first x (order_by first xs)

abbrev pub larger : {K : Type 0} → Group K → Group K → Bool
larger g h = leb (length h.events) (length g.events)

abbrev pub earlier : Group ℕ → Group ℕ → Bool
earlier g h = leb g.key h.key

-- SUM and AVG, which are null over no value; the code then reads '0'.
unfoldable pub sum : List ℕ → ℕ
sum [] = 0
sum (n ∷ ns) = n + sum ns

unfoldable pub sum_or_null : List ℕ → Option ℕ
sum_or_null [] = none
sum_or_null (n ∷ ns) = some (sum (n ∷ ns))

unfoldable pub average : List ℕ → Option Ratio
average [] = none
average (n ∷ ns) = some (record { num = sum (n ∷ ns); den = length ns })

unfoldable pub values : (EventEntity → Option ℕ) → List EventEntity → List ℕ
values of [] = []
values of (e ∷ events) = elim (of e) [ none ↦ values of events | some n ↦ n ∷ values of events ]

unfoldable pub latencies : List EventEntity → List ℕ
latencies events = values (λ e. e.latency_ms) events

unfoldable pub byte_counts : List EventEntity → List ℕ
byte_counts events = map (λ e. e.bytes) events

-- ROUND of a fraction, `den` at least 1.
unfoldable pub rounded : (num den : ℕ) → ℕ
rounded num den = (2 * num + den) / (2 * den)

-- getRequestRate, getBandwidthOverTime and getCacheHitRatioTimeSeries: a point for each minute.
pub record TimeSeriesPoint : Type 0 where
  pub t : ℕ
  pub value : ℕ

unfoldable pub by_minute : (now window : ℕ) → List EventEntity → List (Group ℕ)
by_minute now window events =
    order_by earlier (group_by ◌==◌ (λ e. e.time / 60000) (events_within now window events))

unfoldable pub get_request_rate : (now window : ℕ) → List EventEntity → List TimeSeriesPoint
get_request_rate now window events =
    map (λ g. record { t = g.key * 60000; value = length g.events }) (by_minute now window events)

unfoldable pub get_bandwidth_over_time : (now window : ℕ) → List EventEntity → List TimeSeriesPoint
get_bandwidth_over_time now window events =
    map (λ g. record { t = g.key * 60000; value = sum (byte_counts g.events) })
      (by_minute now window events)

unfoldable pub get_cache_hit_ratio_time_series :
    (now window : ℕ) → List EventEntity → List TimeSeriesPoint
get_cache_hit_ratio_time_series now window events =
    map
      (λ g. record {
        t = g.key * 60000;
        value = rounded (count_where is_hit g.events * 100) (length g.events);
      })
      (by_minute now window events)

pub record PathCount : Type 0 where
  pub path : Option String
  pub count : ℕ
  pub avg_latency : Ratio

unfoldable pub same_or_null : Option String → Option String → Bool
same_or_null none none = true
same_or_null none (some y) = false
same_or_null (some x) none = false
same_or_null (some x) (some y) = str_eq x y

unfoldable pub to_path_count : Group (Option String) → PathCount
to_path_count g = record {
  path = g.key;
  count = length g.events;
  avg_latency = or_else (average (latencies g.events)) (whole 0);
}

unfoldable pub get_top_paths : (limit now window : ℕ) → List EventEntity → List PathCount
get_top_paths limit now window events = map to_path_count (
    take limit
      (order_by larger (group_by same_or_null (λ e. e.path) (events_within now window events))))

-- `IS NOT NULL` with `GROUP BY`.
unfoldable pub groups_of :
    (EventEntity → Option String) → (now window : ℕ) → List EventEntity → List (Group String)
groups_of of now window events =
    group_by str_eq (λ e. or_else (of e) "")
      (keep (λ e. is_some (of e)) (events_within now window events))

-- The share has two decimals: `pct` counts hundredths of a percent.
pub record CountryCount : Type 0 where
  pub country : String
  pub count : ℕ
  pub pct : ℕ

unfoldable pub group_total : {K : Type 0} → List (Group K) → ℕ
group_total [] = 0
group_total (g ∷ groups) = length g.events + group_total groups

unfoldable pub to_country_count : (total : ℕ) → Group String → CountryCount
to_country_count total g = record {
  country = g.key;
  count = length g.events;
  pct = rounded (length g.events * 10000) total;
}

-- The window function sums over all groups, LIMIT comes last.
unfoldable pub get_geo_distribution : (now window : ℕ) → List EventEntity → List CountryCount
get_geo_distribution now window events =
    let groups = groups_of (λ e. e.country) now window events in
    map (to_country_count (group_total groups)) (take 20 (order_by larger groups))

pub record ServiceCount : Type 0 where
  pub service : String
  pub count : ℕ
  pub error_count : ℕ

unfoldable pub to_service_count : Group String → ServiceCount
to_service_count g = record {
  service = g.key;
  count = length g.events;
  error_count = count_where is_error g.events;
}

unfoldable pub get_requests_by_service : (now window : ℕ) → List EventEntity → List ServiceCount
get_requests_by_service now window events =
    map to_service_count (order_by larger (groups_of (λ e. e.service) now window events))

-- `cache_hit_ratio` is rounded to four decimals and counts ten thousandths.
pub record EdgeStats : Type 0 where
  pub region : String
  pub requests : ℕ
  pub cache_hit_ratio : ℕ
  pub avg_latency_ms : Ratio
  pub last_seen : ℕ

unfoldable pub latest : List EventEntity → ℕ
latest [] = 0
latest (e ∷ events) = let rest = latest events in if ltb rest e.time then e.time else rest

unfoldable pub to_edge_stats : Group String → EdgeStats
to_edge_stats g = record {
  region = g.key;
  requests = length g.events;
  cache_hit_ratio = rounded (count_where is_hit g.events * 10000) (length g.events);
  avg_latency_ms = or_else (average (latencies g.events)) (whole 0);
  last_seen = latest g.events;
}

unfoldable pub get_edge_stats : (now window : ℕ) → List EventEntity → List EdgeStats
get_edge_stats now window events =
    map to_edge_stats (order_by larger (groups_of (λ e. e.edge_region) now window events))
