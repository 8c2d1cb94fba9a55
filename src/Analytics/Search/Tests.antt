-- ===== src/Analytics/Search/Tests.antt =====
-- A search by method, class of status and text.
use edge_sphere_self_hosted.Prelude.{◌≡◌, ◌≤◌, true, Bool, none, some, String, or_else}
use edge_sphere_self_hosted.Analytics.Ingestion.{EventEntity}
use edge_sphere_self_hosted.Analytics.Search.{
  Filters, class_4xx, number_param, search_events, param_at, all_hold, page_limit,
}
use edge_sphere_self_hosted.Analytics.Search.Placeholders.{matches}
use edge_sphere_self_hosted.Analytics.Search.Conditions.{search_events-finds}

abbrev any_text : String → String → Bool
any_text text pattern = true

abbrev filters : Filters
filters = record {
  method = some "GET";
  service = none;
  status_class = some class_4xx;
  query = some "b";
  limit = some 1000;
  offset = none;
}

abbrev row : EventEntity
row = record {
  time = 1;
  service = some "cdn";
  method = some "GET";
  path = some "/cdn/b/k";
  status = some 404;
  latency_ms = some 12;
  user_id = none;
  ip = some "10.0.0.1";
  country = none;
  cache_hit = true;
  bytes = 0;
  edge_region = none;
  request_id = "u";
}

search_events-finds_example :
    let page = (search_events filters).0 in
    let count = (search_events filters).1 in
    (all_hold any_text page.params row page.conditions ≡ matches any_text filters row)
    × (all_hold any_text count.params row count.conditions ≡ matches any_text filters row)
    × (param_at page.params page.limit_at ≡ some (number_param (page_limit filters)))
    × (param_at page.params page.offset_at ≡ some (number_param (or_else none 0)))
    × (page_limit filters ≤ 200)
search_events-finds_example = search_events-finds any_text row filters
