-- ===== src/Gateway/Logging.antt =====
-- middleware/logging.middleware.ts and events/event-publisher.service.ts: what is counted of a
-- request that is finished, and the event that tells the analytics service of it. JSON.stringify of
-- the event is a parameter, and so is what Kafka answers; the numbers of headers are read.
pub mod Publishing
mod Tests
use Prim.Native.String.{◌++◌ as str_append}
use edge_sphere_self_hosted.Prelude.{
  ℕ, ◌-◌, List, [], ◌∷◌, ◌++◌, Bool, true, false, ◌||◌, Option, none, some, String, str_eq,
  if◌then◌else◌, or_else, any,
}
use edge_sphere_self_hosted.Prelude.Texts.{setting_or, starts_with, split}
use edge_sphere_self_hosted.Gateway.Dlq.{Dlq, publish_to_dlq}

pub record Request : Type 0 where
  pub method : String
  pub original_url : String
  pub ip : Option String
  pub sub : Option String

-- The response when it is finished: its status and three of its headers.
pub record Finished : Type 0 where
  pub status_code : ℕ
  pub x_cache : Option String
  pub x_cache_hit : Option String
  pub content_length : Option ℕ

pub record EventData : Type 0 where
  pub time : ℕ
  pub service : String
  pub method : String
  pub path : String
  pub status : ℕ
  pub latency_ms : ℕ
  pub user_id : Option String
  pub ip : String
  pub cache_hit : Bool
  pub bytes : ℕ
  pub edge_region : String

-- The counters of requests (method, URL, status and service) and of latencies, in milliseconds,
-- the events that Kafka took, and the dead letter queue.
pub record Log : Type 0 where
  pub requests : List (String × String × ℕ × String)
  pub latencies : List ℕ
  pub sent : List EventData
  pub dlq : Dlq

-- What the world gives to a finished request: the clock at its start and end, the setting
-- EDGE_REGION, the error with which Kafka refuses the event, if it does, and whether it then takes
-- the message of the dead letter queue.
pub record Outside : Type 0 where
  pub start_time : ℕ
  pub now : ℕ
  pub edge_region : Option String
  pub refusal : Option String
  pub dlq_takes : Bool

unfoldable pub skip_prefixes : List String
skip_prefixes =
    "/metrics" ∷ "/health" ∷ "/favicon.ico" ∷ "/v1/analytics" ∷ "/v1/notifications/alerts/history"
    ∷ "/v1/notifications/history" ∷ []

unfoldable pub is_under : (url prefix : String) → Bool
is_under url prefix =
    str_eq url prefix
    || (starts_with (str_append prefix "?") url || starts_with (str_append prefix "/") url)

unfoldable pub should_skip : (url : String) → Bool
should_skip url = any (is_under url) skip_prefixes

unfoldable pub part_or_gateway : List String → String
part_or_gateway [] = "gateway"
part_or_gateway (part ∷ parts) = if str_eq part "" then "gateway" else part

unfoldable pub service_part : List String → String
service_part [] = "gateway"
service_part (part ∷ parts) =
    if str_eq part "v1" then part_or_gateway parts else part_or_gateway (part ∷ parts)

unfoldable pub after_first : List String → List String
after_first [] = []
after_first (part ∷ parts) = parts

-- `pathParts[1] === 'v1' ? (pathParts[2] || 'gateway') : (pathParts[1] || 'gateway')`.
unfoldable pub service_of : (url : String) → String
service_of url = service_part (after_first (split "/" url))

-- `res.getHeader('X-Cache') || res.getHeader('x-cache-hit')`, compared with 'HIT'.
unfoldable pub is_hit : (x_cache x_cache_hit : Option String) → Bool
is_hit none x_cache_hit = str_eq (or_else x_cache_hit "") "HIT"
is_hit (some value) x_cache_hit =
    if str_eq value "" then str_eq (or_else x_cache_hit "") "HIT" else str_eq value "HIT"

-- `req.user?.sub || undefined`.
unfoldable pub user_of : Option String → Option String
user_of none = none
user_of (some sub) = if str_eq sub "" then none else some sub

unfoldable pub event_data : Request → Finished → Outside → EventData
event_data req res out = record {
  time = out.now;
  service = service_of req.original_url;
  method = req.method;
  path = req.original_url;
  status = res.status_code;
  latency_ms = out.now - out.start_time;
  user_id = user_of req.sub;
  ip = setting_or req.ip "unknown";
  cache_hit = is_hit res.x_cache res.x_cache_hit;
  bytes = or_else res.content_length 0;
  edge_region = setting_or out.edge_region "global";
}

module _ (json : EventData → String) where
  -- `error.message || 'Unknown error'`.
  unfoldable pub publish_request_event : EventData → Outside → Option String → Log → Log
  publish_request_event data_sent out none log = record log { sent = log.sent ++ data_sent ∷ [] }
  publish_request_event data_sent out (some message) log = record log {
    dlq =
        publish_to_dlq "request.events" (json data_sent) (setting_or (some message) "Unknown error")
          0 out.now out.dlq_takes log.dlq;
  }

  -- The listener of 'finish'.
  unfoldable pub on_finish : Request → Finished → Outside → Log → Log
  on_finish req res out log =
      let counted : Log = record log {
        requests =
            log.requests
            ++ (req.method, req.original_url, res.status_code, service_of req.original_url) ∷ [];
        latencies = log.latencies ++ (out.now - out.start_time) ∷ [];
      } in
      if should_skip req.original_url
      then counted
      else publish_request_event (event_data req res out) out out.refusal counted
