-- ===== src/Cdn/Requests.antt =====
-- apps/cdn-service: cdn/cdn.controller.ts with the events it publishes, geo/geo.service.ts, and
-- cache/cache.controller.ts. What JSON.stringify makes of the transforms and the number of bytes of
-- a body are parameters, and so is how Express compares the conditions of a request with the headers
-- of a response.
pub mod Answers
mod Tests
use Prim.Native.Char.{Char, code}
use Prim.Native.String.{◌++◌ as str_append}
use edge_sphere_self_hosted.Prelude.{
  ℕ, zero, ◌+◌, ◌-◌, ◌*◌, List, [], ◌∷◌, ◌++◌, Bool, true, false, not, ◌&&◌, ◌||◌, is_some, Option,
  none, some, String, str_eq, leb, if◌then◌else◌, or_else, ◌==◌,
}
use edge_sphere_self_hosted.Prelude.Texts.{setting_or, split}
use edge_sphere_self_hosted.Redis.{Redis}
use edge_sphere_self_hosted.Cdn.{
  CacheObject, Stored, CdnResponse, Transforms, Images, Edge, Error, origin_error, network_error,
  transform_error, Result, ok, err, Outside, serve_file, delete_pattern,
}

pub record Query : Type 0 where
  pub w : Option String
  pub h : Option String
  pub fmt : Option String
  pub q : Option String
  pub fit : Option String

pub record Request : Type 0 where
  pub bucket : String
  pub key : String
  pub query : Query
  pub method : String
  pub original_url : String
  pub ip : Option String
  pub if_none_match : Option String
  pub if_modified_since : Option String

pub record FileHeaders : Type 0 where
  pub x_cache : String
  pub x_edge_region : String
  pub max_age : ℕ
  pub etag : String
  pub content_type : String
  pub content_length : ℕ

-- The answer of the controller: the file, without its body on HEAD; the status 304, without
-- the type and the length, which Express removes; or an exception.
pub data FileAnswer : Type 0 where
  file : FileHeaders → (body : Option String) → FileAnswer
  not_modified : (x_cache x_edge_region : String) (max_age : ℕ) (etag : String) → FileAnswer
  not_found internal_error : FileAnswer

pub record CdnEvent : Type 0 where
  pub time : ℕ
  pub method : String
  pub path : String
  pub status : ℕ
  pub latency_ms : ℕ
  pub ip : String
  pub cache_hit : Bool
  pub bytes : ℕ
  pub edge_region : Option String
  pub content_type : Option String

-- The service, the events handed to Kafka, and the counter of bytes.
pub record Server (Db : Type 0) : Type 0 where
  pub edge : Edge Db
  pub events : List CdnEvent
  pub bandwidth : ℕ

-- The clock at the start and the end of a request, and the setting EDGE_REGION.
pub record Clock : Type 0 where
  pub start_time : ℕ
  pub now : ℕ
  pub edge_region : Option String

-- The object of the transforms has its five keys whatever the query holds.
unfoldable pub transforms_of : (json : Query → String) → Query → Transforms
transforms_of json query = record { json = json query; key_count = 5 }

-- `result.remainingTTL || 3600`.
unfoldable pub max_age_of : Option ℕ → ℕ
max_age_of none = 3600
max_age_of (some ttl) = if ttl == 0 then 3600 else ttl

unfoldable pub file_headers : (size : String → ℕ) (region : String) → CdnResponse → FileHeaders
file_headers size region result = record {
  x_cache = if result.cache_hit then "HIT" else "MISS";
  x_edge_region = region;
  max_age = max_age_of result.remaining_ttl;
  etag = result.body.etag;
  content_type = result.body.content_type;
  content_length = size result.body.bytes;
}

unfoldable pub served_event :
    (size : String → ℕ) (region : String) → Request → Clock → CdnResponse → CdnEvent
served_event size region req clock result = record {
  time = clock.now;
  method = req.method;
  path = req.original_url;
  status = 200;
  latency_ms = clock.now - clock.start_time;
  ip = setting_or req.ip "unknown";
  cache_hit = result.cache_hit;
  bytes = size result.body.bytes;
  edge_region = some region;
  content_type = some result.body.content_type;
}

-- `error.status || 500`: the errors of the service have no status.
unfoldable pub failed_event : Request → Clock → CdnEvent
failed_event req clock = record {
  time = clock.now;
  method = req.method;
  path = req.original_url;
  status = 500;
  latency_ms = clock.now - clock.start_time;
  ip = setting_or req.ip "unknown";
  cache_hit = false;
  bytes = 0;
  edge_region = none;
  content_type = none;
}

unfoldable pub error_answer : Error → FileAnswer
error_answer origin_error = not_found
error_answer network_error = internal_error
error_answer transform_error = internal_error

module _ (R : Redis Stored) (images : Images) (json : Query → String) (size : String → ℕ)
    (matches : (if_none_match if_modified_since : Option String) → FileHeaders → Bool) where
  open R use {Db}

  -- `req.fresh`: a request without a condition never is.
  unfoldable pub is_fresh : Request → FileHeaders → Bool
  is_fresh req headers =
      (is_some req.if_none_match || is_some req.if_modified_since)
      && matches req.if_none_match req.if_modified_since headers

  -- `res.end()` on HEAD, and `res.send(result.data)`.
  unfoldable pub send : (is_head : Bool) → Request → FileHeaders → (body : String) → FileAnswer
  send true req headers body = file headers none
  send false req headers body =
      if is_fresh req headers
      then not_modified headers.x_cache headers.x_edge_region headers.max_age headers.etag
      else file headers (some body)

  unfoldable pub answer :
      (is_head : Bool)
      → Request
      → Clock
      → Server Db
      → Edge Db
      → Result CdnResponse
      → Server Db × FileAnswer
  answer is_head req clock s edge (ok result) =
      let region = setting_or clock.edge_region "unknown" in
      (
        record {
          edge = edge;
          events = s.events ++ served_event size region req clock result ∷ [];
          bandwidth = s.bandwidth + size result.body.bytes;
        },
        send is_head req (file_headers size region result) result.body.bytes,
      )
  answer is_head req clock s edge (err e) = (
    record {
      edge = edge;
      events = s.events ++ failed_event req clock ∷ [];
      bandwidth = s.bandwidth;
    },
    error_answer e,
  )

  -- `region` is that of the service.
  unfoldable pub handle_file_request :
      (region : String) (is_head : Bool)
      → Request
      → Clock
      → Outside
      → Server Db
      → Server Db × FileAnswer
  handle_file_request region is_head req clock out s =
      let done =
        serve_file R images region req.bucket req.key (some (transforms_of json req.query)) out
          s.edge in
      answer is_head req clock s done.0 done.1

-- The digits that `parseInt` reads; `none` for NaN.
unfoldable pub digit_of : Char → Option ℕ
digit_of c = if leb 48 (code c) && leb (code c) 57 then some (code c - 48) else none

unfoldable pub parse_digits : (read : Option ℕ) → String → Option ℕ
parse_digits read String.[] = read
parse_digits read (String.◌∷◌ c text) = elim (digit_of c) [
  | none ↦ read
  | some d ↦ parse_digits (some (or_else read 0 * 10 + d)) text
]

unfoldable pub region_of_octet : Option ℕ → String
region_of_octet none = "us-east-1"
region_of_octet (some octet) =
    if leb octet 100 then "us-east-1" else if leb octet 200 then "eu-west-1" else "ap-south-1"

unfoldable pub first_part : List String → String
first_part [] = ""
first_part (part ∷ parts) = part

unfoldable pub get_nearest_region : (ip : String) → String
get_nearest_region ip =
    if str_eq ip ""
    then "us-east-1"
    else region_of_octet (parse_digits none (first_part (split "." ip)))

unfoldable pub get_available_regions : List String
get_available_regions = "us-east-1" ∷ "eu-west-1" ∷ "ap-south-1" ∷ []

-- `key !== internalKey`, where either may be undefined.
unfoldable pub is_key : (header setting : Option String) → Bool
is_key none none = true
is_key none (some setting) = false
is_key (some header) none = false
is_key (some header) (some setting) = str_eq header setting

pub data CacheAnswer : Type 0 where
  unauthorized : CacheAnswer
  purged : (count : ℕ) → CacheAnswer

-- The body of a purge; an empty key counts as none.
unfoldable pub controller_pattern : (bucket : String) → Option String → String
controller_pattern bucket none = str_append "cdn:*:" (str_append bucket ":*")
controller_pattern bucket (some key) =
    if str_eq key ""
    then str_append "cdn:*:" (str_append bucket ":*")
    else str_append "cdn:*:" (str_append bucket (str_append ":" (str_append key ":*")))

module _ (R : Redis Stored) (matches : (pattern key : String) → Bool) where
  open R use {Db}

  -- The database, and the invalidations that were published.
  unfoldable pub purge_route :
      (header setting : Option String) (bucket : String) (key : Option String)
      → Db × List (String × Option String)
      → (Db × List (String × Option String)) × CacheAnswer
  purge_route header setting bucket key (db, published) =
      let done = delete_pattern R matches (controller_pattern bucket key) db in
      if is_key header setting
      then ((done.0, published ++ (bucket, key) ∷ []), purged done.1)
      else ((db, published), unauthorized)

  unfoldable pub flush_region :
      (header setting : Option String) (region : String) → Db → Db × CacheAnswer
  flush_region header setting region db =
      let done = delete_pattern R matches (str_append "cdn:" (str_append region ":*")) db in
      if is_key header setting then (done.0, purged done.1) else (db, unauthorized)
