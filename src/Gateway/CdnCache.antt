-- ===== src/Gateway/CdnCache.antt =====
-- middleware/cdn-cache.middleware.ts, proxy/cdn.route.ts and proxyCdn of proxy/proxy.controller.ts:
-- how the gateway answers a request under /cdn, from its cache in Redis or from the CDN service.
-- The md5 of the query's text and the answer of the CDN service are outside. Header names are
-- compared in lower case by Node, and are written so here. A body is the text of its bytes, which
-- base64 and back leaves as it is. What `res.send` does itself is written out for the hit; the
-- headers that it and the framework add to an answer with an error are left out.
pub mod Headers
pub mod Hits
mod Tests
use Prim.Native.String.{◌++◌ as str_append}
use edge_sphere_self_hosted.Prelude.{
  ℕ, List, [], ◌∷◌, Bool, true, false, not, ◌&&◌, ◌||◌, is_some, Option, none, some, String, str_eq,
  ◌==◌, if◌then◌else◌,
}
use edge_sphere_self_hosted.Prelude.Maps.{lookup, insert, erase}
use edge_sphere_self_hosted.Prelude.Texts.{setting_or, starts_with, drop_chars}
use edge_sphere_self_hosted.Redis.{Redis}
use edge_sphere_self_hosted.Gateway.RateLimit.{Exec, Outcome, sliding_window}

abbrev pub Headers : Type 0
Headers = List (String × String)

-- What a client receives.
pub record Response : Type 0 where
  pub status : ℕ
  pub headers : Headers
  pub body : String

-- The text under a cache key: what the middleware wrote, or what JSON.parse refuses.
pub data Cached : Type 0 where
  cached : Headers → (data_text : String) → Cached
  broken : String → Cached

pub record Request : Type 0 where
  pub method : String
  pub path : String
  pub query : String
  pub original_url : String
  pub ip : Option String
  pub if_none_match : Option String
  pub if_modified_since : Option String

-- The answer of the CDN service, with the chunks of its stream.
pub record Upstream : Type 0 where
  pub status : ℕ
  pub headers : Headers
  pub chunks : List String

-- What the world gives to a request: the setting CDN_SERVICE_URL, what the CDN service answers to a
-- URL (`none` throws), the headers that the framework sets first, whether Redis answers to GET and
-- takes SETEX, how the pipeline of the sliding window ends (`none` throws, which the framework
-- answers), the clock, a random id, how Express compares the conditions of a request with the headers
-- of a response, and the etag and the length that it gives to a body.
pub record Outside (Db : Type 0) : Type 0 where
  pub cdn_url : Option String
  pub fetch : (method url : String) → Option Upstream
  pub base_headers : Headers
  pub readable : Bool
  pub writable : Bool
  pub exec : Option (Exec Db)
  pub now : ℕ
  pub request_id : String
  pub matches : (if_none_match if_modified_since : Option String) → Headers → Bool
  pub etag_of : (body : String) → String
  pub length_of : (body : String) → String

-- `res.setHeader` for each entry.
unfoldable pub set_headers : List (String × String) → Headers → Headers
set_headers [] headers = headers
set_headers ((name, value) ∷ entries) headers = set_headers entries (insert name value headers)

-- A header that is set where it is missing or empty.
unfoldable pub set_default : (name value : String) → Headers → Headers
set_default name value headers =
    if str_eq (setting_or (lookup name headers) "") "" then insert name value headers else headers

-- The same for the entries that have a value.
unfoldable pub pass_headers : List (String × String) → Headers → Headers
pass_headers [] headers = headers
pass_headers ((name, value) ∷ entries) headers =
    if str_eq value ""
    then pass_headers entries headers
    else pass_headers entries (insert name value headers)

-- Buffer.concat.
unfoldable pub concat : List String → String
concat [] = ""
concat (chunk ∷ chunks) = str_append chunk (concat chunks)

-- `originalUrl.replace(/^\/cdn/, '')`.
unfoldable pub target_path : (original_url : String) → String
target_path original_url =
    if starts_with "/cdn" original_url then drop_chars 4 original_url else original_url

unfoldable pub cdn_url_or : Option String → String
cdn_url_or none = "http://localhost:8080"
cdn_url_or (some url) = url

-- What the route makes of the answer: the status of the response stays what it was, 200.
unfoldable pub piped : Headers → Option Upstream → Response
piped headers none = record {
  status = 502;
  headers = headers;
  body = "{\"message\":\"Bad Gateway\"}";
}
piped headers (some upstream) = record {
  status = 200;
  headers = insert "x-gateway-region" "global" (pass_headers upstream.headers headers);
  body = concat upstream.chunks;
}

unfoldable pub gateway_key : (md5 : String → String) (path query : String) → String
gateway_key md5 path query = str_append "gw:cdn:" (str_append path (str_append ":" (md5 query)))

-- What the middleware finds: nothing that counts, a response, or a text that JSON.parse refuses.
pub data Found : Type 0 where
  miss unreadable : Found
  hit : Headers → (data_text : String) → Found

unfoldable pub found : Option Cached → Found
found none = miss
found (some (cached headers data_text)) = hit headers data_text
found (some (broken text)) = if str_eq text "" then miss else unreadable

unfoldable pub is_cacheable : Request → Bool
is_cacheable req = starts_with "/cdn" req.path && str_eq req.method "GET"

-- What `res.send` sets for a buffer: its type and its etag where there is none or an empty one, and its length.
unfoldable pub sent_headers : (etag length : String) → Headers → Headers
sent_headers etag length headers =
    set_default "etag" etag (
      insert "content-length" length
        (set_default "content-type" "application/octet-stream" headers))

module _ (R : Redis Cached) (md5 : String → String) where
  open R use {Db, get, set, expire}

  -- handleRequest of the route.
  unfoldable pub handle_request : Request → Outside Db → Headers → Response
  handle_request req out headers =
      let url = str_append (cdn_url_or out.cdn_url) (target_path req.original_url) in
      piped headers (out.fetch req.method url)

  -- proxyCdn.
  unfoldable pub limited_cdn :
      Request → Outside Db → Headers → Option (Exec Db) → Db → Db × Response
  limited_cdn req out headers none db =
      (db, record { status = 500; headers = headers; body = "{\"statusCode\":500}" })
  limited_cdn req out headers (some exec) db =
      let window =
        sliding_window R (setting_or req.ip "unknown") 100 60000 out.now out.request_id exec db in
      (
        window.db,
        if window.verdict.allowed then handle_request req out headers else record {
          status = 429;
          headers = headers;
          body = "{\"message\":\"Too Many Requests\"}";
        },
      )

  unfoldable pub proxy_cdn : Request → Outside Db → Headers → Db → Db × Response
  proxy_cdn req out headers db = limited_cdn req out headers out.exec db

  -- `redis.setex(cacheKey, 60, ...)`.
  unfoldable pub setex : (key : String) (seconds : ℕ) → Cached → Db → Db
  setex key seconds value db = expire key seconds (set key value db)

  -- The `end` that the middleware put in place.
  unfoldable pub end_response : (key : String) → Outside Db → Db × Response → Db × Response
  end_response key out (db, response) = (
    if (response.status == 200) && out.writable
        then setex key 60 (cached response.headers response.body) db
        else db,
    response,
  )

  -- `req.fresh`: a request without a condition never is.
  unfoldable pub is_fresh : Request → Outside Db → Headers → Bool
  is_fresh req out headers =
      (is_some req.if_none_match || is_some req.if_modified_since)
      && out.matches req.if_none_match req.if_modified_since headers

  -- `res.send` of a body, with the status 200 so far.
  unfoldable pub send : Request → Outside Db → Headers → (body : String) → Response
  send req out headers body =
      let fields = sent_headers (out.etag_of body) (out.length_of body) headers in
      if is_fresh req out fields
      then record {
        status = 304;
        headers = erase "content-type" (erase "content-length" (erase "transfer-encoding" fields));
        body = "";
      }
      else record { status = 200; headers = fields; body = body }

  unfoldable pub serve_found : Request → Outside Db → Found → Db → Db × Response
  serve_found req out (hit headers data_text) db = (
    db,
    send req out (set_headers headers (insert "x-gw-cache" "HIT" out.base_headers)) data_text,
  )
  serve_found req out miss db =
      end_response (gateway_key md5 req.path req.query) out
        (proxy_cdn req out (insert "x-gw-cache" "MISS" out.base_headers) db)
  serve_found req out unreadable db =
      proxy_cdn req out (insert "x-gw-cache" "HIT" out.base_headers) db

  -- The middleware, with what comes after it.
  unfoldable pub serve_cdn : Request → Outside Db → Db → Db × Response
  serve_cdn req out db =
      if is_cacheable req && out.readable
      then serve_found req out (found (get (gateway_key md5 req.path req.query) db)) db
      else proxy_cdn req out out.base_headers db
