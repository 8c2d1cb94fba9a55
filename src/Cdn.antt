-- ===== src/Cdn.antt =====
-- apps/cdn-service and apps/cache-service: cdn/cdn.service.ts with cache/cache.service.ts and
-- cdn/image-optimizer.service.ts, and invalidation/invalidation.service.ts.
-- The Redis client of the CDN puts a prefix before each key of a command, but not before the pattern
-- of SCAN. What sharp makes of an image, lower case and the matching of patterns are parameters. A
-- cached object is kept as its fields where the code stores JSON text.
pub mod Caching
pub mod Invalidation
pub mod Purging
pub mod Requests
pub mod Optimizer
mod Tests
use Prim.Native.String.{◌++◌ as str_append}
use edge_sphere_self_hosted.Prelude.{
  ℕ, suc, ◌+◌, ◌*◌, List, [], ◌∷◌, ◌++◌, map, Bool, true, false, not, ◌&&◌, Option, none, some,
  String, str_eq, ltb, if◌then◌else◌, or_else, length, keep, any, take,
}
use edge_sphere_self_hosted.Prelude.Maps.{lookup, insert, erase}
use edge_sphere_self_hosted.Prelude.Texts.{starts_with, drop_chars}
use edge_sphere_self_hosted.Redis.{Redis}

pub record CacheObject : Type 0 where
  pub bytes : String
  pub content_type : String
  pub etag : String

-- The text under a key: an object, or what JSON.parse refuses.
pub data Stored : Type 0 where
  object : CacheObject → Stored
  broken : String → Stored

pub record CdnResponse : Type 0 where
  pub body : CacheObject
  pub cache_hit : Bool
  pub remaining_ttl : Option ℕ

-- The JSON text of the transforms, and how many keys their object has.
pub record Transforms : Type 0 where
  pub json : String
  pub key_count : ℕ

-- An answer of the origin with a success: its body and two headers.
pub record Origin : Type 0 where
  pub bytes : String
  pub content_type : Option String
  pub etag : Option String

-- How the fetch ends: with a success, with another status, or with an exception of the network.
pub data Fetch : Type 0 where
  answered : Origin → Fetch
  refused failed : Fetch

-- sharp, which may throw, and `String.prototype.toLowerCase`.
pub record Images : Type 0 where
  pub transform : Transforms → String → String → Option (String × String)
  pub lower : String → String

-- A response in the NodeCache, and the time after which it counts as absent.
pub record Held : Type 0 where
  pub response : CdnResponse
  pub until : ℕ

-- `memory` is the NodeCache.
pub record Edge (Db : Type 0) : Type 0 where
  pub memory : List (String × Held)
  pub db : Db

pub data Error : Type 0 where
  origin_error network_error transform_error : Error

pub data Result {ℓ} (A : Type ℓ) : Type ℓ where
  ok : A → Result A
  err : Error → Result A

unfoldable pub supported_types : List String
supported_types =
    "image/jpeg" ∷ "image/png" ∷ "image/gif" ∷ "image/webp" ∷ "image/avif" ∷ "image/svg+xml" ∷ []

unfoldable pub is_image : Images → (content_type : String) → Bool
is_image images content_type =
    not (str_eq content_type "") && any (str_eq (Images.lower images content_type)) supported_types

unfoldable pub colon_list : List String → String
colon_list [] = ""
colon_list (t ∷ ts) = str_append ":" (str_append t (colon_list ts))

unfoldable pub transforms_json : Option Transforms → String
transforms_json none = "{}"
transforms_json (some t) = t.json

-- `cdn:${region}:${bucket}:${key}:${transformKey}`.
unfoldable pub cache_key : (region bucket key : String) → Option Transforms → String
cache_key region bucket key transforms =
    str_append "cdn" (colon_list (region ∷ bucket ∷ key ∷ transforms_json transforms ∷ []))

unfoldable pub key_prefix : String
key_prefix = "edgesphere:"

unfoldable pub physical : (key : String) → String
physical key = str_append key_prefix key

-- `a || d` on a header.
unfoldable pub header_or : Option String → String → String
header_or none d = d
header_or (some t) d = if str_eq t "" then d else t

-- The body of an answer of the origin, transformed when it is an image and there are transforms.
unfoldable pub optimized :
    Images → Option Transforms → (now_etag opt_etag : String) → Origin → Result CacheObject
optimized images none now_etag opt_etag o = ok (record {
  bytes = o.bytes;
  content_type = header_or o.content_type "application/octet-stream";
  etag = header_or o.etag now_etag;
})
optimized images (some t) now_etag opt_etag o =
    let content_type = header_or o.content_type "application/octet-stream" in
    if ltb 0 t.key_count && is_image images content_type
    then elim (Images.transform images t o.bytes content_type) [
      | none ↦ err transform_error
      | some made ↦ ok (record { bytes = made.0; content_type = made.1; etag = opt_etag })
    ]
    else ok
        (record { bytes = o.bytes; content_type = content_type; etag = header_or o.etag now_etag })

-- What the world gives to a request: the answer of the origin, the texts of an etag from the clock
-- for a plain and for a transformed body, the configured time to live, the time that is left to the
-- key in Redis (0 for none), the time to live in memory, and the times at which the memory is asked
-- and written.
pub record Outside : Type 0 where
  pub origin : Fetch
  pub now_etag : String
  pub opt_etag : String
  pub ttl_seconds : ℕ
  pub ttl_left : ℕ
  pub mem_ttl_seconds : ℕ
  pub asked_at : ℕ
  pub stored_at : ℕ

-- `memoryCache.get` of what is held under a key.
unfoldable pub recall : (now : ℕ) → Option Held → Option CdnResponse
recall now none = none
recall now (some held) = if ltb held.until now then none else some held.response

unfoldable pub as_hit : CdnResponse → CdnResponse
as_hit response = record response { cache_hit = true }

unfoldable pub redis_response : CacheObject → (ttl_left : ℕ) → CdnResponse
redis_response body ttl_left = record {
  body = body;
  cache_hit = true;
  remaining_ttl = if ltb 0 ttl_left then some ttl_left else none;
}

module _ (R : Redis Stored) (images : Images) where
  open R use {Db, get, set, del, scan, expire}

  unfoldable pub remember : (key : String) → CdnResponse → Outside → Edge Db → Edge Db
  remember key response out s =
      let held : Held = record {
        response = response;
        until = out.stored_at + out.mem_ttl_seconds * 1000;
      } in
      record s { memory = insert key held s.memory }

  -- CacheService.set.
  unfoldable pub cache_set : (key : String) → CacheObject → (ttl_seconds : ℕ) → Edge Db → Edge Db
  cache_set key body ttl_seconds s = record s {
    db = expire (physical key) ttl_seconds (set (physical key) (object body) s.db);
  }

  -- serveFile from the stores on.
  unfoldable pub store_fetched :
      (key : String) → Outside → Result CacheObject → Edge Db → Edge Db × Result CdnResponse
  store_fetched key out (err e) s = (s, err e)
  store_fetched key out (ok body) s =
      let response : CdnResponse = record {
        body = body;
        cache_hit = false;
        remaining_ttl = none;
      } in
      (remember key response out (cache_set key body out.ttl_seconds s), ok response)

  -- The body that the fetch gives.
  unfoldable pub fetched :
      Option Transforms → (now_etag opt_etag : String) → Fetch → Result CacheObject
  fetched transforms now_etag opt_etag refused = err origin_error
  fetched transforms now_etag opt_etag failed = err network_error
  fetched transforms now_etag opt_etag (answered answer) =
      optimized images transforms now_etag opt_etag answer

  -- serveFile from the fetch on.
  unfoldable pub fetch_file :
      (key : String) → Option Transforms → Outside → Edge Db → Edge Db × Result CdnResponse
  fetch_file key transforms out s =
      store_fetched key out (fetched transforms out.now_etag out.opt_etag out.origin) s

  -- serveFile from the lookup in Redis on; an object that cannot be parsed is fetched again.
  unfoldable pub serve_stored :
      (key : String)
      → Option Transforms
      → Outside
      → Option Stored
      → Edge Db
      → Edge Db × Result CdnResponse
  serve_stored key transforms out none s = fetch_file key transforms out s
  serve_stored key transforms out (some (broken t)) s = fetch_file key transforms out s
  serve_stored key transforms out (some (object body)) s =
      let response = redis_response body out.ttl_left in (remember key response out s, ok response)

  -- serveFile from the lookup in memory on.
  unfoldable pub serve_remembered :
      (key : String)
      → Option Transforms
      → Outside
      → Option CdnResponse
      → Edge Db
      → Edge Db × Result CdnResponse
  serve_remembered key transforms out (some response) s = (s, ok (as_hit response))
  serve_remembered key transforms out none s =
      serve_stored key transforms out (get (physical key) s.db) s

  unfoldable pub serve_file :
      (region bucket key : String)
      → Option Transforms
      → Outside
      → Edge Db
      → Edge Db × Result CdnResponse
  serve_file region bucket key transforms out s =
      let name = cache_key region bucket key transforms in
      serve_remembered name transforms out (recall out.asked_at (lookup name s.memory)) s

-- The pattern of purgeCache; `key` may be left out or empty.
unfoldable pub purge_pattern : (bucket : String) (key : Option String) → String
purge_pattern bucket none = str_append "cdn:*:" (str_append bucket ":*")
purge_pattern bucket (some key) =
    if str_eq key ""
    then str_append "cdn:*:" (str_append bucket ":*")
    else str_append "cdn:*:" (str_append bucket (str_append ":" (str_append key ":*")))

-- `k.replace("edgesphere:", "")`: the first occurrence.
unfoldable pub strip_prefix : String → String
strip_prefix String.[] = ""
strip_prefix (String.◌∷◌ c t) =
    let rest = strip_prefix t in
    if starts_with key_prefix (String.◌∷◌ c t)
    then drop_chars 11 (String.◌∷◌ c t)
    else String.◌∷◌ c rest

module _ (R : Redis Stored) where
  open R use {Db, del}

  unfoldable pub del_keys : List String → Db → Db
  del_keys [] db = db
  del_keys (k ∷ ks) db = del_keys ks (del k db)

module _ (R : Redis Stored) (matches : (pattern key : String) → Bool) where
  open R use {Db, scan}

  -- CacheService.deletePattern: SCAN lists physical keys, DEL puts the prefix back.
  unfoldable pub delete_pattern : (pattern : String) → Db → Db × ℕ
  delete_pattern pattern db =
      let keys = keep (matches pattern) (scan db) in
      (del_keys R (map (λ k. physical (strip_prefix k)) keys) db, length keys)

  unfoldable pub purge_cache : (bucket : String) (key : Option String) → Edge Db → Edge Db × ℕ
  purge_cache bucket key s =
      let (db, count) = delete_pattern (purge_pattern bucket key) s.db in
      (record s { db = db }, count)
