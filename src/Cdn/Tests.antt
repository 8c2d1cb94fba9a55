-- ===== src/Cdn/Tests.antt =====
-- Runs of the caches and of the purges on one file.
use edge_sphere_self_hosted.Prelude.{◌≡◌, refl, inl, [], ◌∷◌, Bool, false, none, some, String}
use edge_sphere_self_hosted.Prelude.Texts.{starts_with}
use edge_sphere_self_hosted.Redis.{Redis}
use edge_sphere_self_hosted.Redis.Memory.{memory, empty}
use edge_sphere_self_hosted.Cdn.{
  Stored, object, CdnResponse, Images, Edge, ok, Outside, answered, refused, recall, serve_file,
  serve_remembered, serve_stored, fetch_file, fetched, store_fetched, optimized, header_or,
  cache_key, colon_list, transforms_json, physical, key_prefix, strip_prefix,
}
use edge_sphere_self_hosted.Cdn.Invalidation.{
  PurgeEvent, PurgeRecord, Purges, purge_file, type_of, details_of, purge,
}
use edge_sphere_self_hosted.Cdn.Purging.{AllWritten, IsLiteral, purge-keeps}

abbrev R : Redis Stored
R = memory Stored

abbrev images : Images
images = record { transform = λ t b c. none; lower = λ t. t }

abbrev out : Outside
out = record {
  origin =
      answered (record { bytes = "hello"; content_type = some "text/plain"; etag = some "e1" });
  now_etag = "now";
  opt_etag = "opt";
  ttl_seconds = 3600;
  ttl_left = 0;
  mem_ttl_seconds = 300;
  asked_at = 1000;
  stored_at = 1010;
}

abbrev later : Outside
later = record {
  origin = refused;
  now_etag = "then";
  opt_etag = "opt";
  ttl_seconds = 3600;
  ttl_left = 12;
  mem_ttl_seconds = 300;
  asked_at = 1000;
  stored_at = 1010;
}

abbrev cold : Edge (Redis.Db R)
cold = record { memory = []; db = empty }

abbrev response : CdnResponse
response = record {
  body = record { bytes = "hello"; content_type = "text/plain"; etag = "e1" };
  cache_hit = false;
  remaining_ttl = none;
}

served : (serve_file R images "eu" "pics" "a.txt" none out cold).1 ≡ ok response
unfolding recall serve_file serve_remembered serve_stored fetch_file fetched store_fetched optimized
    header_or
served = refl

-- A matching of patterns that starts as Redis does.
abbrev starts_cdn : (pattern key : String) → Bool
starts_cdn pattern key = starts_with "cdn:" key

starts_cdn-IsLiteral : IsLiteral starts_cdn
starts_cdn-IsLiteral rest key h = h

abbrev cached_db : Redis.Db R
cached_db = Redis.set R "edgesphere:cdn:eu:pics:a.txt:{}" (object response.body) empty

written : AllWritten (Redis.scan R cached_db)
unfolding physical key_prefix
written = (inl ("cdn:eu:pics:a.txt:{}", refl), tt)

abbrev cached : Edge (Redis.Db R)
cached = record { memory = []; db = cached_db }

abbrev purges : Purges (Redis.Db R)
purges = record { db = cached_db; published = []; history = [] }

abbrev event : PurgeEvent
event = record {
  purge_id = "p1";
  timestamp = 9;
  type = type_of (purge_file "pics" "a.txt");
  details = details_of (purge_file "pics" "a.txt");
}

abbrev report : PurgeRecord
report = record { event = event; keys_deleted = 0 }

purge-keeps_example :
    purge R starts_cdn (purge_file "pics" "a.txt") "p1" 9 purges
    ≡ (record { db = cached_db; published = event ∷ []; history = report ∷ [] }, report)
purge-keeps_example =
    purge-keeps R starts_cdn starts_cdn-IsLiteral (purge_file "pics" "a.txt") "p1" 9 purges written

stripped : strip_prefix "edgesphere:cdn:eu" ≡ "cdn:eu"
unfolding strip_prefix key_prefix
stripped = refl

named : cache_key "eu" "pics" "a.txt" none ≡ "cdn:eu:pics:a.txt:{}"
unfolding cache_key colon_list transforms_json
named = refl
