-- ===== src/Gateway/CdnCache/Tests.antt =====
-- A file that the CDN service does not have, asked for twice.
use Prim.Native.String.{◌++◌ as str_append}
use edge_sphere_self_hosted.Prelude.Texts.{setting_or}
use edge_sphere_self_hosted.Prelude.{◌≡◌, refl, ◌∷◌, [], true, none, some, String}
use edge_sphere_self_hosted.Prelude.Maps.{lookup}
use edge_sphere_self_hosted.Redis.{Redis}
use edge_sphere_self_hosted.Redis.Memory.{memory, empty}
use edge_sphere_self_hosted.Gateway.RateLimit.{
  ran, sliding_window, window_commands, window_key, ceil_div,
}
use edge_sphere_self_hosted.Gateway.CdnCache.{
  Upstream, Request, Outside, Cached, cached, miss, found, is_cacheable, gateway_key,
  handle_request, limited_cdn, proxy_cdn, serve_found, serve_cdn, piped, pass_headers, concat,
  end_response, setex, set_headers, set_default, sent_headers, send, is_fresh,
}
use edge_sphere_self_hosted.Gateway.CdnCache.Headers.{sent_value}
use edge_sphere_self_hosted.Gateway.CdnCache.Hits.{hit_repeats_answer, cdn_status_lost}

abbrev md5 : String → String
md5 text = text

abbrev request : Request
request = record {
  method = "GET";
  path = "/cdn/b/k";
  query = "";
  original_url = "/cdn/b/k";
  ip = some "10.0.0.1";
  if_none_match = none;
  if_modified_since = none;
}

abbrev no_file : Upstream
no_file = record { status = 404; headers = ("x-cache", "MISS") ∷ []; chunks = "no " ∷ "file" ∷ [] }

abbrev out : Outside (Redis.Db (memory Cached))
out = record {
  cdn_url = none;
  fetch = λ method url. some no_file;
  base_headers = ("x-powered-by", "Express") ∷ [];
  readable = true;
  writable = true;
  exec = some ran;
  now = 5000;
  request_id = "r1";
  matches = λ none_match since headers. true;
  etag_of = λ body. str_append "W/" body;
  length_of = λ body. "7";
}

cacheable : is_cacheable request ≡ true
unfolding is_cacheable
cacheable = refl

missed : found (Redis.get (memory Cached) (gateway_key md5 "/cdn/b/k" "") empty) ≡ miss
unfolding found gateway_key
missed = refl

within :
    (sliding_window
      (memory Cached)
      (setting_or (some "10.0.0.1") "unknown")
      100
      60000
      5000
      "r1"
      ran
      empty).verdict.allowed
    ≡ true
unfolding sliding_window window_commands window_key ceil_div
within = refl

answered : (serve_cdn (memory Cached) md5 request out empty).1.status ≡ 200
unfolding serve_cdn serve_found found gateway_key is_cacheable proxy_cdn limited_cdn handle_request
    sliding_window window_commands window_key ceil_div piped end_response
answered = refl

cdn_status_lost_example :
    let first = serve_cdn (memory Cached) md5 request out empty in
    (first.1.status ≡ 200)
    × (first.1.body ≡ concat ("no " ∷ "file" ∷ []))
    × (Redis.get (memory Cached) (gateway_key md5 "/cdn/b/k" "") first.0
        ≡ some (cached first.1.headers (concat ("no " ∷ "file" ∷ []))))
cdn_status_lost_example =
    cdn_status_lost (memory Cached) md5 request out empty ran no_file (cacheable, refl) refl missed
      refl within refl

hit_repeats_answer_example :
    let first = serve_cdn (memory Cached) md5 request out empty in
    let second = serve_cdn (memory Cached) md5 request out first.0 in
    (second.0 ≡ first.0)
    × (second.1.status ≡ 200)
    × (second.1.body ≡ first.1.body)
    × ((name : String)
        → lookup name second.1.headers
          ≡ sent_value (str_append "W/" first.1.body) "7" name (lookup name first.1.headers))
hit_repeats_answer_example =
    hit_repeats_answer (memory Cached) md5 request request out out empty (cacheable, refl) refl
      missed answered (cacheable, refl) (refl, refl) refl refl refl (refl, tt)

marked_as_miss :
    lookup "x-gw-cache"
      (serve_cdn
        (memory Cached)
        md5
        request
        out
        (serve_cdn (memory Cached) md5 request out empty).0).1.headers
    ≡ some "MISS"
unfolding serve_cdn serve_found found gateway_key is_cacheable proxy_cdn limited_cdn handle_request
    sliding_window window_commands window_key ceil_div piped end_response setex set_headers
    pass_headers concat send is_fresh sent_headers set_default
marked_as_miss = refl

-- A client that has the copy is told so.
not_modified :
    (serve_cdn
      (memory Cached)
      md5
      (record request { if_none_match = some "e1" })
      out
      (serve_cdn (memory Cached) md5 request out empty).0).1.status
    ≡ 304
unfolding serve_cdn serve_found found gateway_key is_cacheable proxy_cdn limited_cdn handle_request
    sliding_window window_commands window_key ceil_div piped end_response setex set_headers
    pass_headers concat send is_fresh sent_headers set_default
not_modified = refl
