-- ===== src/Cdn/Requests/Tests.antt =====
-- A picture that is asked for twice, and purges with and without a key.
use edge_sphere_self_hosted.Prelude.{
  ◌≤◌, ◌+◌, ◌*◌, arith, ℕ, ◌≡◌, refl, [], Bool, true, false, Option, none, some, String,
}
use edge_sphere_self_hosted.Prelude.Maps.{lookup}
use edge_sphere_self_hosted.Redis.{Redis}
use edge_sphere_self_hosted.Redis.Memory.{memory, empty}
use edge_sphere_self_hosted.Cdn.{
  Stored, Images, Outside, answered, recall, is_image, supported_types, serve_file,
  serve_remembered, serve_stored, fetch_file, fetched, store_fetched, optimized, header_or,
  cache_key, colon_list, transforms_json, physical, key_prefix,
}
use edge_sphere_self_hosted.Cdn.Requests.{
  Query, Request, FileHeaders, file, send, is_fresh, Server, Clock, handle_file_request, answer,
  file_headers, max_age_of, transforms_of, get_nearest_region, region_of_octet, first_part,
  parse_digits, digit_of,
}
use edge_sphere_self_hosted.Cdn.Requests.Answers.{IsSameContent, second_request_hits}

abbrev plain : Query
plain = record { w = none; h = none; fmt = none; q = none; fit = none }

abbrev request : Request
request = record {
  bucket = "b";
  key = "notes.txt";
  query = plain;
  method = "GET";
  original_url = "/cdn/b/notes.txt";
  ip = some "10.0.0.1";
  if_none_match = none;
  if_modified_since = none;
}

abbrev images : Images
images = record { transform = λ t bytes content_type. none; lower = λ t. t }

abbrev json : Query → String
json q = "{}"

abbrev size : String → ℕ
size text = 5

abbrev no_conditions : Option String → Option String → FileHeaders → Bool
no_conditions none_match since headers = false

abbrev clock : Clock
clock = record { start_time = 1000; now = 1020; edge_region = some "eu-west-1" }

abbrev out : Outside
out = record {
  origin =
      answered (record { bytes = "notes"; content_type = some "text/plain"; etag = some "e1" });
  now_etag = "n";
  opt_etag = "o";
  ttl_seconds = 60;
  ttl_left = 0;
  mem_ttl_seconds = 300;
  asked_at = 1000;
  stored_at = 1010;
}

abbrev server : Server (Redis.Db (memory Stored))
server = record { edge = record { memory = []; db = empty }; events = []; bandwidth = 0 }

abbrev headers : FileHeaders
headers = record {
  x_cache = "MISS";
  x_edge_region = "eu-west-1";
  max_age = 3600;
  etag = "e1";
  content_type = "text/plain";
  content_length = 5;
}

served :
    (handle_file_request
      (memory Stored)
      images
      json
      size
      no_conditions
      "eu"
      false
      request
      clock
      out
      server).1
    ≡ file headers (some "notes")
unfolding recall send is_fresh handle_file_request answer file_headers max_age_of transforms_of
    serve_file serve_remembered serve_stored fetch_file fetched store_fetched optimized header_or
    is_image supported_types cache_key colon_list transforms_json physical key_prefix
served = refl

absent :
    recall 1000
      (lookup (cache_key "eu" "b" "notes.txt" (some (transforms_of json plain))) server.edge.memory)
    ≡ none
unfolding recall
absent = refl

soon : 1000 ≤ 1010 + 300 * 1000
soon = omega arith

second_request_hits_example :
    let first =
      handle_file_request
        (memory Stored)
        images
        json
        size
        no_conditions
        "eu"
        false
        request
        clock
        out
        server in
    let second =
      handle_file_request
        (memory Stored)
        images
        json
        size
        no_conditions
        "eu"
        true
        request
        clock
        out
        first.0 in
    (second.0.edge ≡ first.0.edge)
    × ((again : FileHeaders) × (sent : Option String) × (second.1 ≡ file again sent)
        × (again.x_cache ≡ "HIT")
        × IsSameContent headers again)
second_request_hits_example =
    second_request_hits (memory Stored) images json size no_conditions "eu" false true request clock
      clock out out server headers (some "notes") (refl, refl) absent soon served

abbrev no_match : String → String → Bool
no_match pattern key = false

abbrev given : Option String
given = some "k"

in_europe : get_nearest_region "150.1.2.3" ≡ "eu-west-1"
unfolding get_nearest_region region_of_octet first_part parse_digits digit_of
in_europe = refl
