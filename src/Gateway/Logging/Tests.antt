-- ===== src/Gateway/Logging/Tests.antt =====
-- An upload that Kafka refuses to tell, and a scrape of the metrics.
use edge_sphere_self_hosted.Prelude.{◌≡◌, refl, [], true, false, none, some, String}
use edge_sphere_self_hosted.Gateway.Dlq.{Dlq}
use edge_sphere_self_hosted.Gateway.Logging.{
  Request, Finished, EventData, Log, Outside, should_skip, skip_prefixes, is_under, service_of,
  service_part, part_or_gateway, after_first,
}

abbrev json : EventData → String
json event = event.path

abbrev upload : Request
upload = record { method = "POST"; original_url = "/v1/storage/b/k"; ip = none; sub = some "ann" }

abbrev finished : Finished
finished = record { status_code = 201; x_cache = none; x_cache_hit = none; content_length = some 9 }

abbrev out : Outside
out = record {
  start_time = 5000;
  now = 5012;
  edge_region = none;
  refusal = some "broker down";
  dlq_takes = true;
}

abbrev quiet : Dlq
quiet = record {
  resent = [];
  published = [];
  slept = [];
  retry_successes = 0;
  permanent_failures = 0;
}

abbrev log : Log
log = record { requests = []; latencies = []; sent = []; dlq = quiet }

not_skipped : should_skip "/v1/storage/b/k" ≡ false
unfolding should_skip skip_prefixes is_under
not_skipped = refl

skipped : should_skip "/v1/analytics/summary?window=60" ≡ true
unfolding should_skip skip_prefixes is_under
skipped = refl

looks_alike : should_skip "/healthy" ≡ false
unfolding should_skip skip_prefixes is_under
looks_alike = refl

storage_part : service_of "/v1/storage/b/k" ≡ "storage"
unfolding service_of service_part part_or_gateway after_first
storage_part = refl
