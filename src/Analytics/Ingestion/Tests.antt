-- ===== src/Analytics/Ingestion/Tests.antt =====
-- Two events, of which the second comes while the first is inserted.
use edge_sphere_self_hosted.Prelude.{◌≡◌, refl, ◌+◌, [], ◌∷◌, true, none, some, length, List}
use edge_sphere_self_hosted.Analytics.Ingestion.{
  RequestEvent, Inserting, Event, message, tick, answered, run, started, step, each_message,
  take_value, push_event, begin_flush, is_empty,
}
use edge_sphere_self_hosted.Analytics.Ingestion.Pending.{accepted, handed, pending, stored_count}
use edge_sphere_self_hosted.Analytics.Ingestion.Batches.{run-accepted, flushes_drain}

abbrev visit : RequestEvent
visit = record {
  time = some 0;
  service = some "cdn";
  method = some "GET";
  path = some "/cdn/b/k";
  status = some 200;
  latency_ms = some 12;
  user_id = none;
  ip = some "10.0.0.1";
  country = none;
  cache_hit = none;
  bytes = none;
  edge_region = none;
  request_id = none;
}

abbrev arrival : Event
arrival = message (record { topic = "request.events"; value = some (some visit) })

abbrev inserting : Inserting
inserting = record { succeeds = true; now = 7; uuid = λ n. "u" }

abbrev events : List Event
events = arrival ∷ tick ∷ arrival ∷ []

waiting : length (run events (started [])).batch ≡ 1
unfolding run step each_message take_value push_event begin_flush is_empty started
waiting = refl

run-accepted_example :
    (pending (run events (started [])) ≡ accepted events)
    × (length (run events (started [])).rows ≡ 0 + stored_count (run events (started [])).attempts)
run-accepted_example = run-accepted [] events

flushes_drain_example :
    let after =
      run (answered inserting ∷ tick ∷ answered inserting ∷ []) (run events (started [])) in
    (after.batch ≡ []) × (after.in_flight ≡ []) × (handed after.attempts ≡ accepted events)
flushes_drain_example = flushes_drain [] events inserting inserting
