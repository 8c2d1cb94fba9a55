-- ===== src/Live/Tests.antt =====
-- A client that watches the metrics, with two requests of which one is old at the tick.
use edge_sphere_self_hosted.Prelude.{ℕ, ◌≡◌, refl, List, [], ◌∷◌, true, some, length}
use edge_sphere_self_hosted.Live.{
  RequestData, Live, request_message, is_recent, emit_metrics, run, Event, connects, subscribes,
  kafka, tick, step, handle_connection, handle_subscribe, change, join_all, join, is_in,
  each_message, sample_of,
}

abbrev visit : RequestData
visit = record { text = "{}"; latency_ms = some 12; cache_hit = true; status = some 200 }

abbrev at_start : Live
at_start = record { sockets = []; recent_requests = [] }

abbrev events : List (ℕ × Event)
events =
    (1000, connects "c1")
    ∷ (1001, subscribes "c1" ("metrics" ∷ []))
    ∷ (2000, kafka (request_message visit))
    ∷ (5000, tick)
    ∷ (6000, kafka (request_message visit))
    ∷ []

both_kept : length (run events at_start).recent_requests ≡ 2
unfolding run step handle_connection handle_subscribe change join_all join is_in each_message
    sample_of emit_metrics is_recent
both_kept = refl
