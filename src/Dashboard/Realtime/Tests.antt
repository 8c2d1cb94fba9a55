-- ===== src/Dashboard/Realtime/Tests.antt =====
-- A client in the room of the alerts, two alerts and a request.
use edge_sphere_self_hosted.Prelude.{ℕ, ◌≡◌, refl, List, [], ◌∷◌, ◌++◌, false, some, take}
use edge_sphere_self_hosted.Live.{
  Socket, Live, RequestData, request_message, alert_message, Event, connects, kafka, run, is_in,
}
use edge_sphere_self_hosted.Dashboard.Realtime.{pick_alert, use_realtime_alerts}
use edge_sphere_self_hosted.Dashboard.Realtime.Latest.{found_in, newest_first}
use edge_sphere_self_hosted.Dashboard.Realtime.Delivery.{seen, IsWatched}
use edge_sphere_self_hosted.Dashboard.Realtime.Watching.{alerts_of, alerts_reach_dashboard}

abbrev watcher : Socket
watcher = record { id = "c1"; rooms = "events" ∷ "alerts" ∷ []; inbox = [] }

abbrev visit : RequestData
visit = record { text = "{}"; latency_ms = some 12; cache_hit = false; status = some 500 }

abbrev before : Live
before = record { sockets = watcher ∷ []; recent_requests = [] }

abbrev events : List (ℕ × Event)
events =
    (1000, kafka (alert_message "a1"))
    ∷ (1001, connects "c2")
    ∷ (2000, kafka (request_message visit))
    ∷ (2001, kafka (alert_message "a2"))
    ∷ []

watching : IsWatched "c1" [] (watcher ∷ [])
unfolding is_in
watching = (watcher, refl, (refl, refl))

alerts_reach_dashboard_example :
    (x : Socket) × (seen "c1" (run events before).sockets ≡ some x)
    × (found_in pick_alert x.inbox ≡ [] ++ alerts_of events)
    × (use_realtime_alerts x.inbox ≡ take 50 (newest_first ([] ++ alerts_of events)))
alerts_reach_dashboard_example =
    alerts_reach_dashboard "c1" [] events before watching (tt, (tt, (tt, (tt, tt))))
