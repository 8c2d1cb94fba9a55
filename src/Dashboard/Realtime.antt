-- ===== src/Dashboard/Realtime.antt =====
-- hooks/useRealtimeAlerts.ts, hooks/useRealtimeEvents.ts and hooks/useRealtimeMetrics.ts: what the
-- pages show of the packets that the connection of the dashboard receives.
pub mod Latest
pub mod Delivery
pub mod Watching
mod Tests
use edge_sphere_self_hosted.Prelude.{
  ℕ, List, [], ◌∷◌, Bool, true, false, Option, none, some, String, take,
}
use edge_sphere_self_hosted.Live.{
  Packet, connected, request_event, metrics_update, alert_triggered, cache_purged, storage_event,
  RequestData, RealtimeMetrics,
}

unfoldable pub pick_alert : Packet → Option String
pick_alert (alert_triggered alert) = some alert
pick_alert (connected client_id timestamp) = none
pick_alert (request_event event) = none
pick_alert (metrics_update metrics) = none
pick_alert (cache_purged event) = none
pick_alert (storage_event event) = none

unfoldable pub pick_event : Packet → Option RequestData
pick_event (request_event event) = some event
pick_event (connected client_id timestamp) = none
pick_event (alert_triggered alert) = none
pick_event (metrics_update metrics) = none
pick_event (cache_purged event) = none
pick_event (storage_event event) = none

module _ {A : Type 0} where
  -- `setItems(prev => [item, ...prev].slice(0, limit))`.
  unfoldable pub show : (limit : ℕ) → Option A → List A → List A
  show limit none prev = prev
  show limit (some item) prev = take limit (item ∷ prev)

  unfoldable pub show_all : (pick : Packet → Option A) (limit : ℕ) → List Packet → List A → List A
  show_all pick limit [] prev = prev
  show_all pick limit (packet ∷ packets) prev =
      show_all pick limit packets (show limit (pick packet) prev)

-- The state of each hook after packets since it was mounted.
unfoldable pub use_realtime_alerts : List Packet → List String
use_realtime_alerts packets = show_all pick_alert 50 packets []

unfoldable pub use_realtime_events : (max_events : ℕ) → List Packet → List RequestData
use_realtime_events max_events packets = show_all pick_event max_events packets []

unfoldable pub set_metrics : Packet → Option RealtimeMetrics → Option RealtimeMetrics
set_metrics (metrics_update metrics) prev = some metrics
set_metrics (connected client_id timestamp) prev = prev
set_metrics (request_event event) prev = prev
set_metrics (alert_triggered alert) prev = prev
set_metrics (cache_purged event) prev = prev
set_metrics (storage_event event) prev = prev

unfoldable pub use_realtime_metrics : List Packet → Option RealtimeMetrics → Option RealtimeMetrics
use_realtime_metrics [] prev = prev
use_realtime_metrics (packet ∷ packets) prev =
    use_realtime_metrics packets (set_metrics packet prev)
