-- ===== src/Dashboard/Realtime/Watching.antt =====
-- What the dashboard shows of the alerts, over a history of the websocket gateway.
use mathlib.Core.List.{append_assoc, append-nil}
use edge_sphere_self_hosted.Prelude.{
  ℕ, ◌≡◌, refl, ap, ◌∙◌, inl, inr, List, [], ◌∷◌, ◌++◌, false, Option, none, some, String, str_eq,
  keep, All, take, Bool-cases,
}
use edge_sphere_self_hosted.Dashboard.Realtime.{pick_alert, use_realtime_alerts}
use edge_sphere_self_hosted.Dashboard.Realtime.Latest.{found_in, newest_first, show_all-latest}
use edge_sphere_self_hosted.Live.{
  connected, request_event, storage_event, cache_purged, metrics_update, metrics_of,
  get_connected_clients_count, is_recent, Socket, Live, KafkaMessage, unreadable, request_message,
  storage_message, alert_message, other_message, join_all, leave_all, handle_connection,
  handle_disconnect, handle_subscribe, handle_unsubscribe, each_message, on_redis_message,
  emit_metrics, Event, connects, disconnects, subscribes, unsubscribes, kafka, redis, tick, step,
  run,
}
use edge_sphere_self_hosted.Dashboard.Realtime.Delivery.{
  seen, seen-append, seen-keep, IsWatched, alert-IsWatched, other-IsWatched, join_all-IsWatching,
  join_all-same, leave_all-same, change-IsWatched,
}

-- The alerts that a history brings.
abbrev pub message_alerts : KafkaMessage → List String
message_alerts unreadable = []
message_alerts (request_message event) = []
message_alerts (storage_message text) = []
message_alerts (alert_message text) = text ∷ []
message_alerts (other_message text) = []

abbrev pub event_alerts : Event → List String
event_alerts (connects name) = []
event_alerts (disconnects name) = []
event_alerts (subscribes name rooms) = []
event_alerts (unsubscribes name rooms) = []
event_alerts (kafka message) = message_alerts message
event_alerts (redis channel message) = []
event_alerts tick = []

abbrev pub alerts_of : List (ℕ × Event) → List String
alerts_of [] = []
alerts_of ((now, event) ∷ events) = event_alerts event ++ alerts_of events

module _ (id : String) where
  -- The client stays connected and does not unsubscribe.
  abbrev pub IsLoyal : Event → Type 0
  IsLoyal (connects name) = Unit
  IsLoyal (disconnects name) = str_eq id name ≡ false
  IsLoyal (subscribes name rooms) = Unit
  IsLoyal (unsubscribes name rooms) = str_eq name id ≡ false
  IsLoyal (kafka message) = Unit
  IsLoyal (redis channel message) = Unit
  IsLoyal tick = Unit

  message-IsWatched :
      (alerts : List String) (now : ℕ) (message : KafkaMessage) (s : Live)
      → IsWatched id alerts s.sockets
      → IsWatched id (alerts ++ message_alerts message) (each_message now message s).sockets
  unfolding each_message pick_alert
  message-IsWatched alerts now unreadable s watched = rw (append-nil alerts) watched
  message-IsWatched alerts now (request_message event) s watched =
      rw (append-nil alerts)
        (other-IsWatched id alerts "events" (request_event event) s.sockets refl watched)
  message-IsWatched alerts now (storage_message text) s watched =
      rw (append-nil alerts)
        (other-IsWatched id alerts "storage" (storage_event text) s.sockets refl watched)
  message-IsWatched alerts now (alert_message text) s watched =
      alert-IsWatched id alerts text s.sockets watched
  message-IsWatched alerts now (other_message text) s watched = rw (append-nil alerts) watched

  redis-IsWatched :
      (alerts : List String) (channel : String) (message : Option String) (s : Live)
      → IsWatched id alerts s.sockets
      → IsWatched id alerts (on_redis_message channel message s).sockets
  unfolding on_redis_message pick_alert
  redis-IsWatched alerts channel none s watched = watched
  redis-IsWatched alerts channel (some event) s watched =
      elim (Bool-cases (str_eq channel "cache:invalidate")) [
        | inl purge ↦
            rw purge (other-IsWatched id alerts "cdn" (cache_purged event) s.sockets refl watched)
        | inr other ↦ rw other watched
      ]

  step-IsWatched :
      (alerts : List String) (now : ℕ) (event : Event) (s : Live)
      → IsLoyal event
      → IsWatched id alerts s.sockets
      → IsWatched id (alerts ++ event_alerts event) (step now event s).sockets
  unfolding step handle_connection handle_disconnect handle_subscribe handle_unsubscribe
      emit_metrics pick_alert
  step-IsWatched alerts now (connects name) s loyal (x, found, watching) = rw (append-nil alerts) (
    x,
    seen-append id s.sockets
        (record { id = name; rooms = []; inbox = connected name now ∷ [] } ∷ []) x found,
    watching,
  )
  step-IsWatched alerts now (disconnects name) s loyal (x, found, watching) =
      rw (append-nil alerts) (x, seen-keep id name s.sockets x loyal found, watching)
  step-IsWatched alerts now (subscribes name rooms) s loyal watched = rw (append-nil alerts) (
      change-IsWatched id alerts name (join_all rooms) s.sockets (join_all-same id rooms)
        (λ x this watching. join_all-IsWatching id alerts rooms x watching) watched)
  step-IsWatched alerts now (unsubscribes name rooms) s loyal watched = rw (append-nil alerts) (
      change-IsWatched id alerts name (leave_all rooms) s.sockets (leave_all-same id rooms)
        (λ x this watching. absurd (cc (rw loyal at this))) watched)
  step-IsWatched alerts now (kafka message) s loyal watched =
      message-IsWatched alerts now message s watched
  step-IsWatched alerts now (redis channel message) s loyal watched =
      rw (append-nil alerts) (redis-IsWatched alerts channel message s watched)
  step-IsWatched alerts now tick s loyal watched = rw (append-nil alerts) (
      other-IsWatched id alerts "metrics"
        (metrics_update (
          metrics_of now (get_connected_clients_count s.sockets)
            (keep (is_recent now) s.recent_requests)))
        s.sockets refl watched)

  run-IsWatched :
      (alerts : List String) (events : List (ℕ × Event)) (s : Live)
      → All (λ e. IsLoyal e.1) events
      → IsWatched id alerts s.sockets
      → IsWatched id (alerts ++ alerts_of events) (run events s).sockets
  unfolding run
  run-IsWatched alerts [] s loyal watched = rw (append-nil alerts) watched
  run-IsWatched alerts ((now, event) ∷ events) s (loyal, later) watched =
      rw⁻¹ (append_assoc alerts (event_alerts event) (alerts_of events)) (
        run-IsWatched (alerts ++ event_alerts event) events (step now event s) later
          (step-IsWatched alerts now event s loyal watched))

  -- A client in the room of the alerts that stays connected and does not unsubscribe receives every
  -- alert that Kafka brings, once and in order, whatever else happens; and the dashboard shows of
  -- them, and of those from before, the 50 latest, the newest first.
  pub alerts_reach_dashboard :
      (alerts : List String) (events : List (ℕ × Event)) (s : Live)
      → IsWatched id alerts s.sockets
      → All (λ e. IsLoyal e.1) events
      → (x : Socket) × (seen id (run events s).sockets ≡ some x)
        × (found_in pick_alert x.inbox ≡ alerts ++ alerts_of events)
        × (use_realtime_alerts x.inbox ≡ take 50 (newest_first (alerts ++ alerts_of events)))
  unfolding use_realtime_alerts
  alerts_reach_dashboard alerts events s watched loyal =
      let (x, found, (joined, received)) = run-IsWatched alerts events s loyal watched in
      (
        x,
        found,
        received,
        show_all-latest pick_alert 50 x.inbox ∙ ap (λ items. take 50 (newest_first items)) received,
      )
