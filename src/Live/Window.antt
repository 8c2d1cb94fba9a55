-- ===== src/Live/Window.antt =====
-- The metrics of a tick, told from all requests that ever came.
use edge_sphere_self_hosted.Prelude.{ℕ, List, [], ◌∷◌, ◌++◌}
use edge_sphere_self_hosted.Live.{
  RecentRequestSample, Live, KafkaMessage, unreadable, request_message, storage_message,
  alert_message, other_message, sample_of, Event, connects, disconnects, subscribes, unsubscribes,
  kafka, redis, tick,
}

-- The requests that a history brings, with their times.
abbrev pub message_samples : ℕ → KafkaMessage → List RecentRequestSample
message_samples now unreadable = []
message_samples now (request_message event) = sample_of now event ∷ []
message_samples now (storage_message text) = []
message_samples now (alert_message text) = []
message_samples now (other_message text) = []

abbrev pub event_samples : ℕ → Event → List RecentRequestSample
event_samples now (connects id) = []
event_samples now (disconnects id) = []
event_samples now (subscribes id rooms) = []
event_samples now (unsubscribes id rooms) = []
event_samples now (kafka message) = message_samples now message
event_samples now (redis channel message) = []
event_samples now tick = []

abbrev pub samples_of : List (ℕ × Event) → List RecentRequestSample
samples_of [] = []
samples_of ((now, event) ∷ events) = event_samples now event ++ samples_of events
