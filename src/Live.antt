-- ===== src/Live.antt =====
-- apps/websocket-gateway: events/events.gateway.ts and kafka/kafka-consumer.service.ts, which tell the
-- connected clients what happens, room by room. Joining, leaving and emitting are those of
-- socket.io, whose documentation says that a message to a room reaches the clients in it.
-- Payloads are their texts, with the fields that the code reads.
pub mod Window
mod Tests
use edge_sphere_self_hosted.Prelude.{
  ℕ, ◌+◌, ◌-◌, List, [], ◌∷◌, ◌++◌, map, Bool, true, false, not, Option, none, some, String, str_eq,
  ltb, leb, if◌then◌else◌, or_else, length, keep, any,
}
use edge_sphere_self_hosted.Prelude.Ratios.{Ratio, whole}

pub record RequestData : Type 0 where
  pub text : String
  pub latency_ms : Option ℕ
  pub cache_hit : Bool
  pub status : Option ℕ

pub record RecentRequestSample : Type 0 where
  pub received_at : ℕ
  pub latency_ms : ℕ
  pub cache_hit : Bool
  pub status : ℕ

pub record RealtimeMetrics : Type 0 where
  pub requests_per_sec : Ratio
  pub cache_hit_ratio : Ratio
  pub avg_latency_ms : Ratio
  pub active_connections : ℕ
  pub error_rate : Ratio
  pub timestamp : ℕ

-- What a client is sent.
pub data Packet : Type 0 where
  connected : (client_id : String) (timestamp : ℕ) → Packet
  request_event : RequestData → Packet
  metrics_update : RealtimeMetrics → Packet
  alert_triggered cache_purged storage_event : String → Packet

pub record Socket : Type 0 where
  pub id : String
  pub rooms : List String
  pub inbox : List Packet

pub record Live : Type 0 where
  pub sockets : List Socket
  pub recent_requests : List RecentRequestSample

-- A message of Kafka, as JSON.parse reads it for its topic.
pub data KafkaMessage : Type 0 where
  unreadable : KafkaMessage
  request_message : RequestData → KafkaMessage
  storage_message alert_message other_message : String → KafkaMessage

unfoldable pub is_in : (room : String) → Socket → Bool
is_in room socket = any (λ joined. str_eq joined room) socket.rooms

unfoldable pub receive : Packet → Socket → Socket
receive packet socket = record socket { inbox = socket.inbox ++ packet ∷ [] }

-- `client.join(room)`: rooms are a set.
unfoldable pub join : (room : String) → Socket → Socket
join room socket =
    if is_in room socket then socket else record socket { rooms = socket.rooms ++ room ∷ [] }

unfoldable pub leave : (room : String) → Socket → Socket
leave room socket = record socket { rooms = keep (λ joined. not (str_eq joined room)) socket.rooms }

unfoldable pub join_all : List String → Socket → Socket
join_all [] socket = socket
join_all (room ∷ rooms) socket = join_all rooms (join room socket)

unfoldable pub leave_all : List String → Socket → Socket
leave_all [] socket = socket
leave_all (room ∷ rooms) socket = leave_all rooms (leave room socket)

-- What a handler does to the one client that called it.
unfoldable pub change : (id : String) → (Socket → Socket) → List Socket → List Socket
change id f sockets = map (λ socket. if str_eq socket.id id then f socket else socket) sockets

-- `this.server.to(room).emit(...)`.
unfoldable pub emit_to : (room : String) → Packet → List Socket → List Socket
emit_to room packet sockets =
    map (λ socket. if is_in room socket then receive packet socket else socket) sockets

-- `this.server.emit(...)`.
unfoldable pub broadcast : Packet → List Socket → List Socket
broadcast packet sockets = map (receive packet) sockets

-- A new client, which is told its id.
unfoldable pub handle_connection : (id : String) (now : ℕ) → List Socket → List Socket
handle_connection id now sockets =
    sockets ++ record { id = id; rooms = []; inbox = connected id now ∷ [] } ∷ []

unfoldable pub handle_disconnect : (id : String) → List Socket → List Socket
handle_disconnect id sockets = keep (λ socket. not (str_eq socket.id id)) sockets

unfoldable pub handle_subscribe : (id : String) → List String → List Socket → List Socket
handle_subscribe id rooms sockets = change id (join_all rooms) sockets

unfoldable pub handle_unsubscribe : (id : String) → List String → List Socket → List Socket
handle_unsubscribe id rooms sockets = change id (leave_all rooms) sockets

unfoldable pub get_connected_clients_count : List Socket → ℕ
get_connected_clients_count sockets = length sockets

unfoldable pub sample_of : (now : ℕ) → RequestData → RecentRequestSample
sample_of now event = record {
  received_at = now;
  latency_ms = or_else event.latency_ms 0;
  cache_hit = event.cache_hit;
  status = or_else event.status 0;
}

unfoldable pub each_message : (now : ℕ) → KafkaMessage → Live → Live
each_message now unreadable s = s
each_message now (request_message event) s = record {
  sockets = emit_to "events" (request_event event) s.sockets;
  recent_requests = s.recent_requests ++ sample_of now event ∷ [];
}
each_message now (storage_message text) s = record s {
  sockets = emit_to "storage" (storage_event text) s.sockets;
}
each_message now (alert_message text) s = record s {
  sockets = emit_to "alerts" (alert_triggered text) s.sockets;
}
each_message now (other_message text) s = s

-- The listener on Redis; `none` is what JSON.parse refuses.
unfoldable pub on_redis_message : (channel : String) → Option String → Live → Live
on_redis_message channel none s = s
on_redis_message channel (some event) s =
    if str_eq channel "cache:invalidate"
    then record s { sockets = emit_to "cdn" (cache_purged event) s.sockets }
    else s

-- `r.receivedAt >= Date.now() - 5000`.
unfoldable pub is_recent : (now : ℕ) → RecentRequestSample → Bool
is_recent now sample = leb now (sample.received_at + 5000)

unfoldable pub latency_sum : List RecentRequestSample → ℕ
latency_sum [] = 0
latency_sum (sample ∷ samples) = sample.latency_ms + latency_sum samples

-- `total > 0 ? part / total : 0`.
unfoldable pub rate : (part total : ℕ) → Ratio
rate part total = if ltb 0 total then record { num = part; den = total - 1 } else whole 0

unfoldable pub metrics_of :
    (now active_connections : ℕ) → List RecentRequestSample → RealtimeMetrics
metrics_of now active_connections samples =
    let total = length samples in
    record {
      requests_per_sec = record { num = total; den = 4 };
      cache_hit_ratio = rate (length (keep (λ r. r.cache_hit) samples)) total;
      avg_latency_ms = rate (latency_sum samples) total;
      active_connections = active_connections;
      error_rate = rate (length (keep (λ r. leb 400 r.status) samples)) total;
      timestamp = now;
    }

-- One tick of startMetricsEmitter.
unfoldable pub emit_metrics : (now : ℕ) → Live → Live
emit_metrics now s =
    let recent = keep (is_recent now) s.recent_requests in
    record {
      sockets =
          emit_to "metrics"
            (metrics_update (metrics_of now (get_connected_clients_count s.sockets) recent))
            s.sockets;
      recent_requests = recent;
    }

-- What happens to the gateway.
pub data Event : Type 0 where
  connects disconnects : (id : String) → Event
  subscribes unsubscribes : (id : String) → List String → Event
  kafka : KafkaMessage → Event
  redis : (channel : String) → Option String → Event
  tick : Event

unfoldable pub step : (now : ℕ) → Event → Live → Live
step now (connects id) s = record s { sockets = handle_connection id now s.sockets }
step now (disconnects id) s = record s { sockets = handle_disconnect id s.sockets }
step now (subscribes id rooms) s = record s { sockets = handle_subscribe id rooms s.sockets }
step now (unsubscribes id rooms) s = record s { sockets = handle_unsubscribe id rooms s.sockets }
step now (kafka message) s = each_message now message s
step now (redis channel message) s = on_redis_message channel message s
step now tick s = emit_metrics now s

unfoldable pub run : List (ℕ × Event) → Live → Live
run [] s = s
run ((now, event) ∷ events) s = run events (step now event s)
