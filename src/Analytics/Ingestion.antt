-- ===== src/Analytics/Ingestion.antt =====
-- kafka/kafka-consumer.service.ts of the analytics service with ingestEventBatch of
-- analytics/analytics.service.ts: events are gathered from Kafka and inserted in batches. A flush has
-- two halves, before and after its `await`; `in_flight` is the local `currentBatch` of the flush
-- that waits. No message is the JSON text of null. What the database answers to an insert is an argument.
pub mod Pending
pub mod Batches
mod Tests
use edge_sphere_self_hosted.Prelude.{
  ℕ, suc, List, [], ◌∷◌, ◌++◌, Bool, true, false, ◌||◌, Option, none, some, String, str_eq, leb,
  ◌==◌, if◌then◌else◌, or_else, length,
}

pub record RequestEvent : Type 0 where
  pub time : Option ℕ
  pub service : Option String
  pub method : Option String
  pub path : Option String
  pub status : Option ℕ
  pub latency_ms : Option ℕ
  pub user_id : Option String
  pub ip : Option String
  pub country : Option String
  pub cache_hit : Option Bool
  pub bytes : Option ℕ
  pub edge_region : Option String
  pub request_id : Option String

-- RequestEventEntity.
pub record EventEntity : Type 0 where
  pub time : ℕ
  pub service : Option String
  pub method : Option String
  pub path : Option String
  pub status : Option ℕ
  pub latency_ms : Option ℕ
  pub user_id : Option String
  pub ip : Option String
  pub country : Option String
  pub cache_hit : Bool
  pub bytes : ℕ
  pub edge_region : Option String
  pub request_id : String

-- A message: its topic, and its value, if it has one, as JSON.parse reads it (`none` throws).
pub record Message : Type 0 where
  pub topic : String
  pub value : Option (Option RequestEvent)

-- What the database answers to an insert, with the clock and the random ids at that moment.
pub record Inserting : Type 0 where
  pub succeeds : Bool
  pub now : ℕ
  pub uuid : ℕ → String

-- `attempts` are the batches handed to ingestEventBatch, with the answers of the database; `rows`
-- is what its table holds.
pub record Consumer : Type 0 where
  pub batch : List RequestEvent
  pub is_processing : Bool
  pub in_flight : List RequestEvent
  pub attempts : List (Bool × List RequestEvent)
  pub rows : List EventEntity
  pub connected : Bool

-- `event.requestId || uuidv4()`.
unfoldable pub id_or : Option String → String → String
id_or none fresh = fresh
id_or (some id) fresh = if str_eq id "" then fresh else id

-- `event.time ? new Date(event.time) : new Date()`: 0 is no time.
unfoldable pub time_or : Option ℕ → (now : ℕ) → ℕ
time_or none now = now
time_or (some time) now = if time == 0 then now else time

unfoldable pub to_entity : (now : ℕ) (fresh : String) → RequestEvent → EventEntity
to_entity now fresh event = record {
  time = time_or event.time now;
  service = event.service;
  method = event.method;
  path = event.path;
  status = event.status;
  latency_ms = event.latency_ms;
  user_id = event.user_id;
  ip = event.ip;
  country = event.country;
  cache_hit = or_else event.cache_hit false;
  bytes = or_else event.bytes 0;
  edge_region = event.edge_region;
  request_id = id_or event.request_id fresh;
}

unfoldable pub to_entities :
    (now : ℕ) (uuid : ℕ → String) (first : ℕ) → List RequestEvent → List EventEntity
to_entities now uuid first [] = []
to_entities now uuid first (event ∷ events) =
    to_entity now (uuid first) event ∷ to_entities now uuid (suc first) events

-- A failing insert is logged only, and the caller is told nothing.
unfoldable pub ingest_event_batch :
    Inserting → List RequestEvent → List EventEntity → List EventEntity
ingest_event_batch answer [] rows = rows
ingest_event_batch answer (event ∷ events) rows =
    if answer.succeeds then rows ++ to_entities answer.now answer.uuid 0 (event ∷ events) else rows

unfoldable pub ingest_event : Inserting → RequestEvent → List EventEntity → List EventEntity
ingest_event answer event rows = ingest_event_batch answer (event ∷ []) rows

unfoldable pub is_empty : List RequestEvent → Bool
is_empty [] = true
is_empty (event ∷ events) = false

unfoldable pub begin_flush : Consumer → Consumer
begin_flush s =
    if is_empty s.batch || s.is_processing
    then s
    else record s { is_processing = true; in_flight = s.batch; batch = [] }

unfoldable pub end_flush : Inserting → Consumer → Consumer
end_flush answer s =
    if s.is_processing
    then record s {
      is_processing = false;
      in_flight = [];
      attempts = s.attempts ++ (answer.succeeds, s.in_flight) ∷ [];
      rows = ingest_event_batch answer s.in_flight s.rows;
    }
    else s

unfoldable pub push_event : RequestEvent → Consumer → Consumer
push_event event s =
    let pushed : Consumer = record s { batch = s.batch ++ event ∷ [] } in
    if leb 1000 (length pushed.batch) then begin_flush pushed else pushed

unfoldable pub take_value : (topic : String) → Option (Option RequestEvent) → Consumer → Consumer
take_value topic none s = s
take_value topic (some none) s = s
take_value topic (some (some event)) s =
    if str_eq topic "request.events" then push_event event s else s

unfoldable pub each_message : Message → Consumer → Consumer
each_message message s = take_value message.topic message.value s

-- onModuleDestroy up to its `await`; what follows it is `disconnect`.
unfoldable pub on_module_destroy : Consumer → Consumer
on_module_destroy s = begin_flush s

unfoldable pub disconnect : Consumer → Consumer
disconnect s = record s { connected = false }

-- What happens to the service: a message, a tick of the timer, the answer of the database to the
-- insert under way.
pub data Event : Type 0 where
  message : Message → Event
  tick : Event
  answered : Inserting → Event

unfoldable pub step : Event → Consumer → Consumer
step (message m) s = each_message m s
step tick s = begin_flush s
step (answered answer) s = end_flush answer s

unfoldable pub run : List Event → Consumer → Consumer
run [] s = s
run (event ∷ events) s = run events (step event s)

unfoldable pub started : (rows : List EventEntity) → Consumer
started rows = record {
  batch = [];
  is_processing = false;
  in_flight = [];
  attempts = [];
  rows = rows;
  connected = true;
}
