-- ===== src/Notification/Dispatch.antt =====
-- notifications/notifications.service.ts: dispatch and the senders, and the history of
-- notifications; kafka/kafka-consumer.service.ts: the messages that it dispatches.
-- SMTP and HTTP answer through `respond`, which may answer each request of a dispatch otherwise;
-- `none` is success and `some m` an error with that message. Texts are kept as their parts.
pub mod Laws
pub mod Samples
mod Tests
use edge_sphere_self_hosted.Prelude.{
  ℕ, zero, suc, ◌+◌, List, [], ◌∷◌, ◌++◌, Bool, true, false, ◌||◌, Option, none, some, String, ltb,
  if◌then◌else◌, or_else, length, pop, str_eq,
}
use edge_sphere_self_hosted.Prelude.Ratios.{Ratio, whole}

-- The environment's settings, `undefined` where they are not set.
pub record Settings : Type 0 where
  pub alert_email_to : Option String
  pub webhook_url : Option String
  pub slack_webhook_url : Option String

-- `a || d` on a text: the empty text is falsy too.
unfoldable pub text_or : Option String → String → String
text_or none d = d
text_or (some t) d = if str_eq t "" then d else t

pub text_or_text : Option String → Option String → Option String
text_or_text none b = b
text_or_text (some t) b = if str_eq t "" then b else some t

-- The fields of an alert that dispatch reads; events from Kafka may lack any of them.
pub record Alert : Type 0 where
  pub id : Option String
  pub rule_name : Option String
  pub name : Option String
  pub condition : Option String
  pub message : Option String
  pub threshold : Option Ratio
  pub current_value : Option Ratio
  pub timestamp : Option ℕ

pub data Outgoing : Type 0 where
  email : (to : String) (title : Option String) (alert : Alert) → Outgoing
  webhook : (url : String) (title : Option String) (stamp : ℕ) (alert : Alert) → Outgoing
  slack : (url : String) (title : Option String) (alert : Alert) → Outgoing

pub data Status : Type 0 where
  success failed : Status

pub record NotificationRecord : Type 0 where
  pub id : String
  pub alert_id : String
  pub channels : List String
  pub status : Status
  pub timestamp : ℕ
  pub error : Option String

-- The service's history, newest first, the requests that it made, and its two counters as the
-- labels of their increments; all three oldest first.
pub record Notifications : Type 0 where
  pub history : List NotificationRecord
  pub requests : List Outgoing
  pub sent_total : List String
  pub failed_total : List String

pub init : Notifications
init = record { history = []; requests = []; sent_total = []; failed_total = [] }

-- What the world gives to one dispatch: the settings, the random id, the time of the record and of
-- a webhook payload, and the answers to the requests by their place in the loop.
pub record Outside : Type 0 where
  pub settings : Settings
  pub record_id : String
  pub stamp : ℕ
  pub respond : ℕ → Outgoing → Option String

module _ (out : Outside) (alert : Alert) where
  title : Option String
  unfolding text_or_text
  title = text_or_text alert.rule_name alert.name

  -- The request of a channel; a slack channel with no address and an unknown channel make none.
  pub request_of : String → Option Outgoing
  unfolding title text_or
  request_of channel =
      if str_eq channel "email"
      then some (email (text_or out.settings.alert_email_to "admin@edgesphere.local") title alert)
      else if str_eq channel "webhook"
      then some (
          webhook (text_or out.settings.webhook_url "http://localhost:3100/api/webhooks/alerts")
            title (or_else alert.timestamp out.stamp) alert)
      else if str_eq channel "slack"
      then slack_request (text_or out.settings.slack_webhook_url "")
      else none
    where
      slack_request : String → Option Outgoing
      slack_request url = if str_eq url "" then none else some (slack url title alert)

  -- One round of the loop over the channels: the request, then `sent` or, where it throws,
  -- `failed` and the record's status and error.
  answer_of : ℕ → Option Outgoing → Option String
  answer_of k none = none
  answer_of k (some r) = out.respond k r

  abbrev log_request : Option Outgoing → Notifications → Notifications
  log_request none n = n
  log_request (some r) n = record n { requests = n.requests ++ r ∷ [] }

  abbrev settle :
      Option String
      → String
      → NotificationRecord × Notifications
      → NotificationRecord × Notifications
  settle none channel (rec, n) = (rec, record n { sent_total = n.sent_total ++ channel ∷ [] })
  settle (some message) channel (rec, n) = (
    record rec { status = failed; error = some message },
    record n { failed_total = n.failed_total ++ channel ∷ [] },
  )

  pub send_channel :
      ℕ → String → NotificationRecord × Notifications → NotificationRecord × Notifications
  unfolding answer_of
  send_channel k channel (rec, n) =
      settle (answer_of k (request_of channel)) channel (rec, log_request (request_of channel) n)

  pub send_channels :
      ℕ → List String → NotificationRecord × Notifications → NotificationRecord × Notifications
  send_channels k [] s = s
  send_channels k (channel ∷ rest) s = send_channels (suc k) rest (send_channel k channel s)

  pub fresh_record : List String → NotificationRecord
  unfolding text_or
  fresh_record channels = record {
    id = out.record_id;
    alert_id = text_or alert.id "unknown";
    channels = channels;
    status = success;
    timestamp = out.stamp;
    error = none;
  }

  -- The `finally` part: `unshift` the record, and `pop` where there are more than 100.
  pub file_record : NotificationRecord × Notifications → Notifications
  file_record (rec, n) =
      let longer = rec ∷ n.history in
      record n { history = if ltb 100 (length longer) then pop longer else longer }

  unfoldable pub dispatch : List String → Notifications → Notifications
  dispatch channels n = file_record (send_channels 0 channels (fresh_record channels, n))

-- A message of the consumer: its topic, and the event with its own channels, if it has some. Only
-- the two subscribed topics arrive; the code tests them again.
pub record KafkaEvent : Type 0 where
  pub topic : String
  pub alert : Alert
  pub channels : Option (List String)

unfoldable pub on_message : Outside → Option KafkaEvent → Notifications → Notifications
on_message out none n = n
on_message out (some e) n =
    if str_eq e.topic "alerts.triggered" || str_eq e.topic "system.events"
    then dispatch out e.alert (or_else e.channels ("email" ∷ "webhook" ∷ [])) n
    else n
