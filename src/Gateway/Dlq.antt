-- ===== src/Gateway/Dlq.antt =====
-- events/dlq.service.ts: messages that could not be delivered, and their retries.
-- Kafka answers through arguments. A text that is no JSON of a message is `none`. `retry_after` is
-- `none` for the code's -1. Sleeping is recorded with its length.
pub mod Retries
mod Tests
use Prim.Native.String.{◌++◌ as str_append}
use edge_sphere_self_hosted.Prelude.{
  ℕ, zero, suc, ◌+◌, ◌-◌, ◌*◌, min, List, [], ◌∷◌, ◌++◌, Bool, true, false, not, ◌||◌, Option, none,
  some, String, ltb, leb, ◌==◌, if◌then◌else◌, is_some,
}

pub record DlqMessage : Type 0 where
  pub original_topic : String
  pub original_message : String
  pub error : String
  pub attempt : ℕ
  pub timestamp : ℕ
  pub retry_after : Option ℕ

-- What the service did: messages sent back to their topics, messages that reached a DLQ topic,
-- sleeps, and the counters of successes and of permanent failures.
pub record Dlq : Type 0 where
  pub resent : List (String × String)
  pub published : List (String × DlqMessage)
  pub slept : List ℕ
  pub retry_successes : ℕ
  pub permanent_failures : ℕ

unfoldable pub get_retry_after_ms : (attempt : ℕ) → Option ℕ
get_retry_after_ms attempt =
    if attempt == 0
    then some 30000
    else if attempt == 1
    then some 300000
    else if attempt == 2
    then some 1800000
    else none

unfoldable pub dlq_message : (topic message error : String) (attempt now : ℕ) → DlqMessage
dlq_message topic message error attempt now = record {
  original_topic = topic;
  original_message = message;
  error = error;
  attempt = attempt;
  timestamp = now;
  retry_after = get_retry_after_ms attempt;
}

-- A failure to publish is logged only: the message is lost.
unfoldable pub publish_to_dlq :
    (topic message error : String) (attempt now : ℕ) (sent : Bool) → Dlq → Dlq
publish_to_dlq topic message error attempt now sent s =
    if sent
    then record s {
      published =
          s.published
          ++ (str_append topic ".dlq", dlq_message topic message error attempt now) ∷ [];
    }
    else s

-- What Kafka answers to one message: `resend` is the error of the producer, if there is one.
pub record Broker : Type 0 where
  pub now : ℕ
  pub resend : Option String
  pub later : ℕ
  pub republished : Bool

-- The wait, at most 10 seconds.
unfoldable pub wait : (message : DlqMessage) (retry_after now : ℕ) → Dlq → Dlq
wait message retry_after now s =
    let wait_time = message.timestamp + retry_after - now in
    if ltb 0 wait_time then record s { slept = s.slept ++ min wait_time 10000 ∷ [] } else s

unfoldable pub give_up : Dlq → Dlq
give_up s = record s { permanent_failures = s.permanent_failures + 1 }

unfoldable pub retry : DlqMessage → Broker → Dlq → Dlq
retry message broker s =
    let tried : Dlq = record s {
      resent = s.resent ++ (message.original_topic, message.original_message) ∷ [];
    } in
    elim broker.resend [
      | none ↦ record tried { retry_successes = s.retry_successes + 1 }
      | some error ↦
          publish_to_dlq message.original_topic message.original_message error (message.attempt + 1)
            broker.later broker.republished tried
    ]

unfoldable pub each_message : Option DlqMessage → Broker → Dlq → Dlq
each_message none broker s = s
each_message (some message) broker s = elim message.retry_after [
  | none ↦ give_up s
  | some retry_after ↦
      let retried = retry message broker (wait message retry_after broker.now s) in
      if leb 3 message.attempt then give_up s else retried
]

-- The life of a message in the DLQ: Kafka's answers to it and to what it is published as again.
unfoldable pub next_message : DlqMessage → Broker → Option DlqMessage
next_message message broker = elim broker.resend [
  | none ↦ none
  | some error ↦
      if (leb 3 message.attempt || not (is_some message.retry_after)) || not broker.republished
      then none
      else some (
          dlq_message message.original_topic message.original_message error (message.attempt + 1)
            broker.later)
]

unfoldable pub live : Option DlqMessage → List Broker → Dlq → Dlq
live none brokers s = s
live (some message) [] s = s
live (some message) (broker ∷ brokers) s =
    live (next_message message broker) brokers (each_message (some message) broker s)
