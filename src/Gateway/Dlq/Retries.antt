-- ===== src/Gateway/Dlq/Retries.antt =====
-- How often and when a message of the DLQ is sent again.
use Prim.Native.String.{◌++◌ as str_append}
use mathlib.Core.List.{append-nil}
use edge_sphere_self_hosted.Prelude.{
  ℕ, zero, suc, ◌+◌, ◌-◌, ◌≤◌, ◌<◌, ◌≡◌, refl, ap, ◌∙◌, min, List, [], ◌∷◌, ◌++◌, Bool, true, false,
  Option, none, some, String, ltb, leb, if◌then◌else◌, or_else, length, length-append, arith,
  Bool-cases, Option-cases, inl, inr,
}
use edge_sphere_self_hosted.Gateway.Dlq.{
  DlqMessage, Dlq, Broker, get_retry_after_ms, dlq_message, publish_to_dlq, wait, give_up, retry,
  each_message, next_message, live,
}

-- What is left of the three retries.
abbrev pub retries_left : Option DlqMessage → ℕ
retries_left none = 0
retries_left (some message) = 3 - message.attempt

wait-resent :
    (message : DlqMessage) (retry_after now : ℕ) (s : Dlq)
    → ((wait message retry_after now s).resent ≡ s.resent)
unfolding wait
wait-resent message retry_after now s =
    elim (Bool-cases (ltb 0 (message.timestamp + retry_after - now))) [
      | inl early ↦ rw early refl
      | inr due ↦ rw due refl
    ]

publish-resent :
    (topic message error : String) (attempt now : ℕ) (sent : Bool) (s : Dlq)
    → (publish_to_dlq topic message error attempt now sent s).resent ≡ s.resent
unfolding publish_to_dlq
publish-resent topic message error attempt now true s = refl
publish-resent topic message error attempt now false s = refl

appended-length : {A : Type 0} (xs : List A) (x : A) → length (xs ++ x ∷ []) ≡ length xs + 1
appended-length xs x = omega (arith, length-append xs (x ∷ []))

retry-resent :
    (message : DlqMessage) (broker : Broker) (s : Dlq)
    → length (retry message broker s).resent ≡ length s.resent + 1
unfolding retry
retry-resent message broker s =
    let sent : String × String = (message.original_topic, message.original_message) in
    elim (Option-cases broker.resend) [
      | inl fine ↦ rw (fine, retry) (appended-length s.resent sent)
      | inr (error, failed) ↦
          let tried : Dlq = record s { resent = s.resent ++ sent ∷ [] } in
          rw (failed, retry)
            (ap length (
                publish-resent message.original_topic message.original_message error
                  (message.attempt + 1) broker.later broker.republished tried)
              ∙ appended-length s.resent sent)
    ]

-- A message is sent again once if it has retries left, and not at all otherwise.
each_message-resent :
    (message : DlqMessage) (broker : Broker) (s : Dlq)
    → length (each_message (some message) broker s).resent
      ≤ length s.resent + (if leb 3 message.attempt then 0 else 1)
unfolding each_message give_up
each_message-resent message broker s = elim (Option-cases message.retry_after) [
  | inl never ↦ rw (never, each_message) (omega arith)
  | inr (retry_after, due) ↦ elim (Bool-cases (leb 3 message.attempt)) [
    | inl over ↦ rw (due, each_message, over) (omega arith)
    | inr left ↦
        let waited = wait message retry_after broker.now s in
        let once = retry-resent message broker waited in
        let same = ap length (wait-resent message retry_after broker.now s) in
        rw (due, each_message, left) (omega arith)
  ]
]

-- What is published again has one retry less.
next_message-retries :
    (message : DlqMessage) (broker : Broker)
    → retries_left (next_message message broker) + (if leb 3 message.attempt then 0 else 1)
      ≤ retries_left (some message)
unfolding next_message dlq_message
next_message-retries message broker = elim (Option-cases broker.resend) [
  | inl fine ↦ rw (fine, next_message) (ground arith)
  | inr (error, failed) ↦ rw (failed, next_message) (ground arith)
]

abbrev as_published : String → Option DlqMessage → List (String × DlqMessage)
as_published topic none = []
as_published topic (some message) = (topic, message) ∷ []

wait-published :
    (message : DlqMessage) (retry_after now : ℕ) (s : Dlq)
    → (wait message retry_after now s).published ≡ s.published
unfolding wait
wait-published message retry_after now s =
    elim (Bool-cases (ltb 0 (message.timestamp + retry_after - now))) [
      | inl early ↦ rw early refl
      | inr due ↦ rw due refl
    ]

-- The life of a message follows what is published: that is the next message, or nothing.
each_message-published :
    (message : DlqMessage) (broker : Broker) (s : Dlq)
    → (each_message (some message) broker s).published
      ≡ s.published
        ++ as_published (str_append message.original_topic ".dlq") (next_message message broker)
unfolding each_message next_message retry publish_to_dlq give_up
each_message-published message broker s = elim (Option-cases message.retry_after) [
  | inl never ↦ elim (Option-cases broker.resend) [
    | inl fine ↦ ground (arith, append-nil s.published)
    | inr (error, failed) ↦ elim (Bool-cases (leb 3 message.attempt)) [
      | inl over ↦ ground (arith, append-nil s.published)
      | inr left ↦ ground (arith, append-nil s.published)
    ]
  ]
  | inr (retry_after, due) ↦
      let kept = wait-published message retry_after broker.now s in
      elim (Option-cases broker.resend) [
        | inl fine ↦ elim (Bool-cases (leb 3 message.attempt)) [
          | inl over ↦ ground (arith, append-nil s.published)
          | inr left ↦ ground (arith, append-nil s.published)
        ]
        | inr (error, failed) ↦ elim (Bool-cases (leb 3 message.attempt)) [
          | inl over ↦ ground (arith, append-nil s.published)
          | inr left ↦ elim (Bool-cases broker.republished) [
            | inl published ↦ ground (arith, append-nil s.published)
            | inr lost ↦ ground (arith, append-nil s.published)
          ]
        ]
      ]
]

-- Whatever Kafka answers, a message that is published with attempt `n`, and what it is published as
-- again, are sent back to the topic at most `3 - n` times.
pub live-le :
    (message : Option DlqMessage) (brokers : List Broker) (s : Dlq)
    → length (live message brokers s).resent ≤ length s.resent + retries_left message
unfolding live
live-le none brokers s = omega arith
live-le (some message) [] s = omega arith
live-le (some message) (broker ∷ brokers) s =
    let rest =
      live-le (next_message message broker) brokers (each_message (some message) broker s) in
    let once = each_message-resent message broker s in
    let fewer = next_message-retries message broker in omega arith

wait-capped :
    (message : DlqMessage) (retry_after now : ℕ) (s : Dlq)
    → 10000 ≤ retry_after
    → now ≡ message.timestamp
    → (wait message retry_after now s).slept ≡ s.slept ++ 10000 ∷ []
unfolding wait
wait-capped message retry_after now s long same =
    let capped : min (message.timestamp + retry_after - now) 10000 ≡ 10000 = omega arith in
    elim (Bool-cases (ltb 0 (message.timestamp + retry_after - now))) [
      | inl early ↦ rw early (ap (λ n. s.slept ++ n ∷ []) capped)
      | inr due ↦ absurd (ground arith)
    ]

publish-slept :
    (topic message error : String) (attempt now : ℕ) (sent : Bool) (s : Dlq)
    → (publish_to_dlq topic message error attempt now sent s).slept ≡ s.slept
unfolding publish_to_dlq
publish-slept topic message error attempt now true s = refl
publish-slept topic message error attempt now false s = refl

retry-slept :
    (message : DlqMessage) (broker : Broker) (s : Dlq) → (retry message broker s).slept ≡ s.slept
unfolding retry
retry-slept message broker s = elim (Option-cases broker.resend) [
  | inl fine ↦ rw (fine, retry) refl
  | inr (error, failed) ↦
      let tried : Dlq = record s {
        resent = s.resent ++ (message.original_topic, message.original_message) ∷ [];
      } in
      rw (failed, retry)
        (publish-slept message.original_topic message.original_message error (message.attempt + 1)
          broker.later broker.republished tried)
]

each_message-due :
    (message : DlqMessage) (retry_after : ℕ) (broker : Broker) (s : Dlq)
    → message.retry_after ≡ some retry_after
    → message.attempt < 3
    → each_message (some message) broker s
      ≡ retry message broker (wait message retry_after broker.now s)
unfolding each_message
each_message-due message retry_after broker s due few =
    let left : leb 3 message.attempt ≡ false = ground arith in simp (due, left) refl

fresh_delay :
    (topic message error : String) (attempt now : ℕ)
    → attempt < 3
    → (retry_after : ℕ) × ((dlq_message topic message error attempt now).retry_after
        ≡ some retry_after)
      × (30000 ≤ retry_after)
unfolding dlq_message get_retry_after_ms
fresh_delay topic message error zero now few = (30000, refl, omega arith)
fresh_delay topic message error (suc zero) now few = (300000, refl, omega arith)
fresh_delay topic message error (suc (suc zero)) now few = (1800000, refl, omega arith)
fresh_delay topic message error (suc (suc (suc n))) now few = absurd (omega arith)

-- A message that Kafka delivers at the time that it was published, with a retry left, waits 10
-- seconds before it is sent again, though its delay is half a minute at least.
pub each_message_early :
    (topic message error : String) (attempt now : ℕ) (broker : Broker) (s : Dlq)
    → attempt < 3
    → broker.now ≡ now
    → let waiting = dlq_message topic message error attempt now in
      let outcome = each_message (some waiting) broker s in
      (30000 ≤ or_else waiting.retry_after 0)
      × (outcome.slept ≡ s.slept ++ 10000 ∷ [])
      × (length outcome.resent ≡ length s.resent + 1)
unfolding dlq_message
each_message_early topic message error attempt now broker s few same =
    let waiting = dlq_message topic message error attempt now in
    let (retry_after, due, long) = fresh_delay topic message error attempt now few in
    let waited = wait waiting retry_after broker.now s in
    let sent_once = retry-resent waiting broker waited in
    rw (each_message-due waiting retry_after broker s due few) (
      rw due long,
      retry-slept waiting broker waited
          ∙ wait-capped waiting retry_after broker.now s (omega arith) same,
      sent_once ∙ ap (λ xs. length xs + 1) (wait-resent waiting retry_after broker.now s),
    )
