-- ===== src/Gateway/Logging/Publishing.antt =====
-- Which finished requests are told, and under which service.
use Prim.Native.String.{String, ◌++◌ as str_append, ◌∷◌ as char_cons}
use text.Mathlib.TextLemmas.{cons-append, nil-append}
use edge_sphere_self_hosted.Prelude.{
  ℕ, ◌+◌, ◌-◌, ◌≡◌, refl, inl, inr, [], ◌∷◌, ◌++◌, Bool, true, false, Option, none, some, str_eq,
  if◌then◌else◌, length, length-append, arith, Bool-cases,
}
use edge_sphere_self_hosted.Prelude.Texts.{setting_or, has_char, split-append}
use edge_sphere_self_hosted.Gateway.Dlq.{Dlq, dlq_message, publish_to_dlq}
use edge_sphere_self_hosted.Gateway.Logging.{
  Request, Finished, EventData, Log, Outside, should_skip, service_of, service_part,
  part_or_gateway, after_first, event_data, publish_request_event, on_finish,
}

abbrev pub told : Log → ℕ
told log = length log.sent + length log.dlq.published

abbrev pub is_taken : Outside → Option String → Bool
is_taken out none = true
is_taken out (some message) = out.dlq_takes

published-length :
    (topic message error : String) (attempt now : ℕ) (sent : Bool) (s : Dlq)
    → length (publish_to_dlq topic message error attempt now sent s).published
      ≡ length s.published + (if sent then 1 else 0)
unfolding publish_to_dlq
published-length topic message error attempt now true s = omega (
  arith,
  length-append s.published
      ((str_append topic ".dlq", dlq_message topic message error attempt now) ∷ []),
)
published-length topic message error attempt now false s = omega arith

module _ (json : EventData → String) where
  publish-told :
      (event : EventData) (out : Outside) (refusal : Option String) (log : Log)
      → told (publish_request_event json event out refusal log)
        ≡ told log + (if is_taken out refusal then 1 else 0)
  unfolding publish_request_event
  publish-told event out none log = omega (arith, length-append log.sent (event ∷ []))
  publish-told event out (some message) log = omega (
    arith,
    published-length "request.events" (json event) (setting_or (some message) "Unknown error") 0
        out.now out.dlq_takes log.dlq,
  )

  publish-counts :
      (event : EventData) (out : Outside) (refusal : Option String) (log : Log)
      → (publish_request_event json event out refusal log).requests ≡ log.requests
  unfolding publish_request_event
  publish-counts event out none log = refl
  publish-counts event out (some message) log = refl

  -- A finished request is counted once whatever its path. When its path is not skipped, exactly one
  -- message tells of it, to the topic of the events or to its dead letter queue, unless Kafka
  -- refuses both; when its path is skipped, none does.
  pub on_finish-tells :
      (req : Request) (res : Finished) (out : Outside) (log : Log)
      → let after = on_finish json req res out log in
        (after.requests
          ≡ log.requests
            ++ (req.method, req.original_url, res.status_code, service_of req.original_url) ∷ [])
        × (told after
            ≡ told log
              + (if should_skip req.original_url
                  then 0
                  else if is_taken out out.refusal
                  then 1
                  else 0))
  unfolding on_finish
  on_finish-tells req res out log =
      let counted : Log = record log {
        requests =
            log.requests
            ++ (req.method, req.original_url, res.status_code, service_of req.original_url) ∷ [];
        latencies = log.latencies ++ (out.now - out.start_time) ∷ [];
      } in
      let event = event_data req res out in
      elim (Bool-cases (should_skip req.original_url)) [
        | inl skipped ↦ rw skipped (refl, omega arith)
        | inr told_of ↦ rw told_of (
          publish-counts event out out.refusal counted,
          publish-told event out out.refusal counted,
        )
      ]

-- The path of a proxied request is counted for the service that the proxy takes it to: the part
-- behind /v1/, when it is not empty and a slash follows.
pub service_of-proxied :
    (service rest : String)
    → has_char "/" service ≡ false
    → str_eq service "" ≡ false
    → service_of (str_append "/v1/" (str_append service (char_cons "/" rest))) ≡ service
unfolding service_of after_first service_part part_or_gateway
service_of-proxied service rest plain given =
    let tail = str_append service (char_cons "/" rest) in
    rw
      (
        cons-append "/" "v1/" tail,
        cons-append "v" "1/" tail,
        cons-append "1" "/" tail,
        cons-append "/" "" tail,
        nil-append tail,
        split-append "/" service rest plain,
        given,
      )
      refl
