-- ===== src/Gateway/Dlq/Tests.antt =====
-- A run of one message through the DLQ.
use edge_sphere_self_hosted.Prelude.{ℕ, ◌≡◌, refl, List, [], ◌∷◌, some, length, true}
use edge_sphere_self_hosted.Gateway.Dlq.{
  DlqMessage, Dlq, Broker, dlq_message, each_message, live, next_message, retry, wait, give_up,
  publish_to_dlq, get_retry_after_ms,
}

abbrev nothing_yet : Dlq
nothing_yet = record {
  resent = [];
  published = [];
  slept = [];
  retry_successes = 0;
  permanent_failures = 0;
}

abbrev down : ℕ → Broker
down now = record { now = now; resend = some "down"; later = now; republished = true }

abbrev message : DlqMessage
message = dlq_message "uploads" "m" "down" 0 100

abbrev all_down : List Broker
all_down = down 100 ∷ down 20000 ∷ down 40000 ∷ down 60000 ∷ down 80000 ∷ []

three_times :
    (length (live (some message) all_down nothing_yet).resent ≡ 3)
    × ((live (some message) all_down nothing_yet).permanent_failures ≡ 1)
unfolding live each_message next_message retry wait give_up publish_to_dlq dlq_message
    get_retry_after_ms
three_times = (refl, refl)
