-- ===== src/Gateway/RateLimit/Tests.antt =====
-- Runs of the two limiters on concrete calls.
use edge_sphere_self_hosted.Prelude.{String, ◌+◌, ◌-◌, ◌*◌, ◌≤◌, ◌≡◌, refl, [], ◌∷◌, false, arith}
use edge_sphere_self_hosted.Redis.{Redis}
use edge_sphere_self_hosted.Redis.Memory.{memory, empty}
use edge_sphere_self_hosted.Gateway.RateLimit.{
  ran, bucket_key, sliding_window, token_bucket, take_token, refilled, write_bucket,
}
use edge_sphere_self_hosted.Gateway.RateLimit.Window
use edge_sphere_self_hosted.Gateway.RateLimit.Bucket

abbrev one_call : Redis.Db (memory String)
one_call = (sliding_window (memory String) "ann" 1 1000 5000 "a" ran empty).db

abbrev one_call_History :
    Window.History (memory String) "ann" 1 1000 (("a", 5000) ∷ []) 5000 one_call
one_call_History = Window.call "a" 5000 (Window.start empty refl) (omega arith) refl

sliding_window-counts_example :
    ((sliding_window (memory String) "ann" 1 1000 5400 "b" ran one_call).verdict.allowed ≡ false)
    × ((sliding_window (memory String) "ann" 1 1000 5400 "b" ran one_call).verdict.remaining ≡ 0)
    × ((sliding_window (memory String) "ann" 1 1000 5400 "b" ran one_call).hits
        ≡ "sliding_window" ∷ [])
sliding_window-counts_example =
    Window.sliding_window-counts (memory String) "ann" 1 1000 one_call_History 5400 (omega arith)
      "b" refl

abbrev one_token : Redis.Db (memory String)
one_token = (token_bucket (memory String) "ann" 3 1 5000 empty).db

one_token_History : Bucket.History (memory String) "ann" 3 1 5000 1 5000 one_token
unfolding token_bucket take_token refilled
one_token_History = Bucket.call 5000 (Bucket.start empty refl) (omega arith)

token_bucket-bound_example :
    let outcome = token_bucket (memory String) "ann" 3 1 5500 one_token in
    (1000 * (Bucket.admitted outcome.verdict.allowed + 1) + 1000 * outcome.verdict.remaining
      ≤ 1000 * 3 + 1 * (5500 - 5000))
    × (outcome.verdict.remaining ≤ 3)
token_bucket-bound_example =
    Bucket.token_bucket-bound (memory String) "ann" 3 1 (omega arith) one_token_History 5500
      (omega arith)

one_token_lem : one_token.hashes ≡ ("ratelimit:tb:ann", (2000, 5000)) ∷ []
unfolding token_bucket take_token refilled write_bucket bucket_key
one_token_lem = refl
