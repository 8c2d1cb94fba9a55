-- ===== src/Gateway/RateLimit.antt =====
-- rate-limit/rate-limit.service.ts: the token bucket and the sliding window over Redis.
-- Times are in milliseconds. Tokens are counted in thousandths: a rate of `rate` tokens per second
-- adds `rate` thousandths each millisecond. The clock does not go back between two calls for one
-- identifier, and rates are positive.
pub mod Window
pub mod Bucket
mod Tests
use Prim.Native.String.{◌++◌ as str_append}
use edge_sphere_self_hosted.Prelude.{
  ℕ, ◌+◌, ◌-◌, ◌*◌, ◌/◌, min, List, [], ◌∷◌, Bool, true, false, Option, none, some, String, ltb,
  leb, if◌then◌else◌, length,
}
use edge_sphere_self_hosted.Redis.{Redis}

pub record Verdict : Type 0 where
  pub allowed : Bool
  pub remaining : ℕ
  pub reset_at : ℕ

-- What a call leaves: the database, the labels of the recorded hits, and the answer.
pub record Outcome (Db : Type 0) : Type 0 where
  pub db : Db
  pub hits : List String
  pub verdict : Verdict

-- `Math.ceil(a / b)` for a positive `b`.
unfoldable pub ceil_div : ℕ → ℕ → ℕ
ceil_div a b = (a + (b - 1)) / b

-- How `pipeline.exec()` ends: each command ran, or the count has no reply or an error for one, and
-- the commands may have changed the database or not.
pub data Exec (Db : Type 0) : Type 0 where
  ran : Exec Db
  uncounted : Db → Exec Db

-- `Math.min(capacity, tokens + deltaSec * refillRatePerSec)`, or a full bucket.
unfoldable pub refilled : (capacity rate now : ℕ) → Option (ℕ × ℕ) → ℕ
refilled capacity rate now none = 1000 * capacity
refilled capacity rate now (some (tokens, last_refill)) =
    min (1000 * capacity) (tokens + (now - last_refill) * rate)

-- `now + 1000 * Math.ceil((1 - tokens) / refillRatePerSec)`: a bucket with more than one token
-- gives a time in the past.
unfoldable pub bucket_reset : (rate now tokens : ℕ) → ℕ
bucket_reset rate now tokens =
    if leb tokens 1000
    then now + 1000 * ceil_div (1000 - tokens) (1000 * rate)
    else now - 1000 * ((tokens - 1000) / (1000 * rate))

-- What tokenBucket decides from the hash that it read, and the hash that it then writes.
unfoldable pub take_token : (capacity rate now : ℕ) → Option (ℕ × ℕ) → Bool × (ℕ × ℕ)
take_token capacity rate now stored =
    let tokens = refilled capacity rate now stored in
    if leb 1000 tokens then (true, (tokens - 1000, now)) else (false, (tokens, now))

unfoldable pub window_key : String → String
window_key identifier = str_append "ratelimit:sw:" identifier

unfoldable pub bucket_key : String → String
bucket_key identifier = str_append "ratelimit:tb:" identifier

module _ {V : Type 0} (R : Redis V) where
  open R use {Db, hmget, hmset, zrange, zadd, zremrangebyscore, expire}

  -- The three commands of the pipeline that write. Redis takes a range whose end is below 0 for
  -- empty.
  unfoldable pub window_commands :
      (key : String) (window_ms now : ℕ) (request_id : String) → Db → Db
  window_commands key window_ms now request_id db =
      let added = zadd key now request_id db in
      let purged =
        if leb window_ms now then zremrangebyscore key (now - window_ms) added else added in
      expire key (ceil_div window_ms 1000) purged

  unfoldable pub sliding_window :
      (identifier : String) (limit window_ms now : ℕ) (request_id : String)
      → Exec Db
      → Db
      → Outcome Db
  sliding_window identifier limit window_ms now request_id ran db =
      let after = window_commands (window_key identifier) window_ms now request_id db in
      let count = length (zrange (window_key identifier) after) in
      let exceeded = ltb limit count in
      record {
        db = after;
        hits = if exceeded then "sliding_window" ∷ [] else [];
        verdict = record {
          allowed = if exceeded then false else true;
          remaining = limit - count;
          reset_at = now + window_ms;
        };
      }
  sliding_window identifier limit window_ms now request_id (uncounted after) db = record {
    db = after;
    hits = [];
    verdict = record { allowed = true; remaining = limit; reset_at = now + window_ms };
  }

  unfoldable pub write_bucket : (key : String) → ℕ × ℕ → Db → Db
  write_bucket key fields db = expire key 60 (hmset key fields db)

  unfoldable pub token_bucket : (identifier : String) (capacity rate now : ℕ) → Db → Outcome Db
  token_bucket identifier capacity rate now db =
      let (allowed, fields) = take_token capacity rate now (hmget (bucket_key identifier) db) in
      record {
        db = write_bucket (bucket_key identifier) fields db;
        hits = if allowed then [] else "token_bucket" ∷ [];
        verdict = record {
          allowed = allowed;
          remaining = fields.0 / 1000;
          reset_at = bucket_reset rate now fields.0;
        };
      }

  -- Two calls for one identifier whose reads both come before their writes, as the `await`s allow.
  unfoldable pub racing_calls :
      (identifier : String) (capacity rate now later : ℕ) → Db → Bool × Bool × Db
  racing_calls identifier capacity rate now later db =
      let key = bucket_key identifier in
      let (first_allowed, first_fields) = take_token capacity rate now (hmget key db) in
      let (second_allowed, second_fields) = take_token capacity rate later (hmget key db) in
      (
        first_allowed,
        second_allowed,
        write_bucket key second_fields (write_bucket key first_fields db),
      )
