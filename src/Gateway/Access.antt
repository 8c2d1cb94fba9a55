-- ===== src/Gateway/Access.antt =====
-- middleware/auth.middleware.ts: who may pass the gateway. The answer of the auth service, the check
-- of a token and Redis are arguments; the limiter is the sliding window. A check takes less than the
-- window, so that Retry-After is not negative.
pub mod Admission
mod Tests
use Prim.Native.String.{◌++◌ as str_append}
use edge_sphere_self_hosted.Prelude.{
  ℕ, ◌+◌, ◌-◌, ◌/◌, List, [], ◌∷◌, Bool, true, false, not, ◌||◌, Option, none, some, String, str_eq,
  if◌then◌else◌, or_else,
}
use edge_sphere_self_hosted.Prelude.Texts.{starts_with, split}
use edge_sphere_self_hosted.Redis.{Redis}
use edge_sphere_self_hosted.Gateway.RateLimit.{Verdict, Outcome, Exec, ceil_div, sliding_window}

pub record Request : Type 0 where
  pub method : String
  pub api_key : Option String
  pub authorization : Option String

pub record Caller : Type 0 where
  pub sub : Option String
  pub id : Option String

-- The headers X-RateLimit-Limit, -Remaining and -Reset.
pub record RateHeaders : Type 0 where
  pub limit : ℕ
  pub remaining : ℕ
  pub reset : ℕ

pub data Answer : Type 0 where
  unauthorized server_error : Answer
  too_many : RateHeaders → (retry_after : ℕ) → Answer
  next : Option Caller → Option RateHeaders → Answer

-- What the world gives to a request: the answer of the auth service to an API key, the verification
-- of a token with the secret (`none` throws), the setting JWT_SECRET, the configured limit and the
-- way that the pipeline ends (`none` throws), the clock and a random id. `signed` tells whether the
-- internal token can be signed.
pub record Outside (Db : Type 0) : Type 0 where
  pub validate_key : String → Option Caller
  pub verify : (token secret : String) → Option Caller
  pub signed : Bool
  pub jwt_secret : Option String
  pub limit : ℕ
  pub exec : Option (Exec Db)
  pub now : ℕ
  pub later : ℕ
  pub request_id : String

abbrev pub is_given : Option String → Bool
is_given none = false
is_given (some t) = not (str_eq t "")

unfoldable pub first_given : Option String → Option String → String
first_given a b =
    if is_given a then or_else a "" else if is_given b then or_else b "" else "anonymous"

unfoldable pub rate_headers : (limit : ℕ) → Verdict → RateHeaders
rate_headers limit v = record { limit = limit; remaining = v.remaining; reset = v.reset_at / 1000 }

unfoldable pub on_verdict : (limit later : ℕ) → Caller → Verdict → Answer
on_verdict limit later caller v =
    if v.allowed
    then next (some caller) (some (rate_headers limit v))
    else too_many (rate_headers limit v) (ceil_div (v.reset_at - later) 1000)

-- `authHeader.split(' ')[1]` behind the test of its start.
unfoldable pub bearer_token : Option String → Option String
bearer_token none = none
bearer_token (some header) =
    if starts_with "Bearer " header
    then elim (split " " header) [
      | [] ↦ some ""
      | ◌∷◌ scheme rest ↦ elim rest [ [] ↦ some "" | ◌∷◌ token more ↦ some token ]
    ]
    else none

module _ {V : Type 0} (R : Redis V) where
  open R use {Db}

  -- The limiter's part: an exception of Redis is caught, and answered as an invalid token.
  unfoldable pub limited : (user_id : String) → Caller → Outside Db → Db → Db × Answer
  limited user_id caller out db = elim out.exec [
    | none ↦ (db, unauthorized)
    | some exec ↦
        let outcome = sliding_window R user_id out.limit 60000 out.now out.request_id exec db in
        (outcome.db, on_verdict out.limit out.later caller outcome.verdict)
  ]

  unfoldable pub use_api_key : (api_key : String) → Outside Db → Db → Db × Answer
  use_api_key api_key out db = elim (out.validate_key api_key) [
    | none ↦ (db, unauthorized)
    | some caller ↦
        if not (is_given out.jwt_secret) || out.signed
        then limited (or_else caller.sub "undefined") caller out db
        else (db, unauthorized)
  ]

  unfoldable pub use_token : (token : String) → Outside Db → Db → Db × Answer
  use_token token out db =
      if is_given out.jwt_secret
      then elim (out.verify token (or_else out.jwt_secret "")) [
        | none ↦ (db, unauthorized)
        | some caller ↦ limited (first_given caller.sub caller.id) caller out db
      ]
      else (db, server_error)

  unfoldable pub use_middleware : Request → Outside Db → Db → Db × Answer
  use_middleware req out db =
      if str_eq req.method "OPTIONS"
      then (db, next none none)
      else if is_given req.api_key
      then use_api_key (or_else req.api_key "") out db
      else elim (bearer_token req.authorization) [
        | none ↦ (db, unauthorized)
        | some token ↦ use_token token out db
      ]
