-- ===== src/Gateway/Access/Tests.antt =====
-- A request with a good token, and one without.
use edge_sphere_self_hosted.Prelude.{◌≡◌, refl, true, none, some, String}
use edge_sphere_self_hosted.Redis.{Redis}
use edge_sphere_self_hosted.Redis.Memory.{memory, empty}
use edge_sphere_self_hosted.Gateway.RateLimit.{
  ran, sliding_window, window_commands, window_key, ceil_div,
}
use edge_sphere_self_hosted.Gateway.Access.{
  Request, Caller, RateHeaders, unauthorized, next, Outside, first_given, rate_headers, on_verdict,
  bearer_token, limited, use_token, use_middleware,
}
use edge_sphere_self_hosted.Gateway.Access.Admission.{IsAllowed, IsAuthentic, use_middleware-admits}

abbrev request : Request
request = record { method = "GET"; api_key = none; authorization = some "Bearer t1" }

abbrev ann : Caller
ann = record { sub = some "ann"; id = none }

abbrev out : Outside (Redis.Db (memory String))
out = record {
  validate_key = λ k. none;
  verify = λ token secret. some ann;
  signed = true;
  jwt_secret = some "s";
  limit = 100;
  exec = some ran;
  now = 5000;
  later = 5001;
  request_id = "r1";
}

abbrev headers : RateHeaders
headers = record { limit = 100; remaining = 99; reset = 65 }

passed : (use_middleware (memory String) request out empty).1 ≡ next (some ann) (some headers)
unfolding use_middleware bearer_token use_token limited on_verdict rate_headers sliding_window
    window_commands window_key first_given ceil_div
passed = refl

use_middleware-admits_example :
    (user_id : String) × IsAuthentic (memory String) request out ann user_id
    × IsAllowed (memory String) user_id out empty
use_middleware-admits_example =
    use_middleware-admits (memory String) request out empty ann (some headers) passed

refused :
    (use_middleware
      (memory String)
      (record request { authorization = some "Basic t1" })
      out
      empty).1
    ≡ unauthorized
unfolding use_middleware bearer_token
refused = refl
