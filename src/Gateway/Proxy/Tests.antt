-- ===== src/Gateway/Proxy/Tests.antt =====
-- A gateway with an open breaker, and one that has just started.
use Prim.Native.String.{◌++◌ as str_append}
use edge_sphere_self_hosted.Prelude.{
  ◌≡◌, is_some, refl, ◌∷◌, [], Bool, true, false, Option, none, some, String, List,
}
use edge_sphere_self_hosted.Redis.{Redis}
use edge_sphere_self_hosted.Redis.Memory.{memory, empty}
use edge_sphere_self_hosted.Prelude.Maps.{lookup}
use edge_sphere_self_hosted.Gateway.RateLimit.{
  ran, Exec, sliding_window, window_commands, window_key, ceil_div, token_bucket, take_token,
  refilled, bucket_key, write_bucket,
}
use edge_sphere_self_hosted.Gateway.Breakers.{
  reset_breaker, execute, executed, breaker_for, Failure, Fired, Opossum, Probe, is_degraded, trips,
  degrades, is_down, get_breaker_state, state_or_closed, state_of, checked_services, any_degrades,
  check,
}
use edge_sphere_self_hosted.Gateway.Proxy.{
  handled, Proxy, Urls, Request, Outside, proxied, service_unavailable, proxies, proxy_of,
  service_name, handle, handle_proxy, proxy_all, pass_on, limit_user, limit_ip,
}
use edge_sphere_self_hosted.Gateway.Proxy.Refusing.{
  open_breaker_refuses, proxy_all-called, IsWithin,
}

-- A breaker that opens at its first failure.
abbrev fire_one : Bool → Option Failure → Bool × Fired
fire_one true outcome = (
  true,
  record {
    called = false;
    error =
        some (record { code = some "EOPENBREAKER"; message = "Breaker is open"; open_text = true });
  },
)
fire_one false none = (false, record { called = true; error = none })
fire_one false (some e) = (true, record { called = true; error = some e })

abbrev one_failure : Opossum
one_failure = record {
  Breaker = Bool;
  create = false;
  opened = λ b. b;
  half_open = λ b. false;
  stats = λ b. record { successes = 0; failures = 0; rejects = 0; fallbacks = 0; fires = 0 };
  fire = fire_one;
  close = λ b. false;
  opened-create = refl;
  half_open-create = refl;
  fire_open = fires_open;
  fire_closed = fires_closed;
  opened-fire = opens;
  opened-close = λ b. refl;
  half_open-close = λ b. refl;
}
  where
    fires_open :
        (b : Bool) (outcome : Option Failure)
        → b ≡ true
        → (fire_one b outcome).1 ≡ (record {
          called = false;
          error = some (record {
            code = some "EOPENBREAKER";
            message = "Breaker is open";
            open_text = true;
          });
        })
    fires_open true outcome e = refl
    fires_open false outcome e = cc

    fires_closed :
        (b : Bool) (outcome : Option Failure)
        → b ≡ false
        → false ≡ false
        → (fire_one b outcome).1 ≡ (record { called = true; error = outcome })
    fires_closed true outcome e h = cc
    fires_closed false none e h = refl
    fires_closed false (some f) e h = refl

    opens : (b : Bool) → b ≡ false → false ≡ false → ((fire_one b none).0 ≡ false) × (false ≡ false)
    opens true e h = cc
    opens false e h = (refl, refl)

abbrev urls : Urls
urls = record {
  auth = none;
  storage = some "http://storage";
  analytics = none;
  notifications = none;
  cache = none;
}

abbrev storage_proxy : Proxy
storage_proxy = record { target = "http://storage"; from = "^/v1/storage"; onto = "/storage" }

storage_known : lookup "storage" (proxies urls) ≡ some storage_proxy
unfolding proxies proxy_of
storage_known = refl

storage_open : lookup (service_name "storage") (("storage-service", true) ∷ []) ≡ some true
unfolding service_name
storage_open = refl

abbrev broken : List (String × Bool)
broken = ("storage-service", true) ∷ []

open_breaker_refuses_example :
    ((handle one_failure urls "storage" none broken).1 ≡ false)
    × ((handle one_failure urls "storage" none broken).2
        ≡ service_unavailable
            (str_append "Service " (str_append (service_name "storage") " is unavailable"))
            "30")
    × ((handle one_failure urls "storage" none
          (reset_breaker one_failure
            (service_name "storage")
            (handle one_failure urls "storage" none broken).0).0).1
        ≡ true)
    × ((handle one_failure urls "storage" none
          (reset_breaker one_failure
            (service_name "storage")
            (handle one_failure urls "storage" none broken).0).0).2
        ≡ proxied storage_proxy)
open_breaker_refuses_example =
    open_breaker_refuses one_failure urls "storage" none broken true storage_proxy refl
      storage_known storage_open refl

abbrev request : Request
request = record { service = "storage"; ip = some "10.0.0.1"; sub = some "ann" }

abbrev out : Outside (Redis.Db (memory String))
out = record { early_error = none; exec = some ran; now = 5000; later = 5001; request_id = "r1" }

called : (proxy_all one_failure (memory String) urls request out (empty, [])).1 ≡ true
unfolding proxy_all limit_ip limit_user pass_on handle handle_proxy execute executed breaker_for
    proxies proxy_of sliding_window window_commands window_key ceil_div token_bucket take_token
    refilled bucket_key write_bucket handled service_name
called = refl

proxy_all-called_example :
    (is_some (lookup "storage" (proxies urls)) ≡ true)
    × ((ended : Exec (Redis.Db (memory String))) × (some ran ≡ some ended)
        × IsWithin one_failure (memory String) urls request out ended empty)
proxy_all-called_example =
    proxy_all-called one_failure (memory String) urls request out (empty, []) called

answers : String → Probe
answers service = record { ok = some true; latency = 4 }

degraded : (check one_failure answers 0 9000 broken).status ≡ is_degraded
unfolding check any_degrades degrades is_down trips get_breaker_state state_or_closed state_of
    checked_services answers
degraded = refl
