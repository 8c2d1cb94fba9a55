-- ===== src/Gateway/Proxy.antt =====
-- proxy/proxy.service.ts and proxy/proxy.controller.ts: how a request is limited and passed on to
-- the service that its path names. http-proxy-middleware is outside: `early_error` is the error that
-- it reports before it returns, and what the service answers later does not come back to the code.
-- The service in the path is no name that every JavaScript object has, such as `constructor`.
pub mod Refusing
mod Tests
use Prim.Native.String.{◌++◌ as str_append}
use edge_sphere_self_hosted.Prelude.Texts.{setting_or}
use edge_sphere_self_hosted.Prelude.{
  ℕ, List, [], ◌∷◌, Bool, true, false, Option, none, some, String, str_eq, if◌then◌else◌,
}
use edge_sphere_self_hosted.Prelude.Maps.{lookup}
use edge_sphere_self_hosted.Redis.{Redis}
use edge_sphere_self_hosted.Gateway.RateLimit.{Exec, Outcome, sliding_window, token_bucket}
use edge_sphere_self_hosted.Gateway.Access.{is_given}
use edge_sphere_self_hosted.Gateway.Breakers.{
  Failure, Executed, resolved, unavailable, rejected, Opossum, execute,
}

-- The arguments of createProxyMiddleware: the target, and the start of a path with its rewriting.
pub record Proxy : Type 0 where
  pub target : String
  pub from : String
  pub onto : String

pub record Urls : Type 0 where
  pub auth : Option String
  pub storage : Option String
  pub analytics : Option String
  pub notifications : Option String
  pub cache : Option String

pub data Answer : Type 0 where
  service_not_found server_error cdn_route : Answer
  too_many : (message : String) → Answer
  service_unavailable : (message : String) (retry_after : String) → Answer
  passed_to_next : Failure → Answer
  proxied : Proxy → Answer

pub record Request : Type 0 where
  pub service : String
  pub ip : Option String
  pub sub : Option String

-- What the world gives to a request: the error that the proxy reports before it returns, how the
-- pipeline of the sliding window ends (`none` throws), the clock at the two limiters, a random id.
pub record Outside (Db : Type 0) : Type 0 where
  pub early_error : Option Failure
  pub exec : Option (Exec Db)
  pub now : ℕ
  pub later : ℕ
  pub request_id : String

unfoldable pub proxy_of : (target name : String) → Proxy
proxy_of target name = record {
  target = target;
  from = str_append "^/v1/" name;
  onto = str_append "/" name;
}

-- The constructor's table of proxies.
unfoldable pub proxies : Urls → List (String × Proxy)
proxies urls =
    ("auth", proxy_of (setting_or urls.auth "http://localhost:3001") "auth")
    ∷ ("storage", proxy_of (setting_or urls.storage "http://localhost:3002") "storage")
    ∷ ("analytics", proxy_of (setting_or urls.analytics "http://localhost:3003") "analytics")
    ∷ (
      "notifications",
      proxy_of (setting_or urls.notifications "http://localhost:3005") "notifications",
    )
    ∷ ("cache", proxy_of (setting_or urls.cache "http://localhost:3004") "cache")
    ∷ []

unfoldable pub service_name : (service : String) → String
service_name service = str_append service "-service"

-- What `handle` answers after `execute`.
unfoldable pub handled : Proxy → Executed → Answer
handled proxy resolved = proxied proxy
handled proxy (unavailable message retry_after) = service_unavailable message "30"
handled proxy (rejected error) = passed_to_next error

module _ (O : Opossum) where
  open O use {Breaker}

  -- The `Bool` tells whether a proxy was called.
  unfoldable pub handle_proxy :
      (service : String) (early_error : Option Failure)
      → Option Proxy
      → List (String × Breaker)
      → List (String × Breaker) × Bool × Answer
  handle_proxy service early_error none breakers = (breakers, false, service_not_found)
  handle_proxy service early_error (some proxy) breakers =
      let done = execute O (service_name service) early_error breakers in
      (done.0, done.1, handled proxy done.2)

  unfoldable pub handle :
      Urls
      → (service : String) (early_error : Option Failure) → List (String × Breaker)
      → List (String × Breaker) × Bool × Answer
  handle urls service early_error breakers =
      if str_eq service "cdn"
      then (breakers, false, cdn_route)
      else handle_proxy service early_error (lookup service (proxies urls)) breakers

  -- The gateway's own state: the database and the breakers.
  abbrev pub Gateway : {V : Type 0} → Redis V → Type 0
  Gateway R = Redis.Db R × List (String × Breaker)

  module _ {V : Type 0} (R : Redis V) where
    open R use {Db}

    unfoldable pub pass_on :
        Urls → Request → Outside Db → Db → List (String × Breaker) → Gateway R × Bool × Answer
    pass_on urls req out db breakers =
        let done = handle urls req.service out.early_error breakers in
        ((db, done.0), done.1, done.2)

    -- The token bucket, which a request without a user skips.
    unfoldable pub limit_user :
        Urls → Request → Outside Db → Db → List (String × Breaker) → Gateway R × Bool × Answer
    limit_user urls req out db breakers =
        if is_given req.sub
        then (let bucket = token_bucket R (setting_or req.sub "") 100 10 out.later db in
            if bucket.verdict.allowed
            then pass_on urls req out bucket.db breakers
            else ((bucket.db, breakers), false, too_many "Too Many Requests (User)"))
        else pass_on urls req out db breakers

    unfoldable pub limit_ip :
        Urls
        → Request
        → Outside Db
        → Option (Exec Db)
        → Db
        → List (String × Breaker)
        → Gateway R × Bool × Answer
    limit_ip urls req out none db breakers = ((db, breakers), false, server_error)
    limit_ip urls req out (some exec) db breakers =
        let window =
          sliding_window R (setting_or req.ip "unknown") 100 60000 out.now out.request_id exec db in
        if window.verdict.allowed
        then limit_user urls req out window.db breakers
        else ((window.db, breakers), false, too_many "Too Many Requests (IP)")

    -- proxyAll. A Redis that throws is answered by the framework.
    unfoldable pub proxy_all : Urls → Request → Outside Db → Gateway R → Gateway R × Bool × Answer
    proxy_all urls req out (db, breakers) = limit_ip urls req out out.exec db breakers

    -- Requests, one after another.
    unfoldable pub run : Urls → List (Request × Outside Db) → Gateway R → Gateway R
    run urls [] gateway = gateway
    run urls ((req, out) ∷ calls) gateway = run urls calls (proxy_all urls req out gateway).0
