-- ===== src/Gateway/Proxy/Refusing.antt =====
-- Requests that do not pass: an open breaker, and the two limiters.
use Prim.Native.String.{◌++◌ as str_append}
use edge_sphere_self_hosted.Prelude.Texts.{setting_or}
use edge_sphere_self_hosted.Prelude.{
  ◌≡◌, refl, ap, inl, inr, List, true, false, Option, none, some, String, str_eq, arith, eq_refl,
  Bool-cases, is_some,
}
use edge_sphere_self_hosted.Prelude.Maps.{lookup, insert, lookup-insert}
use edge_sphere_self_hosted.Redis.{Redis}
use edge_sphere_self_hosted.Gateway.RateLimit.{Exec, sliding_window, token_bucket}
use edge_sphere_self_hosted.Gateway.Access.{is_given}
use edge_sphere_self_hosted.Gateway.Breakers.{
  Failure, Opossum, Executed, execute, executed, breaker_for, is_open_error, has_open_code,
  reset_breaker, close_found,
}
use edge_sphere_self_hosted.Gateway.Proxy.{
  Proxy, Urls, Request, Outside, proxied, service_unavailable, handled, proxies, service_name,
  handle_proxy, handle, Gateway, pass_on, limit_user, limit_ip, proxy_all,
}

module _ (O : Opossum) where
  open O use {Breaker}

  abbrev pub open_error : Failure
  open_error = record { code = some "EOPENBREAKER"; message = "Breaker is open"; open_text = true }

  executed_open :
      (service : String)
      → executed service (some open_error)
        ≡ Executed.unavailable (str_append "Service " (str_append service " is unavailable")) 30
  unfolding executed is_open_error has_open_code
  executed_open service = refl

  executed_resolved : (service : String) → executed service none ≡ Executed.resolved
  unfolding executed
  executed_resolved service = refl

  -- While the breaker of a known service is open, a request for it calls no proxy and is answered
  -- that the service is unavailable, with the header Retry-After 30; after the breaker is reset the
  -- next request calls the proxy.
  pub open_breaker_refuses :
      (urls : Urls) (service : String) (early_error : Option Failure)
      (breakers : List (String × Breaker)) (b : Breaker) (proxy : Proxy)
      → str_eq service "cdn" ≡ false
      → lookup service (proxies urls) ≡ some proxy
      → lookup (service_name service) breakers ≡ some b
      → O.opened b ≡ true
      → ((handle O urls service early_error breakers).1 ≡ false)
        × ((handle O urls service early_error breakers).2
            ≡ service_unavailable
                (str_append "Service " (str_append (service_name service) " is unavailable"))
                "30")
        × ((handle O urls service none
              (reset_breaker O
                (service_name service)
                (handle O urls service early_error breakers).0).0).1
            ≡ true)
        × ((handle O urls service none
              (reset_breaker O
                (service_name service)
                (handle O urls service early_error breakers).0).0).2
            ≡ proxied proxy)
  unfolding handle handle_proxy execute breaker_for reset_breaker close_found handled
  open_breaker_refuses urls service early_error breakers b proxy other known found opened =
      let name = service_name service in
      let b1 = (O.fire b early_error).0 in
      let again : lookup name (insert name b1 breakers) ≡ some b1 =
        ground (arith, eq_refl name, lookup-insert name name b1 breakers) in
      let shut : lookup name (insert name (O.close b1) (insert name b1 breakers))
          ≡ some (O.close b1) =
        ground
          (arith, eq_refl name, lookup-insert name name (O.close b1) (insert name b1 breakers)) in
      let refused = O.fire_open b early_error opened in
      let passed = O.fire_closed (O.close b1) none (O.opened-close b1) (O.half_open-close b1) in
      rw (other, known, found, refused, again, shut, passed)
        (
          refl,
          ap (handled proxy) (executed_open name),
          refl,
          ap (handled proxy) (executed_resolved name),
        )

  -- A proxy is called for a known service only.
  handle_proxy-called :
      (service : String) (early_error : Option Failure) (proxy : Option Proxy)
      (breakers : List (String × Breaker))
      → (handle_proxy O service early_error proxy breakers).1 ≡ true
      → is_some proxy ≡ true
  unfolding handle_proxy
  handle_proxy-called service early_error none breakers called = cc
  handle_proxy-called service early_error (some proxy) breakers called = refl

  handle-called :
      (urls : Urls) (service : String) (early_error : Option Failure)
      (breakers : List (String × Breaker))
      → (handle O urls service early_error breakers).1 ≡ true
      → is_some (lookup service (proxies urls)) ≡ true
  unfolding handle
  handle-called urls service early_error breakers called =
      elim (Bool-cases (str_eq service "cdn")) [
        | inl cdn ↦ absurd (cc (rw cdn at called))
        | inr other ↦
            handle_proxy-called service early_error (lookup service (proxies urls)) breakers
              (rw other at called)
      ]

  module _ {V : Type 0} (R : Redis V) (urls : Urls) where
    open R use {Db}

    -- What the sliding window and the token bucket must answer to a request.
    abbrev pub IsWithin : Request → Outside Db → Exec Db → Db → Type 0
    IsWithin req out exec db =
        let window =
          sliding_window R (setting_or req.ip "unknown") 100 60000 out.now out.request_id exec db in
        (window.verdict.allowed ≡ true)
        × (is_given req.sub ≡ true
            → (token_bucket R (setting_or req.sub "") 100 10 out.later window.db).verdict.allowed
              ≡ true)

    limit_user-called :
        (req : Request) (out : Outside Db) (db : Db) (breakers : List (String × Breaker))
        → (limit_user O R urls req out db breakers).1 ≡ true
        → (is_some (lookup req.service (proxies urls)) ≡ true)
          × (is_given req.sub ≡ true
              → (token_bucket R (setting_or req.sub "") 100 10 out.later db).verdict.allowed ≡ true)
    unfolding limit_user pass_on
    limit_user-called req out db breakers called =
        let allowed =
          (token_bucket R (setting_or req.sub "") 100 10 out.later db).verdict.allowed in
        elim (Bool-cases (is_given req.sub)) [
          | inl user ↦ elim (Bool-cases allowed) [
            | inl within ↦ (
              handle-called urls req.service out.early_error breakers (rw (user, within) at called),
              λ given. within,
            )
            | inr over ↦ absurd (cc (rw (user, over) at called))
          ]
          | inr anonymous ↦ (
            handle-called urls req.service out.early_error breakers (rw anonymous at called),
            λ given. absurd (cc (rw anonymous at given)),
          )
        ]

    limit_ip-called :
        (req : Request) (out : Outside Db) (exec : Option (Exec Db)) (db : Db)
        (breakers : List (String × Breaker))
        → (limit_ip O R urls req out exec db breakers).1 ≡ true
        → (is_some (lookup req.service (proxies urls)) ≡ true)
          × ((ended : Exec Db) × (exec ≡ some ended) × IsWithin req out ended db)
    unfolding limit_ip
    limit_ip-called req out none db breakers called = absurd (cc called)
    limit_ip-called req out (some exec) db breakers called =
        let window =
          sliding_window R (setting_or req.ip "unknown") 100 60000 out.now out.request_id exec db in
        elim (Bool-cases window.verdict.allowed) [
          | inl within ↦
              let passed = limit_user-called req out window.db breakers (rw within at called) in
              (passed.0, (exec, refl, (within, passed.1)))
          | inr over ↦ absurd (cc (rw over at called))
        ]

    -- A request for which a proxy is called names a known service, and was allowed by the sliding
    -- window of its address and, if it has a user, by the token bucket of the user.
    pub proxy_all-called :
        (req : Request) (out : Outside Db) (gateway : Gateway O R)
        → (proxy_all O R urls req out gateway).1 ≡ true
        → (is_some (lookup req.service (proxies urls)) ≡ true)
          × ((ended : Exec Db) × (out.exec ≡ some ended) × IsWithin req out ended gateway.0)
    unfolding proxy_all
    proxy_all-called req out (db, breakers) called =
        limit_ip-called req out out.exec db breakers called
