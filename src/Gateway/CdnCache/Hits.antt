-- ===== src/Gateway/CdnCache/Hits.antt =====
-- What the cache of the gateway answers after a request that it stored.
use Prim.Native.String.{◌++◌ as str_append}
use edge_sphere_self_hosted.Prelude.Texts.{setting_or}
use edge_sphere_self_hosted.Prelude.{
  ℕ, ◌≡◌, refl, inl, inr, true, false, ◌||◌, ap, ◌∙◌, is_some, Option, none, some, String, arith,
  eq_refl, Bool-cases, Option-cases,
}
use edge_sphere_self_hosted.Prelude.Maps.{lookup, insert, lookup-insert}
use edge_sphere_self_hosted.Redis.{Redis}
use edge_sphere_self_hosted.Gateway.RateLimit.{Exec, sliding_window}
use edge_sphere_self_hosted.Gateway.CdnCache.Headers.{
  Unique, Extends, Extends-refl, insert-Extends, piped-Extends, lookup-set_headers, sent_value,
  lookup-sent_headers,
}
use edge_sphere_self_hosted.Gateway.CdnCache.{
  Headers, Upstream, Response, Request, Outside, Cached, cached, miss, found, set_headers, piped,
  concat, is_cacheable, cdn_url_or, target_path, gateway_key, handle_request, limited_cdn,
  proxy_cdn, setex, end_response, sent_headers, is_fresh, send, serve_found, serve_cdn,
}

module _ (R : Redis Cached) (md5 : String → String) where
  open R use {Db, get, set}

  -- The URL that a request is forwarded to.
  abbrev pub cdn_target : Request → Outside Db → String
  cdn_target req out = str_append (cdn_url_or out.cdn_url) (target_path req.original_url)

  -- A GET under /cdn whose cache entry Redis can tell.
  abbrev pub IsCached : Request → Outside Db → Type 0
  IsCached req out = (is_cacheable req ≡ true) × (out.readable ≡ true)

  serve_miss :
      (req : Request) (out : Outside Db) (db : Db)
      → IsCached req out
      → found (get (gateway_key md5 req.path req.query) db) ≡ miss
      → serve_cdn R md5 req out db
        ≡ end_response R md5
            (gateway_key md5 req.path req.query)
            out
            (proxy_cdn R md5 req out (insert "x-gw-cache" "MISS" out.base_headers) db)
  unfolding serve_cdn serve_found
  serve_miss req out db (cacheable, readable) missed = rw (cacheable, readable, missed) refl

  -- A request that does not ask whether a copy is fresh.
  abbrev pub IsPlain : Request → Type 0
  IsPlain req = (req.if_none_match ≡ none) × (req.if_modified_since ≡ none)

  send-IsPlain :
      (req : Request) (out : Outside Db) (headers : Headers) (body : String)
      → IsPlain req
      → send R md5 req out headers body ≡ record {
        status = 200;
        headers = sent_headers (out.etag_of body) (out.length_of body) headers;
        body = body;
      }
  unfolding send is_fresh
  send-IsPlain req out headers body (no_match, no_time) =
      let unconditional : (is_some req.if_none_match || is_some req.if_modified_since) ≡ false =
        ap (λ o. is_some o || is_some req.if_modified_since) no_match ∙ ap is_some no_time in
      rw (unconditional) refl

  serve_hit :
      (req : Request) (out : Outside Db) (db : Db) (headers : Headers) (body : String)
      → IsCached req out
      → IsPlain req
      → get (gateway_key md5 req.path req.query) db ≡ some (cached headers body)
      → serve_cdn R md5 req out db ≡ (
        db,
        record {
          status = 200;
          headers =
              sent_headers
                (out.etag_of body)
                (out.length_of body)
                (set_headers headers (insert "x-gw-cache" "HIT" out.base_headers));
          body = body;
        },
      )
  unfolding serve_cdn serve_found found
  serve_hit req out db headers body (cacheable, readable) plain held =
      let fields = set_headers headers (insert "x-gw-cache" "HIT" out.base_headers) in
      simp (cacheable, readable, held) (ap (λ r. (db, r)) (send-IsPlain req out fields body plain))

  get-setex :
      (key : String) (seconds : ℕ) (value : Cached) (db : Db)
      → get key (setex R md5 key seconds value db) ≡ some value
  unfolding setex
  get-setex key seconds value db = ground (
    arith,
    eq_refl key,
    R.get-expire key key seconds (set key value db),
    R.get-set key key value db,
  )

  -- What a miss is answered with, before the middleware stores it.
  abbrev pub proxied : Request → Outside Db → Db → Db × Response
  proxied req out db = proxy_cdn R md5 req out (insert "x-gw-cache" "MISS" out.base_headers) db

  serve_answers :
      (req : Request) (out : Outside Db) (db : Db)
      → IsCached req out
      → found (get (gateway_key md5 req.path req.query) db) ≡ miss
      → (serve_cdn R md5 req out db).1 ≡ (proxied req out db).1
  unfolding end_response
  serve_answers req out db cached_req missed = rw (serve_miss req out db cached_req missed) refl

  -- A successful answer is stored as it is.
  end_response-stores :
      (key : String) (out : Outside Db) (answer : Db × Response)
      → out.writable ≡ true
      → answer.1.status ≡ 200
      → get key (end_response R md5 key out answer).0 ≡ some (cached answer.1.headers answer.1.body)
  unfolding end_response
  end_response-stores key out answer writable ok =
      simp (ok, writable, get-setex key 60 (cached answer.1.headers answer.1.body) answer.0)

  serve_stores :
      (req : Request) (out : Outside Db) (db : Db)
      → IsCached req out
      → out.writable ≡ true
      → found (get (gateway_key md5 req.path req.query) db) ≡ miss
      → (proxied req out db).1.status ≡ 200
      → get (gateway_key md5 req.path req.query) (serve_cdn R md5 req out db).0
        ≡ some (cached (proxied req out db).1.headers (proxied req out db).1.body)
  serve_stores req out db cached_req writable missed ok =
      rw (serve_miss req out db cached_req missed) (
        end_response-stores (gateway_key md5 req.path req.query) out (proxied req out db) writable
          ok)

  limited_cdn-Extends :
      (req : Request) (out : Outside Db) (base headers : Headers) (exec : Option (Exec Db))
      (db : Db)
      → Extends base headers
      → Extends base (limited_cdn R md5 req out headers exec db).1.headers
  unfolding limited_cdn handle_request
  limited_cdn-Extends req out base headers none db h = h
  limited_cdn-Extends req out base headers (some exec) db h =
      let window =
        sliding_window R (setting_or req.ip "unknown") 100 60000 out.now out.request_id exec db in
      elim (Bool-cases window.verdict.allowed) [
        | inl within ↦
            rw within (piped-Extends base headers (out.fetch req.method (cdn_target req out)) h)
        | inr over ↦ rw over h
      ]

  proxy_cdn-Extends :
      (req : Request) (out : Outside Db) (base headers : Headers) (db : Db)
      → Extends base headers
      → Extends base (proxy_cdn R md5 req out headers db).1.headers
  unfolding proxy_cdn
  proxy_cdn-Extends req out base headers db h =
      limited_cdn-Extends req out base headers out.exec db h

  -- Setting a table that extends the headers of a miss over those of a hit gives that table.
  set_over_hit :
      (name : String) (base headers : Headers)
      → Extends (insert "x-gw-cache" "MISS" base) headers
      → lookup name (set_headers headers (insert "x-gw-cache" "HIT" base)) ≡ lookup name headers
  set_over_hit name base headers (unique, has) =
      let over = lookup-set_headers name headers (insert "x-gw-cache" "HIT" base) unique in
      elim (Option-cases (lookup name headers)) [
        | inl absent ↦
            let before = has name absent in
            let unset : lookup name (insert "x-gw-cache" "HIT" base) ≡ none = ground (
              arith,
              lookup-insert "x-gw-cache" name "HIT" base,
              lookup-insert "x-gw-cache" name "MISS" base,
            ) in
            rw (over, absent, unset) refl
        | inr (value, present) ↦ rw (over, present) refl
      ]

  -- After a GET that the cache did not hold, that was answered with 200 and that could be stored, a
  -- GET for the same path and query without If-None-Match and If-Modified-Since, while the entry is
  -- held, with the same headers of the framework, each set once, is answered without the CDN service
  -- and without a count of the rate limit: the database stays as it is, and the status, the body and
  -- each header are those of the first answer, also the header that says whether the cache was hit,
  -- but for the length, which is that of the body, and the type and the etag, which are set where
  -- the first answer had none or an empty one.
  pub hit_repeats_answer :
      (req again : Request) (out later : Outside Db) (db : Db)
      → IsCached req out
      → out.writable ≡ true
      → found (get (gateway_key md5 req.path req.query) db) ≡ miss
      → (serve_cdn R md5 req out db).1.status ≡ 200
      → IsCached again later
      → IsPlain again
      → again.path ≡ req.path
      → again.query ≡ req.query
      → later.base_headers ≡ out.base_headers
      → Unique out.base_headers
      → let first = serve_cdn R md5 req out db in
        let second = serve_cdn R md5 again later first.0 in
        (second.0 ≡ first.0)
        × (second.1.status ≡ 200)
        × (second.1.body ≡ first.1.body)
        × ((name : String)
            → lookup name second.1.headers
              ≡ sent_value
                  (later.etag_of first.1.body)
                  (later.length_of first.1.body)
                  name
                  (lookup name first.1.headers))
  hit_repeats_answer req again out later db cached_req writable missed ok cached_again plain path
        query base unique =
      let body = (proxied req out db).1.body in
      let marked = insert "x-gw-cache" "MISS" out.base_headers in
      let answers = serve_answers req out db cached_req missed in
      let status : (proxied req out db).1.status ≡ 200 = rw answers at ok in
      let stored = serve_stores req out db cached_req writable missed status in
      let held : get (gateway_key md5 again.path again.query) (serve_cdn R md5 req out db).0
          ≡ some (cached (proxied req out db).1.headers (proxied req out db).1.body) =
        rw (path, query) stored in
      let hit =
        serve_hit again later (serve_cdn R md5 req out db).0 (proxied req out db).1.headers
          (proxied req out db).1.body cached_again plain held in
      let extends = proxy_cdn-Extends req out marked marked db (
        Extends-refl marked
          (insert-Extends out.base_headers "x-gw-cache" "MISS" out.base_headers
            (Extends-refl out.base_headers unique)).0) in
      rw (hit, base, answers)
        (
          refl,
          refl,
          refl,
          λ name.
              lookup-sent_headers (later.etag_of body) (later.length_of body) name (
                set_headers (proxied req out db).1.headers
                  (insert "x-gw-cache" "HIT" out.base_headers))
              ∙ ap (sent_value (later.etag_of body) (later.length_of body) name)
                  (set_over_hit name out.base_headers (proxied req out db).1.headers extends),
        )

  proxied_runs :
      (req : Request) (out : Outside Db) (db : Db) (exec : Exec Db)
      → out.exec ≡ some exec
      → proxied req out db
        ≡ limited_cdn R md5 req out (insert "x-gw-cache" "MISS" out.base_headers) (some exec) db
  unfolding proxy_cdn
  proxied_runs req out db exec ran = rw ran refl

  limited_cdn-answers :
      (req : Request) (out : Outside Db) (headers : Headers) (exec : Exec Db) (db : Db)
      (upstream : Upstream)
      → (sliding_window R
          (setting_or req.ip "unknown")
          100
          60000
          out.now
          out.request_id
          exec
          db).verdict.allowed
        ≡ true
      → out.fetch req.method (cdn_target req out) ≡ some upstream
      → ((limited_cdn R md5 req out headers (some exec) db).1.status ≡ 200)
        × ((limited_cdn R md5 req out headers (some exec) db).1.body ≡ concat upstream.chunks)
  unfolding limited_cdn handle_request piped
  limited_cdn-answers req out headers exec db upstream within answered =
      rw (within, answered) (refl, refl)

  -- A GET that the cache does not hold and that the rate limit allows is answered with the status
  -- 200 and the body of the CDN service's answer, and that answer is stored, whatever its status
  -- was.
  pub cdn_status_lost :
      (req : Request) (out : Outside Db) (db : Db) (exec : Exec Db) (upstream : Upstream)
      → IsCached req out
      → out.writable ≡ true
      → found (get (gateway_key md5 req.path req.query) db) ≡ miss
      → out.exec ≡ some exec
      → (sliding_window R
          (setting_or req.ip "unknown")
          100
          60000
          out.now
          out.request_id
          exec
          db).verdict.allowed
        ≡ true
      → out.fetch req.method (cdn_target req out) ≡ some upstream
      → let first = serve_cdn R md5 req out db in
        (first.1.status ≡ 200)
        × (first.1.body ≡ concat upstream.chunks)
        × (get (gateway_key md5 req.path req.query) first.0
            ≡ some (cached first.1.headers (concat upstream.chunks)))
  cdn_status_lost req out db exec upstream cached_req writable missed ran within answered =
      let answers = serve_answers req out db cached_req missed in
      let sent : ((proxied req out db).1.status ≡ 200)
          × ((proxied req out db).1.body ≡ concat upstream.chunks) =
        rw (proxied_runs req out db exec ran) (
          limited_cdn-answers req out (insert "x-gw-cache" "MISS" out.base_headers) exec db upstream
            within answered) in
      rw (serve_stores req out db cached_req writable missed sent.0, answers, sent.1)
        (sent.0, refl, refl)
