-- ===== src/Cdn/Caching.antt =====
-- A file that was served is served again from the caches, with the same body.
use edge_sphere_self_hosted.Prelude.{
  ℕ, ◌+◌, ◌*◌, ◌≤◌, ltb, false, ◌≡◌, refl, ap, ◌∙◌, [], false, Option, none, some, String, eq_refl,
  arith,
}
use edge_sphere_self_hosted.Prelude.Maps.{lookup, lookup-insert}
use edge_sphere_self_hosted.Redis.{Redis}
use edge_sphere_self_hosted.Cdn.{
  CacheObject, Stored, object, broken, CdnResponse, Transforms, Images, Edge, Held, recall, Result,
  ok, err, cache_key, physical, Outside, as_hit, redis_response, remember, cache_set, fetch_file,
  serve_stored, store_fetched, fetched, serve_remembered, serve_file,
}

module _ (R : Redis Stored) (images : Images) where
  open R use {Db, get, set, expire, get-set, get-expire}

  -- Where a response was given that did not come from memory, both caches hold its body, the memory
  -- for its time to live.
  abbrev pub Remembers : (key : String) → Outside → Edge Db → CdnResponse → Type 0
  Remembers key out s response =
      (held : CdnResponse) × (lookup key s.memory
        ≡ some (record { response = held; until = out.stored_at + out.mem_ttl_seconds * 1000 }))
      × (held.body ≡ response.body)

  abbrev pub Holds : (key : String) → Edge Db → CdnResponse → Type 0
  Holds key s response = get (physical key) s.db ≡ some (object response.body)

  remember-lookup :
      (key : String) (response : CdnResponse) (out : Outside) (s : Edge Db)
      → lookup key (remember R images key response out s).memory
        ≡ some (record { response = response; until = out.stored_at + out.mem_ttl_seconds * 1000 })
  unfolding remember
  remember-lookup key response out s =
      let held : Held = record {
        response = response;
        until = out.stored_at + out.mem_ttl_seconds * 1000;
      } in
      lookup-insert key key held s.memory ∙ rw (eq_refl key) refl

  cache_set-get :
      (key : String) (body : CacheObject) (ttl_seconds : ℕ) (s : Edge Db)
      → get (physical key) (cache_set R images key body ttl_seconds s).db ≡ some (object body)
  unfolding cache_set
  cache_set-get key body ttl_seconds s =
      let name = physical key in
      get-expire name name ttl_seconds (set name (object body) s.db)
      ∙ get-set name name (object body) s.db
      ∙ ground (arith, eq_refl name)

  ok-body : (r r' : CdnResponse) → ◌≡◌ {A = Result CdnResponse} (ok r) (ok r') → r.body ≡ r'.body
  ok-body r r' e = cc

  store-caches :
      (key : String) (out : Outside) (made : Result CacheObject) (s : Edge Db)
      (response : CdnResponse)
      → let outcome = store_fetched R images key out made s in
        outcome.1 ≡ ok response
        → Remembers key out outcome.0 response × Holds key outcome.0 response
  unfolding store_fetched cache_set remember
  store-caches key out (err error) s response e = absurd cc
  store-caches key out (ok body) s response e =
      let made : CdnResponse = record { body = body; cache_hit = false; remaining_ttl = none } in
      let same = ok-body made response e in
      (
        (made, remember-lookup key made out (cache_set R images key body out.ttl_seconds s), same),
        cache_set-get key body out.ttl_seconds s ∙ ap (λ b. some (object b)) same,
      )

  stored-caches :
      (key : String) (transforms : Option Transforms) (out : Outside) (stored : Option Stored)
      (s : Edge Db) (response : CdnResponse)
      → get (physical key) s.db ≡ stored
      → let outcome = serve_stored R images key transforms out stored s in
        outcome.1 ≡ ok response
        → Remembers key out outcome.0 response × Holds key outcome.0 response
  unfolding serve_stored fetch_file remember redis_response
  stored-caches key transforms out none s response h e =
      store-caches key out (fetched R images transforms out.now_etag out.opt_etag out.origin) s
        response e
  stored-caches key transforms out (some (broken t)) s response h e =
      store-caches key out (fetched R images transforms out.now_etag out.opt_etag out.origin) s
        response e
  stored-caches key transforms out (some (object body)) s response h e =
      let made = redis_response body out.ttl_left in
      let same = ok-body made response e in
      ((made, remember-lookup key made out s, same), h ∙ ap (λ b. some (object b)) same)

  remembered-hit :
      (key : String) (transforms : Option Transforms) (out later : Outside) (s : Edge Db)
      (response : CdnResponse)
      → Remembers key out s response
      → later.asked_at ≤ out.stored_at + out.mem_ttl_seconds * 1000
      → (held : CdnResponse) × (held.body ≡ response.body)
        × (serve_remembered R images key transforms later
              (recall later.asked_at (lookup key s.memory))
              s
            ≡ (s, ok (as_hit held)))
  unfolding serve_remembered recall
  remembered-hit key transforms out later s response (held, found, same) soon =
      let live : ltb (out.stored_at + out.mem_ttl_seconds * 1000) later.asked_at ≡ false =
        ground arith in
      (held, same, rw (found, live, serve_remembered) refl)

  serve-Remembers :
      (key : String) (transforms : Option Transforms) (out : Outside) (s : Edge Db)
      (response : CdnResponse)
      → let outcome = serve_remembered R images key transforms out none s in
        outcome.1 ≡ ok response → Remembers key out outcome.0 response
  unfolding serve_remembered
  serve-Remembers key transforms out s response e =
      (stored-caches key transforms out (get (physical key) s.db) s response refl e).0

  serve-Holds :
      (key : String) (transforms : Option Transforms) (out : Outside) (found : Option CdnResponse)
      (s : Edge Db) (response : CdnResponse)
      → found ≡ none
      → let outcome = serve_remembered R images key transforms out found s in
        outcome.1 ≡ ok response → Holds key outcome.0 response
  unfolding serve_remembered
  serve-Holds key transforms out (some held) s response h e = absurd cc
  serve-Holds key transforms out none s response h e =
      (stored-caches key transforms out (get (physical key) s.db) s response refl e).1

  -- Once a file was served that the memory did not have, the next request for it with the same
  -- transforms, within the time to live of the memory, is a hit with the same body, whatever the
  -- origin would then answer, and it changes nothing.
  pub serve_file-again :
      (region bucket key : String) (transforms : Option Transforms) (out later : Outside)
      (s : Edge Db) (response : CdnResponse)
      → recall out.asked_at (lookup (cache_key region bucket key transforms) s.memory) ≡ none
      → later.asked_at ≤ out.stored_at + out.mem_ttl_seconds * 1000
      → let outcome = serve_file R images region bucket key transforms out s in
        outcome.1 ≡ ok response
        → (held : CdnResponse) × (held.body ≡ response.body)
          × (serve_file R images region bucket key transforms later outcome.0
              ≡ (outcome.0, ok (as_hit held)))
  unfolding serve_file
  serve_file-again region bucket key transforms out later s response absent soon =
      let name = cache_key region bucket key transforms in
      let outcome = serve_remembered R images name transforms out none s in
      rw (absent) (λ e.
        remembered-hit name transforms out later outcome.0 response
          (serve-Remembers name transforms out s response e) soon)

  -- A file that memory did not have and that was served is in Redis: when the memory has lost
  -- everything, the next request is a hit with the same body all the same, and the memory has it
  -- again.
  pub serve_file_survives :
      (region bucket key : String) (transforms : Option Transforms) (out later : Outside)
      (s : Edge Db) (response : CdnResponse)
      → recall out.asked_at (lookup (cache_key region bucket key transforms) s.memory) ≡ none
      → let outcome = serve_file R images region bucket key transforms out s in
        let name = cache_key region bucket key transforms in
        let restarted : Edge Db = record outcome.0 { memory = [] } in
        let hit = redis_response response.body later.ttl_left in
        outcome.1 ≡ ok response
        → serve_file R images region bucket key transforms later restarted
          ≡ (remember R images name hit later restarted, ok hit)
  unfolding serve_file serve_remembered serve_stored recall
  serve_file_survives region bucket key transforms out later s response absent e =
      let name = cache_key region bucket key transforms in
      let recalled = recall out.asked_at (lookup name s.memory) in
      let held : Holds name (serve_remembered R images name transforms out recalled s).0 response =
        serve-Holds name transforms out recalled s response absent e in
      let restarted : Edge Db =
        record (serve_remembered R images name transforms out recalled s).0 { memory = [] } in
      ap (λ stored. serve_stored R images name transforms later stored restarted) held
