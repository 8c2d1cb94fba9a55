-- ===== src/Cdn/Requests/Answers.antt =====
-- What the controller answers and tells, once and again, and who may purge.
use edge_sphere_self_hosted.Prelude.Texts.{setting_or}
use edge_sphere_self_hosted.Prelude.{
  sym, ◌∙◌, is_some, ◌||◌, ◌*◌, ◌≤◌, ℕ, ◌+◌, ◌≡◌, ◌≢◌, refl, ap, inl, inr, List, [], ◌∷◌, ◌++◌,
  Bool, true, false, Option, none, some, String, eq_iff, if◌then◌else◌, arith, Bool-cases,
}
use edge_sphere_self_hosted.Prelude.Maps.{lookup}
use edge_sphere_self_hosted.Redis.{Redis}
use edge_sphere_self_hosted.Cdn.{
  Stored, CdnResponse, Images, Edge, origin_error, network_error, transform_error, recall,
  cache_key, Result, ok, err, Outside, as_hit, serve_file,
}
use edge_sphere_self_hosted.Cdn.Caching.{serve_file-again}
use edge_sphere_self_hosted.Cdn.Requests.{
  Query, Request, FileHeaders, FileAnswer, file, not_modified, is_fresh, send, not_found,
  internal_error, CdnEvent, Server, Clock, transforms_of, file_headers, served_event, failed_event,
  error_answer, answer, handle_file_request, is_key, unauthorized, purge_route, flush_region,
}

-- Whether a file is answered, or that the client has it.
abbrev pub is_file : FileAnswer → Bool
is_file (file headers body) = true
is_file (not_modified x_cache region max_age etag) = true
is_file not_found = false
is_file internal_error = false

-- The headers that name the content.
abbrev pub IsSameContent : FileHeaders → FileHeaders → Type 0
IsSameContent first second =
    (second.etag ≡ first.etag)
    × (second.content_type ≡ first.content_type)
    × (second.content_length ≡ first.content_length)

module _ (R : Redis Stored) (images : Images) (json : Query → String) (size : String → ℕ)
    (matches : (if_none_match if_modified_since : Option String) → FileHeaders → Bool) where
  open R use {Db}

  -- One event, with the status 200 for a file only.
  abbrev pub IsTold : Server Db → Server Db → FileAnswer → Type 0
  IsTold before after told =
      (event : CdnEvent) × (after.events ≡ before.events ++ event ∷ [])
      × (event.status ≡ (if is_file told then 200 else 500))
      × (after.bandwidth ≡ before.bandwidth + event.bytes)

  send-is_file :
      (is_head : Bool) (req : Request) (headers : FileHeaders) (body : String)
      → is_file (send R images json size matches is_head req headers body) ≡ true
  unfolding send
  send-is_file true req headers body = refl
  send-is_file false req headers body =
      elim (Bool-cases (is_fresh R images json size matches req headers)) [
        | inl fresh ↦ rw (fresh) refl
        | inr other ↦ rw (other) refl
      ]

  answer-IsTold :
      (is_head : Bool) (req : Request) (clock : Clock) (s : Server Db) (edge : Edge Db)
      (result : Result CdnResponse)
      → let done = answer R images json size matches is_head req clock s edge result in
        IsTold s done.0 done.1
  unfolding answer served_event failed_event error_answer
  answer-IsTold is_head req clock s edge (ok result) =
      let region = setting_or clock.edge_region "unknown" in
      (
        served_event size region req clock result,
        refl,
        rw (send-is_file is_head req (file_headers size region result) result.body.bytes) refl,
        refl,
      )
  answer-IsTold is_head req clock s edge (err origin_error) =
      (failed_event req clock, refl, refl, omega arith)
  answer-IsTold is_head req clock s edge (err network_error) =
      (failed_event req clock, refl, refl, omega arith)
  answer-IsTold is_head req clock s edge (err transform_error) =
      (failed_event req clock, refl, refl, omega arith)

  -- Each request for a file publishes one event, whose status is 200 when the file is answered
  -- or the client has it and 500 otherwise, and adds the bytes of the event to the counter.
  pub handle_file_request-IsTold :
      (region : String) (is_head : Bool) (req : Request) (clock : Clock) (out : Outside)
      (s : Server Db)
      → let done = handle_file_request R images json size matches region is_head req clock out s in
        IsTold s done.0 done.1
  unfolding handle_file_request
  handle_file_request-IsTold region is_head req clock out s =
      let done =
        serve_file R images region req.bucket req.key (some (transforms_of json req.query)) out
          s.edge in
      answer-IsTold is_head req clock s done.0 done.1

  -- A request that does not ask whether a copy is fresh.
  abbrev pub IsPlain : Request → Type 0
  IsPlain req = (req.if_none_match ≡ none) × (req.if_modified_since ≡ none)

  send-IsPlain :
      (is_head : Bool) (req : Request) (headers : FileHeaders) (body : String)
      → IsPlain req
      → send R images json size matches is_head req headers body
        ≡ file headers (if is_head then none else some body)
  unfolding send is_fresh
  send-IsPlain true req headers body plain = refl
  send-IsPlain false req headers body (no_match, no_time) =
      let unconditional : (is_some req.if_none_match || is_some req.if_modified_since) ≡ false =
        ap (λ o. is_some o || is_some req.if_modified_since) no_match ∙ ap is_some no_time in
      rw (unconditional) refl

  file-headers :
      (first second : FileHeaders) (a b : Option String)
      → file first a ≡ file second b
      → second ≡ first
  file-headers first second a b e = cc

  -- An answered file was served.
  answered_file :
      (is_head : Bool) (req : Request) (clock : Clock) (s : Server Db) (edge : Edge Db)
      (result : Result CdnResponse) (headers : FileHeaders) (body : Option String)
      → IsPlain req
      → (answer R images json size matches is_head req clock s edge result).1 ≡ file headers body
      → (response : CdnResponse) × (result ≡ ok response)
        × (headers ≡ file_headers size (setting_or clock.edge_region "unknown") response)
        × ((answer R images json size matches is_head req clock s edge result).0.edge ≡ edge)
  unfolding answer error_answer
  answered_file is_head req clock s edge (ok response) headers body plain e =
      let made = file_headers size (setting_or clock.edge_region "unknown") response in
      (
        response,
        refl,
        file-headers made headers (if is_head then none else some response.body.bytes) body
            (sym (send-IsPlain is_head req made response.body.bytes plain) ∙ e),
        refl,
      )
  answered_file is_head req clock s edge (err origin_error) headers body plain e = absurd cc
  answered_file is_head req clock s edge (err network_error) headers body plain e = absurd cc
  answered_file is_head req clock s edge (err transform_error) headers body plain e = absurd cc

  same_content :
      (region later_region : String) (response held : CdnResponse)
      → held.body ≡ response.body
      → IsSameContent
          (file_headers size region response)
          (file_headers size later_region (as_hit held))
  unfolding file_headers as_hit
  same_content region later_region response held same =
      (ap (λ b. b.etag) same, ap (λ b. b.content_type) same, ap (λ b. size b.bytes) same)

  hit_answer :
      (is_head : Bool) (req : Request) (clock : Clock) (s : Server Db) (edge : Edge Db)
      (held : CdnResponse)
      → IsPlain req
      → let done = answer R images json size matches is_head req clock s edge (ok (as_hit held)) in
        (done.0.edge ≡ edge)
        × (done.1
            ≡ file
                (file_headers size (setting_or clock.edge_region "unknown") (as_hit held))
                (if is_head then none else some held.body.bytes))
        × ((file_headers size (setting_or clock.edge_region "unknown") (as_hit held)).x_cache
            ≡ "HIT")
  unfolding answer as_hit file_headers
  hit_answer is_head req clock s edge held plain =
      let headers = file_headers size (setting_or clock.edge_region "unknown") (as_hit held) in
      (refl, send-IsPlain is_head req headers held.body.bytes plain, refl)

  -- After a request without a condition for a file that the memory did not have, that was answered
  -- with the file, the next request for the same file and query, GET or HEAD, within the time to
  -- live of the memory is answered from the memory, whatever the origin would answer: it leaves the
  -- caches as they are, says HIT, and has the same etag, type and length.
  pub second_request_hits :
      (region : String) (is_head again_head : Bool) (req : Request) (clock later : Clock)
      (out next : Outside) (s : Server Db) (headers : FileHeaders) (body : Option String)
      → IsPlain req
      → recall out.asked_at (
          lookup
            (cache_key region req.bucket req.key (some (transforms_of json req.query)))
            s.edge.memory)
        ≡ none
      → next.asked_at ≤ out.stored_at + out.mem_ttl_seconds * 1000
      → let first = handle_file_request R images json size matches region is_head req clock out s in
        first.1 ≡ file headers body
        → let second =
            handle_file_request R images json size matches region again_head req later next
              first.0 in
          (second.0.edge ≡ first.0.edge)
          × ((again : FileHeaders) × (sent : Option String) × (second.1 ≡ file again sent)
              × (again.x_cache ≡ "HIT")
              × IsSameContent headers again)
  unfolding handle_file_request
  second_request_hits region is_head again_head req clock later out next s headers body plain absent
        soon e =
      let transforms = some (transforms_of json req.query) in
      let outcome = serve_file R images region req.bucket req.key transforms out s.edge in
      let (response, served, by_response, kept) =
        answered_file is_head req clock s outcome.0 outcome.1 headers body plain e in
      let (held, same, again) =
        serve_file-again R images region req.bucket req.key transforms out next s.edge response
          absent soon served in
      let first = answer R images json size matches is_head req clock s outcome.0 outcome.1 in
      let hit = hit_answer again_head req later first.0 outcome.0 held plain in
      let last = setting_or later.edge_region "unknown" in
      let alike = same_content (setting_or clock.edge_region "unknown") last response held same in
      rw (kept, again, by_response)
        (
          hit.0,
          (
            file_headers size last (as_hit held),
            (if again_head then none else some held.body.bytes),
            hit.1,
            hit.2,
            alike,
          ),
        )

is_key-given :
    (header : Option String) (k : String) → is_key header (some k) ≡ true → header ≡ some k
unfolding is_key
is_key-given none k e = cc
is_key-given (some text) k e = let same : text ≡ k = ground (arith, eq_iff text k) in ap some same

module _ (R : Redis Stored) (matches : (pattern key : String) → Bool) where
  open R use {Db}

  purge_route-key :
      (header setting : Option String) (bucket : String) (key : Option String)
      (s : Db × List (String × Option String))
      → (purge_route R matches header setting bucket key s).1 ≢ unauthorized
      → is_key header setting ≡ true
  unfolding purge_route
  purge_route-key header setting bucket key (db, published) done =
      elim (Bool-cases (is_key header setting)) [
        | inl known ↦ known
        | inr unknown ↦ absurd (done (rw unknown refl))
      ]

  flush_region-key :
      (header setting : Option String) (region : String) (db : Db)
      → (flush_region R matches header setting region db).1 ≢ unauthorized
      → is_key header setting ≡ true
  unfolding flush_region
  flush_region-key header setting region db done = elim (Bool-cases (is_key header setting)) [
    | inl known ↦ known
    | inr unknown ↦ absurd (done (rw unknown refl))
  ]

  -- Where an internal key is set, a purge or a flush that is not refused came with that key; where
  -- none is set, one that came with no key is not refused.
  pub internal_key_guards :
      (header : Option String) (k bucket region : String) (key : Option String)
      (s : Db × List (String × Option String))
      → ((purge_route R matches header (some k) bucket key s).1 ≢ unauthorized → header ≡ some k)
        × ((flush_region R matches header (some k) region s.0).1 ≢ unauthorized → header ≡ some k)
        × ((purge_route R matches none none bucket key s).1 ≢ unauthorized)
        × ((flush_region R matches none none region s.0).1 ≢ unauthorized)
  unfolding purge_route flush_region is_key
  internal_key_guards header k bucket region key (db, published) = (
    λ done. is_key-given header k (purge_route-key header (some k) bucket key (db, published) done),
    λ done. is_key-given header k (flush_region-key header (some k) region db done),
    λ e. cc,
    λ e. cc,
  )
