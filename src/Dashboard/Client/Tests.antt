-- ===== src/Dashboard/Client/Tests.antt =====
-- A request with a spent access token, whose refresh succeeds and whose retry finds nothing.
use mathlib.Core.Path.{subst}
use edge_sphere_self_hosted.Prelude.{ap, or_else, ◌≡◌, ◌≤◌, refl, true, false, none, some, length}
use edge_sphere_self_hosted.Dashboard.Client.{
  unreadable, tokens, content, Reply, World, Call, Client, is_ok, request, value, after_first,
  on_unauthorized, after_refresh, with_tokens, after_retry, tokens_of, store_tokens,
  set_credentials, success, read_body, given,
}
use edge_sphere_self_hosted.Dashboard.Client.Outcomes.{KeepsSession, IsAnswered, request-session}
use edge_sphere_self_hosted.Dashboard.Client.Fetches.{request-IsAnswered}

abbrev ann : Client
ann = record {
  auth = record {
    user = some (record { email = "ann@x"; role = "user" });
    access_token = some "a1";
    refresh_token = some "r1";
    is_authenticated = true;
  };
  location = none;
}

abbrev refused : Reply
refused = record { status = 401; body = unreadable }

abbrev renewed : Reply
renewed = record { status = 200; body = tokens "a2" "r2" }

abbrev world : World
world = record {
  first = some refused;
  refresh = some renewed;
  retry = some (record { status = 200; body = content "files" });
}

abbrev nothing_there : World
nothing_there = record world { retry = some (record { status = 404; body = unreadable }) }

abbrev files : Call
files = record { method = "GET"; path = "/v1/storage/b"; body = none; is_form_data = false }

retried : (request true files world ann).2 ≡ value (content "files")
unfolding request after_first on_unauthorized after_refresh with_tokens after_retry tokens_of
    store_tokens set_credentials success read_body is_ok given
retried = refl

request-session_example :
    KeepsSession ann (request true files world ann).0 (request true files world ann).2
request-session_example = request-session files world ann

request-IsAnswered_example :
    IsAnswered world (request true files world ann).2
    × (length (request true files world ann).1 ≤ 3)
request-IsAnswered_example = request-IsAnswered files world true ann

renewed_ok : is_ok 200 ≡ true
unfolding is_ok
renewed_ok = refl

not_found : (reply : Reply) → nothing_there.retry ≡ some reply → is_ok reply.status ≡ false
unfolding is_ok
not_found reply e =
    let same : 404 ≡ reply.status = ap (λ r. (or_else r reply).status) e in
    subst (λ status. is_ok status ≡ false) same refl
