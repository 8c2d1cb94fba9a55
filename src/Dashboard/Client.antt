-- ===== src/Dashboard/Client.antt =====
-- lib/api.ts and store/slices/authSlice.ts: a request of the dashboard, with one refresh of the
-- session and one retry. What the gateway answers to the up to three fetches is an argument.
pub mod Outcomes
pub mod Fetches
mod Tests
use Prim.Native.String.{◌++◌ as str_append}
use edge_sphere_self_hosted.Prelude.{
  ℕ, List, [], ◌∷◌, Bool, true, false, not, ◌&&◌, Option, none, some, String, str_eq, ltb, leb,
  ◌==◌, if◌then◌else◌, or_else,
}

pub record User : Type 0 where
  pub email : String
  pub role : String

pub record AuthState : Type 0 where
  pub user : Option User
  pub access_token : Option String
  pub refresh_token : Option String
  pub is_authenticated : Bool

unfoldable pub initial_state : AuthState
initial_state = record {
  user = none;
  access_token = none;
  refresh_token = none;
  is_authenticated = false;
}

unfoldable pub set_credentials :
    User → (access_token refresh_token : Option String) → AuthState → AuthState
set_credentials user access_token refresh_token state = record {
  user = some user;
  access_token = access_token;
  refresh_token = refresh_token;
  is_authenticated = true;
}

unfoldable pub logout : AuthState → AuthState
logout state = record {
  user = none;
  access_token = none;
  refresh_token = none;
  is_authenticated = false;
}

-- The body of an answer: what `json()` refuses, an error, a pair of tokens, or another value.
pub data Body : Type 0 where
  unreadable : Body
  error_body : (message code : Option String) → Body
  tokens : (access_token refresh_token : String) → Body
  content : String → Body

pub record Reply : Type 0 where
  pub status : ℕ
  pub body : Body

-- The answers to the request, to the refresh and to the retry; `none` throws.
pub record World : Type 0 where
  pub first : Option Reply
  pub refresh : Option Reply
  pub retry : Option Reply

pub record Call : Type 0 where
  pub method : String
  pub path : String
  pub body : Option String
  pub is_form_data : Bool

-- A fetch: its method, its path, the header Authorization, whether the content type is JSON, and
-- the body.
pub record Sent : Type 0 where
  pub method : String
  pub path : String
  pub authorization : Option String
  pub is_json : Bool
  pub body : Option String

-- An error's text, or `HTTP` and its status.
pub data Message : Type 0 where
  text_message : String → Message
  http_status : ℕ → Message

-- How a request ends: with a body, without one, with an ApiError, or with what fetch or json()
-- throws.
pub data Outcome : Type 0 where
  value : Body → Outcome
  no_content thrown : Outcome
  api_error : Message → (status : ℕ) (code : Option String) → Outcome

-- The store, and the page that the browser was sent to.
pub record Client : Type 0 where
  pub auth : AuthState
  pub location : Option String

unfoldable pub given : Option String → Option String
given none = none
given (some text) = if str_eq text "" then none else some text

unfoldable pub bearer : Option String → Option String
bearer none = none
bearer (some token) = some (str_append "Bearer " token)

unfoldable pub is_ok : (status : ℕ) → Bool
is_ok status = leb 200 status && ltb status 300

unfoldable pub sent : Call → (authorization : Option String) → Sent
sent call authorization = record {
  method = call.method;
  path = call.path;
  authorization = authorization;
  is_json = not call.is_form_data;
  body = call.body;
}

-- `JSON.stringify({ refreshToken })` is the token here.
unfoldable pub refresh_fetch : (refresh_token : String) → Sent
refresh_fetch refresh_token = record {
  method = "POST";
  path = "/v1/auth/refresh";
  authorization = none;
  is_json = true;
  body = some refresh_token;
}

-- `res.json()`, when the status is not 204.
unfoldable pub read_body : Body → Outcome
read_body unreadable = thrown
read_body (error_body message code) = value (error_body message code)
read_body (tokens access_token refresh_token) = value (tokens access_token refresh_token)
read_body (content text) = value (content text)

unfoldable pub success : Reply → Outcome
success reply = if reply.status == 204 then no_content else read_body reply.body

unfoldable pub error_message : (status : ℕ) → Option String → Message
error_message status none = http_status status
error_message status (some message) =
    if str_eq message "" then http_status status else text_message message

unfoldable pub failure : (status : ℕ) → Body → Outcome
failure status unreadable = api_error (text_message "Request failed") status none
failure status (error_body message code) = api_error (error_message status message) status code
failure status (tokens access_token refresh_token) = api_error (http_status status) status none
failure status (content text) = api_error (http_status status) status none

-- `logout` and the way to the login page, then the error.
unfoldable pub sign_out : Client → Client
sign_out client = record { auth = logout client.auth; location = some "/login" }

unfoldable pub unauthorized : Outcome
unauthorized = api_error (text_message "Unauthorized") 401 (some "AUTH_002")

-- The two tokens in the body of an answer, if it can be read.
unfoldable pub tokens_of : Body → Option (Option String × Option String)
tokens_of unreadable = none
tokens_of (error_body message code) = some (none, none)
tokens_of (tokens access_token refresh_token) = some (some access_token, some refresh_token)
tokens_of (content text) = some (none, none)

unfoldable pub store_tokens :
    Option User → (access_token refresh_token : Option String) → Client → Client
store_tokens none access_token refresh_token client = client
store_tokens (some user) access_token refresh_token client = record client {
  auth = set_credentials user access_token refresh_token client.auth;
}

-- What the retry ends with. The `catch` signs out before the end of the branch does.
unfoldable pub after_retry : Option Reply → Client → Client × Outcome
after_retry none client = (sign_out (sign_out client), unauthorized)
after_retry (some reply) client =
    if is_ok reply.status then (client, success reply) else (sign_out client, unauthorized)

unfoldable pub with_tokens :
    Call → World → Option (Option String × Option String) → Client → Client × List Sent × Outcome
with_tokens call world none client = (sign_out (sign_out client), [], unauthorized)
with_tokens call world (some (access_token, refresh_token)) client =
    let stored = store_tokens client.auth.user access_token refresh_token client in
    let ended = after_retry world.retry stored in
    (ended.0, sent call (bearer (some (or_else access_token "undefined"))) ∷ [], ended.1)

unfoldable pub after_refresh : Call → World → Option Reply → Client → Client × List Sent × Outcome
after_refresh call world none client = (sign_out (sign_out client), [], unauthorized)
after_refresh call world (some reply) client =
    if is_ok reply.status
    then with_tokens call world (tokens_of reply.body) client
    else (sign_out client, [], unauthorized)

unfoldable pub on_unauthorized :
    Call → World → Option String → Client → Client × List Sent × Outcome
on_unauthorized call world none client = (sign_out client, [], unauthorized)
on_unauthorized call world (some refresh_token) client =
    let ended = after_refresh call world world.refresh client in
    (ended.0, refresh_fetch refresh_token ∷ ended.1, ended.2)

unfoldable pub after_first :
    (in_browser : Bool) → Call → World → Option Reply → Client → Client × List Sent × Outcome
after_first in_browser call world none client = (client, [], thrown)
after_first in_browser call world (some reply) client =
    if (reply.status == 401) && in_browser
    then on_unauthorized call world (given client.auth.refresh_token) client
    else (client, [], if is_ok reply.status then success reply else failure reply.status reply.body)

unfoldable pub request : (in_browser : Bool) → Call → World → Client → Client × List Sent × Outcome
request in_browser call world client =
    let token = if in_browser then given client.auth.access_token else none in
    let ended = after_first in_browser call world world.first client in
    (ended.0, sent call (bearer token) ∷ ended.1, ended.2)

-- The methods of `api`.
unfoldable pub get : (path : String) → Call
get path = record { method = "GET"; path = path; body = none; is_form_data = false }

unfoldable pub post : (path : String) (body : Option String) → Call
post path body = record { method = "POST"; path = path; body = body; is_form_data = false }

unfoldable pub put : (path : String) (body : Option String) → Call
put path body = record { method = "PUT"; path = path; body = body; is_form_data = false }

unfoldable pub patch : (path : String) (body : Option String) → Call
patch path body = record { method = "PATCH"; path = path; body = body; is_form_data = false }

unfoldable pub delete : (path : String) → Call
delete path = record { method = "DELETE"; path = path; body = none; is_form_data = false }

unfoldable pub upload : (path form_data : String) → Call
upload path form_data = record {
  method = "POST";
  path = path;
  body = some form_data;
  is_form_data = true;
}
