-- ===== src/Dashboard/Client/Outcomes.antt =====
-- How a request of the dashboard ends, and what it leaves of the session.
use edge_sphere_self_hosted.Prelude.{
  ℕ, ◌≡◌, refl, ◌⊎◌, inl, inr, Bool, true, false, Option, none, some, String, ◌==◌, Bool-cases,
}
use edge_sphere_self_hosted.Dashboard.Client.{
  User, initial_state, set_credentials, logout, Body, unreadable, error_body, tokens, content,
  Reply, World, Call, Outcome, value, no_content, thrown, api_error, Client, given, is_ok,
  read_body, success, failure, sign_out, unauthorized, tokens_of, store_tokens, after_retry,
  with_tokens, after_refresh, on_unauthorized, after_first, request,
}

abbrev pub is_401 : Outcome → Bool
is_401 (value body) = false
is_401 no_content = false
is_401 thrown = false
is_401 (api_error message status code) = status == 401

abbrev pub is_success : Outcome → Bool
is_success (value body) = true
is_success no_content = true
is_success thrown = false
is_success (api_error message status code) = false

-- Whoever gets the error 401 is signed out and on the login page; whoever gets another outcome is
-- who they were and where they were.
abbrev pub KeepsSession : Client → Client → Outcome → Type 0
KeepsSession before after outcome =
    (is_401 outcome ≡ true → (after.auth ≡ initial_state) × (after.location ≡ some "/login"))
    × (is_401 outcome ≡ false
        → (after.auth.user ≡ before.auth.user) × (after.location ≡ before.location))

-- A successful outcome is that of an answer with a good status.
abbrev pub IsAnswered : World → Outcome → Type 0
IsAnswered world outcome =
    is_success outcome ≡ true
    → (reply : Reply) × ((world.first ≡ some reply) ⊎ (world.retry ≡ some reply))
      × (is_ok reply.status ≡ true)
      × (outcome ≡ success reply)

signed_out : (before client : Client) → KeepsSession before (sign_out client) unauthorized
unfolding sign_out unauthorized logout initial_state
signed_out before client = (λ e. (refl, refl), λ e. cc)

pub unauthorized-IsAnswered : (world : World) → IsAnswered world unauthorized
unfolding unauthorized
unauthorized-IsAnswered world e = cc

read_body-plain : (body : Body) → is_401 (read_body body) ≡ false
unfolding read_body
read_body-plain unreadable = refl
read_body-plain (error_body message code) = refl
read_body-plain (tokens access_token refresh_token) = refl
read_body-plain (content text) = refl

success-plain : (reply : Reply) → is_401 (success reply) ≡ false
unfolding success
success-plain reply = elim (Bool-cases (reply.status == 204)) [
  | inl empty ↦ rw empty refl
  | inr full ↦ rw full (read_body-plain reply.body)
]

failure-status : (status : ℕ) (body : Body) → is_401 (failure status body) ≡ (status == 401)
unfolding failure
failure-status status unreadable = refl
failure-status status (error_body message code) = refl
failure-status status (tokens access_token refresh_token) = refl
failure-status status (content text) = refl

pub failure-unsuccessful : (status : ℕ) (body : Body) → is_success (failure status body) ≡ false
unfolding failure
failure-unsuccessful status unreadable = refl
failure-unsuccessful status (error_body message code) = refl
failure-unsuccessful status (tokens access_token refresh_token) = refl
failure-unsuccessful status (content text) = refl

-- An outcome that is no 401 leaves the user alone.
kept :
    (before after : Client) (outcome : Outcome)
    → is_401 outcome ≡ false
    → after.auth.user ≡ before.auth.user
    → after.location ≡ before.location
    → KeepsSession before after outcome
kept before after outcome plain user location =
    (λ e. absurd (cc (rw plain at e)), λ e. (user, location))

stored-user :
    (user : Option User) (access_token refresh_token : Option String) (client : Client)
    → client.auth.user ≡ user
    → ((store_tokens user access_token refresh_token client).auth.user ≡ user)
      × ((store_tokens user access_token refresh_token client).location ≡ client.location)
unfolding store_tokens set_credentials
stored-user none access_token refresh_token client same = (same, refl)
stored-user (some user) access_token refresh_token client same = (refl, refl)

after_retry-KeepsSession :
    (before client : Client) (reply : Option Reply)
    → client.auth.user ≡ before.auth.user
    → client.location ≡ before.location
    → KeepsSession before (after_retry reply client).0 (after_retry reply client).1
unfolding after_retry
after_retry-KeepsSession before client none user location = signed_out before (sign_out client)
after_retry-KeepsSession before client (some reply) user location =
    elim (Bool-cases (is_ok reply.status)) [
      | inl fine ↦ rw fine (kept before client (success reply) (success-plain reply) user location)
      | inr bad ↦ rw bad (signed_out before client)
    ]

module _ (call : Call) (world : World) where
  with_tokens-KeepsSession :
      (pair : Option (Option String × Option String)) (client : Client)
      → KeepsSession client
          (with_tokens call world pair client).0
          (with_tokens call world pair client).2
  unfolding with_tokens
  with_tokens-KeepsSession none client = signed_out client (sign_out client)
  with_tokens-KeepsSession (some (access_token, refresh_token)) client =
      let same = stored-user client.auth.user access_token refresh_token client refl in
      after_retry-KeepsSession client
        (store_tokens client.auth.user access_token refresh_token client) world.retry same.0 same.1

  after_refresh-KeepsSession :
      (reply : Option Reply) (client : Client)
      → KeepsSession client
          (after_refresh call world reply client).0
          (after_refresh call world reply client).2
  unfolding after_refresh
  after_refresh-KeepsSession none client = signed_out client (sign_out client)
  after_refresh-KeepsSession (some reply) client = elim (Bool-cases (is_ok reply.status)) [
    | inl fine ↦ rw fine (with_tokens-KeepsSession (tokens_of reply.body) client)
    | inr bad ↦ rw bad (signed_out client client)
  ]

  on_unauthorized-KeepsSession :
      (refresh_token : Option String) (client : Client)
      → KeepsSession client
          (on_unauthorized call world refresh_token client).0
          (on_unauthorized call world refresh_token client).2
  unfolding on_unauthorized
  on_unauthorized-KeepsSession none client = signed_out client client
  on_unauthorized-KeepsSession (some refresh_token) client =
      after_refresh-KeepsSession world.refresh client

  after_first-KeepsSession :
      (reply : Option Reply) (client : Client)
      → KeepsSession client
          (after_first true call world reply client).0
          (after_first true call world reply client).2
  unfolding after_first
  after_first-KeepsSession none client = kept client client thrown refl refl refl
  after_first-KeepsSession (some reply) client = elim (Bool-cases (reply.status == 401)) [
    | inl refused ↦
        rw refused (on_unauthorized-KeepsSession (given client.auth.refresh_token) client)
    | inr other ↦ elim (Bool-cases (is_ok reply.status)) [
      | inl fine ↦
          rw (other, fine) (kept client client (success reply) (success-plain reply) refl refl)
      | inr bad ↦
          let plain : is_401 (failure reply.status reply.body) ≡ false =
            rw (failure-status reply.status reply.body) other in
          rw (other, bad) (kept client client (failure reply.status reply.body) plain refl refl)
    ]
  ]

  -- A request of the browser ends with the error 401 exactly when it signs the user out and sends
  -- the browser to the login page: after the error 401 the store is the initial one, and after any
  -- other outcome the user and the page are those from before.
  pub request-session :
      (client : Client)
      → KeepsSession client (request true call world client).0 (request true call world client).2
  unfolding request
  request-session client = after_first-KeepsSession world.first client
