-- ===== src/Dashboard/Client/Fetches.antt =====
-- Which answers a successful request of the dashboard rests on, and how many fetches a request makes.
use edge_sphere_self_hosted.Prelude.{
  ℕ, ◌≤◌, ◌≡◌, refl, ap, ◌∙◌, inl, inr, List, Bool, true, false, ◌&&◌, Option, none, some, String,
  ◌==◌, length, arith, Bool-cases, Option-cases,
}
use edge_sphere_self_hosted.Dashboard.Client.{
  Reply, World, Call, Sent, Outcome, Client, given, is_ok, unauthorized, tokens_of, store_tokens,
  after_retry, with_tokens, after_refresh, on_unauthorized, after_first, request,
}
use edge_sphere_self_hosted.Dashboard.Client.Outcomes.{
  IsAnswered, unauthorized-IsAnswered, failure-unsuccessful,
}

-- The result of a part that has `n` fetches at most.
abbrev IsGood : World → ℕ → Client × List Sent × Outcome → Type 0
IsGood world n ended = IsAnswered world ended.2 × (length ended.1 ≤ n)

after_retry-IsAnswered :
    (world : World) (reply : Option Reply) (client : Client)
    → world.retry ≡ reply
    → IsAnswered world (after_retry reply client).1
unfolding after_retry
after_retry-IsAnswered world none client same = unauthorized-IsAnswered world
after_retry-IsAnswered world (some reply) client same = elim (Bool-cases (is_ok reply.status)) [
  | inl fine ↦ rw fine (λ e. (reply, inr same, fine, refl))
  | inr bad ↦ rw bad (unauthorized-IsAnswered world)
]

module _ (call : Call) (world : World) where
  with_tokens-IsGood :
      (pair : Option (Option String × Option String)) (client : Client)
      → IsGood world 1 (with_tokens call world pair client)
  unfolding with_tokens
  with_tokens-IsGood none client = (unauthorized-IsAnswered world, omega arith)
  with_tokens-IsGood (some (access_token, refresh_token)) client = (
    after_retry-IsAnswered world world.retry
        (store_tokens client.auth.user access_token refresh_token client) refl,
    omega arith,
  )

  after_refresh-IsGood :
      (reply : Option Reply) (client : Client)
      → IsGood world 1 (after_refresh call world reply client)
  unfolding after_refresh
  after_refresh-IsGood none client = (unauthorized-IsAnswered world, omega arith)
  after_refresh-IsGood (some reply) client = elim (Bool-cases (is_ok reply.status)) [
    | inl fine ↦ rw fine (with_tokens-IsGood (tokens_of reply.body) client)
    | inr bad ↦ rw bad (unauthorized-IsAnswered world, omega arith)
  ]

  on_unauthorized-IsGood :
      (refresh_token : Option String) (client : Client)
      → IsGood world 2 (on_unauthorized call world refresh_token client)
  unfolding on_unauthorized
  on_unauthorized-IsGood none client = (unauthorized-IsAnswered world, omega arith)
  on_unauthorized-IsGood (some refresh_token) client =
      let after = after_refresh-IsGood world.refresh client in (after.0, omega (arith, after.1))

  after_first-IsGood :
      (in_browser : Bool) (reply : Option Reply) (client : Client)
      → world.first ≡ reply
      → IsGood world 2 (after_first in_browser call world reply client)
  unfolding after_first
  after_first-IsGood in_browser none client same = (λ e. cc, omega arith)
  after_first-IsGood in_browser (some reply) client same =
      elim (Bool-cases ((reply.status == 401) && in_browser)) [
        | inl refused ↦ rw refused (on_unauthorized-IsGood (given client.auth.refresh_token) client)
        | inr other ↦ elim (Bool-cases (is_ok reply.status)) [
          | inl fine ↦ rw (other, fine) (λ e. (reply, inl same, fine, refl), omega arith)
          | inr bad ↦
              rw (other, bad)
                (
                  λ e. absurd (cc (rw (failure-unsuccessful reply.status reply.body) at e)),
                  omega arith,
                )
        ]
      ]

  -- A request makes three fetches at most, in the browser or not, and when it ends well then the
  -- first answer or that of the retry has a good status and its outcome is that answer's.
  pub request-IsAnswered :
      (in_browser : Bool) (client : Client)
      → IsAnswered world (request in_browser call world client).2
        × (length (request in_browser call world client).1 ≤ 3)
  unfolding request
  request-IsAnswered in_browser client =
      let after = after_first-IsGood in_browser world.first client refl in
      (after.0, omega (arith, after.1))

  after_retry-fails :
      (reply : Option Reply) (client : Client)
      → ((answer : Reply) → reply ≡ some answer → is_ok answer.status ≡ false)
      → (after_retry reply client).1 ≡ unauthorized
  unfolding after_retry
  after_retry-fails none client failing = refl
  after_retry-fails (some reply) client failing = rw (failing reply refl) refl

  with_tokens-fails :
      (pair : Option (Option String × Option String)) (client : Client)
      → ((answer : Reply) → world.retry ≡ some answer → is_ok answer.status ≡ false)
      → (with_tokens call world pair client).2 ≡ unauthorized
  unfolding with_tokens
  with_tokens-fails none client failing = refl
  with_tokens-fails (some (access_token, refresh_token)) client failing =
      after_retry-fails world.retry
        (store_tokens client.auth.user access_token refresh_token client) failing

  refreshed-fails :
      (client : Client) (renewed : Reply)
      → is_ok renewed.status ≡ true
      → ((answer : Reply) → world.retry ≡ some answer → is_ok answer.status ≡ false)
      → (after_refresh call world (some renewed) client).2 ≡ unauthorized
  unfolding after_refresh
  refreshed-fails client renewed good failing =
      rw good (with_tokens-fails (tokens_of renewed.body) client failing)

  refused-fails :
      (client : Client) (refused : Reply)
      → refused.status ≡ 401
      → ((token : String) → (on_unauthorized call world (some token) client).2 ≡ unauthorized)
      → (on_unauthorized call world none client).2 ≡ unauthorized
      → (after_first true call world (some refused) client).2 ≡ unauthorized
  unfolding after_first
  refused-fails client refused status with_token without =
      elim (Option-cases (given client.auth.refresh_token)) [
        | inl missing ↦ simp (status, missing) without
        | inr (token, held) ↦ simp (status, held) (with_token token)
      ]

  -- When the refresh succeeds and the retry is answered with any status that is not good, or not at
  -- all, the user is signed out and the outcome is the error 401.
  pub failed_retry_signs_out :
      (client : Client) (refused renewed : Reply)
      → world.first ≡ some refused
      → refused.status ≡ 401
      → world.refresh ≡ some renewed
      → is_ok renewed.status ≡ true
      → ((reply : Reply) → world.retry ≡ some reply → is_ok reply.status ≡ false)
      → (request true call world client).2 ≡ unauthorized
  unfolding request on_unauthorized
  failed_retry_signs_out client refused renewed first status refreshed good failing =
      ap (λ reply. (after_first true call world reply client).2) first
      ∙ refused-fails client refused status
          (λ token.
            ap (λ reply. (after_refresh call world reply client).2) refreshed
            ∙ refreshed-fails client renewed good failing)
          refl
