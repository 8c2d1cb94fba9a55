-- ===== src/Auth/Guards/Acceptance.antt =====
-- A token that the auth service gave out, at the guards of both services.
use Prim.Native.String.{◌++◌ as str_append}
use text.Mathlib.TextLemmas.{cons-append, nil-append}
use edge_sphere_self_hosted.Prelude.{
  ℕ, ◌≡◌, refl, sym, ap, inl, inr, [], ◌∷◌, false, Option, none, some, String, str_eq, Bool-cases,
}
use edge_sphere_self_hosted.Prelude.Texts.{split, has_char, starts_with-append, split_whole}
use edge_sphere_self_hosted.Redis.{Redis}
use edge_sphere_self_hosted.Auth.Users.{UserEntity, is_missing, update_last_login}
use edge_sphere_self_hosted.Auth.Sessions.{
  Value, JwtPayload, Crypto, TokenPair, World, Result, ok, issue, generate_token_pair, login_oauth,
}
use edge_sphere_self_hosted.Auth.Guards.{
  Claims, passes, validate, handle_request, auth_secret, storage_secret, accepted, validated,
  second_part, storage_token, verified, auth_guard, storage_guard,
}

-- The value of the header for a token.
abbrev pub bearer_header : String → String
bearer_header token = str_append "Bearer " token

-- The claims of a payload that was signed.
abbrev pub claims_of : JwtPayload → Claims
claims_of payload = record {
  sub = some payload.sub;
  email = some payload.email;
  role = some payload.role;
}

abbrev pub payload_of : UserEntity → JwtPayload
payload_of user = record { sub = user.id; email = user.email; role = user.role }

abbrev pub IsComplete : UserEntity → Type 0
IsComplete user =
    (str_eq user.id "" ≡ false) × (str_eq user.email "" ≡ false) × (str_eq user.role "" ≡ false)

pub storage_token-bearer :
    (token : String)
    → has_char " " token ≡ false
    → storage_token (some (bearer_header token)) ≡ some token
unfolding storage_token second_part
storage_token-bearer token plain =
    let parts : split " " (bearer_header token) ≡ "Bearer" ∷ token ∷ [] =
      rw
        (
          cons-append "B" "earer " token,
          cons-append "e" "arer " token,
          cons-append "a" "rer " token,
          cons-append "r" "er " token,
          cons-append "e" "r " token,
          cons-append "r" " " token,
          cons-append " " "" token,
          nil-append token,
          split_whole " " token plain,
        )
        refl in
    rw (starts_with-append "Bearer " token, parts) refl

validated_complete :
    (user : UserEntity)
    → IsComplete user
    → validated (some (claims_of (payload_of user))) ≡ passes (payload_of user)
unfolding validated validate accepted handle_request is_missing
validated_complete user (id, email, role) = rw (id, email, role) refl

module _ (C : Crypto) (jwt_expires_in : String) (R : Redis Value) where
  open R use {Db}

  ok-access :
      (made pair : TokenPair)
      → ◌≡◌ {A = Result TokenPair} (ok made) (ok pair)
      → pair.access_token ≡ made.access_token
  ok-access made pair e = cc

  -- What a sign-in hands out is signed for its user.
  issue-signs :
      (user : UserEntity) (user_agent : String) (device : Option String) (now : ℕ) (uuid : String)
      (w : World Db) (pair : TokenPair)
      → (issue C jwt_expires_in R user user_agent device now uuid w).1 ≡ ok pair
      → pair.access_token ≡ Crypto.sign C (payload_of user)
  unfolding issue generate_token_pair
  issue-signs user user_agent device now uuid w pair e =
      let made = (generate_token_pair C jwt_expires_in R user user_agent device now uuid w.db).1 in
      ok-access made pair e

  login_oauth-signs :
      (user : UserEntity) (ip user_agent : String) (now : ℕ) (uuid : String) (w : World Db)
      (pair : TokenPair)
      → (login_oauth C jwt_expires_in R user ip user_agent now uuid w).1 ≡ ok pair
      → pair.access_token ≡ Crypto.sign C (payload_of user)
  unfolding login_oauth
  login_oauth-signs user ip user_agent now uuid w pair e = elim (Bool-cases user.is_active) [
    | inl active ↦
        let seen : World Db = record w { users = update_last_login user.id ip now w.users } in
        issue-signs user user_agent none now uuid seen pair (simp active at e)
    | inr blocked ↦ absurd (cc (rw blocked at e))
  ]

  -- The strategy takes a token from its header.
  module _ (verify : (secret token : String) → Option Claims)
      (extract : (header : Option String) → Option String) (secret : String)
      (extracts : (token : String)
        → has_char " " token ≡ false
        → extract (some (bearer_header token)) ≡ some token) where
    -- What the user of a sign-in is signed as: a text without a space, which the secret verifies.
    abbrev pub IsSigned : UserEntity → Type 0
    IsSigned user =
        (has_char " " (Crypto.sign C (payload_of user)) ≡ false)
        × (verify secret (Crypto.sign C (payload_of user)) ≡ some (claims_of (payload_of user)))

    -- Where both services are set to the secret that the tokens are signed with, the access token of
    -- a sign-in is let in by the guard of the auth service as its user, and by the guard of the
    -- storage service with the user's id, email and role.
    pub login_oauth-guards :
        (user : UserEntity) (ip user_agent : String) (now : ℕ) (uuid : String) (w : World Db)
        (pair : TokenPair)
        → str_eq secret "" ≡ false
        → IsSigned user
        → IsComplete user
        → (login_oauth C jwt_expires_in R user ip user_agent now uuid w).1 ≡ ok pair
        → let header = some (bearer_header pair.access_token) in
          (auth_guard verify extract (some secret) header ≡ passes (payload_of user))
          × (storage_guard verify extract (some secret) header ≡ some (claims_of (payload_of user)))
    unfolding auth_guard storage_guard verified auth_secret storage_secret
    login_oauth-guards user ip user_agent now uuid w pair given (plain, verifies) complete
          signed_in =
        let payload = payload_of user in
        let token = Crypto.sign C payload in
        let signed = login_oauth-signs user ip user_agent now uuid w pair signed_in in
        rw (signed, extracts token plain, storage_token-bearer token plain, given, verifies)
          (validated_complete user complete, refl)

    -- Where JWT_SECRET is not set, the auth service verifies with a secret of its own and the
    -- storage service with another: a token that only the former verifies is let in by the one and
    -- refused by the other.
    pub unset_secret_splits :
        (user : UserEntity) (ip user_agent : String) (now : ℕ) (uuid : String) (w : World Db)
        (pair : TokenPair)
        → secret ≡ auth_secret none
        → verify (storage_secret none) (Crypto.sign C (payload_of user)) ≡ none
        → IsSigned user
        → IsComplete user
        → (login_oauth C jwt_expires_in R user ip user_agent now uuid w).1 ≡ ok pair
        → let header = some (bearer_header pair.access_token) in
          (auth_guard verify extract none header ≡ passes (payload_of user))
          × (storage_guard verify extract none header ≡ none)
    unfolding auth_guard storage_guard verified
    unset_secret_splits user ip user_agent now uuid w pair same other (plain, verifies) complete
          signed_in =
        let payload = payload_of user in
        let token = Crypto.sign C payload in
        let signed = login_oauth-signs user ip user_agent now uuid w pair signed_in in
        rw
          (
            signed,
            extracts token plain,
            storage_token-bearer token plain,
            other,
            ap (λ s. verify s token) (sym same),
            verifies,
          )
          (validated_complete user complete, refl)
