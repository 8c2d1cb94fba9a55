-- ===== src/Auth/Guards.antt =====
-- The guards of the auth service (auth/guards/jwt-auth.guard.ts, auth/guards/roles.guard.ts,
-- auth/strategies/jwt.strategy.ts) and of the storage service (auth/jwt.guard.ts), the profiles of
-- auth/strategies/github.strategy.ts and auth/strategies/google.strategy.ts, and the callbacks of
-- auth/oauth.controller.ts. The verification of a token, and how passport-jwt takes it from the
-- header, are parameters.
pub mod Acceptance
mod Tests
use Prim.Native.String.{◌++◌ as str_append}
use edge_sphere_self_hosted.Prelude.{
  ℕ, List, [], ◌∷◌, Bool, true, false, not, ◌||◌, Option, none, some, String, str_eq, if◌then◌else◌,
  or_else, any,
}
use edge_sphere_self_hosted.Prelude.Texts.{starts_with, split, setting_or}
use edge_sphere_self_hosted.Redis.{Redis}
use edge_sphere_self_hosted.Auth.Users.{UserEntity, is_missing, or_text, find_or_create_by_oauth}
use edge_sphere_self_hosted.Auth.Sessions.{
  Value, JwtPayload, Crypto, TokenPair, World, Error, Result, ok, err, login_oauth,
}

-- What a token says; the code asks whether each field is there.
pub record Claims : Type 0 where
  pub sub : Option String
  pub email : Option String
  pub role : Option String

-- How a guard ends: with the user, or with an exception.
pub data Guarded : Type 0 where
  passes : JwtPayload → Guarded
  raises : (message : String) → Guarded

-- JwtStrategy.validate; `none` is the exception 'Invalid token payload'.
unfoldable pub validate : Claims → Option JwtPayload
validate claims =
    if is_missing claims.sub || (is_missing claims.email || is_missing claims.role)
    then none
    else some (record {
      sub = or_else claims.sub "";
      email = or_else claims.email "";
      role = or_else claims.role "";
    })

unfoldable pub handle_request : (error : Option String) → Option JwtPayload → Guarded
handle_request (some error) user = raises error
handle_request none none = raises "Authentication failed or missing token"
handle_request none (some user) = passes user

-- `get('JWT_SECRET', 'super-secret')` and `process.env.JWT_SECRET || 'fallback_secret'`.
unfoldable pub auth_secret : Option String → String
auth_secret setting = or_else setting "super-secret"

unfoldable pub storage_secret : Option String → String
storage_secret setting = setting_or setting "fallback_secret"

-- The strategy's part behind the verification.
unfoldable pub accepted : Option JwtPayload → Guarded
accepted none = handle_request (some "Invalid token payload") none
accepted (some user) = handle_request none (some user)

unfoldable pub validated : Option Claims → Guarded
validated none = handle_request none none
validated (some claims) = accepted (validate claims)

-- RolesGuard.canActivate: the roles that the route asks for, if it does, and the role of the user.
unfoldable pub can_activate :
    (required_roles : Option (List String)) → (role : Option String) → Bool
can_activate none role = true
can_activate (some roles) role =
    if is_missing role then false else any (λ r. str_eq r (or_else role "")) roles

-- The storage service's reading of the header.
unfoldable pub second_part : List String → String
second_part [] = ""
second_part (first ∷ []) = ""
second_part (first ∷ second ∷ parts) = second

unfoldable pub storage_token : (header : Option String) → Option String
storage_token none = none
storage_token (some header) =
    if starts_with "Bearer " header then some (second_part (split " " header)) else none

module _ (verify : (secret token : String) → Option Claims)
    (extract : (header : Option String) → Option String) where
  unfoldable pub verified : (secret : String) → Option String → Option Claims
  verified secret none = none
  verified secret (some token) = verify secret token

  -- JwtAuthGuard of the auth service, with its strategy.
  unfoldable pub auth_guard : (setting header : Option String) → Guarded
  auth_guard setting header = validated (verified (auth_secret setting) (extract header))

  -- JwtAuthGuard of the storage service: the claims that the request then carries.
  unfoldable pub storage_guard : (setting header : Option String) → Option Claims
  storage_guard setting header = verified (storage_secret setting) (storage_token header)

-- A profile that GitHub or Google sends; lists may be missing.
pub record Profile : Type 0 where
  pub id : String
  pub display_name : Option String
  pub username : String
  pub emails : Option (List String)
  pub photos : Option (List String)

unfoldable pub first_of : Option (List String) → Option String
first_of none = none
first_of (some []) = none
first_of (some (value ∷ values)) = some value

unfoldable pub github_email : Profile → String
github_email profile = or_else (first_of profile.emails) (str_append profile.username "@github.com")

unfoldable pub validate_github :
    (new_id : String) → Profile → List UserEntity → List UserEntity × UserEntity
validate_github new_id profile users =
    find_or_create_by_oauth new_id (github_email profile)
      (or_text profile.display_name (some profile.username)) (first_of profile.photos) "github"
      profile.id users

-- A profile without an email or a photo throws.
unfoldable pub validate_google :
    (new_id : String) → Profile → List UserEntity → Option (List UserEntity × UserEntity)
validate_google new_id profile users = elim (first_of profile.emails) [
  | none ↦ none
  | some email ↦ elim (first_of profile.photos) [
    | none ↦ none
    | some photo ↦ some (
        find_or_create_by_oauth new_id email profile.display_name (some photo) "google" profile.id
          users)
  ]
]

unfoldable pub redirect_url : (frontend_url : Option String) → TokenPair → String
redirect_url frontend_url tokens = str_append (setting_or frontend_url "http://localhost:3100") (
    str_append "/auth/callback?token="
      (str_append tokens.access_token (str_append "&refresh=" tokens.refresh_token)))

unfoldable pub redirected : (frontend_url : Option String) → Result TokenPair → Result String
redirected frontend_url (ok tokens) = ok (redirect_url frontend_url tokens)
redirected frontend_url (err e) = err e

module _ (C : Crypto) (jwt_expires_in : String) (R : Redis Value) where
  open R use {Db}

  -- googleAuthCallback and githubAuthCallback: the URL that the browser is sent to.
  unfoldable pub oauth_callback :
      (frontend_url : Option String)
      → UserEntity
      → (ip : Option String) (user_agent : String) (now : ℕ) (uuid : String) → World Db
      → World Db × Result String
  oauth_callback frontend_url user ip user_agent now uuid w =
      let done =
        login_oauth C jwt_expires_in R user (setting_or ip "127.0.0.1") user_agent now uuid w in
      (done.0, redirected frontend_url done.1)
