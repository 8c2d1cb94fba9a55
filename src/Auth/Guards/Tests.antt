-- ===== src/Auth/Guards/Tests.antt =====
-- Ann signs in and shows her token, and the roles that a route asks for.
use edge_sphere_self_hosted.Prelude.{
  ◌≡◌, refl, [], ◌∷◌, true, false, Option, none, some, String, str_eq, if◌then◌else◌,
}
use edge_sphere_self_hosted.Redis.{Redis}
use edge_sphere_self_hosted.Redis.Memory.{memory, empty}
use edge_sphere_self_hosted.Auth.Users.{UserEntity, is_missing}
use edge_sphere_self_hosted.Auth.Sessions.{
  Value, Crypto, TokenPair, World, Result, ok, login_oauth, issue, generate_token_pair,
}
use edge_sphere_self_hosted.Auth.Guards.{
  Claims, passes, auth_secret, storage_secret, storage_token, auth_guard, storage_guard,
  can_activate,
}
use edge_sphere_self_hosted.Auth.Guards.Acceptance.{
  bearer_header, claims_of, payload_of, storage_token-bearer, login_oauth-guards,
}

abbrev ann : UserEntity
ann = record {
  id = "u1";
  email = "ann@x";
  password_hash = none;
  role = "user";
  display_name = none;
  avatar = none;
  provider = some "github";
  provider_id = some "7";
  email_verified = true;
  is_active = true;
  last_login_at = none;
  last_login_ip = none;
}

abbrev crypto : Crypto
crypto = record {
  hash = λ password salt rounds. password;
  compare = λ password hash. true;
  compare-hash = λ p salt rounds. refl;
  sha256 = λ t. t;
  to_base64 = λ t. t;
  from_base64 = λ t. t;
  from-to_base64 = λ t. refl;
  sign = λ p. "t1";
}

abbrev verify : String → String → Option Claims
verify secret token =
    if str_eq secret "super-secret" then some (claims_of (payload_of ann)) else none

abbrev world : World (Redis.Db (memory Value))
world = record { db = empty; users = ann ∷ [] }

abbrev signed_in : Result TokenPair
signed_in = (login_oauth crypto "15m" (memory Value) ann "10.0.0.1" "curl" 1000 "r1" world).1

abbrev pair : TokenPair
pair = (generate_token_pair crypto "15m" (memory Value) ann "curl" none 1000 "r1" empty).1

signed_in_ok : signed_in ≡ ok pair
unfolding login_oauth issue generate_token_pair
signed_in_ok = refl

login_oauth-guards_example :
    (auth_guard verify storage_token (some "super-secret") (some (bearer_header pair.access_token))
      ≡ passes (payload_of ann))
    × (storage_guard verify storage_token
          (some "super-secret")
          (some (bearer_header pair.access_token))
        ≡ some (claims_of (payload_of ann)))
login_oauth-guards_example =
    login_oauth-guards crypto "15m" (memory Value) verify storage_token "super-secret"
      storage_token-bearer ann "10.0.0.1" "curl" 1000 "r1" world pair refl (refl, refl)
      (refl, refl, refl) signed_in_ok

default_secret : "super-secret" ≡ auth_secret none
unfolding auth_secret
default_secret = refl

other_secret : verify (storage_secret none) "t1" ≡ none
unfolding storage_secret
other_secret = refl

no_admin : can_activate (some ("admin" ∷ [])) (some "user") ≡ false
unfolding can_activate is_missing
no_admin = refl
