-- ===== src/Auth/Routes/Tests.antt =====
-- Ann changes her name, and bodies and tokens that are refused.
use edge_sphere_self_hosted.Prelude.{
  ◌≡◌, refl, [], ◌∷◌, Bool, true, Option, none, some, String, str_eq, if◌then◌else◌,
}
use edge_sphere_self_hosted.Redis.{Redis}
use edge_sphere_self_hosted.Redis.Memory.{memory, empty}
use edge_sphere_self_hosted.Auth.Users.{UserEntity, find_by_id, is_missing, save_user}
use edge_sphere_self_hosted.Auth.Sessions.{
  Value, JwtPayload, Crypto, ok, profile_of, update_profile,
}
use edge_sphere_self_hosted.Auth.ApiKeys.{Registry}
use edge_sphere_self_hosted.Auth.Guards.{
  Claims, passes, storage_token, auth_guard, verified, validated, validate, accepted,
  handle_request, auth_secret, second_part,
}
use edge_sphere_self_hosted.Auth.Routes.{
  Origin, unauthenticated, bad_body, profile_answer, register_request, logout_request,
  profile_request, update_request, needs_user, is_valid, world_of, with_world, handle, checked,
  admitted, serve,
}
use edge_sphere_self_hosted.Auth.Routes.Profiles.{update_request-shows}

abbrev ann : UserEntity
ann = record {
  id = "u1";
  email = "ann@x";
  password_hash = some "h";
  role = "user";
  display_name = none;
  avatar = none;
  provider = none;
  provider_id = none;
  email_verified = true;
  is_active = true;
  last_login_at = none;
  last_login_ip = none;
}

abbrev crypto : Crypto
crypto = record {
  hash = λ password salt rounds. password;
  compare = λ password hash. true;
  compare-hash = λ p salt rounds. refl;
  sha256 = λ t. t;
  to_base64 = λ t. t;
  from_base64 = λ t. t;
  from-to_base64 = λ t. refl;
  sign = λ p. "t1";
}

abbrev any_email : String → Bool
any_email email = true

abbrev verify : String → String → Option Claims
verify secret token =
    if str_eq token "t1"
    then some (record { sub = some "u1"; email = some "ann@x"; role = some "user" })
    else none

abbrev origin : (header : Option String) → Origin
origin header = record { header = header; ip = none; user_agent = none; now = 1; uuid = "r" }

abbrev anns : Origin
anns = origin (some "Bearer t1")

abbrev user : JwtPayload
user = record { sub = "u1"; email = "ann@x"; role = "user" }

abbrev registry : Registry (Redis.Db (memory Value))
registry = record { db = empty; users = ann ∷ []; api_keys = [] }

abbrev named : UserEntity
named = record ann { password_hash = none; display_name = some "Ann" }

admits : auth_guard verify storage_token (some "k") anns.header ≡ passes user
unfolding auth_guard storage_token second_part verified validated validate accepted handle_request
    auth_secret is_missing
admits = refl

answered :
    (serve crypto "15m"
      (memory Value)
      any_email
      verify
      storage_token
      (some "k")
      anns
      (update_request (some "Ann"))
      registry).1
    ≡ profile_answer (ok named)
unfolding serve admitted checked handle needs_user is_valid world_of with_world update_profile
    profile_of find_by_id save_user auth_guard storage_token second_part verified validated validate
    accepted handle_request auth_secret is_missing
answered = refl

update_request-shows_example :
    let served = serve crypto "15m" (memory Value) any_email verify storage_token (some "k") in
    let after = (served anns (update_request (some "Ann")) registry).0 in
    (named.display_name ≡ some "Ann")
    × (served anns profile_request after ≡ (after, profile_answer (ok named)))
    × (find_by_id "u2" after.users ≡ find_by_id "u2" registry.users)
    × (after.api_keys ≡ registry.api_keys)
    × (after.db ≡ registry.db)
update_request-shows_example =
    update_request-shows crypto "15m" (memory Value) any_email verify storage_token (some "k") anns
      anns user "Ann" "u2" registry named admits admits refl answered

no_token :
    (serve crypto "15m"
      (memory Value)
      any_email
      verify
      storage_token
      (some "k")
      (origin none)
      (logout_request "t")
      registry).1
    ≡ unauthenticated
unfolding serve admitted needs_user auth_guard storage_token verified validated handle_request
no_token = refl

short_password :
    (serve crypto "15m"
      (memory Value)
      any_email
      verify
      storage_token
      (some "k")
      (origin none)
      (register_request "bob@x" "1234567" "s" "u2")
      registry).1
    ≡ bad_body
unfolding serve checked needs_user is_valid
short_password = refl
