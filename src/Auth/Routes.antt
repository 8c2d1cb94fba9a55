-- ===== src/Auth/Routes.antt =====
-- auth/auth.controller.ts and auth/dto/auth.dto.ts: the routes of the auth service. A route asks its
-- guard first, then the pipe checks the body, then the handler calls the service. The verification
-- of tokens is the parameter of Guards; what `@IsEmail` takes for an address is a parameter too.
pub mod Profiles
mod Tests
use edge_sphere_self_hosted.Prelude.{
  ℕ, List, [], ◌∷◌, Bool, true, false, ◌&&◌, Option, none, some, String, leb, if◌then◌else◌, ◌==◌,
}
use edge_sphere_self_hosted.Prelude.Texts.{setting_or, text_length}
use edge_sphere_self_hosted.Redis.{Redis}
use edge_sphere_self_hosted.Auth.Users.{UserEntity}
use edge_sphere_self_hosted.Auth.Sessions.{
  Value, Crypto, TokenPair, World, Result, register, login, refresh_tokens, logout, get_profile,
  update_profile,
}
use edge_sphere_self_hosted.Auth.ApiKeys.{
  Result as KeyResult, ApiKeyEntity, Registry, NewKey, Caller, create_api_key, list_api_keys,
  revoke_api_key, validate_api_key,
}
use edge_sphere_self_hosted.Auth.Guards.{Claims, Guarded, passes, raises, auth_guard}

pub data Request : Type 0 where
  register_request : (email password : String) (salt new_id : String) → Request
  login_request : (email password : String) → Request
  refresh_request logout_request : (refresh_token : String) → Request
  profile_request : Request
  update_request : (display_name : Option String) → Request
  create_key_request : (name : String) (hex salt id : String) → Request
  list_keys_request : (page page_size : Option ℕ) → Request
  revoke_request : (key_id : String) → (answered : (key : String) → Bool) → Request
  validate_key_request : (key : String) → Request

-- Where a request comes from, and the time and the random id at its handling.
pub record Origin : Type 0 where
  pub header : Option String
  pub ip : Option String
  pub user_agent : Option String
  pub now : ℕ
  pub uuid : String

pub data Answer : Type 0 where
  unauthenticated bad_body : Answer
  tokens_answer : Result TokenPair → Answer
  profile_answer : Result UserEntity → Answer
  new_key_answer : NewKey → Answer
  keys_answer : List ApiKeyEntity → (total : ℕ) → Answer
  revoked_answer : KeyResult (Unit {0}) → Answer
  caller_answer : KeyResult Caller → Answer
  no_content : Answer

unfoldable pub needs_user : Request → Bool
needs_user (register_request email password salt new_id) = false
needs_user (login_request email password) = false
needs_user (refresh_request refresh_token) = false
needs_user (logout_request refresh_token) = true
needs_user profile_request = true
needs_user (update_request display_name) = true
needs_user (create_key_request name hex salt id) = true
needs_user (list_keys_request page page_size) = true
needs_user (revoke_request key_id answered) = true
needs_user (validate_key_request key) = false

-- The limits of the bodies; a field that is left out is fine where it is optional.
module _ (is_email : String → Bool) where
  unfoldable pub is_valid : Request → Bool
  is_valid (register_request email password salt new_id) =
      is_email email && (leb 8 (text_length password) && leb (text_length password) 72)
  is_valid (login_request email password) = is_email email
  is_valid (refresh_request refresh_token) = true
  is_valid (logout_request refresh_token) = true
  is_valid profile_request = true
  is_valid (update_request none) = true
  is_valid (update_request (some display_name)) = leb (text_length display_name) 100
  is_valid (create_key_request name hex salt id) = leb (text_length name) 100
  is_valid (list_keys_request page page_size) = true
  is_valid (revoke_request key_id answered) = true
  is_valid (validate_key_request key) = true

-- `a || d` on a number.
unfoldable pub page_or : Option ℕ → ℕ → ℕ
page_or none d = d
page_or (some n) d = if n == 0 then d else n

abbrev pub ip_of : Origin → String
ip_of origin = setting_or origin.ip "127.0.0.1"

abbrev pub agent_of : Origin → String
agent_of origin = elim origin.user_agent [ none ↦ "" | some user_agent ↦ user_agent ]

-- The part of the state that accounts and sessions use, and its return.
unfoldable pub world_of : {Db : Type 0} → Registry Db → World Db
world_of r = record { db = r.db; users = r.users }

unfoldable pub with_world : {Db : Type 0} → World Db → Registry Db → Registry Db
with_world w r = record r { db = w.db; users = w.users }

module _ (C : Crypto) (jwt_expires_in : String) (R : Redis Value) where
  open R use {Db}

  -- The handlers, for the user whom the guard let pass.
  unfoldable pub handle : (user_id : String) → Origin → Request → Registry Db → Registry Db × Answer
  handle user_id origin (register_request email password salt new_id) r =
      let done =
        register C jwt_expires_in R email password salt new_id origin.now origin.uuid
          (world_of r) in
      (with_world done.0 r, tokens_answer done.1)
  handle user_id origin (login_request email password) r =
      let done =
        login C jwt_expires_in R email password (ip_of origin) (agent_of origin) origin.now
          origin.uuid (world_of r) in
      (with_world done.0 r, tokens_answer done.1)
  handle user_id origin (refresh_request refresh_token) r =
      let done =
        refresh_tokens C jwt_expires_in R refresh_token (agent_of origin) origin.now origin.uuid
          (world_of r) in
      (with_world done.0 r, tokens_answer done.1)
  handle user_id origin (logout_request refresh_token) r =
      (with_world (logout C jwt_expires_in R user_id refresh_token (world_of r)) r, no_content)
  handle user_id origin profile_request r = (r, profile_answer (get_profile user_id (world_of r)))
  handle user_id origin (update_request display_name) r =
      let done = update_profile user_id display_name (world_of r) in
      (with_world done.0 r, profile_answer done.1)
  handle user_id origin (create_key_request name hex salt id) r =
      let done = create_api_key C R user_id name hex salt id origin.now r in
      (done.0, new_key_answer done.1)
  handle user_id origin (list_keys_request page page_size) r =
      let keys = list_api_keys user_id (page_or page 1) (page_or page_size 20) r in
      (r, keys_answer keys.0 keys.1)
  handle user_id origin (revoke_request key_id answered) r =
      let done = revoke_api_key C R answered user_id key_id r in (done.0, revoked_answer done.1)
  handle user_id origin (validate_key_request key) r =
      let done = validate_api_key C R key origin.now r in (done.0, caller_answer done.1)

  module _ (is_email : String → Bool) where
    unfoldable pub checked :
        (user_id : String) → Origin → Request → Registry Db → Registry Db × Answer
    checked user_id origin req r =
        if is_valid is_email req then handle user_id origin req r else (r, bad_body)

    unfoldable pub admitted : Guarded → Origin → Request → Registry Db → Registry Db × Answer
    admitted (passes user) origin req r = checked user.sub origin req r
    admitted (raises message) origin req r = (r, unauthenticated)

    module _ (verify : (secret token : String) → Option Claims)
        (extract : (header : Option String) → Option String) where
      unfoldable pub serve :
          (setting : Option String) → Origin → Request → Registry Db → Registry Db × Answer
      serve setting origin req r =
          if needs_user req
          then admitted (auth_guard verify extract setting origin.header) origin req r
          else checked "" origin req r
