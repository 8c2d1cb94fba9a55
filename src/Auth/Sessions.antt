-- ===== src/Auth/Sessions.antt =====
-- auth/auth.service.ts: accounts and their sessions. A session is a device id in the sorted set of
-- its user, with a refresh token under a key of its own.
-- bcrypt, base64, SHA-256 and the signing of tokens are a parameter; random ids and times are
-- arguments.
pub mod Counting
pub mod Bound
pub mod Storing
pub mod Rotation
mod Tests
use Prim.Native.Char.{Char, code}
use Prim.Native.String.{◌++◌ as str_append}
use edge_sphere_self_hosted.Prelude.{
  ℕ, ◌+◌, ◌-◌, ◌*◌, ◌≡◌, List, [], ◌∷◌, Bool, true, false, not, ◌||◌, Option, none, some, String,
  str_eq, ltb, leb, ◌==◌, ◌&&◌, if◌then◌else◌, length, is_some,
}
use edge_sphere_self_hosted.Prelude.Texts.{split, is_char}
use edge_sphere_self_hosted.Redis.{Redis, Entry}
use edge_sphere_self_hosted.Auth.Users.{
  UserEntity, find_by_email, find_by_id, new_user, save_new, save_user, is_missing,
  update_last_login,
}

-- Plain values in Redis: refresh tokens, and the JSON texts `{ userId, keyId }`.
pub data Value : Type 0 where
  token_text : String → Value
  key_owner : (user_id key_id : String) → Value

pub record JwtPayload : Type 0 where
  pub sub : String
  pub email : String
  pub role : String

-- `hash` takes the salt that bcrypt draws, and the rounds.
pub record Crypto : Type 0 where
  pub hash : (password salt : String) → ℕ → String
  pub compare : (password hash : String) → Bool
  pub compare-hash : (p salt : String) (rounds : ℕ) → compare p (hash p salt rounds) ≡ true
  pub sha256 : String → String
  pub to_base64 : String → String
  pub from_base64 : String → String
  pub from-to_base64 : (t : String) → from_base64 (to_base64 t) ≡ t
  pub sign : JwtPayload → String

pub record TokenPair : Type 0 where
  pub access_token : String
  pub refresh_token : String
  pub expires_in : ℕ

pub record World (Db : Type 0) : Type 0 where
  pub db : Db
  pub users : List UserEntity

pub data Error : Type 0 where
  unauthorized conflict not_found : Error

pub data Result {ℓ} (A : Type ℓ) : Type ℓ where
  ok : A → Result A
  err : Error → Result A

unfoldable pub max_sessions : ℕ
max_sessions = 5

-- 7 days in seconds.
unfoldable pub refresh_token_ttl : ℕ
refresh_token_ttl = 604800

unfoldable pub bcrypt_rounds : ℕ
bcrypt_rounds = 12

unfoldable pub colon_join : String → String → String
colon_join a b = str_append a (str_append ":" b)

unfoldable pub session_key : (user_id : String) → String
session_key user_id = str_append "user_sessions:" user_id

unfoldable pub refresh_key : (user_id device_id : String) → String
refresh_key user_id device_id = str_append "refresh:" (colon_join user_id device_id)

-- `Buffer.from(token, 'base64').toString('utf-8').split(':')`, where there are three parts.
unfoldable pub token_triple : List String → Option (String × String × String)
token_triple (user_id ∷ device_id ∷ id ∷ []) = some (user_id, device_id, id)
token_triple parts = none

-- `^(\d+)([mhd])$` and its value in seconds; 900 for any other text.
unfoldable pub unit_seconds : Char → ℕ
unit_seconds c =
    if is_char "m" c then 60 else if is_char "h" c then 3600 else if is_char "d" c then 86400 else 0

abbrev pub is_digit : Char → Bool
is_digit c = leb 48 (code c) && leb (code c) 57

-- `value` is the number read so far, `seen` whether a digit was read.
unfoldable pub parse_from : (value : ℕ) (seen : Bool) → String → ℕ
parse_from value seen String.[] = 900
parse_from value seen (String.◌∷◌ c rest) =
    let more = parse_from (10 * value + (code c - 48)) true rest in
    if is_digit c
    then more
    else if seen && (str_eq rest "" && not (unit_seconds c == 0))
    then value * unit_seconds c
    else 900

unfoldable pub parse_expiry : String → ℕ
parse_expiry t = parse_from 0 false t

module _ (C : Crypto) where
  unfoldable pub token_parts : (refresh_token : String) → Option (String × String × String)
  token_parts refresh_token = token_triple (split ":" (Crypto.from_base64 C refresh_token))

  unfoldable pub make_refresh_token : (user_id device_id uuid : String) → String
  make_refresh_token user_id device_id uuid =
      Crypto.to_base64 C (colon_join user_id (colon_join device_id uuid))

  unfoldable pub device_of : (existing : Option String) (user_agent : String) → String
  device_of none user_agent =
      Crypto.sha256 C (if str_eq user_agent "" then "unknown" else user_agent)
  device_of (some d) user_agent =
      if str_eq d ""
      then Crypto.sha256 C (if str_eq user_agent "" then "unknown" else user_agent)
      else d

  -- `compare(password, user.passwordHash)`, behind the test that there is a hash.
  unfoldable pub password_valid : (password : String) → UserEntity → Bool
  password_valid password user = elim user.password_hash [
    | none ↦ false
    | some h ↦ not (str_eq h "") && Crypto.compare C password h
  ]

module _ (R : Redis Value) where
  open R use {Db, get, set, del, zrange, zadd, zrem, expire}

  -- The oldest session ends when there are more than MAX_SESSIONS.
  unfoldable pub trim_sessions : (user_id : String) → Db → Db
  trim_sessions user_id db =
      if ltb max_sessions (length (zrange (session_key user_id) db))
      then elim (zrange (session_key user_id) db) [
        | [] ↦ db
        | ◌∷◌ oldest rest ↦
            zrem (session_key user_id) oldest.0 (del (refresh_key user_id oldest.0) db)
      ]
      else db

  unfoldable pub store_session : (user_id device_id refresh_token : String) (now : ℕ) → Db → Db
  store_session user_id device_id refresh_token now db =
      let trimmed = trim_sessions user_id (zadd (session_key user_id) now device_id db) in
      let key = refresh_key user_id device_id in
      expire key refresh_token_ttl (set key (token_text refresh_token) trimmed)

  unfoldable pub is_stored : (key refresh_token : String) → Db → Bool
  is_stored key refresh_token db = elim (get key db) [
    | none ↦ false
    | some v ↦ elim v [ token_text t ↦ str_eq t refresh_token | key_owner u k ↦ false ]
  ]

-- `jwt_expires_in` is the setting JWT_EXPIRES_IN, "15m" by default.
module _ (C : Crypto) (jwt_expires_in : String) (R : Redis Value) where
  open R use {Db, del, zrem}

  unfoldable pub generate_token_pair :
      UserEntity
      → (user_agent : String) (existing_device_id : Option String) (now : ℕ) (uuid : String) → Db
      → Db × TokenPair
  generate_token_pair user user_agent existing_device_id now uuid db =
      let device_id = device_of C existing_device_id user_agent in
      let refresh_token = make_refresh_token C user.id device_id uuid in
      (
        store_session R user.id device_id refresh_token now db,
        record {
          access_token =
              Crypto.sign C (record { sub = user.id; email = user.email; role = user.role });
          refresh_token = refresh_token;
          expires_in = parse_expiry jwt_expires_in;
        },
      )

  -- A new pair for a user of the table.
  unfoldable pub issue :
      UserEntity
      → (user_agent : String) (existing_device_id : Option String) (now : ℕ) (uuid : String)
      → World Db
      → World Db × Result TokenPair
  issue user user_agent existing_device_id now uuid w =
      let (db, pair) = generate_token_pair user user_agent existing_device_id now uuid w.db in
      (record w { db = db }, ok pair)

  unfoldable pub register :
      (email password : String) (salt new_id : String) (now : ℕ) (uuid : String)
      → World Db
      → World Db × Result TokenPair
  register email password salt new_id now uuid w =
      if is_some (find_by_email email w.users)
      then (w, err conflict)
      else let user = new_user new_id email (some (Crypto.hash C password salt bcrypt_rounds)) in
        issue user "" none now uuid (record w { users = save_new user w.users })

  -- loginOAuth, and the end of login.
  unfoldable pub login_oauth :
      UserEntity
      → (ip user_agent : String) (now : ℕ) (uuid : String) → World Db
      → World Db × Result TokenPair
  login_oauth user ip user_agent now uuid w =
      if user.is_active
      then issue user user_agent none now uuid
          (record w { users = update_last_login user.id ip now w.users })
      else (w, err unauthorized)

  unfoldable pub login :
      (email password ip user_agent : String) (now : ℕ) (uuid : String)
      → World Db
      → World Db × Result TokenPair
  login email password ip user_agent now uuid w = elim (find_by_email email w.users) [
    | none ↦ (w, err unauthorized)
    | some user ↦
        if password_valid C password user
        then login_oauth user ip user_agent now uuid w
        else (w, err unauthorized)
  ]

  -- The token is deleted before the user is looked up.
  unfoldable pub refresh_tokens :
      (refresh_token user_agent : String) (now : ℕ) (uuid : String)
      → World Db
      → World Db × Result TokenPair
  refresh_tokens refresh_token user_agent now uuid w = elim (token_parts C refresh_token) [
    | none ↦ (w, err unauthorized)
    | some parts ↦
        let key = refresh_key parts.0 parts.1 in
        let spent : World Db = record w { db = del key w.db } in
        if is_stored R key refresh_token w.db
        then elim (find_by_id parts.0 w.users) [
          | none ↦ (spent, err unauthorized)
          | some user ↦
              if user.is_active
              then issue user user_agent (some parts.1) now uuid spent
              else (spent, err unauthorized)
        ]
        else (w, err unauthorized)
  ]

  unfoldable pub logout : (user_id refresh_token : String) → World Db → World Db
  logout user_id refresh_token w = elim (token_parts C refresh_token) [
    | none ↦ w
    | some parts ↦ record w {
      db = zrem (session_key user_id) parts.1 (del (refresh_key user_id parts.1) w.db);
    }
  ]

-- A user without its password hash.
unfoldable pub profile_of : UserEntity → UserEntity
profile_of u = record u { password_hash = none }

unfoldable pub get_profile : {Db : Type 0} → (user_id : String) → World Db → Result UserEntity
get_profile user_id w = elim (find_by_id user_id w.users) [
  | none ↦ err not_found
  | some user ↦ ok (profile_of user)
]

-- `display_name` is the field of the request, which may be left out.
unfoldable pub update_profile :
    {Db : Type 0}
    → (user_id : String) (display_name : Option String) → World Db
    → World Db × Result UserEntity
update_profile user_id display_name w = elim (find_by_id user_id w.users) [
  | none ↦ (w, err not_found)
  | some user ↦
      let updated : UserEntity =
        if is_some display_name then record user { display_name = display_name } else user in
      (record w { users = save_user updated w.users }, ok (profile_of updated))
]
