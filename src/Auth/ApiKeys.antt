-- ===== src/Auth/ApiKeys.antt =====
-- auth/auth.service.ts and auth/api-key.entity.ts: API keys. A key is a row of the table, and a value
-- in Redis under the hash of its text.
-- The table is a list with the newest row first. The time to live of the values, a year, is passed
-- to Redis.
pub mod Revocation
mod Tests
use Prim.Native.String.{◌++◌ as str_append}
use edge_sphere_self_hosted.Prelude.{
  ℕ, ◌-◌, ◌*◌, ◌≡◌, List, [], ◌∷◌, Bool, true, false, not, ◌&&◌, ◌||◌, Option, none, some, String,
  str_eq, if◌then◌else◌, length, map, find, keep, drop, take,
}
use edge_sphere_self_hosted.Prelude.Texts.{starts_with, take_chars}
use edge_sphere_self_hosted.Redis.{Redis}
use edge_sphere_self_hosted.Auth.Users.{UserEntity}
use edge_sphere_self_hosted.Auth.Sessions.{Value, token_text, key_owner, Crypto}

pub record ApiKeyEntity : Type 0 where
  pub id : String
  pub user_id : String
  pub name : String
  pub key_hash : String
  pub key_prefix : String
  pub created_at : ℕ
  pub last_used_at : Option ℕ
  pub expires_at : Option ℕ

pub record Registry (Db : Type 0) : Type 0 where
  pub db : Db
  pub users : List UserEntity
  pub api_keys : List ApiKeyEntity

-- The answer to a new key.
pub record NewKey : Type 0 where
  pub id : String
  pub key : String
  pub key_prefix : String
  pub name : String
  pub created_at : ℕ

pub record Caller : Type 0 where
  pub sub : String
  pub email : String
  pub role : String
  pub key_id : String

-- `malformed` is the exception of JSON.parse on a text that is no JSON.
pub data Error : Type 0 where
  unauthorized not_found malformed : Error

pub data Result {ℓ} (A : Type ℓ) : Type ℓ where
  ok : A → Result A
  err : Error → Result A

unfoldable pub lookup_ttl : ℕ
lookup_ttl = 31536000

unfoldable pub lookup_prefix : String
lookup_prefix = "apikey:lookup:"

-- `apikey:lookup:${sha256}`.
unfoldable pub lookup_key : (sha256 : String) → String
lookup_key sha256 = str_append lookup_prefix sha256

-- `uuidv4().replace(/-/g, '')` behind the mark of a key.
unfoldable pub raw_key_of : (hex : String) → String
raw_key_of hex = str_append "esk_" hex

-- `findAndCount({ where: { userId }, order: { createdAt: 'DESC' }, skip, take })`, without the hash.
unfoldable pub hide_hash : ApiKeyEntity → ApiKeyEntity
hide_hash k = record k { key_hash = "" }

abbrev pub is_of_user : String → ApiKeyEntity → Bool
is_of_user user_id k = str_eq k.user_id user_id

abbrev pub is_key_of : (key_id user_id : String) → ApiKeyEntity → Bool
is_key_of key_id user_id k = str_eq k.id key_id && str_eq k.user_id user_id

unfoldable pub list_api_keys :
    {Db : Type 0} → (user_id : String) (page page_size : ℕ) → Registry Db → List ApiKeyEntity × ℕ
list_api_keys user_id page page_size r =
    let own = keep (is_of_user user_id) r.api_keys in
    (map hide_hash (take page_size (drop ((page - 1) * page_size) own)), length own)

-- `repository.remove(key)`: the row with its id.
unfoldable pub remove_key : ApiKeyEntity → List ApiKeyEntity → List ApiKeyEntity
remove_key key keys = keep (λ k. not (str_eq k.id key.id)) keys

unfoldable pub touch_key : (key_id : String) (now : ℕ) → List ApiKeyEntity → List ApiKeyEntity
touch_key key_id now keys =
    map (λ k. if str_eq k.id key_id then record k { last_used_at = some now } else k) keys

unfoldable pub is_active_user : (user_id : String) → UserEntity → Bool
is_active_user user_id u = str_eq u.id user_id && u.is_active

-- validateApiKey from the parsed value on. The update of `lastUsedAt` is not awaited and its failure
-- is ignored: it is taken to run.
unfoldable pub validate_owner :
    {Db : Type 0} → (user_id key_id : String) (now : ℕ) → Registry Db → Registry Db × Result Caller
validate_owner user_id key_id now r = elim (find (is_active_user user_id) r.users) [
  | none ↦ (r, err unauthorized)
  | some user ↦ (
    record r { api_keys = touch_key key_id now r.api_keys },
    ok (record { sub = user.id; email = user.email; role = user.role; key_id = key_id }),
  )
]

unfoldable pub validate_value :
    {Db : Type 0} → Value → (now : ℕ) → Registry Db → Registry Db × Result Caller
validate_value (token_text t) now r = (r, err malformed)
validate_value (key_owner user_id key_id) now r = validate_owner user_id key_id now r

module _ (R : Redis Value) where
  open R use {Db, get, del, scan}

  -- Whether the value under a key is the JSON of the key with this id.
  unfoldable pub names_key : (key_id : String) → Db → (key : String) → Bool
  names_key key_id db key = elim (get key db) [
    | none ↦ false
    | some v ↦ elim v [ token_text t ↦ false | key_owner u k ↦ str_eq k key_id ]
  ]

  unfoldable pub del_all : List String → Db → Db
  del_all [] db = db
  del_all (k ∷ ks) db = del_all ks (del k db)

  -- What is in toDelete when the stream of the scan ends: `match: 'apikey:lookup:*'`, then the test
  -- of each value. The handler of the stream is not awaited, so that only those keys count whose GET
  -- is answered by then.
  unfoldable pub lookup_keys_of :
      (answered : (key : String) → Bool) → (key_id : String) → Db → List String
  lookup_keys_of answered key_id db =
      keep (names_key key_id db) (keep answered (keep (starts_with lookup_prefix) (scan db)))

module _ (C : Crypto) (R : Redis Value) where
  open R use {Db, get, set, del, expire}

  unfoldable pub create_api_key :
      (user_id name hex salt id : String) (now : ℕ) → Registry Db → Registry Db × NewKey
  create_api_key user_id name hex salt id now r =
      let raw_key = raw_key_of hex in
      let saved : ApiKeyEntity = record {
        id = id;
        user_id = user_id;
        name = name;
        key_hash = Crypto.hash C raw_key salt 10;
        key_prefix = take_chars 12 raw_key;
        created_at = now;
        last_used_at = none;
        expires_at = none;
      } in
      let key = lookup_key (Crypto.sha256 C raw_key) in
      (
        record r {
          db = expire key lookup_ttl (set key (key_owner user_id id) r.db);
          api_keys = saved ∷ r.api_keys;
        },
        record {
          id = id;
          key = raw_key;
          key_prefix = saved.key_prefix;
          name = name;
          created_at = now;
        },
      )

  -- `answered` are the keys whose GET is answered when the stream of the scan ends.
  unfoldable pub revoke_api_key :
      (answered : (key : String) → Bool)
      → (user_id key_id : String) → Registry Db
      → Registry Db × Result (Unit {0})
  revoke_api_key answered user_id key_id r = elim (find (is_key_of key_id user_id) r.api_keys) [
    | none ↦ (r, err not_found)
    | some key ↦
        let hashless = del (str_append "apikey:" key.key_hash) r.db in
        (
          record r {
            db = del_all R (lookup_keys_of R answered key_id hashless) hashless;
            api_keys = remove_key key r.api_keys;
          },
          ok tt,
        )
  ]

  unfoldable pub validate_api_key :
      (raw_key : String) (now : ℕ) → Registry Db → Registry Db × Result Caller
  validate_api_key raw_key now r =
      if str_eq raw_key "" || not (starts_with "esk_" raw_key)
      then (r, err unauthorized)
      else elim (get (lookup_key (Crypto.sha256 C raw_key)) r.db) [
        | none ↦ (r, err unauthorized)
        | some v ↦ validate_value v now r
      ]
