-- ===== src/Gateway/Config.antt =====
-- config/platform-config.service.ts and config/platform-config.controller.ts of the gateway, and the
-- two services that read its settings: config/platform-config.service.ts of storage-service and
-- getConfiguredTtlSeconds in cache/cache.service.ts of cdn-service, each with the key of its client.
-- A body is not validated: a setting is a natural number or any other value. What JavaScript makes
-- of numbers and texts is a parameter.
pub mod Readers
mod Tests
use edge_sphere_self_hosted.Prelude.{
  ℕ, ◌≡◌, List, [], ◌∷◌, Option, none, some, Bool, true, false, ◌||◌, if◌then◌else◌, is_some,
  or_else, not, ltb, String, str_eq,
}
use edge_sphere_self_hosted.Prelude.Maps.{lookup, insert}
use edge_sphere_self_hosted.Cdn.{physical}

-- `String(n)` and `parseInt(t, 10)`, whose results are the natural numbers and more, NaN for one: a
-- number that was made a text is read back.
pub record Numbers : Type 1 where
  pub Parsed : Type 0
  pub natural : ℕ → Parsed
  pub digits : ℕ → String
  pub parse_int : String → Parsed
  pub parse_int-digits : (n : ℕ) → parse_int (digits n) ≡ natural n
  pub digits-given : (n : ℕ) → str_eq (digits n) "" ≡ false

-- A setting of a body: another value (a text, null, a negative number, a fraction, an object) has
-- its `String(value)` and compares with `value < n` and `value > n`.
pub data Input : Type 0 where
  number : ℕ → Input
  other : (as_text : String) (less more : ℕ → Bool) → Input

pub record Updates : Type 0 where
  pub cache_ttl_seconds : Option Input
  pub max_file_size_mb : Option Input
  pub rate_limit_per_ip : Option Input

-- The fields of a hash in Redis.
pub record ConfigFields : Type 0 where
  pub cache_ttl_seconds : Option String
  pub max_file_size_mb : Option String
  pub rate_limit_per_ip : Option String

-- The hashes under their physical keys.
abbrev pub Hashes : Type 0
Hashes = List (String × ConfigFields)

pub record PlatformConfig (N : Type 0) : Type 0 where
  pub cache_ttl_seconds : N
  pub max_file_size_mb : N
  pub rate_limit_per_ip : N

unfoldable pub config_key : String
config_key = "edgesphere:platform_config"

unfoldable pub hgetall : (key : String) → Hashes → ConfigFields
hgetall key db = elim (lookup key db) [
  | none ↦ record { cache_ttl_seconds = none; max_file_size_mb = none; rate_limit_per_ip = none }
  | some fields ↦ fields
]

-- HSET writes the fields that it is given.
unfoldable pub written : Option String → Option String → Option String
written none old = old
written (some new) old = some new

unfoldable pub hset_fields : ConfigFields → ConfigFields → ConfigFields
hset_fields given raw = record {
  cache_ttl_seconds = written given.cache_ttl_seconds raw.cache_ttl_seconds;
  max_file_size_mb = written given.max_file_size_mb raw.max_file_size_mb;
  rate_limit_per_ip = written given.rate_limit_per_ip raw.rate_limit_per_ip;
}

unfoldable pub hset : (key : String) → ConfigFields → Hashes → Hashes
hset key given db = insert key (hset_fields given (hgetall key db)) db

pub data Answer (N : Type 0) : Type 0 where
  ok : PlatformConfig N → Answer N
  forbidden bad_request : Answer N

-- `value < low || value > high`.
unfoldable pub is_outside : (low high : ℕ) → Option Input → Bool
is_outside low high none = false
is_outside low high (some (number n)) = ltb n low || ltb high n
is_outside low high (some (other t less more)) = less low || more high

unfoldable pub out_of_range : Updates → Bool
out_of_range updates =
    is_outside 1 86400 updates.cache_ttl_seconds
    || (is_outside 1 10240 updates.max_file_size_mb
        || is_outside 1 100000 updates.rate_limit_per_ip)

module _ (J : Numbers) where
  open J use {Parsed, natural, digits, parse_int}

  -- `raw ? parseInt(raw, 10) : default`.
  unfoldable pub read_number : (default : ℕ) → Option String → Parsed
  read_number default none = natural default
  read_number default (some t) = if str_eq t "" then natural default else parse_int t

  unfoldable pub get_config : Hashes → PlatformConfig Parsed
  get_config db =
      let raw = hgetall config_key db in
      record {
        cache_ttl_seconds = read_number 3600 raw.cache_ttl_seconds;
        max_file_size_mb = read_number 5120 raw.max_file_size_mb;
        rate_limit_per_ip = read_number 100 raw.rate_limit_per_ip;
      }

  unfoldable pub get_rate_limit_per_ip : Hashes → Parsed
  get_rate_limit_per_ip db = read_number 100 (hgetall config_key db).rate_limit_per_ip

  -- The reader of the storage service: its client has no prefix, and an exception of Redis gives the
  -- default.
  unfoldable pub get_max_file_size_mb : (readable : Bool) (default : ℕ) → Hashes → Parsed
  get_max_file_size_mb readable default db =
      if readable
      then read_number default (hgetall "edgesphere:platform_config" db).max_file_size_mb
      else natural default

  -- The reader of the CDN service: its client puts its prefix before the key.
  unfoldable pub get_configured_ttl_seconds : (default : ℕ) → Hashes → Parsed
  get_configured_ttl_seconds default db =
      read_number default (hgetall (physical "platform_config") db).cache_ttl_seconds

  unfoldable pub text_of : Option Input → Option String
  text_of none = none
  text_of (some (number n)) = some (digits n)
  text_of (some (other t less more)) = some t

  unfoldable pub fields_of : Updates → ConfigFields
  fields_of updates = record {
    cache_ttl_seconds = text_of updates.cache_ttl_seconds;
    max_file_size_mb = text_of updates.max_file_size_mb;
    rate_limit_per_ip = text_of updates.rate_limit_per_ip;
  }

  -- Nothing is written when the update has no field.
  unfoldable pub update_config : Updates → Hashes → Hashes × PlatformConfig Parsed
  update_config updates db =
      let after =
        if is_some updates.cache_ttl_seconds
          || (is_some updates.max_file_size_mb || is_some updates.rate_limit_per_ip)
        then hset config_key (fields_of updates) db
        else db in
      (after, get_config after)

  -- `role` is the role of the caller, if the request has one.
  unfoldable pub patch_config : (role : Option String) → Updates → Hashes → Hashes × Answer Parsed
  patch_config role updates db =
      if not (str_eq (or_else role "") "admin")
      then (db, forbidden)
      else if out_of_range updates
      then (db, bad_request)
      else let (after, config) = update_config updates db in (after, ok config)
