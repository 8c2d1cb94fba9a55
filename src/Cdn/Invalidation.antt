-- ===== src/Cdn/Invalidation.antt =====
-- apps/cache-service, invalidation/invalidation.service.ts: purges of the CDN's keys, their events
-- and their history. The client of this service puts no prefix before keys.
use Prim.Native.String.{◌++◌ as str_append}
use edge_sphere_self_hosted.Prelude.{
  ℕ, List, [], ◌∷◌, ◌++◌, Bool, ◌||◌, Option, none, some, String, str_eq, if◌then◌else◌, keep,
  length, take,
}
use edge_sphere_self_hosted.Redis.{Redis}
use edge_sphere_self_hosted.Cdn.{Stored, del_keys}

pub data PurgeType : Type 0 where
  file bucket_wide by_prefix everything : PurgeType

-- The fields that a kind of purge does not have are missing.
pub record Details : Type 0 where
  pub bucket : Option String
  pub key : Option String
  pub prefix_of_key : Option String

pub record PurgeEvent : Type 0 where
  pub purge_id : String
  pub timestamp : ℕ
  pub type : PurgeType
  pub details : Details

pub record PurgeRecord : Type 0 where
  pub event : PurgeEvent
  pub keys_deleted : ℕ

-- `published` are the events of the channel cache:invalidate, the newest last; `history` is the list
-- purge:history, the newest first.
pub record Purges (Db : Type 0) : Type 0 where
  pub db : Db
  pub published : List PurgeEvent
  pub history : List PurgeRecord

unfoldable pub file_pattern : (bucket key : String) → String
file_pattern bucket key =
    str_append "cdn:*:" (str_append bucket (str_append "/" (str_append key ":*")))

unfoldable pub bucket_pattern : (bucket : String) → String
bucket_pattern bucket = str_append "cdn:*:" (str_append bucket ":*")

unfoldable pub prefix_pattern : (bucket prefix_of_key : String) → String
prefix_pattern bucket prefix_of_key =
    str_append "cdn:*:" (str_append bucket (str_append "/" (str_append prefix_of_key "*")))

-- The four purges of the controller.
pub data Purge : Type 0 where
  purge_file : (bucket key : String) → Purge
  purge_bucket : (bucket : String) → Purge
  purge_prefix : (bucket prefix_of_key : String) → Purge
  purge_all : Purge

unfoldable pub pattern_of : Purge → String
pattern_of (purge_file bucket key) = file_pattern bucket key
pattern_of (purge_bucket bucket) = bucket_pattern bucket
pattern_of (purge_prefix bucket prefix_of_key) = prefix_pattern bucket prefix_of_key
pattern_of purge_all = "*"

unfoldable pub type_of : Purge → PurgeType
type_of (purge_file bucket key) = file
type_of (purge_bucket bucket) = bucket_wide
type_of (purge_prefix bucket prefix_of_key) = by_prefix
type_of purge_all = everything

unfoldable pub details_of : Purge → Details
details_of (purge_file bucket key) = record {
  bucket = some bucket;
  key = some key;
  prefix_of_key = none;
}
details_of (purge_bucket bucket) = record { bucket = some bucket; key = none; prefix_of_key = none }
details_of (purge_prefix bucket prefix_of_key) = record {
  bucket = some bucket;
  key = none;
  prefix_of_key = some prefix_of_key;
}
details_of purge_all = record { bucket = none; key = none; prefix_of_key = none }

module _ (R : Redis Stored) (matches : (pattern key : String) → Bool) where
  open R use {Db, scan}

  -- executePurge; the scan runs to its end.
  unfoldable pub execute_purge :
      (pattern : String)
      → PurgeType
      → Details
      → (purge_id : String) (timestamp : ℕ) → Purges Db
      → Purges Db × PurgeRecord
  execute_purge pattern type details purge_id timestamp s =
      let used = if str_eq pattern "*" then "cdn:*" else pattern in
      let keys = keep (matches used) (scan s.db) in
      let event : PurgeEvent = record {
        purge_id = purge_id;
        timestamp = timestamp;
        type = type;
        details = details;
      } in
      let entry : PurgeRecord = record { event = event; keys_deleted = length keys } in
      (
        record {
          db = del_keys R keys s.db;
          published = s.published ++ event ∷ [];
          history = take 100 (entry ∷ s.history);
        },
        entry,
      )

  unfoldable pub purge :
      Purge → (purge_id : String) (timestamp : ℕ) → Purges Db → Purges Db × PurgeRecord
  purge p purge_id timestamp s =
      execute_purge (pattern_of p) (type_of p) (details_of p) purge_id timestamp s

-- getPurgeHistory.
unfoldable pub get_purge_history : {Db : Type 0} → (limit : ℕ) → Purges Db → List PurgeRecord
get_purge_history limit s = take limit s.history

-- An event of the channel storage:events.
pub record StorageEvent : Type 0 where
  pub action : String
  pub bucket : String
  pub key : String

unfoldable pub invalidates : StorageEvent → Bool
invalidates event = str_eq event.action "delete" || str_eq event.action "update"

module _ (R : Redis Stored) (matches : (pattern key : String) → Bool) where
  open R use {Db}

  -- The subscriber: a message that JSON.parse refuses is logged, which is `none` here.
  unfoldable pub on_message :
      (channel : String) (event : Option StorageEvent) (purge_id : String) (timestamp : ℕ)
      → Purges Db
      → Purges Db
  on_message channel event purge_id timestamp s =
      if str_eq channel "storage:events"
      then elim event [
        | none ↦ s
        | some e ↦
            if invalidates e
            then (purge R matches (purge_file e.bucket e.key) purge_id timestamp s).0
            else s
      ]
      else s
