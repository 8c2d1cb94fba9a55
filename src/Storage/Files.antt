-- ===== src/Storage/Files.antt =====
-- files/files.service.ts and buckets/buckets.service.ts: buckets, and files with their versions.
-- The tables are lists with the newest row first. MinIO answers through arguments: `none` or `false`
-- is an exception. Where the code asks for one of several rows without an order, the choice is an
-- argument.
pub mod Counting
pub mod Versions
mod Tests
use edge_sphere_self_hosted.Prelude.{
  ℕ, ◌+◌, ◌-◌, ◌*◌, List, [], ◌∷◌, ◌++◌, Bool, true, false, not, ◌&&◌, ◌||◌, Option, none, some,
  String, str_eq, ltb, ◌==◌, if◌then◌else◌, find, keep, length, drop, take, is_some,
}

pub record BucketEntity : Type 0 where
  pub id : String
  pub user_id : String
  pub name : String
  pub region : String
  pub is_public : Bool

pub record FileEntity : Type 0 where
  pub id : String
  pub bucket_id : String
  pub key : String
  pub size : ℕ
  pub content_type : String
  pub etag : String
  pub version : ℕ
  pub is_latest : Bool
  pub original_name : String

-- The file of a request.
pub record Upload : Type 0 where
  pub size : ℕ
  pub mimetype : String
  pub original_name : String

pub data Effect : Type 0 where
  minio_put minio_delete : (bucket key : String) → Effect
  minio_create_bucket minio_delete_bucket : (bucket : String) → Effect

pub record Store : Type 0 where
  pub buckets : List BucketEntity
  pub files : List FileEntity
  pub effects : List Effect

pub data Error : Type 0 where
  not_found forbidden bad_request conflict upstream : Error

pub data Result {ℓ} (A : Type ℓ) : Type ℓ where
  ok : A → Result A
  err : Error → Result A

abbrev pub is_named : String → BucketEntity → Bool
is_named name b = str_eq b.name name

abbrev pub is_bucket_of : (user_id name : String) → BucketEntity → Bool
is_bucket_of user_id name b = str_eq b.user_id user_id && str_eq b.name name

unfoldable pub may_use : (user_id : String) (check_owner : Bool) → BucketEntity → Bool
may_use user_id true b = str_eq b.user_id user_id
may_use user_id false b = b.is_public || str_eq b.user_id user_id

unfoldable pub get_bucket_or_throw :
    (user_id name : String) (check_owner : Bool) → Store → Result BucketEntity
get_bucket_or_throw user_id name check_owner s = elim (find (is_named name) s.buckets) [
  | none ↦ err not_found
  | some b ↦ if may_use user_id check_owner b then ok b else err forbidden
]

abbrev pub is_file_of : (bucket_id key : String) → FileEntity → Bool
is_file_of bucket_id key f = str_eq f.bucket_id bucket_id && str_eq f.key key

abbrev pub is_latest_of : (bucket_id key : String) → FileEntity → Bool
is_latest_of bucket_id key f = is_file_of bucket_id key f && f.is_latest

abbrev pub is_version_of : (bucket_id key : String) (version : ℕ) → FileEntity → Bool
is_version_of bucket_id key version f = is_file_of bucket_id key f && f.version == version

-- `save` of a row that was read.
unfoldable pub save_file : FileEntity → List FileEntity → List FileEntity
save_file f [] = []
save_file f (g ∷ files) = (if str_eq g.id f.id then f else g) ∷ save_file f files

unfoldable pub superseded : FileEntity → FileEntity
superseded f = record f { is_latest = false }

-- `key || uuidv4()`.
unfoldable pub final_key : Option String → (uuid : String) → String
final_key none uuid = uuid
final_key (some key) uuid = if str_eq key "" then uuid else key

-- The number of the new version, and the rows once the old one is no longer the latest.
unfoldable pub supersede : (bucket_id key : String) → List FileEntity → ℕ × List FileEntity
supersede bucket_id key files = elim (find (is_latest_of bucket_id key) files) [
  | none ↦ (1, files)
  | some old ↦ (old.version + 1, save_file (superseded old) files)
]

unfoldable pub uploaded :
    (id etag key : String) → Upload → BucketEntity → (version : ℕ) → FileEntity
uploaded id etag key file b version = record {
  id = id;
  bucket_id = b.id;
  key = key;
  size = file.size;
  content_type = file.mimetype;
  etag = etag;
  version = version;
  is_latest = true;
  original_name = file.original_name;
}

unfoldable pub store_file :
    (id etag key : String) → Upload → BucketEntity → Store → Store × Result FileEntity
store_file id etag key file b s =
    let (version, rows) = supersede b.id key s.files in
    let row = uploaded id etag key file b version in
    (record s { files = row ∷ rows; effects = s.effects ++ minio_put b.name key ∷ [] }, ok row)

-- `minio` is the etag; `id` the id of the new row.
unfoldable pub upload_file :
    (user_id bucket_name : String)
    → Upload
    → (key : Option String) (uuid : String) (max_size_mb : ℕ) (minio : Option String) (id : String)
    → Store
    → Store × Result FileEntity
upload_file user_id bucket_name file key uuid max_size_mb minio id s =
    elim (get_bucket_or_throw user_id bucket_name true s) [
      | err e ↦ (s, err e)
      | ok b ↦
          if ltb (max_size_mb * 1024 * 1024) file.size then (s, err bad_request) else elim minio [
            | none ↦ (s, err upstream)
            | some etag ↦ store_file id etag (final_key key uuid) file b s
          ]
    ]

-- `choose` is the row that the database gives of those that findOne asks for, in whatever order.
unfoldable pub find_version :
    (bucket_id key : String) (version : Option ℕ)
    → (choose : List FileEntity → Option FileEntity) → Store
    → Option FileEntity
find_version bucket_id key none choose s = choose (keep (is_latest_of bucket_id key) s.files)
find_version bucket_id key (some version) choose s =
    choose (keep (is_version_of bucket_id key version) s.files)

-- The row whose type, size and etag are answered with the stream of the object; `stream` is whether
-- MinIO gives one.
unfoldable pub download_file :
    (user_id bucket_name key : String) (version : Option ℕ)
    → (choose : List FileEntity → Option FileEntity) → (stream : Bool) → Store
    → Result FileEntity
download_file user_id bucket_name key version choose stream s =
    elim (get_bucket_or_throw user_id bucket_name false s) [
      | err e ↦ err e
      | ok b ↦ elim (find_version b.id key version choose s) [
        | none ↦ err not_found
        | some f ↦ if stream then ok f else err upstream
      ]
    ]

unfoldable pub remove_file : FileEntity → List FileEntity → List FileEntity
remove_file f files = keep (λ g. not (str_eq g.id f.id)) files

-- `choose` is the row that the database gives of those with the key, whatever their version.
unfoldable pub delete_file :
    (user_id bucket_name key : String)
    → (choose : List FileEntity → Option FileEntity) → (minio : Bool) → Store
    → Store × Result (Unit {0})
delete_file user_id bucket_name key choose minio s =
    elim (get_bucket_or_throw user_id bucket_name true s) [
      | err e ↦ (s, err e)
      | ok b ↦ elim (choose (keep (is_file_of b.id key) s.files)) [
        | none ↦ (s, err not_found)
        | some f ↦
            if minio
            then (
              record s {
                files = remove_file f s.files;
                effects = s.effects ++ minio_delete b.name key ∷ [];
              },
              ok tt,
            )
            else (s, err upstream)
      ]
    ]

unfoldable pub list_files :
    (user_id bucket_name : String) (page page_size : ℕ) → Store → Result (List FileEntity × ℕ)
list_files user_id bucket_name page page_size s =
    elim (get_bucket_or_throw user_id bucket_name true s) [
      | err e ↦ err e
      | ok b ↦
          let rows = keep (λ f. str_eq f.bucket_id b.id) s.files in
          ok (take page_size (drop ((page - 1) * page_size) rows), length rows)
    ]

-- BucketsService. `exists` is the answer of MinIO; `done` whether its change succeeds.
unfoldable pub create_bucket :
    (user_id name : String) (region : Option String) (is_public : Bool) (exists done : Bool)
    (id : String)
    → Store
    → Store × Result BucketEntity
create_bucket user_id name region is_public exists done id s =
    let b : BucketEntity = record {
      id = id;
      user_id = user_id;
      name = name;
      region = final_key region "us-east-1";
      is_public = is_public;
    } in
    if is_some (find (is_named name) s.buckets)
    then (s, err conflict)
    else if exists
    then (record s { buckets = b ∷ s.buckets }, ok b)
    else if done
    then (
      record s { buckets = b ∷ s.buckets; effects = s.effects ++ minio_create_bucket name ∷ [] },
      ok b,
    )
    else (s, err upstream)

unfoldable pub get_bucket : (user_id name : String) → Store → Result BucketEntity
get_bucket user_id name s = elim (find (is_bucket_of user_id name) s.buckets) [
  | none ↦ err not_found
  | some b ↦ ok b
]

unfoldable pub remove_bucket : BucketEntity → List BucketEntity → List BucketEntity
remove_bucket b buckets = keep (λ c. not (str_eq c.id b.id)) buckets

unfoldable pub delete_bucket :
    (user_id name : String) (exists done : Bool) → Store → Store × Result (Unit {0})
delete_bucket user_id name exists done s = elim (get_bucket user_id name s) [
  | err e ↦ (s, err e)
  | ok b ↦
      let removed = remove_bucket b s.buckets in
      if ltb 0 (length (keep (λ f. str_eq f.bucket_id b.id) s.files))
      then (s, err bad_request)
      else if not exists
      then (record s { buckets = removed }, ok tt)
      else if done
      then (
        record s { buckets = removed; effects = s.effects ++ minio_delete_bucket name ∷ [] },
        ok tt,
      )
      else (s, err upstream)
]
