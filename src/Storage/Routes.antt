-- ===== src/Storage/Routes.antt =====
-- apps/storage-service: buckets/buckets.controller.ts and files/files.controller.ts, which put the
-- guard before the services of Files, and the presigned URLs of files/files.service.ts. Query
-- numbers are read. A token that the guard lets in says who its user is, as those of the auth
-- service do; for a download nobody is the empty text.
pub mod Access
mod Tests
use edge_sphere_self_hosted.Prelude.{
  ℕ, ◌-◌, ◌*◌, List, [], ◌∷◌, Bool, true, false, Option, none, some, String, str_eq, if◌then◌else◌,
  or_else, keep, length, drop, take, ◌==◌,
}
use edge_sphere_self_hosted.Auth.Guards.{Claims, storage_guard}
use edge_sphere_self_hosted.Storage.Files.{
  BucketEntity, FileEntity, Upload, Store, Error, bad_request, Result, ok, err, upstream,
  get_bucket_or_throw, upload_file, download_file, delete_file, list_files, create_bucket,
  get_bucket, delete_bucket,
}

pub data Method : Type 0 where
  get_method put_method other_method : Method

-- The object store's signer: of a method, a bucket, a key and the seconds that the URL holds.
abbrev pub Signer : Type 0
Signer = Method → (bucket key : String) → (expiry_seconds : ℕ) → Option String

-- A request with its inputs and with what MinIO and the database answer to it.
pub data Request : Type 0 where
  create_bucket_request :
      (name : String) (region : Option String) (is_public exists done : Bool) (id : String)
      → Request
  list_buckets_request : (page page_size : Option ℕ) → Request
  get_bucket_request : (name : String) → Request
  delete_bucket_request : (name : String) (exists done : Bool) → Request
  upload_request :
      (bucket : String)
      → Upload
      → (key : Option String) (uuid : String) (max_size_mb : ℕ) (minio : Option String)
        (id : String)
      → Request
  list_files_request : (bucket : String) (page page_size : Option ℕ) → Request
  download_request :
      (bucket key : String) (version : Option ℕ)
      → (choose : List FileEntity → Option FileEntity) → (stream : Bool) → Request
  delete_request :
      (bucket key : String) (choose : List FileEntity → Option FileEntity) (minio : Bool) → Request
  presign_request : (bucket key : String) (expiry_seconds : Option ℕ) → Method → Signer → Request

pub data Answer : Type 0 where
  unauthenticated : Answer
  bucket_answer : Result BucketEntity → Answer
  buckets_answer : List BucketEntity → (total : ℕ) → Answer
  file_answer : Result FileEntity → Answer
  files_answer : Result (List FileEntity × ℕ) → Answer
  url_answer : Result String → Answer
  done_answer : Result (Unit {0}) → Answer

-- `a || d` on a number.
unfoldable pub number_or : Option ℕ → ℕ → ℕ
number_or none d = d
number_or (some n) d = if n == 0 then d else n

unfoldable pub list_buckets : (user_id : String) (page page_size : ℕ) → Store → Answer
list_buckets user_id page page_size s =
    let own = keep (λ b. str_eq b.user_id user_id) s.buckets in
    buckets_answer (take page_size (drop ((page - 1) * page_size) own)) (length own)

unfoldable pub signed : Option String → Result String
signed (some url) = ok url
signed none = err upstream

-- The part of generatePresignedUrl behind the bucket.
unfoldable pub signed_url :
    Signer → (key : String) (expiry_seconds : ℕ) → Method → BucketEntity → Result String
signed_url sign key expiry_seconds get_method b = signed (sign get_method b.name key expiry_seconds)
signed_url sign key expiry_seconds put_method b = signed (sign put_method b.name key expiry_seconds)
signed_url sign key expiry_seconds other_method b = err bad_request

unfoldable pub generate_presigned_url :
    Signer → (user_id bucket key : String) (expiry_seconds : ℕ) → Method → Store → Result String
generate_presigned_url sign user_id bucket key expiry_seconds method s =
    elim (get_bucket_or_throw user_id bucket true s) [
      | err e ↦ err e
      | ok b ↦ signed_url sign key expiry_seconds method b
    ]

-- The handlers, for the user that the guard found.
unfoldable pub handle : (user_id : String) → Request → Store → Store × Answer
handle user_id (create_bucket_request name region is_public exists done id) s =
    let made = create_bucket user_id name region is_public exists done id s in
    (made.0, bucket_answer made.1)
handle user_id (list_buckets_request page page_size) s =
    (s, list_buckets user_id (number_or page 1) (number_or page_size 50) s)
handle user_id (get_bucket_request name) s = (s, bucket_answer (get_bucket user_id name s))
handle user_id (delete_bucket_request name exists done) s =
    let deleted = delete_bucket user_id name exists done s in (deleted.0, done_answer deleted.1)
handle user_id (upload_request bucket file key uuid max_size_mb minio id) s =
    let stored = upload_file user_id bucket file key uuid max_size_mb minio id s in
    (stored.0, file_answer stored.1)
handle user_id (list_files_request bucket page page_size) s =
    (s, files_answer (list_files user_id bucket (number_or page 1) (number_or page_size 50) s))
handle user_id (download_request bucket key version choose stream) s =
    (s, file_answer (download_file user_id bucket key version choose stream s))
handle user_id (delete_request bucket key choose minio) s =
    let deleted = delete_file user_id bucket key choose minio s in
    (deleted.0, done_answer deleted.1)
handle user_id (presign_request bucket key expiry_seconds method sign) s =
    let seconds = number_or expiry_seconds 3600 in
    (s, url_answer (generate_presigned_url sign user_id bucket key seconds method s))

-- Downloads are the one route without the guard.
unfoldable pub is_guarded : Request → Bool
is_guarded (download_request bucket key version choose stream) = false
is_guarded (create_bucket_request name region is_public exists done id) = true
is_guarded (list_buckets_request page page_size) = true
is_guarded (get_bucket_request name) = true
is_guarded (delete_bucket_request name exists done) = true
is_guarded (upload_request bucket file key uuid max_size_mb minio id) = true
is_guarded (list_files_request bucket page page_size) = true
is_guarded (delete_request bucket key choose minio) = true
is_guarded (presign_request bucket key expiry_seconds method sign) = true

unfoldable pub as_user : Option Claims → Request → Store → Store × Answer
as_user none req s = (s, unauthenticated)
as_user (some claims) req s = handle (or_else claims.sub "") req s

module _ (verify : (secret token : String) → Option Claims)
    (extract : (header : Option String) → Option String) where
  -- Nothing but the guard sets `req.user`.
  unfoldable pub serve : (setting header : Option String) → Request → Store → Store × Answer
  serve setting header req s =
      if is_guarded req
      then as_user (storage_guard verify extract setting header) req s
      else handle "" req s
