-- ===== src/Storage/Routes/Tests.antt =====
-- Ann's private bucket, a request without a token and a download with hers.
use edge_sphere_self_hosted.Prelude.{
  List, ◌⊎◌, ◌≡◌, refl, [], ◌∷◌, true, false, Option, none, some, String, str_eq, if◌then◌else◌,
}
use edge_sphere_self_hosted.Auth.Guards.{Claims, storage_token, storage_guard, verified}
use edge_sphere_self_hosted.Storage.Files.{BucketEntity, FileEntity, Store, forbidden, err}
use edge_sphere_self_hosted.Storage.Routes.{
  Request, unauthenticated, file_answer, delete_bucket_request, download_request, is_guarded, serve,
}
use edge_sphere_self_hosted.Storage.Routes.Access.{
  IsDownload, serve-authenticated, private_download_refused,
}

abbrev photos : BucketEntity
photos = record {
  id = "b1";
  user_id = "u1";
  name = "photos";
  region = "us-east-1";
  is_public = false;
}

abbrev cat : FileEntity
cat = record {
  id = "f1";
  bucket_id = "b1";
  key = "cat.png";
  size = 20;
  content_type = "image/png";
  etag = "e1";
  version = 1;
  is_latest = true;
  original_name = "cat.png";
}

abbrev store : Store
store = record { buckets = photos ∷ []; files = cat ∷ []; effects = [] }

abbrev verify : String → String → Option Claims
verify secret token =
    if str_eq token "t1"
    then some (record { sub = some "u1"; email = some "ann@x"; role = some "user" })
    else none

abbrev first_row : List FileEntity → Option FileEntity
first_row [] = none
first_row (f ∷ files) = some f

abbrev delete_photos : Request
delete_photos = delete_bucket_request "photos" true true

no_token : storage_guard verify storage_token (some "k") none ≡ none
unfolding storage_guard storage_token verified
no_token = refl

is_guarded-delete : is_guarded delete_photos ≡ true
unfolding is_guarded
is_guarded-delete = refl

serve-authenticated_example :
    ((serve verify storage_token (some "k") none delete_photos store).0 ≡ store)
    × (((serve verify storage_token (some "k") none delete_photos store).1 ≡ unauthenticated)
        ⊎ IsDownload delete_photos)
serve-authenticated_example =
    serve-authenticated verify storage_token (some "k") none delete_photos store no_token

private_download_refused_example :
    serve verify storage_token
      (some "k")
      (some "Bearer t1")
      (download_request "photos" "cat.png" none first_row true)
      store
    ≡ (store, file_answer (err forbidden))
private_download_refused_example =
    private_download_refused verify storage_token (some "k") (some "Bearer t1") "photos" "cat.png"
      none first_row true photos store refl refl refl
