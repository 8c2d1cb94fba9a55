-- ===== src/Storage/Files/Tests.antt =====
-- Runs on a bucket with two versions of one file.
use edge_sphere_self_hosted.Prelude.{
  ℕ, ◌≡◌, refl, List, [], ◌∷◌, Bool, true, false, Option, none, some, String, arith,
}
use edge_sphere_self_hosted.Storage.Files.{
  BucketEntity, FileEntity, Upload, Store, ok, get_bucket_or_throw, may_use, supersede, final_key,
  store_file, uploaded, upload_file, download_file,
}
use edge_sphere_self_hosted.Storage.Files.Versions.{upload_file-IsSingle, upload-download, IsChoice}
use edge_sphere_self_hosted.Storage.Files.Counting.{IsSingle}

abbrev pics : BucketEntity
pics = record { id = "b"; user_id = "ann"; name = "pics"; region = "eu"; is_public = false }

abbrev version_row : String → ℕ → Bool → FileEntity
version_row id version is_latest = record {
  id = id;
  bucket_id = "b";
  key = "a.txt";
  size = 5;
  content_type = "text/plain";
  etag = "e";
  version = version;
  is_latest = is_latest;
  original_name = "a.txt";
}

abbrev two_versions : Store
two_versions = record {
  buckets = pics ∷ [];
  files = version_row "2" 2 true ∷ version_row "1" 1 false ∷ [];
  effects = [];
}

two_versions-IsSingle : IsSingle two_versions.files
two_versions-IsSingle bucket_id key = ground arith

abbrev upload : Upload
upload = record { size = 9; mimetype = "text/plain"; original_name = "a.txt" }

abbrev third : FileEntity
third = record {
  id = "3";
  bucket_id = "b";
  key = "a.txt";
  size = 9;
  content_type = "text/plain";
  etag = "e3";
  version = 3;
  is_latest = true;
  original_name = "a.txt";
}

third_lem :
    (upload_file "ann" "pics" upload (some "a.txt") "u" 10 (some "e3") "3" two_versions).1
    ≡ ok third
unfolding upload_file get_bucket_or_throw may_use final_key store_file supersede uploaded
third_lem = refl

upload_file-IsSingle_example :
    IsSingle
      (upload_file "ann" "pics" upload (some "a.txt") "u" 10 (some "e3") "3" two_versions).0.files
upload_file-IsSingle_example =
    upload_file-IsSingle "ann" "pics" upload (some "a.txt") "u" 10 (some "e3") "3" two_versions
      two_versions-IsSingle

abbrev first_row : List FileEntity → Option FileEntity
first_row [] = none
first_row (f ∷ files) = some f

first_row-IsChoice : IsChoice first_row
first_row-IsChoice f = refl

upload-download_example :
    let outcome =
      upload_file "ann" "pics" upload (some "a.txt") "u" 10 (some "e3") "3" two_versions in
    download_file "ann" "pics" (final_key (some "a.txt") "u") none first_row true outcome.0
    ≡ ok third
upload-download_example =
    upload-download "ann" "pics" upload (some "a.txt") "u" 10 (some "e3") "3" two_versions third
      first_row two_versions-IsSingle first_row-IsChoice third_lem
