-- ===== src/Dashboard/Storage/Tests.antt =====
-- A file is uploaded to the selected bucket.
use edge_sphere_self_hosted.Prelude.{◌≡◌, refl, [], ◌∷◌, false, true, none, some}
use edge_sphere_self_hosted.Dashboard.Storage.{
  done, Page, post_file, handle_upload, selected_bucket, uploaded, with_toast, with_call, quoted,
  bucket_total_pages,
}

abbrev page : Page
page = record {
  bucket_page = 1;
  selected_bucket_name = some "b";
  show_create_modal = false;
  show_upload_zone = true;
  new_bucket_name = "";
  new_bucket_region = "us-east-1";
  new_bucket_public = false;
  creating = false;
  uploading = false;
  error = "";
  bucket_to_delete = none;
  file_to_delete = none;
  toasts = [];
  calls = [];
  opened = [];
  copied = [];
}

one_call :
    (handle_upload ("a" ∷ "b" ∷ []) (some "f.txt") done page).calls ≡ post_file "b" "f.txt" ∷ []
unfolding handle_upload selected_bucket uploaded with_toast with_call quoted
one_call = refl

pages : bucket_total_pages (some 41) ≡ 3
unfolding bucket_total_pages
pages = refl
