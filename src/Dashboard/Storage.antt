-- ===== src/Dashboard/Storage.antt =====
-- app/dashboard/storage/page.tsx: the state of the storage page and its handlers. The buckets that
-- SWR shows, and how each call of the API ends, are arguments; a handler runs to its end before
-- another, so that the flags of a call under way are back at its end.
pub mod Deleting
mod Tests
use Prim.Native.String.{◌++◌ as str_append}
use edge_sphere_self_hosted.Prelude.{
  ℕ, ◌+◌, ◌-◌, ◌/◌, List, [], ◌∷◌, ◌++◌, Bool, true, false, Option, none, some, String, str_eq,
  if◌then◌else◌, find, max,
}

-- How a call of the API ends: with an exception that may be an Error with its message.
pub data Outcome : Type 0 where
  done : Outcome
  failed : (message : Option String) → Outcome

-- A presigned URL, or the exception.
pub data Link : Type 0 where
  url : String → Link
  no_link : (message : Option String) → Link

pub data ApiCall : Type 0 where
  post_bucket : (name region : String) (is_public : Bool) → ApiCall
  delete_bucket : (name : String) → ApiCall
  post_file : (bucket key : String) → ApiCall
  delete_file : (bucket key : String) → ApiCall
  post_presign : (bucket key : String) → ApiCall

pub data Toast : Type 0 where
  success error : (message : String) → Toast

pub record Page : Type 0 where
  pub bucket_page : ℕ
  pub selected_bucket_name : Option String
  pub show_create_modal : Bool
  pub show_upload_zone : Bool
  pub new_bucket_name : String
  pub new_bucket_region : String
  pub new_bucket_public : Bool
  pub creating : Bool
  pub uploading : Bool
  pub error : String
  pub bucket_to_delete : Option String
  pub file_to_delete : Option String
  pub toasts : List Toast
  pub calls : List ApiCall
  pub opened : List String
  pub copied : List String

abbrev pub page_size : ℕ
page_size = 20

unfoldable pub bucket_total_pages : Option ℕ → ℕ
bucket_total_pages none = 1
bucket_total_pages (some total) = max 1 ((total + (page_size - 1)) / page_size)

-- The selected bucket, if the page of buckets that is shown has it.
unfoldable pub selected_bucket : (buckets : List String) → Page → Option String
selected_bucket buckets page = elim page.selected_bucket_name [
  | none ↦ none
  | some name ↦ find (λ b. str_eq b name) buckets
]

unfoldable pub message_or : Option String → String → String
message_or none otherwise = otherwise
message_or (some message) otherwise = message

unfoldable pub with_toast : Toast → Page → Page
with_toast toast page = record page { toasts = page.toasts ++ toast ∷ [] }

unfoldable pub with_call : ApiCall → Page → Page
with_call call page = record page { calls = page.calls ++ call ∷ [] }

unfoldable pub quoted : (before name after : String) → String
quoted before name after =
    str_append before (str_append "\"" (str_append name (str_append "\"" after)))

unfoldable pub created : Outcome → Page → Page
created done page =
    with_toast (success (quoted "Bucket " page.new_bucket_name " created")) (record page {
      show_create_modal = false;
      new_bucket_name = "";
      new_bucket_public = false;
      creating = false;
    })
created (failed message) page =
    let text = message_or message "Failed to create bucket" in
    with_toast (Toast.error text) (record page { error = text; creating = false })

unfoldable pub handle_create_bucket : Outcome → Page → Page
handle_create_bucket outcome page =
    if str_eq page.new_bucket_name ""
    then page
    else created outcome (
        with_call (post_bucket page.new_bucket_name page.new_bucket_region page.new_bucket_public)
          (record page { creating = true; error = "" }))

-- The selection after the bucket with a name is gone.
unfoldable pub deselect : (name : String) → Option String → Option String
deselect name none = none
deselect name (some selected) = if str_eq selected name then none else some selected

unfoldable pub bucket_deleted : Outcome → (name : String) → Page → Page
bucket_deleted done name page =
    with_toast (success (quoted "Bucket " name " deleted")) (record page {
      selected_bucket_name = deselect name page.selected_bucket_name;
      bucket_to_delete = none;
    })
bucket_deleted (failed message) name page =
    with_toast (Toast.error (message_or message "Failed to delete bucket (is it empty?)"))
      (record page { bucket_to_delete = none })

unfoldable pub confirm_delete_bucket : Outcome → Page → Page
confirm_delete_bucket outcome page = elim page.bucket_to_delete [
  | none ↦ page
  | some name ↦ bucket_deleted outcome name (with_call (delete_bucket name) page)
]

unfoldable pub uploaded : Outcome → (name : String) → Page → Page
uploaded done name page =
    with_toast (success (quoted "Uploaded " name ""))
      (record page { show_upload_zone = false; uploading = false })
uploaded (failed message) name page =
    with_toast (Toast.error (message_or message "Upload failed"))
      (record page { uploading = false })

-- `file` is the name of the chosen file.
unfoldable pub handle_upload :
    (buckets : List String) (file : Option String) → Outcome → Page → Page
handle_upload buckets none outcome page = page
handle_upload buckets (some file) outcome page = elim (selected_bucket buckets page) [
  | none ↦ page
  | some bucket ↦
      uploaded outcome file (with_call (post_file bucket file) (record page { uploading = true }))
]

unfoldable pub file_deleted : Outcome → (key : String) → Page → Page
file_deleted done key page =
    with_toast (success (quoted "Deleted " key "")) (record page { file_to_delete = none })
file_deleted (failed message) key page =
    with_toast (Toast.error (message_or message "Failed to delete file"))
      (record page { file_to_delete = none })

unfoldable pub confirm_delete_file : (buckets : List String) → Outcome → Page → Page
confirm_delete_file buckets outcome page = elim (selected_bucket buckets page) [
  | none ↦ page
  | some bucket ↦ elim page.file_to_delete [
    | none ↦ page
    | some key ↦ file_deleted outcome key (with_call (delete_file bucket key) page)
  ]
]

unfoldable pub downloaded : Link → Page → Page
downloaded (url link) page = record page { opened = page.opened ++ link ∷ [] }
downloaded (no_link message) page =
    with_toast (Toast.error (message_or message "Failed to generate download link")) page

unfoldable pub handle_download : (buckets : List String) (key : String) → Link → Page → Page
handle_download buckets key link page = elim (selected_bucket buckets page) [
  | none ↦ page
  | some bucket ↦ downloaded link (with_call (post_presign bucket key) page)
]

unfoldable pub link_copied : Link → Page → Page
link_copied (url link) page =
    with_toast (success "Presigned link copied to clipboard")
      (record page { copied = page.copied ++ link ∷ [] })
link_copied (no_link message) page =
    with_toast (Toast.error (message_or message "Failed to generate link")) page

unfoldable pub handle_copy_link : (buckets : List String) (key : String) → Link → Page → Page
handle_copy_link buckets key link page = elim (selected_bucket buckets page) [
  | none ↦ page
  | some bucket ↦ link_copied link (with_call (post_presign bucket key) page)
]
