-- ===== src/Storage/Routes/Access.antt =====
-- Who may use the routes of the buckets and of the files.
use edge_sphere_self_hosted.Prelude.{
  List, Bool, ℕ, ◌≡◌, refl, ap, inl, inr, ◌⊎◌, true, false, Option, none, some, String, str_eq,
  find,
}
use edge_sphere_self_hosted.Auth.Guards.{Claims, storage_guard}
use edge_sphere_self_hosted.Storage.Files.{
  BucketEntity, FileEntity, Store, forbidden, err, is_named, may_use, get_bucket_or_throw,
  download_file,
}
use edge_sphere_self_hosted.Storage.Routes.{
  Request, unauthenticated, file_answer, create_bucket_request, list_buckets_request,
  get_bucket_request, delete_bucket_request, upload_request, list_files_request, download_request,
  delete_request, presign_request, handle, is_guarded, as_user, serve,
}

-- A request for the download of a file.
abbrev pub IsDownload : Request → Type 0
IsDownload req =
    (bucket key : String) × (version : Option ℕ) × (choose : List FileEntity → Option FileEntity)
    × (stream : Bool) × (req ≡ download_request bucket key version choose stream)

-- Every other route has the guard.
guarded-cases : (req : Request) → (is_guarded req ≡ true) ⊎ IsDownload req
unfolding is_guarded
guarded-cases (create_bucket_request name region is_public exists done id) = inl refl
guarded-cases (list_buckets_request page page_size) = inl refl
guarded-cases (get_bucket_request name) = inl refl
guarded-cases (delete_bucket_request name exists done) = inl refl
guarded-cases (upload_request bucket file key uuid max_size_mb minio id) = inl refl
guarded-cases (list_files_request bucket page page_size) = inl refl
guarded-cases (download_request bucket key version choose stream) =
    inr (bucket, key, version, choose, stream, refl)
guarded-cases (delete_request bucket key choose minio) = inl refl
guarded-cases (presign_request bucket key expiry_seconds method sign) = inl refl

download-unguarded : (req : Request) → IsDownload req → is_guarded req ≡ false
unfolding is_guarded
download-unguarded req (bucket, key, version, choose, stream, same) = ap is_guarded same

-- The one route without the guard only reads.
handle-keeps : (req : Request) (s : Store) → is_guarded req ≡ false → (handle "" req s).0 ≡ s
unfolding handle is_guarded
handle-keeps (create_bucket_request name region is_public exists done id) s e = absurd (cc e)
handle-keeps (list_buckets_request page page_size) s e = refl
handle-keeps (get_bucket_request name) s e = refl
handle-keeps (delete_bucket_request name exists done) s e = absurd (cc e)
handle-keeps (upload_request bucket file key uuid max_size_mb minio id) s e = absurd (cc e)
handle-keeps (list_files_request bucket page page_size) s e = refl
handle-keeps (download_request bucket key version choose stream) s e = refl
handle-keeps (delete_request bucket key choose minio) s e = absurd (cc e)
handle-keeps (presign_request bucket key expiry_seconds method sign) s e = refl

-- The answer to a request for the files of a bucket that is not the user's, if it is one.
pub refused :
    (user_id bucket : String) (b : BucketEntity) (s : Store)
    → find (is_named bucket) s.buckets ≡ some b
    → b.is_public ≡ false
    → str_eq b.user_id user_id ≡ false
    → get_bucket_or_throw user_id bucket false s ≡ err forbidden
unfolding get_bucket_or_throw may_use
refused user_id bucket b s found private other =
    rw (get_bucket_or_throw, found, private, other) refl

module _ (verify : (secret token : String) → Option Claims)
    (extract : (header : Option String) → Option String) where
  -- A request whose token the guard does not take changes no table and nothing in the object store,
  -- and is answered that it is not authenticated unless it is for the download of a file.
  pub serve-authenticated :
      (setting header : Option String) (req : Request) (s : Store)
      → storage_guard verify extract setting header ≡ none
      → ((serve verify extract setting header req s).0 ≡ s)
        × (((serve verify extract setting header req s).1 ≡ unauthenticated) ⊎ IsDownload req)
  unfolding serve as_user
  serve-authenticated setting header req s unknown = elim (guarded-cases req) [
    | inl guarded ↦ rw (guarded, unknown) (refl, inl refl)
    | inr download ↦
        let unguarded = download-unguarded req download in
        rw (unguarded) (handle-keeps req s unguarded, inr download)
  ]

  -- Whatever token a request for a download shows, the owner's included, a file of a bucket that is
  -- not public is not handed out: the answer is that this is forbidden, where the bucket has an
  -- owner.
  pub private_download_refused :
      (setting header : Option String) (bucket key : String) (version : Option ℕ)
      (choose : List FileEntity → Option FileEntity) (stream : Bool) (b : BucketEntity) (s : Store)
      → find (is_named bucket) s.buckets ≡ some b
      → b.is_public ≡ false
      → str_eq b.user_id "" ≡ false
      → serve verify extract setting header (download_request bucket key version choose stream) s
        ≡ (s, file_answer (err forbidden))
  unfolding serve handle is_guarded download_file
  private_download_refused setting header bucket key version choose stream b s found private owned =
      rw (download_file, refused "" bucket b s found private owned) refl
