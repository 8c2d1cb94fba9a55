-- ===== src/Storage/Files/Versions.antt =====
-- Of the versions of a file one is the latest: what uploads keep, and what a deletion breaks.
use edge_sphere_self_hosted.Prelude.{
  ℕ, ◌*◌, ◌≡◌, refl, ap, ◌∙◌, List, [], ◌∷◌, true, false, Option, none, some, String, str_eq,
  eq_refl, ltb, List-cases, length, ◌≤◌, Bool, find, keep, arith, Bool-cases, Option-cases, inl,
  inr, ◌⊎◌,
}
use edge_sphere_self_hosted.Storage.Files.{
  BucketEntity, FileEntity, Upload, Store, Error, bad_request, upstream, Result, ok, err, is_named,
  may_use, get_bucket_or_throw, is_latest_of, final_key, supersede, uploaded, store_file,
  upload_file, find_version, download_file,
}
use edge_sphere_self_hosted.Storage.Files.Counting.{IsSingle, store-IsSingle, Result-cases}

-- The owner of a bucket may read it.
owner-reads :
    (user_id name : String) (s : Store) (b : BucketEntity) (t : Store)
    → get_bucket_or_throw user_id name true s ≡ ok b
    → t.buckets ≡ s.buckets
    → get_bucket_or_throw user_id name false t ≡ ok b
unfolding get_bucket_or_throw may_use
owner-reads user_id name s b t allowed same = elim (Option-cases (find (is_named name) s.buckets)) [
  | inl absent ↦ absurd (cc (rw (absent, get_bucket_or_throw) at allowed))
  | inr (c, found) ↦
      let there : find (is_named name) t.buckets ≡ some c =
        ap (find (is_named name)) same ∙ found in
      let owned = rw (found, get_bucket_or_throw) at allowed in
      rw (there, get_bucket_or_throw)
        (elim (Bool-cases (str_eq c.user_id user_id)) [
          | inl own ↦ ground (arith, owned)
          | inr foreign ↦ absurd (cc (rw foreign at owned))
        ])
]

-- What storing leaves: its answer, the bucket table, and the row under its key.
stored-row :
    (id etag key : String) (file : Upload) (b : BucketEntity) (s : Store)
    → let outcome = store_file id etag key file b s in
      (row : FileEntity) × (outcome.1 ≡ ok row)
      × (outcome.0.buckets ≡ s.buckets)
      × (find (is_latest_of b.id key) outcome.0.files ≡ some row)
unfolding store_file uploaded
stored-row id etag key file b s = (
  uploaded id etag key file b (supersede b.id key s.files).0,
  refl,
  refl,
  ground (arith, eq_refl b.id, eq_refl key),
)

-- Where one row at most passes a test, the row that is found is all of them.
only_kept :
    (p : FileEntity → Bool) (files : List FileEntity) (f : FileEntity)
    → length (keep p files) ≤ 1
    → find p files ≡ some f
    → keep p files ≡ f ∷ []
only_kept p [] f few found = absurd cc
only_kept p (g ∷ files) f few found = elim (Bool-cases (p g)) [
  | inl here ↦
      let same : g ≡ f = ground arith in
      let tail : length (keep p files) ≡ 0 = ground arith in
      elim (List-cases (keep p files)) [
        | inl empty ↦ rw (here, empty) (ap (λ x. x ∷ []) same)
        | inr (h, hs, more) ↦ absurd (omega (arith, ap length more))
      ]
  | inr elsewhere ↦ rw elsewhere (only_kept p files f (ground arith) (ground arith))
]

-- The database gives the only row that there is.
abbrev pub IsChoice : (List FileEntity → Option FileEntity) → Type 0
IsChoice choose = (f : FileEntity) → choose (f ∷ []) ≡ some f

download-found :
    (user_id bucket_name key : String) (choose : List FileEntity → Option FileEntity) (s : Store)
    (b : BucketEntity) (f : FileEntity)
    → get_bucket_or_throw user_id bucket_name false s ≡ ok b
    → find_version b.id key none choose s ≡ some f
    → download_file user_id bucket_name key none choose true s ≡ ok f
unfolding download_file
download-found user_id bucket_name key choose s b f allowed found =
    rw (allowed, download_file) (rw found refl)

module _ (user_id bucket_name : String) (file : Upload) (key : Option String) (uuid : String)
    (max_size_mb : ℕ) (minio : Option String) (id : String) (s : Store) where
  abbrev upload : Store × Result FileEntity
  upload = upload_file user_id bucket_name file key uuid max_size_mb minio id s

  -- An upload is refused and changes nothing, or stores a row in a bucket of the user's.
  upload-cases :
      ((e : Error) × (upload ≡ (s, err e)))
      ⊎ ((b : BucketEntity) × (etag : String) × (get_bucket_or_throw user_id bucket_name true s
            ≡ ok b)
          × (upload ≡ store_file id etag (final_key key uuid) file b s))
  unfolding upload_file
  upload-cases = elim (Result-cases (get_bucket_or_throw user_id bucket_name true s)) [
    | inr (e, refused) ↦ inl (e, rw (refused, upload_file) refl)
    | inl (b, allowed) ↦ elim (Bool-cases (ltb (max_size_mb * 1024 * 1024) file.size)) [
      | inl large ↦ inl (bad_request, rw (allowed, upload_file) (rw large refl))
      | inr fits ↦ elim (Option-cases minio) [
        | inl down ↦ inl (upstream, rw (allowed, upload_file) (rw fits (rw down refl)))
        | inr (etag, put) ↦
            inr (b, etag, allowed, rw (allowed, upload_file) (rw fits (rw put refl)))
      ]
    ]
  ]

  -- An upload keeps the latest row of each file unique, whatever its outcome.
  pub upload_file-IsSingle :
      IsSingle s.files
      → IsSingle (upload_file user_id bucket_name file key uuid max_size_mb minio id s).0.files
  upload_file-IsSingle single = elim upload-cases [
    | inl (e, refused) ↦ rw refused single
    | inr (b, etag, allowed, stored) ↦
        rw stored (store-IsSingle id etag (final_key key uuid) file b s single)
  ]

  -- When each file has at most one latest row, the row of a successful upload is what the user gets
  -- by a download of its key without a version, where the database gives the only row that there is
  -- and MinIO the stream.
  pub upload-download :
      (row : FileEntity) (choose : List FileEntity → Option FileEntity)
      → IsSingle s.files
      → IsChoice choose
      → let outcome = upload_file user_id bucket_name file key uuid max_size_mb minio id s in
        outcome.1 ≡ ok row
        → download_file user_id bucket_name (final_key key uuid) none choose true outcome.0 ≡ ok row
  unfolding find_version
  upload-download row choose single gives e = elim upload-cases [
    | inl (error, refused) ↦ absurd (cc (ap (λ x. x.1) refused, e))
    | inr (b, etag, allowed, stored) ↦
        let name = final_key key uuid in
        let (made, answered, same_buckets, found) = stored-row id etag name file b s in
        let same : made ≡ row = cc (answered, ap (λ x. x.1) stored, e) in
        let after = (store_file id etag name file b s).0 in
        let one = store-IsSingle id etag name file b s single b.id name in
        let only = only_kept (is_latest_of b.id name) after.files made one found in
        let chosen : find_version b.id name none choose after ≡ some row =
          ap choose only ∙ gives made ∙ ap (λ r. some r) same in
        rw stored (
          download-found user_id bucket_name name choose after b row
            (owner-reads user_id bucket_name s b after allowed same_buckets) chosen)
  ]
