-- ===== src/Storage/Multipart.antt =====
-- multipart/multipart.service.ts: upload sessions kept in a Map. The Map holds references, so the
-- session objects are kept apart from the keys that the Map has: an upload that is under way while
-- its session is aborted still holds the object.
-- MinIO, the file table and Kafka answer through arguments: `none` or `false` is an exception.
pub mod Sessions
pub mod Completion
pub mod Races
mod Tests
use edge_sphere_self_hosted.Prelude.{
  ℕ, zero, suc, ◌+◌, ◌*◌, List, [], ◌∷◌, ◌++◌, map, Bool, true, false, ◌||◌, not, Option, none,
  some, String, ltb, leb, ◌==◌, if◌then◌else◌, length, is_some, arith,
}
use edge_sphere_self_hosted.Prelude.Maps.{lookup, insert, erase}
use edge_sphere_self_hosted.Shared.Parts.{compute_part_count, part_size}

pub record Part : Type 0 where
  pub part_number : ℕ
  pub etag : String
  pub size : ℕ

pub record Session : Type 0 where
  pub minio_upload_id : String
  pub bucket_name : String
  pub key : String
  pub user_id : String
  pub content_type : String
  pub total_size : ℕ
  pub part_count : ℕ
  pub completed_parts : List Part
  pub created_at : ℕ
  pub expires_at : ℕ

pub record FileEntity : Type 0 where
  pub bucket_id : String
  pub key : String
  pub size : ℕ
  pub content_type : String
  pub etag : String

-- The calls that change something outside, in their order.
pub data Effect : Type 0 where
  minio_initiate : (bucket key content_type : String) → Effect
  minio_part : (bucket key : String) (part_number size : ℕ) (upload_id : String) → Effect
  minio_complete : (bucket key upload_id : String) (parts : List (ℕ × String)) → Effect
  minio_abort : (bucket key upload_id : String) → Effect
  save_file : FileEntity → Effect
  publish_uploaded : (bucket key : String) (size : ℕ) → Effect

-- `objects` are the session objects by upload id, `stored` the keys of the Map.
pub record Uploads : Type 0 where
  pub objects : List (String × Session)
  pub stored : List (String × Unit {0})
  pub effects : List Effect

pub data Error : Type 0 where
  session_not_found invalid_part_number parts_missing upstream : Error

pub data Result {ℓ} (A : Type ℓ) : Type ℓ where
  ok : A → Result A
  err : Error → Result A

abbrev pub did : Effect → Uploads → Uploads
did e s = record s { effects = s.effects ++ e ∷ [] }

-- `this.redisStore.get`.
abbrev pub get_session : String → Uploads → Option Session
get_session id s = elim (lookup id s.stored) [ none ↦ none | some _ ↦ lookup id s.objects ]

-- `this.redisStore.set` of the object under its id, and `delete`.
abbrev pub set_session : String → Session → Uploads → Uploads
set_session id session s = record s {
  objects = insert id session s.objects;
  stored = insert id tt s.stored;
}

abbrev pub delete_session : String → Uploads → Uploads
delete_session id s = record s { stored = erase id s.stored }

pub record Initiated : Type 0 where
  pub upload_id : String
  pub part_count : ℕ
  pub part_size : ℕ
  pub expires_at : ℕ

-- initiateUpload: `minio` is the upload id that MinIO answers with.
pub initiate_upload :
    (uuid : String) (now : ℕ) (minio : Option String)
    → (user bucket key content_type : String) (total : ℕ) → Uploads
    → Uploads × Result Initiated
initiate_upload uuid now none user bucket key content_type total s =
    (did (minio_initiate bucket key content_type) s, err upstream)
initiate_upload uuid now (some minio_id) user bucket key content_type total s =
    let count = compute_part_count total in
    let expires = now + 24 * 60 * 60 * 1000 in
    let session : Session = record {
      minio_upload_id = minio_id;
      bucket_name = bucket;
      key = key;
      user_id = user;
      content_type = content_type;
      total_size = total;
      part_count = count;
      completed_parts = [];
      created_at = now;
      expires_at = expires;
    } in
    (
      set_session uuid session (did (minio_initiate bucket key content_type) s),
      ok (record {
        upload_id = uuid;
        part_count = count;
        part_size = part_size;
        expires_at = expires;
      }),
    )

-- uploadPart up to its `await`: the checks, and the session object that it goes on with.
pub begin_part : String → ℕ → Uploads → Result Session
begin_part id part_number s = elim (get_session id s) [
  | none ↦ err session_not_found
  | some session ↦
      if ltb part_number 1 || ltb session.part_count part_number
      then err invalid_part_number
      else ok session
]

-- uploadPart after its `await`: the part goes into the object as it then is, and the Map is set.
abbrev pub push_part : Part → Session → Session
push_part p session = record session { completed_parts = session.completed_parts ++ p ∷ [] }

abbrev current : String → Session → Uploads → Session
current id session s = elim (lookup id s.objects) [ none ↦ session | some now ↦ now ]

pub finish_part : String → Session → Part → Uploads → Uploads
finish_part id session p s = set_session id (push_part p (current id session s)) (
    did (minio_part session.bucket_name session.key p.part_number p.size session.minio_upload_id) s)

-- uploadPart with nothing between its two halves.
pub upload_part : String → ℕ → (size : ℕ) (minio : Option String) → Uploads → Uploads × Result Part
unfolding begin_part finish_part
upload_part id part_number size minio s = elim (begin_part id part_number s) [
  | err e ↦ (s, err e)
  | ok session ↦ elim minio [
    | none ↦ (
      did (minio_part session.bucket_name session.key part_number size session.minio_upload_id) s,
      err upstream,
    )
    | some etag ↦
        let p : Part = record { part_number = part_number; etag = etag; size = size } in
        (finish_part id session p s, ok p)
  ]
]

-- `sort` by part number; it is stable.
pub insert_part : Part → List Part → List Part
insert_part p [] = p ∷ []
insert_part p (q ∷ qs) =
    if leb p.part_number q.part_number then p ∷ q ∷ qs else q ∷ insert_part p qs

pub sort_parts : List Part → List Part
unfolding insert_part
sort_parts [] = []
sort_parts (p ∷ ps) = insert_part p (sort_parts ps)

abbrev pub completed_file : Session → FileEntity
completed_file session = record {
  bucket_id = session.bucket_name;
  key = session.key;
  size = session.total_size;
  content_type = session.content_type;
  etag = "multipart-etag";
}

-- What completeUpload's three later awaits answer.
pub record Answers : Type 0 where
  pub minio : Bool
  pub saved : Bool
  pub published : Bool

-- completeUpload once all parts are there. The sort is in place, so the object keeps its parts
-- sorted also where MinIO then fails.
pub finish_upload : String → Answers → Session → Uploads → Uploads × Result FileEntity
unfolding sort_parts
finish_upload id answers session s =
    let parts = sort_parts session.completed_parts in
    let sorted : Uploads = record s {
      objects = insert id (record session { completed_parts = parts }) s.objects;
    } in
    let asked =
      did
        (minio_complete session.bucket_name session.key session.minio_upload_id
          (map (λ p. (p.part_number, p.etag)) parts))
        sorted in
    let file = completed_file session in
    let saved = delete_session id (did (save_file file) asked) in
    let published =
      did (publish_uploaded session.bucket_name session.key session.total_size) saved in
    if not answers.minio
    then (asked, err upstream)
    else if not answers.saved
    then (did (save_file file) asked, err upstream)
    else if not answers.published
    then (published, err upstream)
    else (published, ok file)

-- completeUpload. The user is an argument that the code does not read.
unfoldable pub complete_upload : String → String → Answers → Uploads → Uploads × Result FileEntity
unfolding finish_upload
complete_upload id user answers s = elim (get_session id s) [
  | none ↦ (s, err session_not_found)
  | some session ↦
      if length session.completed_parts == session.part_count
      then finish_upload id answers session s
      else (s, err parts_missing)
]

-- abortUpload; the user is not read here either.
unfoldable pub abort_upload :
    String → String → (minio : Bool) → Uploads → Uploads × Result (Unit {0})
abort_upload id user minio s = elim (get_session id s) [
  | none ↦ (s, ok tt)
  | some session ↦
      let asked = did (minio_abort session.bucket_name session.key session.minio_upload_id) s in
      if minio then (delete_session id asked, ok tt) else (asked, err upstream)
]

pub record UploadStatus : Type 0 where
  pub upload_id : String
  pub key : String
  pub total_size : ℕ
  pub completed_parts : ℕ
  pub total_parts : ℕ
  pub progress : ℕ
  pub expires_at : ℕ

-- getUploadStatus. `percent a b` is `Math.round((a / b) * 100)` in doubles.
pub get_upload_status : (percent : ℕ → ℕ → ℕ) → String → Uploads → Result UploadStatus
get_upload_status percent id s = elim (get_session id s) [
  | none ↦ err session_not_found
  | some session ↦ ok (record {
    upload_id = id;
    key = session.key;
    total_size = session.total_size;
    completed_parts = length session.completed_parts;
    total_parts = session.part_count;
    progress = percent (length session.completed_parts) session.part_count;
    expires_at = session.expires_at;
  })
]
