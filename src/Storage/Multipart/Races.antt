-- ===== src/Storage/Multipart/Races.antt =====
-- Parts that are sent again, and an abort while a part is under way.
use edge_sphere_self_hosted.Prelude.{
  ℕ, ◌≤◌, ◌<◌, ◌≡◌, refl, inl, inr, List, [], ◌∷◌, true, false, Option, none, some, String, ◌==◌,
  eq_refl, length, length-append, All, any, Option-cases, arith,
}
use edge_sphere_self_hosted.Prelude.Maps.{lookup, lookup-insert, lookup-erase}
use edge_sphere_self_hosted.Storage.Multipart.Sessions.{
  begin_part-ok, Result-cases, get_session-object,
}
use edge_sphere_self_hosted.Storage.Multipart.Completion.{complete_upload-accepts}
use edge_sphere_self_hosted.Storage.Multipart.{
  Part, Session, Uploads, Answers, did, get_session, delete_session, begin_part, finish_part,
  push_part, upload_part, completed_file, complete_upload, abort_upload, ok, err, session_not_found,
  parts_missing, minio_abort,
}

no_other_number :
    (m n : ℕ) (ps : List Part)
    → (m == n) ≡ false
    → All (λ p. p.part_number ≡ m) ps
    → any (λ p. p.part_number == n) ps ≡ false
no_other_number m n [] d h = refl
no_other_number m n (p ∷ ps) d (k, ks) = ground (arith, no_other_number m n ps d ks)

-- An upload of two parts or more is completed although part 2 never came, once part 1 was sent as
-- often as there are parts: only the number of entries is compared.
pub complete_lacks_part :
    (id user : String) (s : Uploads) (session : Session)
    → get_session id s ≡ some session
    → 2 ≤ session.part_count
    → length session.completed_parts ≡ session.part_count
    → All (λ p. p.part_number ≡ 1) session.completed_parts
    → ((complete_upload id user (record { minio = true; saved = true; published = true }) s).1
        ≡ ok (completed_file session))
      × (any (λ p. p.part_number == 2) session.completed_parts ≡ false)
complete_lacks_part id user s session found two full ones = (
  complete_upload-accepts id user s session found full,
  no_other_number 1 2 session.completed_parts refl ones,
)

-- The parts that a session holds, and whether they are more than it counts.
pub record IsOverfull (id : String) (s : Uploads) : Type 0 where
  pub session : Session
  pub found : get_session id s ≡ some session
  pub over : session.part_count < length session.completed_parts

get_session-finish :
    (id : String) (session : Session) (p : Part) (s : Uploads)
    → lookup id s.objects ≡ some session
    → get_session id (finish_part id session p s) ≡ some (push_part p session)
unfolding finish_part
get_session-finish id session p s e = ground (
  arith,
  e,
  lookup-insert id id tt s.stored,
  eq_refl id,
  lookup-insert id id (push_part p session) s.objects,
)

upload_part-IsOverfull :
    (id : String) (n size : ℕ) (minio : Option String) (s : Uploads)
    → IsOverfull id s
    → IsOverfull id (upload_part id n size minio s).0
unfolding upload_part
upload_part-IsOverfull id n size minio s o = elim (Result-cases (begin_part id n s)) [
  | inr (e, failed) ↦ rw (failed, upload_part) o
  | inl (session, begun) ↦ elim (Option-cases minio) [
    | inl lost ↦
        rw (begun, upload_part)
          (rw lost (record { session = o.session; found = o.found; over = o.over }))
    | inr (etag, sent) ↦
        let p : Part = record { part_number = n; etag = etag; size = size } in
        let found = (begin_part-ok id n s session begun).0 in
        let object = get_session-object id s session found in
        rw (begun, upload_part)
          (rw sent (record {
            session = push_part p session;
            found = get_session-finish id session p s object;
            over = ground (arith, o.found, found, length-append session.completed_parts (p ∷ []));
          }))
  ]
]

-- A session with more parts than it counts, as after a part that was sent again, stays so with each
-- further part that comes in, and never completes.
pub extra_parts_never_complete :
    (id user : String) (answers : Answers) (s : Uploads)
    → IsOverfull id s
    → ((complete_upload id user answers s).1 ≡ err parts_missing)
      × ((n size : ℕ) (minio : Option String) → IsOverfull id (upload_part id n size minio s).0)
unfolding complete_upload
extra_parts_never_complete id user answers s o =
    let short : (length o.session.completed_parts == o.session.part_count) ≡ false = ground arith in
    (
      rw (o.found, complete_upload) (rw short refl),
      λ n size minio. upload_part-IsOverfull id n size minio s o,
    )

-- A part under way when its session is aborted brings the session back: the Map has it again when
-- the part has come in, with the upload at MinIO aborted. Between an abort and a part that starts
-- after it, it does not.
pub abort_undone :
    (id user : String) (n : ℕ) (etag : String) (size : ℕ) (s : Uploads) (session : Session)
    → begin_part id n s ≡ ok session
    → let p : Part = record { part_number = n; etag = etag; size = size } in
      let aborted = (abort_upload id user true s).0 in
      (get_session id aborted ≡ none)
      × (begin_part id n aborted ≡ err session_not_found)
      × (get_session id (finish_part id session p aborted) ≡ some (push_part p session))
unfolding abort_upload begin_part
abort_undone id user n etag size s session begun =
    let p : Part = record { part_number = n; etag = etag; size = size } in
    let (found, lo, hi) = begin_part-ok id n s session begun in
    let gone = lookup-erase id id s.stored in
    let same = eq_refl id in
    let object = get_session-object id s session found in
    let after =
      delete_session id
        (did (minio_abort session.bucket_name session.key session.minio_upload_id) s) in
    let lost : get_session id after ≡ none = ground (arith, gone, same) in
    rw (found, abort_upload)
      (lost, rw (lost, begin_part) refl, get_session-finish id session p after object)
