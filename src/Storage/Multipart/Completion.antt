-- ===== src/Storage/Multipart/Completion.antt =====
-- What completeUpload does: the order of the parts, its effects, and which uploads it accepts.
use edge_sphere_self_hosted.Prelude.{
  ℕ, ◌≤◌, ◌≡◌, refl, inl, inr, List, [], ◌∷◌, ◌++◌, map, true, none, some, String, leb, ◌==◌,
  eq_refl, length, All, Bool-cases, Option-cases, arith,
}
use mathlib.Core.List.{Perm}
use mathlib.Core.List.Perm
use edge_sphere_self_hosted.Prelude.Maps.{lookup, lookup-erase}
use edge_sphere_self_hosted.Storage.Multipart.{
  Part, Session, Uploads, Answers, Effect, FileEntity, minio_complete, save_file, publish_uploaded,
  get_session, insert_part, sort_parts, completed_file, finish_upload, complete_upload, ok,
}

abbrev pub IsSorted : List Part → Type 0
IsSorted [] = Unit
IsSorted (p ∷ ps) = All (λ q. p.part_number ≤ q.part_number) ps × IsSorted ps

insert_part-perm : (p : Part) (ps : List Part) → Perm (insert_part p ps) (p ∷ ps)
unfolding insert_part
insert_part-perm p [] = Perm.refl _
insert_part-perm p (q ∷ qs) = elim (Bool-cases (leb p.part_number q.part_number)) [
  | inl first ↦ rw first (Perm.refl _)
  | inr later ↦ rw later (Perm.trans (Perm.cons q (insert_part-perm p qs)) (Perm.swap p q qs))
]

sort_parts-perm : (ps : List Part) → Perm (sort_parts ps) ps
unfolding sort_parts
sort_parts-perm [] = Perm.refl _
sort_parts-perm (p ∷ ps) =
    Perm.trans (insert_part-perm p (sort_parts ps)) (Perm.cons p (sort_parts-perm ps))

insert_part-All_above :
    (n : ℕ) (p : Part) (ps : List Part)
    → n ≤ p.part_number
    → All (λ q. n ≤ q.part_number) ps
    → All (λ q. n ≤ q.part_number) (insert_part p ps)
unfolding insert_part
insert_part-All_above n p [] h hs = (h, tt)
insert_part-All_above n p (q ∷ qs) h (k, ks) = ground (arith, insert_part-All_above n p qs h ks)

All-le_mono :
    (m n : ℕ) (ps : List Part)
    → m ≤ n
    → All (λ q. n ≤ q.part_number) ps
    → All (λ q. m ≤ q.part_number) ps
All-le_mono m n [] h hs = tt
All-le_mono m n (p ∷ ps) h (k, ks) = (omega arith, All-le_mono m n ps h ks)

insert_part-IsSorted : (p : Part) (ps : List Part) → IsSorted ps → IsSorted (insert_part p ps)
unfolding insert_part
insert_part-IsSorted p [] s = (tt, tt)
insert_part-IsSorted p (q ∷ qs) (low, s) = elim (Bool-cases (leb p.part_number q.part_number)) [
  | inl first ↦
      rw first
        ((ground arith, All-le_mono p.part_number q.part_number qs (ground arith) low), (low, s))
  | inr later ↦
      rw later
        (insert_part-All_above q.part_number p qs (ground arith) low, insert_part-IsSorted p qs s)
]

-- MinIO is given the parts that were uploaded, each as often as it was, in the order of their
-- numbers.
pub sort_parts-sorts : (ps : List Part) → IsSorted (sort_parts ps) × Perm (sort_parts ps) ps
unfolding sort_parts
sort_parts-sorts ps = (sorted ps, sort_parts-perm ps)
  where
    sorted : (qs : List Part) → IsSorted (sort_parts qs)
    sorted [] = tt
    sorted (q ∷ qs) = insert_part-IsSorted q (sort_parts qs) (sorted qs)

abbrev upload_effects : Session → List Effect → List Effect
upload_effects session es =
    ((es
        ++ minio_complete session.bucket_name session.key session.minio_upload_id
            (map (λ p. (p.part_number, p.etag)) (sort_parts session.completed_parts))
          ∷ [])
      ++ save_file (completed_file session) ∷ [])
    ++ publish_uploaded session.bucket_name session.key session.total_size ∷ []

finish_upload-ok :
    (id : String) (answers : Answers) (session : Session) (s : Uploads) (file : FileEntity)
    → (finish_upload id answers session s).1 ≡ ok file
    → let t = (finish_upload id answers session s).0 in
      (file ≡ completed_file session)
      × (lookup id t.stored ≡ none)
      × (t.effects ≡ upload_effects session s.effects)
unfolding finish_upload
finish_upload-ok id answers session s file e =
    let gone = lookup-erase id id s.stored in
    let same = eq_refl id in (ground arith, ground (arith, gone, same), ground arith)

-- Where completeUpload succeeds, the session was there and held as many parts as it counts. The
-- upload has then been completed at MinIO with the sorted parts, the file saved and the event
-- published, in this order, and the session is gone.
pub complete_upload-ok :
    (id user : String) (answers : Answers) (s : Uploads) (file : FileEntity)
    → (complete_upload id user answers s).1 ≡ ok file
    → let t = (complete_upload id user answers s).0 in
      (session : Session) × (get_session id s ≡ some session)
      × (length session.completed_parts ≡ session.part_count)
      × (file ≡ completed_file session)
      × (get_session id t ≡ none)
      × (t.effects ≡ upload_effects session s.effects)
unfolding complete_upload
complete_upload-ok id user answers s file e = elim (Option-cases (get_session id s)) [
  | inl lost ↦ absurd (ground (arith, lost))
  | inr (session, found) ↦
      elim (Bool-cases (length session.completed_parts == session.part_count)) [
        | inr short ↦ absurd (ground (arith, found, short))
        | inl full ↦
            let same : complete_upload id user answers s ≡ finish_upload id answers session s =
              rw (found, complete_upload) (rw full) in
            let (made, gone, effects) =
              finish_upload-ok id answers session s file (rw (← same) e) in
            (
              session,
              found,
              ground (arith, full),
              made,
              rw same (ground (arith, gone)),
              rw same effects,
            )
      ]
]

-- Nothing else is asked of a session than its number of parts: whenever that fits, and the world
-- answers, the upload is completed.
pub complete_upload-accepts :
    (id user : String) (s : Uploads) (session : Session)
    → get_session id s ≡ some session
    → length session.completed_parts ≡ session.part_count
    → (complete_upload id user (record { minio = true; saved = true; published = true }) s).1
      ≡ ok (completed_file session)
unfolding complete_upload finish_upload
complete_upload-accepts id user s session found full =
    let count : (length session.completed_parts == session.part_count) ≡ true =
      ground (arith, full) in
    rw (found, complete_upload) (rw count refl)
