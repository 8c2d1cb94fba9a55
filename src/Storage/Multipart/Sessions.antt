-- ===== src/Storage/Multipart/Sessions.antt =====
-- What holds of every upload session, whatever calls are made.
use edge_sphere_self_hosted.Prelude.{
  ℕ, ◌≤◌, ◌≡◌, refl, ap, ◌⊎◌, inl, inr, List, [], ◌∷◌, Bool, Option, none, some, String, ◌==◌,
  length, All, All-append, Bool-cases, Option-cases, arith,
}
use edge_sphere_self_hosted.Prelude.Maps.{lookup, insert, lookup-All, insert-All}
use edge_sphere_self_hosted.Shared.Parts.{compute_part_count}
use edge_sphere_self_hosted.Storage.Multipart.{
  Part, Session, Uploads, Answers, get_session, initiate_upload, begin_part, finish_part, push_part,
  current, upload_part, insert_part, sort_parts, finish_upload, complete_upload, abort_upload,
  Result, ok, err, Error,
}

-- The parts of a session have numbers in its range, and the range is that of its size.
pub record IsWellFormed (session : Session) : Type 0 where
  pub counted : session.part_count ≡ compute_part_count session.total_size
  pub numbered :
      All (λ p. (1 ≤ p.part_number) × (p.part_number ≤ session.part_count)) session.completed_parts

abbrev pub AllWellFormed : List (String × Session) → Type 0
AllWellFormed = All (λ e. IsWellFormed e.1)

insert_part-All :
    (P : Part → Type 0) (p : Part) (ps : List Part) → P p → All P ps → All P (insert_part p ps)
unfolding insert_part
insert_part-All P p [] h hs = (h, tt)
insert_part-All P p (q ∷ qs) h (k, ks) = ground (arith, insert_part-All P p qs h ks)

sort_parts-All : (P : Part → Type 0) (ps : List Part) → All P ps → All P (sort_parts ps)
unfolding sort_parts
sort_parts-All P [] hs = tt
sort_parts-All P (p ∷ ps) (h, hs) = insert_part-All P p (sort_parts ps) h (sort_parts-All P ps hs)

-- The calls of the service, with what the world answers to each.
pub data Call : Type 0 where
  initiate :
      (uuid : String) (now : ℕ) (minio : Option String) (user bucket key content_type : String)
      (total : ℕ)
      → Call
  part : (id : String) (part_number size : ℕ) (minio : Option String) → Call
  complete : (id user : String) → Answers → Call
  abort : (id user : String) → Bool → Call

unfoldable pub step : Call → Uploads → Uploads
step (initiate uuid now minio user bucket key content_type total) s =
    (initiate_upload uuid now minio user bucket key content_type total s).0
step (part id part_number size minio) s = (upload_part id part_number size minio s).0
step (complete id user answers) s = (complete_upload id user answers s).0
step (abort id user minio) s = (abort_upload id user minio s).0

unfoldable pub run : List Call → Uploads → Uploads
run [] s = s
run (c ∷ cs) s = run cs (step c s)

initiate-WellFormed :
    (uuid : String) (now : ℕ) (minio : Option String) (user bucket key content_type : String)
    (total : ℕ) (s : Uploads)
    → AllWellFormed s.objects
    → AllWellFormed (initiate_upload uuid now minio user bucket key content_type total s).0.objects
unfolding initiate_upload
initiate-WellFormed uuid now none user bucket key content_type total s h = h
initiate-WellFormed uuid now (some m) user bucket key content_type total s h =
    insert-All IsWellFormed uuid _ s.objects (record { counted = refl; numbered = tt }) h

pub get_session-object :
    (id : String) (s : Uploads) (session : Session)
    → get_session id s ≡ some session
    → lookup id s.objects ≡ some session
get_session-object id s session e = ground arith

push-WellFormed :
    (session : Session) (p : Part)
    → IsWellFormed session
    → (1 ≤ p.part_number) × (p.part_number ≤ session.part_count)
    → IsWellFormed (push_part p session)
push-WellFormed session p w h = record {
  counted = w.counted;
  numbered = All-append _ session.completed_parts (p ∷ []) w.numbered (h, tt);
}

pub Result-cases {ℓ} :
    {A : Type ℓ} (r : Result A) → ((a : A) × (r ≡ ok a)) ⊎ ((e : Error) × (r ≡ err e))
Result-cases (ok a) = inl (a, refl)
Result-cases (err e) = inr (e, refl)

pub begin_part-ok :
    (id : String) (n : ℕ) (s : Uploads) (session : Session)
    → begin_part id n s ≡ ok session
    → (get_session id s ≡ some session) × (1 ≤ n) × (n ≤ session.part_count)
unfolding begin_part
begin_part-ok id n s session e = ground arith

pub finish_part-objects :
    (id : String) (session : Session) (p : Part) (s : Uploads)
    → lookup id s.objects ≡ some session
    → (finish_part id session p s).objects ≡ insert id (push_part p session) s.objects
unfolding finish_part
finish_part-objects id session p s e =
    let now : current id session s ≡ session = ground arith in
    ap (λ x. insert id (push_part p x) s.objects) now

part-WellFormed :
    (id : String) (n size : ℕ) (minio : Option String) (s : Uploads)
    → AllWellFormed s.objects
    → AllWellFormed (upload_part id n size minio s).0.objects
unfolding upload_part
part-WellFormed id n size none s h = ground arith
part-WellFormed id n size (some etag) s h = elim (Result-cases (begin_part id n s)) [
  | inr (e, failed) ↦ rw (failed, upload_part) h
  | inl (session, begun) ↦
      let (found, lo, hi) = begin_part-ok id n s session begun in
      let e = get_session-object id s session found in
      let w = lookup-All IsWellFormed id s.objects session h e in
      rw (begun, upload_part)
        (rw (finish_part-objects id session _ s e)
          (insert-All IsWellFormed id _ s.objects (push-WellFormed session _ w (lo, hi)) h))
]

finish-WellFormed :
    (id : String) (answers : Answers) (session : Session) (s : Uploads)
    → IsWellFormed session
    → AllWellFormed s.objects
    → AllWellFormed (finish_upload id answers session s).0.objects
unfolding finish_upload
finish-WellFormed id answers session s w h =
    let sorted : Session = record session {
      completed_parts = sort_parts session.completed_parts;
    } in
    let k : AllWellFormed (insert id sorted s.objects) =
      insert-All IsWellFormed id sorted s.objects
        (record {
          counted = w.counted;
          numbered = sort_parts-All _ session.completed_parts w.numbered;
        })
        h in
    ground arith

complete-WellFormed :
    (id user : String) (answers : Answers) (s : Uploads)
    → AllWellFormed s.objects
    → AllWellFormed (complete_upload id user answers s).0.objects
unfolding complete_upload
complete-WellFormed id user answers s h = elim (Option-cases (get_session id s)) [
  | inl lost ↦ rw (lost, complete_upload) h
  | inr (session, found) ↦
      let w =
        lookup-All IsWellFormed id s.objects session h (get_session-object id s session found) in
      elim (Bool-cases (length session.completed_parts == session.part_count)) [
        | inr short ↦ rw (found, complete_upload) (rw short h)
        | inl full ↦
            rw (found, complete_upload) (rw full (finish-WellFormed id answers session s w h))
      ]
]

abort-WellFormed :
    (id user : String) (minio : Bool) (s : Uploads)
    → AllWellFormed s.objects
    → AllWellFormed (abort_upload id user minio s).0.objects
unfolding abort_upload
abort-WellFormed id user minio s h = ground arith

step-WellFormed :
    (c : Call) (s : Uploads) → AllWellFormed s.objects → AllWellFormed (step c s).objects
unfolding step
step-WellFormed (initiate uuid now minio user bucket key content_type total) s h =
    initiate-WellFormed uuid now minio user bucket key content_type total s h
step-WellFormed (part id n size minio) s h = part-WellFormed id n size minio s h
step-WellFormed (complete id user answers) s h = complete-WellFormed id user answers s h
step-WellFormed (abort id user minio) s h = abort-WellFormed id user minio s h

-- After any calls, every session counts its parts by its size, and holds parts of its range only.
pub run-WellFormed :
    (cs : List Call) (s : Uploads) → AllWellFormed s.objects → AllWellFormed (run cs s).objects
unfolding run
run-WellFormed [] s h = h
run-WellFormed (c ∷ cs) s h = run-WellFormed cs (step c s) (step-WellFormed c s h)
