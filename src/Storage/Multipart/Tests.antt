-- ===== src/Storage/Multipart/Tests.antt =====
-- Uploads of two parts.
use edge_sphere_self_hosted.Prelude.{ℕ, ◌≡◌, refl, List, [], ◌∷◌, true, some, none}
use edge_sphere_self_hosted.Shared.Parts.{compute_part_count}
use edge_sphere_self_hosted.Storage.Multipart.{
  Part, Session, Uploads, Answers, get_session, initiate_upload, begin_part, finish_part,
  upload_part, completed_file, finish_upload, complete_upload, ok,
}
use edge_sphere_self_hosted.Storage.Multipart.Sessions.{
  Call, initiate, part, step, run, AllWellFormed, run-WellFormed,
}
use edge_sphere_self_hosted.Storage.Multipart.Completion.{
  complete_upload-ok, complete_upload-accepts,
}

abbrev answered : Answers
answered = record { minio = true; saved = true; published = true }

abbrev sent : ℕ → Part
sent n = record { part_number = n; etag = "e"; size = 5 }

abbrev session : List Part → Session
session parts = record {
  minio_upload_id = "m";
  bucket_name = "b";
  key = "k";
  user_id = "u";
  content_type = "t";
  total_size = 10000000;
  part_count = 2;
  completed_parts = parts;
  created_at = 0;
  expires_at = 86400000;
}

abbrev holding : List Part → Uploads
holding parts = record {
  objects = ("x", session parts) ∷ [];
  stored = ("x", tt) ∷ [];
  effects = [];
}

abbrev empty : Uploads
empty = record { objects = []; stored = []; effects = [] }

abbrev calls : List Call
calls =
    initiate "x" 0 (some "m") "u" "b" "k" "t" 10000000
    ∷ part "x" 2 5 (some "e")
    ∷ part "x" 3 5 (some "e")
    ∷ part "x" 1 5 (some "e")
    ∷ []

-- The part out of range is refused; the other two are kept in the order in which they came.
calls_test : (run calls empty).objects ≡ ("x", session (sent 2 ∷ sent 1 ∷ [])) ∷ []
unfolding run step initiate_upload compute_part_count upload_part begin_part finish_part
calls_test = refl

run-WellFormed_example : AllWellFormed (run calls empty).objects
run-WellFormed_example = run-WellFormed calls empty tt

abbrev full : Uploads
full = holding (sent 2 ∷ sent 1 ∷ [])

complete_upload-ok_example : get_session "x" (complete_upload "x" "u" answered full).0 ≡ none
unfolding complete_upload finish_upload
complete_upload-ok_example =
    (complete_upload-ok "x" "u" answered full (completed_file (session (sent 2 ∷ sent 1 ∷ [])))
      refl).4

complete_upload-accepts_example :
    (complete_upload "x" "u" answered full).1 ≡ ok (completed_file (session (sent 2 ∷ sent 1 ∷ [])))
complete_upload-accepts_example =
    complete_upload-accepts "x" "u" full (session (sent 2 ∷ sent 1 ∷ [])) refl refl

abbrev twice : Uploads
twice = holding (sent 1 ∷ sent 1 ∷ [])

abbrev thrice : Uploads
thrice = holding (sent 1 ∷ sent 1 ∷ sent 2 ∷ [])
