-- ===== src/Dashboard/Storage/Deleting.antt =====
-- What the storage page does once a bucket or a file is deleted.
use edge_sphere_self_hosted.Prelude.{
  ◌≡◌, refl, [], ◌∷◌, ◌++◌, Bool, false, Option, none, some, String, str_eq, Bool-cases, inl, inr,
  ap, ◌∙◌,
}
use edge_sphere_self_hosted.Dashboard.Storage.{
  Outcome, done, failed, delete_bucket, Page, with_toast, with_call, deselect, bucket_deleted,
  confirm_delete_bucket,
}

abbrev pub is_selected : (name : String) → Option String → Bool
is_selected name none = false
is_selected name (some selected) = str_eq selected name

deselect-gone :
    (name : String) (selected : Option String) → is_selected name (deselect name selected) ≡ false
unfolding deselect
deselect-gone name none = refl
deselect-gone name (some selected) = elim (Bool-cases (str_eq selected name)) [
  | inl same ↦ rw (same) refl
  | inr other ↦ rw (other) other
]

confirmed :
    (outcome : Outcome) (name : String) (page : Page)
    → page.bucket_to_delete ≡ some name
    → confirm_delete_bucket outcome page
      ≡ bucket_deleted outcome name (with_call (delete_bucket name) page)
unfolding confirm_delete_bucket
confirmed outcome name page asked =
    ap
      (λ o. elim o [
        | none ↦ page
        | some n ↦ bucket_deleted outcome n (with_call (delete_bucket n) page)
      ])
      asked

-- Confirming the deletion of a bucket makes one call and closes the question, whatever the answer;
-- the bucket is then not selected any more if it was deleted, and the selection is as it was if not.
pub confirm_delete_bucket-settles :
    (name : String) (page : Page)
    → page.bucket_to_delete ≡ some name
    → ((confirm_delete_bucket done page).calls ≡ page.calls ++ delete_bucket name ∷ [])
      × ((confirm_delete_bucket done page).bucket_to_delete ≡ none)
      × (is_selected name (confirm_delete_bucket done page).selected_bucket_name ≡ false)
      × ((message : Option String)
          → ((confirm_delete_bucket (failed message) page).bucket_to_delete ≡ none)
            × ((confirm_delete_bucket (failed message) page).selected_bucket_name
                ≡ page.selected_bucket_name))
unfolding bucket_deleted with_toast with_call
confirm_delete_bucket-settles name page asked =
    let gone = confirmed done name page asked in
    let kept = λ (message : Option String). confirmed (failed message) name page asked in
    (
      ap (λ p. p.calls) gone,
      ap (λ p. p.bucket_to_delete) gone,
      ap (λ p. is_selected name p.selected_bucket_name) gone
          ∙ deselect-gone name page.selected_bucket_name,
      λ message. (
        ap (λ p. p.bucket_to_delete) (kept message),
        ap (λ p. p.selected_bucket_name) (kept message),
      ),
    )
