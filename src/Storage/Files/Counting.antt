-- ===== src/Storage/Files/Counting.antt =====
-- How many rows of the table of files are the latest of a file.
use edge_sphere_self_hosted.Prelude.{
  ℕ, suc, ◌≤◌, ◌≡◌, refl, sym, ap, ◌∙◌, List, [], ◌∷◌, Bool, true, not, ◌&&◌, none, some, String,
  str_eq, eq_iff, eq_refl, find, keep, length, arith, Bool-cases, Option-cases, inl, inr, ◌⊎◌,
}
use edge_sphere_self_hosted.Storage.Files.{
  BucketEntity, FileEntity, Upload, Store, Error, Result, ok, err, is_latest_of, save_file,
  superseded, supersede, uploaded, store_file, remove_file,
}

-- How many rows are the latest of a file.
abbrev pub latest_count : (bucket_id key : String) → List FileEntity → ℕ
latest_count bucket_id key files = length (keep (is_latest_of bucket_id key) files)

-- Saving a row that is no longer the latest makes no row the latest.
save_superseded-le :
    (bucket_id key : String) (old : FileEntity) (files : List FileEntity)
    → latest_count bucket_id key (save_file (superseded old) files)
      ≤ latest_count bucket_id key files
unfolding save_file superseded
save_superseded-le bucket_id key old [] = omega arith
save_superseded-le bucket_id key old (f ∷ files) =
    ground (arith, save_superseded-le bucket_id key old files)

-- If the row was the latest, there is one less.
save_superseded-lt :
    (bucket_id key : String) (old : FileEntity) (files : List FileEntity)
    → find (is_latest_of bucket_id key) files ≡ some old
    → suc (latest_count bucket_id key (save_file (superseded old) files))
      ≤ latest_count bucket_id key files
unfolding save_file superseded
save_superseded-lt bucket_id key old [] h = absurd cc
save_superseded-lt bucket_id key old (f ∷ files) h =
    elim (Bool-cases (is_latest_of bucket_id key f)) [
      | inl here ↦
          let same : f ≡ old = ground arith in
          let itself : str_eq f.id old.id ≡ true =
            ap (λ g. str_eq g.id old.id) same ∙ eq_refl old.id in
          let fewer = save_superseded-le bucket_id key old files in ground (arith, itself, fewer)
      | inr elsewhere ↦
          let fewer = save_superseded-lt bucket_id key old files (ground arith) in
          ground (arith, fewer)
    ]

keep-keep-le :
    (p q : FileEntity → Bool) (files : List FileEntity)
    → length (keep p (keep q files)) ≤ length (keep p files)
keep-keep-le p q [] = omega arith
keep-keep-le p q (f ∷ files) = ground (arith, keep-keep-le p q files)

pub none_latest :
    (p : FileEntity → Bool) (files : List FileEntity)
    → length (keep p files) ≡ 0
    → find p files ≡ none
none_latest p [] h = refl
none_latest p (f ∷ files) h = ground (arith, none_latest p files)

none_counted :
    (p : FileEntity → Bool) (files : List FileEntity)
    → find p files ≡ none
    → length (keep p files) ≡ 0
none_counted p [] h = refl
none_counted p (f ∷ files) h = ground (arith, none_counted p files)

-- Removing a row that passes a test leaves fewer that pass it.
pub remove-lt :
    (p : FileEntity → Bool) (old : FileEntity) (files : List FileEntity)
    → find p files ≡ some old
    → suc (length (keep p (remove_file old files))) ≤ length (keep p files)
unfolding remove_file
remove-lt p old [] h = absurd cc
remove-lt p old (f ∷ files) h = elim (Bool-cases (p f)) [
  | inl here ↦
      let same : f ≡ old = ground arith in
      let itself : str_eq f.id old.id ≡ true = ap (λ g. str_eq g.id old.id) same ∙ eq_refl old.id in
      let fewer = keep-keep-le p (λ g. not (str_eq g.id old.id)) files in
      ground (arith, itself, fewer)
  | inr elsewhere ↦ let fewer = remove-lt p old files (ground arith) in ground (arith, fewer)
]

-- Each file has at most one latest row.
abbrev pub IsSingle : List FileEntity → Type 0
IsSingle files = (bucket_id key : String) → latest_count bucket_id key files ≤ 1

-- Before the new row is put in, the file has no latest row, and no file has more than before.
supersede-count :
    (bucket_id key : String) (files : List FileEntity)
    → IsSingle files
    → (latest_count bucket_id key (supersede bucket_id key files).1 ≡ 0)
      × IsSingle (supersede bucket_id key files).1
unfolding supersede
supersede-count bucket_id key files single =
    elim (Option-cases (find (is_latest_of bucket_id key) files)) [
      | inl absent ↦
          rw (absent, supersede) (none_counted (is_latest_of bucket_id key) files absent, single)
      | inr (old, found) ↦
          let fewer = save_superseded-lt bucket_id key old files found in
          let one = single bucket_id key in
          rw (found, supersede)
            (
              omega arith,
              λ b k.
                  let le = save_superseded-le b k old files in let most = single b k in omega arith,
            )
    ]

pub store-IsSingle :
    (id etag key : String) (file : Upload) (b : BucketEntity) (s : Store)
    → IsSingle s.files
    → IsSingle (store_file id etag key file b s).0.files
unfolding store_file uploaded
store-IsSingle id etag key file b s single other_bucket other_key =
    let (free, kept) = supersede-count b.id key s.files single in
    let most = kept other_bucket other_key in
    let rows = (supersede b.id key s.files).1 in
    elim (Bool-cases (str_eq b.id other_bucket && str_eq key other_key)) [
      | inl both ↦
          let same_bucket : b.id ≡ other_bucket = ground (arith, eq_iff b.id other_bucket) in
          let same_key : key ≡ other_key = ground (arith, eq_iff key other_key) in
          let none_left = ap (λ n. latest_count n key rows) (sym same_bucket) ∙ free in
          let none_there = ap (λ k. latest_count other_bucket k rows) (sym same_key) ∙ none_left in
          ground (arith, none_there)
      | inr apart ↦ ground (arith, most)
    ]

pub Result-cases :
    {A : Type 0} (r : Result A) → ((a : A) × (r ≡ ok a)) ⊎ ((e : Error) × (r ≡ err e))
Result-cases (ok a) = inl (a, refl)
Result-cases (err e) = inr (e, refl)
