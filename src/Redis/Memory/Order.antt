-- ===== src/Redis/Memory/Order.antt =====
-- Sorted sets as lists: insertion sort by score, which filters commute with.
use edge_sphere_self_hosted.Prelude.{
  ◌≤◌, ◌<◌, ◌≡◌, refl, ap, ◌∙◌, Bool, List, [], ◌∷◌, ◌++◌, ltb, if◌then◌else◌, keep, All, All-keep,
  All-map, arith, Bool-cases, inl, inr,
}
use edge_sphere_self_hosted.Redis.{Entry}

-- Sorted insertion, behind the entries with the same score.
abbrev place : Entry → List Entry → List Entry
place e [] = e ∷ []
place e (f ∷ fs) = if ltb e.1 f.1 then e ∷ f ∷ fs else f ∷ place e fs

abbrev pub sort : List Entry → List Entry
sort [] = []
sort (e ∷ es) = place e (sort es)

abbrev IsSorted : List Entry → Type 0
IsSorted [] = Unit
IsSorted (e ∷ es) = All (λ f. e.1 ≤ f.1) es × IsSorted es

place-All {ℓ} :
    (P : Entry → Type ℓ) (e : Entry) (es : List Entry) → P e → All P es → All P (place e es)
place-All P e [] h hs = (h, tt)
place-All P e (f ∷ fs) h (k, ks) = elim (Bool-cases (ltb e.1 f.1)) [
  | inl before ↦ rw before (h, (k, ks))
  | inr behind ↦ rw behind (k, place-All P e fs h ks)
]

place-IsSorted : (e : Entry) (es : List Entry) → IsSorted es → IsSorted (place e es)
place-IsSorted e [] h = (tt, tt)
place-IsSorted e (f ∷ fs) (h, hs) = elim (Bool-cases (ltb e.1 f.1)) [
  | inl before ↦
      let le : e.1 ≤ f.1 = ground arith in
      rw before ((le, All-map (λ g. f.1 ≤ g.1) (λ g. e.1 ≤ g.1) fs (λ g k. omega arith) h), (h, hs))
  | inr behind ↦
      let le : f.1 ≤ e.1 = ground arith in
      rw behind (place-All (λ g. f.1 ≤ g.1) e fs le h, place-IsSorted e fs hs)
]

sort-IsSorted : (es : List Entry) → IsSorted (sort es)
sort-IsSorted [] = tt
sort-IsSorted (e ∷ es) = place-IsSorted e (sort es) (sort-IsSorted es)

place_front : (e : Entry) (es : List Entry) → All (λ f. e.1 < f.1) es → place e es ≡ e ∷ es
place_front e [] h = refl
place_front e (f ∷ fs) (h, hs) = ground arith

keep-place :
    (p : Entry → Bool) (e : Entry) (es : List Entry)
    → IsSorted es
    → keep p (place e es) ≡ (if p e then place e (keep p es) else keep p es)
keep-place p e [] h = ground arith
keep-place p e (f ∷ fs) (h, hs) = elim (Bool-cases (ltb e.1 f.1)) [
  | inl before ↦
      let lt : e.1 < f.1 = ground arith in
      let beyond : All (λ g. e.1 < g.1) (f ∷ fs) =
        (lt, All-map (λ g. f.1 ≤ g.1) (λ g. e.1 < g.1) fs (λ g k. omega arith) h) in
      rw before (
        ground
          (arith, place_front e (keep p (f ∷ fs)) (All-keep (λ g. e.1 < g.1) p (f ∷ fs) beyond)))
  | inr behind ↦ rw behind (ground (arith, keep-place p e fs hs))
]

pub keep-sort : (p : Entry → Bool) (es : List Entry) → keep p (sort es) ≡ sort (keep p es)
keep-sort p [] = refl
keep-sort p (e ∷ es) = ground (arith, keep-place p e (sort es) (sort-IsSorted es), keep-sort p es)

place_split :
    (e : Entry) (es : List Entry)
    → IsSorted es
    → (pre post : List Entry) × (es ≡ pre ++ post)
      × (place e es ≡ pre ++ e ∷ post)
      × All (λ f. f.1 ≤ e.1) pre
      × All (λ f. e.1 ≤ f.1) post
place_split e [] h = ([], [], refl, refl, tt, tt)
place_split e (f ∷ fs) (h, hs) = elim (Bool-cases (ltb e.1 f.1)) [
  | inl before ↦
      let le : e.1 ≤ f.1 = ground arith in
      rw before (
        [],
        f ∷ fs,
        refl,
        refl,
        tt,
        (le, All-map (λ g. f.1 ≤ g.1) (λ g. e.1 ≤ g.1) fs (λ g k. omega arith) h),
      )
  | inr behind ↦
      let le : f.1 ≤ e.1 = ground arith in
      let (pre, post, same, placed, low, high) = place_split e fs hs in
      rw behind (f ∷ pre, post, ap (◌∷◌ f) same, ap (◌∷◌ f) placed, (le, low), high)
]

pub sort-zadd :
    (e : Entry) (p : Entry → Bool) (es : List Entry)
    → (pre post : List Entry) × (keep p (sort es) ≡ pre ++ post)
      × (sort (e ∷ keep p es) ≡ pre ++ e ∷ post)
      × All (λ f. f.1 ≤ e.1) pre
      × All (λ f. e.1 ≤ f.1) post
sort-zadd e p es =
    let (pre, post, same, placed, low, high) =
      place_split e (sort (keep p es)) (sort-IsSorted (keep p es)) in
    (pre, post, keep-sort p es ∙ same, placed, low, high)
