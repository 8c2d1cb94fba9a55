-- ===== src/Notification/Paging.antt =====
-- The pages that getAlertHistory, listRules and getHistory cut from a list. The controllers hand
-- over query parameters as they come: a text where the parameter is given, a number where the
-- default takes its place.
mod Tests
use edge_sphere_self_hosted.Prelude.{
  ℕ, zero, suc, ◌+◌, ◌-◌, ◌*◌, ◌/◌, ◌^◌, ◌≤◌, ◌<◌, ◌≡◌, refl, sym, ◌∙◌, List, [], ◌∷◌, ◌++◌, Option,
  none, some, ltb, ◌==◌, if◌then◌else◌, length, take, drop, length-take, length-drop, Bool-cases,
  inl, inr, ap, arith,
}
use native.Mathlib.Nat.{zero-add, suc-add, zero-mul, pow-suc, mul-le-mul_left}

-- A `number`, or the text of one in decimal.
pub data PageArg : Type 0 where
  num : ℕ → PageArg
  text : ℕ → PageArg

abbrev pub value : PageArg → ℕ
value (num n) = n
value (text n) = n

-- The digits of the decimal text of a number; `fuel` is a bound on them.
digits_from : ℕ → ℕ → ℕ
digits_from zero n = 1
digits_from (suc fuel) n =
    let more = suc (digits_from fuel (n / 10)) in if ltb n 10 then 1 else more

pub digits : ℕ → ℕ
unfolding digits_from
digits n = digits_from n n

-- The index that `slice` makes of `start + pageSize`: a sum of numbers, or, where `pageSize` is a
-- text, the two texts one after the other, read as a number.
pub plus : ℕ → PageArg → ℕ
plus start (num n) = start + n
plus start (text n) = start * 10 ^ digits n + n

abbrev pub slice {ℓ} : {A : Type ℓ} → ℕ → ℕ → List A → List A
slice from to xs = take (to - from) (drop from xs)

pub record Page {ℓ} (A : Type ℓ) : Type ℓ where
  pub items : List A
  pub total : ℕ
  pub page : PageArg
  pub page_size : PageArg

-- `page || 1` and `pageSize || 20`: a text is never empty here, so only a missing one or the
-- number 0 takes the default.
pub or_default : Option PageArg → ℕ → PageArg
or_default none d = num d
or_default (some (num n)) d = if n == 0 then num d else num n
or_default (some (text n)) d = text n

-- The page before the first starts below 0 and ends there at the latest, so it is empty.
pub get_page {ℓ} : {A : Type ℓ} → List A → PageArg → PageArg → Page A
get_page xs page page_size = record {
  items = if value page == 0 then [] else slice start (plus start page_size) xs;
  total = length xs;
  page = page;
  page_size = page_size;
}
  where
    start : ℕ
    start = (value page - 1) * value page_size

-- The controllers' calls: @Query('page') and @Query('pageSize') with their defaults.
pub query_page {ℓ} : {A : Type ℓ} → List A → Option PageArg → Option PageArg → Page A
unfolding get_page or_default
query_page xs page page_size = get_page xs (or_default page 1) (or_default page_size 20)

pow10_pos : (k : ℕ) → 1 ≤ 10 ^ k
pow10_pos zero = omega arith
pow10_pos (suc k) = omega (arith, pow10_pos k, pow-suc 10 k)

-- Every number has a digit, so text that follows a start index multiplies it.
le-pow-digits : (s : ℕ) → 10 ≤ 10 ^ digits s
unfolding digits digits_from
le-pow-digits zero = omega arith
le-pow-digits (suc s) = elim (Bool-cases (ltb (suc s) 10)) [
  | inl small ↦ rw small (omega arith)
  | inr large ↦ rw (large, pow-suc) (omega (arith, pow10_pos (digits_from s (suc s / 10))))
]

module _ {ℓ} {A : Type ℓ} where
  take_nil : (n : ℕ) → take n (let none_left : List A = [] in none_left) ≡ []
  take_nil zero = refl
  take_nil (suc n) = refl

  take_add : (m n : ℕ) (xs : List A) → take (m + n) xs ≡ take m xs ++ take n (drop m xs)
  take_add zero n xs = rw zero-add
  take_add (suc m) n [] = take_nil (suc m + n) ∙ sym (take_nil n)
  take_add (suc m) n (x ∷ xs) = rw suc-add (ap (◌∷◌ x) (take_add m n xs))

  -- The first pages, one after the other.
  pub pages : ℕ → PageArg → List A → List A
  pages zero size xs = []
  pages (suc k) size xs = pages k size xs ++ (get_page xs (num (suc k)) size).items

  page_items :
      (k size : ℕ) (xs : List A)
      → (get_page xs (num (suc k)) (num size)).items ≡ take size (drop (k * size) xs)
  unfolding get_page plus
  page_items k size xs =
      let start : (suc k - 1) * size ≡ k * size = ap (λ (n : ℕ). n * size) (omega arith) in
      let span : k * size + size - k * size ≡ size = omega arith in rw (start, span) (ground arith)

  -- With a page size that is a number, the first `k` pages hold the first `k * size` items, each
  -- once and in order: no item is skipped or repeated.
  pub pages-take : (k size : ℕ) (xs : List A) → pages k (num size) xs ≡ take (k * size) xs
  unfolding pages
  pages-take zero size xs = rw zero-mul
  pages-take (suc k) size xs =
      let sum : suc k * size ≡ k * size + size = omega arith in
      rw (pages-take k size xs, page_items k size xs, ← take_add (k * size) size xs, sum)

  -- A page size that arrives as text makes each page but the first longer than asked for,
  -- whenever the list goes on beyond it.
  pub oversized_page :
      (p s : ℕ) (xs : List A)
      → 2 ≤ p
      → 1 ≤ s
      → (p - 1) * s + s < length xs
      → s < length (query_page xs (some (text p)) (some (text s))).items
  unfolding query_page plus
  oversized_page p s xs hp hs h = elim (Bool-cases (p == 0)) [
    | inl e ↦ absurd (ground arith)
    | inr e ↦
        let start = (p - 1) * s in
        let end = start * 10 ^ digits s + s in
        let first : 1 ≤ start = grind arith in
        let far : start * 10 ≤ start * 10 ^ digits s = mul-le-mul_left start (le-pow-digits s) in
        rw e (omega (arith, length-take (end - start) (drop start xs), length-drop start xs))
  ]
