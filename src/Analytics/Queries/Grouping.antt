-- ===== src/Analytics/Queries/Grouping.antt =====
-- What grouping, ordering and cutting rows keeps of their counts.
use edge_sphere_self_hosted.Prelude.{
  ℕ, ◌+◌, ◌≤◌, ◌≡◌, refl, List, [], ◌∷◌, map, Bool, true, false, ◌&&◌, inl, inr, if◌then◌else◌, leb,
  All, Bool-cases, arith,
}
use edge_sphere_self_hosted.Analytics.Ingestion.{EventEntity}
use edge_sphere_self_hosted.Analytics.Queries.{
  Group, gather, group_by, insert_by, order_by, count_where,
}

-- A figure, added over the rows of a result.
abbrev pub total : {A : Type 0} → (A → ℕ) → List A → ℕ
total f [] = 0
total f (x ∷ xs) = f x + total f xs

abbrev pub one_if : Bool → ℕ
one_if b = if b then 1 else 0

-- The largest first.
abbrev pub IsDescending : {A : Type 0} → (rank : A → ℕ) → List A → Type 0
IsDescending rank [] = Unit
IsDescending rank (x ∷ xs) = All (λ y. rank y ≤ rank x) xs × IsDescending rank xs

module _ {A : Type 0} where
  pub total-map :
      {B : Type 0} (f : B → ℕ) (of : A → B) (xs : List A)
      → total f (map of xs) ≡ total (λ x. f (of x)) xs
  total-map f of [] = refl
  total-map f of (x ∷ xs) = rw (total-map f of xs) refl

  pub total_same : (f h : A → ℕ) (xs : List A) → ((x : A) → f x ≡ h x) → total f xs ≡ total h xs
  total_same f h [] e = refl
  total_same f h (x ∷ xs) e = rw (e x, total_same f h xs e) refl

  total-insert_by :
      (f : A → ℕ) (first : A → A → Bool) (x : A) (xs : List A)
      → total f (insert_by first x xs) ≡ f x + total f xs
  unfolding insert_by
  total-insert_by f first x [] = refl
  total-insert_by f first x (y ∷ ys) = ground (arith, total-insert_by f first x ys)

  pub total-order_by :
      (f : A → ℕ) (first : A → A → Bool) (xs : List A) → total f (order_by first xs) ≡ total f xs
  unfolding order_by
  total-order_by f first [] = refl
  total-order_by f first (x ∷ xs) =
      rw (total-insert_by f first x (order_by first xs), total-order_by f first xs) refl

  module _ (rank : A → ℕ) where
    insert_by-All :
        (n : ℕ) (first : A → A → Bool) (x : A) (xs : List A)
        → rank x ≤ n
        → All (λ y. rank y ≤ n) xs
        → All (λ y. rank y ≤ n) (insert_by first x xs)
    unfolding insert_by
    insert_by-All n first x [] h hs = (h, tt)
    insert_by-All n first x (y ∷ ys) h (k, ks) = elim (Bool-cases (first x y)) [
      | inl before ↦ rw (before) (h, (k, ks))
      | inr after ↦ rw (after) (k, insert_by-All n first x ys h ks)
    ]

    All-le : (m n : ℕ) (xs : List A) → m ≤ n → All (λ y. rank y ≤ m) xs → All (λ y. rank y ≤ n) xs
    All-le m n [] h hs = tt
    All-le m n (x ∷ xs) h (k, ks) = (omega arith, All-le m n xs h ks)

    abbrev pub by_rank : A → A → Bool
    by_rank x y = leb (rank y) (rank x)

    insert_by-IsDescending :
        (x : A) (xs : List A) → IsDescending rank xs → IsDescending rank (insert_by by_rank x xs)
    unfolding insert_by
    insert_by-IsDescending x [] s = (tt, tt)
    insert_by-IsDescending x (y ∷ ys) (low, s) = elim (Bool-cases (leb (rank y) (rank x))) [
      | inl before ↦
          rw (before) ((ground arith, All-le (rank y) (rank x) ys (ground arith) low), (low, s))
      | inr after ↦
          rw (after)
            (insert_by-All (rank y) by_rank x ys (ground arith) low, insert_by-IsDescending x ys s)
    ]

    pub order_by-IsDescending : (xs : List A) → IsDescending rank (order_by by_rank xs)
    unfolding order_by
    order_by-IsDescending [] = tt
    order_by-IsDescending (x ∷ xs) =
        insert_by-IsDescending x (order_by by_rank xs) (order_by-IsDescending xs)

  All-of_map :
      {B : Type 0} (rank : B → ℕ) (of : A → B) (n : ℕ) (xs : List A)
      → All (λ x. rank (of x) ≤ n) xs
      → All (λ y. rank y ≤ n) (map of xs)
  All-of_map rank of n [] h = tt
  All-of_map rank of n (x ∷ xs) (h, hs) = (h, All-of_map rank of n xs hs)

  pub map-IsDescending :
      {B : Type 0} (rank : B → ℕ) (of : A → B) (xs : List A)
      → IsDescending (λ x. rank (of x)) xs
      → IsDescending rank (map of xs)
  map-IsDescending rank of [] s = tt
  map-IsDescending rank of (x ∷ xs) (low, s) =
      (All-of_map rank of (rank (of x)) xs low, map-IsDescending rank of xs s)

module _ {K : Type 0} (same : K → K → Bool) (chosen : K → Bool) where
  -- What the groups with a chosen key say of their events that pass a test.
  abbrev pub chosen_count : (EventEntity → Bool) → Group K → ℕ
  chosen_count test g = if chosen g.key then count_where test g.events else 0

  abbrev pub is_chosen : Group K → ℕ
  is_chosen g = one_if (chosen g.key)

  module _ (agrees : (x k : K) → same x k ≡ true → chosen x ≡ chosen k) where
    total-gather :
        (test : EventEntity → Bool) (k : K) (e : EventEntity) (groups : List (Group K))
        → total (chosen_count test) (gather same k e groups)
          ≡ one_if (chosen k && test e) + total (chosen_count test) groups
    unfolding gather
    total-gather test k e [] = ground arith
    total-gather test k e (g ∷ groups) = elim (Bool-cases (same g.key k)) [
      | inl here ↦ let alike = agrees g.key k here in ground arith
      | inr elsewhere ↦ let rest = total-gather test k e groups in ground arith
    ]

    pub total-group_by :
        (test : EventEntity → Bool) (key : EventEntity → K) (events : List EventEntity)
        → total (chosen_count test) (group_by same key events)
          ≡ count_where (λ e. chosen (key e) && test e) events
    unfolding group_by
    total-group_by test key [] = refl
    total-group_by test key (e ∷ events) =
        let added = total-gather test (key e) e (group_by same key events) in
        let rest = total-group_by test key events in ground arith

    gather_other :
        (k : K) (e : EventEntity) (groups : List (Group K))
        → chosen k ≡ false
        → total is_chosen (gather same k e groups) ≡ total is_chosen groups
    unfolding gather
    gather_other k e [] other = ground arith
    gather_other k e (g ∷ groups) other = elim (Bool-cases (same g.key k)) [
      | inl here ↦ rw (here) refl
      | inr elsewhere ↦ let rest = gather_other k e groups other in ground arith
    ]

    -- Keys that are the same when they are chosen.
    abbrev pub IsAlone : Type 0
    IsAlone = (x k : K) → chosen x ≡ true → chosen k ≡ true → same x k ≡ true

    gather_once :
        (k : K) (e : EventEntity) (groups : List (Group K))
        → IsAlone
        → total is_chosen groups ≤ 1
        → total is_chosen (gather same k e groups) ≤ 1
    unfolding gather
    gather_once k e [] alone once = ground arith
    gather_once k e (g ∷ groups) alone once = elim (Bool-cases (same g.key k)) [
      | inl here ↦ rw (here) once
      | inr elsewhere ↦ elim (Bool-cases (chosen k)) [
        | inl mine ↦ elim (Bool-cases (chosen g.key)) [
          | inl its ↦ absurd (cc (alone g.key k its mine, elsewhere))
          | inr others ↦
              let fewer : total is_chosen groups ≤ 1 = omega arith in
              let rest = gather_once k e groups alone fewer in rw (elsewhere, others) (omega arith)
        ]
        | inr other ↦ rw (elsewhere, gather_other k e groups other) once
      ]
    ]

    pub group_by_once :
        (key : EventEntity → K) (events : List EventEntity)
        → IsAlone
        → total is_chosen (group_by same key events) ≤ 1
    unfolding group_by
    group_by_once key [] alone = omega arith
    group_by_once key (e ∷ events) alone =
        gather_once (key e) e (group_by same key events) alone (group_by_once key events alone)
