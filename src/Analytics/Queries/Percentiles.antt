-- ===== src/Analytics/Queries/Percentiles.antt =====
-- The percentiles of the latencies, and the figures of a summary, over the events of a window.
use edge_sphere_self_hosted.Prelude.{
  ℕ, zero, suc, ◌+◌, ◌-◌, ◌*◌, ◌/◌, ◌%◌, ◌≤◌, ◌<◌, ◌≡◌, refl, List, [], ◌∷◌, true, ltb, leb, length,
  arith, All, Bool-cases, inl, inr,
}
use edge_sphere_self_hosted.Prelude.Ratios.{ler}
use edge_sphere_self_hosted.Analytics.Ingestion.{EventEntity}
use edge_sphere_self_hosted.Analytics.Queries.{insert_by, order_by, latencies, events_within}
use edge_sphere_self_hosted.Analytics.Queries.Figures.{
  nth, between, percentile_cont, percentile_or_0, get_latency_percentiles,
}

-- No place of the list is above the next one.
abbrev IsRising : List ℕ → Type 0
IsRising ns = (n : ℕ) → nth ns n ≤ nth ns (n + 1)

step_up : (x y t r : ℕ) → x ≤ y → x * suc t + y * r ≤ x * t + y * suc r
step_up x y t r h = grind arith

line_up : (x y r : ℕ) → x ≤ y → r < 100 → x * (100 - r) + y * r ≤ x * (100 - suc r) + y * suc r
line_up x y r h low =
    let e : 100 - r ≡ suc (100 - suc r) = omega arith in rw (e) (step_up x y (100 - suc r) r h)

between_next : (ns : List ℕ) (place : ℕ) → IsRising ns → between ns place ≤ between ns (place + 1)
unfolding between
between_next ns place rising =
    let up = rising (place / 100) in
    let low : place % 100 < 100 = omega arith in
    elim (Bool-cases (ltb (place % 100) 99)) [
      | inl inside ↦
          let same : (place + 1) / 100 ≡ place / 100 = ground arith in
          let next : (place + 1) % 100 ≡ suc (place % 100) = ground arith in
          rw (same, next)
            (line_up (nth ns (place / 100)) (nth ns (place / 100 + 1)) (place % 100) up low)
      | inr last ↦
          let over : (place + 1) / 100 ≡ place / 100 + 1 = ground arith in
          let none_left : (place + 1) % 100 ≡ 0 = ground arith in
          let full : place % 100 ≡ 99 = ground arith in rw (over, none_left, full) (omega arith)
    ]

between_le :
    (ns : List ℕ) (place more : ℕ) → IsRising ns → between ns place ≤ between ns (place + more)
between_le ns place zero rising =
    let same : place + 0 ≡ place = omega arith in rw (same) (omega arith)
between_le ns place (suc more) rising =
    let rest = between_le ns place more rising in
    let last = between_next ns (place + more) rising in
    let same : place + suc more ≡ place + more + 1 = omega arith in rw (same) (omega arith)

abbrev IsAscending : List ℕ → Type 0
IsAscending [] = Unit
IsAscending (n ∷ ns) = All (λ m. n ≤ m) ns × IsAscending ns

insert_by-All :
    (low n : ℕ) (ns : List ℕ)
    → low ≤ n
    → All (λ m. low ≤ m) ns
    → All (λ m. low ≤ m) (insert_by leb n ns)
unfolding insert_by
insert_by-All low n [] h hs = (h, tt)
insert_by-All low n (m ∷ ns) h (k, ks) = ground (arith, insert_by-All low n ns h ks)

All-ge : (low high : ℕ) (ns : List ℕ) → low ≤ high → All (λ m. high ≤ m) ns → All (λ m. low ≤ m) ns
All-ge low high [] h hs = tt
All-ge low high (n ∷ ns) h (k, ks) = (omega arith, All-ge low high ns h ks)

insert_by-IsAscending : (n : ℕ) (ns : List ℕ) → IsAscending ns → IsAscending (insert_by leb n ns)
unfolding insert_by
insert_by-IsAscending n [] s = (tt, tt)
insert_by-IsAscending n (m ∷ ns) (low, s) = elim (Bool-cases (leb n m)) [
  | inl before ↦ rw (before) ((ground arith, All-ge n m ns (ground arith) low), (low, s))
  | inr after ↦ rw (after) (insert_by-All m n ns (ground arith) low, insert_by-IsAscending n ns s)
]

order_by-IsAscending : (ns : List ℕ) → IsAscending (order_by leb ns)
unfolding order_by
order_by-IsAscending [] = tt
order_by-IsAscending (n ∷ ns) = insert_by-IsAscending n (order_by leb ns) (order_by-IsAscending ns)

nth_up : (ns : List ℕ) (n : ℕ) → IsAscending ns → nth ns n ≤ nth ns (suc n)
unfolding nth
nth_up [] n s = omega arith
nth_up (x ∷ []) n s = omega arith
nth_up (x ∷ y ∷ []) zero ((h, hs), s) = h
nth_up (x ∷ y ∷ z ∷ ns) zero ((h, hs), s) = h
nth_up (x ∷ y ∷ ns) (suc n) (low, s) = nth_up (y ∷ ns) n s

order_by-IsRising : (ns : List ℕ) → IsRising (order_by leb ns)
order_by-IsRising ns n =
    let next : n + 1 ≡ suc n = omega arith in
    rw (next) (nth_up (order_by leb ns) n (order_by-IsAscending ns))

percentile_le :
    (low more : ℕ) (ns : List ℕ)
    → ler (percentile_or_0 low ns) (percentile_or_0 (low + more) ns) ≡ true
unfolding percentile_or_0 percentile_cont
percentile_le low more [] = refl
percentile_le low more (n ∷ ns) =
    let places : (low + more) * length ns ≡ low * length ns + more * length ns = omega arith in
    let sorted = order_by leb (n ∷ ns) in
    let up = between_le sorted (low * length ns) (more * length ns) (order_by-IsRising (n ∷ ns)) in
    rw (places) (ground (arith, up))

-- The three percentiles of the latencies rise: the median is at most the 95th percentile, and this
-- at most the 99th, also over no event.
pub get_latency_percentiles_rise :
    (now window : ℕ) (events : List EventEntity)
    → let p = get_latency_percentiles now window events in
      (ler p.p50 p.p95 ≡ true) × (ler p.p95 p.p99 ≡ true)
unfolding get_latency_percentiles
get_latency_percentiles_rise now window events =
    let ns = latencies (events_within now window events) in
    (percentile_le 50 45 ns, percentile_le 95 4 ns)
