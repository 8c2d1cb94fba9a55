-- ===== src/Analytics/Queries/Services.antt =====
-- The requests of each service.
use edge_sphere_self_hosted.Prelude.{
  ℕ, suc, ◌≤◌, ◌≡◌, refl, sym, ap, ◌∙◌, List, [], ◌∷◌, Bool, true, false, ◌&&◌, Option, none, some,
  String, str_eq, eq_iff, if◌then◌else◌, or_else, is_some, keep, length, arith, Bool-cases,
  Option-cases, inl, inr,
}
use edge_sphere_self_hosted.Analytics.Ingestion.{EventEntity}
use edge_sphere_self_hosted.Analytics.Queries.{
  Group, group_by, order_by, larger, is_within, events_within, is_error, count_where, groups_of,
  ServiceCount, to_service_count, get_requests_by_service,
}
use edge_sphere_self_hosted.Analytics.Queries.Grouping.{
  total, total-map, total_same, total-order_by, total-group_by, group_by_once, IsDescending,
  order_by-IsDescending, map-IsDescending, one_if, chosen_count, is_chosen,
}

-- An event of the service inside the window.
abbrev pub is_of : (service : String) → EventEntity → Bool
is_of service e = elim e.service [ none ↦ false | some s ↦ str_eq s service ]

abbrev pub counts_for : (service : String) (now window : ℕ) → EventEntity → Bool
counts_for service now window e = is_within now window e && is_of service e

abbrev pub count_of : (service : String) → ServiceCount → ℕ
count_of service row = if str_eq row.service service then row.count else 0

abbrev pub error_count_of : (service : String) → ServiceCount → ℕ
error_count_of service row = if str_eq row.service service then row.error_count else 0

abbrev pub is_row_of : (service : String) → ServiceCount → ℕ
is_row_of service row = one_if (str_eq row.service service)

agrees : (service x k : String) → str_eq x k ≡ true → str_eq x service ≡ str_eq k service
agrees service x k e = ap (λ y. str_eq y service) ((eq_iff x k).0 e)

alone :
    (service x k : String) → str_eq x service ≡ true → str_eq k service ≡ true → str_eq x k ≡ true
alone service x k e f = (eq_iff x k).1 ((eq_iff x service).0 e ∙ sym ((eq_iff k service).0 f))

-- Filtering twice and then counting is one test.
count-keep :
    (of : EventEntity → Option String) (test : EventEntity → Bool) (service : String)
    (now window : ℕ) (events : List EventEntity)
    → count_where
        (λ e. str_eq (or_else (of e) "") service && test e)
        (keep (λ e. is_some (of e)) (keep (is_within now window) events))
      ≡ count_where
          (λ e.
            (is_within now window e && (elim (of e) [ none ↦ false | some s ↦ str_eq s service ]))
            && test e)
          events
count-keep of test service now window [] = refl
count-keep of test service now window (e ∷ events) =
    let rest = count-keep of test service now window events in
    elim (Bool-cases (is_within now window e)) [
      | inr out ↦ rw (out) rest
      | inl within ↦ elim (Option-cases (of e)) [
        | inl absent ↦ rw (within, absent) rest
        | inr (s, found) ↦ rw (within, found) (ground arith)
      ]
    ]

pub count_where_all : (events : List EventEntity) → count_where (λ e. true) events ≡ length events
count_where_all [] = refl
count_where_all (e ∷ events) = ap suc (count_where_all events)

pub count_where_and :
    (p : EventEntity → Bool) (events : List EventEntity)
    → count_where (λ e. p e && true) events ≡ count_where p events
count_where_and p [] = refl
count_where_and p (e ∷ events) = ground (arith, count_where_and p events)

abbrev service_groups : (now window : ℕ) → List EventEntity → List (Group String)
service_groups now window events = order_by larger (groups_of (λ e. e.service) now window events)

-- What the groups of a service say of the events that pass a test.
groups_of-counts :
    (test : EventEntity → Bool) (service : String) (now window : ℕ) (events : List EventEntity)
    → total (chosen_count str_eq (λ k. str_eq k service) test) (service_groups now window events)
      ≡ count_where (λ e. counts_for service now window e && test e) events
unfolding groups_of events_within
groups_of-counts test service now window events =
    let named = λ (k : String). str_eq k service in
    let key = λ (e : EventEntity). or_else e.service "" in
    let rows = keep (λ e. is_some e.service) (keep (is_within now window) events) in
    total-order_by (chosen_count str_eq named test) larger (group_by str_eq key rows)
    ∙ total-group_by str_eq named (agrees service) test key rows
    ∙ count-keep (λ e. e.service) test service now window events

all_counted :
    (service : String) (g : Group String)
    → count_of service (to_service_count g)
      ≡ chosen_count str_eq (λ k. str_eq k service) (λ e. true) g
unfolding to_service_count
all_counted service g = rw (count_where_all g.events) refl

one_group :
    (service : String) (now window : ℕ) (events : List EventEntity)
    → total (is_chosen str_eq (λ k. str_eq k service)) (service_groups now window events) ≤ 1
unfolding groups_of
one_group service now window events =
    let named = λ (k : String). str_eq k service in
    let key = λ (e : EventEntity). or_else e.service "" in
    let rows = keep (λ e. is_some e.service) (events_within now window events) in
    rw (total-order_by (is_chosen str_eq named) larger (group_by str_eq key rows))
      (group_by_once str_eq named (agrees service) key rows (alone service))

-- For every service, its row says how many events of it the window holds and how many of them are
-- errors, and it has no row where the window holds none; no service has two rows, and the rows come
-- with the largest count first.
pub get_requests_by_service-counts :
    (service : String) (now window : ℕ) (events : List EventEntity)
    → let rows = get_requests_by_service now window events in
      (total (count_of service) rows ≡ count_where (counts_for service now window) events)
      × (total (error_count_of service) rows
          ≡ count_where (λ e. counts_for service now window e && is_error e) events)
      × (total (is_row_of service) rows ≤ 1)
      × IsDescending (λ row. row.count) rows
unfolding get_requests_by_service to_service_count
get_requests_by_service-counts service now window events =
    let groups = service_groups now window events in
    let named = λ (k : String). str_eq k service in
    let counted =
      total-map (count_of service) to_service_count groups
      ∙ total_same (λ g. count_of service (to_service_count g))
          (chosen_count str_eq named (λ e. true)) groups (all_counted service)
      ∙ groups_of-counts (λ e. true) service now window events
      ∙ count_where_and (counts_for service now window) events in
    let failed =
      total-map (error_count_of service) to_service_count groups
      ∙ groups_of-counts is_error service now window events in
    let once : total (is_row_of service) (get_requests_by_service now window events) ≤ 1 =
      rw (total-map (is_row_of service) to_service_count groups)
        (one_group service now window events) in
    (
      counted,
      failed,
      once,
      map-IsDescending (λ row. row.count) to_service_count groups
          (order_by-IsDescending (λ g. length g.events)
            (groups_of (λ e. e.service) now window events)),
    )
