-- ===== src/Analytics/Search/Conditions.antt =====
-- The conditions of a search, told apart from the code: which rows the filters mean.
use edge_sphere_self_hosted.Prelude.{
  ℕ, suc, ◌+◌, ◌≤◌, ◌≡◌, refl, ◌∙◌, inl, inr, List, [], ◌∷◌, ◌++◌, Bool, true, ◌&&◌, ◌||◌, Option,
  none, some, String, str_eq, or_else, length, arith, All, All-append, All-map, Bool-cases,
  length-append,
}
use edge_sphere_self_hosted.Analytics.Ingestion.{EventEntity}
use edge_sphere_self_hosted.Analytics.Search.{
  StatusClass, Filters, Param, text_param, number_param, Condition, method_is, service_is,
  status_within, text_like, Building, class_base, add_method, add_service, add_status, pattern_of,
  add_query, where_clause, page_limit, search_events, param_at, equals, at_least, below, like,
  holds, all_hold,
}
use edge_sphere_self_hosted.Analytics.Search.Placeholders.{
  has_text, text_matches, in_class, status_matches, contains, query_matches, matches,
  param_at-append, param_at_next, two_more, InRange, InRange-mono,
}

module _ (ilike : (text pattern : String) → Bool) (row : EventEntity) where
  holds-append :
      (params more : List Param) (c : Condition)
      → InRange (length params) c
      → holds ilike (params ++ more) row c ≡ holds ilike params row c
  unfolding holds
  holds-append params more (method_is n) h = rw (param_at-append params more n h) refl
  holds-append params more (service_is n) h = rw (param_at-append params more n h) refl
  holds-append params more (status_within n m) (h, k) =
      rw (param_at-append params more n h, param_at-append params more m k) refl
  holds-append params more (text_like n) h = rw (param_at-append params more n h) refl

  all_hold-append :
      (params more : List Param) (conditions : List Condition)
      → All (InRange (length params)) conditions
      → all_hold ilike (params ++ more) row conditions ≡ all_hold ilike params row conditions
  unfolding all_hold
  all_hold-append params more [] h = refl
  all_hold-append params more (c ∷ conditions) (h, hs) =
      rw (holds-append params more c h, all_hold-append params more conditions hs) refl

  all_hold_one_more :
      (params : List Param) (conditions : List Condition) (c : Condition)
      → all_hold ilike params row (conditions ++ c ∷ [])
        ≡ (all_hold ilike params row conditions && holds ilike params row c)
  unfolding all_hold
  all_hold_one_more params [] c = ground arith
  all_hold_one_more params (d ∷ conditions) c =
      ground (arith, all_hold_one_more params conditions c)

  -- What is built so far says `meant` of the row.
  abbrev IsSound : Bool → Building → Type 0
  IsSound meant b =
      All (InRange (length b.params)) b.conditions
      × (all_hold ilike b.params row b.conditions ≡ meant)

  extend-IsSound :
      (meant extra : Bool) (b : Building) (more : List Param) (c : Condition)
      → IsSound meant b
      → InRange (length (b.params ++ more)) c
      → holds ilike (b.params ++ more) row c ≡ extra
      → IsSound
          (meant && extra)
          (record { params = b.params ++ more; conditions = b.conditions ++ c ∷ [] })
  extend-IsSound meant extra b more c (ranged, sound) in_range says =
      let wider : length b.params ≤ length (b.params ++ more) =
        omega (arith, length-append b.params more) in
      (
        All-append (InRange (length (b.params ++ more))) b.conditions (c ∷ [])
            (All-map (InRange (length b.params)) (InRange (length (b.params ++ more))) b.conditions
              (λ d k. InRange-mono (length b.params) (length (b.params ++ more)) d wider k) ranged)
            (in_range, tt),
        rw
            (
              all_hold_one_more (b.params ++ more) b.conditions c,
              all_hold-append b.params more b.conditions ranged,
              sound,
              says,
            )
            refl,
      )

  skip-IsSound : (meant : Bool) (b : Building) → IsSound meant b → IsSound (meant && true) b
  skip-IsSound meant b (ranged, sound) = (ranged, ground arith)

  pushed_at :
      (b : Building) (p : Param)
      → param_at (b.params ++ p ∷ []) (length (b.params ++ p ∷ [])) ≡ some p
  pushed_at b p =
      let last : length (b.params ++ p ∷ []) ≡ suc (length b.params) =
        omega (arith, length-append b.params (p ∷ [])) in
      rw last (param_at_next b.params p [])

  equals_text :
      (held : Option String) (t : String) → equals held (some (text_param t)) ≡ has_text held t
  unfolding equals
  equals_text none t = refl
  equals_text (some text) t = refl

  add_method-IsSound :
      (meant : Bool) (wanted : Option String) (b : Building)
      → IsSound meant b
      → IsSound (meant && text_matches wanted row.method) (add_method wanted b)
  unfolding add_method holds
  add_method-IsSound meant none b h = skip-IsSound meant b h
  add_method-IsSound meant (some t) b h = elim (Bool-cases (str_eq t "")) [
    | inl empty ↦ rw empty (skip-IsSound meant b h)
    | inr given ↦ rw given (
        extend-IsSound meant (has_text row.method t) b (text_param t ∷ [])
          (method_is (length (b.params ++ text_param t ∷ []))) h (omega arith)
          (rw (pushed_at b (text_param t)) (equals_text row.method t)))
  ]

  add_service-IsSound :
      (meant : Bool) (wanted : Option String) (b : Building)
      → IsSound meant b
      → IsSound (meant && text_matches wanted row.service) (add_service wanted b)
  unfolding add_service holds
  add_service-IsSound meant none b h = skip-IsSound meant b h
  add_service-IsSound meant (some t) b h = elim (Bool-cases (str_eq t "")) [
    | inl empty ↦ rw empty (skip-IsSound meant b h)
    | inr given ↦ rw given (
        extend-IsSound meant (has_text row.service t) b (text_param t ∷ [])
          (service_is (length (b.params ++ text_param t ∷ []))) h (omega arith)
          (rw (pushed_at b (text_param t)) (equals_text row.service t)))
  ]

  within_class :
      (c : StatusClass) (status : Option ℕ)
      → (at_least status (some (number_param (class_base c)))
          && below status (some (number_param (class_base c + 100))))
        ≡ in_class c status
  unfolding at_least below
  within_class c none = refl
  within_class c (some n) = refl

  add_status-IsSound :
      (meant : Bool) (wanted : Option StatusClass) (b : Building)
      → IsSound meant b
      → IsSound (meant && status_matches wanted row.status) (add_status wanted b)
  unfolding add_status holds
  add_status-IsSound meant none b h = skip-IsSound meant b h
  add_status-IsSound meant (some c) b h =
      let low = number_param (class_base c) in
      let high = number_param (class_base c + 100) in
      let size : length (b.params ++ low ∷ high ∷ []) ≡ length b.params + 2 =
        omega (arith, length-append b.params (low ∷ high ∷ [])) in
      let (first, second) = two_more b.params low high in
      extend-IsSound meant (in_class c row.status) b (low ∷ high ∷ [])
        (status_within (length b.params + 1) (length (b.params ++ low ∷ high ∷ []))) h
        (omega arith, omega arith) (rw (size, first, second) (within_class c row.status))

  like_text :
      (held : Option String) (t : String)
      → like ilike held (some (text_param (pattern_of t))) ≡ contains ilike held t
  unfolding like
  like_text none t = refl
  like_text (some text) t = refl

  add_query-IsSound :
      (meant : Bool) (wanted : Option String) (b : Building)
      → IsSound meant b
      → IsSound (meant && query_matches ilike wanted row) (add_query wanted b)
  unfolding add_query holds
  add_query-IsSound meant none b h = skip-IsSound meant b h
  add_query-IsSound meant (some t) b h =
      let p = text_param (pattern_of t) in
      elim (Bool-cases (str_eq t "")) [
        | inl empty ↦ rw empty (skip-IsSound meant b h)
        | inr given ↦ rw given (
            extend-IsSound meant
              ((contains ilike row.path t || contains ilike row.ip t)
                || contains ilike (some row.request_id) t)
              b (p ∷ []) (text_like (length (b.params ++ p ∷ []))) h (omega arith)
              (rw
                (
                  pushed_at b p,
                  like_text row.path t,
                  like_text row.ip t,
                  like_text (some row.request_id) t,
                )
                refl))
      ]

  where_clause-IsSound :
      (filters : Filters) → IsSound (matches ilike filters row) (where_clause filters)
  unfolding where_clause all_hold
  where_clause-IsSound filters =
      let none_yet : Building = record { conditions = []; params = [] } in
      let by_method = add_method-IsSound true filters.method none_yet (tt, refl) in
      let by_service =
        add_service-IsSound (text_matches filters.method row.method) filters.service
          (add_method filters.method none_yet) by_method in
      let by_status =
        add_status-IsSound
          (text_matches filters.method row.method && text_matches filters.service row.service)
          filters.status_class (add_service filters.service (add_method filters.method none_yet))
          by_service in
      add_query-IsSound
        ((text_matches filters.method row.method && text_matches filters.service row.service)
          && status_matches filters.status_class row.status)
        filters.query
        (add_status filters.status_class
          (add_service filters.service (add_method filters.method none_yet)))
        by_status

  -- Whatever the filters of a search are, the conditions of the query for its page and those of the
  -- query for its count hold for a row, read with the parameters of each, exactly when the row has
  -- the method, the service and the class of status that are asked for, where they are, and its
  -- path, address or id contains the text; LIMIT and OFFSET read the limit, which is at most 200,
  -- and the offset.
  pub search_events-finds :
      (filters : Filters)
      → let page = (search_events filters).0 in
        let count = (search_events filters).1 in
        (all_hold ilike page.params row page.conditions ≡ matches ilike filters row)
        × (all_hold ilike count.params row count.conditions ≡ matches ilike filters row)
        × (param_at page.params page.limit_at ≡ some (number_param (page_limit filters)))
        × (param_at page.params page.offset_at ≡ some (number_param (or_else filters.offset 0)))
        × (page_limit filters ≤ 200)
  unfolding search_events page_limit
  search_events-finds filters =
      let b = where_clause filters in
      let sound = where_clause-IsSound filters in
      let limit = number_param (page_limit filters) in
      let offset = number_param (or_else filters.offset 0) in
      (
        all_hold-append b.params (limit ∷ offset ∷ []) b.conditions sound.0 ∙ sound.1,
        sound.1,
        (two_more b.params limit offset).0,
        (two_more b.params limit offset).1,
        omega arith,
      )
