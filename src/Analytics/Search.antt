-- ===== src/Analytics/Search.antt =====
-- analytics/analytics.service.ts: searchEvents, the query that it builds from its filters, and
-- getRecentEvents. The text of a WHERE clause is kept as the list of its conditions, each with the
-- numbers of its placeholders. The controller hands the class of a status on as it came; here it is
-- one of the four that the type allows.
pub mod Placeholders
pub mod Conditions
mod Tests
use Prim.Native.String.{◌++◌ as str_append}
use edge_sphere_self_hosted.Prelude.{
  ℕ, zero, suc, ◌+◌, ◌*◌, min, List, [], ◌∷◌, ◌++◌, Bool, true, false, ◌&&◌, ◌||◌, Option, none,
  some, String, str_eq, ltb, leb, if◌then◌else◌, or_else, length, take, drop, keep,
}
use edge_sphere_self_hosted.Analytics.Ingestion.{EventEntity}

pub data StatusClass : Type 0 where
  class_2xx class_3xx class_4xx class_5xx : StatusClass

pub record Filters : Type 0 where
  pub method : Option String
  pub service : Option String
  pub status_class : Option StatusClass
  pub query : Option String
  pub limit : Option ℕ
  pub offset : Option ℕ

pub data Param : Type 0 where
  text_param : String → Param
  number_param : ℕ → Param

-- `method = $n`, `service = $n`, `status >= $n AND status < $m`, and
-- `(path ILIKE $n OR ip::text ILIKE $n OR request_id::text ILIKE $n)`.
pub data Condition : Type 0 where
  method_is service_is : ℕ → Condition
  status_within : ℕ → ℕ → Condition
  text_like : ℕ → Condition

pub record Building : Type 0 where
  pub conditions : List Condition
  pub params : List Param

unfoldable pub class_base : StatusClass → ℕ
class_base class_2xx = 2 * 100
class_base class_3xx = 3 * 100
class_base class_4xx = 4 * 100
class_base class_5xx = 5 * 100

unfoldable pub add_method : Option String → Building → Building
add_method none b = b
add_method (some method) b =
    if str_eq method ""
    then b
    else (let params = b.params ++ text_param method ∷ [] in
        record { params = params; conditions = b.conditions ++ method_is (length params) ∷ [] })

unfoldable pub add_service : Option String → Building → Building
add_service none b = b
add_service (some service) b =
    if str_eq service ""
    then b
    else (let params = b.params ++ text_param service ∷ [] in
        record { params = params; conditions = b.conditions ++ service_is (length params) ∷ [] })

unfoldable pub add_status : Option StatusClass → Building → Building
add_status none b = b
add_status (some status_class) b =
    let base = class_base status_class in
    let params = b.params ++ number_param base ∷ number_param (base + 100) ∷ [] in
    record {
      params = params;
      conditions = b.conditions ++ status_within (length b.params + 1) (length params) ∷ [];
    }

unfoldable pub pattern_of : (query : String) → String
pattern_of query = str_append "%" (str_append query "%")

unfoldable pub add_query : Option String → Building → Building
add_query none b = b
add_query (some query) b =
    if str_eq query ""
    then b
    else (let params = b.params ++ text_param (pattern_of query) ∷ [] in
        record { params = params; conditions = b.conditions ++ text_like (length params) ∷ [] })

unfoldable pub where_clause : Filters → Building
where_clause filters = add_query filters.query (
    add_status filters.status_class (
      add_service filters.service
        (add_method filters.method (record { conditions = []; params = [] }))))

-- The query of a page: its conditions, the placeholders of LIMIT and OFFSET, and the parameters.
pub record DataQuery : Type 0 where
  pub conditions : List Condition
  pub limit_at : ℕ
  pub offset_at : ℕ
  pub params : List Param

pub record CountQuery : Type 0 where
  pub conditions : List Condition
  pub params : List Param

unfoldable pub page_limit : Filters → ℕ
page_limit filters = min (or_else filters.limit 50) 200

unfoldable pub search_events : Filters → DataQuery × CountQuery
search_events filters =
    let b = where_clause filters in
    (
      record {
        conditions = b.conditions;
        limit_at = length b.params + 1;
        offset_at = length b.params + 2;
        params =
            b.params
            ++ number_param (page_limit filters) ∷ number_param (or_else filters.offset 0) ∷ [];
      },
      record { conditions = b.conditions; params = b.params },
    )

-- What the database makes of a query. Placeholders are counted from 1, a comparison with null is not
-- true, and `ilike` is the database's.
unfoldable pub param_at : List Param → ℕ → Option Param
param_at [] n = none
param_at (p ∷ params) zero = none
param_at (p ∷ params) (suc zero) = some p
param_at (p ∷ params) (suc (suc n)) = param_at params (suc n)

unfoldable pub equals : Option String → Option Param → Bool
equals (some text) (some (text_param t)) = str_eq text t
equals (some text) (some (number_param n)) = false
equals (some text) none = false
equals none param = false

unfoldable pub at_least : Option ℕ → Option Param → Bool
at_least (some n) (some (number_param low)) = leb low n
at_least (some n) (some (text_param t)) = false
at_least (some n) none = false
at_least none param = false

unfoldable pub below : Option ℕ → Option Param → Bool
below (some n) (some (number_param high)) = ltb n high
below (some n) (some (text_param t)) = false
below (some n) none = false
below none param = false

module _ (ilike : (text pattern : String) → Bool) where
  unfoldable pub like : Option String → Option Param → Bool
  like (some text) (some (text_param pattern)) = ilike text pattern
  like (some text) (some (number_param n)) = false
  like (some text) none = false
  like none param = false

  unfoldable pub holds : List Param → EventEntity → Condition → Bool
  holds params row (method_is n) = equals row.method (param_at params n)
  holds params row (service_is n) = equals row.service (param_at params n)
  holds params row (status_within n m) =
      at_least row.status (param_at params n) && below row.status (param_at params m)
  holds params row (text_like n) =
      (like row.path (param_at params n) || like row.ip (param_at params n))
      || like (some row.request_id) (param_at params n)

  unfoldable pub all_hold : List Param → EventEntity → List Condition → Bool
  all_hold params row [] = true
  all_hold params row (c ∷ conditions) = holds params row c && all_hold params row conditions
