-- ===== src/Analytics/Search/Placeholders.antt =====
-- The rows that the filters of a search mean, and the parameters that placeholders name.
use mathlib.Core.List.{append_assoc}
use edge_sphere_self_hosted.Prelude.{
  ℕ, zero, suc, ◌+◌, ◌≤◌, ◌≡◌, refl, List, [], ◌∷◌, ◌++◌, Bool, true, false, ◌&&◌, ◌||◌, Option,
  none, some, String, str_eq, ltb, leb, length, arith, length-append,
}
use edge_sphere_self_hosted.Analytics.Ingestion.{EventEntity}
use edge_sphere_self_hosted.Analytics.Search.{
  StatusClass, Filters, Param, Condition, method_is, service_is, status_within, text_like,
  class_base, pattern_of, param_at,
}

-- The rows that the filters mean.
abbrev pub has_text : Option String → String → Bool
has_text none wanted = false
has_text (some text) wanted = str_eq text wanted

abbrev pub text_matches : Option String → Option String → Bool
text_matches none held = true
text_matches (some wanted) held = str_eq wanted "" || has_text held wanted

abbrev pub in_class : StatusClass → Option ℕ → Bool
in_class status_class none = false
in_class status_class (some status) =
    leb (class_base status_class) status && ltb status (class_base status_class + 100)

abbrev pub status_matches : Option StatusClass → Option ℕ → Bool
status_matches none status = true
status_matches (some status_class) status = in_class status_class status

module _ (ilike : (text pattern : String) → Bool) where
  abbrev pub contains : Option String → String → Bool
  contains none wanted = false
  contains (some text) wanted = ilike text (pattern_of wanted)

  abbrev pub query_matches : Option String → EventEntity → Bool
  query_matches none row = true
  query_matches (some wanted) row =
      str_eq wanted ""
      || ((contains row.path wanted || contains row.ip wanted)
          || ilike row.request_id (pattern_of wanted))

  abbrev pub matches : Filters → EventEntity → Bool
  matches filters row =
      ((text_matches filters.method row.method && text_matches filters.service row.service)
        && status_matches filters.status_class row.status)
      && query_matches filters.query row

pub param_at-append :
    (params more : List Param) (n : ℕ)
    → n ≤ length params
    → param_at (params ++ more) n ≡ param_at params n
unfolding param_at
param_at-append [] [] n h = refl
param_at-append [] (p ∷ more) zero h = refl
param_at-append [] (p ∷ more) (suc n) h = absurd (omega arith)
param_at-append (p ∷ params) more zero h = refl
param_at-append (p ∷ params) more (suc zero) h = refl
param_at-append (p ∷ params) more (suc (suc n)) h =
    param_at-append params more (suc n) (omega arith)

pub param_at_next :
    (params : List Param) (p : Param) (more : List Param)
    → param_at (params ++ p ∷ more) (suc (length params)) ≡ some p
unfolding param_at
param_at_next [] p more = refl
param_at_next (q ∷ params) p more = param_at_next params p more

-- Two parameters behind others.
pub two_more :
    (params : List Param) (p q : Param)
    → (param_at (params ++ p ∷ q ∷ []) (length params + 1) ≡ some p)
      × (param_at (params ++ p ∷ q ∷ []) (length params + 2) ≡ some q)
two_more params p q =
    let next : length params + 1 ≡ suc (length params) = omega arith in
    let after_next : length params + 2 ≡ suc (length (params ++ p ∷ [])) =
      omega (arith, length-append params (p ∷ [])) in
    let at_end = param_at_next (params ++ p ∷ []) q [] in
    (
      rw next (param_at_next params p (q ∷ [])),
      rw after_next (rw (append_assoc params (p ∷ []) (q ∷ [])) at at_end),
    )

-- The placeholders of a condition are numbers of parameters.
abbrev pub InRange : ℕ → Condition → Type 0
InRange count (method_is n) = n ≤ count
InRange count (service_is n) = n ≤ count
InRange count (status_within n m) = (n ≤ count) × (m ≤ count)
InRange count (text_like n) = n ≤ count

pub InRange-mono : (a b : ℕ) (c : Condition) → a ≤ b → InRange a c → InRange b c
InRange-mono a b (method_is n) h k = omega arith
InRange-mono a b (service_is n) h k = omega arith
InRange-mono a b (status_within n m) h (k, l) = (omega arith, omega arith)
InRange-mono a b (text_like n) h k = omega arith
