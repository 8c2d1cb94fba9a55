-- ===== src/Gateway/CdnCache/Headers.antt =====
-- Header tables: what is set stays findable, and setting a whole table over another.
use edge_sphere_self_hosted.Prelude.{
  ◌≡◌, refl, ap, ◌∙◌, sym, true, false, if◌then◌else◌, inl, inr, List, [], ◌∷◌, Option, none, some,
  String, str_eq, arith, eq_iff, Bool-cases,
}
use edge_sphere_self_hosted.Prelude.Maps.{lookup, insert, lookup-insert}
use edge_sphere_self_hosted.Prelude.Texts.{setting_or}
use edge_sphere_self_hosted.Gateway.CdnCache.{
  Headers, Upstream, set_headers, set_default, pass_headers, piped, sent_headers,
}

-- No name stands twice.
abbrev pub Unique : Headers → Type 0
Unique [] = Unit
Unique ((name, value) ∷ headers) = (lookup name headers ≡ none) × Unique headers

-- The second table is without doubles and has every name of the first.
abbrev pub Extends : Headers → Headers → Type 0
Extends base headers =
    Unique headers × ((name : String) → lookup name headers ≡ none → lookup name base ≡ none)

insert-Unique :
    (name value : String) (headers : Headers) → Unique headers → Unique (insert name value headers)
insert-Unique name value [] h = (refl, tt)
insert-Unique name value ((held, old) ∷ rest) (fresh, h) = elim (Bool-cases (str_eq held name)) [
  | inl same ↦
      let absent : lookup name rest ≡ none = ground (arith, eq_iff held name) in rw same (absent, h)
  | inr other ↦
      let absent : lookup held (insert name value rest) ≡ none =
        ground (arith, eq_iff held name, eq_iff name held, lookup-insert name held value rest) in
      rw other (absent, insert-Unique name value rest h)
]

pub Extends-refl : (headers : Headers) → Unique headers → Extends headers headers
Extends-refl headers h = (h, λ name absent. absent)

pub insert-Extends :
    (base : Headers) (name value : String) (headers : Headers)
    → Extends base headers
    → Extends base (insert name value headers)
insert-Extends base name value headers (unique, has) = (
  insert-Unique name value headers unique,
  λ wanted absent.
      let before : lookup wanted headers ≡ none =
        ground (arith, lookup-insert name wanted value headers) in
      has wanted before,
)

pass_headers-Extends :
    (base : Headers) (entries : List (String × String)) (headers : Headers)
    → Extends base headers
    → Extends base (pass_headers entries headers)
unfolding pass_headers
pass_headers-Extends base [] headers h = h
pass_headers-Extends base ((name, value) ∷ entries) headers h =
    elim (Bool-cases (str_eq value "")) [
      | inl empty ↦ rw empty (pass_headers-Extends base entries headers h)
      | inr given ↦ rw given (
          pass_headers-Extends base entries (insert name value headers)
            (insert-Extends base name value headers h))
    ]

pub piped-Extends :
    (base headers : Headers) (answer : Option Upstream)
    → Extends base headers
    → Extends base (piped headers answer).headers
unfolding piped
piped-Extends base headers none h = h
piped-Extends base headers (some upstream) h =
    insert-Extends base "x-gateway-region" "global" (pass_headers upstream.headers headers)
      (pass_headers-Extends base upstream.headers headers h)

abbrev pub first_some : Option String → Option String → Option String
first_some none d = d
first_some (some v) d = some v

pub lookup-set_headers :
    (wanted : String) (entries headers : Headers)
    → Unique entries
    → lookup wanted (set_headers entries headers)
      ≡ first_some (lookup wanted entries) (lookup wanted headers)
unfolding set_headers
lookup-set_headers wanted [] headers h = refl
lookup-set_headers wanted ((name, value) ∷ entries) headers (fresh, h) =
    let later = lookup-set_headers wanted entries (insert name value headers) h in
    let set = lookup-insert name wanted value headers in
    elim (Bool-cases (str_eq name wanted)) [
      | inl same ↦
          let absent : lookup wanted entries ≡ none = ground (arith, eq_iff name wanted) in
          rw (later, absent, set, same) refl
      | inr other ↦ rw (later, set, other) refl
    ]

missing-setting :
    (o : Option String) (d : String) → str_eq (setting_or o "") "" ≡ true → setting_or o d ≡ d
missing-setting none d h = refl
missing-setting (some t) d h = elim (Bool-cases (str_eq t "")) [
  | inl empty ↦ rw empty refl
  | inr full ↦ absurd (cc (rw full at h))
]

given-setting :
    (o : Option String) (d : String)
    → str_eq (setting_or o "") "" ≡ false
    → o ≡ some (setting_or o d)
given-setting none d h = absurd (cc h)
given-setting (some t) d h = elim (Bool-cases (str_eq t "")) [
  | inl empty ↦ absurd (cc (rw empty at h))
  | inr full ↦ rw full refl
]

lookup-set_default :
    (name wanted value : String) (headers : Headers)
    → lookup wanted (set_default name value headers) ≡ (
        if str_eq name wanted
        then some (setting_or (lookup name headers) value)
        else lookup wanted headers)
unfolding set_default
lookup-set_default name wanted value headers =
    elim (Bool-cases (str_eq (setting_or (lookup name headers) "") "")) [
      | inl missing ↦
          rw (missing, missing-setting (lookup name headers) value missing)
            (lookup-insert name wanted value headers)
      | inr given ↦ elim (Bool-cases (str_eq name wanted)) [
        | inl same ↦
            rw (given, same)
              (ap (λ n. lookup n headers) (sym ((eq_iff name wanted).0 same))
                ∙ given-setting (lookup name headers) value given)
        | inr other ↦ rw (given, other) refl
      ]
    ]

-- What a header is after `res.send` of a body, when it was `before`: the length is that of the body,
-- the etag and the type are set where there is none or an empty one, and another header is as it was.
abbrev pub sent_value : (etag length name : String) → (before : Option String) → Option String
sent_value etag length name before =
    if str_eq "etag" name
    then some (setting_or before etag)
    else if str_eq "content-length" name
    then some length
    else if str_eq "content-type" name
    then some (setting_or before "application/octet-stream")
    else before

pub lookup-sent_headers :
    (etag length name : String) (headers : Headers)
    → lookup name (sent_headers etag length headers)
      ≡ sent_value etag length name (lookup name headers)
unfolding sent_headers
lookup-sent_headers etag length name headers =
    let typed = set_default "content-type" "application/octet-stream" headers in
    let long = insert "content-length" length typed in
    let at_etag = lookup-set_default "etag" name etag long in
    let at_length = lookup-insert "content-length" name length typed in
    let at_type = lookup-set_default "content-type" name "application/octet-stream" headers in
    let etag_apart : lookup "etag" long ≡ lookup "etag" headers =
      lookup-insert "content-length" "etag" length typed
      ∙ lookup-set_default "content-type" "etag" "application/octet-stream" headers in
    elim (Bool-cases (str_eq "etag" name)) [
      | inl is_etag ↦
          let same = (eq_iff "etag" name).0 is_etag in
          rw (at_etag, is_etag)
            (ap (λ o. some (setting_or o etag)) (etag_apart ∙ ap (λ n. lookup n headers) same))
      | inr no_etag ↦ elim (Bool-cases (str_eq "content-length" name)) [
        | inl is_length ↦ rw (at_etag, no_etag, at_length, is_length) refl
        | inr no_length ↦ elim (Bool-cases (str_eq "content-type" name)) [
          | inl is_type ↦
              let same = (eq_iff "content-type" name).0 is_type in
              rw (at_etag, no_etag, at_length, no_length, at_type, is_type)
                (ap (λ n. some (setting_or (lookup n headers) "application/octet-stream")) same)
          | inr no_type ↦ rw (at_etag, no_etag, at_length, no_length, at_type, no_type) refl
        ]
      ]
    ]
