-- ===== src/Cdn/Optimizer/Types.antt =====
-- The content type of a transformed image.
use edge_sphere_self_hosted.Prelude.{
  ℕ, ◌≡◌, refl, Bool, true, false, ◌||◌, any, ◌⊎◌, inl, inr, Option, none, some, String, str_eq,
  if◌then◌else◌, Bool-cases, Option-cases,
}
use edge_sphere_self_hosted.Prelude.Texts.{setting_or}
use edge_sphere_self_hosted.Cdn.Requests.{Query}
use edge_sphere_self_hosted.Cdn.Optimizer.{
  Encoding, webp, avif, png, jpeg, includes, get_supported_formats, infer_format, format_of, encode,
  Pipeline, TransformResult, pipeline_of, transform,
}

abbrev pub is_supported : String → Bool
is_supported format = any (λ f. str_eq format f) get_supported_formats

-- Each encoding goes with its content type; without one the content type is as it was.
abbrev pub IsTyped : (asked : Option Encoding) → (before after : String) → Type 0
IsTyped asked before after =
    ((asked ≡ some webp) × (after ≡ "image/webp"))
    ⊎ (((asked ≡ some avif) × (after ≡ "image/avif"))
        ⊎ (((asked ≡ some png) × (after ≡ "image/png"))
            ⊎ (((asked ≡ some jpeg) × (after ≡ "image/jpeg"))
                ⊎ ((asked ≡ none) × (after ≡ before)))))

encode-IsTyped :
    (format content_type : String)
    → IsTyped (encode format content_type).0 content_type (encode format content_type).1
unfolding encode
encode-IsTyped format content_type = elim (Bool-cases (str_eq format "webp")) [
  | inl is_webp ↦ rw (is_webp) (inl (refl, refl))
  | inr no_webp ↦ elim (Bool-cases (str_eq format "avif")) [
    | inl is_avif ↦ rw (no_webp, is_avif) (inr (inl (refl, refl)))
    | inr no_avif ↦ elim (Bool-cases (str_eq format "png")) [
      | inl is_png ↦ rw (no_webp, no_avif, is_png) (inr (inr (inl (refl, refl))))
      | inr no_png ↦ elim (Bool-cases (str_eq format "jpeg" || str_eq format "jpg")) [
        | inl is_jpeg ↦ rw (no_webp, no_avif, no_png, is_jpeg) (inr (inr (inr (inl (refl, refl)))))
        | inr other ↦ rw (no_webp, no_avif, no_png, other) (inr (inr (inr (inr (refl, refl)))))
      ]
    ]
  ]
]

-- A supported format has an encoding.
supported-encode :
    (format content_type : String)
    → is_supported format ≡ true
    → (e : Encoding) × ((encode format content_type).0 ≡ some e)
unfolding encode get_supported_formats
supported-encode format content_type h = elim (Bool-cases (str_eq format "webp")) [
  | inl is_webp ↦ rw (is_webp) (webp, refl)
  | inr no_webp ↦ elim (Bool-cases (str_eq format "avif")) [
    | inl is_avif ↦ rw (no_webp, is_avif) (avif, refl)
    | inr no_avif ↦ elim (Bool-cases (str_eq format "png")) [
      | inl is_png ↦ rw (no_webp, no_avif, is_png) (png, refl)
      | inr no_png ↦ elim (Bool-cases (str_eq format "jpeg")) [
        | inl is_jpeg ↦ rw (no_webp, no_avif, no_png, is_jpeg) (jpeg, refl)
        | inr no_jpeg ↦ absurd (cc (rw (no_webp, no_avif, no_png, no_jpeg) at h))
      ]
    ]
  ]
]

branch-supported :
    (a b c d : Bool)
    → is_supported (
        if a
        then "webp"
        else if b
        then "png"
        else if c
        then "jpeg"
        else if d
        then "avif"
        else "jpeg")
      ≡ true
unfolding get_supported_formats
branch-supported true b c d = refl
branch-supported false true c d = refl
branch-supported false false true d = refl
branch-supported false false false true = refl
branch-supported false false false false = refl

infer_format-supported : (content_type : String) → is_supported (infer_format content_type) ≡ true
unfolding infer_format
infer_format-supported content_type =
    branch-supported (includes "webp" content_type) (includes "png" content_type)
      (includes "jpeg" content_type || includes "jpg" content_type) (includes "avif" content_type)

format_of-supported :
    (fmt : Option String) (content_type : String)
    → is_supported (setting_or fmt "jpeg") ≡ true
    → is_supported (format_of fmt content_type) ≡ true
unfolding format_of
format_of-supported none content_type h = infer_format-supported content_type
format_of-supported (some fmt) content_type h = elim (Bool-cases (str_eq fmt "")) [
  | inl empty ↦ rw (empty) (infer_format-supported content_type)
  | inr given ↦ rw (given) (rw (given) at h)
]

same_type :
    {N : Type 0} (made result : TransformResult N)
    → ◌≡◌ {A = Option (TransformResult N)} (some made) (some result)
    → made.content_type ≡ result.content_type
same_type made result e = cc

module _ {N : Type 0} (parse_int : String → N) (eighty : N)
    (sharp : (bytes : String) → Pipeline N → Option String) (size : String → ℕ) where
  transform-typed :
      (bytes content_type : String) (params : Query) (result : TransformResult N)
      → transform parse_int eighty sharp size bytes content_type params ≡ some result
      → (encode (format_of params.fmt content_type) content_type).1 ≡ result.content_type
  unfolding transform
  transform-typed bytes content_type params result e =
      elim (Option-cases (sharp bytes (pipeline_of parse_int eighty content_type params))) [
        | inl threw ↦ absurd (cc (rw (transform, threw) at e))
        | inr (made, found) ↦
            let answer : TransformResult N = record {
              bytes = made;
              content_type = (encode (format_of params.fmt content_type) content_type).1;
              original_size = size bytes;
              optimized_size = size made;
            } in
            same_type answer result (rw (transform, found) at e)
      ]

  -- An image that was transformed is answered as image/webp, image/avif, image/png or image/jpeg
  -- exactly as sharp was asked to encode it, and as what it came as where sharp was asked for no
  -- encoding; and sharp is asked for one where the request names a supported format or none.
  pub transform-type :
      (bytes content_type : String) (params : Query) (result : TransformResult N)
      → transform parse_int eighty sharp size bytes content_type params ≡ some result
      → let asked = (pipeline_of parse_int eighty content_type params).encoding in
        IsTyped asked content_type result.content_type
        × (is_supported (setting_or params.fmt "jpeg") ≡ true → (e : Encoding) × (asked ≡ some e))
  unfolding pipeline_of
  transform-type bytes content_type params result made =
      let format = format_of params.fmt content_type in
      let answered = transform-typed bytes content_type params result made in
      (
        rw⁻¹ (answered) (encode-IsTyped format content_type),
        λ supported.
            supported-encode format content_type
              (format_of-supported params.fmt content_type supported),
      )
