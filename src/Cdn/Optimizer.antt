-- ===== src/Cdn/Optimizer.antt =====
-- cdn/image-optimizer.service.ts: the steps that a transform asks of sharp, and the content type that
-- it answers with. sharp, the numbers with parseInt, and the number 80 are parameters.
pub mod Types
mod Tests
use edge_sphere_self_hosted.Prelude.{
  ℕ, List, [], ◌∷◌, Bool, true, false, ◌||◌, ◌&&◌, Option, none, some, String, str_eq,
  if◌then◌else◌,
}
use edge_sphere_self_hosted.Prelude.Texts.{starts_with, setting_or}
use edge_sphere_self_hosted.Auth.Users.{is_missing}
use edge_sphere_self_hosted.Cdn.Requests.{Query}

-- `String.prototype.includes`.
unfoldable pub includes : (part text : String) → Bool
includes part String.[] = starts_with part ""
includes part (String.◌∷◌ c t) = starts_with part (String.◌∷◌ c t) || includes part t

pub data Encoding : Type 0 where
  webp avif png jpeg : Encoding

unfoldable pub get_supported_formats : List String
get_supported_formats = "jpeg" ∷ "png" ∷ "webp" ∷ "avif" ∷ []

-- The format for a content type when none is asked for.
unfoldable pub infer_format : (content_type : String) → String
infer_format content_type =
    if includes "webp" content_type
    then "webp"
    else if includes "png" content_type
    then "png"
    else if includes "jpeg" content_type || includes "jpg" content_type
    then "jpeg"
    else if includes "avif" content_type
    then "avif"
    else "jpeg"

unfoldable pub format_of : (fmt : Option String) (content_type : String) → String
format_of fmt content_type = setting_or fmt (infer_format content_type)

-- What a format makes of the pipeline and of the content type; another format leaves both.
unfoldable pub encode : (format content_type : String) → Option Encoding × String
encode format content_type =
    if str_eq format "webp"
    then (some webp, "image/webp")
    else if str_eq format "avif"
    then (some avif, "image/avif")
    else if str_eq format "png"
    then (some png, "image/png")
    else if str_eq format "jpeg" || str_eq format "jpg"
    then (some jpeg, "image/jpeg")
    else (none, content_type)

module _ (N : Type 0) where
  pub record Resize : Type 0 where
    pub width : Option N
    pub height : Option N
    pub fit : String

  -- The steps before toBuffer.
  pub record Pipeline : Type 0 where
    pub resize : Option Resize
    pub encoding : Option Encoding
    pub quality : N

  pub record TransformResult : Type 0 where
    pub bytes : String
    pub content_type : String
    pub original_size : ℕ
    pub optimized_size : ℕ

module _ {N : Type 0} (parse_int : String → N) (eighty : N) where
  -- `text ? parseInt(text, 10) : undefined`.
  unfoldable pub number_of : Option String → Option N
  number_of text = elim text [
    | none ↦ none
    | some t ↦ if str_eq t "" then none else some (parse_int t)
  ]

  unfoldable pub resize_of : Query → Option (Resize N)
  resize_of params =
      if is_missing params.w && is_missing params.h
      then none
      else some (record {
        width = number_of params.w;
        height = number_of params.h;
        fit = setting_or params.fit "cover";
      })

  unfoldable pub quality_of : Option String → N
  quality_of q = elim (number_of q) [ none ↦ eighty | some n ↦ n ]

  unfoldable pub pipeline_of : (content_type : String) → Query → Pipeline N
  pipeline_of content_type params = record {
    resize = resize_of params;
    encoding = (encode (format_of params.fmt content_type) content_type).0;
    quality = quality_of params.q;
  }

  module _ (sharp : (bytes : String) → Pipeline N → Option String) (size : String → ℕ) where
    -- `none` is the exception of sharp, which is thrown on.
    unfoldable pub transform : (bytes content_type : String) → Query → Option (TransformResult N)
    transform bytes content_type params =
        let pipeline = pipeline_of content_type params in
        elim (sharp bytes pipeline) [
          | none ↦ none
          | some data_made ↦ some (record {
            bytes = data_made;
            content_type = (encode (format_of params.fmt content_type) content_type).1;
            original_size = size bytes;
            optimized_size = size data_made;
          })
        ]
