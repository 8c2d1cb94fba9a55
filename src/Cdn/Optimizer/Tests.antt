-- ===== src/Cdn/Optimizer/Tests.antt =====
-- A GIF that is asked for as nothing else becomes a JPEG; a format that is not supported is ignored.
use edge_sphere_self_hosted.Prelude.{ℕ, ◌≡◌, refl, true, Option, none, some, String}
use edge_sphere_self_hosted.Prelude.Texts.{setting_or, text_length}
use edge_sphere_self_hosted.Auth.Users.{is_missing}
use edge_sphere_self_hosted.Cdn.Requests.{Query}
use edge_sphere_self_hosted.Cdn.Optimizer.{
  Encoding, includes, infer_format, format_of, encode, Pipeline, TransformResult, number_of,
  resize_of, quality_of, pipeline_of, transform,
}
use edge_sphere_self_hosted.Cdn.Optimizer.Types.{IsTyped, is_supported, transform-type}

abbrev plain : Query
plain = record { w = some "64"; h = none; fmt = none; q = none; fit = none }

abbrev copies : String → Pipeline ℕ → Option String
copies bytes pipeline = some bytes

abbrev jpeg_of_gif : TransformResult ℕ
jpeg_of_gif = record {
  bytes = "GIF";
  content_type = "image/jpeg";
  original_size = 3;
  optimized_size = 3;
}

becomes_jpeg :
    transform text_length 80 copies text_length "GIF" "image/gif" plain ≡ some jpeg_of_gif
unfolding transform pipeline_of resize_of quality_of number_of encode format_of infer_format
    includes is_missing
becomes_jpeg = refl

transform-type_example :
    let asked = (pipeline_of text_length 80 "image/gif" plain).encoding in
    IsTyped asked "image/gif" jpeg_of_gif.content_type
    × (is_supported (setting_or plain.fmt "jpeg") ≡ true → (e : Encoding) × (asked ≡ some e))
transform-type_example =
    transform-type text_length 80 copies text_length "GIF" "image/gif" plain jpeg_of_gif
      becomes_jpeg

ignored : (encode (format_of (some "gif") "image/png") "image/png").1 ≡ "image/png"
unfolding encode format_of
ignored = refl
