-- ===== src/Gateway/Config/Tests.antt =====
-- An update of one setting by an admin, as a number and as a text that is none. A number is written
-- in strokes.
use edge_sphere_self_hosted.Prelude.{
  ℕ, zero, suc, ◌-◌, ◌≡◌, refl, ap, [], Option, none, some, true, false, String, str_eq, or_else,
  ◌⊎◌, inl, inr, Bool-cases, eq_iff, if◌then◌else◌, arith,
}
use edge_sphere_self_hosted.Prelude.Texts.{text_length, starts_with}
use edge_sphere_self_hosted.Gateway.Config.{
  config_key, Numbers, number, other, Updates, Hashes, ok, forbidden, bad_request, get_config,
  hgetall, hset, hset_fields, written, text_of, fields_of, update_config, is_outside, out_of_range,
  read_number, patch_config, get_rate_limit_per_ip, get_max_file_size_mb,
  get_configured_ttl_seconds,
}
use edge_sphere_self_hosted.Gateway.Config.Readers.{read_after, IsInside, patch_config-reads}

abbrev strokes : ℕ → String
strokes zero = "|"
strokes (suc n) = String.◌∷◌ "|" (strokes n)

abbrev count : String → Option ℕ
count t = if starts_with "|" t then some (text_length t - 1) else none

text_length-strokes : (n : ℕ) → text_length (strokes n) ≡ suc n
text_length-strokes zero = refl
text_length-strokes (suc n) = ap suc (text_length-strokes n)

count-strokes : (n : ℕ) → count (strokes n) ≡ some n
count-strokes zero = refl
count-strokes (suc n) =
    let counted : text_length (strokes n) ≡ suc n = text_length-strokes n in
    rw (counted) (ap (λ m. some m) (omega arith))

strokes-given : (n : ℕ) → str_eq (strokes n) "" ≡ false
strokes-given zero = refl
strokes-given (suc n) = elim (Bool-cases (str_eq (strokes (suc n)) "")) [
  | inr given ↦ given
  | inl blank ↦
      let same = ap text_length ((eq_iff (strokes (suc n)) "").0 blank) in absurd (omega arith)
]

abbrev numbers : Numbers
numbers = record {
  digits = strokes;
  Parsed = Option ℕ;
  natural = λ n. some n;
  parse_int = count;
  parse_int-digits = count-strokes;
  digits-given = strokes-given;
}

abbrev admin : Option String
admin = some "admin"

abbrev limit_seven : Updates
limit_seven = record {
  cache_ttl_seconds = none;
  max_file_size_mb = none;
  rate_limit_per_ip = some (number 7);
}

abbrev no_settings : Hashes
no_settings = []

patch_config-reads_example :
    let (after, answer) = patch_config numbers admin limit_seven no_settings in
    ((after ≡ no_settings) × ((answer ≡ forbidden) ⊎ (answer ≡ bad_request)))
    ⊎ ((answer ≡ ok (get_config numbers after))
        × (or_else admin "" ≡ "admin")
        × (IsInside 1 86400 none × IsInside 1 10240 none × IsInside 1 100000 (some (number 7)))
        × ((get_rate_limit_per_ip numbers after
              ≡ read_after numbers 100
                  (some (number 7))
                  (get_rate_limit_per_ip numbers no_settings))
            × (get_max_file_size_mb numbers true 10 after
                ≡ read_after numbers 10 none (get_max_file_size_mb numbers true 10 no_settings))
            × (get_configured_ttl_seconds numbers 20 after
                ≡ read_after numbers 20 none (get_configured_ttl_seconds numbers 20 no_settings))))
patch_config-reads_example = patch_config-reads numbers admin limit_seven no_settings 10 20

-- A text that is no number passes the ranges, and the limit is NaN from then on.
no_limit :
    get_rate_limit_per_ip numbers
      (patch_config numbers admin
        (record limit_seven { rate_limit_per_ip = some (other "abc" (λ n. false) (λ n. false)) })
        no_settings).0
    ≡ none
unfolding get_rate_limit_per_ip read_number patch_config update_config out_of_range is_outside hset
    hset_fields hgetall fields_of text_of written config_key
no_limit = refl
