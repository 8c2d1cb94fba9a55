-- ===== src/Prelude/Texts.antt =====
-- Texts taken apart at a separator, as `String.prototype.split` does.
use Prim.Native.Char.{Char, code}
use Prim.Native.String.{String, ◌++◌ as str_append}
use text.Mathlib.TextLemmas.{cons-append, nil-append, head-eq_of_cons-eq}
use mathlib.Core.Path.{◌≡◌, refl, ap}
use Prim.Native.Nat.{ℕ, zero, suc}
use text.Mathlib.Text.{◌==◌ as str_eq}
use text.Mathlib.TextEquality.{eq_iff}
use mathlib.Core.Bool.{Bool, true, false, ◌||◌, ◌&&◌}
use mathlib.Core.Logic.{inl, inr}
use mathlib.Core.Option.{Option, none, some}
use mathlib.Core.List.{List, [], ◌∷◌}
use native.Mathlib.Omega.{arith}
use edge_sphere_self_hosted.Prelude.Tests.{◌==◌, if◌then◌else◌, Bool-cases}

-- `a || d` on a text that may be undefined.
abbrev pub setting_or : Option String → String → String
setting_or none d = d
setting_or (some t) d = if str_eq t "" then d else t

abbrev pub is_char : Char → Char → Bool
is_char c d = code d == code c

abbrev pub has_char : Char → String → Bool
has_char c String.[] = false
has_char c (String.◌∷◌ d s) = is_char c d || has_char c s

abbrev pub widen : Char → List String → List String
widen d [] = String.◌∷◌ d "" ∷ []
widen d (t ∷ ts) = String.◌∷◌ d t ∷ ts

abbrev pub split : Char → String → List String
split c String.[] = "" ∷ []
split c (String.◌∷◌ d s) = let rest = split c s in if is_char c d then "" ∷ rest else widen d rest

-- `String.prototype.startsWith`.
abbrev pub starts_with : (prefix text : String) → Bool
starts_with String.[] t = true
starts_with (String.◌∷◌ c p) String.[] = false
starts_with (String.◌∷◌ c p) (String.◌∷◌ d t) = is_char c d && starts_with p t

-- `substring(0, n)`.
abbrev pub take_chars : ℕ → String → String
take_chars zero t = ""
take_chars (suc n) String.[] = ""
take_chars (suc n) (String.◌∷◌ c t) = String.◌∷◌ c (take_chars n t)

-- `substring(n)`.
abbrev pub drop_chars : ℕ → String → String
drop_chars zero t = t
drop_chars (suc n) String.[] = ""
drop_chars (suc n) (String.◌∷◌ c t) = drop_chars n t

abbrev pub text_length : String → ℕ
text_length String.[] = 0
text_length (String.◌∷◌ c t) = suc (text_length t)

pub starts_with-append : (p t : String) → starts_with p (str_append p t) ≡ true
starts_with-append String.[] t = refl
starts_with-append (String.◌∷◌ c p) t =
    rw (cons-append c p t) (ground (arith, starts_with-append p t))

-- Two texts that start with different characters differ.
pub starts_apart :
    (c d : Char) (s t : String)
    → is_char c d ≡ false
    → str_eq (String.◌∷◌ c s) (String.◌∷◌ d t) ≡ false
starts_apart c d s t h = elim (Bool-cases (str_eq (String.◌∷◌ c s) (String.◌∷◌ d t))) [
  | inl same ↦
      let equal : String.◌∷◌ c s ≡ String.◌∷◌ d t =
        ground (arith, eq_iff (String.◌∷◌ c s) (String.◌∷◌ d t)) in
      let heads = ap code (head-eq_of_cons-eq equal) in absurd (ground arith)
  | inr apart ↦ apart
]

pub split-append :
    (c : Char) (t s : String)
    → has_char c t ≡ false
    → split c (str_append t (String.◌∷◌ c s)) ≡ t ∷ split c s
split-append c String.[] s h = rw (nil-append (String.◌∷◌ c s)) (ground arith)
split-append c (String.◌∷◌ d t) s h =
    rw (cons-append d t (String.◌∷◌ c s)) (ground (arith, split-append c t s))

pub split_whole : (c : Char) (t : String) → has_char c t ≡ false → split c t ≡ t ∷ []
split_whole c String.[] h = refl
split_whole c (String.◌∷◌ d t) h = ground (arith, split_whole c t)
