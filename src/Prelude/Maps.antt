-- ===== src/Prelude/Maps.antt =====
-- The JavaScript `Map` with text keys, as an association list in insertion order.
use Prim.Native.String.{String}
use mathlib.Core.Path.{◌≡◌, refl, subst}
use mathlib.Core.Logic.{inl, inr}
use mathlib.Core.Option.{Option, none, some}
use mathlib.Core.List.{List, [], ◌∷◌}
use native.Mathlib.Omega.{arith}
use text.Mathlib.Text.{◌==◌ as str_eq}
use text.Mathlib.TextEquality.{eq_iff}
use edge_sphere_self_hosted.Prelude.Tests.{if◌then◌else◌, Bool-cases}
use edge_sphere_self_hosted.Prelude.Lists.{All}

module _ {ℓ} {V : Type ℓ} where
  abbrev pub lookup : (key : String) → List (String × V) → Option V
  lookup key [] = none
  lookup key ((held, value) ∷ rest) = if str_eq held key then some value else lookup key rest

  abbrev pub insert : (key : String) → V → List (String × V) → List (String × V)
  insert key value [] = (key, value) ∷ []
  insert key value ((held, old) ∷ rest) =
      let later = insert key value rest in
      if str_eq held key then (key, value) ∷ rest else (held, old) ∷ later

  -- Deletes each entry of the key; a `Map` has one at most.
  abbrev pub erase : (key : String) → List (String × V) → List (String × V)
  erase key [] = []
  erase key ((held, old) ∷ rest) =
      let later = erase key rest in if str_eq held key then later else (held, old) ∷ later

  pub lookup-insert :
      (key wanted : String) (value : V) (table : List (String × V))
      → lookup wanted (insert key value table)
        ≡ (if str_eq key wanted then some value else lookup wanted table)
  lookup-insert key wanted value [] = refl
  lookup-insert key wanted value ((held, old) ∷ rest) =
      let later = lookup-insert key wanted value rest in
      ground (arith, eq_iff held wanted, eq_iff held key, eq_iff key wanted)

  pub lookup-erase :
      (key wanted : String) (table : List (String × V))
      → lookup wanted (erase key table) ≡ (if str_eq key wanted then none else lookup wanted table)
  lookup-erase key wanted [] = ground arith
  lookup-erase key wanted ((held, old) ∷ rest) =
      let later = lookup-erase key wanted rest in
      ground (arith, eq_iff held wanted, eq_iff held key, eq_iff key wanted)

  pub lookup-All {κ} :
      (P : V → Type κ) (k : String) (m : List (String × V)) (v : V)
      → All (λ e. P e.1) m
      → lookup k m ≡ some v
      → P v
  lookup-All P k [] v h e = cc
  lookup-All P k ((j, w) ∷ m) v (h, hs) e = elim (Bool-cases (str_eq j k)) [
    | inl hit ↦ let same : w ≡ v = ground arith in subst P same h
    | inr miss ↦ lookup-All P k m v hs (ground arith)
  ]

  pub insert-All {κ} :
      (P : V → Type κ) (k : String) (v : V) (m : List (String × V))
      → P v
      → All (λ e. P e.1) m
      → All (λ e. P e.1) (insert k v m)
  insert-All P k v [] h hs = (h, tt)
  insert-All P k v ((j, w) ∷ m) h (p, ps) = elim (Bool-cases (str_eq j k)) [
    | inl hit ↦ rw hit (h, ps)
    | inr miss ↦ rw miss (p, insert-All P k v m h ps)
  ]
