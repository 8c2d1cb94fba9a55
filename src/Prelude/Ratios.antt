-- ===== src/Prelude/Ratios.antt =====
-- The non-negative JavaScript numbers that the services compare, as exact fractions.
use Prim.Native.Nat.{ℕ, suc, ◌*◌}
use mathlib.Core.Bool.{Bool}
use edge_sphere_self_hosted.Prelude.Tests.{ltb, leb, ◌==◌}

-- The fraction `num / suc den`.
pub record Ratio : Type 0 where
  pub num : ℕ
  pub den : ℕ

abbrev pub whole : ℕ → Ratio
whole n = record { num = n; den = 0 }

-- `a < b`, `a ≤ b` and `a === 0`.
abbrev pub ltr : Ratio → Ratio → Bool
ltr a b = ltb (a.num * suc b.den) (b.num * suc a.den)

abbrev pub ler : Ratio → Ratio → Bool
ler a b = leb (a.num * suc b.den) (b.num * suc a.den)

abbrev pub is_zero : Ratio → Bool
is_zero a = a.num == 0
