-- ===== src/Shared/Parts.antt =====
-- packages/shared/src/phase4.ts: the parts of a multipart upload. Sizes are below 2 ^ 53, where the
-- division in doubles and `Math.ceil` are exact for this part size.
mod Tests
use edge_sphere_self_hosted.Prelude.{
  ℕ, zero, suc, ◌+◌, ◌-◌, ◌*◌, ◌/◌, ◌≤◌, ◌<◌, ◌≡◌, refl, ap, ◌∙◌, min, leb, if◌then◌else◌, List, [],
  ◌∷◌, ◌++◌, map, arith,
}

abbrev pub part_size : ℕ
part_size = 5 * 1024 * 1024

-- `Math.ceil(n / part_size)`.
pub ceil_parts : ℕ → ℕ
ceil_parts n = (n + part_size - 1) / part_size

unfoldable pub compute_part_count : ℕ → ℕ
unfolding ceil_parts
compute_part_count total = if leb total part_size then 1 else ceil_parts total

pub record PartRange : Type 0 where
  pub start : ℕ
  pub end : ℕ
  pub size : ℕ

unfoldable pub get_part_range : ℕ → ℕ → PartRange
get_part_range part_number total =
    let start = (part_number - 1) * part_size in
    let end = min (part_number * part_size) total in
    record { start = start; end = end; size = end - start }

-- There is at least one part, the parts have room for the upload, and for an upload of some bytes
-- none of them is superfluous.
pub part_count_bounds :
    (total : ℕ)
    → (1 ≤ compute_part_count total)
      × (total ≤ compute_part_count total * part_size)
      × (1 ≤ total → (compute_part_count total - 1) * part_size < total)
unfolding compute_part_count
part_count_bounds total = (ground arith, ground arith, ground arith)

full_parts : (total : ℕ) → (compute_part_count total - 1) * part_size ≤ total
unfolding compute_part_count
full_parts total = ground arith

-- The bytes of the first `k` parts.
pub sizes_below : ℕ → ℕ → ℕ
sizes_below zero total = 0
sizes_below (suc k) total = sizes_below k total + (get_part_range (suc k) total).size

sizes_below_lem : (k total : ℕ) → sizes_below k total ≡ min (k * part_size) total
unfolding sizes_below get_part_range
sizes_below_lem zero total = omega arith
sizes_below_lem (suc k) total = omega (arith, sizes_below_lem k total)

-- The parts of an upload cover its bytes: the first starts at 0, each starts where the one before
-- it ends, the last ends at the last byte, and their sizes add up to the whole.
pub parts_cover :
    (total : ℕ)
    → let n = compute_part_count total in
      ((get_part_range 1 total).start ≡ 0)
      × ((k : ℕ)
          → 1 ≤ k
          → k < n
          → (get_part_range (suc k) total).start ≡ (get_part_range k total).end)
      × ((get_part_range n total).end ≡ total)
      × (sizes_below n total ≡ total)
unfolding get_part_range
parts_cover total =
    let b = part_count_bounds total in
    (
      omega arith,
      λ k lo hi. omega (arith, full_parts total),
      omega (arith, b),
      omega (arith, b, sizes_below_lem (compute_part_count total) total),
    )
